-- ===== src/Tables/Found.antt =====
-- The game's search in the tables that `build` writes finds every stream.
use street_fighter_alpha_2_n.Base.{
  ℕ, zero, suc, ◌+◌, ◌<◌, ◌≡◌, inl, inr, then_ok, refl, ap, ◌∙◌, sym, some, List, [], ◌∷◌, map,
  length, get_or, replicate, length-replicate, All, holds, holds_iff, Bool-cases, Option-cases,
  high, low16, Result, ok, err, bind_ok, Dict, empty, arith,
}
use street_fighter_alpha_2_n.Tables.{
  Error, Key, key_at, slots, window_base, source_key, scan, fill, check_from, slot_at, verify,
  allocate,
}
use street_fighter_alpha_2_n.Tables.Build.{ByteTables, passed_on, blank, enter_all, build}
use street_fighter_alpha_2_n.Tables.Lookup.{
  destination_at, find_slot, Agrees, seek_from_lem, scan_from-lt,
}
use street_fighter_alpha_2_n.Tables.Entered.{Stand, enter_all_lem}

check_from-scan :
    (keys : List Key) (index : ℕ) (placed : List ℕ) (table : Dict ℕ) (i : ℕ)
    → check_from keys index placed table ≡ ok tt
    → i < length keys
    → scan table (key_at keys i).0 (key_at keys i).1 ≡ some (slot_at placed (index + i))
unfolding check_from
check_from-scan [] index placed table i h below = absurd (omega (arith, below))
check_from-scan ((bank, addr) ∷ keys) index placed table zero h below =
    elim (Bool-cases (holds (scan table bank addr) (slot_at placed index))) [
      | inr e ↦ absurd (cc (rw (check_from, e) at h))
      | inl e ↦
          let here : index ≡ index + 0 = omega arith in
          (holds_iff (scan table bank addr) (slot_at placed index)).0 e
          ∙ ap (λ k. some (slot_at placed k)) here
    ]
check_from-scan ((bank, addr) ∷ keys) index placed table (suc i) h below =
    elim (Bool-cases (holds (scan table bank addr) (slot_at placed index))) [
      | inr e ↦ absurd (cc (rw (check_from, e) at h))
      | inl e ↦
          let next : suc index + i ≡ index + suc i = omega arith in
          check_from-scan keys (suc index) placed table i (rw (check_from, e) at h)
            (omega (arith, below))
          ∙ ap (λ k. some (slot_at placed k)) next
    ]

fill-length :
    (keys : List Key) (placed : List ℕ) (table table' : Dict ℕ)
    → fill keys placed table ≡ ok table'
    → length placed ≡ length keys
unfolding fill
fill-length [] [] table table' h = refl
fill-length [] (s ∷ placed) table table' h = absurd (cc h)
fill-length (k ∷ keys) [] table table' h = absurd (cc h)
fill-length ((bank, addr) ∷ keys) (s ∷ placed) table table' h = elim (Option-cases (table s)) [
  | inr (other, e) ↦ absurd (cc (rw (fill, e) at h))
  | inl e ↦ ap suc (fill-length keys placed _ table' (rw (fill, e) at h))
]

All-slots :
    (placed : List ℕ)
    → ((i : ℕ) → i < length placed → slot_at placed i < slots)
    → All (λ s. s < slots) placed
All-slots [] h = tt
All-slots (s ∷ placed) h =
    (h 0 (omega arith), All-slots placed (λ i below. h (suc i) (omega (arith, below))))

Stand-at :
    (placed destinations : List ℕ) (t : ByteTables) (i : ℕ)
    → Stand placed destinations t
    → i < length placed
    → destination_at t (slot_at placed i) ≡ get_or destinations i 0
Stand-at [] ds t i h below = absurd (omega (arith, below))
Stand-at (s ∷ placed) [] t i h below = absurd h
Stand-at (s ∷ placed) (d ∷ ds) t zero h below = h.0
Stand-at (s ∷ placed) (d ∷ ds) t (suc i) h below = Stand-at placed ds t i h.1 (omega (arith, below))

-- a source and a destination of a list of pairs
abbrev pub pair_at : List (ℕ × ℕ) → ℕ → ℕ × ℕ
pair_at pairs i = get_or pairs i (0, 0)

abbrev keys_of : List (ℕ × ℕ) → List Key
keys_of pairs = map (λ p. source_key p.0) pairs

key_at-keys_of :
    (pairs : List (ℕ × ℕ)) (i : ℕ)
    → i < length pairs
    → key_at (keys_of pairs) i ≡ source_key (pair_at pairs i).0
key_at-keys_of [] i h = absurd (omega (arith, h))
key_at-keys_of (p ∷ pairs) zero h = refl
key_at-keys_of (p ∷ pairs) (suc i) h = key_at-keys_of pairs i (omega (arith, h))

get_or-destinations :
    (pairs : List (ℕ × ℕ)) (i : ℕ) → get_or (map (λ p. p.1) pairs) i 0 ≡ (pair_at pairs i).1
get_or-destinations [] i = refl
get_or-destinations (p ∷ pairs) zero = refl
get_or-destinations (p ∷ pairs) (suc i) = get_or-destinations pairs i

length-keys_of : (pairs : List (ℕ × ℕ)) → length (keys_of pairs) ≡ length pairs
length-keys_of [] = refl
length-keys_of (p ∷ pairs) = ap suc (length-keys_of pairs)

get_or-zeros : (n j : ℕ) → get_or {A = ℕ} (replicate n 0) j 0 ≡ 0
unfolding replicate
get_or-zeros zero j = refl
get_or-zeros (suc n) zero = refl
get_or-zeros (suc n) (suc j) = get_or-zeros n j

blank-Agrees : (placed : List ℕ) → Agrees (blank placed) empty
unfolding blank
blank-Agrees placed = record {
  keys_agree = λ slot. get_or-zeros slots slot;
  key_length = length-replicate slots 0;
  low_length = length-replicate slots 0;
  high_length = length-replicate slots 0;
  bank_length = length-replicate slots 0;
}

passed_on_ok : {A : Type 0} (r : Result Error A) (a : A) → passed_on r ≡ ok a → r ≡ ok a
unfolding passed_on
passed_on_ok (ok b) a h = let same : b ≡ a = cc h in ap (λ c. ok c) same
passed_on_ok (err e) a h = absurd (cc h)

-- the search that `keys` and their table stand for
module _ (pairs : List (ℕ × ℕ)) (placed : List ℕ) (t : ByteTables) (table : Dict ℕ)
    (filled : fill (keys_of pairs) placed empty ≡ ok table)
    (checked : check_from (keys_of pairs) 0 placed table ≡ ok tt)
    (entered : enter_all (keys_of pairs) placed (map (λ p. p.1) pairs) (blank placed) ≡ ok t) where
  scanned_at :
      (i : ℕ)
      → i < length pairs
      → scan table (source_key (pair_at pairs i).0).0 (source_key (pair_at pairs i).0).1
        ≡ some (slot_at placed i)
  scanned_at i below = rw (sym (key_at-keys_of pairs i below)) (
      check_from-scan (keys_of pairs) 0 placed table i checked
        (omega (arith, below, length-keys_of pairs))
      ∙ ap (λ k. some (slot_at placed k)) first)
    where
      first : 0 + i ≡ i
      first = omega arith

  slots_below : All (λ s. s < slots) placed
  unfolding scan source_key
  slots_below = All-slots placed (λ i below.
      let within : i < length pairs = omega (
        arith,
        below,
        length-keys_of pairs,
        fill-length (keys_of pairs) placed empty table filled,
      ) in
      scan_from-lt slots table (window_base + high (pair_at pairs i).0) (low16 (pair_at pairs i).0)
        (slot_at placed i) (omega arith) (scanned_at i within))

  found_at :
      (i : ℕ)
      → i < length pairs
      → (find_slot slots t (source_key (pair_at pairs i).0) ≡ some (slot_at placed i))
        × (destination_at t (slot_at placed i) ≡ (pair_at pairs i).1)
  unfolding find_slot scan source_key
  found_at i below =
      let (agrees, stands, kept) =
        enter_all_lem (keys_of pairs) placed (map (λ p. p.1) pairs) (blank placed) empty t table
          slots_below (blank-Agrees placed) entered filled in
      (
        seek_from_lem slots t.key table (window_base + high (pair_at pairs i).0)
              (low16 (pair_at pairs i).0) agrees.keys_agree (λ z. absurd (omega (arith, z)))
            ∙ scanned_at i below,
        Stand-at placed (map (λ p. p.1) pairs) t i stands (
              omega (
                arith,
                below,
                length-keys_of pairs,
                fill-length (keys_of pairs) placed empty table filled,
              ))
            ∙ get_or-destinations pairs i,
      )

-- Each table has a byte for each slot.
pub length-build :
    (pairs : List (ℕ × ℕ)) (t : ByteTables)
    → build pairs ≡ ok t
    → (length t.key ≡ slots)
      × (length t.dest_low ≡ slots)
      × (length t.dest_high ≡ slots)
      × (length t.dest_bank ≡ slots)
unfolding build verify
length-build pairs t h =
    let (placed, allocated, rest) = bind_ok (passed_on (allocate (keys_of pairs))) _ t h in
    let (verified, entered) = then_ok (passed_on (verify (keys_of pairs) placed)) _ t rest in
    let (table, filled, checked) =
      bind_ok (fill (keys_of pairs) placed empty) _ tt
        (passed_on_ok (verify (keys_of pairs) placed) tt verified) in
    let (agrees, stands, kept) =
      enter_all_lem (keys_of pairs) placed (map (λ p. p.1) pairs) (blank placed) empty t table
        (slots_below pairs placed t table filled checked entered) (blank-Agrees placed) entered
        filled in
    (agrees.key_length, agrees.low_length, agrees.high_length, agrees.bank_length)

-- The tables that `build` returns lead from each source to its destination: the search for the
-- source's bank in the bytes, from its address on, finds a slot, at which the three other bytes spell
-- the destination.
pub find_slot-build :
    (pairs : List (ℕ × ℕ)) (t : ByteTables) (i : ℕ)
    → build pairs ≡ ok t
    → i < length pairs
    → (slot : ℕ) × (find_slot slots t (source_key (pair_at pairs i).0) ≡ some slot)
      × (destination_at t slot ≡ (pair_at pairs i).1)
unfolding build verify
find_slot-build pairs t i h below =
    let (placed, allocated, rest) = bind_ok (passed_on (allocate (keys_of pairs))) _ t h in
    let (verified, entered) = then_ok (passed_on (verify (keys_of pairs) placed)) _ t rest in
    let (table, filled, checked) =
      bind_ok (fill (keys_of pairs) placed empty) _ tt
        (passed_on_ok (verify (keys_of pairs) placed) tt verified) in
    let (found, stands) = found_at pairs placed t table filled checked entered i below in
    (slot_at placed i, found, stands)
