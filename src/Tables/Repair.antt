-- ===== src/Tables/Repair.antt =====
-- The repair rounds of `allocate`, and what `allocate` returns in the end.
use street_fighter_alpha_2_n.Base.{
  ℕ, zero, suc, ◌+◌, ◌-◌, ◌<◌, ◌≤◌, ◌≡◌, ◌≢◌, ◌⊎◌, inl, inr, refl, sym, ap, ◌∙◌, Bool, true, false,
  Option, some, List, [], ◌∷◌, length, get_or, set-get_or, replicate, All, Option-cases, Bool-cases,
  Result, ok, err, Dict, del, put-del, empty, subst, ◌==◌, ==_iff, ==_refl, holds, holds_iff, ltb,
  lt→ltb, if◌then◌else◌, arith, sorted, range,
}
use native.Mathlib.Decide.{ℕ_discrete, dec_lt}
use street_fighter_alpha_2_n.Tables.{
  Error, unplaceable, Key, Placement, key_at, slot_at, slots, next_slot, scan, first_free, remove,
  scanned, repair_one, repair_keys, repair_rounds, broken_from, place_keys, by_address, allocate,
  max_repairs,
}
use street_fighter_alpha_2_n.Tables.Probe.{
  after, probe, probe_sound, probe_complete, probe-none, is_free, found_or_full,
  first_free_from-eq-probe, scan_from-eq-probe,
}
use street_fighter_alpha_2_n.Tables.Placed.{IsPlaced, Reaches, bank_of}
use street_fighter_alpha_2_n.Tables.Greedy.{InBank, greedy_total}

holds-some : (o : Option ℕ) (b : ℕ) → o ≡ some b → holds o b ≡ true
holds-some o b h = (holds_iff o b).1 h

module _ {table : Dict ℕ} {addr slot : ℕ} (bank : ℕ) (ha : addr < slots)
    (r : Reaches table addr slot) (there : table slot ≡ some bank) where
  at_end : holds (table (after addr r.steps)) bank ≡ true
  at_end = holds-some _ bank (rw (← r.lands) there)

  -- The scan for a placed key stops at its slot or before.
  scan_within : (d : ℕ) × (scan table bank addr ≡ some (after addr d)) × (d ≤ r.steps)
  unfolding scan
  scan_within = elim (Option-cases (probe slots test addr)) [
    | inl e ↦ absurd (cc (probe-none test slots addr ha e r.steps r.within, at_end))
    | inr (f, e) ↦
        (let (d, hd, p, hits) = probe_sound test slots addr ha e in
          (
            d,
            rw (scan_from-eq-probe, e) (ap some p),
            elim (dec_lt r.steps d) [
              | yes q ↦ absurd (cc (hits.before r.steps q, at_end))
              | no nq ↦ omega arith
            ],
          ))
  ]
    where
      test : ℕ → Bool
      test s = holds (table s) bank

  kept : (s : ℕ) → slot ≢ s → is_free table s ≡ false → is_free (del table slot) s ≡ false
  kept s ne e = elim (Bool-cases (slot == s)) [
    | inl q ↦ absurd (ne ((==_iff slot s).0 q))
    | inr q ↦ rw (q, is_free) e
  ]

  freed_slot : is_free (del table slot) slot ≡ true
  freed_slot = rw (==_refl slot, is_free) refl

  -- From any slot that the scan passes, the first free slot is the one that was just freed.
  refind : (d : ℕ) → d < r.steps → first_free (del table slot) (next_slot (after addr d)) ≡ ok slot
  unfolding first_free
  refind d hd =
      first_free_from-eq-probe slots (del table slot) (next_slot (after addr d))
      ∙ ap found_or_full (
          probe_complete (is_free (del table slot)) slots (next_slot (after addr d))
            (r.steps - d - 1) (omega arith) (omega (arith, r.within))
            (record {
              here = subst (λ s. is_free (del table slot) s ≡ true) end freed_slot;
              before = λ e he. rw (shift e) (
                  kept (after addr (d + 1 + e)) (apart (d + 1 + e) (omega arith))
                    (r.taken (d + 1 + e) (omega arith)));
            })
          ∙ ap some (sym end))
    where
      shift : (e : ℕ) → after (next_slot (after addr d)) e ≡ after addr (d + 1 + e)
      shift e = omega arith

      end : slot ≡ after (next_slot (after addr d)) (r.steps - d - 1)
      end = r.lands ∙ omega arith

      apart : (k : ℕ) → k < r.steps → slot ≢ after addr k
      apart k hk e = omega (arith, r.lands, r.within)

abbrev pub is_nil : List ℕ → Bool
is_nil [] = true
is_nil (x ∷ xs) = false

list_cases : (xs : List ℕ) → (xs ≡ []) ⊎ ((x : ℕ) × (rest : List ℕ) × (xs ≡ x ∷ rest))
list_cases [] = inl refl
list_cases (x ∷ rest) = inr (x, rest, refl)

ltb-false : {m n : ℕ} → m ≤ n → ltb n m ≡ false
ltb-false h = ground arith

-- whether the scan for a key stops at its slot
abbrev pub IsBroken : List Key → List ℕ → Dict ℕ → ℕ → Type 0
IsBroken keys placed table i =
    holds (scan table (key_at keys i).0 (key_at keys i).1) (slot_at placed i) ≡ false

module _ {keys : List Key} {placed : List ℕ} {table : Dict ℕ}
    (v : IsPlaced keys (λ i. i < length keys) placed table) (in_bank : InBank keys) where
  bank_there : (i : ℕ) → i < length keys → table (slot_at placed i) ≡ some (key_at keys i).0
  bank_there i h = v.banks (slot_at placed i) ∙ ap (bank_of keys) (v.owned i h)

  -- Repairing a key whose scan goes wrong gives it the slot that it had.
  pub repair_one_lem :
      (i : ℕ)
      → i < length keys
      → IsBroken keys placed table i
      → repair_one i keys placed table ≡ ok (placed, table)
  unfolding repair_one scanned remove
  repair_one_lem i h wrong =
      let near = v.reached i h in
      let there = bank_there i h in
      let (d, e, hd) = scan_within (key_at keys i).0 (in_bank i h) near there in
      let early : d < near.steps = elim (ℕ_discrete d near.steps) [
        | yes q ↦ absurd (
            cc (
              holds-some _ (slot_at placed i)
                  (e ∙ ap some (ap (after (key_at keys i).1) q ∙ sym near.lands)),
              wrong,
            ))
        | no nq ↦ omega arith
      ] in
      let again = refind (key_at keys i).0 (in_bank i h) near there d early in
      rw (
        e,
        there,
        remove,
        again,
        set-get_or,
        put-del table (slot_at placed i) (key_at keys i).0 there,
      )

  repair_keys_lem :
      (broken : List ℕ)
      → All (λ i. (i < length keys) × IsBroken keys placed table i) broken
      → repair_keys broken keys placed table ≡ ok (placed, table)
  unfolding repair_keys
  repair_keys_lem [] wrong = refl
  repair_keys_lem (i ∷ broken) wrong =
      rw (repair_one_lem i wrong.0.0 wrong.0.1) (repair_keys_lem broken wrong.1)

  broken_from-All :
      (rest : List Key) (k : ℕ)
      → k + length rest ≡ length keys
      → ((j : ℕ) → get_or rest j (0, 0) ≡ key_at keys (k + j))
      → All
          (λ i. (i < length keys) × IsBroken keys placed table i)
          (broken_from rest k placed table)
  unfolding broken_from
  broken_from-All [] k n at = tt
  broken_from-All ((b, a) ∷ rest) k n at =
      let later =
        broken_from-All rest (suc k) (omega arith)
          (λ j. at (suc j) ∙ ap (key_at keys) (omega arith)) in
      let here : key_at keys k ≡ (b, a) = ap (key_at keys) (omega arith) ∙ sym (at 0) in
      elim (Bool-cases (holds (scan table b a) (slot_at placed k))) [
        | inl good ↦ rw good later
        | inr bad ↦ rw bad ((omega arith, rw here bad), later)
      ]

  module _ {index : ℕ} {rest : List ℕ}
      (some_broken : broken_from keys 0 placed table ≡ index ∷ rest) where
    -- A round of repairs changes nothing, so the rounds run out.
    repair_rounds_futile : (rounds : ℕ) → repair_rounds rounds keys placed table ≡ err unplaceable
    unfolding repair_rounds
    repair_rounds_futile zero = refl
    repair_rounds_futile (suc rounds) =
        rw (some_broken, repair_rounds)
          (rw
            (repair_keys_lem (index ∷ rest) (
              rw some_broken at
                (broken_from-All keys 0 (omega arith) (λ j. ap (key_at keys) (omega arith)))))
            (repair_rounds_futile rounds))

  repair_rounds_lem :
      repair_rounds max_repairs keys placed table
      ≡ (if is_nil (broken_from keys 0 placed table) then ok placed else err unplaceable)
  unfolding repair_rounds
  repair_rounds_lem = elim (list_cases (broken_from keys 0 placed table)) [
    | inl e ↦ rw (e, repair_rounds) refl
    | inr (i, rest, e) ↦ rw e (repair_rounds_futile e max_repairs)
  ]

-- With at most 65,536 keys, each with an address of 16 bits, `allocate` places every key in its
-- first pass. It returns that placement if every scan then stops at its key's slot, and otherwise
-- raises: the 64 rounds of repairs never move a key, and none of the other errors occurs.
pub allocate_lem :
    (keys : List Key)
    → length keys ≤ slots
    → InBank keys
    → (s : Placement) × (place_keys (by_address keys) keys (replicate (length keys) 0) empty ≡ ok s)
      × (length s.0 ≡ length keys)
      × (allocate keys ≡ (if is_nil (broken_from keys 0 s.0 s.1) then ok s.0 else err unplaceable))
unfolding allocate
allocate_lem keys few in_bank =
    let (s, e, v) = greedy_total keys few in_bank in
    (s, e, v.sized, rw (ltb-false few, e) (repair_rounds_lem v in_bank))

-- No keys get no slots.
pub allocate-nil : allocate [] ≡ ok []
unfolding allocate by_address place_keys broken_from sorted range repair_rounds replicate
allocate-nil = refl

nil_of_ok :
    (broken placed : List ℕ) {out : List ℕ}
    → ◌≡◌ {A = Result Error (List ℕ)}
        (if is_nil broken then ok placed else err unplaceable)
        (ok out)
    → (broken ≡ []) × (placed ≡ out)
nil_of_ok [] placed h = (refl, cc)
nil_of_ok (x ∷ broken) placed h = cc

few_of_ok : (keys : List Key) {placed : List ℕ} → allocate keys ≡ ok placed → length keys ≤ slots
unfolding allocate
few_of_ok keys h = elim (dec_lt slots (length keys)) [
  | yes p ↦ absurd (err_of_many (rw (lt→ltb slots (length keys) p) at h))
  | no np ↦ omega arith
]
  where
    err_of_many : {E A : Type 0} {e : E} {a : A} → ¬ (◌≡◌ {A = Result E A} (err e) (ok a))
    err_of_many p = cc p

-- What `allocate` returns agrees with a table in which every scan stops at its key's slot.
pub allocate_ok :
    (keys : List Key) (placed : List ℕ)
    → InBank keys
    → allocate keys ≡ ok placed
    → (table : Dict ℕ) × IsPlaced keys (λ i. i < length keys) placed table
      × (broken_from keys 0 placed table ≡ [])
unfolding allocate
allocate_ok keys placed in_bank h =
    let few = few_of_ok keys h in
    let (s, e, v) = greedy_total keys few in_bank in
    let (none_broken, same) =
      nil_of_ok (broken_from keys 0 s.0 s.1) s.0
        (sym (repair_rounds_lem v in_bank) ∙ (rw (ltb-false few, e) at h)) in
    (s.1, rw (← same) v, rw (← same) none_broken)
