-- ===== src/Tables/Verified.antt =====
-- What `allocate` returns passes `verify`, and what `verify` accepts can be looked up.
use street_fighter_alpha_2_n.Base.{
  ℕ, suc, ◌+◌, ◌<◌, ◌≡◌, ◌≢◌, inl, inr, refl, sym, ap, ◌∙◌, false, Option, none, some, List, [],
  ◌∷◌, length, get_or, Bool-cases, Option-cases, ok, Dict, put, empty, ltb, lt→ltb, ◌==◌, ==_iff,
  if◌then◌else◌, arith,
}
use mathlib.Core.Path.{fun_ext}
use street_fighter_alpha_2_n.Tables.{
  Key, key_at, slot_at, broken_from, allocate, fill, check_from, verify,
}
use street_fighter_alpha_2_n.Tables.Placed.{IsPlaced, bank_of}
use street_fighter_alpha_2_n.Tables.Greedy.{InBank}
use street_fighter_alpha_2_n.Tables.Repair.{allocate_ok}

-- what the table holds of the first `k` keys
abbrev bank_below : List Key → ℕ → Option ℕ → Option ℕ
bank_below keys k none = none
bank_below keys k (some i) = if ltb i k then some (key_at keys i).0 else none

module _ {keys : List Key} {placed : List ℕ} {table : Dict ℕ}
    (v : IsPlaced keys (λ i. i < length keys) placed table) where
  filled : ℕ → Dict ℕ
  filled k slot = bank_below keys k (v.owner slot)

  filled_zero : filled 0 ≡ empty
  unfolding filled
  filled_zero = fun_ext λ slot. ground arith

  filled_end : filled (length keys) ≡ table
  unfolding filled
  filled_end = fun_ext λ slot. elim (Option-cases (v.owner slot)) [
    | inl e ↦ rw e (sym (v.banks slot ∙ ap (bank_of keys) e))
    | inr (i, e) ↦
        rw (e, lt→ltb i (length keys) (v.slot_of slot i e).0)
          (sym (v.banks slot ∙ ap (bank_of keys) e))
  ]

  filled-suc :
      (k : ℕ)
      → k < length keys
      → put (filled k) (slot_at placed k) (key_at keys k).0 ≡ filled (suc k)
  unfolding filled
  filled-suc k h = fun_ext λ slot. elim (Bool-cases (slot_at placed k == slot)) [
    | inl e ↦
        (let o : v.owner slot ≡ some k = ap v.owner (sym ((==_iff _ slot).0 e)) ∙ v.owned k h in
          rw (e, o, lt→ltb k (suc k) (omega arith)) refl)
    | inr ne ↦ rw ne (elim (Option-cases (v.owner slot)) [
      | inl o ↦ rw o refl
      | inr (i, o) ↦ rw o (bank_below_suc i k (not_last slot i ne o))
    ])
  ]
    where
      bank_below_suc :
          (i k : ℕ) → i ≢ k → bank_below keys k (some i) ≡ bank_below keys (suc k) (some i)
      bank_below_suc i k ne = ground arith

      not_last : (slot i : ℕ) → (slot_at placed k == slot) ≡ false → v.owner slot ≡ some i → i ≢ k
      not_last slot i ne o e = cc (
        ne,
        (==_iff (slot_at placed k) slot).1 (ap (slot_at placed) (sym e) ∙ (v.slot_of slot i o).1),
      )

  -- The slot of the next key is still free, so `verify` meets no slot twice.
  filled_free : (k : ℕ) → k < length keys → filled k (slot_at placed k) ≡ none
  unfolding filled
  filled_free k h = rw (v.owned k h) (ground arith)

  fill_lem :
      (rest : List Key) (after : List ℕ) (k : ℕ)
      → k + length rest ≡ length keys
      → k + length after ≡ length placed
      → ((j : ℕ) → get_or rest j (0, 0) ≡ key_at keys (k + j))
      → ((j : ℕ) → get_or after j 0 ≡ slot_at placed (k + j))
      → fill rest after (filled k) ≡ ok table
  unfolding fill
  fill_lem [] [] k nk np kat pat = ap ok (ap filled (omega arith) ∙ filled_end)
  fill_lem [] (p ∷ after) k nk np kat pat = absurd (omega (arith, v.sized))
  fill_lem (key ∷ rest) [] k nk np kat pat = absurd (omega (arith, v.sized))
  fill_lem ((b, a) ∷ rest) (p ∷ after) k nk np kat pat =
      let khere : key_at keys k ≡ (b, a) = ap (key_at keys) (omega arith) ∙ sym (kat 0) in
      let phere : slot_at placed k ≡ p = ap (slot_at placed) (omega arith) ∙ sym (pat 0) in
      let within : k < length keys = omega arith in
      let free : filled k p ≡ none = rw phere at (filled_free k within) in
      let more : put (filled k) p b ≡ filled (suc k) = rw (khere, phere) at (filled-suc k within) in
      rw (free, fill)
        (ap (fill rest after) more
          ∙ fill_lem rest after (suc k) (omega arith) (omega arith)
              (λ j. kat (suc j) ∙ ap (key_at keys) (omega arith))
              (λ j. pat (suc j) ∙ ap (slot_at placed) (omega arith)))

check_from_lem :
    (rest : List Key) (k : ℕ) (placed : List ℕ) (table : Dict ℕ)
    → broken_from rest k placed table ≡ []
    → check_from rest k placed table ≡ ok tt
unfolding broken_from check_from
check_from_lem [] k placed table h = refl
check_from_lem ((b, a) ∷ rest) k placed table h =
    ground (arith, check_from_lem rest (suc k) placed table)

-- For keys with addresses of 16 bits, every placement that `allocate` returns passes `verify`: no
-- slot is used twice, and the scan for each key stops at its own slot.
pub verify-allocate :
    (keys : List Key) (placed : List ℕ)
    → InBank keys
    → allocate keys ≡ ok placed
    → verify keys placed ≡ ok tt
unfolding verify
verify-allocate keys placed in_bank h =
    let (table, v, good) = allocate_ok keys placed in_bank h in
    let start = ap (fill keys placed) (sym (filled_zero v)) in
    rw
      (start
        ∙ fill_lem v keys placed 0 (omega arith) (omega arith) (λ j. ap (key_at keys) (omega arith))
            (λ j. ap (slot_at placed) (omega arith)))
      (check_from_lem keys 0 placed table good)
