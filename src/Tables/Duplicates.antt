-- ===== src/Tables/Duplicates.antt =====
-- Two streams under one key have no placement, which mapcheck.py and gate.py rely on.
use street_fighter_alpha_2_n.Base.{
  ℕ, zero, suc, ◌+◌, ◌<◌, ◌≤◌, ◌≡◌, ◌≢◌, inl, inr, ap, ◌∙◌, some, List, [], ◌∷◌, length, get_or,
  Bool-cases, ok, err, Dict, holds, holds_iff, arith,
}
use street_fighter_alpha_2_n.Tables.{
  unplaceable, Key, key_at, slot_at, slots, scan, broken_from, allocate,
}
use street_fighter_alpha_2_n.Tables.Greedy.{InBank}
use street_fighter_alpha_2_n.Tables.Repair.{allocate_ok, allocate_lem, is_nil}

-- If no key is broken, every scan stops at its key's slot.
pub scan_of_none_broken :
    (rest : List Key) (k : ℕ) (placed : List ℕ) (table : Dict ℕ)
    → broken_from rest k placed table ≡ []
    → (i : ℕ) → i < length rest
    → scan table (get_or rest i (0, 0)).0 (get_or rest i (0, 0)).1 ≡ some (slot_at placed (k + i))
unfolding broken_from
scan_of_none_broken [] k placed table h i hi = elim hi [ ]
scan_of_none_broken ((b, a) ∷ rest) k placed table h i hi =
    elim (Bool-cases (holds (scan table b a) (slot_at placed k))) [
      | inl good ↦
          split i hi ((holds_iff _ _).0 good)
            (scan_of_none_broken rest (suc k) placed table (rw good at h))
      | inr bad ↦ absurd (cc (rw bad at h))
    ]
  where
    split :
        (i : ℕ)
        → i < suc (length rest)
        → scan table b a ≡ some (slot_at placed k)
        → ((j : ℕ)
            → j < length rest
            → scan table (get_or rest j (0, 0)).0 (get_or rest j (0, 0)).1
              ≡ some (slot_at placed (suc k + j)))
        → scan table (get_or ((b, a) ∷ rest) i (0, 0)).0 (get_or ((b, a) ∷ rest) i (0, 0)).1
          ≡ some (slot_at placed (k + i))
    split zero hi here later = here ∙ ap (λ n. some (slot_at placed n)) (omega arith)
    split (suc i) hi here later =
        later i (omega arith) ∙ ap (λ n. some (slot_at placed n)) (omega arith)

-- Two positions with the same key make `allocate` raise "could not find a placement", whatever the
-- other keys are, if there are at most 65,536 keys with addresses of 16 bits.
pub allocate_duplicate :
    (keys : List Key) (i j : ℕ)
    → length keys ≤ slots
    → InBank keys
    → i < length keys
    → j < length keys
    → i ≢ j
    → key_at keys i ≡ key_at keys j
    → allocate keys ≡ err unplaceable
allocate_duplicate keys i j few in_bank hi hj ne same =
    let (s, placing, sized, e) = allocate_lem keys few in_bank in
    elim (Bool-cases (is_nil (broken_from keys 0 s.0 s.1))) [
      | inl none_broken ↦ absurd (clash s.0 (rw none_broken at e))
      | inr some_broken ↦ (rw some_broken at e)
    ]
  where
    clash : (placed : List ℕ) → allocate keys ≡ ok placed → ⊥
    clash placed h =
        let (table, v, good) = allocate_ok keys placed in_bank h in
        let at = scan_of_none_broken keys 0 placed table good in
        let zi : 0 + i ≡ i = omega arith in
        let zj : 0 + j ≡ j = omega arith in
        ne (cc (at i hi, at j hj, same, v.owned i hi, v.owned j hj, zi, zj))
