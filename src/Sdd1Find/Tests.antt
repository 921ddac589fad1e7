-- ===== src/Sdd1Find/Tests.antt =====
-- The theorems of sdd1find.py for a decoder that copies, and the first byte for the hash.
use street_fighter_alpha_2_n.Base.{
  ℕ, ◌+◌, ◌≤◌, ◌<◌, ◌≡◌, ◌⊎◌, inl, ap, ◌∙◌, sym, true, false, none, some, List, [], ◌∷◌, In, length,
  length-take, length-drop, take, drop, range, leb, Bool-cases, inr, ok, arith,
}
use street_fighter_alpha_2_n.Sdd1Find.{Hash, Decode, Hit, confirm_length, extend, find_streams}
use street_fighter_alpha_2_n.Sdd1Find.Extended.{Stands, extend_lem}
use street_fighter_alpha_2_n.Sdd1Find.Found.{IsStream, IsPrefixed, take-take, find_streams_lem}

abbrev copies : Decode
copies source offset n = elim (leb (offset + n) (length source)) [
  | true ↦ some (take n (drop offset source))
  | false ↦ none
]

abbrev first_byte : Hash
first_byte [] = 0
first_byte (x ∷ xs) = x

copies_lem :
    (source : List ℕ) (offset n : ℕ) (blob : List ℕ)
    → copies source offset n ≡ some blob
    → (blob ≡ take n (drop offset source)) × (offset + n ≤ length source)
copies_lem source offset n blob h = elim (Bool-cases (leb (offset + n) (length source))) [
  | inl e ↦
      let same : some (take n (drop offset source)) ≡ some blob = rw (copies, e) at h in
      (cc same, ground (arith, e))
  | inr e ↦ absurd (cc (rw (copies, e) at h))
]

copies-IsPrefixed : IsPrefixed copies
copies-IsPrefixed = record {
  sized = λ source offset n blob some_n small h.
      let (is, within) = copies_lem source offset n blob h in
      omega (
        arith,
        ap length is,
        length-take n (drop offset source),
        length-drop offset source,
        within,
      );
  starts = λ source offset n m short long some_n less small h k.
      let (short_is, a) = copies_lem source offset n short h in
      let (long_is, b) = copies_lem source offset m long k in
      short_is ∙ sym (take-take n m (drop offset source) less) ∙ ap (take n) (sym long_is);
}

abbrev forty : List ℕ
forty = range 0 40

extend_lem_example :
    (n : ℕ) × (extend copies forty (7 ∷ forty) 0 1 64 ≡ some n)
    × (confirm_length ≤ n)
    × ((n ≡ confirm_length) ⊎ ((n ≤ 64) × Stands copies forty (7 ∷ forty) 0 1 n))
extend_lem_example = extend_lem copies forty (7 ∷ forty) 0 1 64

find_streams_lem_example :
    (hits : List Hit) × (find_streams first_byte copies forty (7 ∷ forty) 0 2 6 8 ≡ ok hits)
    × ((offset target : ℕ)
        → 0 ≤ offset
        → offset < 2
        → IsStream copies forty (7 ∷ forty) offset target
        → (hit : Hit) × In hit hits × (hit.source ≡ offset) × (hit.target ≡ target))
find_streams_lem_example =
    find_streams_lem first_byte copies forty (7 ∷ forty) 0 2 6 8 (omega arith) (omega arith)
      copies-IsPrefixed
