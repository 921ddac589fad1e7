-- ===== src/RomBuild/Merge.antt =====
-- `merge` joins regions that meet, and keeps what they hold.
use street_fighter_alpha_2_n.Base.{
  ℕ, ◌<◌, ◌≡◌, ◌⊎◌, inl, inr, refl, ◌∙◌, sym, max, true, false, ◌&&◌, List, [], ◌∷◌, leb, ◌==◌, All,
  All-map, Chain, sorted, insert, sorted-ordered, Bool-cases, arith,
}
use street_fighter_alpha_2_n.RomBuild.{Region, by_start, merge_onto, merge_sorted, merge}
use street_fighter_alpha_2_n.RomBuild.Subtract.{covers, covers-cons}

abbrev pub Ordered : Region → Region → Type 0
Ordered r s = by_start r s ≡ true

-- In one bank the second region begins after the first has ended, with a gap between them.
abbrev pub Separate : Region → Region → Type 0
Separate r s = (r.bank < s.bank) ⊎ ((r.bank ≡ s.bank) × (r.end < s.start))

by_start-total : (r s : Region) → by_start r s ≡ false → by_start s r ≡ true
by_start-total r s h = ground arith

by_start_trans : (r s t : Region) → by_start r s ≡ true → by_start s t ≡ true → by_start r t ≡ true
by_start_trans r s t h k = ground arith

abbrev extended : Region → Region → Region
extended last r = record last { end = max last.end r.end }

covers-extended :
    (last r : Region) (rs : List Region) (bank addr : ℕ)
    → Ordered last r
    → (last.bank == r.bank && leb r.start last.end) ≡ true
    → covers (extended last r ∷ rs) bank addr ≡ covers (last ∷ r ∷ rs) bank addr
covers-extended last r rs bank addr after joined =
    rw
      (
        covers-cons (extended last r) rs bank addr,
        covers-cons last (r ∷ rs) bank addr,
        covers-cons r rs bank addr,
      )
      (ground arith)

covers-merge_onto :
    (last : Region) (rs : List Region) (bank addr : ℕ)
    → All (Ordered last) rs
    → Chain Ordered rs
    → covers (merge_onto last rs) bank addr ≡ covers (last ∷ rs) bank addr
unfolding merge_onto
covers-merge_onto last [] bank addr after ordered = refl
covers-merge_onto last (r ∷ rs) bank addr after ordered =
    elim (Bool-cases (last.bank == r.bank && leb r.start last.end)) [
      | inl joined ↦ rw joined (
          covers-merge_onto (extended last r) rs bank addr after.1 ordered.1
          ∙ covers-extended last r rs bank addr after.0 joined)
      | inr apart ↦ rw apart (
          covers-cons last (merge_onto r rs) bank addr
          ∙ rw (covers-merge_onto r rs bank addr ordered.0 ordered.1)
              (sym (covers-cons last (r ∷ rs) bank addr)))
    ]

Ordered-refl : (r : Region) → Ordered r r
Ordered-refl r = ground arith

merge_onto-Ordered :
    (last : Region) (rs : List Region)
    → All (Ordered last) rs
    → Chain Ordered rs
    → All (Ordered last) (merge_onto last rs)
unfolding merge_onto
merge_onto-Ordered last [] after ordered = (Ordered-refl last, tt)
merge_onto-Ordered last (r ∷ rs) after ordered =
    elim (Bool-cases (last.bank == r.bank && leb r.start last.end)) [
      | inl joined ↦ rw joined (merge_onto-Ordered (extended last r) rs after.1 ordered.1)
      | inr apart ↦ rw apart (
        Ordered-refl last,
        All-map (Ordered r) (Ordered last) (merge_onto r rs)
            (λ s h. by_start_trans last r s after.0 h)
            (merge_onto-Ordered r rs ordered.0 ordered.1),
      )
    ]

Separate-of_apart :
    (last r s : Region)
    → Ordered last r
    → (last.bank == r.bank && leb r.start last.end) ≡ false
    → Ordered r s
    → Separate last s
Separate-of_apart last r s h apart k = ground arith

merge_onto-Separate :
    (last : Region) (rs : List Region)
    → All (Ordered last) rs
    → Chain Ordered rs
    → Chain Separate (merge_onto last rs)
unfolding merge_onto
merge_onto-Separate last [] after ordered = (tt, tt)
merge_onto-Separate last (r ∷ rs) after ordered =
    elim (Bool-cases (last.bank == r.bank && leb r.start last.end)) [
      | inl joined ↦ rw joined (merge_onto-Separate (extended last r) rs after.1 ordered.1)
      | inr apart ↦ rw apart (
        All-map (Ordered r) (Separate last) (merge_onto r rs)
            (λ s h. Separate-of_apart last r s after.0 apart h)
            (merge_onto-Ordered r rs ordered.0 ordered.1),
        merge_onto-Separate r rs ordered.0 ordered.1,
      )
    ]

covers-insert :
    (r : Region) (rs : List Region) (bank addr : ℕ)
    → covers (insert by_start r rs) bank addr ≡ covers (r ∷ rs) bank addr
unfolding covers insert
covers-insert r [] bank addr = refl
covers-insert r (s ∷ rs) bank addr = ground (arith, covers-insert r rs bank addr)

pub covers-sorted :
    (rs : List Region) (bank addr : ℕ) → covers (sorted by_start rs) bank addr ≡ covers rs bank addr
unfolding sorted
covers-sorted [] bank addr = refl
covers-sorted (r ∷ rs) bank addr =
    covers-insert r (sorted by_start rs) bank addr
    ∙ covers-cons r (sorted by_start rs) bank addr
    ∙ rw (covers-sorted rs bank addr) (sym (covers-cons r rs bank addr))

pub sorted-Ordered : (rs : List Region) → Chain Ordered (sorted by_start rs)
sorted-Ordered rs = sorted-ordered by_start by_start-total by_start_trans rs

-- Whatever the regions: the merged ones hold exactly the same addresses, and stand in order with a
-- gap between any two of one bank, so no address is offered twice.
pub merge_lem :
    (regions : List Region)
    → ((bank addr : ℕ) → covers (merge regions) bank addr ≡ covers regions bank addr)
      × Chain Separate (merge regions)
unfolding merge
merge_lem regions = (
  λ bank addr.
      of_sorted (sorted by_start regions) bank addr (sorted-Ordered regions)
      ∙ covers-sorted regions bank addr,
  separate_of_sorted (sorted by_start regions) (sorted-Ordered regions),
)
  where
    of_sorted :
        (rs : List Region) (bank addr : ℕ)
        → Chain Ordered rs
        → covers (merge_sorted rs) bank addr ≡ covers rs bank addr
    of_sorted [] bank addr ordered = refl
    of_sorted (r ∷ rs) bank addr ordered = covers-merge_onto r rs bank addr ordered.0 ordered.1

    separate_of_sorted : (rs : List Region) → Chain Ordered rs → Chain Separate (merge_sorted rs)
    separate_of_sorted [] ordered = tt
    separate_of_sorted (r ∷ rs) ordered = merge_onto-Separate r rs ordered.0 ordered.1
