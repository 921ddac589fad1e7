-- ===== src/Base/Locate.antt =====
-- A run that is looked for twice, to make sure that it stands at one place only.
use Prim.Native.Nat.{ℕ, suc, ◌+◌, ◌≤◌}
use mathlib.Core.Path.{◌≡◌, refl, sym, ap, ◌∙◌}
use mathlib.Core.Logic.{inl, inr, ◌≢◌}
use mathlib.Core.Bool.{true}
use mathlib.Core.List.{List, [], ◌∷◌}
use mathlib.Core.Option.{Option, none, some}
use native.Mathlib.Omega.{arith}
use street_fighter_alpha_2_n.Base.Tests.{Bool-cases}
use street_fighter_alpha_2_n.Base.Lists.{In, length, take, drop, length-take, length-drop}
use street_fighter_alpha_2_n.Base.Slices.{same, same_eq, slice}
use street_fighter_alpha_2_n.Base.Find.{heads, find, find_from, occurrences, find_next, drop-suc}

abbrev pub first_of : List ℕ → Option ℕ
first_of [] = none
first_of (x ∷ xs) = some x

find_from_lem :
    (rest : List ℕ) (q : ℕ) (p : List ℕ) (i : ℕ)
    → find_from rest (q ∷ p) i ≡ first_of (occurrences rest (q ∷ p) i)
unfolding find_from occurrences
find_from_lem [] q p i = refl
find_from_lem (x ∷ rest) q p i = elim (Bool-cases (heads (x ∷ rest) (q ∷ p))) [
  | inl here ↦ rw here refl
  | inr not_here ↦ rw not_here (find_from_lem rest q p (suc i))
]

-- `find` returns the first occurrence.
pub find_first : (d p : List ℕ) → p ≢ [] → find d p 0 ≡ first_of (occurrences d p 0)
unfolding find
find_first d [] h = absurd (h refl)
find_first d (q ∷ p) h = start ∙ find_from_lem d q p 0
  where
    start : find d (q ∷ p) 0 ≡ find_from d (q ∷ p) 0
    start = ground arith

next_from :
    (rest d : List ℕ) (q : ℕ) (p : List ℕ) (i a : ℕ) (more : List ℕ)
    → drop i d ≡ rest
    → occurrences rest (q ∷ p) i ≡ a ∷ more
    → find d (q ∷ p) (suc a) ≡ first_of more
unfolding occurrences
next_from [] d q p i a more e h = absurd (cc h)
next_from (x ∷ rest) d q p i a more e h = elim (Bool-cases (heads (x ∷ rest) (q ∷ p))) [
  | inl here ↦
      let both : i ∷ occurrences rest (q ∷ p) (suc i) ≡ a ∷ more = rw (occurrences, here) at h in
      let at_i : i ≡ a = cc both in
      let after : occurrences rest (q ∷ p) (suc i) ≡ more = cc both in
      rw (sym at_i, sym after) (find_next i d (q ∷ p) e ∙ find_from_lem rest q p (suc i))
  | inr not_here ↦
      next_from rest d q p (suc i) a more (drop-suc i d e) (rw (occurrences, not_here) at h)
]

-- A second search, from the offset after the first occurrence, returns the second.
pub find_second :
    (d p : List ℕ) (a : ℕ) (more : List ℕ)
    → p ≢ []
    → occurrences d p 0 ≡ a ∷ more
    → find d p (suc a) ≡ first_of more
find_second d [] a more h e = absurd (h refl)
find_second d (q ∷ p) a more h e = next_from d d q p 0 a more refl e

-- none, one or several occurrences
pub data Places : Type 0 where
  nowhere : Places
  once : ℕ → Places
  several : Places

abbrev pub places : List ℕ → Places
places [] = nowhere
places (a ∷ []) = once a
places (a ∷ b ∷ more) = several

occurrence_from :
    (rest d p : List ℕ) (i a : ℕ)
    → drop i d ≡ rest
    → In a (occurrences rest p i)
    → same (take (length p) (drop a d)) p ≡ true
unfolding occurrences
occurrence_from [] d p i a e h = absurd h
occurrence_from (x ∷ rest) d p i a e h = elim (Bool-cases (heads (x ∷ rest) p)) [
  | inl here ↦
      of_here here (occurrence_from rest d p (suc i) a (drop-suc i d e))
        (rw (occurrences, here) at h)
  | inr not_here ↦
      occurrence_from rest d p (suc i) a (drop-suc i d e) (rw (occurrences, not_here) at h)
]
  where
    of_here :
        heads (x ∷ rest) p ≡ true
        → (In a (occurrences rest p (suc i)) → same (take (length p) (drop a d)) p ≡ true)
        → In a (i ∷ occurrences rest p (suc i))
        → same (take (length p) (drop a d)) p ≡ true
    of_here here later (inl q) = rw (q, e) here
    of_here here later (inr j) = later j

-- Where a run stands, the data reads as the run.
pub slice-occurrence : (d p : List ℕ) (a : ℕ) → In a (occurrences d p 0) → slice d a (length p) ≡ p
unfolding slice
slice-occurrence d p a h = same_eq (take (length p) (drop a d)) p (occurrence_from d d p 0 a refl h)

pub occurrence_within :
    (d p : List ℕ) (a : ℕ) → p ≢ [] → In a (occurrences d p 0) → a + length p ≤ length d
unfolding slice
occurrence_within d [] a ne h = absurd (ne refl)
occurrence_within d (q ∷ p) a ne h = omega (
  arith,
  ap length (slice-occurrence d (q ∷ p) a h),
  length-take (length (q ∷ p)) (drop a d),
  length-drop a d,
)
