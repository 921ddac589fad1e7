-- ===== src/Base/Splices.antt =====
-- What slices and sums read after a slice assignment, and runs of assignments.
use Prim.Native.Nat.{ℕ, zero, suc, ◌+◌, ◌-◌, ◌≤◌}
use mathlib.Core.Path.{◌≡◌, refl, ap, ◌∙◌, subst}
use mathlib.Core.Logic.{◌⊎◌, inl, inr}
use mathlib.Core.Bool.{Bool, true, ◌&&◌}
use mathlib.Core.List.{List, [], ◌∷◌}
use mathlib.Core.Option.{some}
use native.Mathlib.Omega.{arith}
use street_fighter_alpha_2_n.Base.Tests.{leb}
use street_fighter_alpha_2_n.Base.Lists.{length, get_elem?, drop}
use street_fighter_alpha_2_n.Base.Sort.{All, All-map, Chain}
use street_fighter_alpha_2_n.Base.Slices.{
  slice, same_refl, same_eq, reads, splice, list_ext, get_elem?-take, get_elem?-drop,
  get_elem?-splice, length-splice, get_elem?-past,
}

-- bytes and the offset at which they stand or go
abbrev pub Run : Type 0
Run = ℕ × List ℕ

abbrev pub Ends : ℕ → Run → Type 0
Ends n (i, p) = i + length p ≤ n

abbrev pub Apart : Run → Run → Type 0
Apart (i, p) (j, q) = (i + length p ≤ j) ⊎ (j + length q ≤ i)

pub slice-splice_self :
    (d : List ℕ) (i : ℕ) (p : List ℕ)
    → i + length p ≤ length d
    → slice (splice d i p) i (length p) ≡ p
unfolding slice
slice-splice_self d i p h = list_ext (slice (splice d i p) i (length p)) p λ j. ground (
  arith,
  get_elem?-take (length p) (drop i (splice d i p)) j,
  get_elem?-drop i (splice d i p) j,
  get_elem?-splice d i p (i + j) h,
  get_elem?-past p j,
  ap (get_elem? p) (cancel j),
)
  where
    cancel : (j : ℕ) → i + j - i ≡ j
    cancel j = omega arith

pub slice-splice_apart :
    (d : List ℕ) (i : ℕ) (p : List ℕ) (j n : ℕ)
    → i + length p ≤ length d
    → (i + length p ≤ j) ⊎ (j + n ≤ i)
    → slice (splice d i p) j n ≡ slice d j n
unfolding slice
slice-splice_apart d i p j n h apart = list_ext (slice (splice d i p) j n) (slice d j n) λ k.
    ground (
      arith,
      get_elem?-take n (drop j (splice d i p)) k,
      get_elem?-take n (drop j d) k,
      get_elem?-drop j (splice d i p) k,
      get_elem?-drop j d k,
      get_elem?-splice d i p (j + k) h,
    )

-- A second assignment of the same size at the same place undoes the first.
pub splice-splice :
    (d : List ℕ) (i : ℕ) (p q : List ℕ)
    → length p ≡ length q
    → i + length q ≤ length d
    → splice (splice d i p) i q ≡ splice d i q
splice-splice d i p q e h = list_ext (splice (splice d i p) i q) (splice d i q) λ k. ground (
  arith,
  length-splice d i p,
  get_elem?-splice (splice d i p) i q k,
  get_elem?-splice d i p k,
  get_elem?-splice d i q k,
)

-- `for at, data in runs: d[at : at + len(data)] = data`
unfoldable pub write_runs : List Run → List ℕ → List ℕ
write_runs [] d = d
write_runs ((i, p) ∷ runs) d = write_runs runs (splice d i p)

-- `all(d[at : at + len(data)] == data for at, data in runs)`
unfoldable pub reads_runs : List Run → List ℕ → Bool
reads_runs [] d = true
reads_runs ((i, p) ∷ runs) d = reads d i p && reads_runs runs d

pub length-write_runs :
    (n : ℕ) (runs : List Run) (d : List ℕ)
    → n ≤ length d
    → All (Ends n) runs
    → length (write_runs runs d) ≡ length d
unfolding write_runs
length-write_runs n [] d h e = refl
length-write_runs n ((i, p) ∷ runs) d h e =
    let same_length = length-splice d i p (omega arith) in
    length-write_runs n runs (splice d i p) (omega arith) e.1 ∙ same_length

-- Assignments elsewhere leave a slice alone.
pub slice-write_runs :
    (n : ℕ) (runs : List Run) (d : List ℕ) (i : ℕ) (p : List ℕ)
    → n ≤ length d
    → All (Ends n) runs
    → All (Apart (i, p)) runs
    → slice (write_runs runs d) i (length p) ≡ slice d i (length p)
unfolding write_runs
slice-write_runs n [] d i p h e a = refl
slice-write_runs n ((j, q) ∷ runs) d i p h e a =
    let same_length = length-splice d j q (omega arith) in
    slice-write_runs n runs (splice d j q) i p (omega arith) e.1 a.1
    ∙ slice-splice_apart d j q i (length p) (omega arith) (swap a.0)
  where
    swap : Apart (i, p) (j, q) → (j + length q ≤ i) ⊎ (i + length p ≤ j)
    swap = elim [ inl x ↦ inr x | inr x ↦ inl x ]

-- Runs that do not overlap can all be read back once they are written.
pub reads_runs-write_runs :
    (n : ℕ) (runs : List Run) (d : List ℕ)
    → n ≤ length d
    → All (Ends n) runs
    → Chain Apart runs
    → reads_runs runs (write_runs runs d) ≡ true
unfolding write_runs reads_runs
reads_runs-write_runs n [] d h e c = refl
reads_runs-write_runs n ((i, p) ∷ runs) d h e c =
    let same_length = length-splice d i p (omega arith) in
    rw
      (
        slice-write_runs n runs (splice d i p) i p (omega arith) e.1 c.0,
        slice-splice_self d i p (omega arith),
        same_refl p,
      )
      (reads_runs-write_runs n runs (splice d i p) (omega arith) e.1 c.1)

-- Reading depends only on the slices that are read.
pub reads_runs-splice :
    (runs : List Run) (d : List ℕ) (i : ℕ) (p : List ℕ)
    → i + length p ≤ length d
    → All (Apart (i, p)) runs
    → reads_runs runs (splice d i p) ≡ reads_runs runs d
unfolding reads_runs
reads_runs-splice [] d i p h a = refl
reads_runs-splice ((j, q) ∷ runs) d i p h a =
    rw (slice-splice_apart d i p j (length q) h a.0, reads_runs-splice runs d i p h a.1)

-- Runs in ascending order between two offsets, as a test that computes.
unfoldable pub ascending : ℕ → ℕ → List Run → Bool
ascending lo hi [] = leb lo hi
ascending lo hi ((i, p) ∷ runs) = leb lo i && ascending (i + length p) hi runs

pub ascending_lem :
    (lo hi : ℕ) (runs : List Run)
    → ascending lo hi runs ≡ true
    → (lo ≤ hi) × All (Ends hi) runs × All (λ r. lo ≤ r.0) runs × Chain Apart runs
unfolding ascending
ascending_lem lo hi [] h = (ground arith, tt, tt, tt)
ascending_lem lo hi ((i, p) ∷ runs) h =
    let (low, rest) = both (leb lo i) (ascending (i + length p) hi runs) h in
    let (a, b, c, d) = ascending_lem (i + length p) hi runs rest in
    let first : lo ≤ i = ground arith in
    (
      omega arith,
      (omega arith, b),
      (first, All-map (λ r. i + length p ≤ r.0) (λ r. lo ≤ r.0) runs (λ r x. omega arith) c),
      (All-map (λ r. i + length p ≤ r.0) (Apart (i, p)) runs (λ r x. inl x) c, d),
    )
  where
    both : (a b : Bool) → (a && b) ≡ true → (a ≡ true) × (b ≡ true)
    both a b e = ground arith

-- Each of the runs that were read stands where it should.
pub reads_runs_at :
    (runs : List Run) (d : List ℕ) (k : ℕ) {i : ℕ} {p : List ℕ}
    → reads_runs runs d ≡ true
    → get_elem? runs k ≡ some (i, p)
    → slice d i (length p) ≡ p
unfolding reads_runs
reads_runs_at [] d k h e = absurd (cc e)
reads_runs_at ((j, q) ∷ runs) d zero {i} {p} h e =
    let here : slice d j (length q) ≡ q = same_eq (slice d j (length q)) q (ground arith) in
    let same_run : ◌≡◌ {A = Run} (j, q) (i, p) = cc e in
    subst (λ (r : Run). slice d r.0 (length r.1) ≡ r.1) same_run here
reads_runs_at ((j, q) ∷ runs) d (suc k) h e = reads_runs_at runs d k (ground arith) e
