-- ===== src/Base/Find.antt =====
-- `bytes.find`, and the loop that collects every occurrence of a run.
use Prim.Native.Nat.{ℕ, zero, suc, ◌≤◌}
use mathlib.Core.Path.{◌≡◌, refl, ap, ◌∙◌}
use mathlib.Core.Logic.{inl, inr, ◌≢◌}
use mathlib.Core.Bool.{Bool}
use mathlib.Core.List.{List, [], ◌∷◌}
use mathlib.Core.Option.{Option, none, some}
use native.Mathlib.Omega.{arith}
use street_fighter_alpha_2_n.Base.Tests.{if◌then◌else◌, leb, Bool-cases}
use street_fighter_alpha_2_n.Base.Lists.{length, take, drop}
use street_fighter_alpha_2_n.Base.Slices.{same}

-- does `p` stand at the head of `d`?
abbrev pub heads : List ℕ → List ℕ → Bool
heads d p = same (take (length p) d) p

-- the offset of the first occurrence in `d`, whose own offset is `i`
unfoldable pub find_from : List ℕ → List ℕ → ℕ → Option ℕ
find_from [] p i = if heads [] p then some i else none
find_from (x ∷ d) p i = if heads (x ∷ d) p then some i else find_from d p (suc i)

-- `d.find(p, start)`, with `none` for -1
unfoldable pub find : List ℕ → List ℕ → ℕ → Option ℕ
unfolding find_from
find d p start = if leb start (length d) then find_from (drop start d) p start else none

-- `while position != -1: found.append(position); position = d.find(p, position + 1)`
unfoldable pub collect : ℕ → List ℕ → List ℕ → Option ℕ → List ℕ
collect zero d p at = []
collect (suc fuel) d p none = []
collect (suc fuel) d p (some at) = at ∷ collect fuel d p (find d p (suc at))

-- Each round starts one byte further on, so the data's length bounds the rounds.
unfoldable pub find_all : List ℕ → List ℕ → List ℕ
unfolding collect find
find_all d p = collect (length d) d p (find d p 0)

-- the offsets at which `p` stands, in order, each tried on its own
unfoldable pub occurrences : List ℕ → List ℕ → ℕ → List ℕ
occurrences [] p i = []
occurrences (x ∷ d) p i =
    let later = occurrences d p (suc i) in if heads (x ∷ d) p then i ∷ later else later

pub drop-suc :
    (i : ℕ) (d : List ℕ) {x : ℕ} {rest : List ℕ} → drop i d ≡ x ∷ rest → drop (suc i) d ≡ rest
drop-suc zero [] h = cc
drop-suc zero (y ∷ d) h = cc
drop-suc (suc i) [] h = cc
drop-suc (suc i) (y ∷ d) h = drop-suc i d h

drop_within : (i : ℕ) (d : List ℕ) {x : ℕ} {rest : List ℕ} → drop i d ≡ x ∷ rest → suc i ≤ length d
drop_within zero [] h = cc
drop_within zero (y ∷ d) h = omega arith
drop_within (suc i) [] h = cc
drop_within (suc i) (y ∷ d) h = omega (arith, drop_within i d h)

pub find_next :
    (i : ℕ) (d p : List ℕ) {x : ℕ} {rest : List ℕ}
    → drop i d ≡ x ∷ rest
    → find d p (suc i) ≡ find_from rest p (suc i)
unfolding find
find_next i d p {rest = rest} e =
    ground (arith, drop_within i d e, ap (λ r. find_from r p (suc i)) (drop-suc i d e))

-- For a run that is not empty, `collect` from offset `i` finds what is left from there.
collect_from :
    (rest : List ℕ) (fuel : ℕ) (d : List ℕ) (q : ℕ) (p : List ℕ) (i : ℕ)
    → drop i d ≡ rest
    → length rest ≤ fuel
    → collect fuel d (q ∷ p) (find_from rest (q ∷ p) i) ≡ occurrences rest (q ∷ p) i
unfolding collect find_from occurrences
collect_from [] zero d q p i e h = refl
collect_from [] (suc fuel) d q p i e h = refl
collect_from (x ∷ rest) zero d q p i e h = absurd (omega arith)
collect_from (x ∷ rest) (suc fuel) d q p i e h =
    let later =
      λ (n : ℕ) (k : length rest ≤ n). collect_from rest n d q p (suc i) (drop-suc i d e) k in
    elim (Bool-cases (heads (x ∷ rest) (q ∷ p))) [
      | inl here ↦ rw here (
          ap (λ l. i ∷ l)
            (ap (collect fuel d (q ∷ p)) (find_next i d (q ∷ p) e) ∙ later fuel (omega arith)))
      | inr not_here ↦ rw not_here (later (suc fuel) (omega arith))
    ]

-- The loop finds every offset at which the run stands, and no other, in order.
pub find_all_lem : (d p : List ℕ) → p ≢ [] → find_all d p ≡ occurrences d p 0
unfolding find_all
find_all_lem d [] h = absurd (h refl)
find_all_lem d (q ∷ p) h =
    ap (collect (length d) d (q ∷ p)) start ∙ collect_from d (length d) d q p 0 refl (omega arith)
  where
    start : find d (q ∷ p) 0 ≡ find_from d (q ∷ p) 0
    start = ground arith
