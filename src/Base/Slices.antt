-- ===== src/Base/Slices.antt =====
-- Python's slices of `bytes` and `bytearray`: `d[i : i + n]`, its comparison, and its assignment.
use Prim.Native.Nat.{ℕ, zero, suc, ◌+◌, ◌-◌, ◌≤◌}
use mathlib.Core.Path.{◌≡◌, refl, ap, ap₂, ◌∙◌}
use mathlib.Core.Bool.{Bool, true, false, ◌&&◌}
use mathlib.Core.List.{List, [], ◌∷◌, ◌++◌}
use mathlib.Core.Option.{none}
use native.Mathlib.Omega.{arith}
use street_fighter_alpha_2_n.Base.Tests.{◌==◌, ltb, if◌then◌else◌, ==_refl}
use street_fighter_alpha_2_n.Base.Lists.{
  length, get_elem?, take, drop, length-append, length-take, length-drop,
}

-- `d[i : i + n]`, short where it runs past the end
unfoldable pub slice : List ℕ → ℕ → ℕ → List ℕ
slice d i n = take n (drop i d)

-- `a == b` on bytes
abbrev pub same : List ℕ → List ℕ → Bool
same [] [] = true
same [] (y ∷ ys) = false
same (x ∷ xs) [] = false
same (x ∷ xs) (y ∷ ys) = (x == y) && same xs ys

-- `d[i : i + len(p)] == p`
abbrev pub reads : List ℕ → ℕ → List ℕ → Bool
reads d i p = same (slice d i (length p)) p

-- `d[i : i + len(p)] = p`; past the end it appends, as Python does
unfoldable pub splice : List ℕ → ℕ → List ℕ → List ℕ
splice d i p = take i d ++ (p ++ drop (i + length p) d)

pub same_eq : (xs ys : List ℕ) → same xs ys ≡ true → xs ≡ ys
same_eq [] [] h = refl
same_eq [] (y ∷ ys) h = cc
same_eq (x ∷ xs) [] h = cc
same_eq (x ∷ xs) (y ∷ ys) h = ground (arith, same_eq xs ys)

pub same_refl : (xs : List ℕ) → same xs xs ≡ true
same_refl [] = refl
same_refl (x ∷ xs) = rw (==_refl x, same_refl xs)

module _ {ℓ} {A : Type ℓ} where
  pub get_elem?-append :
      (xs ys : List A) (j : ℕ)
      → get_elem? (xs ++ ys) j
        ≡ (if ltb j (length xs) then get_elem? xs j else get_elem? ys (j - length xs))
  get_elem?-append [] ys j = ground arith
  get_elem?-append (x ∷ xs) ys zero = ground arith
  get_elem?-append (x ∷ xs) ys (suc j) = ground (arith, get_elem?-append xs ys j)

  pub get_elem?-take :
      (n : ℕ) (xs : List A) (j : ℕ)
      → get_elem? (take n xs) j ≡ (if ltb j n then get_elem? xs j else none)
  get_elem?-take zero xs j = ground arith
  get_elem?-take (suc n) [] j = ground arith
  get_elem?-take (suc n) (x ∷ xs) zero = ground arith
  get_elem?-take (suc n) (x ∷ xs) (suc j) = ground (arith, get_elem?-take n xs j)

  pub get_elem?-drop :
      (n : ℕ) (xs : List A) (j : ℕ) → get_elem? (drop n xs) j ≡ get_elem? xs (n + j)
  get_elem?-drop zero xs j = ap (get_elem? xs) (omega arith)
  get_elem?-drop (suc n) [] j = refl
  get_elem?-drop (suc n) (x ∷ xs) j = get_elem?-drop n xs j ∙ ap (get_elem? (x ∷ xs)) shift
    where
      shift : suc (n + j) ≡ suc n + j
      shift = omega arith

  pub get_elem?-past : (xs : List A) (j : ℕ) → length xs ≤ j → get_elem? xs j ≡ none
  get_elem?-past [] j h = refl
  get_elem?-past (x ∷ xs) zero h = absurd (omega arith)
  get_elem?-past (x ∷ xs) (suc j) h = get_elem?-past xs j (omega arith)

  pub list_ext : (xs ys : List A) → ((j : ℕ) → get_elem? xs j ≡ get_elem? ys j) → xs ≡ ys
  list_ext [] [] h = refl
  list_ext [] (y ∷ ys) h = cc (h 0)
  list_ext (x ∷ xs) [] h = cc (h 0)
  list_ext (x ∷ xs) (y ∷ ys) h = ap₂ ◌∷◌ (cc (h 0)) (list_ext xs ys (λ j. h (suc j)))

pub length-splice :
    (d : List ℕ) (i : ℕ) (p : List ℕ) → i + length p ≤ length d → length (splice d i p) ≡ length d
unfolding splice
length-splice d i p h =
    length-append (take i d) (p ++ drop (i + length p) d)
    ∙ omega (
      arith,
      length-append {0} p (drop (i + length p) d),
      length-take {0} i d,
      length-drop {0} (i + length p) d,
    )

-- What stands at each offset after the assignment.
pub get_elem?-splice :
    (d : List ℕ) (i : ℕ) (p : List ℕ) (j : ℕ)
    → i + length p ≤ length d
    → get_elem? (splice d i p) j ≡ (
        if ltb j i
        then get_elem? d j
        else if ltb j (i + length p)
        then get_elem? p (j - i)
        else get_elem? d j)
unfolding splice
get_elem?-splice d i p j h =
    get_elem?-append (take i d) (p ++ drop (i + length p) d) j
    ∙ rw front (
        ground (
          arith,
          get_elem?-take i d j,
          get_elem?-append p (drop (i + length p) d) (j - i),
          get_elem?-drop (i + length p) d (j - i - length p),
        ))
  where
    front : length (take i d) ≡ i
    front = omega (arith, length-take {0} i d)
