-- ===== src/Base/Sort.antt =====
-- Python's `sorted(xs, key = …)`: a stable sort, here by insertion.
use Prim.Native.Nat.{ℕ, zero, suc}
use mathlib.Core.Path.{◌≡◌, refl}
use mathlib.Core.Logic.{◌⊎◌, inl, inr, ◌↔◌, ◌≢◌}
use mathlib.Core.Bool.{Bool, true, false}
use mathlib.Core.List.{List, [], ◌∷◌}
use native.Mathlib.Omega.{arith}
use street_fighter_alpha_2_n.Base.Tests.{if◌then◌else◌, Bool-cases}
use street_fighter_alpha_2_n.Base.Lists.{In, length, range, range_bounds}

-- every element satisfies `P`
abbrev pub All : {A : Type 0} → (A → Type 0) → List A → Type 0
All P [] = Unit
All P (x ∷ xs) = P x × All P xs

-- each element is in the relation `R` with all that come after it
abbrev pub Chain : {A : Type 0} → (A → A → Type 0) → List A → Type 0
Chain R [] = Unit
Chain R (x ∷ xs) = All (R x) xs × Chain R xs

module _ {A : Type 0} (le : A → A → Bool) where
  -- Equal keys keep their order: `x` goes before the first element that it is not above.
  unfoldable pub insert : A → List A → List A
  insert x [] = x ∷ []
  insert x (y ∷ ys) = if le x y then x ∷ y ∷ ys else y ∷ insert x ys

  unfoldable pub sorted : List A → List A
  unfolding insert
  sorted [] = []
  sorted (x ∷ xs) = insert x (sorted xs)

module _ {A : Type 0} where
  pub All-In : (P : A → Type 0) (xs : List A) → ((a : A) → In a xs → P a) → All P xs
  All-In P [] h = tt
  All-In P (x ∷ xs) h = (h x (inl refl), All-In P xs (λ a i. h a (inr i)))

  pub All-map : (P Q : A → Type 0) (xs : List A) → ((a : A) → P a → Q a) → All P xs → All Q xs
  All-map P Q [] f h = tt
  All-map P Q (x ∷ xs) f h = (f x h.0, All-map P Q xs f h.1)

  pub All-at : (P : A → Type 0) (xs : List A) (a : A) → All P xs → In a xs → P a
  All-at P [] a h i = absurd i
  All-at P (x ∷ xs) a h (inl e) = rw e h.0
  All-at P (x ∷ xs) a h (inr i) = All-at P xs a h.1 i

module _ {A : Type 0} (le : A → A → Bool) where
  In-insert : (a x : A) (xs : List A) → In a (insert le x xs) ↔ (a ≡ x) ⊎ In a xs
  unfolding insert
  In-insert a x [] = ground arith
  In-insert a x (y ∷ ys) = ground (arith, In-insert a x ys)

  -- Sorting keeps exactly the elements.
  pub In-sorted : (a : A) (xs : List A) → In a (sorted le xs) ↔ In a xs
  unfolding sorted
  In-sorted a [] = ground arith
  In-sorted a (x ∷ xs) = ground (arith, In-insert a x (sorted le xs), In-sorted a xs)

  length-insert : (x : A) (xs : List A) → length (insert le x xs) ≡ suc (length xs)
  unfolding insert
  length-insert x [] = refl
  length-insert x (y ∷ ys) = ground (arith, length-insert x ys)

  pub length-sorted : (xs : List A) → length (sorted le xs) ≡ length xs
  unfolding sorted
  length-sorted [] = refl
  length-sorted (x ∷ xs) = ground (arith, length-insert x (sorted le xs), length-sorted xs)

  -- A symmetric relation between all pairs survives the sort: distinct elements stay distinct.
  module _ (R : A → A → Type 0) (symmetric : (a b : A) → R a b → R b a) where
    insert-Chain : (x : A) (xs : List A) → All (R x) xs → Chain R xs → Chain R (insert le x xs)
    unfolding insert
    insert-Chain x [] h c = (tt, tt)
    insert-Chain x (y ∷ ys) h c = elim (Bool-cases (le x y)) [
      | inl e ↦ rw e (h, c)
      | inr e ↦ rw e (All-In (R y) (insert le x ys) after, insert-Chain x ys h.1 c.1)
    ]
      where
        after : (a : A) → In a (insert le x ys) → R y a
        after a i = elim ((In-insert a x ys).0 i) [
          | inl e ↦ rw e (symmetric x y h.0)
          | inr j ↦ All-at (R y) ys a c.0 j
        ]

    pub sorted-Chain : (xs : List A) → Chain R xs → Chain R (sorted le xs)
    unfolding sorted
    sorted-Chain [] c = tt
    sorted-Chain (x ∷ xs) c =
        insert-Chain x (sorted le xs)
          (All-In (R x) (sorted le xs) (λ a i. All-at (R x) xs a c.0 ((In-sorted a xs).0 i)))
          (sorted-Chain xs c.1)

  -- With a total and transitive test each element is at most all that follow it.
  module _ (total : (a b : A) → le a b ≡ false → le b a ≡ true)
      (trans : (a b c : A) → le a b ≡ true → le b c ≡ true → le a c ≡ true) where
    insert-ordered :
        (x : A) (xs : List A)
        → Chain (λ a b. le a b ≡ true) xs
        → Chain (λ a b. le a b ≡ true) (insert le x xs)
    unfolding insert
    insert-ordered x [] c = (tt, tt)
    insert-ordered x (y ∷ ys) c = elim (Bool-cases (le x y)) [
      | inl e ↦
          rw e ((e, All-In (λ b. le x b ≡ true) ys (λ a i. trans x y a e (All-at _ ys a c.0 i))), c)
      | inr e ↦
          rw e (All-In (λ b. le y b ≡ true) (insert le x ys) (after e), insert-ordered x ys c.1)
    ]
      where
        after : le x y ≡ false → (a : A) → In a (insert le x ys) → le y a ≡ true
        after e a i = elim ((In-insert a x ys).0 i) [
          | inl p ↦ rw p (total x y e)
          | inr j ↦ All-at (λ b. le y b ≡ true) ys a c.0 j
        ]

    pub sorted-ordered : (xs : List A) → Chain (λ a b. le a b ≡ true) (sorted le xs)
    unfolding sorted
    sorted-ordered [] = tt
    sorted-ordered (x ∷ xs) = insert-ordered x (sorted le xs) (sorted-ordered xs)

pub range-Chain : (i n : ℕ) → Chain ◌≢◌ (range i n)
unfolding range
range-Chain i zero = tt
range-Chain i (suc n) = (
  All-In (λ a. i ≢ a) (range (suc i) n)
      (λ a h e. absurd (omega (arith, range_bounds (suc i) n a h))),
  range-Chain (suc i) n,
)
