-- ===== src/Sdd1Map/Increasing.antt =====
-- The guard of `build_map`: `increasing` is a strict order of the targets.
use street_fighter_alpha_2_n.Base.{
  ℕ, ◌≤◌, ◌<◌, ◌≡◌, ◌≢◌, ◌↔◌, inl, inr, refl, ap, true, not, ◌||◌, List, [], ◌∷◌, length, same,
  same_eq, same_refl, In, All, All-In, All-at, Chain, sorted, insert, sorted-ordered, leb, ◌==◌,
  Bool-cases, arith,
}
use street_fighter_alpha_2_n.Sdd1Map.{among, unique, increasing}

In-among : (n : ℕ) (xs : List ℕ) → (among n xs ≡ true) ↔ In n xs
unfolding among
In-among n [] = ground arith
In-among n (x ∷ xs) = ground (arith, In-among n xs)

length-unique : (xs : List ℕ) → length (unique xs) ≤ length xs
unfolding unique
length-unique [] = omega arith
length-unique (x ∷ xs) = ground (arith, length-unique xs)

unique-Chain : (xs : List ℕ) → length (unique xs) ≡ length xs → Chain ◌≢◌ xs
unfolding unique
unique-Chain [] h = tt
unique-Chain (x ∷ xs) h = elim (Bool-cases (among x xs)) [
  | inl e ↦ absurd (ground (arith, length-unique xs))
  | inr e ↦ (
    All-In (λ y. x ≢ y) xs (λ y i q. absurd (ground (arith, e, (In-among x xs).1 (rw q i)))),
    unique-Chain xs (ground arith),
  )
]

Chain-unique : (xs : List ℕ) → Chain ◌<◌ xs → unique xs ≡ xs
unfolding unique
Chain-unique [] c = refl
Chain-unique (x ∷ xs) c = elim (Bool-cases (among x xs)) [
  | inl e ↦ absurd (omega (arith, All-at (λ y. x < y) xs x c.0 ((In-among x xs).0 e)))
  | inr e ↦ rw e (ap (λ l. x ∷ l) (Chain-unique xs c.1))
]

Chain-sorted : (xs : List ℕ) → Chain ◌<◌ xs → sorted leb xs ≡ xs
unfolding sorted
Chain-sorted [] c = refl
Chain-sorted (x ∷ xs) c = rw (Chain-sorted xs c.1) (first xs c.0)
  where
    first : (ys : List ℕ) → All (λ y. x < y) ys → insert leb x ys ≡ x ∷ ys
    first [] a = refl
    first (y ∷ ys) a = ground arith

both-Chain : (xs : List ℕ) → Chain (λ a b. leb a b ≡ true) xs → Chain ◌≢◌ xs → Chain ◌<◌ xs
both-Chain [] c d = tt
both-Chain (x ∷ xs) c d = (all xs c.0 d.0, both-Chain xs c.1 d.1)
  where
    all : (ys : List ℕ) → All (λ y. leb x y ≡ true) ys → All (λ y. x ≢ y) ys → All (λ y. x < y) ys
    all [] a b = tt
    all (y ∷ ys) a b = (ground arith, all ys a.1 b.1)

pub increasing_iff : (xs : List ℕ) → (increasing xs ≡ true) ↔ Chain ◌<◌ xs
unfolding increasing
increasing_iff xs =
    (forth, λ c. rw (Chain-sorted xs c, Chain-unique xs c, same_refl xs) (ground arith))
  where
    forth :
        not (not (same xs (sorted leb xs)) || not (length (unique xs) == length xs)) ≡ true
        → Chain ◌<◌ xs
    forth h =
        let e : xs ≡ sorted leb xs = same_eq xs (sorted leb xs) (ground arith) in
        both-Chain xs
          (rw e (sorted-ordered leb (λ a b p. ground arith) (λ a b c p q. ground arith) xs))
          (unique-Chain xs (ground arith))
