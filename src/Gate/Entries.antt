-- ===== src/Gate/Entries.antt =====
-- `duplicates` and `undecodable` return nothing exactly for sound tables.
use street_fighter_alpha_2_n.Base.{
  ℕ, ◌≡◌, ◌≢◌, ◌↔◌, refl, false, Option, none, some, List, [], ◌∷◌, ◌++◌, length, All, All-map,
  Chain, ◌==◌, Bool-cases, inl, inr, arith,
}
use street_fighter_alpha_2_n.Gate.{
  Entry, Decode, among, duplicates_from, duplicates, broken_one, undecodable,
}

-- The source has not been seen.
abbrev IsNew : List ℕ → Entry → Type 0
IsNew seen e = among e.0 seen ≡ false

abbrev pub IsOther : Entry → Entry → Type 0
IsOther a b = a.0 ≢ b.0

IsNew-source :
    (source : ℕ) (seen : List ℕ) (e : Entry)
    → IsNew (source ∷ seen) e
    → (source ≢ e.0) × IsNew seen e
unfolding among
IsNew-source source seen e h = ground arith

IsNew-again :
    (source : ℕ) (seen : List ℕ) (e : Entry) → source ≢ e.0 → IsNew seen e → IsNew (source ∷ seen) e
unfolding among
IsNew-again source seen e h k = ground arith

All-both :
    (P Q R : Entry → Type 0) (f : (e : Entry) → P e → Q e → R e) (es : List Entry)
    → All P es
    → All Q es
    → All R es
All-both P Q R f [] p q = tt
All-both P Q R f (e ∷ es) p q = (f e p.0 q.0, All-both P Q R f es p.1 q.1)

duplicates_from_iff :
    (seen : List ℕ) (es : List Entry)
    → (duplicates_from seen es ≡ []) ↔ (All (IsNew seen) es × Chain IsOther es)
unfolding duplicates_from
duplicates_from_iff seen [] = (λ h. (tt, tt), λ h. refl)
duplicates_from_iff seen ((source, n) ∷ es) = elim (Bool-cases (among source seen)) [
  | inl e ↦ rw e ((λ h. absurd (cc)), λ h. absurd (cc (h.0.0)))
  | inr e ↦ rw e (
    (λ h.
        let both = (duplicates_from_iff (source ∷ seen) es).0 h in
        (
          (
            refl,
            All-map (IsNew (source ∷ seen)) (IsNew seen) es
                (λ b k. (IsNew-source source seen b k).1) both.0,
          ),
          (
            All-map (IsNew (source ∷ seen)) (IsOther (source, n)) es
                (λ b k. (IsNew-source source seen b k).0) both.0,
            both.1,
          ),
        )),
    λ h. (duplicates_from_iff (source ∷ seen) es).1 (
      All-both (IsOther (source, n)) (IsNew seen) (IsNew (source ∷ seen))
          (λ b k l. IsNew-again source seen b k l) es h.1.0 h.0.1,
      h.1.1,
    ),
  )
]

-- `duplicates` returns nothing exactly if the sources are distinct.
pub duplicates_iff : (es : List Entry) → (duplicates es ≡ []) ↔ Chain IsOther es
unfolding duplicates
duplicates_iff es =
    (λ h. ((duplicates_from_iff [] es).0 h).1, λ c. (duplicates_from_iff [] es).1 (all es, c))
  where
    all : (bs : List Entry) → All (IsNew []) bs
    all [] = tt
    all (b ∷ bs) = (unfold among in refl, all bs)

-- The entry decodes to as many bytes as it says.
abbrev pub Decodes : Decode → List ℕ → Entry → Type 0
Decodes decode rom e = (data' : List ℕ) × (decode rom e.0 e.1 ≡ some data') × (length data' ≡ e.1)

broken_one_iff :
    (e : Entry) (o : Option (List ℕ))
    → (broken_one e o ≡ []) ↔ ((data' : List ℕ) × (o ≡ some data') × (length data' ≡ e.1))
unfolding broken_one
broken_one_iff e none = (λ h. absurd (cc), λ h. absurd (cc (h.1)))
broken_one_iff e (some bytes) = elim (Bool-cases (length bytes == e.1)) [
  | inl q ↦ rw q (λ h. (bytes, refl, ground arith), λ h. refl)
  | inr q ↦ rw q (λ h. absurd (cc), λ h. absurd (differ q h))
]
  where
    differ :
        (length bytes == e.1) ≡ false
        → ((data' : List ℕ) × (some bytes ≡ some data') × (length data' ≡ e.1))
        → ⊥
    differ q (data', p, s) =
        let same : bytes ≡ data' = cc p in
        let sized : length bytes ≡ e.1 = rw same s in absurd (ground (arith, q, sized))

pub append_empty : {A : Type 0} (xs ys : List A) → (xs ++ ys ≡ []) ↔ ((xs ≡ []) × (ys ≡ []))
append_empty [] ys = (λ h. (refl, h), λ h. h.1)
append_empty (x ∷ xs) ys = (λ h. absurd (cc), λ h. absurd (cc (h.0)))

pub undecodable_iff :
    (decode : Decode) (rom : List ℕ) (es : List Entry)
    → (undecodable decode rom es ≡ []) ↔ All (Decodes decode rom) es
unfolding undecodable
undecodable_iff decode rom [] = (λ h. tt, λ h. refl)
undecodable_iff decode rom (e ∷ es) = (
  λ h.
      let both =
        (append_empty (broken_one e (decode rom e.0 e.1)) (undecodable decode rom es)).0 h in
      ((broken_one_iff e (decode rom e.0 e.1)).0 both.0, (undecodable_iff decode rom es).0 both.1),
  λ h.
      (append_empty (broken_one e (decode rom e.0 e.1)) (undecodable decode rom es)).1
        ((broken_one_iff e (decode rom e.0 e.1)).1 h.0, (undecodable_iff decode rom es).1 h.1),
)
