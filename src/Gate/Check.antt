-- ===== src/Gate/Check.antt =====
-- `check` finds nothing exactly for a table that is sound in all four respects.
use street_fighter_alpha_2_n.Base.{
  ℕ, ◌≤◌, ◌≡◌, ◌↔◌, refl, ap, sym, subst, true, Option, none, some, List, [], ◌∷◌, ◌++◌, All, Chain,
  ltb, if◌then◌else◌, Bool-cases, inl, inr, Result, ok, err, ◌>>=◌, arith,
}
use street_fighter_alpha_2_n.Tables
use street_fighter_alpha_2_n.Gate.{
  Entry, Decode, Why, Finding, slow_scan, scan_budget, duplicates, undecodable, uncovered,
  worst_scan, of_repeated, of_broken, of_missing, of_retail, of_scan, check,
}
use street_fighter_alpha_2_n.Gate.Entries.{
  IsOther, Decodes, duplicates_iff, undecodable_iff, append_empty,
}
use street_fighter_alpha_2_n.Gate.Covered.{IsCovered, uncovered_iff}

-- The cartridge decodes as the table says, if it is there.
abbrev pub DecodesAll : Decode → Option (List ℕ) → List Entry → Type 0
DecodesAll decode none entries = Unit
DecodesAll decode (some rom) entries = All (Decodes decode rom) entries

-- Every key is found within the budget.
abbrev pub IsQuick : List Entry → Type 0
IsQuick entries = (worst : ℕ) × (worst_scan entries ≡ ok worst) × (worst ≤ scan_budget)

abbrev Findings : Type 0
Findings = List Finding

of_repeated_iff : (xs : List ℕ) → (of_repeated xs ≡ []) ↔ (xs ≡ [])
unfolding of_repeated
of_repeated_iff [] = (λ h. refl, λ h. refl)
of_repeated_iff (x ∷ xs) = (λ h. absurd (cc), λ h. absurd (cc))

of_broken_iff : (xs : List (Entry × Why)) → (of_broken xs ≡ []) ↔ (xs ≡ [])
unfolding of_broken
of_broken_iff [] = (λ h. refl, λ h. refl)
of_broken_iff (x ∷ xs) = (λ h. absurd (cc), λ h. absurd (cc))

of_missing_iff : (xs : List (Entry × Option ℕ)) → (of_missing xs ≡ []) ↔ (xs ≡ [])
unfolding of_missing
of_missing_iff [] = (λ h. refl, λ h. refl)
of_missing_iff (x ∷ xs) = (λ h. absurd (cc), λ h. absurd (cc))

of_retail_iff :
    (decode : Decode) (retail : Option (List ℕ)) (es : List Entry)
    → (of_retail decode retail es ≡ []) ↔ DecodesAll decode retail es
unfolding of_retail
of_retail_iff decode none es = (λ h. tt, λ h. refl)
of_retail_iff decode (some rom) es = (
  λ h. (undecodable_iff decode rom es).0 ((of_broken_iff (undecodable decode rom es)).0 h),
  λ h. (of_broken_iff (undecodable decode rom es)).1 ((undecodable_iff decode rom es).1 h),
)

of_scan_iff : (es : List Entry) → (of_scan [] es ≡ ok []) ↔ IsQuick es
unfolding of_scan
of_scan_iff es = of_worst (worst_scan es)
  where
    of_worst :
        (r : Result Tables.Error ℕ)
        → ((r >>= λ worst. ok (if ltb scan_budget worst then slow_scan worst ∷ [] else [])) ≡ ok [])
          ↔ ((worst : ℕ) × (r ≡ ok worst) × (worst ≤ scan_budget))
    of_worst (err e) = (λ h. absurd (cc), λ h. absurd (cc (h.1)))
    of_worst (ok worst) = elim (Bool-cases (ltb scan_budget worst)) [
      | inl q ↦ rw q ((λ h. absurd (cc)), λ h. absurd (slow q h))
      | inr q ↦ rw q ((λ h. (worst, refl, ground arith)), λ h. refl)
    ]
      where
        slow :
            ltb scan_budget worst ≡ true
            → ((w : ℕ) × (◌≡◌ {A = Result Tables.Error ℕ} (ok worst) (ok w)) × (w ≤ scan_budget))
            → ⊥
        slow q (w, e, le) = let same : worst ≡ w = cc e in absurd (ground (arith, q, same, le))

all_empty :
    (a b c : Findings) (r : Result Tables.Error Findings)
    → ((r >>= λ scan. ok (a ++ (b ++ (c ++ scan)))) ≡ ok [])
      ↔ ((a ≡ []) × (b ≡ []) × (c ≡ []) × (r ≡ ok []))
all_empty a b c (err e) = (λ h. absurd (cc), λ h. absurd (cc (h.3)))
all_empty a b c (ok scan) = (forth, back)
  where
    forth :
        ◌≡◌ {A = Result Tables.Error Findings} (ok (a ++ (b ++ (c ++ scan)))) (ok [])
        → (a ≡ [])
          × (b ≡ [])
          × (c ≡ [])
          × (◌≡◌ {A = Result Tables.Error Findings} (ok scan) (ok []))
    forth h =
        let all : a ++ (b ++ (c ++ scan)) ≡ [] = cc h in
        let first = (append_empty a (b ++ (c ++ scan))).0 all in
        let second = (append_empty b (c ++ scan)).0 first.1 in
        let third = (append_empty c scan).0 second.1 in
        (first.0, second.0, third.0, ap (λ l. ok l) third.1)

    back :
        ((a ≡ [])
          × (b ≡ [])
          × (c ≡ [])
          × (◌≡◌ {A = Result Tables.Error Findings} (ok scan) (ok [])))
        → ◌≡◌ {A = Result Tables.Error Findings} (ok (a ++ (b ++ (c ++ scan)))) (ok [])
    back (p, q, r, s) = let last : scan ≡ [] = cc s in rw (p, q, r, last) refl

-- `check` finds nothing exactly if the sources are distinct, every entry decodes to as many bytes as
-- it says where the cartridge is there, every observed request has a stream at least as long, and
-- the slots are allocated with no key scanned further than the budget.
pub check_iff :
    (decode : Decode) (entries wanted : List Entry) (retail : Option (List ℕ))
    → (check decode entries wanted retail ≡ ok []) ↔ (
        Chain IsOther entries
        × DecodesAll decode retail entries
        × All (IsCovered entries) wanted
        × IsQuick entries)
unfolding check
check_iff decode es wanted retail = (forth, back)
  where
    four : (check decode es wanted retail ≡ ok []) ↔ (
        (of_repeated (duplicates es) ≡ [])
        × (of_retail decode retail es ≡ [])
        × (of_missing (uncovered es wanted) ≡ [])
        × (of_scan (duplicates es) es ≡ ok []))
    four =
        all_empty (of_repeated (duplicates es)) (of_retail decode retail es)
          (of_missing (uncovered es wanted)) (of_scan (duplicates es) es)

    forth :
        check decode es wanted retail ≡ ok []
        → Chain IsOther es × DecodesAll decode retail es × All (IsCovered es) wanted × IsQuick es
    forth h =
        let (r, q, m, s) = four.0 h in
        let none_twice = (of_repeated_iff (duplicates es)).0 r in
        let distinct = (duplicates_iff es).0 none_twice in
        (
          distinct,
          (of_retail_iff decode retail es).0 q,
          (uncovered_iff es wanted distinct).0 ((of_missing_iff (uncovered es wanted)).0 m),
          (of_scan_iff es).0 (subst (λ x. of_scan x es ≡ ok []) none_twice s),
        )

    back :
        (Chain IsOther es × DecodesAll decode retail es × All (IsCovered es) wanted × IsQuick es)
        → check decode es wanted retail ≡ ok []
    back (distinct, q, m, s) =
        let none_twice = (duplicates_iff es).1 distinct in
        four.1 (
          (of_repeated_iff (duplicates es)).1 none_twice,
          (of_retail_iff decode retail es).1 q,
          (of_missing_iff (uncovered es wanted)).1 ((uncovered_iff es wanted distinct).1 m),
          subst (λ x. of_scan x es ≡ ok []) (sym none_twice) ((of_scan_iff es).1 s),
        )
