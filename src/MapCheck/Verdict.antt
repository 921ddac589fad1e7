-- ===== src/MapCheck/Verdict.antt =====
-- When `report` finds nothing, and that it finds nothing for a table that the gate lets pass.
use street_fighter_alpha_2_n.Base.{
  ℕ, ◌+◌, ◌-◌, ◌≡◌, ◌↔◌, inl, inr, refl, ap, ◌∙◌, sym, Bool, false, ◌||◌, max, some, Option-cases,
  List, [], ◌∷◌, map, All, All-map, Chain, ltb, low16, Result, ok, err, ◌>>=◌, bind_ok,
  ok_injective, arith,
}
use street_fighter_alpha_2_n.Tables
use street_fighter_alpha_2_n.Tables.{Key}
use street_fighter_alpha_2_n.Gate.{Entry, Decode, among, check, worst_scan, worst_of, key_of}
use street_fighter_alpha_2_n.Gate
use street_fighter_alpha_2_n.Gate.Entries.{IsOther, Decodes, duplicates_iff}
use street_fighter_alpha_2_n.Gate.Check.{IsQuick, check_iff}
use street_fighter_alpha_2_n.MapCheck.{
  scan_budget, window_key, duplicates_from, duplicate_sources, is_raised, undecodable, distances,
  median, largest, scan_cost, Report, is_some, measured, report_of, report,
}

duplicates_from-same :
    (seen : List ℕ) (es : List Entry) → duplicates_from seen es ≡ Gate.duplicates_from seen es
unfolding duplicates_from Gate.duplicates_from
duplicates_from-same seen [] = refl
duplicates_from-same seen ((source, n) ∷ es) = rw (duplicates_from-same (source ∷ seen) es) refl

duplicate_sources_lem : (es : List Entry) → duplicate_sources es ≡ Gate.duplicates es
unfolding duplicate_sources Gate.duplicates
duplicate_sources_lem es = duplicates_from-same [] es

-- an entry that the decoder takes
abbrev pub IsTaken : Decode → List ℕ → Entry → Type 0
IsTaken decode rom e = (bytes : List ℕ) × (decode rom e.0 e.1 ≡ some bytes)

undecodable_iff :
    (decode : Decode) (rom : List ℕ) (es : List Entry)
    → (undecodable decode rom es ≡ []) ↔ All (IsTaken decode rom) es
unfolding undecodable is_raised
undecodable_iff decode rom [] = (λ h. tt, λ h. refl)
undecodable_iff decode rom ((source, n) ∷ es) = elim (Option-cases (decode rom source n)) [
  | inl e ↦ ((λ h. absurd (cc (rw (undecodable, e) at h))), λ all. absurd (cc (e, all.0.1)))
  | inr (bytes, e) ↦ (
    (λ h. ((bytes, e), (undecodable_iff decode rom es).0 (rw (undecodable, e) at h))),
    λ all. rw e ((undecodable_iff decode rom es).1 all.1),
  )
]

largest-distances :
    (es : List Entry) (slots : List ℕ)
    → largest (distances (map (λ e. window_key e.0) es) slots) ≡ worst_of (map key_of es) slots
unfolding largest distances worst_of key_of
largest-distances [] slots = refl
largest-distances ((source, n) ∷ es) [] = refl
largest-distances ((source, n) ∷ es) (slot ∷ slots) =
    ap (max (low16 (slot + 0x10000 - low16 source))) (largest-distances es slots)

keys_same : (es : List Entry) → map (λ (e : Entry). window_key e.0) es ≡ map key_of es
unfolding key_of
keys_same [] = refl
keys_same ((source, n) ∷ es) = ap (λ ks. window_key source ∷ ks) (keys_same es)

-- The largest distance is the gate's.
scan_cost-worst_scan : (es : List Entry) → (scan_cost es >>= λ cost. ok cost.1) ≡ worst_scan es
unfolding scan_cost worst_scan
scan_cost-worst_scan [] = refl
scan_cost-worst_scan (e ∷ es) =
    of_slots (Tables.allocate (map (λ f. window_key f.0) (e ∷ es)))
    ∙ ap
        (λ (ks : List Key).
          Tables.allocate ks >>= λ slots. ok (worst_of (map key_of (e ∷ es)) slots))
        (keys_same (e ∷ es))
  where
    of_slots :
        (r : Result Tables.Error (List ℕ))
        → ((r >>= λ slots. ok (
          median (distances (map (λ f. window_key f.0) (e ∷ es)) slots),
          largest (distances (map (λ f. window_key f.0) (e ∷ es)) slots),
        ))
            >>= λ (cost : ℕ × ℕ). ok cost.1)
          ≡ (r >>= λ slots. ok (worst_of (map key_of (e ∷ es)) slots))
    of_slots (err x) = refl
    of_slots (ok slots) = ap (λ n. ok n) (largest-distances (e ∷ es) slots)

is_some-false : (xs : List ℕ) → (is_some xs ≡ false) ↔ (xs ≡ [])
is_some-false [] = (λ h. refl, λ h. refl)
is_some-false (x ∷ xs) = (λ h. absurd (cc h), λ h. absurd (cc h))

none_of : (a b c : Bool) → (a || b || c) ≡ false → (a ≡ false) × (b ≡ false) × (c ≡ false)
none_of a b c h = (ground (arith, h), ground (arith, h), ground (arith, h))

-- `report` that does not fail
abbrev pub Passes : Decode → List ℕ → List Entry → Type 0
Passes decode rom es = (r : Report) × (report decode rom es ≡ ok r) × (r.failed ≡ false)

module _ (decode : Decode) (rom : List ℕ) (es : List Entry) where
  no_repeat : Chain IsOther es → duplicate_sources es ≡ []
  no_repeat distinct = duplicate_sources_lem es ∙ (duplicates_iff es).1 distinct

  passes : Chain IsOther es → All (IsTaken decode rom) es → IsQuick es → Passes decode rom es
  unfolding report measured
  passes distinct taken (worst, scanned, quick) =
      let (cost, found, same) =
        bind_ok (scan_cost es) (λ (c : ℕ × ℕ). ok c.1) worst (scan_cost-worst_scan es ∙ scanned) in
      let cost_is : cost.1 ≡ worst = ok_injective cost.1 worst same in
      let once : measured (duplicate_sources es) es ≡ ok cost =
        ap (λ repeated. measured repeated es) (no_repeat distinct) ∙ found in
      let quiet : is_some (duplicate_sources es) ≡ false = ap is_some (no_repeat distinct) in
      let sound : is_some (undecodable decode rom es) ≡ false =
        ap is_some ((undecodable_iff decode rom es).1 taken) in
      (
        report_of es (duplicate_sources es) (undecodable decode rom es) cost,
        rw once refl,
        ground (arith, quiet, sound, quick, cost_is),
      )

  passed : Passes decode rom es → Chain IsOther es × All (IsTaken decode rom) es × IsQuick es
  unfolding report measured
  passed (r, h, ok_r) =
      let (cost, found, made) =
        bind_ok (measured (duplicate_sources es) es)
          (λ cost. ok (report_of es (duplicate_sources es) (undecodable decode rom es) cost)) r h in
      let same : report_of es (duplicate_sources es) (undecodable decode rom es) cost ≡ r =
        ok_injective _ r made in
      let (distinct, sound, quick) =
        none_of (is_some (duplicate_sources es)) (is_some (undecodable decode rom es))
          (ltb scan_budget cost.1) (ap (λ (q : Report). q.failed) same ∙ ok_r) in
      let none_twice = (is_some-false (duplicate_sources es)).0 distinct in
      let scanned : scan_cost es ≡ ok cost =
        sym (ap (λ repeated. measured repeated es) none_twice) ∙ found in
      (
        (duplicates_iff es).0 (sym (duplicate_sources_lem es) ∙ none_twice),
        (undecodable_iff decode rom es).0 ((is_some-false (undecodable decode rom es)).0 sound),
        (
          cost.1,
          sym (scan_cost-worst_scan es)
              ∙ ap (λ (q : Result Tables.Error (ℕ × ℕ)). q >>= λ c. ok c.1) scanned,
          ground (arith, quick),
        ),
      )

-- `report` of mapcheck.py does not fail exactly if the sources are distinct, the decoder takes every
-- entry, and the slots are allocated with no key scanned further than the budget.
pub report_iff :
    (decode : Decode) (rom : List ℕ) (es : List Entry)
    → Passes decode rom es ↔ (Chain IsOther es × All (IsTaken decode rom) es × IsQuick es)
report_iff decode rom es = (passed decode rom es, λ h. passes decode rom es h.0 h.1 h.2)

-- For a table in which `check` of gate.py finds nothing, with the cartridge there, `report` of
-- mapcheck.py does not fail.
pub report-check :
    (decode : Decode) (rom : List ℕ) (es wanted : List Entry)
    → check decode es wanted (some rom) ≡ ok []
    → Passes decode rom es
report-check decode rom es wanted h =
    let (distinct, decoded, covered, quick) = (check_iff decode es wanted (some rom)).0 h in
    passes decode rom es distinct
      (All-map (Decodes decode rom) (IsTaken decode rom) es (λ e d. (d.0, d.1)) decoded) quick
