-- ===== src/Sdd1Map/Audit.antt =====
-- `audit` of sdd1map.py: the verdict on each pair of neighbouring entries, and the report.
use street_fighter_alpha_2_n.Base.{
  ℕ, ◌+◌, ◌≤◌, ◌<◌, ◌≡◌, ◌⊎◌, inl, inr, refl, true, false, ◌||◌, Option, none, some, List, [], ◌∷◌,
  All, Bool-cases, ok, ◌==◌, ==_iff, ltb, arith,
}
use street_fighter_alpha_2_n.Sdd1Map.{
  Entry, Decoded, Report, no_report, count_gap, is_near, decoded, audit_one, audit_pairs, audit,
}

-- what there is to say of an entry and the following one: nothing, or that the stream ends at the next
-- one or one byte into it, before it, or further into it
pub data Verdict : Type 0 where
  unmeasured tight early late : Verdict

-- where a stream ends, and the next source
abbrev pub Ends : Verdict → ℕ → ℕ → Type 0
Ends unmeasured end next = ⊥
Ends tight end next = (end ≡ next) ⊎ (end ≡ next + 1)
Ends early end next = end < next
Ends late end next = next + 1 < end

module _ (decompress : List ℕ → ℕ → ℕ → Option Decoded) (rom : List ℕ) where
  -- The next source is within 64 KB behind a source of known length, and the stream ends so.
  abbrev pub IsMeasured : Verdict → Entry → Entry → Type 0
  IsMeasured v entry following =
      (n : ℕ) × (d : Decoded) × (entry.length ≡ some n)
      × (entry.source < following.source)
      × (following.source < entry.source + 0x10000)
      × (decompress rom entry.source n ≡ some d)
      × Ends v d.end following.source

  -- No length is known, or the next source is not within 64 KB behind.
  abbrev pub IsUnmeasured : Entry → Entry → Type 0
  IsUnmeasured entry following =
      (entry.length ≡ none)
      ⊎ ((following.source ≤ entry.source) ⊎ (entry.source + 0x10000 ≤ following.source))

  abbrev pub IsJudged : Verdict → Entry → Entry → Type 0
  IsJudged unmeasured entry following = IsUnmeasured entry following
  IsJudged tight entry following = IsMeasured tight entry following
  IsJudged early entry following = IsMeasured early entry following
  IsJudged late entry following = IsMeasured late entry following

  -- one verdict for each pair of neighbours
  abbrev pub AreJudged : List Verdict → Entry → List Entry → Type 0
  AreJudged [] entry [] = Unit {0}
  AreJudged (v ∷ vs) entry [] = ⊥
  AreJudged [] entry (following ∷ entries) = ⊥
  AreJudged (v ∷ vs) entry (following ∷ entries) =
      IsJudged v entry following × AreJudged vs following entries

-- an entry without a length, or one that decodes
abbrev pub IsReadable : (List ℕ → ℕ → ℕ → Option Decoded) → List ℕ → Entry → Type 0
IsReadable decompress rom e =
    (e.length ≡ none)
    ⊎ ((n : ℕ) × (d : Decoded) × (e.length ≡ some n) × (decompress rom e.source n ≡ some d))

-- how often a verdict is among others
abbrev is : Verdict → Verdict → ℕ
is unmeasured v = elim v [ unmeasured ↦ 1 | _ ↦ 0 ]
is tight v = elim v [ tight ↦ 1 | _ ↦ 0 ]
is early v = elim v [ early ↦ 1 | _ ↦ 0 ]
is late v = elim v [ late ↦ 1 | _ ↦ 0 ]

abbrev pub count : Verdict → List Verdict → ℕ
count v [] = 0
count v (w ∷ vs) = is v w + count v vs

-- `next` is `report` with the verdicts counted
pub record IsCounted (vs : List Verdict) (report next : Report) : Type 0 where
  pub packed : next.packed ≡ report.packed + count tight vs
  pub padded : next.padded ≡ report.padded + count early vs
  pub overrun : next.overrun ≡ report.overrun + count late vs
  pub skipped : next.skipped ≡ report.skipped + count unmeasured vs
  pub measured :
      next.measured ≡ report.measured + (count tight vs + (count early vs + count late vs))

IsCounted-cons :
    (v : Verdict) (vs : List Verdict) (report mid next : Report)
    → IsCounted (v ∷ []) report mid
    → IsCounted vs mid next
    → IsCounted (v ∷ vs) report next
IsCounted-cons v vs report mid next a b = record {
  packed = omega (arith, a.packed, b.packed);
  padded = omega (arith, a.padded, b.padded);
  overrun = omega (arith, a.overrun, b.overrun);
  skipped = omega (arith, a.skipped, b.skipped);
  measured = omega (arith, a.measured, b.measured);
}

tight_ends :
    (source end : ℕ)
    → (end == source + 1 || end == source) ≡ true
    → (end ≡ source) ⊎ (end ≡ source + 1)
tight_ends source end e = elim (Bool-cases (end == source + 1)) [
  | inl f ↦ inr ((==_iff end (source + 1)).0 f)
  | inr f ↦ inl ((==_iff end source).0 (rw f at e))
]

late_ends :
    (source end : ℕ)
    → (end == source + 1 || end == source) ≡ false
    → ltb end source ≡ false
    → source + 1 < end
late_ends source end e f = ground (arith, e, f)

-- Where a stream ends has one verdict, which `count_gap` counts.
count_gap_lem :
    (source end : ℕ) (report : Report)
    → (v : Verdict) × Ends v end source × IsCounted (v ∷ []) report (count_gap source end report)
unfolding count_gap
count_gap_lem source end report = elim (Bool-cases (end == source + 1 || end == source)) [
  | inl e ↦ (
    tight,
    tight_ends source end e,
    rw e (record {
      packed = omega arith;
      padded = omega arith;
      overrun = omega arith;
      skipped = omega arith;
      measured = omega arith;
    }),
  )
  | inr e ↦ elim (Bool-cases (ltb end source)) [
    | inl f ↦ (
      early,
      ground (arith, f),
      rw (e, f)
          (record {
            packed = omega arith;
            padded = omega arith;
            overrun = omega arith;
            skipped = omega arith;
            measured = omega arith;
          }),
    )
    | inr f ↦ (
      late,
      late_ends source end e f,
      rw (e, f)
          (record {
            packed = omega arith;
            padded = omega arith;
            overrun = omega arith;
            skipped = omega arith;
            measured = omega arith;
          }),
    )
  ]
]

module _ (decompress : List ℕ → ℕ → ℕ → Option Decoded) (rom : List ℕ) where
  of_end :
      (v : Verdict) (entry following : Entry) (n : ℕ) (d : Decoded)
      → entry.length ≡ some n
      → is_near entry following ≡ true
      → decompress rom entry.source n ≡ some d
      → Ends v d.end following.source
      → IsJudged decompress rom v entry following
  unfolding is_near
  of_end unmeasured entry following n d known near reads ends = absurd ends
  of_end tight entry following n d known near reads ends =
      (n, d, known, ground (arith, near), ground (arith, near), reads, ends)
  of_end early entry following n d known near reads ends =
      (n, d, known, ground (arith, near), ground (arith, near), reads, ends)
  of_end late entry following n d known near reads ends =
      (n, d, known, ground (arith, near), ground (arith, near), reads, ends)

  skipped_one :
      (report : Report)
      → IsCounted (unmeasured ∷ []) report (record report { skipped = report.skipped + 1 })
  skipped_one report = record {
    packed = omega arith;
    padded = omega arith;
    overrun = omega arith;
    skipped = omega arith;
    measured = omega arith;
  }

  audit_one_lem :
      (entry following : Entry) (report : Report)
      → IsReadable decompress rom entry
      → (v : Verdict) × (next : Report) × (audit_one decompress rom entry following entry.length
            report
          ≡ ok next)
        × IsJudged decompress rom v entry following
        × IsCounted (v ∷ []) report next
  unfolding audit_one decoded
  audit_one_lem entry following report (inl unknown) = (
    unmeasured,
    record report { skipped = report.skipped + 1 },
    rw unknown refl,
    inl unknown,
    skipped_one report,
  )
  audit_one_lem entry following report (inr (n, d, known, reads)) =
      elim (Bool-cases (is_near entry following)) [
        | inl e ↦
            let (v, ends, counted) = count_gap_lem following.source d.end report in
            (
              v,
              count_gap following.source d.end report,
              rw (known, e, reads) refl,
              of_end v entry following n d known e reads ends,
              counted,
            )
        | inr e ↦ (
          unmeasured,
          record report { skipped = report.skipped + 1 },
          rw (known, e) refl,
          inr (unfold is_near in ground (arith, e)),
          skipped_one report,
        )
      ]

  audit_pairs_lem :
      (entry : Entry) (entries : List Entry) (report : Report)
      → All (IsReadable decompress rom) (entry ∷ entries)
      → (vs : List Verdict) × (final : Report) × (audit_pairs decompress rom entry entries report
          ≡ ok final)
        × AreJudged decompress rom vs entry entries
        × IsCounted vs report final
  unfolding audit_pairs
  audit_pairs_lem entry [] report a = (
    [],
    report,
    refl,
    tt,
    record {
      packed = omega arith;
      padded = omega arith;
      overrun = omega arith;
      skipped = omega arith;
      measured = omega arith;
    },
  )
  audit_pairs_lem entry (following ∷ entries) report a =
      let (v, next, e, judged, one) = audit_one_lem entry following report a.0 in
      let (vs, final, f, rest, counted) = audit_pairs_lem following entries next a.1 in
      (
        v ∷ vs,
        final,
        rw (e, f) refl,
        (judged, rest),
        IsCounted-cons v vs report next final one counted,
      )

-- If every entry with a known length decodes, `audit` returns, and there is one verdict for each pair
-- of neighbours: unmeasured if the length is unknown or the next source is not within 64 KB behind;
-- else tight, early or late as the decoded stream ends at the next source or one byte into it, before
-- it, or further into it. The report counts the tight ones as packed, the early ones as padded, the
-- late ones as overrun, these three together as measured, and the others as skipped.
pub audit_lem :
    (decompress : List ℕ → ℕ → ℕ → Option Decoded) (rom : List ℕ) (entry : Entry)
    (entries : List Entry)
    → All (IsReadable decompress rom) (entry ∷ entries)
    → (vs : List Verdict) × (report : Report) × (audit decompress rom (entry ∷ entries) ≡ ok report)
      × AreJudged decompress rom vs entry entries
      × IsCounted vs no_report report
unfolding audit
audit_lem decompress rom entry entries = audit_pairs_lem decompress rom entry entries no_report
