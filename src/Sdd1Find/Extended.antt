-- ===== src/Sdd1Find/Extended.antt =====
-- The loop of `extend` ends, and what it confirms stands in the reference.
use street_fighter_alpha_2_n.Base.{
  ℕ, zero, suc, ◌+◌, ◌*◌, ◌≤◌, ◌<◌, ◌≡◌, ◌⊎◌, inl, inr, refl, min, true, false, some, Option-cases,
  List, length, slice, same_eq, ltb, Bool-cases, arith,
}
use street_fighter_alpha_2_n.Sdd1Find.{Decode, confirm_length, stands_at, extend_from, extend}

-- The output of a length stands at the target.
abbrev pub Stands : Decode → List ℕ → List ℕ → ℕ → ℕ → ℕ → Type 0
Stands decode source reference offset target n =
    (blob : List ℕ) × (decode source offset n ≡ some blob)
    × (slice reference target (length blob) ≡ blob)

stands_at_lem :
    (decode : Decode) (source reference : List ℕ) (offset target n : ℕ)
    → stands_at (decode source offset n) reference target ≡ true
    → Stands decode source reference offset target n
unfolding stands_at
stands_at_lem decode source reference offset target n h =
    elim (Option-cases (decode source offset n)) [
      | inl e ↦ absurd (cc (rw e at h))
      | inr (blob, e) ↦ (blob, e, same_eq (slice reference target (length blob)) blob (rw e at h))
    ]

module _ (decode : Decode) (source reference : List ℕ) (offset target limit : ℕ) where
  abbrev IsExtended : ℕ → ℕ → Type 0
  IsExtended confirmed n =
      (confirmed ≤ n)
      × ((n ≡ confirmed) ⊎ ((n ≤ limit) × Stands decode source reference offset target n))

  extend_from_lem :
      (fuel confirmed : ℕ)
      → 0 < confirmed
      → limit ≤ fuel + confirmed
      → (n : ℕ) × (extend_from fuel decode source reference offset target limit confirmed ≡ some n)
        × IsExtended confirmed n
  unfolding extend_from
  extend_from_lem zero confirmed more enough =
      let past : ltb confirmed limit ≡ false = ground (arith, enough) in
      (confirmed, rw past refl, (omega arith, inl refl))
  extend_from_lem (suc fuel) confirmed more enough = elim (Bool-cases (ltb confirmed limit)) [
    | inr past ↦ (confirmed, rw past refl, (omega arith, inl refl))
    | inl short ↦
        elim (Bool-cases
          (stands_at (decode source offset (min (confirmed * 2) limit)) reference target)) [
            | inr away ↦ (confirmed, rw (short, away) refl, (omega arith, inl refl))
            | inl stands ↦
                let longer : confirmed < min (confirmed * 2) limit = ground (arith, short, more) in
                let (n, ends, reached) =
                  extend_from_lem fuel (min (confirmed * 2) limit) (omega (arith, longer))
                    (omega (arith, longer, enough)) in
                (
                  n,
                  rw (short, stands) ends,
                  (
                    omega (arith, reached.0, longer),
                    inr (elim (reached.1) [
                      | inl same_n ↦ (
                        omega (arith, same_n),
                        rw same_n (
                            stands_at_lem decode source reference offset target
                              (min (confirmed * 2) limit) stands),
                      )
                      | inr further ↦ further
                    ]),
                  ),
                )
          ]
  ]

-- `extend` ends, with a length that is 32, or above it within the limit; then the output of that
-- length stands in the reference at the target.
pub extend_lem :
    (decode : Decode) (source reference : List ℕ) (offset target limit : ℕ)
    → (n : ℕ) × (extend decode source reference offset target limit ≡ some n)
      × (confirm_length ≤ n)
      × ((n ≡ confirm_length) ⊎ ((n ≤ limit) × Stands decode source reference offset target n))
unfolding extend
extend_lem decode source reference offset target limit =
    let (n, ends, (least, reached)) =
      extend_from_lem decode source reference offset target limit limit confirm_length (omega arith)
        (omega arith) in
    (n, ends, least, reached)
