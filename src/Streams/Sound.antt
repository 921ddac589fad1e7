-- ===== src/Streams/Sound.antt =====
-- Tests that read a table once, and what they show of it.
use street_fighter_alpha_2_n.Base.{
  ℕ, suc, ◌≤◌, ◌<◌, ◌≡◌, inl, inr, refl, Bool, true, false, ◌&&◌, List, [], ◌∷◌, In, All, All-map,
  Chain, leb, ltb, ◌==◌, ==_iff, Bool-cases, arith,
}
use street_fighter_alpha_2_n.Gate.{Entry}
use street_fighter_alpha_2_n.Gate.Entries.{IsOther}
use street_fighter_alpha_2_n.Gate.Covered.{IsCovered}

-- The cartridge has 4 MB, and a transfer at most 64 KB.
abbrev pub IsBounded : Entry → Type 0
IsBounded e = (e.0 < 0x400000) × (0 < e.1) × (e.1 ≤ 0x10000)

-- The sources increase from `low` on, and every entry is in its bounds.
unfoldable pub sound_from : ℕ → List Entry → Bool
sound_from low [] = true
sound_from low (e ∷ entries) =
    (leb low e.0 && (ltb e.0 0x400000 && (ltb 0 e.1 && leb e.1 0x10000)))
    && sound_from (suc e.0) entries

abbrev pub Increases : Entry → Entry → Type 0
Increases a b = a.0 < b.0

pub sound_from_lem :
    (low : ℕ) (entries : List Entry)
    → sound_from low entries ≡ true
    → All (λ e. low ≤ e.0) entries × Chain Increases entries × All IsBounded entries
unfolding sound_from
sound_from_lem low [] h = (tt, tt, tt)
sound_from_lem low (e ∷ entries) h =
    let (above, chain, bounded) = sound_from_lem (suc e.0) entries (ground arith) in
    (
      (
        ground arith,
        All-map (λ b. suc e.0 ≤ b.0) (λ b. low ≤ b.0) entries (λ b k. ground arith) above,
      ),
      (above, chain),
      (ground arith, bounded),
    )

pub Increases-IsOther : (entries : List Entry) → Chain Increases entries → Chain IsOther entries
Increases-IsOther [] c = tt
Increases-IsOther (e ∷ entries) c = (
  All-map (Increases e) (IsOther e) entries (λ b k q. absurd (omega (arith, k, q))) c.0,
  Increases-IsOther entries c.1,
)

-- Both lists are read in order: an entry for each request, at least as long.
unfoldable pub covered_by : List Entry → List Entry → Bool
covered_by [] entries = true
covered_by (w ∷ wanted) [] = false
covered_by (w ∷ wanted) (e ∷ entries) = elim (w.0 == e.0) [
  | true ↦ leb w.1 e.1 && covered_by wanted entries
  | false ↦ covered_by (w ∷ wanted) entries
]

pub covered_by_lem :
    (wanted entries all : List Entry)
    → ((e : Entry) → In e entries → In e all)
    → covered_by wanted entries ≡ true
    → All (IsCovered all) wanted
unfolding covered_by
covered_by_lem [] entries all sub h = tt
covered_by_lem (w ∷ wanted) [] all sub h = absurd (cc)
covered_by_lem (w ∷ wanted) (e ∷ entries) all sub h = elim (Bool-cases (w.0 == e.0)) [
  | inl q ↦
      let both : (leb w.1 e.1 && covered_by wanted entries) ≡ true = rw (q, covered_by) at h in
      (
        (e.1, sub (w.0, e.1) (inl (rw ((==_iff w.0 e.0).0 q) refl)), ground arith),
        covered_by_lem wanted entries all (λ b i. sub b (inr i)) (ground arith),
      )
  | inr q ↦ covered_by_lem (w ∷ wanted) entries all (λ b i. sub b (inr i)) (rw (q, covered_by) at h)
]
