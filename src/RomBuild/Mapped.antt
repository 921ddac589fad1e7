-- ===== src/RomBuild/Mapped.antt =====
-- The regions that `build` offers lie where the image is mapped, off the tables and off what stands
-- at fixed addresses.
use street_fighter_alpha_2_n.Base.{
  ℕ, ◌+◌, ◌-◌, ◌≤◌, ◌<◌, ◌≡◌, ◌⊎◌, inl, inr, ◌∙◌, sym, true, false, ◌&&◌, List, [], ◌∷◌, ◌++◌, In,
  range, range_bounds, ltb, leb, ◌==◌, Bool-cases, All, All-at, ok, arith,
}
use street_fighter_alpha_2_n.Sdd1Map.{Entry}
use street_fighter_alpha_2_n.RomBuild.{
  Region, among, reserved, regions_of_banks, data_bank_regions, data_bank_first, data_bank_last,
  spans_of, subtract,
}
use street_fighter_alpha_2_n.RomBuild.Subtract.{covers, covers-append, covers-subtract}
use street_fighter_alpha_2_n.RomBuild.Reclaimed.{Decode, reclaimed_regions, reclaimed_regions_lem}

-- an address of a data bank that is not reserved
abbrev IsData : ℕ → ℕ → Type 0
IsData bank addr =
    (0x40 ≤ bank) × (bank < 0x7E) × (addr < 0x10000) × ((bank < 0x60) ⊎ (0x64 ≤ bank))

covers-regions_of_banks :
    (banks : List ℕ) (bank addr : ℕ)
    → covers (regions_of_banks 0x10000 banks) bank addr ≡ true
    → In bank banks × (among bank reserved ≡ false) × (addr < 0x10000)
unfolding covers regions_of_banks
covers-regions_of_banks [] bank addr h = absurd (cc h)
covers-regions_of_banks (b ∷ banks) bank addr h = elim (Bool-cases (among b reserved)) [
  | inl r ↦
      let (i, free, below) =
        covers-regions_of_banks banks bank addr (rw (regions_of_banks, r) at h) in
      (inr i, free, below)
  | inr r ↦ elim (Bool-cases (b == bank && (leb 0 addr && ltb addr 0x10000))) [
    | inl here ↦
        let same : b ≡ bank = ground (arith, here) in
        (inl (sym same), rw (sym same) r, ground (arith, here))
    | inr there ↦
        let (i, free, below) =
          covers-regions_of_banks banks bank addr (rw (regions_of_banks, r, covers, there) at h) in
        (inr i, free, below)
  ]
]

among-reserved : (bank : ℕ) → among bank reserved ≡ false → (bank < 0x60) ⊎ (0x64 ≤ bank)
unfolding among reserved range
among-reserved bank h = ground (arith, h)

covers-data_bank_regions :
    (bank addr : ℕ) → covers (data_bank_regions 0x10000) bank addr ≡ true → IsData bank addr
unfolding data_bank_regions
covers-data_bank_regions bank addr h =
    let (i, free, below) =
      covers-regions_of_banks (range data_bank_first (data_bank_last + 1 - data_bank_first)) bank
        addr h in
    let (low, up) = range_bounds data_bank_first (data_bank_last + 1 - data_bank_first) bank i in
    (low, omega (arith, up), below, among-reserved bank free)

-- where the streams of `build` may go
abbrev pub IsOffered : List (ℕ × List ℕ) → ℕ → ℕ → Type 0
IsOffered extra bank addr =
    (addr < 0x10000)
    × (((0x40 ≤ bank)
          × (bank < 0x7E)
          × ((bank < 0x60) ⊎ (0x64 ≤ bank))
          × (covers (spans_of extra) bank addr ≡ false))
        ⊎ ((0xC0 ≤ bank) × (bank < 0x100)))

pub covers-offer :
    (decode : Decode) (rom : List ℕ) (entries : List Entry) (extra : List (ℕ × List ℕ))
    (reclaimed : List Region) (bank addr : ℕ)
    → All (λ e. e.source < 0x400000) entries
    → reclaimed_regions decode rom entries ≡ ok reclaimed
    → covers (subtract (data_bank_regions 0x10000) (spans_of extra) ++ reclaimed) bank addr ≡ true
    → IsOffered extra bank addr
covers-offer decode rom entries extra reclaimed bank addr inside found h =
    elim (Bool-cases (covers (subtract (data_bank_regions 0x10000) (spans_of extra)) bank addr)) [
      | inl in_data ↦
          let both =
            sym (covers-subtract (data_bank_regions 0x10000) (spans_of extra) bank addr)
            ∙ in_data in
          let (low, up, below, free) = covers-data_bank_regions bank addr (ground (arith, both)) in
          (below, inl (low, up, free, ground (arith, both)))
      | inr not_data ↦
          let (e, n, end, i, known, decoded, bank_is, from, to, below) =
            reclaimed_regions_lem decode rom entries reclaimed bank addr found (
              ground (
                arith,
                h,
                not_data,
                covers-append (subtract (data_bank_regions 0x10000) (spans_of extra)) reclaimed bank
                    addr,
              )) in
          (
            below,
            inr (
              omega (arith, bank_is),
              omega (arith, bank_is, All-at (λ e. e.source < 0x400000) entries e inside i),
            ),
          )
    ]
