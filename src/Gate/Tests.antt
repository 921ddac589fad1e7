-- ===== src/Gate/Tests.antt =====
-- The theorem of gate.py for a table of two streams and a decoder of zeros.
use street_fighter_alpha_2_n.Base.{
  arith, ◌⊎◌, err, map, ℕ, ◌≡◌, ◌↔◌, some, List, [], ◌∷◌, All, Chain, replicate, ok,
}
use street_fighter_alpha_2_n.Tables
use street_fighter_alpha_2_n.Gate.{Entry, key_of, Decode, check, worst_scan}
use street_fighter_alpha_2_n.Gate.Scan.{IsWorst, worst_scan_lem}
use street_fighter_alpha_2_n.Gate.Entries.{IsOther}
use street_fighter_alpha_2_n.Gate.Covered.{IsCovered}
use street_fighter_alpha_2_n.Gate.Check.{DecodesAll, IsQuick, check_iff}

abbrev zeros : Decode
zeros rom source n = some (replicate n 0)

abbrev two : List Entry
two = (0x10, 4) ∷ (0x20, 6) ∷ []

abbrev asked : List Entry
asked = (0x20, 5) ∷ []

check_iff_example :
    (check zeros two asked (some []) ≡ ok [])
    ↔ (Chain IsOther two × DecodesAll zeros (some []) two × All (IsCovered two) asked × IsQuick two)
check_iff_example = check_iff zeros two asked (some [])

worst_scan_lem_example :
    ((placed : List ℕ) × (worst : ℕ) × (Tables.allocate (map key_of two) ≡ ok placed)
      × (worst_scan two ≡ ok worst)
      × IsWorst two placed worst)
    ⊎ ((Tables.allocate (map key_of two) ≡ err Tables.unplaceable)
        × (worst_scan two ≡ err Tables.unplaceable))
worst_scan_lem_example = worst_scan_lem two (omega arith)
