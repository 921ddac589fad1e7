-- ===== src/Sdd1Map/Tests.antt =====
-- The theorems of sdd1map.py for a cartridge with two markers, and a decoder that copies.
use street_fighter_alpha_2_n.Base.{
  ℕ, ◌+◌, ◌<◌, ◌≡◌, ◌⊎◌, inr, refl, Option, some, List, [], ◌∷◌, ◌++◌, map, slice, Chain, ok, err,
  replicate, arith,
}
use street_fighter_alpha_2_n.Sdd1Map.{
  Entry, Decoded, Report, no_report, marker, find_markers, targets_of, build_map, audit, rebuild,
  not_increasing, below_last_target,
}
use street_fighter_alpha_2_n.Sdd1Map.BuildMap.{Tiles, start_of, marker_of, build_map_lem}
use street_fighter_alpha_2_n.Sdd1Map.Audit.{Verdict, AreJudged, IsCounted, audit_lem}
use street_fighter_alpha_2_n.Sdd1Map.Rebuild.{streams, rebuild_lem}

-- a marker for the target 2 at 1, and one for the target 5 at 9
abbrev tagged : List ℕ
tagged = 7 ∷ marker ++ 2 ∷ 0 ∷ 0 ∷ 0 ∷ marker ++ 5 ∷ 0 ∷ 0 ∷ 0 ∷ []

-- A decoder that copies, and ends past what it has copied.
abbrev copy : List ℕ → ℕ → ℕ → Option Decoded
copy rom source n = some (record { data' = slice rom source n; end = source + n })

abbrev first : Entry
first = record { index = 0; source = 1; target = 2; length = some 3 }

abbrev second : Entry
second = record { index = 1; source = 9; target = 5; length = some 2 }

build_map_lem_example :
    (Chain ◌<◌ (targets_of (find_markers tagged) ++ 7 ∷ [])
      × ((entries : List Entry) × (build_map tagged (some 7) ≡ ok entries)
          × Tiles entries 7
          × (map marker_of entries ≡ find_markers tagged)))
    ⊎ (¬ (Chain ◌<◌ (targets_of (find_markers tagged) ++ 7 ∷ []))
        × ((build_map tagged (some 7) ≡ err not_increasing)
            ⊎ (build_map tagged (some 7) ≡ err below_last_target)))
build_map_lem_example = build_map_lem tagged 7

audit_lem_example :
    (vs : List Verdict) × (report : Report) × (audit copy tagged (first ∷ second ∷ []) ≡ ok report)
    × AreJudged copy tagged vs first (second ∷ [])
    × IsCounted vs no_report report
audit_lem_example = audit_lem copy tagged first (second ∷ []) (
  inr (3, record { data' = slice tagged 1 3; end = 4 }, refl, refl),
  (inr (2, record { data' = slice tagged 9 2; end = 11 }, refl, refl), tt),
)

rebuild_lem_example :
    rebuild copy tagged (first ∷ second ∷ []) (some 7)
    ≡ ok (
        replicate (start_of (first ∷ second ∷ []) 7) 0 ++ streams copy tagged (first ∷ second ∷ []))
unfolding slice
rebuild_lem_example =
    rebuild_lem copy tagged (first ∷ second ∷ []) 7
      ((3, refl, omega arith, refl), ((2, refl, omega arith, refl), tt))
      (
        (3, record { data' = slice tagged 1 3; end = 4 }, refl, refl, refl),
        ((2, record { data' = slice tagged 9 2; end = 11 }, refl, refl, refl), tt),
      )
