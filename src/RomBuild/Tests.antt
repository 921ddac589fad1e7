-- ===== src/RomBuild/Tests.antt =====
-- The theorems of rombuild.py at concrete regions, two of which overlap.
use street_fighter_alpha_2_n.Base.{
  ◌+◌, true, ◌<◌, ◌⊎◌, ◌++◌, err, ℕ, ◌≡◌, inl, not, ◌&&◌, List, [], ◌∷◌, map, All, Chain, Dict,
  join, ok, put, empty, refl, arith, sorted, some,
}
use street_fighter_alpha_2_n.RomBuild.{
  Region, Spot, subtract, merge, merge_sorted, merge_onto, allocate, assign_all, assign, fit,
  cursors, placed_of, spot_for, pass_by,
}
use street_fighter_alpha_2_n.Sdd1Map.{Entry, marker, not_increasing, find_markers, targets_of}
use street_fighter_alpha_2_n.Sdd1Map.BuildMap.{Tiles, marker_of}
use street_fighter_alpha_2_n.RomBuild.Entries.{load_entries, load_entries_lem}
use street_fighter_alpha_2_n.RomBuild.Reclaimed.{
  Decode, reclaimed_regions, spans_from, span_known, span_onto, large, IsConsumed,
  reclaimed_regions_lem,
}
use street_fighter_alpha_2_n.RomBuild.Subtract.{covers, covers-subtract}
use street_fighter_alpha_2_n.RomBuild.Merge.{Separate, merge_lem}
use street_fighter_alpha_2_n.RomBuild.Room.{allocate-Succeeds}
use street_fighter_alpha_2_n.RomBuild.Allocate.{request, SpotOpen, Disjoint, allocate-Disjoint}

-- a marker for the target 2 at 1, and one for the target 5 at 9
abbrev tagged : List ℕ
tagged = 7 ∷ marker ++ 2 ∷ 0 ∷ 0 ∷ 0 ∷ marker ++ 5 ∷ 0 ∷ 0 ∷ 0 ∷ []

load_entries_lem_example :
    (Chain ◌<◌ (targets_of (find_markers tagged))
      × ((entries : List Entry) × (size : ℕ) × (load_entries 0x10000 tagged ≡ ok entries)
          × Tiles entries size
          × (map marker_of entries ≡ find_markers tagged)))
    ⊎ (¬ (Chain ◌<◌ (targets_of (find_markers tagged)))
        × (load_entries 0x10000 tagged ≡ err not_increasing))
load_entries_lem_example = load_entries_lem 0x10000 tagged (omega arith)

abbrev here : List Region
here =
    record { bank = 0x40; start = 0; end = 16 }
    ∷ record { bank = 0x40; start = 8; end = 32 }
    ∷ record { bank = 0x41; start = 4; end = 20 }
    ∷ []

abbrev hole : List Region
hole = record { bank = 0x40; start = 6; end = 10 } ∷ []

abbrev wanted : List (ℕ × ℕ)
wanted = (1, 10) ∷ (2, 15) ∷ (3, 4) ∷ []

abbrev expected : Dict ℕ
expected = put (put (put empty 1 0x400000) 2 0x40000A) 3 0x400019

-- 1 and 2 fill bank 0x40 up to 25, and 3 goes after them.
allocated : allocate wanted here ≡ ok expected
unfolding allocate assign_all assign spot_for fit pass_by cursors placed_of merge merge_sorted
    merge_onto sorted join
allocated = refl

covers-subtract_example :
    covers (subtract here hole) 0x40 7 ≡ (covers here 0x40 7 && not (covers hole 0x40 7))
covers-subtract_example = covers-subtract here hole 0x40 7

merge_lem_example :
    ((bank addr : ℕ) → covers (merge here) bank addr ≡ covers here bank addr)
    × Chain Separate (merge here)
merge_lem_example = merge_lem here

allocate-Succeeds_example : (placed : Dict ℕ) × (allocate ((1, 10) ∷ (2, 5) ∷ []) here ≡ ok placed)
allocate-Succeeds_example = allocate-Succeeds ((1, 10) ∷ (2, 5) ∷ []) here (inl (omega arith))

allocate-Disjoint_example :
    (spots : List Spot) × (map request spots ≡ wanted)
    × All (λ s. expected s.stream ≡ some (join s.bank s.at)) spots
    × All (SpotOpen here) spots
    × Chain Disjoint spots
allocate-Disjoint_example = allocate-Disjoint wanted here expected (ground arith) allocated

-- a decoder that reads as much as it returns, and one byte ahead
abbrev copying : Decode
copying rom source n = some (source + n + 1)

abbrev streams : List Entry
streams = record { index = 0; source = 0x10010; target = 0; length = some 0x2000 } ∷ []

abbrev freed : List Region
freed = record { bank = 0xC1; start = 0x10; end = 0x2010 } ∷ []

reclaimed : reclaimed_regions copying [] streams ≡ ok freed
unfolding reclaimed_regions spans_from span_known span_onto large merge merge_sorted merge_onto
    sorted
reclaimed = refl

freed_there : covers freed 0xC1 0x20 ≡ true
unfolding covers
freed_there = refl

reclaimed_regions_lem_example : IsConsumed copying [] streams 0xC1 0x20
reclaimed_regions_lem_example =
    reclaimed_regions_lem copying [] streams freed 0xC1 0x20 reclaimed freed_there
