-- ===== src/RomBuild/Planned.antt =====
-- What a plan of `build` writes: everything fits, and the tables and the streams read back.
use street_fighter_alpha_2_n.Base.{
  ℕ, ◌+◌, ◌*◌, ◌<◌, ◌≡◌, subst, true, some, List, ◌++◌, length, replicate, length-replicate, All,
  All-at, Chain, Dict, arith,
}
use street_fighter_alpha_2_n.Sdd1Map.{Entry}
use street_fighter_alpha_2_n.Tables.Found.{length-build}
use street_fighter_alpha_2_n.RomBuild.{Spot, data_bank_regions, spans_of, subtract}
use street_fighter_alpha_2_n.RomBuild.Subtract.{covers}
use street_fighter_alpha_2_n.RomBuild.Allocate.{Disjoint, SpotOpen, allocate-Disjoint}
use street_fighter_alpha_2_n.RomBuild.Image.{
  Mapper, Decompress, end_of, table_placements, extra_placements,
}
use street_fighter_alpha_2_n.RomBuild.Sequence.{
  Fits, Off, ReadsBack, All-append, place_all_ends, place_all-append, place_all-ReadsBack,
}
use street_fighter_alpha_2_n.RomBuild.Mapped.{IsOffered, covers-offer}
use street_fighter_alpha_2_n.RomBuild.Streams.{
  IsSpotted-Fits, extra-Off, extra-Fits, Zipped, stream_placements-Zipped,
}
use street_fighter_alpha_2_n.RomBuild.Front.{
  cartridge-Fits, AreTables, tables-Fits, tables-Off, tables-Chain, IsAside, spotted-IsAside,
  extras-IsAside,
}
use street_fighter_alpha_2_n.RomBuild.Spots.{
  Located, sizes_of-last_first, entry-HasSpot, streams-Located, Zipped-Chain, Zipped-All,
}
use street_fighter_alpha_2_n.Tables.Build.{ByteTables}
use street_fighter_alpha_2_n.RomBuild.Built.{IsGiven, IsPlanned, written, Chain-append}

module _ (m : Mapper) (decompress : Decompress) (rom : List ℕ) (entries : List Entry) (banks : ℕ)
    (extra : List (ℕ × List ℕ)) (given : IsGiven m decompress rom entries banks extra)
    (destinations : Dict ℕ) (tables : ByteTables)
    (plan : IsPlanned m decompress rom entries extra destinations tables) where
  -- every address of a spot was offered
  spot-IsOffered :
      (s : Spot)
      → SpotOpen (subtract (data_bank_regions m.bank_size) (spans_of extra) ++ plan.reclaimed) s
      → (j : ℕ) → j < s.size
      → IsOffered extra s.bank (s.at + j)
  spot-IsOffered s free j h =
      covers-offer (end_of decompress) rom entries extra plan.reclaimed s.bank (s.at + j)
        given.inside plan.found
        (subst
          (λ size.
            covers (subtract (data_bank_regions size) (spans_of extra) ++ plan.reclaimed) s.bank
              (s.at + j)
            ≡ true)
          given.windowed.bank_is (free s.bank (s.at + j) (ground (arith, h))))

  -- the spots behind the destinations, and the streams' placements at them
  pub located :
      (spots : List Spot) × Chain Disjoint spots × Zipped (Located extra spots) entries plan.streams
  located =
      let (spots, requests, placed, free, apart) =
        allocate-Disjoint plan.sizes _ destinations
          (sizes_of-last_first entries plan.sizes given.distinct plan.asked) plan.allocated in
      (
        spots,
        apart,
        streams-Located extra decompress rom destinations spots given.exact placed
            (λ s i j h.
              spot-IsOffered s
                (All-at
                  (SpotOpen
                    (subtract (data_bank_regions m.bank_size) (spans_of extra) ++ plan.reclaimed))
                  spots s free i)
                j h)
            entries plan.streams (entry-HasSpot entries plan.sizes spots plan.asked requests)
            given.positive
            (stream_placements-Zipped decompress rom destinations entries plan.streams
              plan.streamed),
      )

  -- everything that is placed fits in the image
  streams-Fits : All Fits plan.streams
  streams-Fits =
      let (spots, apart, z) = located in
      Zipped-All extra spots apart Fits (IsSpotted-Fits extra) entries plan.streams z

  tables_streams-Fits : All Fits (table_placements tables ++ plan.streams)
  tables_streams-Fits =
      All-append Fits (table_placements tables) plan.streams
        (tables-Fits tables (length-build plan.pairs tables plan.tabled)) streams-Fits

  -- The writes end.
  pub written_ends :
      (image : List ℕ) × (written m decompress rom entries banks extra destinations tables plan
        ≡ some image)
      × (length image ≡ banks * m.bank_size)
  written_ends =
      let (image, ends, sized) =
        place_all_ends m banks (banks * m.bank_size) given.windowed _
          (replicate (banks * m.bank_size) 0)
          (All-append Fits _ ((table_placements tables ++ plan.streams) ++ extra_placements extra)
            (cartridge-Fits m given.windowed.half_is given.windowed.bank_is rom)
            (All-append Fits (table_placements tables ++ plan.streams) (extra_placements extra)
              tables_streams-Fits (extra-Fits extra extra given.extras)))
          (length-replicate (banks * m.bank_size) 0) in
      (image, ends, sized)

  -- The tables and the streams read back.
  pub read_back :
      (image : List ℕ)
      → written m decompress rom entries banks extra destinations tables plan ≡ some image
      → All (ReadsBack m banks image) (table_placements tables ++ plan.streams)
  read_back image placed =
      let (spots, apart, z) = located in
      let of_tables : AreTables tables = length-build plan.pairs tables plan.tabled in
      let aside =
        Zipped-All extra spots apart IsAside (spotted-IsAside extra) entries plan.streams z in
      let cartridge = cartridge-Fits m given.windowed.half_is given.windowed.bank_is rom in
      let (mid, sized, rest) =
        place_all-append m banks (banks * m.bank_size) given.windowed _
          ((table_placements tables ++ plan.streams) ++ extra_placements extra)
          (replicate (banks * m.bank_size) 0) image cartridge
          (length-replicate (banks * m.bank_size) 0) placed in
      place_all-ReadsBack m banks (banks * m.bank_size) given.windowed
        (table_placements tables ++ plan.streams) (extra_placements extra) mid image
        tables_streams-Fits (extra-Fits extra extra given.extras)
        (Chain-append (table_placements tables) plan.streams (tables-Chain tables of_tables)
          (Zipped-Chain extra spots apart entries plan.streams z given.distinct)
          (tables-Off tables plan.streams of_tables aside))
        (All-append (λ p. All (Off p) (extra_placements extra)) (table_placements tables)
          plan.streams
          (tables-Off tables (extra_placements extra) of_tables (extras-IsAside extra given.extras))
          (Zipped-All extra spots apart (λ p. All (Off p) (extra_placements extra))
            (λ s p at. extra-Off extra s p extra at (λ x i. i) given.extras) entries plan.streams
            z))
        sized rest
