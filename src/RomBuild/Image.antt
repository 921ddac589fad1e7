-- ===== src/RomBuild/Image.antt =====
-- place and build of rombuild.py: the image with the cartridge, the tables and the decompressed
-- streams. `address_to_file` is the map package's, with its `HALF` and `BANK`.
use street_fighter_alpha_2_n.Base.{
  ℕ, zero, suc, ◌+◌, ◌-◌, ◌*◌, ◌/◌, min, not, Option, none, some, List, [], ◌∷◌, ◌++◌, length, take,
  drop, slice, splice, range, replicate, leb, ltb, ◌==◌, if◌then◌else◌, low16, high, Result, ok,
  err, ◌>>=◌, ◌>>◌, refuse, Dict,
}
use street_fighter_alpha_2_n.Sdd1Map.{Entry}
use street_fighter_alpha_2_n.Tables.Build.{ByteTables, BuildError}
use street_fighter_alpha_2_n.Tables.Build
use street_fighter_alpha_2_n.RomBuild.{
  Region, Error, table_bank, window_base, data_bank_regions, spans_of, subtract, allocate,
}
use street_fighter_alpha_2_n.RomBuild.Reclaimed.{Raised, reclaimed_regions}

abbrev pub image_banks : ℕ
image_banks = 192

abbrev pub lorom_banks : ℕ
lorom_banks = 0x40

abbrev pub lorom_mirror_base : ℕ
lorom_mirror_base = 0x80

abbrev pub original_size : ℕ
original_size = 0x400000

-- the map package: the sizes, and the offset of a bank's address in an image of so many banks
pub record Mapper : Type 0 where
  pub half : ℕ
  pub bank_size : ℕ
  pub address_to_file : ℕ → ℕ → ℕ → ℕ

-- `min(len(data) - written, edge - addr)`, for `n` bytes that are left
abbrev pub chunk_of : Mapper → ℕ → ℕ → ℕ
chunk_of m addr n = min n ((if ltb addr m.half then m.half else m.bank_size) - addr)

-- the bank and the address after a chunk that ends at `addr`
abbrev pub bank_after : Mapper → ℕ → ℕ → ℕ
bank_after m bank addr = if leb m.bank_size addr then suc bank else bank

abbrev pub addr_after : Mapper → ℕ → ℕ
addr_after m addr = if leb m.bank_size addr then 0 else addr

-- the loop of `place`, with what is left of the data: nothing if so many rounds do not end it
unfoldable pub place_from : ℕ → Mapper → List ℕ → ℕ → ℕ → List ℕ → ℕ → Option (List ℕ)
place_from fuel m image bank addr [] banks = some image
place_from zero m image bank addr (x ∷ data') banks = none
place_from (suc fuel) m image bank addr (x ∷ data') banks =
    let chunk = chunk_of m addr (length (x ∷ data')) in
    let written = splice image (m.address_to_file bank addr banks) (take chunk (x ∷ data')) in
    place_from fuel m written (bank_after m bank (addr + chunk)) (addr_after m (addr + chunk))
      (drop chunk (x ∷ data')) banks

-- Each round writes a byte at least, for an address in the bank.
unfoldable pub place : Mapper → List ℕ → ℕ → ℕ → List ℕ → ℕ → Option (List ℕ)
place m image bank addr data' banks = place_from (length data') m image bank addr data' banks

-- data and the bank and address where it goes
pub record Placement : Type 0 where
  pub bank : ℕ
  pub addr : ℕ
  pub data' : List ℕ

unfoldable pub place_all : Mapper → ℕ → List Placement → List ℕ → Option (List ℕ)
place_all m banks [] image = some image
place_all m banks (p ∷ placements) image = elim (place m image p.bank p.addr p.data' banks) [
  | none ↦ none
  | some placed ↦ place_all m banks placements placed
]

-- the cartridge's halves, in the LoROM banks and their mirror
unfoldable pub lorom_placements : Mapper → List ℕ → List ℕ → List Placement
lorom_placements m rom [] = []
lorom_placements m rom (bank ∷ banks) =
    let half = slice rom (bank * m.half) m.half in
    record { bank = bank; addr = m.half; data' = half }
    ∷ record { bank = lorom_mirror_base + bank; addr = m.half; data' = half }
    ∷ lorom_placements m rom banks

-- the cartridge's banks, in the window
unfoldable pub window_placements : Mapper → List ℕ → List ℕ → List Placement
window_placements m rom [] = []
window_placements m rom (n ∷ ns) =
    record { bank = window_base + n; addr = 0; data' = slice rom (n * m.bank_size) m.bank_size }
    ∷ window_placements m rom ns

unfoldable pub table_placements : ByteTables → List Placement
table_placements t =
    record { bank = table_bank; addr = 0; data' = t.key }
    ∷ record { bank = table_bank + 1; addr = 0; data' = t.dest_low }
    ∷ record { bank = table_bank + 2; addr = 0; data' = t.dest_high }
    ∷ record { bank = table_bank + 3; addr = 0; data' = t.dest_bank }
    ∷ []

unfoldable pub extra_placements : List (ℕ × List ℕ) → List Placement
extra_placements [] = []
extra_placements ((address, data') ∷ extra) =
    record { bank = high address; addr = low16 address; data' = data' } ∷ extra_placements extra

-- What `build` raises or passes on. A stream of unknown length makes it raise when the stream is
-- allocated; here it does before the first one is.
pub data ImageError : Type 0 where
  wrong_size unknown_length no_destination never_placed : ImageError
  unreadable : Raised → ImageError
  no_room : Error → ImageError
  no_tables : BuildError → ImageError

-- `decompress` returns the bytes and the offset past the stream's end, or raises.
abbrev pub Decompress : Type 0
Decompress = List ℕ → ℕ → ℕ → Option (List ℕ × ℕ)

abbrev pub end_of : Decompress → List ℕ → ℕ → ℕ → Option ℕ
end_of decompress rom source n = elim (decompress rom source n) [
  | none ↦ none
  | some (bytes, end) ↦ some end
]

unfoldable pub stream_placements :
    Decompress → List ℕ → Dict ℕ → List Entry → Result ImageError (List Placement)
stream_placements decompress rom destinations [] = ok []
stream_placements decompress rom destinations (e ∷ entries) = do
  destination ← elim (destinations e.index) [ none ↦ err no_destination | some at ↦ ok at ]
  n ← elim e.length [ none ↦ err unknown_length | some n ↦ ok n ]
  decoded ← elim (decompress rom e.source n) [
    | none ↦ err (unreadable Raised.undecodable)
    | some d ↦ ok d
  ]
  others ← stream_placements decompress rom destinations entries
  ok (record { bank = high destination; addr = low16 destination; data' = decoded.0 } ∷ others)

-- the entry behind the last one, which stands first
abbrev pub put_second : Entry → List Entry → List Entry
put_second e [] = e ∷ []
put_second e (last ∷ firsts) = last ∷ e ∷ firsts

-- `entries[-1:] + entries[:-1]`
abbrev pub last_first : List Entry → List Entry
last_first [] = []
last_first (e ∷ entries) = put_second e (last_first entries)

-- `[(e.index, e.length) for e in ordered]`; the size of a stream of unknown length is `None`
unfoldable pub sizes_of : List Entry → Result ImageError (List (ℕ × ℕ))
sizes_of [] = ok []
sizes_of (e ∷ entries) = do
  n ← elim e.length [ none ↦ err unknown_length | some n ↦ ok n ]
  sizes ← sizes_of entries
  ok ((e.index, n) ∷ sizes)

-- `[(e, destinations[e.index]) for e in entries]`
unfoldable pub pairs_of : Dict ℕ → List Entry → Result ImageError (List (ℕ × ℕ))
pairs_of destinations [] = ok []
pairs_of destinations (e ∷ entries) = do
  destination ← elim (destinations e.index) [ none ↦ err no_destination | some at ↦ ok at ]
  pairs ← pairs_of destinations entries
  ok ((e.source, destination) ∷ pairs)

pub record Built : Type 0 where
  pub image : List ℕ
  pub destinations : Dict ℕ
  pub tables : ByteTables
  pub regions : List Region

abbrev pub passed_on : {E A : Type 0} → (E → ImageError) → Result E A → Result ImageError A
passed_on raised (ok value) = ok value
passed_on raised (err e) = err (raised e)

abbrev pub placed_or : Option (List ℕ) → Result ImageError (List ℕ)
placed_or none = err never_placed
placed_or (some image) = ok image

-- all placements of `build`, in order
abbrev pub placements_of :
    Mapper → List ℕ → ByteTables → List Placement → List (ℕ × List ℕ) → List Placement
placements_of m rom tables streams extra =
    (lorom_placements m rom (range 0 lorom_banks)
      ++ window_placements m rom (range 0 (original_size / m.bank_size)))
    ++ ((table_placements tables ++ streams) ++ extra_placements extra)

unfoldable pub build :
    Mapper → Decompress → List ℕ → List Entry → ℕ → List (ℕ × List ℕ) → Result ImageError Built
unfolding sizes_of pairs_of stream_placements
build m decompress rom entries banks extra = do
  refuse (not (length rom == original_size)) wrong_size
  reclaimed ← passed_on unreadable (reclaimed_regions (end_of decompress) rom entries)
  sizes ← sizes_of (last_first entries)
  destinations ←
      passed_on no_room
        (allocate sizes (subtract (data_bank_regions m.bank_size) (spans_of extra) ++ reclaimed))
  pairs ← pairs_of destinations entries
  tables ← passed_on no_tables (Build.build pairs)
  streams ← stream_placements decompress rom destinations entries
  image ← placed_or (
      place_all m banks (placements_of m rom tables streams extra)
        (replicate (banks * m.bank_size) 0))
  ok (record {
    image = image;
    destinations = destinations;
    tables = tables;
    regions = subtract (data_bank_regions m.bank_size) (spans_of extra) ++ reclaimed;
  })
