-- ===== src/RomBuild.antt =====
-- rombuild.py: which stretches of the image are free, and where each decompressed stream goes.
-- `bank_size` is the map package's `BANK`; the other sizes are the module's own constants.
mod Entries
mod Subtract
mod Merge
mod Room
mod Reclaimed
mod Image
mod Written
mod Rounds
mod Sequence
mod Mapped
mod Streams
mod Front
mod Spots
mod Built
mod Planned
mod Ends
mod Retrieved
mod ImageTests
mod Fit
mod Allocate
mod Tests
use street_fighter_alpha_2_n.Base.{
  ℕ, zero, suc, ◌+◌, ◌-◌, ◌*◌, ◌/◌, ◌%◌, min, max, Bool, true, false, not, ◌&&◌, ◌||◌, Option, none,
  some, List, [], ◌∷◌, ◌++◌, map, length, range, sorted, leb, ltb, ◌==◌, if◌then◌else◌, low16, high,
  join, Result, ok, err, ◌>>=◌, Dict, put, empty,
}

abbrev pub table_bank : ℕ
table_bank = 0x60

abbrev pub table_count : ℕ
table_count = 4

abbrev pub data_bank_first : ℕ
data_bank_first = 0x40

abbrev pub data_bank_last : ℕ
data_bank_last = 0x7D

abbrev pub wram_banks : List ℕ
wram_banks = 0x7E ∷ 0x7F ∷ []

abbrev pub window_base : ℕ
window_base = 0xC0

abbrev pub min_region : ℕ
min_region = 0x1000

abbrev pub read_ahead : ℕ
read_ahead = 1

pub record Region : Type 0 where
  pub bank : ℕ
  pub start : ℕ
  pub end : ℕ

-- the `AllocationError` of an empty offer, and that of a stream, by its key and size
pub data Error : Type 0 where
  no_free_regions : Error
  no_region_holds : ℕ → ℕ → Error

pub among : ℕ → List ℕ → Bool
among n [] = false
among n (x ∷ xs) = n == x || among n xs

pub reserved : List ℕ
reserved = range table_bank table_count ++ wram_banks

pub regions_of_banks : ℕ → List ℕ → List Region
regions_of_banks bank_size [] = []
regions_of_banks bank_size (bank ∷ banks) =
    let later = regions_of_banks bank_size banks in
    if among bank reserved
    then later
    else record { bank = bank; start = 0; end = bank_size } ∷ later

pub data_bank_regions : ℕ → List Region
unfolding regions_of_banks among reserved
data_bank_regions bank_size =
    regions_of_banks bank_size (range data_bank_first (data_bank_last + 1 - data_bank_first))

-- the stretches that data at fixed addresses takes
pub spans_of : List (ℕ × List ℕ) → List Region
spans_of [] = []
spans_of ((address, data') ∷ extra) =
    record { bank = high address; start = low16 address; end = low16 address + length data' }
    ∷ spans_of extra

-- a start and an end
abbrev pub Piece : Type 0
Piece = ℕ × ℕ

-- what a hole leaves of a piece
unfoldable pub cut_piece : Region → Piece → List Piece
cut_piece hole (start, end) =
    if leb hole.end start || leb end hole.start
    then (start, end) ∷ []
    else (if ltb start hole.start then (start, hole.start) ∷ [] else [])
      ++ (if ltb hole.end end then (hole.end, end) ∷ [] else [])

pub cut_pieces : Region → List Piece → List Piece
cut_pieces hole [] = []
cut_pieces hole (piece ∷ pieces) = cut_piece hole piece ++ cut_pieces hole pieces

pub cut_holes : ℕ → List Region → List Piece → List Piece
cut_holes bank [] pieces = pieces
cut_holes bank (hole ∷ taken) pieces =
    cut_holes bank taken (if hole.bank == bank then cut_pieces hole pieces else pieces)

-- the pieces that are not empty, as regions of the bank
pub regions_of : ℕ → List Piece → List Region
regions_of bank [] = []
regions_of bank ((start, end) ∷ pieces) =
    let later = regions_of bank pieces in
    if ltb start end then record { bank = bank; start = start; end = end } ∷ later else later

unfoldable pub subtract : List Region → List Region → List Region
unfolding cut_piece cut_pieces cut_holes regions_of
subtract [] taken = []
subtract (region ∷ regions) taken =
    regions_of region.bank (cut_holes region.bank taken ((region.start, region.end) ∷ []))
    ++ subtract regions taken

-- `key=lambda r: (r.bank, r.start)`
abbrev pub by_start : Region → Region → Bool
by_start r s = ltb r.bank s.bank || (r.bank == s.bank && leb r.start s.start)

-- `last` is `merged[-1]`, to which the next region is joined or after which it goes.
pub merge_onto : Region → List Region → List Region
merge_onto last [] = last ∷ []
merge_onto last (region ∷ regions) =
    let joined = merge_onto (record last { end = max last.end region.end }) regions in
    let after = last ∷ merge_onto region regions in
    if last.bank == region.bank && leb region.start last.end then joined else after

pub merge_sorted : List Region → List Region
merge_sorted [] = []
merge_sorted (region ∷ regions) = merge_onto region regions

unfoldable pub merge : List Region → List Region
unfolding merge_sorted merge_onto
merge regions = merge_sorted (sorted by_start regions)

-- a free region with its cursor
abbrev pub Free : Type 0
Free = Region × ℕ

-- a bank, an address in it, and the cursors after it is given away
abbrev pub Fitted : Type 0
Fitted = ℕ × ℕ × List Free

pub pass_by : Free → Option Fitted → Option Fitted
pass_by free none = none
pass_by free (some (bank, at, rest)) = some (bank, at, free ∷ rest)

-- the first region with room for a stream of the size
pub fit : ℕ → List Free → Option Fitted
unfolding pass_by
fit size [] = none
fit size ((region, cursor) ∷ free) =
    if leb (cursor + size) region.end
    then some (region.bank, cursor, (region, cursor + size) ∷ free)
    else pass_by (region, cursor) (fit size free)

pub cursors : List Region → List Free
cursors [] = []
cursors (region ∷ regions) = (region, region.start) ∷ cursors regions

-- a stream's key and size, and the bank and address where it goes
pub record Spot : Type 0 where
  pub stream : ℕ
  pub size : ℕ
  pub bank : ℕ
  pub at : ℕ

pub spot_for :
    ℕ → ℕ → Option Fitted → (List Free → Result Error (List Spot)) → Result Error (List Spot)
spot_for stream size none others = err (no_region_holds stream size)
spot_for stream size (some (bank, at, free)) others = do
  spots ← others free
  ok (record { stream = stream; size = size; bank = bank; at = at } ∷ spots)

-- the loop of `allocate`: the spot of each stream in turn
pub assign : List (ℕ × ℕ) → List Free → Result Error (List Spot)
unfolding spot_for
assign [] free = ok []
assign ((stream, size) ∷ sizes) free =
    spot_for stream size (fit size free) (λ rest. assign sizes rest)

-- `placed[key] = (region.bank << 16) | cursor[index]`, for each in turn
pub placed_of : List Spot → Dict ℕ → Dict ℕ
placed_of [] placed = placed
placed_of (spot ∷ spots) placed = placed_of spots (put placed spot.stream (join spot.bank spot.at))

pub assign_all : List (ℕ × ℕ) → List Region → Result Error (List Spot)
assign_all sizes [] = err no_free_regions
assign_all sizes (region ∷ regions) = assign sizes (cursors (region ∷ regions))

unfoldable pub allocate : List (ℕ × ℕ) → List Region → Result Error (Dict ℕ)
unfolding assign_all
allocate sizes regions = do
  spots ← assign_all sizes (sorted by_start (merge regions))
  ok (placed_of spots empty)
