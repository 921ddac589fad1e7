-- ===== src/Sdd1Map.antt =====
-- sdd1map.py: the streams that a tagged cartridge names, in a table of where each stream is stored
-- and where it belongs in the graphics. `decompress` is the decoder package's: it returns a
-- stream's bytes and the offset past its end, or raises, which is `none` here.
mod Markers
pub mod Increasing
pub mod BuildMap
mod Audit
mod Rebuild
mod Tests
use street_fighter_alpha_2_n.Base.{
  ℕ, zero, suc, ◌+◌, ◌-◌, ◌*◌, Bool, true, false, not, ◌&&◌, ◌||◌, Option, none, some, List, [],
  ◌∷◌, ◌++◌, map, length, take, drop, replicate, find, slice, same, sorted, leb, ltb, ◌==◌,
  if◌then◌else◌, Result, ok, err, ◌>>=◌, ◌>>◌, refuse,
}

-- `b"SDD1"`
abbrev pub marker : List ℕ
marker = 0x53 ∷ 0x44 ∷ 0x44 ∷ 0x31 ∷ []

abbrev pub marker_size : ℕ
marker_size = 8

abbrev pub bank_size : ℕ
bank_size = 0x10000

pub record Entry : Type 0 where
  pub index : ℕ
  pub source : ℕ
  pub target : ℕ
  pub length : Option ℕ

-- what `decompress` returns
pub record Decoded : Type 0 where
  pub data' : List ℕ
  pub end : ℕ

-- The first four are `ValueError`; the last is what the decoder raises.
pub data Error : Type 0 where
  not_increasing below_last_target length_unknown : Error
  runs_past_end : ℕ → ℕ → Error
  undecodable : Error

-- int.from_bytes(data, "little")
unfoldable pub from_little : List ℕ → ℕ
from_little [] = 0
from_little (x ∷ xs) = x + 0x100 * from_little xs

-- a marker's offset, and the target that stands behind it
abbrev pub Marker : Type 0
Marker = ℕ × ℕ

pub marker_at : List ℕ → ℕ → Marker
marker_at tagged at = (at, from_little (slice tagged (at + 4) (marker_size - 4)))

-- the `while` loop
pub markers_from : ℕ → List ℕ → Option ℕ → List Marker
markers_from zero tagged at = []
markers_from (suc fuel) tagged none = []
markers_from (suc fuel) tagged (some at) =
    marker_at tagged at ∷ markers_from fuel tagged (find tagged marker (at + 1))

unfoldable pub find_markers : List ℕ → List Marker
unfolding markers_from
find_markers tagged = markers_from (length tagged) tagged (find tagged marker 0)

unfoldable pub targets_of : List Marker → List ℕ
targets_of [] = []
targets_of ((source, target) ∷ markers) = target ∷ targets_of markers

pub among : ℕ → List ℕ → Bool
among n [] = false
among n (x ∷ xs) = n == x || among n xs

-- the elements of `set(xs)`
pub unique : List ℕ → List ℕ
unfolding among
unique [] = []
unique (x ∷ xs) = let later = unique xs in if among x xs then later else x ∷ later

-- `targets[-1]`, where there is one
unfoldable pub last_of : List ℕ → Option ℕ
last_of [] = none
last_of (x ∷ []) = some x
last_of (x ∷ y ∷ xs) = last_of (y ∷ xs)

pub increasing : List ℕ → Bool
unfolding unique
increasing targets =
    not (not (same targets (sorted leb targets)) || not (length (unique targets) == length targets))

-- `gfx_size is not None and markers and gfx_size <= targets[-1]`
unfoldable pub is_below : Option ℕ → Option ℕ → Bool
is_below none last = false
is_below (some size) none = false
is_below (some size) (some last) = leb size last

unfoldable pub length_from : ℕ → List Marker → Option ℕ → Option ℕ
length_from target ((source, next) ∷ markers) gfx_size = some (next - target)
length_from target [] (some size) = some (size - target)
length_from target [] none = none

unfoldable pub entries_from : ℕ → List Marker → Option ℕ → List Entry
unfolding length_from
entries_from index [] gfx_size = []
entries_from index ((source, target) ∷ markers) gfx_size =
    record {
      index = index;
      source = source;
      target = target;
      length = length_from target markers gfx_size;
    }
    ∷ entries_from (suc index) markers gfx_size

unfoldable pub map_of : List Marker → Option ℕ → Result Error (List Entry)
unfolding targets_of increasing last_of is_below entries_from
map_of markers gfx_size = do
  refuse (not (increasing (targets_of markers))) not_increasing
  refuse (is_below gfx_size (last_of (targets_of markers))) below_last_target
  ok (entries_from 0 markers gfx_size)

unfoldable pub build_map : List ℕ → Option ℕ → Result Error (List Entry)
unfolding map_of
build_map tagged gfx_size = map_of (find_markers tagged) gfx_size

pub record Report : Type 0 where
  pub measured : ℕ
  pub packed : ℕ
  pub padded : ℕ
  pub overrun : ℕ
  pub skipped : ℕ

abbrev pub no_report : Report
no_report = record { measured = 0; packed = 0; padded = 0; overrun = 0; skipped = 0 }

-- `gap in PACKED_GAPS`, `gap > 0` and the rest, of the gap from a stream's end to the next source
pub count_gap : ℕ → ℕ → Report → Report
count_gap source end report =
    if end == source + 1 || end == source
    then record report { measured = report.measured + 1; packed = report.packed + 1 }
    else if ltb end source
    then record report { measured = report.measured + 1; padded = report.padded + 1 }
    else record report { measured = report.measured + 1; overrun = report.overrun + 1 }

-- `0 < following.source - entry.source < BANK_SIZE`
pub is_near : Entry → Entry → Bool
is_near entry following =
    ltb entry.source following.source && ltb following.source (entry.source + bank_size)

pub decoded : Option Decoded → Result Error Decoded
decoded none = err undecodable
decoded (some d) = ok d

module _ (decompress : List ℕ → ℕ → ℕ → Option Decoded) where
  -- one round of the loop, for an entry's known or unknown length
  pub audit_one : List ℕ → Entry → Entry → Option ℕ → Report → Result Error Report
  unfolding count_gap is_near decoded
  audit_one rom entry following none report = ok (record report { skipped = report.skipped + 1 })
  audit_one rom entry following (some n) report =
      if not (is_near entry following)
      then ok (record report { skipped = report.skipped + 1 })
      else (do
        d ← decoded (decompress rom entry.source n)
        ok (count_gap following.source d.end report))

  pub audit_pairs : List ℕ → Entry → List Entry → Report → Result Error Report
  unfolding audit_one
  audit_pairs rom entry [] report = ok report
  audit_pairs rom entry (following ∷ entries) report = do
    counted ← audit_one rom entry following entry.length report
    audit_pairs rom following entries counted

  unfoldable pub audit : List ℕ → List Entry → Result Error Report
  unfolding audit_pairs
  audit rom [] = ok no_report
  audit rom (entry ∷ entries) = audit_pairs rom entry entries no_report

-- an entry with its length
abbrev pub Known : Type 0
Known = Entry × ℕ

pub with_length : Entry → Option ℕ → Result Error (List Known) → Result Error (List Known)
with_length entry none later = err length_unknown
with_length entry (some n) later = do
  known ← later
  ok (if n == 0 then known else (entry, n) ∷ known)

-- the entries whose length is not 0, if all lengths are known
pub known_of : List Entry → Result Error (List Known)
unfolding with_length
known_of [] = ok []
known_of (entry ∷ entries) = with_length entry entry.length (known_of entries)

-- `known[-1][0].target + known[-1][1] if known else 0`
pub end_of : List Known → ℕ
end_of [] = 0
end_of ((entry, n) ∷ []) = entry.target + n
end_of ((entry, n) ∷ other ∷ known) = end_of (other ∷ known)

-- `blob[i : j] = data`, which changes the length if the data has another
unfoldable pub assign_slice : List ℕ → ℕ → ℕ → List ℕ → List ℕ
assign_slice blob i j data' = take i blob ++ (data' ++ drop j blob)

module _ (decompress : List ℕ → ℕ → ℕ → Option Decoded) where
  pub write_known : List ℕ → ℕ → List Known → List ℕ → Result Error (List ℕ)
  unfolding decoded
  write_known rom gfx_size [] blob = ok blob
  write_known rom gfx_size ((entry, n) ∷ known) blob = do
    refuse (ltb gfx_size (entry.target + n)) (runs_past_end entry.index gfx_size)
    d ← decoded (decompress rom entry.source n)
    write_known rom gfx_size known (assign_slice blob entry.target (entry.target + n) d.data')

  pub size_of : List Known → Option ℕ → ℕ
  unfolding end_of
  size_of known none = end_of known
  size_of known (some size) = size

  unfoldable pub rebuild : List ℕ → List Entry → Option ℕ → Result Error (List ℕ)
  unfolding known_of size_of write_known
  rebuild rom entries gfx_size = do
    known ← known_of entries
    write_known rom (size_of known gfx_size) known (replicate (size_of known gfx_size) 0)
