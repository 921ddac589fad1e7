-- ===== src/Tables.antt =====
-- sdd1tables.py: the key table that the cartridge scans to find a decompressed stream. Each key, a
-- source bank and the low 16 bits of a source address, gets a slot, and the scan for the key must
-- stop at that slot. A `dict` is a function, a tuple a pair, and what is raised a value of `Error`.
mod Probe
mod Placed
pub mod Greedy
pub mod Repair
mod Verified
mod Duplicates
pub mod Build
pub mod Lookup
mod Entered
pub mod Found
pub mod Tests
use street_fighter_alpha_2_n.Base.{
  ℕ, zero, suc, ◌+◌, ◌%◌, ◌≡◌, Bool, not, Option, none, some, List, [], ◌∷◌, length, get_or, set,
  replicate, range, sorted, leb, ltb, ◌==◌, holds, if◌then◌else◌, low16, high, Result, ok, err,
  ◌>>=◌, ◌>>◌, refuse, Dict, empty, put, del,
}

abbrev pub slots : ℕ
slots = 0x10000

abbrev pub window_base : ℕ
window_base = 0xC0

abbrev pub max_repairs : ℕ
max_repairs = 64

-- The four first are `PlacementError`, the next `ValueError`, then a failed `assert`, a `KeyError`.
pub data Error : Type 0 where
  key_table_full unplaceable : Error
  too_many_streams slot_used_twice : ℕ → Error
  scans_elsewhere : ℕ → Option ℕ → Error
  lengths_differ never_scanned missing_slot : Error

-- a bank and an address in it
abbrev pub Key : Type 0
Key = ℕ × ℕ

pub source_key : ℕ → Key
source_key offset = (window_base + high offset, low16 offset)

abbrev pub next_slot : ℕ → ℕ
next_slot slot = low16 (slot + 1)

pub first_free_from : ℕ → Dict ℕ → ℕ → Result Error ℕ
first_free_from zero taken slot = err key_table_full
first_free_from (suc rounds) taken slot =
    let later = first_free_from rounds taken (next_slot slot) in
    elim (taken slot) [ none ↦ ok slot | some bank ↦ later ]

pub first_free : Dict ℕ → ℕ → Result Error ℕ
first_free taken start = first_free_from slots taken start

pub scan_from : ℕ → Dict ℕ → ℕ → ℕ → Option ℕ
scan_from zero table bank slot = none
scan_from (suc rounds) table bank slot =
    let later = scan_from rounds table bank (next_slot slot) in
    if holds (table slot) bank then some slot else later

pub scan : Dict ℕ → ℕ → ℕ → Option ℕ
scan table bank addr = scan_from slots table bank addr

-- `keys[index]` and `placed[index]`; every index the code uses is in range.
abbrev pub key_at : List Key → ℕ → Key
key_at keys index = get_or keys index (0, 0)

abbrev pub slot_at : List ℕ → ℕ → ℕ
slot_at placed index = get_or placed index 0

-- the list of slots and the table, which the loops update together
abbrev pub Placement : Type 0
Placement = List ℕ × Dict ℕ

pub place_keys : List ℕ → List Key → List ℕ → Dict ℕ → Result Error Placement
place_keys [] keys placed table = ok (placed, table)
place_keys (index ∷ order) keys placed table = do
  slot ← first_free table (key_at keys index).1
  place_keys order keys (set placed index slot) (put table slot (key_at keys index).0)

-- `[index for index, (bank, addr) in enumerate(keys) if _scan(…) != placed[index]]`, from `index` on
pub broken_from : List Key → ℕ → List ℕ → Dict ℕ → List ℕ
broken_from [] index placed table = []
broken_from ((bank, addr) ∷ keys) index placed table =
    let later = broken_from keys (suc index) placed table in
    if holds (scan table bank addr) (slot_at placed index) then later else index ∷ later

-- the `assert`
pub scanned : Option ℕ → Result Error ℕ
scanned none = err never_scanned
scanned (some slot) = ok slot

-- `del table[slot]`
pub remove : Dict ℕ → ℕ → Result Error (Dict ℕ)
remove table slot = elim (table slot) [ none ↦ err missing_slot | some bank ↦ ok (del table slot) ]

pub repair_one : ℕ → List Key → List ℕ → Dict ℕ → Result Error Placement
repair_one index keys placed table = do
  found ← scanned (scan table (key_at keys index).0 (key_at keys index).1)
  freed ← remove table (slot_at placed index)
  slot ← first_free freed (next_slot found)
  ok (set placed index slot, put freed slot (key_at keys index).0)

pub repair_keys : List ℕ → List Key → List ℕ → Dict ℕ → Result Error Placement
repair_keys [] keys placed table = ok (placed, table)
repair_keys (index ∷ broken) keys placed table = do
  s ← repair_one index keys placed table
  repair_keys broken keys s.0 s.1

pub repair_rounds : ℕ → List Key → List ℕ → Dict ℕ → Result Error (List ℕ)
repair_rounds zero keys placed table = err unplaceable
repair_rounds (suc rounds) keys placed table = elim (broken_from keys 0 placed table) [
  | [] ↦ ok placed
  | index ∷ broken ↦ (do
    s ← repair_keys (index ∷ broken) keys placed table
    repair_rounds rounds keys s.0 s.1)
]

-- `sorted(range(len(keys)), key=lambda i: keys[i][1])`
pub by_address : List Key → List ℕ
by_address keys = sorted (λ i j. leb (key_at keys i).1 (key_at keys j).1) (range 0 (length keys))

pub allocate : List Key → Result Error (List ℕ)
allocate keys = do
  refuse (ltb slots (length keys)) (too_many_streams (length keys))
  s ← place_keys (by_address keys) keys (replicate (length keys) 0) empty
  repair_rounds max_repairs keys s.0 s.1

-- the first loop of `verify`; `zip(…, strict=True)` raises where one list ends first
pub fill : List Key → List ℕ → Dict ℕ → Result Error (Dict ℕ)
fill [] [] table = ok table
fill [] (slot ∷ placed) table = err lengths_differ
fill (key ∷ keys) [] table = err lengths_differ
fill ((bank, addr) ∷ keys) (slot ∷ placed) table = elim (table slot) [
  | some other ↦ err (slot_used_twice slot)
  | none ↦ fill keys placed (put table slot bank)
]

pub check_from : List Key → ℕ → List ℕ → Dict ℕ → Result Error (Unit {0})
check_from [] index placed table = ok tt
check_from ((bank, addr) ∷ keys) index placed table = do
  refuse (not (holds (scan table bank addr) (slot_at placed index)))
      (scans_elsewhere index (scan table bank addr))
  check_from keys (suc index) placed table

pub verify : List Key → List ℕ → Result Error (Unit {0})
verify keys placed = do table ← fill keys placed empty; check_from keys 0 placed table
