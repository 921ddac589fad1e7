-- ===== src/Gate.antt =====
-- gate.py: what is wrong with a region's table of streams. A table's entry is a source and a length,
-- and `wanted` the items of the dict of observed requests. The decoder is the caller's: `none` is
-- one of the exceptions that gate.py catches. A cartridge that is not there is `none` too.
pub mod Entries
pub mod Covered
pub mod Check
pub mod Scan
mod Tests
use street_fighter_alpha_2_n.Base.{
  ℕ, zero, suc, ◌+◌, ◌-◌, max, Bool, true, false, ◌&&◌, ◌||◌, Option, none, some, List, [], ◌∷◌,
  ◌++◌, map, length, sorted, leb, ltb, ◌==◌, if◌then◌else◌, low16, high, Result, ok, err, ◌>>=◌,
  Dict, put, empty,
}
use street_fighter_alpha_2_n.Tables.{Key}
use street_fighter_alpha_2_n.Tables

abbrev pub scan_budget : ℕ
scan_budget = 64

abbrev pub window_base : ℕ
window_base = 0xC0

-- a source or an address, and a length
abbrev pub Entry : Type 0
Entry = ℕ × ℕ

abbrev pub Decode : Type 0
Decode = List ℕ → ℕ → ℕ → Option (List ℕ)

pub data Why : Type 0 where
  raised : Why
  produced : ℕ → Why

unfoldable pub among : ℕ → List ℕ → Bool
among n [] = false
among n (x ∷ xs) = n == x || among n xs

unfoldable pub duplicates_from : List ℕ → List Entry → List ℕ
unfolding among
duplicates_from seen [] = []
duplicates_from seen ((source, n) ∷ entries) =
    let later = duplicates_from (source ∷ seen) entries in
    if among source seen then source ∷ later else later

unfoldable pub duplicates : List Entry → List ℕ
unfolding duplicates_from
duplicates entries = duplicates_from [] entries

pub broken_one : Entry → Option (List ℕ) → List (Entry × Why)
broken_one entry none = (entry, raised) ∷ []
broken_one entry (some data') =
    if length data' == entry.1 then [] else (entry, produced (length data')) ∷ []

pub undecodable : Decode → List ℕ → List Entry → List (Entry × Why)
unfolding broken_one
undecodable decode rom [] = []
undecodable decode rom (entry ∷ entries) =
    broken_one entry (decode rom entry.0 entry.1) ++ undecodable decode rom entries

-- `dict(entries)`: of two entries with one source the later stays.
pub dict_of : List Entry → Dict ℕ → Dict ℕ
dict_of [] have = have
dict_of ((source, n) ∷ entries) have = dict_of entries (put have source n)

-- whether `stored is None or stored < length`
pub falls_short : Option ℕ → ℕ → Bool
falls_short none n = true
falls_short (some stored) n = ltb stored n

pub missing_from : List Entry → Dict ℕ → List (Entry × Option ℕ)
unfolding falls_short
missing_from [] have = []
missing_from ((address, n) ∷ wanted) have =
    let later = missing_from wanted have in
    if falls_short (have address) n then ((address, n), have address) ∷ later else later

-- the order of pairs
abbrev pub by_pair : Entry → Entry → Bool
by_pair a b = ltb a.0 b.0 || (a.0 == b.0 && leb a.1 b.1)

pub uncovered : List Entry → List Entry → List (Entry × Option ℕ)
unfolding missing_from dict_of
uncovered entries wanted = missing_from (sorted by_pair wanted) (dict_of entries empty)

unfoldable pub key_of : Entry → Key
key_of (source, n) = (window_base + high source, low16 source)

-- `max((slot - address) & 0xFFFF for …)`: the address is below 0x10000, and `allocate` returns a slot
-- for each key.
unfoldable pub worst_of : List Key → List ℕ → ℕ
worst_of [] slots = 0
worst_of (key ∷ keys) [] = 0
worst_of (key ∷ keys) (slot ∷ slots) = max (low16 (slot + 0x10000 - key.1)) (worst_of keys slots)

unfoldable pub worst_scan : List Entry → Result Tables.Error ℕ
unfolding key_of worst_of
worst_scan [] = ok 0
worst_scan (entry ∷ entries) = do
  slots ← Tables.allocate (map key_of (entry ∷ entries))
  ok (worst_of (map key_of (entry ∷ entries)) slots)

-- each with how many there are, and the first
pub data Finding : Type 0 where
  repeated_sources : ℕ → ℕ → Finding
  do_not_decode : ℕ → Entry × Why → Finding
  not_covered : ℕ → Entry × Option ℕ → Finding
  slow_scan : ℕ → Finding

pub of_repeated : List ℕ → List Finding
of_repeated [] = []
of_repeated (source ∷ sources) = repeated_sources (length (source ∷ sources)) source ∷ []

pub of_broken : List (Entry × Why) → List Finding
of_broken [] = []
of_broken (first ∷ broken) = do_not_decode (length (first ∷ broken)) first ∷ []

pub of_missing : List (Entry × Option ℕ) → List Finding
of_missing [] = []
of_missing (first ∷ missing) = not_covered (length (first ∷ missing)) first ∷ []

pub of_retail : Decode → Option (List ℕ) → List Entry → List Finding
unfolding undecodable of_broken
of_retail decode none entries = []
of_retail decode (some rom) entries = of_broken (undecodable decode rom entries)

pub of_scan : List ℕ → List Entry → Result Tables.Error (List Finding)
unfolding worst_scan
of_scan [] entries = do
  worst ← worst_scan entries
  ok (if ltb scan_budget worst then slow_scan worst ∷ [] else [])
of_scan (source ∷ sources) entries = ok []

unfoldable pub check :
    Decode → List Entry → List Entry → Option (List ℕ) → Result Tables.Error (List Finding)
unfolding duplicates of_repeated of_retail uncovered of_missing of_scan
check decode entries wanted retail = do
  scan ← of_scan (duplicates entries) entries
  ok (
      of_repeated (duplicates entries)
      ++ (of_retail decode retail entries ++ (of_missing (uncovered entries wanted) ++ scan)))
