-- ===== src/MapCheck.antt =====
-- mapcheck.py: the check of a table against one cartridge. An entry is a source and a length. The
-- decoder is the caller's: `none` is one of the exceptions that mapcheck.py catches.
mod Verdict
mod Tests
use street_fighter_alpha_2_n.Base.{
  ℕ, zero, suc, ◌+◌, ◌-◌, ◌/◌, max, Bool, true, false, not, ◌||◌, Option, none, some, List, [], ◌∷◌,
  map, length, get_or, sorted, leb, ltb, ◌==◌, if◌then◌else◌, low16, high, Result, ok, err, ◌>>=◌,
  ◌>>◌, refuse,
}
use street_fighter_alpha_2_n.Tables.{Key}
use street_fighter_alpha_2_n.Tables
use street_fighter_alpha_2_n.Gate.{Entry, Decode, among, by_pair}

abbrev pub scan_budget : ℕ
scan_budget = 64

abbrev pub window_base : ℕ
window_base = 0xC0

-- the `ValueError` of a length that is not positive, by its source
pub data LoadError : Type 0 where
  no_length : ℕ → LoadError

unfoldable pub check_lengths : List Entry → Result LoadError (Unit {0})
check_lengths [] = ok tt
check_lengths ((source, n) ∷ entries) = do refuse (n == 0) (no_length source); check_lengths entries

unfoldable pub load : List Entry → Result LoadError (List Entry)
unfolding check_lengths
load table = do check_lengths (sorted by_pair table); ok (sorted by_pair table)

unfoldable pub duplicates_from : List ℕ → List Entry → List ℕ
duplicates_from seen [] = []
duplicates_from seen ((source, n) ∷ entries) =
    let later = duplicates_from (source ∷ seen) entries in
    if among source seen then source ∷ later else later

unfoldable pub duplicate_sources : List Entry → List ℕ
duplicate_sources entries = duplicates_from [] entries

abbrev pub window_key : ℕ → Key
window_key source = (window_base + high source, low16 source)

pub is_raised : Option (List ℕ) → Bool
is_raised none = true
is_raised (some data') = false

unfoldable pub undecodable : Decode → List ℕ → List Entry → List ℕ
unfolding is_raised
undecodable decode rom [] = []
undecodable decode rom ((source, n) ∷ entries) =
    let later = undecodable decode rom entries in
    if is_raised (decode rom source n) then source ∷ later else later

-- `[(slot - addr) & 0xFFFF for …]`: the address is below 0x10000
unfoldable pub distances : List Key → List ℕ → List ℕ
distances [] slots = []
distances (key ∷ keys) [] = []
distances (key ∷ keys) (slot ∷ slots) = low16 (slot + 0x10000 - key.1) ∷ distances keys slots

-- `int(statistics.median(…))`: of two middle values the mean, rounded down
unfoldable pub median : List ℕ → ℕ
median xs =
    (get_or (sorted leb xs) ((length xs - 1) / 2) 0 + get_or (sorted leb xs) (length xs / 2) 0) / 2

unfoldable pub largest : List ℕ → ℕ
largest [] = 0
largest (x ∷ xs) = max x (largest xs)

unfoldable pub scan_cost : List Entry → Result Tables.Error (ℕ × ℕ)
scan_cost [] = ok (0, 0)
scan_cost (entry ∷ entries) = do
  slots ← Tables.allocate (map (λ e. window_key e.0) (entry ∷ entries))
  ok (
    median (distances (map (λ e. window_key e.0) (entry ∷ entries)) slots),
    largest (distances (map (λ e. window_key e.0) (entry ∷ entries)) slots),
  )

-- what `report` says, and its result: 1 if it failed
pub record Report : Type 0 where
  pub streams : ℕ
  pub duplicates : ℕ
  pub broken : ℕ
  pub middle : ℕ
  pub worst : ℕ
  pub failed : Bool

abbrev pub is_some : List ℕ → Bool
is_some [] = false
is_some (x ∷ xs) = true

-- The scan is not measured when a source repeats.
unfoldable pub measured : List ℕ → List Entry → Result Tables.Error (ℕ × ℕ)
measured [] entries = scan_cost entries
measured (source ∷ repeated) entries = ok (0, 0)

abbrev pub report_of : List Entry → List ℕ → List ℕ → ℕ × ℕ → Report
report_of entries repeated broken cost = record {
  streams = length entries;
  duplicates = length repeated;
  broken = length broken;
  middle = cost.0;
  worst = cost.1;
  failed = is_some repeated || is_some broken || ltb scan_budget cost.1;
}

unfoldable pub report : Decode → List ℕ → List Entry → Result Tables.Error Report
report decode rom entries = do
  cost ← measured (duplicate_sources entries) entries
  ok (report_of entries (duplicate_sources entries) (undecodable decode rom entries) cost)
