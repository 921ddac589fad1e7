-- ===== src/RomBuild/Entries.antt =====
-- load_entries of rombuild.py: the stream map, with a bank's length for the last stream.
use street_fighter_alpha_2_n.Base.{
  ℕ, suc, ◌+◌, ◌<◌, ◌≡◌, ◌⊎◌, inl, inr, refl, ◌∙◌, true, false, Option, none, some, List, [], ◌∷◌,
  map, Chain, Bool-cases, Result, ok, err, ◌>>=◌, arith,
}
use street_fighter_alpha_2_n.Sdd1Map.{
  Entry, Error, Marker, not_increasing, build_map, map_of, find_markers, targets_of, last_of,
  is_below, increasing, entries_from, length_from,
}
use street_fighter_alpha_2_n.Sdd1Map.Increasing.{increasing_iff}
use street_fighter_alpha_2_n.Sdd1Map.BuildMap.{
  Tiles, marker_of, All-below, Chain-append, build_map_lem,
}

-- `entries[-1]`, where there is one
pub last_entry : List Entry → Option Entry
last_entry [] = none
last_entry (e ∷ []) = some e
last_entry (e ∷ f ∷ entries) = last_entry (f ∷ entries)

-- the map again, if the last entry has no length
pub reload : ℕ → List ℕ → List Entry → ℕ → Option ℕ → Result Error (List Entry)
reload bank_size tagged entries target (some n) = ok entries
reload bank_size tagged entries target none = build_map tagged (some (target + bank_size))

pub reload_last : ℕ → List ℕ → List Entry → Option Entry → Result Error (List Entry)
unfolding reload
reload_last bank_size tagged entries none = ok entries
reload_last bank_size tagged entries (some last) =
    reload bank_size tagged entries last.target last.length

unfoldable pub load_entries : ℕ → List ℕ → Result Error (List Entry)
unfolding reload_last last_entry
load_entries bank_size tagged = do
  entries ← build_map tagged none
  reload_last bank_size tagged entries (last_entry entries)

-- The last entry of a map without a graphics size is the last marker's, and has no length.
last_entry_lem :
    (index : ℕ) (m : Marker) (ms : List Marker)
    → (e : Entry) × (last_entry (entries_from index (m ∷ ms) none) ≡ some e)
      × (e.length ≡ none)
      × (last_of (targets_of (m ∷ ms)) ≡ some e.target)
unfolding last_entry entries_from length_from last_of targets_of
last_entry_lem index (s, t) [] =
    (record { index = index; source = s; target = t; length = none }, refl, refl, refl)
last_entry_lem index (s, t) (m ∷ ms) = last_entry_lem (suc index) m ms

build_map-ok :
    (tagged : List ℕ)
    → increasing (targets_of (find_markers tagged)) ≡ true
    → build_map tagged none ≡ ok (entries_from 0 (find_markers tagged) none)
unfolding build_map map_of is_below
build_map-ok tagged e = rw e refl

build_map-err :
    (tagged : List ℕ)
    → increasing (targets_of (find_markers tagged)) ≡ false
    → build_map tagged none ≡ err not_increasing
unfolding build_map map_of
build_map-err tagged e = rw e refl

load_entries-ok :
    (bank_size : ℕ) (tagged : List ℕ) (entries : List Entry)
    → build_map tagged none ≡ ok entries
    → load_entries bank_size tagged ≡ reload_last bank_size tagged entries (last_entry entries)
unfolding load_entries
load_entries-ok bank_size tagged entries e = rw e refl

load_entries-err :
    (bank_size : ℕ) (tagged : List ℕ)
    → build_map tagged none ≡ err not_increasing
    → load_entries bank_size tagged ≡ err not_increasing
unfolding load_entries
load_entries-err bank_size tagged e = rw e refl

reload_last-ok :
    (bank_size : ℕ) (tagged : List ℕ) (entries found : List Entry) (last : Entry)
    → last_entry entries ≡ some last
    → last.length ≡ none
    → build_map tagged (some (last.target + bank_size)) ≡ ok found
    → reload_last bank_size tagged entries (last_entry entries) ≡ ok found
unfolding reload_last reload
reload_last-ok bank_size tagged entries found last at_end unknown again =
    rw (at_end, unknown, again) refl

-- the entries of a map that has a strict order of targets
abbrev Loaded : ℕ → List ℕ → List Marker → Type 0
Loaded bank_size tagged ms =
    (entries : List Entry) × (size : ℕ) × (reload_last bank_size tagged (entries_from 0 ms none)
        (last_entry (entries_from 0 ms none))
      ≡ ok entries)
    × Tiles entries size
    × (map marker_of entries ≡ ms)

reload_last-Loaded :
    (bank_size : ℕ) (tagged : List ℕ) (ms : List Marker)
    → 0 < bank_size
    → find_markers tagged ≡ ms
    → Chain ◌<◌ (targets_of ms)
    → Loaded bank_size tagged ms
unfolding reload_last last_entry entries_from
reload_last-Loaded bank_size tagged [] positive q c = ([], 0, refl, tt, refl)
reload_last-Loaded bank_size tagged (m ∷ ms) positive q c =
    let (last, at_end, unknown, last_target) = last_entry_lem 0 m ms in
    let chain = Chain-append (targets_of (m ∷ ms)) (last.target + bank_size) c (
      All-below (targets_of (m ∷ ms)) (last.target + bank_size) last.target last_target
        (omega (arith, positive)) c) in
    elim (build_map_lem tagged (last.target + bank_size)) [
      | inl (ordered, (entries, again, tiles, places)) ↦ (
        entries,
        last.target + bank_size,
        reload_last-ok bank_size tagged (entries_from 0 (m ∷ ms) none) entries last at_end unknown
            again,
        tiles,
        places ∙ q,
      )
      | inr (disordered, raised) ↦ absurd (disordered (rw q chain))
    ]

-- If the targets of the markers increase strictly, `load_entries` returns one entry for each marker,
-- with its source and target, all of known length: they tile the graphics up to some size.
-- Otherwise it raises that they do not increase. The size of a bank is above 0.
pub load_entries_lem :
    (bank_size : ℕ) (tagged : List ℕ)
    → 0 < bank_size
    → (Chain ◌<◌ (targets_of (find_markers tagged))
        × ((entries : List Entry) × (size : ℕ) × (load_entries bank_size tagged ≡ ok entries)
            × Tiles entries size
            × (map marker_of entries ≡ find_markers tagged)))
      ⊎ (¬ (Chain ◌<◌ (targets_of (find_markers tagged)))
          × (load_entries bank_size tagged ≡ err not_increasing))
load_entries_lem bank_size tagged positive =
    elim (Bool-cases (increasing (targets_of (find_markers tagged)))) [
      | inr e ↦ inr (
        λ c. absurd (ground (arith, e, (increasing_iff (targets_of (find_markers tagged))).1 c)),
        load_entries-err bank_size tagged (build_map-err tagged e),
      )
      | inl e ↦
          let c = (increasing_iff (targets_of (find_markers tagged))).0 e in
          let (entries, size, found, tiles, places) =
            reload_last-Loaded bank_size tagged (find_markers tagged) positive refl c in
          inl (
            c,
            (
              entries,
              size,
              load_entries-ok bank_size tagged (entries_from 0 (find_markers tagged) none)
                    (build_map-ok tagged e)
                  ∙ found,
              tiles,
              places,
            ),
          )
    ]
