-- ===== src/Sdd1Map/BuildMap.antt =====
-- `build_map` returns entries that tile the graphics, exactly if the markers allow it.
use street_fighter_alpha_2_n.Base.{
  ℕ, suc, ◌+◌, ◌-◌, ◌<◌, ◌≡◌, ◌⊎◌, inl, inr, refl, ap, true, false, Option, none, some, List, [],
  ◌∷◌, ◌++◌, map, All, Chain, leb, Bool-cases, Option-cases, ok, err, arith,
}
use street_fighter_alpha_2_n.Sdd1Map.{
  Entry, Marker, find_markers, targets_of, last_of, increasing, is_below, length_from, entries_from,
  map_of, build_map, below_last_target, not_increasing,
}
use street_fighter_alpha_2_n.Sdd1Map.Increasing.{increasing_iff}

-- where the entries begin, and where they end if there are none
abbrev pub start_of : List Entry → ℕ → ℕ
start_of [] size = size
start_of (e ∷ entries) size = e.target

-- Each entry has a known length above 0 and ends where the next begins, the last at `size`.
abbrev pub Tiles : List Entry → ℕ → Type 0
Tiles [] size = Unit
Tiles (e ∷ entries) size =
    ((n : ℕ) × (e.length ≡ some n) × (0 < n) × (e.target + n ≡ start_of entries size))
    × Tiles entries size

abbrev pub marker_of : Entry → Marker
marker_of e = (e.source, e.target)

All-append : (P : ℕ → Type 0) (xs : List ℕ) (size : ℕ) → All P xs → P size → All P (xs ++ size ∷ [])
All-append P [] size a h = (h, tt)
All-append P (x ∷ xs) size a h = (a.0, All-append P xs size a.1 h)

All-front : (P : ℕ → Type 0) (xs : List ℕ) (size : ℕ) → All P (xs ++ size ∷ []) → All P xs
All-front P [] size a = tt
All-front P (x ∷ xs) size a = (a.0, All-front P xs size a.1)

pub All-below :
    (xs : List ℕ) (size l : ℕ)
    → last_of xs ≡ some l
    → l < size
    → Chain ◌<◌ xs
    → All (λ x. x < size) xs
unfolding last_of
All-below [] size l e h c = tt
All-below (x ∷ []) size l e h c = (ground arith, tt)
All-below (x ∷ y ∷ xs) size l e h c =
    let later = All-below (y ∷ xs) size l e h c.1 in (omega (arith, c.0.0, later.0), later)

pub Chain-append :
    (xs : List ℕ) (size : ℕ) → Chain ◌<◌ xs → All (λ x. x < size) xs → Chain ◌<◌ (xs ++ size ∷ [])
Chain-append [] size c a = (tt, tt)
Chain-append (x ∷ xs) size c a =
    (All-append (λ y. x < y) xs size c.0 a.0, Chain-append xs size c.1 a.1)

below_all :
    (xs : List ℕ) (size l : ℕ) → last_of xs ≡ some l → Chain ◌<◌ (xs ++ size ∷ []) → l < size
unfolding last_of
below_all [] size l e c = absurd (cc)
below_all (x ∷ []) size l e c = ground (arith, c.0.0)
below_all (x ∷ y ∷ xs) size l e c = below_all (y ∷ xs) size l e c.1

Chain-front : (xs : List ℕ) (size : ℕ) → Chain ◌<◌ (xs ++ size ∷ []) → Chain ◌<◌ xs
Chain-front [] size c = tt
Chain-front (x ∷ xs) size c = (All-front (λ y. x < y) xs size c.0, Chain-front xs size c.1)

last_of-none : (xs : List ℕ) → last_of xs ≡ none → xs ≡ []
unfolding last_of
last_of-none [] h = refl
last_of-none (x ∷ []) h = cc
last_of-none (x ∷ y ∷ xs) h = absurd (cc (last_of-none (y ∷ xs) h))

Tiles-entries_from :
    (index : ℕ) (markers : List Marker) (size : ℕ)
    → Chain ◌<◌ (targets_of markers ++ size ∷ [])
    → Tiles (entries_from index markers (some size)) size
unfolding entries_from targets_of length_from
Tiles-entries_from index [] size c = tt
Tiles-entries_from index ((s, t) ∷ []) size c =
    ((size - t, refl, omega (arith, c.0.0), omega (arith, c.0.0)), tt)
Tiles-entries_from index ((s, t) ∷ (s', t') ∷ markers) size c = (
  (t' - t, refl, omega (arith, c.0.0), omega (arith, c.0.0)),
  Tiles-entries_from (suc index) ((s', t') ∷ markers) size c.1,
)

marker_of-entries_from :
    (index : ℕ) (markers : List Marker) (size : Option ℕ)
    → map marker_of (entries_from index markers size) ≡ markers
unfolding entries_from
marker_of-entries_from index [] size = refl
marker_of-entries_from index ((s, t) ∷ markers) size =
    ap (λ l. (s, t) ∷ l) (marker_of-entries_from (suc index) markers size)

-- With a graphics size: if the targets and then the size increase strictly, `build_map` returns one
-- entry for each marker, with its source and target, that tile the graphics up to the size;
-- otherwise it raises one of its two errors.
pub build_map_lem :
    (tagged : List ℕ) (size : ℕ)
    → (Chain ◌<◌ (targets_of (find_markers tagged) ++ size ∷ [])
        × ((entries : List Entry) × (build_map tagged (some size) ≡ ok entries)
            × Tiles entries size
            × (map marker_of entries ≡ find_markers tagged)))
      ⊎ (¬ (Chain ◌<◌ (targets_of (find_markers tagged) ++ size ∷ []))
          × ((build_map tagged (some size) ≡ err not_increasing)
              ⊎ (build_map tagged (some size) ≡ err below_last_target)))
unfolding build_map map_of is_below
build_map_lem tagged size = of_markers (find_markers tagged)
  where
    of_chain :
        (ms : List Marker)
        → increasing (targets_of ms) ≡ true
        → is_below (some size) (last_of (targets_of ms)) ≡ false
        → Chain ◌<◌ (targets_of ms ++ size ∷ [])
        → Chain ◌<◌ (targets_of ms ++ size ∷ [])
          × ((entries : List Entry) × (map_of ms (some size) ≡ ok entries)
              × Tiles entries size
              × (map marker_of entries ≡ ms))
    of_chain ms e f c = (
      c,
      (
        entries_from 0 ms (some size),
        rw (e, f) refl,
        Tiles-entries_from 0 ms size c,
        marker_of-entries_from 0 ms (some size),
      ),
    )

    of_markers :
        (ms : List Marker)
        → (Chain ◌<◌ (targets_of ms ++ size ∷ [])
            × ((entries : List Entry) × (map_of ms (some size) ≡ ok entries)
                × Tiles entries size
                × (map marker_of entries ≡ ms)))
          ⊎ (¬ (Chain ◌<◌ (targets_of ms ++ size ∷ []))
              × ((map_of ms (some size) ≡ err not_increasing)
                  ⊎ (map_of ms (some size) ≡ err below_last_target)))
    of_markers ms = elim (Bool-cases (increasing (targets_of ms))) [
      | inr e ↦ inr (
        λ c. absurd (
            ground
              (arith, e, (increasing_iff (targets_of ms)).1 (Chain-front (targets_of ms) size c))),
        inl (rw e refl),
      )
      | inl e ↦ elim (Option-cases (last_of (targets_of ms))) [
        | inl none_last ↦ inl (
            of_chain ms e (rw none_last refl)
              (rw (last_of-none (targets_of ms) none_last) (tt, tt)))
        | inr (l, last) ↦ elim (Bool-cases (leb size l)) [
          | inl low ↦ inr (
            λ c. absurd (ground (arith, low, below_all (targets_of ms) size l last c)),
            inr (rw (e, last, low) refl),
          )
          | inr fits ↦ inl (
              of_chain ms e (rw last fits) (
                Chain-append (targets_of ms) size ((increasing_iff (targets_of ms)).0 e) (
                  All-below (targets_of ms) size l last (ground arith)
                    ((increasing_iff (targets_of ms)).0 e))))
        ]
      ]
    ]
