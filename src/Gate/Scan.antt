-- ===== src/Gate/Scan.antt =====
-- `worst_scan` returns the longest scan of the placement, and fails only where `allocate` does.
use street_fighter_alpha_2_n.Base.{
  ℕ, zero, suc, ◌+◌, ◌-◌, ◌%◌, max, low16, get_elem?, some, subst, ◌≤◌, ◌<◌, ◌≡◌, ◌⊎◌, inl, inr,
  refl, List, [], ◌∷◌, map, length, Bool-cases, ok, err, arith,
}
use street_fighter_alpha_2_n.Tables.{Key, key_at, slots, allocate}
use street_fighter_alpha_2_n.Tables
use street_fighter_alpha_2_n.Tables.Greedy.{InBank}
use street_fighter_alpha_2_n.Tables.Repair.{allocate_lem, allocate-nil, is_nil}
use street_fighter_alpha_2_n.Gate.{Entry, key_of, worst_of, worst_scan}

InBank-key_of : (entries : List Entry) → InBank (map key_of entries)
unfolding key_of
InBank-key_of [] index h = absurd (omega (arith, h))
InBank-key_of (e ∷ entries) zero h = omega arith
InBank-key_of (e ∷ entries) (suc index) h = InBank-key_of entries index (omega (arith, h))

length-keys : (entries : List Entry) → length (map key_of entries) ≡ length entries
length-keys [] = refl
length-keys (e ∷ entries) = omega (arith, length-keys entries)

-- From a source's address on, so many slots are passed by until the slot stands.
abbrev pub IsScan : ℕ → ℕ → ℕ → Type 0
IsScan source slot d = (d < 0x10000) × ((source + d) % 0x10000 ≡ slot % 0x10000)

-- No entry has a longer scan to its slot, and an entry has one as long.
pub record IsWorst (entries : List Entry) (placed : List ℕ) (worst : ℕ) : Type 0 where
  pub sized : length placed ≡ length entries
  pub longest :
      (i : ℕ) (e : Entry) (slot : ℕ)
      → get_elem? entries i ≡ some e
      → get_elem? placed i ≡ some slot
      → (d : ℕ) × IsScan e.0 slot d × (d ≤ worst)
  pub reached :
      ((entries ≡ []) × (worst ≡ 0))
      ⊎ ((i : ℕ) × (e : Entry) × (slot : ℕ) × (get_elem? entries i ≡ some e)
          × (get_elem? placed i ≡ some slot)
          × IsScan e.0 slot worst)

-- the scan of an entry, as `worst_of` has it
abbrev scan_of : Entry → ℕ → ℕ
scan_of e slot = low16 (slot + 0x10000 - low16 e.0)

scan_of-IsScan : (e : Entry) (slot : ℕ) → IsScan e.0 slot (scan_of e slot)
scan_of-IsScan e slot = (omega arith, omega arith)

longest_step :
    (e : Entry) (entries : List Entry) (at : ℕ) (placed : List ℕ) (worst : ℕ)
    → IsWorst entries placed worst
    → (i : ℕ) (f : Entry) (slot : ℕ) → get_elem? (e ∷ entries) i ≡ some f
    → get_elem? (at ∷ placed) i ≡ some slot
    → (d : ℕ) × IsScan f.0 slot d × (d ≤ max (scan_of e at) worst)
longest_step e entries at placed worst later zero f slot h k =
    let same_entry : e ≡ f = cc h in
    let same_slot : at ≡ slot = cc k in
    (
      scan_of e at,
      subst (λ (g : Entry). IsScan g.0 slot (scan_of e at)) same_entry
          (subst (λ x. IsScan e.0 x (scan_of e at)) same_slot (scan_of-IsScan e at)),
      ground arith,
    )
longest_step e entries at placed worst later (suc i) f slot h k =
    let (d, scans, less) = later.longest i f slot h k in (d, scans, ground (arith, less))

max_cases : (a b : ℕ) → (max a b ≡ a) ⊎ ((max a b ≡ b) × (a < b))
max_cases a b = ground arith

-- an entry whose scan is as long as `worst`
abbrev Reaches : List Entry → List ℕ → ℕ → Type 0
Reaches entries placed worst =
    (i : ℕ) × (e : Entry) × (slot : ℕ) × (get_elem? entries i ≡ some e)
    × (get_elem? placed i ≡ some slot)
    × IsScan e.0 slot worst

reached_step :
    (e : Entry) (entries : List Entry) (at : ℕ) (placed : List ℕ) (worst : ℕ)
    → IsWorst entries placed worst
    → Reaches (e ∷ entries) (at ∷ placed) (max (scan_of e at) worst)
reached_step e entries at placed worst later = elim (max_cases (scan_of e at) worst) [
  | inl here ↦ (0, e, at, refl, refl, rw here (scan_of-IsScan e at))
  | inr (there, more) ↦ elim (later.reached) [
    | inl (none_left, nothing) ↦ absurd (omega (arith, nothing, more))
    | inr (i, f, slot, h, k, scans) ↦ (suc i, f, slot, h, k, rw there scans)
  ]
]

worst_of-IsWorst :
    (entries : List Entry) (placed : List ℕ)
    → length placed ≡ length entries
    → IsWorst entries placed (worst_of (map key_of entries) placed)
unfolding worst_of key_of
worst_of-IsWorst [] placed sized = record {
  sized = sized;
  longest = λ i e slot h k. absurd (cc h);
  reached = inl (refl, refl);
}
worst_of-IsWorst (e ∷ entries) [] sized = absurd (omega (arith, sized))
worst_of-IsWorst (e ∷ entries) (slot ∷ placed) sized =
    let later = worst_of-IsWorst entries placed (omega (arith, sized)) in
    record {
      sized = sized;
      longest = longest_step e entries slot placed _ later;
      reached = inr (reached_step e entries slot placed _ later);
    }

-- For at most 65,536 entries: `allocate` places their keys and `worst_scan` returns the longest of
-- the scans from an entry's address to its slot, 0 if there is no entry; or `allocate` finds no
-- placement, and `worst_scan` raises what it raises.
pub worst_scan_lem :
    (entries : List Entry)
    → length entries ≤ slots
    → ((placed : List ℕ) × (worst : ℕ) × (Tables.allocate (map key_of entries) ≡ ok placed)
        × (worst_scan entries ≡ ok worst)
        × IsWorst entries placed worst)
      ⊎ ((Tables.allocate (map key_of entries) ≡ err Tables.unplaceable)
          × (worst_scan entries ≡ err Tables.unplaceable))
unfolding worst_scan
worst_scan_lem [] few = inl ([], 0, allocate-nil, refl, worst_of-IsWorst [] [] refl)
worst_scan_lem (e ∷ entries) few =
    let (s, placed, sized, returned) =
      allocate_lem (map key_of (e ∷ entries)) (omega (arith, few, length-keys (e ∷ entries)))
        (InBank-key_of (e ∷ entries)) in
    elim (Bool-cases (is_nil (Tables.broken_from (map key_of (e ∷ entries)) 0 s.0 s.1))) [
      | inl none_broken ↦ inl (
        s.0,
        worst_of (map key_of (e ∷ entries)) s.0,
        rw none_broken at returned,
        rw (returned, none_broken) refl,
        worst_of-IsWorst (e ∷ entries) s.0 (omega (arith, sized, length-keys (e ∷ entries))),
      )
      | inr some_broken ↦ inr (rw some_broken at returned, rw (returned, some_broken) refl)
    ]
