-- ===== src/Tables/Greedy.antt =====
-- The first pass of `allocate`: with at most 65,536 keys it places every one of them.
use street_fighter_alpha_2_n.Base.{
  ℕ, suc, ◌+◌, ◌-◌, low16, ◌<◌, ◌≤◌, ◌≡◌, ◌≢◌, inl, inr, refl, sym, ap, ◌∙◌, true, false, Option,
  none, some, List, [], ◌∷◌, length, set, length-replicate, replicate, range, In, In-range,
  range_bounds, In-sorted, sorted-Chain, All, Chain, range-Chain, All-at, All-In, Option-cases, ok,
  Dict, put, empty, pigeonhole, arith, subst, ltb, if◌then◌else◌,
}
use mathlib.Core.Bool.{true≢false}
use native.Mathlib.Decide.{ℕ_discrete, dec_lt}
use street_fighter_alpha_2_n.Tables.{
  Key, Placement, key_at, slot_at, slots, first_free, place_keys, by_address,
}
use street_fighter_alpha_2_n.Tables.Probe.{
  after, probe, probe_sound, probe-none, is_free, is_none, first_free_from-eq-probe,
}
use street_fighter_alpha_2_n.Tables.Placed.{IsPlaced, IsPlaced-put, IsPlaced-same, Reaches, bank_of}

-- every address fits in 16 bits, which `source_key` sees to
abbrev pub InBank : List Key → Type 0
InBank keys = (index : ℕ) → index < length keys → (key_at keys index).1 < slots

free-eq-none : (table : Dict ℕ) (slot : ℕ) → is_free table slot ≡ true → table slot ≡ none
free-eq-none table slot h = ground arith

abbrev index_or : Option ℕ → ℕ
index_or none = 0
index_or (some i) = i

-- While one key is still to be placed, some slot is free.
module _ {keys : List Key} {D : ℕ → Type 0} {placed : List ℕ} {table : Dict ℕ}
    (v : IsPlaced keys D placed table) (few : length keys ≤ slots)
    (bounded : (i : ℕ) → D i → i < length keys) (index : ℕ) (h : index < length keys)
    (new : ¬ D index) where
  owner_at :
      (slot : ℕ)
      → is_free table slot ≡ false
      → (i : ℕ) × (v.owner slot ≡ some i) × D i × (slot_at placed i ≡ slot)
  owner_at slot h = elim (Option-cases (v.owner slot)) [
    | inl e ↦ absurd (true≢false (sym (ap is_none (v.banks slot ∙ ap (bank_of keys) e)) ∙ h))
    | inr (i, e) ↦ (i, e, (v.slot_of slot i e).0, (v.slot_of slot i e).1)
  ]

  -- who holds each slot, and after them the key that waits
  holder : ℕ → ℕ
  holder slot = if ltb slot slots then index_or (v.owner slot) else index

  holder_owner : (slot i : ℕ) → slot < slots → v.owner slot ≡ some i → holder slot ≡ i
  unfolding holder
  holder_owner slot i hs e = rw e (ground arith)

  holder_last : (slot : ℕ) → slots ≤ slot → holder slot ≡ index
  unfolding holder
  holder_last slot hs = ground arith

  module _ (full : (slot : ℕ) → slot < slots → is_free table slot ≡ false) where
    holder_below : (slot : ℕ) → slot < suc slots → holder slot < length keys
    holder_below slot hs = elim (dec_lt slot slots) [
      | yes p ↦
          (let (i, e, d, q) = owner_at slot (full slot p) in
            rw (holder_owner slot i p e) (bounded i d))
      | no np ↦ rw (holder_last slot (omega arith)) h
    ]

    holder_distinct : (a b : ℕ) → a < suc slots → b < suc slots → holder a ≡ holder b → a ≡ b
    holder_distinct a b ha hb same = elim (dec_lt a slots) [
      | yes pa ↦
          (let (i, ei, di, qi) = owner_at a (full a pa) in
            elim (dec_lt b slots) [
              | yes pb ↦
                  (let (j, ej, dj, qj) = owner_at b (full b pb) in
                    cc (qi, qj, holder_owner a i pa ei, holder_owner b j pb ej, same))
              | no nb ↦ absurd (
                  new (subst D (cc (holder_owner a i pa ei, holder_last b (omega arith), same)) di))
            ])
      | no na ↦ elim (dec_lt b slots) [
        | yes pb ↦
            (let (j, ej, dj, qj) = owner_at b (full b pb) in
              absurd
                (new (subst D (cc (holder_owner b j pb ej, holder_last a (omega arith), same)) dj)))
        | no nb ↦ omega arith
      ]
    ]

    not-full : ⊥
    not-full =
        omega (arith, pigeonhole (suc slots) (length keys) holder holder_below holder_distinct)

  -- `_first_free` finds a free slot, over slots that are all taken.
  first_free_lem :
      (addr : ℕ)
      → addr < slots
      → (slot : ℕ) × (first_free table addr ≡ ok slot)
        × (table slot ≡ none)
        × Reaches table addr slot
  unfolding first_free
  first_free_lem addr ha = elim (Option-cases (probe slots (is_free table) addr)) [
    | inl e ↦ absurd (
        not-full (λ slot hs.
          rw (round slot hs) at (
            probe-none (is_free table) slots addr ha e (low16 (slot + slots - addr))
              (omega arith))))
    | inr (slot, e) ↦
        (let (d, hd, p, hits) = probe_sound (is_free table) slots addr ha e in
          (
            slot,
            rw (first_free_from-eq-probe, e),
            free-eq-none table slot (rw p hits.here),
            record { steps = d; within = hd; lands = p; taken = hits.before },
          ))
  ]
    where
      round : (slot : ℕ) → slot < slots → after addr (low16 (slot + slots - addr)) ≡ slot
      round slot hs = omega arith

-- the keys that are in range and not in the order's rest
abbrev Before : List Key → List ℕ → ℕ → Type 0
Before keys order i = (i < length keys) × ¬ In i order

module _ (keys : List Key) (few : length keys ≤ slots) (in_bank : InBank keys) where
  place_keys_lem :
      (order placed : List ℕ) (table : Dict ℕ)
      → All (λ i. i < length keys) order
      → Chain ◌≢◌ order
      → IsPlaced keys (Before keys order) placed table
      → (s : Placement) × (place_keys order keys placed table ≡ ok s)
        × IsPlaced keys (Before keys []) s.0 s.1
  unfolding place_keys
  place_keys_lem [] placed table low apart v = ((placed, table), refl, v)
  place_keys_lem (x ∷ rest) placed table low apart v =
      let (slot, e, free, near) =
        first_free_lem v few (λ i d. d.0) x low.0 (λ d. d.1 (inl refl)) (key_at keys x).1
          (in_bank x low.0) in
      let w =
        IsPlaced-put v x slot low.0 free (λ d. d.1 (inl refl)) (Before keys rest)
          (λ i d. elim (ℕ_discrete i x) [
            | yes p ↦ inl p
            | no np ↦ inr (d.0, elim [ inl p ↦ np p | inr j ↦ d.1 j ])
          ])
          (λ i. elim [
            | inl p ↦ (rw p low.0, λ j. All-at (λ b. x ≢ b) rest x apart.0 (rw p at j) refl)
            | inr d ↦ (d.0, λ j. d.1 (inr j))
          ])
          near in
      let (s, placing, u) =
        place_keys_lem rest (set placed x slot) (put table slot (key_at keys x).0) low.1 apart.1
          w in
      (s, rw e placing, u)

  In-by_address : (i : ℕ) → i < length keys → In i (by_address keys)
  unfolding by_address
  In-by_address i h =
      (In-sorted _ i (range 0 (length keys))).1
        (In-range 0 (length keys) i (omega arith) (omega arith))

  -- Before the first key nothing is placed.
  IsPlaced-empty : IsPlaced keys (Before keys (by_address keys)) (replicate (length keys) 0) empty
  IsPlaced-empty = record {
    owner = empty;
    banks = λ s. refl;
    slot_of = λ s i o. absurd (cc o);
    owned = λ i d. absurd (d.1 (In-by_address i d.0));
    sized = length-replicate (length keys) 0;
    reached = λ i d. absurd (d.1 (In-by_address i d.0));
  }

  -- The first pass never runs out of slots.
  pub greedy_total :
      (s : Placement) × (place_keys (by_address keys) keys (replicate (length keys) 0) empty ≡ ok s)
      × IsPlaced keys (λ i. i < length keys) s.0 s.1
  unfolding by_address
  greedy_total =
      let (s, e, v) =
        place_keys_lem (by_address keys) (replicate (length keys) 0) empty
          (All-In (λ i. i < length keys) (by_address keys)
            (λ a i. omega (
              arith,
              range_bounds 0 (length keys) a ((In-sorted _ a (range 0 (length keys))).0 i),
            )))
          (sorted-Chain _ ◌≢◌ (λ a b n p. n (sym p)) (range 0 (length keys))
            (range-Chain 0 (length keys)))
          IsPlaced-empty in
      (s, e, IsPlaced-same (λ i d. d.0) (λ i d. (d, λ j. j)) v)
