-- ===== src/Tables/Placed.antt =====
-- The invariant of `allocate`: the table and the list of slots agree on the keys placed so far.
use street_fighter_alpha_2_n.Base.{
  ℕ, ◌<◌, ◌≡◌, ◌≢◌, ◌⊎◌, inl, inr, refl, sym, ap, ◌∙◌, false, Option, none, some, List, length, set,
  get_or-set, length-set, ◌==◌, Dict, put, put_self, put_ne, Bool-cases, arith,
}
use native.Mathlib.Decide.{ℕ_discrete}
use street_fighter_alpha_2_n.Tables.{Key, key_at, slot_at, slots}
use street_fighter_alpha_2_n.Tables.Probe.{after, is_free}

-- the bank of the key that owns a slot
abbrev pub bank_of : List Key → Option ℕ → Option ℕ
bank_of keys none = none
bank_of keys (some index) = some (key_at keys index).0

-- A slot is reached from an address over slots that are all taken.
pub record Reaches (table : Dict ℕ) (addr slot : ℕ) : Type 0 where
  pub steps : ℕ
  pub within : steps < slots
  pub lands : slot ≡ after addr steps
  pub taken : (e : ℕ) → e < steps → is_free table (after addr e) ≡ false

-- `D` holds of the keys that have been placed. Each slot has at most one owner.
pub record IsPlaced (keys : List Key) (D : ℕ → Type 0) (placed : List ℕ) (table : Dict ℕ)
    : Type 0 where
  pub owner : Dict ℕ
  pub banks : (slot : ℕ) → table slot ≡ bank_of keys (owner slot)
  pub slot_of : (slot index : ℕ) → owner slot ≡ some index → D index × (slot_at placed index ≡ slot)
  pub owned : (index : ℕ) → D index → owner (slot_at placed index) ≡ some index
  pub sized : length placed ≡ length keys
  pub reached : (index : ℕ) → D index → Reaches table (key_at keys index).1 (slot_at placed index)

pub unowned : (keys : List Key) (o : Option ℕ) → none ≡ bank_of keys o → o ≡ none
unowned keys none h = refl
unowned keys (some index) h = cc

kept_taken :
    (table : Dict ℕ) (s bank slot : ℕ)
    → is_free table slot ≡ false
    → is_free (put table s bank) slot ≡ false
kept_taken table s bank slot h = elim (Bool-cases (s == slot)) [
  | inl e ↦ rw (e, is_free) refl
  | inr e ↦ rw (e, is_free) h
]

pub Reaches-put :
    {table : Dict ℕ} {addr slot : ℕ} (s bank : ℕ)
    → Reaches table addr slot
    → Reaches (put table s bank) addr slot
Reaches-put {table} {addr} s bank r = record {
  steps = r.steps;
  within = r.within;
  lands = r.lands;
  taken = λ e he. kept_taken table s bank (after addr e) (r.taken e he);
}

module _ {keys : List Key} {D : ℕ → Type 0} {placed : List ℕ} {table : Dict ℕ}
    (v : IsPlaced keys D placed table) (index slot : ℕ) (h : index < length keys)
    (free : table slot ≡ none) (new : ¬ D index) where
  pub slot_at_new : slot_at (set placed index slot) index ≡ slot
  slot_at_new = ground (arith, get_or-set placed index index slot 0, v.sized)

  pub slot_at_old : (i : ℕ) → D i → slot_at (set placed index slot) i ≡ slot_at placed i
  slot_at_old i d = elim (ℕ_discrete index i) [
    | yes e ↦ absurd (new (rw e d))
    | no ne ↦ ground (arith, get_or-set placed index i slot 0, v.sized)
  ]

  other_slot : (i : ℕ) → D i → slot ≢ slot_at placed i
  other_slot i d e =
      cc (unowned keys (v.owner slot) (sym free ∙ v.banks slot), v.owned i d, ap v.owner e)

  new_owner : (s i : ℕ) → slot ≡ s → put v.owner slot index s ≡ some i → i ≡ index
  new_owner s i e o = cc (put_self v.owner slot index, o, ap (put v.owner slot index) e)

  module _ (E : ℕ → Type 0) (into : (i : ℕ) → E i → (i ≡ index) ⊎ D i)
      (out : (i : ℕ) → (i ≡ index) ⊎ D i → E i)
      (near : Reaches table (key_at keys index).1 slot) where
    -- A new key in a free slot that is reached from its address.
    pub IsPlaced-put :
        IsPlaced keys E (set placed index slot) (put table slot (key_at keys index).0)
    IsPlaced-put = record {
      owner = put v.owner slot index;
      banks = λ s. ground (arith, v.banks s);
      slot_of = λ s i o. elim (ℕ_discrete slot s) [
        | yes e ↦ (let p = new_owner s i e o in (out i (inl p), rw (p, slot_at_new) e))
        | no ne ↦
            (let (d, p) = v.slot_of s i (rw (put_ne v.owner slot s index ne) at o) in
              (out i (inr d), slot_at_old i d ∙ p))
      ];
      owned = λ i e. elim (into i e) [
        | inl p ↦ rw (p, slot_at_new) (put_self v.owner slot index)
        | inr d ↦
            rw (slot_at_old i d)
              (put_ne v.owner slot (slot_at placed i) index (other_slot i d) ∙ v.owned i d)
      ];
      sized = ground (arith, length-set placed index slot, v.sized);
      reached = λ i e. elim (into i e) [
        | inl p ↦ rw (p, slot_at_new) (Reaches-put slot (key_at keys index).0 near)
        | inr d ↦ rw (slot_at_old i d) (Reaches-put slot (key_at keys index).0 (v.reached i d))
      ];
    }

-- The same set of placed keys, otherwise described.
pub IsPlaced-same :
    {keys : List Key} {D E : ℕ → Type 0} {placed : List ℕ} {table : Dict ℕ}
    → ((i : ℕ) → D i → E i)
    → ((i : ℕ) → E i → D i)
    → IsPlaced keys D placed table
    → IsPlaced keys E placed table
IsPlaced-same to from v = record {
  owner = v.owner;
  banks = v.banks;
  slot_of = λ s i o. let (d, p) = v.slot_of s i o in (to i d, p);
  owned = λ i e. v.owned i (from i e);
  sized = v.sized;
  reached = λ i e. v.reached i (from i e);
}
