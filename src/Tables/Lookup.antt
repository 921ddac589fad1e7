-- ===== src/Tables/Lookup.antt =====
-- The game's search in the byte tables finds every stream.
use street_fighter_alpha_2_n.Base.{
  ℕ, zero, suc, ◌+◌, ◌*◌, ◌/◌, ◌%◌, ◌<◌, ◌≡◌, ◌≢◌, inl, inr, refl, ap, ◌∙◌, subst, true, false,
  Option, none, some, List, set, length, get_or, get_or-set, length-set, ltb, ◌==◌, holds,
  if◌then◌else◌, Bool-cases, high, ok, Dict, put, arith,
}
use street_fighter_alpha_2_n.Tables.{Key, slots, next_slot, scan_from}
use street_fighter_alpha_2_n.Tables.Build.{ByteTables, enter}

-- The search: from the address on, the first slot that holds the bank. A blank slot holds 0.
abbrev pub seek_from : ℕ → List ℕ → ℕ → ℕ → Option ℕ
seek_from zero key bank slot = none
seek_from (suc rounds) key bank slot = elim (get_or key slot 0 == bank) [
  | true ↦ some slot
  | false ↦ seek_from rounds key bank (next_slot slot)
]

-- what stands at a slot
abbrev pub destination_at : ByteTables → ℕ → ℕ
destination_at t slot =
    get_or t.dest_bank slot 0 * 0x10000
    + (get_or t.dest_high slot 0 * 0x100 + get_or t.dest_low slot 0)

unfoldable pub find_slot : ℕ → ByteTables → Key → Option ℕ
find_slot rounds t key = seek_from rounds t.key key.0 key.1

abbrev pub byte_of : Option ℕ → ℕ
byte_of none = 0
byte_of (some bank) = bank

-- The byte tables hold what the dict of taken slots holds.
pub record Agrees (t : ByteTables) (table : Dict ℕ) : Type 0 where
  pub keys_agree : (slot : ℕ) → get_or t.key slot 0 ≡ byte_of (table slot)
  pub key_length : length t.key ≡ slots
  pub low_length : length t.dest_low ≡ slots
  pub high_length : length t.dest_high ≡ slots
  pub bank_length : length t.dest_bank ≡ slots

-- the comparison of a byte with a bank that is not 0
byte-holds : (o : Option ℕ) (bank : ℕ) → bank ≢ 0 → (byte_of o == bank) ≡ holds o bank
byte-holds none bank nonzero = ground arith
byte-holds (some b) bank nonzero = refl

pub seek_from_lem :
    (rounds : ℕ) (key : List ℕ) (table : Dict ℕ) (bank slot : ℕ)
    → ((s : ℕ) → get_or key s 0 ≡ byte_of (table s))
    → bank ≢ 0
    → seek_from rounds key bank slot ≡ scan_from rounds table bank slot
unfolding scan_from
seek_from_lem zero key table bank slot agree nonzero = refl
seek_from_lem (suc rounds) key table bank slot agree nonzero =
    let same : (get_or key slot 0 == bank) ≡ holds (table slot) bank =
      ap (λ b. b == bank) (agree slot) ∙ byte-holds (table slot) bank nonzero in
    elim (Bool-cases (holds (table slot) bank)) [
      | inl e ↦ rw (seek_from, same, e) refl
      | inr e ↦
          rw (seek_from, same, e)
            (seek_from_lem rounds key table bank (next_slot slot) agree nonzero)
    ]

pub scan_from-lt :
    (rounds : ℕ) (table : Dict ℕ) (bank slot found : ℕ)
    → slot < slots
    → scan_from rounds table bank slot ≡ some found
    → found < slots
unfolding scan_from
scan_from-lt zero table bank slot found below h = absurd (cc h)
scan_from-lt (suc rounds) table bank slot found below h =
    elim (Bool-cases (holds (table slot) bank)) [
      | inl e ↦
          let here : some slot ≡ some found = rw (e, scan_from) at h in
          let same : slot ≡ found = cc here in omega (arith, same, below)
      | inr e ↦
          scan_from-lt rounds table bank (next_slot slot) found (omega arith)
            (rw (e, scan_from) at h)
    ]

entered_of : ℕ → ℕ → ℕ → ByteTables → ByteTables
entered_of bank slot destination t = record t {
  key = set t.key slot bank;
  dest_low = set t.dest_low slot (destination % 0x100);
  dest_high = set t.dest_high slot (destination / 0x100 % 0x100);
  dest_bank = set t.dest_bank slot (high destination);
}

enter_ok :
    (bank slot destination : ℕ) (t entered : ByteTables)
    → enter bank slot destination t ≡ ok entered
    → entered_of bank slot destination t ≡ entered
unfolding enter entered_of
enter_ok bank slot destination t entered h = elim (Bool-cases (high destination == 0)) [
  | inl e ↦ absurd (cc (rw e at h))
  | inr e ↦ elim (Bool-cases (ltb 0xFF bank)) [
    | inl f ↦ absurd (cc (rw (e, f) at h))
    | inr f ↦ elim (Bool-cases (ltb 0xFF (high destination))) [
      | inl g ↦ absurd (cc (rw (e, f, g) at h))
      | inr g ↦ cc (rw (e, f, g) at h)
    ]
  ]
]

abbrev pub IsEntered : ℕ → ℕ → ℕ → ByteTables → Dict ℕ → ByteTables → Type 0
IsEntered bank slot destination t table entered =
    Agrees entered (put table slot bank)
    × (destination_at entered slot ≡ destination)
    × ((j : ℕ) → slot ≢ j → destination_at entered j ≡ destination_at t j)

entered_of-IsEntered :
    (bank slot destination : ℕ) (t : ByteTables) (table : Dict ℕ)
    → slot < slots
    → Agrees t table
    → IsEntered bank slot destination t table (entered_of bank slot destination t)
unfolding entered_of
entered_of-IsEntered bank slot destination t table below a = (
  record {
    keys_agree =
        λ j. ground (arith, get_or-set t.key slot j bank 0, a.keys_agree j, a.key_length, below);
    key_length = length-set t.key slot bank ∙ a.key_length;
    low_length = length-set t.dest_low slot (destination % 0x100) ∙ a.low_length;
    high_length = length-set t.dest_high slot (destination / 0x100 % 0x100) ∙ a.high_length;
    bank_length = length-set t.dest_bank slot (high destination) ∙ a.bank_length;
  },
  ground (arith, written slot, below),
  λ j ne. ground (arith, written j, ne),
)
  where
    written :
        (j : ℕ)
        → (get_or (set t.dest_low slot (destination % 0x100)) j 0
            ≡ (if slot == j then destination % 0x100 else get_or t.dest_low j 0))
          × (get_or (set t.dest_high slot (destination / 0x100 % 0x100)) j 0
              ≡ (if slot == j then destination / 0x100 % 0x100 else get_or t.dest_high j 0))
          × (get_or (set t.dest_bank slot (high destination)) j 0
              ≡ (if slot == j then high destination else get_or t.dest_bank j 0))
    written j = (
      get_or-set t.dest_low slot j (destination % 0x100) 0 (omega (arith, below, a.low_length)),
      get_or-set t.dest_high slot j (destination / 0x100 % 0x100) 0
          (omega (arith, below, a.high_length)),
      get_or-set t.dest_bank slot j (high destination) 0 (omega (arith, below, a.bank_length)),
    )

-- One entry: it stands at its slot, and all other slots are as before.
pub enter-IsEntered :
    (bank slot destination : ℕ) (t entered : ByteTables) (table : Dict ℕ)
    → slot < slots
    → Agrees t table
    → enter bank slot destination t ≡ ok entered
    → IsEntered bank slot destination t table entered
enter-IsEntered bank slot destination t entered table below a h =
    subst (IsEntered bank slot destination t table) (enter_ok bank slot destination t entered h)
      (entered_of-IsEntered bank slot destination t table below a)
