-- ===== src/RomBuild/Front.antt =====
-- What `build` places before the streams fits in the image: the cartridge, and the tables, which no
-- stream meets.
use street_fighter_alpha_2_n.Base.{
  ℕ, ◌+◌, ◌-◌, ◌*◌, ◌/◌, ◌≤◌, ◌<◌, ◌≡◌, ◌⊎◌, inl, inr, refl, ap, List, [], ◌∷◌, ◌++◌, In, length,
  length-take, drop, slice, range, range_bounds, Bool-cases, All, Chain, high, arith,
}
use street_fighter_alpha_2_n.Tables.{slots}
use street_fighter_alpha_2_n.Tables.Build.{ByteTables}
use street_fighter_alpha_2_n.RomBuild.{Spot}
use street_fighter_alpha_2_n.RomBuild.Image.{
  Mapper, Placement, lorom_placements, lorom_banks, original_size, window_placements,
  table_placements, extra_placements,
}
use street_fighter_alpha_2_n.RomBuild.Written.{linear, IsMapped, among}
use street_fighter_alpha_2_n.RomBuild.Sequence.{start_of, Fits, Off, All-append}
use street_fighter_alpha_2_n.RomBuild.Mapped.{IsOffered}
use street_fighter_alpha_2_n.RomBuild.Streams.{IsSpotted, IsExtra}

length-slice : (d : List ℕ) (i n : ℕ) → length (slice d i n) ≤ n
unfolding slice
length-slice d i n = omega (arith, length-take n (drop i d))

-- the upper half of a bank
half-Fits :
    (bank : ℕ) (data' : List ℕ)
    → length data' ≤ 0x8000
    → (bank < 0x40) ⊎ ((0x80 ≤ bank) × (bank < 0xC0))
    → Fits (record { bank = bank; addr = 0x8000; data' = data' })
half-Fits bank data' sized where_to = record {
  in_bank = omega arith;
  mapped = λ j h. inr (inr (banks_of j h where_to, omega (arith, h, sized)));
}
  where
    banks_of :
        (j : ℕ)
        → j < length data'
        → (bank < 0x40) ⊎ ((0x80 ≤ bank) × (bank < 0xC0))
        → (high (linear bank 0x8000 + j) < 0x40)
          ⊎ ((0x80 ≤ high (linear bank 0x8000 + j)) × (high (linear bank 0x8000 + j) < 0xC0))
    banks_of j h (inl low) = inl (omega (arith, h, sized, low))
    banks_of j h (inr (low, up)) = inr (omega (arith, h, sized, low), omega (arith, h, sized, up))

-- a whole bank
bank-Fits :
    (bank : ℕ) (data' : List ℕ)
    → length data' ≤ 0x10000
    → ((0x40 ≤ bank) × (bank < 0x7E)) ⊎ ((0xC0 ≤ bank) × (bank < 0x100))
    → Fits (record { bank = bank; addr = 0; data' = data' })
bank-Fits bank data' sized where_to = record {
  in_bank = omega arith;
  mapped = λ j h. there j h where_to;
}
  where
    there :
        (j : ℕ)
        → j < length data'
        → ((0x40 ≤ bank) × (bank < 0x7E)) ⊎ ((0xC0 ≤ bank) × (bank < 0x100))
        → IsMapped (linear bank 0 + j)
    there j h (inl (low, up)) = inl (omega (arith, h, sized, low), omega (arith, h, sized, up))
    there j h (inr (low, up)) =
        inr (inl (omega (arith, h, sized, low), omega (arith, h, sized, up)))

module _ (m : Mapper) (half_is : m.half ≡ 0x8000) (bank_is : m.bank_size ≡ 0x10000)
    (rom : List ℕ) where
  lorom-Fits :
      (banks : List ℕ) → ((b : ℕ) → In b banks → b < 0x40) → All Fits (lorom_placements m rom banks)
  unfolding lorom_placements
  lorom-Fits [] below = tt
  lorom-Fits (b ∷ banks) below = (
    up b (inl (below b (inl refl))),
    (
      up (0x80 + b) (inr (omega arith, omega (arith, below b (inl refl)))),
      lorom-Fits banks (λ c i. below c (inr i)),
    ),
  )
    where
      up :
          (bank : ℕ)
          → (bank < 0x40) ⊎ ((0x80 ≤ bank) × (bank < 0xC0))
          → Fits (record { bank = bank; addr = m.half; data' = slice rom (b * m.half) m.half })
      up bank low = rw half_is (
          half-Fits bank (slice rom (b * 0x8000) 0x8000) (length-slice rom (b * 0x8000) 0x8000) low)

  window-Fits :
      (ns : List ℕ) → ((n : ℕ) → In n ns → n < 0x40) → All Fits (window_placements m rom ns)
  unfolding window_placements
  window-Fits [] below = tt
  window-Fits (n ∷ ns) below = (
    bank-Fits (0xC0 + n) (slice rom (n * m.bank_size) m.bank_size)
        (omega (arith, length-slice rom (n * m.bank_size) m.bank_size, bank_is))
        (inr (omega arith, omega (arith, below n (inl refl)))),
    window-Fits ns (λ c i. below c (inr i)),
  )

  -- the cartridge in the LoROM banks, their mirror and the window
  pub cartridge-Fits : All Fits (
      lorom_placements m rom (range 0 lorom_banks)
      ++ window_placements m rom (range 0 (original_size / m.bank_size)))
  cartridge-Fits =
      All-append Fits (lorom_placements m rom (range 0 lorom_banks))
        (window_placements m rom (range 0 (original_size / m.bank_size)))
        (lorom-Fits (range 0 lorom_banks) (λ b i. (range_bounds 0 0x40 b i).1))
        (window-Fits (range 0 (original_size / m.bank_size)) (λ n i.
          let (low, up) = range_bounds 0 (original_size / m.bank_size) n i in below {n = n} up))
    where
      count : original_size / m.bank_size ≡ 0x40
      count = ap (λ size. original_size / size) bank_is

      below : {n : ℕ} → n < 0 + original_size / m.bank_size → n < 0x40
      below h = omega (arith, h, count)

-- four tables with a byte for each slot
abbrev pub AreTables : ByteTables → Type 0
AreTables t =
    (length t.key ≡ slots)
    × (length t.dest_low ≡ slots)
    × (length t.dest_high ≡ slots)
    × (length t.dest_bank ≡ slots)

pub tables-Fits : (t : ByteTables) → AreTables t → All Fits (table_placements t)
unfolding table_placements
tables-Fits t (a, b, c, d) = (
  bank-Fits 0x60 t.key (omega (arith, a)) (inl (omega arith, omega arith)),
  (
    bank-Fits 0x61 t.dest_low (omega (arith, b)) (inl (omega arith, omega arith)),
    (
      bank-Fits 0x62 t.dest_high (omega (arith, c)) (inl (omega arith, omega arith)),
      (bank-Fits 0x63 t.dest_bank (omega (arith, d)) (inl (omega arith, omega arith)), tt),
    ),
  ),
)

-- what goes below or above the banks of the tables
abbrev pub IsAside : Placement → Type 0
IsAside q = (j : ℕ) → j < length q.data' → (start_of q + j < 0x600000) ⊎ (0x640000 ≤ start_of q + j)

aside-Off :
    (bank : ℕ) (data' : List ℕ) (q : Placement)
    → length data' ≤ 0x10000
    → 0x60 ≤ bank
    → bank < 0x64
    → IsAside q
    → Off (record { bank = bank; addr = 0; data' = data' }) q
aside-Off bank data' q sized low up aside j h =
    elim (Bool-cases (among (start_of q) (length q.data') (linear bank 0 + j))) [
      | inr away ↦ away
      | inl on ↦
          let within : linear bank 0 + j - start_of q < length q.data' = ground (arith, on) in
          let place_of : start_of q + (linear bank 0 + j - start_of q) ≡ linear bank 0 + j =
            ground (arith, on) in
          elim (aside (linear bank 0 + j - start_of q) within) [
            | inl below ↦ absurd (omega (arith, below, place_of, low))
            | inr above ↦ absurd (omega (arith, above, place_of, up, h, sized))
          ]
    ]

pub tables-Off :
    (t : ByteTables) (qs : List Placement)
    → AreTables t
    → All IsAside qs
    → All (λ p. All (Off p) qs) (table_placements t)
unfolding table_placements
tables-Off t qs (a, b, c, d) aside = (
  off 0x60 t.key (omega (arith, a)) (omega arith) (omega arith) qs aside,
  (
    off 0x61 t.dest_low (omega (arith, b)) (omega arith) (omega arith) qs aside,
    (
      off 0x62 t.dest_high (omega (arith, c)) (omega arith) (omega arith) qs aside,
      (off 0x63 t.dest_bank (omega (arith, d)) (omega arith) (omega arith) qs aside, tt),
    ),
  ),
)
  where
    off :
        (bank : ℕ) (data' : List ℕ)
        → length data' ≤ 0x10000
        → 0x60 ≤ bank
        → bank < 0x64
        → (qs : List Placement) → All IsAside qs
        → All (Off (record { bank = bank; addr = 0; data' = data' })) qs
    off bank data' sized low up [] aside = tt
    off bank data' sized low up (q ∷ qs) (here, aside) =
        (aside-Off bank data' q sized low up here, off bank data' sized low up qs aside)

-- Each table is in a bank of its own.
pub tables-Chain : (t : ByteTables) → AreTables t → Chain Off (table_placements t)
unfolding table_placements
tables-Chain t (a, b, c, d) = (
  (
    (λ j h. ground (arith, h, a, b)),
    ((λ j h. ground (arith, h, a, c)), ((λ j h. ground (arith, h, a, d)), tt)),
  ),
  (
    ((λ j h. ground (arith, h, b, c)), ((λ j h. ground (arith, h, b, d)), tt)),
    (((λ j h. ground (arith, h, c, d)), tt), (tt, tt)),
  ),
)

pub spotted-IsAside :
    (extra : List (ℕ × List ℕ)) (s : Spot) (p : Placement) → IsSpotted extra s p → IsAside p
spotted-IsAside extra s p at j h = of_offer (at.offered j below)
  where
    below : j < s.size
    below = omega (arith, h, at.sized)

    of_offer :
        IsOffered extra s.bank (s.at + j)
        → (start_of p + j < 0x600000) ⊎ (0x640000 ≤ start_of p + j)
    of_offer (within, inl (from, to, inl low, away)) =
        inl (omega (arith, at.starts j below, within, low))
    of_offer (within, inl (from, to, inr up, away)) =
        inr (omega (arith, at.starts j below, within, up))
    of_offer (within, inr (from, to)) = inr (omega (arith, at.starts j below, within, from))

pub extras-IsAside : (xs : List (ℕ × List ℕ)) → All IsExtra xs → All IsAside (extra_placements xs)
unfolding extra_placements
extras-IsAside [] all = tt
extras-IsAside (x ∷ xs) ((ends, low, inl under, mapped), all) =
    ((λ j h. inl (omega (arith, h, ends, under))), extras-IsAside xs all)
extras-IsAside (x ∷ xs) ((ends, low, inr over, mapped), all) =
    ((λ j h. inr (omega (arith, h, ends, over))), extras-IsAside xs all)
