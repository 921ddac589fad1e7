-- ===== src/RomBuild/Rounds.antt =====
-- The rounds of `place`: the loop ends, and the image reads the data.
use street_fighter_alpha_2_n.Base.{
  ℕ, zero, suc, ◌+◌, ◌%◌, ◌≤◌, ◌<◌, ◌≡◌, inl, inr, refl, ◌∙◌, sym, subst, some, List, [], ◌∷◌,
  length, take, drop, length-take, length-drop, splice, ltb, Bool-cases, low16, high, arith,
}
use mathlib.Core.Path.{ap₂}
use street_fighter_alpha_2_n.RomBuild.Image.{
  Mapper, chunk_of, bank_after, addr_after, place_from, place,
}
use street_fighter_alpha_2_n.RomBuild.Written.{
  linear, file_at, IsMapped, IsWindowed, IsWritten, chunk-IsWritten, later-IsWritten,
}

module _ (m : Mapper) (banks size : ℕ) (windowed : IsWindowed m banks size) where
  -- a chunk is not empty, and ends in its half of the bank
  chunk_of_lem :
      (addr n : ℕ)
      → addr < 0x10000
      → 0 < n
      → (0 < chunk_of m addr n)
        × (chunk_of m addr n ≤ n)
        × (addr % 0x8000 + chunk_of m addr n ≤ 0x8000)
        × (addr + chunk_of m addr n ≤ 0x10000)
  chunk_of_lem addr n below some_left =
      rw (windowed.half_is, windowed.bank_is)
        (elim (Bool-cases (ltb addr 0x8000)) [
          | inl low ↦
              rw low
                (ground (arith, low), ground (arith, low), ground (arith, low), ground (arith, low))
          | inr up ↦
              rw up (ground (arith, up), ground (arith, up), ground (arith, up), ground (arith, up))
        ])

  after_lem :
      (bank addr : ℕ)
      → addr ≤ 0x10000
      → (linear (bank_after m bank addr) (addr_after m addr) ≡ linear bank addr)
        × (addr_after m addr < 0x10000)
  after_lem bank addr most = rw windowed.bank_is (ground (arith, most), ground (arith, most))

  -- what is to be shown of the loop
  Placed : ℕ → List ℕ → ℕ → ℕ → List ℕ → Type 0
  Placed fuel image bank addr data' =
      (out : List ℕ) × (place_from fuel m image bank addr data' banks ≡ some out)
      × IsWritten m banks image (linear bank addr) data' out

  place_round :
      (fuel : ℕ) (image : List ℕ) (bank addr b : ℕ) (data' : List ℕ) (c at : ℕ)
      → chunk_of m addr (length (b ∷ data')) ≡ c
      → m.address_to_file bank addr banks ≡ at
      → place_from (suc fuel) m image bank addr (b ∷ data') banks
        ≡ place_from fuel m
            (splice image at (take c (b ∷ data')))
            (bank_after m bank (addr + c))
            (addr_after m (addr + c))
            (drop c (b ∷ data'))
            banks
  unfolding place_from
  place_round fuel image bank addr b data' c at e there =
      ap₂
        (λ c at.
          place_from fuel m (splice image at (take c (b ∷ data'))) (bank_after m bank (addr + c))
            (addr_after m (addr + c)) (drop c (b ∷ data')) banks)
        e there

  round-Placed :
      (fuel : ℕ) (image : List ℕ) (bank addr b : ℕ) (data' : List ℕ) (c : ℕ)
      → length image ≡ size
      → addr < 0x10000
      → ((j : ℕ) → j < length (b ∷ data') → IsMapped (linear bank addr + j))
      → chunk_of m addr (length (b ∷ data')) ≡ c
      → 0 < c
      → c ≤ length (b ∷ data')
      → addr % 0x8000 + c ≤ 0x8000
      → addr + c ≤ 0x10000
      → ((written : List ℕ)
          → length written ≡ size
          → ((j : ℕ) → j < length (drop c (b ∷ data')) → IsMapped (linear bank addr + c + j))
          → Placed fuel written
              (bank_after m bank (addr + c))
              (addr_after m (addr + c))
              (drop c (b ∷ data')))
      → Placed (suc fuel) image bank addr (b ∷ data')
  unfolding place_from Placed
  round-Placed fuel image bank addr b data' c sized below mapped e more most in_half in_bank next =
      let size_c : length (take c (b ∷ data')) ≡ c =
        omega (arith, length-take c (b ∷ data'), most) in
      let in_bank_high : high (linear bank addr) ≡ bank = omega (arith, below) in
      let in_bank_low : low16 (linear bank addr) ≡ addr = omega (arith, below) in
      let first =
        chunk-IsWritten m banks size windowed image (linear bank addr) (take c (b ∷ data')) sized
          (omega (arith, size_c, more)) (λ j h. mapped j (omega (arith, h, size_c, most)))
          (omega (arith, size_c, in_half)) in
      let written = splice image (file_at m banks (linear bank addr)) (take c (b ∷ data')) in
      let at : file_at m banks (linear bank addr) ≡ m.address_to_file bank addr banks =
        ap₂ (λ b a. m.address_to_file b a banks) in_bank_high in_bank_low in
      let (out, ends, rest) = next written (first.keeps_length ∙ sized) (λ j h.
        let there : linear bank addr + (c + j) ≡ linear bank addr + c + j = omega arith in
        subst IsMapped there
          (mapped (c + j) (omega (arith, h, length-drop c (b ∷ data'), most)))) in
      let after : linear (bank_after m bank (addr + c)) (addr_after m (addr + c))
          ≡ linear bank addr + c =
        (after_lem bank (addr + c) in_bank).0 ∙ omega arith in
      (
        out,
        place_round fuel image bank addr b data' c (file_at m banks (linear bank addr)) e (sym at)
            ∙ ends,
        later-IsWritten m banks size windowed image written out (linear bank addr) c (b ∷ data')
            most first
            (subst (λ start. IsWritten m banks written start (drop c (b ∷ data')) out) after rest),
      )

  -- Addresses in 16 bits, and as many rounds as the data has bytes: the loop ends.
  place_from-Placed :
      (fuel : ℕ) (image : List ℕ) (bank addr : ℕ) (data' : List ℕ)
      → length image ≡ size
      → addr < 0x10000
      → length data' ≤ fuel
      → ((j : ℕ) → j < length data' → IsMapped (linear bank addr + j))
      → Placed fuel image bank addr data'
  unfolding place_from Placed
  place_from-Placed fuel image bank addr [] sized below enough mapped =
      (image, refl, record { keeps_length = refl; reads_data = λ x mx. ground arith })
  place_from-Placed zero image bank addr (b ∷ data') sized below enough mapped =
      absurd (omega (arith, enough))
  place_from-Placed (suc fuel) image bank addr (b ∷ data') sized below enough mapped =
      let c = chunk_of m addr (length (b ∷ data')) in
      let (more, most, in_half, in_bank) =
        chunk_of_lem addr (length (b ∷ data')) below (omega arith) in
      let (linear_after, after_below) = after_lem bank (addr + c) in_bank in
      round-Placed fuel image bank addr b data' c sized below mapped refl more most in_half in_bank
        (λ written kept still.
          place_from-Placed fuel written (bank_after m bank (addr + c)) (addr_after m (addr + c))
            (drop c (b ∷ data')) kept after_below
            (omega (arith, length-drop c (b ∷ data'), enough, more))
            (λ j h.
              let there : linear bank addr + c + j
                  ≡ linear (bank_after m bank (addr + c)) (addr_after m (addr + c)) + j =
                omega (arith, linear_after) in
              subst IsMapped there (still j h)))

-- For the windowed map and an image of its size, an address of 16 bits, and data that goes where the
-- image is mapped: `place` ends, and keeps the image's length. Every mapped address from the first on
-- reads the data, through the halves and the banks, and every other as before.
pub place_lem :
    (m : Mapper) (banks : ℕ) (image : List ℕ) (bank addr : ℕ) (data' : List ℕ)
    → IsWindowed m banks (length image)
    → addr < 0x10000
    → ((j : ℕ) → j < length data' → IsMapped (linear bank addr + j))
    → (out : List ℕ) × (place m image bank addr data' banks ≡ some out)
      × IsWritten m banks image (linear bank addr) data' out
unfolding place Placed
place_lem m banks image bank addr data' windowed below mapped =
    place_from-Placed m banks (length image) windowed (length data') image bank addr data' refl
      below (omega arith) mapped
