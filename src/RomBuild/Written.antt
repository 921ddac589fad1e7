-- ===== src/RomBuild/Written.antt =====
-- What an image reads after a round of `place`, by the addresses of the processor: a bank and sixteen bits.
use street_fighter_alpha_2_n.Base.{
  ℕ, ◌+◌, ◌-◌, ◌*◌, ◌/◌, ◌%◌, ◌≤◌, ◌<◌, ◌≡◌, ◌⊎◌, inl, inr, ap, ◌∙◌, sym, Bool, false, ◌&&◌, List,
  length, get_elem?, take, drop, length-take, length-drop, get_elem?-take, get_elem?-drop, splice,
  length-splice, get_elem?-splice, leb, ltb, if◌then◌else◌, Bool-cases, low16, high, arith,
}
use street_fighter_alpha_2_n.RomBuild.Image.{Mapper}

-- a bank and an address as one number
abbrev pub linear : ℕ → ℕ → ℕ
linear bank addr = bank * 0x10000 + addr

-- where the image has the byte of an address
abbrev pub file_at : Mapper → ℕ → ℕ → ℕ
file_at m banks x = m.address_to_file (high x) (low16 x) banks

-- The addresses that read the image: not work RAM, and the upper half alone in the LoROM banks.
abbrev pub IsMapped : ℕ → Type 0
IsMapped x =
    ((0x40 ≤ high x) × (high x < 0x7E))
    ⊎ (((0xC0 ≤ high x) × (high x < 0x100))
        ⊎ (((high x < 0x40) ⊎ ((0x80 ≤ high x) × (high x < 0xC0))) × (0x8000 ≤ low16 x)))

-- The windowed map: a half of a bank is a stretch of the image, and no two addresses share a byte.
pub record IsWindowed (m : Mapper) (banks size : ℕ) : Type 0 where
  pub half_is : m.half ≡ 0x8000
  pub bank_is : m.bank_size ≡ 0x10000
  pub runs_on :
      (x j : ℕ) → (x + j) / 0x8000 ≡ x / 0x8000 → file_at m banks (x + j) ≡ file_at m banks x + j
  pub apart : (x y : ℕ) → IsMapped x → IsMapped y → file_at m banks x ≡ file_at m banks y → x ≡ y
  pub inside : (x : ℕ) → IsMapped x → file_at m banks x < size

-- is the address among the `n` from `start`?
abbrev pub among : ℕ → ℕ → ℕ → Bool
among start n x = leb start x && ltb x (start + n)

-- What an image became when data went to `start`: each address there reads the data, each other as
-- before.
pub record IsWritten (m : Mapper) (banks : ℕ) (image : List ℕ) (start : ℕ) (data' out : List ℕ)
    : Type 0 where
  pub keeps_length : length out ≡ length image
  pub reads_data :
      (x : ℕ)
      → IsMapped x
      → get_elem? out (file_at m banks x) ≡ (
          if among start (length data') x
          then get_elem? data' (x - start)
          else get_elem? image (file_at m banks x))

module _ (m : Mapper) (banks size : ℕ) (windowed : IsWindowed m banks size) where
  -- one round
  module _ (image : List ℕ) (start : ℕ) (data' : List ℕ) (sized : length image ≡ size)
      (some_data : 0 < length data') (mapped : (j : ℕ) → j < length data' → IsMapped (start + j))
      (in_half : start % 0x8000 + length data' ≤ 0x8000) where
    runs_at : (j : ℕ) → j < length data' → file_at m banks (start + j) ≡ file_at m banks start + j
    runs_at j h = windowed.runs_on start j (omega (arith, h, in_half))

    fits : file_at m banks start + length data' ≤ length image
    fits =
        let before : length data' - 1 < length data' = omega (arith, some_data) in
        omega (
          arith,
          runs_at (length data' - 1) before,
          windowed.inside (start + (length data' - 1)) (mapped (length data' - 1) before),
          sized,
          some_data,
        )

    reads_here :
        (j : ℕ)
        → j < length data'
        → get_elem? (splice image (file_at m banks start) data') (file_at m banks (start + j))
          ≡ get_elem? data' j
    reads_here j h = rw (runs_at j h) (
        get_elem?-splice image (file_at m banks start) data' (file_at m banks start + j) fits
        ∙ ground (arith, h, ap (get_elem? data') (cancel (file_at m banks start))))
      where
        cancel : (a : ℕ) → a + j - a ≡ j
        cancel a = omega arith

    reads_away :
        (x : ℕ)
        → IsMapped x
        → among start (length data') x ≡ false
        → get_elem? (splice image (file_at m banks start) data') (file_at m banks x)
          ≡ get_elem? image (file_at m banks x)
    reads_away x mx away =
        get_elem?-splice image (file_at m banks start) data' (file_at m banks x) fits
        ∙ elim (Bool-cases (among (file_at m banks start) (length data') (file_at m banks x))) [
          | inr off ↦ ground (arith, off)
          | inl on ↦ absurd (
              meets (file_at m banks x - file_at m banks start) (ground (arith, on))
                (ground (arith, on)))
        ]
      where
        meets : (j : ℕ) → j < length data' → file_at m banks x ≡ file_at m banks start + j → ⊥
        meets j h e =
            let same_address : start + j ≡ x =
              windowed.apart (start + j) x (mapped j h) mx (runs_at j h ∙ sym e) in
            ground (arith, away, same_address, h)

    pub chunk-IsWritten :
        IsWritten m banks image start data' (splice image (file_at m banks start) data')
    chunk-IsWritten = record {
      keeps_length = length-splice image (file_at m banks start) data' fits;
      reads_data = λ x mx. elim (Bool-cases (among start (length data') x)) [
        | inr away ↦ rw away (reads_away x mx away)
        | inl here ↦
            let place_of : start + (x - start) ≡ x = ground (arith, here) in
            let within : x - start < length data' = ground (arith, here) in
            rw here (
              ap (λ y. get_elem? (splice image (file_at m banks start) data') (file_at m banks y))
                (sym place_of)
              ∙ reads_here (x - start) within)
      ];
    }

  -- a round and the rounds after it
  pub later-IsWritten :
      (image written out : List ℕ) (start c : ℕ) (data' : List ℕ)
      → c ≤ length data'
      → IsWritten m banks image start (take c data') written
      → IsWritten m banks written (start + c) (drop c data') out
      → IsWritten m banks image start data' out
  later-IsWritten image written out start c data' within first rest = record {
    keeps_length = rest.keeps_length ∙ first.keeps_length;
    reads_data = λ x mx. rest.reads_data x mx ∙ both x (first.reads_data x mx);
  }
    where
      both :
          (x : ℕ)
          → get_elem? written (file_at m banks x) ≡ (
              if among start (length (take c data')) x
              then get_elem? (take c data') (x - start)
              else get_elem? image (file_at m banks x))
          → (if among (start + c) (length (drop c data')) x
              then get_elem? (drop c data') (x - (start + c))
              else get_elem? written (file_at m banks x))
            ≡ (if among start (length data') x
                then get_elem? data' (x - start)
                else get_elem? image (file_at m banks x))
      both x e = elim (Bool-cases (leb (start + c) x)) [
        | inl past ↦
            let further : c + (x - (start + c)) ≡ x - start = ground (arith, past) in
            ground (
              arith,
              past,
              e,
              get_elem?-drop c data' (x - (start + c)),
              length-take c data',
              length-drop c data',
              ap (get_elem? data') further,
            )
        | inr before ↦
            ground
              (arith, before, e, get_elem?-take c data' (x - start), length-take c data', within)
      ]
