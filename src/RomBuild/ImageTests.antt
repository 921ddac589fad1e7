-- ===== src/RomBuild/ImageTests.antt =====
-- place and build of rombuild.py with the windowed map that the emulator of the repository has.
use street_fighter_alpha_2_n.Base.{
  ℕ, zero, suc, ◌+◌, ◌-◌, ◌*◌, ◌/◌, ◌%◌, ◌<◌, ◌≡◌, inl, inr, refl, ap, ◌∙◌, sym, subst, Bool, true,
  false, some, List, [], ◌∷◌, ◌++◌, In, length, replicate, length-replicate, ltb, leb, ◌==◌,
  if◌then◌else◌, Bool-cases, high, low16, ok, Dict, arith,
}
use street_fighter_alpha_2_n.Base.{sorted, range, put, empty, join}
use street_fighter_alpha_2_n.Sdd1Map.{Entry}
use street_fighter_alpha_2_n.Tables.Tests.{one_tabled}
use street_fighter_alpha_2_n.RomBuild.Reclaimed.{
  reclaimed_regions, spans_from, span_known, span_onto, large,
}
use street_fighter_alpha_2_n.RomBuild.{
  allocate, assign_all, assign, fit, cursors, placed_of, spot_for, pass_by, merge, merge_sorted,
  merge_onto, subtract, spans_of, data_bank_regions, regions_of_banks, cut_holes, regions_of,
  reserved, among,
}
use street_fighter_alpha_2_n.RomBuild.Image.{
  Mapper, Decompress, Built, place, build, image_banks, sizes_of, pairs_of, stream_placements,
}
use street_fighter_alpha_2_n.RomBuild.Built.{IsGiven, IsPlanned, planned-build}
use street_fighter_alpha_2_n.RomBuild.Planned.{written_ends}
use street_fighter_alpha_2_n.RomBuild.Ends.{Cause, Yields, build-Ends}
use street_fighter_alpha_2_n.RomBuild.Retrieved.{IsRetrieved, HoldsTables, build-IsRetrieved}
use street_fighter_alpha_2_n.RomBuild.Written.{file_at, IsMapped, IsWindowed, IsWritten}
use street_fighter_alpha_2_n.RomBuild.Rounds.{place_lem}

-- the row of 32 KB: the lower halves stand behind the upper ones, and the window's halves where the
-- LoROM banks have none
abbrev row : ℕ → Bool → ℕ
row bank is_low =
    if leb 0xC0 bank
    then (if is_low then bank - 0x40 + 192 else bank - 0xC0 + 192)
    else (if is_low then bank + 192 else bank)

abbrev windowed : Mapper
windowed = record {
  half = 0x8000;
  bank_size = 0x10000;
  address_to_file = λ bank addr banks. row bank (ltb addr 0x8000) * 0x8000 + addr % 0x8000;
}

row-inside : (x : ℕ) → IsMapped x → row (high x) (ltb (low16 x) 0x8000) < 384
row-inside x (inl (low, up)) = ground (arith, low, up)
row-inside x (inr (inl (low, up))) = ground (arith, low, up)
row-inside x (inr (inr (inl low, upper))) = ground (arith, low, upper)
row-inside x (inr (inr (inr (low, up), upper))) = ground (arith, low, up, upper)

-- the half of a bank that a row belongs to
half_of : ℕ → ℕ
half_of r =
    if ltb r 192
    then 2 * r + 1
    else if ltb r 256
    then 2 * r + 1
    else if ltb r 320
    then 2 * (r - 192)
    else 2 * (r - 128)

half_of-row : (x : ℕ) → IsMapped x → half_of (row (high x) (ltb (low16 x) 0x8000)) ≡ x / 0x8000
unfolding half_of
half_of-row x (inl (low, up)) = ground (arith, low, up)
half_of-row x (inr (inl (low, up))) = ground (arith, low, up)
half_of-row x (inr (inr (inl low, upper))) = ground (arith, low, upper)
half_of-row x (inr (inr (inr (low, up), upper))) = ground (arith, low, up, upper)

row-apart :
    (x y : ℕ)
    → IsMapped x
    → IsMapped y
    → file_at windowed image_banks x ≡ file_at windowed image_banks y
    → x ≡ y
row-apart x y mx my e =
    let same_row : row (high x) (ltb (low16 x) 0x8000) ≡ row (high y) (ltb (low16 y) 0x8000) =
      omega (arith, e) in
    let same_half : x / 0x8000 ≡ y / 0x8000 =
      sym (half_of-row x mx) ∙ ap half_of same_row ∙ half_of-row y my in
    omega (arith, e, same_row, same_half)

windowed-runs_on :
    (x j : ℕ)
    → (x + j) / 0x8000 ≡ x / 0x8000
    → file_at windowed image_banks (x + j) ≡ file_at windowed image_banks x + j
windowed-runs_on x j h =
    let same_high : high (x + j) ≡ high x = omega (arith, h) in
    rw same_high (elim (Bool-cases (ltb (low16 x) 0x8000)) [
      | inl low ↦
          let low' : ltb (low16 (x + j)) 0x8000 ≡ true = ground (arith, low, h) in
          rw (low, low') (omega (arith, h))
      | inr up ↦
          let up' : ltb (low16 (x + j)) 0x8000 ≡ false = ground (arith, up, h) in
          rw (up, up') (omega (arith, h))
    ])

windowed-IsWindowed : IsWindowed windowed image_banks 0xC00000
windowed-IsWindowed = record {
  half_is = refl;
  bank_is = refl;
  runs_on = windowed-runs_on;
  apart = row-apart;
  inside = λ x mx. omega (arith, row-inside x mx);
}

abbrev blank_image : List ℕ
blank_image = replicate 0xC00000 0

-- four bytes across two banks
place_lem_example :
    (out : List ℕ) × (place windowed blank_image 0x40 0xFFFE (1 ∷ 2 ∷ 3 ∷ 4 ∷ []) image_banks
      ≡ some out)
    × IsWritten windowed image_banks blank_image 0x40FFFE (1 ∷ 2 ∷ 3 ∷ 4 ∷ []) out
place_lem_example =
    place_lem windowed image_banks blank_image 0x40 0xFFFE (1 ∷ 2 ∷ 3 ∷ 4 ∷ [])
      (subst (IsWindowed windowed image_banks) (sym (length-replicate 0xC00000 0))
        windowed-IsWindowed)
      (omega arith) (λ j h. inl (omega (arith, h), omega (arith, h)))

-- a blank cartridge with one stream of four bytes, and a decoder of zeros, 64 KB where it is asked
-- for none
abbrev cartridge : List ℕ
cartridge = replicate 0x400000 0

abbrev zeros : Decompress
zeros rom source n =
    let size = if n == 0 then 0x10000 else n in some (replicate size 0, source + size)

abbrev one_entry : List Entry
one_entry = record { index = 0; source = 0x10; target = 0; length = some 4 } ∷ []

zeros_exact :
    (source n end : ℕ) (bytes : List ℕ)
    → 0 < n
    → zeros cartridge source n ≡ some (bytes, end)
    → length bytes ≡ n
zeros_exact source zero end bytes above h = absurd (omega (arith, above))
zeros_exact source (suc n) end bytes above h =
    let plain : zeros cartridge source (suc n) ≡ some (replicate (suc n) 0, source + suc n) =
      let above_zero : (suc n == 0) ≡ false = ground arith in rw above_zero refl in
    let same : ◌≡◌ {A = List ℕ × ℕ} (replicate (suc n) 0, source + suc n) (bytes, end) =
      cc (plain, h) in
    ap (λ (d : List ℕ × ℕ). length d.0) (sym same) ∙ length-replicate (suc n) 0

one-IsGiven : IsGiven windowed zeros cartridge one_entry image_banks []
one-IsGiven = record {
  windowed = windowed-IsWindowed;
  exact = zeros_exact;
  positive = (λ n known. let same : 4 ≡ n = cc known in omega (arith, same), tt);
  distinct = (tt, tt);
  inside = (omega arith, tt);
  extras = tt;
}

abbrev one_destination : Dict ℕ
one_destination = put empty 0 0x400000

abbrev one_pair : List (ℕ × ℕ)
one_pair = (0x10, 0x400000) ∷ []

one_allocated :
    allocate ((0, 4) ∷ []) (subtract (data_bank_regions 0x10000) (spans_of []) ++ [])
    ≡ ok one_destination
unfolding allocate assign_all assign spot_for fit pass_by cursors placed_of subtract cut_holes
    regions_of data_bank_regions regions_of_banks among reserved spans_of range sorted merge
    merge_sorted merge_onto join
one_allocated = refl

one-IsPlanned : IsPlanned windowed zeros cartridge one_entry [] one_destination one_tabled.0
unfolding reclaimed_regions spans_from span_known span_onto large merge merge_sorted merge_onto
    sorted sizes_of pairs_of stream_placements
one-IsPlanned = record {
  sized = length-replicate 0x400000 0;
  reclaimed = [];
  found = refl;
  sizes = (0, 4) ∷ [];
  asked = refl;
  allocated = one_allocated;
  pairs = one_pair;
  paired = refl;
  tabled = one_tabled.1;
  streams = record { bank = 0x40; addr = 0; data' = replicate 4 0 } ∷ [];
  streamed = refl;
}

abbrev one_built : List ℕ → Built
one_built image = record {
  image = image;
  destinations = one_destination;
  tables = one_tabled.0;
  regions = subtract (data_bank_regions 0x10000) (spans_of []) ++ [];
}

build-Ends_example :
    Yields
      (Cause windowed zeros cartridge one_entry [])
      (λ (b : Built). length b.image ≡ image_banks * 0x10000)
      (build windowed zeros cartridge one_entry image_banks [])
build-Ends_example = build-Ends windowed zeros cartridge one_entry image_banks [] one-IsGiven

one_image :
    (image : List ℕ) × (build windowed zeros cartridge one_entry image_banks []
      ≡ ok (one_built image))
unfolding one-IsPlanned
one_image =
    let (image, placed, kept) =
      written_ends windowed zeros cartridge one_entry image_banks [] one-IsGiven one_destination
        one_tabled.0 one-IsPlanned in
    (
      image,
      planned-build windowed zeros cartridge one_entry image_banks [] one_destination one_tabled.0
          one-IsPlanned image placed,
    )

build-IsRetrieved_example :
    HoldsTables windowed image_banks one_image.0 one_tabled.0
    × ((e : Entry)
        → In e one_entry
        → IsRetrieved windowed zeros cartridge image_banks one_image.0 one_tabled.0 e)
build-IsRetrieved_example =
    build-IsRetrieved windowed zeros cartridge one_entry image_banks [] (one_built one_image.0)
      one-IsGiven one_image.1
