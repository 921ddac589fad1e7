-- ===== src/RomBuild/Built.antt =====
-- The image that `build` returns: the game finds every stream, decompressed.
use street_fighter_alpha_2_n.Base.{
  ℕ, ◌*◌, ◌<◌, ◌≡◌, inl, inr, refl, ap, subst, true, not, Option, none, some, List, [], ◌∷◌, ◌++◌,
  length, replicate, ◌==◌, Bool-cases, All, Chain, Result, ok, err, refuse, bind_ok, then_ok,
  ok_injective, Dict, arith,
}
use street_fighter_alpha_2_n.Sdd1Map.{Entry}
use street_fighter_alpha_2_n.Tables.Build.{ByteTables}
use street_fighter_alpha_2_n.Tables.Build
use street_fighter_alpha_2_n.RomBuild.{Region, allocate, data_bank_regions, spans_of, subtract}
use street_fighter_alpha_2_n.RomBuild.Reclaimed.{reclaimed_regions}
use street_fighter_alpha_2_n.RomBuild.Image.{
  Mapper, Placement, ImageError, Decompress, Built, end_of, last_first, sizes_of, pairs_of,
  stream_placements, original_size, placements_of, passed_on, placed_or, place_all, build,
  wrong_size, unreadable, no_room, no_tables,
}
use street_fighter_alpha_2_n.RomBuild.Written.{IsWindowed}
use street_fighter_alpha_2_n.RomBuild.Sequence.{Off, All-append}
use street_fighter_alpha_2_n.RomBuild.Streams.{IsExtra}
use street_fighter_alpha_2_n.RomBuild.Spots.{IsOther}

-- what `build` is given: the windowed map, a decoder that returns as many bytes as it is asked for
-- where it is asked for any, distinct entries in the cartridge whose known lengths are above zero
-- (for a length of zero the decoder returns 64 KB), and data at fixed addresses in banks of its own
pub record IsGiven (m : Mapper) (decompress : Decompress) (rom : List ℕ) (entries : List Entry)
    (banks : ℕ) (extra : List (ℕ × List ℕ)) : Type 0 where
  pub windowed : IsWindowed m banks (banks * m.bank_size)
  pub exact :
      (source n end : ℕ) (bytes : List ℕ)
      → 0 < n
      → decompress rom source n ≡ some (bytes, end)
      → length bytes ≡ n
  pub positive : All (λ e. (n : ℕ) → e.length ≡ some n → 0 < n) entries
  pub distinct : Chain IsOther entries
  pub inside : All (λ e. e.source < 0x400000) entries
  pub extras : All IsExtra extra

pub Chain-append :
    (ps qs : List Placement)
    → Chain Off ps
    → Chain Off qs
    → All (λ p. All (Off p) qs) ps
    → Chain Off (ps ++ qs)
Chain-append [] qs a b off = b
Chain-append (p ∷ ps) qs (here, a) b (far, off) =
    (All-append (Off p) ps qs here far, Chain-append ps qs a b off)

-- what `build` has decided when it starts to write
pub record IsPlanned (m : Mapper) (decompress : Decompress) (rom : List ℕ) (entries : List Entry)
    (extra : List (ℕ × List ℕ)) (destinations : Dict ℕ) (tables : ByteTables) : Type 0 where
  pub sized : length rom ≡ original_size
  pub reclaimed : List Region
  pub found : reclaimed_regions (end_of decompress) rom entries ≡ ok reclaimed
  pub sizes : List (ℕ × ℕ)
  pub asked : sizes_of (last_first entries) ≡ ok sizes
  pub allocated :
      allocate sizes (subtract (data_bank_regions m.bank_size) (spans_of extra) ++ reclaimed)
      ≡ ok destinations
  pub pairs : List (ℕ × ℕ)
  pub paired : pairs_of destinations entries ≡ ok pairs
  pub tabled : Build.build pairs ≡ ok tables
  pub streams : List Placement
  pub streamed : stream_placements decompress rom destinations entries ≡ ok streams

-- the writes of a plan
abbrev pub written :
    (m : Mapper) (decompress : Decompress) (rom : List ℕ) (entries : List Entry) (banks : ℕ)
    (extra : List (ℕ × List ℕ)) (destinations : Dict ℕ) (tables : ByteTables)
    → IsPlanned m decompress rom entries extra destinations tables
    → Option (List ℕ)
written m decompress rom entries banks extra destinations tables plan =
    place_all m banks (placements_of m rom tables plan.streams extra)
      (replicate (banks * m.bank_size) 0)

pub passed_on_ok :
    {E A : Type 0} (raised : E → ImageError) (r : Result E A) (a : A)
    → passed_on raised r ≡ ok a
    → r ≡ ok a
passed_on_ok raised (ok b) a h = let same : b ≡ a = cc h in ap (λ c. ok c) same
passed_on_ok raised (err e) a h = absurd (cc h)

pub placed_or_ok : (o : Option (List ℕ)) (image : List ℕ) → placed_or o ≡ ok image → o ≡ some image
placed_or_ok none image h = absurd (cc h)
placed_or_ok (some x) image h = let same : x ≡ image = cc h in ap (λ y. some y) same

pub refuse_ok : (n size : ℕ) → refuse (not (n == size)) wrong_size ≡ ok tt → n ≡ size
refuse_ok n size h = elim (Bool-cases (n == size)) [
  | inl same ↦ ground (arith, same)
  | inr other ↦ absurd (cc (rw other at h))
]

-- A `build` that returns has planned and written.
pub build-IsPlanned :
    (m : Mapper) (decompress : Decompress) (rom : List ℕ) (entries : List Entry) (banks : ℕ)
    (extra : List (ℕ × List ℕ)) (built : Built)
    → build m decompress rom entries banks extra ≡ ok built
    → (plan : IsPlanned m decompress rom entries extra built.destinations built.tables) × (written m
          decompress rom entries banks extra built.destinations built.tables plan
        ≡ some built.image)
unfolding build
build-IsPlanned m decompress rom entries banks extra built h =
    let (sized, h1) = then_ok (refuse (not (length rom == original_size)) wrong_size) _ built h in
    let (reclaimed, found, h2) =
      bind_ok (passed_on unreadable (reclaimed_regions (end_of decompress) rom entries)) _ built
        h1 in
    let (sizes, asked, h3) = bind_ok (sizes_of (last_first entries)) _ built h2 in
    let (destinations, allocated, h4) =
      bind_ok
        (passed_on no_room
          (allocate sizes (subtract (data_bank_regions m.bank_size) (spans_of extra) ++ reclaimed)))
        _ built h3 in
    let (pairs, paired, h5) = bind_ok (pairs_of destinations entries) _ built h4 in
    let (tables, tabled, h6) = bind_ok (passed_on no_tables (Build.build pairs)) _ built h5 in
    let (streams, streamed, h7) =
      bind_ok (stream_placements decompress rom destinations entries) _ built h6 in
    let (image, placed, same) =
      bind_ok
        (placed_or (
          place_all m banks (placements_of m rom tables streams extra)
            (replicate (banks * m.bank_size) 0)))
        _ built h7 in
    let made : record {
      image = image;
      destinations = destinations;
      tables = tables;
      regions = subtract (data_bank_regions m.bank_size) (spans_of extra) ++ reclaimed;
    }
        ≡ built =
      ok_injective _ built same in
    subst
      (λ (b : Built).
        (plan : IsPlanned m decompress rom entries extra b.destinations b.tables) × (written m
            decompress rom entries banks extra b.destinations b.tables plan
          ≡ some b.image))
      made
      (
        record {
          sized = refuse_ok (length rom) original_size sized;
          reclaimed = reclaimed;
          found =
              passed_on_ok unreadable (reclaimed_regions (end_of decompress) rom entries) reclaimed
                found;
          sizes = sizes;
          asked = asked;
          allocated = passed_on_ok no_room _ destinations allocated;
          pairs = pairs;
          paired = paired;
          tabled = passed_on_ok no_tables _ tables tabled;
          streams = streams;
          streamed = streamed;
        },
        placed_or_ok _ image placed,
      )

-- and the other way round
pub planned-build :
    (m : Mapper) (decompress : Decompress) (rom : List ℕ) (entries : List Entry) (banks : ℕ)
    (extra : List (ℕ × List ℕ)) (destinations : Dict ℕ) (tables : ByteTables)
    (plan : IsPlanned m decompress rom entries extra destinations tables) (image : List ℕ)
    → written m decompress rom entries banks extra destinations tables plan ≡ some image
    → build m decompress rom entries banks extra
      ≡ ok (record {
        image = image;
        destinations = destinations;
        tables = tables;
        regions = subtract (data_bank_regions m.bank_size) (spans_of extra) ++ plan.reclaimed;
      })
unfolding build
planned-build m decompress rom entries banks extra destinations tables plan image h =
    let right : (length rom == original_size) ≡ true = ground (arith, plan.sized) in
    rw
      (
        build, right, plan.found, plan.asked, plan.allocated, plan.paired, plan.tabled,
        plan.streamed, h,
      )
      refl
