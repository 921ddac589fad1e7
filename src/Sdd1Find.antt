-- ===== src/Sdd1Find.antt =====
-- sdd1find.py: the search for compressed streams whose output stands in another cartridge. The
-- decoder and the hash, `zlib.crc32`, are the caller's; a bitmap is the number of its bytes and the
-- set of its bits.
mod Bitmaps
mod Extended
mod Found
mod Tests
use street_fighter_alpha_2_n.Base.{
  ℕ, zero, suc, ◌+◌, ◌-◌, ◌*◌, ◌/◌, ◌%◌, ◌^◌, min, Bool, true, false, not, ◌||◌, Option, none, some,
  List, [], ◌∷◌, ◌++◌, length, slice, same, find, range, leb, ltb, ◌==◌, if◌then◌else◌, Result, ok,
  err, ◌>>=◌, ◌>>◌, refuse,
}

abbrev pub probe_length : ℕ
probe_length = 8

abbrev pub min_probe_distinct : ℕ
min_probe_distinct = 4

abbrev pub confirm_length : ℕ
confirm_length = 32

abbrev pub extend_length : ℕ
extend_length = 4096

abbrev pub min_distinct : ℕ
min_distinct = 10

pub record Hit : Type 0 where
  pub source : ℕ
  pub target : ℕ
  pub length' : ℕ

abbrev pub Decode : Type 0
Decode = List ℕ → ℕ → ℕ → Option (List ℕ)

abbrev pub Hash : Type 0
Hash = List ℕ → ℕ

-- `value & ((1 << bits) - 1)`
unfoldable pub window_hash : Hash → List ℕ → ℕ → ℕ
window_hash crc32 value bits = crc32 value % 2 ^ bits

-- what ends the search early: a bit past the bitmap's bytes (the `IndexError`), or the model's lack of
-- rounds
pub data Error : Type 0 where
  past_bitmap no_rounds : Error

pub record Bitmap : Type 0 where
  pub bytes : ℕ
  pub slots : List ℕ

-- the slots of the windows that begin at the offsets, in so many bytes
unfoldable pub slots_from : Hash → List ℕ → ℕ → ℕ → ℕ → List ℕ → Result Error (List ℕ)
slots_from crc32 data' window bits bytes [] = ok []
slots_from crc32 data' window bits bytes (i ∷ offsets) = do
  refuse (leb bytes (window_hash crc32 (slice data' i window) bits / 8)) past_bitmap
  later ← slots_from crc32 data' window bits bytes offsets
  ok (window_hash crc32 (slice data' i window) bits ∷ later)

unfoldable pub build_bitmap : Hash → List ℕ → ℕ → ℕ → Result Error Bitmap
build_bitmap crc32 data' window bits = do
  slots ← slots_from crc32 data' window bits (2 ^ bits / 8) (range 0 (length data' + 1 - window))
  ok (record { bytes = 2 ^ bits / 8; slots = slots })

pub among : ℕ → List ℕ → Bool
among n [] = false
among n (x ∷ xs) = n == x || among n xs

unfoldable pub probe : Hash → Bitmap → List ℕ → ℕ → Result Error Bool
unfolding among
probe crc32 bitmap value bits = do
  refuse (leb bitmap.bytes (window_hash crc32 value bits / 8)) past_bitmap
  ok (among (window_hash crc32 value bits) bitmap.slots)

-- `len(set(blob))`
unfoldable pub distinct : List ℕ → ℕ
unfolding among
distinct [] = 0
distinct (x ∷ xs) = let later = distinct xs in if among x xs then later else suc later

unfoldable pub is_distinctive : List ℕ → ℕ → Bool
is_distinctive blob minimum = leb minimum (distinct blob)

-- a round of `extend` goes on if the longer output stands at the target too
unfoldable pub stands_at : Option (List ℕ) → List ℕ → ℕ → Bool
stands_at none reference target = false
stands_at (some blob) reference target = same (slice reference target (length blob)) blob

unfoldable pub extend_from : ℕ → Decode → List ℕ → List ℕ → ℕ → ℕ → ℕ → ℕ → Option ℕ
extend_from zero decode source reference offset target limit confirmed =
    if ltb confirmed limit then none else some confirmed
extend_from (suc fuel) decode source reference offset target limit confirmed =
    let longer = min (confirmed * 2) limit in
    let further = extend_from fuel decode source reference offset target limit longer in
    if ltb confirmed limit
    then (if stands_at (decode source offset longer) reference target
        then further
        else some confirmed)
    else some confirmed

-- The length doubles, so as many rounds as the limit end the loop.
unfoldable pub extend : Decode → List ℕ → List ℕ → ℕ → ℕ → ℕ → Option ℕ
extend decode source reference offset target limit =
    extend_from limit decode source reference offset target limit confirm_length

-- what is to be seen of an offset: its target, unless the search passes it by
unfoldable pub target_of :
    Hash → Decode → List ℕ → List ℕ → Bitmap → Bitmap → ℕ → ℕ → ℕ → Result Error (Option ℕ)
target_of crc32 decode source reference probe_map confirm_map probe_bits confirm_bits offset =
    elim (decode source offset probe_length) [
      | none ↦ ok none
      | some head ↦ elim (is_distinctive head min_probe_distinct) [
        | false ↦ ok none
        | true ↦
            (probe crc32 probe_map head probe_bits >>= λ seen. elim seen [
              | false ↦ ok none
              | true ↦ elim (decode source offset confirm_length) [
                | none ↦ ok none
                | some blob ↦ elim (is_distinctive blob min_distinct) [
                  | false ↦ ok none
                  | true ↦
                      (probe crc32 confirm_map blob confirm_bits >>= λ confirmed. elim confirmed [
                        | false ↦ ok none
                        | true ↦ ok (find reference blob 0)
                      ])
                ]
              ]
            ])
      ]
    ]

-- `extend` with its limit
unfoldable pub extended : Decode → List ℕ → List ℕ → ℕ → ℕ → Result Error ℕ
extended decode source reference offset target =
    elim (extend decode source reference offset target extend_length) [
      | none ↦ err no_rounds
      | some n ↦ ok n
    ]

unfoldable pub hits_from :
    Hash → Decode → List ℕ → List ℕ → Bitmap → Bitmap → ℕ → ℕ → List ℕ → Result Error (List Hit)
hits_from crc32 decode source reference probe_map confirm_map probe_bits confirm_bits [] = ok []
hits_from crc32 decode source reference probe_map confirm_map probe_bits confirm_bits
      (offset ∷ offsets) =
    do
      at ←
          target_of crc32 decode source reference probe_map confirm_map probe_bits confirm_bits
            offset
      elim at [
        | none ↦
            hits_from crc32 decode source reference probe_map confirm_map probe_bits confirm_bits
              offsets
        | some target ↦ (do
          n ← extended decode source reference offset target
          hits ←
              hits_from crc32 decode source reference probe_map confirm_map probe_bits confirm_bits
                offsets
          ok (record { source = offset; target = target; length' = n } ∷ hits))
      ]

unfoldable pub find_streams :
    Hash → Decode → List ℕ → List ℕ → ℕ → ℕ → ℕ → ℕ → Result Error (List Hit)
find_streams crc32 decode source reference start stop probe_bits confirm_bits = do
  probe_map ← build_bitmap crc32 reference probe_length probe_bits
  confirm_map ← build_bitmap crc32 reference confirm_length confirm_bits
  hits_from crc32 decode source reference probe_map confirm_map probe_bits confirm_bits
      (range start (stop - start))
