-- ===== src/Sdd1Find/Bitmaps.antt =====
-- The bitmaps of sdd1find.py for widths of whole bytes.
use native.Mathlib.Nat.{mod-lt, one-le-pow, pow-suc}
use street_fighter_alpha_2_n.Base.{
  ℕ, zero, suc, ◌+◌, ◌-◌, ◌*◌, ◌/◌, ◌%◌, ◌^◌, ◌≤◌, ◌<◌, ◌≡◌, inl, inr, refl, ap, ◌∙◌, true, false,
  leb, List, [], ◌∷◌, In, In-range, length, slice, range, ok, arith,
}
use street_fighter_alpha_2_n.Sdd1Find.{
  Hash, Bitmap, window_hash, slots_from, build_bitmap, among, probe,
}

-- a width of three bits or more makes whole bytes
eighths : (bits : ℕ) → 3 ≤ bits → (q : ℕ) × (2 ^ bits ≡ 8 * q) × (0 < q)
eighths (suc (suc (suc k))) h = (
  2 ^ k,
  omega (arith, pow-suc 2 (suc (suc k)), pow-suc 2 (suc k), pow-suc 2 k),
  omega (arith, one-le-pow k 2 (omega arith)),
)
eighths zero h = absurd (omega (arith, h))
eighths (suc zero) h = absurd (omega (arith, h))
eighths (suc (suc zero)) h = absurd (omega (arith, h))

-- Then every slot is in the bitmap's bytes.
slot_within :
    (crc32 : Hash) (value : List ℕ) (bits : ℕ)
    → 3 ≤ bits
    → leb (2 ^ bits / 8) (window_hash crc32 value bits / 8) ≡ false
unfolding window_hash
slot_within crc32 value bits wide =
    let (q, size, some_q) = eighths bits wide in
    rw size (ground (arith, some_q, inside (crc32 value) q some_q))
  where
    inside : (x q : ℕ) → 0 < q → x % (8 * q) / 8 < q
    inside x q h = let some_8q : 0 < 8 * q = omega (arith, h) in omega (arith, mod-lt x some_8q)

-- the slots of all windows
abbrev all_slots : Hash → List ℕ → ℕ → ℕ → List ℕ → List ℕ
all_slots crc32 d window bits [] = []
all_slots crc32 d window bits (i ∷ offsets) =
    window_hash crc32 (slice d i window) bits ∷ all_slots crc32 d window bits offsets

slots_from_lem :
    (crc32 : Hash) (d : List ℕ) (window bits : ℕ) (offsets : List ℕ)
    → 3 ≤ bits
    → slots_from crc32 d window bits (2 ^ bits / 8) offsets
      ≡ ok (all_slots crc32 d window bits offsets)
unfolding slots_from
slots_from_lem crc32 d window bits [] wide = refl
slots_from_lem crc32 d window bits (i ∷ offsets) wide =
    rw
      (
        slot_within crc32 (slice d i window) bits wide,
        slots_from_lem crc32 d window bits offsets wide,
      )
      refl

abbrev pub bitmap_of : Hash → List ℕ → ℕ → ℕ → Bitmap
bitmap_of crc32 d window bits = record {
  bytes = 2 ^ bits / 8;
  slots = all_slots crc32 d window bits (range 0 (length d + 1 - window));
}

pub build_bitmap_lem :
    (crc32 : Hash) (d : List ℕ) (window bits : ℕ)
    → 3 ≤ bits
    → build_bitmap crc32 d window bits ≡ ok (bitmap_of crc32 d window bits)
unfolding build_bitmap
build_bitmap_lem crc32 d window bits wide =
    rw (slots_from_lem crc32 d window bits (range 0 (length d + 1 - window)) wide) refl

-- Then a probe answers.
pub probe_lem :
    (crc32 : Hash) (bitmap : Bitmap) (value : List ℕ) (bits : ℕ)
    → 3 ≤ bits
    → bitmap.bytes ≡ 2 ^ bits / 8
    → probe crc32 bitmap value bits ≡ ok (among (window_hash crc32 value bits) bitmap.slots)
unfolding probe
probe_lem crc32 bitmap value bits wide size = rw (size, slot_within crc32 value bits wide) refl

among-all_slots :
    (crc32 : Hash) (d : List ℕ) (window bits : ℕ) (offsets : List ℕ) (i : ℕ)
    → In i offsets
    → among (window_hash crc32 (slice d i window) bits) (all_slots crc32 d window bits offsets)
      ≡ true
unfolding among
among-all_slots crc32 d window bits [] i h = absurd h
among-all_slots crc32 d window bits (j ∷ offsets) i (inl e) = rw e (ground arith)
among-all_slots crc32 d window bits (j ∷ offsets) i (inr k) =
    ground (arith, among-all_slots crc32 d window bits offsets i k)

-- A window of the data is in its bitmap.
pub probe-bitmap_of :
    (crc32 : Hash) (d : List ℕ) (window bits i : ℕ)
    → 3 ≤ bits
    → i + window ≤ length d
    → probe crc32 (bitmap_of crc32 d window bits) (slice d i window) bits ≡ ok true
probe-bitmap_of crc32 d window bits i wide within =
    probe_lem crc32 (bitmap_of crc32 d window bits) (slice d i window) bits wide refl
    ∙ ap (λ b. ok b)
        (among-all_slots crc32 d window bits (range 0 (length d + 1 - window)) i
          (In-range 0 (length d + 1 - window) i (omega arith) (omega (arith, within))))
