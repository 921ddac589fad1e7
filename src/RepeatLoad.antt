-- ===== src/RepeatLoad.antt =====
-- repeatload.py: the patch that skips an upload of samples that are already there.
mod Apply
mod Tests
use street_fighter_alpha_2_n.Base.{
  ℕ, ◌-◌, ◌/◌, ◌%◌, Bool, true, false, not, ◌&&◌, List, [], ◌∷◌, length, slice, splice, same, hex,
  low16, ◌==◌, if◌then◌else◌, Result, ok, err,
}
use street_fighter_alpha_2_n.SpcFast.{write_checksum}

-- the two `ValueError`s
pub data Error : Type 0 where
  no_allocator filler_taken : Error

abbrev pub hook_file : ℕ
hook_file = 0x070069

abbrev pub replaced : List ℕ
replaced = 0xA9 ∷ 0x00 ∷ 0x15 ∷ []

abbrev pub filler_file : ℕ
filler_file = 0x07F600

abbrev pub filler_end : ℕ
filler_end = 0x07F700

abbrev pub filler_size : ℕ
filler_size = filler_end - filler_file

abbrev pub routine_address : ℕ
routine_address = low16 filler_file

abbrev pub jsr : ℕ
jsr = 0x20

unfoldable pub routine : List ℕ
unfolding hex
routine =
    hex
      "e220a303f03148af00907ec95ad017af01907ec9a5d00faf02907ec301d00768a90083038011688f02907ea95a8f00907ea9a58f01907ec220a9001560"

abbrev pub hook : List ℕ
hook = jsr ∷ routine_address % 0x100 ∷ routine_address / 0x100 ∷ []

-- `set(xs) == {n}`
unfoldable pub only : ℕ → List ℕ → Bool
only n [] = false
only n (x ∷ []) = x == n
only n (x ∷ y ∷ xs) = x == n && only n (y ∷ xs)

unfoldable pub is_patched : List ℕ → Bool
is_patched rom =
    if not (same (slice rom hook_file (length replaced)) hook)
    then false
    else same (slice rom filler_file (length routine)) routine

unfoldable pub apply : List ℕ → Result Error (List ℕ)
apply rom =
    if is_patched rom
    then ok rom
    else if not (same (slice rom hook_file (length replaced)) replaced)
    then err no_allocator
    else if not (only 0xFF (slice rom filler_file (filler_end - filler_file)))
    then err filler_taken
    else ok (write_checksum (splice (splice rom filler_file routine) hook_file hook))
