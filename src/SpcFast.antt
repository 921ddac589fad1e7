-- ===== src/SpcFast.antt =====
-- spcfast.py: the patch of the sound driver, a table of runs of bytes, and the cartridge's
-- checksum. A cartridge is a list of bytes. `FRAME_HOOK` is empty, as in the source.
pub mod Checksum
pub mod Stamped
mod Apply
mod Tests
use Prim.Native.Nat.{bit_xor}
use street_fighter_alpha_2_n.Base.{
  ℕ, zero, suc, ◌+◌, ◌/◌, ◌%◌, Bool, true, false, ◌&&◌, ◌||◌, Option, none, some, List, [], ◌∷◌,
  ◌++◌, length, replicate, slice, splice, same, Run, write_runs, reads_runs, hex, find_all, find,
  low16, ltb, if◌then◌else◌, Result, ok, err, ◌>>=◌,
}

-- a `ValueError`
pub data Error : Type 0 where
  not_retail no_joypad_wait : Error

abbrev pub checksum_field : ℕ
checksum_field = 0x7FDC

abbrev pub checksum_field_sum : ℕ
checksum_field_sum = 0x1FE

unfoldable pub blank_gate : List ℕ
unfolding hex
blank_gate = hex "af12420029c0f0f8"

unfoldable pub stock_probe : List Run
unfolding blank_gate
stock_probe =
    (0x072B13, hex "ecf4005ef400d0f8") ∷ (0x07046D, hex "01") ∷ (0x070222, blank_gate) ∷ []

pub blanks : List ℕ
unfolding hex
blanks = hex "eaeaeaeaeaeaeaea"

-- `PATCH`
unfoldable pub patch : List Run
unfolding blanks
patch =
    (0x070222, blanks)
    ∷ (0x070241, blanks)
    ∷ (0x07025F, blanks)
    ∷ (0x0702B2, blanks)
    ∷ (0x0702D1, blanks)
    ∷ (0x0702EF, blanks)
    ∷ (0x070337, blanks)
    ∷ (0x070355, blanks)
    ∷ (0x070373, blanks)
    ∷ (0x0703C1, blanks)
    ∷ (0x0703E2, blanks)
    ∷ (0x070401, blanks)
    ∷ (0x070420, blanks)
    ∷ (0x07043B, blanks)
    ∷ (0x07046D, hex "03")
    ∷ (0x070479, blanks)
    ∷ (0x070488, hex "4ceb04")
    ∷ (0x070498, blanks)
    ∷ (0x0704B6, blanks)
    ∷ (
      0x0704EB,
      hex
          "c230da3ba2e01f9a48a301aabf010000481a1a206b0548981863011863014898186303485aa3078f422100e220a9008f402100cf402100d0fac230a307aaa00000e220b3018f412100b3038f422100b3058f432100981a8f402100c8caf008cf402100d0fa80dcc230a301186309a8a307aa6868686868681b688ae2204cb504484a4a48a206004a4a48186303830368cad0f4a30338e30138e30138e301c903009007a3011a830180e968fa60",
    )
    ∷ (0x072B13, hex "eb")
    ∷ (0x072B15, hex "d0fce4e66803f04c7e")
    ∷ (0x072B1F, hex "d00de4f5cb")
    ∷ (
      0x072B25,
      hex
          "d714fcd0f3ab152fef10e72f237ef4f00410fa2f1be4f5d714f8f6e4f7cbf4d7ca7dd7c8fcd0e6ab15abc9abcb2fde",
    )
    ∷ (0x072B55, hex "e4")
    ∷ (0x072B57, hex "ebf7da14ebf4e4f5c4e6cbf46800f0172faa1a14baf67a14dac87af6daca8d00cb")
    ∷ (0x072B79, hex "fc2fb6")
    ∷ []

pub joypad_wait : List ℕ
unfolding hex
joypad_wait = hex "ad12424ab0fa"

abbrev pub frame_hook : List ℕ
frame_hook = []

abbrev pub frame_hook_sites : List ℕ
frame_hook_sites = 0x000208 ∷ 0x00020C ∷ []

pub hook_site_among : List ℕ → List ℕ → Result Error ℕ
hook_site_among [] rom = err no_joypad_wait
hook_site_among (site ∷ sites) rom =
    let window = slice rom site (length joypad_wait) in
    if same window joypad_wait || same (slice window 0 (length frame_hook)) frame_hook
    then ok site
    else hook_site_among sites rom

pub frame_hook_site : List ℕ → Result Error ℕ
frame_hook_site rom = hook_site_among frame_hook_sites rom

pub is_empty : List ℕ → Bool
is_empty [] = true
is_empty (x ∷ xs) = false

pub runs_for : List ℕ → Result Error (List Run)
unfolding is_empty
runs_for rom =
    if is_empty frame_hook
    then ok patch
    else do site ← frame_hook_site rom; ok (patch ++ (site, frame_hook) ∷ [])

unfoldable pub sum : List ℕ → ℕ
sum [] = 0
sum (x ∷ xs) = x + sum xs

unfoldable pub checksum : List ℕ → ℕ
checksum rom = low16 (sum (splice rom checksum_field (replicate 4 0)) + checksum_field_sum)

-- `complement & 0xFF, complement >> 8, value & 0xFF, value >> 8`
pub stamp : ℕ → List ℕ
stamp value =
    let complement = bit_xor value 0xFFFF in
    complement % 0x100 ∷ complement / 0x100 ∷ value % 0x100 ∷ value / 0x100 ∷ []

unfoldable pub write_checksum : List ℕ → List ℕ
unfolding stamp
write_checksum rom = splice rom checksum_field (stamp (checksum rom))

pub runs_length : List Run → ℕ
runs_length [] = 0
runs_length ((at, data') ∷ runs) = length data' + runs_length runs

pub patch_bytes : ℕ
patch_bytes = runs_length patch + length frame_hook

-- `while position != -1 and position < 0x080000`
pub gates_from : ℕ → List ℕ → Option ℕ → List ℕ
gates_from zero rom at = []
gates_from (suc fuel) rom none = []
gates_from (suc fuel) rom (some at) =
    let later = gates_from fuel rom (find rom blank_gate (at + 1)) in
    if ltb at 0x080000 then at ∷ later else []

pub find_blank_gates : List ℕ → List ℕ
find_blank_gates rom = gates_from (length rom) rom (find rom blank_gate 0x070000)

unfoldable pub is_stock : List ℕ → Bool
is_stock rom = reads_runs stock_probe rom

pub is_patched : List ℕ → Result Error Bool
unfolding runs_for
is_patched rom = do runs ← runs_for rom; ok (reads_runs runs rom)

unfoldable pub apply : List ℕ → Result Error (List ℕ)
unfolding is_patched
apply rom = do
  patched ← is_patched rom
  (if patched
      then ok rom
      else if is_stock rom
      then (do runs ← runs_for rom; ok (write_checksum (write_runs runs rom)))
      else err not_retail)
