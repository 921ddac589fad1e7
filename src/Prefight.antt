-- ===== src/Prefight.antt =====
-- prefight.py: the table that the game builds before a fight, and the patch that reads it from the
-- image instead.
mod Filled
mod Redirected
mod Tests
use street_fighter_alpha_2_n.Base.{
  ℕ, zero, suc, ◌+◌, ◌-◌, ◌*◌, ◌/◌, ◌%◌, ◌^◌, Bool, true, false, not, Option, none, some, List, [],
  ◌∷◌, ◌++◌, length, find, find_all, splice, slice, same, low16, high, join, Result, ok, err, ◌>>=◌,
  ◌>>◌, refuse, hex,
}
use street_fighter_alpha_2_n.RepeatLoad.{only}

abbrev pub table_start : ℕ
table_start = 0x004B7A00

abbrev pub table_step : ℕ
table_step = 0x00011820

abbrev pub table_rows : ℕ
table_rows = 0xC1

abbrev pub table_columns : ℕ
table_columns = 0x40

abbrev pub table_size : ℕ
table_size = 0xC1 * 0x40 * 2

abbrev pub table_start_stride : ℕ
table_start_stride = 0x8C10

abbrev pub table_step_stride : ℕ
table_step_stride = 0x02EB

unfoldable pub builder_signature : List ℕ
unfolding hex
builder_signature = hex "08c230a20000a9007a8510a94b008512a920188514a901008516"

abbrev pub filler_file : ℕ
filler_file = 0x07F593

abbrev pub filler_end : ℕ
filler_end = 0x07F600

abbrev pub routine_address : ℕ
routine_address = 0xC00000 + filler_file

unfoldable pub routine : List ℕ
unfolding hex
routine =
    hex
      "0878c230a940948f812100e220a9008f8321008f004300a9808f014300a95f8f044300c220a900008f024300a980608f054300e220a9018f0b4200286b"

abbrev pub jsl : ℕ
jsl = 0x22

abbrev pub window_first_bank : ℕ
window_first_bank = 0xC0

-- `(x - y) & 0xFFFFFFFF`, for a `y` in 32 bits
abbrev pub minus32 : ℕ → ℕ → ℕ
minus32 x y = (x + (2 ^ 32 - y)) % 2 ^ 32

-- the inner loop: the upper 16 bits of a value that falls by the step
unfoldable pub columns_from : ℕ → ℕ → ℕ → List ℕ
columns_from zero value step = []
columns_from (suc n) value step =
    (value / 0x10000 % 0x10000) % 0x100
    ∷ (value / 0x10000 % 0x10000) / 0x100
    ∷ columns_from n (minus32 value step) step

-- the outer loop
unfoldable pub rows_from : ℕ → ℕ → ℕ → List ℕ
rows_from zero start step = []
rows_from (suc n) start step =
    columns_from table_columns start step
    ++ rows_from n ((start + table_start_stride) % 2 ^ 32) (minus32 step table_step_stride)

unfoldable pub table : List ℕ
table = rows_from table_rows table_start table_step

-- the `ValueError`s
pub data Error : Type 0 where
  several_builders no_builder never_called filler_taken : Error

unfoldable pub find_builder : List ℕ → Result Error (Option ℕ)
find_builder rom = elim (find rom builder_signature 0) [
  | none ↦ ok none
  | some at ↦ elim (find rom builder_signature (suc at)) [
    | none ↦ ok (some at)
    | some second ↦ err several_builders
  ]
]

unfoldable pub call_to : ℕ → List ℕ
call_to address = jsl ∷ address % 0x100 ∷ address / 0x100 % 0x100 ∷ address / 0x10000 % 0x100 ∷ []

-- the calls of a builder that is at an offset
unfoldable pub callers_of : List ℕ → ℕ → List ℕ
callers_of rom at = find_all rom (call_to (join (window_first_bank + high at) (low16 at)))

unfoldable pub find_callers : List ℕ → Result Error (List ℕ)
find_callers rom = do
  at ← find_builder rom
  ok (elim at [ none ↦ [] | some builder ↦ callers_of rom builder ])

pub is_empty : List ℕ → Bool
is_empty [] = true
is_empty (x ∷ xs) = false

unfoldable pub is_patched : List ℕ → Result Error Bool
unfolding is_empty
is_patched rom = elim (same (slice rom filler_file (length routine)) routine) [
  | false ↦ ok false
  | true ↦ (do callers ← find_callers rom; ok (is_empty callers))
]

-- each call, replaced by one of the routine
unfoldable pub redirect : List ℕ → List ℕ → List ℕ
redirect [] rom = rom
redirect (site ∷ callers) rom = redirect callers (splice rom site (call_to routine_address))

unfoldable pub redirected : Option ℕ → List ℕ → Result Error (List ℕ)
unfolding is_empty redirect
redirected none rom = err no_builder
redirected (some at) rom = do
  refuse (is_empty (callers_of rom at)) never_called
  refuse (not (only 0xFF (slice rom filler_file (filler_end - filler_file)))) filler_taken
  ok (redirect (callers_of rom at) (splice rom filler_file routine))

unfoldable pub apply : List ℕ → Result Error (List ℕ)
unfolding redirected
apply rom = do
  done ← is_patched rom
  elim done [ true ↦ ok rom | false ↦ (find_builder rom >>= λ at. redirected at rom) ]
