-- ===== src/Prefight/Filled.antt =====
-- The table of prefight.py, entry by entry.
use street_fighter_alpha_2_n.Base.{
  ℕ, zero, suc, ◌+◌, ◌-◌, ◌*◌, ◌/◌, ◌%◌, ◌^◌, ◌≤◌, ◌<◌, ◌≡◌, refl, ap, ◌∙◌, List, [], ◌∷◌, ◌++◌,
  length, length-append, get_or, arith,
}
use mathlib.Core.Path.{ap₂}
use street_fighter_alpha_2_n.Prefight.{
  table, table_rows, table_columns, table_size, table_start, table_step, table_start_stride,
  table_step_stride, minus32, columns_from, rows_from,
}

-- a number of 32 bits, low bytes first, of which two bytes are kept
abbrev pub word_at : List ℕ → ℕ → ℕ
word_at d i = get_or d (2 * i) 0 + get_or d (suc (2 * i)) 0 * 0x100

length-columns_from : (n value step : ℕ) → length (columns_from n value step) ≡ 2 * n
unfolding columns_from
length-columns_from zero value step = refl
length-columns_from (suc n) value step =
    omega (arith, length-columns_from n (minus32 value step) step)

length-rows_from : (n start step : ℕ) → length (rows_from n start step) ≡ 2 * table_columns * n
unfolding rows_from
length-rows_from zero start step = refl
length-rows_from (suc n) start step =
    length-append (columns_from table_columns start step)
      (rows_from n ((start + table_start_stride) % 2 ^ 32) (minus32 step table_step_stride))
    ∙ omega (
      arith,
      length-columns_from table_columns start step,
      length-rows_from n ((start + table_start_stride) % 2 ^ 32) (minus32 step table_step_stride),
    )

get_or-before : (xs ys : List ℕ) (i : ℕ) → i < length xs → get_or (xs ++ ys) i 0 ≡ get_or xs i 0
get_or-before [] ys i h = absurd (omega (arith, h))
get_or-before (x ∷ xs) ys zero h = refl
get_or-before (x ∷ xs) ys (suc i) h = get_or-before xs ys i (omega (arith, h))

get_or-after :
    (xs ys : List ℕ) (i j : ℕ) → j ≡ length xs + i → get_or (xs ++ ys) j 0 ≡ get_or ys i 0
get_or-after [] ys i j e = ap (λ k. get_or ys k 0) (e ∙ omega arith)
get_or-after (x ∷ xs) ys i zero e = absurd (omega (arith, e))
get_or-after (x ∷ xs) ys i (suc j) e = get_or-after xs ys i j (omega (arith, e))

-- a value after it has fallen `n` times
abbrev pub fallen : ℕ → ℕ → ℕ → ℕ
fallen n value step = (value + n * (2 ^ 32 - step)) % 2 ^ 32

fallen-minus32 : (n value step : ℕ) → fallen n (minus32 value step) step ≡ fallen (suc n) value step
fallen-minus32 n value step = omega (arith, product n (2 ^ 32 - step))
  where
    product : (n k : ℕ) → suc n * k ≡ k + n * k
    product n k = omega arith

columns_from-word_at :
    (n value step c : ℕ)
    → c < n
    → value < 2 ^ 32
    → word_at (columns_from n value step) c ≡ fallen c value step / 0x10000
unfolding columns_from
columns_from-word_at zero value step c h small = absurd (omega (arith, h))
columns_from-word_at (suc n) value step zero h small = omega (arith, small)
columns_from-word_at (suc n) value step (suc c) h small =
    shift (columns_from n (minus32 value step) step)
    ∙ columns_from-word_at n (minus32 value step) step c (omega (arith, h)) (omega arith)
    ∙ ap (λ v. v / 0x10000) (fallen-minus32 c value step)
  where
    shift :
        (rest : List ℕ)
        → word_at (value / 65536 % 65536 % 256 ∷ value / 65536 % 65536 / 256 ∷ rest) (suc c)
          ≡ word_at rest c
    shift rest =
        ap₂
          (λ a b.
            get_or (value / 65536 % 65536 % 256 ∷ value / 65536 % 65536 / 256 ∷ rest) a 0
            + get_or (value / 65536 % 65536 % 256 ∷ value / 65536 % 65536 / 256 ∷ rest) b 0 * 0x100)
          low up
      where
        low : 2 * suc c ≡ suc (suc (2 * c))
        low = omega arith

        up : suc (2 * suc c) ≡ suc (suc (suc (2 * c)))
        up = omega arith

word_at-before :
    (xs ys : List ℕ) (i : ℕ) → 2 * i + 2 ≤ length xs → word_at (xs ++ ys) i ≡ word_at xs i
word_at-before xs ys i h =
    ap₂ (λ a b. a + b * 0x100) (get_or-before xs ys (2 * i) (omega (arith, h)))
      (get_or-before xs ys (suc (2 * i)) (omega (arith, h)))

word_at-after :
    (xs ys : List ℕ) (i j : ℕ) → 2 * j ≡ length xs + 2 * i → word_at (xs ++ ys) j ≡ word_at ys i
word_at-after xs ys i j e =
    ap₂ (λ a b. a + b * 0x100) (get_or-after xs ys (2 * i) (2 * j) e)
      (get_or-after xs ys (suc (2 * i)) (suc (2 * j)) (omega (arith, e)))

-- where a row starts, and its step
abbrev pub start_of_row : ℕ → ℕ → ℕ
start_of_row r start = (start + r * table_start_stride) % 2 ^ 32

abbrev pub step_of_row : ℕ → ℕ → ℕ
step_of_row r step = fallen r step table_step_stride

rows_from-word_at :
    (n start step r c : ℕ)
    → r < n
    → c < 0x40
    → start < 2 ^ 32
    → step < 2 ^ 32
    → word_at (rows_from n start step) (0x40 * r + c)
      ≡ fallen c (start_of_row r start) (step_of_row r step) / 0x10000
unfolding rows_from
rows_from-word_at zero start step r c h k small small' = absurd (omega (arith, h))
rows_from-word_at (suc n) start step zero c h k small small' =
    ap
      (word_at (
        columns_from table_columns start step
        ++ rows_from n ((start + table_start_stride) % 2 ^ 32) (minus32 step table_step_stride)))
      first
    ∙ word_at-before (columns_from table_columns start step)
        (rows_from n ((start + table_start_stride) % 2 ^ 32) (minus32 step table_step_stride)) c
        (omega (arith, length-columns_from table_columns start step, k))
    ∙ columns_from-word_at table_columns start step c (omega (arith, k)) small
    ∙ ap₂ (λ start step. fallen c start step / 0x10000) first_start first_step
  where
    first : 0x40 * 0 + c ≡ c
    first = omega arith

    first_start : start ≡ start_of_row 0 start
    first_start = omega (arith, small)

    first_step : step ≡ step_of_row 0 step
    first_step = omega (arith, small')
rows_from-word_at (suc n) start step (suc r) c h k small small' =
    word_at-after (columns_from table_columns start step)
      (rows_from n ((start + table_start_stride) % 2 ^ 32) (minus32 step table_step_stride))
      (0x40 * r + c) (0x40 * suc r + c)
      (omega (arith, length-columns_from table_columns start step))
    ∙ rows_from-word_at n ((start + table_start_stride) % 2 ^ 32) (minus32 step table_step_stride) r
        c (omega (arith, h)) k (omega arith) (omega arith)
    ∙ ap₂ (λ start step. fallen c start step / 0x10000) next_start next_step
  where
    next_start : start_of_row r ((start + table_start_stride) % 2 ^ 32) ≡ start_of_row (suc r) start
    next_start = omega arith

    next_step : step_of_row r (minus32 step table_step_stride) ≡ step_of_row (suc r) step
    next_step = omega arith

table-length : length table ≡ table_size
unfolding table
table-length = length-rows_from table_rows table_start table_step

-- The table has two bytes for each row and column: the upper half of a number of 32 bits that starts
-- at the row's start and falls by the row's step from column to column. From row to row the start
-- grows by its stride and the step falls by its own; all in 32 bits.
pub table-word_at :
    (r c : ℕ)
    → r < 0xC1
    → c < 0x40
    → (length table ≡ table_size)
      × (word_at table (0x40 * r + c)
          ≡ fallen c (start_of_row r table_start) (step_of_row r table_step) / 0x10000)
unfolding table
table-word_at r c h k = (
  table-length,
  rows_from-word_at table_rows table_start table_step r c h k (omega arith) (omega arith),
)
