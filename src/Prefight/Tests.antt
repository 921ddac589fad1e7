-- ===== src/Prefight/Tests.antt =====
-- The theorems of prefight.py at the last row of the table, and at a cartridge that is the builder
-- alone.
use street_fighter_alpha_2_n.Base.{
  ◌≡◌, ◌+◌, ◌-◌, ◌*◌, ◌/◌, length, slice, same, occurrences, places, arith,
}
use street_fighter_alpha_2_n.RepeatLoad.{only}
use street_fighter_alpha_2_n.Prefight.{
  table, table_size, table_start, table_step, builder_signature, routine, filler_file, filler_end,
  apply,
}
use street_fighter_alpha_2_n.Prefight.Filled.{
  word_at, fallen, start_of_row, step_of_row, table-word_at,
}
use street_fighter_alpha_2_n.Prefight.Redirected.{answer, apply-find_builder}

table-word_at_example :
    (length table ≡ table_size)
    × (word_at table (0x40 * 192 + 63)
        ≡ fallen 63 (start_of_row 192 table_start) (step_of_row 192 table_step) / 0x10000)
table-word_at_example = table-word_at 192 63 (omega arith) (omega arith)

apply-find_builder_example :
    apply builder_signature
    ≡ answer builder_signature
        (places (occurrences builder_signature builder_signature 0))
        (same (slice builder_signature filler_file (length routine)) routine)
        (only 0xFF (slice builder_signature filler_file (filler_end - filler_file)))
apply-find_builder_example = apply-find_builder builder_signature
