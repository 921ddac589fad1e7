-- ===== src/SpcFast/Tests.antt =====
-- The theorems of spcfast.py at concrete cartridges.
use street_fighter_alpha_2_n.Base.{
  ℕ, ◌≡◌, ◌∙◌, inr, true, List, [], ◌∷◌, length, replicate, length-replicate, slice, write_runs,
  length-write_runs, reads_runs-write_runs, Chain, Apart, All, Ends, low16, hex, ok, arith,
}
use street_fighter_alpha_2_n.SpcFast.{
  sum, checksum, write_checksum, checksum_field, stock_probe, patch, is_stock, is_patched, apply,
}
use street_fighter_alpha_2_n.SpcFast.Checksum.{spelled, write_checksum_lem}
use street_fighter_alpha_2_n.SpcFast.Stamped.{IsClear}
use street_fighter_alpha_2_n.SpcFast.Apply.{reach, apply-apply, slice-apply}

-- a blank cartridge of 512 KB, and one with the retail code that the probe looks for
unfoldable blank : List ℕ
blank = replicate reach 0

length-blank : length blank ≡ reach
unfolding blank
length-blank = length-replicate reach 0

retail : List ℕ
retail = write_runs stock_probe blank

probe_order : All (Ends reach) stock_probe × Chain Apart stock_probe
unfolding stock_probe hex
probe_order = ground arith

length-retail : length retail ≡ reach
unfolding retail
length-retail =
    length-write_runs reach stock_probe blank (omega (arith, length-blank)) probe_order.0
    ∙ length-blank

retail-is_stock : is_stock retail ≡ true
unfolding is_stock retail
retail-is_stock =
    reads_runs-write_runs reach stock_probe blank (omega (arith, length-blank)) probe_order.0
      probe_order.1

apply-apply_example :
    (out : List ℕ) × (apply retail ≡ ok out)
    × (is_patched out ≡ ok true)
    × (length out ≡ length retail)
    × (apply out ≡ ok out)
apply-apply_example = apply-apply retail (omega (arith, length-retail)) retail-is_stock

patched : (out : List ℕ) × (apply retail ≡ ok out)
patched = (let p = apply-apply retail (omega (arith, length-retail)) retail-is_stock in (p.0, p.1))

entry-IsClear : IsClear patch 0x8000 (0 ∷ 0 ∷ [])
unfolding patch hex
entry-IsClear = record { off_runs = ground arith; off_field = inr (omega arith) }

slice-apply_example : slice patched.0 0x8000 2 ≡ slice retail 0x8000 2
slice-apply_example =
    slice-apply retail patched.0 0x8000 (0 ∷ 0 ∷ []) (omega (arith, length-retail)) patched.1
      entry-IsClear

write_checksum_lem_example :
    (slice (write_checksum blank) checksum_field 4 ≡ spelled (checksum blank))
    × (low16 (sum (write_checksum blank)) ≡ checksum blank)
    × (write_checksum (write_checksum blank) ≡ write_checksum blank)
write_checksum_lem_example = write_checksum_lem blank (omega (arith, length-blank))
