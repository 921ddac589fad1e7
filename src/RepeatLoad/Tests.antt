-- ===== src/RepeatLoad/Tests.antt =====
-- The theorems of repeatload.py at a cartridge with a free filler.
use street_fighter_alpha_2_n.Base.{
  ℕ, ◌-◌, ◌≡◌, ◌∙◌, true, refl, List, [], ◌∷◌, length, replicate, length-replicate, slice,
  write_runs, length-write_runs, reads_runs, reads_runs-write_runs, reads_runs_at, Run, Chain,
  Apart, All, Ends, ok, arith,
}
use street_fighter_alpha_2_n.SpcFast.Stamped.{IsClear}
use street_fighter_alpha_2_n.RepeatLoad.{
  hook_file, replaced, filler_file, filler_end, filler_size, only, is_patched, apply,
}
use street_fighter_alpha_2_n.RepeatLoad.Apply.{reach, runs, apply_ready, is_patched-apply}

-- what the patch looks for
unfoldable before : List Run
before = (hook_file, replaced) ∷ (filler_file, replicate filler_size 0xFF) ∷ []

before_order : All (Ends reach) before × Chain Apart before
unfolding before
before_order = ground (arith, length-replicate {A = ℕ} filler_size 0xFF)

unfoldable blank : List ℕ
blank = replicate reach 0

length-blank : length blank ≡ reach
unfolding blank
length-blank = length-replicate reach 0

unfoldable retail : List ℕ
retail = write_runs before blank

length-retail : length retail ≡ reach
unfolding retail
length-retail =
    length-write_runs reach before blank (omega (arith, length-blank)) before_order.0 ∙ length-blank

reads-retail : reads_runs before retail ≡ true
unfolding retail
reads-retail =
    reads_runs-write_runs reach before blank (omega (arith, length-blank)) before_order.0
      before_order.1

hook-retail : slice retail hook_file (length replaced) ≡ replaced
unfolding before
hook-retail = reads_runs_at before retail 0 reads-retail refl

only-retail : only 0xFF (slice retail filler_file (filler_end - filler_file)) ≡ true
unfolding before replicate only
only-retail = rw (reads_runs_at before retail 1 reads-retail refl) refl

unfoldable patched : (out : List ℕ) × (apply retail ≡ ok out)
patched = apply_ready retail hook-retail only-retail

is_patched-apply_example :
    (is_patched patched.0 ≡ true)
    × (apply patched.0 ≡ ok patched.0)
    × (length patched.0 ≡ length retail)
    × ((at : ℕ) (stretch : List ℕ)
        → IsClear runs at stretch
        → slice patched.0 at (length stretch) ≡ slice retail at (length stretch))
is_patched-apply_example =
    is_patched-apply retail patched.0 (omega (arith, length-retail)) patched.1
