-- ===== src/MapCheck/Tests.antt =====
-- The theorems of mapcheck.py for a table of two streams and a decoder of zeros.
use street_fighter_alpha_2_n.Base.{
  ◌≡◌, ◌↔◌, refl, some, List, [], ◌∷◌, All, Chain, replicate, length-replicate, ok, arith,
}
use street_fighter_alpha_2_n.Tables.Tests.{apart_allocated}
use street_fighter_alpha_2_n.Gate.{Entry, Decode, check, worst_scan, worst_of, key_of}
use street_fighter_alpha_2_n.Gate.Entries.{IsOther}
use street_fighter_alpha_2_n.Gate.Check.{IsQuick, check_iff}
use street_fighter_alpha_2_n.MapCheck.Verdict.{IsTaken, Passes, report_iff, report-check}

abbrev zeros : Decode
zeros rom source n = some (replicate n 0)

abbrev two : List Entry
two = (0x10, 4) ∷ (0x20, 6) ∷ []

two-IsQuick : IsQuick two
unfolding worst_scan worst_of key_of
two-IsQuick = (0, rw apart_allocated refl, omega arith)

two_checked : check zeros two [] (some []) ≡ ok []
two_checked = (check_iff zeros two [] (some [])).1 (
  (((λ e. omega (arith, e)), tt), (tt, tt)),
  ((replicate 4 0, refl, length-replicate 4 0), ((replicate 6 0, refl, length-replicate 6 0), tt)),
  tt,
  two-IsQuick,
)

report_iff_example :
    Passes zeros [] two ↔ (Chain IsOther two × All (IsTaken zeros []) two × IsQuick two)
report_iff_example = report_iff zeros [] two

report-check_example : Passes zeros [] two
report-check_example = report-check zeros [] two [] two_checked
