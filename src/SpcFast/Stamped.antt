-- ===== src/SpcFast/Stamped.antt =====
-- A cartridge that is patched at runs above the checksum field and then stamped. All patches of the
-- repository end like this.
use street_fighter_alpha_2_n.Base.{
  ℕ, ◌+◌, ◌≤◌, ◌≡◌, ◌⊎◌, inl, inr, ◌∙◌, true, List, length, slice, length-splice, All, All-map,
  Chain, Run, Ends, Apart, write_runs, reads_runs, length-write_runs, reads_runs-write_runs,
  reads_runs-splice, slice-write_runs, slice-splice_apart, arith,
}
use street_fighter_alpha_2_n.SpcFast.{write_checksum, checksum, stamp, checksum_field}
use street_fighter_alpha_2_n.SpcFast.Checksum.{stamp_fits, length-stamp}

-- Runs that end below `n`, lie above the checksum field, and share no byte.
pub record IsOrdered (n : ℕ) (runs : List Run) : Type 0 where
  pub ends : All (Ends n) runs
  pub above : All (λ r. checksum_field + 4 ≤ r.0) runs
  pub apart : Chain Apart runs

-- a stretch that the runs and the stamp leave alone
pub record IsClear (runs : List Run) (at : ℕ) (stretch : List ℕ) : Type 0 where
  pub off_runs : All (Apart (at, stretch)) runs
  pub off_field : (at + length stretch ≤ checksum_field) ⊎ (checksum_field + 4 ≤ at)

module _ (n : ℕ) (runs : List Run) (ordered : IsOrdered n runs) (rom : List ℕ)
    (large : n ≤ length rom) (reaches : checksum_field + 4 ≤ length rom) where
  written : List ℕ
  written = write_runs runs rom

  length-written : length written ≡ length rom
  unfolding written
  length-written = length-write_runs n runs rom large ordered.ends

  stamped_fits : checksum_field + length (stamp (checksum written)) ≤ length written
  stamped_fits = stamp_fits written (checksum written) (omega (arith, length-written))

  field-Apart : All (Apart (checksum_field, stamp (checksum written))) runs
  field-Apart =
      All-map (λ r. checksum_field + 4 ≤ r.0) (Apart (checksum_field, stamp (checksum written)))
        runs (λ r low. inl (omega (arith, length-stamp (checksum written)))) ordered.above

  pub reads_runs_stamped : reads_runs runs (write_checksum (write_runs runs rom)) ≡ true
  unfolding write_checksum written
  reads_runs_stamped =
      reads_runs-splice runs written checksum_field (stamp (checksum written)) stamped_fits
        field-Apart
      ∙ reads_runs-write_runs n runs rom large ordered.ends ordered.apart

  pub length_stamped : length (write_checksum (write_runs runs rom)) ≡ length rom
  unfolding write_checksum written
  length_stamped =
      length-splice written checksum_field (stamp (checksum written)) stamped_fits ∙ length-written

  pub slice_stamped :
      (at : ℕ) (stretch : List ℕ)
      → IsClear runs at stretch
      → slice (write_checksum (write_runs runs rom)) at (length stretch)
        ≡ slice rom at (length stretch)
  unfolding write_checksum written
  slice_stamped at stretch far =
      slice-splice_apart written checksum_field (stamp (checksum written)) at (length stretch)
        stamped_fits (off far.off_field)
      ∙ slice-write_runs n runs rom at stretch large ordered.ends far.off_runs
    where
      off :
          (at + length stretch ≤ checksum_field) ⊎ (checksum_field + 4 ≤ at)
          → (checksum_field + length (stamp (checksum written)) ≤ at)
            ⊎ (at + length stretch ≤ checksum_field)
      off = elim [ inl x ↦ inr x | inr x ↦ inl (omega (arith, length-stamp (checksum written))) ]
