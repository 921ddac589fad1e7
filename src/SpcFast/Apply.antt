-- ===== src/SpcFast/Apply.antt =====
-- `apply` patches a retail cartridge once and for all, and touches nothing but its runs.
use street_fighter_alpha_2_n.Base.{
  ℕ, ◌+◌, ◌≤◌, ◌≡◌, inl, inr, ap, ◌∙◌, sym, refl, true, false, some, List, [], ◌∷◌, length,
  get_elem?, slice, All, All-map, Chain, Ends, Apart, ascending, ascending_lem, write_runs,
  reads_runs, reads_runs_at, hex, Result, ok, err, Bool-cases, arith,
}
use street_fighter_alpha_2_n.SpcFast.{
  Error, not_retail, patch, stock_probe, is_stock, is_patched, apply, write_checksum,
  checksum_field,
}
use street_fighter_alpha_2_n.SpcFast.Stamped.{
  IsOrdered, IsClear, reads_runs_stamped, length_stamped, slice_stamped,
}

-- the size up to which the patch writes
abbrev pub reach : ℕ
reach = 0x080000

patch_order :
    (0x070222 ≤ reach)
    × All (Ends reach) patch
    × All (λ r. 0x070222 ≤ r.0) patch
    × Chain Apart patch
patch_order = ascending_lem 0x070222 reach patch ordered
  where
    ordered : ascending 0x070222 reach patch ≡ true
    ordered = unfold ascending patch hex in refl

is_patched_lem : (rom : List ℕ) → is_patched rom ≡ ok (reads_runs patch rom)
unfolding is_patched
is_patched_lem rom = refl

-- A retail cartridge is not patched: they differ in the byte at $07046D.
not-patched : (rom : List ℕ) → is_stock rom ≡ true → reads_runs patch rom ≡ false
unfolding is_stock
not-patched rom h = elim (Bool-cases (reads_runs patch rom)) [
  | inl e ↦ absurd (
      clash (reads_runs_at stock_probe rom 1 h stock_there)
        (reads_runs_at patch rom 14 e patch_there))
  | inr e ↦ e
]
  where
    stock_there : get_elem? stock_probe 1 ≡ some (0x07046D, 0x01 ∷ [])
    stock_there = unfold stock_probe hex in refl

    patch_there : get_elem? patch 14 ≡ some (0x07046D, 0x03 ∷ [])
    patch_there = unfold patch hex in refl

    clash : slice rom 0x07046D 1 ≡ 0x01 ∷ [] → slice rom 0x07046D 1 ≡ 0x03 ∷ [] → ⊥
    clash a b = cc (a, b)

patch-IsOrdered : IsOrdered reach patch
patch-IsOrdered = record {
  ends = patch_order.1;
  above =
      All-map (λ r. 0x070222 ≤ r.0) (λ r. checksum_field + 4 ≤ r.0) patch (λ r low. omega arith)
        patch_order.2;
  apart = patch_order.3;
}

apply_patched : (rom : List ℕ) → reads_runs patch rom ≡ true → apply rom ≡ ok rom
unfolding apply
apply_patched rom h = rw h refl

apply_stock :
    (rom : List ℕ) → is_stock rom ≡ true → apply rom ≡ ok (write_checksum (write_runs patch rom))
unfolding apply
apply_stock rom h = rw (not-patched rom h, h) refl

apply_refused :
    (rom : List ℕ)
    → reads_runs patch rom ≡ false
    → is_stock rom ≡ false
    → apply rom ≡ err not_retail
unfolding apply
apply_refused rom unpatched unknown = rw (unpatched, unknown) refl

-- A retail cartridge of at least 512 KB is patched, and what comes out reads as patched, has the
-- same length, and comes out of a second `apply` as it went in.
pub apply-apply :
    (rom : List ℕ)
    → reach ≤ length rom
    → is_stock rom ≡ true
    → (out : List ℕ) × (apply rom ≡ ok out)
      × (is_patched out ≡ ok true)
      × (length out ≡ length rom)
      × (apply out ≡ ok out)
unfolding is_patched
apply-apply rom large stock = (
  write_checksum (write_runs patch rom),
  apply_stock rom stock,
  ap ok (reads_runs_stamped reach patch patch-IsOrdered rom large (omega (arith, large))),
  length_stamped reach patch patch-IsOrdered rom large (omega (arith, large)),
  apply_patched (write_checksum (write_runs patch rom))
      (reads_runs_stamped reach patch patch-IsOrdered rom large (omega (arith, large))),
)

-- What `apply` returns is the cartridge itself at every stretch that meets neither a run of the
-- patch nor the checksum field.
pub slice-apply :
    (rom out : List ℕ) (at : ℕ) (stretch : List ℕ)
    → reach ≤ length rom
    → apply rom ≡ ok out
    → IsClear patch at stretch
    → slice out at (length stretch) ≡ slice rom at (length stretch)
slice-apply rom out at stretch large h far = elim (Bool-cases (reads_runs patch rom)) [
  | inl patched ↦
      ap (λ d. slice d at (length stretch)) (same_ok (sym h ∙ apply_patched rom patched))
  | inr unpatched ↦ elim (Bool-cases (is_stock rom)) [
    | inl stock ↦
        ap (λ d. slice d at (length stretch)) (same_ok (sym h ∙ apply_stock rom stock))
        ∙ slice_stamped reach patch patch-IsOrdered rom large (omega (arith, large)) at stretch far
    | inr unknown ↦ absurd (no_result (sym h ∙ apply_refused rom unpatched unknown))
  ]
]
  where
    same_ok : {a b : List ℕ} → ◌≡◌ {A = Result Error (List ℕ)} (ok a) (ok b) → a ≡ b
    same_ok p = cc p

    no_result : {a : List ℕ} → ¬ (◌≡◌ {A = Result Error (List ℕ)} (ok a) (err not_retail))
    no_result p = cc p
