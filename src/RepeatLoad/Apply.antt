-- ===== src/RepeatLoad/Apply.antt =====
-- `apply` of repeatload.py makes a cartridge that it takes for patched, or leaves it.
use street_fighter_alpha_2_n.Base.{
  ℕ, ◌-◌, ◌≤◌, subst, ◌≡◌, inl, inr, ◌∙◌, sym, refl, true, List, [], ◌∷◌, length, slice, splice,
  same, Run, write_runs, reads_runs, hex, Result, ok, err, Bool-cases, arith,
}
use street_fighter_alpha_2_n.SpcFast.{write_checksum}
use street_fighter_alpha_2_n.SpcFast.Stamped.{
  IsOrdered, IsClear, reads_runs_stamped, length_stamped, slice_stamped,
}
use street_fighter_alpha_2_n.RepeatLoad.{
  Error, hook_file, hook, filler_file, filler_end, replaced, routine, only, is_patched, apply,
}

-- the size up to which the patch writes
abbrev pub reach : ℕ
reach = 0x080000

-- what the patch writes
unfoldable pub runs : List Run
runs = (filler_file, routine) ∷ (hook_file, hook) ∷ []

runs-IsOrdered : IsOrdered reach runs
unfolding runs routine hex
runs-IsOrdered = record { ends = ground arith; above = ground arith; apart = ground arith }

reads_runs-is_patched : (rom : List ℕ) → is_patched rom ≡ reads_runs runs rom
unfolding is_patched runs reads_runs
reads_runs-is_patched rom = ground arith

-- what a cartridge became
abbrev IsPatch : List ℕ → List ℕ → Type 0
IsPatch rom out =
    (is_patched out ≡ true)
    × (length out ≡ length rom)
    × ((at : ℕ) (stretch : List ℕ)
        → IsClear runs at stretch
        → slice out at (length stretch) ≡ slice rom at (length stretch))

abbrev IsPatched : List ℕ → Result Error (List ℕ) → Type 0
IsPatched rom (err e) = Unit
IsPatched rom (ok out) = IsPatch rom out

stamped-IsPatch :
    (rom : List ℕ) → reach ≤ length rom → IsPatch rom (write_checksum (write_runs runs rom))
stamped-IsPatch rom large = (
  reads_runs-is_patched (write_checksum (write_runs runs rom))
      ∙ reads_runs_stamped reach runs runs-IsOrdered rom large (omega (arith, large)),
  length_stamped reach runs runs-IsOrdered rom large (omega (arith, large)),
  slice_stamped reach runs runs-IsOrdered rom large (omega (arith, large)),
)

write_runs_lem :
    (rom : List ℕ) → write_runs runs rom ≡ splice (splice rom filler_file routine) hook_file hook
unfolding write_runs runs
write_runs_lem rom = refl

apply-IsPatched : (rom : List ℕ) → reach ≤ length rom → IsPatched rom (apply rom)
unfolding apply
apply-IsPatched rom large = elim (Bool-cases (is_patched rom)) [
  | inl p ↦ rw p (p, refl, λ at stretch far. refl)
  | inr p ↦ elim (Bool-cases (same (slice rom hook_file (length replaced)) replaced)) [
    | inr a ↦ rw (p, a) tt
    | inl a ↦ elim (Bool-cases (only 0xFF (slice rom filler_file (filler_end - filler_file)))) [
      | inr f ↦ rw (p, a, f) tt
      | inl f ↦ rw (p, a, f, sym (write_runs_lem rom)) (stamped-IsPatch rom large)
    ]
  ]
]

-- For a cartridge that holds what the patch replaces and whose filler is free, `apply` returns a
-- cartridge.
pub apply_ready :
    (rom : List ℕ)
    → slice rom hook_file (length replaced) ≡ replaced
    → only 0xFF (slice rom filler_file (filler_end - filler_file)) ≡ true
    → (out : List ℕ) × (apply rom ≡ ok out)
unfolding apply
apply_ready rom a f = elim (Bool-cases (is_patched rom)) [
  | inl p ↦ (rom, rw p refl)
  | inr p ↦
      (write_checksum (splice (splice rom filler_file routine) hook_file hook), rw (p, a, f) refl)
]

apply_patched : (rom : List ℕ) → is_patched rom ≡ true → apply rom ≡ ok rom
unfolding apply
apply_patched rom p = rw p refl

-- What `apply` of repeatload.py returns for a cartridge of at least 512 KB reads as patched, comes
-- out of a second `apply` as it went in, has the same length, and is the cartridge itself at every
-- stretch that meets neither the routine, the hook nor the checksum field.
pub is_patched-apply :
    (rom out : List ℕ)
    → reach ≤ length rom
    → apply rom ≡ ok out
    → (is_patched out ≡ true)
      × (apply out ≡ ok out)
      × (length out ≡ length rom)
      × ((at : ℕ) (stretch : List ℕ)
          → IsClear runs at stretch
          → slice out at (length stretch) ≡ slice rom at (length stretch))
is_patched-apply rom out large h =
    let (p, sized, clear) = subst (IsPatched rom) h (apply-IsPatched rom large) in
    (p, apply_patched out p, sized, clear)
