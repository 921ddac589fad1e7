-- ===== src/Shinakuma/Gated.antt =====
-- What `apply` does, from where the gate stands.
use street_fighter_alpha_2_n.Base.{
  ℕ, ◌+◌, ◌≡◌, ◌≢◌, refl, ap, ◌∙◌, none, some, List, [], ◌∷◌, find, find_all_lem, find_first,
  occurrences, first_of, Places, nowhere, once, several, places, splice, Result, ok, err, hex,
}
use street_fighter_alpha_2_n.SpcFast.{write_checksum}
use street_fighter_alpha_2_n.Shinakuma.{
  Error, several_gates, no_gate, gate, probe, precondition, branch, first_alone, find_gate,
  is_patched, patched_at, apply,
}

-- what `apply` answers for the places of the gate, and of the patched gate where there is none
abbrev pub answer : List ℕ → Places → Places → Result Error (List ℕ)
answer rom several patched = err several_gates
answer rom (once at) patched = ok (write_checksum (splice rom (at + precondition) branch))
answer rom nowhere nowhere = err no_gate
answer rom nowhere (once at) = ok rom
answer rom nowhere several = ok rom

gate_there : gate ≢ []
unfolding gate hex
gate_there e = cc e

probe_there : probe ≢ []
unfolding probe gate hex splice
probe_there e = cc e

find_gate_lem : (rom : List ℕ) → find_gate rom ≡ first_alone (occurrences rom gate 0)
unfolding find_gate
find_gate_lem rom = ap first_alone (find_all_lem rom gate gate_there)

is_patched_lem :
    (rom : List ℕ) (patched : List ℕ)
    → find_gate rom ≡ ok none
    → occurrences rom probe 0 ≡ patched
    → apply rom ≡ answer rom nowhere (places patched)
unfolding apply is_patched patched_at
is_patched_lem rom [] g e =
    let nothing : find rom probe 0 ≡ none = find_first rom probe probe_there ∙ ap first_of e in
    rw (g, nothing) (rw (g, patched_at) refl)
is_patched_lem rom (a ∷ []) g e =
    let there : find rom probe 0 ≡ some a = find_first rom probe probe_there ∙ ap first_of e in
    rw (g, there) refl
is_patched_lem rom (a ∷ b ∷ more) g e =
    let there : find rom probe 0 ≡ some a = find_first rom probe probe_there ∙ ap first_of e in
    rw (g, there) refl

-- `apply` answers from where the gate and the patched gate stand: it puts the branch, three bytes
-- into the gate, where the gate stands at one place, and stamps; raises where it stands at several;
-- and where it stands nowhere returns the cartridge if the patched gate stands somewhere, and raises
-- if not.
pub apply-gate :
    (rom : List ℕ)
    → apply rom ≡ answer rom (places (occurrences rom gate 0)) (places (occurrences rom probe 0))
unfolding first_alone apply is_patched patched_at
apply-gate rom = of_gates (occurrences rom gate 0) refl
  where
    of_gates :
        (found : List ℕ)
        → occurrences rom gate 0 ≡ found
        → apply rom ≡ answer rom (places found) (places (occurrences rom probe 0))
    of_gates [] e =
        is_patched_lem rom (occurrences rom probe 0) (find_gate_lem rom ∙ ap first_alone e) refl
    of_gates (a ∷ []) e =
        let g : find_gate rom ≡ ok (some a) = find_gate_lem rom ∙ ap first_alone e in
        rw g (rw g refl)
    of_gates (a ∷ b ∷ more) e =
        let g : find_gate rom ≡ err several_gates = find_gate_lem rom ∙ ap first_alone e in
        rw g refl
