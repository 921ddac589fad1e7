-- ===== src/Shinakuma.antt =====
-- shinakuma.py: the branch past the gate in front of a hidden fighter.
mod Gated
mod Tests
use street_fighter_alpha_2_n.Base.{
  ℕ, ◌+◌, ◌-◌, Bool, true, false, Option, none, some, List, [], ◌∷◌, find, find_all, splice, Result,
  ok, err, ◌>>=◌, hex,
}
use street_fighter_alpha_2_n.SpcFast.{write_checksum}

unfoldable pub gate : List ℕ
unfolding hex
gate =
    hex
      "08c230ad051b1027ad091bc94b4af01faf04fe7ec94b41d016af05fe7ec9414ad00da5b0c96050d006a94b4a8d091b"

abbrev pub precondition : ℕ
precondition = 3

abbrev pub set_flag : ℕ
set_flag = 0x29

abbrev pub branch : List ℕ
branch = 0x80 ∷ (set_flag - (precondition + 2)) ∷ []

-- the `ValueError`s of several gates and of none
pub data Error : Type 0 where
  several_gates no_gate : Error

pub first_alone : List ℕ → Result Error (Option ℕ)
first_alone [] = ok none
first_alone (at ∷ []) = ok (some at)
first_alone (at ∷ other ∷ more) = err several_gates

unfoldable pub find_gate : List ℕ → Result Error (Option ℕ)
unfolding first_alone
find_gate rom = first_alone (find_all rom gate)

-- the gate with the branch
unfoldable pub probe : List ℕ
probe = splice gate precondition branch

pub is_there : Option ℕ → Bool
is_there none = false
is_there (some at) = true

unfoldable pub is_patched : List ℕ → Result Error Bool
unfolding is_there
is_patched rom = do
  at ← find_gate rom
  ok (elim at [ some site ↦ false | none ↦ is_there (find rom probe 0) ])

-- the branch, three bytes into the gate
unfoldable pub patched_at : Option ℕ → List ℕ → Result Error (List ℕ)
patched_at none rom = err no_gate
patched_at (some at) rom = ok (write_checksum (splice rom (at + precondition) branch))

unfoldable pub apply : List ℕ → Result Error (List ℕ)
unfolding patched_at
apply rom = do
  done ← is_patched rom
  elim done [ true ↦ ok rom | false ↦ (find_gate rom >>= λ at. patched_at at rom) ]
