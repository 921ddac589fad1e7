-- ===== src/GameFixes.antt =====
-- gamefixes.py: corrections of the game's own faults, each a run of bytes that is replaced by
-- another, and calls of routines that do nothing, which become returns. The dict of states has the
-- names of FIXES and EMPTY_CALLS, which differ, in their order: here it is a list.
pub mod Sites
mod Located
mod Retired
mod Applied
mod Tests
use street_fighter_alpha_2_n.Base.{
  ℕ, zero, suc, ◌+◌, ◌-◌, ◌/◌, ◌%◌, Bool, true, false, not, ◌&&◌, Option, none, some, List, [], ◌∷◌,
  length, get_elem?, set, find, find_all, splice, leb, ◌==◌, holds, if◌then◌else◌, low16, high,
  join, Result, ok, err, ◌>>=◌, ◌>>◌, refuse,
}
use street_fighter_alpha_2_n.SpcFast.{write_checksum}
use street_fighter_alpha_2_n.GameFixes.Sites.{Fix, fixes, empty_calls}

abbrev pub jsl : ℕ
jsl = 0x22

abbrev pub rts : ℕ
rts = 0x60

abbrev pub rtl : ℕ
rtl = 0x6B

abbrev pub window_first_bank : ℕ
window_first_bank = 0xC0

pub data State : Type 0 where
  applied already absent : State

-- the `ValueError`s, and the errors of a state that is missing and of runs of two lengths
pub data Error : Type 0 where
  appears_twice not_bare no_sites run_is_gone missing_state uneven : Error

-- for an address in the window
pub long_to_file : ℕ → ℕ
long_to_file address = join (high address % 0x100 - window_first_bank) (low16 address)

unfoldable pub call_run : ℕ → List ℕ
call_run target =
    jsl ∷ target % 0x100 ∷ target / 0x100 % 0x100 ∷ target / 0x10000 % 0x100 ∷ rts ∷ []

-- `call_run(target)[1:]` after an `rts`
unfoldable pub retired_run : ℕ → List ℕ
retired_run target =
    rts ∷ target % 0x100 ∷ target / 0x100 % 0x100 ∷ target / 0x10000 % 0x100 ∷ rts ∷ []

pub is_empty : List ℕ → Bool
is_empty [] = true
is_empty (x ∷ xs) = false

unfoldable pub empty_call_sites : List ℕ → ℕ → Result Error (List ℕ)
unfolding is_empty
empty_call_sites rom target =
    let found = find_all rom (call_run target) in
    if is_empty found
    then ok found
    else (refuse (not (holds (get_elem? rom (long_to_file target)) rtl)) not_bare >> ok found)

unfoldable pub retired_sites : List ℕ → ℕ → List ℕ
retired_sites rom target = find_all rom (retired_run target)

unfoldable pub locate : List ℕ → List ℕ → Result Error (Option ℕ)
locate rom run = elim (find rom run 0) [
  | none ↦ ok none
  | some first ↦ elim (find rom run (suc first)) [
    | none ↦ ok (some first)
    | some second ↦ err appears_twice
  ]
]

-- the state of one entry, of the kind that can be applied, or of the kind that already is
pub state_from : Bool → Bool → State
state_from stock patched = if stock then applied else if patched then already else absent

pub is_there : Option ℕ → Bool
is_there none = false
is_there (some at) = true

-- The patched run is only looked for where the stock run is absent.
unfoldable pub fix_state : List ℕ → Fix → Result Error State
unfolding is_there
fix_state rom fix = do
  stock ← locate rom fix.stock
  elim stock [
    | some at ↦ ok applied
    | none ↦ (do patched ← locate rom fix.patched; ok (state_from false (is_there patched)))
  ]

unfoldable pub call_state : List ℕ → ℕ → Result Error State
unfolding is_empty state_from
call_state rom target = do
  sites ← empty_call_sites rom target
  ok (state_from (not (is_empty sites)) (not (is_empty (retired_sites rom target))))

unfoldable pub survey_calls : List ℕ → List ℕ → Result Error (List State)
survey_calls rom [] = ok []
survey_calls rom (target ∷ calls) = do
  state ← call_state rom target
  states ← survey_calls rom calls
  ok (state ∷ states)

unfoldable pub survey_from : List ℕ → List Fix → Result Error (List State)
survey_from rom [] = survey_calls rom empty_calls
survey_from rom (fix ∷ more) = do
  state ← fix_state rom fix
  states ← survey_from rom more
  ok (state ∷ states)

unfoldable pub survey : List ℕ → Result Error (List State)
survey rom = survey_from rom fixes

-- how many bytes differ
unfoldable pub differing : List ℕ → List ℕ → Result Error ℕ
differing [] [] = ok 0
differing [] (y ∷ ys) = err uneven
differing (x ∷ xs) [] = err uneven
differing (x ∷ xs) (y ∷ ys) = do n ← differing xs ys; ok (if x == y then n else suc n)

unfoldable pub changed_calls : List ℕ → List ℕ → Result Error ℕ
changed_calls rom [] = ok 0
changed_calls rom (target ∷ calls) = do
  sites ← empty_call_sites rom target
  total ← changed_calls rom calls
  ok (length sites + total)

unfoldable pub changed_from : List ℕ → List Fix → Result Error ℕ
unfolding is_there
changed_from rom [] = changed_calls rom empty_calls
changed_from rom (fix ∷ more) = do
  stock ← locate rom fix.stock
  n ← elim (is_there stock) [ true ↦ differing fix.stock fix.patched | false ↦ ok 0 ]
  total ← changed_from rom more
  ok (n + total)

unfoldable pub changed_bytes : List ℕ → Result Error ℕ
changed_bytes rom = changed_from rom fixes

pub is_applied : State → Bool
is_applied applied = true
is_applied already = false
is_applied absent = false

pub is_absent : State → Bool
is_absent applied = false
is_absent already = false
is_absent absent = true

pub all_states : (State → Bool) → List State → Bool
all_states test [] = true
all_states test (state ∷ states) = test state && all_states test states

-- the loop over FIXES; a patched run is as long as its stock run
unfoldable pub patch_fixes : List Fix → List State → List ℕ → Result Error (List ℕ)
unfolding is_applied
patch_fixes [] found rom = ok rom
patch_fixes (fix ∷ more) [] rom = err missing_state
patch_fixes (fix ∷ more) (state ∷ found) rom = elim (is_applied state) [
  | false ↦ patch_fixes more found rom
  | true ↦ (do
    at ← locate rom fix.stock
    elim at [
      | none ↦ err run_is_gone
      | some first ↦ patch_fixes more found (splice rom first fix.patched)
    ])
]

unfoldable pub retire : List ℕ → List ℕ → List ℕ
retire [] rom = rom
retire (at ∷ sites) rom = retire sites (set rom at rts)

-- the loop over EMPTY_CALLS
unfoldable pub retire_calls : List ℕ → List ℕ → Result Error (List ℕ)
retire_calls [] rom = ok rom
retire_calls (target ∷ calls) rom = do
  sites ← empty_call_sites rom target
  retire_calls calls (retire sites rom)

unfoldable pub apply_found : List ℕ → List State → Result Error (List ℕ)
unfolding all_states is_absent is_applied
apply_found rom found =
    if all_states is_absent found
    then err no_sites
    else if all_states (λ state. not (is_applied state)) found
    then ok rom
    else (do
      patched ← patch_fixes fixes found rom
      retired ← retire_calls empty_calls patched
      ok (write_checksum retired))

unfoldable pub apply : List ℕ → Result Error (List ℕ)
apply rom = do found ← survey rom; apply_found rom found
