-- ===== src/Prefight/Redirected.antt =====
-- What `apply` of prefight.py does, from where the builder stands and from where it is called.
use street_fighter_alpha_2_n.Base.{
  ℕ, ◌+◌, ◌-◌, ◌≡◌, ◌≢◌, refl, ap, map, write_runs, ◌∙◌, Bool, true, false, Option, none, some,
  List, [], ◌∷◌, length, find_all_lem, find_first, find_second, occurrences, Places, nowhere, once,
  several, places, same, splice, slice, low16, high, join, Result, ok, err, ◌>>=◌, hex, arith,
}
use street_fighter_alpha_2_n.RepeatLoad.{only}
use street_fighter_alpha_2_n.Prefight.{
  Error, several_builders, no_builder, never_called, filler_taken, builder_signature, filler_file,
  filler_end, window_first_bank, routine, call_to, callers_of, is_empty, find_builder, find_callers,
  is_patched, redirect, redirected, apply,
}

-- where a builder at an offset is called
abbrev pub calls : List ℕ → ℕ → List ℕ
calls rom at = occurrences rom (call_to (join (window_first_bank + high at) (low16 at))) 0

-- `JSL $C7F593`, where the routine stands in the window
abbrev pub routine_call : List ℕ
routine_call = 0x22 ∷ 0x93 ∷ 0xF5 ∷ 0xC7 ∷ []

-- the routine's call, at an offset
abbrev pub called_at : ℕ → ℕ × List ℕ
called_at site = (site, routine_call)

-- the answer for a builder at one place, by its calls
abbrev pub answer_once : List ℕ → List ℕ → Bool → Bool → Result Error (List ℕ)
answer_once rom [] true is_free = ok rom
answer_once rom [] false is_free = err never_called
answer_once rom (site ∷ sites) has_routine true =
    ok (write_runs ((filler_file, routine) ∷ map called_at (site ∷ sites)) rom)
answer_once rom (site ∷ sites) has_routine false = err filler_taken

-- the answer by the builder's places
abbrev pub answer : List ℕ → Places → Bool → Bool → Result Error (List ℕ)
answer rom nowhere true is_free = ok rom
answer rom nowhere false is_free = err no_builder
answer rom several has_routine is_free = err several_builders
answer rom (once at) has_routine is_free = answer_once rom (calls rom at) has_routine is_free

abbrev located : Places → Result Error (Option ℕ)
located nowhere = ok none
located (once at) = ok (some at)
located several = err several_builders

signature_there : builder_signature ≢ []
unfolding builder_signature hex
signature_there e = cc e

call_there : (address : ℕ) → call_to address ≢ []
unfolding call_to
call_there address e = cc e

find_builder_lem :
    (rom : List ℕ) → find_builder rom ≡ located (places (occurrences rom builder_signature 0))
unfolding find_builder
find_builder_lem rom = of_occurrences (occurrences rom builder_signature 0) refl
  where
    of_occurrences :
        (found : List ℕ)
        → occurrences rom builder_signature 0 ≡ found
        → find_builder rom ≡ located (places found)
    of_occurrences [] e = ground (arith, find_first rom builder_signature signature_there, e)
    of_occurrences (a ∷ []) e = ground (
      arith,
      find_first rom builder_signature signature_there,
      e,
      find_second rom builder_signature a [] signature_there e,
    )
    of_occurrences (a ∷ b ∷ more) e = ground (
      arith,
      find_first rom builder_signature signature_there,
      e,
      find_second rom builder_signature a (b ∷ more) signature_there e,
    )

callers_of_lem : (rom : List ℕ) (at : ℕ) → callers_of rom at ≡ calls rom at
unfolding callers_of
callers_of_lem rom at =
    find_all_lem rom (call_to (join (window_first_bank + high at) (low16 at)))
      (call_there (join (window_first_bank + high at) (low16 at)))

is_patched_without :
    (rom : List ℕ)
    → same (slice rom filler_file (length routine)) routine ≡ false
    → is_patched rom ≡ ok false
unfolding is_patched
is_patched_without rom r = rw (is_patched, r) refl

is_patched_with :
    (rom : List ℕ)
    → same (slice rom filler_file (length routine)) routine ≡ true
    → is_patched rom ≡ (find_callers rom >>= λ callers. ok (is_empty callers))
unfolding is_patched
is_patched_with rom r = rw (is_patched, r) refl

find_callers-once :
    (rom : List ℕ) (at : ℕ)
    → find_builder rom ≡ ok (some at)
    → find_callers rom ≡ ok (callers_of rom at)
unfolding find_callers
find_callers-once rom at g = rw g refl

redirect_lem : (sites rom : List ℕ) → redirect sites rom ≡ write_runs (map called_at sites) rom
unfolding redirect write_runs call_to
redirect_lem [] rom = refl
redirect_lem (site ∷ sites) rom = redirect_lem sites (splice rom site routine_call)

module _ (rom : List ℕ) (at : ℕ) (g : find_builder rom ≡ ok (some at)) where
  redirected_lem :
      (sites : List ℕ) (is_free : Bool)
      → callers_of rom at ≡ sites
      → only 0xFF (slice rom filler_file (filler_end - filler_file)) ≡ is_free
      → redirected (some at) rom ≡ answer_once rom sites false is_free
  unfolding redirected is_empty write_runs
  redirected_lem [] is_free c f = rw (redirected, c) refl
  redirected_lem (s ∷ sites) true c f =
      rw (redirected, c, f)
        (ap (λ out. ok out) (redirect_lem (s ∷ sites) (splice rom filler_file routine)))
  redirected_lem (s ∷ sites) false c f = rw (redirected, c, f) refl

  unpatched : is_patched rom ≡ ok false → apply rom ≡ redirected (some at) rom
  unfolding apply
  unpatched p = rw (p, g) refl

  patched : is_patched rom ≡ ok true → apply rom ≡ ok rom
  unfolding apply
  patched p = rw p refl

  apply-once :
      (sites : List ℕ) (has_routine is_free : Bool)
      → callers_of rom at ≡ sites
      → same (slice rom filler_file (length routine)) routine ≡ has_routine
      → only 0xFF (slice rom filler_file (filler_end - filler_file)) ≡ is_free
      → apply rom ≡ answer_once rom sites has_routine is_free
  unfolding is_empty
  apply-once sites false is_free c r f =
      unpatched (is_patched_without rom r) ∙ redirected_lem sites is_free c f
  apply-once [] true is_free c r f =
      patched (is_patched_with rom r ∙ rw (find_callers-once rom at g, c) refl)
  apply-once (s ∷ sites) true true c r f =
      unpatched (is_patched_with rom r ∙ rw (find_callers-once rom at g, c) refl)
      ∙ redirected_lem (s ∷ sites) true c f
  apply-once (s ∷ sites) true false c r f =
      unpatched (is_patched_with rom r ∙ rw (find_callers-once rom at g, c) refl)
      ∙ redirected_lem (s ∷ sites) false c f

without_builder :
    (rom : List ℕ) (has_routine : Bool)
    → find_builder rom ≡ ok none
    → same (slice rom filler_file (length routine)) routine ≡ has_routine
    → (is_free : Bool) → apply rom ≡ answer rom nowhere has_routine is_free
unfolding apply is_empty redirected find_callers
without_builder rom true g r is_free =
    let p : is_patched rom ≡ ok true = is_patched_with rom r ∙ rw (find_callers, g) refl in
    rw p refl
without_builder rom false g r is_free = rw (is_patched_without rom r, g) refl

with_several :
    (rom : List ℕ) (has_routine : Bool)
    → find_builder rom ≡ err several_builders
    → same (slice rom filler_file (length routine)) routine ≡ has_routine
    → apply rom ≡ err several_builders
unfolding apply find_callers
with_several rom true g r =
    let p : is_patched rom ≡ err several_builders =
      is_patched_with rom r ∙ rw (find_callers, g) refl in
    rw p refl
with_several rom false g r = rw (is_patched_without rom r, g) refl

-- `apply` answers from where the builder stands, where it is called, whether the routine is there and
-- whether the filler is free: it raises if the builder stands at several places; a cartridge with the
-- routine and no call comes back; without the routine it raises where there is no builder or no call;
-- with a call it raises if the filler is taken, and else writes the routine and, in order at every
-- offset of a call, the four bytes that call the routine.
pub apply-find_builder :
    (rom : List ℕ)
    → apply rom
      ≡ answer rom
          (places (occurrences rom builder_signature 0))
          (same (slice rom filler_file (length routine)) routine)
          (only 0xFF (slice rom filler_file (filler_end - filler_file)))
apply-find_builder rom =
    of_places (places (occurrences rom builder_signature 0)) (find_builder_lem rom)
  where
    of_places :
        (p : Places)
        → find_builder rom ≡ located p
        → apply rom
          ≡ answer rom p
              (same (slice rom filler_file (length routine)) routine)
              (only 0xFF (slice rom filler_file (filler_end - filler_file)))
    of_places nowhere g =
        without_builder rom _ g refl (only 0xFF (slice rom filler_file (filler_end - filler_file)))
    of_places (once at) g = apply-once rom at g (calls rom at) _ _ (callers_of_lem rom at) refl refl
    of_places several g = with_several rom _ g refl
