-- ===== src/GameFixes/Located.antt =====
-- `locate` finds the one place of a run.
use street_fighter_alpha_2_n.Base.{
  ℕ, ◌≡◌, ◌≢◌, refl, Option, none, some, List, [], ◌∷◌, occurrences, find_first, find_second,
  Places, nowhere, once, several, places, Result, ok, err, arith,
}
use street_fighter_alpha_2_n.GameFixes.{Error, appears_twice, locate}

-- what `locate` answers, from where the run stands
abbrev pub located : Places → Result Error (Option ℕ)
located nowhere = ok none
located (once at) = ok (some at)
located several = err appears_twice

-- For a run that is not empty, `locate` returns its offset if it stands at one place, nothing if it
-- stands nowhere, and raises if it stands at several.
pub locate_lem :
    (rom run : List ℕ) → run ≢ [] → locate rom run ≡ located (places (occurrences rom run 0))
unfolding locate
locate_lem rom run ne = of_occurrences (occurrences rom run 0) refl
  where
    of_occurrences :
        (found : List ℕ) → occurrences rom run 0 ≡ found → locate rom run ≡ located (places found)
    of_occurrences [] e = ground (arith, find_first rom run ne, e)
    of_occurrences (a ∷ []) e =
        ground (arith, find_first rom run ne, e, find_second rom run a [] ne e)
    of_occurrences (a ∷ b ∷ more) e =
        ground (arith, find_first rom run ne, e, find_second rom run a (b ∷ more) ne e)

-- A run that `locate` returns an offset for stands there and nowhere else.
pub once_located :
    (rom run : List ℕ) (at : ℕ)
    → run ≢ []
    → locate rom run ≡ ok (some at)
    → occurrences rom run 0 ≡ at ∷ []
once_located rom run at ne h = of_occurrences (occurrences rom run 0) refl
  where
    of_occurrences :
        (found : List ℕ) → occurrences rom run 0 ≡ found → occurrences rom run 0 ≡ at ∷ []
    of_occurrences [] e = absurd (cc (locate_lem rom run ne, e, h))
    of_occurrences (a ∷ []) e = cc (locate_lem rom run ne, e, h)
    of_occurrences (a ∷ b ∷ more) e = absurd (cc (locate_lem rom run ne, e, h))
