-- ===== src/Base/Dicts.antt =====
-- Python's `dict` with numbers for keys, where the code never iterates over it.
use Prim.Native.Nat.{ℕ}
use mathlib.Core.Option.{Option, none, some}
use mathlib.Core.Path.{◌≡◌, refl, sym, ap, ◌∙◌, fun_ext}
use mathlib.Core.Logic.{◌≢◌, inl, inr}
use street_fighter_alpha_2_n.Base.Tests.{◌==◌, if◌then◌else◌, ==_refl, ==_ne, ==_iff, Bool-cases}

abbrev pub Dict : Type 0 → Type 0
Dict A = ℕ → Option A

module _ {A : Type 0} where
  abbrev pub empty : Dict A
  empty k = none

  -- d[k] = v
  abbrev pub put : Dict A → ℕ → A → Dict A
  put d k v j = if k == j then some v else d j

  -- del d[k], where the key is there
  abbrev pub del : Dict A → ℕ → Dict A
  del d k j = if k == j then none else d j

  pub put_self : (d : Dict A) (k : ℕ) (v : A) → put d k v k ≡ some v
  put_self d k v = rw ==_refl

  pub put_ne : (d : Dict A) (k j : ℕ) (v : A) → k ≢ j → put d k v j ≡ d j
  put_ne d k j v h = rw (==_ne k j h)

  -- Writing back what was there changes nothing, also after a `del`.
  pub put-del : (d : Dict A) (k : ℕ) (v : A) → d k ≡ some v → put (del d k) k v ≡ d
  put-del d k v h = fun_ext λ j. elim (Bool-cases (k == j)) [
    | inl e ↦ rw e (sym h ∙ ap d ((==_iff k j).0 e))
    | inr ne ↦ rw ne refl
  ]
