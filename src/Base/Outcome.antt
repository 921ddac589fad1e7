-- ===== src/Base/Outcome.antt =====
-- Calls that may raise: `E` is the type of what a module's functions raise.
use mathlib.Core.Path.{◌≡◌, refl, ap}
use mathlib.Core.Bool.{Bool, true, false}

pub data Result (E A : Type 0) : Type 0 where
  ok : A → Result E A
  err : E → Result E A

infixl 5 ◌>>=◌ ◌>>◌
abbrev pub ◌>>=◌ : {E A B : Type 0} → Result E A → (A → Result E B) → Result E B
◌>>=◌ r next = elim r [ ok value ↦ next value | err raised ↦ err raised ]

abbrev pub ◌>>◌ : {E B : Type 0} → Result E (Unit {0}) → Result E B → Result E B
◌>>◌ r next = elim r [ ok done ↦ next | err raised ↦ err raised ]

-- `if test: raise e`
abbrev pub refuse : {E : Type 0} → Bool → E → Result E (Unit {0})
refuse test e = elim test [ true ↦ err e | false ↦ ok tt ]

-- A chain that returns has first steps that return.
pub bind_ok :
    {E A B : Type 0} (r : Result E A) (next : A → Result E B) (b : B)
    → (r >>= next) ≡ ok b
    → (a : A) × (r ≡ ok a) × (next a ≡ ok b)
bind_ok (ok a) next b h = (a, refl, h)
bind_ok (err e) next b h = absurd (cc h)

pub then_ok :
    {E B : Type 0} (r : Result E (Unit {0})) (next : Result E B) (b : B)
    → (r >> next) ≡ ok b
    → (r ≡ ok tt) × (next ≡ ok b)
then_ok (ok tt) next b h = (refl, h)
then_ok (err e) next b h = absurd (cc h)

pub ok_injective : {E A : Type 0} (a b : A) → ◌≡◌ {A = Result E A} (ok a) (ok b) → a ≡ b
ok_injective a b h = ap (λ r. elim r [ ok value ↦ value | err e ↦ a ]) h
