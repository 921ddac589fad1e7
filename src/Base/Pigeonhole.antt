-- ===== src/Base/Pigeonhole.antt =====
-- A map of `m` numbers below `n` that takes no value twice has `m ≤ n`.
use Prim.Native.Nat.{ℕ, zero, suc, ◌-◌, ◌≤◌, ◌<◌}
use mathlib.Core.Path.{◌≡◌}
use native.Mathlib.Omega.{arith}
use street_fighter_alpha_2_n.Base.Tests.{ltb, if◌then◌else◌}

-- close the gap that the value `c` leaves
abbrev skip : ℕ → ℕ → ℕ
skip c k = if ltb c k then k - 1 else k

pub pigeonhole :
    (m n : ℕ) (f : ℕ → ℕ)
    → ((i : ℕ) → i < m → f i < n)
    → ((i j : ℕ) → i < m → j < m → f i ≡ f j → i ≡ j)
    → m ≤ n
pigeonhole zero n f below distinct = omega arith
pigeonhole (suc m) n f below distinct = omega (
  arith,
  below m (omega arith),
  pigeonhole m (n - 1) (λ i. skip (f m) (f i))
      (λ i h. ground (arith, below i, below m, distinct i m))
      (λ i j hi hj e. ground (arith, distinct i m, distinct j m, distinct i j)),
)
