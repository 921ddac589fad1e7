-- ===== src/Base/Words.antt =====
-- Addresses: sixteen bits of offset under a bank number.
use Prim.Native.Nat.{
  ℕ, zero, suc, ◌+◌, ◌-◌, ◌*◌, ◌/◌, ◌%◌, ◌^◌, ◌≤◌, ◌<◌, max, bit_or, digits, bit_or-bitwise,
  bit_xor, bit_xor-bitwise, differ,
}
use mathlib.Core.Path.{◌≡◌, refl, sym, ap, ◌∙◌}
use native.Mathlib.Nat.{pow-suc}
use native.Mathlib.Omega.{arith}

-- `x & 0xFFFF`
abbrev pub low16 : ℕ → ℕ
low16 x = x % 0x10000

-- `x >> 16`
abbrev pub high : ℕ → ℕ
high x = x / 0x10000

-- `(bank << 16) | offset`
unfoldable pub join : ℕ → ℕ → ℕ
join bank offset = bit_or (bank * 0x10000) offset

-- More rounds than the first operand needs change nothing, whatever is done to the digits.
module _ (alone : ℕ → ℕ) (digit : ℕ → ℕ → ℕ) where
  digits_rounds :
      (r t x y : ℕ) → x ≤ r → x ≤ t → digits alone digit r x y ≡ digits alone digit t x y
  digits_rounds zero zero x y p q = refl
  digits_rounds zero (suc t) zero y p q = refl
  digits_rounds (suc r) zero zero y p q = refl
  digits_rounds (suc r) (suc t) zero y p q = refl
  digits_rounds zero t (suc x) y p q = absurd (omega arith)
  digits_rounds (suc r) zero (suc x) y p q = absurd (omega arith)
  digits_rounds (suc r) (suc t) (suc x) y p q =
      ap (λ higher. higher * 2 + digit (suc x % 2) (y % 2))
        (digits_rounds r t (suc x / 2) (y / 2) (omega arith) (omega arith))

  -- the lowest digit, apart from the others
  digits-suc :
      (x y : ℕ)
      → digits alone digit (suc x) (suc x) y
        ≡ digits alone digit (suc x / 2) (suc x / 2) (y / 2) * 2 + digit (suc x % 2) (y % 2)
  digits-suc x y =
      ap (λ higher. higher * 2 + digit (suc x % 2) (y % 2))
        (digits_rounds x (suc x / 2) (suc x / 2) (y / 2) (omega arith) (omega arith))

zero-bit_or : (b : ℕ) → bit_or 0 b ≡ b
zero-bit_or b = bit_or-bitwise 0 b

bit_or_step : (a b : ℕ) → bit_or a b ≡ bit_or (a / 2) (b / 2) * 2 + max (a % 2) (b % 2)
bit_or_step zero b = omega (arith, zero-bit_or b, zero-bit_or (b / 2))
bit_or_step (suc a) b =
    bit_or-bitwise (suc a) b
    ∙ digits-suc (λ b. b) max a b
    ∙ ap (λ t. t * 2 + max (suc a % 2) (b % 2)) (sym (bit_or-bitwise (suc a / 2) (b / 2)))

bit_or-zero_fuel : (n a : ℕ) → a ≤ n → bit_or a 0 ≡ a
bit_or-zero_fuel n zero h = refl
bit_or-zero_fuel zero (suc a) h = absurd (omega arith)
bit_or-zero_fuel (suc n) (suc a) h =
    omega (arith, bit_or_step (suc a) 0, bit_or-zero_fuel n (suc a / 2) (omega arith))

bit_or_double : (p y : ℕ) → bit_or p (y / 2) ≡ p + y / 2 → bit_or (p * 2) y ≡ p * 2 + y
bit_or_double p y h = omega (arith, bit_or_step (p * 2) y, ap (λ z. bit_or z (y / 2)) half, h)
  where
    half : p * 2 / 2 ≡ p
    half = omega arith

-- Or is addition where the low part fits under the shift.
bit_or-shifted : (k x y : ℕ) → y < 2 ^ k → bit_or (x * 2 ^ k) y ≡ x * 2 ^ k + y
bit_or-shifted zero x y h =
    omega (arith, ap (bit_or (x * 1)) none_left, bit_or-zero_fuel (x * 1) (x * 1) (omega arith))
  where
    none_left : y ≡ 0
    none_left = omega arith
bit_or-shifted (suc k) x y h =
    rw doubled
      (bit_or_double (x * 2 ^ k) y (bit_or-shifted k x (y / 2) (omega (arith, pow-suc 2 k))))
  where
    doubled : x * 2 ^ suc k ≡ x * 2 ^ k * 2
    doubled = rw (pow-suc 2 k) (omega arith)

pub join_lem : (bank offset : ℕ) → offset < 0x10000 → join bank offset ≡ bank * 0x10000 + offset
unfolding join
join_lem bank offset h = bit_or-shifted 16 bank offset h

differ_one : (x y : ℕ) → y ≡ 1 → x < 2 → differ x y ≡ 1 - x
differ_one zero y e h = e
differ_one (suc zero) y e h = ap (differ 1) e
differ_one (suc (suc x)) y e h = absurd (omega arith)

-- An odd mask turns the lowest digit round.
bit_xor_odd : (a b : ℕ) → b % 2 ≡ 1 → bit_xor a b ≡ bit_xor (a / 2) (b / 2) * 2 + (1 - a % 2)
bit_xor_odd zero b h = omega (arith, bit_xor-bitwise 0 b, bit_xor-bitwise 0 (b / 2))
bit_xor_odd (suc a) b h =
    bit_xor-bitwise (suc a) b
    ∙ digits-suc (λ b. b) differ a b
    ∙ ap (λ t. t * 2 + differ (suc a % 2) (b % 2)) (sym (bit_xor-bitwise (suc a / 2) (b / 2)))
    ∙ ap (λ t. bit_xor (suc a / 2) (b / 2) * 2 + t) (differ_one (suc a % 2) (b % 2) h (omega arith))

-- The complement within `k` bits.
pub bit_xor_ones : (k a m : ℕ) → m + 1 ≡ 2 ^ k → a ≤ m → bit_xor a m ≡ m - a
bit_xor_ones zero a m e h =
    let ea : a ≡ 0 = omega arith in
    let em : m ≡ 0 = omega arith in rw (ea, em) (bit_xor-bitwise 0 0)
bit_xor_ones (suc k) a m e h = omega (
  arith,
  pow-suc 2 k,
  bit_xor_odd a m odd,
  bit_xor_ones k (a / 2) (m / 2) (omega (arith, pow-suc 2 k)) (omega arith),
)
  where
    odd : m % 2 ≡ 1
    odd = omega (arith, pow-suc 2 k)
