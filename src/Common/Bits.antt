-- ===== src/Common/Bits.antt =====
-- Bit operations on numbers, as arithmetic.
use Prim.Native.Nat.{
  ℕ, zero, suc, ◌+◌, ◌*◌, ◌/◌, ◌%◌, ◌^◌, ◌≤◌, ◌<◌, max, bit_or, digits, bit_or-bitwise,
}
use mathlib.Core.Path.{◌≡◌, refl, ap}
use mathlib.Core.Bool.{Bool, true, ◌&&◌}
use native.Mathlib.Omega.{arith}
use native.Mathlib.Nat.{pow-suc}

-- A test that holds of every number below a bound, by evaluation.
abbrev pub all_below : ℕ → (ℕ → Bool) → Bool
all_below zero p = true
all_below (suc n) p = p n && all_below n p

pub of_all_below : (n : ℕ) (p : ℕ → Bool) (x : ℕ) → all_below n p ≡ true → x < n → p x ≡ true
of_all_below zero p x h l = absurd (omega arith)
of_all_below (suc n) p x h l = ground (arith, of_all_below n p x)

abbrev or_digits : ℕ → ℕ → ℕ → ℕ
or_digits fuel a b = digits (λ y. y) max fuel a b

-- Fuel that is not less than the number is enough, and more changes nothing.
or_digits-fuel : (n m a b : ℕ) → a ≤ n → a ≤ m → or_digits n a b ≡ or_digits m a b
or_digits-fuel zero zero a b h k = refl
or_digits-fuel zero (suc m) zero b h k = refl
or_digits-fuel zero (suc m) (suc a) b h k = absurd (omega arith)
or_digits-fuel (suc n) zero zero b h k = refl
or_digits-fuel (suc n) zero (suc a) b h k = absurd (omega arith)
or_digits-fuel (suc n) (suc m) zero b h k = refl
or_digits-fuel (suc n) (suc m) (suc a) b h k =
    omega (arith, or_digits-fuel n m (suc a / 2) (b / 2) (omega arith) (omega arith))

zero-bit_or : (b : ℕ) → bit_or 0 b ≡ b
zero-bit_or b = bit_or-bitwise 0 b

bit_or-halves : (a b : ℕ) → bit_or a b ≡ bit_or (a / 2) (b / 2) * 2 + max (a % 2) (b % 2)
bit_or-halves zero b = omega (arith, zero-bit_or b, zero-bit_or (b / 2))
bit_or-halves (suc a) b = omega (
  arith,
  bit_or-bitwise (suc a) b,
  bit_or-bitwise (suc a / 2) (b / 2),
  or_digits-fuel a (suc a / 2) (suc a / 2) (b / 2) (omega arith) (omega arith),
)

double_power : (c k : ℕ) → c * 2 ^ suc k ≡ c * 2 ^ k * 2
double_power c k = omega (arith, ap (λ (t : ℕ). c * t) (pow-suc 2 k))

-- A number that fits below a shifted one is put under it.
pub bit_or-shifted : (k low c : ℕ) → low < 2 ^ k → bit_or low (c * 2 ^ k) ≡ low + c * 2 ^ k
bit_or-shifted zero low c h = ground (arith, zero-bit_or c)
bit_or-shifted (suc k) low c h = ground (
  arith,
  bit_or-halves low (c * 2 ^ suc k),
  double_power c k,
  pow-suc 2 k,
  bit_or-shifted k (low / 2) c (omega (arith, pow-suc 2 k)),
)

bit_or-zero_fuel : (n a : ℕ) → a ≤ n → bit_or a 0 ≡ a
bit_or-zero_fuel n zero h = zero-bit_or 0
bit_or-zero_fuel zero (suc a) h = absurd (omega arith)
bit_or-zero_fuel (suc n) (suc a) h =
    omega (arith, bit_or-halves (suc a) 0, bit_or-zero_fuel n (suc a / 2) (omega arith))

pub shifted-bit_or : (k c low : ℕ) → low < 2 ^ k → bit_or (c * 2 ^ k) low ≡ c * 2 ^ k + low
shifted-bit_or zero c low h = ground (arith, bit_or-zero_fuel c c (omega arith))
shifted-bit_or (suc k) c low h = ground (
  arith,
  bit_or-halves (c * 2 ^ suc k) low,
  double_power c k,
  pow-suc 2 k,
  shifted-bit_or k c (low / 2) (omega (arith, pow-suc 2 k)),
)

bit_or-zero : (a : ℕ) → bit_or a 0 ≡ a
bit_or-zero a = bit_or-zero_fuel a a (omega arith)

-- The bit of four is set, the others stay.
pub bit_or_flag :
    (a : ℕ) → (bit_or a 4 % 4 ≡ a % 4) × (bit_or a 4 / 4 % 2 ≡ 1) × (bit_or a 4 / 8 ≡ a / 8)
bit_or_flag a =
    let x = bit_or-halves a 4 in
    let y = bit_or-halves (a / 2) 2 in
    let z = bit_or-halves (a / 2 / 2) 1 in
    let w = bit_or-zero (a / 2 / 2 / 2) in
    (ground (arith, x, y, z, w), ground (arith, x, y, z, w), ground (arith, x, y, z, w))
