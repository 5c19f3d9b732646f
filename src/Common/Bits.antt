-- ===== src/Common/Bits.antt =====
-- C's `|`, `&` and `>>` on unsigned words, as arithmetic. The native operations stand for a
-- recursion on binary digits with fuel; `or_low` and `and_low` give the lowest digit without it.
use Prim.Native.Nat.{
  ℕ, zero, suc, ◌+◌, ◌-◌, ◌*◌, ◌/◌, ◌%◌, ◌^◌, ◌≤◌, ◌<◌, min, max, bit_and, bit_or, digits,
  bit_and-bitwise, bit_or-bitwise,
}
use mathlib.Core.Path.{◌≡◌, refl, ap}
use native.Mathlib.Omega.{arith}
use native.Mathlib.Nat.{pow-suc, one-le-pow}

-- `x >> k` of an unsigned word.
infixl 75 ◌>>>◌
abbrev pub ◌>>>◌ : ℕ → ℕ → ℕ
x >>> k = x / 2 ^ k

-- `x << k` before any truncation.
infixl 75 ◌<<<◌
abbrev pub ◌<<<◌ : ℕ → ℕ → ℕ
x <<< k = x * 2 ^ k

-- Casts to the fixed widths.
abbrev pub u8 : ℕ → ℕ
u8 n = n % 2 ^ 8

abbrev pub u16 : ℕ → ℕ
u16 n = n % 2 ^ 16

abbrev pub u32 : ℕ → ℕ
u32 n = n % 2 ^ 32

abbrev pub u64 : ℕ → ℕ
u64 n = n % 2 ^ 64

module _ (stop : ℕ → ℕ) (op : ℕ → ℕ → ℕ) where
  spare_fuel : (n k a b : ℕ) → a ≤ n → a ≤ k → digits stop op n a b ≡ digits stop op k a b
  spare_fuel zero zero a b p q = refl
  spare_fuel zero (suc k) zero b p q = refl
  spare_fuel zero (suc k) (suc a) b p q = absurd (omega arith)
  spare_fuel (suc n) zero zero b p q = refl
  spare_fuel (suc n) zero (suc a) b p q = absurd (omega arith)
  spare_fuel (suc n) (suc k) zero b p q = refl
  spare_fuel (suc n) (suc k) (suc a) b p q =
      rw (spare_fuel n k (suc a / 2) (b / 2) (omega arith) (omega arith))

or_low : (a b : ℕ) → bit_or a b ≡ bit_or (a / 2) (b / 2) * 2 + max (a % 2) (b % 2)
or_low zero b = omega (arith, bit_or-bitwise 0 b, bit_or-bitwise 0 (b / 2))
or_low (suc a) b = omega (
  arith,
  bit_or-bitwise (suc a) b,
  bit_or-bitwise (suc a / 2) (b / 2),
  spare_fuel (λ t. t) max a (suc a / 2) (suc a / 2) (b / 2) (omega arith) (omega arith),
)

and_low : (a b : ℕ) → bit_and a b ≡ bit_and (a / 2) (b / 2) * 2 + min (a % 2) (b % 2)
and_low zero b = omega (arith, bit_and-bitwise 0 b, bit_and-bitwise 0 (b / 2))
and_low (suc a) b = omega (
  arith,
  bit_and-bitwise (suc a) b,
  bit_and-bitwise (suc a / 2) (b / 2),
  spare_fuel (λ t. 0) min a (suc a / 2) (suc a / 2) (b / 2) (omega arith) (omega arith),
)

-- Once the first number has run out the digits of the second are left.
or_zero : (b : ℕ) → bit_or 0 b ≡ b
or_zero b = bit_or-bitwise 0 b

and_zero : (n a : ℕ) → a ≤ n → bit_and a 0 ≡ 0
and_zero n zero h = refl
and_zero zero (suc a) h = absurd (omega arith)
and_zero (suc n) (suc a) h = omega (arith, and_low (suc a) 0, and_zero n (suc a / 2) (omega arith))

twice_pow : (q k : ℕ) → q * 2 ^ suc k ≡ 2 * (q * 2 ^ k)
twice_pow q k = omega (arith, ap (λ (t : ℕ). q * t) (pow-suc 2 k))

-- A low part that fits below the shift is added.
pub bit_or_shifted : (k lo hi : ℕ) → lo < 2 ^ k → bit_or lo (hi * 2 ^ k) ≡ lo + hi * 2 ^ k
bit_or_shifted zero lo hi h = let e : lo ≡ 0 = omega arith in rw e (omega (arith, or_zero (hi * 1)))
bit_or_shifted (suc k) lo hi h =
    ground
      (arith, or_low lo (hi * 2 ^ suc k), twice_pow hi k, pow-suc 2 k, bit_or_shifted k (lo / 2) hi)

-- `& (2^k - 1)` is the remainder.
and_parts : (k q r : ℕ) → r < 2 ^ k → bit_and (q * 2 ^ k + r) (2 ^ k - 1) ≡ r
and_parts zero q r h = omega (arith, and_zero (q * 1 + r) (q * 1 + r) (omega arith))
and_parts (suc k) q r h = ground (
  arith,
  and_low (q * 2 ^ suc k + r) (2 ^ suc k - 1),
  twice_pow q k,
  pow-suc 2 k,
  and_parts k q (r / 2),
)

pub bit_and_mask : (k a : ℕ) → bit_and a (2 ^ k - 1) ≡ a % 2 ^ k
bit_and_mask k a = ground (arith, one-le-pow k 2, and_parts k (a / 2 ^ k) (a % 2 ^ k))
