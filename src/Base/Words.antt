-- ===== src/Base/Words.antt =====
-- The C integer types: a w-bit value is the number of its bit pattern, and wraps by `%`.
use Prim.Native.Nat.{
  ℕ, zero, suc, ◌+◌, ◌-◌, ◌*◌, ◌/◌, ◌%◌, ◌^◌, ◌≤◌, ◌<◌, min, bit_and, digits, bit_and-bitwise,
}
use mathlib.Core.Path.{◌≡◌}
use native.Mathlib.Omega.{arith}

-- a value as `uint32_t`, and as `uint64_t` or `size_t`
abbrev pub u32 : ℕ → ℕ
u32 n = n % 2 ^ 32

abbrev pub u64 : ℕ → ℕ
u64 n = n % 2 ^ 64

-- `n--` on a `size_t`
abbrev pub dec64 : ℕ → ℕ
dec64 n = u64 (n + 2 ^ 64 - 1)

-- `a & b` by its definition, with as many digits as the fuel counts.
abbrev masked : ℕ → ℕ → ℕ → ℕ
masked fuel b a = digits (λ _. 0) min fuel a b

-- the fuel does not matter where it is enough
masked-bit_and : (bound fuel a b : ℕ) → fuel ≤ bound → a ≤ fuel → masked fuel b a ≡ bit_and a b
masked-bit_and bound zero zero b small enough = omega (arith, bit_and-bitwise 0 b)
masked-bit_and bound (suc fuel) zero b small enough = omega (arith, bit_and-bitwise 0 b)
masked-bit_and bound zero (suc a) b small enough = absurd (omega arith)
masked-bit_and zero (suc fuel) (suc a) b small enough = absurd (omega arith)
masked-bit_and (suc bound) (suc fuel) (suc a) b small enough =
    let half = suc a / 2 in
    omega (
      arith,
      masked-bit_and bound fuel half (b / 2) (omega arith) (omega arith),
      masked-bit_and bound a half (b / 2) (omega arith) (omega arith),
      bit_and-bitwise (suc a) b,
    )

-- the lowest bit, and the others
low_bit : (a b : ℕ) → bit_and a b ≡ min (a % 2) (b % 2) + 2 * bit_and (a / 2) (b / 2)
low_bit zero b = omega (arith, bit_and-bitwise 0 (b / 2), bit_and-bitwise 0 b)
low_bit (suc a) b =
    let rest = masked-bit_and a a (suc a / 2) (b / 2) (omega arith) (omega arith) in
    omega (arith, rest, bit_and-bitwise (suc a) b)

below_mask : (bound a b : ℕ) → a ≤ bound → bit_and a b ≤ b
below_mask bound zero b h = omega (arith, bit_and-bitwise 0 b)
below_mask zero (suc a) b h = absurd (omega arith)
below_mask (suc bound) (suc a) b h =
    let rest = below_mask bound (suc a / 2) (b / 2) (omega arith) in
    omega (arith, rest, low_bit (suc a) b)

pub bit_and-le : (a b : ℕ) → bit_and a b ≤ b
bit_and-le a b = below_mask a a b (omega arith)

-- doubling keeps the test for a power of two
pub bit_and_double : (n : ℕ) → 0 < n → bit_and (n - 1) n ≡ 0 → bit_and (n * 2 - 1) (n * 2) ≡ 0
bit_and_double n pos h =
    let half : (n * 2 - 1) / 2 ≡ n - 1 = omega arith in
    let whole : n * 2 / 2 ≡ n = omega arith in rw (low_bit, half, whole, h) (omega arith)
