-- ===== src/Prelude/Bits.antt =====
-- Shifts, masks and `|` on machine words kept as native numbers. A shift to the right and a mask of
-- low ones are `/` and `%`, in the form that `omega` reads; `|` is the native operation, with the
-- law that joins fields whose bits do not meet.
use Prim.Native.Nat.{
  ℕ, zero, suc, ◌+◌, ◌*◌, ◌/◌, ◌%◌, ◌^◌, ◌≤◌, ◌<◌, max, bit_or, digits, bit_or-bitwise,
}
use mathlib.Core.Path.{◌≡◌, refl, ap}
use mathlib.Core.Bool.{Bool}
use native.Mathlib.Nat.{pow-suc}
use native.Mathlib.Omega.{arith}
use dcim_data_reader.Prelude.Tests.{◌==◌}
pub use Prim.Native.Nat.{bit_or}

-- x >> k, and x & (2^k - 1).
abbrev pub shr : ℕ → ℕ → ℕ
shr x k = x / 2 ^ k

abbrev pub low_bits : ℕ → ℕ → ℕ
low_bits x k = x % 2 ^ k

-- x << k on a 32-bit word.
abbrev pub shl32 : ℕ → ℕ → ℕ
shl32 x k = (x * 2 ^ k) % 2 ^ 32

-- x & (1 << k) != 0
abbrev pub bit_set : ℕ → ℕ → Bool
bit_set x k = low_bits (shr x k) 1 == 1

abbrev or_digits : ℕ → ℕ → ℕ → ℕ
or_digits n a b = digits (λ b. b) max n a b

or_digits_fuel : (n m a b : ℕ) → a ≤ n → a ≤ m → or_digits n a b ≡ or_digits m a b
or_digits_fuel zero zero a b p q = refl
or_digits_fuel zero (suc m) zero b p q = refl
or_digits_fuel zero (suc m) (suc a) b p q = absurd (omega arith)
or_digits_fuel (suc n) zero zero b p q = refl
or_digits_fuel (suc n) zero (suc a) b p q = absurd (omega arith)
or_digits_fuel (suc n) (suc m) zero b p q = refl
or_digits_fuel (suc n) (suc m) (suc a) b p q =
    omega (arith, or_digits_fuel n m (suc a / 2) (b / 2) (omega arith) (omega arith))

zero-bit_or : (b : ℕ) → bit_or 0 b ≡ b
zero-bit_or b = bit_or-bitwise 0 b

-- The lowest bit of `a | b`, and the rest.
bit_or_step : (a b : ℕ) → bit_or a b ≡ bit_or (a / 2) (b / 2) * 2 + max (a % 2) (b % 2)
bit_or_step zero b = omega (arith, zero-bit_or b, zero-bit_or (b / 2))
bit_or_step (suc a) b = omega (
  arith,
  bit_or-bitwise (suc a) b,
  bit_or-bitwise (suc a / 2) (b / 2),
  or_digits_fuel a (suc a / 2) (suc a / 2) (b / 2) (omega arith) (omega arith),
)

bit_or-zero_fuel : (n a : ℕ) → a ≤ n → bit_or a 0 ≡ a
bit_or-zero_fuel n zero h = refl
bit_or-zero_fuel zero (suc a) h = absurd (omega arith)
bit_or-zero_fuel (suc n) (suc a) h =
    omega (arith, bit_or_step (suc a) 0, bit_or-zero_fuel n (suc a / 2) (omega arith))

-- Fields that share no bit are joined by `|` as by `+`.
pub bit_or-disjoint : (k hi lo : ℕ) → lo < 2 ^ k → bit_or (hi * 2 ^ k) lo ≡ hi * 2 ^ k + lo
bit_or-disjoint zero hi lo h =
    let e : lo ≡ 0 = omega arith in
    omega (arith, ap (bit_or (hi * 1)) e, bit_or-zero_fuel (hi * 1) (hi * 1) (omega arith))
bit_or-disjoint (suc k) hi lo h =
    let p : hi * 2 ^ suc k ≡ hi * 2 ^ k * 2 = simp pow-suc (omega arith) in
    let q : lo < 2 ^ k * 2 = rw pow-suc at h in
    omega (
      arith,
      p,
      bit_or_step (hi * 2 ^ suc k) lo,
      ap (λ (x : ℕ). bit_or x (lo / 2)) halved,
      bit_or-disjoint k hi (lo / 2) (omega arith),
    )
  where
    halved : hi * 2 ^ suc k / 2 ≡ hi * 2 ^ k
    halved = simp pow-suc (omega arith)
