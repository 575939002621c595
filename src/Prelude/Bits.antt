-- ===== src/Prelude/Bits.antt =====
-- `|` and `^` of words at every width: disjoint fields add up, and `^` undoes itself.
mod Step
use Step.{bit_or_step, bit_xor_step, bit_and_step}
pub use Step.*
use Prim.Native.Nat.{ℕ, zero, suc, ◌+◌, ◌-◌, ◌*◌, ◌/◌, ◌%◌, ◌^◌, ◌≤◌, ◌<◌, bit_or, bit_xor}
use Prim.Native.Nat.{bit_xor-bitwise, bit_and}
use mathlib.Core.Path.{◌≡◌, refl, ap}
use native.Mathlib.Nat.{pow-suc}
use native.Mathlib.Omega.{arith}

module _ where
  bit_or-zero_fuel : (n a : ℕ) → a ≤ n → bit_or a 0 ≡ a
  bit_or-zero_fuel n zero h = refl
  bit_or-zero_fuel zero (suc a) h = absurd (omega arith)
  bit_or-zero_fuel (suc n) (suc a) h =
      omega (arith, bit_or_step (suc a) 0, bit_or-zero_fuel n (suc a / 2) (omega arith))

  pub bit_or-zero : (a : ℕ) → bit_or a 0 ≡ a
  bit_or-zero a = bit_or-zero_fuel a a (omega arith)

shifted-suc : (high width : ℕ) → high * 2 ^ suc width ≡ high * 2 ^ width * 2
shifted-suc high width = omega (arith, ap (λ (power : ℕ). high * power) (pow-suc 2 width))

-- `(high << width) | low` is a sum when `low` fits in `width` bits.
pub bit_or_fields :
    (width high low : ℕ) → low < 2 ^ width → bit_or (high * 2 ^ width) low ≡ high * 2 ^ width + low
bit_or_fields (suc width) high low fits = ground (
  arith,
  bit_or_fields width high (low / 2) (omega arith),
  shifted-suc high width,
  bit_or_step (high * 2 ^ suc width) low,
)
bit_or_fields zero high low fits = ground (arith, bit_or-zero high)

bit_xor_self_fuel : (n a b : ℕ) → a ≤ n → b ≤ n → bit_xor (bit_xor a b) b ≡ a
bit_xor_self_fuel zero zero zero h k = refl
bit_xor_self_fuel zero zero (suc b) h k = absurd (omega arith)
bit_xor_self_fuel zero (suc a) b h k = absurd (omega arith)
bit_xor_self_fuel (suc n) a b h k = ground (
  arith,
  bit_xor_step a b,
  bit_xor_step (bit_xor a b) b,
  bit_xor_self_fuel n (a / 2) (b / 2) (omega arith) (omega arith),
)

-- `^` undoes itself.
pub bit_xor_self : (a b : ℕ) → bit_xor (bit_xor a b) b ≡ a
bit_xor_self a b = bit_xor_self_fuel (a + b) a b (omega arith) (omega arith)

zero-bit_xor : (b : ℕ) → bit_xor 0 b ≡ b
zero-bit_xor b = bit_xor-bitwise 0 b

-- `^` stays within `k` bits.
pub bit_xor-lt : (k a b : ℕ) → a < 2 ^ k → b < 2 ^ k → bit_xor a b < 2 ^ k
bit_xor-lt zero zero zero h k = omega arith
bit_xor-lt zero zero (suc b) h k = absurd (omega arith)
bit_xor-lt zero (suc a) b h k = absurd (omega arith)
bit_xor-lt (suc k) a b h l =
    ground (arith, bit_xor_step a b, pow-suc 2 k, bit_xor-lt k (a / 2) (b / 2))

-- A top bit that only one side has is kept.
pub bit_xor-top : (k a b : ℕ) → a < 2 ^ k → 2 ^ k ≤ b → 2 ^ k ≤ bit_xor a b
bit_xor-top zero zero b h l = omega (arith, zero-bit_xor b)
bit_xor-top zero (suc a) b h l = absurd (omega arith)
bit_xor-top (suc k) a b h l =
    ground (arith, bit_xor_step a b, pow-suc 2 k, bit_xor-top k (a / 2) (b / 2))

masked_out : (bound word : ℕ) → word ≤ bound → bit_and word 0 ≡ 0
masked_out (suc bound) (suc word) small =
    omega (arith, masked_out bound (suc word / 2) (omega arith), bit_and_step (suc word) 0)
masked_out zero (suc word) small = absurd (omega arith)
masked_out bound zero small = refl

-- The lowest bit.
pub bit_and-one : (word : ℕ) → bit_and word 1 ≡ word % 2
bit_and-one word = omega (arith, masked_out word (word / 2) (omega arith), bit_and_step word 1)

-- With 0, `^` changes nothing.
pub bit_xor-zero : (a : ℕ) → bit_xor a 0 ≡ a
bit_xor-zero a = bit_xor-zero_fuel a a (omega arith)
  where
    bit_xor-zero_fuel : (n a : ℕ) → a ≤ n → bit_xor a 0 ≡ a
    bit_xor-zero_fuel n zero h = refl
    bit_xor-zero_fuel zero (suc a) h = absurd (omega arith)
    bit_xor-zero_fuel (suc n) (suc a) h =
        omega (arith, bit_xor_step (suc a) 0, bit_xor-zero_fuel n (suc a / 2) (omega arith))

bit_xor_comm_fuel : (n a b : ℕ) → a ≤ n → b ≤ n → bit_xor a b ≡ bit_xor b a
bit_xor_comm_fuel zero zero zero h k = refl
bit_xor_comm_fuel zero zero (suc b) h k = absurd (omega arith)
bit_xor_comm_fuel zero (suc a) b h k = absurd (omega arith)
bit_xor_comm_fuel (suc n) a b h k = omega (
  arith,
  bit_xor_step a b,
  bit_xor_step b a,
  bit_xor_comm_fuel n (a / 2) (b / 2) (omega arith) (omega arith),
)

pub bit_xor_comm : (a b : ℕ) → bit_xor a b ≡ bit_xor b a
bit_xor_comm a b = bit_xor_comm_fuel (a + b) a b (omega arith) (omega arith)
