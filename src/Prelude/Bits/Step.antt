-- ===== src/Prelude/Bits/Step.antt =====
-- Words digit by digit. `bitwise` spends fuel on each binary digit; once there is enough, more fuel
-- changes nothing, which leaves one equation for the lowest digit.
use Prim.Native.Nat.{
  ℕ, zero, suc, ◌+◌, ◌-◌, ◌*◌, ◌/◌, ◌%◌, ◌≤◌, ◌<◌, min, max, differ, digits, bitwise, bit_and,
  bit_or, bit_xor, bit_and-bitwise, bit_or-bitwise, bit_xor-bitwise,
}
use mathlib.Core.Path.{◌≡◌, ◌∙◌, refl, ap}
use native.Mathlib.Omega.{arith}

module _ (beyond : ℕ → ℕ) (digit : ℕ → ℕ → ℕ) where
  one_more :
      (fuel a b : ℕ) → a ≤ fuel → digits beyond digit (suc fuel) a b ≡ digits beyond digit fuel a b
  one_more (suc fuel) (suc a) b enough =
      ap (λ high. high * 2 + digit (suc a % 2) (b % 2))
        (one_more fuel (suc a / 2) (b / 2) (omega arith))
  one_more (suc fuel) zero b enough = refl
  one_more zero (suc a) b enough = absurd (omega arith)
  one_more zero zero b enough = refl

  spare :
      (more big fuel a b : ℕ)
      → big ≡ more + fuel
      → a ≤ fuel
      → digits beyond digit big a b ≡ digits beyond digit fuel a b
  spare (suc more) (suc big) fuel a b e enough =
      one_more big a b (omega arith) ∙ spare more big fuel a b (omega arith) enough
  spare (suc more) zero fuel a b e enough = absurd (omega arith)
  spare zero big fuel a b e enough = ap (λ n. digits beyond digit n a b) (omega arith)

  lowest_digit :
      (a b : ℕ)
      → bitwise beyond digit (suc a) b
        ≡ bitwise beyond digit (suc a / 2) (b / 2) * 2 + digit (suc a % 2) (b % 2)
  lowest_digit a b =
      ap (λ high. high * 2 + digit (suc a % 2) (b % 2))
        (spare (a - suc a / 2) a (suc a / 2) (suc a / 2) (b / 2) (omega arith) (omega arith))

differ-parity : (x y : ℕ) → x < 2 → y < 2 → differ x y ≡ (x + y) % 2
differ-parity (suc (suc x)) y h k = absurd (omega arith)
differ-parity (suc zero) (suc (suc y)) h k = absurd (omega arith)
differ-parity (suc zero) (suc zero) h k = omega arith
differ-parity (suc zero) zero h k = omega arith
differ-parity zero y h k = omega arith

pub bit_xor_step : (a b : ℕ) → bit_xor a b ≡ bit_xor (a / 2) (b / 2) * 2 + (a % 2 + b % 2) % 2
bit_xor_step (suc a) b = omega (
  arith,
  bit_xor-bitwise (suc a) b,
  bit_xor-bitwise (suc a / 2) (b / 2),
  lowest_digit (λ rest. rest) differ a b,
  differ-parity (suc a % 2) (b % 2) (omega arith) (omega arith),
)
bit_xor_step zero b = simp bit_xor-bitwise (omega arith)

pub bit_or_step : (a b : ℕ) → bit_or a b ≡ bit_or (a / 2) (b / 2) * 2 + max (a % 2) (b % 2)
bit_or_step (suc a) b = simp bit_or-bitwise (lowest_digit (λ rest. rest) max a b)
bit_or_step zero b = simp bit_or-bitwise (omega arith)

pub bit_and_step : (a b : ℕ) → bit_and a b ≡ bit_and (a / 2) (b / 2) * 2 + min (a % 2) (b % 2)
bit_and_step (suc a) b = simp bit_and-bitwise (lowest_digit (λ rest. 0) min a b)
bit_and_step zero b = simp bit_and-bitwise (omega arith)
