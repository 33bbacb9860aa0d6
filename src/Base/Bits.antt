-- ===== src/Base/Bits.antt =====
-- A mask of low bits as a remainder.
use Prim.Native.Nat.{
  ℕ, zero, suc, ◌+◌, ◌-◌, ◌*◌, ◌/◌, ◌%◌, ◌^◌, ◌≤◌, min, bit_and, digits, bit_and-bitwise,
}
use mathlib.Core.Path.{◌≡◌, ap, sym, ◌∙◌}
use native.Mathlib.Nat.{pow-suc, one-le-pow, div-add-mod, div-div-eq-div-mul, mul_assoc}
use native.Mathlib.Omega.{arith}

-- What the halves of a number and of a power of two leave.
mod-pow-suc : (k a : ℕ) → a % 2 ^ suc k ≡ a / 2 % 2 ^ k * 2 + a % 2
mod-pow-suc k a = omega (arith, product, div-add-mod a (2 ^ suc k), div-add-mod (a / 2) (2 ^ k))
  where
    double : 2 ^ suc k ≡ 2 * 2 ^ k
    double = omega (arith, pow-suc 2 k)

    product : 2 ^ suc k * (a / 2 ^ suc k) ≡ 2 * (2 ^ k * (a / 2 / 2 ^ k))
    product =
        ap (λ (d : ℕ). d * (a / d)) double
        ∙ ap (λ (q : ℕ). 2 * 2 ^ k * q) (sym (div-div-eq-div-mul a 2 (2 ^ k)))
        ∙ mul_assoc 2 (2 ^ k) (a / 2 / 2 ^ k)

low_digits : (rounds k a : ℕ) → a ≤ rounds → digits (λ t. zero) min rounds a (2 ^ k - 1) ≡ a % 2 ^ k
low_digits zero k zero h = ground (arith, one-le-pow k 2)
low_digits (suc rounds) k zero h = ground (arith, one-le-pow k 2)
low_digits zero k (suc a) h = absurd (omega arith)
low_digits (suc rounds) zero (suc a) h =
    omega (arith, low_digits rounds zero (suc a / 2) (omega arith))
low_digits (suc rounds) (suc k) (suc a) h =
    rw half
      (omega (arith, odd, mod-pow-suc k (suc a), low_digits rounds k (suc a / 2) (omega arith)))
  where
    half : (2 ^ suc k - 1) / 2 ≡ 2 ^ k - 1
    half = ground (arith, pow-suc 2 k, one-le-pow k 2)

    odd : (2 ^ suc k - 1) % 2 ≡ 1
    odd = ground (arith, pow-suc 2 k, one-le-pow k 2)

pub bit_and-low_mask : (k a : ℕ) → bit_and a (2 ^ k - 1) ≡ a % 2 ^ k
bit_and-low_mask k a = bit_and-bitwise a (2 ^ k - 1) ∙ low_digits a k a (omega arith)
