-- ===== src/Base/Digits.antt =====
-- Binary digits, and what a mask keeps of them.
use Prim.Native.Nat.{
  ℕ, zero, suc, ◌+◌, ◌*◌, ◌/◌, ◌%◌, ◌≤◌, ◌<◌, min, bit_and, digits, bit_and-bitwise,
}
use mathlib.Core.Path.{◌≡◌, refl, ap, sym, ◌∙◌}
use mathlib.Core.Logic.{◌↔◌, ◌⊎◌, inl, inr}
use native.Mathlib.Omega.{arith}

-- The digit at `i`, the lowest at 0.
unfoldable pub bit : ℕ → ℕ → ℕ
bit zero n = n % 2
bit (suc i) n = bit i (n / 2)

bit-lt : (i n : ℕ) → bit i n < 2
unfolding bit
bit-lt zero n = omega arith
bit-lt (suc i) n = bit-lt i (n / 2)

-- The rounds of `bit_and` above the size of its first number change nothing.
digits_rounds :
    (n k a b : ℕ) → a ≤ n → a ≤ k → digits (λ t. zero) min n a b ≡ digits (λ t. zero) min k a b
digits_rounds zero zero a b h j = refl
digits_rounds zero (suc k) zero b h j = refl
digits_rounds zero (suc k) (suc a) b h j = absurd (omega arith)
digits_rounds (suc n) zero zero b h j = refl
digits_rounds (suc n) zero (suc a) b h j = absurd (omega arith)
digits_rounds (suc n) (suc k) zero b h j = refl
digits_rounds (suc n) (suc k) (suc a) b h j =
    ap (λ (t : ℕ). t * 2 + min (suc a % 2) (b % 2))
      (digits_rounds n k (suc a / 2) (b / 2) (omega arith) (omega arith))

bit_and-halves : (a b : ℕ) → bit_and a b ≡ bit_and (a / 2) (b / 2) * 2 + min (a % 2) (b % 2)
bit_and-halves zero b = simp bit_and-bitwise (omega arith)
bit_and-halves (suc a) b = simp bit_and-bitwise (
    ap (λ (t : ℕ). t * 2 + min (suc a % 2) (b % 2))
      (digits_rounds a (suc a / 2) (suc a / 2) (b / 2) (omega arith) (omega arith)))

bit-bit_and : (i a b : ℕ) → bit i (bit_and a b) ≡ min (bit i a) (bit i b)
unfolding bit
bit-bit_and zero a b = omega (arith, bit_and-halves a b)
bit-bit_and (suc i) a b =
    ap (bit i) (omega (arith, bit_and-halves a b)) ∙ bit-bit_and i (a / 2) (b / 2)

-- Numbers with the same digits are the same.
same_bits : (n a b : ℕ) → a ≤ n → b ≤ n → ((i : ℕ) → bit i a ≡ bit i b) → a ≡ b
unfolding bit
same_bits zero a b h k same = omega (arith, h, k)
same_bits (suc n) a b h k same = omega (
  arith,
  same 0,
  same_bits n (a / 2) (b / 2) (omega (arith, h)) (omega (arith, k)) (λ i. same (suc i)),
)

-- Two numbers are the same under a mask exactly if they agree in every digit where it has a one.
pub bit_and_iff :
    (a b mask : ℕ)
    → (bit_and a mask ≡ bit_and b mask) ↔ ((i : ℕ) → bit i mask ≡ 1 → bit i a ≡ bit i b)
bit_and_iff a b mask = (
  (λ e i one. omega (
    arith,
    one,
    bit-bit_and i a mask,
    bit-bit_and i b mask,
    ap (bit i) e,
    bit-lt i a,
    bit-lt i b,
  )),
  (λ agree.
      same_bits (bit_and a mask + bit_and b mask) (bit_and a mask) (bit_and b mask) (omega arith)
        (omega arith) λ i. bit-bit_and i a mask ∙ (under i (agree i) ∙ sym (bit-bit_and i b mask))),
)
  where
    zero_or_one : (n : ℕ) → n < 2 → (n ≡ 0) ⊎ (n ≡ 1)
    zero_or_one zero h = inl refl
    zero_or_one (suc n) h = inr (omega arith)

    under :
        (i : ℕ)
        → (bit i mask ≡ 1 → bit i a ≡ bit i b)
        → min (bit i a) (bit i mask) ≡ min (bit i b) (bit i mask)
    under i h = elim (zero_or_one (bit i mask) (bit-lt i mask)) [
      | inl none ↦ omega (arith, none)
      | inr one ↦ omega (arith, one, h one)
    ]
