-- ===== src/Checksum/Words.antt =====
-- The sum of the 16-bit words of RFC 1071, without bound, against the loop of `cksum`.
use nw_proj.Base.{ℕ, zero, suc, ◌+◌, ◌*◌, ◌%◌, ◌^◌, ◌≤◌, ◌<◌, ◌≡◌, refl, arith}
use nw_proj.Memory.{Bytes, store16, load16, htons}
use nw_proj.Memory.Laws.{IsBytes}
use nw_proj.Checksum.{sum_words}

-- The words in network order, an odd last byte padded by zero.
unfoldable pub word_sum : Bytes → ℕ → ℕ → ℕ
word_sum m a zero = 0
word_sum m a (suc zero) = m a * 2 ^ 8
word_sum m a (suc (suc len)) = m a * 2 ^ 8 + m (a + 1) + word_sum m (a + 2) len

pub word_sum-le : (m : Bytes) (a len : ℕ) → IsBytes m → word_sum m a len ≤ len * 65280
unfolding word_sum
word_sum-le m a zero h = omega arith
word_sum-le m a (suc zero) h = omega (arith, h a)
word_sum-le m a (suc (suc len)) h = omega (arith, h a, h (a + 1), word_sum-le m (a + 2) len h)

-- Without overflow of `sum` the loop adds the words up.
pub sum_words-word_sum :
    (m : Bytes) (a len s : ℕ)
    → s + word_sum m a len < 2 ^ 32
    → sum_words m a len s ≡ s + word_sum m a len
unfolding sum_words word_sum
sum_words-word_sum m a zero s h = omega arith
sum_words-word_sum m a (suc zero) s h = omega arith
sum_words-word_sum m a (suc (suc len)) s h = omega (
  arith,
  sum_words-word_sum m (a + 2) len ((s + (m a * 2 ^ 8 + m (a + 1))) % 2 ^ 32) (omega arith),
)

pub word_sum-ext :
    (m n : Bytes) (a len : ℕ)
    → ((i : ℕ) → a ≤ i → i < a + len → m i ≡ n i)
    → word_sum m a len ≡ word_sum n a len
unfolding word_sum
word_sum-ext m n a zero h = refl
word_sum-ext m n a (suc zero) h = omega (arith, h a (omega arith) (omega arith))
word_sum-ext m n a (suc (suc len)) h = omega (
  arith,
  h a (omega arith) (omega arith),
  h (a + 1) (omega arith) (omega arith),
  word_sum-ext m n (a + 2) len (λ i p q. h i (omega arith) (omega arith)),
)

-- A store into the word `j` exchanges that word in the sum.
pub word_sum-store16 :
    (m : Bytes) (a j len v : ℕ)
    → j * 2 + 2 ≤ len
    → v < 2 ^ 16
    → IsBytes m
    → word_sum (store16 m (a + j * 2) v) a len + htons (load16 m (a + j * 2))
      ≡ word_sum m a len + htons v
unfolding word_sum store16 load16 htons
word_sum-store16 m a j zero v fits hv h = absurd (omega arith)
word_sum-store16 m a j (suc zero) v fits hv h = absurd (omega arith)
word_sum-store16 m a zero (suc (suc len)) v fits hv h = ground (
  arith,
  h a,
  h (a + 1),
  word_sum-ext (store16 m (a + 0 * 2) v) m (a + 2) len (λ i p q. ground arith),
)
word_sum-store16 m a (suc j) (suc (suc len)) v fits hv h =
    let e : a + suc j * 2 ≡ a + 2 + j * 2 = omega arith in
    let ih = word_sum-store16 m (a + 2) j len v (omega arith) hv h in rw e (ground (arith, ih))
