-- ===== src/Checksum.antt =====
-- `cksum` of sr_utils.c, the Internet checksum in network byte order.
pub mod Fold
pub mod Words
pub mod Verify
use nw_proj.Base.{
  ℕ, zero, suc, ◌+◌, ◌-◌, ◌*◌, ◌/◌, ◌%◌, ◌^◌, ◌<◌, Bool, arith, ◌==◌, if◌then◌else◌, dec_lt,
}
use nw_proj.Base.Order.{lt_wf}
use nw_proj.Memory.{Bytes, htons, load16, store16}
use mathlib.Core.WellFounded.{Acc}
use mathlib.Core.Logic.{dite}

-- The first loop, two bytes a round, and the odd byte after it; `sum` is a `uint32_t`. The clauses
-- are those of `len >= 2`, `len == 1` and `len == 0`.
unfoldable pub sum_words : Bytes → ℕ → ℕ → ℕ → ℕ
sum_words m a zero sum = sum
sum_words m a (suc zero) sum = (sum + m a * 2 ^ 8) % 2 ^ 32
sum_words m a (suc (suc len)) sum =
    sum_words m (a + 2) len ((sum + (m a * 2 ^ 8 + m (a + 1))) % 2 ^ 32)

-- `while (sum > 0xffff) sum = (sum >> 16) + (sum & 0xffff)`.
unfoldable pub fold_acc : (sum : ℕ) → Acc ◌<◌ sum → ℕ
fold_acc sum (Acc.intro _ smaller) =
    dite (dec_lt 0xffff sum)
      (λ h.
        fold_acc (sum / 2 ^ 16 + sum % 2 ^ 16)
          (smaller (sum / 2 ^ 16 + sum % 2 ^ 16) (omega arith)))
      (λ _. sum)

unfoldable pub fold : ℕ → ℕ
unfolding fold_acc lt_wf dec_lt
fold sum = fold_acc sum (lt_wf.apply sum)

-- `sum = htons(~sum); return sum ? sum : 0xffff`: the complement of a `uint32_t`, cut to 16 bits
-- by `htons`.
unfoldable pub complement : ℕ → ℕ
unfolding htons
complement sum = let s = htons (2 ^ 32 - 1 - sum) in if s == 0 then 0xffff else s

unfoldable pub cksum : Bytes → ℕ → ℕ → ℕ
cksum m a len = complement (fold (sum_words m a len 0))

-- The test by which the router accepts a checksum: the field at `f` is set to zero, the checksum
-- of the `len` bytes at `a` is compared with what stood there, and the field is put back.
unfoldable pub checksum_ok : Bytes → ℕ → ℕ → ℕ → Bool
checksum_ok m a f len = load16 m f == cksum (store16 m f 0) a len

-- The field is set to zero, and then to the checksum of the `len` bytes at `a`.
unfoldable pub put_checksum : Bytes → ℕ → ℕ → ℕ → Bytes
put_checksum m a f len = store16 (store16 m f 0) f (cksum (store16 m f 0) a len)
