-- ===== src/Checksum/Verify.antt =====
-- The checksum against RFC 1071: a region is valid if its words, the checksum field among them,
-- add up to zero in one's complement, that is to a multiple of 65535.
use nw_proj.Base.{
  ℕ, ◌+◌, ◌*◌, ◌%◌, ◌^◌, ◌≤◌, ◌<◌, ◌≡◌, ◌≢◌, ◌↔◌, true, arith, ◌==◌, ==→eq, eq→==, ap, ◌⊎◌, ◌∙◌,
}
use nw_proj.Memory.{Bytes, store16, load16, htons}
use nw_proj.Memory.Laws.{
  IsBytes, store16-IsBytes, store16-outside, load16-store16, load16-lt, htons-lt, htons-htons,
  htons-pos,
}
use nw_proj.Checksum.{cksum, fold, checksum_ok, put_checksum}
use nw_proj.Checksum.Fold.{fold-Folds, complement-neg, complement-range}
use nw_proj.Checksum.Words.{word_sum, word_sum-le, sum_words-word_sum, word_sum-store16}

pub cksum-range : (m : Bytes) (a len : ℕ) → (0 < cksum m a len) × (cksum m a len < 2 ^ 16)
unfolding cksum
cksum-range m a len = complement-range _

-- In network order the checksum is the negative of the words' sum.
pub cksum-neg :
    (m : Bytes) (a len : ℕ)
    → IsBytes m
    → len ≤ 2 ^ 16
    → (htons (cksum m a len) + word_sum m a len) % 65535 ≡ 0
unfolding cksum
cksum-neg m a len h short =
    let small : 0 + word_sum m a len < 2 ^ 32 = omega (arith, word_sum-le m a len h) in
    let s = word_sum m a len in
    rw (sum_words-word_sum m a len 0 small)
      (omega (arith, complement-neg (fold (0 + s)) (fold-Folds (0 + s)).0, (fold-Folds (0 + s)).1))

module _ (m : Bytes) (a j len : ℕ) (bytes : IsBytes m) (fits : j * 2 + 2 ≤ len)
    (short : len ≤ 2 ^ 16) where
  abbrev cleared : Bytes
  cleared = store16 m (a + j * 2) 0

  -- The sum splits into the words with a zero field and the field.
  split : word_sum m a len ≡ word_sum cleared a len + htons (load16 m (a + j * 2))
  unfolding htons
  split = omega (arith, word_sum-store16 m a j len 0 fits (omega arith) bytes)

  cleared-neg : (htons (cksum cleared a len) + word_sum cleared a len) % 65535 ≡ 0
  cleared-neg = cksum-neg cleared a len (store16-IsBytes m (a + j * 2) 0 bytes) short

  -- A region whose checksum field was just written is valid.
  pub put_checksum-valid : word_sum (put_checksum m a (a + j * 2) len) a len % 65535 ≡ 0
  unfolding put_checksum htons
  put_checksum-valid = omega (
    arith,
    cleared-neg,
    load16-store16 m (a + j * 2) 0 (omega arith),
    word_sum-store16 cleared a j len (cksum cleared a len) fits (cksum-range cleared a len).1
        (store16-IsBytes m (a + j * 2) 0 bytes),
  )

  -- The router accepts a region exactly when it is valid and its checksum field is not zero.
  pub checksum_ok_iff :
      (checksum_ok m a (a + j * 2) len ≡ true)
      ↔ ((word_sum m a len % 65535 ≡ 0) × (load16 m (a + j * 2) ≢ 0))
  unfolding checksum_ok
  checksum_ok_iff = (accepted, valid)
    where
      accepted :
          (load16 m (a + j * 2) == cksum cleared a len) ≡ true
          → (word_sum m a len % 65535 ≡ 0) × (load16 m (a + j * 2) ≢ 0)
      accepted h =
          let e = ==→eq (load16 m (a + j * 2)) (cksum cleared a len) h in
          (rw (split, e) (omega (arith, cleared-neg)), omega (arith, e, cksum-range cleared a len))

      valid :
          (word_sum m a len % 65535 ≡ 0) × (load16 m (a + j * 2) ≢ 0)
          → (load16 m (a + j * 2) == cksum cleared a len) ≡ true
      valid (v, ne) =
          let c = load16 m (a + j * 2) in
          let k = cksum cleared a len in
          let c_lt = load16-lt m (a + j * 2) bytes in
          let same : htons c ≡ htons k = omega (
            arith,
            split,
            v,
            cleared-neg,
            htons-lt c,
            htons-lt k,
            htons-pos c c_lt (omega (arith, ne)),
            htons-pos k (cksum-range cleared a len).1 (cksum-range cleared a len).0,
          ) in
          eq→== c k (
            omega (
              arith,
              ap htons same,
              htons-htons c c_lt,
              htons-htons k (cksum-range cleared a len).1,
            ))

pub put_checksum-IsBytes : (m : Bytes) (a f len : ℕ) → IsBytes m → IsBytes (put_checksum m a f len)
unfolding put_checksum
put_checksum-IsBytes m a f len h = store16-IsBytes (store16 m f 0) f _ (store16-IsBytes m f 0 h)

pub put_checksum-outside :
    (m : Bytes) (a f len i : ℕ) → (i < f) ⊎ (f + 1 < i) → put_checksum m a f len i ≡ m i
unfolding put_checksum
put_checksum-outside m a f len i h =
    store16-outside (store16 m f 0) f _ i h ∙ store16-outside m f 0 i h
