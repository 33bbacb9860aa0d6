-- ===== src/Memory.antt =====
-- Byte memory behind a C pointer, with the accesses that the router makes through packed structs.
-- A buffer is the function from an offset to the byte there; its length travels beside it, as in
-- the code. The host is little-endian (`_LINUX_` in Makefile), so a native 16- or 32-bit access
-- has its low byte first, and `htons`, `ntohl` and their like reverse the bytes.
pub mod Laws
pub mod Place
pub mod Holds
use nw_proj.Base.{
  ℕ, zero, suc, ◌+◌, ◌-◌, ◌*◌, ◌/◌, ◌%◌, ◌^◌, Bool, true, ◌&&◌, ltb, leb, ◌==◌, if◌then◌else◌,
}

abbrev pub Bytes : Type 0
Bytes = ℕ → ℕ

-- `*(uint8_t *)(m + a) = v`.
unfoldable pub store8 : Bytes → ℕ → ℕ → Bytes
store8 m a v i = if i == a then v % 2 ^ 8 else m i

unfoldable pub load16 : Bytes → ℕ → ℕ
load16 m a = m a + 2 ^ 8 * m (a + 1)

unfoldable pub load32 : Bytes → ℕ → ℕ
load32 m a = m a + 2 ^ 8 * m (a + 1) + 2 ^ 16 * m (a + 2) + 2 ^ 24 * m (a + 3)

unfoldable pub store16 : Bytes → ℕ → ℕ → Bytes
unfolding store8
store16 m a v = store8 (store8 m a v) (a + 1) (v / 2 ^ 8)

unfoldable pub store32 : Bytes → ℕ → ℕ → Bytes
unfolding store16
store32 m a v = store16 (store16 m a v) (a + 2) (v / 2 ^ 16)

-- `htons` and `ntohs` of a little-endian host: the argument is cut to 16 bits and swapped.
unfoldable pub htons : ℕ → ℕ
htons v = v % 2 ^ 8 * 2 ^ 8 + v / 2 ^ 8 % 2 ^ 8

-- `htonl` and `ntohl`.
unfoldable pub htonl : ℕ → ℕ
htonl v =
    v % 2 ^ 8 * 2 ^ 24
    + v / 2 ^ 8 % 2 ^ 8 * 2 ^ 16
    + v / 2 ^ 16 % 2 ^ 8 * 2 ^ 8
    + v / 2 ^ 24 % 2 ^ 8

-- `memcpy(dst + d, src + s, n)`.
unfoldable pub memcpy : Bytes → ℕ → Bytes → ℕ → ℕ → Bytes
memcpy dst d src s n i = if leb d i && ltb i (d + n) then src (s + (i - d)) else dst i

-- `memset(m + a, v, n)`.
unfoldable pub memset : Bytes → ℕ → ℕ → ℕ → Bytes
memset m a v n i = if leb a i && ltb i (a + n) then v % 2 ^ 8 else m i

-- `memcmp(p + a, q + b, n) == 0`.
unfoldable pub same_bytes : Bytes → ℕ → Bytes → ℕ → ℕ → Bool
same_bytes p a q b zero = true
same_bytes p a q b (suc n) = (p a == q b) && same_bytes p (a + 1) q (b + 1) n
