-- ===== src/Memory/Laws.antt =====
-- What a store leaves in memory, byte by byte and field by field.
use nw_proj.Base.{ℕ, zero, suc, ◌+◌, ◌-◌, ◌*◌, ◌^◌, ◌≤◌, ◌<◌, ◌⊎◌, ◌≢◌, ◌≡◌, true, arith, refl}
use nw_proj.Memory.{
  Bytes, store8, load16, load32, store16, store32, htons, htonl, memcpy, same_bytes,
}

-- Every byte of the buffer is one.
abbrev pub IsBytes : Bytes → Type 0
IsBytes m = (i : ℕ) → m i < 256

pub store8-IsBytes : (m : Bytes) (a v : ℕ) → IsBytes m → IsBytes (store8 m a v)
unfolding store8
store8-IsBytes m a v h i = ground (arith, h i)

pub store16-IsBytes : (m : Bytes) (a v : ℕ) → IsBytes m → IsBytes (store16 m a v)
unfolding store16
store16-IsBytes m a v h i = ground (arith, h i)

pub load16-store16 : (m : Bytes) (a v : ℕ) → v < 2 ^ 16 → load16 (store16 m a v) a ≡ v
unfolding load16 store16
load16-store16 m a v h = ground arith

pub load32-store32 : (m : Bytes) (a v : ℕ) → v < 2 ^ 32 → load32 (store32 m a v) a ≡ v
unfolding load32 store32
load32-store32 m a v h = ground arith

pub htons-htons : (v : ℕ) → v < 2 ^ 16 → htons (htons v) ≡ v
unfolding htons
htons-htons v h = omega arith

pub htonl-htonl : (v : ℕ) → v < 2 ^ 32 → htonl (htonl v) ≡ v
unfolding htonl
htonl-htonl v h = omega arith

pub htonl-lt : (v : ℕ) → htonl v < 2 ^ 32
unfolding htonl
htonl-lt v = omega arith

pub load32-lt : (m : Bytes) (a : ℕ) → IsBytes m → load32 m a < 2 ^ 32
unfolding load32
load32-lt m a h = omega (arith, h a, h (a + 1), h (a + 2), h (a + 3))

-- A 32-bit field in network order, read by the host: the first byte is the highest.
pub htonl-load32 :
    (m : Bytes) (a : ℕ)
    → IsBytes m
    → htonl (load32 m a) ≡ m a * 2 ^ 24 + m (a + 1) * 2 ^ 16 + m (a + 2) * 2 ^ 8 + m (a + 3)
unfolding htonl load32
htonl-load32 m a h = omega (arith, h a, h (a + 1), h (a + 2), h (a + 3))

-- `same_bytes` decides equality of the two ranges.
pub same_bytes→eq :
    (p : Bytes) (a : ℕ) (q : Bytes) (b n i : ℕ)
    → same_bytes p a q b n ≡ true
    → i < n
    → p (a + i) ≡ q (b + i)
unfolding same_bytes
same_bytes→eq p a q b zero i h lt = absurd (omega arith)
same_bytes→eq p a q b (suc n) zero h lt = ground arith
same_bytes→eq p a q b (suc n) (suc i) h lt = ground (arith, same_bytes→eq p (a + 1) q (b + 1) n i)

pub eq→same_bytes :
    (p : Bytes) (a : ℕ) (q : Bytes) (b n : ℕ)
    → ((i : ℕ) → i < n → p (a + i) ≡ q (b + i))
    → same_bytes p a q b n ≡ true
unfolding same_bytes
eq→same_bytes p a q b zero h = refl
eq→same_bytes p a q b (suc n) h =
    ground (arith, h 0, eq→same_bytes p (a + 1) q (b + 1) n (λ i lt. ground (arith, h (suc i))))

pub same_bytes-memcpy :
    (dst : Bytes) (d : ℕ) (src : Bytes) (s n : ℕ)
    → same_bytes (memcpy dst d src s n) d src s n ≡ true
same_bytes-memcpy dst d src s n =
    eq→same_bytes (memcpy dst d src s n) d src s n (λ i lt. unfold memcpy in ground arith)

pub load16-lt : (m : Bytes) (a : ℕ) → IsBytes m → load16 m a < 2 ^ 16
unfolding load16
load16-lt m a h = omega (arith, h a, h (a + 1))

pub htons-lt : (v : ℕ) → htons v < 2 ^ 16
unfolding htons
htons-lt v = omega arith

pub htons-pos : (v : ℕ) → v < 2 ^ 16 → 0 < v → 0 < htons v
unfolding htons
htons-pos v h p = omega arith

-- A copy to the start of a buffer, at a byte of the range.
pub memcpy-inside : (dst src : Bytes) (n k : ℕ) → k < n → memcpy dst 0 src 0 n k ≡ src k
unfolding memcpy
memcpy-inside dst src n k h = ground (arith, zero_plus k)
  where
    zero_plus : (i : ℕ) → 0 + (i - 0) ≡ i
    zero_plus i = omega arith

pub store32-IsBytes : (m : Bytes) (a v : ℕ) → IsBytes m → IsBytes (store32 m a v)
unfolding store32
store32-IsBytes m a v h i = ground (arith, h i)

pub memcpy-IsBytes :
    (dst : Bytes) (d : ℕ) (src : Bytes) (s n : ℕ)
    → IsBytes dst
    → IsBytes src
    → IsBytes (memcpy dst d src s n)
unfolding memcpy
memcpy-IsBytes dst d src s n h k i = ground (arith, h i, k (s + (i - d)))

-- Bytes outside the range of an access.
pub store8-outside : (m : Bytes) (a v i : ℕ) → i ≢ a → store8 m a v i ≡ m i
unfolding store8
store8-outside m a v i h = ground arith

pub store16-outside : (m : Bytes) (a v i : ℕ) → (i < a) ⊎ (a + 1 < i) → store16 m a v i ≡ m i
unfolding store16
store16-outside m a v i h = ground arith

pub store32-outside : (m : Bytes) (a v i : ℕ) → (i < a) ⊎ (a + 3 < i) → store32 m a v i ≡ m i
unfolding store32
store32-outside m a v i h = ground arith

pub memcpy-outside :
    (dst : Bytes) (d : ℕ) (src : Bytes) (s n i : ℕ)
    → (i < d) ⊎ (d + n ≤ i)
    → memcpy dst d src s n i ≡ dst i
unfolding memcpy
memcpy-outside dst d src s n i h = ground arith
