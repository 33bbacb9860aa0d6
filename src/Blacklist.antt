-- ===== src/Blacklist.antt =====
-- ip_black_list of sr_router.c.
use nw_proj.Base.{
  ℕ, ◌+◌, ◌*◌, ◌^◌, ◌≡◌, ◌⊎◌, ◌↔◌, inl, inr, Bool, true, arith, ◌==◌, bit_and, if◌then◌else◌,
  Bool-cases,
}
use nw_proj.Base.Bits.{bit_and-low_mask}
use nw_proj.Memory.{Bytes, load32}
use nw_proj.Memory.Laws.{IsBytes}
use nw_proj.Protocol.{ip_src, ip_dst}

-- `inet_addr` of the dotted address a.b.c.d: in network order, as loaded by the host.
unfoldable pub inet_addr : ℕ → ℕ → ℕ → ℕ → ℕ
inet_addr a b c d = a + 2 ^ 8 * b + 2 ^ 16 * c + 2 ^ 24 * d

-- The IP header stands at `i` of `m`.
unfoldable pub ip_black_list : Bytes → ℕ → Bool
ip_black_list m i =
    let mask_addr = inet_addr 255 255 255 0 in
    let block_addr = bit_and (inet_addr 10 0 2 0) mask_addr in
    if bit_and (load32 m (ip_src i)) mask_addr == block_addr
    then true
    else bit_and (load32 m (ip_dst i)) mask_addr == block_addr

-- The address whose first byte is at `a` lies in 10.0.2.0/24.
abbrev pub InBlock : Bytes → ℕ → Type 0
InBlock m a = (m a ≡ 10) × (m (a + 1) ≡ 0) × (m (a + 2) ≡ 2)

masked : (m : Bytes) (a : ℕ) → IsBytes m → (bit_and (load32 m a) 0xffffff ≡ 0x2000a) ↔ InBlock m a
unfolding load32
masked m a h = (
  (λ e. omega (arith, bit_and-low_mask 24 (load32 m a), e, h a, h (a + 1), h (a + 2), h (a + 3))),
  (λ e. omega (arith, bit_and-low_mask 24 (load32 m a), e, h a, h (a + 1), h (a + 2), h (a + 3))),
)

-- A datagram is blocked exactly if its source or its destination lies in 10.0.2.0/24.
pub ip_black_list_iff :
    (m : Bytes) (i : ℕ)
    → IsBytes m
    → (ip_black_list m i ≡ true) ↔ (InBlock m (i + 12) ⊎ InBlock m (i + 16))
unfolding ip_black_list inet_addr
ip_black_list_iff m i h = (blocked, blocks)
  where
    blocked : ip_black_list m i ≡ true → InBlock m (i + 12) ⊎ InBlock m (i + 16)
    blocked e = elim (Bool-cases (bit_and (load32 m (i + 12)) 0xffffff == 0x2000a)) [
      | inl hit ↦ inl ((masked m (i + 12) h).0 (ground arith))
      | inr miss ↦ inr ((masked m (i + 16) h).0 (ground arith))
    ]

    blocks : InBlock m (i + 12) ⊎ InBlock m (i + 16) → ip_black_list m i ≡ true
    blocks (inl s) = ground (arith, (masked m (i + 12) h).1 s)
    blocks (inr d) = ground (arith, (masked m (i + 16) h).1 d)
