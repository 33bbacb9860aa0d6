-- ===== src/Print/Within.antt =====
-- print_hdrs reads nothing behind the length that it is given.
use nw_proj.Base.{
  ℕ, zero, suc, ◌+◌, ◌≤◌, ◌<◌, ◌≡◌, refl, arith, inl, inr, Bool-cases, ltb, ◌++◌, ap,
}
use nw_proj.Memory.{Bytes, load16, load32, htons}
use nw_proj.Text.{Text}
use nw_proj.Print.{
  addr_eth_from, print_addr_eth, print_hdr_eth, print_hdr_ip, print_hdr_icmp, print_hdr_arp,
  print_hdrs, ethertype, ip_protocol, print_icmp, print_ip, print_arp, codes,
}

-- The first `k` bytes are the same.
abbrev pub Agree : ℕ → Bytes → Bytes → Type 0
Agree k m n = (i : ℕ) → i < k → m i ≡ n i

module _ (m n : Bytes) (k : ℕ) (same : Agree k m n) where
  load16-Agree : (a : ℕ) → a + 1 < k → load16 m a ≡ load16 n a
  unfolding load16
  load16-Agree a h = omega (arith, same a (omega (arith, h)), same (a + 1) h)

  load32-Agree : (a : ℕ) → a + 3 < k → load32 m a ≡ load32 n a
  unfolding load32
  load32-Agree a h = omega (
    arith,
    same a (omega (arith, h)),
    same (a + 1) (omega (arith, h)),
    same (a + 2) (omega (arith, h)),
    same (a + 3) h,
  )

  addr_eth_from-Agree :
      (addr left pos : ℕ)
      → addr + (left + pos) ≤ k
      → addr_eth_from m addr left pos ≡ addr_eth_from n addr left pos
  unfolding addr_eth_from
  addr_eth_from-Agree addr zero pos h = refl
  addr_eth_from-Agree addr (suc left) pos h =
      rw
        (
          same (addr + pos) (omega (arith, h)),
          addr_eth_from-Agree addr left (pos + 1) (omega (arith, h)),
        )
        refl

  print_addr_eth-Agree : (addr : ℕ) → addr + 6 ≤ k → print_addr_eth m addr ≡ print_addr_eth n addr
  unfolding print_addr_eth
  print_addr_eth-Agree addr h =
      ap (λ (t : Text). t ++ codes "\n") (addr_eth_from-Agree addr 6 0 (omega (arith, h)))

  print_hdr_eth-Agree : (e : ℕ) → e + 14 ≤ k → print_hdr_eth m e ≡ print_hdr_eth n e
  unfolding print_hdr_eth
  print_hdr_eth-Agree e h =
      rw
        (
          print_addr_eth-Agree e (omega (arith, h)),
          print_addr_eth-Agree (e + 6) (omega (arith, h)),
          load16-Agree (e + 12) (omega (arith, h)),
        )
        refl

  print_hdr_ip-Agree : (i : ℕ) → i + 20 ≤ k → print_hdr_ip m i ≡ print_hdr_ip n i
  unfolding print_hdr_ip
  print_hdr_ip-Agree i h =
      rw
        (
          same i (omega (arith, h)),
          same (i + 1) (omega (arith, h)),
          load16-Agree (i + 2) (omega (arith, h)),
          load16-Agree (i + 4) (omega (arith, h)),
          load16-Agree (i + 6) (omega (arith, h)),
          same (i + 8) (omega (arith, h)),
          same (i + 9) (omega (arith, h)),
          load16-Agree (i + 10) (omega (arith, h)),
          load32-Agree (i + 12) (omega (arith, h)),
          load32-Agree (i + 16) (omega (arith, h)),
        )
        refl

  print_hdr_icmp-Agree : (c : ℕ) → c + 4 ≤ k → print_hdr_icmp m c ≡ print_hdr_icmp n c
  unfolding print_hdr_icmp
  print_hdr_icmp-Agree c h =
      rw
        (
          same c (omega (arith, h)),
          same (c + 1) (omega (arith, h)),
          load16-Agree (c + 2) (omega (arith, h)),
        )
        refl

  print_hdr_arp-Agree : (a : ℕ) → a + 28 ≤ k → print_hdr_arp m a ≡ print_hdr_arp n a
  unfolding print_hdr_arp
  print_hdr_arp-Agree a h =
      rw
        (
          load16-Agree a (omega (arith, h)),
          load16-Agree (a + 2) (omega (arith, h)),
          same (a + 4) (omega (arith, h)),
          same (a + 5) (omega (arith, h)),
          load16-Agree (a + 6) (omega (arith, h)),
          print_addr_eth-Agree (a + 8) (omega (arith, h)),
          load32-Agree (a + 14) (omega (arith, h)),
          print_addr_eth-Agree (a + 18) (omega (arith, h)),
          load32-Agree (a + 24) (omega (arith, h)),
        )
        refl

  print_icmp-Agree : print_icmp m k ≡ print_icmp n k
  unfolding print_icmp
  print_icmp-Agree = elim (Bool-cases (ltb k 38)) [
    | inl short ↦ rw (short, print_icmp) refl
    | inr long ↦ rw (long, print_icmp) (print_hdr_icmp-Agree 34 (ground arith))
  ]

  print_ip-Agree : print_ip m k ≡ print_ip n k
  unfolding print_ip ip_protocol
  print_ip-Agree = elim (Bool-cases (ltb k 34)) [
    | inl short ↦ rw (short, print_ip) refl
    | inr long ↦
        let enough : 34 ≤ k = ground (arith, long) in
        rw
          (
            long,
            print_hdr_ip-Agree 14 enough,
            same 23 (omega (arith, enough)),
            print_icmp-Agree,
            print_ip,
          )
          refl
  ]

  print_arp-Agree : print_arp m k ≡ print_arp n k
  unfolding print_arp
  print_arp-Agree = elim (Bool-cases (ltb k 42)) [
    | inl short ↦ rw (short, print_arp) refl
    | inr long ↦ rw (long, print_arp) (print_hdr_arp-Agree 14 (ground arith))
  ]

  ethertype-Agree : 14 ≤ k → ethertype m 0 ≡ ethertype n 0
  unfolding ethertype
  ethertype-Agree h = ap htons (load16-Agree 12 (omega (arith, h)))

  -- What print_hdrs writes depends on no byte behind the length: two buffers whose first `k` bytes
  -- are the same are printed in the same way with length `k`, whatever their headers say.
  pub print_hdrs-Agree : print_hdrs m k ≡ print_hdrs n k
  unfolding print_hdrs
  print_hdrs-Agree = elim (Bool-cases (ltb k 14)) [
    | inl short ↦ rw (short, print_hdrs) refl
    | inr long ↦
        let enough : 14 ≤ k = ground (arith, long) in
        rw
          (
            long,
            print_hdr_eth-Agree 0 enough,
            ethertype-Agree enough,
            print_ip-Agree,
            print_arp-Agree,
            print_hdrs,
          )
          refl
  ]
