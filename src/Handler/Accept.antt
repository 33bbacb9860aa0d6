-- ===== src/Handler/Accept.antt =====
-- Which datagrams sr_handlepacket lets in, in the terms of the protocols.
use nw_proj.Base.{
  ℕ, ◌+◌, ◌/◌, ◌%◌, ◌≤◌, ◌≡◌, ◌≢◌, ◌⊎◌, inl, inr, true, false, arith, if◌then◌else◌, Bool-cases,
}
use nw_proj.Memory.{Bytes, load16, load32, htons}
use nw_proj.Memory.Laws.{IsBytes}
use nw_proj.Protocol.{ethertype_ip, ether_type, ip_sum, ip_dst, sizeof_ip, sizeof_ethernet}
use nw_proj.Checksum.{checksum_ok}
use nw_proj.Checksum.Verify.{checksum_ok_iff}
use nw_proj.Checksum.Words.{word_sum}
use nw_proj.Text.{Text}
use nw_proj.Instance.{Sr, Env}
use nw_proj.Icmp.{i_hdr}
use nw_proj.Blacklist.{ip_black_list, InBlock, ip_black_list_iff}
use nw_proj.Handler.{is_local, handle_local, handle_transit, handle_ip, sr_handlepacket}

-- The checksum field is set and the IP header's words add up to zero in one's complement.
abbrev pub HasIpChecksum : Bytes → Type 0
HasIpChecksum p = (word_sum p i_hdr sizeof_ip % 65535 ≡ 0) × (load16 p (ip_sum i_hdr) ≢ 0)

-- Neither address of the datagram lies in 10.0.2.0/24.
abbrev pub IsOpen : Bytes → Type 0
IsOpen p = ¬ (InBlock p (i_hdr + 12) ⊎ InBlock p (i_hdr + 16))

-- An Ethernet frame with a whole IPv4 header, a checksum that is right, and open addresses.
pub record IsAccepted (p : Bytes) (len : ℕ) : Type 0 where
  pub long : sizeof_ethernet + sizeof_ip ≤ len
  pub is_ip : load16 p (ether_type 0) ≡ htons ethertype_ip
  pub version : p i_hdr / 16 ≡ 4
  pub checksum : HasIpChecksum p
  pub open_addresses : IsOpen p

pub checksum_ok_ip :
    (p : Bytes) → IsBytes p → HasIpChecksum p → checksum_ok p i_hdr (ip_sum i_hdr) sizeof_ip ≡ true
checksum_ok_ip p b h = (checksum_ok_iff p i_hdr 5 sizeof_ip b (omega arith) (omega arith)).1 h

pub ip_black_list_open : (p : Bytes) → IsBytes p → IsOpen p → ip_black_list p i_hdr ≡ false
ip_black_list_open p b h = elim (Bool-cases (ip_black_list p i_hdr)) [
  | inl hit ↦ absurd (h ((ip_black_list_iff p i_hdr b).0 hit))
  | inr miss ↦ miss
]

-- Such a datagram is handled as one for the router or as one for elsewhere.
pub sr_handlepacket-IsAccepted :
    (env : Env) (fuel : ℕ) (sr : Sr) (p : Bytes) (len : ℕ) (interface : Text)
    → IsBytes p
    → IsAccepted p len
    → sr_handlepacket env fuel sr p len interface ≡ (
        if is_local sr.if_list (load32 p (ip_dst i_hdr))
        then handle_local env fuel sr p len interface
        else handle_transit env fuel sr p len interface)
unfolding sr_handlepacket handle_ip
sr_handlepacket-IsAccepted env fuel sr p len interface b a = ground (
  arith,
  checksum_ok_ip p b a.checksum,
  ip_black_list_open p b a.open_addresses,
  a.long,
  a.is_ip,
  a.version,
)
