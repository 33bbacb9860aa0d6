-- ===== src/Handler/Drop.antt =====
-- The frames that sr_handlepacket drops.
use nw_proj.Base.{ℕ, ◌+◌, ◌/◌, ◌<◌, ◌≡◌, ◌≢◌, ◌⊎◌, inl, inr, false, arith, Bool-cases}
use nw_proj.Memory.{Bytes, load16, htons}
use nw_proj.Memory.Laws.{IsBytes}
use nw_proj.Protocol.{
  ethertype_ip, ethertype_arp, ether_type, ip_sum, sizeof_ip, sizeof_ethernet, sizeof_arp,
}
use nw_proj.Checksum.{checksum_ok}
use nw_proj.Checksum.Verify.{checksum_ok_iff}
use nw_proj.Text.{Text}
use nw_proj.Instance.{Sr, Env, ok}
use nw_proj.Icmp.{i_hdr}
use nw_proj.Blacklist.{InBlock, ip_black_list_iff}
use nw_proj.Handler.{handle_ip, handle_arp, sr_handlepacket}
use nw_proj.Handler.Accept.{HasIpChecksum}

-- A frame that no part of the router is to answer.
pub data IsDropped (p : Bytes) (len : ℕ) : Type 0 where
  no_ethernet : len < sizeof_ethernet → IsDropped p len
  other_type :
      load16 p (ether_type 0) ≢ htons ethertype_ip
      → load16 p (ether_type 0) ≢ htons ethertype_arp
      → IsDropped p len
  no_arp :
      load16 p (ether_type 0) ≡ htons ethertype_arp
      → len < sizeof_ethernet + sizeof_arp
      → IsDropped p len
  no_ip :
      load16 p (ether_type 0) ≡ htons ethertype_ip
      → len < sizeof_ethernet + sizeof_ip
      → IsDropped p len
  other_version : load16 p (ether_type 0) ≡ htons ethertype_ip → p i_hdr / 16 ≢ 4 → IsDropped p len
  bad_checksum : load16 p (ether_type 0) ≡ htons ethertype_ip → ¬ HasIpChecksum p → IsDropped p len
  blocked :
      load16 p (ether_type 0) ≡ htons ethertype_ip
      → InBlock p (i_hdr + 12) ⊎ InBlock p (i_hdr + 16)
      → IsDropped p len

htons_ip-ne-arp : htons ethertype_arp ≢ htons ethertype_ip
unfolding htons
htons_ip-ne-arp = omega arith

checksum_bad :
    (p : Bytes)
    → IsBytes p
    → ¬ HasIpChecksum p
    → checksum_ok p i_hdr (ip_sum i_hdr) sizeof_ip ≡ false
checksum_bad p b bad = elim (Bool-cases (checksum_ok p i_hdr (ip_sum i_hdr) sizeof_ip)) [
  | inl good ↦
      absurd (bad ((checksum_ok_iff p i_hdr 5 sizeof_ip b (omega arith) (omega arith)).0 good))
  | inr e ↦ e
]

module _ (env : Env) (fuel : ℕ) (sr : Sr) (p : Bytes) (len : ℕ) (interface : Text) where
  -- A frame is dropped, and the router stays as it was, if it is shorter than its headers, of
  -- another type than IP and ARP, of another version than 4, without a right IP checksum, or from
  -- or to 10.0.2.0/24.
  pub sr_handlepacket-IsDropped :
      IsBytes p → IsDropped p len → sr_handlepacket env fuel sr p len interface ≡ ok sr
  unfolding sr_handlepacket handle_ip handle_arp
  sr_handlepacket-IsDropped b (no_ethernet short) = ground arith
  sr_handlepacket-IsDropped b (other_type not_ip not_arp) = ground arith
  sr_handlepacket-IsDropped b (no_arp is_arp short) = ground (arith, htons_ip-ne-arp)
  sr_handlepacket-IsDropped b (no_ip is_ip short) = ground arith
  sr_handlepacket-IsDropped b (other_version is_ip other) = ground arith
  sr_handlepacket-IsDropped b (bad_checksum is_ip bad) = ground (arith, checksum_bad p b bad)
  sr_handlepacket-IsDropped b (blocked is_ip block) =
      ground (arith, (ip_black_list_iff p i_hdr b).1 block)
