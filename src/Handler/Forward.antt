-- ===== src/Handler/Forward.antt =====
-- Datagrams in transit: what is sent where the next hop's hardware address is known.
use nw_proj.Base.{ℕ, ◌+◌, ◌-◌, ◌%◌, ◌^◌, ◌≤◌, ◌<◌, ◌≡◌, ◌≢◌, arith, ◌∙◌, some, All}
use nw_proj.Memory.{Bytes, load32, memcpy, store8}
use nw_proj.Memory.Laws.{IsBytes, store8-IsBytes}
use nw_proj.Protocol.{ip_dst, ip_ttl, sizeof_ip}
use nw_proj.Checksum.Verify.{put_checksum-valid, put_checksum-outside}
use nw_proj.Checksum.Words.{word_sum, word_sum-ext}
use nw_proj.Text.{Text}
use nw_proj.Instance.{Iface, RtEntry, ArpEntry, Sr, Env, ok}
use nw_proj.Interfaces.{sr_get_interface}
use nw_proj.Routing.{sr_find_lpm_entry}
use nw_proj.ArpCache.{sr_arpcache_lookup}
use nw_proj.Icmp.{i_hdr}
use nw_proj.Send.Laws.{wrote}
use nw_proj.Handler.{forwarded_packet, handle_transit, sr_handlepacket}
use nw_proj.Handler.Accept.{IsAccepted, sr_handlepacket-IsAccepted}
use nw_proj.Handler.Deliver.{
  addressed, addressed-dhost, addressed-shost, addressed-rest, deliver-hit, memcpy-shost,
  is_local-All,
}

-- `frame` is the datagram `p` one hop further: the Ethernet addresses are those of the hop, the
-- time to live is one less as a byte, the IP header is valid, and no other byte differs.
pub record IsForwarded (p : Bytes) (shost dhost : Bytes) (frame : Bytes) : Type 0 where
  pub destination : (k : ℕ) → k < 6 → frame k ≡ dhost k
  pub source : (k : ℕ) → k < 6 → frame (6 + k) ≡ shost k
  pub time_to_live : frame (ip_ttl i_hdr) ≡ (p (ip_ttl i_hdr) + 255) % 256
  pub checksum : word_sum frame i_hdr sizeof_ip % 65535 ≡ 0
  pub rest : (i : ℕ) → 12 ≤ i → i ≢ 22 → i ≢ 24 → i ≢ 25 → frame i ≡ p i

forwarded_packet-rest : (p : Bytes) (i : ℕ) → i ≢ 22 → i ≢ 24 → i ≢ 25 → forwarded_packet p i ≡ p i
unfolding forwarded_packet
forwarded_packet-rest p i a b c =
    put_checksum-outside (store8 p 22 (p 22 + 2 ^ 8 - 1)) i_hdr 24 sizeof_ip i (omega arith)
    ∙ unfold store8 in ground arith

forwarded_packet-ttl : (p : Bytes) → forwarded_packet p 22 ≡ (p 22 + 255) % 256
unfolding forwarded_packet
forwarded_packet-ttl p =
    put_checksum-outside (store8 p 22 (p 22 + 2 ^ 8 - 1)) i_hdr 24 sizeof_ip 22 (omega arith)
    ∙ unfold store8 in ground arith

forwarded_packet-checksum :
    (p : Bytes) → IsBytes p → word_sum (forwarded_packet p) i_hdr sizeof_ip % 65535 ≡ 0
unfolding forwarded_packet
forwarded_packet-checksum p b =
    put_checksum-valid (store8 p 22 (p 22 + 2 ^ 8 - 1)) i_hdr 5 sizeof_ip (store8-IsBytes p 22 _ b)
      (omega arith) (omega arith)

addressed-IsForwarded :
    (p shost dhost : Bytes)
    → IsBytes p
    → IsForwarded p shost dhost (addressed (forwarded_packet p) shost dhost)
addressed-IsForwarded p shost dhost b = record {
  destination = addressed-dhost m shost dhost;
  source = addressed-shost m shost dhost;
  time_to_live = addressed-rest m shost dhost 22 (omega arith) ∙ forwarded_packet-ttl p;
  checksum =
      rw
        (word_sum-ext (addressed m shost dhost) m i_hdr sizeof_ip
          λ i at below. addressed-rest m shost dhost i (omega arith))
        (forwarded_packet-checksum p b);
  rest = λ i at ttl low high.
      addressed-rest m shost dhost i at ∙ forwarded_packet-rest p i ttl low high;
}
  where
    m : Bytes
    m = forwarded_packet p

module _ (env : Env) (fuel : ℕ) (sr : Sr) (p : Bytes) (len : ℕ) (interface : Text) (rt : RtEntry)
    (ifc : Iface) (entry : ArpEntry) where
  -- An accepted datagram for none of the router's addresses, whose time to live is not 1, whose
  -- destination has a route by an interface that exists and a hardware address in the cache, is
  -- forwarded: one frame is written, on the route's interface and of the length received, which
  -- is the datagram one hop further, and nothing else of the router changes.
  pub sr_handlepacket-IsForwarded :
      IsBytes p
      → IsAccepted p len
      → All (λ i. load32 p (ip_dst i_hdr) ≢ i.ip) sr.if_list
      → p (ip_ttl i_hdr) ≢ 1
      → sr_find_lpm_entry sr.routing_table (load32 p (ip_dst i_hdr)) ≡ some rt
      → sr_get_interface sr.if_list rt.interface ≡ some ifc
      → sr_arpcache_lookup sr.cache (load32 p (ip_dst i_hdr)) ≡ some entry
      → (frame : Bytes) × (sr_handlepacket env fuel sr p len interface
          ≡ ok (wrote sr frame len rt.interface))
        × IsForwarded p ifc.addr entry.mac frame
  unfolding handle_transit
  sr_handlepacket-IsForwarded b a elsewhere alive route found known = (
    addressed (forwarded_packet p) ifc.addr entry.mac,
    sr_handlepacket-IsAccepted env fuel sr p len interface b a
        ∙ ground (
          arith,
          is_local-All sr.if_list (load32 p (ip_dst i_hdr)) elsewhere,
          deliver-hit env fuel sr (memcpy (forwarded_packet p) 6 ifc.addr 0 6) len rt.interface
              (load32 p (ip_dst i_hdr)) ifc entry (omega (arith, a.long))
              (memcpy-shost (forwarded_packet p) ifc.addr) found known,
        ),
    addressed-IsForwarded p ifc.addr entry.mac b,
  )
