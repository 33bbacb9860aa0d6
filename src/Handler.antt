-- ===== src/Handler.antt =====
-- sr_handlepacket of sr_router.c. The Ethernet header stands at 0 of the lent packet, the IP and
-- the ARP header at 14, the ICMP header at 34. The packet is changed in place and given back to
-- sr_vns_comm.c, which frees it: what counts of it is what was sent or queued.
pub mod Accept
pub mod Deliver
pub mod Drop
pub mod Forward
pub mod Errors
pub mod Echo
pub mod Miss
pub mod Arp
pub mod Crash
pub mod Sound
pub mod Safe
pub mod Calm
use nw_proj.Base.{
  ℕ, ◌+◌, ◌-◌, ◌^◌, Bool, true, false, not, ◌&&◌, ◌||◌, Option, none, some, List, [], ◌∷◌, ◌==◌,
  ltb, if◌then◌else◌,
}
use nw_proj.Memory.{Bytes, store8, store16, store32, load16, load32, htons, memcpy}
use nw_proj.Protocol.{
  sizeof_ethernet, sizeof_ip, sizeof_icmp, sizeof_arp, ether_dhost, ether_shost, ether_type,
  ether_addr_len, ethertype_arp, ethertype_ip, ip_v, ip_ttl, ip_p, ip_sum, ip_src, ip_dst, init_ttl,
  ip_protocol_icmp, ip_protocol_tcp, ip_protocol_udp, icmp_type, icmp_sum, icmp_data_size, ar_op,
  ar_sha, ar_sip, ar_tha, ar_tip, arp_op_request, arp_op_reply,
}
use nw_proj.Checksum.{checksum_ok, put_checksum}
use nw_proj.Text.{Text}
use nw_proj.Instance.{Iface, Packet, ArpReq, Sr, Env, Outcome, ok, ◌>>=◌, deref}
use nw_proj.Interfaces.{sr_get_interface}
use nw_proj.Routing.{sr_find_lpm_entry}
use nw_proj.ArpCache.{
  sr_arpcache_lookup, sr_arpcache_queuereq, sr_arpcache_insert, sr_arpreq_destroy,
}
use nw_proj.Icmp.{i_hdr, ic_hdr, error_len, unreachable_packet, time_exceeded_packet}
use nw_proj.Send.{sr_send_packet}
use nw_proj.ArpRequest.{sr_arpcache_handle_arpreq, hand_over}
use nw_proj.Blacklist.{ip_black_list}

abbrev pub a_hdr : ℕ
a_hdr = sizeof_ethernet

-- The loop over the interfaces for the datagram's destination.
unfoldable pub is_local : List Iface → ℕ → Bool
is_local [] ip = false
is_local (i ∷ is) ip = let rest = is_local is ip in if ip == i.ip then true else rest

-- The datagram as an echo reply: its addresses exchanged, and both checksums made anew.
unfoldable pub echo_reply_packet : Bytes → ℕ → Bytes
echo_reply_packet p len =
    let m1 = store8 p (ip_ttl i_hdr) init_ttl in
    let ipaddr = load32 m1 (ip_src i_hdr) in
    let m2 = store32 m1 (ip_src i_hdr) (load32 m1 (ip_dst i_hdr)) in
    let m3 = store32 m2 (ip_dst i_hdr) ipaddr in
    let m4 = put_checksum m3 i_hdr (ip_sum i_hdr) sizeof_ip in
    let m5 = store8 m4 (icmp_type ic_hdr) 0 in
    put_checksum m5 ic_hdr (icmp_sum ic_hdr) (len - sizeof_ethernet - sizeof_ip)

-- `ip_ttl--` on a byte, and the header's checksum made anew.
unfoldable pub forwarded_packet : Bytes → Bytes
forwarded_packet p =
    put_checksum (store8 p (ip_ttl i_hdr) (p (ip_ttl i_hdr) + 2 ^ 8 - 1)) i_hdr (ip_sum i_hdr)
      sizeof_ip

-- The ARP request as a reply: sender and target exchanged, the interface as the sender.
unfoldable pub arp_reply_packet : Bytes → Iface → Bytes
arp_reply_packet p ifc =
    let m1 = store16 p (ar_op a_hdr) (htons arp_op_reply) in
    let m2 = store32 m1 (ar_tip a_hdr) (load32 m1 (ar_sip a_hdr)) in
    let m3 = store32 m2 (ar_sip a_hdr) ifc.ip in
    let m4 = memcpy m3 (ether_dhost 0) m3 (ether_shost 0) ether_addr_len in
    let m5 = memcpy m4 (ar_tha a_hdr) m4 (ar_sha a_hdr) ether_addr_len in
    let m6 = memcpy m5 (ether_shost 0) ifc.addr 0 ether_addr_len in
    memcpy m6 (ar_sha a_hdr) ifc.addr 0 ether_addr_len

module _ (env : Env) where
  -- The packets that waited, each sent to `mac`.
  unfoldable pub send_waiting : Bytes → List Packet → Sr → Sr
  send_waiting mac [] sr = sr
  send_waiting mac (pck ∷ pcks) sr =
      send_waiting mac pcks
        (sr_send_packet env sr (memcpy pck.buf (ether_dhost 0) mac 0 ether_addr_len) pck.len
          pck.iface).0

  -- `none` is the null pointer of an address that nobody waited for. The request left the queue
  -- when it was returned; its packets are freed with it.
  unfoldable pub answer_waiting : Bytes → Option ArpReq → Sr → Sr
  answer_waiting mac none sr = sr
  answer_waiting mac (some req) sr =
      let sr' = send_waiting mac req.packets sr in
      record sr' { cache = sr_arpreq_destroy sr'.cache req.address }

  unfoldable pub handle_arp_reply : Sr → Bytes → Sr
  handle_arp_reply sr p =
      let mac : Bytes = λ i. p (ar_sha a_hdr + i) in
      let (cache, arpreq) = sr_arpcache_insert env.now sr.cache mac (load32 p (ar_sip a_hdr)) in
      answer_waiting mac arpreq (record sr { cache = cache })

  -- The ARP half of sr_handlepacket.
  unfoldable pub handle_arp : Sr → Bytes → ℕ → Text → Outcome Sr
  handle_arp sr p len interface = if ltb (len - sizeof_ethernet) sizeof_arp then ok sr else (do
    ifc ← deref (sr_get_interface sr.if_list interface)
    if load32 p (ar_tip a_hdr) == ifc.ip
        then if load16 p (ar_op a_hdr) == htons arp_op_request
          then ok (sr_send_packet env sr (arp_reply_packet p ifc) len interface).0
          else if load16 p (ar_op a_hdr) == htons arp_op_reply
          then ok (handle_arp_reply sr p)
          else ok sr
        else ok sr)

  module _ (fuel : ℕ) where
    -- The end of every branch that sends a datagram.
    unfoldable pub deliver : Sr → Bytes → ℕ → Text → ℕ → Outcome Sr
    deliver sr m len iface ip = hand_over env (sr_arpcache_handle_arpreq env fuel) sr m len iface ip

    -- An ICMP message for the router, `len` bytes long in all.
    unfoldable pub handle_icmp : Sr → Bytes → ℕ → Outcome Sr
    handle_icmp sr p len =
        if ltb (len - sizeof_ethernet - sizeof_ip) sizeof_icmp
        then ok sr
        else if not (p (icmp_type ic_hdr) == 0x08)
        then ok sr
        else if not (checksum_ok p ic_hdr (icmp_sum ic_hdr) (len - sizeof_ethernet - sizeof_ip))
        then ok sr
        else (let reply = echo_reply_packet p len in
            let ipaddr = load32 p (ip_src i_hdr) in
            elim (sr_find_lpm_entry sr.routing_table (load32 reply (ip_dst i_hdr))) [
              | none ↦ ok sr
              | some rtentry ↦ do
                ifc ← deref (sr_get_interface sr.if_list rtentry.interface)
                deliver sr (memcpy reply (ether_shost 0) ifc.addr 0 ether_addr_len) len
                    rtentry.interface ipaddr
            ])

    -- The ICMP error messages go back by the interface that the datagram came from.
    unfoldable pub send_unreachable : ℕ → Sr → Bytes → Text → Outcome Sr
    send_unreachable code sr p interface = do
      ifc ← deref (sr_get_interface sr.if_list interface)
      deliver sr (unreachable_packet env.uninit ifc code p) error_len interface
          (load32 p (ip_src i_hdr))

    unfoldable pub send_time_exceeded : Sr → Bytes → Text → Outcome Sr
    send_time_exceeded sr p interface = do
      ifc ← deref (sr_get_interface sr.if_list interface)
      deliver sr (time_exceeded_packet env.uninit ifc p) error_len interface
          (load32 p (ip_src i_hdr))

    -- A TCP segment or UDP datagram for the router.
    unfoldable pub handle_tcp_udp : Sr → Bytes → ℕ → Text → Outcome Sr
    handle_tcp_udp sr p len interface =
        if ltb (len - sizeof_ethernet - sizeof_ip + sizeof_ip) icmp_data_size
        then ok sr
        else send_unreachable 3 sr p interface

    -- A datagram for one of the router's addresses.
    unfoldable pub handle_local : Sr → Bytes → ℕ → Text → Outcome Sr
    handle_local sr p len interface =
        if p (ip_p i_hdr) == ip_protocol_icmp
        then handle_icmp sr p len
        else if p (ip_p i_hdr) == ip_protocol_tcp || p (ip_p i_hdr) == ip_protocol_udp
        then handle_tcp_udp sr p len interface
        else ok sr

    -- A datagram for elsewhere.
    unfoldable pub handle_transit : Sr → Bytes → ℕ → Text → Outcome Sr
    handle_transit sr p len interface =
        elim (sr_find_lpm_entry sr.routing_table (load32 p (ip_dst i_hdr))) [
          | none ↦ send_unreachable 0 sr p interface
          | some rtentry ↦ if p (ip_ttl i_hdr) == 1 then send_time_exceeded sr p interface else (do
            ifc ← deref (sr_get_interface sr.if_list rtentry.interface)
            deliver sr (memcpy (forwarded_packet p) (ether_shost 0) ifc.addr 0 ether_addr_len) len
                rtentry.interface (load32 p (ip_dst i_hdr)))
        ]

    -- The IP half of sr_handlepacket.
    unfoldable pub handle_ip : Sr → Bytes → ℕ → Text → Outcome Sr
    handle_ip sr p len interface =
        if ltb (len - sizeof_ethernet) sizeof_ip
        then ok sr
        else if not (ip_v p i_hdr == 0x4)
        then ok sr
        else if not (checksum_ok p i_hdr (ip_sum i_hdr) sizeof_ip)
        then ok sr
        else if ip_black_list p i_hdr
        then ok sr
        else if is_local sr.if_list (load32 p (ip_dst i_hdr))
        then handle_local sr p len interface
        else handle_transit sr p len interface

    unfoldable pub sr_handlepacket : Sr → Bytes → ℕ → Text → Outcome Sr
    sr_handlepacket sr packet len interface =
        if ltb len sizeof_ethernet
        then ok sr
        else if load16 packet (ether_type 0) == htons ethertype_ip
        then handle_ip sr packet len interface
        else if load16 packet (ether_type 0) == htons ethertype_arp
        then handle_arp sr packet len interface
        else ok sr
