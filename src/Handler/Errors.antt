-- ===== src/Handler/Errors.antt =====
-- The ICMP errors that sr_handlepacket sends where the hardware address of the datagram's source
-- is known.
use nw_proj.Base.{ℕ, ◌+◌, ◌≤◌, ◌<◌, ◌≡◌, ◌≢◌, ◌⊎◌, arith, ◌∙◌, some, none, All}
use nw_proj.Memory.{Bytes, load32, memcpy}
use nw_proj.Protocol.{ip_dst, ip_src, ip_ttl, ip_p, sizeof_ethernet}
use nw_proj.Text.{Text}
use nw_proj.Instance.{Iface, RtEntry, ArpEntry, Sr, Env, Outcome, ok}
use nw_proj.Interfaces.{sr_get_interface}
use nw_proj.Routing.{sr_find_lpm_entry}
use nw_proj.ArpCache.{sr_arpcache_lookup}
use nw_proj.Icmp.{i_hdr, error_len, unreachable_packet, time_exceeded_packet}
use nw_proj.Icmp.Laws.{
  unreachable_packet-IsIcmpError, time_exceeded_packet-IsIcmpError, unreachable_packet-shost,
  time_exceeded_packet-shost,
}
use nw_proj.Send.Laws.{wrote}
use nw_proj.Icmp.Frames.{IsErrorFrame, AreBytes, IsErrorFrame-memcpy}
use nw_proj.Handler.{
  handle_local, handle_transit, handle_tcp_udp, send_unreachable, send_time_exceeded,
  sr_handlepacket,
}
use nw_proj.Handler.Accept.{IsAccepted, sr_handlepacket-IsAccepted}
use nw_proj.Handler.Deliver.{deliver-hit, is_local-All, is_local-HasAddress, HasAddress}

module _ (env : Env) (fuel : ℕ) (sr : Sr) (p : Bytes) (interface : Text) (ifc : Iface)
    (entry : ArpEntry) (b : AreBytes env ifc p)
    (found : sr_get_interface sr.if_list interface ≡ some ifc)
    (known : sr_arpcache_lookup sr.cache (load32 p (ip_src i_hdr)) ≡ some entry) where
  -- One frame is written, on the interface that the datagram came from.
  abbrev pub Answers : ℕ → ℕ → Outcome Sr → Type 0
  Answers type code r =
      (frame : Bytes) × (r ≡ ok (wrote sr frame error_len interface))
      × IsErrorFrame type code ifc entry p frame

  send_unreachable-Answers :
      (code : ℕ) → code < 256 → Answers 3 code (send_unreachable env fuel code sr p interface)
  unfolding send_unreachable
  send_unreachable-Answers code small = (
    memcpy (unreachable_packet env.uninit ifc code p) 0 entry.mac 0 6,
    rw (found, send_unreachable)
        (deliver-hit env fuel sr (unreachable_packet env.uninit ifc code p) error_len interface
          (load32 p (ip_src i_hdr)) ifc entry (omega arith)
          (unreachable_packet-shost env.uninit ifc code p) found known),
    IsErrorFrame-memcpy 3 code ifc entry p _
        (unreachable_packet-IsIcmpError env.uninit ifc p b.fresh b.mac b.ip b.packet code small)
        (unreachable_packet-shost env.uninit ifc code p),
  )

  send_time_exceeded-Answers : Answers 11 0 (send_time_exceeded env fuel sr p interface)
  unfolding send_time_exceeded
  send_time_exceeded-Answers = (
    memcpy (time_exceeded_packet env.uninit ifc p) 0 entry.mac 0 6,
    rw (found, send_time_exceeded)
        (deliver-hit env fuel sr (time_exceeded_packet env.uninit ifc p) error_len interface
          (load32 p (ip_src i_hdr)) ifc entry (omega arith)
          (time_exceeded_packet-shost env.uninit ifc p) found known),
    IsErrorFrame-memcpy 11 0 ifc entry p _
        (time_exceeded_packet-IsIcmpError env.uninit ifc p b.fresh b.mac b.ip b.packet)
        (time_exceeded_packet-shost env.uninit ifc p),
  )

  module _ (len : ℕ) (a : IsAccepted p len) where
    -- An accepted TCP segment or UDP datagram for one of the router's addresses, of 28 bytes at
    -- least, whose source has a hardware address in the cache, is answered by port unreachable.
    pub sr_handlepacket-port_unreachable :
        HasAddress sr.if_list (load32 p (ip_dst i_hdr))
        → (p (ip_p i_hdr) ≡ 6) ⊎ (p (ip_p i_hdr) ≡ 17)
        → sizeof_ethernet + 28 ≤ len
        → Answers 3 3 (sr_handlepacket env fuel sr p len interface)
    unfolding handle_local handle_tcp_udp
    sr_handlepacket-port_unreachable mine protocol long =
        let (frame, sent, is) = send_unreachable-Answers 3 (omega arith) in
        (
          frame,
          sr_handlepacket-IsAccepted env fuel sr p len interface b.packet a
              ∙ ground (arith, is_local-HasAddress sr.if_list (load32 p (ip_dst i_hdr)) mine, sent),
          is,
        )

    -- An accepted datagram for elsewhere that has a route and arrives with time to live 1 is
    -- answered by time exceeded, and not forwarded.
    pub sr_handlepacket-time_exceeded :
        (rt : RtEntry)
        → All (λ i. load32 p (ip_dst i_hdr) ≢ i.ip) sr.if_list
        → sr_find_lpm_entry sr.routing_table (load32 p (ip_dst i_hdr)) ≡ some rt
        → p (ip_ttl i_hdr) ≡ 1
        → Answers 11 0 (sr_handlepacket env fuel sr p len interface)
    unfolding handle_transit
    sr_handlepacket-time_exceeded rt elsewhere route last =
        let (frame, sent, is) = send_time_exceeded-Answers in
        (
          frame,
          sr_handlepacket-IsAccepted env fuel sr p len interface b.packet a
              ∙ ground
                  (arith, is_local-All sr.if_list (load32 p (ip_dst i_hdr)) elsewhere, route, sent),
          is,
        )

    -- An accepted datagram for elsewhere that has no route is answered by an ICMP message of type
    -- 3 and code 0, net unreachable.
    pub sr_handlepacket-no_route :
        All (λ i. load32 p (ip_dst i_hdr) ≢ i.ip) sr.if_list
        → sr_find_lpm_entry sr.routing_table (load32 p (ip_dst i_hdr)) ≡ none
        → Answers 3 0 (sr_handlepacket env fuel sr p len interface)
    unfolding handle_transit
    sr_handlepacket-no_route elsewhere missing =
        let (frame, sent, is) = send_unreachable-Answers 0 (omega arith) in
        (
          frame,
          sr_handlepacket-IsAccepted env fuel sr p len interface b.packet a
              ∙ ground (
                arith,
                is_local-All sr.if_list (load32 p (ip_dst i_hdr)) elsewhere,
                missing,
                sent,
              ),
          is,
        )
