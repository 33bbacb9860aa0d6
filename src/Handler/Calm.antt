-- ===== src/Handler/Calm.antt =====
-- sr_handlepacket ends where no request is to be given up now.
use nw_proj.Base.{ℕ, suc, ◌≡◌, arith, some, List, Option-cases, inl, inr}
use nw_proj.Memory.{memcpy, Bytes, load32, load16, htons}
use nw_proj.Protocol.{ip_src, ip_dst, ether_type, ethertype_ip}
use nw_proj.Text.{Text}
use nw_proj.Instance.{Iface, RtEntry, Sr, Env, ok, ◌>>=◌, deref, null_pointer}
use nw_proj.Outcomes.{Ends-crash, Ends, Ends-ok, Ends-deref, Ends-Safe}
use nw_proj.Interfaces.{sr_get_interface}
use nw_proj.Routing.{sr_find_lpm_entry, sr_verify_routing_table}
use nw_proj.Icmp.{i_hdr}
use nw_proj.Send.{sr_send_packet}
use nw_proj.ArpRequest.Safe.{IsHealthy, HasRoute}
use nw_proj.ArpRequest.Calm.{IsCalmReq, IsCalm, sr_send_packet-IsCalm, hand_over-IsCalm}
use nw_proj.Handler.{
  deliver, forwarded_packet, arp_reply_packet, echo_reply_packet, handle_arp_reply, handle_arp,
  handle_icmp, send_unreachable, send_time_exceeded, handle_tcp_udp, handle_local, handle_transit,
  handle_ip, sr_handlepacket, ether_shost, ether_addr_len,
}
use nw_proj.Handler.Safe.{handle_arp_reply-All, sr_handlepacket-Safe}

module _ (env : Env) where
  abbrev Calm : Sr → Type 0
  Calm = IsCalm env.now

  handle_arp-IsCalm :
      (sr : Sr) (p : Bytes) (len : ℕ) (interface : Text)
      → Calm sr
      → Ends Calm (handle_arp env sr p len interface)
  unfolding handle_arp
  handle_arp-IsCalm sr p len interface h =
      elim (Option-cases (sr_get_interface sr.if_list interface)) [
        | inl missing ↦
            rw (missing, handle_arp)
              (ground (arith, Ends-ok Calm sr h, Ends-crash Calm null_pointer))
        | inr (ifc, link) ↦
            rw (link, handle_arp)
              (ground (
                arith,
                Ends-ok Calm sr h,
                Ends-ok Calm (handle_arp_reply env sr p)
                    (handle_arp_reply-All (IsCalmReq env.now) env sr p h),
                Ends-ok Calm (sr_send_packet env sr (arp_reply_packet p ifc) len interface).0
                    (sr_send_packet-IsCalm env sr (arp_reply_packet p ifc) len interface h),
              ))
      ]

  deliver_by-IsCalm :
      (fuel : ℕ) (sr : Sr) (m : Bytes) (len ip : ℕ) (rt : RtEntry)
      → Calm sr
      → Ends Calm (
          deref (sr_get_interface sr.if_list rt.interface) >>= λ ifc.
          deliver env
            (suc fuel)
            sr
            (memcpy m (ether_shost 0) ifc.addr 0 ether_addr_len)
            len
            rt.interface
            ip)
  deliver_by-IsCalm fuel sr m len ip rt h =
      Ends-deref Calm _ (sr_get_interface sr.if_list rt.interface)
        (λ ifc. unfold deliver in hand_over-IsCalm env fuel sr _ len rt.interface ip h)

  module _ (fuel : ℕ) (sr : Sr) (p : Bytes) (interface : Text) (h : IsCalm env.now sr) where
    send_unreachable-IsCalm :
        (code : ℕ) → Ends Calm (send_unreachable env (suc fuel) code sr p interface)
    unfolding send_unreachable deliver
    send_unreachable-IsCalm code =
        Ends-deref Calm _ (sr_get_interface sr.if_list interface)
          (λ ifc. hand_over-IsCalm env fuel sr _ _ _ _ h)

    send_time_exceeded-IsCalm : Ends Calm (send_time_exceeded env (suc fuel) sr p interface)
    unfolding send_time_exceeded deliver
    send_time_exceeded-IsCalm =
        Ends-deref Calm _ (sr_get_interface sr.if_list interface)
          (λ ifc. hand_over-IsCalm env fuel sr _ _ _ _ h)

    handle_icmp-IsCalm : (len : ℕ) → Ends Calm (handle_icmp env (suc fuel) sr p len)
    unfolding handle_icmp
    handle_icmp-IsCalm len =
        let back = load32 (echo_reply_packet p len) (ip_dst i_hdr) in
        elim (Option-cases (sr_find_lpm_entry sr.routing_table back)) [
          | inl missing ↦ rw (missing, handle_icmp) (ground (arith, Ends-ok Calm sr h))
          | inr (rt, route) ↦
              rw (route, handle_icmp)
                (ground (
                  arith,
                  Ends-ok Calm sr h,
                  deliver_by-IsCalm fuel sr (echo_reply_packet p len) len (load32 p (ip_src i_hdr))
                      rt h,
                ))
        ]

    handle_transit-IsCalm : (len : ℕ) → Ends Calm (handle_transit env (suc fuel) sr p len interface)
    unfolding handle_transit
    handle_transit-IsCalm len =
        let dst = load32 p (ip_dst i_hdr) in
        elim (Option-cases (sr_find_lpm_entry sr.routing_table dst)) [
          | inl missing ↦ rw (missing, handle_transit) (send_unreachable-IsCalm 0)
          | inr (rt, route) ↦
              rw (route, handle_transit)
                (ground (
                  arith,
                  send_time_exceeded-IsCalm,
                  deliver_by-IsCalm fuel sr (forwarded_packet p) len dst rt h,
                ))
        ]

    handle_ip-IsCalm : (len : ℕ) → Ends Calm (handle_ip env (suc fuel) sr p len interface)
    unfolding handle_ip handle_local handle_tcp_udp
    handle_ip-IsCalm len = ground (
      arith,
      Ends-ok Calm sr h,
      handle_icmp-IsCalm len,
      send_unreachable-IsCalm 3,
      handle_transit-IsCalm len,
    )

    sr_handlepacket-IsCalm :
        (len : ℕ) → Ends Calm (sr_handlepacket env (suc fuel) sr p len interface)
    unfolding sr_handlepacket
    sr_handlepacket-IsCalm len =
        ground
          (arith, Ends-ok Calm sr h, handle_ip-IsCalm len, handle_arp-IsCalm sr p len interface h)

-- If moreover the routing table was verified, every request is for an address with a route, the
-- frame arrives on an interface that exists, and its source, if it is an IP datagram, has a route,
-- then sr_handlepacket returns, whatever else the frame holds and with any fuel but none: no
-- request is to be given up now means that each was sent less than five times or within the last
-- two seconds. The router is again sound, with routes for all requests and none to be given up.
pub sr_handlepacket_returns :
    (is : List Iface) (routes : List RtEntry) (env : Env) (fuel : ℕ) (sr : Sr) (p : Bytes) (len : ℕ)
    (interface : Text) (ifc : Iface)
    → sr_verify_routing_table is routes ≡ 0
    → IsHealthy is routes sr
    → IsCalm env.now sr
    → sr_get_interface sr.if_list interface ≡ some ifc
    → (load16 p (ether_type 0) ≡ htons ethertype_ip → HasRoute routes (load32 p (ip_src i_hdr)))
    → (sr' : Sr) × (sr_handlepacket env (suc fuel) sr p len interface ≡ ok sr')
      × IsCalm env.now sr'
      × IsHealthy is routes sr'
sr_handlepacket_returns is routes env fuel sr p len interface ifc verified h calm link has =
    Ends-Safe (IsCalm env.now) (IsHealthy is routes) _
      (sr_handlepacket-IsCalm env fuel sr p interface calm len)
      (sr_handlepacket-Safe is routes verified env (suc fuel) sr p len interface ifc h link has)
