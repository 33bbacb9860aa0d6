-- ===== src/Handler/Safe.antt =====
-- sr_handlepacket does not crash where routes are verified, every waiting request is for an address
-- with a route, and so is the source of the datagram.
use nw_proj.Base.{
  refl, ◌==◌, ℕ, ◌≤◌, ◌≡◌, sym, arith, ◌∙◌, some, none, Option, List, [], ◌∷◌, All, subst,
  Option-cases, Bool-cases, inl, inr,
}
use nw_proj.Memory.{Bytes, load32, memcpy}
use nw_proj.Protocol.{
  sizeof_ethernet, ip_src, ip_dst, ether_type, ethertype_ip, ether_shost, ether_addr_len,
}
use nw_proj.Text.{Text}
use nw_proj.Instance.{Iface, RtEntry, Packet, ArpReq, Sr, Env, ◌>>=◌, deref, ArpCache}
use nw_proj.Outcomes.{Safe, Safe-ok}
use nw_proj.Interfaces.{sr_get_interface}
use nw_proj.Routing.{sr_find_lpm_entry}
use nw_proj.ArpCache.{find_ip, sr_arpcache_insert, sr_arpreq_destroy}
use nw_proj.ArpCache.Invariant.{All-remove_req}
use nw_proj.Send.Laws.{sr_send_packet-keeps}
use nw_proj.Send.Waiting.{IsSendable}
use nw_proj.Icmp.{i_hdr, error_len}
use nw_proj.Icmp.Laws.{unreachable_packet-shost, time_exceeded_packet-shost}
use nw_proj.ArpRequest.{sr_arpcache_handle_arpreq}
use nw_proj.Handler.{
  deliver, echo_reply_packet, forwarded_packet, send_waiting, answer_waiting, handle_arp_reply,
  handle_arp, handle_icmp, send_unreachable, send_time_exceeded, handle_tcp_udp, handle_local,
  handle_transit, handle_ip, sr_handlepacket, arp_reply_packet, load16, htons,
}
use nw_proj.Handler.Deliver.{memcpy-shost}
use nw_proj.Routing.{sr_verify_routing_table}
use nw_proj.ArpRequest.Safe.{
  HasRoute, IsRouted, IsHealthy, link_of, sr_send_packet-IsHealthy, hand_over-Safe,
  sr_arpcache_handle_arpreq-Safe,
}
use nw_proj.Handler.Sound.{sendable, handle_arp_reply-IsSound}

-- What an ARP reply leaves of the queue: a property of every request stays one.
module _ (P : ArpReq → Type 0) (env : Env) where
  send_waiting-cache :
      (mac : Bytes) (pcks : List Packet) (sr : Sr) → (send_waiting env mac pcks sr).cache ≡ sr.cache
  unfolding send_waiting
  send_waiting-cache mac [] sr = refl
  send_waiting-cache mac (pck ∷ pcks) sr =
      send_waiting-cache mac pcks _ ∙ (sr_send_packet-keeps env sr _ pck.len pck.iface).2

  answer_waiting-All :
      (mac : Bytes) (r : Option ArpReq) (sr : Sr)
      → All P sr.cache.requests
      → All P (answer_waiting env mac r sr).cache.requests
  unfolding answer_waiting sr_arpreq_destroy
  answer_waiting-All mac none sr h = h
  answer_waiting-All mac (some req) sr h =
      All-remove_req P req.address _
        (subst (λ (c : ArpCache). All P c.requests) (sym (send_waiting-cache mac req.packets sr)) h)

  sr_arpcache_insert-All :
      (now : ℕ) (cache : ArpCache) (mac : Bytes) (ip : ℕ)
      → All P cache.requests
      → All P (sr_arpcache_insert now cache mac ip).0.requests
  unfolding sr_arpcache_insert
  sr_arpcache_insert-All now cache mac ip h = elim (Option-cases (find_ip ip cache.requests)) [
    | inl missing ↦ rw (missing, sr_arpcache_insert) h
    | inr (r, found) ↦ rw (found, sr_arpcache_insert) (All-remove_req P r.address cache.requests h)
  ]

  pub handle_arp_reply-All :
      (sr : Sr) (p : Bytes)
      → All P sr.cache.requests
      → All P (handle_arp_reply env sr p).cache.requests
  unfolding handle_arp_reply
  handle_arp_reply-All sr p h =
      answer_waiting-All _ _ _ (sr_arpcache_insert-All env.now sr.cache _ _ h)

module _ (is : List Iface) (routes : List RtEntry)
    (verified : sr_verify_routing_table is routes ≡ 0) where
  abbrev Healthy : Sr → Type 0
  Healthy = IsHealthy is routes

  module _ (env : Env) where
    handle_arp_reply-IsHealthy :
        (sr : Sr) (p : Bytes) → Healthy sr → Healthy (handle_arp_reply env sr p)
    handle_arp_reply-IsHealthy sr p h = record {
      sound = handle_arp_reply-IsSound is routes env sr p h.sound;
      routed = handle_arp_reply-All (IsRouted routes) env sr p h.routed;
    }

    handle_arp-Safe :
        (sr : Sr) (p : Bytes) (len : ℕ) (interface : Text) (ifc : Iface)
        → Healthy sr
        → sr_get_interface sr.if_list interface ≡ some ifc
        → Safe Healthy (handle_arp env sr p len interface)
    unfolding handle_arp
    handle_arp-Safe sr p len interface ifc h link =
        rw (link, handle_arp)
          (ground (
            arith,
            Safe-ok Healthy sr h,
            Safe-ok Healthy _ (handle_arp_reply-IsHealthy sr p h),
            Safe-ok Healthy _ (
                sr_send_packet-IsHealthy is routes verified env sr (arp_reply_packet p ifc) len
                  interface h),
          ))

    module _ (fuel : ℕ) where
      deliver-Safe :
          (sr : Sr) (m : Bytes) (len : ℕ) (iface : Text) (ip : ℕ)
          → IsSendable is m len iface
          → HasRoute routes ip
          → Healthy sr
          → Safe Healthy (deliver env fuel sr m len iface ip)
      unfolding deliver
      deliver-Safe sr m len iface ip may has h =
          hand_over-Safe is routes verified env (sr_arpcache_handle_arpreq env fuel) sr m len iface
            ip (sr_arpcache_handle_arpreq-Safe is routes verified env fuel) may has h

      -- The datagram leaves by the interface of a route that was found.
      deliver_by-Safe :
          (sr : Sr) (m : Bytes) (len ip at : ℕ) (rt : RtEntry)
          → Healthy sr
          → sr_find_lpm_entry routes at ≡ some rt
          → HasRoute routes ip
          → sizeof_ethernet ≤ len
          → Safe Healthy (
              deref (sr_get_interface sr.if_list rt.interface) >>= λ ifc.
              deliver env fuel sr
                (memcpy m (ether_shost 0) ifc.addr 0 ether_addr_len)
                len
                rt.interface
                ip)
      deliver_by-Safe sr m len ip at rt h route has long =
          let (ifc, link) = link_of is routes verified sr at rt h route in
          rw link (
            deliver-Safe sr _ len rt.interface ip
              (sendable is routes sr _ len rt.interface ifc h.sound long link
                (memcpy-shost m ifc.addr))
              has h)

      module _ (sr : Sr) (p : Bytes) (interface : Text) (ifc : Iface) (h : IsHealthy is routes sr)
          (link : sr_get_interface sr.if_list interface ≡ some ifc)
          (has : HasRoute routes (load32 p (ip_src i_hdr))) where
        send_unreachable-Safe :
            (code : ℕ) → Safe Healthy (send_unreachable env fuel code sr p interface)
        unfolding send_unreachable
        send_unreachable-Safe code =
            rw (link, send_unreachable)
              (deliver-Safe sr _ error_len interface _
                (sendable is routes sr _ error_len interface ifc h.sound (omega arith) link
                  (unreachable_packet-shost env.uninit ifc code p))
                has h)

        send_time_exceeded-Safe : Safe Healthy (send_time_exceeded env fuel sr p interface)
        unfolding send_time_exceeded
        send_time_exceeded-Safe =
            rw (link, send_time_exceeded)
              (deliver-Safe sr _ error_len interface _
                (sendable is routes sr _ error_len interface ifc h.sound (omega arith) link
                  (time_exceeded_packet-shost env.uninit ifc p))
                has h)

        handle_icmp-Safe : (len : ℕ) → Safe Healthy (handle_icmp env fuel sr p len)
        unfolding handle_icmp
        handle_icmp-Safe len =
            let back = load32 (echo_reply_packet p len) (ip_dst i_hdr) in
            rw (h.sound.routing, handle_icmp)
              (elim (Option-cases (sr_find_lpm_entry routes back)) [
                | inl missing ↦ rw missing (ground (arith, Safe-ok Healthy sr h))
                | inr (rt, route) ↦ rw route (
                    ground (
                      arith,
                      Safe-ok Healthy sr h,
                      deliver_by-Safe sr (echo_reply_packet p len) len (load32 p (ip_src i_hdr))
                          back rt h route has,
                    ))
              ])

        handle_transit-Safe :
            (len : ℕ)
            → sizeof_ethernet ≤ len
            → Safe Healthy (handle_transit env fuel sr p len interface)
        unfolding handle_transit
        handle_transit-Safe len long =
            let dst = load32 p (ip_dst i_hdr) in
            rw (h.sound.routing, handle_transit)
              (elim (Option-cases (sr_find_lpm_entry routes dst)) [
                | inl missing ↦ rw missing (send_unreachable-Safe 0)
                | inr (rt, route) ↦ rw route (
                    ground (
                      arith,
                      send_time_exceeded-Safe,
                      deliver_by-Safe sr (forwarded_packet p) len dst dst rt h route (rt, route)
                          long,
                    ))
              ])

        handle_ip-Safe : (len : ℕ) → Safe Healthy (handle_ip env fuel sr p len interface)
        unfolding handle_ip handle_local handle_tcp_udp
        handle_ip-Safe len = ground (
          arith,
          Safe-ok Healthy sr h,
          handle_icmp-Safe len,
          send_unreachable-Safe 3,
          handle_transit-Safe len,
        )

      -- Where the routing table was verified, every request in the queue is for an address with a
      -- route, the frame arrives on an interface that exists, and its source, if it is an IP
      -- datagram, has a route, sr_handlepacket does not crash, whatever else the frame holds; and
      -- if it needs no more than the fuel given, the router is again sound with routes for all
      -- requests.
      pub sr_handlepacket-Safe :
          (sr : Sr) (p : Bytes) (len : ℕ) (interface : Text) (ifc : Iface)
          → IsHealthy is routes sr
          → sr_get_interface sr.if_list interface ≡ some ifc
          → (load16 p (ether_type 0) ≡ htons ethertype_ip
              → HasRoute routes (load32 p (ip_src i_hdr)))
          → Safe (IsHealthy is routes) (sr_handlepacket env fuel sr p len interface)
      unfolding sr_handlepacket
      sr_handlepacket-Safe sr p len interface ifc h link has =
          elim (Bool-cases (load16 p (ether_type 0) == htons ethertype_ip)) [
            | inl ip ↦
                rw (ip, sr_handlepacket)
                  (ground (
                    arith,
                    Safe-ok Healthy sr h,
                    handle_ip-Safe sr p interface ifc h link (has (ground (arith, ip))) len,
                  ))
            | inr other ↦
                rw (other, sr_handlepacket)
                  (ground
                    (arith, Safe-ok Healthy sr h, handle_arp-Safe sr p len interface ifc h link))
          ]
