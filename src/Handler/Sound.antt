-- ===== src/Handler/Sound.antt =====
-- sr_handlepacket, whatever the frame, keeps the router sound.
use nw_proj.Base.{
  ℕ, ◌+◌, ◌-◌, ◌≤◌, ◌<◌, ◌≡◌, sym, arith, ltb, ◌∙◌, some, none, Option, List, [], ◌∷◌, All, ap,
  Option-cases, Bool-cases, inl, inr, inl, inr,
}
use nw_proj.Memory.{Bytes, load32, memcpy}
use nw_proj.Protocol.{sizeof_ethernet, ip_src, ip_dst, ether_shost, ether_addr_len}
use nw_proj.Text.{Text}
use nw_proj.Instance.{Iface, RtEntry, Packet, ArpReq, Sr, Env, ◌>>=◌, deref}
use nw_proj.Outcomes.{Ensures-ok, Ensures, Ensures-deref}
use nw_proj.Interfaces.{sr_get_interface}
use nw_proj.Routing.{sr_find_lpm_entry}
use nw_proj.ArpCache.{find_ip, sr_arpcache_insert}
use nw_proj.ArpCache.Invariant.{sr_arpcache_insert-IsValid, All-remove_req}
use nw_proj.Send.Waiting.{IsSendable}
use nw_proj.Icmp.{i_hdr, error_len}
use nw_proj.Icmp.Laws.{unreachable_packet-shost, time_exceeded_packet-shost}
use nw_proj.ArpRequest.{sr_arpcache_handle_arpreq}
use nw_proj.ArpRequest.Invariant.{
  IsSound, AllWaiting, sr_send_packet-IsSound, sr_arpreq_destroy-IsSound, hand_over-IsSound,
  sr_arpcache_handle_arpreq-IsSound,
}
use nw_proj.Handler.{
  deliver, echo_reply_packet, forwarded_packet, send_waiting, answer_waiting, handle_arp_reply,
  handle_arp, handle_icmp, send_unreachable, send_time_exceeded, handle_tcp_udp, handle_local,
  handle_transit, handle_ip, sr_handlepacket, sizeof_arp, arp_reply_packet,
}
use nw_proj.Handler.Deliver.{memcpy-shost}

module _ (is : List Iface) (routes : List RtEntry) where
  abbrev Sound : Sr → Type 0
  Sound = IsSound is routes

  -- A frame with the hardware address of an interface of the router may be sent.
  pub sendable :
      (sr : Sr) (m : Bytes) (len : ℕ) (iface : Text) (ifc : Iface)
      → Sound sr
      → sizeof_ethernet ≤ len
      → sr_get_interface sr.if_list iface ≡ some ifc
      → ((k : ℕ) → k < 6 → m (6 + k) ≡ ifc.addr k)
      → IsSendable is m len iface
  sendable sr m len iface ifc s long found own = record {
    long = long;
    ifc = ifc;
    found = ap (λ (l : List Iface). sr_get_interface l iface) (sym s.ifs) ∙ found;
    own = own;
  }

  sr_arpcache_insert-IsSound :
      (now : ℕ) (sr : Sr) (mac : Bytes) (ip : ℕ)
      → Sound sr
      → Sound (record sr { cache = (sr_arpcache_insert now sr.cache mac ip).0 })
  sr_arpcache_insert-IsSound now sr mac ip s = record {
    ifs = s.ifs;
    routing = s.routing;
    valid = sr_arpcache_insert-IsValid now sr.cache mac ip s.valid;
    waits = waits;
  }
    where
      waits : All (AllWaiting is) (sr_arpcache_insert now sr.cache mac ip).0.requests
      waits =
          unfold sr_arpcache_insert in
          elim (Option-cases (find_ip ip sr.cache.requests)) [
            | inl missing ↦ rw (missing, sr_arpcache_insert) s.waits
            | inr (r, found) ↦
                rw (found, sr_arpcache_insert)
                  (All-remove_req (AllWaiting is) r.address sr.cache.requests s.waits)
          ]

  module _ (env : Env) where
    send_waiting-IsSound :
        (mac : Bytes) (pcks : List Packet) (sr : Sr)
        → Sound sr
        → Sound (send_waiting env mac pcks sr)
    unfolding send_waiting
    send_waiting-IsSound mac [] sr s = s
    send_waiting-IsSound mac (pck ∷ pcks) sr s =
        send_waiting-IsSound mac pcks _
          (sr_send_packet-IsSound is routes env sr _ pck.len pck.iface s)

    answer_waiting-IsSound :
        (mac : Bytes) (r : Option ArpReq) (sr : Sr) → Sound sr → Sound (answer_waiting env mac r sr)
    unfolding answer_waiting
    answer_waiting-IsSound mac none sr s = s
    answer_waiting-IsSound mac (some req) sr s =
        sr_arpreq_destroy-IsSound is routes _ req.address
          (send_waiting-IsSound mac req.packets sr s)

    pub handle_arp_reply-IsSound :
        (sr : Sr) (p : Bytes) → Sound sr → Sound (handle_arp_reply env sr p)
    unfolding handle_arp_reply
    handle_arp_reply-IsSound sr p s =
        answer_waiting-IsSound _ _ _ (sr_arpcache_insert-IsSound env.now sr _ _ s)

    handle_arp-IsSound :
        (sr : Sr) (p : Bytes) (len : ℕ) (interface : Text)
        → Sound sr
        → Ensures Sound (handle_arp env sr p len interface)
    unfolding handle_arp
    handle_arp-IsSound sr p len interface s =
        elim (Bool-cases (ltb (len - sizeof_ethernet) sizeof_arp)) [
          | inl short ↦ rw short (Ensures-ok Sound sr s)
          | inr long ↦ rw long (
              Ensures-deref Sound _ (sr_get_interface sr.if_list interface) λ ifc _. ground (
                arith,
                Ensures-ok Sound sr s,
                Ensures-ok Sound _ (handle_arp_reply-IsSound sr p s),
                Ensures-ok Sound _ (
                    sr_send_packet-IsSound is routes env sr (arp_reply_packet p ifc) len interface
                      s),
              ))
        ]

    module _ (fuel : ℕ) where
      deliver-IsSound :
          (sr : Sr) (m : Bytes) (len : ℕ) (iface : Text) (ip : ℕ)
          → IsSendable is m len iface
          → Sound sr
          → Ensures Sound (deliver env fuel sr m len iface ip)
      unfolding deliver
      deliver-IsSound sr m len iface ip h s =
          hand_over-IsSound is routes env (sr_arpcache_handle_arpreq env fuel) sr m len iface ip
            (sr_arpcache_handle_arpreq-IsSound is routes env fuel) h s

      -- The datagram leaves by an interface whose address was just set as its source.
      deliver_by-IsSound :
          (sr : Sr) (m : Bytes) (len : ℕ) (iface : Text) (ip : ℕ)
          → Sound sr
          → sizeof_ethernet ≤ len
          → Ensures Sound (
              deref (sr_get_interface sr.if_list iface) >>= λ ifc.
              deliver env fuel sr (memcpy m (ether_shost 0) ifc.addr 0 ether_addr_len) len iface ip)
      deliver_by-IsSound sr m len iface ip s long =
          Ensures-deref Sound _ (sr_get_interface sr.if_list iface) λ ifc found.
            deliver-IsSound sr _ len iface ip
              (sendable sr _ len iface ifc s long found (memcpy-shost m ifc.addr)) s

      send_unreachable-IsSound :
          (code : ℕ) (sr : Sr) (p : Bytes) (interface : Text)
          → Sound sr
          → Ensures Sound (send_unreachable env fuel code sr p interface)
      unfolding send_unreachable
      send_unreachable-IsSound code sr p interface s =
          Ensures-deref Sound _ (sr_get_interface sr.if_list interface) λ ifc found.
            deliver-IsSound sr _ error_len interface _
              (sendable sr _ error_len interface ifc s (omega arith) found
                (unreachable_packet-shost env.uninit ifc code p))
              s

      send_time_exceeded-IsSound :
          (sr : Sr) (p : Bytes) (interface : Text)
          → Sound sr
          → Ensures Sound (send_time_exceeded env fuel sr p interface)
      unfolding send_time_exceeded
      send_time_exceeded-IsSound sr p interface s =
          Ensures-deref Sound _ (sr_get_interface sr.if_list interface) λ ifc found.
            deliver-IsSound sr _ error_len interface _
              (sendable sr _ error_len interface ifc s (omega arith) found
                (time_exceeded_packet-shost env.uninit ifc p))
              s

      handle_icmp-IsSound :
          (sr : Sr) (p : Bytes) (len : ℕ) → Sound sr → Ensures Sound (handle_icmp env fuel sr p len)
      unfolding handle_icmp
      handle_icmp-IsSound sr p len s =
          elim (Option-cases (
            sr_find_lpm_entry sr.routing_table (load32 (echo_reply_packet p len) (ip_dst i_hdr)))) [
              | inl missing ↦ rw (missing, handle_icmp) (ground (arith, Ensures-ok Sound sr s))
              | inr (rt, route) ↦
                  rw (route, handle_icmp)
                    (ground (
                      arith,
                      Ensures-ok Sound sr s,
                      deliver_by-IsSound sr (echo_reply_packet p len) len rt.interface
                          (load32 p (ip_src i_hdr)) s,
                    ))
            ]

      handle_transit-IsSound :
          (sr : Sr) (p : Bytes) (len : ℕ) (interface : Text)
          → Sound sr
          → sizeof_ethernet ≤ len
          → Ensures Sound (handle_transit env fuel sr p len interface)
      unfolding handle_transit
      handle_transit-IsSound sr p len interface s long =
          elim (Option-cases (sr_find_lpm_entry sr.routing_table (load32 p (ip_dst i_hdr)))) [
            | inl missing ↦
                rw (missing, handle_transit) (send_unreachable-IsSound 0 sr p interface s)
            | inr (rt, route) ↦
                rw (route, handle_transit)
                  (ground (
                    arith,
                    send_time_exceeded-IsSound sr p interface s,
                    deliver_by-IsSound sr (forwarded_packet p) len rt.interface
                        (load32 p (ip_dst i_hdr)) s,
                  ))
          ]

      handle_local-IsSound :
          (sr : Sr) (p : Bytes) (len : ℕ) (interface : Text)
          → Sound sr
          → Ensures Sound (handle_local env fuel sr p len interface)
      unfolding handle_local handle_tcp_udp
      handle_local-IsSound sr p len interface s = ground (
        arith,
        Ensures-ok Sound sr s,
        handle_icmp-IsSound sr p len s,
        send_unreachable-IsSound 3 sr p interface s,
      )

      -- Whatever frame of whatever length arrives on whatever interface, what the router is after
      -- it was handled is sound if it was sound before.
      pub sr_handlepacket-IsSound :
          (sr : Sr) (p : Bytes) (len : ℕ) (interface : Text)
          → IsSound is routes sr
          → Ensures (IsSound is routes) (sr_handlepacket env fuel sr p len interface)
      unfolding sr_handlepacket handle_ip
      sr_handlepacket-IsSound sr p len interface s = ground (
        arith,
        Ensures-ok Sound sr s,
        handle_local-IsSound sr p len interface s,
        handle_transit-IsSound sr p len interface s,
        handle_arp-IsSound sr p len interface s,
      )
