-- ===== src/Handler/Miss.antt =====
-- Datagrams whose next hop has no hardware address in the cache: they wait in the queue, and the
-- link is asked.
use mathlib.Core.List.{append-nil}
use nw_proj.Base.{
  ℕ, suc, ◌+◌, ◌≤◌, ◌<◌, ◌≡◌, ◌≢◌, refl, sym, arith, ◌==◌, if◌then◌else◌, ◌∙◌, some, none, List, [],
  ◌∷◌, ◌++◌, All, ap, eq→==, subst,
}
use nw_proj.Memory.{Bytes, load32, memcpy}
use nw_proj.Memory.Laws.{IsBytes}
use nw_proj.Protocol.{ip_dst, ip_ttl, ether_shost, ether_addr_len}
use nw_proj.Text.{Text}
use nw_proj.Instance.{Iface, RtEntry, ArpReq, ArpCache, Frame, Sr, Env, ok, crash, null_pointer}
use nw_proj.Interfaces.{sr_get_interface}
use nw_proj.Routing.{sr_find_lpm_entry}
use nw_proj.ArpCache.{sr_arpcache_lookup, sr_arpcache_queuereq, find_ip}
use nw_proj.ArpCache.Invariant.{IsValid, KeepsIds, sr_arpcache_queuereq-IsValid}
use nw_proj.ArpCache.Queue.{
  or_new, waiting, sr_arpcache_queuereq_lem, find_ip-update_req, or_new-ip,
}
use nw_proj.Icmp.{i_hdr}
use nw_proj.Send.{message}
use nw_proj.ArpRequest.{mark_sent, arp_request_packet, arp_len, hand_over}
use nw_proj.ArpRequest.Laws.{
  asked, handle_arpreq-asked, handle_arpreq-waits, handle_arpreq-no_route,
}
use nw_proj.Handler.{deliver, forwarded_packet, handle_transit, sr_handlepacket}
use nw_proj.Handler.Accept.{IsAccepted, sr_handlepacket-IsAccepted}
use nw_proj.Handler.Deliver.{is_local-All}

mark_sent-KeepsIds : (now : ℕ) → KeepsIds (mark_sent now)
unfolding mark_sent
mark_sent-KeepsIds now r = (refl, refl)

-- The request as sent at `now`, once more than before.
abbrev pub sent_again : ℕ → ArpReq → ArpReq
sent_again now r = record r { sent = now; times_sent = r.times_sent + 1 }

mark_sent-sent_again :
    (now : ℕ) (r : ArpReq) → r.times_sent < 5 → mark_sent now r ≡ sent_again now r
unfolding mark_sent
mark_sent-sent_again now r few =
    ap (λ (n : ℕ). record r { sent = now; times_sent = n }) (omega arith)

sr_arpcache_queuereq-entries :
    (uninit : Bytes) (cache : ArpCache) (ip : ℕ) (m : Bytes) (len : ℕ) (iface : Text)
    → (sr_arpcache_queuereq uninit cache ip m len iface).0.entries ≡ cache.entries
unfolding sr_arpcache_queuereq
sr_arpcache_queuereq-entries uninit cache ip m len iface = ground arith

module _ (env : Env) (sr : Sr) (m : Bytes) (len : ℕ) (iface : Text) (ip : ℕ) where
  -- The request for `ip` before, and with the frame in front of those that wait.
  abbrev pub before : ArpReq
  before = or_new sr.cache.next_address ip (find_ip ip sr.cache.requests)

  abbrev pub with_frame : ArpReq
  with_frame =
      let old = before in record old { packets = waiting env.uninit m len iface ∷ old.packets }

  before-ip : before.ip ≡ ip
  before-ip = or_new-ip sr.cache.next_address ip sr.cache.requests

  -- The frame waits for `ip` in the request `r`, `frames` were written, and nothing else changed.
  pub record IsQueued (r : ArpReq) (frames : List Frame) (sr' : Sr) : Type 0 where
    pub request :
        (j : ℕ)
        → find_ip j sr'.cache.requests ≡ (if ip == j then some r else find_ip j sr.cache.requests)
    pub entries : sr'.cache.entries ≡ sr.cache.entries
    pub sent : sr'.written ≡ sr.written ++ frames
    pub others : (sr'.if_list ≡ sr.if_list) × (sr'.routing_table ≡ sr.routing_table)

  module _ (v : IsValid sr.cache) (pos : 0 < len)
      (unknown : sr_arpcache_lookup sr.cache ip ≡ none) where
    abbrev queued : ArpCache × ℕ
    queued = sr_arpcache_queuereq env.uninit sr.cache ip m len iface

    found : find_ip ip queued.0.requests ≡ some with_frame
    found =
        (sr_arpcache_queuereq_lem env.uninit sr.cache ip m len iface v pos).1 ip
        ∙ rw (eq→== ip ip refl)

    -- A request that may be sent now is sent once more, to the interface that `ip` is routed by.
    pub deliver-asks :
        (fuel : ℕ) (rt : RtEntry) (ifc : Iface)
        → before.sent + 1 < env.now
        → before.times_sent < 5
        → sr_find_lpm_entry sr.routing_table ip ≡ some rt
        → sr_get_interface sr.if_list rt.interface ≡ some ifc
        → (sr' : Sr) × (deliver env (suc fuel) sr m len iface ip ≡ ok sr')
          × IsQueued
              (mark_sent env.now with_frame)
              (message (arp_request_packet env.uninit ifc ip) arp_len ifc.name ∷ [])
              sr'
    unfolding deliver hand_over
    deliver-asks fuel rt ifc due few route link =
        let after = record sr { cache = queued.0 } in
        let alive = (sr_arpcache_queuereq_lem env.uninit sr.cache ip m len iface v pos).0 in
        (
          asked env after with_frame ifc,
          rw (unknown, hand_over)
              (handle_arpreq-asked env fuel queued.1 with_frame after rt ifc alive due few
                (ap (sr_find_lpm_entry sr.routing_table) before-ip ∙ route) link),
          record {
            request = λ j.
                find_ip-update_req queued.0.next_address ip j (mark_sent env.now) queued.0.requests
                  with_frame (mark_sent-KeepsIds env.now)
                  (sr_arpcache_queuereq-IsValid env.uninit sr.cache ip m len iface v).queue found
                ∙ ground (
                  arith,
                  (sr_arpcache_queuereq_lem env.uninit sr.cache ip m len iface v pos).1 j,
                );
            entries = sr_arpcache_queuereq-entries env.uninit sr.cache ip m len iface;
            sent =
                ap
                  (λ (j : ℕ).
                    sr.written
                    ++ message (arp_request_packet env.uninit ifc j) arp_len ifc.name ∷ [])
                  before-ip;
            others = (refl, refl);
          },
        )

    -- A request that was sent in this second or the one before is not sent.
    pub deliver-waits :
        (fuel : ℕ)
        → env.now ≤ before.sent + 1
        → (sr' : Sr) × (deliver env (suc fuel) sr m len iface ip ≡ ok sr')
          × IsQueued with_frame [] sr'
    unfolding deliver hand_over
    deliver-waits fuel early =
        let after = record sr { cache = queued.0 } in
        let alive = (sr_arpcache_queuereq_lem env.uninit sr.cache ip m len iface v pos).0 in
        (
          after,
          rw (unknown, hand_over)
              (handle_arpreq-waits env fuel queued.1 with_frame after alive early),
          record {
            request = (sr_arpcache_queuereq_lem env.uninit sr.cache ip m len iface v pos).1;
            entries = sr_arpcache_queuereq-entries env.uninit sr.cache ip m len iface;
            sent = sym (append-nil sr.written);
            others = (refl, refl);
          },
        )

    -- Without a route the router follows a null pointer.
    pub deliver-no_route :
        (fuel : ℕ)
        → before.sent + 1 < env.now
        → before.times_sent < 5
        → sr_find_lpm_entry sr.routing_table ip ≡ none
        → deliver env (suc fuel) sr m len iface ip ≡ crash null_pointer
    unfolding deliver hand_over
    deliver-no_route fuel due few missing =
        rw (unknown, hand_over)
          (handle_arpreq-no_route env fuel queued.1 with_frame (record sr { cache = queued.0 })
            (sr_arpcache_queuereq_lem env.uninit sr.cache ip m len iface v pos).0 due few
            (ap (sr_find_lpm_entry sr.routing_table) before-ip ∙ missing))

-- An accepted datagram for elsewhere, whose time to live is not 1 and that has a route by an
-- interface that exists, but whose destination has no hardware address in a valid cache, waits in
-- the request for its destination as the datagram one hop further. If that request is new or was
-- last sent at least two seconds ago, and was sent fewer than five times, it is sent on the
-- route's interface and counted; if it was sent in this second or the one before, nothing is sent.
pub sr_handlepacket-IsQueued :
    (env : Env) (fuel : ℕ) (sr : Sr) (p : Bytes) (len : ℕ) (interface : Text) (rt : RtEntry)
    (ifc : Iface)
    → IsBytes p
    → IsAccepted p len
    → All (λ i. load32 p (ip_dst i_hdr) ≢ i.ip) sr.if_list
    → p (ip_ttl i_hdr) ≢ 1
    → sr_find_lpm_entry sr.routing_table (load32 p (ip_dst i_hdr)) ≡ some rt
    → sr_get_interface sr.if_list rt.interface ≡ some ifc
    → IsValid sr.cache
    → sr_arpcache_lookup sr.cache (load32 p (ip_dst i_hdr)) ≡ none
    → let dst = load32 p (ip_dst i_hdr) in
      let m = memcpy (forwarded_packet p) (ether_shost 0) ifc.addr 0 ether_addr_len in
      let old = before env sr m len rt.interface dst in
      let r = with_frame env sr m len rt.interface dst in
      let out = sr_handlepacket env (suc fuel) sr p len interface in
      (old.sent + 1 < env.now
        → old.times_sent < 5
        → (sr' : Sr) × (out ≡ ok sr')
          × IsQueued env sr m len rt.interface dst
              (sent_again env.now r)
              (message (arp_request_packet env.uninit ifc dst) arp_len ifc.name ∷ [])
              sr')
      × (env.now ≤ old.sent + 1
          → (sr' : Sr) × (out ≡ ok sr') × IsQueued env sr m len rt.interface dst r [] sr')
unfolding handle_transit
sr_handlepacket-IsQueued env fuel sr p len interface rt ifc b a elsewhere alive route link v
      unknown =
    let dst = load32 p (ip_dst i_hdr) in
    let m = memcpy (forwarded_packet p) (ether_shost 0) ifc.addr 0 ether_addr_len in
    let delivers : sr_handlepacket env (suc fuel) sr p len interface
        ≡ deliver env (suc fuel) sr m len rt.interface dst =
      sr_handlepacket-IsAccepted env (suc fuel) sr p len interface b a
      ∙ ground (arith, is_local-All sr.if_list dst elsewhere, route, link, alive) in
    let pos : 0 < len = omega (arith, a.long) in
    (
      (λ due few.
          let (sr', e, q) =
            deliver-asks env sr m len rt.interface dst v pos unknown fuel rt ifc due few route
              link in
          (
            sr',
            delivers ∙ e,
            subst
                (λ (x : ArpReq).
                  IsQueued env sr m len rt.interface dst x
                    (message (arp_request_packet env.uninit ifc dst) arp_len ifc.name ∷ []) sr')
                (mark_sent-sent_again env.now (with_frame env sr m len rt.interface dst) few) q,
          )),
      (λ early.
          let (sr', e, q) = deliver-waits env sr m len rt.interface dst v pos unknown fuel early in
          (sr', delivers ∙ e, q)),
    )
