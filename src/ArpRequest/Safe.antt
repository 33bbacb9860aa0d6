-- ===== src/ArpRequest/Safe.antt =====
-- Where routes are verified and every request is for an address that has one, handling a request
-- that is alive does not crash.
use nw_proj.Base.{
  ℕ, zero, suc, ◌<◌, ◌≡◌, sym, arith, leb, ◌==◌, ◌∙◌, some, List, [], ◌∷◌, All, All-append, ap,
  subst, inl, inr, Option-cases, Bool-cases,
}
use nw_proj.Memory.{Bytes, load32}
use nw_proj.Protocol.{ip_src}
use nw_proj.Text.{Text}
use nw_proj.Instance.{Iface, RtEntry, Packet, ArpReq, ArpCache, Sr, Env, Outcome, ok}
use nw_proj.Outcomes.{Safe, Safe-ok, Safe-out_of_fuel, Safe-bind, Ensures_elim}
use nw_proj.Interfaces.{sr_get_interface}
use nw_proj.Routing.{sr_find_lpm_entry, sr_verify_routing_table}
use nw_proj.Routing.Verified.{sr_find_lpm_entry-Resolves}
use nw_proj.ArpCache.{
  find_ip, find_req, add_packet, new_req, sr_arpcache_lookup, sr_arpcache_queuereq,
  sr_arpreq_destroy,
}
use nw_proj.ArpCache.Invariant.{All-update_req, All-remove_req, add_packet-Keeps}
use nw_proj.ArpCache.Queue.{sr_arpcache_queuereq_lem}
use nw_proj.Send.{sr_send_packet}
use nw_proj.Send.Laws.{sr_send_packet-keeps}
use nw_proj.Send.Waiting.{IsSendable}
use nw_proj.Icmp.{i_hdr, error_len}
use nw_proj.Icmp.Frames.{host_unreachable-IsSendable}
use nw_proj.ArpRequest.{
  mark_sent, send_request, hand_over, notify, notify_all, give_up, handle_arpreq_step,
  sr_arpcache_handle_arpreq,
}
use nw_proj.ArpRequest.Laws.{asked, send_request-asked}
use nw_proj.ArpRequest.Invariant.{
  IsSound, sr_send_packet-IsSound, sr_arpcache_queuereq-IsSound, sr_arpreq_destroy-IsSound,
  send_request-IsSound, find_req-address,
}

-- The address has a route.
abbrev pub HasRoute : List RtEntry → ℕ → Type 0
HasRoute routes ip = (rt : RtEntry) × (sr_find_lpm_entry routes ip ≡ some rt)

abbrev pub IsRouted : List RtEntry → ArpReq → Type 0
IsRouted routes r = HasRoute routes r.ip

-- A sound router all of whose requests are for addresses with a route.
pub record IsHealthy (is : List Iface) (routes : List RtEntry) (sr : Sr) : Type 0 where
  pub sound : IsSound is routes sr
  pub routed : All (IsRouted routes) sr.cache.requests

-- The request at `p` is in the queue.
abbrev pub IsAlive : ℕ → Sr → Type 0
IsAlive p sr = (r : ArpReq) × (find_req p sr.cache.requests ≡ some r)

pub find_req-All :
    (P : ArpReq → Type 0) (p : ℕ) (rs : List ArpReq) (r : ArpReq)
    → All P rs
    → find_req p rs ≡ some r
    → P r
unfolding find_req
find_req-All P p [] r all h = absurd (ground arith)
find_req-All P p (x ∷ rs) r all h = elim (Bool-cases (x.address == p)) [
  | inl hit ↦ let same : x ≡ r = ground arith in subst P same all.0
  | inr miss ↦ find_req-All P p rs r all.1 (ground arith)
]

module _ (is : List Iface) (routes : List RtEntry)
    (verified : sr_verify_routing_table is routes ≡ 0) where
  abbrev Healthy : Sr → Type 0
  Healthy = IsHealthy is routes

  -- The interface of a route that was found.
  pub link_of :
      (sr : Sr) (ip : ℕ) (rt : RtEntry)
      → Healthy sr
      → sr_find_lpm_entry routes ip ≡ some rt
      → (ifc : Iface) × (sr_get_interface sr.if_list rt.interface ≡ some ifc)
  link_of sr ip rt h route =
      let (ifc, found) = sr_find_lpm_entry-Resolves is routes ip rt verified route in
      (ifc, ap (λ (l : List Iface). sr_get_interface l rt.interface) h.sound.ifs ∙ found)

  pub sr_send_packet-IsHealthy :
      (env : Env) (sr : Sr) (buf : Bytes) (len : ℕ) (iface : Text)
      → Healthy sr
      → Healthy (sr_send_packet env sr buf len iface).0
  sr_send_packet-IsHealthy env sr buf len iface h = record {
    sound = sr_send_packet-IsSound is routes env sr buf len iface h.sound;
    routed =
        subst (λ (c : ArpCache). All (IsRouted routes) c.requests)
          (sym (sr_send_packet-keeps env sr buf len iface).2) h.routed;
  }

  sr_arpcache_queuereq-IsRouted :
      (uninit : Bytes) (cache : ArpCache) (ip : ℕ) (buf : Bytes) (len : ℕ) (iface : Text)
      → HasRoute routes ip
      → All (IsRouted routes) cache.requests
      → All (IsRouted routes) (sr_arpcache_queuereq uninit cache ip buf len iface).0.requests
  unfolding sr_arpcache_queuereq
  sr_arpcache_queuereq-IsRouted uninit cache ip buf len iface has h =
      elim (Option-cases (find_ip ip cache.requests)) [
        | inl new ↦
            rw (new, sr_arpcache_queuereq)
              (All-append (IsRouted routes) cache.requests _ h
                (kept (new_req cache.next_address ip) has, tt))
        | inr (r, old) ↦
            rw (old, sr_arpcache_queuereq)
              (All-update_req (IsRouted routes) r.address (add_packet uninit buf len iface)
                cache.requests kept h)
      ]
    where
      kept : (r : ArpReq) → IsRouted routes r → IsRouted routes (add_packet uninit buf len iface r)
      kept r w = subst (HasRoute routes) (sym (add_packet-Keeps uninit buf len iface r).1) w

  module _ (env : Env) where
    abbrev pub KeepsHealthy : (ℕ → Sr → Outcome Sr) → Type 0
    KeepsHealthy handle = (p : ℕ) (sr : Sr) → Healthy sr → IsAlive p sr → Safe Healthy (handle p sr)

    pub hand_over-Safe :
        (handle : ℕ → Sr → Outcome Sr) (sr : Sr) (m : Bytes) (len : ℕ) (iface : Text) (ip : ℕ)
        → KeepsHealthy handle
        → IsSendable is m len iface
        → HasRoute routes ip
        → Healthy sr
        → Safe Healthy (hand_over env handle sr m len iface ip)
    unfolding hand_over
    hand_over-Safe handle sr m len iface ip keeps sendable has h =
        elim (Option-cases (sr_arpcache_lookup sr.cache ip)) [
          | inl unknown ↦
              rw (unknown, hand_over)
                (keeps _ _
                  (record {
                    sound =
                        sr_arpcache_queuereq-IsSound is routes env.uninit sr ip m len iface sendable
                          h.sound;
                    routed =
                        sr_arpcache_queuereq-IsRouted env.uninit sr.cache ip m len iface has
                          h.routed;
                  })
                  (
                    _,
                    (sr_arpcache_queuereq_lem env.uninit sr.cache ip m len iface h.sound.valid
                        (omega (arith, sendable.long))).0,
                  ))
          | inr (entry, known) ↦
              rw (known, hand_over)
                (Safe-ok Healthy _ (sr_send_packet-IsHealthy env sr _ len iface h))
        ]

    send_request-Safe :
        (p : ℕ) (req : ArpReq) (sr : Sr)
        → find_req p sr.cache.requests ≡ some req
        → req.times_sent < 5
        → Healthy sr
        → Safe Healthy (send_request env req sr)
    send_request-Safe p req sr alive few h =
        let (rt, route) = find_req-All (IsRouted routes) p sr.cache.requests req h.routed alive in
        let (ifc, link) = link_of sr req.ip rt h route in
        let sent : send_request env req sr ≡ ok (asked env sr req ifc) =
          send_request-asked env req sr rt ifc
            (ap (λ (t : List RtEntry). sr_find_lpm_entry t req.ip) h.sound.routing ∙ route) link in
        rw sent (
          Safe-ok Healthy (asked env sr req ifc) (record {
            sound =
                Ensures_elim (IsSound is routes) (send_request env req sr) (asked env sr req ifc)
                  (send_request-IsSound is routes env p req sr alive
                    (find_req-address p sr.cache.requests req alive) few h.sound)
                  sent;
            routed =
                All-update_req (IsRouted routes) req.address (mark_sent env.now) sr.cache.requests
                  (λ r w. unfold mark_sent in w) h.routed;
          }))

    notify-Safe :
        (handle : ℕ → Sr → Outcome Sr) (pck : Packet) (sr : Sr)
        → KeepsHealthy handle
        → Healthy sr
        → Safe Healthy (notify env handle pck sr)
    unfolding notify
    notify-Safe handle pck sr keeps h =
        let src = load32 pck.buf (ip_src i_hdr) in
        rw (h.sound.routing, notify)
          (elim (Option-cases (sr_find_lpm_entry routes src)) [
            | inl missing ↦ rw missing (Safe-ok Healthy sr h)
            | inr (rt, route) ↦
                let (ifc, link) = link_of sr src rt h route in
                rw route (
                  rw link (
                    hand_over-Safe handle sr _ error_len rt.interface src keeps
                      (host_unreachable-IsSendable is env.uninit pck.buf rt.interface ifc (
                        ap (λ (l : List Iface). sr_get_interface l rt.interface) (sym h.sound.ifs)
                        ∙ link))
                      (rt, route) h))
          ])

    notify_all-Safe :
        (handle : ℕ → Sr → Outcome Sr) (pcks : List Packet) (sr : Sr)
        → KeepsHealthy handle
        → Healthy sr
        → Safe Healthy (notify_all env handle pcks sr)
    unfolding notify_all
    notify_all-Safe handle [] sr keeps h = Safe-ok Healthy sr h
    notify_all-Safe handle (pck ∷ pcks) sr keeps h =
        Safe-bind Healthy Healthy (notify env handle pck sr) _ (notify-Safe handle pck sr keeps h)
          λ sr' h'. notify_all-Safe handle pcks sr' keeps h'

    give_up-Safe :
        (handle : ℕ → Sr → Outcome Sr) (req : ArpReq) (sr : Sr)
        → KeepsHealthy handle
        → Healthy sr
        → Safe Healthy (give_up env handle req sr)
    unfolding give_up
    give_up-Safe handle req sr keeps h =
        Safe-bind Healthy Healthy (notify_all env handle req.packets sr) _
          (notify_all-Safe handle req.packets sr keeps h)
          λ sr' h'. Safe-ok Healthy _ (record {
            sound = sr_arpreq_destroy-IsSound is routes sr' req.address h'.sound;
            routed =
                unfold sr_arpreq_destroy in
                All-remove_req (IsRouted routes) req.address sr'.cache.requests h'.routed;
          })

    handle_arpreq_step-Safe :
        (handle : ℕ → Sr → Outcome Sr)
        → KeepsHealthy handle
        → KeepsHealthy (handle_arpreq_step env handle)
    unfolding handle_arpreq_step
    handle_arpreq_step-Safe handle keeps p sr h (req, alive) =
        rw (alive, handle_arpreq_step)
          (elim (Bool-cases (leb 5 req.times_sent)) [
            | inl spent ↦
                ground (arith, spent, Safe-ok Healthy sr h, give_up-Safe handle req sr keeps h)
            | inr few ↦ ground (
              arith,
              few,
              Safe-ok Healthy sr h,
              send_request-Safe p req sr alive (ground arith) h,
            )
          ])

    -- Handling a request that is in the queue does not crash, with whatever other requests it
    -- handles.
    pub sr_arpcache_handle_arpreq-Safe :
        (fuel : ℕ) → KeepsHealthy (sr_arpcache_handle_arpreq env fuel)
    unfolding sr_arpcache_handle_arpreq
    sr_arpcache_handle_arpreq-Safe zero p sr h alive = Safe-out_of_fuel Healthy
    sr_arpcache_handle_arpreq-Safe (suc fuel) p sr h alive =
        handle_arpreq_step-Safe (sr_arpcache_handle_arpreq env fuel)
          (sr_arpcache_handle_arpreq-Safe fuel) p sr h alive
