-- ===== src/ArpRequest/Calm.antt =====
-- Where no request is to be given up now, handling a request takes no nested call, and ends.
use nw_proj.Base.{ℕ, suc, ◌+◌, ◌<◌, sym, arith, All, All-append, subst, inl, inr, Option-cases}
use nw_proj.Memory.{Bytes}
use nw_proj.Text.{Text}
use nw_proj.Instance.{ArpReq, ArpCache, Sr, Env}
use nw_proj.Outcomes.{Ends, Ends-ok, Ends-crash, Ends-deref}
use nw_proj.Interfaces.{sr_get_interface}
use nw_proj.Routing.{sr_find_lpm_entry}
use nw_proj.ArpCache.{
  find_ip, find_req, add_packet, new_req, sr_arpcache_lookup, sr_arpcache_queuereq,
}
use nw_proj.ArpCache.Invariant.{All-update_req}
use nw_proj.Send.{sr_send_packet}
use nw_proj.Send.Laws.{sr_send_packet-keeps}
use nw_proj.ArpRequest.{
  mark_sent, send_request, hand_over, handle_arpreq_step, sr_arpcache_handle_arpreq,
}
use nw_proj.ArpRequest.Safe.{find_req-All}

-- The request was sent less than five times, or within this second or the one before.
abbrev pub IsCalmReq : ℕ → ArpReq → Type 0
IsCalmReq now r = r.sent + 1 < now → r.times_sent < 5

-- No request is to be given up now.
abbrev pub IsCalm : ℕ → Sr → Type 0
IsCalm now sr = All (IsCalmReq now) sr.cache.requests

module _ (env : Env) where
  abbrev Calm : Sr → Type 0
  Calm = IsCalm env.now

  pub sr_send_packet-IsCalm :
      (sr : Sr) (buf : Bytes) (len : ℕ) (iface : Text)
      → Calm sr
      → Calm (sr_send_packet env sr buf len iface).0
  sr_send_packet-IsCalm sr buf len iface h =
      subst (λ (c : ArpCache). All (IsCalmReq env.now) c.requests)
        (sym (sr_send_packet-keeps env sr buf len iface).2) h

  add_packet-IsCalm :
      (uninit buf : Bytes) (len : ℕ) (iface : Text) (r : ArpReq)
      → IsCalmReq env.now r
      → IsCalmReq env.now (add_packet uninit buf len iface r)
  unfolding add_packet
  add_packet-IsCalm uninit buf len iface r h = ground (arith, h)

  sr_arpcache_queuereq-IsCalm :
      (uninit : Bytes) (cache : ArpCache) (ip : ℕ) (buf : Bytes) (len : ℕ) (iface : Text)
      → All (IsCalmReq env.now) cache.requests
      → All (IsCalmReq env.now) (sr_arpcache_queuereq uninit cache ip buf len iface).0.requests
  unfolding sr_arpcache_queuereq
  sr_arpcache_queuereq-IsCalm uninit cache ip buf len iface h =
      elim (Option-cases (find_ip ip cache.requests)) [
        | inl new ↦
            rw (new, sr_arpcache_queuereq)
              (All-append (IsCalmReq env.now) cache.requests _ h (
                add_packet-IsCalm uninit buf len iface (new_req cache.next_address ip)
                    (λ _. omega arith),
                tt,
              ))
        | inr (r, old) ↦
            rw (old, sr_arpcache_queuereq)
              (All-update_req (IsCalmReq env.now) r.address (add_packet uninit buf len iface)
                cache.requests (add_packet-IsCalm uninit buf len iface) h)
      ]

  send_request-IsCalm : (req : ArpReq) (sr : Sr) → Calm sr → Ends Calm (send_request env req sr)
  unfolding send_request
  send_request-IsCalm req sr h = Ends-deref Calm _ (sr_find_lpm_entry sr.routing_table req.ip) λ rt.
      Ends-deref Calm _ (sr_get_interface sr.if_list rt.interface) λ ifc. Ends-ok Calm _ (
        sr_send_packet-IsCalm _ _ _ _ (
          All-update_req (IsCalmReq env.now) req.address (mark_sent env.now) sr.cache.requests
            (λ r w. unfold mark_sent in λ due. omega (arith, due)) h))

  handle_arpreq-IsCalm :
      (fuel p : ℕ) (sr : Sr) → Calm sr → Ends Calm (sr_arpcache_handle_arpreq env (suc fuel) p sr)
  unfolding sr_arpcache_handle_arpreq handle_arpreq_step
  handle_arpreq-IsCalm fuel p sr h = elim (Option-cases (find_req p sr.cache.requests)) [
    | inl freed ↦ rw (freed, handle_arpreq_step) (Ends-crash Calm _)
    | inr (req, alive) ↦
        let calm : IsCalmReq env.now req =
          find_req-All (IsCalmReq env.now) p sr.cache.requests req h alive in
        rw (alive, handle_arpreq_step)
          (ground (arith, calm, Ends-ok Calm sr h, send_request-IsCalm req sr h))
  ]

  pub hand_over-IsCalm :
      (fuel : ℕ) (sr : Sr) (m : Bytes) (len : ℕ) (iface : Text) (ip : ℕ)
      → Calm sr
      → Ends Calm (hand_over env (sr_arpcache_handle_arpreq env (suc fuel)) sr m len iface ip)
  unfolding hand_over
  hand_over-IsCalm fuel sr m len iface ip h = elim (Option-cases (sr_arpcache_lookup sr.cache ip)) [
    | inl unknown ↦
        rw (unknown, hand_over)
          (handle_arpreq-IsCalm fuel _ _
            (sr_arpcache_queuereq-IsCalm env.uninit sr.cache ip m len iface h))
    | inr (entry, known) ↦
        rw (known, hand_over) (Ends-ok Calm _ (sr_send_packet-IsCalm sr _ len iface h))
  ]
