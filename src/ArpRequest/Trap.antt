-- ===== src/ArpRequest/Trap.antt =====
-- The nested calls of sr_arpcache_handle_arpreq keep a request that cannot be given up, and the call
-- for it does not return.
use nw_proj.Base.{
  ℕ, zero, suc, ◌≡◌, ◌≢◌, refl, sym, arith, ◌==◌, ◌∙◌, some, none, List, [], ◌∷◌, ap, ==→eq, subst,
  inl, inr, Bool-cases, Option-cases,
}
use nw_proj.Memory.{Bytes}
use nw_proj.Text.{Text}
use nw_proj.Instance.{
  RtEntry, Packet, ArpEntry, ArpReq, ArpCache, Sr, Env, Outcome, ok, crash, out_of_fuel, ◌>>=◌,
}
use nw_proj.Outcomes.{
  Ensures, Ensures-ok, Ensures-crash, Ensures-out_of_fuel, Ensures-deref, Ensures-bind,
}
use nw_proj.Routing.{sr_find_lpm_entry}
use nw_proj.Interfaces.{sr_get_interface}
use nw_proj.ArpCache.{
  find_req, update_req, sr_arpcache_lookup, lookup_scan, sr_arpcache_queuereq, sr_arpreq_destroy,
}
use nw_proj.Send.{sr_send_packet}
use nw_proj.Send.Laws.{sr_send_packet-keeps}
use nw_proj.ArpRequest.{
  mark_sent, send_request, hand_over, notify, notify_all, give_up, handle_arpreq_step,
  sr_arpcache_handle_arpreq,
}
use nw_proj.ArpRequest.Invariant.{find_req-address}
use nw_proj.Outcomes.{Ensures-mono}
use nw_proj.ArpRequest.Stuck.{
  source_of, HasSource, HoldsBad, IsStuck, find_req-IsBad, update_req-HoldsBad, remove_req-HoldsBad,
  sr_arpcache_queuereq-HoldsBad, sr_arpcache_queuereq-entries, sr_arpcache_queuereq-address,
}

abbrev pub Never : Sr → Type 0
Never sr = ⊥

Ensures-bind_never :
    {A B : Type 0} (P : B → Type 0) (m : Outcome A) (f : A → Outcome B)
    → Ensures (λ _. ⊥) m
    → Ensures P (m >>= f)
unfolding Ensures
Ensures-bind_never P (ok a) f h = absurd h
Ensures-bind_never P (crash e) f h = tt
Ensures-bind_never P out_of_fuel f h = tt

module _ (env : Env) (ip p : ℕ) (rt : RtEntry) where
  abbrev pub Stuck : Sr → Type 0
  Stuck = IsStuck env.now ip p rt

  sr_send_packet-Stuck :
      (sr : Sr) (buf : Bytes) (len : ℕ) (iface : Text)
      → Stuck sr
      → Stuck (sr_send_packet env sr buf len iface).0
  sr_send_packet-Stuck sr buf len iface h =
      let (_, routing, cache) = sr_send_packet-keeps env sr buf len iface in
      record {
        holds = subst (λ (c : ArpCache). HoldsBad env.now ip p c.requests) (sym cache) h.holds;
        route = ap (λ (t : List RtEntry). sr_find_lpm_entry t ip) routing ∙ h.route;
        unknown = ap (λ (c : ArpCache). sr_arpcache_lookup c ip) cache ∙ h.unknown;
      }

  queued-Stuck :
      (sr : Sr) (j : ℕ) (buf : Bytes) (len : ℕ) (iface : Text)
      → Stuck sr
      → Stuck (record sr { cache = (sr_arpcache_queuereq env.uninit sr.cache j buf len iface).0 })
  unfolding sr_arpcache_lookup
  queued-Stuck sr j buf len iface h = record {
    holds = sr_arpcache_queuereq-HoldsBad env.now ip p env.uninit sr.cache j buf len iface h.holds;
    route = h.route;
    unknown =
        ap (λ (es : List ArpEntry). lookup_scan ip es none)
          (sr_arpcache_queuereq-entries env.now ip p env.uninit sr.cache j buf len iface)
        ∙ h.unknown;
  }

  -- Another request is taken out, or marked as sent.
  destroyed-Stuck :
      (r : ArpReq) (sr : Sr)
      → r.address ≢ p
      → Stuck sr
      → Stuck (record sr { cache = sr_arpreq_destroy sr.cache r.address })
  unfolding sr_arpreq_destroy sr_arpcache_lookup
  destroyed-Stuck r sr other h = record {
    holds = remove_req-HoldsBad env.now ip p r.address sr.cache.requests other h.holds;
    route = h.route;
    unknown = h.unknown;
  }

  marked-Stuck :
      (r : ArpReq) (sr : Sr)
      → r.address ≢ p
      → Stuck sr
      → Stuck (record sr {
        cache = record (sr.cache) {
          requests = update_req r.address (mark_sent env.now) sr.cache.requests;
        };
      })
  unfolding sr_arpcache_lookup mark_sent
  marked-Stuck r sr other h = record {
    holds =
        update_req-HoldsBad env.now ip p r.address (mark_sent env.now) sr.cache.requests
          (λ x. (refl, refl)) (inl other) h.holds;
    route = h.route;
    unknown = h.unknown;
  }

  -- What is known of the nested call: for the request at `p` it does not return, and otherwise
  -- the request stays.
  pub record IsTrapped (handle : ℕ → Sr → Outcome Sr) : Type 0 where
    pub never : (sr : Sr) → Stuck sr → Ensures Never (handle p sr)
    pub stays : (q : ℕ) (sr : Sr) → Stuck sr → Ensures Stuck (handle q sr)

  module _ (handle : ℕ → Sr → Outcome Sr) (trap : IsTrapped handle) where
    hand_over-Stuck :
        (sr : Sr) (m : Bytes) (len : ℕ) (iface : Text) (j : ℕ)
        → Stuck sr
        → Ensures Stuck (hand_over env handle sr m len iface j)
    unfolding hand_over
    hand_over-Stuck sr m len iface j h = elim (Option-cases (sr_arpcache_lookup sr.cache j)) [
      | inl unknown ↦ rw (unknown, hand_over) (trap.stays _ _ (queued-Stuck sr j m len iface h))
      | inr (entry, known) ↦
          rw (known, hand_over) (Ensures-ok Stuck _ (sr_send_packet-Stuck sr _ len iface h))
    ]

    notify-Stuck : (pck : Packet) (sr : Sr) → Stuck sr → Ensures Stuck (notify env handle pck sr)
    unfolding notify
    notify-Stuck pck sr h =
        elim (Option-cases (sr_find_lpm_entry sr.routing_table (source_of pck))) [
          | inl missing ↦ rw (missing, notify) (Ensures-ok Stuck sr h)
          | inr (r, route) ↦
              rw (route, notify)
                (Ensures-deref Stuck _ (sr_get_interface sr.if_list r.interface)
                  (λ ifc _. hand_over-Stuck sr _ _ r.interface _ h))
        ]

    -- The message for the packet from the address itself is queued behind the request at `p`.
    hand_over-Never :
        (sr : Sr) (m : Bytes) (len : ℕ) (iface : Text) (j : ℕ)
        → j ≡ ip
        → Stuck sr
        → Ensures Never (hand_over env handle sr m len iface j)
    unfolding hand_over
    hand_over-Never sr m len iface j same h =
        subst (λ (k : ℕ). Ensures Never (hand_over env handle sr m len iface k)) (sym same)
          (rw (h.unknown, hand_over)
            (rw
              (
                sr_arpcache_queuereq-address env.now ip p env.uninit sr.cache m len iface h.holds,
                hand_over,
              )
              (trap.never _ (queued-Stuck sr ip m len iface h))))

    notify-Never :
        (pck : Packet) (sr : Sr)
        → source_of pck ≡ ip
        → Stuck sr
        → Ensures Never (notify env handle pck sr)
    unfolding notify
    notify-Never pck sr own h =
        let route : sr_find_lpm_entry sr.routing_table (source_of pck) ≡ some rt =
          ap (sr_find_lpm_entry sr.routing_table) own ∙ h.route in
        rw (route, notify)
          (Ensures-deref Never _ (sr_get_interface sr.if_list rt.interface)
            (λ ifc _. hand_over-Never sr _ _ rt.interface (source_of pck) own h))

    notify_all-Stuck :
        (pcks : List Packet) (sr : Sr) → Stuck sr → Ensures Stuck (notify_all env handle pcks sr)
    unfolding notify_all
    notify_all-Stuck [] sr h = Ensures-ok Stuck sr h
    notify_all-Stuck (pck ∷ pcks) sr h =
        Ensures-bind Stuck Stuck (notify env handle pck sr) _ (notify-Stuck pck sr h)
          λ sr' h'. notify_all-Stuck pcks sr' h'

    notify_all-Never :
        (pcks : List Packet) (sr : Sr)
        → HasSource ip pcks
        → Stuck sr
        → Ensures Never (notify_all env handle pcks sr)
    unfolding notify_all
    notify_all-Never [] sr own h = absurd own
    notify_all-Never (pck ∷ pcks) sr (inl own) h =
        Ensures-bind_never Never (notify env handle pck sr) _ (notify-Never pck sr own h)
    notify_all-Never (pck ∷ pcks) sr (inr own) h =
        Ensures-bind Stuck Never (notify env handle pck sr) _ (notify-Stuck pck sr h)
          λ sr' h'. notify_all-Never pcks sr' own h'

    step-Never : (sr : Sr) → Stuck sr → Ensures Never (handle_arpreq_step env handle p sr)
    unfolding handle_arpreq_step give_up
    step-Never sr h =
        let (r, alive, bad) = find_req-IsBad env.now ip p sr.cache.requests h.holds in
        rw (alive, handle_arpreq_step)
          (ground (
            arith,
            bad.due,
            bad.spent,
            Ensures-bind_never Never (notify_all env handle r.packets sr)
                (λ sr'. ok (record sr' { cache = sr_arpreq_destroy sr'.cache r.address }))
                (notify_all-Never r.packets sr bad.own h),
          ))

    give_up-Stuck :
        (r : ArpReq) (sr : Sr) → r.address ≢ p → Stuck sr → Ensures Stuck (give_up env handle r sr)
    unfolding give_up
    give_up-Stuck r sr other h =
        Ensures-bind Stuck Stuck (notify_all env handle r.packets sr) _
          (notify_all-Stuck r.packets sr h)
          λ sr' h'. Ensures-ok Stuck _ (destroyed-Stuck r sr' other h')

    send_request-Stuck :
        (r : ArpReq) (sr : Sr) → r.address ≢ p → Stuck sr → Ensures Stuck (send_request env r sr)
    unfolding send_request
    send_request-Stuck r sr other h =
        Ensures-deref Stuck _ (sr_find_lpm_entry sr.routing_table r.ip) λ rt' _.
          Ensures-deref Stuck _ (sr_get_interface sr.if_list rt'.interface)
            λ ifc _. Ensures-ok Stuck _ (sr_send_packet-Stuck _ _ _ _ (marked-Stuck r sr other h))

    -- The request at `p` is never handled to the end, and the handling of another keeps it.
    step-Stuck : (q : ℕ) (sr : Sr) → Stuck sr → Ensures Stuck (handle_arpreq_step env handle q sr)
    unfolding handle_arpreq_step
    step-Stuck q sr h = elim (Bool-cases (q == p)) [
      | inl here ↦
          let same : q ≡ p = ==→eq q p here in
          subst (λ (k : ℕ). Ensures Stuck (handle_arpreq_step env handle k sr)) (sym same)
            (Ensures-mono Never Stuck _ (step-Never sr h) (λ a bot. absurd bot))
      | inr other ↦ elim (Option-cases (find_req q sr.cache.requests)) [
        | inl freed ↦ rw (freed, handle_arpreq_step) (Ensures-crash Stuck _)
        | inr (r, alive) ↦
            let elsewhere : r.address ≢ p =
              ground (arith, find_req-address q sr.cache.requests r alive, other) in
            rw (alive, handle_arpreq_step)
              (ground (
                arith,
                Ensures-ok Stuck sr h,
                give_up-Stuck r sr elsewhere h,
                send_request-Stuck r sr elsewhere h,
              ))
      ]
    ]

  pub handle_arpreq-IsTrapped : (fuel : ℕ) → IsTrapped (sr_arpcache_handle_arpreq env fuel)
  unfolding sr_arpcache_handle_arpreq
  handle_arpreq-IsTrapped zero = record {
    never = λ sr h. Ensures-out_of_fuel Never;
    stays = λ q sr h. Ensures-out_of_fuel Stuck;
  }
  handle_arpreq-IsTrapped (suc fuel) =
      let trap = handle_arpreq-IsTrapped fuel in
      record {
        never = λ sr h. step-Never (sr_arpcache_handle_arpreq env fuel) trap sr h;
        stays = λ q sr h. step-Stuck (sr_arpcache_handle_arpreq env fuel) trap q sr h;
      }
