-- ===== src/ArpRequest/Invariant.antt =====
-- The invariant of the router, and that every request's handling keeps it.
use nw_proj.Base.{
  ℕ, zero, suc, ◌+◌, ◌<◌, ◌≡◌, refl, sym, inl, inr, arith, ltb, leb, ◌==◌, ◌∙◌, some, List, [], ◌∷◌,
  All, All-append, ap, subst, Option-cases, Bool-cases,
}
use nw_proj.Memory.{Bytes, load32}
use nw_proj.Protocol.{ip_src}
use nw_proj.Text.{Text}
use nw_proj.Instance.{Iface, RtEntry, Packet, ArpReq, ArpCache, Sr, Env, Outcome}
use nw_proj.Outcomes.{
  Ensures-ok, Ensures-crash, Ensures-out_of_fuel, Ensures, Ensures-bind, Ensures-deref,
}
use nw_proj.Interfaces.{sr_get_interface}
use nw_proj.Routing.{sr_find_lpm_entry}
use nw_proj.ArpCache.{
  find_ip, find_req, update_req, add_packet, new_req, sr_arpcache_lookup, sr_arpcache_queuereq,
  sr_arpreq_destroy,
}
use nw_proj.ArpCache.Invariant.{
  IsValid, IsQueue-update_req, All-update_req, All-remove_req, sr_arpcache_queuereq-IsValid,
  sr_arpreq_destroy-IsValid,
}
use nw_proj.Icmp.{i_hdr, error_len}
use nw_proj.Send.{sr_send_packet}
use nw_proj.Send.Laws.{sr_send_packet-keeps}
use nw_proj.Icmp.Frames.{host_unreachable-IsSendable}
use nw_proj.Send.Waiting.{IsSendable, IsWaiting, waiting-IsWaiting}
use nw_proj.ArpRequest.{
  mark_sent, send_request, notify, notify_all, give_up, handle_arpreq_step,
  sr_arpcache_handle_arpreq, arp_request_packet, arp_len, hand_over,
}

abbrev pub AllWaiting : List Iface → ArpReq → Type 0
AllWaiting is r = All (IsWaiting is) r.packets

-- The interfaces and routes are those, the cache is valid, and every packet that waits has a whole
-- Ethernet header with the hardware address of an interface that exists as its source.
pub record IsSound (is : List Iface) (routes : List RtEntry) (sr : Sr) : Type 0 where
  pub ifs : sr.if_list ≡ is
  pub routing : sr.routing_table ≡ routes
  pub valid : IsValid sr.cache
  pub waits : All (AllWaiting is) sr.cache.requests

add_packet-AllWaiting :
    (is : List Iface) (uninit buf : Bytes) (len : ℕ) (iface : Text) (r : ArpReq)
    → IsSendable is buf len iface
    → AllWaiting is r
    → AllWaiting is (add_packet uninit buf len iface r)
unfolding add_packet
add_packet-AllWaiting is uninit buf len iface r s h =
    ground (arith, s.long, waiting-IsWaiting is uninit buf len iface s)

pub find_req-address :
    (p : ℕ) (rs : List ArpReq) (r : ArpReq) → find_req p rs ≡ some r → r.address ≡ p
unfolding find_req
find_req-address p [] r h = absurd (ground arith)
find_req-address p (x ∷ rs) r h = elim (Bool-cases (x.address == p)) [
  | inl hit ↦
      let same : x ≡ r = ground arith in ap (λ (y : ArpReq). y.address) (sym same) ∙ ground arith
  | inr miss ↦ find_req-address p rs r (ground arith)
]

module _ (is : List Iface) (routes : List RtEntry) where
  abbrev Sound : Sr → Type 0
  Sound = IsSound is routes

  pub sr_send_packet-IsSound :
      (env : Env) (sr : Sr) (buf : Bytes) (len : ℕ) (iface : Text)
      → Sound sr
      → Sound (sr_send_packet env sr buf len iface).0
  sr_send_packet-IsSound env sr buf len iface s =
      let k = sr_send_packet-keeps env sr buf len iface in
      record {
        ifs = k.0 ∙ s.ifs;
        routing = k.1 ∙ s.routing;
        valid = subst IsValid (sym k.2) s.valid;
        waits = subst (λ (c : ArpCache). All (AllWaiting is) c.requests) (sym k.2) s.waits;
      }

  sr_arpcache_queuereq-waits :
      (uninit : Bytes) (cache : ArpCache) (ip : ℕ) (buf : Bytes) (len : ℕ) (iface : Text)
      → IsSendable is buf len iface
      → All (AllWaiting is) cache.requests
      → All (AllWaiting is) (sr_arpcache_queuereq uninit cache ip buf len iface).0.requests
  unfolding sr_arpcache_queuereq
  sr_arpcache_queuereq-waits uninit cache ip buf len iface s h =
      elim (Option-cases (find_ip ip cache.requests)) [
        | inl new ↦
            rw (new, sr_arpcache_queuereq)
              (All-append (AllWaiting is) cache.requests _ h (
                add_packet-AllWaiting is uninit buf len iface (new_req cache.next_address ip) s tt,
                tt,
              ))
        | inr (r, old) ↦
            rw (old, sr_arpcache_queuereq)
              (All-update_req (AllWaiting is) r.address (add_packet uninit buf len iface)
                cache.requests (λ x w. add_packet-AllWaiting is uninit buf len iface x s w) h)
      ]

  pub sr_arpcache_queuereq-IsSound :
      (uninit : Bytes) (sr : Sr) (ip : ℕ) (buf : Bytes) (len : ℕ) (iface : Text)
      → IsSendable is buf len iface
      → Sound sr
      → Sound (record sr { cache = (sr_arpcache_queuereq uninit sr.cache ip buf len iface).0 })
  sr_arpcache_queuereq-IsSound uninit sr ip buf len iface s h = record {
    ifs = h.ifs;
    routing = h.routing;
    valid = sr_arpcache_queuereq-IsValid uninit sr.cache ip buf len iface h.valid;
    waits = sr_arpcache_queuereq-waits uninit sr.cache ip buf len iface s h.waits;
  }

  pub sr_arpreq_destroy-IsSound :
      (sr : Sr) (p : ℕ) → Sound sr → Sound (record sr { cache = sr_arpreq_destroy sr.cache p })
  sr_arpreq_destroy-IsSound sr p h = record {
    ifs = h.ifs;
    routing = h.routing;
    valid = sr_arpreq_destroy-IsValid sr.cache p h.valid;
    waits = unfold sr_arpreq_destroy in All-remove_req (AllWaiting is) p sr.cache.requests h.waits;
  }

  module _ (env : Env) where
    -- The request is marked as sent once more, which it may be while it was sent four times at
    -- most.
    pub send_request-IsSound :
        (p : ℕ) (req : ArpReq) (sr : Sr)
        → find_req p sr.cache.requests ≡ some req
        → req.address ≡ p
        → req.times_sent < 5
        → Sound sr
        → Ensures Sound (send_request env req sr)
    unfolding send_request
    send_request-IsSound p req sr alive at few s =
        Ensures-deref Sound _ (sr_find_lpm_entry sr.routing_table req.ip) λ rt _.
          Ensures-deref Sound _ (sr_get_interface sr.if_list rt.interface) λ ifc _.
            Ensures-ok Sound _ (
              sr_send_packet-IsSound env _ (arp_request_packet env.uninit ifc req.ip) arp_len
                ifc.name marked)
      where
        marked : Sound (record sr {
          cache = record (sr.cache) {
            requests = update_req req.address (mark_sent env.now) sr.cache.requests;
          };
        })
        marked = record {
          ifs = s.ifs;
          routing = s.routing;
          valid = record {
            size = s.valid.size;
            queue =
                IsQueue-update_req sr.cache.next_address req.address (mark_sent env.now)
                  sr.cache.requests (λ r. unfold mark_sent in (refl, refl))
                  (λ r found old. unfold mark_sent in ground (arith, at, alive, few)) s.valid.queue;
          };
          waits =
              All-update_req (AllWaiting is) req.address (mark_sent env.now) sr.cache.requests
                (λ r w. unfold mark_sent in w) s.waits;
        }

    -- What the nested calls keep.
    abbrev KeepsSound : (ℕ → Sr → Outcome Sr) → Type 0
    KeepsSound handle = (p : ℕ) (sr : Sr) → Sound sr → Ensures Sound (handle p sr)

    pub hand_over-IsSound :
        (handle : ℕ → Sr → Outcome Sr) (sr : Sr) (m : Bytes) (len : ℕ) (iface : Text) (ip : ℕ)
        → KeepsSound handle
        → IsSendable is m len iface
        → Sound sr
        → Ensures Sound (hand_over env handle sr m len iface ip)
    unfolding hand_over
    hand_over-IsSound handle sr m len iface ip keeps sendable s =
        elim (Option-cases (sr_arpcache_lookup sr.cache ip)) [
          | inl unknown ↦
              rw (unknown, hand_over)
                (keeps _ _ (sr_arpcache_queuereq-IsSound env.uninit sr ip m len iface sendable s))
          | inr (entry, known) ↦
              rw (known, hand_over)
                (Ensures-ok Sound _ (sr_send_packet-IsSound env sr _ len iface s))
        ]

    notify-IsSound :
        (handle : ℕ → Sr → Outcome Sr) (pck : Packet) (sr : Sr)
        → KeepsSound handle
        → Sound sr
        → Ensures Sound (notify env handle pck sr)
    unfolding notify
    notify-IsSound handle pck sr keeps s =
        elim (Option-cases (sr_find_lpm_entry sr.routing_table (load32 pck.buf (ip_src i_hdr)))) [
          | inl missing ↦ rw (missing, notify) (Ensures-ok Sound sr s)
          | inr (rt, route) ↦
              rw (route, notify)
                (Ensures-deref Sound _ (sr_get_interface sr.if_list rt.interface) λ ifc found.
                  hand_over-IsSound handle sr _ error_len rt.interface _ keeps
                    (host_unreachable-IsSendable is env.uninit pck.buf rt.interface ifc (
                      ap (λ (l : List Iface). sr_get_interface l rt.interface) (sym s.ifs) ∙ found))
                    s)
        ]

    notify_all-IsSound :
        (handle : ℕ → Sr → Outcome Sr) (pcks : List Packet) (sr : Sr)
        → KeepsSound handle
        → Sound sr
        → Ensures Sound (notify_all env handle pcks sr)
    unfolding notify_all
    notify_all-IsSound handle [] sr keeps s = Ensures-ok Sound sr s
    notify_all-IsSound handle (pck ∷ pcks) sr keeps s =
        Ensures-bind Sound Sound (notify env handle pck sr) _ (notify-IsSound handle pck sr keeps s)
          λ sr' s'. notify_all-IsSound handle pcks sr' keeps s'

    give_up-IsSound :
        (handle : ℕ → Sr → Outcome Sr) (req : ArpReq) (sr : Sr)
        → KeepsSound handle
        → Sound sr
        → Ensures Sound (give_up env handle req sr)
    unfolding give_up
    give_up-IsSound handle req sr keeps s =
        Ensures-bind Sound Sound (notify_all env handle req.packets sr) _
          (notify_all-IsSound handle req.packets sr keeps s)
          λ sr' s'. Ensures-ok Sound _ (sr_arpreq_destroy-IsSound sr' req.address s')

    handle_arpreq_step-IsSound :
        (handle : ℕ → Sr → Outcome Sr)
        → KeepsSound handle
        → KeepsSound (handle_arpreq_step env handle)
    unfolding handle_arpreq_step
    handle_arpreq_step-IsSound handle keeps p sr s =
        elim (Option-cases (find_req p sr.cache.requests)) [
          | inl freed ↦ rw (freed, handle_arpreq_step) (Ensures-crash Sound _)
          | inr (req, alive) ↦
              rw (alive, handle_arpreq_step)
                (elim (Bool-cases (ltb (req.sent + 1) env.now)) [
                  | inl due ↦ rw due (elim (Bool-cases (leb 5 req.times_sent)) [
                    | inl spent ↦ rw spent (give_up-IsSound handle req sr keeps s)
                    | inr few ↦ rw few (
                        send_request-IsSound p req sr alive
                          (find_req-address p sr.cache.requests req alive) (ground arith) s)
                  ])
                  | inr early ↦ rw early (Ensures-ok Sound sr s)
                ])
        ]

    -- Handling a request keeps the router sound, with whatever other requests it handles.
    pub sr_arpcache_handle_arpreq-IsSound :
        (fuel : ℕ) → KeepsSound (sr_arpcache_handle_arpreq env fuel)
    unfolding sr_arpcache_handle_arpreq
    sr_arpcache_handle_arpreq-IsSound zero p sr s = Ensures-out_of_fuel Sound
    sr_arpcache_handle_arpreq-IsSound (suc fuel) p sr s =
        handle_arpreq_step-IsSound (sr_arpcache_handle_arpreq env fuel)
          (sr_arpcache_handle_arpreq-IsSound fuel) p sr s
