-- ===== src/ArpRequest/Laws.antt =====
-- One call of sr_arpcache_handle_arpreq, on each branch but the one that gives up.
use nw_proj.Base.{
  ℕ, suc, ◌+◌, ◌^◌, ◌≤◌, ◌<◌, ◌≡◌, refl, inl, inr, true, arith, ◌∙◌, some, none, List, [], ◌∷◌, ap,
  Bool-cases, subst, ◌-◌,
}
use nw_proj.Memory.{Bytes, load16, load32, store32, htons, memcpy, memset}
use nw_proj.Memory.Laws.{eq→same_bytes}
use nw_proj.Protocol.{
  iface_namelen, ether_type, ethertype_arp, ethertype_ip, ar_op, ar_sha, ar_sip, ar_tip, ar_hrd,
  ar_pro, ar_hln, ar_pln, sizeof_ethernet, arp_hrd_ethernet, arp_op_request,
}
use nw_proj.Text.{Text, strncmp_eq, strncmp_eq_trans, strncmp_eq_refl}
use nw_proj.Instance.{Iface, RtEntry, ArpReq, Sr, Env, ok, crash, null_pointer}
use nw_proj.Interfaces.{sr_get_interface}
use nw_proj.Routing.{sr_find_lpm_entry}
use nw_proj.ArpCache.{find_req, update_req}
use nw_proj.Send.Laws.{wrote, sr_send_packet-sends}
use nw_proj.ArpRequest.{
  arp_len, arp_request_packet, mark_sent, send_request, handle_arpreq_step,
  sr_arpcache_handle_arpreq,
}

-- The frame asks everybody on the link of `ifc`, in the name of `ifc`, for the owner of `ip`.
pub record IsArpRequest (ifc : Iface) (ip : ℕ) (frame : Bytes) : Type 0 where
  pub broadcast : (k : ℕ) → k < 6 → frame k ≡ 0xff
  pub source : (k : ℕ) → k < 6 → frame (6 + k) ≡ ifc.addr k
  pub is_arp : load16 frame (ether_type 0) ≡ htons ethertype_arp
  pub hardware : load16 frame (ar_hrd sizeof_ethernet) ≡ htons arp_hrd_ethernet
  pub protocol : load16 frame (ar_pro sizeof_ethernet) ≡ htons ethertype_ip
  pub sizes : (frame (ar_hln sizeof_ethernet) ≡ 6) × (frame (ar_pln sizeof_ethernet) ≡ 4)
  pub request : load16 frame (ar_op sizeof_ethernet) ≡ htons arp_op_request
  pub sender : (k : ℕ) → k < 6 → frame (ar_sha sizeof_ethernet + k) ≡ ifc.addr k
  pub sender_ip : load32 frame (ar_sip sizeof_ethernet) ≡ ifc.ip
  pub target_ip : load32 frame (ar_tip sizeof_ethernet) ≡ ip

arp_request_packet-source :
    (uninit : Bytes) (ifc : Iface) (ip k : ℕ)
    → k < 6
    → arp_request_packet uninit ifc ip (6 + k) ≡ ifc.addr k
unfolding arp_request_packet store32 memcpy memset
arp_request_packet-source uninit ifc ip k h = ground (arith, cancel)
  where
    cancel : 0 + (6 + k - 6) ≡ k
    cancel = omega arith

-- The frame that the router makes for an address is an ARP request for it, from the interface and
-- to everybody, whatever the allocated memory held.
pub arp_request_packet-IsArpRequest :
    (uninit : Bytes) (ifc : Iface) (ip : ℕ)
    → ifc.ip < 2 ^ 32
    → ip < 2 ^ 32
    → IsArpRequest ifc ip (arp_request_packet uninit ifc ip)
unfolding arp_request_packet store32 load16 load32 htons memcpy memset
arp_request_packet-IsArpRequest uninit ifc ip small target_small = record {
  broadcast = λ k h. ground arith;
  source = arp_request_packet-source uninit ifc ip;
  is_arp = refl;
  hardware = refl;
  protocol = refl;
  sizes = (refl, refl);
  request = refl;
  sender = λ k h. ground (arith, cancel22 k);
  sender_ip = omega arith;
  target_ip = omega arith;
}
  where
    cancel22 : (k : ℕ) → 0 + (22 + k - 22) ≡ k
    cancel22 k = omega arith

sr_get_interface-matches :
    (is : List Iface) (name : Text) (i : Iface)
    → sr_get_interface is name ≡ some i
    → strncmp_eq iface_namelen i.name name ≡ true
unfolding sr_get_interface
sr_get_interface-matches [] name i h = absurd (ground arith)
sr_get_interface-matches (x ∷ is) name i h =
    elim (Bool-cases (strncmp_eq iface_namelen x.name name)) [
      | inl hit ↦
          let eq : x ≡ i = ground arith in
          subst (λ (j : Iface). strncmp_eq iface_namelen j.name name ≡ true) eq hit
      | inr miss ↦ sr_get_interface-matches is name i (ground arith)
    ]

-- The interface found by a name is the one found by its own name.
pub sr_get_interface-name :
    (is : List Iface) (name : Text) (i : Iface)
    → sr_get_interface is name ≡ some i
    → sr_get_interface is i.name ≡ some i
unfolding sr_get_interface
sr_get_interface-name [] name i h = absurd (ground arith)
sr_get_interface-name (x ∷ is) name i h = elim (Bool-cases (strncmp_eq iface_namelen x.name name)) [
  | inl hit ↦
      let eq : x ≡ i = ground arith in
      subst (λ (j : Iface). sr_get_interface (x ∷ is) j.name ≡ some j) eq
        (rw (strncmp_eq_refl iface_namelen x.name))
  | inr miss ↦
      let later : sr_get_interface is name ≡ some i = ground arith in
      ground (
        arith,
        sr_get_interface-matches is name i later,
        strncmp_eq_trans iface_namelen x.name i.name name,
        sr_get_interface-name is name i later,
      )
]

module _ (env : Env) where
  -- What the router is after it marked the request and asked again.
  abbrev pub asked : Sr → ArpReq → Iface → Sr
  asked sr req ifc =
      wrote
        (record sr {
          cache = record (sr.cache) {
            requests = update_req req.address (mark_sent env.now) sr.cache.requests;
          };
        })
        (arp_request_packet env.uninit ifc req.ip) arp_len ifc.name

  pub send_request-asked :
      (req : ArpReq) (sr : Sr) (rt : RtEntry) (ifc : Iface)
      → sr_find_lpm_entry sr.routing_table req.ip ≡ some rt
      → sr_get_interface sr.if_list rt.interface ≡ some ifc
      → send_request env req sr ≡ ok (asked sr req ifc)
  unfolding send_request
  send_request-asked req sr rt ifc route found =
      rw (route, send_request)
        (rw found (
          ap ok (
            sr_send_packet-sends env _ (arp_request_packet env.uninit ifc req.ip) arp_len ifc.name
              ifc (omega arith) (sr_get_interface-name sr.if_list rt.interface ifc found)
              (eq→same_bytes (arp_request_packet env.uninit ifc req.ip) 6 ifc.addr 0 6 λ k h.
                arp_request_packet-source env.uninit ifc req.ip k h ∙ ap ifc.addr (omega arith)))))

  -- A request that is due and was sent fewer than five times is sent again.
  pub handle_arpreq-asked :
      (fuel p : ℕ) (req : ArpReq) (sr : Sr) (rt : RtEntry) (ifc : Iface)
      → find_req p sr.cache.requests ≡ some req
      → req.sent + 1 < env.now
      → req.times_sent < 5
      → sr_find_lpm_entry sr.routing_table req.ip ≡ some rt
      → sr_get_interface sr.if_list rt.interface ≡ some ifc
      → sr_arpcache_handle_arpreq env (suc fuel) p sr ≡ ok (asked sr req ifc)
  unfolding sr_arpcache_handle_arpreq handle_arpreq_step
  handle_arpreq-asked fuel p req sr rt ifc alive due few route found =
      rw (alive, handle_arpreq_step) (ground (arith, send_request-asked req sr rt ifc route found))

  -- A request that was sent in this second or the one before is left alone.
  pub handle_arpreq-waits :
      (fuel p : ℕ) (req : ArpReq) (sr : Sr)
      → find_req p sr.cache.requests ≡ some req
      → env.now ≤ req.sent + 1
      → sr_arpcache_handle_arpreq env (suc fuel) p sr ≡ ok sr
  unfolding sr_arpcache_handle_arpreq handle_arpreq_step
  handle_arpreq-waits fuel p req sr alive early = rw (alive, handle_arpreq_step) (ground arith)

  -- A request that is due, was sent fewer than five times and has no route crashes the router.
  pub handle_arpreq-no_route :
      (fuel p : ℕ) (req : ArpReq) (sr : Sr)
      → find_req p sr.cache.requests ≡ some req
      → req.sent + 1 < env.now
      → req.times_sent < 5
      → sr_find_lpm_entry sr.routing_table req.ip ≡ none
      → sr_arpcache_handle_arpreq env (suc fuel) p sr ≡ crash null_pointer
  unfolding sr_arpcache_handle_arpreq handle_arpreq_step send_request
  handle_arpreq-no_route fuel p req sr alive due few no_route =
      rw (alive, handle_arpreq_step) (ground (arith, no_route))
