-- ===== src/ArpRequest.antt =====
-- sr_arpcache_handle_arpreq and sr_arpcache_sweepreqs of sr_arpcache.c. One call reads one time.
-- The handling of a request can queue a packet and handle another request: that recursion has no
-- bound in the code, so it takes fuel here, and a run that needs more ends in `out_of_fuel`.
pub mod Laws
pub mod Invariant
pub mod Sweep
pub mod GiveUp
pub mod Safe
pub mod Calm
pub mod Alone
pub mod Unanswered
pub mod Stuck
pub mod Trap
pub mod Endless
use nw_proj.Base.{
  ℕ, zero, suc, ◌+◌, ◌%◌, ◌^◌, Bool, true, false, Option, none, some, List, [], ◌∷◌, ◌==◌, ltb, leb,
  if◌then◌else◌,
}
use nw_proj.Memory.{Bytes, store8, store16, store32, load32, htons, memcpy, memset}
use nw_proj.Text.{Text}
use nw_proj.Protocol.{
  sizeof_ethernet, sizeof_arp, ether_dhost, ether_shost, ether_type, ether_addr_len, ethertype_arp,
  ethertype_ip, ip_src, ar_hrd, ar_pro, ar_hln, ar_pln, ar_op, ar_sha, ar_sip, ar_tha, ar_tip,
  arp_hrd_ethernet, arp_op_request,
}
use nw_proj.Instance.{
  Iface, Packet, ArpReq, Sr, Env, Outcome, ok, crash, out_of_fuel, use_after_free, null_pointer,
  ◌>>=◌, deref,
}
use nw_proj.Interfaces.{sr_get_interface}
use nw_proj.Routing.{sr_find_lpm_entry}
use nw_proj.ArpCache.{
  find_req, update_req, sr_arpcache_lookup, sr_arpcache_queuereq, sr_arpreq_destroy, expire_entries,
}
use nw_proj.Icmp.{i_hdr, error_len, host_unreachable_packet}
use nw_proj.Send.{sr_send_packet}

abbrev pub arp_len : ℕ
arp_len = sizeof_ethernet + sizeof_arp

-- The broadcast that asks for the hardware address of `ip`.
unfoldable pub arp_request_packet : Bytes → Iface → ℕ → Bytes
arp_request_packet uninit ifc ip =
    let a_hdr = sizeof_ethernet in
    let m1 = store16 uninit (ether_type 0) (htons ethertype_arp) in
    let m2 = memcpy m1 (ether_shost 0) ifc.addr 0 ether_addr_len in
    let m3 = memset m2 (ether_dhost 0) 0xff ether_addr_len in
    let m4 = store16 m3 (ar_hrd a_hdr) (htons arp_hrd_ethernet) in
    let m5 = store16 m4 (ar_pro a_hdr) (htons ethertype_ip) in
    let m6 = store8 m5 (ar_hln a_hdr) ether_addr_len in
    let m7 = store8 m6 (ar_pln a_hdr) 4 in
    let m8 = store16 m7 (ar_op a_hdr) (htons arp_op_request) in
    let m9 = memcpy m8 (ar_sha a_hdr) ifc.addr 0 ether_addr_len in
    let m10 = store32 m9 (ar_sip a_hdr) ifc.ip in
    let m11 = memset m10 (ar_tha a_hdr) 0xff ether_addr_len in store32 m11 (ar_tip a_hdr) ip

-- `req->sent = curtime; req->times_sent++`, on a `uint32_t`.
unfoldable pub mark_sent : ℕ → ArpReq → ArpReq
mark_sent now r = record r { sent = now; times_sent = (r.times_sent + 1) % 2 ^ 32 }

module _ (env : Env) where
  -- The branch that asks again.
  unfoldable pub send_request : ArpReq → Sr → Outcome Sr
  send_request req sr = do
    rtentry ← deref (sr_find_lpm_entry sr.routing_table req.ip)
    ifc ← deref (sr_get_interface sr.if_list rtentry.interface)
    ok
        (sr_send_packet env
          (record sr {
            cache = record (sr.cache) {
              requests = update_req req.address (mark_sent env.now) sr.cache.requests;
            };
          })
          (arp_request_packet env.uninit ifc req.ip) arp_len ifc.name).0

  -- The end of every branch that sends a datagram, here and in sr_router.c: to the hardware
  -- address of `ip` if it is known, or into the queue of packets that wait for it, with `handle`
  -- for the request's handling.
  unfoldable pub hand_over : (ℕ → Sr → Outcome Sr) → Sr → Bytes → ℕ → Text → ℕ → Outcome Sr
  hand_over handle sr m len iface ip = elim (sr_arpcache_lookup sr.cache ip) [
    | some entry ↦
        ok (sr_send_packet env sr (memcpy m (ether_dhost 0) entry.mac 0 ether_addr_len) len iface).0
    | none ↦
        let (cache, arpreq) = sr_arpcache_queuereq env.uninit sr.cache ip m len iface in
        handle arpreq (record sr { cache = cache })
  ]

  -- Host unreachable for one waiting packet, with `handle` for the nested call.
  unfoldable pub notify : (ℕ → Sr → Outcome Sr) → Packet → Sr → Outcome Sr
  notify handle pck sr =
      let src = load32 pck.buf (ip_src i_hdr) in
      elim (sr_find_lpm_entry sr.routing_table src) [
        | none ↦ ok sr
        | some rtentry ↦ do
          ifc ← deref (sr_get_interface sr.if_list rtentry.interface)
          let buf = host_unreachable_packet env.uninit ifc pck.buf
          hand_over handle sr buf error_len rtentry.interface src
      ]

  -- The loop over the packets that waited when the request was given up. A nested call that comes
  -- back to this request starts the loop again and so never ends: where the loop ends, the list
  -- is the one it began with.
  unfoldable pub notify_all : (ℕ → Sr → Outcome Sr) → List Packet → Sr → Outcome Sr
  notify_all handle [] sr = ok sr
  notify_all handle (pck ∷ pcks) sr = do sr' ← notify handle pck sr; notify_all handle pcks sr'

  -- The branch after five requests.
  unfoldable pub give_up : (ℕ → Sr → Outcome Sr) → ArpReq → Sr → Outcome Sr
  give_up handle req sr = do
    sr' ← notify_all handle req.packets sr
    ok (record sr' { cache = sr_arpreq_destroy sr'.cache req.address })

  -- `difftime(curtime, req->sent) > 1.0` on whole seconds.
  unfoldable pub handle_arpreq_step : (ℕ → Sr → Outcome Sr) → ℕ → Sr → Outcome Sr
  handle_arpreq_step handle p sr = elim (find_req p sr.cache.requests) [
    | none ↦ crash use_after_free
    | some req ↦
        if ltb (req.sent + 1) env.now
        then if leb 5 req.times_sent then give_up handle req sr else send_request req sr
        else ok sr
  ]

  unfoldable pub sr_arpcache_handle_arpreq : ℕ → ℕ → Sr → Outcome Sr
  sr_arpcache_handle_arpreq zero p sr = out_of_fuel
  sr_arpcache_handle_arpreq (suc fuel) p sr =
      handle_arpreq_step (sr_arpcache_handle_arpreq fuel) p sr

-- `req->next`: the address of the node behind the one at `p`.
unfoldable pub next_of : ℕ → List ArpReq → Option ℕ
next_of p [] = none
next_of p (r ∷ []) = none
next_of p (r ∷ (s ∷ rs)) =
    let rest = next_of p (s ∷ rs) in if r.address == p then some s.address else rest

abbrev pub head_of : List ArpReq → Option ℕ
head_of [] = none
head_of (r ∷ rs) = some r.address

-- The sweep from the node at `cur`. The next pointer is read before the node is handled; a node
-- that was freed meanwhile is a fault. `rounds` bounds the nodes visited.
unfoldable pub sweep_from : Env → ℕ → ℕ → Option ℕ → Sr → Outcome Sr
sweep_from env fuel zero cur sr = out_of_fuel
sweep_from env fuel (suc rounds) none sr = ok sr
sweep_from env fuel (suc rounds) (some req) sr = elim (find_req req sr.cache.requests) [
  | none ↦ crash use_after_free
  | some _ ↦ do
    sr' ← sr_arpcache_handle_arpreq env fuel req sr
    sweep_from env fuel rounds (next_of req sr.cache.requests) sr'
]

unfoldable pub sr_arpcache_sweepreqs : Env → ℕ → ℕ → Sr → Outcome Sr
sr_arpcache_sweepreqs env fuel rounds sr = sweep_from env fuel rounds (head_of sr.cache.requests) sr

-- One round of the cleanup thread, under the cache's lock.
unfoldable pub sr_arpcache_timeout : Env → ℕ → ℕ → Sr → Outcome Sr
sr_arpcache_timeout env fuel rounds sr =
    sr_arpcache_sweepreqs env fuel rounds (record sr {
      cache = record (sr.cache) { entries = expire_entries env.now sr.cache.entries };
    })

-- The loop of the cleanup thread, for as many rounds as there are answers of the system.
unfoldable pub timeout_rounds : ℕ → ℕ → List Env → Sr → Outcome Sr
timeout_rounds fuel rounds [] sr = ok sr
timeout_rounds fuel rounds (env ∷ envs) sr = do
  sr' ← sr_arpcache_timeout env fuel rounds sr
  timeout_rounds fuel rounds envs sr'
