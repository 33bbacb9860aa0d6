-- ===== src/ArpRequest/Stuck.antt =====
-- A request that cannot be given up, since one of the packets that wait for it came from the address
-- that it asks for: what keeps it in the queue.
use nw_proj.Base.{
  ℕ, ◌+◌, ◌≤◌, ◌<◌, ◌≡◌, ◌≢◌, ◌⊎◌, refl, sym, arith, ◌==◌, ◌∙◌, some, none, List, [], ◌∷◌, ◌++◌,
  eq→==, ne→==, inl, inr, Bool-cases, Option-cases,
}
use nw_proj.Memory.{Bytes, load32}
use nw_proj.Protocol.{ip_src}
use nw_proj.Text.{Text}
use nw_proj.Instance.{RtEntry, Packet, ArpReq, ArpCache, Sr}
use nw_proj.Routing.{sr_find_lpm_entry}
use nw_proj.ArpCache.{
  find_ip, find_req, update_req, remove_req, add_packet, sr_arpcache_lookup, sr_arpcache_queuereq,
}
use nw_proj.Icmp.{i_hdr}
use nw_proj.ArpRequest.{false}

-- The IP source of a packet, and a packet from `ip` among some.
abbrev pub source_of : Packet → ℕ
source_of pck = load32 pck.buf (ip_src i_hdr)

abbrev pub HasSource : ℕ → List Packet → Type 0
HasSource ip [] = ⊥
HasSource ip (pck ∷ pcks) = (source_of pck ≡ ip) ⊎ HasSource ip pcks

module _ (now ip p : ℕ) where
  -- The request at `p` for `ip`, to be given up, with a packet from `ip`.
  pub record IsBad (r : ArpReq) : Type 0 where
    pub same_ip : r.ip ≡ ip
    pub here : r.address ≡ p
    pub spent : 5 ≤ r.times_sent
    pub due : r.sent + 1 < now
    pub own : HasSource ip r.packets

  -- It is the first in the queue for `ip` and at `p`.
  abbrev pub HoldsBad : List ArpReq → Type 0
  HoldsBad [] = ⊥
  HoldsBad (r ∷ rs) = IsBad r ⊎ ((r.ip ≢ ip) × (r.address ≢ p) × HoldsBad rs)

  pub find_ip-IsBad :
      (rs : List ArpReq) → HoldsBad rs → (r : ArpReq) × (find_ip ip rs ≡ some r) × IsBad r
  unfolding find_ip
  find_ip-IsBad [] h = absurd h
  find_ip-IsBad (r ∷ rs) (inl b) = (r, rw (eq→== r.ip ip b.same_ip, find_ip) refl, b)
  find_ip-IsBad (r ∷ rs) (inr (other, _, h)) =
      let (bad, e, b) = find_ip-IsBad rs h in (bad, rw (ne→== r.ip ip other, find_ip) e, b)

  pub find_req-IsBad :
      (rs : List ArpReq) → HoldsBad rs → (r : ArpReq) × (find_req p rs ≡ some r) × IsBad r
  unfolding find_req
  find_req-IsBad [] h = absurd h
  find_req-IsBad (r ∷ rs) (inl b) = (r, rw (eq→== r.address p b.here, find_req) refl, b)
  find_req-IsBad (r ∷ rs) (inr (_, other, h)) =
      let (bad, e, b) = find_req-IsBad rs h in (bad, rw (ne→== r.address p other, find_req) e, b)

  -- An assignment to another request, or one that keeps this what it is.
  pub update_req-HoldsBad :
      (q : ℕ) (f : ArpReq → ArpReq) (rs : List ArpReq)
      → ((r : ArpReq) → ((f r).ip ≡ r.ip) × ((f r).address ≡ r.address))
      → (q ≢ p) ⊎ ((r : ArpReq) → IsBad r → IsBad (f r))
      → HoldsBad rs
      → HoldsBad (update_req q f rs)
  unfolding update_req
  update_req-HoldsBad q f [] ids keeps h = absurd h
  update_req-HoldsBad q f (r ∷ rs) ids (inl other) (inl b) =
      let kept : (r.address == q) ≡ false = ground (arith, b.here, other) in
      rw (kept, update_req) (inl b)
  update_req-HoldsBad q f (r ∷ rs) ids (inr k) (inl b) = elim (Bool-cases (r.address == q)) [
    | inl hit ↦ rw hit (inl (k r b))
    | inr miss ↦ rw miss (inl b)
  ]
  update_req-HoldsBad q f (r ∷ rs) ids keeps (inr (i, a, h)) = elim (Bool-cases (r.address == q)) [
    | inl hit ↦ rw hit (inr ((λ e. i (sym (ids r).0 ∙ e)), (λ e. a (sym (ids r).1 ∙ e)), h))
    | inr miss ↦ rw miss (inr (i, a, update_req-HoldsBad q f rs ids keeps h))
  ]

  pub remove_req-HoldsBad :
      (q : ℕ) (rs : List ArpReq) → q ≢ p → HoldsBad rs → HoldsBad (remove_req q rs)
  unfolding remove_req
  remove_req-HoldsBad q [] other h = absurd h
  remove_req-HoldsBad q (r ∷ rs) other (inl b) =
      let kept : (r.address == q) ≡ false = ground (arith, b.here, other) in
      rw (kept, remove_req) (inl b)
  remove_req-HoldsBad q (r ∷ rs) other (inr (i, a, h)) = elim (Bool-cases (r.address == q)) [
    | inl hit ↦ rw hit h
    | inr miss ↦ rw miss (inr (i, a, remove_req-HoldsBad q rs other h))
  ]

  append-HoldsBad : (rs ss : List ArpReq) → HoldsBad rs → HoldsBad (rs ++ ss)
  append-HoldsBad [] ss h = absurd h
  append-HoldsBad (r ∷ rs) ss (inl b) = inl b
  append-HoldsBad (r ∷ rs) ss (inr (i, a, h)) = inr (i, a, append-HoldsBad rs ss h)

  add_packet-IsBad :
      (uninit buf : Bytes) (len : ℕ) (iface : Text) (r : ArpReq)
      → IsBad r
      → IsBad (add_packet uninit buf len iface r)
  unfolding add_packet
  add_packet-IsBad uninit buf len iface r b = elim (Bool-cases (len == 0)) [
    | inl nothing ↦ rw (nothing, add_packet) b
    | inr something ↦
        rw (something, add_packet)
          (record {
            same_ip = b.same_ip;
            here = b.here;
            spent = b.spent;
            due = b.due;
            own = inr b.own;
          })
  ]

  add_packet_ids :
      (uninit buf : Bytes) (len : ℕ) (iface : Text) (r : ArpReq)
      → ((add_packet uninit buf len iface r).ip ≡ r.ip)
        × ((add_packet uninit buf len iface r).address ≡ r.address)
  unfolding add_packet
  add_packet_ids uninit buf len iface r = (ground arith, ground arith)

  -- The request is in the queue, its address has a route and no hardware address.
  pub record IsStuck (rt : RtEntry) (sr : Sr) : Type 0 where
    pub holds : HoldsBad sr.cache.requests
    pub route : sr_find_lpm_entry sr.routing_table ip ≡ some rt
    pub unknown : sr_arpcache_lookup sr.cache ip ≡ none

  pub sr_arpcache_queuereq-HoldsBad :
      (uninit : Bytes) (cache : ArpCache) (j : ℕ) (buf : Bytes) (len : ℕ) (iface : Text)
      → HoldsBad cache.requests
      → HoldsBad (sr_arpcache_queuereq uninit cache j buf len iface).0.requests
  unfolding sr_arpcache_queuereq
  sr_arpcache_queuereq-HoldsBad uninit cache j buf len iface h =
      elim (Option-cases (find_ip j cache.requests)) [
        | inl new ↦ rw (new, sr_arpcache_queuereq) (append-HoldsBad cache.requests _ h)
        | inr (r, old) ↦
            rw (old, sr_arpcache_queuereq)
              (update_req-HoldsBad r.address (add_packet uninit buf len iface) cache.requests
                (add_packet_ids uninit buf len iface) (inr (add_packet-IsBad uninit buf len iface))
                h)
      ]

  pub sr_arpcache_queuereq-entries :
      (uninit : Bytes) (cache : ArpCache) (j : ℕ) (buf : Bytes) (len : ℕ) (iface : Text)
      → (sr_arpcache_queuereq uninit cache j buf len iface).0.entries ≡ cache.entries
  unfolding sr_arpcache_queuereq
  sr_arpcache_queuereq-entries uninit cache j buf len iface =
      elim (Option-cases (find_ip j cache.requests)) [
        | inl new ↦ rw (new, sr_arpcache_queuereq) refl
        | inr (r, old) ↦ rw (old, sr_arpcache_queuereq) refl
      ]

  -- A packet for the address goes to the request at `p`.
  pub sr_arpcache_queuereq-address :
      (uninit : Bytes) (cache : ArpCache) (buf : Bytes) (len : ℕ) (iface : Text)
      → HoldsBad cache.requests
      → (sr_arpcache_queuereq uninit cache ip buf len iface).1 ≡ p
  unfolding sr_arpcache_queuereq
  sr_arpcache_queuereq-address uninit cache buf len iface h =
      let (r, found, b) = find_ip-IsBad cache.requests h in rw (found, sr_arpcache_queuereq) b.here
