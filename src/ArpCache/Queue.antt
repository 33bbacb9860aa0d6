-- ===== src/ArpCache/Queue.antt =====
-- The request queue as a map from IP addresses to requests: what queueing a packet, an insertion
-- and the freeing of a request do to it.
use nw_proj.Base.{
  All-mono, ℕ, ◌<◌, ◌≡◌, refl, ap, inl, inr, Option, none, some, List, [], ◌∷◌, ◌++◌, arith, ◌==◌,
  if◌then◌else◌, All, Bool-cases, Option-cases, subst, ◌∙◌, ◌≢◌, ==→eq,
}
use nw_proj.Memory.{Bytes, memcpy}
use nw_proj.Protocol.{iface_namelen}
use nw_proj.Text.{Text, strncpy}
use nw_proj.Instance.{Packet, ArpReq, ArpCache}
use nw_proj.ArpCache.{
  find_ip, find_req, update_req, remove_req, new_req, add_packet, sr_arpcache_queuereq,
  sr_arpcache_insert,
}
use nw_proj.ArpCache.Invariant.{Apart, IsQueue, IsValid, KeepsIds, Keeps-KeepsIds, add_packet-Keeps}

pub find_ip-All :
    (P : ArpReq → Type 0) (ip : ℕ) (rs : List ArpReq) (r : ArpReq)
    → All P rs
    → find_ip ip rs ≡ some r
    → P r × (r.ip ≡ ip)
unfolding find_ip
find_ip-All P ip [] r all h = absurd (ground arith)
find_ip-All P ip (x ∷ rs) r all h = elim (Bool-cases (x.ip == ip)) [
  | inl hit ↦ let eq : x ≡ r = ground arith in (subst P eq all.0, ground arith)
  | inr miss ↦ find_ip-All P ip rs r all.1 (ground arith)
]

-- Among distinct nodes the request found by its IP address is the one at its own address.
pub find_req-find_ip :
    (n ip : ℕ) (rs : List ArpReq) (r : ArpReq)
    → IsQueue n rs
    → find_ip ip rs ≡ some r
    → find_req r.address rs ≡ some r
unfolding find_ip find_req
find_req-find_ip n ip [] r q h = absurd (ground arith)
find_req-find_ip n ip (x ∷ rs) r q h = elim (Bool-cases (x.ip == ip)) [
  | inl hit ↦ ground arith
  | inr miss ↦
      let found : find_ip ip rs ≡ some r = ground arith in
      ground
        (arith, find_req-find_ip n ip rs r q.3 found, (find_ip-All (Apart x) ip rs r q.2 found).0)
]

-- An assignment to the request of `ip` is seen under `ip` alone.
pub find_ip-update_req :
    (n ip j : ℕ) (f : ArpReq → ArpReq) (rs : List ArpReq) (r : ArpReq)
    → KeepsIds f
    → IsQueue n rs
    → find_ip ip rs ≡ some r
    → find_ip j (update_req r.address f rs) ≡ (if ip == j then some (f r) else find_ip j rs)
unfolding find_ip update_req
find_ip-update_req n ip j f [] r k q h = absurd (ground arith)
find_ip-update_req n ip j f (x ∷ rs) r k q h = elim (Bool-cases (x.ip == ip)) [
  | inl hit ↦ ground (arith, k x)
  | inr miss ↦
      let found : find_ip ip rs ≡ some r = ground arith in
      ground (
        arith,
        find_ip-update_req n ip j f rs r k q.3 found,
        (find_ip-All (Apart x) ip rs r q.2 found).0,
      )
]

find_ip-append :
    (j : ℕ) (rs : List ArpReq) (x : ArpReq)
    → find_ip x.ip rs ≡ none
    → find_ip j (rs ++ x ∷ []) ≡ (if x.ip == j then some x else find_ip j rs)
unfolding find_ip
find_ip-append j [] x new = refl
find_ip-append j (r ∷ rs) x new = ground (arith, find_ip-append j rs x (ground arith))

pub find_req-update_req_self :
    (p : ℕ) (f : ArpReq → ArpReq) (rs : List ArpReq) (r : ArpReq)
    → KeepsIds f
    → find_req p rs ≡ some r
    → find_req p (update_req p f rs) ≡ some (f r)
unfolding find_req update_req
find_req-update_req_self p f [] r k h = absurd (ground arith)
find_req-update_req_self p f (x ∷ rs) r k h =
    ground (arith, k x, find_req-update_req_self p f rs r k)

find_req-append :
    (n : ℕ) (rs : List ArpReq) (x : ArpReq)
    → IsQueue n rs
    → x.address ≡ n
    → find_req n (rs ++ x ∷ []) ≡ some x
unfolding find_req
find_req-append n [] x q e = ground arith
find_req-append n (r ∷ rs) x q e = ground (arith, find_req-append n rs x q.3 e)

-- The copy of a packet that waits in a request.
abbrev pub waiting : Bytes → Bytes → ℕ → Text → Packet
waiting uninit packet len iface = record {
  buf = memcpy uninit 0 packet 0 len;
  len = len;
  iface = strncpy iface_namelen iface;
}

-- The request that was found, or a new one.
abbrev pub or_new : ℕ → ℕ → Option ArpReq → ArpReq
or_new address ip (some r) = r
or_new address ip none = new_req address ip

-- Queueing a packet for `ip` puts a copy in front of those that wait on the request for `ip`,
-- which is made if there was none, changes the request of no other address, and returns the
-- address at which that request is alive.
pub sr_arpcache_queuereq_lem :
    (uninit : Bytes) (cache : ArpCache) (ip : ℕ) (packet : Bytes) (len : ℕ) (iface : Text)
    → IsValid cache
    → 0 < len
    → let (after, p) = sr_arpcache_queuereq uninit cache ip packet len iface in
      let old = or_new cache.next_address ip (find_ip ip cache.requests) in
      let r = record old { packets = waiting uninit packet len iface ∷ old.packets } in
      (find_req p after.requests ≡ some r)
      × ((j : ℕ)
          → find_ip j after.requests ≡ (if ip == j then some r else find_ip j cache.requests))
unfolding sr_arpcache_queuereq
sr_arpcache_queuereq_lem uninit cache ip packet len iface v pos =
    elim (Option-cases (find_ip ip cache.requests)) [
      | inl new ↦
          let x = new_req cache.next_address ip in
          rw (new, sr_arpcache_queuereq)
            (rw (added x) (
              find_req-append cache.next_address cache.requests _ v.queue refl,
              (λ j. find_ip-append j cache.requests _ new),
            ))
      | inr (r, old) ↦
          let keeps =
            Keeps-KeepsIds (add_packet uninit packet len iface)
              (add_packet-Keeps uninit packet len iface) in
          rw (old, sr_arpcache_queuereq)
            (
              find_req-update_req_self r.address (add_packet uninit packet len iface) cache.requests
                    r keeps (find_req-find_ip cache.next_address ip cache.requests r v.queue old)
                  ∙ ap some (added r),
              (λ j.
                  find_ip-update_req cache.next_address ip j (add_packet uninit packet len iface)
                    cache.requests r keeps v.queue old
                  ∙ ap (λ (q : ArpReq). if ip == j then some q else find_ip j cache.requests)
                      (added r)),
            )
    ]
  where
    added :
        (r : ArpReq)
        → add_packet uninit packet len iface r
          ≡ record r { packets = waiting uninit packet len iface ∷ r.packets }
    added r = unfold add_packet in ground arith

find_ip_absent : (x : ArpReq) (rs : List ArpReq) → All (Apart x) rs → find_ip x.ip rs ≡ none
unfolding find_ip
find_ip_absent x [] h = refl
find_ip_absent x (r ∷ rs) h = ground (arith, find_ip_absent x rs h.1)

pub find_ip-remove_req :
    (n ip j : ℕ) (rs : List ArpReq) (r : ArpReq)
    → IsQueue n rs
    → find_ip ip rs ≡ some r
    → find_ip j (remove_req r.address rs) ≡ (if ip == j then none else find_ip j rs)
unfolding find_ip remove_req
find_ip-remove_req n ip j [] r q h = absurd (ground arith)
find_ip-remove_req n ip j (x ∷ rs) r q h = elim (Bool-cases (x.ip == ip)) [
  | inl hit ↦ ground (arith, find_ip_absent x rs q.2)
  | inr miss ↦
      let found : find_ip ip rs ≡ some r = ground arith in
      ground (
        arith,
        find_ip-remove_req n ip j rs r q.3 found,
        (find_ip-All (Apart x) ip rs r q.2 found).0,
      )
]

-- An insertion returns the request for `ip`, if there is one, and takes it out of the queue; the
-- requests for other addresses stay.
pub sr_arpcache_insert_lem :
    (now : ℕ) (cache : ArpCache) (mac : Bytes) (ip j : ℕ)
    → IsValid cache
    → let (after, r) = sr_arpcache_insert now cache mac ip in
      (r ≡ find_ip ip cache.requests)
      × (find_ip j after.requests ≡ (if ip == j then none else find_ip j cache.requests))
unfolding sr_arpcache_insert
sr_arpcache_insert_lem now cache mac ip j v = elim (Option-cases (find_ip ip cache.requests)) [
  | inl missing ↦ rw (missing, sr_arpcache_insert) (refl, ground (arith, missing))
  | inr (r, found) ↦
      rw (found, sr_arpcache_insert)
        (refl, find_ip-remove_req cache.next_address ip j cache.requests r v.queue found)
]

abbrev AwayFrom : ℕ → ArpReq → Type 0
AwayFrom p x = x.address ≢ p

remove_req-away : (p : ℕ) (rs : List ArpReq) → All (AwayFrom p) rs → remove_req p rs ≡ rs
unfolding remove_req
remove_req-away p [] h = refl
remove_req-away p (r ∷ rs) h = ground (arith, remove_req-away p rs h.1)

away-remove_req : (n p : ℕ) (rs : List ArpReq) → IsQueue n rs → All (AwayFrom p) (remove_req p rs)
unfolding remove_req
away-remove_req n p [] q = tt
away-remove_req n p (r ∷ rs) q = elim (Bool-cases (r.address == p)) [
  | inl hit ↦
      let e = ==→eq r.address p hit in
      rw hit (All-mono (Apart r) (AwayFrom p) rs (λ x a. ground (arith, a.0)) q.2)
  | inr miss ↦ rw miss (ground arith, away-remove_req n p rs q.3)
]

-- Freeing a request that is unlinked already changes the queue no more.
pub remove_req_twice :
    (n p : ℕ) (rs : List ArpReq) → IsQueue n rs → remove_req p (remove_req p rs) ≡ remove_req p rs
remove_req_twice n p rs q = remove_req-away p (remove_req p rs) (away-remove_req n p rs q)

find_req-away : (p : ℕ) (rs : List ArpReq) → All (AwayFrom p) rs → find_req p rs ≡ none
unfolding find_req
find_req-away p [] h = refl
find_req-away p (r ∷ rs) h = ground (arith, find_req-away p rs h.1)

-- A freed request is no longer in the queue.
pub find_req-remove_req :
    (n p : ℕ) (rs : List ArpReq) → IsQueue n rs → find_req p (remove_req p rs) ≡ none
find_req-remove_req n p rs q = find_req-away p (remove_req p rs) (away-remove_req n p rs q)

-- The queue after the request that an insertion returned is freed.
abbrev pub freed : Option ArpReq → List ArpReq → List ArpReq
freed none rs = rs
freed (some r) rs = remove_req r.address rs

-- Freeing that request changes nothing: it left the queue with the insertion.
pub sr_arpcache_insert-freed :
    (now : ℕ) (cache : ArpCache) (mac : Bytes) (ip : ℕ)
    → IsValid cache
    → let (after, r) = sr_arpcache_insert now cache mac ip in
      freed r after.requests ≡ after.requests
unfolding sr_arpcache_insert
sr_arpcache_insert-freed now cache mac ip v = elim (Option-cases (find_ip ip cache.requests)) [
  | inl missing ↦ rw (missing, sr_arpcache_insert)
  | inr (r, found) ↦
      rw (found, sr_arpcache_insert)
        (remove_req_twice cache.next_address r.address cache.requests v.queue)
]

-- The request is one for `ip`.
pub or_new-ip : (address ip : ℕ) (rs : List ArpReq) → (or_new address ip (find_ip ip rs)).ip ≡ ip
unfolding find_ip
or_new-ip address ip [] = refl
or_new-ip address ip (r ∷ rs) = elim (Bool-cases (r.ip == ip)) [
  | inl hit ↦ rw hit (==→eq r.ip ip hit)
  | inr miss ↦ rw miss (or_new-ip address ip rs)
]
