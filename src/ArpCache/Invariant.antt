-- ===== src/ArpCache/Invariant.antt =====
-- The invariant of the cache: 100 entries; in the queue one request for each address, nodes that
-- are distinct and were allocated, and no request sent more than five times.
use nw_proj.Base.{
  ℕ, suc, ◌≤◌, ◌<◌, ◌≡◌, ◌≢◌, refl, inl, inr, false, none, List, [], ◌∷◌, ◌++◌, arith, ◌==◌, length,
  All, Bool-cases, Option-cases, All-mono, ap, ◌∙◌,
}
use nw_proj.Memory.{Bytes}
use nw_proj.Text.{Text}
use nw_proj.Instance.{ArpEntry, ArpReq, ArpCache}
use nw_proj.ArpCache.{
  sr_arpcache_sz, find_ip, update_req, remove_req, new_req, add_packet, sr_arpcache_queuereq,
  sr_arpcache_insert, sr_arpreq_destroy, sr_arpcache_init, expire_entries, find_req, some,
}
use nw_proj.ArpCache.Entries.{length-fill_free}

-- Two requests differ in address and in IP address.
abbrev pub Apart : ArpReq → ArpReq → Type 0
Apart r x = (x.address ≢ r.address) × (x.ip ≢ r.ip)

abbrev pub IsQueue : ℕ → List ArpReq → Type 0
IsQueue next [] = Unit {0}
IsQueue next (r ∷ rs) = (r.address < next) × (r.times_sent ≤ 5) × All (Apart r) rs × IsQueue next rs

pub record IsValid (cache : ArpCache) : Type 0 where
  pub size : length cache.entries ≡ sr_arpcache_sz
  pub queue : IsQueue cache.next_address cache.requests

-- An assignment that keeps a request what it is.
abbrev pub Keeps : (ArpReq → ArpReq) → Type 0
Keeps f =
    (r : ArpReq)
    → ((f r).address ≡ r.address) × ((f r).ip ≡ r.ip) × (r.times_sent ≤ 5 → (f r).times_sent ≤ 5)

-- An assignment that keeps the addresses of a request.
abbrev pub KeepsIds : (ArpReq → ArpReq) → Type 0
KeepsIds f = (r : ArpReq) → ((f r).address ≡ r.address) × ((f r).ip ≡ r.ip)

pub Keeps-KeepsIds : (f : ArpReq → ArpReq) → Keeps f → KeepsIds f
Keeps-KeepsIds f k r = ((k r).0, (k r).1)

pub All-Apart-update_req :
    (p : ℕ) (f : ArpReq → ArpReq) (r : ArpReq) (rs : List ArpReq)
    → KeepsIds f
    → All (Apart r) rs
    → All (Apart r) (update_req p f rs)
unfolding update_req
All-Apart-update_req p f r [] k h = tt
All-Apart-update_req p f r (x ∷ rs) k h = ground (arith, k x, All-Apart-update_req p f r rs k h.1)

-- The assignment has to keep the bound on `times_sent` only at the request it is made to.
pub IsQueue-update_req :
    (n p : ℕ) (f : ArpReq → ArpReq) (rs : List ArpReq)
    → KeepsIds f
    → ((r : ArpReq) → find_req p rs ≡ some r → r.times_sent ≤ 5 → (f r).times_sent ≤ 5)
    → IsQueue n rs
    → IsQueue n (update_req p f rs)
unfolding update_req find_req
IsQueue-update_req n p f [] k few h = tt
IsQueue-update_req n p f (r ∷ rs) k few h = elim (Bool-cases (r.address == p)) [
  | inl hit ↦ rw hit (
    ground (arith, k r),
    few r (rw hit refl) h.1,
    All-mono (Apart r) (Apart (f r)) rs (λ x a. ground (arith, k r)) h.2,
    h.3,
  )
  | inr miss ↦ rw miss (
    h.0,
    h.1,
    All-Apart-update_req p f r rs k h.2,
    IsQueue-update_req n p f rs k (λ x found. few x (rw miss found)) h.3,
  )
]

pub All-remove_req :
    (P : ArpReq → Type 0) (p : ℕ) (rs : List ArpReq) → All P rs → All P (remove_req p rs)
unfolding remove_req
All-remove_req P p [] h = tt
All-remove_req P p (r ∷ rs) h = elim (Bool-cases (r.address == p)) [
  | inl hit ↦ rw hit h.1
  | inr miss ↦ rw miss (h.0, All-remove_req P p rs h.1)
]

pub IsQueue-remove_req : (n p : ℕ) (rs : List ArpReq) → IsQueue n rs → IsQueue n (remove_req p rs)
unfolding remove_req
IsQueue-remove_req n p [] h = tt
IsQueue-remove_req n p (r ∷ rs) h = elim (Bool-cases (r.address == p)) [
  | inl hit ↦ rw hit h.3
  | inr miss ↦ rw miss (h.0, h.1, All-remove_req (Apart r) p rs h.2, IsQueue-remove_req n p rs h.3)
]

pub IsQueue-mono : (m n : ℕ) (rs : List ArpReq) → m ≤ n → IsQueue m rs → IsQueue n rs
IsQueue-mono m n [] le h = tt
IsQueue-mono m n (r ∷ rs) le h = (omega arith, h.1, h.2, IsQueue-mono m n rs le h.3)

-- A new request at the end, with an address and an IP address of its own.
All-Apart-append :
    (r x : ArpReq) (rs : List ArpReq) → All (Apart r) rs → Apart r x → All (Apart r) (rs ++ x ∷ [])
All-Apart-append r x [] h a = (a, tt)
All-Apart-append r x (y ∷ rs) h a = (h.0, All-Apart-append r x rs h.1 a)

pub IsQueue-append :
    (n : ℕ) (rs : List ArpReq) (x : ArpReq)
    → x.address ≡ n
    → x.times_sent ≤ 5
    → find_ip x.ip rs ≡ none
    → IsQueue n rs
    → IsQueue (suc n) (rs ++ x ∷ [])
unfolding find_ip
IsQueue-append n [] x at few new h = (omega arith, few, tt, tt)
IsQueue-append n (r ∷ rs) x at few new h =
    let other : (r.ip == x.ip) ≡ false = ground arith in
    (
      omega arith,
      h.1,
      All-Apart-append r x rs h.2 (ground arith, ground arith),
      IsQueue-append n rs x at few (ground arith) h.3,
    )

pub add_packet-Keeps :
    (uninit packet : Bytes) (len : ℕ) (iface : Text) → Keeps (add_packet uninit packet len iface)
unfolding add_packet
add_packet-Keeps uninit packet len iface r = (ground arith, ground arith, λ h. ground arith)

-- Queueing a packet keeps a cache valid: a request that it makes is at an address of its own and
-- the only one for its IP address.
pub sr_arpcache_queuereq-IsValid :
    (uninit : Bytes) (cache : ArpCache) (ip : ℕ) (packet : Bytes) (len : ℕ) (iface : Text)
    → IsValid cache
    → IsValid (sr_arpcache_queuereq uninit cache ip packet len iface).0
unfolding sr_arpcache_queuereq
sr_arpcache_queuereq-IsValid uninit cache ip packet len iface v =
    elim (Option-cases (find_ip ip cache.requests)) [
      | inl new ↦
          let r = new_req cache.next_address ip in
          let keeps = add_packet-Keeps uninit packet len iface r in
          rw (new, sr_arpcache_queuereq)
            (record {
              size = v.size;
              queue =
                  IsQueue-append cache.next_address cache.requests
                    (add_packet uninit packet len iface r) keeps.0 (keeps.2 (omega arith))
                    (rw keeps.1 new) v.queue;
            })
      | inr (r, old) ↦
          rw (old, sr_arpcache_queuereq)
            (record {
              size = v.size;
              queue =
                  IsQueue-update_req cache.next_address r.address
                    (add_packet uninit packet len iface) cache.requests
                    (Keeps-KeepsIds (add_packet uninit packet len iface)
                      (add_packet-Keeps uninit packet len iface))
                    (λ x _. (add_packet-Keeps uninit packet len iface x).2) v.queue;
            })
    ]

-- An insertion keeps a cache valid: the table keeps its 100 entries, and the requests that stay
-- keep theirs.
pub sr_arpcache_insert-IsValid :
    (now : ℕ) (cache : ArpCache) (mac : Bytes) (ip : ℕ)
    → IsValid cache
    → IsValid (sr_arpcache_insert now cache mac ip).0
unfolding sr_arpcache_insert
sr_arpcache_insert-IsValid now cache mac ip v =
    let sized = length-fill_free mac ip now cache.entries ∙ v.size in
    elim (Option-cases (find_ip ip cache.requests)) [
      | inl missing ↦ rw (missing, sr_arpcache_insert) (record { size = sized; queue = v.queue })
      | inr (r, found) ↦
          rw (found, sr_arpcache_insert)
            (record {
              size = sized;
              queue = IsQueue-remove_req cache.next_address r.address cache.requests v.queue;
            })
    ]

pub sr_arpreq_destroy-IsValid :
    (cache : ArpCache) (p : ℕ) → IsValid cache → IsValid (sr_arpreq_destroy cache p)
unfolding sr_arpreq_destroy
sr_arpreq_destroy-IsValid cache p v = record {
  size = v.size;
  queue = IsQueue-remove_req cache.next_address p cache.requests v.queue;
}

pub sr_arpcache_init-IsValid : IsValid sr_arpcache_init
unfolding sr_arpcache_init
sr_arpcache_init-IsValid = record { size = refl; queue = tt }

length-expire_entries : (now : ℕ) (es : List ArpEntry) → length (expire_entries now es) ≡ length es
unfolding expire_entries
length-expire_entries now [] = refl
length-expire_entries now (e ∷ es) = ap suc (length-expire_entries now es)

pub expire_entries-IsValid :
    (now : ℕ) (cache : ArpCache)
    → IsValid cache
    → IsValid (record cache { entries = expire_entries now cache.entries })
expire_entries-IsValid now cache v = record {
  size = length-expire_entries now cache.entries ∙ v.size;
  queue = v.queue;
}

-- A property that the assignment keeps is kept of every request.
pub All-update_req :
    (P : ArpReq → Type 0) (p : ℕ) (f : ArpReq → ArpReq) (rs : List ArpReq)
    → ((r : ArpReq) → P r → P (f r))
    → All P rs
    → All P (update_req p f rs)
unfolding update_req
All-update_req P p f [] k h = tt
All-update_req P p f (r ∷ rs) k h = elim (Bool-cases (r.address == p)) [
  | inl hit ↦ rw hit (k r h.0, h.1)
  | inr miss ↦ rw miss (h.0, All-update_req P p f rs k h.1)
]
