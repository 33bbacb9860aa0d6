-- ===== src/ArpCache.antt =====
-- sr_arpcache.c but for the requests' handling: the table of 100 entries and the request queue.
-- Each function holds the cache's lock from its first to its last access, so it is one step.
pub mod Dump
pub mod Entries
pub mod Queue
pub mod Invariant
use nw_proj.Base.{
  ℕ, suc, ◌+◌, Bool, true, false, not, ◌&&◌, Option, none, some, List, [], ◌∷◌, ◌++◌, ◌==◌, ltb,
  if◌then◌else◌, replicate,
}
use nw_proj.Memory.{Bytes, memcpy}
use nw_proj.Protocol.{iface_namelen}
use nw_proj.Text.{Text, strncpy}
use nw_proj.Instance.{Packet, ArpEntry, ArpReq, ArpCache}

abbrev pub sr_arpcache_sz : ℕ
sr_arpcache_sz = 100

abbrev pub sr_arpcache_to : ℕ
sr_arpcache_to = 15

-- The loop of the lookup: a later entry replaces an earlier one.
unfoldable pub lookup_scan : ℕ → List ArpEntry → Option ArpEntry → Option ArpEntry
lookup_scan ip [] entry = entry
lookup_scan ip (e ∷ es) entry = lookup_scan ip es (if e.valid && e.ip == ip then some e else entry)

-- The copy that is returned is a value here.
unfoldable pub sr_arpcache_lookup : ArpCache → ℕ → Option ArpEntry
sr_arpcache_lookup cache ip = lookup_scan ip cache.entries none

-- The request for an address, the first in the queue.
unfoldable pub find_ip : ℕ → List ArpReq → Option ArpReq
find_ip ip [] = none
find_ip ip (r ∷ rs) = let rest = find_ip ip rs in if r.ip == ip then some r else rest

-- The request at an address, if it is still in the queue.
unfoldable pub find_req : ℕ → List ArpReq → Option ArpReq
find_req p [] = none
find_req p (r ∷ rs) = let rest = find_req p rs in if r.address == p then some r else rest

-- An assignment to the request at an address.
unfoldable pub update_req : ℕ → (ArpReq → ArpReq) → List ArpReq → List ArpReq
update_req p f [] = []
update_req p f (r ∷ rs) =
    let rest = update_req p f rs in if r.address == p then f r ∷ rs else r ∷ rest

-- The request at an address taken out of the list.
unfoldable pub remove_req : ℕ → List ArpReq → List ArpReq
remove_req p [] = []
remove_req p (r ∷ rs) = let rest = remove_req p rs in if r.address == p then rs else r ∷ rest

-- A `calloc`ed request at the end of the queue.
abbrev pub new_req : ℕ → ℕ → ArpReq
new_req address ip = record { address = address; ip = ip; sent = 0; times_sent = 0; packets = [] }

-- The packet is copied into fresh memory and put in front of those that wait. Its pointer and
-- that of the interface name are never null here; a packet of length 0 is not added.
unfoldable pub add_packet : Bytes → Bytes → ℕ → Text → ArpReq → ArpReq
add_packet uninit packet packet_len iface req = if packet_len == 0 then req else record req {
  packets =
      record {
        buf = memcpy uninit 0 packet 0 packet_len;
        len = packet_len;
        iface = strncpy iface_namelen iface;
      }
      ∷ req.packets;
}

-- The address of the request is returned with the new cache.
unfoldable pub sr_arpcache_queuereq : Bytes → ArpCache → ℕ → Bytes → ℕ → Text → ArpCache × ℕ
sr_arpcache_queuereq uninit cache ip packet packet_len iface = elim (find_ip ip cache.requests) [
  | some r ↦ (
    record cache {
      requests = update_req r.address (add_packet uninit packet packet_len iface) cache.requests;
    },
    r.address,
  )
  | none ↦ (
    record cache {
      requests =
          cache.requests
          ++ add_packet uninit packet packet_len iface (new_req cache.next_address ip) ∷ [];
      next_address = suc cache.next_address;
    },
    cache.next_address,
  )
]

-- The second loop of the insertion: the first entry that is not valid is filled.
unfoldable pub fill_free : Bytes → ℕ → ℕ → List ArpEntry → List ArpEntry
fill_free mac ip now [] = []
fill_free mac ip now (e ∷ es) =
    let rest = fill_free mac ip now es in
    if e.valid
    then e ∷ rest
    else record { mac = memcpy e.mac 0 mac 0 6; ip = ip; added = now; valid = true } ∷ es

-- The request for `ip` leaves the queue and is returned; it stays allocated.
unfoldable pub sr_arpcache_insert : ℕ → ArpCache → Bytes → ℕ → ArpCache × Option ArpReq
sr_arpcache_insert now cache mac ip =
    let filled = fill_free mac ip now cache.entries in
    elim (find_ip ip cache.requests) [
      | some r ↦ (
        record cache { entries = filled; requests = remove_req r.address cache.requests },
        some r,
      )
      | none ↦ (record cache { entries = filled }, none)
    ]

-- The request is unlinked if it is still linked, and its memory and its packets' are freed.
unfoldable pub sr_arpreq_destroy : ArpCache → ℕ → ArpCache
sr_arpreq_destroy cache entry = record cache { requests = remove_req entry cache.requests }

-- All entries zero, no request.
unfoldable pub sr_arpcache_init : ArpCache
sr_arpcache_init = record {
  entries = replicate sr_arpcache_sz (record { mac = λ _. 0; ip = 0; added = 0; valid = false });
  requests = [];
  next_address = 1;
}

-- The loop of sr_arpcache_timeout over the entries, in one round of the thread.
unfoldable pub expire_entries : ℕ → List ArpEntry → List ArpEntry
expire_entries curtime [] = []
expire_entries curtime (e ∷ es) =
    (if e.valid && ltb (e.added + sr_arpcache_to) curtime then record e { valid = false } else e)
    ∷ expire_entries curtime es
