-- ===== src/Send/Laws.antt =====
-- When a frame leaves the router.
use nw_proj.Base.{ℕ, ◌≤◌, ◌≡◌, ◌⊎◌, inl, inr, true, false, none, some, [], ◌∷◌, ◌++◌, arith, ltb}
use nw_proj.Memory.{Bytes, same_bytes}
use nw_proj.Protocol.{sizeof_ethernet, ether_shost, ether_addr_len}
use nw_proj.Text.{Text}
use nw_proj.Instance.{Iface, Sr, Env}
use nw_proj.Interfaces.{sr_get_interface}
use nw_proj.Send.{sr_ether_addrs_match_interface, message, sr_send_packet}

-- The router after a frame was handed to `write`.
abbrev pub wrote : Sr → Bytes → ℕ → Text → Sr
wrote sr buf len iface = record sr { written = sr.written ++ message buf len iface ∷ [] }

-- A frame with a whole Ethernet header, whose source is the address of the interface that it
-- names, is written.
pub sr_send_packet-sends :
    (env : Env) (sr : Sr) (buf : Bytes) (len : ℕ) (iface : Text) (i : Iface)
    → sizeof_ethernet ≤ len
    → sr_get_interface sr.if_list iface ≡ some i
    → same_bytes buf (ether_shost 0) i.addr 0 ether_addr_len ≡ true
    → (sr_send_packet env sr buf len iface).0 ≡ wrote sr buf len iface
unfolding sr_send_packet sr_ether_addrs_match_interface
sr_send_packet-sends env sr buf len iface i long found same = ground (arith, found, same)

-- Whatever is sent, the interfaces, the routes and the cache stay.
pub sr_send_packet-keeps :
    (env : Env) (sr : Sr) (buf : Bytes) (len : ℕ) (iface : Text)
    → let after = (sr_send_packet env sr buf len iface).0 in
      (after.if_list ≡ sr.if_list)
      × (after.routing_table ≡ sr.routing_table)
      × (after.cache ≡ sr.cache)
unfolding sr_send_packet
sr_send_packet-keeps env sr buf len iface = (ground arith, ground arith, ground arith)

-- A frame of fewer than 14 bytes, or on an interface that does not exist, or with a source that
-- is not the interface's hardware address, is not written and the caller gets -1.
pub sr_send_packet-refuses :
    (env : Env) (sr : Sr) (buf : Bytes) (len : ℕ) (iface : Text)
    → (ltb len sizeof_ethernet ≡ true)
      ⊎ ((sr_get_interface sr.if_list iface ≡ none)
          ⊎ ((i : Iface) × (sr_get_interface sr.if_list iface ≡ some i)
              × (same_bytes buf (ether_shost 0) i.addr 0 ether_addr_len ≡ false)))
    → sr_send_packet env sr buf len iface ≡ (sr, false)
unfolding sr_send_packet sr_ether_addrs_match_interface
sr_send_packet-refuses env sr buf len iface (inl short) = ground arith
sr_send_packet-refuses env sr buf len iface (inr (inl missing)) = ground (arith, missing)
sr_send_packet-refuses env sr buf len iface (inr (inr (i, found, differ))) =
    ground (arith, found, differ)
