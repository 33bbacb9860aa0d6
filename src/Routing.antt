-- ===== src/Routing.antt =====
-- The routing table: sr_add_rt_entry of sr_rt.c, sr_findLPMentry of sr_router.c and
-- sr_verify_routing_table of sr_main.c.
pub mod Load
pub mod Print
pub mod Lpm
pub mod Verified
use nw_proj.Base.{
  ℕ, suc, Bool, true, false, ◌&&◌, Option, none, some, List, [], ◌∷◌, ◌++◌, bit_and, ◌==◌, ltb,
  if◌then◌else◌,
}
use nw_proj.Memory.{htonl}
use nw_proj.Protocol.{iface_namelen}
use nw_proj.Text.{Text, strncmp_eq, strncpy}
use nw_proj.Instance.{Iface, RtEntry}

-- Both branches of the function link the new node behind the last one.
unfoldable pub sr_add_rt_entry : List RtEntry → ℕ → ℕ → ℕ → Text → List RtEntry
sr_add_rt_entry table dest gw mask if_name =
    table
    ++ record { dest = dest; gw = gw; mask = mask; interface = strncpy iface_namelen if_name } ∷ []

-- `(ip_dst & mask) == (ntohl(entry->dest.s_addr) & mask)`, with `ip_dst` in host order.
unfoldable pub rt_match : ℕ → RtEntry → Bool
rt_match ip_dst e = bit_and ip_dst (htonl e.mask) == bit_and (htonl e.dest) (htonl e.mask)

-- The scan: `lpmentry` is the best entry so far and `lpmmask` its mask.
unfoldable pub lpm_scan : ℕ → List RtEntry → Option RtEntry → ℕ → Option RtEntry
lpm_scan ip_dst [] lpmentry lpmmask = lpmentry
lpm_scan ip_dst (e ∷ es) lpmentry lpmmask =
    let longer = rt_match ip_dst e && ltb lpmmask (htonl e.mask) in
    lpm_scan ip_dst es (if longer then some e else lpmentry)
      (if longer then htonl e.mask else lpmmask)

unfoldable pub sr_find_lpm_entry : List RtEntry → ℕ → Option RtEntry
sr_find_lpm_entry rtable ip_dst = lpm_scan (htonl ip_dst) rtable none 0

-- The inner loop of sr_verify_routing_table: does the interface exist?
unfoldable pub iface_exists : List Iface → Text → Bool
iface_exists [] name = false
iface_exists (i ∷ is) name =
    let rest = iface_exists is name in if strncmp_eq iface_namelen i.name name then true else rest

-- The outer loop: how many entries name no interface.
unfoldable pub count_missing : List Iface → List RtEntry → ℕ
count_missing if_list [] = 0
count_missing if_list (e ∷ es) =
    let rest = count_missing if_list es in
    if iface_exists if_list e.interface then rest else suc rest

unfoldable pub sr_verify_routing_table : List Iface → List RtEntry → ℕ
sr_verify_routing_table [] table = 999
sr_verify_routing_table (i ∷ is) [] = 999
sr_verify_routing_table (i ∷ is) (e ∷ es) = count_missing (i ∷ is) (e ∷ es)
