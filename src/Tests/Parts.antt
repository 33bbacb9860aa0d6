-- ===== src/Tests/Parts.antt =====
-- The theorems on the checksum, the routing table, the interfaces and the cache at the scene.
use nw_proj.Base.{
  ℕ, ◌+◌, ◌%◌, ◌<◌, ◌≤◌, ◌≡◌, ◌≢◌, ◌↔◌, ◌⊎◌, refl, arith, true, some, none, List, [], ◌∷◌, All,
  ◌==◌, if◌then◌else◌,
}
use nw_proj.Memory.{load16, memcpy, htonl}
use nw_proj.Protocol.{sizeof_ip, ip_sum, ether_addr_len}
use nw_proj.Text.{Text, strncmp_eq}
use nw_proj.Instance.{Iface, RtEntry, ArpEntry, ok}
use nw_proj.Checksum.{checksum_ok, put_checksum}
use nw_proj.Checksum.Words.{word_sum}
use nw_proj.Checksum.Verify.{checksum_ok_iff, put_checksum-valid}
use nw_proj.Blacklist.{ip_black_list, ip_black_list_iff, InBlock}
use nw_proj.Interfaces.{sr_get_interface}
use nw_proj.Interfaces.Laws.{describe, sr_get_interface-describe}
use nw_proj.Routing.{sr_find_lpm_entry, sr_verify_routing_table}
use nw_proj.Routing.Lpm.{Lookup, sr_find_lpm_entry-Lookup}
use nw_proj.Routing.Verified.{Resolves, sr_verify_routing_table_iff}
use nw_proj.ArpCache.{
  sr_arpcache_to, sr_arpcache_lookup, sr_arpcache_insert, sr_arpcache_queuereq, expire_entries,
  find_ip, find_req, lookup_scan,
}
use nw_proj.ArpCache.Entries.{
  HasFree, Maps, sr_arpcache_lookup-sr_arpcache_insert, sr_arpcache_lookup-expire_entries,
}
use nw_proj.ArpCache.Queue.{or_new, waiting, sr_arpcache_queuereq_lem, sr_arpcache_insert_lem}
use nw_proj.Icmp.{i_hdr}
use nw_proj.Tests.Scene.{transit, from_block, cold, router, eth, eth1, eth2, entry, addr, mac}
use nw_proj.Tests.Accepted.{transit-IsBytes, from_block-IsBytes}
use nw_proj.Tests.Exchange.{expecting, expecting-IsValid}

abbrev client : ℕ
client = addr 192 168 2 2

abbrev server : ℕ
server = addr 172 64 3 10

checksum_ok_iff_example :
    (checksum_ok transit i_hdr (ip_sum i_hdr) sizeof_ip ≡ true)
    ↔ ((word_sum transit i_hdr sizeof_ip % 65535 ≡ 0) × (load16 transit (ip_sum i_hdr) ≢ 0))
checksum_ok_iff_example =
    checksum_ok_iff transit i_hdr 5 sizeof_ip transit-IsBytes (omega arith) (omega arith)

put_checksum-valid_example :
    word_sum (put_checksum transit i_hdr (ip_sum i_hdr) sizeof_ip) i_hdr sizeof_ip % 65535 ≡ 0
put_checksum-valid_example =
    put_checksum-valid transit i_hdr 5 sizeof_ip transit-IsBytes (omega arith) (omega arith)

ip_black_list_iff_example :
    (ip_black_list from_block i_hdr ≡ true)
    ↔ (InBlock from_block (i_hdr + 12) ⊎ InBlock from_block (i_hdr + 16))
ip_black_list_iff_example = ip_black_list_iff from_block i_hdr from_block-IsBytes

abbrev table : List RtEntry
table = (router cold).routing_table

abbrev interfaces : List Iface
interfaces = (router cold).if_list

sr_find_lpm_entry-Lookup_example : Lookup (htonl server) table (sr_find_lpm_entry table server)
sr_find_lpm_entry-Lookup_example = sr_find_lpm_entry-Lookup table server

sr_verify_routing_table_iff_example :
    (sr_verify_routing_table interfaces table ≡ 0)
    ↔ ((interfaces ≢ []) × (table ≢ []) × All (Resolves interfaces) table)
sr_verify_routing_table_iff_example = sr_verify_routing_table_iff interfaces table

sr_get_interface-describe_example :
    (out : List Iface) × (i : Iface) × (describe (λ _. 0) (eth1 ∷ []) (eth 2) (mac 0 2) eth2.ip
      ≡ ok out)
    × (sr_get_interface out (eth 2) ≡ some i)
    × (i.ip ≡ eth2.ip)
    × ((k : ℕ) → i.addr k ≡ memcpy (λ j. 0) 0 (mac 0 2) 0 ether_addr_len k)
    × ((other : Text) (old : Iface)
        → sr_get_interface (eth1 ∷ []) other ≡ some old
        → sr_get_interface out other ≡ some old)
unfolding sr_get_interface strncmp_eq
sr_get_interface-describe_example =
    sr_get_interface-describe (λ _. 0) (eth1 ∷ []) (eth 2) (mac 0 2) eth2.ip refl

sr_arpcache_lookup-sr_arpcache_insert_example :
    let after = (sr_arpcache_insert 110 cold (mac 2 10) server).0 in
    ((other : ℕ) → other ≢ server → sr_arpcache_lookup after other ≡ sr_arpcache_lookup cold other)
    × (sr_arpcache_lookup cold server ≡ none
        → HasFree cold.entries
        → (e : ArpEntry) × (sr_arpcache_lookup after server ≡ some e)
          × (e.added ≡ 110)
          × ((k : ℕ) → k < 6 → e.mac k ≡ mac 2 10 k))
    × (¬ HasFree cold.entries → after.entries ≡ cold.entries)
sr_arpcache_lookup-sr_arpcache_insert_example =
    sr_arpcache_lookup-sr_arpcache_insert 110 cold (mac 2 10) server

sr_arpcache_lookup-expire_entries_example :
    (110 ≤ (entry client 1 2).added + sr_arpcache_to) × Maps client (entry client 1 2)
unfolding sr_arpcache_lookup lookup_scan expire_entries
sr_arpcache_lookup-expire_entries_example =
    sr_arpcache_lookup-expire_entries 110 cold client (entry client 1 2) refl

sr_arpcache_queuereq_lem_example :
    let (after, p) = sr_arpcache_queuereq (λ _. 0) expecting server transit 42 (eth 2) in
    let old = or_new expecting.next_address server (find_ip server expecting.requests) in
    let r = record old { packets = waiting (λ _. 0) transit 42 (eth 2) ∷ old.packets } in
    (find_req p after.requests ≡ some r)
    × ((j : ℕ)
        → find_ip j after.requests ≡ (if server == j then some r else find_ip j expecting.requests))
sr_arpcache_queuereq_lem_example =
    sr_arpcache_queuereq_lem (λ _. 0) expecting server transit 42 (eth 2) expecting-IsValid
      (omega arith)

sr_arpcache_insert_lem_example :
    let (after, r) = sr_arpcache_insert 110 expecting (mac 2 10) server in
    (r ≡ find_ip server expecting.requests)
    × (find_ip client after.requests
        ≡ (if server == client then none else find_ip client expecting.requests))
sr_arpcache_insert_lem_example =
    sr_arpcache_insert_lem 110 expecting (mac 2 10) server client expecting-IsValid
