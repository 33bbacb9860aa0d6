-- ===== src/Tests/Frames.antt =====
-- The theorems on sr_handlepacket at the frames of the scene.
use nw_proj.Base.{ℕ, ◌+◌, ◌<◌, ◌≡◌, refl, arith, inl, inr}
use nw_proj.Memory.{Bytes, load16, load32, htons, htonl}
use nw_proj.Text.{strncmp_eq}
use nw_proj.Instance.{ok}
use nw_proj.Interfaces.{sr_get_interface}
use nw_proj.Routing.{sr_find_lpm_entry, lpm_scan, rt_match}
use nw_proj.ArpCache.{sr_arpcache_lookup, lookup_scan}
use nw_proj.Icmp.{error_len}
use nw_proj.Checksum.Words.{word_sum}
use nw_proj.Send.Laws.{wrote}
use nw_proj.Handler.{sr_handlepacket}
use nw_proj.Handler.Forward.{IsForwarded, sr_handlepacket-IsForwarded}
use nw_proj.Icmp.Frames.{IsErrorFrame}
use nw_proj.Handler.Errors.{
  sr_handlepacket-time_exceeded, sr_handlepacket-port_unreachable, sr_handlepacket-no_route,
}
use nw_proj.Handler.Drop.{blocked, sr_handlepacket-IsDropped}
use nw_proj.Handler.Echo.{IsEchoReply, sr_handlepacket-IsEchoReply}
use nw_proj.Tests.Scene.{
  transit, last_hop, for_router, ping, from_block, router, warm, eth, eth1, eth2, env, entry, addr,
  mac, mac-IsBytes, route,
}
use nw_proj.Tests.Scene.{unrouted as unrouted_frame}
use nw_proj.Tests.Accepted.{
  transit-IsBytes, transit-IsAccepted, last_hop-IsBytes, last_hop-IsAccepted, for_router-IsBytes,
  for_router-IsAccepted, unrouted-IsBytes, unrouted-IsAccepted, ping-IsBytes, ping-IsAccepted,
  from_block-IsBytes,
}

abbrev client : ℕ
client = addr 192 168 2 2

abbrev server : ℕ
server = addr 172 64 3 10

sr_handlepacket-IsForwarded_example :
    (frame : Bytes) × (sr_handlepacket env 3 (router warm) transit 42 (eth 1)
      ≡ ok (wrote (router warm) frame 42 (eth 2)))
    × IsForwarded transit eth2.addr (mac 2 10) frame
unfolding load32 htonl sr_find_lpm_entry lpm_scan rt_match sr_get_interface strncmp_eq
    sr_arpcache_lookup lookup_scan
sr_handlepacket-IsForwarded_example =
    sr_handlepacket-IsForwarded env 3 (router warm) transit 42 (eth 1) (route 172 64 3 2) eth2
      (entry server 2 10) transit-IsBytes transit-IsAccepted (ground arith) (omega arith) refl refl
      refl

sr_handlepacket-time_exceeded_example :
    (frame : Bytes) × (sr_handlepacket env 3 (router warm) last_hop 42 (eth 1)
      ≡ ok (wrote (router warm) frame error_len (eth 1)))
    × IsErrorFrame 11 0 eth1 (entry client 1 2) last_hop frame
unfolding load32 htonl sr_find_lpm_entry lpm_scan rt_match sr_get_interface strncmp_eq
    sr_arpcache_lookup lookup_scan
sr_handlepacket-time_exceeded_example =
    sr_handlepacket-time_exceeded env 3 (router warm) last_hop (eth 1) eth1 (entry client 1 2)
      (record {
        fresh = λ _. omega arith;
        mac = mac-IsBytes 0 1 (omega arith) (omega arith);
        ip = omega arith;
        packet = last_hop-IsBytes;
      })
      refl refl 42 last_hop-IsAccepted (route 172 64 3 2) (ground arith) refl refl

sr_handlepacket-port_unreachable_example :
    (frame : Bytes) × (sr_handlepacket env 3 (router warm) for_router 42 (eth 1)
      ≡ ok (wrote (router warm) frame error_len (eth 1)))
    × IsErrorFrame 3 3 eth1 (entry client 1 2) for_router frame
unfolding load32 sr_get_interface strncmp_eq sr_arpcache_lookup lookup_scan
sr_handlepacket-port_unreachable_example =
    sr_handlepacket-port_unreachable env 3 (router warm) for_router (eth 1) eth1 (entry client 1 2)
      (record {
        fresh = λ _. omega arith;
        mac = mac-IsBytes 0 1 (omega arith) (omega arith);
        ip = omega arith;
        packet = for_router-IsBytes;
      })
      refl refl 42 for_router-IsAccepted (inl refl) (inr refl) (omega arith)

sr_handlepacket-no_route_example :
    (frame : Bytes) × (sr_handlepacket env 3 (router warm) unrouted_frame 42 (eth 1)
      ≡ ok (wrote (router warm) frame error_len (eth 1)))
    × IsErrorFrame 3 0 eth1 (entry client 1 2) unrouted_frame frame
unfolding load32 htonl sr_find_lpm_entry lpm_scan rt_match sr_get_interface strncmp_eq
    sr_arpcache_lookup lookup_scan
sr_handlepacket-no_route_example =
    sr_handlepacket-no_route env 3 (router warm) unrouted_frame (eth 1) eth1 (entry client 1 2)
      (record {
        fresh = λ _. omega arith;
        mac = mac-IsBytes 0 1 (omega arith) (omega arith);
        ip = omega arith;
        packet = unrouted-IsBytes;
      })
      refl refl 42 unrouted-IsAccepted (ground arith) refl

sr_handlepacket-IsEchoReply_example :
    (frame : Bytes) × (sr_handlepacket env 3 (router warm) ping 42 (eth 1)
      ≡ ok (wrote (router warm) frame 42 (eth 1)))
    × IsEchoReply ping 42 frame
    × ((k : ℕ) → k < 6 → frame k ≡ mac 1 2 k)
    × ((k : ℕ) → k < 6 → frame (6 + k) ≡ eth1.addr k)
unfolding load16 load32 htons htonl sr_find_lpm_entry lpm_scan rt_match sr_get_interface strncmp_eq
    sr_arpcache_lookup lookup_scan word_sum
sr_handlepacket-IsEchoReply_example =
    sr_handlepacket-IsEchoReply env 3 (router warm) ping 42 (eth 1) (route 192 168 2 1) eth1
      (entry client 1 2) ping-IsBytes ping-IsAccepted (omega arith) (omega arith) (inl refl) refl
      refl (refl, omega arith) refl refl refl

sr_handlepacket-IsDropped_example :
    sr_handlepacket env 3 (router warm) from_block 42 (eth 1) ≡ ok (router warm)
unfolding load16 htons
sr_handlepacket-IsDropped_example =
    sr_handlepacket-IsDropped env 3 (router warm) from_block 42 (eth 1) from_block-IsBytes
      (blocked refl (inl (refl, refl, refl)))
