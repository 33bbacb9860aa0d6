-- ===== src/Tests/Runs.antt =====
-- A run of the router: a datagram waits for the server, and the server answers.
use nw_proj.Base.{◌≡◌, refl, arith, List}
use nw_proj.Memory.{load16, load32, htons, htonl}
use nw_proj.Text.{strncmp_eq}
use nw_proj.Instance.{Iface, RtEntry, Sr, ok}
use nw_proj.Interfaces.{sr_get_interface}
use nw_proj.Routing.{sr_find_lpm_entry, lpm_scan, rt_match}
use nw_proj.ArpCache.{sr_arpcache_init, sr_arpcache_lookup, lookup_scan, find_ip}
use nw_proj.ArpCache.Invariant.{sr_arpcache_init-IsValid}
use nw_proj.ArpRequest.Invariant.{IsSound}
use nw_proj.Handler.{sr_handlepacket}
use nw_proj.Handler.Arp.{IsReleased}
use nw_proj.Handler.Miss.{sr_handlepacket-IsQueued}
use nw_proj.Run.{started, Reaches, at_start, received, Reaches-IsSound, Reaches-IsReleased}
use nw_proj.Tests.Scene.{transit, arp_answer, router, cold, eth, eth2, env, route}
use nw_proj.Tests.Accepted.{transit-IsBytes, transit-IsAccepted}

abbrev interfaces : List Iface
interfaces = (router cold).if_list

abbrev table : List RtEntry
table = (router cold).routing_table

-- The state after the datagram arrived.
transit_waits :
    (sr : Sr) × (sr_handlepacket env 1 (started interfaces table) transit 42 (eth 1) ≡ ok sr)
unfolding load32 htonl sr_find_lpm_entry lpm_scan rt_match sr_get_interface strncmp_eq
    sr_arpcache_lookup lookup_scan sr_arpcache_init find_ip
transit_waits =
    let (sr, e, q) =
      (sr_handlepacket-IsQueued env 0 (started interfaces table) transit 42 (eth 1)
          (route 172 64 3 2) eth2 transit-IsBytes transit-IsAccepted (ground arith) (omega arith)
          refl refl sr_arpcache_init-IsValid refl).0
        (omega arith) (omega arith) in
    (sr, e)

transit_waits-Reaches : Reaches interfaces table transit_waits.0
transit_waits-Reaches =
    received env 1 (started interfaces table) transit_waits.0 transit 42 (eth 1) at_start
      transit_waits.1

Reaches-IsSound_example : IsSound interfaces table transit_waits.0
Reaches-IsSound_example = Reaches-IsSound interfaces table transit_waits.0 transit_waits-Reaches

Reaches-IsReleased_example :
    (sr' : Sr) × (sr_handlepacket env 3 transit_waits.0 arp_answer 42 (eth 2) ≡ ok sr')
    × IsReleased env transit_waits.0 arp_answer sr'
unfolding load16 load32 htons sr_get_interface strncmp_eq
Reaches-IsReleased_example =
    Reaches-IsReleased interfaces table env 3 transit_waits.0 arp_answer 42 (eth 2) eth2
      transit_waits-Reaches refl
      (record { long = omega arith; is_arp = refl; mine = refl; op = refl })
