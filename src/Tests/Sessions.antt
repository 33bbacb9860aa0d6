-- ===== src/Tests/Sessions.antt =====
-- A session: one frame from the client, then the server closes.
use nw_proj.Handler.{sr_handlepacket}
use nw_proj.Handler.Calm.{sr_handlepacket_returns}
use nw_proj.ArpRequest.Calm.{IsCalm}
use nw_proj.Base.{◌≡◌, refl, true, List, [], ◌∷◌, ◌++◌}
use nw_proj.Memory.{load32, htonl}
use nw_proj.Text.{strncmp_eq}
use nw_proj.Instance.{Iface, RtEntry, Sr, ok}
use nw_proj.Outcomes.{Safe}
use nw_proj.Interfaces.{sr_get_interface}
use nw_proj.Routing.{
  sr_find_lpm_entry, lpm_scan, rt_match, sr_verify_routing_table, count_missing, iface_exists,
}
use nw_proj.ArpRequest.Safe.{IsHealthy}
use nw_proj.Server.{Message}
use nw_proj.Tests.Scene.{transit, bytes_of, transit_bytes, router, cold, eth, eth1, env, route}
use nw_proj.Tests.Exchange.{cold-IsValid}

abbrev packet_message : Message
packet_message = record {
  buf = bytes_of (
      (0 ∷ 0 ∷ 0 ∷ 66 ∷ 0 ∷ 0 ∷ 0 ∷ 4 ∷ eth 1)
      ++ (0 ∷ 0 ∷ 0 ∷ 0 ∷ 0 ∷ 0 ∷ 0 ∷ 0 ∷ 0 ∷ 0 ∷ 0 ∷ 0 ∷ transit_bytes));
  len = 66;
  env = env;
  rtable_written = true;
  auth_replied = true;
}

abbrev close_message : Message
close_message = record {
  buf = bytes_of (0 ∷ 0 ∷ 0 ∷ 9 ∷ 0 ∷ 0 ∷ 0 ∷ 2 ∷ 0 ∷ []);
  len = 9;
  env = env;
  rtable_written = true;
  auth_replied = true;
}

abbrev interfaces : List Iface
interfaces = (router cold).if_list

abbrev table : List RtEntry
table = (router cold).routing_table

sr_handlepacket_returns_example :
    (sr' : Sr) × (sr_handlepacket env 1 (router cold) transit 42 (eth 1) ≡ ok sr')
    × IsCalm 110 sr'
    × IsHealthy interfaces table sr'
unfolding sr_verify_routing_table count_missing iface_exists strncmp_eq sr_find_lpm_entry lpm_scan
    rt_match load32 htonl sr_get_interface
sr_handlepacket_returns_example =
    sr_handlepacket_returns interfaces table env 0 (router cold) transit 42 (eth 1) eth1 refl
      (record {
        sound = record { ifs = refl; routing = refl; valid = cold-IsValid; waits = tt };
        routed = tt;
      })
      tt refl (λ _. (route 192 168 2 1, refl))
