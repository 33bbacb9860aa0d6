-- ===== src/Tests/Requests.antt =====
-- A request that is given up, and a router whose requests all have routes.
use nw_proj.Base.{ℕ, ◌≡◌, refl, arith, List, [], ◌∷◌}
use nw_proj.Memory.{load32, htonl}
use nw_proj.Text.{strncmp_eq}
use nw_proj.Instance.{Iface, RtEntry, ArpReq, ArpCache, Frame, Sr, ok}
use nw_proj.Outcomes.{Safe}
use nw_proj.Interfaces.{sr_get_interface}
use nw_proj.Routing.{
  sr_find_lpm_entry, lpm_scan, rt_match, sr_verify_routing_table, count_missing, iface_exists,
}
use nw_proj.ArpCache.{sr_arpcache_lookup, lookup_scan, find_ip}
use nw_proj.ArpRequest.{sr_arpcache_handle_arpreq}
use nw_proj.ArpRequest.GiveUp.{HasSender, IsGivenUp, handle_arpreq-IsGivenUp}
use nw_proj.ArpRequest.Safe.{IsHealthy}
use nw_proj.ArpRequest.{timeout_rounds}
use nw_proj.ArpRequest.Alone.{alone, emptied}
use nw_proj.ArpRequest.Unanswered.{IsAbandoned, timeout_rounds-IsAbandoned}
use nw_proj.Instance.{Env}
use nw_proj.ArpCache.{expire_entries}
use nw_proj.Tests.Scene.{eth2}
use nw_proj.Handler.{sr_handlepacket}
use nw_proj.Handler.Safe.{sr_handlepacket-Safe}
use nw_proj.Tests.Scene.{transit, router, cold, eth, eth1, env, entry, addr, mac-IsBytes, route}
use nw_proj.Tests.Accepted.{transit-IsBytes}
use nw_proj.Tests.Exchange.{cold-IsValid}

abbrev server : ℕ
server = addr 172 64 3 10

-- The server was asked for five times, and the client's datagram waits for it.
abbrev unanswered : ArpReq
unanswered = record {
  address = 1;
  ip = server;
  sent = 100;
  times_sent = 5;
  packets = record { buf = transit; len = 42; iface = eth 2 } ∷ [];
}

abbrev hopeless : ArpCache
hopeless = record cold { requests = unanswered ∷ []; next_address = 2 }

client-HasSender :
    HasSender env
      (router hopeless).if_list
      (router hopeless).routing_table
      hopeless
      (record { buf = transit; len = 42; iface = eth 2 })
unfolding load32 htonl sr_find_lpm_entry lpm_scan rt_match sr_get_interface strncmp_eq
    sr_arpcache_lookup lookup_scan
client-HasSender = record {
  rt = route 192 168 2 1;
  ifc = eth1;
  entry = entry (addr 192 168 2 2) 1 2;
  route = refl;
  link = refl;
  known = refl;
  bytes = record {
    fresh = λ _. omega arith;
    mac = mac-IsBytes 0 1 (omega arith) (omega arith);
    ip = omega arith;
    packet = transit-IsBytes;
  };
}

handle_arpreq-IsGivenUp_example :
    (frames : List Frame) × (sr' : Sr) × (sr_arpcache_handle_arpreq env 1 1 (router hopeless)
      ≡ ok sr')
    × IsGivenUp (router hopeless) unanswered server frames sr'
unfolding find_ip
handle_arpreq-IsGivenUp_example =
    handle_arpreq-IsGivenUp env 0 (router hopeless) server unanswered
      (record { size = refl; queue = (omega arith, omega arith, tt, tt) }) refl (omega arith)
      (omega arith) (client-HasSender, tt)

abbrev interfaces : List Iface
interfaces = (router cold).if_list

abbrev table : List RtEntry
table = (router cold).routing_table

sr_handlepacket-Safe_example :
    Safe (IsHealthy interfaces table) (sr_handlepacket env 3 (router cold) transit 42 (eth 1))
unfolding load32 htonl sr_find_lpm_entry lpm_scan rt_match sr_get_interface strncmp_eq
    sr_verify_routing_table count_missing iface_exists
sr_handlepacket-Safe_example =
    sr_handlepacket-Safe interfaces table refl env 3 (router cold) transit 42 (eth 1) eth1
      (record {
        sound = record { ifs = refl; routing = refl; valid = cold-IsValid; waits = tt };
        routed = tt;
      })
      refl (λ _. (route 192 168 2 1, refl))

-- The request was sent four times, and four rounds follow.
abbrev round : ℕ → Env
round t = record env { now = t }

abbrev rounds : List Env
rounds = round 101 ∷ round 102 ∷ round 103 ∷ round 104 ∷ []

abbrev asked_four_times : ArpReq
asked_four_times = record unanswered { times_sent = 4 }

client-HasSender_at :
    (t : ℕ)
    → HasSender
        (round t)
        interfaces
        table
        (emptied cold.entries 2)
        (record { buf = transit; len = 42; iface = eth 2 })
unfolding load32 htonl sr_find_lpm_entry lpm_scan rt_match sr_get_interface strncmp_eq
    sr_arpcache_lookup lookup_scan
client-HasSender_at t = record {
  rt = route 192 168 2 1;
  ifc = eth1;
  entry = entry (addr 192 168 2 2) 1 2;
  route = refl;
  link = refl;
  known = refl;
  bytes = record {
    fresh = λ _. omega arith;
    mac = mac-IsBytes 0 1 (omega arith) (omega arith);
    ip = omega arith;
    packet = transit-IsBytes;
  };
}

timeout_rounds-IsAbandoned_example :
    (sr' : Sr) × (timeout_rounds 1 2 rounds
        (alone interfaces table cold.entries 2 [] (asked_four_times ∷ []))
      ≡ ok sr')
    × IsAbandoned interfaces table cold.entries 2 refl eth2 asked_four_times [] sr'
unfolding sr_find_lpm_entry lpm_scan rt_match htonl sr_get_interface strncmp_eq expire_entries
timeout_rounds-IsAbandoned_example =
    timeout_rounds-IsAbandoned interfaces table cold.entries 2 refl (route 172 64 3 2) eth2 rounds
      [] asked_four_times (omega arith, (omega arith, (omega arith, (omega arith, tt))))
      (omega arith) (omega arith) (omega arith) refl refl
      (
        (client-HasSender_at 101, tt),
        (
          (client-HasSender_at 102, tt),
          ((client-HasSender_at 103, tt), ((client-HasSender_at 104, tt), tt)),
        ),
      )
      (refl, (refl, (refl, (refl, tt))))
