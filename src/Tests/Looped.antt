-- ===== src/Tests/Looped.antt =====
-- A request for the server that is to be given up, for which a datagram waits that came from the
-- server's own address.
use nw_proj.Base.{ℕ, ◌≡◌, refl, arith, [], ◌∷◌, inl, ◌+◌, ◌-◌}
use nw_proj.Memory.{Bytes, load32, htonl, memcpy}
use nw_proj.Protocol.{ether_shost, ether_addr_len}
use nw_proj.Text.{strncmp_eq, strncpy}
use nw_proj.Instance.{ArpReq, ArpCache, out_of_fuel}
use nw_proj.Interfaces.{sr_get_interface}
use nw_proj.Routing.{
  sr_find_lpm_entry, lpm_scan, rt_match, sr_verify_routing_table, count_missing, iface_exists,
}
use nw_proj.ArpCache.{find_ip, sr_arpcache_lookup, lookup_scan}
use nw_proj.ArpCache.Queue.{waiting}
use nw_proj.ArpRequest.{sr_arpcache_handle_arpreq}
use nw_proj.ArpRequest.Endless.{handle_arpreq_endless}
use nw_proj.Send.Waiting.{IsWaiting}
use nw_proj.Tests.Scene.{looped, router, cold, eth, eth2, env, addr, route}

abbrev server : ℕ
server = addr 172 64 3 10

-- The datagram with eth2's hardware address as its source.
abbrev parked : Bytes
parked = memcpy looped (ether_shost 0) eth2.addr 0 ether_addr_len

abbrev circular : ArpReq
circular = record {
  address = 1;
  ip = server;
  sent = 100;
  times_sent = 5;
  packets = waiting (λ _. 0) parked 42 (eth 2) ∷ [];
}

abbrev trapped : ArpCache
trapped = record cold { requests = circular ∷ []; next_address = 2 }

parked-IsWaiting : IsWaiting (router trapped).if_list (waiting (λ _. 0) parked 42 (eth 2))
unfolding sr_get_interface strncmp_eq strncpy
parked-IsWaiting = record {
  long = omega arith;
  ifc = eth2;
  found = refl;
  own = λ k h. unfold memcpy in ground (arith, at_six k);
}
  where
    at_six : (k : ℕ) → 0 + (6 + k - 6) ≡ k
    at_six k = omega arith

handle_arpreq_endless_example : sr_arpcache_handle_arpreq env 1000 1 (router trapped) ≡ out_of_fuel
unfolding load32 htonl memcpy sr_find_lpm_entry lpm_scan rt_match sr_get_interface strncmp_eq
    sr_verify_routing_table count_missing iface_exists find_ip sr_arpcache_lookup lookup_scan
handle_arpreq_endless_example =
    handle_arpreq_endless (router cold).if_list (router cold).routing_table env 1000 server
      (router trapped) circular refl
      (record {
        sound = record {
          ifs = refl;
          routing = refl;
          valid = record { size = refl; queue = (omega arith, omega arith, tt, tt) };
          waits = ((parked-IsWaiting, tt), tt);
        };
        routed = ((route 172 64 3 2, refl), tt);
      })
      refl (omega arith) (omega arith) (inl refl) refl
