-- ===== src/Tests/Exchange.antt =====
-- The theorems on sr_handlepacket at datagrams that wait, at ARP packets and at the crash.
use nw_proj.Base.{ℕ, ◌+◌, ◌<◌, ◌≤◌, ◌≡◌, refl, arith, inl, inr, [], ◌∷◌, ◌-◌}
use nw_proj.Memory.{Bytes, load16, load32, htons, htonl, memcpy}
use nw_proj.Protocol.{ether_shost, ether_addr_len}
use nw_proj.Text.{strncmp_eq, strncpy}
use nw_proj.Instance.{Sr, ArpCache, ok, crash, null_pointer}
use nw_proj.Interfaces.{sr_get_interface}
use nw_proj.Routing.{sr_find_lpm_entry, lpm_scan, rt_match}
use nw_proj.ArpCache.{sr_arpcache_lookup, lookup_scan, find_ip}
use nw_proj.ArpCache.Queue.{waiting}
use nw_proj.ArpCache.Invariant.{IsValid}
use nw_proj.ArpRequest.{arp_request_packet, arp_len}
use nw_proj.Send.{message}
use nw_proj.Send.Laws.{wrote}
use nw_proj.Send.Waiting.{IsWaiting}
use nw_proj.Handler.{sr_handlepacket, forwarded_packet}
use nw_proj.Handler.Miss.{sent_again, before, with_frame, IsQueued, sr_handlepacket-IsQueued}
use nw_proj.Handler.Arp.{
  IsArpReply, IsReleased, sr_handlepacket-IsArpReply, sr_handlepacket-IsReleased,
}
use nw_proj.Handler.Crash.{closed_port, sr_handlepacket-crash}
use nw_proj.Tests.Scene.{
  transit, stranger_udp, arp_question, arp_answer, router, cold, eth, eth1, eth2, env, addr, route,
}
use nw_proj.Tests.Accepted.{
  transit-IsBytes, transit-IsAccepted, stranger_udp-IsBytes, stranger_udp-IsAccepted,
  arp_question-IsBytes,
}

abbrev server : ℕ
server = addr 172 64 3 10

-- The datagram as it waits for the server's hardware address.
abbrev parked : Bytes
parked = memcpy (forwarded_packet transit) (ether_shost 0) eth2.addr 0 ether_addr_len

pub cold-IsValid : IsValid cold
cold-IsValid = record { size = refl; queue = tt }

sr_handlepacket-IsQueued_example :
    let old = before env (router cold) parked 42 (eth 2) server in
    let r = with_frame env (router cold) parked 42 (eth 2) server in
    let out = sr_handlepacket env 1 (router cold) transit 42 (eth 1) in
    (old.sent + 1 < env.now
      → old.times_sent < 5
      → (sr' : Sr) × (out ≡ ok sr')
        × IsQueued env
            (router cold)
            parked
            42
            (eth 2)
            server
            (sent_again env.now r)
            (message (arp_request_packet env.uninit eth2 server) arp_len (eth 2) ∷ [])
            sr')
    × (env.now ≤ old.sent + 1
        → (sr' : Sr) × (out ≡ ok sr')
          × IsQueued env (router cold) parked 42 (eth 2) server r [] sr')
unfolding load32 htonl sr_find_lpm_entry lpm_scan rt_match sr_get_interface strncmp_eq
    sr_arpcache_lookup lookup_scan
sr_handlepacket-IsQueued_example =
    sr_handlepacket-IsQueued env 0 (router cold) transit 42 (eth 1) (route 172 64 3 2) eth2
      transit-IsBytes transit-IsAccepted (ground arith) (omega arith) refl refl cold-IsValid refl

sr_handlepacket-IsArpReply_example :
    (frame : Bytes) × (sr_handlepacket env 3 (router cold) arp_question 42 (eth 1)
      ≡ ok (wrote (router cold) frame 42 (eth 1)))
    × IsArpReply eth1 arp_question frame
unfolding load16 load32 htons sr_get_interface strncmp_eq
sr_handlepacket-IsArpReply_example =
    sr_handlepacket-IsArpReply env 3 (router cold) arp_question 42 (eth 1) eth1 refl
      arp_question-IsBytes (omega arith)
      (record { long = omega arith; is_arp = refl; mine = refl; op = refl })

-- The datagram waits for the server.
abbrev pub expecting : ArpCache
expecting = record cold {
  requests =
      record {
        address = 1;
        ip = server;
        sent = 109;
        times_sent = 1;
        packets = waiting (λ _. 0) parked 42 (eth 2) ∷ [];
      }
      ∷ [];
  next_address = 2;
}

pub expecting-IsValid : IsValid expecting
expecting-IsValid = record { size = refl; queue = (omega arith, omega arith, tt, tt) }

parked-IsWaiting : IsWaiting (router expecting).if_list (waiting (λ _. 0) parked 42 (eth 2))
unfolding sr_get_interface strncmp_eq strncpy
parked-IsWaiting = record {
  long = omega arith;
  ifc = eth2;
  found = refl;
  own = λ k h. unfold memcpy in ground (arith, at_six k);
}
  where
    at_six : (k : ℕ) → 0 + (6 + k - 6) ≡ k
    at_six k = omega arith

sr_handlepacket-IsReleased_example :
    (sr' : Sr) × (sr_handlepacket env 3 (router expecting) arp_answer 42 (eth 2) ≡ ok sr')
    × IsReleased env (router expecting) arp_answer sr'
unfolding load16 load32 htons sr_get_interface strncmp_eq find_ip
sr_handlepacket-IsReleased_example =
    sr_handlepacket-IsReleased env 3 (router expecting) arp_answer 42 (eth 2) eth2 refl
      (record { long = omega arith; is_arp = refl; mine = refl; op = refl }) expecting-IsValid
      (parked-IsWaiting, tt)

sr_handlepacket-crash_example :
    sr_handlepacket env 3 (router cold) stranger_udp 42 (eth 1) ≡ crash null_pointer
unfolding load32 htonl sr_find_lpm_entry lpm_scan rt_match sr_get_interface strncmp_eq
    sr_arpcache_lookup lookup_scan find_ip
sr_handlepacket-crash_example =
    sr_handlepacket-crash env 2 (router cold) stranger_udp (eth 1) eth1 refl cold-IsValid
      (omega arith) refl refl refl 42 stranger_udp-IsBytes stranger_udp-IsAccepted
      (closed_port (inl refl) (inr refl) (omega arith))
