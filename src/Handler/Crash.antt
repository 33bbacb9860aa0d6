-- ===== src/Handler/Crash.antt =====
-- Datagrams by which a stranger stops the router.
use nw_proj.Base.{ℕ, suc, ◌+◌, ◌≤◌, ◌<◌, ◌≡◌, ◌≢◌, ◌⊎◌, arith, ◌∙◌, some, none, All}
use nw_proj.Memory.{Bytes, load32}
use nw_proj.Memory.Laws.{IsBytes}
use nw_proj.Protocol.{ip_src, ip_dst, ip_ttl, ip_p, sizeof_ethernet}
use nw_proj.Text.{Text}
use nw_proj.Instance.{Iface, RtEntry, Sr, Env, crash, null_pointer}
use nw_proj.Interfaces.{sr_get_interface}
use nw_proj.Routing.{sr_find_lpm_entry}
use nw_proj.ArpCache.{sr_arpcache_lookup, find_ip}
use nw_proj.ArpCache.Invariant.{IsValid}
use nw_proj.Icmp.{i_hdr, error_len, unreachable_packet, time_exceeded_packet}
use nw_proj.Handler.{
  deliver, handle_local, handle_tcp_udp, handle_transit, send_unreachable, send_time_exceeded,
  sr_handlepacket,
}
use nw_proj.Handler.Accept.{IsAccepted, sr_handlepacket-IsAccepted}
use nw_proj.Handler.Deliver.{is_local-All, is_local-HasAddress, HasAddress}
use nw_proj.Handler.Miss.{deliver-no_route}

-- The datagram is to be answered by an ICMP error: it is TCP or UDP for the router itself, or for
-- elsewhere with a route and time to live 1, or for elsewhere without a route.
pub data NeedsError (sr : Sr) (p : Bytes) (len : ℕ) : Type 0 where
  closed_port :
      HasAddress sr.if_list (load32 p (ip_dst i_hdr))
      → (p (ip_p i_hdr) ≡ 6) ⊎ (p (ip_p i_hdr) ≡ 17)
      → sizeof_ethernet + 28 ≤ len
      → NeedsError sr p len
  expired :
      (rt : RtEntry)
      → All (λ i. load32 p (ip_dst i_hdr) ≢ i.ip) sr.if_list
      → sr_find_lpm_entry sr.routing_table (load32 p (ip_dst i_hdr)) ≡ some rt
      → p (ip_ttl i_hdr) ≡ 1
      → NeedsError sr p len
  unrouted :
      All (λ i. load32 p (ip_dst i_hdr) ≢ i.ip) sr.if_list
      → sr_find_lpm_entry sr.routing_table (load32 p (ip_dst i_hdr)) ≡ none
      → NeedsError sr p len

module _ (env : Env) (fuel : ℕ) (sr : Sr) (p : Bytes) (interface : Text) (ifc : Iface)
    (link : sr_get_interface sr.if_list interface ≡ some ifc) (v : IsValid sr.cache)
    (started : 1 < env.now)
    (missing : sr_find_lpm_entry sr.routing_table (load32 p (ip_src i_hdr)) ≡ none)
    (unknown : sr_arpcache_lookup sr.cache (load32 p (ip_src i_hdr)) ≡ none)
    (first : find_ip (load32 p (ip_src i_hdr)) sr.cache.requests ≡ none) where
  deliver-crash :
      (m : Bytes)
      → deliver env (suc fuel) sr m error_len interface (load32 p (ip_src i_hdr))
        ≡ crash null_pointer
  deliver-crash m =
      deliver-no_route env sr m error_len interface (load32 p (ip_src i_hdr)) v (omega arith)
        unknown fuel (rw first started) (rw first (omega arith)) missing

  send_unreachable-crash :
      (code : ℕ) → send_unreachable env (suc fuel) code sr p interface ≡ crash null_pointer
  unfolding send_unreachable
  send_unreachable-crash code =
      rw (link, send_unreachable) (deliver-crash (unreachable_packet env.uninit ifc code p))

  send_time_exceeded-crash : send_time_exceeded env (suc fuel) sr p interface ≡ crash null_pointer
  unfolding send_time_exceeded
  send_time_exceeded-crash =
      rw (link, send_time_exceeded) (deliver-crash (time_exceeded_packet env.uninit ifc p))

  -- An accepted datagram that is to be answered by an ICMP error, from a source that has no route,
  -- no hardware address in the cache and no request in the queue, makes the router follow a null
  -- pointer: it asks the link for the source, by the interface of a route that does not exist.
  pub sr_handlepacket-crash :
      (len : ℕ)
      → IsBytes p
      → IsAccepted p len
      → NeedsError sr p len
      → sr_handlepacket env (suc fuel) sr p len interface ≡ crash null_pointer
  unfolding handle_local handle_tcp_udp handle_transit
  sr_handlepacket-crash len b a (closed_port mine protocol long) =
      sr_handlepacket-IsAccepted env (suc fuel) sr p len interface b a
      ∙ ground (
        arith,
        is_local-HasAddress sr.if_list (load32 p (ip_dst i_hdr)) mine,
        send_unreachable-crash 3,
      )
  sr_handlepacket-crash len b a (expired rt elsewhere route last) =
      sr_handlepacket-IsAccepted env (suc fuel) sr p len interface b a
      ∙ ground (
        arith,
        is_local-All sr.if_list (load32 p (ip_dst i_hdr)) elsewhere,
        route,
        send_time_exceeded-crash,
      )
  sr_handlepacket-crash len b a (unrouted elsewhere no_route) =
      sr_handlepacket-IsAccepted env (suc fuel) sr p len interface b a
      ∙ ground (
        arith,
        is_local-All sr.if_list (load32 p (ip_dst i_hdr)) elsewhere,
        no_route,
        send_unreachable-crash 0,
      )
