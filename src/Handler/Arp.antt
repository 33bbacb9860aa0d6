-- ===== src/Handler/Arp.antt =====
-- ARP packets: requests for the router's address, and replies with the packets that waited.
use mathlib.Core.List.{append-nil, append_assoc}
use nw_proj.Base.{
  ℕ, ◌+◌, ◌≤◌, ◌<◌, ◌^◌, ◌≡◌, ◌≢◌, refl, sym, arith, ◌==◌, if◌then◌else◌, ◌∙◌, some, none, Option,
  List, [], ◌∷◌, ◌++◌, All, ap, map, subst, ◌-◌,
}
use nw_proj.Memory.{Bytes, load16, load32, store32, htons, memcpy}
use nw_proj.Memory.Laws.{IsBytes, eq→same_bytes}
use nw_proj.Protocol.{
  sizeof_ethernet, sizeof_arp, ether_type, ethertype_arp, ethertype_ip, ar_op, ar_sha, ar_sip,
  ar_tha, ar_tip, arp_op_request, arp_op_reply,
}
use nw_proj.Text.{Text}
use nw_proj.Instance.{Iface, Packet, Frame, ArpReq, ArpCache, Sr, Env, ok}
use nw_proj.Interfaces.{sr_get_interface}
use nw_proj.ArpCache.{find_ip, sr_arpcache_insert, sr_arpreq_destroy}
use nw_proj.ArpCache.Invariant.{IsValid}
use nw_proj.ArpCache.Queue.{sr_arpcache_insert_lem, freed, sr_arpcache_insert-freed}
use nw_proj.Send.Laws.{wrote, sr_send_packet-sends}
use nw_proj.Send.Waiting.{IsWaiting, released, sr_send_packet-IsSendable}
use nw_proj.Handler.{
  a_hdr, arp_reply_packet, send_waiting, answer_waiting, handle_arp_reply, handle_arp,
  sr_handlepacket,
}

-- A frame with a whole ARP packet for the interface `ifc`, with that operation.
pub record IsArpFor (ifc : Iface) (operation : ℕ) (p : Bytes) (len : ℕ) : Type 0 where
  pub long : sizeof_ethernet + sizeof_arp ≤ len
  pub is_arp : load16 p (ether_type 0) ≡ htons ethertype_arp
  pub mine : load32 p (ar_tip a_hdr) ≡ ifc.ip
  pub op : load16 p (ar_op a_hdr) ≡ htons operation

-- `frame` tells the sender of the request `p` the hardware address of `ifc`.
pub record IsArpReply (ifc : Iface) (p frame : Bytes) : Type 0 where
  pub destination : (k : ℕ) → k < 6 → frame k ≡ p (6 + k)
  pub source : (k : ℕ) → k < 6 → frame (6 + k) ≡ ifc.addr k
  pub operation : load16 frame (ar_op a_hdr) ≡ htons arp_op_reply
  pub sender : (k : ℕ) → k < 6 → frame (ar_sha a_hdr + k) ≡ ifc.addr k
  pub sender_ip : load32 frame (ar_sip a_hdr) ≡ ifc.ip
  pub target : (k : ℕ) → k < 6 → frame (ar_tha a_hdr + k) ≡ p (ar_sha a_hdr + k)
  pub target_ip : load32 frame (ar_tip a_hdr) ≡ load32 p (ar_sip a_hdr)
  pub header : (i : ℕ) → 12 ≤ i → i < 20 → frame i ≡ p i

htons_arp-ne-ip : htons ethertype_arp ≢ htons ethertype_ip
unfolding htons
htons_arp-ne-ip = omega arith

htons_reply-ne-request : htons arp_op_reply ≢ htons arp_op_request
unfolding htons
htons_reply-ne-request = omega arith

at_six : (k : ℕ) → 0 + (6 + k - 6) ≡ k
at_six k = omega arith

at_sender : (k : ℕ) → 0 + (22 + k - 22) ≡ k
at_sender k = omega arith

arp_reply_packet-source :
    (p : Bytes) (ifc : Iface) (k : ℕ) → k < 6 → arp_reply_packet p ifc (6 + k) ≡ ifc.addr k
unfolding arp_reply_packet memcpy
arp_reply_packet-source p ifc k h = ground (arith, at_six k)

arp_reply_packet-IsArpReply :
    (p : Bytes) (ifc : Iface)
    → IsBytes p
    → ifc.ip < 2 ^ 32
    → IsArpReply ifc p (arp_reply_packet p ifc)
unfolding arp_reply_packet memcpy store32 load16 load32 htons
arp_reply_packet-IsArpReply p ifc b small = record {
  destination = λ k h. ground (arith, six k);
  source = arp_reply_packet-source p ifc;
  operation = refl;
  sender = λ k h. ground (arith, at_sender k);
  sender_ip = omega arith;
  target = λ k h. ground (arith, shifted k);
  target_ip = omega (arith, b 28, b 29, b 30, b 31);
  header = λ i lo hi. ground arith;
}
  where
    six : (k : ℕ) → 6 + (k - 0) ≡ 6 + k
    six k = omega arith

    shifted : (k : ℕ) → 22 + (32 + k - 32) ≡ 22 + k
    shifted k = omega arith

module _ (env : Env) (fuel : ℕ) (sr : Sr) (p : Bytes) (len : ℕ) (interface : Text) (ifc : Iface)
    (found : sr_get_interface sr.if_list interface ≡ some ifc) where
  -- An ARP request that arrives for the address of the interface it arrives on is answered on that
  -- interface by an ARP reply with the interface's hardware address, and nothing else changes.
  pub sr_handlepacket-IsArpReply :
      IsBytes p
      → ifc.ip < 2 ^ 32
      → IsArpFor ifc arp_op_request p len
      → (frame : Bytes) × (sr_handlepacket env fuel sr p len interface
          ≡ ok (wrote sr frame len interface))
        × IsArpReply ifc p frame
  unfolding sr_handlepacket handle_arp
  sr_handlepacket-IsArpReply b small a = (
    arp_reply_packet p ifc,
    ground (
      arith,
      found,
      a.long,
      a.is_arp,
      a.mine,
      a.op,
      htons_arp-ne-ip,
      sr_send_packet-sends env sr (arp_reply_packet p ifc) len interface ifc (omega (arith, a.long))
          found
          (eq→same_bytes (arp_reply_packet p ifc) 6 ifc.addr 0 6
            λ k h. arp_reply_packet-source p ifc k h ∙ ap ifc.addr (omega arith)),
    ),
    arp_reply_packet-IsArpReply p ifc b small,
  )

  -- An ARP reply for the interface's address is handled, whatever waits.
  sr_handlepacket-arp_reply :
      IsArpFor ifc arp_op_reply p len
      → sr_handlepacket env fuel sr p len interface ≡ ok (handle_arp_reply env sr p)
  unfolding sr_handlepacket handle_arp
  sr_handlepacket-arp_reply a =
      ground (arith, found, a.long, a.is_arp, a.mine, a.op, htons_arp-ne-ip, htons_reply-ne-request)

-- Each packet that waited is written, to `mac`, in the order of the list.
send_waiting-released :
    (env : Env) (mac : Bytes) (pcks : List Packet) (sr : Sr)
    → All (IsWaiting sr.if_list) pcks
    → send_waiting env mac pcks sr ≡ record sr { written = sr.written ++ map (released mac) pcks }
unfolding send_waiting
send_waiting-released env mac [] sr h = ground (arith, append-nil sr.written)
send_waiting-released env mac (pck ∷ pcks) sr h =
    rw (sr_send_packet-IsSendable env sr pck.buf pck.len pck.iface mac h.0) (
      rw
        (send_waiting-released env mac pcks (wrote sr (memcpy pck.buf 0 mac 0 6) pck.len pck.iface)
          h.1)
        (ap (λ (w : List Frame). record sr { written = w })
          (append_assoc sr.written (released mac pck ∷ []) (map (released mac) pcks))))

-- The packets that wait for `ip`, the newest first.
abbrev pub packets_of : Option ArpReq → List Packet
packets_of none = []
packets_of (some r) = r.packets

-- The hardware address of the ARP packet's sender.
abbrev pub sender_mac : Bytes → Bytes
sender_mac p i = p (ar_sha a_hdr + i)

abbrev pub sender_ip_of : Bytes → ℕ
sender_ip_of p = load32 p (ar_sip a_hdr)

-- What an ARP reply does to the router: see the theorem.
pub record IsReleased (env : Env) (sr : Sr) (p : Bytes) (sr' : Sr) : Type 0 where
  pub sent :
      sr'.written
      ≡ sr.written
        ++ map (released (sender_mac p)) (packets_of (find_ip (sender_ip_of p) sr.cache.requests))
  pub requests :
      (j : ℕ)
      → find_ip j sr'.cache.requests
        ≡ (if sender_ip_of p == j then none else find_ip j sr.cache.requests)
  pub learnt :
      sr'.cache.entries
      ≡ (sr_arpcache_insert env.now sr.cache (sender_mac p) (sender_ip_of p)).0.entries
  pub others : (sr'.if_list ≡ sr.if_list) × (sr'.routing_table ≡ sr.routing_table)

-- The insertion without a request that waits, and with one.
answer_waiting-IsReleased :
    (env : Env) (sr : Sr) (p : Bytes) (cache : ArpCache) (r : Option ArpReq)
    → All (IsWaiting sr.if_list) (packets_of r)
    → let sr' = answer_waiting env (sender_mac p) r (record sr { cache = cache }) in
      (sr'.written ≡ sr.written ++ map (released (sender_mac p)) (packets_of r))
      × (sr'.cache.entries ≡ cache.entries)
      × (sr'.cache.requests ≡ freed r cache.requests)
      × (sr'.if_list ≡ sr.if_list)
      × (sr'.routing_table ≡ sr.routing_table)
unfolding answer_waiting
answer_waiting-IsReleased env sr p cache none wait =
    (sym (append-nil sr.written), refl, refl, refl, refl)
answer_waiting-IsReleased env sr p cache (some r) wait =
    rw (send_waiting-released env (sender_mac p) r.packets (record sr { cache = cache }) wait)
      (refl, unfold sr_arpreq_destroy in refl, unfold sr_arpreq_destroy in refl, refl, refl)

handle_arp_reply-IsReleased :
    (env : Env) (sr : Sr) (p : Bytes)
    → IsValid sr.cache
    → All (IsWaiting sr.if_list) (packets_of (find_ip (sender_ip_of p) sr.cache.requests))
    → IsReleased env sr p (handle_arp_reply env sr p)
unfolding handle_arp_reply
handle_arp_reply-IsReleased env sr p v wait =
    let mac = sender_mac p in
    let ip = sender_ip_of p in
    let ins = sr_arpcache_insert env.now sr.cache mac ip in
    let returned : ins.1 ≡ find_ip ip sr.cache.requests =
      (sr_arpcache_insert_lem env.now sr.cache mac ip 0 v).0 in
    let out = answer_waiting-IsReleased env sr p ins.0 ins.1 (
      subst (λ (r : Option ArpReq). All (IsWaiting sr.if_list) (packets_of r)) (sym returned)
        wait) in
    record {
      sent =
          out.0
          ∙ ap (λ (r : Option ArpReq). sr.written ++ map (released mac) (packets_of r)) returned;
      requests = λ j.
          ap (find_ip j) (out.2 ∙ sr_arpcache_insert-freed env.now sr.cache mac ip v)
          ∙ (sr_arpcache_insert_lem env.now sr.cache mac ip j v).1;
      learnt = out.1;
      others = (out.3, out.4);
    }

-- An ARP reply for the address of the interface it arrives on, with a valid cache in which what
-- waits for the sender's address may be sent: every packet that waits for that address is written,
-- the newest first, to the sender's hardware address; the request for that address leaves the
-- queue and no other does; the mapping is inserted; interfaces and routes stay.
pub sr_handlepacket-IsReleased :
    (env : Env) (fuel : ℕ) (sr : Sr) (p : Bytes) (len : ℕ) (interface : Text) (ifc : Iface)
    → sr_get_interface sr.if_list interface ≡ some ifc
    → IsArpFor ifc arp_op_reply p len
    → IsValid sr.cache
    → All (IsWaiting sr.if_list) (packets_of (find_ip (sender_ip_of p) sr.cache.requests))
    → (sr' : Sr) × (sr_handlepacket env fuel sr p len interface ≡ ok sr') × IsReleased env sr p sr'
sr_handlepacket-IsReleased env fuel sr p len interface ifc found a v wait = (
  handle_arp_reply env sr p,
  sr_handlepacket-arp_reply env fuel sr p len interface ifc found a,
  handle_arp_reply-IsReleased env sr p v wait,
)
