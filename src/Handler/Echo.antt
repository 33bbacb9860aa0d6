-- ===== src/Handler/Echo.antt =====
-- Echo requests for the router, where the hardware address of their source is known.
use nw_proj.Base.{ℕ, ◌+◌, ◌-◌, ◌%◌, ◌^◌, ◌≤◌, ◌<◌, ◌≡◌, ◌≢◌, refl, ◌⊎◌, arith, ◌∙◌, some}
use nw_proj.Memory.{Bytes, load16, load32, store8, store32, memcpy}
use nw_proj.Memory.Laws.{IsBytes, store8-IsBytes, store32-IsBytes, store8-outside, store32-outside}
use nw_proj.Protocol.{
  ip_dst, ip_src, ip_ttl, ip_p, ip_sum, sizeof_ip, sizeof_ethernet, icmp_type, icmp_sum,
}
use nw_proj.Checksum.{put_checksum}
use nw_proj.Checksum.Verify.{
  put_checksum-valid, put_checksum-outside, put_checksum-IsBytes, checksum_ok_iff,
}
use nw_proj.Checksum.Words.{word_sum, word_sum-ext}
use nw_proj.Text.{Text}
use nw_proj.Instance.{Iface, RtEntry, ArpEntry, Sr, Env, ok}
use nw_proj.Interfaces.{sr_get_interface}
use nw_proj.Routing.{sr_find_lpm_entry}
use nw_proj.ArpCache.{sr_arpcache_lookup}
use nw_proj.Icmp.{i_hdr, ic_hdr}
use nw_proj.Send.Laws.{wrote}
use nw_proj.Handler.{echo_reply_packet, handle_local, handle_icmp, sr_handlepacket}
use nw_proj.Handler.Accept.{IsAccepted, sr_handlepacket-IsAccepted}
use nw_proj.Handler.Deliver.{
  addressed, addressed-dhost, addressed-shost, addressed-rest, memcpy-shost, deliver-hit,
  is_local-HasAddress, HasAddress,
}

-- The bytes of a datagram that an echo reply keeps: all but the time to live, the header's
-- checksum and addresses, and the type and checksum of the ICMP message.
abbrev pub IsKept : ℕ → Type 0
IsKept i = (i ≢ 22) × ((i < 24) ⊎ ((i ≡ 35) ⊎ (37 < i)))

-- `m` is the datagram `p` of `len` bytes as its echo reply, but for the Ethernet addresses.
pub record IsEchoReply (p : Bytes) (len : ℕ) (m : Bytes) : Type 0 where
  pub source : load32 m (ip_src i_hdr) ≡ load32 p (ip_dst i_hdr)
  pub destination : load32 m (ip_dst i_hdr) ≡ load32 p (ip_src i_hdr)
  pub time_to_live : m (ip_ttl i_hdr) ≡ 255
  pub has_type : m (icmp_type ic_hdr) ≡ 0
  pub ip_checksum : word_sum m i_hdr sizeof_ip % 65535 ≡ 0
  pub icmp_checksum : word_sum m ic_hdr (len - sizeof_ethernet - sizeof_ip) % 65535 ≡ 0
  pub rest : (i : ℕ) → 12 ≤ i → IsKept i → m i ≡ p i

module _ (p : Bytes) (len : ℕ) (b : IsBytes p) (long : 38 ≤ len) (short : len ≤ 2 ^ 16) where
  -- The datagram with its addresses exchanged, before its checksum.
  abbrev turned : Bytes
  turned = let m1 = store8 p 22 255 in store32 (store32 m1 26 (load32 m1 30)) 30 (load32 m1 26)

  turned-IsBytes : IsBytes turned
  turned-IsBytes = store32-IsBytes _ 30 _ (store32-IsBytes _ 26 _ (store8-IsBytes p 22 255 b))

  abbrev typed : Bytes
  typed = store8 (put_checksum turned i_hdr (ip_sum i_hdr) sizeof_ip) 34 0

  typed-IsBytes : IsBytes typed
  typed-IsBytes =
      store8-IsBytes _ 34 0 (put_checksum-IsBytes turned i_hdr 24 sizeof_ip turned-IsBytes)

  echo_reply_packet-above : (i : ℕ) → i < 36 → echo_reply_packet p len i ≡ typed i
  unfolding echo_reply_packet
  echo_reply_packet-above i h = put_checksum-outside typed ic_hdr 36 (len - 14 - 20) i (omega arith)

  typed-header : (i : ℕ) → i < 34 → typed i ≡ put_checksum turned i_hdr 24 sizeof_ip i
  unfolding store8
  typed-header i h = ground arith

  echo_reply_packet-rest : (i : ℕ) → IsKept i → echo_reply_packet p len i ≡ p i
  unfolding echo_reply_packet
  echo_reply_packet-rest i kept =
      put_checksum-outside typed ic_hdr 36 (len - 14 - 20) i (omega arith) ∙ typed-rest i kept
    where
      typed-rest : (j : ℕ) → IsKept j → typed j ≡ p j
      typed-rest j k =
          store8-outside (put_checksum turned i_hdr 24 sizeof_ip) 34 0 j (omega arith)
          ∙ put_checksum-outside turned i_hdr 24 sizeof_ip j (omega arith)
          ∙ store32-outside _ 30 _ j (omega arith)
          ∙ store32-outside (store8 p 22 255) 26 _ j (omega arith)
          ∙ store8-outside p 22 255 j (omega arith)

  typed-fields :
      (load32 typed 26 ≡ load32 p 30)
      × (load32 typed 30 ≡ load32 p 26)
      × (typed 22 ≡ 255)
      × (typed 34 ≡ 0)
  unfolding load32 store32 put_checksum
  typed-fields =
      (omega (arith, b 30, b 31, b 32, b 33), omega (arith, b 26, b 27, b 28, b 29), refl, refl)

  echo_reply_packet-load32 : (a : ℕ) → a < 33 → load32 (echo_reply_packet p len) a ≡ load32 typed a
  unfolding load32
  echo_reply_packet-load32 a h = omega (
    arith,
    echo_reply_packet-above a (omega arith),
    echo_reply_packet-above (a + 1) (omega arith),
    echo_reply_packet-above (a + 2) (omega arith),
    echo_reply_packet-above (a + 3) (omega arith),
  )

  echo_reply_packet-IsEchoReply : IsEchoReply p len (echo_reply_packet p len)
  echo_reply_packet-IsEchoReply = record {
    source = echo_reply_packet-load32 26 (omega arith) ∙ typed-fields.0;
    destination = echo_reply_packet-load32 30 (omega arith) ∙ typed-fields.1;
    time_to_live = echo_reply_packet-above 22 (omega arith) ∙ typed-fields.2;
    has_type = echo_reply_packet-above 34 (omega arith) ∙ typed-fields.3;
    ip_checksum =
        rw
          (word_sum-ext (echo_reply_packet p len) (put_checksum turned i_hdr 24 sizeof_ip) i_hdr
            sizeof_ip λ i at below. echo_reply_packet-above i (omega arith) ∙ typed-header i below)
          (put_checksum-valid turned i_hdr 5 sizeof_ip turned-IsBytes (omega arith) (omega arith));
    icmp_checksum =
        unfold echo_reply_packet in
        put_checksum-valid typed ic_hdr 1 (len - 14 - 20) typed-IsBytes (omega arith) (omega arith);
    rest = λ i at kept. echo_reply_packet-rest i kept;
  }

-- The Ethernet addresses are no part of what makes the reply.
IsEchoReply-addressed :
    (p : Bytes) (len : ℕ) (m shost dhost : Bytes)
    → IsEchoReply p len m
    → IsEchoReply p len (addressed m shost dhost)
unfolding load32 memcpy
IsEchoReply-addressed p len m shost dhost e = record {
  source = e.source;
  destination = e.destination;
  time_to_live = e.time_to_live;
  has_type = e.has_type;
  ip_checksum =
      rw
        (word_sum-ext (addressed m shost dhost) m i_hdr sizeof_ip
          λ i at below. addressed-rest m shost dhost i (omega arith))
        e.ip_checksum;
  icmp_checksum =
      rw
        (word_sum-ext (addressed m shost dhost) m ic_hdr (len - 14 - 20)
          λ i at below. addressed-rest m shost dhost i (omega arith))
        e.icmp_checksum;
  rest = λ i at kept. addressed-rest m shost dhost i at ∙ e.rest i at kept;
}

-- The ICMP message of the datagram has its checksum set, and its words add up to zero in one's
-- complement.
abbrev pub HasIcmpChecksum : Bytes → ℕ → Type 0
HasIcmpChecksum p len =
    (word_sum p ic_hdr (len - sizeof_ethernet - sizeof_ip) % 65535 ≡ 0)
    × (load16 p (icmp_sum ic_hdr) ≢ 0)

module _ (env : Env) (fuel : ℕ) (sr : Sr) (p : Bytes) (len : ℕ) (interface : Text) (rt : RtEntry)
    (ifc : Iface) (entry : ArpEntry) where
  -- An accepted echo request for one of the router's addresses, with a right ICMP checksum, whose
  -- source has a route by an interface that exists and a hardware address in the cache, is
  -- answered by one frame of the same length on the route's interface: its echo reply.
  pub sr_handlepacket-IsEchoReply :
      IsBytes p
      → IsAccepted p len
      → 38 ≤ len
      → len ≤ 2 ^ 16
      → HasAddress sr.if_list (load32 p (ip_dst i_hdr))
      → p (ip_p i_hdr) ≡ 1
      → p (icmp_type ic_hdr) ≡ 8
      → HasIcmpChecksum p len
      → sr_find_lpm_entry sr.routing_table (load32 p (ip_src i_hdr)) ≡ some rt
      → sr_get_interface sr.if_list rt.interface ≡ some ifc
      → sr_arpcache_lookup sr.cache (load32 p (ip_src i_hdr)) ≡ some entry
      → (frame : Bytes) × (sr_handlepacket env fuel sr p len interface
          ≡ ok (wrote sr frame len rt.interface))
        × IsEchoReply p len frame
        × ((k : ℕ) → k < 6 → frame k ≡ entry.mac k)
        × ((k : ℕ) → k < 6 → frame (6 + k) ≡ ifc.addr k)
  unfolding handle_local handle_icmp
  sr_handlepacket-IsEchoReply b a long short mine icmp request sum route found known =
      let reply = echo_reply_packet p len in
      let e = echo_reply_packet-IsEchoReply p len b long short in
      let back : sr_find_lpm_entry sr.routing_table (load32 reply 30) ≡ some rt =
        rw e.destination route in
      (
        addressed reply ifc.addr entry.mac,
        sr_handlepacket-IsAccepted env fuel sr p len interface b a
            ∙ ground (
              arith,
              is_local-HasAddress sr.if_list (load32 p (ip_dst i_hdr)) mine,
              (checksum_ok_iff p ic_hdr 1 (len - 14 - 20) b (omega arith) (omega arith)).1 sum,
              deliver-hit env fuel sr (memcpy reply 6 ifc.addr 0 6) len rt.interface
                  (load32 p (ip_src i_hdr)) ifc entry (omega arith) (memcpy-shost reply ifc.addr)
                  found known,
            ),
        IsEchoReply-addressed p len reply ifc.addr entry.mac e,
        addressed-dhost reply ifc.addr entry.mac,
        addressed-shost reply ifc.addr entry.mac,
      )
