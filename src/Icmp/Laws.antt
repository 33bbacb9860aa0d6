-- ===== src/Icmp/Laws.antt =====
-- The ICMP error messages, field by field.
use nw_proj.Base.{ℕ, ◌+◌, ◌-◌, ◌^◌, ◌≤◌, ◌<◌, ◌≡◌, refl, arith, ◌∙◌}
use nw_proj.Memory.{Bytes, store16, store32, load16, load32, htons, memcpy}
use nw_proj.Memory.Laws.{IsBytes, store8-IsBytes, store16-IsBytes, memcpy-IsBytes}
use nw_proj.Protocol.{
  sizeof_ip, sizeof_icmp_t3, ip_src, icmp_data_size, ip_id, ether_type, ethertype_ip,
}
use nw_proj.Checksum.{put_checksum}
use nw_proj.Checksum.Verify.{put_checksum-outside, put_checksum-IsBytes}
use nw_proj.Checksum.Words.{word_sum-ext}
use nw_proj.Instance.{Iface}
use nw_proj.Icmp.Parts.{
  HasErrorFields, IsIcmpError, put_icmp_t3-below, put_icmp_t11-below, put_error_ip-IsBytes,
  put_ethernet-IsBytes, put_source-IsBytes, put_source-valid, put_icmp_t3-valid, put_icmp_t11-valid,
  put_icmp_t3-quotes, put_icmp_t11-quotes,
}
use nw_proj.Icmp.{
  i_hdr, ic_hdr, put_error_ip, put_source, put_icmp_t3, put_icmp_t11, put_ethernet,
  unreachable_packet, time_exceeded_packet, host_unreachable_packet,
}

module _ (uninit : Bytes) (ifc : Iface) (p : Bytes) (fresh : IsBytes uninit)
    (mac : IsBytes ifc.addr) (ip : ifc.ip < 2 ^ 32) (bytes : IsBytes p) where
  abbrev header : Bytes
  header = put_error_ip (put_ethernet uninit ifc) (load16 p (ip_id i_hdr)) (load32 p (ip_src i_hdr))

  header-IsBytes : IsBytes header
  header-IsBytes = put_error_ip-IsBytes _ _ _ (put_ethernet-IsBytes uninit ifc fresh mac)

  unreachable_packet-fields :
      (code : ℕ)
      → code < 256
      → HasErrorFields 3 code ifc.ip p (unreachable_packet uninit ifc code p)
  unfolding unreachable_packet put_icmp_t3 put_source put_error_ip put_ethernet put_checksum store32
      load16 load32 htons memcpy
  unreachable_packet-fields code small = record {
    is_ip = refl;
    version = refl;
    total_length = refl;
    time_to_live = refl;
    protocol = refl;
    source = omega arith;
    destination = omega (arith, bytes 26, bytes 27, bytes 28, bytes 29);
    has_type = refl;
    has_code = omega arith;
  }

  -- The destination unreachable message is one of type 3 and the code given from the interface's
  -- address.
  pub unreachable_packet-IsIcmpError :
      (code : ℕ) → code < 256 → IsIcmpError 3 code ifc.ip p (unreachable_packet uninit ifc code p)
  unfolding unreachable_packet
  unreachable_packet-IsIcmpError code small = record {
    fields = unreachable_packet-fields code small;
    ip_checksum =
        rw
          (word_sum-ext (unreachable_packet uninit ifc code p) (put_source header ifc.ip) i_hdr
            sizeof_ip λ i at below. put_icmp_t3-below (put_source header ifc.ip) code p i below)
          (put_source-valid header ifc.ip header-IsBytes);
    icmp_checksum =
        put_icmp_t3-valid _ code p (put_source-IsBytes header ifc.ip header-IsBytes) bytes;
    quotes = put_icmp_t3-quotes (put_source header ifc.ip) code p;
  }

  time_exceeded_packet-fields : HasErrorFields 11 0 ifc.ip p (time_exceeded_packet uninit ifc p)
  unfolding time_exceeded_packet put_icmp_t11 put_source put_error_ip put_ethernet put_checksum
      store32 load16 load32 htons memcpy
  time_exceeded_packet-fields = record {
    is_ip = refl;
    version = refl;
    total_length = refl;
    time_to_live = refl;
    protocol = refl;
    source = omega arith;
    destination = omega (arith, bytes 26, bytes 27, bytes 28, bytes 29);
    has_type = refl;
    has_code = refl;
  }

  -- The time exceeded message is one of type 11 and code 0 from the interface's address.
  pub time_exceeded_packet-IsIcmpError :
      IsIcmpError 11 0 ifc.ip p (time_exceeded_packet uninit ifc p)
  unfolding time_exceeded_packet
  time_exceeded_packet-IsIcmpError = record {
    fields = time_exceeded_packet-fields;
    ip_checksum =
        rw
          (word_sum-ext (time_exceeded_packet uninit ifc p) (put_source header ifc.ip) i_hdr
            sizeof_ip λ i at below. put_icmp_t11-below (put_source header ifc.ip) p i below)
          (put_source-valid header ifc.ip header-IsBytes);
    icmp_checksum = put_icmp_t11-valid _ p (put_source-IsBytes header ifc.ip header-IsBytes) bytes;
    quotes = put_icmp_t11-quotes (put_source header ifc.ip) p;
  }

  -- Host unreachable: before the source and the hardware address are set.
  abbrev quoted : Bytes
  quoted =
      put_icmp_t3
        (put_error_ip (store16 uninit (ether_type 0) (htons ethertype_ip)) (load16 p (ip_id i_hdr))
          (load32 p (ip_src i_hdr)))
        1 p

  quoted-IsBytes : IsBytes quoted
  unfolding put_icmp_t3
  quoted-IsBytes = put_checksum-IsBytes _ ic_hdr 36 sizeof_icmp_t3 (
      memcpy-IsBytes _ 42 p i_hdr icmp_data_size
        (store16-IsBytes _ 40 0 (
          store16-IsBytes _ 38 0 (
            store8-IsBytes _ 35 1 (
              store8-IsBytes _ 34 3
                (put_error_ip-IsBytes _ _ _ (store16-IsBytes uninit 12 _ fresh))))))
        bytes)

  host_unreachable_packet-fields :
      HasErrorFields 3 1 ifc.ip p (host_unreachable_packet uninit ifc p)
  unfolding host_unreachable_packet put_icmp_t3 put_source put_error_ip put_checksum store32 load16
      load32 htons memcpy
  host_unreachable_packet-fields = record {
    is_ip = refl;
    version = refl;
    total_length = refl;
    time_to_live = refl;
    protocol = refl;
    source = omega arith;
    destination = omega (arith, bytes 26, bytes 27, bytes 28, bytes 29);
    has_type = refl;
    has_code = refl;
  }

  host_unreachable_packet-from :
      (i : ℕ) → 12 ≤ i → host_unreachable_packet uninit ifc p i ≡ put_source quoted ifc.ip i
  unfolding host_unreachable_packet memcpy
  host_unreachable_packet-from i h = ground arith

  put_source-above : (m : Bytes) (src i : ℕ) → ic_hdr ≤ i → put_source m src i ≡ m i
  unfolding put_source store32
  put_source-above m src i h =
      put_checksum-outside (store32 m 26 src) i_hdr 24 sizeof_ip i (omega arith) ∙ ground arith

  -- The host unreachable message is one of type 3 and code 1 from the interface's address.
  pub host_unreachable_packet-IsIcmpError :
      IsIcmpError 3 1 ifc.ip p (host_unreachable_packet uninit ifc p)
  host_unreachable_packet-IsIcmpError = record {
    fields = host_unreachable_packet-fields;
    ip_checksum =
        rw
          (word_sum-ext (host_unreachable_packet uninit ifc p) (put_source quoted ifc.ip) i_hdr
            sizeof_ip λ i at below. host_unreachable_packet-from i (omega arith))
          (put_source-valid quoted ifc.ip quoted-IsBytes);
    icmp_checksum =
        rw
          (word_sum-ext (host_unreachable_packet uninit ifc p) quoted ic_hdr sizeof_icmp_t3
            λ i at below.
              host_unreachable_packet-from i (omega arith) ∙ put_source-above quoted ifc.ip i at)
          (put_icmp_t3-valid _ 1 p (put_error_ip-IsBytes _ _ _ (store16-IsBytes uninit 12 _ fresh))
            bytes);
    quotes = λ k h.
        host_unreachable_packet-from (42 + k) (omega arith)
        ∙ put_source-above quoted ifc.ip (42 + k) (omega arith)
        ∙ put_icmp_t3-quotes _ 1 p k h;
  }

put_source-below : (m : Bytes) (src i : ℕ) → i < 24 → put_source m src i ≡ m i
unfolding put_source store32
put_source-below m src i h =
    put_checksum-outside (store32 m 26 src) i_hdr 24 sizeof_ip i (omega arith) ∙ ground arith

put_error_ip-below : (m : Bytes) (id dst i : ℕ) → i < i_hdr → put_error_ip m id dst i ≡ m i
unfolding put_error_ip store32
put_error_ip-below m id dst i h = ground arith

put_ethernet-shost :
    (m : Bytes) (ifc : Iface) (k : ℕ) → k < 6 → put_ethernet m ifc (6 + k) ≡ ifc.addr k
unfolding put_ethernet store16 memcpy
put_ethernet-shost m ifc k h = ground (arith, cancel)
  where
    cancel : 0 + (6 + k - 6) ≡ k
    cancel = omega arith

-- The hardware address that the header starts with is not touched by what follows.
header-shost :
    (uninit : Bytes) (ifc : Iface) (id dst src k : ℕ)
    → k < 6
    → put_source (put_error_ip (put_ethernet uninit ifc) id dst) src (6 + k) ≡ ifc.addr k
header-shost uninit ifc id dst src k h =
    put_source-below (put_error_ip (put_ethernet uninit ifc) id dst) src (6 + k) (omega arith)
    ∙ put_error_ip-below (put_ethernet uninit ifc) id dst (6 + k) (omega arith)
    ∙ put_ethernet-shost uninit ifc k h

pub unreachable_packet-shost :
    (uninit : Bytes) (ifc : Iface) (code : ℕ) (p : Bytes) (k : ℕ)
    → k < 6
    → unreachable_packet uninit ifc code p (6 + k) ≡ ifc.addr k
unfolding unreachable_packet
unreachable_packet-shost uninit ifc code p k h =
    put_icmp_t3-below _ code p (6 + k) (omega arith)
    ∙ header-shost uninit ifc (load16 p (ip_id i_hdr)) (load32 p (ip_src i_hdr)) ifc.ip k h

pub time_exceeded_packet-shost :
    (uninit : Bytes) (ifc : Iface) (p : Bytes) (k : ℕ)
    → k < 6
    → time_exceeded_packet uninit ifc p (6 + k) ≡ ifc.addr k
unfolding time_exceeded_packet
time_exceeded_packet-shost uninit ifc p k h =
    put_icmp_t11-below _ p (6 + k) (omega arith)
    ∙ header-shost uninit ifc (load16 p (ip_id i_hdr)) (load32 p (ip_src i_hdr)) ifc.ip k h

-- The destination's hardware address is no part of the message.
pub IsIcmpError-memcpy :
    (type code src : ℕ) (p frame mac : Bytes)
    → IsIcmpError type code src p frame
    → IsIcmpError type code src p (memcpy frame 0 mac 0 6)
unfolding memcpy load16 load32
IsIcmpError-memcpy type code src p frame mac e = record {
  fields = record {
    is_ip = e.fields.is_ip;
    version = e.fields.version;
    total_length = e.fields.total_length;
    time_to_live = e.fields.time_to_live;
    protocol = e.fields.protocol;
    source = e.fields.source;
    destination = e.fields.destination;
    has_type = e.fields.has_type;
    has_code = e.fields.has_code;
  };
  ip_checksum =
      rw (word_sum-ext (memcpy frame 0 mac 0 6) frame i_hdr sizeof_ip λ i at below. ground arith)
        e.ip_checksum;
  icmp_checksum =
      rw
        (word_sum-ext (memcpy frame 0 mac 0 6) frame ic_hdr sizeof_icmp_t3
          λ i at below. ground arith)
        e.icmp_checksum;
  quotes = λ k h. ground (arith, e.quotes k h);
}
