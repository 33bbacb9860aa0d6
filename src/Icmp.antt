-- ===== src/Icmp.antt =====
-- The ICMP error messages that the router makes, as stores into a `malloc`ed buffer. Layout: the
-- Ethernet header at 0, the IP header at 14, the ICMP header at 34. sr_router.c and sr_arpcache.c
-- write them out at each place; the IP and ICMP parts below are those texts once.
pub mod Parts
pub mod Laws
pub mod Frames
use nw_proj.Base.{ℕ, ◌+◌, ◌*◌, ◌/◌}
use nw_proj.Memory.{Bytes, store8, store16, store32, load16, load32, htons, memcpy}
use nw_proj.Protocol.{
  sizeof_ethernet, sizeof_ip, sizeof_icmp_t3, ether_shost, ether_type, ether_addr_len, ethertype_ip,
  ip_tos, ip_len, ip_id, ip_off, ip_ttl, ip_p, ip_sum, ip_src, ip_dst, ip_df, init_ttl,
  ip_protocol_icmp, icmp_type, icmp_code, icmp_sum, icmp_unused, icmp_next_mtu, icmp_data,
  icmp_data_size,
}
use nw_proj.Checksum.{put_checksum}
use nw_proj.Instance.{Iface}

abbrev pub i_hdr : ℕ
i_hdr = sizeof_ethernet

abbrev pub ic_hdr : ℕ
ic_hdr = sizeof_ethernet + sizeof_ip

-- The length of either message.
abbrev pub error_len : ℕ
error_len = sizeof_ethernet + sizeof_ip + sizeof_icmp_t3

-- The IP header but for its source and its checksum. `ip_hl` and `ip_v` share a byte.
unfoldable pub put_error_ip : Bytes → ℕ → ℕ → Bytes
put_error_ip m id dst =
    let m1 = store8 m i_hdr (4 * 16 + sizeof_ip / 4) in
    let m2 = store8 m1 (ip_tos i_hdr) 0 in
    let m3 = store16 m2 (ip_len i_hdr) (htons (sizeof_ip + sizeof_icmp_t3)) in
    let m4 = store16 m3 (ip_id i_hdr) id in
    let m5 = store16 m4 (ip_off i_hdr) (htons ip_df) in
    let m6 = store8 m5 (ip_ttl i_hdr) init_ttl in
    let m7 = store8 m6 (ip_p i_hdr) ip_protocol_icmp in store32 m7 (ip_dst i_hdr) dst

-- The source, and the checksum over the finished header.
unfoldable pub put_source : Bytes → ℕ → Bytes
put_source m src = put_checksum (store32 m (ip_src i_hdr) src) i_hdr (ip_sum i_hdr) sizeof_ip

-- struct sr_icmp_t3_hdr around the first 28 bytes of the datagram at `i_hdr` of `p`.
unfoldable pub put_icmp_t3 : Bytes → ℕ → Bytes → Bytes
put_icmp_t3 m code p =
    let m1 = store8 m (icmp_type ic_hdr) 3 in
    let m2 = store8 m1 (icmp_code ic_hdr) code in
    let m3 = store16 m2 (icmp_unused ic_hdr) 0 in
    let m4 = store16 m3 (icmp_next_mtu ic_hdr) 0 in
    let m5 = memcpy m4 (icmp_data ic_hdr) p i_hdr icmp_data_size in
    put_checksum m5 ic_hdr (icmp_sum ic_hdr) sizeof_icmp_t3

-- struct sr_icmp_t11_hdr, of the same size.
unfoldable pub put_icmp_t11 : Bytes → Bytes → Bytes
put_icmp_t11 m p =
    let m1 = store8 m (icmp_type ic_hdr) 11 in
    let m2 = store8 m1 (icmp_code ic_hdr) 0 in
    let m3 = store32 m2 (icmp_unused ic_hdr) 0 in
    let m4 = memcpy m3 (icmp_data ic_hdr) p i_hdr icmp_data_size in
    put_checksum m4 ic_hdr (icmp_sum ic_hdr) sizeof_icmp_t3

-- The Ethernet header of a message that leaves by `ifc`: its destination is set later.
unfoldable pub put_ethernet : Bytes → Iface → Bytes
put_ethernet m ifc =
    store16 (memcpy m (ether_shost 0) ifc.addr 0 ether_addr_len) (ether_type 0) (htons ethertype_ip)

-- Destination unreachable, as sr_handlepacket makes it: with code 3 for TCP and UDP, and with code
-- 0 where no route matches.
unfoldable pub unreachable_packet : Bytes → Iface → ℕ → Bytes → Bytes
unreachable_packet uninit ifc code p =
    let m1 = put_ethernet uninit ifc in
    let m2 = put_error_ip m1 (load16 p (ip_id i_hdr)) (load32 p (ip_src i_hdr)) in
    put_icmp_t3 (put_source m2 ifc.ip) code p

-- Time exceeded, as sr_handlepacket makes it.
unfoldable pub time_exceeded_packet : Bytes → Iface → Bytes → Bytes
time_exceeded_packet uninit ifc p =
    let m1 = put_ethernet uninit ifc in
    let m2 = put_error_ip m1 (load16 p (ip_id i_hdr)) (load32 p (ip_src i_hdr)) in
    put_icmp_t11 (put_source m2 ifc.ip) p

-- Host unreachable, as sr_arpcache_handle_arpreq makes it: the ICMP part comes before the source,
-- since the interface is looked up in between.
unfoldable pub host_unreachable_packet : Bytes → Iface → Bytes → Bytes
host_unreachable_packet uninit ifc p =
    let m1 = store16 uninit (ether_type 0) (htons ethertype_ip) in
    let m2 = put_error_ip m1 (load16 p (ip_id i_hdr)) (load32 p (ip_src i_hdr)) in
    let m3 = put_source (put_icmp_t3 m2 1 p) ifc.ip in
    memcpy m3 (ether_shost 0) ifc.addr 0 ether_addr_len
