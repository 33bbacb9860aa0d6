-- ===== src/Protocol.antt =====
-- sr_protocol.h: the packed headers as offsets from the header's address, and the constants.
-- A header at address `h` of a buffer `m` is read and written through `m` and `h`.
use nw_proj.Base.{ℕ, ◌+◌, ◌/◌, ◌%◌}
use nw_proj.Memory.{Bytes}

abbrev pub ether_addr_len : ℕ
ether_addr_len = 6

abbrev pub icmp_data_size : ℕ
icmp_data_size = 28

abbrev pub iface_namelen : ℕ
iface_namelen = 32

-- struct sr_ethernet_hdr
abbrev pub sizeof_ethernet : ℕ
sizeof_ethernet = 14

abbrev pub ether_dhost : ℕ → ℕ
ether_dhost e = e

abbrev pub ether_shost : ℕ → ℕ
ether_shost e = e + 6

abbrev pub ether_type : ℕ → ℕ
ether_type e = e + 12

abbrev pub ethertype_arp : ℕ
ethertype_arp = 0x0806

abbrev pub ethertype_ip : ℕ
ethertype_ip = 0x0800

-- struct sr_ip_hdr: `ip_hl` and `ip_v` are the low and the high half of the first byte.
abbrev pub sizeof_ip : ℕ
sizeof_ip = 20

abbrev pub ip_v : Bytes → ℕ → ℕ
ip_v m i = m i / 16

abbrev pub ip_hl : Bytes → ℕ → ℕ
ip_hl m i = m i % 16

abbrev pub ip_tos : ℕ → ℕ
ip_tos i = i + 1

abbrev pub ip_len : ℕ → ℕ
ip_len i = i + 2

abbrev pub ip_id : ℕ → ℕ
ip_id i = i + 4

abbrev pub ip_off : ℕ → ℕ
ip_off i = i + 6

abbrev pub ip_ttl : ℕ → ℕ
ip_ttl i = i + 8

abbrev pub ip_p : ℕ → ℕ
ip_p i = i + 9

abbrev pub ip_sum : ℕ → ℕ
ip_sum i = i + 10

abbrev pub ip_src : ℕ → ℕ
ip_src i = i + 12

abbrev pub ip_dst : ℕ → ℕ
ip_dst i = i + 16

abbrev pub ip_df : ℕ
ip_df = 0x4000

abbrev pub ip_mf : ℕ
ip_mf = 0x2000

abbrev pub ip_rf : ℕ
ip_rf = 0x8000

abbrev pub ip_offmask : ℕ
ip_offmask = 0x1fff

abbrev pub init_ttl : ℕ
init_ttl = 255

abbrev pub ip_protocol_icmp : ℕ
ip_protocol_icmp = 0x01

abbrev pub ip_protocol_tcp : ℕ
ip_protocol_tcp = 0x06

abbrev pub ip_protocol_udp : ℕ
ip_protocol_udp = 0x11

-- struct sr_icmp_hdr, sr_icmp_t3_hdr and sr_icmp_t11_hdr. The last two are of one size.
abbrev pub sizeof_icmp : ℕ
sizeof_icmp = 4

abbrev pub sizeof_icmp_t3 : ℕ
sizeof_icmp_t3 = 36

abbrev pub icmp_type : ℕ → ℕ
icmp_type c = c

abbrev pub icmp_code : ℕ → ℕ
icmp_code c = c + 1

abbrev pub icmp_sum : ℕ → ℕ
icmp_sum c = c + 2

abbrev pub icmp_unused : ℕ → ℕ
icmp_unused c = c + 4

abbrev pub icmp_next_mtu : ℕ → ℕ
icmp_next_mtu c = c + 6

abbrev pub icmp_data : ℕ → ℕ
icmp_data c = c + 8

-- struct sr_arp_hdr
abbrev pub sizeof_arp : ℕ
sizeof_arp = 28

abbrev pub ar_hrd : ℕ → ℕ
ar_hrd a = a

abbrev pub ar_pro : ℕ → ℕ
ar_pro a = a + 2

abbrev pub ar_hln : ℕ → ℕ
ar_hln a = a + 4

abbrev pub ar_pln : ℕ → ℕ
ar_pln a = a + 5

abbrev pub ar_op : ℕ → ℕ
ar_op a = a + 6

abbrev pub ar_sha : ℕ → ℕ
ar_sha a = a + 8

abbrev pub ar_sip : ℕ → ℕ
ar_sip a = a + 14

abbrev pub ar_tha : ℕ → ℕ
ar_tha a = a + 18

abbrev pub ar_tip : ℕ → ℕ
ar_tip a = a + 24

abbrev pub arp_hrd_ethernet : ℕ
arp_hrd_ethernet = 0x0001

abbrev pub arp_op_request : ℕ
arp_op_request = 0x0001

abbrev pub arp_op_reply : ℕ
arp_op_reply = 0x0002
