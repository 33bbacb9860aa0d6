-- ===== src/Send.antt =====
-- sr_send_packet of sr_vns_comm.c and the two checks beside it. The packet log, which only
-- reads the packet, is the subject of Log.
pub mod Laws
pub mod Waiting
use nw_proj.Base.{
  ℕ, ◌+◌, Bool, true, false, not, ◌&&◌, Option, none, some, List, [], ◌∷◌, ◌++◌, ◌==◌, ltb,
  if◌then◌else◌,
}
use nw_proj.Memory.{Bytes, load16, load32, htons, htonl, same_bytes}
use nw_proj.Protocol.{
  sizeof_ethernet, sizeof_arp, ether_shost, ether_type, ether_addr_len, ethertype_arp, ar_op,
  ar_tip, arp_op_request,
}
use nw_proj.Text.{Text, strncpy}
use nw_proj.Instance.{Iface, Frame, Sr, Env, Outcome, ok, crash, assertion}
use nw_proj.Interfaces.{sr_get_interface}

-- sizeof(c_packet_header)
abbrev pub sizeof_packet_header : ℕ
sizeof_packet_header = 24

abbrev pub vnspacket : ℕ
vnspacket = 4

unfoldable pub sr_ether_addrs_match_interface : List Iface → Bytes → Text → Bool
sr_ether_addrs_match_interface if_list buf name = elim (sr_get_interface if_list name) [
  | none ↦ false
  | some iface ↦ same_bytes buf (ether_shost 0) iface.addr 0 ether_addr_len
]

-- The message around a frame.
unfoldable pub message : Bytes → ℕ → Text → Frame
message buf len iface = record {
  m_len = htonl (len + sizeof_packet_header);
  m_type = htonl vnspacket;
  m_interface_name = strncpy 16 iface;
  buf = buf;
  len = len;
}

-- The result is true for the return value 0, and false for -1.
unfoldable pub sr_send_packet : Env → Sr → Bytes → ℕ → Text → Sr × Bool
sr_send_packet env sr buf len iface =
    if ltb len sizeof_ethernet
    then (sr, false)
    else if not (sr_ether_addrs_match_interface sr.if_list buf iface)
    then (sr, false)
    else (
      record sr { written = sr.written ++ message buf len iface ∷ [] },
      env.writes_all (message buf len iface),
    )

-- An ARP request for another router's address. `len` covers both headers if they are read; the
-- assertion on the interface comes after that test.
unfoldable pub sr_arp_req_not_for_us : List Iface → Bytes → ℕ → Text → Outcome Bool
sr_arp_req_not_for_us if_list packet len interface =
    if ltb len (sizeof_ethernet + sizeof_arp)
    then ok false
    else elim (sr_get_interface if_list interface) [
      | none ↦ crash assertion
      | some iface ↦ ok (
          load16 packet (ether_type 0) == htons ethertype_arp
          && (load16 packet (ar_op sizeof_ethernet) == htons arp_op_request
              && not (load32 packet (ar_tip sizeof_ethernet) == iface.ip)))
    ]
