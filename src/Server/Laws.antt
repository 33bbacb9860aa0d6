-- ===== src/Server/Laws.antt =====
-- A session with the server: what the messages make of the router.
use nw_proj.Base.{◌<◌, ◌||◌, ◌≤◌, if◌then◌else◌, ℕ, ◌≡◌, ◌≢◌, Bool, ◌==◌, some, List, true}
use nw_proj.Memory.{load16, load32, htons}
use nw_proj.Protocol.{ether_type, ethertype_ip, ip_src}
use nw_proj.Instance.{Iface, RtEntry, Sr}
use nw_proj.Outcomes.{Safe}
use nw_proj.Interfaces.{sr_get_interface}
use nw_proj.Routing.{sr_verify_routing_table}
use nw_proj.Send.{sizeof_packet_header, vnspacket}
use nw_proj.Icmp.{i_hdr}
use nw_proj.ArpRequest.Safe.{HasRoute, IsHealthy}
use nw_proj.Server.{
  Message, Reply, command_of, frame_of, frame_len, interface_of, vnshwinfo, vnsclose, vnsbanner,
  sizeof_rtable, vns_rtable, vns_auth_status, Loop, state_of,
}

-- The length of the fixed part of a message that is read of it, behind which a text may stand.
abbrev pub fixed_part : ℕ → ℕ
fixed_part command =
    if command == vnspacket
    then sizeof_packet_header
    else if command == vns_rtable
    then sizeof_rtable
    else if command == vns_auth_status
    then 9
    else 8

-- A text that is printed stands behind the fixed part, and a zero ends it within the message.
abbrev pub prints_text : ℕ → Bool
prints_text command =
    (command == vnsclose) || ((command == vnsbanner) || (command == vns_auth_status))

pub record EndsText (m : Message) : Type 0 where
  pub place : ℕ
  pub behind : fixed_part (command_of m.buf) ≤ place
  pub within : place < m.len
  pub ends : m.buf place ≡ 0

-- A message after the hardware information. It has the fixed part of its type, and ends the text
-- that is printed of it. A frame is on an interface that exists; if it is an IP datagram, it has the
-- 42 bytes up to which an ICMP error quotes it, and its source has a route.
pub record IsAdmissible (is : List Iface) (routes : List RtEntry) (m : Message) : Type 0 where
  pub no_hwinfo : command_of m.buf ≢ vnshwinfo
  pub whole : fixed_part (command_of m.buf) ≤ m.len
  pub text : prints_text (command_of m.buf) ≡ true → EndsText m
  pub quotable :
      command_of m.buf ≡ vnspacket
      → load16 (frame_of m.buf) (ether_type 0) ≡ htons ethertype_ip
      → 42 ≤ frame_len m.len
  pub link :
      command_of m.buf ≡ vnspacket
      → (ifc : Iface) × (sr_get_interface is (interface_of m.buf) ≡ some ifc)
  pub source :
      command_of m.buf ≡ vnspacket
      → load16 (frame_of m.buf) (ether_type 0) ≡ htons ethertype_ip
      → HasRoute routes (load32 (frame_of m.buf) (ip_src i_hdr))

module _ (is : List Iface) (routes : List RtEntry)
    (verified : sr_verify_routing_table is routes ≡ 0) (fuel : ℕ) where
  abbrev HealthyReply : Sr × Reply → Type 0
  HealthyReply after = IsHealthy is routes after.0

  abbrev HealthyLoop : Loop → Type 0
  HealthyLoop l = IsHealthy is routes (state_of l)
