-- ===== src/Server.antt =====
-- sr_read_from_server_expect of sr_vns_comm.c, once a whole message was received: its dispatch, and
-- the loop of sr_main.c around it, over messages. Whether the two requests that touch only files
-- and the socket succeed is part of the message here; Read computes it.
pub mod Laws
pub mod Receive
pub mod Framing
pub mod Refused
pub mod Read
pub mod Session
pub mod Start
use nw_proj.Base.{
  ℕ, ◌+◌, ◌-◌, ◌%◌, ◌^◌, Bool, true, false, not, ◌&&◌, ◌||◌, List, [], ◌∷◌, ◌==◌, if◌then◌else◌,
  ltb, some, none,
}
use nw_proj.Memory.{Bytes, load32, htonl}
use nw_proj.Text.{Text}
use nw_proj.Instance.{Iface, Sr, Env, Outcome, ok, crash, assertion, out_of_bounds, ◌>>=◌}
use nw_proj.Interfaces.{sr_get_interface}
use nw_proj.Routing.{sr_verify_routing_table}
use nw_proj.Send.{sizeof_packet_header, vnspacket, sr_arp_req_not_for_us}
use nw_proj.Hardware.{c_string, sr_handle_hwinfo}
use nw_proj.Handler.{sr_handlepacket}

abbrev pub vnsclose : ℕ
vnsclose = 2

abbrev pub vnsbanner : ℕ
vnsbanner = 8

abbrev pub vnshwinfo : ℕ
vnshwinfo = 16

abbrev pub vns_rtable : ℕ
vns_rtable = 32

abbrev pub vns_auth_request : ℕ
vns_auth_request = 128

abbrev pub vns_auth_status : ℕ
vns_auth_status = 512

-- c_rtable up to the table.
abbrev pub sizeof_rtable : ℕ
sizeof_rtable = 40

-- What the function returns: 1, 0 or -1.
pub data Reply : Type 0 where
  served : Reply
  closed : Reply
  failed : Reply

-- A message as received, and what the operating system answers while it is handled: whether the
-- routing table file could be written, and whether an authentication reply could be made and sent.
pub record Message : Type 0 where
  pub buf : Bytes
  pub len : ℕ
  pub env : Env
  pub rtable_written : Bool
  pub auth_replied : Bool

-- The type of the message, in host order.
abbrev pub command_of : Bytes → ℕ
command_of m = htonl (load32 m 4)

-- The frame of a VNSPACKET message, its length, an `unsigned int`, and its interface. The name is
-- compared on 32 characters at most, and ends with its field if it ends there.
abbrev pub frame_of : Bytes → Bytes
frame_of m i = m (sizeof_packet_header + i)

abbrev pub frame_len : ℕ → ℕ
frame_len len = (len + 2 ^ 32 - sizeof_packet_header) % 2 ^ 32

abbrev pub interface_of : Bytes → Text
interface_of m = c_string 32 (λ i. m (8 + i))

-- `ret = -1` where the handling failed.
abbrev pub reply_of : Bool → Reply
reply_of true = served
reply_of false = failed

-- A frame that is whole in its message.
unfoldable pub handle_frame : ℕ → Message → Sr → Outcome (Sr × Reply)
handle_frame fuel m sr = do
  other ← sr_arp_req_not_for_us sr.if_list (frame_of m.buf) (frame_len m.len) (interface_of m.buf)
  if other then ok (sr, served) else (do
    sr' ← sr_handlepacket m.env fuel sr (frame_of m.buf) (frame_len m.len) (interface_of m.buf)
    ok (sr', served))

-- In a message that is shorter than its header the length of the frame wraps to almost 2^32. It
-- passes the test of sr_arp_req_not_for_us, whose assertion fails if the interface is unknown; else
-- the frame is read behind the end of the block.
unfoldable pub handle_packet_message : ℕ → Message → Sr → Outcome (Sr × Reply)
handle_packet_message fuel m sr =
    if ltb m.len sizeof_packet_header
    then elim (sr_get_interface sr.if_list (interface_of m.buf)) [
      | none ↦ crash assertion
      | some ifc ↦ crash out_of_bounds
    ]
    else handle_frame fuel m sr

unfoldable pub handle_hwinfo_message : Message → Sr → Outcome (Sr × Reply)
handle_hwinfo_message m sr = do
  if_list ← sr_handle_hwinfo m.env.uninit m.buf sr.if_list
  ok (
    record sr { if_list = if_list },
    reply_of (sr_verify_routing_table if_list sr.routing_table == 0),
  )

-- The table of a message that is shorter than its header has a length of almost 2^32, and is read
-- behind the end of the block once the file is open.
unfoldable pub handle_rtable_message : Message → Sr → Outcome (Sr × Reply)
handle_rtable_message m sr =
    if m.rtable_written && ltb m.len sizeof_rtable
    then crash out_of_bounds
    else ok (sr, reply_of m.rtable_written)

-- `auth_ok` stands behind the type.
unfoldable pub handle_auth_status_message : Message → Sr → Outcome (Sr × Reply)
handle_auth_status_message m sr =
    if ltb m.len 9 then crash out_of_bounds else ok (sr, reply_of (not (m.buf 8 == 0)))

-- The switch, after the test for the command that is expected, which 0 turns off.
unfoldable pub handle_command : ℕ → ℕ → Message → Sr → Outcome (Sr × Reply)
handle_command fuel expected_cmd m sr =
    let command = command_of m.buf in
    if not (expected_cmd == 0) && (not (command == expected_cmd) && not (command == vnsclose))
    then ok (sr, failed)
    else if command == vnspacket
    then handle_packet_message fuel m sr
    else if command == vnsclose
    then ok (sr, closed)
    else if command == vnshwinfo
    then handle_hwinfo_message m sr
    else if command == vns_rtable
    then handle_rtable_message m sr
    else if command == vns_auth_request
    then ok (sr, reply_of m.auth_replied)
    else if command == vns_auth_status
    then handle_auth_status_message m sr
    else ok (sr, served)

-- Where the loop of main stands: it calls the function again, or was left.
pub data Loop : Type 0 where
  running : Sr → Loop
  finished : Sr → Loop

abbrev pub state_of : Loop → Sr
state_of (running sr) = sr
state_of (finished sr) = sr

-- `while (sr_read_from_server(sr) == 1)`, over the messages that come. Behind the last of them the
-- loop still runs.
unfoldable pub serve : ℕ → List Message → Sr → Outcome Loop
serve fuel [] sr = ok (running sr)
serve fuel (m ∷ ms) sr = do
  after ← handle_command fuel 0 m sr
  elim after.1 [
    | served ↦ serve fuel ms after.0
    | closed ↦ ok (finished after.0)
    | failed ↦ ok (finished after.0)
  ]
