-- ===== src/Send/Waiting.antt =====
-- Frames that may be sent later: those of an interface's own hardware address.
use nw_proj.Base.{ℕ, ◌+◌, ◌≤◌, ◌<◌, ◌≡◌, arith, ◌∙◌, some, List, ap}
use nw_proj.Memory.{Bytes, memcpy}
use nw_proj.Memory.Laws.{memcpy-outside, eq→same_bytes, memcpy-inside}
use nw_proj.Protocol.{sizeof_ethernet, ether_dhost, ether_addr_len}
use nw_proj.Text.{Text}
use nw_proj.Instance.{Iface, Packet, Frame, Sr, Env}
use nw_proj.Interfaces.{sr_get_interface}
use nw_proj.Interfaces.Laws.{sr_get_interface-strncpy}
use nw_proj.ArpCache.Queue.{waiting}
use nw_proj.Send.{message, sr_send_packet}
use nw_proj.Send.Laws.{wrote, sr_send_packet-sends}

-- The frame names an interface that exists and has its hardware address as the source.
pub record IsSendable (is : List Iface) (buf : Bytes) (len : ℕ) (iface : Text) : Type 0 where
  pub long : sizeof_ethernet ≤ len
  pub ifc : Iface
  pub found : sr_get_interface is iface ≡ some ifc
  pub own : (k : ℕ) → k < 6 → buf (6 + k) ≡ ifc.addr k

abbrev pub IsWaiting : List Iface → Packet → Type 0
IsWaiting is pck = IsSendable is pck.buf pck.len pck.iface

-- The copy that waits in a request may be sent if the frame may.
pub waiting-IsWaiting :
    (is : List Iface) (uninit buf : Bytes) (len : ℕ) (iface : Text)
    → IsSendable is buf len iface
    → IsWaiting is (waiting uninit buf len iface)
waiting-IsWaiting is uninit buf len iface s = record {
  long = s.long;
  ifc = s.ifc;
  found = sr_get_interface-strncpy is iface ∙ s.found;
  own = λ k h. memcpy-inside uninit buf len (6 + k) (omega (arith, s.long)) ∙ s.own k h;
}

-- A sendable frame is written once its destination is set.
pub sr_send_packet-IsSendable :
    (env : Env) (sr : Sr) (buf : Bytes) (len : ℕ) (iface : Text) (mac : Bytes)
    → IsSendable sr.if_list buf len iface
    → (sr_send_packet env sr (memcpy buf (ether_dhost 0) mac 0 ether_addr_len) len iface).0
      ≡ wrote sr (memcpy buf (ether_dhost 0) mac 0 ether_addr_len) len iface
sr_send_packet-IsSendable env sr buf len iface mac s =
    sr_send_packet-sends env sr (memcpy buf 0 mac 0 6) len iface s.ifc s.long s.found (
      eq→same_bytes (memcpy buf 0 mac 0 6) 6 s.ifc.addr 0 6 λ i h.
        memcpy-outside buf 0 mac 0 6 (6 + i) (omega arith)
        ∙ s.own i h
        ∙ ap s.ifc.addr (omega arith))

-- The message of a waiting packet, sent to `mac`.
abbrev pub released : Bytes → Packet → Frame
released mac pck = message (memcpy pck.buf (ether_dhost 0) mac 0 ether_addr_len) pck.len pck.iface
