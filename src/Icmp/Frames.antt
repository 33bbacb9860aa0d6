-- ===== src/Icmp/Frames.antt =====
-- ICMP error messages as frames on a link.
use nw_proj.Interfaces.{sr_get_interface}
use nw_proj.Send.Waiting.{IsSendable}
use nw_proj.Base.{ℕ, ◌+◌, ◌^◌, ◌<◌, ◌≡◌, arith, ◌∙◌, List, some, ◌-◌}
use nw_proj.Memory.{Bytes, memcpy}
use nw_proj.Memory.Laws.{IsBytes, memcpy-outside, memcpy-inside}
use nw_proj.Instance.{Iface, ArpEntry, Env}
use nw_proj.Icmp.{error_len, host_unreachable_packet}
use nw_proj.Text.{Text}
use nw_proj.Icmp.Parts.{IsIcmpError}
use nw_proj.Icmp.Laws.{IsIcmpError-memcpy}

-- The message in `frame`, between the hardware addresses of a hop.
pub record IsErrorFrame (type code : ℕ) (ifc : Iface) (entry : ArpEntry) (p frame : Bytes)
    : Type 0 where
  pub message : IsIcmpError type code ifc.ip p frame
  pub to_source : (k : ℕ) → k < 6 → frame k ≡ entry.mac k
  pub from_interface : (k : ℕ) → k < 6 → frame (6 + k) ≡ ifc.addr k

-- The router's memory, its interface's address and the packet hold bytes.
pub record AreBytes (env : Env) (ifc : Iface) (p : Bytes) : Type 0 where
  pub fresh : IsBytes env.uninit
  pub mac : IsBytes ifc.addr
  pub ip : ifc.ip < 2 ^ 32
  pub packet : IsBytes p

pub IsErrorFrame-memcpy :
    (type code : ℕ) (ifc : Iface) (entry : ArpEntry) (p frame : Bytes)
    → IsIcmpError type code ifc.ip p frame
    → ((k : ℕ) → k < 6 → frame (6 + k) ≡ ifc.addr k)
    → IsErrorFrame type code ifc entry p (memcpy frame 0 entry.mac 0 6)
IsErrorFrame-memcpy type code ifc entry p frame e own = record {
  message = IsIcmpError-memcpy type code ifc.ip p frame entry.mac e;
  to_source = memcpy-inside frame entry.mac 6;
  from_interface = λ k h. memcpy-outside frame 0 entry.mac 0 6 (6 + k) (omega arith) ∙ own k h;
}

pub host_unreachable_packet-shost :
    (uninit : Bytes) (ifc : Iface) (p : Bytes) (k : ℕ)
    → k < 6
    → host_unreachable_packet uninit ifc p (6 + k) ≡ ifc.addr k
unfolding host_unreachable_packet memcpy
host_unreachable_packet-shost uninit ifc p k h = ground (arith, at_six k)
  where
    at_six : (j : ℕ) → 0 + (6 + j - 6) ≡ j
    at_six j = omega arith

-- The host unreachable message may be sent on its interface.
pub host_unreachable-IsSendable :
    (is : List Iface) (uninit buf : Bytes) (iface : Text) (ifc : Iface)
    → sr_get_interface is iface ≡ some ifc
    → IsSendable is (host_unreachable_packet uninit ifc buf) error_len iface
host_unreachable-IsSendable is uninit buf iface ifc found = record {
  long = omega arith;
  ifc = ifc;
  found = found;
  own = host_unreachable_packet-shost uninit ifc buf;
}
