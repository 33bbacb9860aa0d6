-- ===== src/Instance.antt =====
-- The structs of sr_if.h, sr_rt.h, sr_arpcache.h and sr_router.h, and what a run ends in.
-- A linked list that owns its nodes is a list. The nodes of the ARP request queue are pointed at
-- from elsewhere, so each carries its address: an access by address finds the node in the queue,
-- or is a fault. `calloc` returns an address that was not in use before.
use nw_proj.Base.{ℕ, Bool, List, Option}
use nw_proj.Memory.{Bytes}
use nw_proj.Text.{Text}

-- struct sr_if. Addresses are in network order, as loaded by the host.
pub record Iface : Type 0 where
  pub name : Text
  pub addr : Bytes
  pub ip : ℕ
  pub speed : ℕ

-- struct sr_rt
pub record RtEntry : Type 0 where
  pub dest : ℕ
  pub gw : ℕ
  pub mask : ℕ
  pub interface : Text

-- struct sr_packet
pub record Packet : Type 0 where
  pub buf : Bytes
  pub len : ℕ
  pub iface : Text

-- struct sr_arpentry
pub record ArpEntry : Type 0 where
  pub mac : Bytes
  pub ip : ℕ
  pub added : ℕ
  pub valid : Bool

-- struct sr_arpreq, at its address
pub record ArpReq : Type 0 where
  pub address : ℕ
  pub ip : ℕ
  pub sent : ℕ
  pub times_sent : ℕ
  pub packets : List Packet

-- struct sr_arpcache, and the address that the next `calloc` of a request returns
pub record ArpCache : Type 0 where
  pub entries : List ArpEntry
  pub requests : List ArpReq
  pub next_address : ℕ

-- A message of sr_send_packet: c_packet_header and the Ethernet frame behind it.
pub record Frame : Type 0 where
  pub m_len : ℕ
  pub m_type : ℕ
  pub m_interface_name : Text
  pub buf : Bytes
  pub len : ℕ

-- struct sr_instance. `written` holds the messages handed to `write` on `sockfd`, oldest first.
pub record Sr : Type 0 where
  pub if_list : List Iface
  pub routing_table : List RtEntry
  pub cache : ArpCache
  pub written : List Frame

-- What the operating system answers during a call: the reading of `time`, whether `write` takes
-- a whole message, and what `malloc`ed memory holds.
pub record Env : Type 0 where
  pub now : ℕ
  pub writes_all : Frame → Bool
  pub uninit : Bytes

pub data Fault : Type 0 where
  -- a null pointer is followed
  null_pointer : Fault
  -- a request is accessed after it was freed
  use_after_free : Fault
  -- an `assert` fails
  assertion : Fault
  -- memory past the end of a block or of an array is written
  out_of_bounds : Fault

pub data Outcome {ℓ} (A : Type ℓ) : Type ℓ where
  ok : A → Outcome A
  crash : Fault → Outcome A
  out_of_fuel : Outcome A

infixl 5 ◌>>=◌
abbrev pub ◌>>=◌ {ℓ κ} : {A : Type ℓ} {B : Type κ} → Outcome A → (A → Outcome B) → Outcome B
ok a >>= f = f a
crash e >>= f = crash e
out_of_fuel >>= f = out_of_fuel

-- Following a pointer that may be null.
abbrev pub deref {ℓ} : {A : Type ℓ} → Option A → Outcome A
deref Option.none = crash null_pointer
deref (Option.some a) = ok a
