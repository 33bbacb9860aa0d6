-- ===== src/Tests/Scene.antt =====
-- A router of three interfaces, a client at eth1 and a server at eth2, and frames for it.
use nw_proj.Base.{ℕ, zero, suc, ◌+◌, ◌*◌, ◌<◌, arith, true, false, List, [], ◌∷◌, All, replicate}
use nw_proj.Memory.{Bytes}
use nw_proj.Memory.Laws.{IsBytes}
use nw_proj.Text.{Text}
use nw_proj.Instance.{Iface, RtEntry, ArpEntry, ArpCache, Sr, Env}

-- The bytes of a list, and zeros behind them.
abbrev pub bytes_of : List ℕ → Bytes
bytes_of [] i = 0
bytes_of (b ∷ bs) zero = b
bytes_of (b ∷ bs) (suc i) = bytes_of bs i

abbrev pub IsByte : ℕ → Type 0
IsByte b = b < 256

pub bytes_of-IsBytes : (bs : List ℕ) → All IsByte bs → IsBytes (bytes_of bs)
bytes_of-IsBytes [] h i = omega arith
bytes_of-IsBytes (b ∷ bs) h zero = h.0
bytes_of-IsBytes (b ∷ bs) h (suc i) = bytes_of-IsBytes bs h.1 i

-- An address in network order, as the host loads it.
abbrev pub addr : ℕ → ℕ → ℕ → ℕ → ℕ
addr a b c d = a + 256 * b + 65536 * c + 16777216 * d

abbrev pub eth : ℕ → Text
eth n = 101 ∷ 116 ∷ 104 ∷ (48 + n) ∷ []

abbrev pub mac : ℕ → ℕ → Bytes
mac a b = bytes_of (2 ∷ 0 ∷ 0 ∷ 0 ∷ a ∷ b ∷ [])

pub mac-IsBytes : (a b : ℕ) → a < 256 → b < 256 → IsBytes (mac a b)
mac-IsBytes a b a_lt b_lt = bytes_of-IsBytes (2 ∷ 0 ∷ 0 ∷ 0 ∷ a ∷ b ∷ []) (omega arith)

abbrev pub eth1 : Iface
eth1 = record { name = eth 1; addr = mac 0 1; ip = addr 192 168 2 1; speed = 0 }

abbrev pub eth2 : Iface
eth2 = record { name = eth 2; addr = mac 0 2; ip = addr 172 64 3 1; speed = 0 }

abbrev pub eth3 : Iface
eth3 = record { name = eth 3; addr = mac 0 3; ip = addr 10 0 1 1; speed = 0 }

abbrev pub route : ℕ → ℕ → ℕ → ℕ → RtEntry
route a b c n = record {
  dest = addr a b c 0;
  gw = addr a b c 0;
  mask = addr 255 255 255 0;
  interface = eth n;
}

abbrev pub entry : ℕ → ℕ → ℕ → ArpEntry
entry ip a b = record { mac = mac a b; ip = ip; added = 100; valid = true }

abbrev pub blank : ArpEntry
blank = record { mac = λ _. 0; ip = 0; added = 0; valid = false }

-- Only the client's hardware address is known.
abbrev pub cold : ArpCache
cold = record {
  entries = entry (addr 192 168 2 2) 1 2 ∷ replicate 99 blank;
  requests = [];
  next_address = 1;
}

-- The server's is known too.
abbrev pub warm : ArpCache
warm = record cold {
  entries = entry (addr 192 168 2 2) 1 2 ∷ entry (addr 172 64 3 10) 2 10 ∷ replicate 98 blank;
}

abbrev pub router : ArpCache → Sr
router cache = record {
  if_list = eth1 ∷ eth2 ∷ eth3 ∷ [];
  routing_table = route 192 168 2 1 ∷ route 172 64 3 2 ∷ route 10 0 1 3 ∷ [];
  cache = cache;
  written = [];
}

abbrev pub env : Env
env = record { now = 110; writes_all = λ _. true; uninit = λ _. 0 }

-- A UDP datagram from the client to the server.
abbrev pub transit_bytes : List ℕ
transit_bytes =
    2 ∷ 0 ∷ 0 ∷ 0 ∷ 0 ∷ 1 ∷ 2 ∷ 0 ∷ 0 ∷ 0 ∷ 1 ∷ 2 ∷ 8 ∷ 0 ∷ 69 ∷ 0 ∷ 0 ∷ 28 ∷ 0 ∷ 1 ∷ 0 ∷ 0 ∷ 64
    ∷ 17 ∷ 8 ∷ 220 ∷ 192 ∷ 168 ∷ 2 ∷ 2 ∷ 172 ∷ 64 ∷ 3 ∷ 10 ∷ 48 ∷ 57 ∷ 0 ∷ 53 ∷ 0 ∷ 8 ∷ 0 ∷ 0 ∷ []

abbrev pub transit : Bytes
transit = bytes_of transit_bytes

-- The same with time to live 1.
abbrev pub last_hop_bytes : List ℕ
last_hop_bytes =
    2 ∷ 0 ∷ 0 ∷ 0 ∷ 0 ∷ 1 ∷ 2 ∷ 0 ∷ 0 ∷ 0 ∷ 1 ∷ 2 ∷ 8 ∷ 0 ∷ 69 ∷ 0 ∷ 0 ∷ 28 ∷ 0 ∷ 1 ∷ 0 ∷ 0 ∷ 1 ∷ 17
    ∷ 71 ∷ 220 ∷ 192 ∷ 168 ∷ 2 ∷ 2 ∷ 172 ∷ 64 ∷ 3 ∷ 10 ∷ 48 ∷ 57 ∷ 0 ∷ 53 ∷ 0 ∷ 8 ∷ 0 ∷ 0 ∷ []

abbrev pub last_hop : Bytes
last_hop = bytes_of last_hop_bytes

-- UDP from the client to eth1.
abbrev pub for_router_bytes : List ℕ
for_router_bytes =
    2 ∷ 0 ∷ 0 ∷ 0 ∷ 0 ∷ 1 ∷ 2 ∷ 0 ∷ 0 ∷ 0 ∷ 1 ∷ 2 ∷ 8 ∷ 0 ∷ 69 ∷ 0 ∷ 0 ∷ 28 ∷ 0 ∷ 1 ∷ 0 ∷ 0 ∷ 64
    ∷ 17 ∷ 245 ∷ 124 ∷ 192 ∷ 168 ∷ 2 ∷ 2 ∷ 192 ∷ 168 ∷ 2 ∷ 1 ∷ 48 ∷ 57 ∷ 0 ∷ 53 ∷ 0 ∷ 8 ∷ 0 ∷ 0 ∷ []

abbrev pub for_router : Bytes
for_router = bytes_of for_router_bytes

-- UDP from the client to an address without a route.
abbrev pub unrouted_bytes : List ℕ
unrouted_bytes =
    2 ∷ 0 ∷ 0 ∷ 0 ∷ 0 ∷ 1 ∷ 2 ∷ 0 ∷ 0 ∷ 0 ∷ 1 ∷ 2 ∷ 8 ∷ 0 ∷ 69 ∷ 0 ∷ 0 ∷ 28 ∷ 0 ∷ 1 ∷ 0 ∷ 0 ∷ 64
    ∷ 17 ∷ 166 ∷ 20 ∷ 192 ∷ 168 ∷ 2 ∷ 2 ∷ 9 ∷ 9 ∷ 9 ∷ 9 ∷ 48 ∷ 57 ∷ 0 ∷ 53 ∷ 0 ∷ 8 ∷ 0 ∷ 0 ∷ []

abbrev pub unrouted : Bytes
unrouted = bytes_of unrouted_bytes

-- An echo request from the client to eth1.
abbrev pub ping_bytes : List ℕ
ping_bytes =
    2 ∷ 0 ∷ 0 ∷ 0 ∷ 0 ∷ 1 ∷ 2 ∷ 0 ∷ 0 ∷ 0 ∷ 1 ∷ 2 ∷ 8 ∷ 0 ∷ 69 ∷ 0 ∷ 0 ∷ 28 ∷ 0 ∷ 1 ∷ 0 ∷ 0 ∷ 64 ∷ 1
    ∷ 245 ∷ 140 ∷ 192 ∷ 168 ∷ 2 ∷ 2 ∷ 192 ∷ 168 ∷ 2 ∷ 1 ∷ 8 ∷ 0 ∷ 247 ∷ 247 ∷ 0 ∷ 7 ∷ 0 ∷ 1 ∷ []

abbrev pub ping : Bytes
ping = bytes_of ping_bytes

-- UDP to eth1 from an address without a route.
abbrev pub stranger_udp_bytes : List ℕ
stranger_udp_bytes =
    2 ∷ 0 ∷ 0 ∷ 0 ∷ 0 ∷ 1 ∷ 2 ∷ 0 ∷ 0 ∷ 0 ∷ 1 ∷ 2 ∷ 8 ∷ 0 ∷ 69 ∷ 0 ∷ 0 ∷ 28 ∷ 0 ∷ 1 ∷ 0 ∷ 0 ∷ 64
    ∷ 17 ∷ 168 ∷ 23 ∷ 8 ∷ 8 ∷ 8 ∷ 8 ∷ 192 ∷ 168 ∷ 2 ∷ 1 ∷ 48 ∷ 57 ∷ 0 ∷ 53 ∷ 0 ∷ 8 ∷ 0 ∷ 0 ∷ []

abbrev pub stranger_udp : Bytes
stranger_udp = bytes_of stranger_udp_bytes

-- UDP from 10.0.2.100.
abbrev pub from_block_bytes : List ℕ
from_block_bytes =
    2 ∷ 0 ∷ 0 ∷ 0 ∷ 0 ∷ 1 ∷ 2 ∷ 0 ∷ 0 ∷ 0 ∷ 1 ∷ 2 ∷ 8 ∷ 0 ∷ 69 ∷ 0 ∷ 0 ∷ 28 ∷ 0 ∷ 1 ∷ 0 ∷ 0 ∷ 64
    ∷ 17 ∷ 191 ∷ 34 ∷ 10 ∷ 0 ∷ 2 ∷ 100 ∷ 172 ∷ 64 ∷ 3 ∷ 10 ∷ 48 ∷ 57 ∷ 0 ∷ 53 ∷ 0 ∷ 8 ∷ 0 ∷ 0 ∷ []

abbrev pub from_block : Bytes
from_block = bytes_of from_block_bytes

-- A datagram from the server's address to itself.
abbrev pub looped_bytes : List ℕ
looped_bytes =
    2 ∷ 0 ∷ 0 ∷ 0 ∷ 0 ∷ 1 ∷ 2 ∷ 0 ∷ 0 ∷ 0 ∷ 1 ∷ 2 ∷ 8 ∷ 0 ∷ 69 ∷ 0 ∷ 0 ∷ 28 ∷ 0 ∷ 1 ∷ 0 ∷ 0 ∷ 64
    ∷ 17 ∷ 28 ∷ 60 ∷ 172 ∷ 64 ∷ 3 ∷ 10 ∷ 172 ∷ 64 ∷ 3 ∷ 10 ∷ 48 ∷ 57 ∷ 0 ∷ 53 ∷ 0 ∷ 8 ∷ 0 ∷ 0 ∷ []

abbrev pub looped : Bytes
looped = bytes_of looped_bytes

-- The client asks for eth1.
abbrev pub arp_question_bytes : List ℕ
arp_question_bytes =
    255 ∷ 255 ∷ 255 ∷ 255 ∷ 255 ∷ 255 ∷ 2 ∷ 0 ∷ 0 ∷ 0 ∷ 1 ∷ 2 ∷ 8 ∷ 6 ∷ 0 ∷ 1 ∷ 8 ∷ 0 ∷ 6 ∷ 4 ∷ 0
    ∷ 1 ∷ 2 ∷ 0 ∷ 0 ∷ 0 ∷ 1 ∷ 2 ∷ 192 ∷ 168 ∷ 2 ∷ 2 ∷ 0 ∷ 0 ∷ 0 ∷ 0 ∷ 0 ∷ 0 ∷ 192 ∷ 168 ∷ 2 ∷ 1 ∷ []

abbrev pub arp_question : Bytes
arp_question = bytes_of arp_question_bytes

-- The server answers eth2.
abbrev pub arp_answer_bytes : List ℕ
arp_answer_bytes =
    2 ∷ 0 ∷ 0 ∷ 0 ∷ 0 ∷ 2 ∷ 2 ∷ 0 ∷ 0 ∷ 0 ∷ 2 ∷ 10 ∷ 8 ∷ 6 ∷ 0 ∷ 1 ∷ 8 ∷ 0 ∷ 6 ∷ 4 ∷ 0 ∷ 2 ∷ 2 ∷ 0
    ∷ 0 ∷ 0 ∷ 2 ∷ 10 ∷ 172 ∷ 64 ∷ 3 ∷ 10 ∷ 2 ∷ 0 ∷ 0 ∷ 0 ∷ 0 ∷ 2 ∷ 172 ∷ 64 ∷ 3 ∷ 1 ∷ []

abbrev pub arp_answer : Bytes
arp_answer = bytes_of arp_answer_bytes
