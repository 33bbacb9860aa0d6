-- ===== src/Tests/Accepted.antt =====
-- Frames of the scene that sr_handlepacket lets in.
use nw_proj.Base.{refl, arith}
use nw_proj.Memory.{load16, htons}
use nw_proj.Memory.Laws.{IsBytes}
use nw_proj.Checksum.Words.{word_sum}
use nw_proj.Handler.Accept.{IsAccepted}
use nw_proj.Tests.Scene.{bytes_of-IsBytes}
use nw_proj.Tests.Scene.{
  transit, transit_bytes, last_hop, last_hop_bytes, for_router, for_router_bytes, unrouted,
  unrouted_bytes, ping, ping_bytes, stranger_udp, stranger_udp_bytes, from_block, from_block_bytes,
  arp_question, arp_question_bytes, arp_answer, arp_answer_bytes,
}

pub transit-IsBytes : IsBytes transit
transit-IsBytes = bytes_of-IsBytes transit_bytes (omega arith)

pub last_hop-IsBytes : IsBytes last_hop
last_hop-IsBytes = bytes_of-IsBytes last_hop_bytes (omega arith)

pub for_router-IsBytes : IsBytes for_router
for_router-IsBytes = bytes_of-IsBytes for_router_bytes (omega arith)

pub unrouted-IsBytes : IsBytes unrouted
unrouted-IsBytes = bytes_of-IsBytes unrouted_bytes (omega arith)

pub ping-IsBytes : IsBytes ping
ping-IsBytes = bytes_of-IsBytes ping_bytes (omega arith)

pub stranger_udp-IsBytes : IsBytes stranger_udp
stranger_udp-IsBytes = bytes_of-IsBytes stranger_udp_bytes (omega arith)

pub from_block-IsBytes : IsBytes from_block
from_block-IsBytes = bytes_of-IsBytes from_block_bytes (omega arith)

pub arp_question-IsBytes : IsBytes arp_question
arp_question-IsBytes = bytes_of-IsBytes arp_question_bytes (omega arith)

pub arp_answer-IsBytes : IsBytes arp_answer
arp_answer-IsBytes = bytes_of-IsBytes arp_answer_bytes (omega arith)

pub transit-IsAccepted : IsAccepted transit 42
unfolding load16 htons word_sum
transit-IsAccepted = record {
  long = omega arith;
  is_ip = refl;
  version = refl;
  checksum = (refl, omega arith);
  open_addresses = ground arith;
}

pub last_hop-IsAccepted : IsAccepted last_hop 42
unfolding load16 htons word_sum
last_hop-IsAccepted = record {
  long = omega arith;
  is_ip = refl;
  version = refl;
  checksum = (refl, omega arith);
  open_addresses = ground arith;
}

pub for_router-IsAccepted : IsAccepted for_router 42
unfolding load16 htons word_sum
for_router-IsAccepted = record {
  long = omega arith;
  is_ip = refl;
  version = refl;
  checksum = (refl, omega arith);
  open_addresses = ground arith;
}

pub unrouted-IsAccepted : IsAccepted unrouted 42
unfolding load16 htons word_sum
unrouted-IsAccepted = record {
  long = omega arith;
  is_ip = refl;
  version = refl;
  checksum = (refl, omega arith);
  open_addresses = ground arith;
}

pub ping-IsAccepted : IsAccepted ping 42
unfolding load16 htons word_sum
ping-IsAccepted = record {
  long = omega arith;
  is_ip = refl;
  version = refl;
  checksum = (refl, omega arith);
  open_addresses = ground arith;
}

pub stranger_udp-IsAccepted : IsAccepted stranger_udp 42
unfolding load16 htons word_sum
stranger_udp-IsAccepted = record {
  long = omega arith;
  is_ip = refl;
  version = refl;
  checksum = (refl, omega arith);
  open_addresses = ground arith;
}
