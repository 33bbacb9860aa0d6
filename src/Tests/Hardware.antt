-- ===== src/Tests/Hardware.antt =====
-- A description of one interface, and a session that starts with it.
use nw_proj.Base.{◌≡◌, refl, arith, List, [], ◌∷◌, ◌++◌, map, replicate, true}
use nw_proj.Memory.Place.{place, big_endian, slice}
use nw_proj.Instance.{Iface, RtEntry, ok}
use nw_proj.Outcomes.{Safe}
use nw_proj.Vns.{framed}
use nw_proj.Server.{Message}
use nw_proj.Hardware.{sr_handle_hwinfo}
use nw_proj.Hardware.Laws.{Description, described}
use nw_proj.Hardware.Message.{
  IsDescription, hwinfo_body, entries_bytes, entry_bytes, sr_handle_hwinfo-described,
}
use nw_proj.Tests.Scene.{bytes_of, bytes_of-IsBytes, eth, eth1, env, route, transit_bytes}

-- The name eth1, its hardware address 02:00:00:00:00:01, and 192.168.2.1.
abbrev description : Description
description = record {
  name = bytes_of (eth 1);
  ether = bytes_of (2 ∷ 0 ∷ 0 ∷ 0 ∷ 0 ∷ 1 ∷ []);
  eth_ip = bytes_of (192 ∷ 168 ∷ 2 ∷ 1 ∷ []);
}

description-IsDescription : IsDescription description
description-IsDescription = record {
  name = bytes_of-IsBytes (eth 1) (omega arith);
  ether = bytes_of-IsBytes (2 ∷ 0 ∷ 0 ∷ 0 ∷ 0 ∷ 1 ∷ []) (omega arith);
  eth_ip = bytes_of-IsBytes (192 ∷ 168 ∷ 2 ∷ 1 ∷ []) (omega arith);
}

sr_handle_hwinfo-described_example :
    sr_handle_hwinfo
      (λ _. 0)
      (place (λ _. 7) 0 (framed (hwinfo_body (description ∷ []))))
      (eth1 ∷ [])
    ≡ ok (eth1 ∷ [] ++ map (described (λ _. 0)) (description ∷ []))
sr_handle_hwinfo-described_example =
    sr_handle_hwinfo-described (λ _. 0) (λ _. 7) (description ∷ []) (eth1 ∷ [])
      (description-IsDescription, tt) (omega arith)

-- The message byte by byte, as the server sends it.
hwinfo_sent : framed (hwinfo_body (description ∷ [])) ≡ (
    (0 ∷ 0 ∷ 0 ∷ 116 ∷ 0 ∷ 0 ∷ 0 ∷ 16 ∷ [])
    ++ ((0 ∷ 0 ∷ 0 ∷ 1 ∷ eth 1)
        ++ (replicate 28 0
            ++ ((0 ∷ 0 ∷ 0 ∷ 32 ∷ 2 ∷ 0 ∷ 0 ∷ 0 ∷ 0 ∷ 1 ∷ [])
                ++ (replicate 26 0
                    ++ ((0 ∷ 0 ∷ 0 ∷ 64 ∷ 192 ∷ 168 ∷ 2 ∷ 1 ∷ []) ++ replicate 28 0))))))
unfolding framed hwinfo_body big_endian entries_bytes entry_bytes slice
hwinfo_sent = refl

abbrev hwinfo_message : Message
hwinfo_message = record {
  buf = place (λ _. 0) 0 (framed (hwinfo_body (description ∷ [])));
  len = 116;
  env = env;
  rtable_written = true;
  auth_replied = true;
}

abbrev frame_message : Message
frame_message = record {
  buf = bytes_of (
      (0 ∷ 0 ∷ 0 ∷ 66 ∷ 0 ∷ 0 ∷ 0 ∷ 4 ∷ eth 1)
      ++ (0 ∷ 0 ∷ 0 ∷ 0 ∷ 0 ∷ 0 ∷ 0 ∷ 0 ∷ 0 ∷ 0 ∷ 0 ∷ 0 ∷ transit_bytes));
  len = 66;
  env = env;
  rtable_written = true;
  auth_replied = true;
}

abbrev interfaces : List Iface
interfaces = map (described (λ _. 0)) (description ∷ [])

abbrev table : List RtEntry
table = route 192 168 2 1 ∷ []
