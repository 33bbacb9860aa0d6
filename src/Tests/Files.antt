-- ===== src/Tests/Files.antt =====
-- A table's file, a log and an authentication.
use nw_proj.Base.{
  ℕ, ◌+◌, ◌-◌, ◌*◌, ◌≡◌, refl, arith, Bool, true, false, ◌&&◌, not, Option, none, some, List, [],
  ◌∷◌, ◌++◌, map, length, All, ltb, leb, ◌==◌, if◌then◌else◌,
}
use nw_proj.Memory.{Bytes, load32, htonl}
use nw_proj.Text.{Text, fgets, take_line}
use nw_proj.Instance.{ok}
use nw_proj.Vns.{framed}
use nw_proj.Routing.Load.{Fields, addresses, is_space, sr_load_rt}
use nw_proj.Routing.Load.Words.{IsWord, IsLine, line_of}
use nw_proj.Routing.Load.Table.{Route, IsRoute, entry_of, file_of, sr_load_rt_lem}
use nw_proj.Log.{packet_dump_size, sr_dump_open}
use nw_proj.Log.Reader.{Logged, record_of, log_packets, read_log, read_log-log_packets}
use nw_proj.Auth.{AuthAnswers, sr_handle_auth_request}
use nw_proj.Auth.Reply.{auth_reply_body, sr_handle_auth_request-framed}
use nw_proj.Tests.Scene.{bytes_of, eth, addr}

-- Numbers with dots between them.
unfoldable pub aton_from : ℕ → ℕ → Text → Option ℕ
aton_from unit byte [] = some (unit * byte)
aton_from unit byte (c ∷ cs) =
    let digit = aton_from unit (10 * byte + (c - 48)) cs in
    let next = aton_from (unit * 256) 0 cs in
    if c == 46
    then elim next [ none ↦ none | some n ↦ some (unit * byte + n) ]
    else if leb 48 c && leb c 57
    then digit
    else none

abbrev pub aton : Text → Option ℕ
aton s = aton_from 1 0 s

abbrev is_plain : Text → Bool
is_plain [] = true
is_plain (c ∷ cs) = let rest = is_plain cs in not (c == 0) && (not (is_space c) && rest)

abbrev is_word : Text → Bool
is_word w = not (length w == 0) && (ltb (length w) 32 && is_plain w)

is_plain-All : (w : Text) → is_plain w ≡ true → All (λ c. (c == 0) ≡ false × is_space c ≡ false) w
is_plain-All [] h = tt
is_plain-All (c ∷ cs) h = ((ground arith, ground arith), is_plain-All cs (ground arith))

pub is_word-IsWord : (w : Text) → is_word w ≡ true → IsWord w
is_word-IsWord w h = record {
  nonempty = ground arith;
  short = ground arith;
  plain = is_plain-All w (ground arith);
}

-- "10.0.1.0 10.0.1.0 255.255.255.0 eth3", and one that is not a route.
abbrev net : Text
net = 49 ∷ 48 ∷ 46 ∷ 48 ∷ 46 ∷ 49 ∷ 46 ∷ 48 ∷ []

abbrev mask : Text
mask = 50 ∷ 53 ∷ 53 ∷ 46 ∷ 50 ∷ 53 ∷ 53 ∷ 46 ∷ 50 ∷ 53 ∷ 53 ∷ 46 ∷ 48 ∷ []

abbrev pub lan : Route
lan = record {
  text = record { dest = net; gw = net; mask = mask; iface = eth 3 };
  dest = addr 10 0 1 0;
  gw = addr 10 0 1 0;
  mask = addr 255 255 255 0;
}

abbrev heading : Fields
heading = record { dest = eth 1; gw = net; mask = mask; iface = eth 3 }

abbrev pub arrays : Fields
arrays = record { dest = []; gw = []; mask = []; iface = [] }

heading-IsLine : IsLine heading
heading-IsLine = record {
  dest = is_word-IsWord (eth 1) refl;
  gw = is_word-IsWord net refl;
  mask = is_word-IsWord mask refl;
  iface = is_word-IsWord (eth 3) refl;
}

pub lan-IsRoute : IsRoute aton lan
unfolding addresses aton_from
lan-IsRoute = record {
  line = record {
    dest = is_word-IsWord net refl;
    gw = is_word-IsWord net refl;
    mask = is_word-IsWord mask refl;
    iface = is_word-IsWord (eth 3) refl;
  };
  addrs = refl;
}

sr_load_rt_lem_example :
    (sr_load_rt aton arrays (some (file_of (lan ∷ []))) [] ≡ ok (map entry_of (lan ∷ []), true))
    × (sr_load_rt aton arrays (some (file_of (lan ∷ []) ++ (line_of heading ++ (120 ∷ [])))) []
        ≡ ok (map entry_of (lan ∷ []), false))
unfolding addresses aton_from
sr_load_rt_lem_example =
    sr_load_rt_lem aton arrays lan [] heading (120 ∷ []) [] (lan-IsRoute, tt) heading-IsLine refl

abbrev logged : List Logged
logged =
    record { sec = 100; usec = 5; buf = bytes_of (1 ∷ 2 ∷ 3 ∷ []); len = 3 }
    ∷ record { sec = 101; usec = 7; buf = bytes_of (4 ∷ 5 ∷ []); len = 1500 }
    ∷ []

read_log-log_packets_example :
    (file : List ℕ) × (log_packets (sr_dump_open true (120 ∷ []) 0 packet_dump_size) logged
      ≡ some file)
    × (read_log 2 file ≡ some (packet_dump_size, map record_of logged))
read_log-log_packets_example = read_log-log_packets (120 ∷ []) logged (
  record { sec = omega arith; usec = omega arith; len = omega arith },
  (record { sec = omega arith; usec = omega arith; len = omega arith }, tt),
)

-- A digest that only depends on the number of bytes.
abbrev pub sha1 : List ℕ → Option (List ℕ)
sha1 bytes = some (length bytes ∷ 2 ∷ 3 ∷ 4 ∷ 5 ∷ [])

abbrev pub auth_answers : AuthAnswers
auth_answers = record {
  key_file = some (107 ∷ 101 ∷ 121 ∷ 10 ∷ 120 ∷ []);
  key_array = λ _. 0;
  allocated = true;
  uninit = λ _. 0;
  sends_all = true;
}

-- A request with a salt of four bytes.
abbrev auth_request : Bytes
auth_request = bytes_of (0 ∷ 0 ∷ 0 ∷ 12 ∷ 0 ∷ 0 ∷ 0 ∷ 128 ∷ 1 ∷ 2 ∷ 3 ∷ 4 ∷ [])

sr_handle_auth_request-framed_example :
    sr_handle_auth_request sha1 auth_answers (118 ∷ 114 ∷ []) auth_request
    ≡ (some (framed (auth_reply_body (118 ∷ 114 ∷ []) (68 ∷ 2 ∷ 3 ∷ 4 ∷ 5 ∷ []))), 1)
unfolding fgets take_line nw_proj.Auth.auth_digest load32 htonl nw_proj.Memory.Place.slice
sr_handle_auth_request-framed_example =
    sr_handle_auth_request-framed sha1 auth_answers (118 ∷ 114 ∷ []) auth_request
      (107 ∷ 101 ∷ 121 ∷ 10 ∷ 120 ∷ []) (107 ∷ 101 ∷ 121 ∷ 10 ∷ []) (120 ∷ [])
      (68 ∷ 2 ∷ 3 ∷ 4 ∷ 5 ∷ []) (omega arith, (omega arith, tt)) refl refl refl refl refl
