-- ===== src/Tests/Program.antt =====
-- A run of the program, in pieces and as a whole.
use nw_proj.Base.{ℕ, ◌≡◌, refl, inl, arith, true, some, List, [], ◌∷◌, ◌++◌, map}
use nw_proj.Memory.Place.{big_endian}
use nw_proj.Text.{Text}
use nw_proj.Instance.{ok, ◌>>=◌}
use nw_proj.Vns.{framed}
use nw_proj.Routing.Load.Table.{entry_of, file_of}
use nw_proj.Run.{started}
use nw_proj.Server.{serve}
use nw_proj.Server.Receive.{Event, arrived, interrupted, overrun, receive_message}
use nw_proj.Server.Refused.{receive_message_out_of_bounds}
use nw_proj.Server.Read.{Answers, read_loop, message_of}
use nw_proj.Server.Session.{Sent, message_sent, stream_of, read_loop-serve}
use nw_proj.Connect.{Client, ConnectAnswers, opening}
use nw_proj.Connect.Template.{template_body, opening-framed}
use nw_proj.Auth.{sr_handle_auth_request, auth_digest}
use nw_proj.Text.{fgets, take_line}
use nw_proj.Server.Read.{message_of}
use nw_proj.Memory.{load32, htonl, store8}
use nw_proj.Memory.Place.{slice, place}
use nw_proj.Main.{
  Settings, MainAnswers, default_settings, main, set_option, read_options, client_of,
}
use nw_proj.Main.Session.{end_of, main-serve, IsSession}
use nw_proj.Tests.Scene.{env, router, cold, eth, transit_bytes}
use nw_proj.Tests.Files.{aton, sha1, auth_answers, lan, lan-IsRoute, arrays}

-- Three bytes, of which the length in two arrivals with a signal between them announces seven.
receive_message_out_of_bounds_example :
    receive_message
      (λ _. 0)
      true
      (arrived (0 ∷ 0 ∷ [])
        ∷ interrupted
        ∷ arrived (0 ∷ 7 ∷ 9 ∷ [])
        ∷ arrived (9 ∷ 9 ∷ 9 ∷ [])
        ∷ [])
    ≡ overrun
unfolding big_endian
receive_message_out_of_bounds_example =
    receive_message_out_of_bounds (λ _. 0) 7 (9 ∷ 9 ∷ 9 ∷ 9 ∷ []) _ (inl (omega arith))
      (omega arith) (λ _. omega arith) (record { unbroken = tt; bytes = refl })

abbrev user : Text
user = 118 ∷ 114 ∷ []

abbrev answers : Answers
answers = record { allocated = true; env = env; opens_rtable = true; auth = auth_answers }

-- A frame for eth1, and the end of the session.
abbrev frame_sent : Sent
frame_sent = record {
  body = (0 ∷ 0 ∷ 0 ∷ 4 ∷ eth 1) ++ (0 ∷ 0 ∷ 0 ∷ 0 ∷ 0 ∷ 0 ∷ 0 ∷ 0 ∷ 0 ∷ 0 ∷ 0 ∷ 0 ∷ transit_bytes);
  answers = answers;
}

abbrev close_sent : Sent
close_sent = record { body = 0 ∷ 0 ∷ 0 ∷ 2 ∷ []; answers = answers }

-- The two messages in three arrivals, the second of which ends one message and begins the next.
abbrev pieces : List Event
pieces =
    arrived (0 ∷ 0 ∷ [])
    ∷ interrupted
    ∷ arrived (0 ∷ 66 ∷ (frame_sent.body ++ (0 ∷ 0 ∷ 0 ∷ [])))
    ∷ arrived (8 ∷ 0 ∷ 0 ∷ 0 ∷ 2 ∷ [])
    ∷ []

read_loop-serve_example :
    read_loop sha1 user 3 (answers ∷ answers ∷ []) pieces (router cold)
    ≡ serve 3 (map (message_sent sha1 user) (frame_sent ∷ close_sent ∷ [])) (router cold)
unfolding framed big_endian stream_of
read_loop-serve_example =
    read_loop-serve sha1 user 3 (frame_sent ∷ close_sent ∷ []) pieces (router cold)
      (
        record { body = record { typed = omega arith; short = omega arith }; allocated = refl },
        (
          record { body = record { typed = omega arith; short = omega arith }; allocated = refl },
          tt,
        ),
      )
      (record { unbroken = tt; bytes = refl })

abbrev client : Client
client = record { user = user; host = 118 ∷ []; template = 116 ∷ []; topo_id = 3 }

opening-framed_example : opening (λ _. 7) client ≡ framed (template_body client)
opening-framed_example =
    opening-framed (λ _. 7) client (omega arith, tt) (omega arith, tt)
      (omega arith, (omega arith, tt))

abbrev connect_answers : ConnectAnswers
connect_answers = record {
  resolves = true;
  has_socket = true;
  connects = true;
  sends_all = true;
  uninit = λ _. 0;
  auth_request = answers;
  auth_status = answers;
  rtable = answers;
}

abbrev main_answers : MainAnswers
main_answers = record {
  login = some user;
  opens_log = true;
  files = λ _. some (file_of (lan ∷ []));
  later_files = λ _. some (file_of (lan ∷ []));
  arrays = arrays;
  connect = connect_answers;
  session = answers ∷ answers ∷ [];
}

-- `-r x -t 3`.
abbrev settings : Settings
settings = record default_settings { rtable = 120 ∷ []; topo = 3 }

abbrev request : List ℕ
request = 0 ∷ 0 ∷ 0 ∷ 128 ∷ 1 ∷ 2 ∷ 3 ∷ 4 ∷ []

abbrev status : List ℕ
status = 0 ∷ 0 ∷ 2 ∷ 0 ∷ 1 ∷ 111 ∷ 107 ∷ []

abbrev whole : List Event
whole =
    arrived (0 ∷ 0 ∷ 0 ∷ 12 ∷ request)
    ∷ arrived (0 ∷ 0 ∷ 0 ∷ 11 ∷ (status ++ (0 ∷ 0 ∷ 0 ∷ [])))
    ∷ arrived (66 ∷ (frame_sent.body ++ (0 ∷ 0 ∷ 0 ∷ 8 ∷ close_sent.body)))
    ∷ []

IsSession-granted :
    IsSession aton sha1 3 main_answers settings lan [] request status (frame_sent ∷ close_sent ∷ [])
unfolding big_endian client_of message_sent message_of sr_handle_auth_request fgets take_line
    auth_digest load32 htonl slice place store8 framed
IsSession-granted = record {
  no_template = refl;
  no_log = refl;
  file = refl;
  later_file = refl;
  routes = (lan-IsRoute, tt);
  granted = record { resolves = refl; has_socket = refl; connects = refl; sends_all = refl };
  asked = record {
    salt = 1 ∷ 2 ∷ 3 ∷ 4 ∷ [];
    is_request = refl;
    receivable = record {
      body = record { typed = omega arith; short = omega arith };
      allocated = refl;
    };
    replied = refl;
  };
  confirmed = record {
    flag = 1;
    text = 111 ∷ 107 ∷ [];
    is_status = refl;
    receivable = record {
      body = record { typed = omega arith; short = omega arith };
      allocated = refl;
    };
    byte = omega arith;
    good = λ e. absurd (omega (arith, e));
  };
  session = refl;
  receivable = (
    record { body = record { typed = omega arith; short = omega arith }; allocated = refl },
    (record { body = record { typed = omega arith; short = omega arith }; allocated = refl }, tt),
  );
}

main-serve_example :
    main aton sha1 3
      (λ _. 3)
      main_answers
      ((114, 120 ∷ []) ∷ (116, 51 ∷ []) ∷ [])
      whole
      (router cold)
    ≡ (serve 3
          (map
            (message_sent sha1 (client_of (some user) settings).user)
            (frame_sent ∷ close_sent ∷ []))
          (started [] (map entry_of (lan ∷ [])))
        >>= λ l. ok (end_of l))
unfolding read_options set_option framed big_endian stream_of
main-serve_example =
    main-serve aton sha1 3 (λ _. 3) main_answers ((114, 120 ∷ []) ∷ (116, 51 ∷ []) ∷ []) settings
      lan [] request status (frame_sent ∷ close_sent ∷ []) whole (router cold) refl
      IsSession-granted (record { unbroken = tt; bytes = refl })
