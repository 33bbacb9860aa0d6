-- ===== src/Main.antt =====
-- main of sr_main.c, with sr_init_instance, sr_set_user and sr_load_rt_wrap, and sr_init of
-- sr_router.c, which starts the cache; the timeout thread that it also starts is the subject of
-- Run. The options are those that getopt returns, with their arguments; atoi, inet_aton and SHA-1
-- are parameters.
pub mod Session
use nw_proj.Base.{
  ℕ, ◌%◌, ◌^◌, Bool, true, false, ◌&&◌, Option, none, some, List, [], ◌∷◌, ◌==◌, not, if◌then◌else◌,
}
use nw_proj.Text.{Text, strncpy}
use nw_proj.Instance.{Sr, Outcome, ok, ◌>>=◌}
use nw_proj.ArpCache.{sr_arpcache_init}
use nw_proj.Routing.Load.{Fields, sr_load_rt}
use nw_proj.Server.{Loop, running, finished}
use nw_proj.Server.Receive.{Event}
use nw_proj.Server.Read.{Answers, read_loop}
use nw_proj.Connect.{
  Client, ConnectAnswers, connected, not_connected, connecting, idsize, template_size,
  sr_connect_to_server,
}
use nw_proj.Log.{packet_dump_size, sr_dump_open}

-- The local variables of main that the options set.
pub record Settings : Type 0 where
  pub host : Text
  pub user : Option Text
  pub server : Text
  pub rtable : Text
  pub template : Option Text
  pub port : ℕ
  pub topo : ℕ
  pub logfile : Option Text

-- "vrhost", "localhost" and "rtable".
abbrev pub default_settings : Settings
default_settings = record {
  host = 118 ∷ 114 ∷ 104 ∷ 111 ∷ 115 ∷ 116 ∷ [];
  user = none;
  server = 108 ∷ 111 ∷ 99 ∷ 97 ∷ 108 ∷ 104 ∷ 111 ∷ 115 ∷ 116 ∷ [];
  rtable = 114 ∷ 116 ∷ 97 ∷ 98 ∷ 108 ∷ 101 ∷ [];
  template = none;
  port = 8888;
  topo = 0;
  logfile = none;
}

-- The switch, on the letters p, t, v, u, s, l, r and T; an unknown option changes nothing.
unfoldable pub set_option : (Text → ℕ) → ℕ → Text → Settings → Settings
set_option atoi c optarg s =
    if c == 112
    then record s { port = atoi optarg }
    else if c == 116
    then record s { topo = atoi optarg }
    else if c == 118
    then record s { host = optarg }
    else if c == 117
    then record s { user = some optarg }
    else if c == 115
    then record s { server = optarg }
    else if c == 108
    then record s { logfile = some optarg }
    else if c == 114
    then record s { rtable = optarg }
    else if c == 84
    then record s { template = some optarg }
    else s

-- The loop over the options; h ends the program.
unfoldable pub read_options : (Text → ℕ) → List (ℕ × Text) → Settings → Option Settings
read_options atoi [] s = some s
read_options atoi (o ∷ os) s =
    let rest = read_options atoi os (set_option atoi o.0 o.1 s) in if o.0 == 104 then none else rest

-- "something_silly" where the user has no name.
unfoldable pub sr_set_user : Option Text → Text
sr_set_user none =
    strncpy 32
      (115 ∷ 111 ∷ 109 ∷ 101 ∷ 116 ∷ 104 ∷ 105 ∷ 110 ∷ 103 ∷ 95 ∷ 115 ∷ 105 ∷ 108 ∷ 108 ∷ 121 ∷ [])
sr_set_user (some name) = strncpy 32 name

-- The fields that main sets before it connects.
unfoldable pub client_of : Option Text → Settings → Client
client_of login s = record {
  user = elim s.user [ none ↦ sr_set_user login | some u ↦ strncpy 32 u ];
  host = strncpy idsize s.host;
  template = elim s.template [ none ↦ [] | some t ↦ strncpy template_size t ];
  topo_id = s.topo % 2 ^ 16;
}

-- The lists are emptied; the cache is not, and nothing has been sent.
unfoldable pub sr_init_instance : Sr → Sr
sr_init_instance sr = record { if_list = []; routing_table = []; cache = sr.cache; written = [] }

unfoldable pub sr_init : Sr → Sr
sr_init sr = record sr { cache = sr_arpcache_init }

-- Without a log file, or with one that opens, main goes on.
unfoldable pub opens_logfile : Bool → Option Text → Bool
opens_logfile opens none = true
opens_logfile opens (some name) = elim (sr_dump_open opens name 0 packet_dump_size) [
  | none ↦ false
  | some file ↦ true
]

-- The program has ended with an exit status, waits for the server while it connects, or is in its
-- loop over messages.
pub data Exit : Type 0 where
  exited : ℕ → Sr → Exit
  waits : Exit
  serving : Sr → Exit

-- What follows the loop, once it was left.
unfoldable pub exit_of : Loop → Exit
exit_of (running sr) = serving sr
exit_of (finished sr) = exited 0 sr

-- What the system answers: the user's name, whether the log file opens, the routing table's file
-- before the session and when it is read again, by name, what the arrays of sr_load_rt hold, and
-- the answers during the connection and during each message after it.
pub record MainAnswers : Type 0 where
  pub login : Option Text
  pub opens_log : Bool
  pub files : Text → Option Text
  pub later_files : Text → Option Text
  pub arrays : Fields
  pub connect : ConnectAnswers
  pub session : List Answers

module _ (inet_aton : Text → Option ℕ) where
  -- `exit(1)`, or what follows goes on with the table.
  unfoldable pub sr_load_rt_wrap : Fields → Option Text → Sr → (Sr → Outcome Exit) → Outcome Exit
  sr_load_rt_wrap arrays content sr k =
      sr_load_rt inet_aton arrays content sr.routing_table >>= λ r.
      if r.1
      then k (record sr { routing_table = r.0 })
      else ok (exited 1 (record sr { routing_table = r.0 }))

  -- The first reading of the table, which a template turns off.
  unfoldable pub load_first :
      Option Text → Fields → Option Text → Sr → (Sr → Outcome Exit) → Outcome Exit
  load_first none arrays content sr k = sr_load_rt_wrap arrays content sr k
  load_first (some template) arrays content sr k = k sr

  module _ (sha1 : List ℕ → Option (List ℕ)) (fuel : ℕ) where
    -- From the second reading of the table on. Both branches of the code read the file that the
    -- options name: the first is only taken if that is "rtable.vrhost".
    unfoldable pub run_session : MainAnswers → Settings → Sr → List Event → Outcome Exit
    run_session os s sr es = sr_load_rt_wrap os.arrays (os.later_files s.rtable) sr λ sr'.
        read_loop sha1 (client_of os.login s).user fuel os.session es (sr_init sr') >>= λ l.
        ok (exit_of l)

    -- The log file, and the connection.
    unfoldable pub start_session : MainAnswers → Settings → Sr → List Event → Outcome Exit
    start_session os s sr es =
        if opens_logfile os.opens_log s.logfile
        then sr_connect_to_server sha1 fuel (client_of os.login s) os.connect es sr >>= (λ r.
          elim r [
            | connected sr' sent es' ↦ run_session os s sr' es'
            | not_connected sr' ↦ ok (exited 1 sr')
            | connecting ↦ ok waits
          ])
        else ok (exited 1 sr)

    -- `garbage` is what the instance holds before it is initialised.
    unfoldable pub main :
        (Text → ℕ) → MainAnswers → List (ℕ × Text) → List Event → Sr → Outcome Exit
    main atoi os args es garbage =
        let sr = sr_init_instance garbage in
        elim (read_options atoi args default_settings) [
          | none ↦ ok (exited 0 garbage)
          | some s ↦
              load_first s.template os.arrays (os.files s.rtable) sr
                (λ sr'. start_session os s sr' es)
        ]
