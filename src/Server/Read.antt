-- ===== src/Server/Read.antt =====
-- sr_read_from_server_expect of sr_vns_comm.c as a whole, sr_handle_rtable, and the loop of main
-- in sr_main.c over it.
use nw_proj.Base.{ℕ, ◌+◌, ◌-◌, ◌%◌, ◌^◌, Bool, true, false, Option, none, some, List, [], ◌∷◌, ◌==◌}
use nw_proj.Memory.{Bytes, load32, htonl}
use nw_proj.Memory.Place.{slice}
use nw_proj.Text.{Text}
use nw_proj.Instance.{Sr, Env, Outcome, ok, crash, out_of_bounds, ◌>>=◌}
use nw_proj.Hardware.{c_string}
use nw_proj.Auth.{AuthAnswers, sr_handle_auth_request}
use nw_proj.Server.{
  Message, Reply, served, closed, failed, handle_command, sizeof_rtable, Loop, running, finished,
}
use nw_proj.Server.Receive.{Event, receive_message, received, refused, unfinished, overrun}

-- The file that is written, its name and its content, if it can be opened; and the return value.
-- The host's name ends with its field if it does not end in it.
unfoldable pub sr_handle_rtable : Bool → Bytes → Option (Text × List ℕ) × ℕ
sr_handle_rtable true rtable = (
  some (
    114 ∷ 116 ∷ 97 ∷ 98 ∷ 108 ∷ 101 ∷ 46 ∷ c_string 32 (λ i. rtable (8 + i)),
    slice rtable sizeof_rtable ((htonl (load32 rtable 0) + 2 ^ 32 - sizeof_rtable) % 2 ^ 32),
  ),
  1,
)
sr_handle_rtable false rtable = (none, 0)

-- What the system answers while a message is received and handled.
pub record Answers : Type 0 where
  pub allocated : Bool
  pub env : Env
  pub opens_rtable : Bool
  pub auth : AuthAnswers

-- A call that has returned, with what it left on the socket; or one that waits for more bytes.
pub data Read : Type 0 where
  returned : Sr → Reply → List Event → Read
  waiting : Read

module _ (sha1 : List ℕ → Option (List ℕ)) (user : Text) where
  -- A message in its buffer, with what comes of the two requests that touch only files and the
  -- socket, if it is one of them.
  unfoldable pub message_of : Answers → Bytes → ℕ → Message
  message_of os buf len = record {
    buf = buf;
    len = len;
    env = os.env;
    rtable_written = (sr_handle_rtable os.opens_rtable buf).1 == 1;
    auth_replied = (sr_handle_auth_request sha1 os.auth user buf).1 == 1;
  }

  unfoldable pub sr_read_from_server_expect : ℕ → ℕ → Answers → List Event → Sr → Outcome Read
  sr_read_from_server_expect fuel expected_cmd os es sr =
      elim (receive_message os.env.uninit os.allocated es) [
        | received buf len es' ↦
            handle_command fuel expected_cmd (message_of os buf len) sr >>= λ r.
            ok (returned r.0 r.1 es')
        | refused ↦ ok (returned sr failed [])
        | unfinished ↦ ok waiting
        | overrun ↦ crash out_of_bounds
      ]

  -- `while (sr_read_from_server(sr) == 1)`, for as many calls as there are answers. Behind them, and
  -- in a call that waits, the loop still runs.
  unfoldable pub read_loop : ℕ → List Answers → List Event → Sr → Outcome Loop
  read_loop fuel [] es sr = ok (running sr)
  read_loop fuel (a ∷ answers) es sr = sr_read_from_server_expect fuel 0 a es sr >>= λ r. elim r [
    | returned sr' reply es' ↦ elim reply [
      | served ↦ read_loop fuel answers es' sr'
      | closed ↦ ok (finished sr')
      | failed ↦ ok (finished sr')
    ]
    | waiting ↦ ok (running sr)
  ]
