-- ===== src/Server/Session.antt =====
-- A session over a socket is the session over its messages.
use nw_proj.Base.{
  ℕ, ◌+◌, ◌≡◌, refl, ap, ◌∙◌, Bool, true, Option, List, [], ◌∷◌, ◌++◌, map, length, All,
}
use nw_proj.Memory.Place.{place}
use nw_proj.Text.{Text}
use nw_proj.Instance.{Sr, Outcome, ok, crash, out_of_fuel, ◌>>=◌}
use nw_proj.Vns.{framed, IsBody}
use nw_proj.Server.{
  Message, Reply, served, closed, failed, handle_command, serve, Loop, running, finished,
}
use nw_proj.Server.Receive.{Event, receive_message}
use nw_proj.Server.Framing.{Carries, receive_message-framed}
use nw_proj.Server.Read.{
  Answers, returned, waiting, message_of, sr_read_from_server_expect, read_loop,
}

-- A message of the session: what follows its length, and the system's answers while it is handled.
pub record Sent : Type 0 where
  pub body : List ℕ
  pub answers : Answers

-- The message can be received: it has a type, is not too long, and there is memory for it.
pub record IsReceivable (s : Sent) : Type 0 where
  pub body : IsBody s.body
  pub allocated : s.answers.allocated ≡ true

unfoldable pub stream_of : List Sent → List ℕ
stream_of [] = []
stream_of (s ∷ ss) = framed s.body ++ stream_of ss

-- The loop over the socket and the loop over the messages go on alike behind a message.
go_on_alike :
    (over_socket : List Event → Sr → Outcome Loop) (over_messages : Sr → Outcome Loop) (sr : Sr)
    (left : List Event) (out : Outcome (Sr × Reply))
    → ((sr' : Sr) → over_socket left sr' ≡ over_messages sr')
    → (out >>= λ r. ok (returned r.0 r.1 left)) >>= (λ r. elim r as (λ _. Outcome Loop) [
      | returned sr' reply es' ↦ elim reply as (λ _. Outcome Loop) [
        | served ↦ over_socket es' sr'
        | closed ↦ ok (finished sr')
        | failed ↦ ok (finished sr')
      ]
      | waiting ↦ ok (running sr)
    ])
      ≡ (out >>= λ after. elim after.1 as (λ _. Outcome Loop) [
        | served ↦ over_messages after.0
        | closed ↦ ok (finished after.0)
        | failed ↦ ok (finished after.0)
      ])
go_on_alike f g sr left (ok (sr', served)) h = h sr'
go_on_alike f g sr left (ok (sr', closed)) h = refl
go_on_alike f g sr left (ok (sr', failed)) h = refl
go_on_alike f g sr left (crash e) h = refl
go_on_alike f g sr left out_of_fuel h = refl

module _ (sha1 : List ℕ → Option (List ℕ)) (user : Text) where
  -- The message in the buffer it is received into.
  unfoldable pub message_sent : Sent → Message
  message_sent s =
      message_of sha1 user s.answers (place s.answers.env.uninit 0 (framed s.body))
        (length s.body + 4)

  module _ (fuel : ℕ) where
    -- A call that finds a message on the socket handles it, and leaves what is behind it.
    pub read-handle_command :
        (expected : ℕ) (s : Sent) (rest : List ℕ) (es : List Event) (sr : Sr)
        → IsReceivable s
        → Carries es (framed s.body ++ rest)
        → (left : List Event) × (sr_read_from_server_expect sha1 user fuel expected s.answers es sr
            ≡ (handle_command fuel expected (message_sent s) sr >>= λ r.
                ok (returned r.0 r.1 left)))
          × Carries left rest
    unfolding sr_read_from_server_expect message_sent
    read-handle_command expected s rest es sr h c =
        let (left, e, c') = receive_message-framed s.answers.env.uninit s.body rest es h.body c in
        let e' = ap (λ (b : Bool). receive_message s.answers.env.uninit b es) h.allocated ∙ e in
        (left, rw (e', sr_read_from_server_expect) refl, c')

    -- A session over a socket on which messages arrive in any pieces, with calls that signals
    -- interrupt in any places, makes of the router what the messages one after the other make of it.
    pub read_loop-serve :
        (ss : List Sent) (es : List Event) (sr : Sr)
        → All IsReceivable ss
        → Carries es (stream_of ss)
        → read_loop sha1 user fuel (map (λ (s : Sent). s.answers) ss) es sr
          ≡ serve fuel (map message_sent ss) sr
    unfolding read_loop serve stream_of
    read_loop-serve [] es sr h c = refl
    read_loop-serve (s ∷ ss) es sr h c =
        let (left, e, c') = read-handle_command 0 s (stream_of ss) es sr h.0 c in
        rw (e, read_loop)
          (go_on_alike (read_loop sha1 user fuel (map (λ (t : Sent). t.answers) ss))
            (serve fuel (map message_sent ss)) sr left (handle_command fuel 0 (message_sent s) sr)
            (λ sr'. read_loop-serve ss left sr' h.1 c'))
