-- ===== src/Connect/Handshake.antt =====
-- The messages of a successful handshake, and what they make of the connection.
use nw_proj.Base.{
  ℕ, ◌+◌, ◌<◌, ◌^◌, ◌≡◌, ◌≢◌, refl, ap, ◌∙◌, arith, true, false, Option, List, ◌∷◌, ◌++◌, length,
  ne→==, ◌&&◌, ltb,
}
use nw_proj.Memory.{Bytes}
use nw_proj.Memory.Place.{place, big_endian, place-append, load32-big_endian, place_at}
use nw_proj.Instance.{Sr, Outcome, ok}
use nw_proj.Vns.{framed}
use nw_proj.Server.{
  command_of, handle_command, handle_auth_status_message, served, vns_auth_request, vns_auth_status,
}
use nw_proj.Server.Receive.{Event}
use nw_proj.Server.Framing.{Carries}
use nw_proj.Server.Read.{message_of}
use nw_proj.Server.Session.{Sent, IsReceivable, message_sent, read-handle_command}
use nw_proj.Connect.{
  Client, ConnectAnswers, Connected, connected, expect, open_session, opening, has_template,
  sr_connect_to_server,
}

-- A message in its buffer, field by field.
framed-place :
    (m : Bytes) (t : ℕ) (xs : List ℕ)
    → place m 0 (framed (big_endian t ++ xs))
      ≡ place
          (place (place m 0 (big_endian (length (big_endian t ++ xs) + 4))) 4 (big_endian t))
          8
          xs
unfolding framed big_endian
framed-place m t xs =
    place-append m 0 (big_endian (length (big_endian t ++ xs) + 4)) (big_endian t ++ xs)
    ∙ place-append (place m 0 (big_endian (length (big_endian t ++ xs) + 4))) 4 (big_endian t) xs

-- The type of a message in the buffer that it was received into.
pub command_of-framed :
    (m : Bytes) (t : ℕ) (xs : List ℕ)
    → t < 2 ^ 32
    → command_of (place m 0 (framed (big_endian t ++ xs))) ≡ t
command_of-framed m t xs h =
    ap command_of (framed-place m t xs)
    ∙ load32-big_endian (place m 0 (big_endian (length (big_endian t ++ xs) + 4))) 4 t xs h

-- The byte behind the type.
flag-framed :
    (m : Bytes) (t b : ℕ) (xs : List ℕ)
    → b < 256
    → place m 0 (framed (big_endian t ++ b ∷ xs)) 8 ≡ b
flag-framed m t b xs h =
    let k = place (place m 0 (big_endian (length (big_endian t ++ b ∷ xs) + 4))) 4 (big_endian t) in
    ap (λ (j : Bytes). j 8) (framed-place m t (b ∷ xs)) ∙ place_at k 8 b xs h

status_long :
    (flag : ℕ) (text : List ℕ)
    → ltb (length (big_endian vns_auth_status ++ flag ∷ text) + 4) 9 ≡ false
unfolding big_endian
status_long flag text = ground arith

-- The name has an address, a socket connects to it, and it takes the message whole.
pub record IsGranted (os : ConnectAnswers) : Type 0 where
  pub resolves : os.resolves ≡ true
  pub has_socket : os.has_socket ≡ true
  pub connects : os.connects ≡ true
  pub sends_all : os.sends_all ≡ true

module _ (sha1 : List ℕ → Option (List ℕ)) (c : Client) where
  -- The server's request for authentication, which the program can answer.
  pub record IsAuthRequest (s : Sent) : Type 0 where
    pub salt : List ℕ
    pub is_request : s.body ≡ big_endian vns_auth_request ++ salt
    pub receivable : IsReceivable s
    pub replied : (message_sent sha1 c.user s).auth_replied ≡ true

  -- The server's message that the authentication succeeded.
  pub record IsAuthStatus (s : Sent) : Type 0 where
    pub flag : ℕ
    pub text : List ℕ
    pub is_status : s.body ≡ big_endian vns_auth_status ++ flag ∷ text
    pub receivable : IsReceivable s
    pub byte : flag < 256
    pub good : flag ≢ 0

  module _ (fuel : ℕ) where
    auth_request-served :
        (s : Sent) (sr : Sr)
        → IsAuthRequest s
        → handle_command fuel vns_auth_request (message_sent sha1 c.user s) sr ≡ ok (sr, served)
    unfolding handle_command
    auth_request-served s sr h =
        let command : command_of (message_sent sha1 c.user s).buf ≡ vns_auth_request =
          unfold message_sent message_of in
          (ap (λ (b : List ℕ). command_of (place s.answers.env.uninit 0 (framed b))) h.is_request
            ∙ command_of-framed s.answers.env.uninit vns_auth_request h.salt (omega arith)) in
        rw (command, handle_command) (rw (h.replied, handle_command) refl)

    auth_status-served :
        (s : Sent) (sr : Sr)
        → IsAuthStatus s
        → handle_command fuel vns_auth_status (message_sent sha1 c.user s) sr ≡ ok (sr, served)
    unfolding handle_command handle_auth_status_message
    auth_status-served s sr h =
        let command : command_of (message_sent sha1 c.user s).buf ≡ vns_auth_status =
          unfold message_sent message_of in
          (ap (λ (b : List ℕ). command_of (place s.answers.env.uninit 0 (framed b))) h.is_status
            ∙ command_of-framed s.answers.env.uninit vns_auth_status (h.flag ∷ h.text)
                (omega arith)) in
        let flag : (message_sent sha1 c.user s).buf 8 ≡ h.flag =
          unfold message_sent message_of in
          (ap (λ (b : List ℕ). place s.answers.env.uninit 0 (framed b) 8) h.is_status
            ∙ flag-framed s.answers.env.uninit vns_auth_status h.flag h.text h.byte) in
        let whole : ltb (message_sent sha1 c.user s).len 9 ≡ false =
          unfold message_sent message_of in
          (ap (λ (b : List ℕ). ltb (length b + 4) 9) h.is_status ∙ status_long h.flag h.text) in
        rw (command, handle_command)
          (rw (whole, handle_auth_status_message)
            (rw (flag, handle_auth_status_message)
              (rw (ne→== h.flag 0 h.good, handle_auth_status_message) refl)))

    -- A message that is expected and handled lets the function go on.
    expect-served :
        (expected : ℕ) (s : Sent) (rest : List ℕ) (es : List Event) (sr : Sr)
        (k : Sr → List Event → Outcome Connected)
        → IsReceivable s
        → handle_command fuel expected (message_sent sha1 c.user s) sr ≡ ok (sr, served)
        → Carries es (framed s.body ++ rest)
        → (left : List Event) × (expect sha1 fuel c expected s.answers es sr k ≡ k sr left)
          × Carries left rest
    unfolding expect
    expect-served expected s rest es sr k h handled carries =
        let (left, e, c') = read-handle_command sha1 c.user fuel expected s rest es sr h carries in
        (left, rw (e, expect) (rw (handled, expect) refl), c')

    open_session-connected :
        (os : ConnectAnswers) (sr : Sr) (es : List Event)
        → os.sends_all ≡ true
        → has_template c ≡ false
        → open_session sha1 fuel c os sr es ≡ ok (connected sr (opening os.uninit c) es)
    unfolding open_session
    open_session-connected os sr es sends plain =
        rw (sends, open_session) (rw (plain, open_session) refl)

    -- A connection that the system grants, on which the server asks for an authentication that the
    -- program can answer and then confirms it, is opened without a template: the router is as it
    -- was, the message that opens the session is sent, and what comes behind the two messages is
    -- left on the socket.
    pub sr_connect_to_server-connected :
        (os : ConnectAnswers) (request status rest : List ℕ) (es : List Event) (sr : Sr)
        → IsGranted os
        → has_template c ≡ false
        → IsAuthRequest (record { body = request; answers = os.auth_request })
        → IsAuthStatus (record { body = status; answers = os.auth_status })
        → Carries es (framed request ++ (framed status ++ rest))
        → (left : List Event) × (sr_connect_to_server sha1 fuel c os es sr
            ≡ ok (connected sr (opening os.uninit c) left))
          × Carries left rest
    unfolding sr_connect_to_server
    sr_connect_to_server-connected os request status rest es sr g plain asked confirmed carries =
        let r : Sent = record { body = request; answers = os.auth_request } in
        let s : Sent = record { body = status; answers = os.auth_status } in
        let (es1, first, carries1) =
          expect-served vns_auth_request r (framed status ++ rest) es sr
            (λ sr1 es1.
              expect sha1 fuel c vns_auth_status os.auth_status es1 sr1
                (open_session sha1 fuel c os))
            asked.receivable (auth_request-served r sr asked) carries in
        let (es2, second, carries2) =
          expect-served vns_auth_status s rest es1 sr (open_session sha1 fuel c os)
            confirmed.receivable (auth_status-served s sr confirmed) carries1 in
        let link : os.resolves && (os.has_socket && os.connects) ≡ true =
          ground (arith, g.resolves, g.has_socket, g.connects) in
        (
          es2,
          rw (link, sr_connect_to_server)
              (first ∙ (second ∙ open_session-connected os sr es2 g.sends_all plain)),
          carries2,
        )
