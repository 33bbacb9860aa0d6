-- ===== src/Connect.antt =====
-- sr_connect_to_server of sr_vns_comm.c: the session is authenticated and opened. What the name
-- service and the socket calls answer is a parameter.
pub mod Open
pub mod Template
pub mod Handshake
use nw_proj.Base.{
  ℕ, ◌+◌, ◌%◌, ◌^◌, Bool, true, false, Option, none, some, List, [], ◌∷◌, ◌++◌, ◌&&◌, not,
  if◌then◌else◌,
}
use nw_proj.Memory.{Bytes, store16, store32, htons, htonl, memset}
use nw_proj.Memory.Place.{place, slice}
use nw_proj.Text.{Text, padded}
use nw_proj.Instance.{Sr, Outcome, ok, ◌>>=◌}
use nw_proj.Server.{Reply, served, closed, failed, vns_rtable, vns_auth_request, vns_auth_status}
use nw_proj.Server.Receive.{Event}
use nw_proj.Server.Read.{Answers, returned, waiting, sr_read_from_server_expect}

abbrev pub vnsopen : ℕ
vnsopen = 1

abbrev pub vns_open_template : ℕ
vns_open_template = 64

abbrev pub idsize : ℕ
idsize = 32

-- The size of the field for the template, here and in struct sr_instance.
abbrev pub template_size : ℕ
template_size = 30

abbrev pub sizeof_open : ℕ
sizeof_open = 108

abbrev pub sizeof_open_template : ℕ
sizeof_open_template = 70

-- Who the session is for: the fields of struct sr_instance that the options of the program set.
pub record Client : Type 0 where
  pub user : Text
  pub host : Text
  pub template : Text
  pub topo_id : ℕ

-- c_open, zeroed before it is filled, and c_open_template, as the bytes handed to `send`.
unfoldable pub open_message : Bytes → Client → List ℕ
open_message uninit c =
    let command = memset uninit 0 0 sizeof_open in
    let command1 = store32 command 0 (htonl sizeof_open) in
    let command2 = store32 command1 4 (htonl vnsopen) in
    let command3 = store16 command2 8 (htons c.topo_id) in
    let command4 = place command3 12 (padded idsize c.host) in
    slice (place command4 (12 + idsize) (padded idsize c.user)) 0 sizeof_open

unfoldable pub open_template_message : Bytes → Client → List ℕ
open_template_message uninit c =
    let ot = store32 uninit 0 (htonl sizeof_open_template) in
    let ot1 = store32 ot 4 (htonl vns_open_template) in
    let ot2 = place ot1 8 (padded template_size c.template) in
    slice (place ot2 (8 + template_size) (padded idsize c.host)) 0 sizeof_open_template

-- `strlen(sr->template) > 0`.
abbrev pub has_template : Client → Bool
has_template c = elim c.template [ [] ↦ false | t ∷ ts ↦ true ]

unfoldable pub opening : Bytes → Client → List ℕ
opening uninit c = if has_template c then open_template_message uninit c else open_message uninit c

-- What the system answers during the function: whether the name has an address, whether there is a
-- socket, whether it connects and whether `send` takes the whole message, what the local variables
-- hold before, and the answers while each message is read.
pub record ConnectAnswers : Type 0 where
  pub resolves : Bool
  pub has_socket : Bool
  pub connects : Bool
  pub sends_all : Bool
  pub uninit : Bytes
  pub auth_request : Answers
  pub auth_status : Answers
  pub rtable : Answers

-- A connection, with the message that opened it and what the socket still holds; -1; or a call that
-- waits for the server.
pub data Connected : Type 0 where
  connected : Sr → List ℕ → List Event → Connected
  not_connected : Sr → Connected
  connecting : Connected

module _ (sha1 : List ℕ → Option (List ℕ)) (fuel : ℕ) (c : Client) where
  -- `sr_read_from_server_expect(sr, expected) != 1` returns -1, or what follows goes on.
  unfoldable pub expect :
      ℕ → Answers → List Event → Sr → (Sr → List Event → Outcome Connected) → Outcome Connected
  expect expected os es sr k =
      sr_read_from_server_expect sha1 c.user fuel expected os es sr >>= λ r. elim r [
        | returned sr' reply es' ↦ elim reply [
          | served ↦ k sr' es'
          | closed ↦ ok (not_connected sr')
          | failed ↦ ok (not_connected sr')
        ]
        | waiting ↦ ok connecting
      ]

  -- The message that opens the session is sent, and for a template the routing table comes back.
  unfoldable pub open_session : ConnectAnswers → Sr → List Event → Outcome Connected
  open_session os sr es =
      if not os.sends_all
      then ok (not_connected sr)
      else if has_template c
      then expect vns_rtable os.rtable es sr
          (λ sr' es'. ok (connected sr' (opening os.uninit c) es'))
      else ok (connected sr (opening os.uninit c) es)

  unfoldable pub sr_connect_to_server : ConnectAnswers → List Event → Sr → Outcome Connected
  sr_connect_to_server os es sr =
      if os.resolves && (os.has_socket && os.connects)
      then expect vns_auth_request os.auth_request es sr
          (λ sr1 es1. expect vns_auth_status os.auth_status es1 sr1 (open_session os))
      else ok (not_connected sr)
