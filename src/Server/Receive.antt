-- ===== src/Server/Receive.antt =====
-- The receive loops of sr_read_from_server_expect of sr_vns_comm.c. The socket is the list of what
-- the calls of recv and read meet, oldest first: bytes that arrived together, of which a call
-- takes at most as many as it asks for and leaves the rest, none at the end of the stream; a
-- signal; a failure.
use nw_proj.Base.{
  not, ℕ, zero, suc, ◌-◌, ◌^◌, Bool, ◌||◌, ◌&&◌, List, [], ◌∷◌, ◌++◌, ltb, leb, length, take, drop,
  if◌then◌else◌,
}
use nw_proj.Memory.{Bytes, load32, store32, htonl}
use nw_proj.Memory.Place.{place}

pub data Event : Type 0 where
  arrived : List ℕ → Event
  -- -1 with EINTR
  interrupted : Event
  -- -1 with another errno
  broken : Event

-- How a receive loop ends: with all the bytes it wanted, with more calls to come, or with -1.
pub data Received : Type 0 where
  complete : List ℕ → List Event → Received
  blocked : Received
  lost : Received

-- `while (bytes_read < n)` with its retry after a signal: `n` bytes are missing, `got` were read.
-- A call that could take more than is missing takes what is missing, and the loop ends.
unfoldable pub receive_loop : ℕ → List ℕ → List Event → Received
receive_loop zero got es = complete got es
receive_loop (suc n) got [] = blocked
receive_loop (suc n) got (interrupted ∷ es) = receive_loop (suc n) got es
receive_loop (suc n) got (broken ∷ es) = lost
receive_loop (suc n) got (arrived xs ∷ es) =
    let rest = receive_loop (suc n - length xs) (got ++ xs) es in
    if leb (length xs) (suc n)
    then rest
    else complete (got ++ take (suc n) xs) (arrived (drop (suc n) xs) ∷ es)

-- What receiving a message comes to: the buffer, its length and the socket behind it; -1; more
-- calls to come; or a write past the block that `malloc` returned.
pub data Receipt : Type 0 where
  received : Bytes → ℕ → List Event → Receipt
  refused : Receipt
  unfinished : Receipt
  overrun : Receipt

abbrev pub max_command : ℕ
max_command = 10000

-- The length as an `int`: above the maximum, or negative.
abbrev pub is_refused_length : ℕ → Bool
is_refused_length len = (ltb max_command len && ltb len (2 ^ 31)) || leb (2 ^ 31) len

-- The rest of the message, into a block of `len` bytes that starts with the length. The type, at
-- 4, is written back in host order, past the end of a block of less than 8 bytes.
unfoldable pub receive_body : Bytes → ℕ → List Event → Receipt
receive_body uninit len es = elim (receive_loop (len - 4) [] es) [
  | complete xs es' ↦
      if ltb len 8 then overrun else received (place (store32 uninit 0 (htonl len)) 4 xs) len es'
  | blocked ↦ unfinished
  | lost ↦ refused
]

-- `uninit` is the memory before the call, `allocated` whether `malloc` returns a block.
unfoldable pub receive_message : Bytes → Bool → List Event → Receipt
receive_message uninit allocated es = elim (receive_loop 4 [] es) [
  | complete xs es' ↦
      let len = htonl (load32 (place uninit 0 xs) 0) in
      if is_refused_length len || not allocated then refused else receive_body uninit len es'
  | blocked ↦ unfinished
  | lost ↦ refused
]
