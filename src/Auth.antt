-- ===== src/Auth.antt =====
-- The authentication of sr_vns_comm.c: sr_handle_auth_request and sr_handle_auth_status, over the
-- messages c_auth_request, c_auth_reply and c_auth_status of vnscommand.h. SHA-1 is a parameter:
-- the five words that SHA1Result leaves for all the bytes it was given, if it has a result.
pub mod Reply
use nw_proj.Base.{
  ℕ, zero, suc, ◌+◌, ◌-◌, ◌*◌, ◌%◌, ◌^◌, Bool, true, false, Option, none, some, List, [], ◌∷◌, ◌++◌,
  ◌==◌, not, length, if◌then◌else◌,
}
use nw_proj.Memory.{Bytes, load32, store32, htonl}
use nw_proj.Memory.Place.{place, slice}
use nw_proj.Text.{Text, fgets}

abbrev pub vns_auth_reply : ℕ
vns_auth_reply = 256

abbrev pub auth_key_len : ℕ
auth_key_len = 64

abbrev pub sha1_len : ℕ
sha1_len = 20

-- c_auth_request and c_auth_reply, up to the fields of variable length.
abbrev pub sizeof_auth_request : ℕ
sizeof_auth_request = 8

abbrev pub sizeof_auth_reply : ℕ
sizeof_auth_reply = 12

-- What the system answers: the content of the file auth_key, if it can be opened, the contents of
-- the array and of the `malloc`ed block before they are written, whether there is a block, and
-- whether `send` takes the whole message.
pub record AuthAnswers : Type 0 where
  pub key_file : Option Text
  pub key_array : Bytes
  pub allocated : Bool
  pub uninit : Bytes
  pub sends_all : Bool

-- The loop over the digest with the `memcpy` behind it: the words go out in network order.
unfoldable pub put_digest : Bytes → ℕ → List ℕ → Bytes
put_digest m at [] = m
put_digest m at (d ∷ ds) = put_digest (store32 m at (htonl d)) (at + 4) ds

-- The reply in its block of `len` bytes.
unfoldable pub auth_reply : Bytes → Text → List ℕ → ℕ → Bytes
auth_reply uninit user digest len =
    let ar = store32 uninit 0 (htonl len) in
    let ar1 = store32 ar 4 (htonl vns_auth_reply) in
    let ar2 = store32 ar1 8 (htonl (length user)) in
    let ar3 = place ar2 12 (user ++ 0 ∷ []) in put_digest ar3 (12 + length user) digest

module _ (sha1 : List ℕ → Option (List ℕ)) where
  -- The salted digest of the key: the salt of the request, then the whole array. The length of the
  -- salt is cut to an `unsigned`.
  unfoldable pub auth_digest : Bytes → Bytes → Option (List ℕ)
  auth_digest req auth_key = sha1 (
      slice req sizeof_auth_request ((htonl (load32 req 0) + 2 ^ 32 - sizeof_auth_request) % 2 ^ 32)
      ++ slice auth_key 0 auth_key_len)

  -- The bytes handed to `send`, none if the function returns before, and the return value.
  unfoldable pub sr_handle_auth_request : AuthAnswers → Text → Bytes → Option (List ℕ) × ℕ
  sr_handle_auth_request os user req = elim os.key_file [
    | none ↦ (none, 0)
    | some content ↦ elim (fgets (auth_key_len + 1) content) [
      | none ↦ (none, 0)
      | some line ↦ elim (auth_digest req (place os.key_array 0 (line.0 ++ 0 ∷ []))) [
        | none ↦ (none, 0)
        | some digest ↦
            let len = sizeof_auth_reply + length user + sha1_len in
            if os.allocated
            then (
              some (slice (auth_reply os.uninit user digest len) 0 len),
              if os.sends_all then 1 else 0,
            )
            else (none, 0)
      ]
    ]
  ]

-- The return value is the field, a byte.
abbrev pub sr_handle_auth_status : Bytes → ℕ
sr_handle_auth_status status = status 8
