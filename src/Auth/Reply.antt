-- ===== src/Auth/Reply.antt =====
-- What the reply to an authentication request holds.
use nw_proj.Base.{
  if◌then◌else◌, ℕ, ◌+◌, ◌*◌, ◌%◌, ◌^◌, ◌≡◌, refl, sym, ap, ◌∙◌, arith, true, Option, some, List,
  [], ◌∷◌, ◌++◌, length, ◌/◌, All-append, length-append,
}
use nw_proj.Memory.{Bytes, store32, htonl}
use nw_proj.Memory.Place.{place, slice, big_endian, place-append, place-over, store32-ahead}
use nw_proj.Text.{Text, fgets}
use nw_proj.Vns.{
  framed, words, AreBytes, words-AreBytes, big_endian-AreBytes, length-words, slice-framed,
}
use nw_proj.Auth.{
  AuthAnswers, put_digest, auth_reply, auth_digest, sr_handle_auth_request, vns_auth_reply,
  sizeof_auth_reply, auth_key_len, sha1_len,
}

put_digest-place : (m : Bytes) (at : ℕ) (ds : List ℕ) → put_digest m at ds ≡ place m at (words ds)
unfolding put_digest words place
put_digest-place m at [] = refl
put_digest-place m at (d ∷ ds) =
    put_digest-place (store32 m at (htonl d)) (at + 4) ds ∙ store32-ahead m at d (words ds)

-- The fields behind the length.
unfoldable pub auth_reply_body : Text → List ℕ → List ℕ
auth_reply_body user digest =
    big_endian vns_auth_reply ++ (big_endian (length user) ++ (user ++ words digest))

place-over_words :
    (m : Bytes) (a d : ℕ) (ds : List ℕ)
    → place (place m a (0 ∷ [])) a (words (d ∷ ds)) ≡ place m a (words (d ∷ ds))
unfolding words big_endian
place-over_words m a d ds = place-over m a 0 (d / 2 ^ 24 % 256) _

-- The zero of `strcpy` is overwritten by the digest.
put_digest_after_user :
    (m : Bytes) (at : ℕ) (user : Text) (d : ℕ) (ds : List ℕ)
    → put_digest (place m at (user ++ 0 ∷ [])) (at + length user) (d ∷ ds)
      ≡ place m at (user ++ words (d ∷ ds))
put_digest_after_user m at user d ds =
    put_digest-place (place m at (user ++ 0 ∷ [])) (at + length user) (d ∷ ds)
    ∙ (ap (λ (k : Bytes). place k (at + length user) (words (d ∷ ds)))
          (place-append m at user (0 ∷ []))
        ∙ (place-over_words (place m at user) (at + length user) d ds
            ∙ sym (place-append m at user (words (d ∷ ds)))))

auth_reply-place :
    (uninit : Bytes) (user : Text) (d : ℕ) (ds : List ℕ) (len : ℕ)
    → auth_reply uninit user (d ∷ ds) len
      ≡ place uninit 0 (big_endian len ++ auth_reply_body user (d ∷ ds))
unfolding auth_reply auth_reply_body
auth_reply-place uninit user d ds len =
    let text = user ++ words (d ∷ ds) in
    let ar = store32 uninit 0 (htonl len) in
    let ar1 = store32 ar 4 (htonl vns_auth_reply) in
    put_digest_after_user (store32 ar1 8 (htonl (length user))) 12 user d ds
    ∙ (store32-ahead ar1 8 (length user) text
        ∙ (store32-ahead ar 4 vns_auth_reply (big_endian (length user) ++ text)
            ∙ store32-ahead uninit 0 len
                (big_endian vns_auth_reply ++ (big_endian (length user) ++ text))))

auth_reply_body-AreBytes :
    (user : Text) (digest : List ℕ) → AreBytes user → AreBytes (auth_reply_body user digest)
unfolding auth_reply_body
auth_reply_body-AreBytes user digest h =
    All-append _ (big_endian vns_auth_reply) _ (big_endian-AreBytes vns_auth_reply) (
      All-append _ (big_endian (length user)) _ (big_endian-AreBytes (length user))
        (All-append _ user (words digest) h (words-AreBytes digest)))

length-auth_reply_body :
    (user : Text) (digest : List ℕ)
    → length (auth_reply_body user digest) ≡ 8 + length user + 4 * length digest
unfolding auth_reply_body big_endian
length-auth_reply_body user digest =
    omega (arith, length-append user (words digest), length-words digest)

auth_reply-framed :
    (uninit : Bytes) (user : Text) (digest : List ℕ)
    → AreBytes user
    → length digest ≡ 5
    → let len = sizeof_auth_reply + length user + sha1_len in
      slice (auth_reply uninit user digest len) 0 len ≡ framed (auth_reply_body user digest)
auth_reply-framed uninit user [] h five = absurd (omega (arith, five))
auth_reply-framed uninit user (d ∷ ds) h five =
    let body = auth_reply_body user (d ∷ ds) in
    let len : sizeof_auth_reply + length user + sha1_len ≡ length body + 4 =
      omega (arith, length-auth_reply_body user (d ∷ ds), five) in
    ap (λ (n : ℕ). slice (auth_reply uninit user (d ∷ ds) n) 0 n) len
    ∙ (ap (λ (m : Bytes). slice m 0 (length body + 4))
          (auth_reply-place uninit user d ds (length body + 4))
        ∙ slice-framed uninit body (auth_reply_body-AreBytes user (d ∷ ds) h))

-- If the key file has a first line and there is memory, the reply is sent, and it is the message
-- of type 256 with the length of the user's name, the name and the digest of the salt and the key
-- in network order; the result is 1 exactly if `send` takes all of it.
pub sr_handle_auth_request-framed :
    (sha1 : List ℕ → Option (List ℕ)) (os : AuthAnswers) (user : Text) (req : Bytes)
    (content line left : Text) (digest : List ℕ)
    → AreBytes user
    → os.key_file ≡ some content
    → fgets (auth_key_len + 1) content ≡ some (line, left)
    → auth_digest sha1 req (place os.key_array 0 (line ++ 0 ∷ [])) ≡ some digest
    → length digest ≡ 5
    → os.allocated ≡ true
    → sr_handle_auth_request sha1 os user req
      ≡ (some (framed (auth_reply_body user digest)), if os.sends_all then 1 else 0)
unfolding sr_handle_auth_request
sr_handle_auth_request-framed sha1 os user req content line left digest h file read sum five there =
    rw (file, sr_handle_auth_request)
      (rw (read, sr_handle_auth_request)
        (rw (sum, sr_handle_auth_request)
          (rw (there, sr_handle_auth_request)
            (ap (λ (reply : List ℕ). (some reply, if os.sends_all then 1 else 0))
              (auth_reply-framed os.uninit user digest h five)))))
