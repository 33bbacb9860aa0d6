-- ===== src/Server/Framing.antt =====
-- The receive loops on a stream that carries messages, however it is cut into arrivals.
use nw_proj.Base.{
  ℕ, zero, suc, ◌+◌, ◌-◌, ◌≤◌, ◌≡◌, refl, sym, ap, ◌∙◌, arith, true, false, List, [], ◌∷◌, ◌++◌,
  ltb, leb, length, take, drop, Bool-cases, inl, inr, length-append, append_nil, take_all,
  append_assoc, drop_all, take-past, drop-past, take-append, drop-append,
}
use nw_proj.Memory.{Bytes, load32, store32, htonl}
use nw_proj.Memory.Place.{place, big_endian, length_field, store32-place, place-append}
use nw_proj.Vns.{framed, IsBody}
use nw_proj.Server.Receive.{
  Event, arrived, interrupted, broken, Received, complete, receive_loop, received,
  is_refused_length, receive_body, receive_message,
}

-- The bytes that arrive, in order.
abbrev pub payload : List Event → List ℕ
payload [] = []
payload (arrived xs ∷ es) = xs ++ payload es
payload (interrupted ∷ es) = payload es
payload (broken ∷ es) = payload es

-- No call fails, other than by a signal.
abbrev pub IsUnbroken : List Event → Type 0
IsUnbroken [] = Unit {0}
IsUnbroken (arrived xs ∷ es) = IsUnbroken es
IsUnbroken (interrupted ∷ es) = IsUnbroken es
IsUnbroken (broken ∷ es) = ⊥

-- A socket on which `rest` is still to be read.
pub record Carries (es : List Event) (rest : List ℕ) : Type 0 where
  pub unbroken : IsUnbroken es
  pub bytes : payload es ≡ rest

-- The loop ended with the first `n` bytes of the stream behind what it had.
record Took (n : ℕ) (got : List ℕ) (stream : List ℕ) (r : Received) : Type 0 where
  left : List Event
  ends : r ≡ complete (got ++ take n stream) left
  carries : Carries left (drop n stream)

receive_loop-Took :
    (n : ℕ) (got : List ℕ) (es : List Event)
    → IsUnbroken es
    → n ≤ length (payload es)
    → Took n got (payload es) (receive_loop n got es)
unfolding receive_loop
receive_loop-Took zero got es u h = record {
  left = es;
  ends = ap (λ (l : List ℕ). complete l es) (sym (append_nil got));
  carries = record { unbroken = u; bytes = refl };
}
receive_loop-Took (suc n) got [] u h = absurd (omega arith)
receive_loop-Took (suc n) got (interrupted ∷ es) u h = receive_loop-Took (suc n) got es u h
receive_loop-Took (suc n) got (broken ∷ es) u h = absurd u
receive_loop-Took (suc n) got (arrived xs ∷ es) u h = elim (Bool-cases (leb (length xs) (suc n))) [
  | inl fits ↦
      let below : suc n ≡ length xs + (suc n - length xs) = ground arith in
      let rest =
        receive_loop-Took (suc n - length xs) (got ++ xs) es u
          (omega (arith, length-append xs (payload es))) in
      record {
        left = rest.left;
        ends =
            rw (fits, receive_loop)
              (rest.ends
                ∙ ap (λ (l : List ℕ). complete l rest.left)
                    (append_assoc got xs (take (suc n - length xs) (payload es))
                      ∙ ap (λ (l : List ℕ). got ++ l)
                          (sym (take-past (suc n) (suc n - length xs) xs (payload es) below))));
        carries = record {
          unbroken = rest.carries.unbroken;
          bytes =
              rest.carries.bytes
              ∙ sym (drop-past (suc n) (suc n - length xs) xs (payload es) below);
        };
      }
  | inr long ↦
      let above : suc n ≤ length xs = ground arith in
      record {
        left = arrived (drop (suc n) xs) ∷ es;
        ends =
            rw (long, receive_loop)
              (ap (λ (l : List ℕ). complete (got ++ l) (arrived (drop (suc n) xs) ∷ es))
                (sym (take-append (suc n) xs (payload es) above)));
        carries = record { unbroken = u; bytes = sym (drop-append (suc n) xs (payload es) above) };
      }
]

-- The loop on a stream that starts with `xs` takes `xs`.
pub receive_loop-takes :
    (xs rest : List ℕ) (es : List Event)
    → Carries es (xs ++ rest)
    → (left : List Event) × (receive_loop (length xs) [] es ≡ complete xs left) × Carries left rest
receive_loop-takes xs rest es c =
    let t =
      receive_loop-Took (length xs) [] es c.unbroken
        (omega (arith, length-append xs rest, ap length c.bytes)) in
    (
      t.left,
      t.ends
          ∙ ap (λ (l : List ℕ). complete l t.left)
              (ap (λ (l : List ℕ). take (length xs) l) c.bytes ∙ take_all xs rest),
      record {
        unbroken = t.carries.unbroken;
        bytes =
            t.carries.bytes ∙ (ap (λ (l : List ℕ). drop (length xs) l) c.bytes ∙ drop_all xs rest);
      },
    )

receive_body_lem :
    (uninit : Bytes) (body rest : List ℕ) (es : List Event)
    → IsBody body
    → Carries es (body ++ rest)
    → (left : List Event) × (receive_body uninit (length body + 4) es
        ≡ received (place uninit 0 (framed body)) (length body + 4) left)
      × Carries left rest
unfolding receive_body
receive_body_lem uninit body rest es b c =
    let n = length body + 4 in
    let (left, tail, c') = receive_loop-takes body rest es c in
    let long : ltb n 8 ≡ false = ground (arith, b.typed) in
    let missing : n - 4 ≡ length body = omega arith in
    let buf : place (store32 uninit 0 (htonl n)) 4 body ≡ place uninit 0 (framed body) =
      ap (λ (m : Bytes). place m 4 body) (store32-place uninit 0 n)
      ∙ sym (unfold big_endian framed in place-append uninit 0 (big_endian n) body) in
    (
      left,
      rw (missing, receive_body)
          (rw tail (rw (long, ltb) (ap (λ (m : Bytes). received m n left) buf))),
      c',
    )

-- On a socket that carries a framed message and then `rest`, in whatever pieces it arrives and
-- however often a signal interrupts a call, the message is received as it was sent, and `rest` is
-- left on the socket.
pub receive_message-framed :
    (uninit : Bytes) (body rest : List ℕ) (es : List Event)
    → IsBody body
    → Carries es (framed body ++ rest)
    → (left : List Event) × (receive_message uninit true es
        ≡ received (place uninit 0 (framed body)) (length body + 4) left)
      × Carries left rest
unfolding receive_message
receive_message-framed uninit body rest es b c =
    let n = length body + 4 in
    let (behind, head, c') = receive_loop-takes (big_endian n) (body ++ rest) es (record {
      unbroken = c.unbroken;
      bytes = c.bytes ∙ (unfold framed in append_assoc (big_endian n) body rest);
    }) in
    let (left, got, c'') = receive_body_lem uninit body rest behind b c' in
    let four : length (big_endian n) ≡ 4 = unfold big_endian in refl in
    let head' : receive_loop 4 [] es ≡ complete (big_endian n) behind =
      ap (λ (k : ℕ). receive_loop k [] es) (sym four) ∙ head in
    let len : htonl (load32 (place uninit 0 (big_endian n)) 0) ≡ n =
      length_field uninit n (omega (arith, b.short)) in
    let allowed : is_refused_length n ≡ false = ground (arith, b.short) in
    (
      left,
      rw (head', receive_message) (rw (len, receive_message) (rw (allowed, receive_message) got)),
      c'',
    )
