-- ===== src/Server/Refused.antt =====
-- What comes of a message whose length is out of bounds.
use nw_proj.Base.{
  ℕ, ◌-◌, ◌^◌, ◌≤◌, ◌<◌, ◌≡◌, refl, sym, ap, ◌∙◌, arith, Bool, true, false, ◌||◌, not, List, [],
  ◌++◌, ltb, length, take, drop, take-drop, length-take, inl, inr, if◌then◌else◌, ◌⊎◌,
}
use nw_proj.Memory.{Bytes}
use nw_proj.Memory.Place.{big_endian, length_field}
use nw_proj.Server.Receive.{
  Event, complete, receive_loop, refused, overrun, is_refused_length, receive_body, receive_message,
}
use nw_proj.Server.Framing.{Carries, receive_loop-takes}

-- The message as its length is known.
receive_message-length :
    (uninit : Bytes) (allocated : Bool) (n : ℕ) (rest : List ℕ) (es : List Event)
    → n < 2 ^ 32
    → Carries es (big_endian n ++ rest)
    → (behind : List Event) × (receive_message uninit allocated es
        ≡ (if is_refused_length n || not allocated then refused else receive_body uninit n behind))
      × Carries behind rest
unfolding receive_message
receive_message-length uninit allocated n rest es h c =
    let (behind, head, c') = receive_loop-takes (big_endian n) rest es c in
    let four : length (big_endian n) ≡ 4 = unfold big_endian in refl in
    let head' : receive_loop 4 [] es ≡ complete (big_endian n) behind =
      ap (λ (k : ℕ). receive_loop k [] es) (sym four) ∙ head in
    (behind, rw (head', receive_message) (rw (length_field uninit n h, receive_message) refl), c')

-- A body of less than 8 bytes has been read to its end before its type is written back.
receive_body-overrun :
    (uninit : Bytes) (n : ℕ) (rest : List ℕ) (es : List Event)
    → n < 8
    → n - 4 ≤ length rest
    → Carries es rest
    → receive_body uninit n es ≡ overrun
unfolding receive_body
receive_body-overrun uninit n rest es h enough c =
    let xs = take (n - 4) rest in
    let (left, got, _) =
      receive_loop-takes xs (drop (n - 4) rest) es
        (record { unbroken = c.unbroken; bytes = c.bytes ∙ sym (take-drop (n - 4) rest) }) in
    let got' : receive_loop (n - 4) [] es ≡ complete xs left =
      ap (λ (k : ℕ). receive_loop k [] es) (sym (length-take (n - 4) rest enough)) ∙ got in
    let short : ltb n 8 ≡ true = ground arith in
    rw (got', receive_body) (rw (short, receive_body) refl)

-- A length above 10000, or that is negative as an `int`, is refused, however it arrives and whatever
-- follows it. A length below 8, where the bytes that it announces behind itself are there, makes
-- the router write past the block that it allocated.
pub receive_message_out_of_bounds :
    (uninit : Bytes) (n : ℕ) (rest : List ℕ) (es : List Event)
    → (n < 8) ⊎ (10000 < n)
    → n < 2 ^ 32
    → (n < 8 → n - 4 ≤ length rest)
    → Carries es (big_endian n ++ rest)
    → receive_message uninit true es ≡ (if ltb n 8 then overrun else refused)
receive_message_out_of_bounds uninit n rest es (inr large) h enough c =
    let (behind, e, _) = receive_message-length uninit true n rest es h c in
    let out : is_refused_length n ≡ true = ground arith in
    let not_short : ltb n 8 ≡ false = ground arith in e ∙ rw (out, ◌||◌) (rw not_short refl)
receive_message_out_of_bounds uninit n rest es (inl small) h enough c =
    let (behind, e, c') = receive_message-length uninit true n rest es h c in
    let within : is_refused_length n ≡ false = ground arith in
    let short : ltb n 8 ≡ true = ground arith in
    e
    ∙ rw (within, ◌||◌)
        (rw short (receive_body-overrun uninit n rest behind small (enough small) c'))
