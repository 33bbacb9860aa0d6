-- ===== src/Connect/Template.antt =====
-- The message that opens a session for a template, and both messages together.
use nw_proj.Base.{
  ℕ, ◌+◌, ◌≡◌, sym, ap, ◌∙◌, arith, List, ◌++◌, length, All-append, length-append, if◌then◌else◌,
  Bool-cases, inl, inr,
}
use nw_proj.Memory.{Bytes, store32, htonl}
use nw_proj.Memory.Place.{place, slice, big_endian, store32-ahead, place-append}
use nw_proj.Text.{padded}
use nw_proj.Vns.{framed, AreBytes, slice-framed, big_endian-AreBytes}
use nw_proj.Connect.{
  Client, open_template_message, opening, has_template, vns_open_template, sizeof_open_template,
  idsize, template_size,
}
use nw_proj.Connect.Open.{open_body, open_message-framed, length-padded, padded-AreBytes}

-- The fields of c_open_template behind its length: the type, and the template and the host in
-- fields of 30 and 32 bytes filled up with zeros.
unfoldable pub template_body : Client → List ℕ
template_body c =
    big_endian vns_open_template ++ (padded template_size c.template ++ padded idsize c.host)

length-template_body : (c : Client) → length (template_body c) ≡ 66
unfolding template_body big_endian
length-template_body c = omega (
  arith,
  length-append (padded template_size c.template) (padded idsize c.host),
  length-padded template_size c.template,
  length-padded idsize c.host,
)

template_body-AreBytes :
    (c : Client) → AreBytes c.template → AreBytes c.host → AreBytes (template_body c)
unfolding template_body
template_body-AreBytes c t h =
    All-append _ (big_endian vns_open_template) _ (big_endian-AreBytes vns_open_template) (
      All-append _ (padded template_size c.template) _ (padded-AreBytes template_size c.template t)
        (padded-AreBytes idsize c.host h))

open_template_message-framed :
    (uninit : Bytes) (c : Client)
    → AreBytes c.template
    → AreBytes c.host
    → open_template_message uninit c ≡ framed (template_body c)
unfolding open_template_message template_body
open_template_message-framed uninit c t h =
    let len : length (template_body c) + 4 ≡ sizeof_open_template =
      omega (arith, length-template_body c) in
    let ot = store32 uninit 0 (htonl sizeof_open_template) in
    let ot1 = store32 ot 4 (htonl vns_open_template) in
    let fields = padded template_size c.template ++ padded idsize c.host in
    ap (λ (m : Bytes). slice m 0 sizeof_open_template)
      (ap
          (λ (k : ℕ).
            place (place ot1 8 (padded template_size c.template)) (8 + k) (padded idsize c.host))
          (sym (length-padded template_size c.template))
        ∙ (sym (place-append ot1 8 (padded template_size c.template) (padded idsize c.host))
            ∙ (store32-ahead ot 4 vns_open_template fields
                ∙ store32-ahead uninit 0 sizeof_open_template
                    (big_endian vns_open_template ++ fields))))
    ∙ (ap (λ (n : ℕ). slice (place uninit 0 (big_endian n ++ template_body c)) 0 n) (sym len)
        ∙ slice-framed uninit (template_body c) (template_body-AreBytes c t h))

-- Whatever the memory held that it is built in, the message that opens the session is, for a
-- template, of type 64 with the template and the host, and otherwise of type 1 with the topology
-- as 16 bits in network order, the host, the user and an empty password; texts are in fields of
-- 30 bytes for the template and 32 for the others, cut or filled up with zeros.
pub opening-framed :
    (uninit : Bytes) (c : Client)
    → AreBytes c.template
    → AreBytes c.host
    → AreBytes c.user
    → opening uninit c ≡ (if has_template c then framed (template_body c) else framed (open_body c))
unfolding opening
opening-framed uninit c t h u = elim (Bool-cases (has_template c)) [
  | inl with_template ↦ rw (with_template, opening) (open_template_message-framed uninit c t h)
  | inr without ↦ rw (without, opening) (open_message-framed uninit c h u)
]
