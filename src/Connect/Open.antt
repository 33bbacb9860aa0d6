-- ===== src/Connect/Open.antt =====
-- What the messages that open a session hold.
use nw_proj.Base.{
  ℕ, zero, suc, ◌+◌, ◌/◌, ◌%◌, ◌^◌, ◌≤◌, ◌<◌, ◌≡◌, refl, sym, ap, ◌∙◌, arith, List, [], ◌∷◌, ◌++◌,
  length, replicate, inr, length-append, All-append, length-replicate,
}
use nw_proj.Memory.Laws.{store32-outside}
use nw_proj.Memory.{Bytes, store32, htonl, memset}
use nw_proj.Memory.Place.{
  place, slice, big_endian, store32-ahead, place-append, store16-place, place-after, place-zeros,
}
use nw_proj.Text.{Text, padded}
use nw_proj.Vns.{framed, AreBytes, slice-framed, big_endian-AreBytes}
use nw_proj.Connect.{Client, open_message, vnsopen, sizeof_open, idsize}

pub length-padded : (n : ℕ) (s : Text) → length (padded n s) ≡ n
unfolding padded
length-padded zero s = refl
length-padded (suc n) [] = ap suc (length-padded n [])
length-padded (suc n) (c ∷ cs) = ap suc (length-padded n cs)

pub padded-AreBytes : (n : ℕ) (s : Text) → AreBytes s → AreBytes (padded n s)
unfolding padded
padded-AreBytes zero s h = tt
padded-AreBytes (suc n) [] h = (omega arith, padded-AreBytes n [] tt)
padded-AreBytes (suc n) (c ∷ cs) h = (h.0, padded-AreBytes n cs h.1)

-- The fields of c_open behind its length: the type, the topology and its padding, the host and the
-- user in fields filled up with zeros, and an empty password.
unfoldable pub open_body : Client → List ℕ
open_body c =
    big_endian vnsopen
    ++ (c.topo_id / 2 ^ 8 % 256
        ∷ c.topo_id % 256
        ∷ 0
        ∷ 0
        ∷ (padded idsize c.host ++ (padded idsize c.user ++ replicate idsize 0)))

-- The buffer, and what of it is still as `memset` left it.
module _ (uninit : Bytes) (c : Client) where
  abbrev zeroed : Bytes
  zeroed = memset uninit 0 0 sizeof_open

  abbrev headed : Bytes
  headed = store32 (store32 zeroed 0 (htonl sizeof_open)) 4 (htonl vnsopen)

  abbrev located : Bytes
  located = place headed 8 (c.topo_id / 2 ^ 8 % 256 ∷ c.topo_id % 256 ∷ [])

  abbrev hosted : Bytes
  hosted = place located 12 (padded idsize c.host)

  abbrev filled : Bytes
  filled = place hosted 44 (padded idsize c.user)

  located-zero : (i : ℕ) → 10 ≤ i → i < sizeof_open → located i ≡ 0
  located-zero i l u =
      place-after headed 8 (c.topo_id / 2 ^ 8 % 256 ∷ c.topo_id % 256 ∷ []) i (omega (arith, l))
      ∙ (store32-outside (store32 zeroed 0 (htonl sizeof_open)) 4 (htonl vnsopen) i
            (inr (omega (arith, l)))
          ∙ (store32-outside zeroed 0 (htonl sizeof_open) i (inr (omega (arith, l)))
              ∙ (unfold memset in ground (arith, u))))

  filled-zero : (i : ℕ) → 76 ≤ i → i < sizeof_open → filled i ≡ 0
  filled-zero i l u =
      place-after hosted 44 (padded idsize c.user) i (omega (arith, l, length-padded idsize c.user))
      ∙ (place-after located 12 (padded idsize c.host) i
            (omega (arith, l, length-padded idsize c.host))
          ∙ located-zero i (omega (arith, l)) u)

  fields-place :
      place located 12 (padded idsize c.host ++ (padded idsize c.user ++ replicate idsize 0))
      ≡ filled
  fields-place =
      place-append located 12 (padded idsize c.host) (padded idsize c.user ++ replicate idsize 0)
      ∙ (ap (λ (k : ℕ). place hosted (12 + k) (padded idsize c.user ++ replicate idsize 0))
            (length-padded idsize c.host)
          ∙ (place-append hosted 44 (padded idsize c.user) (replicate idsize 0)
              ∙ (ap (λ (k : ℕ). place filled (44 + k) (replicate idsize 0))
                    (length-padded idsize c.user)
                  ∙ place-zeros filled 76 32 filled-zero)))

  -- The padding behind the topology is stored over zeros.
  topology-place :
      (rest : List ℕ)
      → place headed 8 (c.topo_id / 2 ^ 8 % 256 ∷ c.topo_id % 256 ∷ 0 ∷ 0 ∷ rest)
        ≡ place located 12 rest
  topology-place rest =
      place-append headed 8 (c.topo_id / 2 ^ 8 % 256 ∷ c.topo_id % 256 ∷ []) (0 ∷ 0 ∷ rest)
      ∙ (place-append located 10 (replicate 2 0) rest
          ∙ ap (λ (m : Bytes). place m 12 rest)
              (place-zeros located 10 2 (λ i l u. located-zero i l (omega (arith, u)))))

  filled-framed : place zeroed 0 (big_endian sizeof_open ++ open_body c) ≡ filled
  unfolding open_body
  filled-framed =
      sym (store32-ahead zeroed 0 sizeof_open (open_body c))
      ∙ (sym (store32-ahead (store32 zeroed 0 (htonl sizeof_open)) 4 vnsopen _)
          ∙ (topology-place (padded idsize c.host ++ (padded idsize c.user ++ replicate idsize 0))
              ∙ fields-place))

zeros-AreBytes : (n : ℕ) → AreBytes (replicate n 0)
zeros-AreBytes zero = tt
zeros-AreBytes (suc n) = (omega arith, zeros-AreBytes n)

length-open_body : (c : Client) → length (open_body c) ≡ 104
unfolding open_body big_endian
length-open_body c = omega (
  arith,
  length-append (padded idsize c.host) (padded idsize c.user ++ replicate idsize 0),
  length-append (padded idsize c.user) (replicate idsize 0),
  length-replicate {A = ℕ} idsize 0,
  length-padded idsize c.host,
  length-padded idsize c.user,
)

open_body-AreBytes : (c : Client) → AreBytes c.host → AreBytes c.user → AreBytes (open_body c)
unfolding open_body
open_body-AreBytes c h u =
    let byte : (x : ℕ) → x % 256 < 256 = λ x. omega arith in
    All-append _ (big_endian vnsopen) _ (big_endian-AreBytes vnsopen) (
      byte (c.topo_id / 2 ^ 8),
      (
        byte c.topo_id,
        (
          omega arith,
          (
            omega arith,
            All-append _ (padded idsize c.host) _ (padded-AreBytes idsize c.host h) (
                All-append _ (padded idsize c.user) _ (padded-AreBytes idsize c.user u)
                  (zeros-AreBytes idsize)),
          ),
        ),
      ),
    )

pub open_message-framed :
    (uninit : Bytes) (c : Client)
    → AreBytes c.host
    → AreBytes c.user
    → open_message uninit c ≡ framed (open_body c)
unfolding open_message
open_message-framed uninit c h u =
    let len : length (open_body c) + 4 ≡ sizeof_open = omega (arith, length-open_body c) in
    ap (λ (m : Bytes). slice m 0 sizeof_open)
      (ap (λ (m : Bytes). place (place m 12 (padded idsize c.host)) 44 (padded idsize c.user))
          (store16-place (headed uninit c) 8 c.topo_id)
        ∙ sym (filled-framed uninit c))
    ∙ (ap (λ (n : ℕ). slice (place (zeroed uninit c) 0 (big_endian n ++ open_body c)) 0 n) (sym len)
        ∙ slice-framed (zeroed uninit c) (open_body c) (open_body-AreBytes c h u))
