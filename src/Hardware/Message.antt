-- ===== src/Hardware/Message.antt =====
-- A hardware information message as the protocol describes it, and what the router reads of it.
use nw_proj.Base.{
  ℕ, zero, suc, ◌+◌, ◌*◌, ◌^◌, ◌≤◌, ◌<◌, ◌≡◌, refl, ap, ◌∙◌, arith, fun_ext, List, [], ◌∷◌, ◌++◌,
  length, map, All, All-append, length-append, subst,
}
use nw_proj.Memory.{Bytes, load32, memcpy, htonl}
use nw_proj.Memory.Laws.{IsBytes}
use nw_proj.Memory.Place.{big_endian, slice, place, length-slice}
use nw_proj.Memory.Holds.{Holds, place-Holds, Holds-append, Holds-big_endian, Holds-slice}
use nw_proj.Instance.{Iface, Outcome, ok, ◌>>=◌}
use nw_proj.Vns.{framed, AreBytes, big_endian-AreBytes, framed-AreBytes}
use nw_proj.Interfaces.{sr_set_ether_addr, update_last}
use nw_proj.Hardware.{
  HwEntry, c_string, handle_hw_entry, handle_hw_entries, read_hw_entries, num_entries,
  sr_handle_hwinfo,
}
use nw_proj.Hardware.Laws.{Description, entries_of, described, handle_hw_entries-descriptions}

-- An entry: its key, and 32 bytes of value.
unfoldable pub entry_bytes : HwEntry → List ℕ
entry_bytes e = big_endian e.key ++ slice e.value 0 32

unfoldable pub entries_bytes : List HwEntry → List ℕ
entries_bytes [] = []
entries_bytes (e ∷ es) = entry_bytes e ++ entries_bytes es

-- The message of type 16 that describes interfaces, behind its length.
unfoldable pub hwinfo_body : List Description → List ℕ
hwinfo_body ds = big_endian 16 ++ entries_bytes (entries_of ds)

-- The values of a description are bytes.
pub record IsDescription (d : Description) : Type 0 where
  pub name : IsBytes d.name
  pub ether : IsBytes d.ether
  pub eth_ip : IsBytes d.eth_ip

-- An entry whose key fits its field and whose value is bytes.
abbrev IsEntry : HwEntry → Type 0
IsEntry e = (e.key < 2 ^ 32) × IsBytes e.value

entries_of-IsEntry : (ds : List Description) → All IsDescription ds → All IsEntry (entries_of ds)
entries_of-IsEntry [] h = tt
entries_of-IsEntry (d ∷ ds) h = (
  (omega arith, h.0.name),
  ((omega arith, h.0.ether), ((omega arith, h.0.eth_ip), entries_of-IsEntry ds h.1)),
)

length-entries_of : (ds : List Description) → length (entries_of ds) ≡ 3 * length ds
length-entries_of [] = refl
length-entries_of (d ∷ ds) = omega (arith, length-entries_of ds)

length-entry_bytes : (e : HwEntry) → length (entry_bytes e) ≡ 36
unfolding entry_bytes big_endian
length-entry_bytes e = omega (arith, length-slice e.value 0 32)

length-entries_bytes : (es : List HwEntry) → length (entries_bytes es) ≡ 36 * length es
unfolding entries_bytes
length-entries_bytes [] = refl
length-entries_bytes (e ∷ es) = omega (
  arith,
  length-append (entry_bytes e) (entries_bytes es),
  length-entry_bytes e,
  length-entries_bytes es,
)

pub length-hwinfo_body : (ds : List Description) → length (hwinfo_body ds) ≡ 4 + 108 * length ds
unfolding hwinfo_body big_endian
length-hwinfo_body ds = omega (arith, length-entries_bytes (entries_of ds), length-entries_of ds)

slice-AreBytes : (v : Bytes) (b n : ℕ) → IsBytes v → AreBytes (slice v b n)
unfolding slice
slice-AreBytes v b zero h = tt
slice-AreBytes v b (suc n) h = (h b, slice-AreBytes v (b + 1) n h)

entries_bytes-AreBytes : (es : List HwEntry) → All IsEntry es → AreBytes (entries_bytes es)
unfolding entries_bytes entry_bytes
entries_bytes-AreBytes [] h = tt
entries_bytes-AreBytes (e ∷ es) h =
    All-append (λ x. x < 256) (entry_bytes e) (entries_bytes es)
      (All-append (λ x. x < 256) (big_endian e.key) (slice e.value 0 32) (big_endian-AreBytes e.key)
        (slice-AreBytes e.value 0 32 h.0.1))
      (entries_bytes-AreBytes es h.1)

pub hwinfo_body-AreBytes :
    (ds : List Description) → All IsDescription ds → AreBytes (hwinfo_body ds)
unfolding hwinfo_body
hwinfo_body-AreBytes ds h =
    All-append (λ x. x < 256) (big_endian 16) (entries_bytes (entries_of ds))
      (big_endian-AreBytes 16) (entries_bytes-AreBytes (entries_of ds) (entries_of-IsEntry ds h))

-- Entries of one key, and of values that are the same in the 32 bytes of the message.
pub record Alike (e e' : HwEntry) : Type 0 where
  pub key : e.key ≡ e'.key
  pub value : (i : ℕ) → i < 32 → e.value i ≡ e'.value i

AllAlike : List HwEntry → List HwEntry → Type 0
AllAlike [] [] = Unit {0}
AllAlike [] (e' ∷ es') = ⊥
AllAlike (e ∷ es) [] = ⊥
AllAlike (e ∷ es) (e' ∷ es') = Alike e e' × AllAlike es es'

c_string-same : (n : ℕ) (v w : Bytes) → ((i : ℕ) → i < n → v i ≡ w i) → c_string n v ≡ c_string n w
unfolding c_string
c_string-same zero v w h = refl
c_string-same (suc n) v w h =
    rw
      (
        h 0 (omega arith),
        c_string-same n (λ i. v (suc i)) (λ i. w (suc i)) (λ i lt. h (suc i) (omega (arith, lt))),
      )
      refl

load32-same : (v w : Bytes) → ((i : ℕ) → i < 32 → v i ≡ w i) → load32 v 0 ≡ load32 w 0
unfolding load32
load32-same v w h =
    omega (arith, h 0 (omega arith), h 1 (omega arith), h 2 (omega arith), h 3 (omega arith))

sr_set_ether_addr-same :
    (is : List Iface) (v w : Bytes)
    → ((i : ℕ) → i < 32 → v i ≡ w i)
    → sr_set_ether_addr is v ≡ sr_set_ether_addr is w
unfolding sr_set_ether_addr memcpy
sr_set_ether_addr-same is v w h =
    ap (λ (f : Bytes → Bytes). update_last (λ (i : Iface). record i { addr = f i.addr }) is)
      (fun_ext λ m. fun_ext λ k. ground (arith, h k))

handle_hw_entry-Alike :
    (uninit : Bytes) (e e' : HwEntry) (is : List Iface)
    → Alike e e'
    → handle_hw_entry uninit e is ≡ handle_hw_entry uninit e' is
unfolding handle_hw_entry
handle_hw_entry-Alike uninit e e' is h =
    rw
      (
        h.key,
        c_string-same 32 e.value e'.value h.value,
        load32-same e.value e'.value h.value,
        sr_set_ether_addr-same is e.value e'.value h.value,
      )
      refl

handle_hw_entries-AllAlike :
    (uninit : Bytes) (es es' : List HwEntry) (is : List Iface)
    → AllAlike es es'
    → handle_hw_entries uninit es is ≡ handle_hw_entries uninit es' is
unfolding handle_hw_entries AllAlike
handle_hw_entries-AllAlike uninit [] [] is h = refl
handle_hw_entries-AllAlike uninit [] (e' ∷ es') is h = absurd h
handle_hw_entries-AllAlike uninit (e ∷ es) [] is h = absurd h
handle_hw_entries-AllAlike uninit (e ∷ es) (e' ∷ es') is h =
    ap (λ (o : Outcome (List Iface)). o >>= handle_hw_entries uninit es)
      (handle_hw_entry-Alike uninit e e' is h.0)
    ∙ ap (λ (f : List Iface → Outcome (List Iface)). handle_hw_entry uninit e' is >>= f)
        (fun_ext λ js. handle_hw_entries-AllAlike uninit es es' js h.1)

-- What is read where entries stand.
read_hw_entries-AllAlike :
    (m : Bytes) (a : ℕ) (es : List HwEntry)
    → All IsEntry es
    → Holds m a (entries_bytes es)
    → AllAlike (read_hw_entries m a (length es)) es
unfolding entries_bytes entry_bytes read_hw_entries AllAlike
read_hw_entries-AllAlike m a [] h stands = tt
read_hw_entries-AllAlike m a (e ∷ es) h stands =
    let (front, behind) = Holds-append m a (entry_bytes e) (entries_bytes es) stands in
    let (key, value) = Holds-append m a (big_endian e.key) (slice e.value 0 32) front in
    let value' : Holds m (a + 4) (slice e.value 0 32) = unfold big_endian in value in
    let next : Holds m (a + 36) (entries_bytes es) =
      subst (λ (k : ℕ). Holds m (a + k) (entries_bytes es)) (length-entry_bytes e) behind in
    (
      record {
        key = Holds-big_endian m a e.key h.0.0 key;
        value = λ i lt. Holds-slice m (a + 4) e.value 0 32 i value' lt ∙ ap e.value (omega arith);
      },
      read_hw_entries-AllAlike m (a + 36) es h.1 next,
    )

-- A message of at most 10000 bytes that describes interfaces, each by an entry with its name, one
-- with its hardware address and one with its IP address, in this order, wherever it was received
-- into, adds exactly those interfaces, in their order, behind those that are there, and does not
-- fail.
pub sr_handle_hwinfo-described :
    (uninit m : Bytes) (ds : List Description) (is : List Iface)
    → All IsDescription ds
    → 8 + 108 * length ds ≤ 10000
    → sr_handle_hwinfo uninit (place m 0 (framed (hwinfo_body ds))) is
      ≡ ok (is ++ map (described uninit) ds)
unfolding sr_handle_hwinfo num_entries framed hwinfo_body
sr_handle_hwinfo-described uninit m ds is h short =
    let es = entries_of ds in
    let n = length (hwinfo_body ds) + 4 in
    let buf = place m 0 (framed (hwinfo_body ds)) in
    let whole =
      place-Holds m 0 (framed (hwinfo_body ds))
        (framed-AreBytes (hwinfo_body ds) (hwinfo_body-AreBytes ds h)) in
    let (head, body) = Holds-append buf 0 (big_endian n) (hwinfo_body ds) whole in
    let (_, entries) =
      Holds-append buf 4 (big_endian 16) (entries_bytes es) (unfold big_endian in body) in
    let size : htonl (load32 buf 0) ≡ 8 + 36 * length es =
      Holds-big_endian buf 0 n (omega (arith, short, length-hwinfo_body ds)) head
      ∙ omega (arith, length-hwinfo_body ds, length-entries_of ds) in
    let count : num_entries buf ≡ length es = ground (arith, size, short, length-entries_of ds) in
    rw (count, sr_handle_hwinfo)
      (handle_hw_entries-AllAlike uninit (read_hw_entries buf 8 (length es)) es is (
          read_hw_entries-AllAlike buf 8 es (entries_of-IsEntry ds h)
            (unfold big_endian in entries))
        ∙ handle_hw_entries-descriptions uninit ds is)
