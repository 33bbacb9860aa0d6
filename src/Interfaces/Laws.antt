-- ===== src/Interfaces/Laws.antt =====
-- Looking interfaces up and setting the newest one.
use nw_proj.Base.{ℕ, ◌+◌, ◌≡◌, refl, none, some, List, [], ◌∷◌, ◌++◌, arith}
use nw_proj.Memory.{Bytes, memcpy, load32}
use nw_proj.Protocol.{iface_namelen, ether_addr_len}
use nw_proj.Text.{Text, strncpy, strncmp_eq_refl, strncmp_eq-strncpy, strncmp_eq-strncpy_right}
use nw_proj.Instance.{Iface, Outcome, ok, ◌>>=◌}
use nw_proj.Interfaces.{
  sr_get_interface, sr_add_interface, update_last, sr_set_ether_addr, sr_set_ether_ip,
}

pub sr_get_interface-append :
    (xs ys : List Iface) (name : Text)
    → sr_get_interface xs name ≡ none
    → sr_get_interface (xs ++ ys) name ≡ sr_get_interface ys name
unfolding sr_get_interface
sr_get_interface-append [] ys name h = refl
sr_get_interface-append (x ∷ xs) ys name h = ground (arith, sr_get_interface-append xs ys name)

pub sr_get_interface-append_found :
    (xs ys : List Iface) (name : Text) (i : Iface)
    → sr_get_interface xs name ≡ some i
    → sr_get_interface (xs ++ ys) name ≡ some i
unfolding sr_get_interface
sr_get_interface-append_found [] ys name i h = ground arith
sr_get_interface-append_found (x ∷ xs) ys name i h =
    ground (arith, sr_get_interface-append_found xs ys name i)

pub update_last-append :
    (f : Iface → Iface) (xs : List Iface) (i : Iface)
    → update_last f (xs ++ i ∷ []) ≡ ok (xs ++ f i ∷ [])
unfolding update_last
update_last-append f [] i = refl
update_last-append f (x ∷ []) i = refl
update_last-append f (x ∷ (y ∷ xs)) i = ground (arith, update_last-append f (y ∷ xs) i)

-- The three calls by which the hardware information describes one interface.
abbrev pub describe : Bytes → List Iface → Text → Bytes → ℕ → Outcome (List Iface)
describe uninit if_list name addr ip = do
  named ← ok (sr_add_interface uninit if_list name)
  addressed ← sr_set_ether_addr named addr
  sr_set_ether_ip addressed ip

-- After an interface of a new name is added and its addresses are set, a lookup of that name
-- gives an interface with that IP address and those six bytes of hardware address, and a lookup
-- of a name that was found before gives what it gave.
pub sr_get_interface-describe :
    (uninit : Bytes) (is : List Iface) (name : Text) (addr : Bytes) (ip : ℕ)
    → sr_get_interface is name ≡ none
    → (out : List Iface) × (i : Iface) × (describe uninit is name addr ip ≡ ok out)
      × (sr_get_interface out name ≡ some i)
      × (i.ip ≡ ip)
      × ((k : ℕ) → i.addr k ≡ memcpy (λ j. uninit (j + 32)) 0 addr 0 ether_addr_len k)
      × ((other : Text) (old : Iface)
          → sr_get_interface is other ≡ some old
          → sr_get_interface out other ≡ some old)
unfolding sr_add_interface sr_set_ether_addr sr_set_ether_ip
sr_get_interface-describe uninit is name addr ip new =
    (is ++ i ∷ [], i, steps, found, refl, (λ k. refl), kept)
  where
    blank : Iface
    blank = record {
      name = strncpy iface_namelen name;
      addr = λ k. uninit (k + 32);
      ip = load32 uninit 40;
      speed = load32 uninit 44;
    }

    i : Iface
    i = record blank { addr = memcpy blank.addr 0 addr 0 ether_addr_len; ip = ip }

    steps : describe uninit is name addr ip ≡ ok (is ++ i ∷ [])
    steps =
        rw
          (update_last-append (λ j. record j { addr = memcpy j.addr 0 addr 0 ether_addr_len }) is
            blank)
          (update_last-append (λ j. record j { ip = ip }) is (record i { ip = blank.ip }))

    found : sr_get_interface (is ++ i ∷ []) name ≡ some i
    found = rw (sr_get_interface-append is (i ∷ []) name new) (
        unfold sr_get_interface in
        rw (strncmp_eq-strncpy iface_namelen name name, strncmp_eq_refl iface_namelen name))

    kept :
        (other : Text) (old : Iface)
        → sr_get_interface is other ≡ some old
        → sr_get_interface (is ++ i ∷ []) other ≡ some old
    kept other old h = sr_get_interface-append_found is (i ∷ []) other old h

-- A name cut to 32 characters finds what the name finds.
pub sr_get_interface-strncpy :
    (is : List Iface) (name : Text)
    → sr_get_interface is (strncpy iface_namelen name) ≡ sr_get_interface is name
unfolding sr_get_interface
sr_get_interface-strncpy [] name = refl
sr_get_interface-strncpy (i ∷ is) name =
    ground
      (arith, strncmp_eq-strncpy_right iface_namelen i.name name, sr_get_interface-strncpy is name)
