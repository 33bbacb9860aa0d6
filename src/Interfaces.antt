-- ===== src/Interfaces.antt =====
-- sr_if.c: the interface list.
pub mod Laws
pub mod Print
use nw_proj.Base.{ℕ, ◌+◌, Bool, true, false, Option, none, some, List, [], ◌∷◌, ◌++◌, if◌then◌else◌}
use nw_proj.Memory.{Bytes, memcpy, load32}
use nw_proj.Protocol.{iface_namelen, ether_addr_len}
use nw_proj.Text.{Text, strncmp_eq, strncpy}
use nw_proj.Instance.{Iface, Outcome, ok, crash, out_of_fuel, assertion, ◌>>=◌}

-- The first interface of that name in the first 32 characters.
unfoldable pub sr_get_interface : List Iface → Text → Option Iface
sr_get_interface [] name = none
sr_get_interface (i ∷ is) name =
    let rest = sr_get_interface is name in
    if strncmp_eq iface_namelen i.name name then some i else rest

-- The new node goes to the end. Only its name is set: the rest is what `malloc` found, at the
-- offsets of the fields in the struct.
unfoldable pub sr_add_interface : Bytes → List Iface → Text → List Iface
sr_add_interface uninit if_list name = if_list ++ fresh ∷ []
  where
    fresh : Iface
    fresh = record {
      name = strncpy iface_namelen name;
      addr = λ i. uninit (i + 32);
      ip = load32 uninit 40;
      speed = load32 uninit 44;
    }

-- A change of the last interface; an empty list fails the assertion.
unfoldable pub update_last : (Iface → Iface) → List Iface → Outcome (List Iface)
update_last f [] = crash assertion
update_last f (i ∷ []) = ok (f i ∷ [])
update_last f (i ∷ (j ∷ is)) = do rest ← update_last f (j ∷ is); ok (i ∷ rest)

unfoldable pub sr_set_ether_addr : List Iface → Bytes → Outcome (List Iface)
sr_set_ether_addr if_list addr =
    update_last (λ i. record i { addr = memcpy i.addr 0 addr 0 ether_addr_len }) if_list

unfoldable pub sr_set_ether_ip : List Iface → ℕ → Outcome (List Iface)
sr_set_ether_ip if_list ip_nbo = update_last (λ i. record i { ip = ip_nbo }) if_list
