-- ===== src/Hardware/Laws.antt =====
-- What a description of the interfaces makes of the interface list.
use nw_proj.Base.{◌+◌, ◌≡◌, List, [], ◌∷◌, ◌++◌, ◌∙◌, ap, map, sym}
use mathlib.Core.List.{append-nil, append_assoc}
use nw_proj.Memory.{Bytes, load32, memcpy}
use nw_proj.Protocol.{iface_namelen, ether_addr_len}
use nw_proj.Text.{strncpy}
use nw_proj.Instance.{Iface, ok}
use nw_proj.Interfaces.{sr_add_interface, sr_set_ether_addr, sr_set_ether_ip}
use nw_proj.Interfaces.Laws.{update_last-append}
use nw_proj.Hardware.{
  HwEntry, hw_interface, hw_ether, hw_eth_ip, c_string, handle_hw_entry, handle_hw_entries,
}

-- One interface in the server's description: its name, then its hardware and its IP address, as
-- the values of three entries.
pub record Description : Type 0 where
  pub name : Bytes
  pub ether : Bytes
  pub eth_ip : Bytes

abbrev pub entries_of : List Description → List HwEntry
entries_of [] = []
entries_of (d ∷ ds) =
    record { key = hw_interface; value = d.name }
    ∷ (record { key = hw_ether; value = d.ether }
        ∷ (record { key = hw_eth_ip; value = d.eth_ip } ∷ entries_of ds))

-- The interface that was described; its speed is what the allocated memory held.
abbrev pub described : Bytes → Description → Iface
described uninit d = record {
  name = strncpy iface_namelen (c_string iface_namelen d.name);
  addr = memcpy (λ k. uninit (k + 32)) 0 d.ether 0 ether_addr_len;
  ip = load32 d.eth_ip 0;
  speed = load32 uninit 44;
}

handle_hw_entries-described :
    (uninit : Bytes) (d : Description) (es : List HwEntry) (is : List Iface)
    → handle_hw_entries uninit (entries_of (d ∷ []) ++ es) is
      ≡ handle_hw_entries uninit es (is ++ described uninit d ∷ [])
unfolding handle_hw_entries handle_hw_entry sr_add_interface sr_set_ether_addr sr_set_ether_ip
handle_hw_entries-described uninit d es is =
    let blank : Iface = record {
      name = strncpy iface_namelen (c_string iface_namelen d.name);
      addr = λ k. uninit (k + 32);
      ip = load32 uninit 40;
      speed = load32 uninit 44;
    } in
    let own : Iface = record blank { addr = memcpy blank.addr 0 d.ether 0 ether_addr_len } in
    rw
      (update_last-append (λ j. record j { addr = memcpy j.addr 0 d.ether 0 ether_addr_len }) is
        blank)
      (rw (update_last-append (λ j. record j { ip = load32 d.eth_ip 0 }) is own))

pub handle_hw_entries-descriptions :
    (uninit : Bytes) (ds : List Description) (is : List Iface)
    → handle_hw_entries uninit (entries_of ds) is ≡ ok (is ++ map (described uninit) ds)
unfolding handle_hw_entries
handle_hw_entries-descriptions uninit [] is = ap ok (sym (append-nil is))
handle_hw_entries-descriptions uninit (d ∷ ds) is =
    handle_hw_entries-described uninit d (entries_of ds) is
    ∙ handle_hw_entries-descriptions uninit ds (is ++ described uninit d ∷ [])
    ∙ ap ok (append_assoc is (described uninit d ∷ []) (map (described uninit) ds))
