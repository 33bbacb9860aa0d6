-- ===== src/Hardware.antt =====
-- sr_handle_hwinfo of sr_vns_comm.c: the server's description of the interfaces, a message of
-- vnscommand.h with its length at 0 and entries of 36 bytes from 8 on.
pub mod Laws
pub mod Message
use nw_proj.Base.{
  ℕ, zero, suc, ◌+◌, ◌-◌, ◌*◌, ◌/◌, ◌%◌, ◌^◌, Bool, true, false, List, [], ◌∷◌, ◌==◌, ltb,
  if◌then◌else◌,
}
use nw_proj.Memory.{Bytes, load32, htonl}
use nw_proj.Protocol.{iface_namelen}
use nw_proj.Text.{Text}
use nw_proj.Instance.{Iface, Outcome, ok, ◌>>=◌}
use nw_proj.Interfaces.{sr_add_interface, sr_set_ether_addr, sr_set_ether_ip}

abbrev pub hw_interface : ℕ
hw_interface = 1

abbrev pub hw_ether : ℕ
hw_ether = 32

abbrev pub hw_eth_ip : ℕ
hw_eth_ip = 64

-- c_hw_entry: its key in host order, and its value.
pub record HwEntry : Type 0 where
  pub key : ℕ
  pub value : Bytes

abbrev pub sizeof_hw_entry : ℕ
sizeof_hw_entry = 36

-- The characters of a C string before its end, of which at most `n` are read.
unfoldable pub c_string : ℕ → Bytes → Text
c_string zero m = []
c_string (suc n) m = let rest = c_string n (λ i. m (suc i)) in if m 0 == 0 then [] else m 0 ∷ rest

-- The switch. The keys that it only names, and unknown ones, change nothing.
unfoldable pub handle_hw_entry : Bytes → HwEntry → List Iface → Outcome (List Iface)
handle_hw_entry uninit e if_list =
    if e.key == hw_interface
    then ok (sr_add_interface uninit if_list (c_string iface_namelen e.value))
    else if e.key == hw_eth_ip
    then sr_set_ether_ip if_list (load32 e.value 0)
    else if e.key == hw_ether
    then sr_set_ether_addr if_list e.value
    else ok if_list

-- The loop over the entries.
unfoldable pub handle_hw_entries : Bytes → List HwEntry → List Iface → Outcome (List Iface)
handle_hw_entries uninit [] if_list = ok if_list
handle_hw_entries uninit (e ∷ es) if_list = do
  if_list' ← handle_hw_entry uninit e if_list
  handle_hw_entries uninit es if_list'

-- `n` entries of the message from `at` on.
unfoldable pub read_hw_entries : Bytes → ℕ → ℕ → List HwEntry
read_hw_entries m at zero = []
read_hw_entries m at (suc n) =
    record { key = htonl (load32 m at); value = λ i. m (at + 4 + i) }
    ∷ read_hw_entries m (at + sizeof_hw_entry) n

-- The number of entries: the length less the header as a `size_t`, by the size of an entry, cut to
-- an `int`; below zero the loop does not start.
unfoldable pub num_entries : Bytes → ℕ
num_entries m =
    let n = (htonl (load32 m 0) + 2 ^ 64 - 8) % 2 ^ 64 / sizeof_hw_entry % 2 ^ 32 in
    if ltb n (2 ^ 31) then n else 0

unfoldable pub sr_handle_hwinfo : Bytes → Bytes → List Iface → Outcome (List Iface)
sr_handle_hwinfo uninit m if_list =
    handle_hw_entries uninit (read_hw_entries m 8 (num_entries m)) if_list
