-- ===== src/Interfaces/Print.antt =====
-- sr_print_if_list and sr_print_if of sr_if.c, with the macros Debug and DebugMAC of sr_router.h as
-- the build defines them. inet_ntoa is a parameter.
use nw_proj.Base.{ℕ, zero, suc, ◌+◌, List, [], ◌∷◌, ◌++◌}
use nw_proj.Memory.{Bytes}
use nw_proj.Text.{Text}
use nw_proj.Instance.{Iface}
use nw_proj.Print.{codes, hex_lower}

-- The loop of DebugMAC, with `left` rounds to go from `ivyl` on.
unfoldable pub debug_mac_from : Bytes → ℕ → ℕ → Text
debug_mac_from x zero ivyl = []
debug_mac_from x (suc left) ivyl =
    hex_lower 2 (x ivyl) ++ (codes ":" ++ debug_mac_from x left (ivyl + 1))

unfoldable pub debug_mac : Bytes → Text
debug_mac x = debug_mac_from x 5 0 ++ hex_lower 2 (x 5)

module _ (inet_ntoa : ℕ → Text) where
  unfoldable pub sr_print_if : Iface → Text
  sr_print_if iface =
      iface.name
      ++ (codes "\tMAC Addr: "
          ++ (debug_mac iface.addr
              ++ (codes "\n" ++ (codes "\t IP Addr: " ++ (inet_ntoa iface.ip ++ codes "\n")))))

  -- The interface at which the walker stands, and those behind it.
  unfoldable pub print_ifs : List Iface → Text
  print_ifs [] = []
  print_ifs (iface ∷ rest) = sr_print_if iface ++ print_ifs rest

  unfoldable pub sr_print_if_list : List Iface → Text
  sr_print_if_list [] = codes " Interface list empty \n"
  sr_print_if_list (iface ∷ rest) = print_ifs (iface ∷ rest)
