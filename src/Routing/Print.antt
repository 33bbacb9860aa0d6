-- ===== src/Routing/Print.antt =====
-- The printing of the routing table in sr_rt.c. inet_ntoa is a parameter.
pub mod ReadBack
use nw_proj.Base.{ℕ, ◌-◌, List, [], ◌∷◌, ◌++◌, length, replicate}
use nw_proj.Text.{Text}
use nw_proj.Instance.{RtEntry}
use nw_proj.Print.{codes}

-- `%-14s` and a tabulator.
unfoldable pub column : Text → Text
column w = w ++ (replicate (14 - length w) b' ' ++ b'\t' ∷ [])

module _ (inet_ntoa : ℕ → Text) where
  unfoldable pub sr_print_routing_entry : RtEntry → Text
  sr_print_routing_entry entry =
      column (inet_ntoa entry.dest)
      ++ (column (inet_ntoa entry.gw)
          ++ (column (inet_ntoa entry.mask) ++ (entry.interface ++ codes "\n")))

  -- The entry at which the walker stands, and those behind it.
  unfoldable pub print_entries : List RtEntry → Text
  print_entries [] = []
  print_entries (entry ∷ rest) = sr_print_routing_entry entry ++ print_entries rest

  unfoldable pub sr_print_routing_table : List RtEntry → Text
  sr_print_routing_table [] = codes " *warning* Routing table empty \n"
  sr_print_routing_table (entry ∷ rest) =
      codes "Destination\tGateway\t\tMask\t\tIface\n" ++ print_entries (entry ∷ rest)
