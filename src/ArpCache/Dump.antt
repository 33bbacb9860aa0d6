-- ===== src/ArpCache/Dump.antt =====
-- sr_arpcache_dump of sr_arpcache.c. ctime is a parameter.
use nw_proj.Base.{ℕ, List, [], ◌∷◌, ◌++◌, ltb, take, if◌then◌else◌}
use nw_proj.Memory.{htonl}
use nw_proj.Text.{Text}
use nw_proj.Instance.{ArpEntry, ArpCache}
use nw_proj.Print.{codes, hex_lower}

-- `%.1x` of a byte.
unfoldable pub short_hex : ℕ → Text
short_hex b = if ltb b 16 then hex_lower 1 b else hex_lower 2 b

module _ (ctime : ℕ → Text) where
  unfoldable pub dump_entry : ArpEntry → Text
  dump_entry cur =
      short_hex (cur.mac 0)
      ++ (short_hex (cur.mac 1)
          ++ (short_hex (cur.mac 2)
              ++ (short_hex (cur.mac 3)
                  ++ (short_hex (cur.mac 4)
                      ++ (short_hex (cur.mac 5)
                          ++ (codes "   "
                              ++ (hex_lower 8 (htonl cur.ip)
                                  ++ (codes "   "
                                      ++ (take 24 (ctime cur.added)
                                          ++ (codes "   "
                                              ++ (codes (if cur.valid then "1" else "0")
                                                  ++ codes "\n")))))))))))

  unfoldable pub dump_entries : List ArpEntry → Text
  dump_entries [] = []
  dump_entries (cur ∷ rest) = dump_entry cur ++ dump_entries rest

  unfoldable pub sr_arpcache_dump : ArpCache → Text
  sr_arpcache_dump cache =
      codes "\nMAC            IP         ADDED                      VALID\n"
      ++ (codes "-----------------------------------------------------------\n"
          ++ (dump_entries cache.entries ++ codes "\n"))
