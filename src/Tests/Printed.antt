-- ===== src/Tests/Printed.antt =====
-- Headers of the scene as they are printed.
use nw_proj.Base.{◌/◌, ◌%◌, some, true, ◌≡◌, refl, arith, ◌∷◌, [], if◌then◌else◌, ltb, ◌++◌, ℕ}
use nw_proj.Memory.{Bytes, load16, load32, htons, htonl}
use nw_proj.Print.{
  hex_lower, codes, decimal, decimal_digits, hex_byte, hex_digit, addr_eth_from, field, ethertype,
  print_addr_eth, print_addr_ip_int, print_hdr_eth, print_hdr_arp, print_arp, print_hdrs,
}
use nw_proj.Print.Within.{print_hdrs-Agree}
use nw_proj.Print.Numbers.{address_of, read_numbers, read_pairs, print_addr_reads_back}
use nw_proj.Tests.Scene.{transit, arp_question, addr, route, eth, eth1, eth2, entry}
use nw_proj.Interfaces.Print.{debug_mac, debug_mac_from, print_ifs, sr_print_if, sr_print_if_list}
use nw_proj.ArpCache.Dump.{dump_entry, short_hex}
use nw_proj.Tests.Files.{aton, aton_from, arrays, is_word-IsWord}
use nw_proj.Instance.{ok}
use nw_proj.Text.{Text}
use nw_proj.Routing.Load.{sr_load_rt}
use nw_proj.Routing.Print.{column, print_entries, sr_print_routing_entry, sr_print_routing_table}
use nw_proj.Routing.Print.ReadBack.{IsPrintableEntry, sr_load_rt-print_entries}
use nw_proj.Tests.Accepted.{transit-IsBytes}

-- The datagram without what stands behind its IP header.
abbrev headers_only : Bytes
headers_only i = if ltb i 34 then transit i else 0

print_hdrs-Agree_example : print_hdrs transit 34 ≡ print_hdrs headers_only 34
print_hdrs-Agree_example = print_hdrs-Agree transit headers_only 34 λ i h. ground (arith, h)

print_addr_reads_back_example :
    (address_of (read_numbers 0 (print_addr_ip_int 3232236034)) ≡ 3232236034)
    × (read_pairs (print_addr_eth transit 6) ≡ 2 ∷ 0 ∷ 0 ∷ 0 ∷ 1 ∷ 2 ∷ [])
print_addr_reads_back_example =
    print_addr_reads_back transit 6 3232236034 transit-IsBytes (omega arith)

client_printed : print_addr_ip_int (htonl (addr 192 168 2 2)) ≡ codes "192.168.2.2\n"
unfolding print_addr_ip_int htonl decimal decimal_digits
client_printed = refl

question_printed :
    print_hdrs arp_question 42
    ≡ codes
        "ETHERNET header:\n\tdestination: FF:FF:FF:FF:FF:FF\n\tsource: 02:00:00:00:01:02\n\ttype: 2054\n"
      ++ (codes
            "ARP header\n\thardware type: 1\n\tprotocol type: 2048\n\thardware address length: 6\n"
          ++ (codes "\tprotocol address length: 4\n\topcode: 1\n"
              ++ (codes
                    "\tsender hardware address: 02:00:00:00:01:02\n\tsender ip address: 192.168.2.2\n"
                  ++ codes
                      "\ttarget hardware address: 00:00:00:00:00:00\n\ttarget ip address: 192.168.2.1\n")))
unfolding print_hdrs print_hdr_eth print_hdr_arp print_arp print_addr_eth addr_eth_from hex_byte
    hex_digit field decimal decimal_digits ethertype print_addr_ip_int load16 load32 htons htonl
question_printed = refl

short_printed :
    print_hdrs transit 13 ≡ codes "Failed to print ETHERNET header, insufficient length\n"
unfolding print_hdrs
short_printed = refl

-- The dotted address of a 32-bit number in network order.
abbrev ntoa : ℕ → Text
ntoa ip =
    decimal (ip % 256)
    ++ (codes "."
        ++ (decimal (ip / 256 % 256)
            ++ (codes "."
                ++ (decimal (ip / 65536 % 256) ++ (codes "." ++ decimal (ip / 16777216))))))

client_route-IsPrintableEntry : IsPrintableEntry ntoa aton (route 192 168 2 1)
unfolding decimal decimal_digits aton_from
client_route-IsPrintableEntry = record {
  dest = record { word = is_word-IsWord (codes "192.168.2.0") refl; inverse = refl };
  gw = record { word = is_word-IsWord (codes "192.168.2.0") refl; inverse = refl };
  mask = record { word = is_word-IsWord (codes "255.255.255.0") refl; inverse = refl };
  iface = is_word-IsWord (eth 1) refl;
}

server_route-IsPrintableEntry : IsPrintableEntry ntoa aton (route 172 64 3 2)
unfolding decimal decimal_digits aton_from
server_route-IsPrintableEntry = record {
  dest = record { word = is_word-IsWord (codes "172.64.3.0") refl; inverse = refl };
  gw = record { word = is_word-IsWord (codes "172.64.3.0") refl; inverse = refl };
  mask = record { word = is_word-IsWord (codes "255.255.255.0") refl; inverse = refl };
  iface = is_word-IsWord (eth 2) refl;
}

sr_load_rt-print_entries_example :
    sr_load_rt aton arrays
      (some (print_entries ntoa (route 192 168 2 1 ∷ route 172 64 3 2 ∷ [])))
      []
    ≡ ok (route 192 168 2 1 ∷ route 172 64 3 2 ∷ [], true)
sr_load_rt-print_entries_example =
    sr_load_rt-print_entries ntoa aton arrays (route 192 168 2 1) (route 172 64 3 2 ∷ []) []
      (client_route-IsPrintableEntry, (server_route-IsPrintableEntry, tt))

table_printed :
    sr_print_routing_table ntoa (route 192 168 2 1 ∷ [])
    ≡ codes
        "Destination\tGateway\t\tMask\t\tIface\n192.168.2.0   \t192.168.2.0   \t255.255.255.0 \teth1\n"
unfolding sr_print_routing_table print_entries sr_print_routing_entry column decimal decimal_digits
table_printed = refl

interfaces_printed :
    sr_print_if_list ntoa (eth1 ∷ eth2 ∷ [])
    ≡ codes "eth1\tMAC Addr: 02:00:00:00:00:01\n\t IP Addr: 192.168.2.1\n"
      ++ codes "eth2\tMAC Addr: 02:00:00:00:00:02\n\t IP Addr: 172.64.3.1\n"
unfolding sr_print_if_list print_ifs sr_print_if debug_mac debug_mac_from hex_lower decimal
    decimal_digits
interfaces_printed = refl

entry_printed :
    dump_entry (λ t. codes "Thu Jan  1 00:01:40 1970\n") (entry (addr 192 168 2 2) 1 26)
    ≡ codes "200011a   c0a80202   Thu Jan  1 00:01:40 1970   1\n"
unfolding dump_entry short_hex hex_lower htonl
entry_printed = refl
