-- ===== src/Print.antt =====
-- The functions of sr_utils.c that print headers. What a call writes to stderr is its result.
pub mod Within
pub mod Numbers
use Prim.Native.Char.{code}
use Prim.Native.String.{String}
use nw_proj.Base.{
  ℕ, zero, suc, ◌+◌, ◌*◌, ◌/◌, ◌%◌, ◌^◌, List, [], ◌∷◌, ◌++◌, Option, none, some, bit_and, ltb,
  ◌==◌, if◌then◌else◌, ◌-◌,
}
use nw_proj.Memory.{Bytes, load16, load32, htons, htonl}
use nw_proj.Text.{Text}
use nw_proj.Protocol.{
  ether_addr_len, sizeof_ethernet, ether_dhost, ether_shost, ether_type, ethertype_arp,
  ethertype_ip, sizeof_ip, ip_v, ip_hl, ip_tos, ip_len, ip_id, ip_off, ip_ttl, ip_p, ip_sum, ip_src,
  ip_dst, ip_df, ip_mf, ip_rf, ip_offmask, ip_protocol_icmp, sizeof_icmp, icmp_type, icmp_code,
  icmp_sum, sizeof_arp, ar_hrd, ar_pro, ar_hln, ar_pln, ar_op, ar_sha, ar_sip, ar_tha, ar_tip,
}

-- The characters of a literal.
abbrev pub codes : String → Text
codes String.[] = []
codes (String.◌∷◌ c s) = code c ∷ codes s

-- The last `suc k` digits of a number, without leading zeros.
unfoldable pub decimal_digits : ℕ → ℕ → Text
decimal_digits zero n = (b'0' + n % 10) ∷ []
decimal_digits (suc k) n =
    let high = decimal_digits k (n / 10) in
    if ltb n 10 then (b'0' + n) ∷ [] else high ++ (b'0' + n % 10) ∷ []

-- `%d` of an int that is not negative: ten digits are enough.
unfoldable pub decimal : ℕ → Text
decimal n = decimal_digits 9 n

unfoldable pub hex_digit : ℕ → ℕ
hex_digit d = if ltb d 10 then b'0' + d else b'A' + (d - 10)

-- `%02X` of a byte.
unfoldable pub hex_byte : ℕ → Text
hex_byte b = hex_digit (b / 16) ∷ hex_digit (b % 16) ∷ []

-- The last `k` hexadecimal digits of a number, in small letters: `%02x` and `%.8x`.
unfoldable pub hex_lower : ℕ → ℕ → Text
hex_lower zero n = []
hex_lower (suc k) n =
    let d = n % 16 in hex_lower k (n / 16) ++ (if ltb d 10 then b'0' + d else b'a' + (d - 10)) ∷ []

unfoldable pub ethertype : Bytes → ℕ → ℕ
ethertype m e = htons (load16 m (ether_type e))

unfoldable pub ip_protocol : Bytes → ℕ → ℕ
ip_protocol m i = m (ip_p i)

-- The loop of print_addr_eth, with `left` bytes to print from `pos` on.
unfoldable pub addr_eth_from : Bytes → ℕ → ℕ → ℕ → Text
addr_eth_from m addr zero pos = []
addr_eth_from m addr (suc left) pos =
    (if ltb 0 pos then codes ":" else [])
    ++ (hex_byte (m (addr + pos)) ++ addr_eth_from m addr left (pos + 1))

unfoldable pub print_addr_eth : Bytes → ℕ → Text
print_addr_eth m addr = addr_eth_from m addr ether_addr_len 0 ++ codes "\n"

-- `inet_ntop` is a parameter: the text, or null.
unfoldable pub print_addr_ip : (ℕ → Option Text) → ℕ → Text
print_addr_ip inet_ntop address = elim (inet_ntop address) [
  | none ↦ codes "inet_ntop error on address conversion\n"
  | some buf ↦ buf ++ codes "\n"
]

unfoldable pub print_addr_ip_int : ℕ → Text
print_addr_ip_int ip =
    decimal (ip / 2 ^ 24)
    ++ (codes "."
        ++ (decimal (ip * 2 ^ 8 % 2 ^ 32 / 2 ^ 24)
            ++ (codes "."
                ++ (decimal (ip * 2 ^ 16 % 2 ^ 32 / 2 ^ 24)
                    ++ (codes "." ++ (decimal (ip * 2 ^ 24 % 2 ^ 32 / 2 ^ 24) ++ codes "\n"))))))

-- A label, a number and the end of the line.
unfoldable pub field : String → ℕ → Text
field label n = codes label ++ (decimal n ++ codes "\n")

unfoldable pub print_hdr_eth : Bytes → ℕ → Text
print_hdr_eth m e =
    codes "ETHERNET header:\n"
    ++ (codes "\tdestination: "
        ++ (print_addr_eth m (ether_dhost e)
            ++ (codes "\tsource: "
                ++ (print_addr_eth m (ether_shost e)
                    ++ field "\ttype: " (htons (load16 m (ether_type e)))))))

-- The line on the first of the three flags that is set in `off`.
unfoldable pub fragment_flag : ℕ → Text
fragment_flag off =
    if bit_and off ip_df == 0
    then (if bit_and off ip_mf == 0
        then (if bit_and off ip_rf == 0 then [] else codes "\tfragment flag: R\n")
        else codes "\tfragment flag: MF\n")
    else codes "\tfragment flag: DF\n"

unfoldable pub print_hdr_ip : Bytes → ℕ → Text
print_hdr_ip m i =
    codes "IP header:\n"
    ++ (field "\tversion: " (ip_v m i)
        ++ (field "\theader length: " (ip_hl m i)
            ++ (field "\ttype of service: " (m (ip_tos i))
                ++ (field "\tlength: " (htons (load16 m (ip_len i)))
                    ++ (field "\tid: " (htons (load16 m (ip_id i)))
                        ++ (fragment_flag (htons (load16 m (ip_off i)))
                            ++ (field "\tfragment offset: "
                                  (bit_and (htons (load16 m (ip_off i))) ip_offmask)
                                ++ (field "\tTTL: " (m (ip_ttl i))
                                    ++ (field "\tprotocol: " (m (ip_p i))
                                        ++ (field "\tchecksum: " (load16 m (ip_sum i))
                                            ++ (codes "\tsource: "
                                                ++ (print_addr_ip_int (htonl (load32 m (ip_src i)))
                                                    ++ (codes "\tdestination: "
                                                        ++ print_addr_ip_int (
                                                            htonl
                                                            (load32 m (ip_dst i))))))))))))))))

unfoldable pub print_hdr_icmp : Bytes → ℕ → Text
print_hdr_icmp m c =
    codes "ICMP header:\n"
    ++ (field "\ttype: " (m (icmp_type c))
        ++ (field "\tcode: " (m (icmp_code c)) ++ field "\tchecksum: " (load16 m (icmp_sum c))))

unfoldable pub print_hdr_arp : Bytes → ℕ → Text
print_hdr_arp m a =
    codes "ARP header\n"
    ++ (field "\thardware type: " (htons (load16 m (ar_hrd a)))
        ++ (field "\tprotocol type: " (htons (load16 m (ar_pro a)))
            ++ (field "\thardware address length: " (m (ar_hln a))
                ++ (field "\tprotocol address length: " (m (ar_pln a))
                    ++ (field "\topcode: " (htons (load16 m (ar_op a)))
                        ++ (codes "\tsender hardware address: "
                            ++ (print_addr_eth m (ar_sha a)
                                ++ (codes "\tsender ip address: "
                                    ++ (print_addr_ip_int (htonl (load32 m (ar_sip a)))
                                        ++ (codes "\ttarget hardware address: "
                                            ++ (print_addr_eth m (ar_tha a)
                                                ++ (codes "\ttarget ip address: "
                                                    ++ print_addr_ip_int
                                                        (htonl (load32 m (ar_tip a)))))))))))))))

-- The three nested parts of print_hdrs, for a frame of `length` bytes.
unfoldable pub print_icmp : Bytes → ℕ → Text
print_icmp m length =
    let ip = sizeof_ethernet + sizeof_ip in
    if ltb length (ip + sizeof_icmp)
    then codes "Failed to print ICMP header, insufficient length\n"
    else print_hdr_icmp m ip

unfoldable pub print_ip : Bytes → ℕ → Text
print_ip m length =
    if ltb length (sizeof_ethernet + sizeof_ip)
    then codes "Failed to print IP header, insufficient length\n"
    else print_hdr_ip m sizeof_ethernet
      ++ (if ip_protocol m sizeof_ethernet == ip_protocol_icmp then print_icmp m length else [])

unfoldable pub print_arp : Bytes → ℕ → Text
print_arp m length =
    if ltb length (sizeof_ethernet + sizeof_arp)
    then codes "Failed to print ARP header, insufficient length\n"
    else print_hdr_arp m sizeof_ethernet

unfoldable pub print_hdrs : Bytes → ℕ → Text
print_hdrs m length =
    if ltb length sizeof_ethernet
    then codes "Failed to print ETHERNET header, insufficient length\n"
    else print_hdr_eth m 0
      ++ (if ethertype m 0 == ethertype_ip
          then print_ip m length
          else if ethertype m 0 == ethertype_arp
          then print_arp m length
          else field "Unrecognized Ethernet Type: " (ethertype m 0))
