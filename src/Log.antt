-- ===== src/Log.antt =====
-- The packet log: sr_dumper.c, with the structs of sr_dumper.h, and sr_log_packet of sr_vns_comm.c.
-- The log file is the list of its bytes. A write that fails is only reported by the code, and is
-- left out.
pub mod Reader
use nw_proj.Base.{
  ℕ, zero, suc, ◌+◌, ◌-◌, ◌*◌, ◌/◌, ◌%◌, ◌^◌, Bool, true, false, ◌&&◌, ◌||◌, not, Option, none,
  some, List, [], ◌∷◌, ◌++◌, ltb, leb, if◌then◌else◌, ◌==◌,
}
use nw_proj.Memory.{Bytes}
use nw_proj.Memory.Place.{slice}
use nw_proj.Text.{Text}

-- Numbers as the host writes them, with the low byte first.
unfoldable pub little_endian16 : ℕ → List ℕ
little_endian16 n = n % 256 ∷ n / 2 ^ 8 % 256 ∷ []

unfoldable pub little_endian32 : ℕ → List ℕ
little_endian32 n = n % 256 ∷ n / 2 ^ 8 % 256 ∷ n / 2 ^ 16 % 256 ∷ n / 2 ^ 24 % 256 ∷ []

abbrev pub tcpdump_magic : ℕ
tcpdump_magic = 2712847316

abbrev pub pcap_version_major : ℕ
pcap_version_major = 2

abbrev pub pcap_version_minor : ℕ
pcap_version_minor = 4

abbrev pub linktype_ethernet : ℕ
linktype_ethernet = 1

abbrev pub packet_dump_size : ℕ
packet_dump_size = 1024

-- struct pcap_pkthdr
pub record PcapPkthdr : Type 0 where
  pub tv_sec : ℕ
  pub tv_usec : ℕ
  pub caplen : ℕ
  pub len : ℕ

-- The struct pcap_file_header, at the end of the file.
unfoldable pub sf_write_header : List ℕ → ℕ → ℕ → ℕ → List ℕ
sf_write_header file linktype thiszone snaplen =
    file
    ++ (little_endian32 tcpdump_magic
        ++ (little_endian16 pcap_version_major
            ++ (little_endian16 pcap_version_minor
                ++ (little_endian32 thiszone
                    ++ (little_endian32 0
                        ++ (little_endian32 snaplen ++ little_endian32 linktype))))))

-- The name of standard output: `fname[0] == '-' && fname[1] == '\\0'`.
abbrev pub names_stdout : Text → Bool
names_stdout (c ∷ []) = c == 45
names_stdout s = false

-- `fopens` tells whether `fopen` can make the file.
unfoldable pub sr_dump_open : Bool → Text → ℕ → ℕ → Option (List ℕ)
sr_dump_open fopens fname thiszone snaplen =
    if names_stdout fname || fopens
    then some (sf_write_header [] linktype_ethernet thiszone snaplen)
    else none

-- A struct pcap_sf_pkthdr and the captured bytes.
unfoldable pub sr_dump : List ℕ → PcapPkthdr → Bytes → List ℕ
sr_dump file h sp =
    file
    ++ (little_endian32 h.tv_sec
        ++ (little_endian32 h.tv_usec
            ++ (little_endian32 h.caplen ++ (little_endian32 h.len ++ slice sp 0 h.caplen))))

-- `PACKET_DUMP_SIZE < len`, of an `int` that is negative from 2^31 on.
abbrev pub exceeds_dump_size : ℕ → Bool
exceeds_dump_size len = ltb packet_dump_size len && ltb len (2 ^ 31)

-- The header for a packet of `len` bytes at a time.
unfoldable pub log_header : ℕ → ℕ → ℕ → PcapPkthdr
log_header sec usec len =
    let size = if exceeds_dump_size len then packet_dump_size else len in
    record {
      tv_sec = sec;
      tv_usec = usec;
      caplen = size;
      len = if ltb size packet_dump_size || leb (2 ^ 31) size then size else packet_dump_size;
    }

unfoldable pub sr_log_packet : ℕ → ℕ → Option (List ℕ) → Bytes → ℕ → Option (List ℕ)
sr_log_packet sec usec none buf len = none
sr_log_packet sec usec (some logfile) buf len = some (sr_dump logfile (log_header sec usec len) buf)
