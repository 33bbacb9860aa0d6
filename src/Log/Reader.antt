-- ===== src/Log/Reader.antt =====
-- A reader of the format that tcpdump reads, and what it finds in a log.
use nw_proj.Base.{
  Bool, inr, inl, ℕ, zero, suc, ◌+◌, ◌*◌, ◌^◌, ◌<◌, ◌≡◌, refl, sym, ap, ◌∙◌, arith, true, false,
  ◌&&◌, Option, none, some, List, [], ◌∷◌, ◌++◌, length, take, drop, ltb, ◌==◌, All, if◌then◌else◌,
  append_assoc, take_all, drop_all, length-append, append_nil, map, Bool-cases, inl, inr,
}
use nw_proj.Memory.{Bytes}
use nw_proj.Memory.Place.{slice, length-slice}
use nw_proj.Text.{Text}
use nw_proj.Log.{
  little_endian16, little_endian32, packet_dump_size, PcapPkthdr, sf_write_header, sr_dump_open,
  sr_dump, log_header, sr_log_packet, linktype_ethernet, names_stdout,
}

infixl 5 ◌>>=◌
abbrev ◌>>=◌ {ℓ κ} : {A : Type ℓ} {B : Type κ} → Option A → (A → Option B) → Option B
none >>= f = none
some a >>= f = f a

-- A number of four bytes at the start, and what is behind it.
unfoldable pub read32 : List ℕ → Option (ℕ × List ℕ)
read32 (a ∷ b ∷ c ∷ d ∷ rest) = some (a + 2 ^ 8 * b + 2 ^ 16 * c + 2 ^ 24 * d, rest)
read32 xs = none

-- A number of two bytes.
unfoldable pub read16 : List ℕ → Option (ℕ × List ℕ)
read16 (a ∷ b ∷ rest) = some (a + 2 ^ 8 * b, rest)
read16 xs = none

-- A record: its header and its captured bytes, if they are all there.
pub record Record : Type 0 where
  pub header : PcapPkthdr
  pub captured : List ℕ

abbrev capture : PcapPkthdr → List ℕ → Option (Record × List ℕ)
capture h xs =
    if ltb (length xs) h.caplen
    then none
    else some (record { header = h; captured = take h.caplen xs }, drop h.caplen xs)

unfoldable pub read_record : List ℕ → Option (Record × List ℕ)
read_record xs = do
  (sec, xs1) ← read32 xs
  (usec, xs2) ← read32 xs1
  (caplen, xs3) ← read32 xs2
  (len, xs4) ← read32 xs3
  capture (record { tv_sec = sec; tv_usec = usec; caplen = caplen; len = len }) xs4

-- The fields that are the same in every log of the router.
abbrev is_ours : ℕ → ℕ → ℕ → ℕ → ℕ → Bool
is_ours major minor thiszone sigfigs linktype =
    (major == 2) && ((minor == 4) && ((thiszone == 0) && ((sigfigs == 0) && (linktype == 1))))

-- The file header: the magic number, version 2.4, the time zone and the accuracy of the times, which
-- are both 0 in every log, the largest captured length and the link type, of which Ethernet is 1.
-- The result is the largest captured length and what is behind.
unfoldable pub read_header : List ℕ → Option (ℕ × List ℕ)
read_header xs = do
  (magic, xs1) ← read32 xs
  (major, xs2) ← read16 xs1
  (minor, xs3) ← read16 xs2
  (thiszone, xs4) ← read32 xs3
  (sigfigs, xs5) ← read32 xs4
  (snaplen, xs6) ← read32 xs5
  (linktype, rest) ← read32 xs6
  if (magic == 2712847316) && is_ours major minor thiszone sigfigs linktype
      then some (snaplen, rest)
      else none

-- `n` records and nothing behind them.
unfoldable pub read_records : ℕ → List ℕ → Option (List Record)
read_records zero [] = some []
read_records zero (x ∷ xs) = none
read_records (suc n) xs = do (r, rest) ← read_record xs; rs ← read_records n rest; some (r ∷ rs)

-- The records of a whole log, with the largest captured length that it announces.
unfoldable pub read_log : ℕ → List ℕ → Option (ℕ × List Record)
read_log n xs = do (snaplen, rest) ← read_header xs; rs ← read_records n rest; some (snaplen, rs)

read32-little_endian32 :
    (n : ℕ) (rest : List ℕ) → n < 2 ^ 32 → read32 (little_endian32 n ++ rest) ≡ some (n, rest)
unfolding read32 little_endian32
read32-little_endian32 n rest h = ap (λ (k : ℕ). some (k, rest)) (omega (arith, h))

-- What is logged of a packet: the length that is kept of it, and its bytes up to there.
pub record Logged : Type 0 where
  pub sec : ℕ
  pub usec : ℕ
  pub buf : Bytes
  pub len : ℕ

-- The times fit their fields, and the length is no negative `int`.
pub record IsLoggable (p : Logged) : Type 0 where
  pub sec : p.sec < 2 ^ 32
  pub usec : p.usec < 2 ^ 32
  pub len : p.len < 2 ^ 31

unfoldable pub kept : ℕ → ℕ
kept len = if ltb 1024 len then 1024 else len

unfoldable pub record_of : Logged → Record
record_of p = record {
  header = record { tv_sec = p.sec; tv_usec = p.usec; caplen = kept p.len; len = kept p.len };
  captured = slice p.buf 0 (kept p.len);
}

kept-lt : (len : ℕ) → kept len < 2 ^ 32
unfolding kept
kept-lt len = ground arith

log_header-kept :
    (sec usec len : ℕ)
    → len < 2 ^ 31
    → log_header sec usec len
      ≡ record { tv_sec = sec; tv_usec = usec; caplen = kept len; len = kept len }
unfolding log_header kept
log_header-kept sec usec len h = ground arith

-- The bytes of a packet in the log.
unfoldable record_bytes : Logged → List ℕ
record_bytes p =
    let n = kept p.len in
    little_endian32 p.sec
    ++ (little_endian32 p.usec ++ (little_endian32 n ++ (little_endian32 n ++ slice p.buf 0 n)))

sr_log_packet-record_bytes :
    (file : List ℕ) (p : Logged)
    → IsLoggable p
    → sr_log_packet p.sec p.usec (some file) p.buf p.len ≡ some (file ++ record_bytes p)
unfolding sr_log_packet sr_dump record_bytes
sr_log_packet-record_bytes file p h =
    ap (λ (k : PcapPkthdr). some (sr_dump file k p.buf)) (log_header-kept p.sec p.usec p.len h.len)

capture-append :
    (h : PcapPkthdr) (xs rest : List ℕ)
    → length xs ≡ h.caplen
    → capture h (xs ++ rest) ≡ some (record { header = h; captured = xs }, rest)
capture-append h xs rest e =
    let enough : ltb (length (xs ++ rest)) h.caplen ≡ false =
      ground (arith, length-append xs rest) in
    rw (enough, capture)
      (ap (λ (r : List ℕ × List ℕ). some (record { header = h; captured = r.0 }, r.1))
        (cc (e, take_all xs rest, drop_all xs rest)))

read_record-record_bytes :
    (p : Logged) (rest : List ℕ)
    → IsLoggable p
    → read_record (record_bytes p ++ rest) ≡ some (record_of p, rest)
unfolding read_record record_bytes record_of little_endian32
read_record-record_bytes p rest h =
    let n = kept p.len in
    let behind = slice p.buf 0 n ++ rest in
    let r4 = read32-little_endian32 n behind (kept-lt p.len) in
    let r3 = read32-little_endian32 n (little_endian32 n ++ behind) (kept-lt p.len) in
    let r2 =
      read32-little_endian32 p.usec (little_endian32 n ++ (little_endian32 n ++ behind)) h.usec in
    let r1 =
      read32-little_endian32 p.sec
        (little_endian32 p.usec ++ (little_endian32 n ++ (little_endian32 n ++ behind))) h.sec in
    rw (r1, read_record)
      (rw (r2, read_record)
        (rw (r3, read_record)
          (rw (r4, read_record)
            (capture-append (record { tv_sec = p.sec; tv_usec = p.usec; caplen = n; len = n })
              (slice p.buf 0 n) rest (length-slice p.buf 0 n)))))

-- The packets of a run, logged in order.
unfoldable pub log_packets : Option (List ℕ) → List Logged → Option (List ℕ)
log_packets logfile [] = logfile
log_packets logfile (p ∷ ps) = log_packets (sr_log_packet p.sec p.usec logfile p.buf p.len) ps

unfoldable records_bytes : List Logged → List ℕ
records_bytes [] = []
records_bytes (p ∷ ps) = record_bytes p ++ records_bytes ps

log_packets-records_bytes :
    (file : List ℕ) (ps : List Logged)
    → All IsLoggable ps
    → log_packets (some file) ps ≡ some (file ++ records_bytes ps)
unfolding log_packets records_bytes
log_packets-records_bytes file [] h = ap (λ (l : List ℕ). some l) (sym (append_nil file))
log_packets-records_bytes file (p ∷ ps) h =
    ap (λ (o : Option (List ℕ)). log_packets o ps) (sr_log_packet-record_bytes file p h.0)
    ∙ (log_packets-records_bytes (file ++ record_bytes p) ps h.1
        ∙ ap (λ (l : List ℕ). some l) (append_assoc file (record_bytes p) (records_bytes ps)))

read_records-records_bytes :
    (ps : List Logged)
    → All IsLoggable ps
    → read_records (length ps) (records_bytes ps) ≡ some (map record_of ps)
unfolding read_records records_bytes
read_records-records_bytes [] h = refl
read_records-records_bytes (p ∷ ps) h =
    rw (read_record-record_bytes p (records_bytes ps) h.0, read_records)
      (rw (read_records-records_bytes ps h.1, read_records) refl)

read_header-sf_write_header :
    (rest : List ℕ)
    → read_header (sf_write_header [] linktype_ethernet 0 packet_dump_size ++ rest)
      ≡ some (packet_dump_size, rest)
unfolding read_header sf_write_header little_endian32 little_endian16 read32 read16
read_header-sf_write_header rest = refl

-- A log that sr_dump_open makes, as main calls it, and to which packets are logged, is one that a
-- reader of the format takes apart: an Ethernet log of version 2.4, with times in UTC, of at most 1024 bytes per packet, with one
-- record for each packet, in order, that has its time and its first 1024 bytes, or all of a
-- shorter one; both lengths in its header are the number of bytes that were kept.
pub read_log-log_packets :
    (fname : Text) (ps : List Logged)
    → All IsLoggable ps
    → (file : List ℕ) × (log_packets (sr_dump_open true fname 0 packet_dump_size) ps ≡ some file)
      × (read_log (length ps) file ≡ some (packet_dump_size, map record_of ps))
unfolding read_log sr_dump_open
read_log-log_packets fname ps h =
    let head = sf_write_header [] linktype_ethernet 0 packet_dump_size in
    let opened : sr_dump_open true fname 0 packet_dump_size ≡ some head =
      elim (Bool-cases (names_stdout fname)) [
        | inl e ↦ rw (e, sr_dump_open) refl
        | inr e ↦ rw (e, sr_dump_open) refl
      ] in
    (
      head ++ records_bytes ps,
      ap (λ (o : Option (List ℕ)). log_packets o ps) opened ∙ log_packets-records_bytes head ps h,
      rw (read_header-sf_write_header (records_bytes ps), read_log)
          (rw (read_records-records_bytes ps h, read_log) refl),
    )
