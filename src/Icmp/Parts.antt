-- ===== src/Icmp/Parts.antt =====
-- The parts of the ICMP error messages: what each store leaves of the others, and what a message is.
use nw_proj.Base.{ℕ, ◌+◌, ◌-◌, ◌%◌, ◌<◌, ◌≡◌, arith, ◌∙◌}
use nw_proj.Memory.{Bytes, store32, load16, load32, htons, memcpy}
use nw_proj.Memory.Laws.{IsBytes, store8-IsBytes, store16-IsBytes, store32-IsBytes, memcpy-IsBytes}
use nw_proj.Protocol.{
  sizeof_ip, sizeof_icmp_t3, ip_src, ip_dst, ip_ttl, ip_p, ip_len, icmp_type, icmp_code, icmp_data,
  icmp_data_size, ether_type, ethertype_ip,
}
use nw_proj.Checksum.{put_checksum}
use nw_proj.Checksum.Verify.{put_checksum-valid, put_checksum-outside, put_checksum-IsBytes}
use nw_proj.Checksum.Words.{word_sum}
use nw_proj.Instance.{Iface}
use nw_proj.Icmp.{i_hdr, ic_hdr, put_error_ip, put_source, put_icmp_t3, put_icmp_t11, put_ethernet}

-- The fields that do not depend on a checksum: an ICMP message of that type and code, in an IP
-- header of 20 bytes with time to live 255, from the address `src` to the source of the datagram
-- in `p`.
pub record HasErrorFields (type code src : ℕ) (p frame : Bytes) : Type 0 where
  pub is_ip : load16 frame (ether_type 0) ≡ htons ethertype_ip
  pub version : frame i_hdr ≡ 0x45
  pub total_length : load16 frame (ip_len i_hdr) ≡ htons 56
  pub time_to_live : frame (ip_ttl i_hdr) ≡ 255
  pub protocol : frame (ip_p i_hdr) ≡ 1
  pub source : load32 frame (ip_src i_hdr) ≡ src
  pub destination : load32 frame (ip_dst i_hdr) ≡ load32 p (ip_src i_hdr)
  pub has_type : frame (icmp_type ic_hdr) ≡ type
  pub has_code : frame (icmp_code ic_hdr) ≡ code

-- The whole message: both checksums are valid, and the ICMP part quotes the 28 bytes from the
-- datagram's header on.
pub record IsIcmpError (type code src : ℕ) (p frame : Bytes) : Type 0 where
  pub fields : HasErrorFields type code src p frame
  pub ip_checksum : word_sum frame i_hdr sizeof_ip % 65535 ≡ 0
  pub icmp_checksum : word_sum frame ic_hdr sizeof_icmp_t3 % 65535 ≡ 0
  pub quotes : (k : ℕ) → k < icmp_data_size → frame (icmp_data ic_hdr + k) ≡ p (i_hdr + k)

pub put_icmp_t3-below :
    (m : Bytes) (code : ℕ) (p : Bytes) (i : ℕ) → i < ic_hdr → put_icmp_t3 m code p i ≡ m i
unfolding put_icmp_t3 put_checksum store32 memcpy
put_icmp_t3-below m code p i h = ground arith

pub put_icmp_t11-below : (m : Bytes) (p : Bytes) (i : ℕ) → i < ic_hdr → put_icmp_t11 m p i ≡ m i
unfolding put_icmp_t11 put_checksum store32 memcpy
put_icmp_t11-below m p i h = ground arith

pub put_error_ip-IsBytes : (m : Bytes) (id dst : ℕ) → IsBytes m → IsBytes (put_error_ip m id dst)
unfolding put_error_ip store32
put_error_ip-IsBytes m id dst b i = ground (arith, b i)

pub put_ethernet-IsBytes :
    (m : Bytes) (ifc : Iface) → IsBytes m → IsBytes ifc.addr → IsBytes (put_ethernet m ifc)
unfolding put_ethernet
put_ethernet-IsBytes m ifc b a =
    store16-IsBytes (memcpy m 6 ifc.addr 0 6) 12 _ (memcpy-IsBytes m 6 ifc.addr 0 6 b a)

pub put_source-IsBytes : (m : Bytes) (src : ℕ) → IsBytes m → IsBytes (put_source m src)
unfolding put_source
put_source-IsBytes m src b =
    put_checksum-IsBytes (store32 m 26 src) i_hdr 24 sizeof_ip (store32-IsBytes m 26 src b)

pub put_source-valid :
    (m : Bytes) (src : ℕ) → IsBytes m → word_sum (put_source m src) i_hdr sizeof_ip % 65535 ≡ 0
unfolding put_source
put_source-valid m src b =
    put_checksum-valid (store32 m 26 src) i_hdr 5 sizeof_ip (store32-IsBytes m 26 src b)
      (omega arith) (omega arith)

-- The ICMP part before its checksum.
pub put_icmp_t3-valid :
    (m : Bytes) (code : ℕ) (p : Bytes)
    → IsBytes m
    → IsBytes p
    → word_sum (put_icmp_t3 m code p) ic_hdr sizeof_icmp_t3 % 65535 ≡ 0
unfolding put_icmp_t3
put_icmp_t3-valid m code p b q =
    put_checksum-valid _ ic_hdr 1 sizeof_icmp_t3
      (memcpy-IsBytes _ 42 p i_hdr icmp_data_size
        (store16-IsBytes _ 40 0
          (store16-IsBytes _ 38 0 (store8-IsBytes _ 35 code (store8-IsBytes m 34 3 b))))
        q)
      (omega arith) (omega arith)

pub put_icmp_t11-valid :
    (m : Bytes) (p : Bytes)
    → IsBytes m
    → IsBytes p
    → word_sum (put_icmp_t11 m p) ic_hdr sizeof_icmp_t3 % 65535 ≡ 0
unfolding put_icmp_t11
put_icmp_t11-valid m p b q =
    put_checksum-valid _ ic_hdr 1 sizeof_icmp_t3
      (memcpy-IsBytes _ 42 p i_hdr icmp_data_size
        (store32-IsBytes _ 38 0 (store8-IsBytes _ 35 0 (store8-IsBytes m 34 11 b))) q)
      (omega arith) (omega arith)

pub put_icmp_t3-quotes :
    (m : Bytes) (code : ℕ) (p : Bytes) (k : ℕ)
    → k < icmp_data_size
    → put_icmp_t3 m code p (icmp_data ic_hdr + k) ≡ p (i_hdr + k)
unfolding put_icmp_t3
put_icmp_t3-quotes m code p k h =
    put_checksum-outside _ ic_hdr 36 sizeof_icmp_t3 (42 + k) (omega arith)
    ∙ unfold memcpy in ground (arith, cancel)
  where
    cancel : 14 + (42 + k - 42) ≡ 14 + k
    cancel = omega arith

pub put_icmp_t11-quotes :
    (m : Bytes) (p : Bytes) (k : ℕ)
    → k < icmp_data_size
    → put_icmp_t11 m p (icmp_data ic_hdr + k) ≡ p (i_hdr + k)
unfolding put_icmp_t11
put_icmp_t11-quotes m p k h =
    put_checksum-outside _ ic_hdr 36 sizeof_icmp_t3 (42 + k) (omega arith)
    ∙ unfold memcpy in ground (arith, cancel)
  where
    cancel : 14 + (42 + k - 42) ≡ 14 + k
    cancel = omega arith
