-- ===== src/Handler/Deliver.antt =====
-- The end of the branches that send: the Ethernet addresses of a frame, and `deliver` where the
-- hardware address is known.
use nw_proj.Base.{
  ℕ, ◌+◌, ◌-◌, ◌≤◌, ◌<◌, ◌≡◌, ◌≢◌, refl, false, arith, ◌∙◌, some, List, [], ◌∷◌, All, ap, true, ◌⊎◌,
  inl, inr,
}
use nw_proj.Memory.{Bytes, memcpy}
use nw_proj.Memory.Laws.{memcpy-inside, eq→same_bytes, memcpy-outside}
use nw_proj.Protocol.{sizeof_ethernet, ether_shost, ether_dhost, ether_addr_len}
use nw_proj.Text.{Text}
use nw_proj.Instance.{Iface, ArpEntry, Sr, Env, ok}
use nw_proj.Interfaces.{sr_get_interface}
use nw_proj.ArpCache.{sr_arpcache_lookup}
use nw_proj.Send.Laws.{wrote, sr_send_packet-sends}
use nw_proj.ArpRequest.{hand_over}
use nw_proj.Handler.{is_local, deliver, hand_over}

-- `m` with the Ethernet addresses of a hop.
abbrev pub addressed : Bytes → Bytes → Bytes → Bytes
addressed m shost dhost =
    memcpy (memcpy m (ether_shost 0) shost 0 ether_addr_len) (ether_dhost 0) dhost 0 ether_addr_len

module _ (m shost dhost : Bytes) where
  pub addressed-dhost : (k : ℕ) → k < 6 → addressed m shost dhost k ≡ dhost k
  addressed-dhost k h = memcpy-inside (memcpy m (ether_shost 0) shost 0 ether_addr_len) dhost 6 k h

  pub addressed-shost : (k : ℕ) → k < 6 → addressed m shost dhost (6 + k) ≡ shost k
  unfolding memcpy
  addressed-shost k h = ground (arith, cancel)
    where
      cancel : 0 + (6 + k - 6) ≡ k
      cancel = omega arith

  pub addressed-rest : (i : ℕ) → 12 ≤ i → addressed m shost dhost i ≡ m i
  unfolding memcpy
  addressed-rest i h = ground arith

pub is_local-All : (is : List Iface) (ip : ℕ) → All (λ i. ip ≢ i.ip) is → is_local is ip ≡ false
unfolding is_local
is_local-All [] ip h = refl
is_local-All (i ∷ is) ip h = ground (arith, is_local-All is ip h.1)

-- A frame that has the interface's hardware address as its source is sent to the address known.
pub deliver-hit :
    (env : Env) (fuel : ℕ) (sr : Sr) (m : Bytes) (len : ℕ) (iface : Text) (ip : ℕ) (ifc : Iface)
    (entry : ArpEntry)
    → sizeof_ethernet ≤ len
    → ((k : ℕ) → k < 6 → m (6 + k) ≡ ifc.addr k)
    → sr_get_interface sr.if_list iface ≡ some ifc
    → sr_arpcache_lookup sr.cache ip ≡ some entry
    → deliver env fuel sr m len iface ip
      ≡ ok (wrote sr (memcpy m (ether_dhost 0) entry.mac 0 ether_addr_len) len iface)
unfolding deliver hand_over
deliver-hit env fuel sr m len iface ip ifc entry long own found known =
    rw (known, hand_over)
      (ap ok (
        sr_send_packet-sends env sr (memcpy m 0 entry.mac 0 6) len iface ifc long found (
          eq→same_bytes (memcpy m 0 entry.mac 0 6) 6 ifc.addr 0 6 λ i h.
            memcpy-outside m 0 entry.mac 0 6 (6 + i) (omega arith)
            ∙ own i h
            ∙ ap ifc.addr (omega arith))))

pub memcpy-shost :
    (m shost : Bytes) (k : ℕ)
    → k < 6
    → memcpy m (ether_shost 0) shost 0 ether_addr_len (6 + k) ≡ shost k
unfolding memcpy
memcpy-shost m shost k h = ground (arith, cancel)
  where
    cancel : 0 + (6 + k - 6) ≡ k
    cancel = omega arith

-- The address is that of one of the interfaces.
abbrev pub HasAddress : List Iface → ℕ → Type 0
HasAddress [] ip = ⊥
HasAddress (i ∷ is) ip = (ip ≡ i.ip) ⊎ HasAddress is ip

pub is_local-HasAddress : (is : List Iface) (ip : ℕ) → HasAddress is ip → is_local is ip ≡ true
unfolding is_local
is_local-HasAddress [] ip h = absurd h
is_local-HasAddress (i ∷ is) ip (inl same) = ground arith
is_local-HasAddress (i ∷ is) ip (inr later) = ground (arith, is_local-HasAddress is ip later)
