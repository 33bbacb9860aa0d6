-- ===== src/Run.antt =====
-- Runs of the router after sr_init: calls of sr_handlepacket, and rounds of sr_arpcache_timeout, in
-- any order. A call or a round is one step; the steps of the two threads inside a call are not
-- interleaved here.
use nw_proj.Base.{
  ℕ, List, [], All, ◌≡◌, refl, subst, sym, ap, some, ◌∷◌, inl, inr, Bool-cases, ◌==◌, ◌∙◌,
}
use nw_proj.Memory.{Bytes}
use nw_proj.Text.{Text}
use nw_proj.Instance.{Iface, RtEntry, ArpReq, Sr, Env, ok}
use nw_proj.Outcomes.{Ensures_elim}
use nw_proj.Interfaces.{sr_get_interface}
use nw_proj.ArpCache.{sr_arpcache_init, find_ip}
use nw_proj.ArpCache.Invariant.{sr_arpcache_init-IsValid}
use nw_proj.Send.Waiting.{IsWaiting}
use nw_proj.Protocol.{arp_op_reply}
use nw_proj.ArpRequest.{sr_arpcache_timeout}
use nw_proj.ArpRequest.Invariant.{IsSound, AllWaiting}
use nw_proj.ArpRequest.Sweep.{sr_arpcache_timeout-IsSound}
use nw_proj.Handler.{sr_handlepacket}
use nw_proj.Handler.Sound.{sr_handlepacket-IsSound}
use nw_proj.Handler.Arp.{IsArpFor, IsReleased, packets_of, sender_ip_of, sr_handlepacket-IsReleased}

-- The router when the hardware information and the routing table are there.
abbrev pub started : List Iface → List RtEntry → Sr
started is routes = record {
  if_list = is;
  routing_table = routes;
  cache = sr_arpcache_init;
  written = [];
}

-- The states that the router can be in after some steps, none of which failed.
pub data Reaches (is : List Iface) (routes : List RtEntry) : Sr → Type 0 where
  at_start : Reaches is routes (started is routes)
  received :
      (env : Env) (fuel : ℕ) (sr sr' : Sr) (p : Bytes) (len : ℕ) (interface : Text)
      → Reaches is routes sr
      → sr_handlepacket env fuel sr p len interface ≡ ok sr'
      → Reaches is routes sr'
  timed_out :
      (env : Env) (fuel rounds : ℕ) (sr sr' : Sr)
      → Reaches is routes sr
      → sr_arpcache_timeout env fuel rounds sr ≡ ok sr'
      → Reaches is routes sr'

module _ (is : List Iface) (routes : List RtEntry) where
  started-IsSound : IsSound is routes (started is routes)
  unfolding sr_arpcache_init
  started-IsSound = record {
    ifs = refl;
    routing = refl;
    valid = sr_arpcache_init-IsValid;
    waits = tt;
  }

  -- In every state that the router can reach, its interfaces and routes are those it started with,
  -- the table has 100 entries, the requests are at distinct addresses and for distinct IP
  -- addresses and were sent at most five times, and every packet that waits has a whole Ethernet
  -- header with the hardware address of the interface it waits for as its source.
  pub Reaches-IsSound : (sr : Sr) → Reaches is routes sr → IsSound is routes sr
  Reaches-IsSound _ at_start = started-IsSound
  Reaches-IsSound _ (received env fuel sr sr' p len interface r e) =
      Ensures_elim (IsSound is routes) (sr_handlepacket env fuel sr p len interface) sr'
        (sr_handlepacket-IsSound is routes env fuel sr p len interface (Reaches-IsSound sr r)) e
  Reaches-IsSound _ (timed_out env fuel rounds sr sr' r e) =
      Ensures_elim (IsSound is routes) (sr_arpcache_timeout env fuel rounds sr) sr'
        (sr_arpcache_timeout-IsSound is routes env fuel rounds sr (Reaches-IsSound sr r)) e

  find_ip-waits :
      (ip : ℕ) (rs : List ArpReq)
      → All (AllWaiting is) rs
      → All (IsWaiting is) (packets_of (find_ip ip rs))
  unfolding find_ip
  find_ip-waits ip [] h = tt
  find_ip-waits ip (r ∷ rs) h = elim (Bool-cases (r.ip == ip)) [
    | inl hit ↦ rw hit h.0
    | inr miss ↦ rw miss (find_ip-waits ip rs h.1)
  ]

  -- In every state that the router can reach, an ARP reply for the address of the interface it
  -- arrives on releases every packet that waits for its sender: no hypothesis on what waits is
  -- needed.
  pub Reaches-IsReleased :
      (env : Env) (fuel : ℕ) (sr : Sr) (p : Bytes) (len : ℕ) (interface : Text) (ifc : Iface)
      → Reaches is routes sr
      → sr_get_interface is interface ≡ some ifc
      → IsArpFor ifc arp_op_reply p len
      → (sr' : Sr) × (sr_handlepacket env fuel sr p len interface ≡ ok sr')
        × IsReleased env sr p sr'
  Reaches-IsReleased env fuel sr p len interface ifc r found a =
      let s = Reaches-IsSound sr r in
      sr_handlepacket-IsReleased env fuel sr p len interface ifc
        (ap (λ (l : List Iface). sr_get_interface l interface) s.ifs ∙ found) a s.valid
        (subst
          (λ (l : List Iface).
            All (IsWaiting l) (packets_of (find_ip (sender_ip_of p) sr.cache.requests)))
          (sym s.ifs) (find_ip-waits (sender_ip_of p) sr.cache.requests s.waits))
