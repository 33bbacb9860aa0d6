-- ===== src/ArpRequest/Endless.antt =====
-- The handling of a request that cannot be given up does not end.
use nw_proj.Base.{
  ℕ, ◌+◌, ◌≤◌, ◌<◌, ◌≡◌, refl, sym, arith, ◌==◌, ◌∙◌, some, none, List, [], ◌∷◌, All, ap, subst,
  inl, inr, Bool-cases,
}
use nw_proj.Instance.{Iface, RtEntry, ArpReq, Sr, Env, Outcome, ok, crash, out_of_fuel}
use nw_proj.Outcomes.{Ensures}
use nw_proj.Routing.{sr_find_lpm_entry}
use nw_proj.ArpCache.{find_ip, sr_arpcache_lookup}
use nw_proj.ArpRequest.{sr_arpcache_handle_arpreq}
use nw_proj.Routing.{sr_verify_routing_table}
use nw_proj.ArpCache.Queue.{find_ip-All, find_req-find_ip}
use nw_proj.ArpCache.Invariant.{Apart, IsQueue}
use nw_proj.ArpRequest.Safe.{IsHealthy, IsRouted, find_req-All, sr_arpcache_handle_arpreq-Safe}
use nw_proj.Outcomes.{Safe}
use nw_proj.ArpRequest.Stuck.{HasSource, IsBad, HoldsBad, IsStuck}
use nw_proj.ArpRequest.Trap.{Never, handle_arpreq-IsTrapped}

-- The request found for `ip`, in a queue of one request for each address.
find_ip-HoldsBad :
    (n now ip : ℕ) (rs : List ArpReq) (r : ArpReq)
    → IsQueue n rs
    → find_ip ip rs ≡ some r
    → IsBad now ip r.address r
    → HoldsBad now ip r.address rs
unfolding find_ip
find_ip-HoldsBad n now ip [] r q found b = absurd (ground arith)
find_ip-HoldsBad n now ip (x ∷ rs) r q found b = elim (Bool-cases (x.ip == ip)) [
  | inl hit ↦ let same : x ≡ r = ground arith in inl (subst (IsBad now ip r.address) (sym same) b)
  | inr miss ↦
      let later : find_ip ip rs ≡ some r = ground arith in
      let (apart, _) = find_ip-All (Apart x) ip rs r q.2 later in
      inr (
        (λ e. ground (arith, e, miss)),
        (λ e. apart.0 (sym e)),
        find_ip-HoldsBad n now ip rs r q.3 later b,
      )
]

All-any : (rs : List ArpReq) → All (λ x. Unit {0}) rs
All-any [] = tt
All-any (r ∷ rs) = (tt, All-any rs)

find_ip-ip : (ip : ℕ) (rs : List ArpReq) (r : ArpReq) → find_ip ip rs ≡ some r → r.ip ≡ ip
find_ip-ip ip rs r found = (find_ip-All (λ x. Unit {0}) ip rs r (All-any rs) found).1

runs_on : (P : Sr → Type 0) (m : Outcome Sr) → Ensures Never m → Safe P m → m ≡ out_of_fuel
unfolding Ensures Safe
runs_on P (ok a) h k = absurd h
runs_on P (crash e) h k = absurd k
runs_on P out_of_fuel h k = refl

-- Where the routing table was verified and every request is for an address with a route, the
-- handling of a request that is to be given up, and for which a packet waits that came from the
-- address that it asks for, while no hardware address is known for that address, does not end: it
-- needs more than any fuel.
pub handle_arpreq_endless :
    (is : List Iface) (routes : List RtEntry) (env : Env) (fuel ip : ℕ) (sr : Sr) (req : ArpReq)
    → sr_verify_routing_table is routes ≡ 0
    → IsHealthy is routes sr
    → find_ip ip sr.cache.requests ≡ some req
    → 5 ≤ req.times_sent
    → req.sent + 1 < env.now
    → HasSource ip req.packets
    → sr_arpcache_lookup sr.cache ip ≡ none
    → sr_arpcache_handle_arpreq env fuel req.address sr ≡ out_of_fuel
handle_arpreq_endless is routes env fuel ip sr req verified h waits spent due own unknown =
    let alive =
      find_req-find_ip sr.cache.next_address ip sr.cache.requests req h.sound.valid.queue waits in
    let same_ip : req.ip ≡ ip = find_ip-ip ip sr.cache.requests req waits in
    let (rt, route) =
      find_req-All (IsRouted routes) req.address sr.cache.requests req h.routed alive in
    let bad : IsBad env.now ip req.address req = record {
      same_ip = same_ip;
      here = refl;
      spent = spent;
      due = due;
      own = own;
    } in
    let stuck : IsStuck env.now ip req.address rt sr = record {
      holds =
          find_ip-HoldsBad sr.cache.next_address env.now ip sr.cache.requests req
            h.sound.valid.queue waits bad;
      route =
          ap (λ (t : List RtEntry). sr_find_lpm_entry t ip) h.sound.routing
          ∙ (ap (sr_find_lpm_entry routes) (sym same_ip) ∙ route);
      unknown = unknown;
    } in
    runs_on (IsHealthy is routes) (sr_arpcache_handle_arpreq env fuel req.address sr)
      ((handle_arpreq-IsTrapped env ip req.address rt fuel).never sr stuck)
      (sr_arpcache_handle_arpreq-Safe is routes verified env fuel req.address sr h (req, alive))
