-- ===== src/ArpRequest/Sweep.antt =====
-- One round of the timeout thread keeps the router sound.
use nw_proj.Base.{ℕ, zero, suc, Option, none, some, List, inl, inr, Option-cases}
use nw_proj.Instance.{Iface, RtEntry, Sr, Env}
use nw_proj.Outcomes.{Ensures, Ensures-bind, Ensures-ok, Ensures-crash, Ensures-out_of_fuel}
use nw_proj.ArpCache.{find_req}
use nw_proj.ArpCache.Invariant.{expire_entries-IsValid}
use nw_proj.ArpRequest.{
  next_of, sweep_from, sr_arpcache_sweepreqs, sr_arpcache_timeout, sr_arpcache_handle_arpreq,
}
use nw_proj.ArpRequest.Invariant.{IsSound, sr_arpcache_handle_arpreq-IsSound}

module _ (is : List Iface) (routes : List RtEntry) (env : Env) (fuel : ℕ) where
  abbrev Sound : Sr → Type 0
  Sound = IsSound is routes

  sweep_from-IsSound :
      (rounds : ℕ) (cur : Option ℕ) (sr : Sr)
      → Sound sr
      → Ensures Sound (sweep_from env fuel rounds cur sr)
  unfolding sweep_from
  sweep_from-IsSound zero cur sr s = Ensures-out_of_fuel Sound
  sweep_from-IsSound (suc rounds) none sr s = Ensures-ok Sound sr s
  sweep_from-IsSound (suc rounds) (some req) sr s =
      elim (Option-cases (find_req req sr.cache.requests)) [
        | inl freed ↦ rw (freed, sweep_from) (Ensures-crash Sound _)
        | inr (r, alive) ↦
            rw (alive, sweep_from)
              (Ensures-bind Sound Sound (sr_arpcache_handle_arpreq env fuel req sr) _
                (sr_arpcache_handle_arpreq-IsSound is routes env fuel req sr s)
                λ sr' s'. sweep_from-IsSound rounds (next_of req sr.cache.requests) sr' s')
      ]

  -- After a round of the timeout thread the router is sound if it was sound before.
  pub sr_arpcache_timeout-IsSound :
      (rounds : ℕ) (sr : Sr)
      → IsSound is routes sr
      → Ensures (IsSound is routes) (sr_arpcache_timeout env fuel rounds sr)
  unfolding sr_arpcache_timeout sr_arpcache_sweepreqs
  sr_arpcache_timeout-IsSound rounds sr s = sweep_from-IsSound rounds _ _ (record {
    ifs = s.ifs;
    routing = s.routing;
    valid = expire_entries-IsValid env.now sr.cache s.valid;
    waits = s.waits;
  })
