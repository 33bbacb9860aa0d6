-- ===== src/ArpRequest/Alone.antt =====
-- A round of the timeout thread with one request in the queue, or none.
use nw_proj.Base.{
  eq→==, ℕ, suc, ◌≡◌, refl, sym, arith, ◌∙◌, some, none, List, [], ◌∷◌, All, ap, eq→==,
}
use nw_proj.Instance.{Iface, RtEntry, Packet, ArpEntry, ArpReq, ArpCache, Sr, Env, Frame, ok}
use nw_proj.ArpCache.{find_ip, find_req, sr_arpcache_lookup, lookup_scan, expire_entries}
use nw_proj.ArpRequest.{
  head_of, next_of, sr_arpcache_handle_arpreq, sweep_from, sr_arpcache_sweepreqs,
  sr_arpcache_timeout, timeout_rounds, load32, ip_src, i_hdr,
}
use nw_proj.ArpRequest.GiveUp.{HasSender, IsNotice, AreNotices}

-- No entry of the table expires in a round.
abbrev pub IsFresh : List ArpEntry → Env → Type 0
IsFresh entries e = expire_entries e.now entries ≡ entries

-- What a lookup reads is the table.
pub HasSender-entries :
    (env : Env) (is : List Iface) (routes : List RtEntry) (c c' : ArpCache) (pck : Packet)
    → c.entries ≡ c'.entries
    → HasSender env is routes c pck
    → HasSender env is routes c' pck
unfolding sr_arpcache_lookup
HasSender-entries env is routes c c' pck e h = record {
  rt = h.rt;
  ifc = h.ifc;
  entry = h.entry;
  route = h.route;
  link = h.link;
  known =
      ap (λ (es : List ArpEntry). lookup_scan (load32 pck.buf (ip_src i_hdr)) es none) (sym e)
      ∙ h.known;
  bytes = h.bytes;
}

pub IsNotice-entries :
    (is : List Iface) (routes : List RtEntry) (c c' : ArpCache) (pck : Packet) (f : Frame)
    → c.entries ≡ c'.entries
    → IsNotice is routes c pck f
    → IsNotice is routes c' pck f
unfolding sr_arpcache_lookup
IsNotice-entries is routes c c' pck f e h = record {
  rt = h.rt;
  ifc = h.ifc;
  entry = h.entry;
  route = h.route;
  link = h.link;
  known =
      ap (λ (es : List ArpEntry). lookup_scan (load32 pck.buf (ip_src i_hdr)) es none) (sym e)
      ∙ h.known;
  frame = h.frame;
  sent = h.sent;
  says = h.says;
}

pub AreNotices-entries :
    (is : List Iface) (routes : List RtEntry) (c c' : ArpCache) (pcks : List Packet)
    (fs : List Frame)
    → c.entries ≡ c'.entries
    → AreNotices is routes c pcks fs
    → AreNotices is routes c' pcks fs
AreNotices-entries is routes c c' [] [] e h = tt
AreNotices-entries is routes c c' [] (f ∷ fs) e h = absurd h
AreNotices-entries is routes c c' (pck ∷ pcks) [] e h = absurd h
AreNotices-entries is routes c c' (pck ∷ pcks) (f ∷ fs) e h =
    (IsNotice-entries is routes c c' pck f e h.0, AreNotices-entries is routes c c' pcks fs e h.1)

-- A queue in which nothing is found is empty.
pub find_ip-empty : (rs : List ArpReq) → ((j : ℕ) → find_ip j rs ≡ none) → rs ≡ []
unfolding find_ip
find_ip-empty [] h = refl
find_ip-empty (r ∷ rs) h = absurd (ground (arith, h r.ip))

-- The cache without a request, and a router with requests for the rest of its cache.
abbrev pub emptied : List ArpEntry → ℕ → ArpCache
emptied entries next = record { entries = entries; requests = []; next_address = next }

abbrev pub alone : List Iface → List RtEntry → List ArpEntry → ℕ → List Frame → List ArpReq → Sr
alone is routes entries next w rs = record {
  if_list = is;
  routing_table = routes;
  cache = record { entries = entries; requests = rs; next_address = next };
  written = w;
}

module _ (is : List Iface) (routes : List RtEntry) (entries : List ArpEntry) (next : ℕ) where
  sweep_from-handle_arpreq :
      (env : Env) (fuel : ℕ) (w : List Frame) (req : ArpReq) (sr' : Sr)
      → sr_arpcache_handle_arpreq env
          (suc fuel)
          req.address
          (alone is routes entries next w (req ∷ []))
        ≡ ok sr'
      → sweep_from env (suc fuel) 2 (some req.address) (alone is routes entries next w (req ∷ []))
        ≡ ok sr'
  unfolding sweep_from next_of find_req
  sweep_from-handle_arpreq env fuel w req sr' e =
      rw (eq→== req.address req.address refl, sweep_from) (rw (e, sweep_from) refl)

  -- A round in which nothing expires is the handling of the one request.
  pub timeout-handle_arpreq :
      (env : Env) (fuel : ℕ) (w : List Frame) (req : ArpReq) (sr' : Sr)
      → IsFresh entries env
      → sr_arpcache_handle_arpreq env
          (suc fuel)
          req.address
          (alone is routes entries next w (req ∷ []))
        ≡ ok sr'
      → sr_arpcache_timeout env (suc fuel) 2 (alone is routes entries next w (req ∷ [])) ≡ ok sr'
  unfolding sr_arpcache_timeout sr_arpcache_sweepreqs
  timeout-handle_arpreq env fuel w req sr' fresh e =
      ap
        (λ (es : List ArpEntry).
          sweep_from env (suc fuel) 2 (some req.address)
            (record (alone is routes entries next w (req ∷ [])) {
              cache = record (emptied entries next) { entries = es; requests = req ∷ [] };
            }))
        fresh
      ∙ sweep_from-handle_arpreq env fuel w req sr' e

  -- Rounds over an empty queue.
  timeout-idle :
      (env : Env) (fuel : ℕ) (sr : Sr)
      → sr.cache.requests ≡ []
      → sr.cache.entries ≡ entries
      → IsFresh entries env
      → sr_arpcache_timeout env fuel 2 sr ≡ ok sr
  unfolding sr_arpcache_timeout sr_arpcache_sweepreqs sweep_from
  timeout-idle env fuel sr empty same fresh =
      let expired = record sr {
        cache = record (sr.cache) { entries = expire_entries env.now sr.cache.entries };
      } in
      ap (λ (rs : List ArpReq). sweep_from env fuel 2 (head_of rs) expired) empty
      ∙ ap (λ (es : List ArpEntry). ok (record sr { cache = record (sr.cache) { entries = es } }))
          (ap (expire_entries env.now) same ∙ (fresh ∙ sym same))

  pub timeout_rounds-idle :
      (fuel : ℕ) (envs : List Env) (sr : Sr)
      → sr.cache.requests ≡ []
      → sr.cache.entries ≡ entries
      → All (IsFresh entries) envs
      → timeout_rounds fuel 2 envs sr ≡ ok sr
  unfolding timeout_rounds
  timeout_rounds-idle fuel [] sr empty same fresh = refl
  timeout_rounds-idle fuel (env ∷ envs) sr empty same fresh =
      rw (timeout-idle env fuel sr empty same fresh.0, timeout_rounds)
        (timeout_rounds-idle fuel envs sr empty same fresh.1)
