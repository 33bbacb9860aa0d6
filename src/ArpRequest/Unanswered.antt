-- ===== src/ArpRequest/Unanswered.antt =====
-- What becomes of a request that nobody answers.
use nw_proj.Base.{
  All-mono, eq→==, ltb, ℕ, ◌+◌, ◌-◌, ◌≤◌, ◌<◌, ◌≡◌, refl, arith, leb, ◌∙◌, some, List, [], ◌∷◌,
  ◌++◌, All, ap, length, inl, inr, Bool-cases, append_assoc, eq→==, ◌*◌,
}
use nw_proj.Memory.{Bytes}
use nw_proj.Instance.{Iface, RtEntry, ArpEntry, ArpReq, Sr, Env, Frame, ok}
use nw_proj.Interfaces.{sr_get_interface}
use nw_proj.Routing.{sr_find_lpm_entry}
use nw_proj.ArpCache.{find_ip, find_req, update_req}
use nw_proj.Send.{message}
use nw_proj.ArpRequest.{arp_len, arp_request_packet, mark_sent, timeout_rounds}
use nw_proj.ArpRequest.Laws.{handle_arpreq-waits, asked, handle_arpreq-asked}
use nw_proj.ArpRequest.GiveUp.{HasSender, AreNotices, handle_arpreq-IsGivenUp}
use nw_proj.ArpRequest.Alone.{
  IsFresh, HasSender-entries, AreNotices-entries, find_ip-empty, emptied, alone,
  timeout-handle_arpreq, timeout_rounds-idle,
}

-- Rounds of the thread, in different seconds, and all after `t`.
abbrev pub AreLater : ℕ → List Env → Type 0
AreLater t [] = Unit {0}
AreLater t (e ∷ es) = (t < e.now) × AreLater e.now es

module _ (is : List Iface) (routes : List RtEntry) (entries : List ArpEntry) (next : ℕ)
    (size : length entries ≡ 100) where
  -- The frame asks for `ip` on the link of `ifc`.
  abbrev IsAsking : Iface → ℕ → Frame → Type 0
  IsAsking ifc ip f =
      (uninit : Bytes) × (f ≡ message (arp_request_packet uninit ifc ip) arp_len ifc.name)

  -- What is left of a request that was asked for `left` times more and then given up.
  pub record IsAbandoned (ifc : Iface) (req : ArpReq) (w : List Frame) (sr' : Sr) : Type 0 where
    pub asks : List Frame
    pub notices : List Frame
    pub written : sr'.written ≡ w ++ (asks ++ notices)
    pub count : length asks ≡ 5 - req.times_sent
    pub asking : All (IsAsking ifc req.ip) asks
    pub told : AreNotices is routes (emptied entries next) req.packets notices
    pub gone : sr'.cache.requests ≡ []

  module _ (rt : RtEntry) (ifc : Iface) where
    pub Abandons : (envs : List Env) (w : List Frame) (req : ArpReq) → Type 0
    Abandons envs w req =
        (sr' : Sr) × (timeout_rounds 1 2 envs (alone is routes entries next w (req ∷ [])) ≡ ok sr')
        × IsAbandoned ifc req w sr'

    last_round :
        (env : Env) (envs : List Env) (w : List Frame) (req : ArpReq)
        → req.address < next
        → req.times_sent ≡ 5
        → req.sent + 1 < env.now
        → All (HasSender env is routes (emptied entries next)) req.packets
        → All (IsFresh entries) (env ∷ envs)
        → Abandons (env ∷ envs) w req
    unfolding Abandons timeout_rounds find_ip
    last_round env envs w req placed five due senders fresh =
        let sr = alone is routes entries next w (req ∷ []) in
        let here : find_ip req.ip (req ∷ []) ≡ some req =
          rw (eq→== req.ip req.ip refl, find_ip) refl in
        let (frames, sr', e, g) =
          handle_arpreq-IsGivenUp env 0 sr req.ip req
            (record { size = size; queue = (placed, omega (arith, five), tt, tt) }) here due
            (omega (arith, five))
            (All-mono _ _ req.packets
              (λ pck h. HasSender-entries env is routes (emptied entries next) sr.cache pck refl h)
              senders) in
        let gone : sr'.cache.requests ≡ [] =
          find_ip-empty sr'.cache.requests (λ j. ground (arith, g.requests j)) in
        (
          sr',
          rw
              (
                timeout-handle_arpreq is routes entries next env 0 w req sr' fresh.0 e,
                timeout_rounds,
              )
              (timeout_rounds-idle is routes entries next 1 envs sr' gone g.entries fresh.1),
          record {
            asks = [];
            notices = frames;
            written = g.sent;
            count = omega (arith, five);
            asking = tt;
            told =
                AreNotices-entries is routes sr.cache (emptied entries next) req.packets frames refl
                  g.notices;
            gone = gone;
          },
        )

    asked-alone :
        (env : Env) (w : List Frame) (req : ArpReq)
        → asked env (alone is routes entries next w (req ∷ [])) req ifc
          ≡ alone is routes entries next
              (w ++ message (arp_request_packet env.uninit ifc req.ip) arp_len ifc.name ∷ [])
              (mark_sent env.now req ∷ [])
    unfolding update_req
    asked-alone env w req = rw (eq→== req.address req.address refl, update_req) refl

    -- A round that asks, and what the later rounds make of the request then.
    asking_round :
        (env : Env) (envs : List Env) (w : List Frame) (req : ArpReq)
        → req.sent + 1 < env.now
        → req.times_sent < 5
        → sr_find_lpm_entry routes req.ip ≡ some rt
        → sr_get_interface is rt.interface ≡ some ifc
        → IsFresh entries env
        → Abandons envs
            (w ++ message (arp_request_packet env.uninit ifc req.ip) arp_len ifc.name ∷ [])
            (mark_sent env.now req)
        → Abandons (env ∷ envs) w req
    unfolding Abandons timeout_rounds find_req mark_sent
    asking_round env envs w req due few route link fresh (sr', e, a) =
        let m = message (arp_request_packet env.uninit ifc req.ip) arp_len ifc.name in
        let alive : find_req req.address (req ∷ []) ≡ some req =
          rw (eq→== req.address req.address refl, find_req) refl in
        let asks_again =
          handle_arpreq-asked env 0 req.address req (alone is routes entries next w (req ∷ [])) rt
            ifc alive due few route link
          ∙ ap (λ (sr : Sr). ok sr) (asked-alone env w req) in
        (
          sr',
          rw
              (
                timeout-handle_arpreq is routes entries next env 0 w req _ fresh asks_again,
                timeout_rounds,
              )
              e,
          record {
            asks = m ∷ a.asks;
            notices = a.notices;
            written = a.written ∙ append_assoc w (m ∷ []) (a.asks ++ a.notices);
            count = omega (arith, a.count, few);
            asking = ((env.uninit, refl), a.asking);
            told = a.told;
            gone = a.gone;
          },
        )

    -- A round within the second after the request was sent.
    early_round :
        (env : Env) (envs : List Env) (w : List Frame) (req : ArpReq)
        → env.now ≤ req.sent + 1
        → IsFresh entries env
        → Abandons envs w req
        → Abandons (env ∷ envs) w req
    unfolding Abandons timeout_rounds find_req
    early_round env envs w req early fresh (sr', e, a) =
        let alive : find_req req.address (req ∷ []) ≡ some req =
          rw (eq→== req.address req.address refl, find_req) refl in
        (
          sr',
          rw
              (
                timeout-handle_arpreq is routes entries next env 0 w req
                    (alone is routes entries next w (req ∷ [])) fresh
                    (handle_arpreq-waits env 0 req.address req
                      (alone is routes entries next w (req ∷ [])) alive early),
                timeout_rounds,
              )
              e,
          a,
        )

    -- `t` is the time of the round before, and `d` tells whether that was after the request was sent.
    Abandons-from :
        (envs : List Env) (t d : ℕ) (w : List Frame) (req : ArpReq)
        → req.sent + d ≤ t
        → d ≤ 1
        → AreLater t envs
        → 2 * (6 - req.times_sent) ≤ length envs + d
        → req.times_sent ≤ 5
        → req.address < next
        → sr_find_lpm_entry routes req.ip ≡ some rt
        → sr_get_interface is rt.interface ≡ some ifc
        → All (λ env. All (HasSender env is routes (emptied entries next)) req.packets) envs
        → All (IsFresh entries) envs
        → Abandons envs w req
    unfolding mark_sent
    Abandons-from [] t d w req sent one later enough few placed route link senders fresh =
        absurd (omega (arith, one, enough, few))
    Abandons-from (env ∷ envs) t d w req sent one later enough few placed route link senders fresh =
        elim (Bool-cases (ltb (req.sent + 1) env.now)) [
          | inl due ↦ elim (Bool-cases (leb 5 req.times_sent)) [
            | inl spent ↦
                last_round env envs w req placed (ground (arith, few)) (ground arith) senders.0
                  fresh
            | inr left ↦
                asking_round env envs w req (ground arith) (ground arith) route link fresh.0 (
                  Abandons-from envs env.now 0 _ (mark_sent env.now req) (omega arith) (omega arith)
                    later.1 (ground (arith, enough, one)) (ground arith) placed route link senders.1
                    fresh.1)
          ]
          | inr early ↦ early_round env envs w req (ground arith) fresh.0 (
              Abandons-from envs env.now 1 w req (ground (arith, sent, later.0)) (omega arith)
                later.1 (ground (arith, enough, one, sent, later.0)) few placed route link senders.1
                fresh.1)
        ]

    -- A request that is alone in the queue of a router, for an address with a route by an interface
    -- that exists, was sent `times_sent` times, at most five, and nobody answers it. Over rounds of
    -- the timeout thread in different seconds, at least two for each time that it may still be sent
    -- and two more, in which no entry of the table expires and each waiting packet has a source
    -- with a route and a hardware address, it is sent until it was sent five times, then a host
    -- unreachable message is written for each waiting packet, in their order, and the queue is
    -- empty. One unit of fuel is enough for a request, and two steps for a sweep.
    pub timeout_rounds-IsAbandoned :
        (envs : List Env) (w : List Frame) (req : ArpReq)
        → AreLater req.sent envs
        → 2 * (6 - req.times_sent) ≤ length envs
        → req.times_sent ≤ 5
        → req.address < next
        → sr_find_lpm_entry routes req.ip ≡ some rt
        → sr_get_interface is rt.interface ≡ some ifc
        → All (λ env. All (HasSender env is routes (emptied entries next)) req.packets) envs
        → All (IsFresh entries) envs
        → (sr' : Sr) × (timeout_rounds 1 2 envs (alone is routes entries next w (req ∷ []))
            ≡ ok sr')
          × IsAbandoned ifc req w sr'
    unfolding Abandons
    timeout_rounds-IsAbandoned envs w req later enough few placed route link senders fresh =
        Abandons-from envs req.sent 0 w req (omega arith) (omega arith) later
          (omega (arith, enough)) few placed route link senders fresh
