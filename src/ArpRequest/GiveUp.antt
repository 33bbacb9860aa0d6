-- ===== src/ArpRequest/GiveUp.antt =====
-- The branch of sr_arpcache_handle_arpreq that gives a request up after five attempts.
use nw_proj.Base.{
  ℕ, suc, ◌+◌, ◌≤◌, ◌<◌, ◌≡◌, refl, sym, arith, ◌==◌, if◌then◌else◌, ◌∙◌, some, none, List, [], ◌∷◌,
  ◌++◌, All, ap,
}
use mathlib.Core.List.{append-nil, append_assoc}
use nw_proj.Memory.{Bytes, load32, memcpy}
use nw_proj.Protocol.{ip_src}
use nw_proj.Instance.{
  Iface, RtEntry, Packet, ArpEntry, ArpReq, ArpCache, Sr, Env, Frame, Outcome, ok,
}
use nw_proj.Interfaces.{sr_get_interface}
use nw_proj.Routing.{sr_find_lpm_entry}
use nw_proj.ArpCache.{sr_arpcache_lookup, find_ip, sr_arpreq_destroy, remove_req}
use nw_proj.ArpCache.Invariant.{IsValid}
use nw_proj.ArpCache.Queue.{find_req-find_ip, find_ip-remove_req}
use nw_proj.Send.{message}
use nw_proj.Send.Waiting.{sr_send_packet-IsSendable}
use nw_proj.Icmp.{i_hdr, error_len, host_unreachable_packet}
use nw_proj.Icmp.Laws.{host_unreachable_packet-IsIcmpError}
use nw_proj.Icmp.Frames.{
  host_unreachable-IsSendable, host_unreachable_packet-shost, IsErrorFrame, AreBytes,
  IsErrorFrame-memcpy,
}
use nw_proj.ArpRequest.{
  hand_over, notify, notify_all, give_up, handle_arpreq_step, sr_arpcache_handle_arpreq,
}

-- The source of the packet has a route by an interface that exists, and a hardware address.
pub record HasSender (env : Env) (is : List Iface) (routes : List RtEntry) (cache : ArpCache)
    (pck : Packet) : Type 0 where
  pub rt : RtEntry
  pub ifc : Iface
  pub entry : ArpEntry
  pub route : sr_find_lpm_entry routes (load32 pck.buf (ip_src i_hdr)) ≡ some rt
  pub link : sr_get_interface is rt.interface ≡ some ifc
  pub known : sr_arpcache_lookup cache (load32 pck.buf (ip_src i_hdr)) ≡ some entry
  pub bytes : AreBytes env ifc pck.buf

-- The message tells the packet's source that its destination is unreachable.
pub record IsNotice (is : List Iface) (routes : List RtEntry) (cache : ArpCache) (pck : Packet)
    (f : Frame) : Type 0 where
  pub rt : RtEntry
  pub ifc : Iface
  pub entry : ArpEntry
  pub route : sr_find_lpm_entry routes (load32 pck.buf (ip_src i_hdr)) ≡ some rt
  pub link : sr_get_interface is rt.interface ≡ some ifc
  pub known : sr_arpcache_lookup cache (load32 pck.buf (ip_src i_hdr)) ≡ some entry
  pub frame : Bytes
  pub sent : f ≡ message frame error_len rt.interface
  pub says : IsErrorFrame 3 1 ifc entry pck.buf frame

-- One notice for each packet, in their order.
abbrev pub AreNotices : List Iface → List RtEntry → ArpCache → List Packet → List Frame → Type 0
AreNotices is routes cache [] [] = Unit {0}
AreNotices is routes cache [] (f ∷ fs) = ⊥
AreNotices is routes cache (pck ∷ pcks) [] = ⊥
AreNotices is routes cache (pck ∷ pcks) (f ∷ fs) =
    IsNotice is routes cache pck f × AreNotices is routes cache pcks fs

module _ (env : Env) (handle : ℕ → Sr → Outcome Sr) where
  notify-IsNotice :
      (pck : Packet) (sr : Sr)
      → HasSender env sr.if_list sr.routing_table sr.cache pck
      → (f : Frame) × (notify env handle pck sr ≡ ok (record sr { written = sr.written ++ f ∷ [] }))
        × IsNotice sr.if_list sr.routing_table sr.cache pck f
  unfolding notify hand_over
  notify-IsNotice pck sr h =
      let m = host_unreachable_packet env.uninit h.ifc pck.buf in
      let may =
        host_unreachable-IsSendable sr.if_list env.uninit pck.buf h.rt.interface h.ifc h.link in
      (
        message (memcpy m 0 h.entry.mac 0 6) error_len h.rt.interface,
        rw (h.route, notify)
            (rw h.link (
              rw (h.known, hand_over)
                (ap ok
                  (sr_send_packet-IsSendable env sr m error_len h.rt.interface h.entry.mac may)))),
        record {
          rt = h.rt;
          ifc = h.ifc;
          entry = h.entry;
          route = h.route;
          link = h.link;
          known = h.known;
          frame = memcpy m 0 h.entry.mac 0 6;
          sent = refl;
          says =
              IsErrorFrame-memcpy 3 1 h.ifc h.entry pck.buf m
                (host_unreachable_packet-IsIcmpError env.uninit h.ifc pck.buf h.bytes.fresh
                  h.bytes.mac h.bytes.ip h.bytes.packet)
                (host_unreachable_packet-shost env.uninit h.ifc pck.buf);
        },
      )

  notify_all-AreNotices :
      (pcks : List Packet) (sr : Sr)
      → All (HasSender env sr.if_list sr.routing_table sr.cache) pcks
      → (fs : List Frame) × (notify_all env handle pcks sr
          ≡ ok (record sr { written = sr.written ++ fs }))
        × AreNotices sr.if_list sr.routing_table sr.cache pcks fs
  unfolding notify_all
  notify_all-AreNotices [] sr h = (
    [],
    ap (λ (w : List Frame). ok (record sr { written = w })) (sym (append-nil sr.written)),
    tt,
  )
  notify_all-AreNotices (pck ∷ pcks) sr h =
      let (f, e, n) = notify-IsNotice pck sr h.0 in
      let (fs, es, ns) =
        notify_all-AreNotices pcks (record sr { written = sr.written ++ f ∷ [] }) h.1 in
      (
        f ∷ fs,
        rw (e, notify_all)
            (es
              ∙ ap (λ (w : List Frame). ok (record sr { written = w }))
                  (append_assoc sr.written (f ∷ []) fs)),
        (n, ns),
      )

-- What is left when the request `req` for `ip` was given up: `frames` were written, and the request
-- is gone.
pub record IsGivenUp (sr : Sr) (req : ArpReq) (ip : ℕ) (frames : List Frame) (sr' : Sr)
    : Type 0 where
  pub notices : AreNotices sr.if_list sr.routing_table sr.cache req.packets frames
  pub sent : sr'.written ≡ sr.written ++ frames
  pub requests :
      (j : ℕ)
      → find_ip j sr'.cache.requests ≡ (if ip == j then none else find_ip j sr.cache.requests)
  pub entries : sr'.cache.entries ≡ sr.cache.entries
  pub others : (sr'.if_list ≡ sr.if_list) × (sr'.routing_table ≡ sr.routing_table)

-- In a valid cache, the handling of the request for `ip` that was sent five times, at least two
-- seconds ago, and whose waiting packets all have a source with a route and a hardware address,
-- ends: a host unreachable message is written for each packet, in the order of the list, to its
-- source; the request for `ip` leaves the queue and no other does; nothing else changes.
pub handle_arpreq-IsGivenUp :
    (env : Env) (fuel : ℕ) (sr : Sr) (ip : ℕ) (req : ArpReq)
    → IsValid sr.cache
    → find_ip ip sr.cache.requests ≡ some req
    → req.sent + 1 < env.now
    → 5 ≤ req.times_sent
    → All (HasSender env sr.if_list sr.routing_table sr.cache) req.packets
    → (frames : List Frame) × (sr' : Sr) × (sr_arpcache_handle_arpreq env (suc fuel) req.address sr
        ≡ ok sr')
      × IsGivenUp sr req ip frames sr'
unfolding sr_arpcache_handle_arpreq handle_arpreq_step give_up sr_arpreq_destroy
handle_arpreq-IsGivenUp env fuel sr ip req v waits due spent senders =
    let (frames, e, ns) =
      notify_all-AreNotices env (sr_arpcache_handle_arpreq env fuel) req.packets sr senders in
    let alive = find_req-find_ip sr.cache.next_address ip sr.cache.requests req v.queue waits in
    (
      frames,
      record sr {
        written = sr.written ++ frames;
        cache = record (sr.cache) { requests = remove_req req.address sr.cache.requests };
      },
      rw (alive, handle_arpreq_step) (ground (arith, e)),
      record {
        notices = ns;
        sent = refl;
        requests =
            λ j. find_ip-remove_req sr.cache.next_address ip j sr.cache.requests req v.queue waits;
        entries = refl;
        others = (refl, refl);
      },
    )
