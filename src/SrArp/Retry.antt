-- ===== src/SrArp/Retry.antt =====
-- The sweeps over a queue with one request: it goes out again until it went out five times.
use stanford.Prelude.{
  ℕ, ◌+◌, ◌<◌, ◌≤◌, ◌≡◌, refl, true, ◌||◌, ◌==◌, Option, none, some, List, [], ◌∷◌, arith, leb, ap,
  ◌∙◌, ==-refl, ◌>>=◌, le→leb,
}
use stanford.SrProtocol.{IpHdr}
use stanford.SrProtocol.Layout.RoundTrip.{Six}
use stanford.SrArpcache.{ArpReq, QueuedPacket}
use stanford.SrIf.{Instance, Iface, sr_get_interface}
use stanford.SrArp.{
  find_at, sr_handle_host_unreachable, sr_handle_cached_arp_req, next_of, sweep_from, sweep_all,
  sr_arpcache_sweepreqs,
}
use stanford.SrIp.Forward.Unknown.{asked, request_frame, handle_cached_arp_req-asks}

bind-some : (o : Option Instance) → (o >>= λ s. some s) ≡ o
bind-some none = refl
bind-some (some s) = refl

-- The router after the one request of its queue went out again.
abbrev pub again : Instance → ArpReq → Iface → List ℕ → ℕ → Instance
again sr req i iface now = record sr {
  cache = record sr.cache { requests = asked now req ∷ [] };
  sent = record { buf = request_frame i req.ip; iface = iface } ∷ sr.sent;
}

module _ (unreachable : Instance → ℕ → IpHdr → List ℕ → Option Instance) where
  sweep_one :
      (sr : Instance) (req : ArpReq) (now : ℕ)
      → sr.cache.requests ≡ req ∷ []
      → sr_arpcache_sweepreqs unreachable sr now
        ≡ sr_handle_cached_arp_req unreachable sr req.addr now
  unfolding sr_arpcache_sweepreqs sweep_all sweep_from next_of
  sweep_one sr req now q =
      let next : next_of unreachable req.addr sr.cache.requests ≡ some none =
        ap (λ l. next_of unreachable req.addr l) q ∙ rw (==-refl req.addr) refl in
      let loop : sweep_from unreachable 1 sr (some req.addr) now
          ≡ sr_handle_cached_arp_req unreachable sr req.addr now =
        ap
          (λ o. o >>= λ n. sr_handle_cached_arp_req unreachable sr req.addr now >>= λ sr'.
            sweep_from unreachable 0 sr' n now)
          next
        ∙ bind-some (sr_handle_cached_arp_req unreachable sr req.addr now) in
      ap (λ l. sweep_all unreachable l sr now) q ∙ loop

  due-late : (sent now : ℕ) → sent < now → (sent == 0 || leb (sent + 1) now) ≡ true
  due-late sent now h = ground (arith, h)

  pub sweep-asks :
      (sr : Instance) (req : ArpReq) (p : QueuedPacket) (ps : List QueuedPacket) (i : Iface)
      (now : ℕ)
      → sr.cache.requests ≡ req ∷ []
      → req.sent < now
      → req.times_sent < 5
      → req.packets ≡ p ∷ ps
      → sr_get_interface sr.if_list p.iface ≡ some i
      → Six i.addr
      → sr_arpcache_sweepreqs unreachable sr now ≡ some (again sr req i p.iface now)
  sweep-asks sr req p ps i now q late few packets e s =
      sweep_one sr req now q
      ∙ handle_cached_arp_req-asks unreachable sr req [] p ps i now q (due-late req.sent now late)
          (ground (arith, few)) packets e s

  pub sweep-gives_up :
      (sr : Instance) (req : ArpReq) (now : ℕ)
      → sr.cache.requests ≡ req ∷ []
      → req.sent < now
      → 5 ≤ req.times_sent
      → sr_arpcache_sweepreqs unreachable sr now ≡ sr_handle_host_unreachable unreachable sr req
  unfolding sr_handle_cached_arp_req find_at
  sweep-gives_up sr req now q late often =
      let hit : find_at req.addr sr.cache.requests ≡ some req =
        ap (λ l. find_at req.addr l) q ∙ rw (==-refl req.addr) refl in
      let due = due-late req.sent now late in
      let many = le→leb 5 req.times_sent often in sweep_one sr req now q ∙ rw (hit, due, many) refl
