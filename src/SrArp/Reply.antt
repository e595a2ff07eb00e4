-- ===== src/SrArp/Reply.antt =====
-- The answer to a request: the packets that waited go out.
use stanford.Prelude.{
  ℕ, ◌≡◌, refl, true, none, some, List, [], ◌∷◌, ◌==◌, arith, ap, ◌∙◌, Bool-cases, inl, inr,
}
use stanford.Wire.{htonl}
use stanford.SrProtocol.{IpFrame, ArpHdr}
use stanford.SrProtocol.Layout.{read_frame, frame_bytes}
use stanford.SrProtocol.Layout.RoundTrip.{Six}
use stanford.SrProtocol.Layout.Cut.{IsWhole}
use stanford.SrArpcache.{
  ArpCache, ArpReq, QueuedPacket, find_request, remove_request, fill_entry, remove_at,
  sr_arpcache_insert, sr_arpreq_destroy,
}
use stanford.SrIf.{Instance, Iface, Sent, sr_get_interface}
use stanford.SrArp.{find_at, send_queued, sr_recv_arp_reply}
use stanford.SrIp.Forward.Known.{wire_frame, send_ip_pkt-sent}

-- A queued packet that `sr_frwd_ip_pkt` filled in for its interface.
pub record IsReady (ifs : List Iface) (p : QueuedPacket) (f : IpFrame) : Type 0 where
  pub i : Iface
  pub read : read_frame p.buf ≡ some f
  pub over : sr_get_interface ifs p.iface ≡ some i
  pub source : f.eth.ether_shost ≡ i.addr
  pub six : Six f.eth.ether_shost
  pub whole : IsWhole f

pub data AllReady (ifs : List Iface) : List QueuedPacket → List IpFrame → Type 0 where
  none_left : AllReady ifs [] []
  ready :
      (p : QueuedPacket) (f : IpFrame) (ps : List QueuedPacket) (fs : List IpFrame)
      → IsReady ifs p f
      → AllReady ifs ps fs
      → AllReady ifs (p ∷ ps) (f ∷ fs)

abbrev pub to_mac : List ℕ → IpFrame → IpFrame
to_mac mac f = record f { eth = record f.eth { ether_dhost = mac } }

-- The log after the packets, which read as these frames, went out in their order.
unfoldable pub log_of : List ℕ → List QueuedPacket → List IpFrame → List Sent → List Sent
log_of mac (p ∷ ps) (f ∷ fs) sent =
    log_of mac ps fs
      (record { buf = frame_bytes (wire_frame (to_mac mac f)); iface = p.iface } ∷ sent)
log_of mac _ _ sent = sent

send_queued-all :
    (mac : List ℕ) (ifs : List Iface) (ps : List QueuedPacket) (fs : List IpFrame) (sr : Instance)
    → sr.if_list ≡ ifs
    → Six mac
    → AllReady ifs ps fs
    → send_queued mac ps sr ≡ some (record sr { sent = log_of mac ps fs sr.sent })
unfolding send_queued log_of
send_queued-all mac ifs ps fs sr e m none_left = refl
send_queued-all mac ifs ps fs sr e m (ready p f ps' fs' v vs) =
    let sent : Sent = record { buf = frame_bytes (wire_frame (to_mac mac f)); iface = p.iface } in
    let whole : IsWhole (to_mac mac f) = record {
      header = v.whole.header;
      there = v.whole.there;
    } in
    let over : sr_get_interface sr.if_list p.iface ≡ some v.i =
      ap (λ l. sr_get_interface l p.iface) e ∙ v.over in
    rw (v.read, send_ip_pkt-sent sr (to_mac mac f) p.iface v.i m v.six whole over v.source)
      (send_queued-all mac ifs ps' fs' (record sr { sent = sent ∷ sr.sent }) e m vs)

remove_at-missing : (addr : ℕ) (rs : List ArpReq) → find_at addr rs ≡ none → remove_at addr rs ≡ rs
unfolding find_at remove_at
remove_at-missing addr [] h = refl
remove_at-missing addr (r ∷ rs) h = elim (Bool-cases (r.addr == addr)) [
  | inl e ↦ ground (arith, h, e)
  | inr e ↦ rw e (ap (λ l. r ∷ l) (remove_at-missing addr rs (ground (arith, h, e))))
]

-- An ARP reply for an address with a queued request, whose packets are as `sr_frwd_ip_pkt` queues
-- them, enters the address into the cache, takes the request off the queue, and sends all of its
-- packets, whole and in network order, in the order in which they are queued, to the Ethernet address
-- that the reply gives. No other request lies at the address of this one.
pub recv_arp_reply-sends :
    (sr : Instance) (arp_hdr : ArpHdr) (now : ℕ) (r : ArpReq) (fs : List IpFrame)
    → let ip = htonl arp_hdr.ar_sip in
      let mac = arp_hdr.ar_sha in
      find_request ip sr.cache.requests ≡ some r
      → find_at r.addr (remove_request ip sr.cache.requests) ≡ none
      → Six mac
      → AllReady sr.if_list r.packets fs
      → sr_recv_arp_reply sr arp_hdr now
        ≡ some (record sr {
          cache = record {
            entries =
                fill_entry
                  (record { mac = mac; ip = ip; added = now; valid = true })
                  sr.cache.entries;
            requests = remove_request ip sr.cache.requests;
          };
          sent = log_of mac r.packets fs sr.sent;
        })
unfolding sr_recv_arp_reply sr_arpcache_insert sr_arpreq_destroy
recv_arp_reply-sends sr arp_hdr now r fs found alone m vs =
    let ip = htonl arp_hdr.ar_sip in
    let cache' : ArpCache = (sr_arpcache_insert sr.cache arp_hdr.ar_sha ip now).0 in
    let all =
      send_queued-all arp_hdr.ar_sha sr.if_list r.packets fs (record sr { cache = cache' }) refl m
        vs in
    rw (found, sr_recv_arp_reply)
      (rw all (rw (remove_at-missing r.addr (remove_request ip sr.cache.requests) alone) refl))
