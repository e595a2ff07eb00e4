-- ===== src/SrArp/Answered.antt =====
-- A packet for an unknown gateway, and the gateway's answer.
use stanford.Prelude.{
  ℕ, suc, ◌-◌, ◌<◌, ◌≡◌, refl, sym, true, false, Option, none, some, List, [], ◌∷◌, ◌==◌,
  if◌then◌else◌, arith, take, take-take, length-take, ap, ◌∙◌, subst, ◌>>=◌, ==-refl,
}
use stanford.Wire.{htonl}
use stanford.SrProtocol.{IpFrame, IpHdr, ArpHdr}
use stanford.SrProtocol.Layout.{frame_bytes}
use stanford.SrProtocol.Layout.RoundTrip.{Fits, Six}
use stanford.SrProtocol.Layout.Cut.{IsWhole, take-Six}
use stanford.SrArpcache.Entries.{is_full, lookup-insert}
use stanford.SrArpcache.{
  ArpCache, sr_arpcache_insert, ArpEntry, find_request, remove_request, fill_entry,
  sr_arpcache_lookup,
}
use stanford.SrIf.{Instance, Iface, Sent, sr_get_interface}
use stanford.SrArp.{find_at, sr_recv_arp_reply}
use stanford.SrArp.Reply.{none_left, ready, IsReady, log_of, recv_arp_reply-sends}
use stanford.SrIp.{Route, sr_find_longest_prefix_match}
use stanford.SrIp.Forward.{set_source, sr_frwd_ip_pkt}
use stanford.SrIp.Forward.Known.{addressed, addressed-filled_for, wire_frame, frwd-known}
use stanford.SrIp.Forward.Unknown.{
  cut_frame, first_request, request_frame, frwd-unknown, queued-read,
}

-- The entry that a reply makes.
abbrev pub answer : ArpHdr → ℕ → ArpEntry
answer arp_hdr now = record {
  mac = arp_hdr.ar_sha;
  ip = htonl arp_hdr.ar_sip;
  added = now;
  valid = true;
}

lookup-answer :
    (cache : ArpCache) (gw : ℕ) (arp_hdr : ArpHdr) (now : ℕ)
    → sr_arpcache_lookup cache gw ≡ none
    → is_full cache.entries ≡ false
    → htonl arp_hdr.ar_sip ≡ gw
    → sr_arpcache_lookup
        (record { entries = fill_entry (answer arp_hdr now) cache.entries; requests = [] })
        gw
      ≡ some (answer arp_hdr now)
unfolding sr_arpcache_lookup sr_arpcache_insert
lookup-answer cache gw arp_hdr now n room e =
    let ip = htonl arp_hdr.ar_sip in
    rw (← e)
      (lookup-insert cache arp_hdr.ar_sha ip (suc ip) now (ap (sr_arpcache_lookup cache) e ∙ n) room
        (omega arith)).0

-- The packet and the reply come one after the other: the ARP request goes out and then the packet, in
-- the frame `out`, the queue is empty, and the cache has the answer. With that cache and no packet
-- before it, the packet goes out at once in the same bytes.
abbrev pub SentOnAnswer :
    (Instance → ℕ → IpHdr → List ℕ → Option Instance)
    → Instance
    → IpFrame
    → Route
    → Iface
    → ArpHdr
    → ℕ
    → ℕ
    → IpFrame
    → Type 0
SentOnAnswer unreachable sr f rt i arp_hdr t0 t1 out =
    let cache : ArpCache = record {
      entries = fill_entry (answer arp_hdr t1) sr.cache.entries;
      requests = [];
    } in
    let packet : Sent = record { buf = frame_bytes (wire_frame out); iface = rt.iface } in
    let known : Instance = record sr { cache = cache } in
    ((sr_frwd_ip_pkt unreachable sr f t0 >>= λ r. sr_recv_arp_reply r.0 arp_hdr t1)
      ≡ some (record sr {
        cache = cache;
        next_addr = suc sr.next_addr;
        sent = packet ∷ record { buf = request_frame i rt.gw; iface = rt.iface } ∷ sr.sent;
      }))
    × (sr_arpcache_lookup cache rt.gw ≡ some (answer arp_hdr t1))
    × (sr_frwd_ip_pkt unreachable known f t1
        ≡ some (record known { sent = packet ∷ sr.sent }, true))

answered_addressed :
    (unreachable : Instance → ℕ → IpHdr → List ℕ → Option Instance) (sr : Instance) (f : IpFrame)
    (rt : Route) (i : Iface) (arp_hdr : ArpHdr) (t0 t1 : ℕ)
    → sr.cache.requests ≡ []
    → sr_find_longest_prefix_match sr.routing_table (htonl f.ip.ip_dst) ≡ some rt
    → sr_get_interface sr.if_list rt.iface ≡ some i
    → sr_arpcache_lookup sr.cache rt.gw ≡ none
    → is_full sr.cache.entries ≡ false
    → Six i.addr
    → Six f.eth.ether_dhost
    → f.eth.ether_type < 65536
    → Fits (set_source i f).ip
    → IsWhole f
    → htonl arp_hdr.ar_sip ≡ rt.gw
    → Six arp_hdr.ar_sha
    → SentOnAnswer unreachable sr f rt i arp_hdr t0 t1 (addressed i (answer arp_hdr t1) f)
unfolding set_source find_request remove_request find_at log_of
answered_addressed unreachable sr f rt i arp_hdr t0 t1 q r e n room own d type fits v gw m =
    let g = cut_frame (set_source i f) in
    let req = first_request sr rt.gw t0 (frame_bytes g) rt.iface in
    let start =
      frwd-unknown unreachable sr f t0 rt i r e n (ap (λ l. find_request rt.gw l) q) own d v in
    let s0 : Instance = record sr {
      cache = record sr.cache { requests = req ∷ sr.cache.requests };
      next_addr = suc sr.next_addr;
      sent = record { buf = request_frame i rt.gw; iface = rt.iface } ∷ sr.sent;
    } in
    let same : (rt.gw == htonl arp_hdr.ar_sip) ≡ true = ap (λ x. rt.gw == x) gw ∙ ==-refl rt.gw in
    let cleared : remove_request (htonl arp_hdr.ar_sip) (req ∷ sr.cache.requests) ≡ [] =
      rw same q in
    let len = f.ip.ip_len - 20 in
    let bytes : take len (take len f.payload) ≡ take len f.payload = take-take len f.payload in
    let fills : IsReady sr.if_list (record { buf = frame_bytes g; iface = rt.iface }) g = record {
      i = i;
      read = queued-read f i d own type fits;
      over = e;
      source = take-Six i.addr own;
      six = subst {A = List ℕ} Six (sym (take-Six i.addr own)) own;
      whole = record {
        header = v.header;
        there =
            omega
              (arith, v.there, length-take (f.ip.ip_len - 20) f.payload (omega (arith, v.there)));
      };
    } in
    let go =
      recv_arp_reply-sends s0 arp_hdr t1 req (g ∷ []) (rw same refl)
        (rw same (ap (λ l. find_at sr.next_addr l) q)) m
        (ready (record { buf = frame_bytes g; iface = rt.iface }) g [] [] fills none_left) in
    let found = lookup-answer sr.cache rt.gw arp_hdr t1 n room gw in
    let known : Instance = record sr {
      cache = record { entries = fill_entry (answer arp_hdr t1) sr.cache.entries; requests = [] };
    } in
    (
      ap (λ o. o >>= λ r'. sr_recv_arp_reply r'.0 arp_hdr t1) start ∙ go ∙ rw (cleared, bytes) refl,
      found,
      (frwd-known unreachable known f t1 rt i (answer arp_hdr t1) r e found own m fits.hl v).0,
    )

-- A packet comes for a gateway whose Ethernet address is not in the ARP cache, while no request is
-- queued and the table of the cache is not full; later the gateway's ARP reply comes. Then the queue
-- is empty again, a lookup of the gateway finds the address of the reply, and two frames went out: the
-- ARP request, and the packet, from the interface's Ethernet address to the one of the reply, with the
-- interface's IP address for its source if it had none; and `sr_frwd_ip_pkt` with the cache that the reply leaves sends the
-- packet at once in the same bytes over the same interface. The packet has all the bytes that its
-- `ip_len` says, addresses of six bytes and fields that fit into their words.
pub answered-sends :
    (unreachable : Instance → ℕ → IpHdr → List ℕ → Option Instance) (sr : Instance) (f : IpFrame)
    (rt : Route) (i : Iface) (arp_hdr : ArpHdr) (t0 t1 : ℕ)
    → sr.cache.requests ≡ []
    → sr_find_longest_prefix_match sr.routing_table (htonl f.ip.ip_dst) ≡ some rt
    → sr_get_interface sr.if_list rt.iface ≡ some i
    → sr_arpcache_lookup sr.cache rt.gw ≡ none
    → is_full sr.cache.entries ≡ false
    → Six i.addr
    → Six f.eth.ether_dhost
    → f.eth.ether_type < 65536
    → Fits (set_source i f).ip
    → IsWhole f
    → htonl arp_hdr.ar_sip ≡ rt.gw
    → Six arp_hdr.ar_sha
    → SentOnAnswer unreachable sr f rt i arp_hdr t0 t1 (record f {
      eth = record f.eth { ether_dhost = arp_hdr.ar_sha; ether_shost = i.addr };
      ip = record f.ip { ip_src = if f.ip.ip_src == 0 then htonl i.ip else f.ip.ip_src };
    })
answered-sends unreachable sr f rt i arp_hdr t0 t1 q r e n room own d type fits v gw m =
    subst {A = IpFrame} (SentOnAnswer unreachable sr f rt i arp_hdr t0 t1)
      (addressed-filled_for i (answer arp_hdr t1) f own)
      (answered_addressed unreachable sr f rt i arp_hdr t0 t1 q r e n room own d type fits v gw m)
