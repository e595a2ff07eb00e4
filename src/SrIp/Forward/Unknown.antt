-- ===== src/SrIp/Forward/Unknown.antt =====
-- Forwarding to a gateway whose Ethernet address is not in the ARP cache.
use stanford.Prelude.{
  ℕ, suc, ◌+◌, ◌-◌, ◌<◌, ◌≡◌, refl, sym, true, false, Option, none, some, List, [], ◌∷◌, ◌++◌, ◌==◌,
  ◌||◌, arith, take, replicate, ap, ◌∙◌, subst, length-append, leb, ==-refl, ◌>>=◌,
}
use stanford.Wire.{htonl, le16}
use stanford.SrProtocol.{IpHdr, IpFrame, ethertype_arp, arp_op_request}
use stanford.SrProtocol.Layout.{ip_bytes, eth_bytes, frame_bytes, read_frame, arp_bytes}
use stanford.SrProtocol.Layout.RoundTrip.{Fits, Six, six, read_frame-bytes}
use stanford.SrProtocol.Layout.Cut.{
  IsWhole, take-Six, length-eth_bytes, source_bytes, read_bytes-frame,
}
use stanford.SrArpcache.{
  ArpCache, ArpReq, QueuedPacket, add_packet, sr_arpcache_lookup, sr_arpcache_queuereq,
  find_request, queue_packet,
}
use stanford.SrArp.{
  broadcast, ask_over, sr_arp_hdr_hton, sr_init_arp_hdr, arp_frame, sr_send_arpreq, find_at,
  note_sent, sr_handle_cached_arp_req,
}
use stanford.SrIf.{Instance, Iface, sr_get_interface}
use stanford.SrIp.{Route, sr_find_longest_prefix_match}
use stanford.SrIp.Header.{sr_eth_hdr_hton, sr_init_eth_hdr, get_eth_ip_pkt_len}
use stanford.SrIp.Forward.{set_source, queue_frame, send_or_queue, frwd_by, sr_frwd_ip_pkt}
use stanford.SrIp.Forward.Known.{send_packet-sent}

-- The frame cut to its `ip_len`, as it is queued: in host order.
abbrev pub cut_frame : IpFrame → IpFrame
cut_frame f = record f { payload = take (f.ip.ip_len - 20) f.payload }

-- The request for a gateway's address that goes out over an interface.
abbrev pub request_frame : Iface → ℕ → List ℕ
request_frame i gw =
    arp_frame i.addr (sr_init_arp_hdr i.addr (htonl i.ip) (replicate 6 0) (htonl gw) arp_op_request)

add_packet-Six :
    (d t rest iface : List ℕ) (ps : List QueuedPacket)
    → Six d
    → add_packet (some ((d ++ t) ++ rest)) (some iface) ps
      ≡ record { buf = (d ++ t) ++ rest; iface = iface } ∷ ps
unfolding add_packet
add_packet-Six d t rest iface ps (six a b c x e f) = refl

-- A request that was not there is put in front, with the packet.
queuereq_new :
    (cache : ArpCache) (fresh ip : ℕ) (packet iface : Option (List ℕ))
    → find_request ip cache.requests ≡ none
    → sr_arpcache_queuereq cache fresh ip packet iface ≡ (
        let r : ArpReq =
          queue_packet packet iface
            (record { addr = fresh; ip = ip; sent = 0; times_sent = 0; packets = [] }) in
        (record cache { requests = r ∷ cache.requests }, r))
unfolding sr_arpcache_queuereq
queuereq_new cache fresh ip packet iface e = rw (e, sr_arpcache_queuereq) refl

send_arpreq-sent :
    (sr : Instance) (req : ArpReq) (p : QueuedPacket) (ps : List QueuedPacket) (i : Iface)
    → req.packets ≡ p ∷ ps
    → sr_get_interface sr.if_list p.iface ≡ some i
    → Six i.addr
    → sr_send_arpreq sr req
      ≡ some
          (record sr { sent = record { buf = request_frame i req.ip; iface = p.iface } ∷ sr.sent })
unfolding sr_send_arpreq ask_over sr_eth_hdr_hton sr_init_eth_hdr
send_arpreq-sent sr req p ps i q e s =
    let own = take-Six i.addr s in
    let shost : Six (take 6 i.addr) = subst {A = List ℕ} Six (sym own) s in
    let eth = sr_eth_hdr_hton (sr_init_eth_hdr broadcast i.addr ethertype_arp) in
    let long = length-append (eth_bytes eth) (
      arp_bytes (
        sr_arp_hdr_hton
          (sr_init_arp_hdr i.addr (htonl i.ip) (replicate 6 0) (htonl req.ip) arp_op_request))) in
    let head = length-eth_bytes eth (six 255 255 255 255 255 255) shost in
    let body = request_frame i req.ip in
    rw (q, e)
      (ap some (
        send_packet-sent sr body p.iface i (ground (arith, long)) e (
          source_bytes broadcast (take 6 i.addr) (le16 eth.ether_type)
            (arp_bytes (
              sr_arp_hdr_hton (
                sr_init_arp_hdr i.addr (htonl i.ip) (replicate 6 0) (htonl req.ip) arp_op_request)))
            (six 255 255 255 255 255 255) shost
          ∙ own)))

-- The request as it is after it went out once more.
abbrev pub asked : ℕ → ArpReq → ArpReq
asked now r = record r { sent = now; times_sent = r.times_sent + 1 }

-- A due request that was sent fewer than five times goes out, over the interface of the packet that
-- was queued last.
pub handle_cached_arp_req-asks :
    (unreachable : Instance → ℕ → IpHdr → List ℕ → Option Instance) (sr : Instance) (req : ArpReq)
    (rs : List ArpReq) (p : QueuedPacket) (ps : List QueuedPacket) (i : Iface) (now : ℕ)
    → sr.cache.requests ≡ req ∷ rs
    → (req.sent == 0 || leb (req.sent + 1) now) ≡ true
    → leb 5 req.times_sent ≡ false
    → req.packets ≡ p ∷ ps
    → sr_get_interface sr.if_list p.iface ≡ some i
    → Six i.addr
    → sr_handle_cached_arp_req unreachable sr req.addr now
      ≡ some (record sr {
        cache = record sr.cache { requests = asked now req ∷ rs };
        sent = record { buf = request_frame i req.ip; iface = p.iface } ∷ sr.sent;
      })
unfolding sr_handle_cached_arp_req find_at note_sent
handle_cached_arp_req-asks unreachable sr req rs p ps i now q due few packets e s =
    let hit : find_at req.addr sr.cache.requests ≡ some req =
      ap (λ l. find_at req.addr l) q ∙ rw (==-refl req.addr) refl in
    let noted : note_sent req.addr now sr.cache.requests ≡ asked now req ∷ rs =
      ap (λ l. note_sent req.addr now l) q ∙ rw (==-refl req.addr) refl in
    rw (hit, due, few, send_arpreq-sent sr req p ps i packets e s) (rw noted refl)

-- The request that a packet for an unknown gateway makes, after it went out.
abbrev pub first_request : Instance → ℕ → ℕ → List ℕ → List ℕ → ArpReq
first_request sr gw now buf iface = record {
  addr = sr.next_addr;
  ip = gw;
  sent = now;
  times_sent = 1;
  packets = record { buf = buf; iface = iface } ∷ [];
}

frwd_queues :
    (unreachable : Instance → ℕ → IpHdr → List ℕ → Option Instance) (sr : Instance) (f : IpFrame)
    (now : ℕ) (rt : Route) (i : Iface)
    → sr_find_longest_prefix_match sr.routing_table (htonl f.ip.ip_dst) ≡ some rt
    → sr_get_interface sr.if_list rt.iface ≡ some i
    → sr_arpcache_lookup sr.cache rt.gw ≡ none
    → sr_frwd_ip_pkt unreachable sr f now
      ≡ (queue_frame unreachable sr (set_source i f) rt now >>= λ sr'. some (sr', true))
unfolding sr_frwd_ip_pkt frwd_by send_or_queue
frwd_queues unreachable sr f now rt i r e a = rw r (rw e (rw a refl))

queue_frame-new :
    (unreachable : Instance → ℕ → IpHdr → List ℕ → Option Instance) (sr : Instance) (f : IpFrame)
    (rt : Route) (now : ℕ) (i : Iface)
    → sr_get_interface sr.if_list rt.iface ≡ some i
    → find_request rt.gw sr.cache.requests ≡ none
    → Six i.addr
    → Six f.eth.ether_dhost
    → Six f.eth.ether_shost
    → IsWhole f
    → queue_frame unreachable sr f rt now
      ≡ some (record sr {
        cache = record sr.cache {
          requests =
              first_request sr rt.gw now (frame_bytes (cut_frame f)) rt.iface ∷ sr.cache.requests;
        };
        next_addr = suc sr.next_addr;
        sent = record { buf = request_frame i rt.gw; iface = rt.iface } ∷ sr.sent;
      })
unfolding queue_frame get_eth_ip_pkt_len
queue_frame-new unreachable sr f rt now i e q s d h v =
    let buf = frame_bytes (cut_frame f) in
    let rest = f.eth.ether_shost ++ le16 f.eth.ether_type in
    let read = read_bytes-frame f.eth f.ip f.payload f.ip.ip_len d h v.header v.there in
    let made : ArpReq = record {
      addr = sr.next_addr;
      ip = rt.gw;
      sent = 0;
      times_sent = 0;
      packets = record { buf = buf; iface = rt.iface } ∷ [];
    } in
    let queued : queue_packet (some buf) (some rt.iface)
          (record { addr = sr.next_addr; ip = rt.gw; sent = 0; times_sent = 0; packets = [] })
        ≡ made =
      ap {B = ArpReq} (λ ps. record made { packets = ps })
        (add_packet-Six f.eth.ether_dhost rest (ip_bytes f.ip ++ take (f.ip.ip_len - 20) f.payload)
          rt.iface [] d) in
    let cache' : ArpCache = record sr.cache { requests = made ∷ sr.cache.requests } in
    let new : sr_arpcache_queuereq sr.cache sr.next_addr rt.gw (some buf) (some rt.iface)
        ≡ (cache', made) =
      queuereq_new sr.cache sr.next_addr rt.gw (some buf) (some rt.iface) q
      ∙ ap {B = ArpCache × ArpReq} (λ r. (record sr.cache { requests = r ∷ sr.cache.requests }, r))
          queued in
    let sr' : Instance = record sr { cache = cache'; next_addr = suc sr.next_addr } in
    rw (read, new)
      (handle_cached_arp_req-asks unreachable sr' made sr.cache.requests
        (record { buf = buf; iface = rt.iface }) [] i now refl refl refl refl e s)

-- A packet for which the routing table has a route over one of the router's interfaces, to a gateway
-- whose Ethernet address is not in the ARP cache and for which no request is queued, waits in a new
-- request in front of the others, and one ARP request for the gateway goes out over the interface.
-- The request was sent once, now, and has the packet: as `sr_frwd_ip_pkt` filled it in, in host
-- order, cut to its `ip_len`. This is so whatever the handling of unreachable hosts is. The addresses
-- have six bytes, and `ip_len` is no more than the packet that is there.
pub frwd-unknown :
    (unreachable : Instance → ℕ → IpHdr → List ℕ → Option Instance) (sr : Instance) (f : IpFrame)
    (now : ℕ) (rt : Route) (i : Iface)
    → sr_find_longest_prefix_match sr.routing_table (htonl f.ip.ip_dst) ≡ some rt
    → sr_get_interface sr.if_list rt.iface ≡ some i
    → sr_arpcache_lookup sr.cache rt.gw ≡ none
    → find_request rt.gw sr.cache.requests ≡ none
    → Six i.addr
    → Six f.eth.ether_dhost
    → IsWhole f
    → let buf = frame_bytes (cut_frame (set_source i f)) in
      sr_frwd_ip_pkt unreachable sr f now
      ≡ some (
        record sr {
          cache = record sr.cache {
            requests = first_request sr rt.gw now buf rt.iface ∷ sr.cache.requests;
          };
          next_addr = suc sr.next_addr;
          sent = record { buf = request_frame i rt.gw; iface = rt.iface } ∷ sr.sent;
        },
        true,
      )
unfolding set_source
frwd-unknown unreachable sr f now rt i r e a q s d v =
    let g = set_source i f in
    let src : Six (take 6 i.addr) = subst {A = List ℕ} Six (sym (take-Six i.addr s)) s in
    let whole : IsWhole g = record { header = v.header; there = v.there } in
    frwd_queues unreachable sr f now rt i r e a
    ∙ ap (λ o. o >>= λ sr'. some (sr', true))
        (queue_frame-new unreachable sr g rt now i e q s d src whole)

-- The queued bytes read as the packet.
pub queued-read :
    (f : IpFrame) (i : Iface)
    → Six f.eth.ether_dhost
    → Six i.addr
    → f.eth.ether_type < 65536
    → Fits (set_source i f).ip
    → read_frame (frame_bytes (cut_frame (set_source i f))) ≡ some (cut_frame (set_source i f))
unfolding set_source
queued-read f i d s type fits = read_frame-bytes (cut_frame (set_source i f)) (record {
  dhost = d;
  shost = subst {A = List ℕ} Six (sym (take-Six i.addr s)) s;
  type = type;
  header = fits;
})
