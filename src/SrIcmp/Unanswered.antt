-- ===== src/SrIcmp/Unanswered.antt =====
-- A gateway that does not answer: from the packet that asks for it to the message to its sender.
use stanford.Prelude.{
  ℕ, suc, ◌-◌, ◌<◌, ◌≤◌, ◌≡◌, refl, sym, Option, none, some, List, [], ◌∷◌, ◌++◌, arith, length,
  take, length-take, replicate, ap, ◌∙◌, length-append, ◌>>=◌, ==-refl,
}
use stanford.Wire.{htonl, le16}
use stanford.SrProtocol.{IpHdr, IpFrame, ethertype_ip, ip_protocol_icmp}
use stanford.SrProtocol.Layout.{ip_bytes, frame_bytes, read_frame}
use stanford.SrProtocol.Layout.RoundTrip.{Fits, Six, length-ip_bytes}
use stanford.SrProtocol.Layout.Cut.{IsWhole, read_bytes-part, take-over}
use stanford.SrArpcache.{
  ArpEntry, ArpReq, QueuedPacket, find_request, sr_arpcache_lookup, remove_at, sr_arpreq_destroy,
}
use stanford.SrIf.{Instance, Iface, Sent, sr_get_interface}
use stanford.SrIp.{Route, sr_find_longest_prefix_match}
use stanford.SrIp.Header.{sr_ip_hdr_hton, sr_init_ip_hdr}
use stanford.SrIp.Forward.{set_source, sr_frwd_ip_pkt, sr_create_and_frwd_ip_pkt}
use stanford.SrIp.Forward.Known.{addressed, wire_frame, frwd-known}
use stanford.SrIp.Forward.Unknown.{
  asked, cut_frame, first_request, request_frame, frwd-unknown, queued-read,
}
use stanford.SrArp.{
  find_at, tell_senders, sr_handle_host_unreachable, host_unreachable, sr_arpcache_sweepreqs,
}
use stanford.SrArp.Retry.{again, sweep-asks, sweep-gives_up}
use stanford.SrIcmp.{error_message, error_data, unreachable_source, sr_send_icmp_unreachable_pkt}

-- The route to an address, its interface, and the gateway's Ethernet address.
pub record Reached (sr : Instance) (ip : ℕ) : Type 0 where
  pub rt : Route
  pub i : Iface
  pub entry : ArpEntry
  pub routed : sr_find_longest_prefix_match sr.routing_table (htonl ip) ≡ some rt
  pub over : sr_get_interface sr.if_list rt.iface ≡ some i
  pub known : sr_arpcache_lookup sr.cache rt.gw ≡ some entry
  pub own : Six i.addr
  pub mac : Six entry.mac

-- The requests, the log and the next address do not matter for that.
unfoldable queue_reached :
    (sr : Instance) (ip : ℕ) (reqs : List ArpReq) (n : ℕ) (sent : List Sent)
    → Reached sr ip
    → Reached
        (record sr { cache = record sr.cache { requests = reqs }; next_addr = n; sent = sent })
        ip
unfolding sr_arpcache_lookup
queue_reached sr ip reqs n sent w = record {
  rt = w.rt;
  i = w.i;
  entry = w.entry;
  routed = w.routed;
  over = w.over;
  known = w.known;
  own = w.own;
  mac = w.mac;
}

-- What an unreachable message quotes of a packet.
abbrev pub quoted : IpHdr → List ℕ → List ℕ
quoted h payload = ip_bytes (sr_ip_hdr_hton h) ++ take 8 payload

error_data-quoted :
    (h : IpHdr) (payload : List ℕ)
    → 8 ≤ length payload
    → error_data h payload ≡ some (quoted h payload)
unfolding error_data
error_data-quoted h payload v =
    let ib = ip_bytes (sr_ip_hdr_hton h) in
    let len = length-ip_bytes (sr_ip_hdr_hton h) in
    let left : 28 - length ib ≡ 8 = omega (arith, len) in
    read_bytes-part 28 (ib ++ payload) (omega (arith, v, len, length-append ib payload))
    ∙ ap some (take-over 28 ib payload (omega (arith, len)) ∙ ap (λ k. ib ++ take k payload) left)

-- The frame of an unreachable message, before `sr_frwd_ip_pkt` fills it in.
abbrev pub unreachable_frame : ℕ → IpHdr → List ℕ → IpFrame
unreachable_frame code h payload =
    let msg = error_message 3 code (quoted h payload) in
    record {
      eth = record {
        ether_dhost = replicate 6 0;
        ether_shost = replicate 6 0;
        ether_type = ethertype_ip;
      };
      ip = sr_init_ip_hdr (unreachable_source code h) h.ip_src (length msg) ip_protocol_icmp;
      payload = msg;
    }

message-IsWhole :
    (code : ℕ) (h : IpHdr) (payload : List ℕ)
    → 8 ≤ length payload
    → IsWhole (unreachable_frame code h payload)
unfolding error_message sr_init_ip_hdr le16
message-IsWhole code h payload v =
    let ib = ip_bytes (sr_ip_hdr_hton h) in
    let a = length-append ib (take 8 payload) in
    let b = length-take 8 payload v in
    let c = length-ip_bytes (sr_ip_hdr_hton h) in
    record { header = omega (arith, a, b, c); there = omega (arith, a, b, c) }

-- An unreachable message whose receiver is reached goes out as one frame.
pub send_unreachable-sent :
    (fuel now : ℕ) (sr : Instance) (code : ℕ) (h : IpHdr) (payload : List ℕ)
    → 8 ≤ length payload
    → (w : Reached sr h.ip_src)
    → sr_send_icmp_unreachable_pkt (suc fuel) now sr code h payload
      ≡ some (record sr {
        sent =
            record {
              buf =
                  frame_bytes
                    (wire_frame (addressed w.i w.entry (unreachable_frame code h payload)));
              iface = w.rt.iface;
            }
            ∷ sr.sent;
      })
unfolding sr_send_icmp_unreachable_pkt sr_create_and_frwd_ip_pkt sr_init_ip_hdr
send_unreachable-sent fuel now sr code h payload v w =
    let f = unreachable_frame code h payload in
    let way =
      frwd-known (λ s c h' p. sr_send_icmp_unreachable_pkt fuel now s c h' p) sr f now w.rt w.i
        w.entry w.routed w.over w.known w.own w.mac (omega arith)
        (message-IsWhole code h payload v) in
    rw (error_data-quoted h payload v) (rw (way.0) refl)

-- The frame that tells the sender of a packet that its gateway does not answer.
abbrev pub notice : (sr : Instance) (g : IpFrame) → Reached sr g.ip.ip_src → Sent
notice sr g w = record {
  buf =
      frame_bytes
        (wire_frame (addressed w.i w.entry (unreachable_frame host_unreachable g.ip g.payload)));
  iface = w.rt.iface;
}

sweep-tells :
    (fuel now : ℕ) (sr : Instance) (req : ArpReq) (p : QueuedPacket) (g : IpFrame)
    → sr.cache.requests ≡ req ∷ []
    → req.sent < now
    → 5 ≤ req.times_sent
    → req.packets ≡ p ∷ []
    → read_frame p.buf ≡ some g
    → 8 ≤ length g.payload
    → (w : Reached sr g.ip.ip_src)
    → sr_arpcache_sweepreqs (sr_send_icmp_unreachable_pkt (suc fuel) now) sr now
      ≡ some
          (record sr { cache = record sr.cache { requests = [] }; sent = notice sr g w ∷ sr.sent })
unfolding sr_handle_host_unreachable tell_senders find_at remove_at sr_arpreq_destroy
sweep-tells fuel now sr req p g q late often packets read v w =
    let u = sr_send_icmp_unreachable_pkt (suc fuel) now in
    let hit : find_at req.addr sr.cache.requests ≡ some req =
      ap (λ l. find_at req.addr l) q ∙ rw (==-refl req.addr) refl in
    let gone : remove_at req.addr sr.cache.requests ≡ [] =
      ap (λ l. remove_at req.addr l) q ∙ rw (==-refl req.addr) refl in
    let said = send_unreachable-sent fuel now sr host_unreachable g.ip g.payload v w in
    sweep-gives_up u sr req now q late often ∙ rw (packets, read, said, hit) (rw gone refl)

-- Sweeps at these times, one after the other.
unfoldable pub sweeps : ℕ → Instance → List ℕ → Option Instance
sweeps fuel sr [] = some sr
sweeps fuel sr (t ∷ ts) =
    sr_arpcache_sweepreqs (sr_send_icmp_unreachable_pkt fuel t) sr t >>= λ sr'. sweeps fuel sr' ts

sweeps_cons :
    (fuel : ℕ) (sr sr' : Instance) (t : ℕ) (ts : List ℕ)
    → sr_arpcache_sweepreqs (sr_send_icmp_unreachable_pkt fuel t) sr t ≡ some sr'
    → sweeps fuel sr (t ∷ ts) ≡ sweeps fuel sr' ts
unfolding sweeps
sweeps_cons fuel sr sr' t ts e = rw e refl

-- Four more sweeps send a request that went out once, and the fifth gives up.
sweeps-unanswered :
    (fuel : ℕ) (sr : Instance) (req : ArpReq) (p : QueuedPacket) (i : Iface) (g : IpFrame)
    (t1 t2 t3 t4 t5 : ℕ)
    → sr.cache.requests ≡ req ∷ []
    → req.times_sent ≡ 1
    → (req.sent < t1) × (t1 < t2) × (t2 < t3) × (t3 < t4) × (t4 < t5)
    → req.packets ≡ p ∷ []
    → sr_get_interface sr.if_list p.iface ≡ some i
    → Six i.addr
    → read_frame p.buf ≡ some g
    → 8 ≤ length g.payload
    → (w : Reached sr g.ip.ip_src)
    → let a : Sent = record { buf = request_frame i req.ip; iface = p.iface } in
      sweeps (suc fuel) sr (t1 ∷ t2 ∷ t3 ∷ t4 ∷ t5 ∷ [])
      ≡ some (record sr {
        cache = record sr.cache { requests = [] };
        sent = notice sr g w ∷ a ∷ a ∷ a ∷ a ∷ sr.sent;
      })
unfolding sweeps queue_reached
sweeps-unanswered fuel sr req p i g t1 t2 t3 t4 t5 q once late packets over own read v w =
    let u : ℕ → Instance → ℕ → IpHdr → List ℕ → Option Instance =
      λ t. sr_send_icmp_unreachable_pkt (suc fuel) t in
    let r1 = asked t1 req in
    let r2 = asked t2 r1 in
    let r3 = asked t3 r2 in
    let r4 = asked t4 r3 in
    let s1 = again sr req i p.iface t1 in
    let s2 = again s1 r1 i p.iface t2 in
    let s3 = again s2 r2 i p.iface t3 in
    let s4 = again s3 r3 i p.iface t4 in
    let w' : Reached s4 g.ip.ip_src =
      queue_reached sr g.ip.ip_src s4.cache.requests sr.next_addr s4.sent w in
    sweeps_cons (suc fuel) sr s1 t1 (t2 ∷ t3 ∷ t4 ∷ t5 ∷ [])
      (sweep-asks (u t1) sr req p [] i t1 q late.0 (omega (arith, once)) packets over own)
    ∙ sweeps_cons (suc fuel) s1 s2 t2 (t3 ∷ t4 ∷ t5 ∷ [])
        (sweep-asks (u t2) s1 r1 p [] i t2 refl late.1 (omega (arith, once)) packets over own)
    ∙ sweeps_cons (suc fuel) s2 s3 t3 (t4 ∷ t5 ∷ [])
        (sweep-asks (u t3) s2 r2 p [] i t3 refl late.2 (omega (arith, once)) packets over own)
    ∙ sweeps_cons (suc fuel) s3 s4 t4 (t5 ∷ [])
        (sweep-asks (u t4) s3 r3 p [] i t4 refl late.3 (omega (arith, once)) packets over own)
    ∙ sweeps_cons (suc fuel) s4
        (record s4 { cache = record s4.cache { requests = [] }; sent = notice s4 g w' ∷ s4.sent })
        t5 [] (sweep-tells fuel t5 s4 r4 p g refl late.4 (omega (arith, once)) packets read v w')

-- A packet comes for a gateway whose Ethernet address is not in the ARP cache, while no request is
-- queued, and the gateway never answers. Five sweeps at later times, each later than the last, end
-- the request: the queue is empty again, and what went out is one request with the packet and one
-- with each of the first four sweeps, and with the fifth a host unreachable message to the packet's
-- sender, which is reached over a gateway whose address is in the ARP cache. The packet has all the
-- bytes that its `ip_len` says, eight or more behind its header, addresses of six bytes and fields
-- that fit into their words. Fuel of one is enough.
pub unanswered-ends :
    (fuel : ℕ) (sr : Instance) (f : IpFrame) (rt : Route) (i : Iface) (t0 t1 t2 t3 t4 t5 : ℕ)
    → let g = cut_frame (set_source i f) in
      let a : Sent = record { buf = request_frame i rt.gw; iface = rt.iface } in
      sr.cache.requests ≡ []
      → sr_find_longest_prefix_match sr.routing_table (htonl f.ip.ip_dst) ≡ some rt
      → sr_get_interface sr.if_list rt.iface ≡ some i
      → sr_arpcache_lookup sr.cache rt.gw ≡ none
      → Six i.addr
      → Six f.eth.ether_dhost
      → f.eth.ether_type < 65536
      → Fits g.ip
      → IsWhole f
      → 28 ≤ f.ip.ip_len
      → (w : Reached sr g.ip.ip_src) → (t0 < t1) × (t1 < t2) × (t2 < t3) × (t3 < t4) × (t4 < t5)
      → (sr_frwd_ip_pkt (sr_send_icmp_unreachable_pkt (suc fuel) t0) sr f t0 >>= λ r.
          sweeps (suc fuel) r.0 (t1 ∷ t2 ∷ t3 ∷ t4 ∷ t5 ∷ []))
        ≡ some (record sr {
          next_addr = suc sr.next_addr;
          sent = notice sr g w ∷ a ∷ a ∷ a ∷ a ∷ a ∷ sr.sent;
        })
unfolding set_source queue_reached find_request
unanswered-ends fuel sr f rt i t0 t1 t2 t3 t4 t5 q r e n own d type fits v long w late =
    let g = cut_frame (set_source i f) in
    let a : Sent = record { buf = request_frame i rt.gw; iface = rt.iface } in
    let req = first_request sr rt.gw t0 (frame_bytes g) rt.iface in
    let start =
      frwd-unknown (sr_send_icmp_unreachable_pkt (suc fuel) t0) sr f t0 rt i r e n
        (ap (λ l. find_request rt.gw l) q) own d v in
    let s0 : Instance = record sr {
      cache = record sr.cache { requests = req ∷ sr.cache.requests };
      next_addr = suc sr.next_addr;
      sent = a ∷ sr.sent;
    } in
    let w' : Reached s0 g.ip.ip_src =
      queue_reached sr g.ip.ip_src s0.cache.requests s0.next_addr s0.sent w in
    ap (λ o. o >>= λ r'. sweeps (suc fuel) r'.0 (t1 ∷ t2 ∷ t3 ∷ t4 ∷ t5 ∷ [])) start
    ∙ sweeps-unanswered fuel s0 req (record { buf = frame_bytes g; iface = rt.iface }) i g t1 t2 t3
        t4 t5 (ap (λ l. req ∷ l) q) refl late refl e own (queued-read f i d own type fits)
        (omega
          (arith, v.there, long, length-take (f.ip.ip_len - 20) f.payload (omega (arith, v.there))))
        w'
    ∙ ap {B = Option Instance}
        (λ l. some (record sr {
          cache = record sr.cache { requests = l };
          next_addr = suc sr.next_addr;
          sent = notice sr g w ∷ a ∷ a ∷ a ∷ a ∷ a ∷ sr.sent;
        }))
        (sym q)
