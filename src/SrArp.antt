-- ===== src/SrArp.antt =====
-- ARP: cs144/router/sr_arp.c, and the sweep of the requests of cs144/router/sr_arpcache.c. Requests
-- are named by their addresses, as the code's pointers do; one that is not in the queue was freed.
pub mod Retry
pub mod Reply
pub mod Answered
use stanford.Prelude.{
  ℕ, zero, suc, ◌+◌, Bool, true, false, ◌||◌, Option, none, some, List, [], ◌∷◌, ◌++◌, ◌==◌, leb,
  if◌then◌else◌, ◌>>=◌, length, take, replicate,
}
use stanford.Wire.{htons, htonl}
use stanford.SrProtocol.{
  IpHdr, EthHdr, ArpHdr, IpFrame, ethertype_arp, ethertype_ip, arp_op_request, arp_op_reply,
}
use stanford.SrProtocol.Layout.{eth_bytes, arp_bytes, read_frame}
use stanford.SrArpcache.{
  ArpCache, ArpReq, QueuedPacket, sr_arpcache_insert, sr_arpreq_destroy, expire_entries,
}
use stanford.SrIf.{Instance, sr_get_interface, sr_send_packet}
use stanford.SrIp.Header.{sr_init_eth_hdr, sr_eth_hdr_hton, sr_send_ip_pkt}

abbrev pub broadcast : List ℕ
broadcast = replicate 6 255

abbrev pub host_unreachable : ℕ
host_unreachable = 1

unfoldable pub sr_init_arp_hdr : List ℕ → ℕ → List ℕ → ℕ → ℕ → ArpHdr
sr_init_arp_hdr sha sip tha tip arp_op = record {
  ar_hrd = 1;
  ar_pro = ethertype_ip;
  ar_hln = 6;
  ar_pln = 4;
  ar_op = arp_op;
  ar_sha = take 6 sha;
  ar_sip = sip;
  ar_tha = take 6 tha;
  ar_tip = tip;
}

unfoldable pub sr_arp_hdr_ntoh : ArpHdr → ArpHdr
sr_arp_hdr_ntoh hdr = record hdr {
  ar_hrd = htons hdr.ar_hrd;
  ar_pro = htons hdr.ar_pro;
  ar_op = htons hdr.ar_op;
  ar_sip = htonl hdr.ar_sip;
  ar_tip = htonl hdr.ar_tip;
}

unfoldable pub sr_arp_hdr_hton : ArpHdr → ArpHdr
sr_arp_hdr_hton hdr = record hdr {
  ar_hrd = htons hdr.ar_hrd;
  ar_pro = htons hdr.ar_pro;
  ar_op = htons hdr.ar_op;
  ar_sip = htonl hdr.ar_sip;
  ar_tip = htonl hdr.ar_tip;
}

-- The frame that both senders of ARP build.
abbrev pub arp_frame : List ℕ → ArpHdr → List ℕ
arp_frame shost hdr =
    eth_bytes (sr_eth_hdr_hton (sr_init_eth_hdr broadcast shost ethertype_arp))
    ++ arp_bytes (sr_arp_hdr_hton hdr)

-- `req->packets` is given too: its first packet names the interface.
unfoldable pub ask_over : Instance → ArpReq → List QueuedPacket → Option Instance
ask_over sr req [] = some sr
ask_over sr req (p ∷ _) = sr_get_interface sr.if_list p.iface >>= λ i. some (
    sr_send_packet sr
      (arp_frame i.addr
        (sr_init_arp_hdr i.addr (htonl i.ip) (replicate 6 0) (htonl req.ip) arp_op_request))
      p.iface)

unfoldable pub sr_send_arpreq : Instance → ArpReq → Option Instance
sr_send_arpreq sr req = ask_over sr req req.packets

unfoldable pub find_at : ℕ → List ArpReq → Option ArpReq
find_at addr [] = none
find_at addr (r ∷ rs) = if r.addr == addr then some r else find_at addr rs

-- `req->sent = now; req->times_sent++`.
unfoldable pub note_sent : ℕ → ℕ → List ArpReq → List ArpReq
note_sent addr now [] = []
note_sent addr now (r ∷ rs) =
    if r.addr == addr
    then record r { sent = now; times_sent = r.times_sent + 1 } ∷ rs
    else r ∷ note_sent addr now rs

abbrev pub with_requests : Instance → List ArpReq → Instance
with_requests sr reqs = record sr { cache = record sr.cache { requests = reqs } }

-- `unreachable` is `sr_send_icmp_unreachable_pkt` on the header and memory of a packet.
module _ (unreachable : Instance → ℕ → IpHdr → List ℕ → Option Instance) where
  -- The loop of `sr_handle_host_unreachable`. It reads `pkt->next` after each call, which is freed
  -- memory if the call destroyed the request.
  unfoldable pub tell_senders : ℕ → List QueuedPacket → Instance → Option Instance
  tell_senders addr [] sr = some sr
  tell_senders addr (p ∷ ps) sr = read_frame p.buf >>= λ f.
      unreachable sr host_unreachable f.ip f.payload >>= λ sr'.
      find_at addr sr'.cache.requests >>= λ _. tell_senders addr ps sr'

  unfoldable pub sr_handle_host_unreachable : Instance → ArpReq → Option Instance
  sr_handle_host_unreachable sr req = tell_senders req.addr req.packets sr >>= λ sr'.
      some (record sr' { cache = sr_arpreq_destroy sr'.cache (some req.addr) })

  unfoldable pub sr_handle_cached_arp_req : Instance → ℕ → ℕ → Option Instance
  sr_handle_cached_arp_req sr addr now = find_at addr sr.cache.requests >>= λ req.
      if req.sent == 0 || leb (req.sent + 1) now
      then (if leb 5 req.times_sent
          then sr_handle_host_unreachable sr req
          else (sr_send_arpreq sr req >>= λ sr'.
              some (with_requests sr' (note_sent addr now sr'.cache.requests))))
      else some sr

  -- `req->next` of the request at the address; the outer `none` is a read of freed memory.
  unfoldable pub next_of : ℕ → List ArpReq → Option (Option ℕ)
  next_of addr [] = none
  next_of addr (r ∷ []) = if r.addr == addr then some none else none
  next_of addr (r ∷ r' ∷ rs) =
      if r.addr == addr then some (some r'.addr) else next_of addr (r' ∷ rs)

  -- The loop of `sr_arpcache_sweepreqs`, with fuel.
  unfoldable pub sweep_from : ℕ → Instance → Option ℕ → ℕ → Option Instance
  sweep_from fuel sr none now = some sr
  sweep_from zero sr (some addr) now = none
  sweep_from (suc fuel) sr (some addr) now = next_of addr sr.cache.requests >>= λ next.
      sr_handle_cached_arp_req sr addr now >>= λ sr'. sweep_from fuel sr' next now

  -- The whole loop, over the queue as it is at its start.
  unfoldable pub sweep_all : List ArpReq → Instance → ℕ → Option Instance
  sweep_all [] sr now = some sr
  sweep_all (r ∷ rs) sr now = sweep_from (length (r ∷ rs)) sr (some r.addr) now

  unfoldable pub sr_arpcache_sweepreqs : Instance → ℕ → Option Instance
  sr_arpcache_sweepreqs sr now = sweep_all sr.cache.requests sr now

  -- One round of the `while (1)` of `sr_arpcache_timeout`, between its lock and its unlock.
  unfoldable pub sr_arpcache_timeout_round : Instance → ℕ → Option Instance
  sr_arpcache_timeout_round sr now =
      sr_arpcache_sweepreqs
        (record sr { cache = record sr.cache { entries = expire_entries now sr.cache.entries } })
        now

unfoldable pub sr_recv_arp_req : Instance → ArpHdr → List ℕ → ℕ → Option Instance
sr_recv_arp_req sr arp_hdr interface now = sr_get_interface sr.if_list interface >>= λ i.
    let cache' = (sr_arpcache_insert sr.cache arp_hdr.ar_sha (htonl arp_hdr.ar_sip) now).0 in
    some (
      sr_send_packet (record sr { cache = cache' })
        (arp_frame i.addr
          (sr_init_arp_hdr i.addr (htonl i.ip) arp_hdr.ar_sha arp_hdr.ar_sip arp_op_reply))
        interface)

-- The loop of `sr_recv_arp_reply` over the packets that waited.
unfoldable pub send_queued : List ℕ → List QueuedPacket → Instance → Option Instance
send_queued mac [] sr = some sr
send_queued mac (p ∷ ps) sr = read_frame p.buf >>= λ f.
    sr_send_ip_pkt sr (record f { eth = record f.eth { ether_dhost = mac } }) p.iface >>= λ sr'.
    send_queued mac ps sr'

unfoldable pub sr_recv_arp_reply : Instance → ArpHdr → ℕ → Option Instance
sr_recv_arp_reply sr arp_hdr now =
    let (cache', req) = sr_arpcache_insert sr.cache arp_hdr.ar_sha (htonl arp_hdr.ar_sip) now in
    elim req [
      | none ↦ some (record sr { cache = cache' })
      | some r ↦ send_queued arp_hdr.ar_sha r.packets (record sr { cache = cache' }) >>= λ sr'.
          some (record sr' { cache = sr_arpreq_destroy sr'.cache (some r.addr) })
    ]
