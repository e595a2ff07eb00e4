-- ===== src/SrIp/Forward/Known.antt =====
-- Forwarding to a gateway whose Ethernet address is in the ARP cache.
use stanford.Prelude.{
  ℕ, ◌-◌, ◌<◌, ◌≤◌, ◌≡◌, ◌≢◌, ◌==◌, if◌then◌else◌, refl, sym, true, false, Option, none, some, List,
  [], ◌∷◌, ◌++◌, arith, length, take, drop, ap, ◌∙◌, subst, length-append, ltb, ==-refl, ◌>>=◌,
}
use stanford.Wire.{htonl, htons, le16}
use stanford.Wire.Order.{htons-lt}
use stanford.SrProtocol.{IpHdr, IpFrame}
use stanford.SrProtocol.Layout.{
  ip_bytes, eth_bytes, frame_bytes, read_frame, read_bytes, same_bytes,
}
use stanford.SrProtocol.Layout.RoundTrip.{Six, IsFrame, read_frame-bytes}
use stanford.SrProtocol.Layout.Cut.{
  IsWhole, take-Six, length-eth_bytes, source_bytes, read_bytes-frame,
}
use stanford.SrArpcache.{ArpEntry, sr_arpcache_lookup}
use stanford.SrIf.{
  Instance, Iface, sr_get_interface, sr_send_packet, sr_ether_addrs_match_interface,
}
use stanford.SrIp.{Route, sr_find_longest_prefix_match}
use stanford.SrIp.Header.{sr_eth_hdr_hton, sr_ip_hdr_hton, get_eth_ip_pkt_len, sr_send_ip_pkt}
use stanford.SrIp.Header.RoundTrip.{hton-Fits}
use stanford.SrIp.Forward.{set_source, send_or_queue, frwd_by, sr_frwd_ip_pkt}

same_bytes_refl : (xs : List ℕ) → same_bytes xs xs ≡ true
same_bytes_refl [] = refl
same_bytes_refl (x ∷ xs) = rw (==-refl x) (same_bytes_refl xs)

-- What goes out for a frame in host order: its first `ip_len` bytes behind the Ethernet header, in
-- network order.
abbrev pub wire_frame : IpFrame → IpFrame
wire_frame f = record {
  eth = sr_eth_hdr_hton f.eth;
  ip = sr_ip_hdr_hton f.ip;
  payload = take (f.ip.ip_len - 20) f.payload;
}

read-wire_frame :
    (f : IpFrame)
    → Six f.eth.ether_dhost
    → Six f.eth.ether_shost
    → IsWhole f
    → read_bytes
        (get_eth_ip_pkt_len f)
        (frame_bytes (record f { eth = sr_eth_hdr_hton f.eth; ip = sr_ip_hdr_hton f.ip }))
      ≡ some (frame_bytes (wire_frame f))
unfolding get_eth_ip_pkt_len sr_eth_hdr_hton
read-wire_frame f d s v =
    read_bytes-frame (sr_eth_hdr_hton f.eth) (sr_ip_hdr_hton f.ip) f.payload f.ip.ip_len d s
      v.header v.there

pub match_interface-same :
    (sr : Instance) (buf iface : List ℕ) (i : Iface)
    → sr_get_interface sr.if_list iface ≡ some i
    → take 6 (drop 6 buf) ≡ i.addr
    → sr_ether_addrs_match_interface sr buf iface ≡ true
unfolding sr_ether_addrs_match_interface
match_interface-same sr buf iface i e m =
    subst {A = Option Iface}
      (λ o. elim o [ none ↦ false | some j ↦ same_bytes (take 6 (drop 6 buf)) j.addr ] ≡ true)
      (sym e) (ap (λ l. same_bytes l i.addr) m ∙ same_bytes_refl i.addr)

pub send_packet-sent :
    (sr : Instance) (buf iface : List ℕ) (i : Iface)
    → ltb (length buf) 14 ≡ false
    → sr_get_interface sr.if_list iface ≡ some i
    → take 6 (drop 6 buf) ≡ i.addr
    → sr_send_packet sr buf iface
      ≡ record sr { sent = record { buf = buf; iface = iface } ∷ sr.sent }
unfolding sr_send_packet
send_packet-sent sr buf iface i n e m = rw (n, match_interface-same sr buf iface i e m) refl

-- A frame with the interface's own address goes out whole.
pub send_ip_pkt-sent :
    (sr : Instance) (f : IpFrame) (iface : List ℕ) (i : Iface)
    → Six f.eth.ether_dhost
    → Six f.eth.ether_shost
    → IsWhole f
    → sr_get_interface sr.if_list iface ≡ some i
    → f.eth.ether_shost ≡ i.addr
    → sr_send_ip_pkt sr f iface
      ≡ some (record sr {
        sent = record { buf = frame_bytes (wire_frame f); iface = iface } ∷ sr.sent;
      })
unfolding sr_send_ip_pkt sr_eth_hdr_hton
send_ip_pkt-sent sr f iface i d s v e a =
    let buf = frame_bytes (wire_frame f) in
    let eb = eth_bytes (sr_eth_hdr_hton f.eth) in
    let ib = ip_bytes (sr_ip_hdr_hton f.ip) in
    let part = take (f.ip.ip_len - 20) f.payload in
    let whole : 14 ≤ length buf =
      omega (arith, length-append eb (ib ++ part), length-eth_bytes (sr_eth_hdr_hton f.eth) d s) in
    rw (read-wire_frame f d s v) (
      ap some (
        send_packet-sent sr buf iface i (ground (arith, whole)) e (
          source_bytes f.eth.ether_dhost f.eth.ether_shost (le16 (htons f.eth.ether_type))
            (ib ++ part) d s
          ∙ a)))

-- The frame that `sr_frwd_ip_pkt` sends when it knows the gateway's address.
abbrev pub addressed : Iface → ArpEntry → IpFrame → IpFrame
addressed i entry f =
    let g = set_source i f in record g { eth = record g.eth { ether_dhost = entry.mac } }

-- A frame with other Ethernet addresses, the destination first.
abbrev pub between : List ℕ → List ℕ → IpFrame → IpFrame
between dhost shost f = record f { eth = record f.eth { ether_dhost = dhost; ether_shost = shost } }

-- A frame with the interface's own address, and its IP address for the source if there is none.
abbrev pub filled_for : List ℕ → Iface → IpFrame → IpFrame
filled_for dhost i f = record f {
  eth = record f.eth { ether_dhost = dhost; ether_shost = i.addr };
  ip = record f.ip { ip_src = if f.ip.ip_src == 0 then htonl i.ip else f.ip.ip_src };
}

pub addressed-filled_for :
    (i : Iface) (entry : ArpEntry) (f : IpFrame)
    → Six i.addr
    → addressed i entry f ≡ filled_for entry.mac i f
unfolding set_source
addressed-filled_for i entry f own = rw (take-Six i.addr own) refl

-- A packet that has a source address keeps it.
pub addressed-between :
    (i : Iface) (entry : ArpEntry) (f : IpFrame)
    → f.ip.ip_src ≢ 0
    → Six i.addr
    → addressed i entry f ≡ between entry.mac i.addr f
unfolding set_source
addressed-between i entry f src own =
    let there : (f.ip.ip_src == 0) ≡ false = ground (arith, src) in
    rw (there, take-Six i.addr own) refl

frwd_found :
    (unreachable : Instance → ℕ → IpHdr → List ℕ → Option Instance) (sr : Instance) (f : IpFrame)
    (now : ℕ) (rt : Route) (i : Iface) (entry : ArpEntry)
    → sr_find_longest_prefix_match sr.routing_table (htonl f.ip.ip_dst) ≡ some rt
    → sr_get_interface sr.if_list rt.iface ≡ some i
    → sr_arpcache_lookup sr.cache rt.gw ≡ some entry
    → sr_frwd_ip_pkt unreachable sr f now
      ≡ (sr_send_ip_pkt sr (addressed i entry f) rt.iface >>= λ sr'. some (sr', true))
unfolding sr_frwd_ip_pkt frwd_by send_or_queue
frwd_found unreachable sr f now rt i entry r e a = rw r (rw e (rw a refl))

-- A packet for which the routing table has a route over one of the router's interfaces, to a gateway
-- whose Ethernet address is in the ARP cache, is sent over that interface, as one frame and at once,
-- whatever the handling of unreachable hosts is: the frame reads as the packet with the Ethernet
-- addresses of the gateway and of the interface, with the interface's address for its source address
-- if it had none, in network order, and cut to its `ip_len`. The addresses have six bytes, the fields
-- of the header fit into their words, and `ip_len` is no more than the packet that is there.
pub frwd-known :
    (unreachable : Instance → ℕ → IpHdr → List ℕ → Option Instance) (sr : Instance) (f : IpFrame)
    (now : ℕ) (rt : Route) (i : Iface) (entry : ArpEntry)
    → sr_find_longest_prefix_match sr.routing_table (htonl f.ip.ip_dst) ≡ some rt
    → sr_get_interface sr.if_list rt.iface ≡ some i
    → sr_arpcache_lookup sr.cache rt.gw ≡ some entry
    → Six i.addr
    → Six entry.mac
    → f.ip.ip_hl < 16
    → IsWhole f
    → let buf = frame_bytes (wire_frame (addressed i entry f)) in
      (sr_frwd_ip_pkt unreachable sr f now
        ≡ some (record sr { sent = record { buf = buf; iface = rt.iface } ∷ sr.sent }, true))
      × (read_frame buf ≡ some (wire_frame (addressed i entry f)))
unfolding set_source sr_eth_hdr_hton
frwd-known unreachable sr f now rt i entry r e a s m hl v =
    let g = addressed i entry f in
    let own = take-Six i.addr s in
    let src : Six (take 6 i.addr) = subst {A = List ℕ} Six (sym own) s in
    let whole : IsWhole g = record { header = v.header; there = v.there } in
    let read : IsFrame (wire_frame g) = record {
      dhost = m;
      shost = src;
      type = htons-lt f.eth.ether_type;
      header = hton-Fits g.ip hl;
    } in
    (
      frwd_found unreachable sr f now rt i entry r e a
          ∙ ap (λ o. o >>= λ sr'. some (sr', true))
              (send_ip_pkt-sent sr g rt.iface i m src whole e own),
      read_frame-bytes (wire_frame g) read,
    )
