-- ===== src/SrRouter/Transit.antt =====
-- A packet for another host, from the frame that comes to the frame that goes.
use stanford.Prelude.{
  ℕ, ◌+◌, ◌-◌, ◌%◌, ◌<◌, ◌≤◌, ◌≡◌, ◌≢◌, refl, true, false, Option, none, some, List, ◌∷◌, ◌++◌,
  ◌==◌, arith, length, take, ltb, ap, ◌∙◌, take-all, length-append,
}
use stanford.Wire.{htons}
use stanford.Wire.Order.{htons-lt, htons-htons}
use stanford.SrProtocol.{IpFrame, ethertype_ip}
use stanford.SrProtocol.Layout.{eth_bytes, ip_bytes, frame_bytes}
use stanford.SrProtocol.Layout.RoundTrip.{IsFrame, read_eth-bytes, length-ip_bytes}
use stanford.SrProtocol.Layout.Cut.{length-eth_bytes}
use stanford.SrNat.Sessions.{Headers}
use stanford.SrIf.{Instance, sr_is_router_ip}
use stanford.SrIp.Header.{sr_eth_hdr_ntoh, sr_eth_hdr_hton, sr_ip_hdr_ntoh, sr_ip_hdr_hton}
use stanford.SrIp.Header.RoundTrip.{sr_ip_hdr_hton-round_trip}
use stanford.SrIp.Forward.Known.{between, addressed, addressed-between, wire_frame, frwd-known}
use stanford.SrIcmp.{sr_send_icmp_unreachable_pkt}
use stanford.SrIcmp.Unanswered.{Reached}
use stanford.SrRouter.{
  less_ttl, sr_recv_ip_pkt_for_other, dispatch_ip, nat_and_dispatch, sr_recv_ip_pkt,
  sr_handlepacket,
}

-- A frame on the wire, in host order: an IP packet without options, as long as it says.
pub record IsIpFrame (f : IpFrame) : Type 0 where
  pub frame : IsFrame f
  pub ip : f.eth.ether_type ≡ ethertype_ip
  pub no_options : f.ip.ip_hl ≡ 5
  pub len : f.ip.ip_len ≡ 20 + length f.payload

-- What the router makes of the frame's bytes.
unfoldable pub received : IpFrame → IpFrame
received f = record f { ip = record f.ip { ip_sum = (sr_ip_hdr_hton f.ip).ip_sum } }

abbrev pub on_wire : IpFrame → List ℕ
on_wire f = frame_bytes (record f { eth = sr_eth_hdr_hton f.eth; ip = sr_ip_hdr_hton f.ip })

pub handlepacket-dispatch :
    (mem : Headers) (ip_ptr fuel now : ℕ) (sr : Instance) (f : IpFrame) (interface : List ℕ)
    → IsIpFrame f
    → sr.nat ≡ none
    → sr_handlepacket mem ip_ptr fuel now sr (on_wire f) interface
      ≡ dispatch_ip fuel now sr (received f) (length (on_wire f))
unfolding sr_handlepacket sr_recv_ip_pkt nat_and_dispatch received sr_eth_hdr_ntoh sr_eth_hdr_hton
handlepacket-dispatch mem ip_ptr fuel now sr f interface v n =
    let e = sr_eth_hdr_hton f.eth in
    let h = sr_ip_hdr_hton f.ip in
    let len : 34 ≤ length (on_wire f) = omega (
      arith,
      length-append (eth_bytes e) (ip_bytes h ++ f.payload),
      length-append (ip_bytes h) f.payload,
      length-eth_bytes e v.frame.dhost v.frame.shost,
      length-ip_bytes h,
    ) in
    let big : ltb (length (on_wire f)) 34 ≡ false = ground (arith, len) in
    let bigger : ltb (length (on_wire f)) 14 ≡ false = ground (arith, len) in
    let eth =
      read_eth-bytes e (ip_bytes h ++ f.payload) v.frame.dhost v.frame.shost
        (htons-lt f.eth.ether_type) in
    let (ip, sum, back) = sr_ip_hdr_hton-round_trip f.ip f.payload v.frame.header v.no_options in
    let type : (htons (htons f.eth.ether_type) == ethertype_ip) ≡ true =
      ap (λ t. t == ethertype_ip) (htons-htons f.eth.ether_type v.frame.type ∙ v.ip) in
    let same : htons (htons f.eth.ether_type) ≡ f.eth.ether_type =
      htons-htons f.eth.ether_type v.frame.type in
    let read : IpFrame = record {
      eth = sr_eth_hdr_ntoh e;
      ip = sr_ip_hdr_ntoh h;
      payload = f.payload;
    } in
    let given : read ≡ received f = rw (same, back) refl in
    rw (bigger, eth, type, big, ip, sum)
      (ap (λ o. nat_and_dispatch mem ip_ptr fuel now o sr read (length (on_wire f)) interface) n
        ∙ ap (λ g. dispatch_ip fuel now sr g (length (on_wire f))) given)

-- The bytes of an IP packet without options, as long as its `ip_len` says, are received while the NAT
-- is off. Its time to live is two to 255, its source address is not 0, its destination is not one of
-- the router's addresses, and the gateway of its route has its Ethernet address in the ARP cache. The
-- router sends one frame, and nothing else of it changes: the packet with a time to live less by one
-- and a checksum made anew, from the interface's Ethernet address to the gateway's, all else of it,
-- its source address too, as it came.
pub handlepacket-forwards :
    (mem : Headers) (ip_ptr fuel now : ℕ) (sr : Instance) (f : IpFrame) (interface : List ℕ)
    → IsIpFrame f
    → sr.nat ≡ none
    → f.ip.ip_src ≢ 0
    → sr_is_router_ip sr f.ip.ip_dst ≡ false
    → 2 ≤ f.ip.ip_ttl
    → f.ip.ip_ttl < 256
    → (w : Reached sr f.ip.ip_dst)
    → let out : IpFrame = record f {
      eth = record f.eth { ether_dhost = w.entry.mac; ether_shost = w.i.addr };
      ip = record f.ip { ip_ttl = f.ip.ip_ttl - 1 };
    } in
      sr_handlepacket mem ip_ptr fuel now sr (on_wire f) interface
      ≡ some (record sr { sent = record { buf = on_wire out; iface = w.rt.iface } ∷ sr.sent })
unfolding dispatch_ip sr_recv_ip_pkt_for_other received sr_ip_hdr_hton
handlepacket-forwards mem ip_ptr fuel now sr f interface v n src other ttl small w =
    let g = less_ttl (received f) in
    let ttl' : ((f.ip.ip_ttl + 255) % 256 == 0) ≡ false = ground (arith, ttl, small) in
    let way =
      frwd-known (sr_send_icmp_unreachable_pkt fuel now) sr g now w.rt w.i w.entry w.routed w.over
        w.known w.own w.mac v.frame.header.hl
        (record { header = omega (arith, v.len); there = omega (arith, v.len) }) in
    let all : take (f.ip.ip_len - 20) f.payload ≡ f.payload =
      take-all (f.ip.ip_len - 20) f.payload (omega (arith, v.len)) in
    let down : (f.ip.ip_ttl + 255) % 256 ≡ f.ip.ip_ttl - 1 = omega (arith, ttl, small) in
    let out : IpFrame =
      between w.entry.mac w.i.addr (record f { ip = record f.ip { ip_ttl = f.ip.ip_ttl - 1 } }) in
    let bytes : frame_bytes (wire_frame (addressed w.i w.entry g)) ≡ on_wire out =
      ap (λ x. frame_bytes (wire_frame x)) (addressed-between w.i w.entry g src w.own)
      ∙ rw (all, down) refl in
    handlepacket-dispatch mem ip_ptr fuel now sr f interface v n
    ∙ rw (other, ttl', way.0)
        (ap {B = Option Instance}
          (λ b. some (record sr { sent = record { buf = b; iface = w.rt.iface } ∷ sr.sent })) bytes)
