-- ===== src/SrRouter.antt =====
-- The router's entry: `sr_handlepacket` of cs144/router/sr_router.c, with the parts of
-- cs144/router/sr_ip.c that it hands packets to. `none` is a fault: a read behind the packet, a null
-- or freed pointer; or that the recursion of unreachable messages was deeper than the fuel.
pub mod Drop
pub mod Transit
pub mod Ping
use stanford.Prelude.{
  ℕ, suc, ◌+◌, ◌-◌, ◌%◌, Bool, true, false, ◌||◌, Option, none, some, List, [], ◌∷◌, ◌==◌, ltb,
  if◌then◌else◌, ◌>>=◌, length,
}
use stanford.SrProtocol.{
  IpHdr, EthHdr, IpFrame, ip_protocol_icmp, ip_protocol_tcp, ip_protocol_udp, ethertype_arp,
  ethertype_ip, arp_op_request,
}
use stanford.SrProtocol.Layout.{read_eth, read_ip, read_arp}
use stanford.SrNat.{Nat}
use stanford.SrNat.Sessions.{Headers}
use stanford.SrIf.{Instance, sr_is_router_ip}
use stanford.SrIp.Header.{sr_eth_hdr_ntoh, sr_ip_hdr_ntoh, sr_ip_checksum_matches}
use stanford.SrIp.Forward.{sr_frwd_ip_pkt}
use stanford.SrIcmp.{
  sr_send_icmp_unreachable_pkt, sr_send_icmp_time_exceeded_pkt, sr_recv_icmp_pkt_for_us,
  net_unreachable, port_unreachable,
}
use stanford.SrArp.{sr_arp_hdr_ntoh, sr_recv_arp_req, sr_recv_arp_reply}
use stanford.SrNatHandler.{
  NatResponse, nat_no_mapping, nat_mapped, nat_ignored, sr_rewrite_pkt_for_nat,
}

-- `ip_ttl--` on a `uint8_t`.
abbrev pub less_ttl : IpFrame → IpFrame
less_ttl f = record f { ip = record f.ip { ip_ttl = (f.ip.ip_ttl + 255) % 256 } }

unfoldable pub sr_recv_ip_pkt_for_other : ℕ → ℕ → Instance → IpFrame → Option Instance
sr_recv_ip_pkt_for_other fuel now sr f =
    let g = less_ttl f in
    if g.ip.ip_ttl == 0
    then sr_send_icmp_time_exceeded_pkt fuel now sr 0 g.ip g.payload
    else (sr_frwd_ip_pkt (sr_send_icmp_unreachable_pkt fuel now) sr g now >>= λ r.
        if r.1
        then some r.0
        else sr_send_icmp_unreachable_pkt fuel now r.0 net_unreachable g.ip g.payload)

unfoldable pub sr_recv_tcp_or_udp_pkt_for_us : ℕ → ℕ → Instance → IpFrame → Option Instance
sr_recv_tcp_or_udp_pkt_for_us fuel now sr f =
    sr_send_icmp_unreachable_pkt fuel now sr port_unreachable f.ip f.payload

-- `sr_recv_ip_pkt` after the NAT; `len` is the length that was received.
unfoldable pub dispatch_ip : ℕ → ℕ → Instance → IpFrame → ℕ → Option Instance
dispatch_ip fuel now sr f len =
    if sr_is_router_ip sr f.ip.ip_dst
    then (if f.ip.ip_p == ip_protocol_icmp
        then (if ltb len 38 then some sr else sr_recv_icmp_pkt_for_us fuel now sr f.ip f.payload)
        else (if f.ip.ip_p == ip_protocol_tcp || f.ip.ip_p == ip_protocol_udp
            then sr_recv_tcp_or_udp_pkt_for_us fuel now sr f
            else some sr))
    else sr_recv_ip_pkt_for_other fuel now sr f

abbrev pub is_dropped : NatResponse → Bool
is_dropped nat_no_mapping = true
is_dropped _ = false

-- `sr_recv_ip_pkt` from its test for a NAT on; `mem` is an argument of
-- `sr_nat_update_tcp_sent_state`, `ip_ptr` the address of the IP header.
unfoldable pub nat_and_dispatch :
    Headers → ℕ → ℕ → ℕ → Option Nat → Instance → IpFrame → ℕ → List ℕ → Option Instance
nat_and_dispatch mem ip_ptr fuel now none sr f len interface = dispatch_ip fuel now sr f len
nat_and_dispatch mem ip_ptr fuel now (some nat) sr f len interface =
    sr_rewrite_pkt_for_nat mem ip_ptr sr nat f interface now >>= λ r.
    if is_dropped r.2 then some r.0 else dispatch_ip fuel now r.0 r.1 len

unfoldable pub sr_recv_ip_pkt :
    Headers → ℕ → ℕ → ℕ → Instance → EthHdr → List ℕ → ℕ → List ℕ → Option Instance
sr_recv_ip_pkt mem ip_ptr fuel now sr e_hdr body len interface =
    if ltb len 34
    then some sr
    else (read_ip body >>= λ i. sr_ip_checksum_matches i.0 i.1 >>= λ good.
        if good
        then nat_and_dispatch mem ip_ptr fuel now sr.nat sr
            (record { eth = e_hdr; ip = sr_ip_hdr_ntoh i.0; payload = i.1 }) len interface
        else some sr)

unfoldable pub sr_recv_arp_pkt : ℕ → Instance → List ℕ → ℕ → List ℕ → Option Instance
sr_recv_arp_pkt now sr body len interface =
    if ltb len 42
    then some sr
    else (read_arp body >>= λ a.
        let arp_hdr = sr_arp_hdr_ntoh a in
        if arp_hdr.ar_op == arp_op_request
        then sr_recv_arp_req sr arp_hdr interface now
        else sr_recv_arp_reply sr arp_hdr now)

unfoldable pub sr_handlepacket : Headers → ℕ → ℕ → ℕ → Instance → List ℕ → List ℕ → Option Instance
sr_handlepacket mem ip_ptr fuel now sr packet interface =
    if ltb (length packet) 14
    then some sr
    else (read_eth packet >>= λ e.
        let e_hdr = sr_eth_hdr_ntoh e.0 in
        if e_hdr.ether_type == ethertype_ip
        then sr_recv_ip_pkt mem ip_ptr fuel now sr e_hdr e.1 (length packet) interface
        else (if e_hdr.ether_type == ethertype_arp
            then sr_recv_arp_pkt now sr e.1 (length packet) interface
            else some sr))
