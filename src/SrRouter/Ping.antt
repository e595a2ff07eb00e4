-- ===== src/SrRouter/Ping.antt =====
-- An echo request to one of the router's addresses.
use stanford.Prelude.{
  ℕ, suc, ◌-◌, ◌≤◌, ◌≡◌, ◌≢◌, refl, sym, true, false, Option, none, some, List, ◌∷◌, ◌++◌, ◌==◌,
  arith, length, take, ltb, ap, ◌∙◌, take-all, length-append, replicate, ==-refl,
}
use stanford.Wire.{le16, read16, cksum}
use stanford.SrProtocol.{IpHdr, EthHdr, IpFrame, ethertype_ip, ip_protocol_icmp}
use stanford.SrProtocol.Layout.{eth_bytes, ip_bytes, frame_bytes, read_bytes}
use stanford.SrProtocol.Layout.RoundTrip.{length-ip_bytes}
use stanford.SrProtocol.Layout.Cut.{length-eth_bytes, read_bytes-part}
use stanford.SrNat.Sessions.{Headers}
use stanford.SrIf.{Instance, sr_is_router_ip}
use stanford.SrIp.Header.{sr_eth_hdr_hton, sr_ip_hdr_hton}
use stanford.SrIp.Forward.Known.{between, addressed, addressed-between, wire_frame, frwd-known}
use stanford.SrIcmp.{
  icmp_len, sr_icmp_checksum_matches, reply_message, first_byte, sr_send_icmp_echo_reply_pkt,
  sr_recv_icmp_pkt_for_us, sr_send_icmp_unreachable_pkt,
}
use stanford.SrIcmp.Unanswered.{Reached}
use stanford.SrRouter.{dispatch_ip, sr_handlepacket}
use stanford.SrRouter.Transit.{IsIpFrame, received, on_wire, handlepacket-dispatch}

-- The frame of an echo request: its code, its checksum, and what follows these.
abbrev pub request_of : EthHdr → IpHdr → ℕ → ℕ → ℕ → List ℕ → IpFrame
request_of e h code s0 s1 rest = record { eth = e; ip = h; payload = 8 ∷ code ∷ s0 ∷ s1 ∷ rest }

-- The frame of the reply: the addresses are swapped, the type is 0, and the checksum is made anew.
abbrev pub reply_of : IpHdr → ℕ → List ℕ → IpFrame
reply_of h code rest = record {
  eth = record {
    ether_dhost = replicate 6 0;
    ether_shost = replicate 6 0;
    ether_type = ethertype_ip;
  };
  ip = record h { ip_src = h.ip_dst; ip_dst = h.ip_src };
  payload = 0 ∷ code ∷ (le16 (cksum (0 ∷ code ∷ 0 ∷ 0 ∷ rest)) ++ rest);
}

read_bytes-all : (n : ℕ) (xs : List ℕ) → length xs ≡ n → read_bytes n xs ≡ some xs
read_bytes-all n xs e =
    read_bytes-part n xs (omega (arith, e)) ∙ ap some (take-all n xs (omega (arith, e)))

module _ (e : EthHdr) (h : IpHdr) (code s0 s1 : ℕ) (rest : List ℕ)
    (v : IsIpFrame (request_of e h code s0 s1 rest))
    (sum : read16 s0 s1 ≡ cksum (8 ∷ code ∷ 0 ∷ 0 ∷ rest)) where
  length-message : icmp_len h ≡ suc (suc (suc (suc (length rest))))
  length-message = omega (arith, v.len, v.frame.header.len)

  sum-matches :
      (n : ℕ)
      → sr_icmp_checksum_matches (record h { ip_sum = n }) (8 ∷ code ∷ s0 ∷ s1 ∷ rest) ≡ some true
  unfolding sr_icmp_checksum_matches
  sum-matches n =
      let read = read_bytes-all (icmp_len h) (8 ∷ code ∷ 0 ∷ 0 ∷ rest) (sym length-message) in
      let some_left : (icmp_len h == 0) ≡ false = ground (arith, length-message) in
      rw (some_left, read, sum) (ap some (==-refl (cksum (8 ∷ code ∷ 0 ∷ 0 ∷ rest))))

  request-replied :
      (fuel now n : ℕ) (sr : Instance)
      → h.ip_dst ≢ 0
      → (w : Reached sr h.ip_src)
      → sr_send_icmp_echo_reply_pkt fuel now sr
          (record h { ip_sum = n })
          (8 ∷ code ∷ s0 ∷ s1 ∷ rest)
        ≡ some (record sr {
          sent =
              record {
                buf = on_wire (between w.entry.mac w.i.addr (reply_of h code rest));
                iface = w.rt.iface;
              }
              ∷ sr.sent;
        })
  unfolding sr_send_icmp_echo_reply_pkt reply_message sr_ip_hdr_hton le16
  request-replied fuel now n sr src w =
      let read = read_bytes-all (icmp_len h) (8 ∷ code ∷ s0 ∷ s1 ∷ rest) (sym length-message) in
      let g = reply_of (record h { ip_sum = n }) code rest in
      let way =
        frwd-known (sr_send_icmp_unreachable_pkt fuel now) sr g now w.rt w.i w.entry w.routed w.over
          w.known w.own w.mac v.frame.header.hl
          (record { header = omega (arith, v.len); there = omega (arith, v.len) }) in
      let all : take (h.ip_len - 20) g.payload ≡ g.payload =
        take-all (h.ip_len - 20) g.payload (omega (arith, v.len)) in
      let bytes : frame_bytes (wire_frame (addressed w.i w.entry g))
          ≡ on_wire (between w.entry.mac w.i.addr (reply_of h code rest)) =
        ap (λ x. frame_bytes (wire_frame x)) (addressed-between w.i w.entry g src w.own)
        ∙ rw all refl in
      rw (read, way.0)
        (ap {B = Option Instance}
          (λ b. some (record sr { sent = record { buf = b; iface = w.rt.iface } ∷ sr.sent })) bytes)

  length-on_wire : 38 ≤ length (on_wire (request_of e h code s0 s1 rest))
  unfolding sr_eth_hdr_hton
  length-on_wire =
      let eb = eth_bytes (sr_eth_hdr_hton e) in
      let ib = ip_bytes (sr_ip_hdr_hton h) in
      let msg = 8 ∷ code ∷ s0 ∷ s1 ∷ rest in
      omega (
        arith,
        length-append eb (ib ++ msg),
        length-append ib msg,
        length-eth_bytes (sr_eth_hdr_hton e) v.frame.dhost v.frame.shost,
        length-ip_bytes (sr_ip_hdr_hton h),
      )

  -- The bytes of an echo request with a right checksum are received for one of the router's
  -- addresses, in an IP packet without options that is as long as its `ip_len` says, while the NAT is
  -- off, and the route to its sender has a gateway whose Ethernet address is in the ARP cache. The
  -- address that was asked is not 0. The router sends one frame and nothing else of it changes: the
  -- echo reply, with the code and the data of the request, from the address that was asked to the
  -- sender, and from the interface's Ethernet address to the gateway's, both checksums made anew.
  pub handlepacket-pings :
      (mem : Headers) (ip_ptr fuel now : ℕ) (sr : Instance) (interface : List ℕ)
      → sr.nat ≡ none
      → h.ip_dst ≢ 0
      → sr_is_router_ip sr h.ip_dst ≡ true
      → h.ip_p ≡ ip_protocol_icmp
      → (w : Reached sr h.ip_src)
      → sr_handlepacket mem ip_ptr fuel now sr (on_wire (request_of e h code s0 s1 rest)) interface
        ≡ some (record sr {
          sent =
              record {
                buf = on_wire (between w.entry.mac w.i.addr (reply_of h code rest));
                iface = w.rt.iface;
              }
              ∷ sr.sent;
        })
  unfolding dispatch_ip sr_recv_icmp_pkt_for_us first_byte received
  handlepacket-pings mem ip_ptr fuel now sr interface n src ours icmp w =
      let f = request_of e h code s0 s1 rest in
      let sum' = (sr_ip_hdr_hton h).ip_sum in
      let kind : (h.ip_p == ip_protocol_icmp) ≡ true = ground (arith, icmp) in
      let long : ltb (length (on_wire f)) 38 ≡ false = ground (arith, length-on_wire) in
      let good = sum-matches sum' in
      let told = request-replied fuel now sum' sr src w in
      handlepacket-dispatch mem ip_ptr fuel now sr f interface v n
      ∙ rw (ours, kind, long, good) told
