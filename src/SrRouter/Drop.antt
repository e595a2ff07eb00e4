-- ===== src/SrRouter/Drop.antt =====
-- Frames that the router drops.
use stanford.Prelude.{
  ℕ, ◌*◌, ◌<◌, ◌≤◌, ◌≡◌, ◌≢◌, refl, ◌∙◌, inl, inr, true, false, some, List, ◌∷◌, ◌++◌, ◌==◌, arith,
  length, length-append, ltb, ap, Bool-cases,
}
use stanford.Wire.{htons, cksum}
use stanford.Wire.Order.{htons-lt, htons-htons}
use stanford.SrProtocol.{IpHdr, EthHdr, IpFrame, ethertype_ip}
use stanford.SrProtocol.Layout.{eth_bytes, ip_bytes, frame_bytes, read_eth}
use stanford.SrProtocol.Layout.RoundTrip.{
  Fits, read_eth-bytes, read_ip-bytes, length-ip_bytes, read_bytes-append,
}
use stanford.SrProtocol.Layout.Cut.{length-eth_bytes}
use stanford.SrNat.Sessions.{Headers}
use stanford.SrIf.{Instance}
use stanford.SrIp.Header.{
  sr_eth_hdr_ntoh, sr_eth_hdr_hton, sr_ip_hdr_hton, ip_hdr_net, sr_ip_checksum_matches,
}
use stanford.SrIp.Header.RoundTrip.{hton-Fits, checksum_matches_word}
use stanford.SrRouter.{sr_recv_ip_pkt, sr_recv_arp_pkt, sr_handlepacket}
use stanford.SrRouter.Transit.{IsIpFrame}

read_eth-long : (xs : List ℕ) → 14 ≤ length xs → (e : EthHdr × List ℕ) × (read_eth xs ≡ some e)
unfolding read_eth
read_eth-long (a0 ∷ a1 ∷ a2 ∷ a3 ∷ a4 ∷ a5 ∷ b0 ∷ b1 ∷ b2 ∷ b3 ∷ b4 ∷ b5 ∷ t0 ∷ t1 ∷ rest) h =
    (_, refl)
read_eth-long _ h = absurd (omega arith)

short_dropped :
    (mem : Headers) (ip_ptr fuel now : ℕ) (sr : Instance) (packet interface : List ℕ)
    → length packet < 34
    → sr_handlepacket mem ip_ptr fuel now sr packet interface ≡ some sr
unfolding sr_handlepacket sr_recv_ip_pkt sr_recv_arp_pkt
short_dropped mem ip_ptr fuel now sr packet interface h =
    elim (Bool-cases (ltb (length packet) 14)) [
      | inl t ↦ ground (arith, t)
      | inr t ↦ let (e, r) = read_eth-long packet (ground (arith, t)) in ground (arith, t, r, h)
    ]

-- The bytes of an IP packet with another number in the field of its checksum.
abbrev pub with_sum : IpFrame → ℕ → List ℕ
with_sum f sum =
    frame_bytes
      (record f { eth = sr_eth_hdr_hton f.eth; ip = record (sr_ip_hdr_hton f.ip) { ip_sum = sum } })

wrong_sum :
    (h : IpHdr) (sum : ℕ) (rest : List ℕ)
    → h.ip_hl ≡ 5
    → sum ≢ (sr_ip_hdr_hton h).ip_sum
    → sr_ip_checksum_matches (record (sr_ip_hdr_hton h) { ip_sum = sum }) rest ≡ some false
unfolding sr_ip_hdr_hton
wrong_sum h sum rest e ne =
    let bytes = ip_bytes (ip_hdr_net h) in
    let other : (sum == cksum bytes) ≡ false = ground (arith, ne) in
    checksum_matches_word (record (sr_ip_hdr_hton h) { ip_sum = sum }) rest bytes
      (ground (arith, e))
      (read_bytes-append (h.ip_hl * 4) bytes rest
        (omega (arith, e, length-ip_bytes (ip_hdr_net h))))
    ∙ ap some other

corrupt_dropped :
    (mem : Headers) (ip_ptr fuel now : ℕ) (sr : Instance) (f : IpFrame) (sum : ℕ)
    (interface : List ℕ)
    → IsIpFrame f
    → sum < 65536
    → sum ≢ (sr_ip_hdr_hton f.ip).ip_sum
    → sr_handlepacket mem ip_ptr fuel now sr (with_sum f sum) interface ≡ some sr
unfolding sr_handlepacket sr_recv_ip_pkt sr_eth_hdr_ntoh sr_eth_hdr_hton
corrupt_dropped mem ip_ptr fuel now sr f sum interface v lt ne =
    let e = sr_eth_hdr_hton f.eth in
    let h : IpHdr = record (sr_ip_hdr_hton f.ip) { ip_sum = sum } in
    let packet = with_sum f sum in
    let len : 34 ≤ length packet = omega (
      arith,
      length-append (eth_bytes e) (ip_bytes h ++ f.payload),
      length-append (ip_bytes h) f.payload,
      length-eth_bytes e v.frame.dhost v.frame.shost,
      length-ip_bytes h,
    ) in
    let big : ltb (length packet) 34 ≡ false = ground (arith, len) in
    let bigger : ltb (length packet) 14 ≡ false = ground (arith, len) in
    let eth =
      read_eth-bytes e (ip_bytes h ++ f.payload) v.frame.dhost v.frame.shost
        (htons-lt f.eth.ether_type) in
    let made = hton-Fits f.ip v.frame.header.hl in
    let fits : Fits h = record {
      hl = made.hl;
      len = made.len;
      id = made.id;
      off = made.off;
      sum = lt;
      src = made.src;
      dst = made.dst;
    } in
    let type : (htons (htons f.eth.ether_type) == ethertype_ip) ≡ true =
      ap (λ t. t == ethertype_ip) (htons-htons f.eth.ether_type v.frame.type ∙ v.ip) in
    let wrong = wrong_sum f.ip sum f.payload v.no_options ne in
    rw (bigger, eth, type, big, read_ip-bytes h f.payload fits, wrong) refl

-- Two kinds of frames are dropped whatever the state of the router is, the NAT on or off: nothing is
-- sent, and the NAT, the ARP cache and its queue stay as they are. One is any frame of less than 34
-- bytes, whatever its bytes are. The other is an IP packet without options, as long as its `ip_len`
-- says, with any other number in the field of its checksum than the one that `sr_ip_hdr_hton` puts
-- there.
pub handlepacket-drops :
    (mem : Headers) (ip_ptr fuel now : ℕ) (sr : Instance) (packet : List ℕ) (f : IpFrame) (sum : ℕ)
    (interface : List ℕ)
    → length packet < 34
    → IsIpFrame f
    → sum < 65536
    → sum ≢ (sr_ip_hdr_hton f.ip).ip_sum
    → (sr_handlepacket mem ip_ptr fuel now sr packet interface ≡ some sr)
      × (sr_handlepacket mem ip_ptr fuel now sr (with_sum f sum) interface ≡ some sr)
handlepacket-drops mem ip_ptr fuel now sr packet f sum interface short v lt ne = (
  short_dropped mem ip_ptr fuel now sr packet interface short,
  corrupt_dropped mem ip_ptr fuel now sr f sum interface v lt ne,
)
