-- ===== src/SrIp/Header/RoundTrip.antt =====
-- An IP header that `sr_ip_hdr_hton` made is accepted by a receiver that runs this code too, and
-- `sr_ip_hdr_ntoh` gives its fields back.
use stanford.Prelude.{
  ℕ, ◌*◌, ◌∙◌, ◌==◌, false, ◌<◌, ◌≡◌, refl, true, some, List, ◌++◌, arith, ap, ==-refl,
}
use stanford.Wire.{cksum}
use stanford.Wire.Order.{htons-lt, htonl-lt, htons-htons, htonl-htonl, cksum-lt}
use stanford.SrProtocol.{IpHdr}
use stanford.SrProtocol.Layout.{ip_bytes, read_ip, read_bytes}
use stanford.SrProtocol.Layout.RoundTrip.{Fits, read_ip-bytes, length-ip_bytes, read_bytes-append}
use stanford.SrIp.Header.{sr_ip_hdr_hton, sr_ip_hdr_ntoh, ip_hdr_net, sr_ip_checksum_matches}

pub hton-Fits : (h : IpHdr) → h.ip_hl < 16 → Fits (sr_ip_hdr_hton h)
unfolding sr_ip_hdr_hton
hton-Fits h v = record {
  hl = v;
  len = htons-lt h.ip_len;
  id = htons-lt h.ip_id;
  off = htons-lt h.ip_off;
  sum = cksum-lt (ip_bytes (ip_hdr_net h));
  src = htonl-lt h.ip_src;
  dst = htonl-lt h.ip_dst;
}

pub checksum_matches_word :
    (h : IpHdr) (rest bytes : List ℕ)
    → (h.ip_hl * 4 == 0) ≡ false
    → read_bytes (h.ip_hl * 4) (ip_bytes (record h { ip_sum = 0 }) ++ rest) ≡ some bytes
    → sr_ip_checksum_matches h rest ≡ some (h.ip_sum == cksum bytes)
unfolding sr_ip_checksum_matches
checksum_matches_word h rest bytes z e = rw (z, e) refl

pub matches-hton :
    (h : IpHdr) (rest : List ℕ)
    → h.ip_hl ≡ 5
    → sr_ip_checksum_matches (sr_ip_hdr_hton h) rest ≡ some true
unfolding sr_ip_hdr_hton
matches-hton h rest e =
    let bytes = ip_bytes (ip_hdr_net h) in
    checksum_matches_word (sr_ip_hdr_hton h) rest bytes (ground (arith, e)) (
      read_bytes-append (h.ip_hl * 4) bytes rest (omega (arith, e, length-ip_bytes (ip_hdr_net h))))
    ∙ ap some (==-refl (cksum bytes))

-- A header without options whose fields fit into their words, put into network order and sent with
-- anything behind it, is read as it was sent and passes the checksum test, and `sr_ip_hdr_ntoh` gives
-- its fields back, the checksum apart.
pub sr_ip_hdr_hton-round_trip :
    (h : IpHdr) (rest : List ℕ)
    → Fits h
    → h.ip_hl ≡ 5
    → let net = sr_ip_hdr_hton h in
      (read_ip (ip_bytes net ++ rest) ≡ some (net, rest))
      × (sr_ip_checksum_matches net rest ≡ some true)
      × (sr_ip_hdr_ntoh net ≡ record h { ip_sum = net.ip_sum })
unfolding sr_ip_hdr_ntoh sr_ip_hdr_hton
sr_ip_hdr_hton-round_trip h rest v e = (
  read_ip-bytes (sr_ip_hdr_hton h) rest (hton-Fits h v.hl),
  matches-hton h rest e,
  ground (
    arith,
    htons-htons h.ip_len v.len,
    htons-htons h.ip_id v.id,
    htons-htons h.ip_off v.off,
    htonl-htonl h.ip_src v.src,
    htonl-htonl h.ip_dst v.dst,
  ),
)
