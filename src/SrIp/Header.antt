-- ===== src/SrIp/Header.antt =====
-- The headers of cs144/router/sr_ip.c and cs144/router/sr_eth.c: byte order, checksum, new headers.
pub mod RoundTrip
use stanford.Prelude.{
  ℕ, ◌+◌, ◌-◌, ◌*◌, ◌%◌, Bool, true, false, Option, none, some, List, [], ◌∷◌, ◌++◌, ◌==◌,
  if◌then◌else◌, ◌>>=◌, take,
}
use stanford.Wire.{htons, htonl, cksum}
use stanford.SrProtocol.{IpHdr, EthHdr, IpFrame}
use stanford.SrProtocol.Layout.{ip_bytes, read_bytes, frame_bytes}
use stanford.SrIf.{Instance, sr_send_packet}

unfoldable pub sr_eth_hdr_ntoh : EthHdr → EthHdr
sr_eth_hdr_ntoh hdr = record hdr { ether_type = htons hdr.ether_type }

unfoldable pub sr_eth_hdr_hton : EthHdr → EthHdr
sr_eth_hdr_hton hdr = record hdr { ether_type = htons hdr.ether_type }

unfoldable pub sr_init_eth_hdr : List ℕ → List ℕ → ℕ → EthHdr
sr_init_eth_hdr dhost shost type = record {
  ether_dhost = take 6 dhost;
  ether_shost = take 6 shost;
  ether_type = type;
}

unfoldable pub sr_ip_hdr_ntoh : IpHdr → IpHdr
sr_ip_hdr_ntoh hdr = record hdr {
  ip_len = htons hdr.ip_len;
  ip_id = htons hdr.ip_id;
  ip_off = htons hdr.ip_off;
  ip_src = htonl hdr.ip_src;
  ip_dst = htonl hdr.ip_dst;
}

-- The assignments of `sr_ip_hdr_hton` before the checksum.
abbrev pub ip_hdr_net : IpHdr → IpHdr
ip_hdr_net hdr = record hdr {
  ip_len = htons hdr.ip_len;
  ip_id = htons hdr.ip_id;
  ip_off = htons hdr.ip_off;
  ip_src = htonl hdr.ip_src;
  ip_dst = htonl hdr.ip_dst;
  ip_sum = 0;
}

unfoldable pub sr_ip_hdr_hton : IpHdr → IpHdr
sr_ip_hdr_hton hdr = record (ip_hdr_net hdr) { ip_sum = cksum (ip_bytes (ip_hdr_net hdr)) }

-- The header is followed by the memory that `payload` has; `none` is a read behind it.
unfoldable pub sr_ip_checksum_matches : IpHdr → List ℕ → Option Bool
sr_ip_checksum_matches hdr payload =
    if hdr.ip_hl * 4 == 0
    then some false
    else (read_bytes (hdr.ip_hl * 4) (ip_bytes (record hdr { ip_sum = 0 }) ++ payload) >>= λ bytes.
        some (hdr.ip_sum == cksum bytes))

unfoldable pub sr_init_ip_hdr : ℕ → ℕ → ℕ → ℕ → IpHdr
sr_init_ip_hdr ip_src ip_dst payload_len protocol = record {
  ip_hl = 5;
  ip_v = 4;
  ip_tos = 0;
  ip_len = (20 + payload_len) % 65536;
  ip_id = 0;
  ip_off = 0;
  ip_ttl = 255;
  ip_p = protocol;
  ip_sum = 0;
  ip_src = ip_src;
  ip_dst = ip_dst;
}

unfoldable pub get_eth_ip_pkt_len : IpFrame → ℕ
get_eth_ip_pkt_len f = 14 + f.ip.ip_len

unfoldable pub sr_send_ip_pkt : Instance → IpFrame → List ℕ → Option Instance
sr_send_ip_pkt sr f iface =
    let net = record f { eth = sr_eth_hdr_hton f.eth; ip = sr_ip_hdr_hton f.ip } in
    read_bytes (get_eth_ip_pkt_len f) (frame_bytes net) >>= λ buf.
    some (sr_send_packet sr buf iface)
