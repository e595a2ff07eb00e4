-- ===== src/SrTcp/Header.antt =====
-- The TCP header of cs144/router/sr_tcp.c: byte order, and the checksum over the pseudo header.
use stanford.Prelude.{ℕ, ◌+◌, ◌%◌, Option, some, List, ◌∷◌, ◌++◌, ◌>>=◌}
use stanford.Wire.{htons, htonl, le16, le32, cksum}
use stanford.SrProtocol.{IpHdr, TcpHdr, ip_protocol_tcp}
use stanford.SrProtocol.Layout.{tcp_bytes, read_bytes}

unfoldable pub sr_tcp_hdr_ntoh : TcpHdr → TcpHdr
sr_tcp_hdr_ntoh hdr = record hdr {
  source = htons hdr.source;
  dest = htons hdr.dest;
  seq = htonl hdr.seq;
  ack_seq = htonl hdr.ack_seq;
  window = htons hdr.window;
  urg_ptr = htons hdr.urg_ptr;
}

-- The assignments of `sr_tcp_hdr_hton` before the checksum.
abbrev pub tcp_hdr_net : TcpHdr → TcpHdr
tcp_hdr_net hdr = record hdr {
  source = htons hdr.source;
  dest = htons hdr.dest;
  seq = htonl hdr.seq;
  ack_seq = htonl hdr.ack_seq;
  window = htons hdr.window;
  urg_ptr = htons hdr.urg_ptr;
  check = 0;
}

-- `ip_len - sizeof(sr_ip_hdr_t)` as a `uint16_t`.
abbrev pub tcp_seg_len : IpHdr → ℕ
tcp_seg_len ip_hdr = (ip_hdr.ip_len + 65516) % 65536

-- `struct sr_tcp_pseudo_hdr`, filled in.
unfoldable pub pseudo_hdr : IpHdr → List ℕ
unfolding le16 le32
pseudo_hdr ip_hdr =
    le32 (htonl ip_hdr.ip_src)
    ++ (le32 (htonl ip_hdr.ip_dst) ++ (0 ∷ ip_protocol_tcp ∷ le16 (htons (tcp_seg_len ip_hdr))))

-- `rest` is the memory behind the header; `none` is a read behind that.
unfoldable pub sr_tcp_hdr_hton : TcpHdr → List ℕ → IpHdr → Option TcpHdr
sr_tcp_hdr_hton hdr rest ip_hdr =
    read_bytes (tcp_seg_len ip_hdr) (tcp_bytes (tcp_hdr_net hdr) ++ rest) >>= λ segment.
    some (record (tcp_hdr_net hdr) { check = cksum (pseudo_hdr ip_hdr ++ segment) })
