-- ===== src/Tcp/Packet.antt =====
-- `packet_t` of cs144/tcp/rlib.h and the packet helpers of cs144/tcp/reliable.c.
pub mod RoundTrip
pub mod Ack
use stanford.Prelude.{
  ℕ, ◌+◌, Bool, true, false, ◌&&◌, ◌||◌, List, [], ◌∷◌, ◌++◌, ◌==◌, ltb, leb, if◌then◌else◌, take,
  get_or,
}
use stanford.Wire.{htons, htonl, le16, le32, read16, read32, cksum}

abbrev pub ack_packet_len : ℕ
ack_packet_len = 8

abbrev pub data_packet_header_len : ℕ
data_packet_header_len = 12

abbrev pub data_packet_max_payload_len : ℕ
data_packet_max_payload_len = 500

abbrev pub data_packet_max_len : ℕ
data_packet_max_len = 512

-- The bytes of `data` that were written; the array has 500.
pub record Packet : Type 0 where
  pub cksum : ℕ
  pub len : ℕ
  pub ackno : ℕ
  pub seqno : ℕ
  pub payload : List ℕ

-- Storage that nothing was written to yet.
abbrev pub blank : Packet
blank = record { cksum = 0; len = 0; ackno = 0; seqno = 0; payload = [] }

pub data PacketType : Type 0 where
  data_packet ack_packet invalid_packet : PacketType

unfoldable pub init_ack_pkt : Packet → ℕ → Packet
init_ack_pkt pkt ackno = record pkt { cksum = 0; len = ack_packet_len; ackno = ackno }

unfoldable pub init_data_pkt : Packet → ℕ → ℕ → List ℕ → ℕ → Packet
init_data_pkt pkt ackno seqno buf payload_len = record pkt {
  cksum = 0;
  len = data_packet_header_len + payload_len;
  ackno = ackno;
  seqno = seqno;
  payload = take payload_len buf;
}

unfoldable pub pkt_ntoh : Packet → Packet
pkt_ntoh pkt =
    let len = htons pkt.len in
    record pkt {
      len = len;
      ackno = htonl pkt.ackno;
      seqno = if leb data_packet_header_len len then htonl pkt.seqno else pkt.seqno;
    }

unfoldable pub pkt_hton : Packet → Packet
pkt_hton pkt = record pkt {
  seqno = if leb data_packet_header_len pkt.len then htonl pkt.seqno else pkt.seqno;
  len = htons pkt.len;
  ackno = htonl pkt.ackno;
}

-- The struct in memory, and the struct that a buffer of bytes is read as.
unfoldable pub bytes_of : Packet → List ℕ
unfolding le16 le32
bytes_of pkt =
    le16 pkt.cksum ++ (le16 pkt.len ++ (le32 pkt.ackno ++ (le32 pkt.seqno ++ pkt.payload)))

-- A buffer with fewer bytes than the header has zeros behind them.
unfoldable pub read_pkt : List ℕ → Packet
unfolding read16 read32
read_pkt (c0 ∷ c1 ∷ l0 ∷ l1 ∷ a0 ∷ a1 ∷ a2 ∷ a3 ∷ s0 ∷ s1 ∷ s2 ∷ s3 ∷ rest) = record {
  cksum = read16 c0 c1;
  len = read16 l0 l1;
  ackno = read32 a0 a1 a2 a3;
  seqno = read32 s0 s1 s2 s3;
  payload = rest;
}
read_pkt (c0 ∷ c1 ∷ l0 ∷ l1 ∷ a0 ∷ a1 ∷ a2 ∷ a3 ∷ rest) = record {
  cksum = read16 c0 c1;
  len = read16 l0 l1;
  ackno = read32 a0 a1 a2 a3;
  seqno = read32 (get_or rest 0 0) (get_or rest 1 0) (get_or rest 2 0) (get_or rest 3 0);
  payload = [];
}
read_pkt _ = blank

-- `cksum((void *)pkt, len)` after `pkt->cksum = 0`.
unfoldable pub pkt_cksum : Packet → ℕ → ℕ
pkt_cksum pkt len = cksum (take len (bytes_of (record pkt { cksum = 0 })))

-- What `send_ack_pkt` and `send_data_pkt` hand to `conn_sendpkt`: the packet in network order with
-- its checksum.
unfoldable pub seal : Packet → Packet
seal pkt = let net = pkt_hton pkt in record net { cksum = pkt_cksum net pkt.len }

unfoldable pub checksum_matches : Packet → Bool
checksum_matches pkt =
    let len = htons pkt.len in
    if len == 0 || ltb data_packet_max_len len then false else pkt.cksum == pkt_cksum pkt len

-- `n` is the number of bytes that were received.
unfoldable pub get_pkt_type : Packet → ℕ → PacketType
get_pkt_type pkt n =
    let pkt_len = htons pkt.len in
    if ltb n ack_packet_len
    then invalid_packet
    else (if checksum_matches pkt
        then (if pkt_len == ack_packet_len
            then ack_packet
            else (if leb data_packet_header_len pkt_len && leb pkt_len data_packet_max_len
                then data_packet
                else invalid_packet))
        else invalid_packet)
