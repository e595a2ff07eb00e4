-- ===== src/Tcp/Packet/Ack.antt =====
-- An acknowledgement on the wire has eight bytes, fewer than the header of a data packet: what the
-- receiver's buffer holds behind them is read as the fields that an acknowledgement does not have.
use stanford.Prelude.{
  ℕ, ◌%◌, ◌/◌, sym, ap₂, ◌<◌, ◌≡◌, refl, ◌∙◌, ap, List, [], ◌∷◌, ◌++◌, arith, length,
}
use stanford.Wire.{htons, htonl, le16, le32, read16, read32, cksum}
use stanford.Wire.Order.{
  htons-lt, htonl-lt, htons-htons, htonl-htonl, cksum-lt, read16-le16, read32-le32,
}
use stanford.Tcp.Packet.{
  Packet, ack_packet, blank, init_ack_pkt, pkt_ntoh, pkt_hton, bytes_of, read_pkt, pkt_cksum, seal,
  checksum_matches, get_pkt_type,
}
use stanford.Tcp.Packet.RoundTrip.{wire}

-- The bytes of an acknowledgement in network order.
abbrev ack_bytes : ℕ → ℕ → List ℕ
ack_bytes sum ackno = le16 sum ++ (le16 (htons 8) ++ le32 (htonl ackno))

abbrev ack_sum : ℕ → ℕ
ack_sum ackno = cksum (ack_bytes 0 ackno)

wire-ack : (ackno : ℕ) → wire (init_ack_pkt blank ackno) ≡ ack_bytes (ack_sum ackno) ackno
unfolding init_ack_pkt seal pkt_hton pkt_cksum bytes_of le16 le32
wire-ack ackno = refl

-- Whatever is behind the eight bytes, the packet has the first three fields.
unfoldable IsAck : ℕ → Packet → Type 0
IsAck ackno pkt = (pkt.cksum ≡ ack_sum ackno) × (pkt.len ≡ htons 8) × (pkt.ackno ≡ htonl ackno)

read_fields :
    (ackno : ℕ)
    → let s = ack_sum ackno in
      let l = htons 8 in
      let a = htonl ackno in
      (read16 (s % 256) (s / 256 % 256) ≡ s)
      × (read16 (l % 256) (l / 256 % 256) ≡ l)
      × (read32 (a % 256) (a / 256 % 256) (a / 65536 % 256) (a / 16777216 % 256) ≡ a)
read_fields ackno = (
  read16-le16 (ack_sum ackno) (cksum-lt (ack_bytes 0 ackno)),
  read16-le16 (htons 8) (htons-lt 8),
  read32-le32 (htonl ackno) (htonl-lt ackno),
)

read-IsAck :
    (ackno : ℕ) (junk : List ℕ) → IsAck ackno (read_pkt (ack_bytes (ack_sum ackno) ackno ++ junk))
unfolding read_pkt le16 le32 IsAck
read-IsAck ackno [] = read_fields ackno
read-IsAck ackno (a ∷ []) = read_fields ackno
read-IsAck ackno (a ∷ b ∷ []) = read_fields ackno
read-IsAck ackno (a ∷ b ∷ c ∷ []) = read_fields ackno
read-IsAck ackno (a ∷ b ∷ c ∷ d ∷ rest) = read_fields ackno

-- The checksum is over the eight bytes that were sent.
ack-cksum : (ackno : ℕ) (pkt : Packet) → IsAck ackno pkt → pkt_cksum pkt 8 ≡ pkt.cksum
unfolding IsAck pkt_cksum bytes_of le16 le32
ack-cksum ackno pkt (c, l, a) = ap₂ (λ m n. cksum (le16 0 ++ (le16 m ++ le32 n))) l a ∙ sym c

ack-type : (ackno : ℕ) (pkt : Packet) → IsAck ackno pkt → get_pkt_type pkt 8 ≡ ack_packet
unfolding IsAck get_pkt_type checksum_matches
ack-type ackno pkt v =
    let len : htons pkt.len ≡ 8 = ap htons v.1 ∙ htons-htons 8 (omega arith) in
    rw (len, ack-cksum ackno pkt v) (ground arith)

length-ack_bytes : (sum ackno : ℕ) → length (ack_bytes sum ackno) ≡ 8
unfolding le16 le32
length-ack_bytes sum ackno = refl

-- An acknowledgement, sealed and sent as its `len` bytes, is eight bytes. A receiver that got these,
-- whatever its buffer holds behind them, takes it for an acknowledgement, and `pkt_ntoh` gives the
-- length and the number back. The number has 32 bits.
pub ack_pkt-round_trip :
    (ackno : ℕ) (junk : List ℕ)
    → ackno < 4294967296
    → let sent = wire (init_ack_pkt blank ackno) in
      let got = read_pkt (sent ++ junk) in
      (length sent ≡ 8)
      × (get_pkt_type got (length sent) ≡ ack_packet)
      × ((pkt_ntoh got).len ≡ 8)
      × ((pkt_ntoh got).ackno ≡ ackno)
unfolding pkt_ntoh IsAck
ack_pkt-round_trip ackno junk h =
    let got = read_pkt (ack_bytes (ack_sum ackno) ackno ++ junk) in
    let v = read-IsAck ackno junk in
    rw (wire-ack ackno) (
      length-ack_bytes (ack_sum ackno) ackno,
      rw (length-ack_bytes (ack_sum ackno) ackno) (ack-type ackno got v),
      ap htons (v.1) ∙ htons-htons 8 (omega arith),
      ap htonl (v.2) ∙ htonl-htonl ackno h,
    )
