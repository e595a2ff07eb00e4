-- ===== src/Tcp/Packet/RoundTrip.antt =====
-- A packet that is sealed, sent as its first bytes and read back by the receiver is accepted as what
-- it is, with the fields that it was made with.
use stanford.Prelude.{
  ℕ, take-append, take-all, ◌+◌, ◌≤◌, ◌<◌, ◌≡◌, refl, List, ◌++◌, arith, take, length, ap, ◌∙◌, sym,
}
use stanford.Wire.{htons, htonl, cksum}
use stanford.Wire.Order.{
  htons-lt, htonl-lt, htons-htons, htonl-htonl, cksum-lt, read16-le16, read32-le32,
}
use stanford.Tcp.Packet.{
  Packet, data_packet, blank, init_data_pkt, pkt_ntoh, pkt_hton, bytes_of, read_pkt, pkt_cksum,
  seal, checksum_matches, get_pkt_type,
}

-- The bytes that a sealed packet is sent as.
abbrev pub wire : Packet → List ℕ
wire pkt = take pkt.len (bytes_of (seal pkt))

-- A data packet in memory, read back with anything behind it.
read-bytes_of :
    (pkt : Packet) (junk : List ℕ)
    → pkt.cksum < 65536
    → pkt.len < 65536
    → pkt.ackno < 4294967296
    → pkt.seqno < 4294967296
    → read_pkt (bytes_of pkt ++ junk) ≡ record pkt { payload = pkt.payload ++ junk }
unfolding read_pkt bytes_of
read-bytes_of pkt junk hc hl ha hs = ground (
  arith,
  read16-le16 pkt.cksum hc,
  read16-le16 pkt.len hl,
  read32-le32 pkt.ackno ha,
  read32-le32 pkt.seqno hs,
)

-- The data packet that `send_new_data_pkt` makes of a payload.
abbrev pub data_pkt : ℕ → ℕ → List ℕ → Packet
data_pkt ackno seqno payload = init_data_pkt blank ackno seqno payload (length payload)

data_pkt_lem :
    (ackno seqno : ℕ) (p : List ℕ)
    → data_pkt ackno seqno p
      ≡ record { cksum = 0; len = 12 + length p; ackno = ackno; seqno = seqno; payload = p }
unfolding init_data_pkt
data_pkt_lem ackno seqno p = ground (arith, take-all (length p) p (omega arith))

pub length-bytes_of : (pkt : Packet) → length (bytes_of pkt) ≡ 12 + length pkt.payload
unfolding bytes_of
length-bytes_of pkt = omega arith

-- The checksum of the first `12 + length p` bytes does not see what lies behind the payload.
pkt_cksum-junk :
    (pkt : Packet) (junk : List ℕ)
    → pkt_cksum (record pkt { payload = pkt.payload ++ junk }) (12 + length pkt.payload)
      ≡ pkt_cksum pkt (12 + length pkt.payload)
unfolding pkt_cksum bytes_of
pkt_cksum-junk pkt junk = ap cksum (
    take-append (12 + length pkt.payload) (bytes_of (record pkt { cksum = 0 })) junk
      (omega (arith, length-bytes_of (record pkt { cksum = 0 }))))

-- Sealing keeps the payload, and its fields are in range.
seal_lem :
    (pkt : Packet)
    → pkt.len < 65536
    → 12 ≤ pkt.len
    → let s = seal pkt in
      (s.len ≡ htons pkt.len)
      × (s.ackno ≡ htonl pkt.ackno)
      × (s.seqno ≡ htonl pkt.seqno)
      × (s.payload ≡ pkt.payload)
      × (s.cksum ≡ pkt_cksum s pkt.len)
unfolding seal pkt_hton pkt_cksum
seal_lem pkt h g = ground arith

-- What the receiver computes over a sealed packet, read back with anything behind it, is the
-- checksum that it carries.
seal-cksum :
    (pkt : Packet) (junk : List ℕ)
    → pkt.len ≡ 12 + length pkt.payload
    → pkt_cksum (record (seal pkt) { payload = pkt.payload ++ junk }) pkt.len ≡ (seal pkt).cksum
unfolding seal pkt_cksum pkt_hton
seal-cksum pkt junk e =
    ap
      (λ n.
        cksum
          (take n (bytes_of (record (pkt_hton pkt) { cksum = 0; payload = pkt.payload ++ junk }))))
      e
    ∙ pkt_cksum-junk (pkt_hton pkt) junk
    ∙ ap (λ n. cksum (take n (bytes_of (record (pkt_hton pkt) { cksum = 0 })))) (sym e)

seal-len : (pkt : Packet) → pkt.len < 65536 → htons (seal pkt).len ≡ pkt.len
unfolding seal pkt_hton
seal-len pkt h = htons-htons pkt.len h

-- So it passes the receiver's checks.
pub sealed-type :
    (pkt : Packet) (junk : List ℕ) (n : ℕ)
    → pkt.len ≡ 12 + length pkt.payload
    → pkt.len ≤ 512
    → 8 ≤ n
    → get_pkt_type (record (seal pkt) { payload = pkt.payload ++ junk }) n ≡ data_packet
unfolding get_pkt_type checksum_matches
sealed-type pkt junk n e h g =
    rw (seal-len pkt (omega arith), seal-cksum pkt junk e, get_pkt_type) (ground arith)

pub sealed-fields :
    (pkt : Packet) (junk : List ℕ)
    → 12 ≤ pkt.len
    → pkt.len ≤ 512
    → pkt.ackno < 4294967296
    → pkt.seqno < 4294967296
    → pkt_ntoh (record (seal pkt) { payload = pkt.payload ++ junk })
      ≡ record pkt { cksum = (seal pkt).cksum; payload = pkt.payload ++ junk }
unfolding pkt_ntoh seal pkt_hton
sealed-fields pkt junk h g ha hs =
    ground
      (arith, htons-htons pkt.len (omega arith), htonl-htonl pkt.ackno ha, htonl-htonl pkt.seqno hs)

pub seal-payload : (pkt : Packet) → (seal pkt).payload ≡ pkt.payload
unfolding seal pkt_hton
seal-payload pkt = refl

-- All of a data packet's bytes are sent.
pub wire-seal : (pkt : Packet) → pkt.len ≡ 12 + length pkt.payload → wire pkt ≡ bytes_of (seal pkt)
wire-seal pkt e =
    take-all pkt.len (bytes_of (seal pkt))
      (omega (arith, length-bytes_of (seal pkt), ap length (seal-payload pkt)))

seal-bounds :
    (pkt : Packet)
    → 12 ≤ pkt.len
    → let s = seal pkt in
      (s.cksum < 65536) × (s.len < 65536) × (s.ackno < 4294967296) × (s.seqno < 4294967296)
unfolding seal pkt_hton pkt_cksum
seal-bounds pkt h = ground (
  arith,
  cksum-lt (take pkt.len (bytes_of (record (pkt_hton pkt) { cksum = 0 }))),
  htons-lt pkt.len,
  htonl-lt pkt.ackno,
  htonl-lt pkt.seqno,
)

pub read-wire :
    (pkt : Packet) (junk : List ℕ)
    → pkt.len ≡ 12 + length pkt.payload
    → read_pkt (wire pkt ++ junk) ≡ record (seal pkt) { payload = pkt.payload ++ junk }
unfolding seal pkt_hton
read-wire pkt junk e =
    let b = seal-bounds pkt (omega (arith, e)) in
    rw (wire-seal pkt e, ← seal-payload pkt) (read-bytes_of (seal pkt) junk b.0 b.1 b.2 b.3)

-- A data packet with 32-bit numbers and at most 500 bytes of payload, sealed and sent as its `len`
-- bytes, is accepted as a data packet by a receiver that got it whole, whatever its buffer holds
-- behind those bytes, and `pkt_ntoh` gives the length, the numbers and the payload back.
pub data_pkt-round_trip :
    (ackno seqno : ℕ) (p junk : List ℕ)
    → length p ≤ 500
    → ackno < 4294967296
    → seqno < 4294967296
    → let pkt = data_pkt ackno seqno p in
      let got = read_pkt (wire pkt ++ junk) in
      (get_pkt_type got pkt.len ≡ data_packet)
      × ((pkt_ntoh got).len ≡ 12 + length p)
      × ((pkt_ntoh got).ackno ≡ ackno)
      × ((pkt_ntoh got).seqno ≡ seqno)
      × (take (length p) (pkt_ntoh got).payload ≡ p)
data_pkt-round_trip ackno seqno p junk h ha hs =
    rw
      (
        data_pkt_lem ackno seqno p,
        read-wire pkt junk refl,
        sealed-fields pkt junk (omega arith) (omega arith) ha hs,
      )
      (
        sealed-type pkt junk (12 + length p) refl (omega arith) (omega arith),
        refl,
        refl,
        refl,
        take-append (length p) p junk (omega arith) ∙ take-all (length p) p (omega arith),
      )
  where
    pkt : Packet
    pkt = record { cksum = 0; len = 12 + length p; ackno = ackno; seqno = seqno; payload = p }
