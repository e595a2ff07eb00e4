-- ===== src/Tcp/Transfer/Datagrams.antt =====
-- What `rel_recvpkt` of reliable.c makes of a datagram that the sender put on the network.
use stanford.Prelude.{
  ℕ, ◌+◌, ◌<◌, ◌≡◌, ◌≢◌, refl, sym, ap, ◌∙◌, inl, inr, ◌⊎◌, some, List, [], ◌++◌, arith, length,
  take, take-length, some_inj,
}
use stanford.Tcp.Packet.{Packet, seal, read_pkt, get_pkt_type}
use stanford.Tcp.Packet.RoundTrip.{
  wire, read-wire, sealed-type, sealed-fields, wire-seal, length-bytes_of, seal-payload,
}
use stanford.Tcp.Conn.{OsRead, OsSend, os_send}
use stanford.Tcp.State.{Rel}
use stanford.Tcp.Sender.Chunks.{input_chunks, chunk, Carries, Wired}
use stanford.Tcp.Receiver.{process_data_pkt}
use stanford.Tcp.Receiver.Reassembly.{Holds, HasRoom}
use stanford.Tcp.Receiver.Runs.{Step, arrives}
use stanford.Tcp.Session.{process_pkt, rel_recvpkt}

-- A data packet as the receiver has it.
abbrev arrived : Packet → List ℕ → Packet
arrived pkt junk = record pkt { cksum = (seal pkt).cksum; payload = pkt.payload ++ junk }

length-wire : (pkt : Packet) → pkt.len ≡ 12 + length pkt.payload → length (wire pkt) ≡ pkt.len
length-wire pkt e =
    ap (λ (xs : List ℕ). length xs) (wire-seal pkt e)
    ∙ length-bytes_of (seal pkt)
    ∙ ap (λ (xs : List ℕ). 12 + length xs) (seal-payload pkt)
    ∙ sym e

module _ (script : List OsRead) (few : length (input_chunks script) < 4294967296) where
  arrived-Holds :
      (pkt : Packet) (junk : List ℕ)
      → Carries script pkt
      → 0 < length pkt.payload
      → Holds (chunk script) pkt.seqno (arrived pkt junk)
  arrived-Holds pkt junk h pos =
      let size = ap (λ (xs : List ℕ). length xs) h.payload in
      record {
        bytes =
            ap (λ n. take n (pkt.payload ++ junk)) (omega (arith, h.len))
            ∙ take-length pkt.payload junk
            ∙ h.payload;
        len = omega (arith, h.len, size);
        nonempty = omega (arith, size);
        small = omega (arith, size, h.short);
      }

  recv_data :
      (r : Rel) (pkt : Packet) (junk : List ℕ) (now : ℕ)
      → Carries script pkt
      → rel_recvpkt r (read_pkt (wire pkt ++ junk)) (length (wire pkt)) now
        ≡ process_data_pkt r (arrived pkt junk)
  unfolding rel_recvpkt process_pkt
  recv_data r pkt junk now h =
      rw
        (
          length-wire pkt h.len,
          read-wire pkt junk h.len,
          sealed-type pkt junk pkt.len h.len (omega (arith, h.len, h.short)) (omega (arith, h.len)),
          sealed-fields pkt junk (omega (arith, h.len)) (omega (arith, h.len, h.short)) h.ackno
              (omega (arith, h.there)),
        )
        refl

  recv_nothing :
      (r : Rel) (junk : List ℕ) (now : ℕ)
      → rel_recvpkt r (read_pkt ([] ++ junk)) (length {A = ℕ} []) now ≡ some r
  unfolding rel_recvpkt process_pkt get_pkt_type
  recv_nothing r junk now = refl

  -- A datagram is a step of the receiver, or none.
  pub datagram-Step :
      (r r' : Rel) (bytes junk : List ℕ) (now : ℕ)
      → Wired script bytes
      → length bytes ≢ 12
      → HasRoom r
      → (os_send r.c.sends).0 ≢ OsSend.failed
      → rel_recvpkt r (read_pkt (bytes ++ junk)) (length bytes) now ≡ some r'
      → (r ≡ r') ⊎ Step (chunk script) r r'
  datagram-Step r r' bytes junk now (inl b) ne m sent e = inl (
      some_inj r r' (
        sym (
          ap (λ (xs : List ℕ). rel_recvpkt r (read_pkt (xs ++ junk)) (length xs) now) b
          ∙ recv_nothing r junk now)
        ∙ e))
  datagram-Step r r' bytes junk now (inr (pkt, h, b)) ne m sent e = inr (
      arrives (arrived pkt junk) m
        (arrived-Holds pkt junk h
          (omega (arith, ne, ap (λ (xs : List ℕ). length xs) b, length-wire pkt h.len, h.len)))
        sent
        (sym (
            ap (λ (xs : List ℕ). rel_recvpkt r (read_pkt (xs ++ junk)) (length xs) now) b
            ∙ recv_data r pkt junk now h)
          ∙ e))
