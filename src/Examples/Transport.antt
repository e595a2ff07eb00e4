-- ===== src/Examples/Transport.antt =====
-- Runs of the checksum, the packets and the sessions of the transport.
use stanford.Prelude.{
  ℕ, ◌+◌, ◌≤◌, ◌<◌, ◌≡◌, ◌≢◌, length, ◌↔◌, ◌%◌, refl, ◌⊎◌, true, false, some, List, [], ◌∷◌, ◌++◌,
  arith, take,
}
use stanford.Wire.{cksum}
use stanford.Wire.Cksum.{word_sum, cksum_eq_iff}
use stanford.Tcp.Packet.Ack.{ack_pkt-round_trip}
use stanford.Tcp.Packet.{
  Packet, blank, init_ack_pkt, ack_packet, data_packet, pkt_ntoh, get_pkt_type, read_pkt,
}
use stanford.Tcp.Packet.RoundTrip.{wire, data_pkt, data_pkt-round_trip}
use stanford.Tcp.Conn.{
  Conn, ret, OsRead, OsWrite, conn_output, conn_drain, conn_bufspace, output_bytes, append_chunk,
  write_now, os_write,
}
use stanford.Tcp.Conn.Stream.{stream, conn_output-stream, conn_drain-stream}
use stanford.Tcp.Conn.Healthy.{Healthy}
use stanford.Tcp.State.{Rel, inet, new_rel, has_recvd_pkt, pkt_out_of_bounds}
use stanford.Tcp.Sender.{rel_read, process_ack_pkt}
use stanford.Tcp.Sender.Window.{SendInv}
use stanford.Tcp.Sender.Flow.{Keeps, rel_read-Keeps, process_ack_pkt-Keeps}
use stanford.Tcp.Receiver.{process_data_pkt}
use stanford.Tcp.Receiver.Refuse.{far, Quiet, process_data_pkt-refused}
use stanford.Tcp.Receiver.Eof.{process_data_pkt-early_eof}

-- A worked value: 0x0001 + 0xf203 + 0xf4f5 + 0xf6f7 folds to 0xddf2, and its complement is 0x220d.
abbrev rfc_bytes : List ℕ
rfc_bytes = 0x00 ∷ 0x01 ∷ 0xf2 ∷ 0x03 ∷ 0xf4 ∷ 0xf5 ∷ 0xf6 ∷ 0xf7 ∷ []

rfc_cksum : cksum rfc_bytes ≡ 0x0d22
unfolding cksum
rfc_cksum = refl

-- Swapping two words is not seen.
cksum_eq_iff_example :
    (cksum (1 ∷ 2 ∷ 3 ∷ 4 ∷ []) ≡ cksum (3 ∷ 4 ∷ 1 ∷ 2 ∷ []))
    ↔ (word_sum (1 ∷ 2 ∷ 3 ∷ 4 ∷ []) % 65535 ≡ word_sum (3 ∷ 4 ∷ 1 ∷ 2 ∷ []) % 65535)
cksum_eq_iff_example =
    cksum_eq_iff (1 ∷ 2 ∷ 3 ∷ 4 ∷ []) (3 ∷ 4 ∷ 1 ∷ 2 ∷ []) (omega arith) (omega arith) (omega arith)
      (omega arith)

data_pkt-round_trip_example :
    let pkt = data_pkt 1 2 (104 ∷ 105 ∷ []) in
    let got = read_pkt (wire pkt ++ 9 ∷ 9 ∷ []) in
    (get_pkt_type got pkt.len ≡ data_packet)
    × ((pkt_ntoh got).len ≡ 12 + 2)
    × ((pkt_ntoh got).ackno ≡ 1)
    × ((pkt_ntoh got).seqno ≡ 2)
    × (take 2 (pkt_ntoh got).payload ≡ 104 ∷ 105 ∷ [])
data_pkt-round_trip_example =
    data_pkt-round_trip 1 2 (104 ∷ 105 ∷ []) (9 ∷ 9 ∷ []) (omega arith) (omega arith) (omega arith)

abbrev conn : Conn
conn = record {
  read_eof = false;
  write_eof = false;
  write_err = 0;
  xoff = false;
  delete_me = false;
  outq = [];
  reads = OsRead.got (104 ∷ 105 ∷ []) ∷ OsRead.got [] ∷ [];
  writes = OsWrite.wrote 1 ∷ OsWrite.blocked ∷ OsWrite.wrote 9 ∷ [];
  sends = [];
  written = [];
  is_shut = false;
  network = [];
}

abbrev half_written : Conn
half_written = record conn {
  outq = record { used = 0; buf = 66 ∷ [] } ∷ [];
  writes = OsWrite.blocked ∷ OsWrite.wrote 9 ∷ [];
  written = 65 ∷ [];
}

conn_output_half : conn_output conn (65 ∷ 66 ∷ []) ≡ some (half_written, ret 2)
unfolding conn_output conn_bufspace output_bytes append_chunk write_now os_write
conn_output_half = refl

conn_output-stream_example :
    (◌≡◌ {A = ℕ} 2 0 × (stream half_written ≡ stream conn))
    ⊎ (◌≡◌ {A = ℕ} 2 2 × (stream half_written ≡ stream conn ++ 65 ∷ 66 ∷ []))
conn_output-stream_example = conn_output-stream conn half_written (65 ∷ 66 ∷ []) 2 conn_output_half

conn_drain-stream_example : stream (conn_drain half_written).0 ≡ 65 ∷ 66 ∷ []
conn_drain-stream_example = conn_drain-stream half_written

conn-Healthy : Healthy conn
conn-Healthy = record {
  alive = refl;
  is_open = refl;
  no_error = refl;
  writable = (tt, (tt, (tt, tt)));
}

-- A new session with a window of two packets.
session : Rel
session = new_rel conn (inet 1 2) (record { window = 2; timeout = 100 })

session-SendInv : SendInv session
unfolding session new_rel
session-SendInv = record {
  alive = refl;
  window_pos = omega arith;
  no_wrap = omega arith;
  ack_pos = omega arith;
  acked_sent = omega arith;
  in_window = omega arith;
  slots = refl;
  held = λ s lo hi. absurd (omega arith);
}

rel_read-Keeps_example : Keeps session (rel_read session 5)
rel_read-Keeps_example = rel_read-Keeps session 5 session-SendInv

-- It got an acknowledgement of a packet that it did not send.
abbrev wild_ack : Packet
wild_ack = record blank { ackno = 2; len = 8 }

process_ack_pkt-Keeps_example :
    (r' : Rel) × (process_ack_pkt session wild_ack 5 ≡ some r')
    × SendInv r'
    × (r'.window_size ≡ session.window_size)
    × ((r'.last_ackno_recvd ≡ session.last_ackno_recvd)
        ⊎ ((r'.last_ackno_recvd ≡ 2)
            × (session.last_ackno_recvd < 2)
            × (2 ≤ session.last_seqno_sent + 1)))
unfolding session new_rel
process_ack_pkt-Keeps_example =
    process_ack_pkt-Keeps session wild_ack 5 session-SendInv (omega arith)

-- A packet beyond the window.
abbrev far_packet : Packet
far_packet = record { cksum = 0; len = 14; ackno = 1; seqno = 3; payload = 65 ∷ 66 ∷ [] }

process_data_pkt-refused_example :
    (r' : Rel) × (process_data_pkt session far_packet ≡ some r')
    × Quiet session r'
    × (r'.last_ackno_sent ≡ session.last_ackno_sent)
unfolding session new_rel pkt_out_of_bounds
process_data_pkt-refused_example =
    process_data_pkt-refused session far_packet refl (omega arith) (omega arith) (omega arith)
      (far (omega arith))

-- The EOF that follows a lost packet.
abbrev eof_packet : Packet
eof_packet = record { cksum = 0; len = 12; ackno = 1; seqno = 2; payload = [] }

process_data_pkt-early_eof_example :
    (r' : Rel) × (process_data_pkt session eof_packet ≡ some r')
    × (r'.last_pkt_recvd_eof ≡ true)
    × (r'.c.write_eof ≡ true)
    × (((session.c.outq ≡ []) × (r'.c.is_shut ≡ true))
        ⊎ ((session.c.outq ≢ []) × (r'.c.is_shut ≡ session.c.is_shut)))
    × (r'.c.written ≡ session.c.written)
    × (r'.c.outq ≡ session.c.outq)
    × ((r'.last_ackno_sent ≡ session.last_ackno_sent + 1)
        ⊎ (r'.last_ackno_sent ≡ session.last_ackno_sent))
unfolding session new_rel has_recvd_pkt
process_data_pkt-early_eof_example =
    process_data_pkt-early_eof session eof_packet refl refl refl (omega arith) (omega arith)
      (omega arith) refl refl refl

-- An acknowledgement in front of two bytes that the buffer still holds.
ack_pkt-round_trip_example :
    let sent = wire (init_ack_pkt blank 7) in
    let got = read_pkt (sent ++ (9 ∷ 9 ∷ [])) in
    (length sent ≡ 8)
    × (get_pkt_type got (length sent) ≡ ack_packet)
    × ((pkt_ntoh got).len ≡ 8)
    × ((pkt_ntoh got).ackno ≡ 7)
ack_pkt-round_trip_example = ack_pkt-round_trip 7 (9 ∷ 9 ∷ []) (omega arith)
