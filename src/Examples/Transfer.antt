-- ===== src/Examples/Transfer.antt =====
-- A line of input from one end of the transport to the other.
use stanford.Prelude.{◌≡◌, refl, true, inl, some, [], ◌∷◌, ◌++◌, arith, take}
use stanford.Wire.{cksum, htonl, htons, read16, read32}
use stanford.Tcp.Packet.{
  Packet, blank, bytes_of, seal, pkt_cksum, init_ack_pkt, init_data_pkt, pkt_hton, pkt_ntoh,
  read_pkt, get_pkt_type, checksum_matches,
}
use stanford.Tcp.Packet.RoundTrip.{wire, data_pkt}
use stanford.Tcp.Conn.{
  Conn, OsRead, OsWrite, os_send, conn_bufspace, conn_output, output_bytes, write_now, os_write,
  append_chunk, conn_sendpkt, conn_input,
}
use stanford.Tcp.Conn.Stream.{stream}
use stanford.Tcp.State.{
  Rel, inet, unspec, new_rel, pkt_out_of_bounds, has_recvd_pkt, get_pkt_idx, send_ack_pkt, note_ack,
  avail_send_window_slots,
}
use stanford.Tcp.Sender.{
  rel_read, read_loop, read_round, send_new_data_pkt, send_data_pkt, add_pkt_to_send_window,
}
use stanford.Tcp.Receiver.{
  process_data_pkt, output_pkts, add_pkt_to_recv_window, output_loop, output_round, output_pkt,
  output_result, ack_outputted,
}
use stanford.Tcp.Session.{process_pkt, rel_recvpkt}
use stanford.Tcp.Transfer.{Sends, reads, Delivers, datagram, Delivers-in_order}
use stanford.Examples.Reassembly.{open_conn, open_conn-Healthy, config}

-- The sender has two bytes of input.
abbrev typing : Conn
typing = record open_conn { reads = OsRead.got (104 ∷ 105 ∷ []) ∷ [] }

abbrev sender : Rel
sender = new_rel typing unspec config

abbrev line : Packet
line = data_pkt 1 1 (104 ∷ 105 ∷ [])

abbrev sent_line : Rel
sent_line = record sender {
  c = record typing { reads = []; network = wire line ∷ [] };
  pkts_sent = line ∷ blank ∷ [];
  pkt_send_time_millis = 5 ∷ 0 ∷ [];
  last_seqno_sent = 1;
  last_pkt_sent_partial = true;
}

line_read : rel_read sender 5 ≡ some sent_line
unfolding rel_read read_loop read_round send_new_data_pkt send_data_pkt add_pkt_to_send_window
    avail_send_window_slots new_rel conn_input conn_sendpkt get_pkt_idx bytes_of seal pkt_cksum
    cksum htonl htons pkt_hton init_data_pkt
line_read = refl

abbrev receiver : Rel
receiver = new_rel open_conn (inet 1 2) config

abbrev got_line : Rel
got_line = record receiver {
  c = record open_conn {
    writes = OsWrite.blocked ∷ [];
    written = 104 ∷ [];
    outq = record { used = 0; buf = 105 ∷ [] } ∷ [];
    network = take 8 (bytes_of (seal (init_ack_pkt blank 2))) ∷ [];
  };
  pkts_recvd = pkt_ntoh (read_pkt (wire line ++ 7 ∷ [])) ∷ blank ∷ [];
  last_ackno_sent = 2;
}

line_received : rel_recvpkt receiver (read_pkt (wire line ++ 7 ∷ [])) 14 6 ≡ some got_line
unfolding rel_recvpkt process_pkt process_data_pkt pkt_out_of_bounds has_recvd_pkt output_pkts
    add_pkt_to_recv_window output_loop get_pkt_idx ack_outputted output_round output_pkt
    output_result conn_output output_bytes write_now os_write append_chunk send_ack_pkt conn_sendpkt
    conn_bufspace os_send new_rel note_ack bytes_of seal pkt_cksum cksum init_ack_pkt pkt_hton htonl
    htons init_data_pkt read_pkt get_pkt_type checksum_matches pkt_ntoh read16 read32
line_received = refl

Delivers-in_order_example : stream got_line.c ≡ 104 ∷ 105 ∷ []
unfolding os_send conn_bufspace new_rel bytes_of seal pkt_hton init_data_pkt
Delivers-in_order_example =
    Delivers-in_order typing open_conn unspec (inet 1 2) config sent_line got_line refl refl
      (omega arith) (reads 5 Sends.started line_read) refl open_conn-Healthy (omega arith)
      (datagram (wire line) (7 ∷ []) 6 Delivers.started (inl refl) (omega arith)
        (record { room = omega arith; no_wrap = omega arith }) (λ e. cc) line_received)
