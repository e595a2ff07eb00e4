-- ===== src/Examples/Reassembly.antt =====
-- A session of the transport that gets its second packet before its first.
use stanford.Prelude.{ℕ, ◌≤◌, ◌<◌, ◌≡◌, refl, true, false, some, List, [], ◌∷◌, arith}
use stanford.Tcp.Packet.{Packet, blank, bytes_of, seal, pkt_cksum, init_ack_pkt, pkt_hton}
use stanford.Wire.{cksum, htonl}
use stanford.Tcp.Conn.{
  Conn, OsWrite, os_send, conn_bufspace, conn_output, output_bytes, write_now, os_write,
  append_chunk, conn_sendpkt,
}
use stanford.Tcp.Conn.Stream.{stream}
use stanford.Tcp.Conn.Healthy.{Healthy}
use stanford.Tcp.State.{
  Rel, Config, inet, new_rel, pkt_out_of_bounds, has_recvd_pkt, get_pkt_idx, send_ack_pkt, note_ack,
}
use stanford.Tcp.Receiver.{
  process_data_pkt, output_pkts, add_pkt_to_recv_window, output_loop, output_round, output_pkt,
  output_result, ack_outputted,
}
use stanford.Tcp.Receiver.Reassembly.{Holds}
use stanford.Tcp.Receiver.Drained.{Receiving, new_rel-Receiving}
use stanford.Tcp.Receiver.Runs.{
  arrives, Reach, here, next, process_data_pkt-Receiving, Reach-in_order,
}

-- The `n`-th packet of the peer says `n` twice.
abbrev sent : ℕ → List ℕ
sent n = n ∷ n ∷ []

abbrev pub packet : ℕ → Packet
packet n = record { cksum = 0; len = 14; ackno = 1; seqno = n; payload = n ∷ n ∷ [] }

packet-Holds : (n : ℕ) → Holds sent n (packet n)
packet-Holds n = record { bytes = refl; len = refl; nonempty = omega arith; small = omega arith }

abbrev pub open_conn : Conn
open_conn = record {
  read_eof = false;
  write_eof = false;
  write_err = 0;
  xoff = false;
  delete_me = false;
  outq = [];
  reads = [];
  writes = OsWrite.wrote 1 ∷ OsWrite.blocked ∷ [];
  sends = [];
  written = [];
  is_shut = false;
  network = [];
}

pub open_conn-Healthy : Healthy open_conn
open_conn-Healthy = record {
  alive = refl;
  is_open = refl;
  no_error = refl;
  writable = (tt, (tt, tt));
}

abbrev pub config : Config
config = record { window = 2; timeout = 100 }

abbrev pub start : Rel
start = new_rel open_conn (inet 1 2) config

-- The second packet waits in the window.
abbrev second_there : Rel
second_there = record start {
  pkts_recvd = blank ∷ packet 2 ∷ [];
  has_recvd = false ∷ true ∷ [];
  last_seqno_recvd = 2;
}

-- The first packet has let both out: one byte is written, three are queued.
abbrev both_out : Rel
both_out = record second_there {
  c = record open_conn {
    writes = OsWrite.blocked ∷ [];
    written = 1 ∷ [];
    outq = record { used = 0; buf = 1 ∷ [] } ∷ record { used = 0; buf = 2 ∷ 2 ∷ [] } ∷ [];
    network = (255 ∷ 244 ∷ 0 ∷ 8 ∷ 0 ∷ 0 ∷ 0 ∷ 3 ∷ []) ∷ [];
  };
  pkts_recvd = packet 1 ∷ packet 2 ∷ [];
  has_recvd = false ∷ false ∷ [];
  last_ackno_sent = 3;
}

second_arrives : process_data_pkt start (packet 2) ≡ some second_there
unfolding process_data_pkt pkt_out_of_bounds has_recvd_pkt output_pkts add_pkt_to_recv_window
    output_loop get_pkt_idx ack_outputted new_rel
second_arrives = refl

first_arrives : process_data_pkt second_there (packet 1) ≡ some both_out
unfolding process_data_pkt pkt_out_of_bounds has_recvd_pkt output_pkts add_pkt_to_recv_window
    output_loop get_pkt_idx ack_outputted output_round output_pkt output_result conn_output
    output_bytes write_now os_write append_chunk send_ack_pkt conn_sendpkt conn_bufspace os_send
    new_rel note_ack bytes_of seal pkt_cksum cksum init_ack_pkt pkt_hton htonl
first_arrives = refl

arrivals : Reach sent start both_out
unfolding os_send conn_bufspace new_rel
arrivals =
    next
      (next here (
        arrives (packet 2) (record { room = omega arith; no_wrap = omega arith }) (packet-Holds 2)
          (λ e. cc) second_arrives))
      (arrives (packet 1) (record { room = omega arith; no_wrap = omega arith }) (packet-Holds 1)
        (λ e. cc) first_arrives)

process_data_pkt-Receiving_example :
    (r' : Rel) × (process_data_pkt start (packet 1) ≡ some r')
    × Receiving sent r'
    × (1 ≤ r'.last_ackno_sent)
    × (◌≡◌ {A = ℕ} 1 1 → 1 < r'.last_ackno_sent)
unfolding os_send conn_bufspace new_rel
process_data_pkt-Receiving_example =
    process_data_pkt-Receiving sent start (packet 1)
      (new_rel-Receiving sent open_conn (inet 1 2) config refl open_conn-Healthy (omega arith))
      (record { room = omega arith; no_wrap = omega arith }) (packet-Holds 1) (λ e. cc)

Reach-in_order_example : stream both_out.c ≡ 1 ∷ 1 ∷ 2 ∷ 2 ∷ []
unfolding new_rel
Reach-in_order_example =
    Reach-in_order sent open_conn (inet 1 2) config both_out refl open_conn-Healthy (omega arith)
      arrivals
