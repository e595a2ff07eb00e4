-- ===== src/Tcp/Sender.antt =====
-- The sending half of cs144/tcp/reliable.c. `now` is `get_timestamp_millis()`.
pub mod Window
pub mod Flow
pub mod Apart
pub mod Chunks
pub mod Streams
pub mod Reading
pub mod Input
pub mod Sending
use stanford.Prelude.{
  ℕ, zero, suc, ◌+◌, ◌-◌, ◌%◌, Bool, true, false, Option, none, some, List, [], ◌∷◌, ◌==◌, ltb, leb,
  if◌then◌else◌, get_or, set, ◌>>=◌, take, length, ◌&&◌,
}
use stanford.Tcp.Packet.{
  Packet, blank, init_data_pkt, bytes_of, seal, pkt_ntoh, data_packet_max_payload_len,
}
use stanford.Tcp.Conn.{Conn, Ret, ret, minus_one, conn_sendpkt, conn_input}
use stanford.Tcp.State.{Rel, add32, sub32, get_pkt_idx, avail_send_window_slots}

unfoldable pub add_pkt_to_send_window : Rel → Packet → ℕ → Rel
add_pkt_to_send_window r pkt now =
    let idx = get_pkt_idx r pkt.seqno in
    record r {
      pkts_sent = set r.pkts_sent idx pkt;
      pkt_send_time_millis = set r.pkt_send_time_millis idx now;
      last_seqno_sent = if ltb r.last_seqno_sent pkt.seqno then pkt.seqno else r.last_seqno_sent;
    }

-- The packet is converted in place and back, which leaves it with its checksum.
unfoldable pub send_data_pkt : Rel → Packet → Option (Rel × Packet)
send_data_pkt r pkt = conn_sendpkt r.c (take pkt.len (bytes_of (seal pkt))) >>= λ s.
    some (record r { c = s.0 }, pkt_ntoh (seal pkt))

unfoldable pub send_new_data_pkt : Rel → List ℕ → ℕ → ℕ → Option Rel
send_new_data_pkt r buf payload_len now =
    let pkt = init_data_pkt blank r.last_ackno_sent (add32 r.last_seqno_sent 1) buf payload_len in
    send_data_pkt (add_pkt_to_send_window r pkt now) pkt >>= λ s. some s.0

-- One round of the loop of `rel_read`, after `conn_input`; `next` is the rest of the loop.
unfoldable pub read_round : Rel → Conn × Ret × List ℕ → ℕ → (Rel → Option Rel) → Option Rel
read_round r (c', minus_one, buf) now next =
    send_new_data_pkt (record r { c = c'; read_eof = true }) [] 0 now
read_round r (c', ret n, buf) now next =
    if n == 0
    then some (record r { c = c' })
    else (send_new_data_pkt (record r { c = c' }) buf n now >>= λ r'. next (
        if ltb n data_packet_max_payload_len
        then record r' { last_pkt_sent_partial = true }
        else r'))

unfoldable pub read_loop : ℕ → Rel → ℕ → Option Rel
read_loop zero r now = some r
read_loop (suc pkts_to_send) r now = conn_input r.c data_packet_max_payload_len >>= λ i.
    read_round r i now (λ r'. read_loop pkts_to_send r' now)

unfoldable pub rel_read : Rel → ℕ → Option Rel
rel_read r now =
    if r.read_eof
    then some r
    else (if r.last_pkt_sent_partial then some r else read_loop (avail_send_window_slots r) r now)

unfoldable pub process_ack_pkt : Rel → Packet → ℕ → Option Rel
process_ack_pkt r pkt now =
    if leb pkt.ackno r.last_ackno_recvd
    then some r
    else (if ltb (add32 r.last_seqno_sent 1) pkt.ackno
        then some r
        else rel_read
            (record r {
              last_pkt_sent_partial =
                  if r.last_pkt_sent_partial && pkt.ackno == add32 r.last_seqno_sent 1
                  then false
                  else r.last_pkt_sent_partial;
              last_ackno_recvd = pkt.ackno;
            })
            now)

-- `uint64_t` milliseconds, whose difference is cut to an `unsigned int`.
abbrev pub elapsed : ℕ → ℕ → ℕ
elapsed now since = (now + 18446744073709551616 - since) % 18446744073709551616 % 4294967296

unfoldable pub retransmit_pkt : Rel → ℕ → Option Rel
retransmit_pkt r now =
    if ltb r.last_seqno_sent r.last_ackno_recvd
    then some r
    else (let idx = get_pkt_idx r r.last_ackno_recvd in
        if ltb r.timeout_millis (elapsed now (get_or r.pkt_send_time_millis idx 0))
        then (send_data_pkt r (get_or r.pkts_sent idx blank) >>= λ s.
            some (record s.0 { pkts_sent = set s.0.pkts_sent idx s.1 }))
        else some r)
