-- ===== src/Tcp/Receiver.antt =====
-- The receiving half of cs144/tcp/reliable.c.
pub mod Refuse
pub mod Eof
pub mod Deliver
pub mod InOrder
pub mod Rounds
pub mod Acked
pub mod Reassembly
pub mod Arrival
pub mod Added
pub mod Receives
pub mod Drained
pub mod Runs
use stanford.Prelude.{
  ℕ, zero, suc, ◌+◌, ◌-◌, ◌%◌, Bool, true, false, Option, none, some, List, [], ◌∷◌, ◌==◌, ltb, leb,
  if◌then◌else◌, get_or, set, ◌>>=◌, take, drop, length,
}
use Prim.Native.Nat.{min}
use stanford.Tcp.Packet.{Packet, blank, data_packet_header_len}
use stanford.Tcp.Conn.{Conn, Ret, ret, minus_one, conn_bufspace, conn_output, conn_drain}
use stanford.Tcp.State.{
  Rel, add32, sub32, get_pkt_idx, pkt_out_of_bounds, has_recvd_pkt, has_buffered_pkts, send_ack_pkt,
}

unfoldable pub add_pkt_to_recv_window : Rel → Packet → Rel
add_pkt_to_recv_window r pkt =
    let idx = get_pkt_idx r pkt.seqno in
    record r {
      pkts_recvd = set r.pkts_recvd idx pkt;
      has_recvd = set r.has_recvd idx true;
      last_seqno_recvd = if ltb r.last_seqno_recvd pkt.seqno then pkt.seqno else r.last_seqno_recvd;
    }

-- `return bytes_outputted` turns -1 into 65535; `assert(bytes_outputted != 0)` fails at 0.
unfoldable pub output_result : Rel → Conn × Ret → Option (Rel × ℕ)
output_result r (c', minus_one) = some (record r { c = c' }, 65535)
output_result r (c', ret n) = if n == 0 then none else some (record r { c = c' }, n % 65536)

-- With `payload_len < start` the count is a negative `double` made into a `uint16_t`, which is
-- undefined: a fault.
unfoldable pub output_pkt : Rel → Packet → ℕ → ℕ → Option (Rel × ℕ)
output_pkt r pkt start payload_len =
    let bufspace = conn_bufspace r.c % 65536 in
    if ltb payload_len start
    then none
    else (if bufspace == 0
        then some (r, 0)
        else (conn_output r.c (take (min bufspace (payload_len - start)) (drop start pkt.payload))
            >>= output_result r))

-- How the loop of `output_pkts` ends: by its test with `num_pkts`, or by a `return`.
pub data Ended : Type 0 where
  ended : ℕ → Ended
  returned : Ended

-- The `if (bytes_outputted < 0)` of the code tests a `uint16_t` and is never taken.
unfoldable pub output_round :
    Rel → ℕ → ℕ → ℕ → Rel × ℕ → (Rel → Option (Rel × Ended)) → Option (Rel × Ended)
output_round r idx payload_len num_pkts (r', bytes_outputted) next =
    let bytes_left =
      (payload_len + 131072 - bytes_outputted - r'.last_pkt_bytes_outputted) % 65536 in
    if ltb 0 bytes_left
    then some (
      record r' {
        last_pkt_bytes_outputted = (r'.last_pkt_bytes_outputted + bytes_outputted) % 65536;
      },
      returned,
    )
    else next (record r' { last_pkt_bytes_outputted = 0; has_recvd = set r'.has_recvd idx false })

-- `while (r->has_recvd_pkt[idx] == TRUE)`, with fuel.
unfoldable pub output_loop : ℕ → Rel → ℕ → ℕ → Option (Rel × Ended)
output_loop zero r idx num_pkts = some (r, ended num_pkts)
output_loop (suc fuel) r idx num_pkts = elim (get_or r.has_recvd idx false) [
  | false ↦ some (r, ended num_pkts)
  | true ↦
      let pkt = get_or r.pkts_recvd idx blank in
      let payload_len = (pkt.len + 65536 - data_packet_header_len) % 65536 in
      output_pkt r pkt r.last_pkt_bytes_outputted payload_len >>= λ o.
      output_round r idx payload_len num_pkts o (λ r'.
        output_loop fuel r' (get_pkt_idx r' (add32 r'.last_ackno_sent ((num_pkts + 1) % 65536)))
          ((num_pkts + 1) % 65536))
]

-- The acknowledgement after the loop.
unfoldable pub ack_outputted : Rel × Ended → Option Rel
ack_outputted (r, returned) = some r
ack_outputted (r, ended num_pkts) =
    if ltb 0 num_pkts then send_ack_pkt r (add32 r.last_ackno_sent num_pkts) else some r

-- A round clears a flag or is the last, so the flags and one more round are enough fuel.
unfoldable pub output_pkts : Rel → Option Rel
output_pkts r =
    output_loop (suc (length r.has_recvd)) r (get_pkt_idx r r.last_ackno_sent) 0 >>= ack_outputted

-- `rel_output`.
unfoldable pub rel_output : Rel → Option Rel
unfolding output_pkts
rel_output r = output_pkts r

unfoldable pub process_eof_pkt : Rel → Packet → Option Rel
process_eof_pkt r pkt = conn_output r.c [] >>= λ o.
    send_ack_pkt (record r { c = o.0; last_pkt_recvd_eof = true }) (add32 r.last_ackno_sent 1)

unfoldable pub process_data_pkt : Rel → Packet → Option Rel
process_data_pkt r pkt =
    if pkt_out_of_bounds r pkt
    then send_ack_pkt r r.last_ackno_sent
    else (if has_recvd_pkt r pkt
        then send_ack_pkt r r.last_ackno_sent
        else (if r.last_pkt_recvd_eof
            then send_ack_pkt r r.last_ackno_sent
            else (if pkt.len == data_packet_header_len
                then (if has_buffered_pkts r
                    then send_ack_pkt r r.last_ackno_sent
                    else process_eof_pkt r pkt)
                else output_pkts (add_pkt_to_recv_window r pkt))))

-- `conn_drain` of rlib.c with its last statement, the call of `rel_output`.
unfoldable pub drain_then_output : Rel → Option Rel
unfolding rel_output
drain_then_output r =
    let (c', didsome) = conn_drain r.c in
    if didsome then rel_output (record r { c = c' }) else some (record r { c = c' })
