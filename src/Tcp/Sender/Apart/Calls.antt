-- ===== src/Tcp/Sender/Apart/Calls.antt =====
-- `rel_read`, `process_ack_pkt` and `retransmit_pkt` of reliable.c leave the receiving half alone.
use stanford.Prelude.{
  bind-Leads, if-Leads, ℕ, zero, suc, ◌≡◌, inl, inr, Bool, true, false, Option, some, List, [],
  arith, ltb, leb, if◌then◌else◌, ◌==◌, subst, Bool-cases, ◌>>=◌, get_or, set,
}
use stanford.Tcp.Packet.{Packet, blank, init_data_pkt, data_packet_max_payload_len}
use stanford.Tcp.Conn.{Conn, Ret, ret, minus_one, conn_input}
use stanford.Tcp.State.{Rel, add32, get_pkt_idx, avail_send_window_slots}
use stanford.Tcp.Sender.{
  add_pkt_to_send_window, send_data_pkt, send_new_data_pkt, read_round, read_loop, rel_read,
  process_ack_pkt, retransmit_pkt, elapsed,
}
use stanford.Tcp.Sender.Flow.{acked}
use stanford.Tcp.Sender.Apart.{
  Still, SameOutput, Stays, Still-refl, Still-trans, Stays-trans, conn_input-SameOutput,
  with_conn-Still, send_data_pkt-Still,
}

send_new_data_pkt-Stays :
    (r : Rel) (buf : List ℕ) (n now : ℕ) → Stays r (send_new_data_pkt r buf n now)
unfolding send_new_data_pkt add_pkt_to_send_window
send_new_data_pkt-Stays r buf n now =
    let pkt = init_data_pkt blank r.last_ackno_sent (add32 r.last_seqno_sent 1) buf n in
    let r' = add_pkt_to_send_window r pkt now in
    bind-Leads (Still r) (send_data_pkt r' pkt) (λ s. some s.0)
      (λ s e.
        Still-trans r r' s.0
          (with_conn-Still r r.c r'.pkts_sent r'.pkt_send_time_millis r'.last_seqno_sent r.read_eof
            r.last_pkt_sent_partial (ground arith))
          (send_data_pkt-Still r' pkt s e))

read_round-Stays :
    (r : Rel) (c' : Conn) (n : Ret) (buf : List ℕ) (now : ℕ) (next : Rel → Option Rel)
    → SameOutput r.c c'
    → ((x : Rel) → Stays x (next x))
    → Stays r (read_round r (c', n, buf) now next)
unfolding read_round
read_round-Stays r c' minus_one buf now next s h =
    let st =
      with_conn-Still r c' r.pkts_sent r.pkt_send_time_millis r.last_seqno_sent true
        r.last_pkt_sent_partial s in
    let r' : Rel = record r { c = c'; read_eof = true } in
    Stays-trans r r' (send_new_data_pkt r' [] 0 now) st (send_new_data_pkt-Stays r' [] 0 now)
read_round-Stays r c' (ret n) buf now next s h =
    let st =
      with_conn-Still r c' r.pkts_sent r.pkt_send_time_millis r.last_seqno_sent r.read_eof
        r.last_pkt_sent_partial s in
    let r' : Rel = record r { c = c' } in
    elim (Bool-cases (n == 0)) [
      | inl e ↦ rw e st
      | inr e ↦ rw e (
          Stays-trans r r' _ st (
            bind-Leads (Still r') (send_new_data_pkt r' buf n now) _ (λ x f.
              marked x (send_new_data_pkt-Stays r' buf n now) f
                (ltb n data_packet_max_payload_len))))
    ]
  where
    marked :
        (x : Rel)
        → Stays (record r { c = c' }) (send_new_data_pkt (record r { c = c' }) buf n now)
        → send_new_data_pkt (record r { c = c' }) buf n now ≡ some x
        → (b : Bool)
        → Stays
            (record r { c = c' })
            (next (if b then record x { last_pkt_sent_partial = true } else x))
    marked x st f true =
        Stays-trans (record r { c = c' }) (record x { last_pkt_sent_partial = true }) _
          (Still-trans (record r { c = c' }) x (record x { last_pkt_sent_partial = true })
            (subst (Stays (record r { c = c' })) f st)
            (with_conn-Still x x.c x.pkts_sent x.pkt_send_time_millis x.last_seqno_sent x.read_eof
              true (ground arith)))
          (h (record x { last_pkt_sent_partial = true }))
    marked x st f false =
        Stays-trans (record r { c = c' }) x _ (subst (Stays (record r { c = c' })) f st) (h x)

read_loop-Stays : (k : ℕ) (r : Rel) (now : ℕ) → Stays r (read_loop k r now)
unfolding read_loop
read_loop-Stays zero r now = Still-refl r
read_loop-Stays (suc k) r now =
    bind-Leads (Still r) (conn_input r.c data_packet_max_payload_len) _ (λ i e.
      read_round-Stays r i.0 i.1 i.2 now (λ r'. read_loop k r' now)
        (conn_input-SameOutput r.c data_packet_max_payload_len i e) (λ x. read_loop-Stays k x now))

-- Reading local input and sending it, if it returns, leaves the receiving half as it was.
pub rel_read-Stays : (r : Rel) (now : ℕ) → Stays r (rel_read r now)
unfolding rel_read
rel_read-Stays r now = if-Leads (Still r) r.read_eof _ _ (Still-refl r) (
    if-Leads (Still r) r.last_pkt_sent_partial _ _ (Still-refl r)
      (read_loop-Stays (avail_send_window_slots r) r now))

-- So does an acknowledgement,
pub process_ack_pkt-Stays : (r : Rel) (pkt : Packet) (now : ℕ) → Stays r (process_ack_pkt r pkt now)
unfolding process_ack_pkt
process_ack_pkt-Stays r pkt now =
    let r' : Rel = acked r pkt in
    let st =
      with_conn-Still r r.c r.pkts_sent r.pkt_send_time_millis r.last_seqno_sent r.read_eof
        r'.last_pkt_sent_partial (ground arith) in
    let again : Stays r (rel_read r' now) =
      Stays-trans r r' _ (ground (arith, st)) (rel_read-Stays r' now) in
    if-Leads (Still r) (leb pkt.ackno r.last_ackno_recvd) _ _ (Still-refl r)
      (if-Leads (Still r) (ltb (add32 r.last_seqno_sent 1) pkt.ackno) _ _ (Still-refl r) again)

-- and a packet that is sent again.
pub retransmit_pkt-Stays : (r : Rel) (now : ℕ) → Stays r (retransmit_pkt r now)
unfolding retransmit_pkt
retransmit_pkt-Stays r now =
    let idx = get_pkt_idx r r.last_ackno_recvd in
    let pkt = get_or r.pkts_sent idx blank in
    let again : Stays r
        (send_data_pkt r pkt >>= λ s. some (record s.0 { pkts_sent = set s.0.pkts_sent idx s.1 })) =
      bind-Leads (Still r) (send_data_pkt r pkt) _ (λ s e.
        Still-trans r s.0 (record s.0 { pkts_sent = set s.0.pkts_sent idx s.1 })
          (send_data_pkt-Still r pkt s e)
          (with_conn-Still s.0 s.0.c (set s.0.pkts_sent idx s.1) s.0.pkt_send_time_millis
            s.0.last_seqno_sent s.0.read_eof s.0.last_pkt_sent_partial (ground arith))) in
    if-Leads (Still r) (ltb r.last_seqno_sent r.last_ackno_recvd) _ _ (Still-refl r) (
      if-Leads (Still r) (ltb r.timeout_millis (elapsed now (get_or r.pkt_send_time_millis idx 0)))
        _ _ again (Still-refl r))
