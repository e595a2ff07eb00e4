-- ===== src/Tcp/Receiver/Refuse.antt =====
-- The packets that `process_data_pkt` of reliable.c refuses: it acknowledges again what it
-- acknowledged before and delivers nothing.
use stanford.Prelude.{
  ℕ, ◌≤◌, ◌<◌, ◌+◌, ◌-◌, ◌%◌, get_or, ◌≡◌, ◌∙◌, ap, inl, inr, true, false, some, List, arith, ◌⊎◌,
  take,
}
use stanford.Tcp.Packet.{Packet, blank, init_ack_pkt, bytes_of, seal, ack_packet_len}
use stanford.Tcp.Conn.{OsSend, conn_sendpkt, send_wire, os_send}
use stanford.Tcp.State.{Rel, pkt_out_of_bounds, has_recvd_pkt, get_pkt_idx, note_ack, send_ack_pkt}
use stanford.Tcp.Receiver.{process_data_pkt}

-- Neither the delivered bytes, nor the state of the output, nor the receive window have changed.
pub record Quiet (r r' : Rel) : Type 0 where
  pub written : r'.c.written ≡ r.c.written
  pub queue : r'.c.outq ≡ r.c.outq
  pub buffered : r'.pkts_recvd ≡ r.pkts_recvd
  pub flags : r'.has_recvd ≡ r.has_recvd
  pub highest : r'.last_seqno_recvd ≡ r.last_seqno_recvd
  pub offset : r'.last_pkt_bytes_outputted ≡ r.last_pkt_bytes_outputted
  pub eof : r'.last_pkt_recvd_eof ≡ r.last_pkt_recvd_eof
  pub size : r'.window_size ≡ r.window_size
  pub alive : r'.c.delete_me ≡ r.c.delete_me
  pub closing : r'.c.write_eof ≡ r.c.write_eof
  pub shut : r'.c.is_shut ≡ r.c.is_shut
  pub write_err : r'.c.write_err ≡ r.c.write_err
  pub writes : r'.c.writes ≡ r.c.writes

pub note_ack-Quiet :
    (r : Rel) (ackno : ℕ) (wire : List ℕ) (w : OsSend × List OsSend)
    → let r' = note_ack r ackno (send_wire r.c wire w) in
      Quiet r r' × ((r'.last_ackno_sent ≡ ackno) ⊎ (r'.last_ackno_sent ≡ r.last_ackno_sent))
unfolding note_ack send_wire
note_ack-Quiet r ackno wire (OsSend.sent, ss) = ground arith
note_ack-Quiet r ackno wire (OsSend.dropped, ss) = ground arith
note_ack-Quiet r ackno wire (OsSend.failed, ss) = ground arith

-- Sending an acknowledgement returns, and changes at most the number that was acknowledged.
pub send_ack_pkt-Quiet :
    (r : Rel) (ackno : ℕ)
    → r.c.delete_me ≡ false
    → (r' : Rel) × (send_ack_pkt r ackno ≡ some r')
      × Quiet r r'
      × ((r'.last_ackno_sent ≡ ackno) ⊎ (r'.last_ackno_sent ≡ r.last_ackno_sent))
unfolding send_ack_pkt conn_sendpkt
send_ack_pkt-Quiet r ackno al =
    let wire = take ack_packet_len (bytes_of (seal (init_ack_pkt blank ackno))) in
    let (q, n) = note_ack-Quiet r ackno wire (os_send r.c.sends) in
    (note_ack r ackno (send_wire r.c wire (os_send r.c.sends)), ground (arith, al), q, n)

pub refused :
    (r : Rel) (pkt : Packet)
    → (pkt_out_of_bounds r pkt ≡ true)
      ⊎ ((has_recvd_pkt r pkt ≡ true) ⊎ (r.last_pkt_recvd_eof ≡ true))
    → process_data_pkt r pkt ≡ send_ack_pkt r r.last_ackno_sent
unfolding process_data_pkt
refused r pkt h = ground arith

-- Why a session takes no data packet with a number: it lies below the number that was last
-- acknowledged, or a window's size or more beyond it; its place in the window is taken; or the EOF
-- was seen.
pub data Unwanted (r : Rel) (seqno : ℕ) : Type 0 where
  old : seqno < r.last_ackno_sent → Unwanted r seqno
  far : r.last_ackno_sent + r.window_size ≤ seqno → Unwanted r seqno
  taken : get_or r.has_recvd ((seqno - 1) % r.window_size) false ≡ true → Unwanted r seqno
  over : r.last_pkt_recvd_eof ≡ true → Unwanted r seqno

Unwanted-refused :
    (r : Rel) (pkt : Packet)
    → 1 ≤ pkt.seqno
    → pkt.seqno < 4294967296
    → r.last_ackno_sent + r.window_size < 4294967296
    → Unwanted r pkt.seqno
    → (pkt_out_of_bounds r pkt ≡ true)
      ⊎ ((has_recvd_pkt r pkt ≡ true) ⊎ (r.last_pkt_recvd_eof ≡ true))
unfolding pkt_out_of_bounds has_recvd_pkt get_pkt_idx
Unwanted-refused r pkt pos low nw (old h) = inl (ground (arith, h))
Unwanted-refused r pkt pos low nw (far h) = inl (ground (arith, h, nw))
Unwanted-refused r pkt pos low nw (taken h) =
    let idx : (pkt.seqno + 4294967296 - 1) % 4294967296 ≡ pkt.seqno - 1 = omega (arith, pos, low) in
    inr (inl (ap (λ k. get_or r.has_recvd (k % r.window_size) false) idx ∙ h))
Unwanted-refused r pkt pos low nw (over h) = inr (inr h)

-- A data packet whose number lies outside the receive window or whose slot is taken, and any data
-- packet after the EOF: on a connection that is not deleted, `process_data_pkt` returns, delivers no
-- byte, and leaves the receive window as it was, and the acknowledged number too. The number of the
-- packet is positive, and no number wraps.
pub process_data_pkt-refused :
    (r : Rel) (pkt : Packet)
    → r.c.delete_me ≡ false
    → 1 ≤ pkt.seqno
    → pkt.seqno < 4294967296
    → r.last_ackno_sent + r.window_size < 4294967296
    → Unwanted r pkt.seqno
    → (r' : Rel) × (process_data_pkt r pkt ≡ some r')
      × Quiet r r'
      × (r'.last_ackno_sent ≡ r.last_ackno_sent)
process_data_pkt-refused r pkt al pos low nw h =
    let (r', e, q, n) = send_ack_pkt-Quiet r r.last_ackno_sent al in
    (r', refused r pkt (Unwanted-refused r pkt pos low nw h) ∙ e, q, same r' n)
  where
    same :
        (x : Rel)
        → (x.last_ackno_sent ≡ r.last_ackno_sent) ⊎ (x.last_ackno_sent ≡ r.last_ackno_sent)
        → x.last_ackno_sent ≡ r.last_ackno_sent
    same x (inl e) = e
    same x (inr e) = e
