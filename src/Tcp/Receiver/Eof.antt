-- ===== src/Tcp/Receiver/Eof.antt =====
-- The EOF packet. `process_data_pkt` does not compare its number with the one it waits for: it asks
-- only whether a packet beyond that one was received.
use stanford.Prelude.{
  ◌+◌, ◌≤◌, ◌<◌, ◌≡◌, ◌≢◌, refl, ◌∙◌, inl, inr, Bool, true, false, some, List, [], ◌∷◌, arith, ◌⊎◌,
  ◌||◌,
}
use stanford.Tcp.Packet.{Packet}
use stanford.Tcp.Conn.{Conn, Chunk, ret, is_nil, conn_output}
use stanford.Tcp.State.{
  Rel, add32, pkt_out_of_bounds, has_recvd_pkt, has_buffered_pkts, send_ack_pkt,
}
use stanford.Tcp.Receiver.{process_data_pkt, process_eof_pkt}
use stanford.Tcp.Receiver.Refuse.{send_ack_pkt-Quiet}

-- The connection with its output closed.
abbrev closed : Conn → Conn
closed c = record c { write_eof = true; is_shut = c.is_shut || is_nil c.outq }

conn_output-nil :
    (c : Conn)
    → c.delete_me ≡ false
    → c.write_eof ≡ false
    → conn_output c [] ≡ some (closed c, ret 0)
unfolding conn_output
conn_output-nil c d e = ground arith

-- The EOF ends the output and is acknowledged by one more than the number last acknowledged,
-- whatever its own number is.
pub process_eof_pkt_lem :
    (r : Rel) (pkt : Packet)
    → r.c.delete_me ≡ false
    → r.c.write_eof ≡ false
    → process_eof_pkt r pkt
      ≡ send_ack_pkt
          (record r { c = closed r.c; last_pkt_recvd_eof = true })
          (add32 r.last_ackno_sent 1)
unfolding process_eof_pkt
process_eof_pkt_lem r pkt d e = rw (conn_output-nil r.c d e, process_eof_pkt) refl

shuts :
    (b : Bool) (chs : List Chunk)
    → ((chs ≡ []) × ((b || is_nil chs) ≡ true)) ⊎ ((chs ≢ []) × ((b || is_nil chs) ≡ b))
shuts b [] = inl (refl, ground arith)
shuts b (ch ∷ chs) = inr (λ e. cc, ground arith)

process_data_pkt_eof :
    (r : Rel) (pkt : Packet)
    → r.last_ackno_sent ≤ pkt.seqno
    → pkt.seqno < r.last_ackno_sent + r.window_size
    → r.last_ackno_sent + r.window_size < 4294967296
    → has_recvd_pkt r pkt ≡ false
    → r.last_pkt_recvd_eof ≡ false
    → pkt.len ≡ 12
    → r.last_seqno_recvd ≤ r.last_ackno_sent
    → process_data_pkt r pkt ≡ process_eof_pkt r pkt
unfolding process_data_pkt pkt_out_of_bounds has_buffered_pkts
process_data_pkt_eof r pkt lo hi nw fresh e len above = ground arith

-- A session that waits for packet `n` and has received nothing beyond it takes an EOF numbered
-- `n + 1` for the end of the stream if its window has room for it: the output is closed to further
-- bytes, its descriptor is shut at once if nothing is queued for it and left as it is otherwise, the
-- session counts as ended, and the acknowledgement sent, if it is sent, is `n + 1`, which says that
-- packet `n` was received. The connection is not deleted and its output is open, no EOF was seen
-- before, the slot of the packet is free, and no number wraps.
pub process_data_pkt-early_eof :
    (r : Rel) (pkt : Packet)
    → r.c.delete_me ≡ false
    → r.c.write_eof ≡ false
    → r.last_pkt_recvd_eof ≡ false
    → 1 < r.window_size
    → r.last_ackno_sent + r.window_size < 4294967296
    → r.last_seqno_recvd ≤ r.last_ackno_sent
    → pkt.len ≡ 12
    → pkt.seqno ≡ r.last_ackno_sent + 1
    → has_recvd_pkt r pkt ≡ false
    → (r' : Rel) × (process_data_pkt r pkt ≡ some r')
      × (r'.last_pkt_recvd_eof ≡ true)
      × (r'.c.write_eof ≡ true)
      × (((r.c.outq ≡ []) × (r'.c.is_shut ≡ true))
          ⊎ ((r.c.outq ≢ []) × (r'.c.is_shut ≡ r.c.is_shut)))
      × (r'.c.written ≡ r.c.written)
      × (r'.c.outq ≡ r.c.outq)
      × ((r'.last_ackno_sent ≡ r.last_ackno_sent + 1) ⊎ (r'.last_ackno_sent ≡ r.last_ackno_sent))
process_data_pkt-early_eof r pkt d w e win nw above len num fresh =
    let (r', f, q, n) =
      send_ack_pkt-Quiet (record r { c = closed r.c; last_pkt_recvd_eof = true })
        (add32 r.last_ackno_sent 1) d in
    (
      r',
      process_data_pkt_eof r pkt (omega arith) (omega arith) nw fresh e len above
          ∙ process_eof_pkt_lem r pkt d w
          ∙ f,
      q.eof,
      q.closing,
      shut r' q.shut (shuts r.c.is_shut r.c.outq),
      q.written,
      q.queue,
      exact r' n,
    )
  where
    shut :
        (x : Rel)
        → x.c.is_shut ≡ (closed r.c).is_shut
        → ((r.c.outq ≡ []) × ((closed r.c).is_shut ≡ true))
          ⊎ ((r.c.outq ≢ []) × ((closed r.c).is_shut ≡ r.c.is_shut))
        → ((r.c.outq ≡ []) × (x.c.is_shut ≡ true)) ⊎ ((r.c.outq ≢ []) × (x.c.is_shut ≡ r.c.is_shut))
    shut x s (inl (nil, g)) = inl (nil, s ∙ g)
    shut x s (inr (more, g)) = inr (more, s ∙ g)

    exact :
        (x : Rel)
        → (x.last_ackno_sent ≡ add32 r.last_ackno_sent 1) ⊎ (x.last_ackno_sent ≡ r.last_ackno_sent)
        → (x.last_ackno_sent ≡ r.last_ackno_sent + 1) ⊎ (x.last_ackno_sent ≡ r.last_ackno_sent)
    exact x (inl g) = inl (omega arith)
    exact x (inr g) = inr g
