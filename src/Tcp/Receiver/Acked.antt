-- ===== src/Tcp/Receiver/Acked.antt =====
-- `output_pkts` of reliable.c as a whole: what it delivers and what it acknowledges.
use stanford.Prelude.{
  ℕ, suc, ◌+◌, ◌%◌, ◌≤◌, ◌<◌, ◌≡◌, ◌≢◌, refl, sym, ap, ap₂, ◌∙◌, false, some, List, ◌++◌, arith,
  length, take, get_or, false,
}
use stanford.Tcp.Packet.{blank, init_ack_pkt, bytes_of, seal, ack_packet_len}
use stanford.Tcp.Conn.{OsSend, Chunk, os_send, send_wire, conn_sendpkt}
use stanford.Tcp.Conn.Stream.{stream, pending}
use stanford.Tcp.State.{Rel, add32, get_pkt_idx, note_ack, send_ack_pkt}
use stanford.Tcp.Receiver.{output_loop, output_pkts, ack_outputted, ended}
use stanford.Tcp.Receiver.Refuse.{Quiet, note_ack-Quiet}
use stanford.Tcp.Receiver.Deliver.{ahead, payloads}
use stanford.Tcp.Receiver.InOrder.{Ready}
use stanford.Tcp.Receiver.Rounds.{Delivered, output_loop-Delivered}

abbrev ack_wire : ℕ → List ℕ
ack_wire ackno = take ack_packet_len (bytes_of (seal (init_ack_pkt blank ackno)))

length-ack_wire : (ackno : ℕ) → length (ack_wire ackno) ≡ 8
unfolding bytes_of
length-ack_wire ackno = refl

note_ack-sent :
    (r : Rel) (ackno : ℕ) (wire : List ℕ) (w : OsSend) (ss : List OsSend)
    → length wire ≡ 8
    → w ≢ OsSend.failed
    → (note_ack r ackno (send_wire r.c wire (w, ss))).last_ackno_sent ≡ ackno
unfolding note_ack send_wire
note_ack-sent r ackno wire OsSend.sent ss e ne = ground (arith, e)
note_ack-sent r ackno wire OsSend.dropped ss e ne = ground (arith, e)
note_ack-sent r ackno wire OsSend.failed ss e ne = absurd (ne refl)

-- An acknowledgement that the network takes, or drops, is what the session remembers.
pub send_ack_pkt-sent :
    (r : Rel) (ackno : ℕ)
    → r.c.delete_me ≡ false
    → (os_send r.c.sends).0 ≢ OsSend.failed
    → (r' : Rel) × (send_ack_pkt r ackno ≡ some r') × (r'.last_ackno_sent ≡ ackno) × Quiet r r'
unfolding send_ack_pkt conn_sendpkt
send_ack_pkt-sent r ackno al ne =
    let w = os_send r.c.sends in
    (
      note_ack r ackno (send_wire r.c (ack_wire ackno) w),
      ground (arith, al),
      note_ack-sent r ackno (ack_wire ackno) w.0 w.1 (length-ack_wire ackno) ne,
      (note_ack-Quiet r ackno (ack_wire ackno) w).0,
    )

pub Quiet-stream : (r r' : Rel) → Quiet r r' → stream r'.c ≡ stream r.c
Quiet-stream r r' q = ap₂ (λ (w : List ℕ) (b : List Chunk). w ++ pending b) q.written q.queue

first_slot :
    (r : Rel)
    → 1 ≤ r.last_ackno_sent
    → r.last_ackno_sent < 4294967296
    → get_pkt_idx r r.last_ackno_sent ≡ ahead r 0
unfolding get_pkt_idx
first_slot r pos lt = ap (λ n. n % r.window_size) (omega arith)

output_pkts_ends :
    (r r' : Rel) (n : ℕ)
    → output_loop (suc (length r.has_recvd)) r (get_pkt_idx r r.last_ackno_sent) 0
      ≡ some (r', ended n)
    → 0 < n
    → output_pkts r ≡ send_ack_pkt r' (add32 r'.last_ackno_sent n)
unfolding output_pkts ack_outputted
output_pkts_ends r r' n e pos = ground (arith, e, pos)

-- Nothing is output, and nothing acknowledged, while the next packet is missing.
pub output_pkts-none :
    (r : Rel)
    → 1 ≤ r.last_ackno_sent
    → r.last_ackno_sent < 4294967296
    → get_or r.has_recvd (ahead r (0 + 0)) false ≡ false
    → output_pkts r ≡ some r
unfolding output_pkts output_loop ack_outputted
output_pkts-none r pos lt e = ground (arith, e, first_slot r pos lt)

-- The loop, and the acknowledgement of what it output.
pub output_pkts-Delivered :
    (r : Rel) (k : ℕ)
    → 0 < k
    → Ready r 0 k
    → (os_send r.c.sends).0 ≢ OsSend.failed
    → (d : Delivered r 0 k (output_loop (suc (length r.has_recvd)) r (ahead r 0) 0)) × (r' : Rel)
      × (output_pkts r ≡ some r')
      × (r'.last_ackno_sent ≡ r.last_ackno_sent + k)
      × Quiet d.after r'
output_pkts-Delivered r k some_packet v ne =
    let d =
      output_loop-Delivered k (suc (length r.has_recvd)) r 0 (omega (arith, v.flags, v.inside)) v in
    let (r', e, a, q) =
      send_ack_pkt-sent d.after (add32 d.after.last_ackno_sent (0 + k)) d.alive
        (λ q. ne (ap (λ l. (os_send l).0) (sym d.sends) ∙ q)) in
    (
      d,
      r',
      output_pkts_ends r d.after (0 + k)
            (ap (λ n. output_loop (suc (length r.has_recvd)) r n 0)
                (first_slot r v.pos (omega (arith, v.no_wrap)))
              ∙ d.result)
            (omega arith)
          ∙ e,
      omega (arith, a, d.acked, v.no_wrap),
      q,
    )

-- If the next `k` packets are in the receive window, at least one, each whole and with some payload,
-- the one behind them is not, they fit into the free output space, output does not fail and the
-- network takes the acknowledgement, then `output_pkts` returns, the local byte stream grows by just
-- their payloads in order, and the number acknowledged grows by `k`.
pub output_pkts-in_order :
    (r : Rel) (k : ℕ)
    → 0 < k
    → Ready r 0 k
    → (os_send r.c.sends).0 ≢ OsSend.failed
    → (r' : Rel) × (output_pkts r ≡ some r')
      × (stream r'.c ≡ stream r.c ++ payloads r 0 k)
      × (r'.last_ackno_sent ≡ r.last_ackno_sent + k)
output_pkts-in_order r k some_packet v ne =
    let (d, r', e, a, q) = output_pkts-Delivered r k some_packet v ne in
    (r', e, Quiet-stream d.after r' q ∙ d.bytes, a)
