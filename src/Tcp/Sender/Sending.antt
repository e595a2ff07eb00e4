-- ===== src/Tcp/Sender/Sending.antt =====
-- `rel_read`, `process_ack_pkt` and `retransmit_pkt` of reliable.c send the local input, in order.
use stanford.Prelude.{
  ne→==, ℕ, zero, suc, ◌<◌, ◌≡◌, refl, sym, ◌∙◌, inl, inr, List, [], arith, length, get_or, set,
  Option, some, none, Bool, true, false, Leads, bind-Leads, if-Leads, if◌then◌else◌, ltb, leb,
  subst, Bool-cases, take-all, ◌==◌, ◌>>=◌,
}
use stanford.Tcp.Packet.{Packet, blank, seal, pkt_ntoh, init_data_pkt, data_packet_max_payload_len}
use stanford.Tcp.Packet.RoundTrip.{wire}
use stanford.Tcp.Conn.{Conn, Ret, ret, minus_one, OsRead, conn_input, conn_sendpkt}
use stanford.Tcp.State.{Rel, add32, get_pkt_idx, avail_send_window_slots}
use stanford.Tcp.Sender.{
  add_pkt_to_send_window, send_data_pkt, send_new_data_pkt, read_round, read_loop, rel_read,
  process_ack_pkt, retransmit_pkt, elapsed,
}
use stanford.Tcp.Sender.Chunks.{input_chunks, Entry, resealed-Entry}
use stanford.Tcp.Sender.Streams.{Streams, All-set, All-get_or, send_data_pkt-Streams}
use stanford.Tcp.Sender.Flow.{acked}
use stanford.Tcp.Sender.Reading.{send_new-Streams}
use stanford.Tcp.Sender.Input.{Input, conn_input-Input}

send_data_pkt_eof :
    (r : Rel) (pkt : Packet)
    → Leads (λ (s : Rel × Packet). s.0.read_eof ≡ r.read_eof) (send_data_pkt r pkt)
unfolding send_data_pkt
send_data_pkt_eof r pkt =
    bind-Leads (λ (s : Rel × Packet). s.0.read_eof ≡ r.read_eof) (conn_sendpkt r.c (wire pkt))
      (λ s. some (record r { c = s.0 }, pkt_ntoh (seal pkt))) (λ s e. refl)

send_new_eof :
    (r : Rel) (buf : List ℕ) (n now : ℕ)
    → Leads (λ (x : Rel). x.read_eof ≡ r.read_eof) (send_new_data_pkt r buf n now)
unfolding send_new_data_pkt add_pkt_to_send_window
send_new_eof r buf n now =
    let pkt = init_data_pkt blank r.last_ackno_sent (add32 r.last_seqno_sent 1) buf n in
    first_part (send_data_pkt (add_pkt_to_send_window r pkt now) pkt)
      (send_data_pkt_eof (add_pkt_to_send_window r pkt now) pkt)
  where
    first_part :
        (o : Option (Rel × Packet))
        → Leads (λ (s : Rel × Packet). s.0.read_eof ≡ r.read_eof) o
        → Leads (λ (x : Rel). x.read_eof ≡ r.read_eof) (o >>= λ s. some s.0)
    first_part none h = tt
    first_part (some s) h = h

==-zero : (n : ℕ) → n ≡ 0 → (n == 0) ≡ true
==-zero n e = ground (arith, e)

marked_eof :
    {a : Bool} (b : Bool) (x : Rel)
    → x.read_eof ≡ a
    → (if b then record x { last_pkt_sent_partial = true } else x).read_eof ≡ a
marked_eof true x e = e
marked_eof false x e = e

module _ (script : List OsRead) (few : length (input_chunks script) < 4294967296) where
  marked-Streams :
      (b : Bool) (x : Rel)
      → Streams script [] x
      → Streams script [] (if b then record x { last_pkt_sent_partial = true } else x)
  marked-Streams true x v = record {
    made = v.made;
    split = v.split;
    count = v.count;
    eof = v.eof;
    entries = v.entries;
    wires = v.wires;
    ackno = v.ackno;
  }
  marked-Streams false x v = v

  read_round-Streams :
      (r : Rel) (c' : Conn) (n : Ret) (buf : List ℕ) (now : ℕ) (next : Rel → Option Rel)
      → Input script r (c', n, buf)
      → r.read_eof ≡ false
      → ((x : Rel) → Streams script [] x → x.read_eof ≡ false → Leads (Streams script []) (next x))
      → Leads (Streams script []) (read_round r (c', n, buf) now next)
  unfolding read_round
  read_round-Streams r c' minus_one buf now next v open_input h =
      send_new-Streams script few (record r { c = c'; read_eof = true }) [] [] 0 now v refl refl
        (omega arith)
  read_round-Streams r c' (ret n) buf now next (inl (z, v)) open_input h = rw (==-zero n z) v
  read_round-Streams r c' (ret n) buf now next (inr (nz, l, short, v)) open_input h =
      rw (ne→== n 0 nz) (
        bind-Leads (Streams script []) (send_new_data_pkt (record r { c = c' }) buf n now) _ (λ x e.
          h _
            (marked-Streams (ltb n data_packet_max_payload_len) x (
              subst (Leads (Streams script [])) e (
                send_new-Streams script few (record r { c = c' }) buf buf n now v
                  (sym (take-all n buf (omega (arith, l)))) l short)))
            (marked_eof (ltb n data_packet_max_payload_len) x (
                subst (Leads (λ x. x.read_eof ≡ r.read_eof)) e
                  (send_new_eof (record r { c = c' }) buf n now))
              ∙ open_input)))

  -- The flag of the end of the input changes only in the last round.
  read_loop-Streams :
      (k : ℕ) (r : Rel) (now : ℕ)
      → Streams script [] r
      → r.read_eof ≡ false
      → Leads (Streams script []) (read_loop k r now)
  unfolding read_loop
  read_loop-Streams zero r now v e = v
  read_loop-Streams (suc k) r now v e =
      bind-Leads (Streams script []) (conn_input r.c data_packet_max_payload_len) _ (λ i f.
        read_round-Streams r i.0 i.1 i.2 now (λ x. read_loop k x now)
          (conn_input-Input script r i v e f) e (λ x w g. read_loop-Streams k x now w g))

  -- Local input goes out in order, one packet for each result of `read`.
  pub rel_read-Streams :
      (r : Rel) (now : ℕ) → Streams script [] r → Leads (Streams script []) (rel_read r now)
  unfolding rel_read
  rel_read-Streams r now v = elim (Bool-cases r.read_eof) [
    | inl e ↦ subst (Leads (Streams script [])) (sym (ended r now e)) v
    | inr e ↦ subst (Leads (Streams script [])) (sym (not_ended r now e)) (
        if-Leads (Streams script []) r.last_pkt_sent_partial _ _ v
          (read_loop-Streams (avail_send_window_slots r) r now v e))
  ]
    where
      ended : (r : Rel) (now : ℕ) → r.read_eof ≡ true → rel_read r now ≡ some r
      ended r now e = ground (arith, e)

      not_ended :
          (r : Rel) (now : ℕ)
          → r.read_eof ≡ false
          → rel_read r now ≡ (
              if r.last_pkt_sent_partial
              then some r
              else read_loop (avail_send_window_slots r) r now)
      not_ended r now e = ground (arith, e)

  pub process_ack_pkt-Streams :
      (r : Rel) (pkt : Packet) (now : ℕ)
      → Streams script [] r
      → Leads (Streams script []) (process_ack_pkt r pkt now)
  unfolding process_ack_pkt
  process_ack_pkt-Streams r pkt now v =
      if-Leads (Streams script []) (leb pkt.ackno r.last_ackno_recvd) _ _ v (
        if-Leads (Streams script []) (ltb (add32 r.last_seqno_sent 1) pkt.ackno) _ _ v (
          rel_read-Streams (acked r pkt) now (record {
            made = v.made;
            split = v.split;
            count = v.count;
            eof = v.eof;
            entries = v.entries;
            wires = v.wires;
            ackno = v.ackno;
          })))

  -- What is sent again is what was sent.
  pub retransmit_pkt-Streams :
      (r : Rel) (now : ℕ) → Streams script [] r → Leads (Streams script []) (retransmit_pkt r now)
  unfolding retransmit_pkt
  retransmit_pkt-Streams r now v =
      let idx = get_pkt_idx r r.last_ackno_recvd in
      let pkt = get_or r.pkts_sent idx blank in
      let entry = All-get_or (Entry script) r.pkts_sent idx blank v.entries (inl refl) in
      if-Leads (Streams script []) (ltb r.last_seqno_sent r.last_ackno_recvd) _ _ v (
        if-Leads (Streams script [])
          (ltb r.timeout_millis (elapsed now (get_or r.pkt_send_time_millis idx 0))) _ _
          (bind-Leads (Streams script []) (send_data_pkt r pkt) _ (λ s e.
            let w =
              subst (Leads (λ s. Streams script [] s.0 × (s.1 ≡ pkt_ntoh (seal pkt)))) e
                (send_data_pkt-Streams script [] r pkt v entry) in
            stored s idx w.0
              (subst (Entry script) (sym w.1) (resealed-Entry script pkt few entry))))
          v)
    where
      stored :
          (s : Rel × Packet) (idx : ℕ)
          → Streams script [] s.0
          → Entry script s.1
          → Streams script [] (record s.0 { pkts_sent = set s.0.pkts_sent idx s.1 })
      stored s idx w h = record {
        made = w.made;
        split = w.split;
        count = w.count;
        eof = w.eof;
        entries = All-set (Entry script) s.0.pkts_sent idx s.1 w.entries h;
        wires = w.wires;
        ackno = w.ackno;
      }
