-- ===== src/Tcp/Receiver/Receives.antt =====
-- The packets that arrive at a session of reliable.c, in any order, some of them lost or repeated, and
-- the output that the local side takes in between.
use stanford.Prelude.{
  ℕ, ◌+◌, ◌-◌, ◌%◌, ◌≤◌, ◌<◌, ◌≡◌, ◌≢◌, sym, ap, ap₂, ◌∙◌, inl, inr, ◌⊎◌, Bool, true, false, some,
  List, arith, length, get_or, subst, Bool-cases,
}
use stanford.Tcp.Packet.{Packet, blank}
use stanford.Tcp.Conn.{OsSend, os_send}
use stanford.Tcp.State.{Rel, pkt_out_of_bounds, has_recvd_pkt}
use stanford.Tcp.Receiver.{add_pkt_to_recv_window, output_pkts, process_data_pkt}
use stanford.Tcp.Receiver.Refuse.{Quiet, send_ack_pkt-Quiet, refused}
use stanford.Tcp.Receiver.Deliver.{ahead}
use stanford.Tcp.Receiver.Acked.{Quiet-stream}
use stanford.Tcp.Receiver.Reassembly.{stretch, Holds, RecvInv, HasRoom, flag_of}
use stanford.Tcp.Receiver.Added.{slot_of, added-RecvInv, added_first}
use stanford.Tcp.Receiver.Arrival.{Advanced, output_pkts-Advanced, Quiet-Healthy}

pub Quiet-Advanced :
    (sent : ℕ → List ℕ) (r r' : Rel)
    → RecvInv sent r
    → flag_of r 0 ≡ false
    → Quiet r r'
    → r'.last_ackno_sent ≡ r.last_ackno_sent
    → Advanced sent r r' 0
Quiet-Advanced sent r r' v clear q a = record {
  inv = record {
    healthy = Quiet-Healthy r r' q v.healthy;
    fresh = q.offset ∙ v.fresh;
    window = omega (arith, q.size, v.window);
    flags = ap (λ (xs : List Bool). length xs) q.flags ∙ v.flags ∙ sym q.size;
    slots = ap (λ (xs : List Packet). length xs) q.buffered ∙ v.slots ∙ sym q.size;
    pos = omega (arith, a, v.pos);
    no_eof = q.eof ∙ v.no_eof;
    holds = quiet-Holds;
    delivered = Quiet-stream r r' q ∙ v.delivered ∙ ap (λ n. stretch sent 1 (n - 1)) (sym a);
  };
  clear = ap₂ (λ (xs : List Bool) (n : ℕ). get_or xs n false) q.flags (same (0 + 0)) ∙ clear;
  acked = omega (arith, a);
}
  where
    same : (i : ℕ) → ahead r' i ≡ ahead r i
    same i = ap₂ (λ n m. (n + i - 1) % m) a q.size

    quiet-Holds :
        (i : ℕ)
        → i < r'.window_size
        → get_or r'.has_recvd (ahead r' i) false ≡ true
        → Holds sent (r'.last_ackno_sent + i) (get_or r'.pkts_recvd (ahead r' i) blank)
    quiet-Holds i lt e =
        subst (λ n. Holds sent (n + i) (get_or r'.pkts_recvd (ahead r' i) blank)) (sym a)
          (subst (Holds sent (r.last_ackno_sent + i))
            (ap₂ (λ (xs : List Packet) (n : ℕ). get_or xs n blank) (sym q.buffered) (sym (same i)))
            (v.holds i (omega (arith, lt, q.size)) (
              ap₂ (λ (xs : List Bool) (n : ℕ). get_or xs n false) (sym q.flags) (sym (same i))
              ∙ e)))

pub refused-Advanced :
    (sent : ℕ → List ℕ) (r : Rel) (pkt : Packet)
    → RecvInv sent r
    → flag_of r 0 ≡ false
    → (pkt_out_of_bounds r pkt ≡ true)
      ⊎ ((has_recvd_pkt r pkt ≡ true) ⊎ (r.last_pkt_recvd_eof ≡ true))
    → (r' : Rel) × (process_data_pkt r pkt ≡ some r') × Advanced sent r r' 0
refused-Advanced sent r pkt v clear h =
    let (r', e, q, n) = send_ack_pkt-Quiet r r.last_ackno_sent v.healthy.alive in
    (r', refused r pkt h ∙ e, Quiet-Advanced sent r r' v clear q (ground (arith, n)))

module _ (sent : ℕ → List ℕ) (r : Rel) (pkt : Packet) (v : RecvInv sent r)
    (clear : flag_of r 0 ≡ false) (m : HasRoom r) (h : Holds sent pkt.seqno pkt)
    (ne : (os_send r.c.sends).0 ≢ OsSend.failed) where
  accepted :
      pkt_out_of_bounds r pkt ≡ false
      → has_recvd_pkt r pkt ≡ false
      → process_data_pkt r pkt ≡ output_pkts (add_pkt_to_recv_window r pkt)
  unfolding process_data_pkt
  accepted inside new = ground (arith, inside, new, v.no_eof, h.len, h.nonempty)

  bounds :
      pkt_out_of_bounds r pkt ≡ false
      → (r.last_ackno_sent ≤ pkt.seqno) × (pkt.seqno < r.last_ackno_sent + r.window_size)
  unfolding pkt_out_of_bounds
  bounds inside = ground (arith, inside, m.no_wrap)

  next_fits :
      pkt.seqno ≡ r.last_ackno_sent
      → (pkt_out_of_bounds r pkt ≡ false) × (has_recvd_pkt r pkt ≡ false)
  unfolding pkt_out_of_bounds has_recvd_pkt
  next_fits e = (
    ground (arith, m.no_wrap, v.window),
    ap (λ n. get_or r.has_recvd n false)
          (slot_of r pkt v.pos (omega arith) (omega (arith, v.window)) m.no_wrap
            ∙ ap (ahead r) (omega arith))
        ∙ clear,
  )

  added-HasRoom : HasRoom (add_pkt_to_recv_window r pkt)
  unfolding add_pkt_to_recv_window
  added-HasRoom = record { room = m.room; no_wrap = m.no_wrap }

  accepted-Advanced :
      pkt_out_of_bounds r pkt ≡ false
      → has_recvd_pkt r pkt ≡ false
      → (r' : Rel) × (k : ℕ) × (process_data_pkt r pkt ≡ some r')
        × Advanced sent r r' k
        × (pkt.seqno ≡ r.last_ackno_sent → 0 < k)
  unfolding add_pkt_to_recv_window
  accepted-Advanced inside new =
      let (lo, hi) = bounds inside in
      let w = added-RecvInv r pkt v.pos lo hi m.no_wrap sent v h in
      let (r', k, e, a, some_there) =
        output_pkts-Advanced sent (add_pkt_to_recv_window r pkt) w added-HasRoom ne in
      (
        r',
        k,
        accepted inside new ∙ e,
        record { inv = a.inv; clear = a.clear; acked = a.acked },
        λ q. some_there (added_first r pkt v.pos lo hi m.no_wrap sent v q),
      )

  -- The packet that the session waits for moves it on.
  pub process_data_pkt-next :
      pkt.seqno ≡ r.last_ackno_sent
      → (r' : Rel) × (k : ℕ) × (process_data_pkt r pkt ≡ some r') × Advanced sent r r' k × (0 < k)
  process_data_pkt-next e =
      let (inside, new) = next_fits e in
      let (r', k, f, a, p) = accepted-Advanced inside new in (r', k, f, a, p e)

  -- A packet of the stream, wherever its number lies.
  pub process_data_pkt-Advanced :
      (r' : Rel) × (k : ℕ) × (process_data_pkt r pkt ≡ some r') × Advanced sent r r' k
  process_data_pkt-Advanced = elim (Bool-cases (pkt_out_of_bounds r pkt)) [
    | inl out ↦ let (r', e, a) = refused-Advanced sent r pkt v clear (inl out) in (r', 0, e, a)
    | inr inside ↦ elim (Bool-cases (has_recvd_pkt r pkt)) [
      | inl old ↦
          let (r', e, a) = refused-Advanced sent r pkt v clear (inr (inl old)) in (r', 0, e, a)
      | inr new ↦ let (r', k, e, a, p) = accepted-Advanced inside new in (r', k, e, a)
    ]
  ]
