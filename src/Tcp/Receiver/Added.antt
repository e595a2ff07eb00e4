-- ===== src/Tcp/Receiver/Added.antt =====
-- A packet that `add_pkt_to_recv_window` of reliable.c puts into the receive window.
use native.Mathlib.Nat.{mod-lt}
use stanford.Prelude.{
  ℕ, ◌+◌, ◌-◌, ◌%◌, ◌≤◌, ◌<◌, ◌≡◌, ◌≢◌, sym, ap, ◌∙◌, true, false, List, arith, get_or, set, subst,
  length-set, get_or-set_self, get_or-set_ne, dec_lt, ℕ_discrete,
}
use stanford.Tcp.Packet.{Packet, blank}
use stanford.Tcp.State.{Rel, get_pkt_idx}
use stanford.Tcp.Sender.Window.{slot-ne}
use stanford.Tcp.Receiver.{add_pkt_to_recv_window}
use stanford.Tcp.Receiver.Deliver.{ahead}
use stanford.Tcp.Receiver.Reassembly.{Holds, RecvInv, flag_of}

-- A packet inside the receive window, and the slot it goes to.
module _ (r : Rel) (pkt : Packet) (pos : 1 ≤ r.last_ackno_sent)
    (above : r.last_ackno_sent ≤ pkt.seqno) (below : pkt.seqno < r.last_ackno_sent + r.window_size)
    (no_wrap : r.last_ackno_sent + r.window_size < 4294967296) where
  pub slot_of : get_pkt_idx r pkt.seqno ≡ ahead r (pkt.seqno - r.last_ackno_sent)
  unfolding get_pkt_idx
  slot_of = ap (λ n. n % r.window_size) (omega arith)

  pub slot-inside : get_pkt_idx r pkt.seqno < r.window_size
  slot-inside =
      rw slot_of (mod-lt (r.last_ackno_sent + (pkt.seqno - r.last_ackno_sent) - 1) (omega arith))

  other_slot :
      (i : ℕ)
      → i < r.window_size
      → i ≢ pkt.seqno - r.last_ackno_sent
      → get_pkt_idx r pkt.seqno ≢ ahead r i
  other_slot i lt ne e = elim (dec_lt i (pkt.seqno - r.last_ackno_sent)) [
    | yes p ↦
        slot-ne r.window_size (r.last_ackno_sent + i - 1) (pkt.seqno - 1) (omega arith)
          (omega arith) (sym e ∙ slot_of ∙ ap (λ n. n % r.window_size) (omega arith))
    | no p ↦
        slot-ne r.window_size (pkt.seqno - 1) (r.last_ackno_sent + i - 1) (omega arith)
          (omega arith) (ap (λ n. n % r.window_size) (omega arith) ∙ sym slot_of ∙ e)
  ]

  added-Holds :
      (sent : ℕ → List ℕ)
      → RecvInv sent r
      → Holds sent pkt.seqno pkt
      → (i : ℕ) → i < r.window_size
      → get_or (set r.has_recvd (get_pkt_idx r pkt.seqno) true) (ahead r i) false ≡ true
      → Holds sent
          (r.last_ackno_sent + i)
          (get_or (set r.pkts_recvd (get_pkt_idx r pkt.seqno) pkt) (ahead r i) blank)
  added-Holds sent v h i lt e = elim (ℕ_discrete i (pkt.seqno - r.last_ackno_sent)) [
    | yes same ↦
        let here : get_pkt_idx r pkt.seqno ≡ ahead r i = slot_of ∙ ap (ahead r) (sym same) in
        subst (Holds sent (r.last_ackno_sent + i))
          (sym (
              get_or-set_self r.pkts_recvd (get_pkt_idx r pkt.seqno) pkt blank
                (omega (arith, v.slots, slot-inside)))
            ∙ ap (λ n. get_or (set r.pkts_recvd (get_pkt_idx r pkt.seqno) pkt) n blank) here)
          (subst (λ n. Holds sent n pkt) (omega arith) h)
    | no other ↦
        let ne = other_slot i lt other in
        subst (Holds sent (r.last_ackno_sent + i))
          (sym (get_or-set_ne r.pkts_recvd (get_pkt_idx r pkt.seqno) (ahead r i) pkt blank ne))
          (v.holds i lt (
            sym (get_or-set_ne r.has_recvd (get_pkt_idx r pkt.seqno) (ahead r i) true false ne)
            ∙ e))
  ]

  pub added-RecvInv :
      (sent : ℕ → List ℕ)
      → RecvInv sent r
      → Holds sent pkt.seqno pkt
      → RecvInv sent (add_pkt_to_recv_window r pkt)
  unfolding add_pkt_to_recv_window
  added-RecvInv sent v h = record {
    healthy = v.healthy;
    fresh = v.fresh;
    window = v.window;
    flags = length-set r.has_recvd (get_pkt_idx r pkt.seqno) true ∙ v.flags;
    slots = length-set r.pkts_recvd (get_pkt_idx r pkt.seqno) pkt ∙ v.slots;
    pos = v.pos;
    no_eof = v.no_eof;
    holds = added-Holds sent v h;
    delivered = v.delivered;
  }

  pub added_first :
      (sent : ℕ → List ℕ)
      → RecvInv sent r
      → pkt.seqno ≡ r.last_ackno_sent
      → flag_of (add_pkt_to_recv_window r pkt) 0 ≡ true
  unfolding add_pkt_to_recv_window
  added_first sent v e =
      ap (λ n. get_or (set r.has_recvd (get_pkt_idx r pkt.seqno) true) n false)
        (ap (ahead r) (omega arith) ∙ sym slot_of)
      ∙ get_or-set_self r.has_recvd (get_pkt_idx r pkt.seqno) true false
          (omega (arith, v.flags, slot-inside))
