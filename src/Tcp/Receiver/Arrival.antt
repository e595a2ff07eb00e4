-- ===== src/Tcp/Receiver/Arrival.antt =====
-- `output_pkts` and `process_data_pkt` of reliable.c keep the receiver in step with the peer's stream.
use native.Mathlib.Nat.{add-mod_right}
use stanford.Prelude.{
  ℕ, suc, ◌+◌, ◌-◌, ◌%◌, ◌≤◌, ◌<◌, ◌≡◌, ◌≢◌, sym, ap, ap₂, ◌∙◌, inl, inr, Bool, true, false, some,
  List, ◌++◌, arith, length, get_or, subst, All, Bool-cases, dec_lt,
}
use stanford.Tcp.Packet.{Packet, blank}
use stanford.Tcp.Conn.{OsSend, os_send}
use stanford.Tcp.Conn.Healthy.{Healthy, IsOk}
use stanford.Tcp.State.{Rel}
use stanford.Tcp.Receiver.{output_loop, output_pkts}
use stanford.Tcp.Receiver.Refuse.{Quiet}
use stanford.Tcp.Receiver.Deliver.{ahead}
use stanford.Tcp.Receiver.Rounds.{Delivered}
use stanford.Tcp.Receiver.Acked.{output_pkts-Delivered, output_pkts-none, Quiet-stream}
use stanford.Tcp.Receiver.Reassembly.{
  stretch, stretch-add, Holds, RecvInv, HasRoom, Leading, leading, flag_of, leading-payloads,
  leading-Ready,
}

pub Quiet-Healthy : (r r' : Rel) → Quiet r r' → Healthy r.c → Healthy r'.c
Quiet-Healthy r r' q h = record {
  alive = q.alive ∙ h.alive;
  is_open = q.closing ∙ h.is_open;
  no_error = q.write_err ∙ h.no_error;
  writable = subst (All IsOk) (sym q.writes) h.writable;
}

-- A slot of the window that has moved on by `k` packets.
module _ (r r' : Rel) (k : ℕ) (size : r'.window_size ≡ r.window_size)
    (acked : r'.last_ackno_sent ≡ r.last_ackno_sent + k) (pos : 1 ≤ r.last_ackno_sent) where
  ahead-moved : (i : ℕ) → ahead r' i ≡ ahead r (k + i)
  ahead-moved i = ap₂ (λ n m. n % m) (omega (arith, acked)) size

  ahead-around : (i j : ℕ) → k + i ≡ j + r.window_size → ahead r' i ≡ ahead r j
  ahead-around i j e =
      ahead-moved i
      ∙ ap (λ n. n % r.window_size)
          (let f : r.last_ackno_sent + (k + i) - 1 ≡ r.last_ackno_sent + j - 1 + r.window_size =
              omega (arith, e) in
            f)
      ∙ add-mod_right (r.last_ackno_sent + j - 1) r.window_size

  moved-Holds :
      (sent : ℕ → List ℕ) (i : ℕ)
      → i < r.window_size
      → r'.pkts_recvd ≡ r.pkts_recvd
      → ((n : ℕ) → get_or r'.has_recvd n false ≡ true → get_or r.has_recvd n false ≡ true)
      → ((j : ℕ) → j < k → get_or r'.has_recvd (ahead r j) false ≡ false)
      → RecvInv sent r
      → get_or r'.has_recvd (ahead r' i) false ≡ true
      → Holds sent (r'.last_ackno_sent + i) (get_or r'.pkts_recvd (ahead r' i) blank)
  moved-Holds sent i lt same kept gone v e = elim (dec_lt (k + i) r.window_size) [
    | no far ↦
        let f =
          sym (
            ap (λ n. get_or r'.has_recvd n false)
              (ahead-around i (k + i - r.window_size) (omega arith)))
          ∙ e in
        let g = gone (k + i - r.window_size) (omega arith) in cc
    | yes near ↦
        subst (λ n. Holds sent n (get_or r'.pkts_recvd (ahead r' i) blank))
          (let q : r.last_ackno_sent + (k + i) ≡ r'.last_ackno_sent + i = omega (arith, acked) in q)
          (subst (Holds sent (r.last_ackno_sent + (k + i)))
            (ap₂ (λ (xs : List Packet) (n : ℕ). get_or xs n blank) (sym same) (sym (ahead-moved i)))
            (v.holds (k + i) near (
              kept (ahead r (k + i))
                (ap (λ n. get_or r'.has_recvd n false) (sym (ahead-moved i)) ∙ e))))
  ]

-- The receiver has moved on from `r` to `r'`, by `k` packets, and waits for one that is not there.
pub record Advanced (sent : ℕ → List ℕ) (r r' : Rel) (k : ℕ) : Type 0 where
  pub inv : RecvInv sent r'
  pub clear : flag_of r' 0 ≡ false
  pub acked : r'.last_ackno_sent ≡ r.last_ackno_sent + k

-- The loop has stopped before a slot that is clear.
Delivered-clear :
    (sent : ℕ → List ℕ) (r r' : Rel) (v : RecvInv sent r)
    → (l : Leading (flag_of r) r.window_size)
    → (d : Delivered r 0 l.count (output_loop (suc (length r.has_recvd)) r (ahead r 0) 0))
    → r'.last_ackno_sent ≡ r.last_ackno_sent + l.count
    → Quiet d.after r'
    → flag_of r' 0 ≡ false
Delivered-clear sent r r' v l d a q =
    let size = q.size ∙ d.size in
    let at = ahead-moved r r' l.count size a v.pos (0 + 0) in
    ap₂ (λ (xs : List Bool) (n : ℕ). get_or xs n false) q.flags at
    ∙ elim (Bool-cases (get_or d.after.has_recvd (ahead r (l.count + (0 + 0))) false)) [
      | inr e ↦ e
      | inl e ↦ elim (dec_lt l.count r.window_size) [
        | yes lt ↦
            let f = d.kept (ahead r (l.count + (0 + 0))) e in
            let g =
              ap (λ n. get_or r.has_recvd (ahead r n) false)
                (let q : l.count + (0 + 0) ≡ 0 + l.count = omega arith in q)
              ∙ l.stop lt in
            cc
        | no full ↦
            let f =
              sym (
                ap (λ n. get_or d.after.has_recvd n false)
                  (sym at
                    ∙ ahead-around r r' l.count size a v.pos (0 + 0) 0 (omega (arith, l.inside))))
              ∙ e in
            let g =
              ap (λ n. get_or d.after.has_recvd (ahead r n) false)
                (let q : 0 ≡ 0 + 0 = omega arith in q)
              ∙ d.gone 0 (omega (arith, v.window)) in
            cc
      ]
    ]

Delivered-Advanced :
    (sent : ℕ → List ℕ) (r r' : Rel) (v : RecvInv sent r)
    → (l : Leading (flag_of r) r.window_size)
    → (d : Delivered r 0 l.count (output_loop (suc (length r.has_recvd)) r (ahead r 0) 0))
    → r'.last_ackno_sent ≡ r.last_ackno_sent + l.count
    → Quiet d.after r'
    → Advanced sent r r' l.count
Delivered-Advanced sent r r' v l d a q =
    let size = q.size ∙ d.size in
    let inv : RecvInv sent r' = record {
      healthy = Quiet-Healthy d.after r' q d.healthy;
      fresh = q.offset ∙ d.offset;
      window = omega (arith, size, v.window);
      flags = ap (λ (xs : List Bool). length xs) q.flags ∙ d.flags ∙ v.flags ∙ sym size;
      slots = ap (λ (xs : List Packet). length xs) (q.buffered ∙ d.buffered) ∙ v.slots ∙ sym size;
      pos = omega (arith, a, v.pos);
      no_eof = q.eof ∙ d.eof ∙ v.no_eof;
      holds = λ i lt.
          moved-Holds r r' l.count size a v.pos sent i (omega (arith, lt, size))
            (q.buffered ∙ d.buffered)
            (λ n e. d.kept n (ap (λ (xs : List Bool). get_or xs n false) (sym q.flags) ∙ e))
            (λ j jt.
              ap₂ (λ (xs : List Bool) (n : ℕ). get_or xs (ahead r n) false) q.flags (omega arith)
              ∙ d.gone j jt)
            v;
      delivered =
          Quiet-stream d.after r' q
          ∙ d.bytes
          ∙ ap₂ (λ (x y : List ℕ). x ++ y) v.delivered (leading-payloads sent r v l).0
          ∙ ap (λ n. stretch sent 1 (r.last_ackno_sent - 1) ++ stretch sent n l.count)
              (omega (arith, v.pos))
          ∙ stretch-add sent 1 (r.last_ackno_sent - 1) l.count
          ∙ ap (stretch sent 1) (omega (arith, a, v.pos));
    } in
    record { inv = inv; clear = Delivered-clear sent r r' v l d a q; acked = a }

-- Whatever is in the window, `output_pkts` returns and keeps the invariant. It moves on exactly when
-- the next packet is there.
pub output_pkts-Advanced :
    (sent : ℕ → List ℕ) (r : Rel)
    → RecvInv sent r
    → HasRoom r
    → (os_send r.c.sends).0 ≢ OsSend.failed
    → (r' : Rel) × (k : ℕ) × (output_pkts r ≡ some r')
      × Advanced sent r r' k
      × (flag_of r 0 ≡ true → 0 < k)
output_pkts-Advanced sent r v m ne =
    let l = leading (flag_of r) r.window_size in
    elim (dec_lt 0 l.count) [
      | yes some_packet ↦
          let (d, r', e, a, q) =
            output_pkts-Delivered r l.count some_packet (leading-Ready sent r v l m) ne in
          (r', l.count, e, Delivered-Advanced sent r r' v l d a q, λ _. some_packet)
      | no none_there ↦
          let clear =
            ap (flag_of r) (let e : 0 ≡ l.count = omega arith in e)
            ∙ l.stop (omega (arith, v.window)) in
          (
            r,
            0,
            output_pkts-none r v.pos (omega (arith, m.no_wrap)) clear,
            record { inv = v; clear = clear; acked = omega arith },
            λ e. cc,
          )
    ]
