-- ===== src/Tcp/Receiver/Rounds.antt =====
-- The loop of `output_pkts` of reliable.c over packets that stand in a row.
use mathlib.Core.List.{append_assoc, append-nil}
use stanford.Prelude.{
  ℕ, zero, suc, ◌+◌, ◌<◌, ◌≡◌, refl, sym, ap, ◌∙◌, inl, inr, Bool, true, false, Option, some, List,
  [], ◌∷◌, ◌++◌, arith, length, get_or, set, subst, length-set, length-append, Bool-cases,
}
use stanford.Tcp.Packet.{blank}
use stanford.Tcp.Conn.{Conn}
use stanford.Tcp.Conn.Stream.{stream}
use stanford.Tcp.Conn.Healthy.{Healthy}
use stanford.Tcp.State.{Rel}
use stanford.Tcp.Receiver.{output_loop, Ended, ended}
use stanford.Tcp.Receiver.Deliver.{ahead, body, payloads, IsWhole, cleared, output_loop_step}
use stanford.Tcp.Receiver.InOrder.{Ready, Ready-next, shift, here}

-- What the loop has done when it stops after `k` packets, started at the `j`-th.
pub record Delivered (r : Rel) (j k : ℕ) (o : Option (Rel × Ended)) : Type 0 where
  pub after : Rel
  pub result : o ≡ some (after, ended (j + k))
  pub bytes : stream after.c ≡ stream r.c ++ payloads r j k
  pub alive : after.c.delete_me ≡ false
  pub acked : after.last_ackno_sent ≡ r.last_ackno_sent
  pub sends : after.c.sends ≡ r.c.sends
  pub offset : after.last_pkt_bytes_outputted ≡ 0
  pub healthy : Healthy after.c
  pub size : after.window_size ≡ r.window_size
  pub buffered : after.pkts_recvd ≡ r.pkts_recvd
  pub flags : length after.has_recvd ≡ length r.has_recvd
  pub eof : after.last_pkt_recvd_eof ≡ r.last_pkt_recvd_eof
  pub kept : (n : ℕ) → get_or after.has_recvd n false ≡ true → get_or r.has_recvd n false ≡ true
  pub gone : (i : ℕ) → i < k → get_or after.has_recvd (ahead r (j + i)) false ≡ false

output_loop_clear :
    (fuel : ℕ) (r : Rel) (idx j : ℕ)
    → get_or r.has_recvd idx false ≡ false
    → output_loop (suc fuel) r idx j ≡ some (r, ended j)
unfolding output_loop
output_loop_clear fuel r idx j e = ground (arith, e)

Delivered-zero :
    (fuel : ℕ) (r : Rel) (j : ℕ)
    → Ready r j 0
    → Delivered r j 0 (output_loop (suc fuel) r (ahead r j) j)
Delivered-zero fuel r j v = record {
  after = r;
  result =
      output_loop_clear fuel r (ahead r j) j
        (ap (λ n. get_or r.has_recvd n false) (sym (here r j)) ∙ v.stop v.window)
      ∙ ap (λ n. some (r, ended n)) (let e : j ≡ j + 0 = omega arith in e);
  bytes = sym (append-nil (stream r.c));
  alive = v.healthy.alive;
  acked = refl;
  sends = refl;
  offset = v.fresh;
  healthy = v.healthy;
  size = refl;
  buffered = refl;
  flags = refl;
  eof = refl;
  kept = λ n e. e;
  gone = λ i lt. absurd (omega arith);
}

get_or-set_kept :
    (xs : List Bool) (i n : ℕ) → get_or (set xs i false) n false ≡ true → get_or xs n false ≡ true
get_or-set_kept [] i n e = e
get_or-set_kept (x ∷ xs) zero zero e = cc
get_or-set_kept (x ∷ xs) zero (suc n) e = e
get_or-set_kept (x ∷ xs) (suc i) zero e = e
get_or-set_kept (x ∷ xs) (suc i) (suc n) e = get_or-set_kept xs i n e

get_or-set_gone : (xs : List Bool) (i : ℕ) → get_or (set xs i false) i false ≡ false
get_or-set_gone [] i = refl
get_or-set_gone (x ∷ xs) zero = refl
get_or-set_gone (x ∷ xs) (suc i) = get_or-set_gone xs i

-- The slots cleared by this round and by the later ones.
gone_next :
    (r : Rel) (c' : Conn) (j k i : ℕ) (o : Option (Rel × Ended))
    → (d : Delivered (cleared r c' (ahead r j)) (suc j) k o) → i < suc k
    → get_or d.after.has_recvd (ahead r (j + i)) false ≡ false
gone_next r c' j k zero o d lt =
    elim (Bool-cases (get_or d.after.has_recvd (ahead r (j + 0)) false)) [
      | inr e ↦ e
      | inl e ↦
          let f = d.kept (ahead r (j + 0)) e in
          let g =
            ap (λ n. get_or (set r.has_recvd (ahead r j) false) n false) (here r j)
            ∙ get_or-set_gone r.has_recvd (ahead r j) in
          cc
    ]
gone_next r c' j k (suc i) o d lt =
    ap (λ n. get_or d.after.has_recvd n false) (shift r j i) ∙ d.gone i (omega arith)

Delivered-suc :
    (r : Rel) (c' : Conn) (j k : ℕ) (o o' : Option (Rel × Ended))
    → o ≡ o'
    → stream c' ≡ stream r.c ++ body (get_or r.pkts_recvd (ahead r j) blank)
    → c'.sends ≡ r.c.sends
    → Delivered (cleared r c' (ahead r j)) (suc j) k o'
    → Delivered r j (suc k) o
Delivered-suc r c' j k o o' e s m d = record {
  after = d.after;
  result =
      e
      ∙ d.result
      ∙ ap (λ n. some (d.after, ended n)) (let q : suc j + k ≡ j + suc k = omega arith in q);
  bytes =
      d.bytes
      ∙ ap (λ (b : List ℕ). b ++ payloads r (suc j) k) s
      ∙ append_assoc (stream r.c) (body (get_or r.pkts_recvd (ahead r j) blank))
          (payloads r (suc j) k);
  alive = d.alive;
  acked = d.acked;
  sends = d.sends ∙ m;
  offset = d.offset;
  healthy = d.healthy;
  size = d.size;
  buffered = d.buffered;
  flags = d.flags ∙ length-set r.has_recvd (ahead r j) false;
  eof = d.eof;
  kept = λ n f. get_or-set_kept r.has_recvd (ahead r j) n (d.kept n f);
  gone = λ i lt. gone_next r c' j k i o' d lt;
}

pub output_loop-Delivered :
    (k fuel : ℕ) (r : Rel) (j : ℕ)
    → k < fuel
    → Ready r j k
    → Delivered r j k (output_loop fuel r (ahead r j) j)
output_loop-Delivered k zero r j lt v = absurd (omega arith)
output_loop-Delivered zero (suc fuel) r j lt v = Delivered-zero fuel r j v
output_loop-Delivered (suc k) (suc fuel) r j lt v =
    let at = here r j in
    let whole = subst (λ n. IsWhole (get_or r.pkts_recvd n blank)) at (v.whole 0 (omega arith)) in
    let flag = ap (λ n. get_or r.has_recvd n false) (sym at) ∙ v.there 0 (omega arith) in
    let (c', e, s, f) =
      output_loop_step fuel r j v.healthy v.fresh flag whole
        (omega (
          arith,
          v.fits,
          whole.full,
          length-append (body (get_or r.pkts_recvd (ahead r j) blank)) (payloads r (suc j) k),
        ))
        v.pos (omega (arith, v.no_wrap)) (omega (arith, v.few)) in
    Delivered-suc r c' j k _ _ e s f.sends (
      output_loop-Delivered k fuel (cleared r c' (ahead r j)) (suc j) (omega arith)
        (Ready-next r c' j k v f))
