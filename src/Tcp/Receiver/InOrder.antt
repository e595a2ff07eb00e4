-- ===== src/Tcp/Receiver/InOrder.antt =====
-- Packets that stand in a row in the receive window of reliable.c, and what a round of the loop of
-- `output_pkts` leaves of them.
use native.Mathlib.Nat.{add-mod_right}
use stanford.Prelude.{
  ℕ, suc, ◌+◌, ◌-◌, ◌%◌, ◌≤◌, ◌<◌, ◌≡◌, ◌≢◌, refl, sym, ap, ◌∙◌, true, false, arith, length, get_or,
  set, get_or-set_self, get_or-set_ne, dec_lt, subst, length-set, length-append,
}
use stanford.Tcp.Packet.{blank}
use stanford.Tcp.Conn.{Conn, conn_bufspace}
use stanford.Tcp.Conn.Healthy.{Healthy, Fits}
use stanford.Tcp.State.{Rel}
use stanford.Tcp.Sender.Window.{slot-ne}
use stanford.Tcp.Receiver.Deliver.{ahead, body, payloads, IsWhole, cleared}

-- The packets from the `j`-th on for `k` slots are there and whole, the flag behind them is clear
-- unless they fill the window, and they fit into the free space.
pub record Ready (r : Rel) (j k : ℕ) : Type 0 where
  pub healthy : Healthy r.c
  pub fresh : r.last_pkt_bytes_outputted ≡ 0
  pub window : 0 < r.window_size
  pub flags : length r.has_recvd ≡ r.window_size
  pub pos : 1 ≤ r.last_ackno_sent
  pub no_wrap : r.last_ackno_sent + (j + k) < 4294967296
  pub few : j + k < 65536
  pub inside : k ≤ r.window_size
  pub there : (i : ℕ) → i < k → get_or r.has_recvd (ahead r (j + i)) false ≡ true
  pub whole : (i : ℕ) → i < k → IsWhole (get_or r.pkts_recvd (ahead r (j + i)) blank)
  pub stop : k < r.window_size → get_or r.has_recvd (ahead r (j + k)) false ≡ false
  pub fits : length (payloads r j k) ≤ conn_bufspace r.c

ahead-ne :
    (r : Rel) (j d : ℕ)
    → 1 ≤ r.last_ackno_sent
    → suc d < r.window_size
    → ahead r j ≢ ahead r (suc j + d)
ahead-ne r j d pos lt =
    slot-ne r.window_size (r.last_ackno_sent + j - 1) (r.last_ackno_sent + (suc j + d) - 1)
      (omega arith) (omega arith)

ahead_round :
    (r : Rel) (j k : ℕ)
    → 1 ≤ r.last_ackno_sent
    → suc k ≡ r.window_size
    → ahead r (suc j + k) ≡ ahead r j
ahead_round r j k pos e =
    ap (λ n. n % r.window_size)
      (let f : r.last_ackno_sent + (suc j + k) - 1 ≡ r.last_ackno_sent + j - 1 + r.window_size =
          omega arith in
        f)
    ∙ add-mod_right (r.last_ackno_sent + j - 1) r.window_size

pub shift : (r : Rel) (j i : ℕ) → ahead r (j + suc i) ≡ ahead r (suc j + i)
shift r j i = ap (ahead r) (omega arith)

pub here : (r : Rel) (j : ℕ) → ahead r (j + 0) ≡ ahead r j
here r j = ap (ahead r) (omega arith)

-- The flag at a slot further on is not touched by clearing slot `j`.
flag_kept :
    (r : Rel) (c' : Conn) (j i : ℕ)
    → 1 ≤ r.last_ackno_sent
    → suc i < r.window_size
    → get_or (cleared r c' (ahead r j)).has_recvd (ahead r (suc j + i)) false
      ≡ get_or r.has_recvd (ahead r (j + suc i)) false
flag_kept r c' j i pos lt =
    get_or-set_ne r.has_recvd (ahead r j) (ahead r (suc j + i)) false false (ahead-ne r j i pos lt)
    ∙ ap (λ n. get_or r.has_recvd n false) (sym (shift r j i))

stop_next :
    (r : Rel) (c' : Conn) (j k : ℕ)
    → Ready r j (suc k)
    → get_or (cleared r c' (ahead r j)).has_recvd (ahead r (suc j + k)) false ≡ false
stop_next r c' j k v = elim (dec_lt (suc k) r.window_size) [
  | yes lt ↦ flag_kept r c' j k v.pos lt ∙ v.stop lt
  | no full ↦
      ap (λ n. get_or (set r.has_recvd (ahead r j) false) n false)
        (ahead_round r j k v.pos (omega (arith, v.inside)))
      ∙ get_or-set_self r.has_recvd (ahead r j) false false (omega (arith, v.flags, v.window))
]

pub Ready-next :
    (r : Rel) (c' : Conn) (j k : ℕ)
    → Ready r j (suc k)
    → Fits r.c c' ((get_or r.pkts_recvd (ahead r j) blank).len - 12)
    → Ready (cleared r c' (ahead r j)) (suc j) k
Ready-next r c' j k v f = record {
  healthy = f.healthy;
  fresh = refl;
  window = v.window;
  flags = length-set r.has_recvd (ahead r j) false ∙ v.flags;
  pos = v.pos;
  no_wrap = omega (arith, v.no_wrap);
  few = omega (arith, v.few);
  inside = omega (arith, v.inside);
  there =
      λ i lt. flag_kept r c' j i v.pos (omega (arith, v.inside)) ∙ v.there (suc i) (omega arith);
  whole = λ i lt.
      subst (λ n. IsWhole (get_or r.pkts_recvd n blank)) (shift r j i)
        (v.whole (suc i) (omega arith));
  stop = λ lt. stop_next r c' j k v;
  fits = omega (
    arith,
    v.fits,
    f.space,
    length-append (body (get_or r.pkts_recvd (ahead r j) blank)) (payloads r (suc j) k),
    (subst (λ n. IsWhole (get_or r.pkts_recvd n blank)) (here r j) (v.whole 0 (omega arith))).full,
  );
}
