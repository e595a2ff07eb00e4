-- ===== src/Tcp/Receiver/Deliver.antt =====
-- What `output_pkts` of reliable.c delivers: the packets that it has in a row, each once and in order.
use Prim.Native.Nat.{min}
use stanford.Prelude.{
  ℕ, zero, suc, ◌+◌, ◌-◌, ◌%◌, ◌≤◌, ◌<◌, ◌≡◌, ap, ap₂, ◌∙◌, true, false, Option, some, List, [],
  ◌++◌, arith, length, take, get_or, set, subst,
}
use stanford.Tcp.Packet.{Packet, blank}
use stanford.Tcp.Conn.{Conn, conn_bufspace}
use stanford.Tcp.Conn.Stream.{stream}
use stanford.Tcp.Conn.Healthy.{Healthy, Fits, conn_output-Fits, conn_bufspace-le}
use stanford.Tcp.State.{Rel, add32, get_pkt_idx}
use stanford.Tcp.Receiver.{output_result, output_pkt, output_round, output_loop, Ended}

-- The slot of the `j`-th packet from the one that the session waits for.
abbrev pub ahead : Rel → ℕ → ℕ
ahead r j = (r.last_ackno_sent + j - 1) % r.window_size

abbrev pub body : Packet → List ℕ
body pkt = take (pkt.len - 12) pkt.payload

-- The payloads of the `k` packets in the slots from the `j`-th on.
abbrev pub payloads : Rel → ℕ → ℕ → List ℕ
payloads r j zero = []
payloads r j (suc k) = body (get_or r.pkts_recvd (ahead r j) blank) ++ payloads r (suc j) k

-- A packet with some payload, all of it in the buffer.
pub record IsWhole (pkt : Packet) : Type 0 where
  pub nonempty : 12 < pkt.len
  pub small : pkt.len ≤ 512
  pub full : length (body pkt) ≡ pkt.len - 12

-- A whole packet that fits is output in one piece.
output_pkt-whole :
    (r : Rel) (pkt : Packet)
    → Healthy r.c
    → IsWhole pkt
    → pkt.len - 12 ≤ conn_bufspace r.c
    → (c' : Conn) × (output_pkt r pkt 0 (pkt.len - 12) ≡ some (record r { c = c' }, pkt.len - 12))
      × (stream c' ≡ stream r.c ++ body pkt)
      × Fits r.c c' (pkt.len - 12)
unfolding output_pkt output_result
output_pkt-whole r pkt h w fits =
    let (c', e, s, f) =
      conn_output-Fits r.c (body pkt) h (omega (arith, w.full, w.nonempty))
        (omega (arith, w.full)) in
    let count : min (conn_bufspace r.c % 65536) (pkt.len - 12 - 0) ≡ pkt.len - 12 =
      omega (arith, conn_bufspace-le r.c) in
    (
      c',
      ground (arith, e, count, w.full, w.nonempty, w.small, conn_bufspace-le r.c),
      s,
      subst (Fits r.c c') w.full f,
    )

-- What a round of the loop has done to the session when it goes on.
abbrev pub cleared : Rel → Conn → ℕ → Rel
cleared r c' idx = record r {
  c = c';
  last_pkt_bytes_outputted = 0;
  has_recvd = set r.has_recvd idx false;
}

output_round-whole :
    (r : Rel) (c' : Conn) (idx n num_pkts : ℕ) (next : Rel → Option (Rel × Ended))
    → r.last_pkt_bytes_outputted ≡ 0
    → n < 65536
    → output_round r idx n num_pkts (record r { c = c' }, n) next ≡ next (cleared r c' idx)
unfolding output_round
output_round-whole r c' idx n num_pkts next z lt = ground (arith, z)

get_pkt_idx-ahead :
    (r : Rel) (j : ℕ)
    → 1 ≤ r.last_ackno_sent
    → r.last_ackno_sent + j < 4294967296
    → j < 65536
    → get_pkt_idx r (add32 r.last_ackno_sent (j % 65536)) ≡ ahead r j
unfolding get_pkt_idx
get_pkt_idx-ahead r j pos nw lt = ap (λ n. n % r.window_size) (omega arith)

-- The rest of the loop after a round.
abbrev rest_of_loop : ℕ → ℕ → Rel → Option (Rel × Ended)
rest_of_loop fuel j r' =
    output_loop fuel r' (get_pkt_idx r' (add32 r'.last_ackno_sent ((j + 1) % 65536)))
      ((j + 1) % 65536)

output_loop_flagged :
    (fuel : ℕ) (r : Rel) (idx j n : ℕ) (o : Rel × ℕ)
    → get_or r.has_recvd idx false ≡ true
    → r.last_pkt_bytes_outputted ≡ 0
    → n ≡ ((get_or r.pkts_recvd idx blank).len + 65536 - 12) % 65536
    → output_pkt r (get_or r.pkts_recvd idx blank) 0 n ≡ some o
    → output_loop (suc fuel) r idx j ≡ output_round r idx n j o (rest_of_loop fuel j)
unfolding output_loop
output_loop_flagged fuel r idx j n o flag z num e = ground (arith, flag, z, num, e)

rest_of_loop_lem :
    (fuel : ℕ) (r : Rel) (j : ℕ)
    → 1 ≤ r.last_ackno_sent
    → r.last_ackno_sent + suc j < 4294967296
    → suc j < 65536
    → rest_of_loop fuel j r ≡ output_loop fuel r (ahead r (suc j)) (suc j)
rest_of_loop_lem fuel r j pos nw lt =
    ap₂ (output_loop fuel r)
      (ap (λ n. get_pkt_idx r (add32 r.last_ackno_sent (n % 65536)))
          (let e : j + 1 ≡ suc j = omega arith in e)
        ∙ get_pkt_idx-ahead r (suc j) pos nw lt)
      (omega arith)

-- A round of the loop at a slot that holds a whole packet that fits.
pub output_loop_step :
    (fuel : ℕ) (r : Rel) (j : ℕ)
    → Healthy r.c
    → r.last_pkt_bytes_outputted ≡ 0
    → get_or r.has_recvd (ahead r j) false ≡ true
    → IsWhole (get_or r.pkts_recvd (ahead r j) blank)
    → (get_or r.pkts_recvd (ahead r j) blank).len - 12 ≤ conn_bufspace r.c
    → 1 ≤ r.last_ackno_sent
    → r.last_ackno_sent + suc j < 4294967296
    → suc j < 65536
    → (c' : Conn) × (output_loop (suc fuel) r (ahead r j) j
        ≡ output_loop fuel (cleared r c' (ahead r j)) (ahead r (suc j)) (suc j))
      × (stream c' ≡ stream r.c ++ body (get_or r.pkts_recvd (ahead r j) blank))
      × Fits r.c c' ((get_or r.pkts_recvd (ahead r j) blank).len - 12)
output_loop_step fuel r j h z flag w fits pos nw lt =
    let pkt = get_or r.pkts_recvd (ahead r j) blank in
    let (c', e, s, f) = output_pkt-whole r pkt h w fits in
    (
      c',
      output_loop_flagged fuel r (ahead r j) j (pkt.len - 12) (record r { c = c' }, pkt.len - 12)
            flag z (omega (arith, w.nonempty, w.small)) e
          ∙ output_round-whole r c' (ahead r j) (pkt.len - 12) j (rest_of_loop fuel j) z
              (omega (arith, w.small))
          ∙ rest_of_loop_lem fuel (cleared r c' (ahead r j)) j pos nw lt,
      s,
      f,
    )
