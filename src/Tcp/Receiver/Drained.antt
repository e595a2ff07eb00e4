-- ===== src/Tcp/Receiver/Drained.antt =====
-- A session of reliable.c at its start, and when `conn_drain` of rlib.c has passed output on.
use stanford.Prelude.{
  ℕ, ◌+◌, ◌<◌, ◌≡◌, refl, ◌∙◌, inl, inr, Bool, true, false, some, List, [], ◌∷◌, arith, length,
  get_or, replicate, length-replicate, Bool-cases, All, ltb, drop, take, ◌++◌, zero, suc,
}
use stanford.Tcp.Packet.{blank}
use stanford.Tcp.Conn.{Conn, Chunk, OsWrite, os_write, drain_chunk, drain_queue, conn_drain}
use stanford.Tcp.Conn.Stream.{stream, conn_drain-stream}
use stanford.Tcp.Conn.Healthy.{Healthy, IsOk, os_write-Ok}
use stanford.Tcp.State.{Rel, Config, Sockaddr, new_rel}
use stanford.Tcp.Receiver.{rel_output, drain_then_output}
use stanford.Tcp.Receiver.Deliver.{ahead}
use stanford.Tcp.Receiver.Acked.{output_pkts-none}
use stanford.Tcp.Receiver.Reassembly.{RecvInv, flag_of}

-- The receiver between two packets: in step with the stream, and waiting.
pub record Receiving (sent : ℕ → List ℕ) (r : Rel) : Type 0 where
  pub inv : RecvInv sent r
  pub clear : flag_of r 0 ≡ false

abbrev KeepsHealthy : (Conn → Bool → List Chunk × Conn × Bool) → Type 0
KeepsHealthy next = (c : Conn) (did : Bool) → Healthy c → Healthy (next c did).1

drain_chunk-Healthy :
    (ch : Chunk) (w : OsWrite) (ws : List OsWrite) (next : Conn → Bool → List Chunk × Conn × Bool)
    (rest : List Chunk)
    → KeepsHealthy next
    → IsOk w
    → All IsOk ws
    → KeepsHealthy (λ c did. drain_chunk c ch (w, ws) next did rest)
unfolding drain_chunk
drain_chunk-Healthy ch OsWrite.failed ws next rest k ok oks c did h = absurd ok
drain_chunk-Healthy ch OsWrite.blocked ws next rest k ok oks c did h = record {
  alive = h.alive;
  is_open = h.is_open;
  no_error = h.no_error;
  writable = oks;
}
drain_chunk-Healthy ch (OsWrite.wrote n) ws next rest k ok oks c did h =
    let out = take n (drop ch.used ch.buf) in
    let c' : Conn = record c { writes = ws; written = c.written ++ out } in
    let h' : Healthy c' = record {
      alive = h.alive;
      is_open = h.is_open;
      no_error = h.no_error;
      writable = oks;
    } in
    elim (Bool-cases (ltb (ch.used + length out) (length ch.buf))) [
      | inl e ↦ rw e h'
      | inr e ↦ rw e (k c' true h')
    ]

drain_queue-Healthy : (chs : List Chunk) → KeepsHealthy (drain_queue chs)
unfolding drain_queue
drain_queue-Healthy [] c did h = h
drain_queue-Healthy (ch ∷ rest) c did h =
    let ok = os_write-Ok c.writes h.writable in
    drain_chunk-Healthy ch (os_write c.writes).0 (os_write c.writes).1
      (λ c' did'. drain_queue rest c' did') rest (drain_queue-Healthy rest) ok.0 ok.1 c did h

conn_drain-Healthy : (c : Conn) → Healthy c → Healthy (conn_drain c).0
unfolding conn_drain
conn_drain-Healthy c h =
    let d = drain_queue-Healthy c.outq c false h in
    record {
      alive = ground (arith, h, d);
      is_open = ground (arith, h, d);
      no_error = ground (arith, h, d);
      writable = ground (arith, h, d);
    }

pub drained-Receiving :
    (sent : ℕ → List ℕ) (r : Rel)
    → Receiving sent r
    → Receiving sent (record r { c = (conn_drain r.c).0 })
drained-Receiving sent r v = record {
  inv = record {
    healthy = conn_drain-Healthy r.c v.inv.healthy;
    fresh = v.inv.fresh;
    window = v.inv.window;
    flags = v.inv.flags;
    slots = v.inv.slots;
    pos = v.inv.pos;
    no_eof = v.inv.no_eof;
    holds = v.inv.holds;
    delivered = conn_drain-stream r.c ∙ v.inv.delivered;
  };
  clear = v.clear;
}

pub drain_then_output_lem :
    (sent : ℕ → List ℕ) (r : Rel)
    → Receiving sent r
    → r.last_ackno_sent < 4294967296
    → drain_then_output r ≡ some (record r { c = (conn_drain r.c).0 })
unfolding drain_then_output rel_output
drain_then_output_lem sent r v lt =
    ground (arith, output_pkts-none (record r { c = (conn_drain r.c).0 }) v.inv.pos lt v.clear)

get_or-replicate : (n i : ℕ) → get_or (replicate n false) i false ≡ false
get_or-replicate zero i = refl
get_or-replicate (suc n) zero = refl
get_or-replicate (suc n) (suc i) = get_or-replicate n i

pub new_rel-Receiving :
    (sent : ℕ → List ℕ) (c : Conn) (ss : Sockaddr) (cfg : Config)
    → stream c ≡ []
    → Healthy c
    → 0 < cfg.window
    → Receiving sent (new_rel c ss cfg)
unfolding new_rel
new_rel-Receiving sent c ss cfg e h w = record {
  inv = record {
    healthy = h;
    fresh = refl;
    window = w;
    flags = length-replicate cfg.window false;
    slots = length-replicate cfg.window blank;
    pos = omega arith;
    no_eof = refl;
    holds = λ i lt f. let g = get_or-replicate cfg.window (ahead (new_rel c ss cfg) i) in cc;
    delivered = e;
  };
  clear = get_or-replicate cfg.window (ahead (new_rel c ss cfg) (0 + 0));
}
