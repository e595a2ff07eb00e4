-- ===== src/Tcp/Conn/Healthy.antt =====
-- What `conn_output` of rlib.c does on a connection whose output is open and never fails.
use stanford.Prelude.{
  ℕ, zero, suc, ◌+◌, ◌-◌, ◌≤◌, ◌<◌, ◌≡◌, refl, ◌∙◌, inl, inr, true, false, some, List, [], ◌∷◌,
  ◌++◌, arith, length, take, drop, Bool-cases, All,
}
use stanford.Tcp.Conn.{
  Conn, Chunk, ret, OsWrite, is_nil, os_write, append_chunk, write_now, output_bytes, conn_output,
  conn_bufspace, queued,
}
use stanford.Tcp.Conn.Stream.{stream, output_bytes-stream}

abbrev pub IsOk : OsWrite → Type 0
IsOk (OsWrite.wrote k) = Unit {0}
IsOk OsWrite.blocked = Unit {0}
IsOk OsWrite.failed = ⊥

pub record Healthy (c : Conn) : Type 0 where
  pub alive : c.delete_me ≡ false
  pub is_open : c.write_eof ≡ false
  pub no_error : c.write_err ≡ 0
  pub writable : All IsOk c.writes

queued-append :
    (xs : List Chunk) (ch : Chunk) → queued (xs ++ ch ∷ []) ≡ queued xs + (length ch.buf - ch.used)
queued-append [] ch = omega arith
queued-append (x ∷ xs) ch = omega (arith, queued-append xs ch)

length-drop-le : (k : ℕ) (xs : List ℕ) → length (drop k xs) ≤ length xs
length-drop-le zero xs = omega arith
length-drop-le (suc k) [] = omega arith
length-drop-le (suc k) (x ∷ xs) = omega (arith, length-drop-le k xs)

-- What an output leaves as it was, and how far it may fill the queue.
pub record Fits (c c' : Conn) (n : ℕ) : Type 0 where
  pub healthy : Healthy c'
  pub space : conn_bufspace c ≤ conn_bufspace c' + n
  pub sends : c'.sends ≡ c.sends
  pub network : c'.network ≡ c.network

append_chunk-Fits : (c : Conn) (buf : List ℕ) → Healthy c → Fits c (append_chunk c buf) (length buf)
unfolding append_chunk conn_bufspace
append_chunk-Fits c [] h = record { healthy = h; space = omega arith; sends = refl; network = refl }
append_chunk-Fits c (b ∷ bs) h = record {
  healthy = record {
    alive = h.alive;
    is_open = h.is_open;
    no_error = h.no_error;
    writable = h.writable;
  };
  space = ground (arith, queued-append c.outq (record { used = 0; buf = b ∷ bs }));
  sends = refl;
  network = refl;
}

write_now-Fits :
    (c : Conn) (buf : List ℕ) (w : OsWrite) (ws : List OsWrite)
    → Healthy c
    → IsOk w
    → All IsOk ws
    → (c' : Conn) × (left : List ℕ) × (write_now c buf (w, ws) ≡ some (c', left))
      × Fits c c' 0
      × (length left ≤ length buf)
unfolding write_now conn_bufspace
write_now-Fits c buf (OsWrite.wrote k) ws h ok oks = (
  record c { writes = ws; written = c.written ++ take k buf },
  drop k buf,
  refl,
  record {
    healthy = record {
      alive = h.alive;
      is_open = h.is_open;
      no_error = h.no_error;
      writable = oks;
    };
    space = omega arith;
    sends = refl;
    network = refl;
  },
  length-drop-le k buf,
)
write_now-Fits c buf OsWrite.blocked ws h ok oks = (
  record c { writes = ws },
  buf,
  refl,
  record {
    healthy = record {
      alive = h.alive;
      is_open = h.is_open;
      no_error = h.no_error;
      writable = oks;
    };
    space = omega arith;
    sends = refl;
    network = refl;
  },
  omega arith,
)
write_now-Fits c buf OsWrite.failed ws h ok oks = absurd ok

Fits-trans : (c c' c'' : Conn) (n m : ℕ) → Fits c c' 0 → Fits c' c'' n → n ≤ m → Fits c c'' m
Fits-trans c c' c'' n m f g le = record {
  healthy = g.healthy;
  space = omega (arith, f.space, g.space);
  sends = g.sends ∙ f.sends;
  network = g.network ∙ f.network;
}

pub os_write-Ok :
    (ws : List OsWrite) → All IsOk ws → IsOk (os_write ws).0 × All IsOk (os_write ws).1
unfolding os_write
os_write-Ok [] h = (tt, tt)
os_write-Ok (w ∷ ws) h = h

output_queued :
    (c : Conn) (buf : List ℕ)
    → is_nil c.outq ≡ false
    → output_bytes c buf ≡ (append_chunk c buf, ret (length buf))
unfolding output_bytes
output_queued c buf q = ground (arith, q)

output_now :
    (c c' : Conn) (buf left : List ℕ)
    → is_nil c.outq ≡ true
    → write_now c buf (os_write c.writes) ≡ some (c', left)
    → output_bytes c buf ≡ (append_chunk c' left, ret (length buf))
unfolding output_bytes
output_now c c' buf left q f = ground (arith, q, f)

output_bytes-Fits :
    (c : Conn) (buf : List ℕ)
    → Healthy c
    → ((output_bytes c buf).1 ≡ ret (length buf)) × Fits c (output_bytes c buf).0 (length buf)
output_bytes-Fits c buf h = elim (Bool-cases (is_nil c.outq)) [
  | inr q ↦ rw (output_queued c buf q) (refl, append_chunk-Fits c buf h)
  | inl q ↦
      let ok = os_write-Ok c.writes h.writable in
      let (c', left, e, f, le) =
        write_now-Fits c buf (os_write c.writes).0 (os_write c.writes).1 h ok.0 ok.1 in
      rw (output_now c c' buf left q e) (
        refl,
        Fits-trans c c' (append_chunk c' left) (length left) (length buf) f
            (append_chunk-Fits c' left f.healthy) le,
      )
]

conn_output_open :
    (c : Conn) (buf : List ℕ)
    → Healthy c
    → 0 < length buf
    → length buf ≤ conn_bufspace c
    → conn_output c buf ≡ some (output_bytes c buf)
unfolding conn_output
conn_output_open c buf h pos fits = ground (arith, h)

-- Of bytes that fit into the free space, at least one, `conn_output` takes all: it returns their
-- number, the stream grows by them, the free space falls by at most their number, and the
-- connection stays healthy.
pub conn_output-Fits :
    (c : Conn) (buf : List ℕ)
    → Healthy c
    → 0 < length buf
    → length buf ≤ conn_bufspace c
    → (c' : Conn) × (conn_output c buf ≡ some (c', ret (length buf)))
      × (stream c' ≡ stream c ++ buf)
      × Fits c c' (length buf)
conn_output-Fits c buf h pos fits =
    let (e, f) = output_bytes-Fits c buf h in
    (
      (output_bytes c buf).0,
      ground (arith, conn_output_open c buf h pos fits, e),
      (output_bytes-stream c buf (length buf) e).1,
      f,
    )

pub conn_bufspace-le : (c : Conn) → conn_bufspace c ≤ 8192
unfolding conn_bufspace
conn_bufspace-le c = ground arith
