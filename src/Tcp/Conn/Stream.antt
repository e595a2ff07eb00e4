-- ===== src/Tcp/Conn/Stream.antt =====
-- The byte stream to the local side: what `write` took, then what is queued. `conn_output` appends to
-- it what it accepts, and `conn_drain` only moves bytes from the queue to the descriptor.
use mathlib.Core.List.{append-nil, append_assoc}
use stanford.Prelude.{
  ℕ, zero, suc, ◌+◌, ◌≡◌, refl, sym, ap, ◌∙◌, ◌⊎◌, inl, inr, Bool, true, false, some, List, [], ◌∷◌,
  ◌++◌, arith, take, drop, length, Bool-cases, Option-cases, ltb, ◌≤◌,
}
use stanford.Tcp.Conn.{
  Conn, Chunk, ret, OsWrite, is_nil, os_write, append_chunk, write_now, output_bytes, conn_output,
  drain_chunk, drain_queue, conn_drain,
}

abbrev pub pending : List Chunk → List ℕ
pending [] = []
pending (ch ∷ chs) = drop ch.used ch.buf ++ pending chs

abbrev pub stream : Conn → List ℕ
stream c = c.written ++ pending c.outq

take-drop : (k : ℕ) (xs : List ℕ) → take k xs ++ drop k xs ≡ xs
take-drop zero xs = refl
take-drop (suc k) [] = refl
take-drop (suc k) (x ∷ xs) = ap (λ ys. x ∷ ys) (take-drop k xs)

drop-nil : (n : ℕ) → drop {A = ℕ} n [] ≡ []
drop-nil zero = refl
drop-nil (suc n) = refl

drop-add : (u m : ℕ) (xs : List ℕ) → drop (u + m) xs ≡ drop m (drop u xs)
drop-add zero m xs = ap (λ n. drop n xs) (omega arith)
drop-add (suc u) m [] = drop-nil (suc u + m) ∙ sym (drop-nil m)
drop-add (suc u) m (x ∷ xs) =
    ap (λ n. drop n (x ∷ xs)) (let e : suc u + m ≡ suc (u + m) = omega arith in e) ∙ drop-add u m xs

drop-length-take : (k : ℕ) (xs : List ℕ) → drop (length (take k xs)) xs ≡ drop k xs
drop-length-take zero xs = refl
drop-length-take (suc k) [] = refl
drop-length-take (suc k) (x ∷ xs) = drop-length-take k xs

-- Writing `k` bytes of what is left of a chunk leaves the rest of it.
drop-take-drop :
    (k u : ℕ) (xs : List ℕ)
    → take k (drop u xs) ++ drop (u + length (take k (drop u xs))) xs ≡ drop u xs
drop-take-drop k u xs =
    ap (λ ys. take k (drop u xs) ++ ys)
      (drop-add u (length (take k (drop u xs))) xs ∙ drop-length-take k (drop u xs))
    ∙ take-drop k (drop u xs)

drop-all : (n : ℕ) (xs : List ℕ) → length xs ≤ n → drop n xs ≡ []
drop-all zero [] h = refl
drop-all zero (x ∷ xs) h = absurd (omega arith)
drop-all (suc n) [] h = refl
drop-all (suc n) (x ∷ xs) h = drop-all n xs (omega arith)

pending-append :
    (xs : List Chunk) (ch : Chunk) → pending (xs ++ ch ∷ []) ≡ pending xs ++ drop ch.used ch.buf
pending-append [] ch = append-nil (drop ch.used ch.buf)
pending-append (x ∷ xs) ch =
    ap (λ ys. drop x.used x.buf ++ ys) (pending-append xs ch)
    ∙ sym (append_assoc (drop x.used x.buf) (pending xs) (drop ch.used ch.buf))

append_chunk-stream : (c : Conn) (buf : List ℕ) → stream (append_chunk c buf) ≡ stream c ++ buf
unfolding append_chunk
append_chunk-stream c [] = sym (append-nil (stream c))
append_chunk-stream c (b ∷ bs) =
    ap (λ ys. c.written ++ ys) (pending-append c.outq (record { used = 0; buf = b ∷ bs }))
    ∙ sym (append_assoc c.written (pending c.outq) (b ∷ bs))

glue : (k : ℕ) (w buf : List ℕ) → ((w ++ take k buf) ++ []) ++ drop k buf ≡ (w ++ []) ++ buf
glue k w buf = simp (append-nil, append_assoc) (ap (λ ys. w ++ ys) (take-drop k buf))

write_now-stream :
    (c : Conn) (buf : List ℕ) (w : OsWrite × List OsWrite) (c' : Conn) (left : List ℕ)
    → c.outq ≡ []
    → write_now c buf w ≡ some (c', left)
    → stream c' ++ left ≡ stream c ++ buf
unfolding write_now
write_now-stream c buf (OsWrite.wrote k, ws) c' left q e =
    ground (arith, e, q, glue k c.written buf)
write_now-stream c buf (OsWrite.blocked, ws) c' left q e = ground (arith, e, q)
write_now-stream c buf (OsWrite.failed, ws) c' left q e = ground (arith, e)

is_nil→nil : (chs : List Chunk) → is_nil chs ≡ true → chs ≡ []
is_nil→nil [] e = refl
is_nil→nil (ch ∷ chs) e = ground (arith, e)

pub output_bytes-stream :
    (c : Conn) (buf : List ℕ) (n : ℕ)
    → (output_bytes c buf).1 ≡ ret n
    → (n ≡ length buf) × (stream (output_bytes c buf).0 ≡ stream c ++ buf)
unfolding output_bytes
output_bytes-stream c buf n e = elim (Bool-cases (is_nil c.outq)) [
  | inr q ↦ (ground (arith, e, q), ground (arith, q, append_chunk-stream c buf))
  | inl q ↦ elim (Option-cases (write_now c buf (os_write c.writes))) [
    | inl f ↦ ground (arith, e, q, f)
    | inr ((c', left), f) ↦ (
      ground (arith, e, q, f),
      ground (
        arith,
        q,
        f,
        append_chunk-stream c' left,
        write_now-stream c buf (os_write c.writes) c' left (is_nil→nil c.outq q) f,
      ),
    )
  ]
]

-- When `conn_output` returns a count, it is 0 and the stream is as it was, or it is the number of
-- bytes handed over and the stream has grown by just those bytes, whatever `write` took of them. So
-- a count short of what was asked for, other than 0, is never returned.
pub conn_output-stream :
    (c c' : Conn) (buf : List ℕ) (n : ℕ)
    → conn_output c buf ≡ some (c', ret n)
    → ((n ≡ 0) × (stream c' ≡ stream c)) ⊎ ((n ≡ length buf) × (stream c' ≡ stream c ++ buf))
unfolding conn_output
conn_output-stream c c' buf n e = ground (arith, e, output_bytes-stream c buf n)

written_part :
    (w rest buf : List ℕ) (u k : ℕ)
    → (w ++ take k (drop u buf)) ++ (drop (u + length (take k (drop u buf))) buf ++ rest)
      ≡ w ++ (drop u buf ++ rest)
written_part w rest buf u k =
    append_assoc w (take k (drop u buf)) (drop (u + length (take k (drop u buf))) buf ++ rest)
    ∙ ap (λ ys. w ++ ys)
        (sym (append_assoc (take k (drop u buf)) (drop (u + length (take k (drop u buf))) buf) rest)
          ∙ ap (λ ys. ys ++ rest) (drop-take-drop k u buf))

written_all :
    (w rest buf : List ℕ) (u k : ℕ)
    → length buf ≤ u + length (take k (drop u buf))
    → (w ++ take k (drop u buf)) ++ rest ≡ w ++ (drop u buf ++ rest)
written_all w rest buf u k h =
    ap (λ ys. (w ++ take k (drop u buf)) ++ (ys ++ rest))
      (sym (drop-all (u + length (take k (drop u buf))) buf h))
    ∙ written_part w rest buf u k

-- What the loop has left, for any loop over the rest of the queue that loses nothing.
abbrev Lossless : List Chunk → (Conn → Bool → List Chunk × Conn × Bool) → Type 0
Lossless rest next =
    (c : Conn) (did : Bool)
    → (next c did).1.written ++ pending (next c did).0 ≡ c.written ++ pending rest

drain_chunk-stream :
    (c : Conn) (ch : Chunk) (w : OsWrite × List OsWrite)
    (next : Conn → Bool → List Chunk × Conn × Bool) (did : Bool) (rest : List Chunk)
    → Lossless rest next
    → Lossless (ch ∷ rest) (λ c' did'. drain_chunk c' ch w next did' rest)
unfolding drain_chunk
drain_chunk-stream c ch (OsWrite.failed, ws) next did rest h c' did' = refl
drain_chunk-stream c ch (OsWrite.blocked, ws) next did rest h c' did' = refl
drain_chunk-stream c ch (OsWrite.wrote k, ws) next did rest h c' did' =
    let out = take k (drop ch.used ch.buf) in
    elim (Bool-cases (ltb (ch.used + length out) (length ch.buf))) [
      | inl t ↦ rw t (written_part c'.written (pending rest) ch.buf ch.used k)
      | inr t ↦ rw t (
          h (record c' { writes = ws; written = c'.written ++ out }) true
          ∙ written_all c'.written (pending rest) ch.buf ch.used k (ground (arith, t)))
    ]

drain_queue-stream : (chs : List Chunk) → Lossless chs (drain_queue chs)
unfolding drain_queue
drain_queue-stream [] c did = refl
drain_queue-stream (ch ∷ rest) c did =
    drain_chunk-stream c ch (os_write c.writes) (λ c' did'. drain_queue rest c' did') did rest
      (drain_queue-stream rest) c did

-- Draining loses, repeats and reorders nothing: the stream is the same, whatever `write` does.
pub conn_drain-stream : (c : Conn) → stream (conn_drain c).0 ≡ stream c
unfolding conn_drain
conn_drain-stream c = ground (arith, drain_queue-stream c.outq c false)
