-- ===== src/Tcp/Sender/Input.antt =====
-- What `conn_input` of rlib.c reads for the sender of reliable.c.
use stanford.Prelude.{
  ◌≢◌, ℕ, zero, suc, ◌≤◌, ◌≡◌, refl, sym, ap, ◌∙◌, inl, inr, ◌⊎◌, List, [], ◌∷◌, ◌++◌, arith,
  length, take, some, none, true, false, if◌then◌else◌, subst, Bool-cases, some_inj,
}
use stanford.Tcp.Conn.{Conn, Ret, ret, minus_one, OsRead, os_read, take_input, conn_input}
use stanford.Tcp.State.{Rel}
use stanford.Tcp.Sender.Chunks.{input_chunks}
use stanford.Tcp.Sender.Streams.{left, Streams}

-- The payloads that a result of `read`, and the rest of the script, still make.
abbrev chunks_of : OsRead × List OsRead → List (List ℕ)
chunks_of (r, rs) = input_chunks (r ∷ rs)

chunks_of-os_read : (rs : List OsRead) → chunks_of (os_read rs) ≡ input_chunks rs
unfolding os_read
chunks_of-os_read [] = refl
chunks_of-os_read (r ∷ rs) = refl

-- What `conn_input` has read: the end of the input, nothing yet, or a payload.
abbrev pub Input : List OsRead → Rel → Conn × Ret × List ℕ → Type 0
Input script r (c', minus_one, buf) =
    Streams script ([] ∷ []) (record r { c = c'; read_eof = true })
Input script r (c', ret n, buf) =
    ((n ≡ 0) × Streams script [] (record r { c = c' }))
    ⊎ ((n ≢ 0) × (length buf ≡ n) × (n ≤ 500) × Streams script (buf ∷ []) (record r { c = c' }))

still : (r : Rel) → r.read_eof ≡ false → left r ≡ input_chunks r.c.reads
still r e = ap (λ b. if b then [] else input_chunks r.c.reads) e

now_left :
    (r : Rel) (rs : List OsRead)
    → r.read_eof ≡ false
    → (if r.read_eof then [] else input_chunks rs) ≡ input_chunks rs
now_left r rs e = ap (λ b. if b then [] else input_chunks rs) e

length-take-le : (n : ℕ) (xs : List ℕ) → length (take n xs) ≤ n
length-take-le zero xs = omega arith
length-take-le (suc n) [] = omega arith
length-take-le (suc n) (x ∷ xs) = omega (arith, length-take-le n xs)

take_input-Input :
    (script : List OsRead) (r : Rel) (i : OsRead × List OsRead)
    → Streams script [] r
    → r.read_eof ≡ false
    → chunks_of i ≡ input_chunks r.c.reads
    → Input script r (take_input r.c 500 i)
unfolding take_input
take_input-Input script r (OsRead.got [], rs) v open_input e = record {
  made = v.made;
  split = ap (λ (xs : List (List ℕ)). v.made ++ xs) (e ∙ sym (still r open_input)) ∙ v.split;
  count = v.count;
  eof = λ q. cc;
  entries = v.entries;
  wires = v.wires;
  ackno = v.ackno;
}
take_input-Input script r (OsRead.failed, rs) v open_input e = record {
  made = v.made;
  split = ap (λ (xs : List (List ℕ)). v.made ++ xs) (e ∙ sym (still r open_input)) ∙ v.split;
  count = v.count;
  eof = λ q. cc;
  entries = v.entries;
  wires = v.wires;
  ackno = v.ackno;
}
take_input-Input script r (OsRead.blocked, rs) v open_input e = inl (
  refl,
  record {
    made = v.made;
    split =
        ap (λ (xs : List (List ℕ)). v.made ++ xs)
          (now_left r rs open_input ∙ e ∙ sym (still r open_input))
        ∙ v.split;
    count = v.count;
    eof = v.eof;
    entries = v.entries;
    wires = v.wires;
    ackno = v.ackno;
  },
)
take_input-Input script r (OsRead.got (b ∷ bs), rs) v open_input e = inr (
  (λ q. absurd (omega (arith, q))),
  refl,
  length-take-le 500 (b ∷ bs),
  record {
    made = v.made;
    split =
        ap (λ (xs : List (List ℕ)). v.made ++ xs)
          (ap (λ (xs : List (List ℕ)). take 500 (b ∷ bs) ∷ xs) (now_left r rs open_input)
            ∙ e
            ∙ sym (still r open_input))
        ∙ v.split;
    count = v.count;
    eof = v.eof;
    entries = v.entries;
    wires = v.wires;
    ackno = v.ackno;
  },
)

input_open :
    (r : Rel) (i : Conn × Ret × List ℕ)
    → r.c.read_eof ≡ false
    → conn_input r.c 500 ≡ some i
    → take_input r.c 500 (os_read r.c.reads) ≡ i
unfolding conn_input
input_open r i e f = elim (Bool-cases r.c.delete_me) [
  | inl d ↦ let q : none ≡ some i = sym (ground (arith, d)) ∙ f in cc
  | inr d ↦ some_inj (take_input r.c 500 (os_read r.c.reads)) i (sym (ground (arith, d, e)) ∙ f)
]

pub conn_input-Input :
    (script : List OsRead) (r : Rel) (i : Conn × Ret × List ℕ)
    → Streams script [] r
    → r.read_eof ≡ false
    → conn_input r.c 500 ≡ some i
    → Input script r i
conn_input-Input script r i v e f =
    subst (Input script r) (input_open r i (v.eof e) f)
      (take_input-Input script r (os_read r.c.reads) v e (chunks_of-os_read r.c.reads))
