-- ===== src/SrVns/Server/Pieces.antt =====
-- The read loop of cs144/router/sr_vns_comm.c gets the same bytes however the socket cuts them.
use mathlib.Core.List.{append_assoc, append-nil}
use stanford.Prelude.{
  ℕ, zero, suc, ◌-◌, ◌≤◌, ◌≡◌, refl, sym, ap, ◌∙◌, inl, inr, true, false, List, [], ◌∷◌, ◌++◌,
  arith, ◌==◌, ltb, length, take, drop, All, Bool-cases, length-append, ==→eq, subst,
}
use stanford.SrVns.Server.{Recv, got, interrupted, Read, complete, read_piece, read_exact}

-- All the bytes that come.
abbrev pub all_bytes : List Recv → List ℕ
all_bytes [] = []
all_bytes (got bytes ∷ s) = bytes ++ all_bytes s
all_bytes (interrupted ∷ s) = all_bytes s
all_bytes (Recv.failed ∷ s) = all_bytes s

abbrev pub IsSteady : Recv → Type 0
IsSteady (got bytes) = Unit {0}
IsSteady interrupted = Unit {0}
IsSteady Recv.failed = ⊥

pub take-append_more :
    (xs ys : List ℕ) (n : ℕ)
    → length xs ≤ n
    → (take n (xs ++ ys) ≡ xs ++ take (n - length xs) ys)
      × (drop n (xs ++ ys) ≡ drop (n - length xs) ys)
take-append_more [] ys n h =
    let e : n ≡ n - 0 = omega arith in (ap (λ k. take k ys) e, ap (λ k. drop k ys) e)
take-append_more (x ∷ xs) ys zero h = absurd (omega arith)
take-append_more (x ∷ xs) ys (suc n) h =
    let (a, b) = take-append_more xs ys n (omega arith) in
    let e : n - length xs ≡ suc n - suc (length xs) = omega arith in
    (ap (λ zs. x ∷ zs) (a ∙ ap (λ k. xs ++ take k ys) e), b ∙ ap (λ k. drop k ys) e)

pub take-append_fewer :
    (xs ys : List ℕ) (n : ℕ)
    → n ≤ length xs
    → (take n (xs ++ ys) ≡ take n xs) × (drop n (xs ++ ys) ≡ drop n xs ++ ys)
take-append_fewer xs ys zero h = (refl, refl)
take-append_fewer [] ys (suc n) h = absurd (omega arith)
take-append_fewer (x ∷ xs) ys (suc n) h =
    let (a, b) = take-append_fewer xs ys n (omega arith) in (ap (λ zs. x ∷ zs) a, b)

-- The read has the next `n` bytes behind `buf`, and the rest is still to come.
pub record HasRead (s : List Recv) (n : ℕ) (buf : List ℕ) (r : Read) : Type 0 where
  pub rest : List Recv
  pub result : r ≡ complete (buf ++ take n (all_bytes s)) rest
  pub later : all_bytes rest ≡ drop n (all_bytes s)
  pub steady : All IsSteady rest

read_nothing :
    (s : List Recv) (n : ℕ) (buf : List ℕ)
    → All IsSteady s
    → n ≡ 0
    → HasRead s n buf (complete buf s)
read_nothing s zero buf h e = record {
  rest = s;
  result = ap (λ b. complete b s) (sym (append-nil buf));
  later = refl;
  steady = h;
}
read_nothing s (suc n) buf h e = absurd (omega (arith, e))

read_exact_none :
    (s : List Recv) (n : ℕ) (buf : List ℕ) → (n == 0) ≡ true → read_exact s n buf ≡ complete buf s
unfolding read_exact
read_exact_none [] n buf e = rw e refl
read_exact_none (r ∷ s) n buf e = rw e refl

read_exact_some :
    (r : Recv) (s : List Recv) (n : ℕ) (buf : List ℕ)
    → (n == 0) ≡ false
    → read_exact (r ∷ s) n buf ≡ read_piece r s n buf (λ m buf'. read_exact s m buf')
unfolding read_exact
read_exact_some r s n buf e = rw e refl

piece-HasRead :
    (r : Recv) (s : List Recv) (n : ℕ) (buf : List ℕ) (more : ℕ → List ℕ → Read)
    → All IsSteady (r ∷ s)
    → n ≤ length (all_bytes (r ∷ s))
    → ((m : ℕ) (b : List ℕ) → m ≤ length (all_bytes s) → HasRead s m b (more m b))
    → HasRead (r ∷ s) n buf (read_piece r s n buf more)
unfolding read_piece
piece-HasRead interrupted s n buf more h le ih =
    let k = ih n buf le in
    record { rest = k.rest; result = k.result; later = k.later; steady = k.steady }
piece-HasRead Recv.failed s n buf more h le ih = absurd h.0
piece-HasRead (got bytes) s n buf more h le ih = elim (Bool-cases (ltb n (length bytes))) [
  | inl e ↦ rw e (
      let f = take-append_fewer bytes (all_bytes s) n (ground (arith, e)) in
      record {
        rest = got (drop n bytes) ∷ s;
        result = ap (λ b. complete (buf ++ b) (got (drop n bytes) ∷ s)) (sym f.0);
        later = sym f.1;
        steady = (tt, h.1);
      })
  | inr e ↦ rw e (
      let enough : length bytes ≤ n = ground (arith, e) in
      let f = take-append_more bytes (all_bytes s) n enough in
      let k =
        ih (n - length bytes) (buf ++ bytes)
          (omega (arith, le, length-append bytes (all_bytes s))) in
      record {
        rest = k.rest;
        result =
            k.result
            ∙ ap (λ b. complete b k.rest)
                (append_assoc buf bytes (take (n - length bytes) (all_bytes s))
                  ∙ ap (λ b. buf ++ b) (sym f.0));
        later = k.later ∙ sym f.1;
        steady = k.steady;
      })
]

pub read_exact-HasRead :
    (s : List Recv) (n : ℕ) (buf : List ℕ)
    → All IsSteady s
    → n ≤ length (all_bytes s)
    → HasRead s n buf (read_exact s n buf)
read_exact-HasRead [] n buf h le =
    subst (HasRead [] n buf) (sym (read_exact_none [] n buf (ground (arith, le))))
      (read_nothing [] n buf h (omega arith))
read_exact-HasRead (r ∷ s) n buf h le = elim (Bool-cases (n == 0)) [
  | inl e ↦
      subst (HasRead (r ∷ s) n buf) (sym (read_exact_none (r ∷ s) n buf e))
        (read_nothing (r ∷ s) n buf h (==→eq n 0 e))
  | inr e ↦ subst (HasRead (r ∷ s) n buf) (sym (read_exact_some r s n buf e)) (
      piece-HasRead r s n buf (λ m b. read_exact s m b) h le
        (λ m b q. read_exact-HasRead s m b h.1 q))
]
