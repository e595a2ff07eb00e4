-- ===== src/Tcp/Conn/Poll/Dispatch.antt =====
-- The connection that `conn_poll` finds at a place is the one whose descriptor is polled there.
use stanford.Prelude.{
  ℕ, zero, suc, ◌<◌, ◌≤◌, ◌≡◌, ◌≢◌, ◌⊎◌, inl, inr, refl, false, Option, none, some, List, [], ◌∷◌,
  arith, length, All, set, get_or, length-set, length-replicate, get_or-set_self, get_or-set_ne,
  replicate, ap, ◌∙◌,
}
use stanford.Tcp.Conn.Poll.{
  Polled, read_write_slots, slots, all_slots, put, fill_readers, fill_writers, Event, conn_mkevents,
}

-- The places from `n` on and before `m` that one connection gets; a place of 0 is none.
record Slots (n m : ℕ) (c : Polled) : Type 0 where
  grows : n ≤ m
  r_low : (c.rpoll ≡ 0) ⊎ (n ≤ c.rpoll)
  w_low : (c.wpoll ≡ 0) ⊎ (n ≤ c.wpoll)
  n_low : (c.npoll ≡ 0) ⊎ (n ≤ c.npoll)
  r_high : c.rpoll < m
  w_high : c.wpoll < m
  n_high : c.npoll < m
  apart : (c.npoll ≡ 0) ⊎ (c.rpoll < c.npoll)
  reads : c.conn.read_eof ≡ false → n ≤ c.rpoll
  writes : c.conn.write_err ≡ 0 → n ≤ c.wpoll
  nets : c.server ≡ false → n ≤ c.npoll

slots-Slots : (n : ℕ) (c : Polled) → 1 ≤ n → Slots n (slots n c).0 (slots n c).1
unfolding slots read_write_slots
slots-Slots n c h = record {
  grows = ground (arith, h);
  r_low = ground (arith, h);
  w_low = ground (arith, h);
  n_low = ground (arith, h);
  r_high = ground (arith, h);
  w_high = ground (arith, h);
  n_high = ground (arith, h);
  apart = ground (arith, h);
  reads = λ e. ground (arith, h, e);
  writes = λ e. ground (arith, h, e);
  nets = λ e. ground (arith, h, e);
}

abbrev Pointers : Type 0
Pointers = List (Option ℕ)

put-suc : (p a : ℕ) (r : Pointers) → put (suc p) a r ≡ set r (suc p) (some a)
unfolding put
put-suc p a r = ground arith

put_other :
    (p a i : ℕ) (r : Pointers) → (p ≡ 0) ⊎ (p ≢ i) → get_or (put p a r) i none ≡ get_or r i none
unfolding put
put_other zero a i r h = refl
put_other (suc p) a i r (inl e) = absurd (omega (arith, e))
put_other (suc p) a i r (inr e) =
    ap (λ l. get_or l i none) (put-suc p a r) ∙ get_or-set_ne r (suc p) i (some a) none e

put_low :
    (p a i n : ℕ) (r : Pointers)
    → (p ≡ 0) ⊎ (n ≤ p)
    → i < n
    → get_or (put p a r) i none ≡ get_or r i none
put_low p a i n r (inl e) h = put_other p a i r (inl e)
put_low p a i n r (inr l) h = put_other p a i r (inr (λ e. absurd (omega (arith, l, h, e))))

put_self : (p a : ℕ) (r : Pointers) → 1 ≤ p → p < length r → get_or (put p a r) p none ≡ some a
unfolding put
put_self zero a r h l = absurd (omega (arith, h))
put_self (suc p) a r h l =
    ap (λ l. get_or l (suc p) none) (put-suc p a r) ∙ get_or-set_self r (suc p) (some a) none l

length-put : (p a : ℕ) (r : Pointers) → length (put p a r) ≡ length r
unfolding put
length-put zero a r = refl
length-put (suc p) a r = ap length (put-suc p a r) ∙ length-set r (suc p) (some a)

all_slots_le : (n : ℕ) (cs : List Polled) → 1 ≤ n → n ≤ (all_slots n cs).0
unfolding all_slots
all_slots_le n [] h = omega arith
all_slots_le n (c ∷ cs) h =
    let s = slots-Slots n c h in
    omega (arith, s.grows, all_slots_le (slots n c).0 cs (omega (arith, h, s.grows)))

readers_keep :
    (n : ℕ) (cs : List Polled) (r : Pointers) (i : ℕ)
    → 1 ≤ n
    → i < n
    → get_or (fill_readers (all_slots n cs).1 r) i none ≡ get_or r i none
unfolding all_slots fill_readers
readers_keep n [] r i h l = refl
readers_keep n (c ∷ cs) r i h l =
    let s = slots-Slots n c h in
    let c' = (slots n c).1 in
    let r1 = put c'.rpoll c'.addr r in
    readers_keep (slots n c).0 cs (put c'.npoll c'.addr r1) i (omega (arith, h, s.grows))
      (omega (arith, l, s.grows))
    ∙ put_low c'.npoll c'.addr i n r1 s.n_low l
    ∙ put_low c'.rpoll c'.addr i n r s.r_low l

writers_keep :
    (n : ℕ) (cs : List Polled) (w : Pointers) (i : ℕ)
    → 1 ≤ n
    → i < n
    → get_or (fill_writers (all_slots n cs).1 w) i none ≡ get_or w i none
unfolding all_slots fill_writers
writers_keep n [] w i h l = refl
writers_keep n (c ∷ cs) w i h l =
    let s = slots-Slots n c h in
    let c' = (slots n c).1 in
    writers_keep (slots n c).0 cs (put c'.wpoll c'.addr w) i (omega (arith, h, s.grows))
      (omega (arith, l, s.grows))
    ∙ put_low c'.wpoll c'.addr i n w s.w_low l

-- The arrays lead from the places of the connection back to it.
pub record IsFound (readers writers : Pointers) (c : Polled) : Type 0 where
  pub reads : c.conn.read_eof ≡ false → get_or readers c.rpoll none ≡ some c.addr
  pub writes : c.conn.write_err ≡ 0 → get_or writers c.wpoll none ≡ some c.addr
  pub nets : c.server ≡ false → get_or readers c.npoll none ≡ some c.addr

All-IsFound :
    (n : ℕ) (cs : List Polled) (r w : Pointers)
    → 1 ≤ n
    → (all_slots n cs).0 ≤ length r
    → (all_slots n cs).0 ≤ length w
    → let cs' = (all_slots n cs).1 in All (IsFound (fill_readers cs' r) (fill_writers cs' w)) cs'
unfolding all_slots fill_readers fill_writers
All-IsFound n [] r w h lr lw = tt
All-IsFound n (c ∷ cs) r w h lr lw =
    let s = slots-Slots n c h in
    let m = (slots n c).0 in
    let c' = (slots n c).1 in
    let one : 1 ≤ m = omega (arith, h, s.grows) in
    let low = all_slots_le m cs one in
    let r1 = put c'.rpoll c'.addr r in
    let r2 = put c'.npoll c'.addr r1 in
    let w1 = put c'.wpoll c'.addr w in
    let len1 = length-put c'.rpoll c'.addr r in
    let len2 = length-put c'.npoll c'.addr r1 in
    let len3 = length-put c'.wpoll c'.addr w in
    let apart : (c'.npoll ≡ 0) ⊎ (c'.npoll ≢ c'.rpoll) = elim s.apart [
      | inl e ↦ inl e
      | inr l ↦ inr (λ e. absurd (omega (arith, l, e)))
    ] in
    (
      record {
        reads = λ e.
            readers_keep m cs r2 c'.rpoll one s.r_high
            ∙ put_other c'.npoll c'.addr c'.rpoll r1 apart
            ∙ put_self c'.rpoll c'.addr r (omega (arith, h, s.reads e))
                (omega (arith, s.r_high, low, lr));
        writes = λ e.
            writers_keep m cs w1 c'.wpoll one s.w_high
            ∙ put_self c'.wpoll c'.addr w (omega (arith, h, s.writes e))
                (omega (arith, s.w_high, low, lw));
        nets = λ e.
            readers_keep m cs r2 c'.npoll one s.n_high
            ∙ put_self c'.npoll c'.addr r1 (omega (arith, h, s.nets e))
                (omega (arith, s.n_high, low, lr, len1));
      },
      All-IsFound m cs r2 w1 one (omega (arith, lr, len1, len2)) (omega (arith, lw, len3)),
    )

-- After `conn_mkevents` the arrays that `conn_poll` looks into lead from each place back to the
-- connection that has it, whatever other connections there are: the place of a connection that is not
-- at its end of input to the connection as a reader, that of one whose output has not failed to it as
-- a writer, and that of a client's network socket to the connection as a reader.
pub mkevents-IsFound :
    (listen : Event) (conns : List Polled)
    → let p = conn_mkevents listen conns in All (IsFound p.evreaders p.evwriters) p.conns
unfolding conn_mkevents
mkevents-IsFound listen conns =
    let n = (all_slots 2 conns).0 in
    let len = length-replicate {A = Option ℕ} n none in
    All-IsFound 2 conns (replicate n none) (replicate n none) (omega arith) (omega (arith, len))
      (omega (arith, len))
