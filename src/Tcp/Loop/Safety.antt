-- ===== src/Tcp/Loop/Safety.antt =====
-- `conn_poll` of rlib.c never uses a session or a connection after it was freed.
use stanford.Prelude.{
  ℕ, ◌≡◌, refl, sym, ap, ◌∙◌, inl, inr, Bool, true, false, ◌||◌, List, [], ◌∷◌, ◌==◌, if◌then◌else◌,
  get_or, map, arith, All, Bool-cases, subst,
}
use stanford.Tcp.Conn.Poll.{Timespec, need_timer_in, conn_mkevents, no_event}
use stanford.Tcp.Loop.{
  going, Live, Readiness, Loop, tick_session, tick, on_events, free_conns, with_polled, finish,
  refresh, conn_poll, is_finished,
}
use stanford.Tcp.Loop.Calls.{Ensures, bind-Ensures, IsSound, Kept, tick_session-Kept}
use stanford.Tcp.Loop.Events.{
  addr_of, AllKept, AllKept-refl, AllKept-cons, Valid, Valid-subst, InRound, on_events-InRound,
}
use stanford.Tcp.Loop.Pointers.{refreshed-InRound}

-- The sessions are sound, and the arrays are valid unless they are about to be made again.
pub record IsSafe (s : Loop) : Type 0 where
  pub sound : All IsSound s.lives
  pub readers : s.changed ≡ false → Valid s.polls.evreaders (map addr_of s.lives)
  pub writers : s.changed ≡ false → Valid s.polls.evwriters (map addr_of s.lives)

refresh-InRound : (s : Loop) → IsSafe s → InRound (refresh s)
unfolding refresh
refresh-InRound s h = elim (Bool-cases s.changed) [
  | inl e ↦
      subst InRound (sym (made s e))
        (refreshed-InRound (get_or s.polls.cevents 0 no_event) s.lives h.sound)
  | inr e ↦
      subst InRound (sym (kept s e))
        (record { sound = h.sound; readers = h.readers e; writers = h.writers e })
]
  where
    made :
        (s : Loop)
        → s.changed ≡ true
        → let p = conn_mkevents (get_or s.polls.cevents 0 no_event) (map (λ l. l.polled) s.lives) in
          refresh s ≡ record { polls = p; lives = with_polled s.lives p.conns; changed = false }
    made s e = ground (arith, e)

    kept : (s : Loop) → s.changed ≡ false → refresh s ≡ s
    kept s e = ground (arith, e)

tick-AllKept : (ls : List Live) (now : ℕ) → All IsSound ls → Ensures (AllKept ls) (tick ls now)
unfolding tick
tick-AllKept [] now h = AllKept-refl [] h
tick-AllKept (l ∷ ls) now h =
    bind-Ensures (Kept l) (AllKept (l ∷ ls)) (tick_session l l.rel now) _
      (tick_session-Kept l l.rel now h.0)
      (λ l' k.
        bind-Ensures (AllKept ls) (AllKept (l ∷ ls)) (tick ls now) _ (tick-AllKept ls now h.1)
          (λ ls' k'. AllKept-cons l l' ls ls' k k'))

-- Freeing leaves sound connections, and says so if it frees any.
free_conns-IsSound :
    (ls : List Live)
    → All IsSound ls
    → All IsSound (free_conns ls).0
      × ((free_conns ls).1 ≡ false → map addr_of (free_conns ls).0 ≡ map addr_of ls)
unfolding free_conns
free_conns-IsSound [] h = (tt, λ e. refl)
free_conns-IsSound (l ∷ ls) h = elim (Bool-cases (is_finished l)) [
  | inl e ↦ rw e ((free_conns-IsSound ls h.1).0, λ q. cc)
  | inr e ↦ rw e (
    (h.0, (free_conns-IsSound ls h.1).0),
    λ q. ap (λ (xs : List ℕ). addr_of l ∷ xs) ((free_conns-IsSound ls h.1).1 q),
  )
]

freed-IsSafe :
    (s : Loop) (ls : List Live)
    → InRound s
    → AllKept s.lives ls
    → IsSafe (record s { lives = (free_conns ls).0; changed = s.changed || (free_conns ls).1 })
freed-IsSafe s ls h k =
    let (sound, same) = free_conns-IsSound ls k.sound in
    record {
      sound = sound;
      readers = λ e. Valid-subst s.polls.evreaders _ _ (same (none_freed e) ∙ k.addrs) h.readers;
      writers = λ e. Valid-subst s.polls.evwriters _ _ (same (none_freed e) ∙ k.addrs) h.writers;
    }
  where
    none_freed : (s.changed || (free_conns ls).1) ≡ false → (free_conns ls).1 ≡ false
    none_freed e = ground (arith, e)

ticked :
    (due : Bool) (ls : List Live) (now : ℕ)
    → All IsSound ls
    → Ensures (AllKept ls) (if due then tick ls now else going ls)
ticked true ls now h = tick-AllKept ls now h
ticked false ls now h = AllKept-refl ls h

finish-IsSafe : (due : Bool) (now : ℕ) (s : Loop) → InRound s → Ensures IsSafe (finish due now s)
unfolding finish
finish-IsSafe due now s h =
    bind-Ensures (AllKept s.lives) IsSafe (if due then tick s.lives now else going s.lives) _
      (ticked due s.lives now h.sound) (λ ls k. freed-IsSafe s ls h k)

-- In the event loop, let every connection without a session be marked for deletion, and let the
-- pointers of the poll arrays be to connections of the list unless the arrays are about to be made
-- again. Then a round of `conn_poll`, whatever `poll`, `recv` and the clock say, uses no session that
-- was freed and follows no pointer to a connection that was freed; and when it goes on, the same holds
-- again.
pub conn_poll-IsSafe :
    (single : Bool) (last ts : Timespec) (timer now : ℕ) (poll : Loop → List Readiness) (s : Loop)
    → IsSafe s
    → Ensures IsSafe (conn_poll single last ts timer now poll s)
unfolding conn_poll
conn_poll-IsSafe single last ts timer now poll s h =
    bind-Ensures InRound IsSafe (on_events single now 1 (poll (refresh s)) (refresh s))
      (finish (need_timer_in last ts timer == 0) now)
      (on_events-InRound single now 1 (poll (refresh s)) (refresh s) (refresh-InRound s h))
      (finish-IsSafe (need_timer_in last ts timer == 0) now)
