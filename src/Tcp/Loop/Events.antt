-- ===== src/Tcp/Loop/Events.antt =====
-- The events of `conn_poll` of rlib.c: each goes to a connection that is still there.
use stanford.Prelude.{
  ℕ, ◌+◌, ◌≡◌, refl, sym, ap₂, ◌∙◌, inl, inr, ◌⊎◌, Bool, true, false, ◌||◌, Option, none, some,
  List, [], ◌∷◌, ◌==◌, if◌then◌else◌, get_or, map, arith, All, Bool-cases, subst,
}
use stanford.Tcp.Loop.{
  Result, going, exited, fault, freed_use, Live, broken, Readiness, Loop, on_readable, drain_live,
  at_address, at_pointer, hang_up, on_event, on_events, fd_of, descriptor,
}
use stanford.Tcp.Loop.Calls.{
  Ensures, bind-Ensures, IsSound, Kept, on_readable-Kept, drain_live-Kept,
}

abbrev pub addr_of : Live → ℕ
addr_of l = l.polled.addr

-- An address that a connection of the list has.
abbrev pub Known : ℕ → List ℕ → Type 0
Known a [] = ⊥
Known a (x ∷ xs) = (x ≡ a) ⊎ Known a xs

-- The same connections, each of them still sound.
pub record AllKept (ls ls' : List Live) : Type 0 where
  pub sound : All IsSound ls'
  pub addrs : map addr_of ls' ≡ map addr_of ls

pub AllKept-refl : (ls : List Live) → All IsSound ls → AllKept ls ls
AllKept-refl ls h = record { sound = h; addrs = refl }

pub AllKept-trans : (a b c : List Live) → AllKept a b → AllKept b c → AllKept a c
AllKept-trans a b c h k = record { sound = k.sound; addrs = k.addrs ∙ h.addrs }

weaken :
    (a b : List Live) (o : Result (List Live))
    → AllKept a b
    → Ensures (AllKept b) o
    → Ensures (AllKept a) o
weaken a b (going c) h k = AllKept-trans a b c h k
weaken a b exited h k = tt
weaken a b fault h k = tt
weaken a b freed_use h k = k

pub AllKept-cons :
    (l l' : Live) (ls ls' : List Live) → Kept l l' → AllKept ls ls' → AllKept (l ∷ ls) (l' ∷ ls')
AllKept-cons l l' ls ls' k h = record {
  sound = (k.sound, h.sound);
  addrs = ap₂ (λ (a : ℕ) (xs : List ℕ). a ∷ xs) k.addr h.addrs;
}

Known-tail : (a x : ℕ) (xs : List ℕ) → (x == a) ≡ false → Known a (x ∷ xs) → Known a xs
Known-tail a x xs e (inl q) = absurd (ground (arith, e, q))
Known-tail a x xs e (inr k) = k

module _ (f : Live → Result Live) (keeps : (l : Live) → IsSound l → Ensures (Kept l) (f l)) where
  at_address-AllKept :
      (a : ℕ) (ls : List Live)
      → Known a (map addr_of ls)
      → All IsSound ls
      → Ensures (AllKept ls) (at_address a f ls)
  unfolding at_address
  at_address-AllKept a [] k h = absurd k
  at_address-AllKept a (l ∷ ls) k h = elim (Bool-cases (addr_of l == a)) [
    | inl e ↦ rw e (
        bind-Ensures (Kept l) (AllKept (l ∷ ls)) (f l) _ (keeps l h.0)
          (λ l' q. AllKept-cons l l' ls ls q (AllKept-refl ls h.1)))
    | inr e ↦ rw e (
        bind-Ensures (AllKept ls) (AllKept (l ∷ ls)) (at_address a f ls) _
          (at_address-AllKept a ls (Known-tail a (addr_of l) (map addr_of ls) e k) h.1)
          (λ ls' q. AllKept-cons l l ls ls' (record { sound = h.0; addr = refl }) q))
  ]

  at_pointer-AllKept :
      (b : Bool) (p : Option ℕ) (ls : List Live)
      → ((a : ℕ) → p ≡ some a → Known a (map addr_of ls))
      → All IsSound ls
      → Ensures (AllKept ls) (at_pointer b p f ls)
  unfolding at_pointer
  at_pointer-AllKept false p ls k h = AllKept-refl ls h
  at_pointer-AllKept true none ls k h = AllKept-refl ls h
  at_pointer-AllKept true (some a) ls k h = at_address-AllKept a ls (k a refl) h

-- Every pointer of an array is to a connection of the list.
abbrev pub Valid : List (Option ℕ) → List ℕ → Type 0
Valid ps xs = (i a : ℕ) → get_or ps i none ≡ some a → Known a xs

-- During the events the arrays are valid.
pub record InRound (s : Loop) : Type 0 where
  pub sound : All IsSound s.lives
  pub readers : Valid s.polls.evreaders (map addr_of s.lives)
  pub writers : Valid s.polls.evwriters (map addr_of s.lives)

pub Valid-subst : (ps : List (Option ℕ)) (xs ys : List ℕ) → ys ≡ xs → Valid ps xs → Valid ps ys
Valid-subst ps xs ys e v i a q = subst (Known a) (sym e) (v i a q)

pub hang_up-InRound :
    (i : ℕ) (fd : Option ℕ) (s : Loop) → InRound s → Ensures InRound (hang_up i fd s)
unfolding hang_up
hang_up-InRound i none s h = h
hang_up-InRound i (some fd) s h = elim (Bool-cases (fd == 2)) [
  | inl e ↦ rw e tt
  | inr e ↦ rw e (record { sound = h.sound; readers = h.readers; writers = h.writers })
]

hung_up :
    (b : Bool) (i : ℕ) (fd : Option ℕ) (s : Loop)
    → InRound s
    → Ensures InRound (if b then hang_up i fd s else going s)
hung_up true i fd s h = hang_up-InRound i fd s h
hung_up false i fd s h = h

pub on_event-InRound :
    (single : Bool) (now i : ℕ) (e : Readiness) (s : Loop)
    → InRound s
    → Ensures InRound (on_event single now i e s)
unfolding on_event
on_event-InRound single now i e s h =
    let ev = e.revents in
    let fd = descriptor s.polls.cevents i in
    bind-Ensures (AllKept s.lives) InRound
      (at_pointer (ev.pollin || broken ev) (get_or s.polls.evreaders i none)
        (on_readable single ev (fd_of fd) e.datagram now) s.lives)
      _
      (at_pointer-AllKept (on_readable single ev (fd_of fd) e.datagram now)
        (on_readable-Kept single ev (fd_of fd) e.datagram now) (ev.pollin || broken ev)
        (get_or s.polls.evreaders i none) s.lives (h.readers i) h.sound)
      (λ ls k.
        bind-Ensures (AllKept s.lives) InRound
          (at_pointer (ev.pollout || broken ev) (get_or s.polls.evwriters i none) drain_live ls) _
          (drains ls k)
          (λ ls' k'.
            hung_up (broken ev) i fd (record s { lives = ls' })
              (record {
                sound = k'.sound;
                readers = Valid-subst s.polls.evreaders _ _ k'.addrs h.readers;
                writers = Valid-subst s.polls.evwriters _ _ k'.addrs h.writers;
              })))
  where
    drains :
        (ls : List Live)
        → AllKept s.lives ls
        → Ensures (AllKept s.lives) (
            at_pointer
              (e.revents.pollout || broken e.revents)
              (get_or s.polls.evwriters i none)
              drain_live
              ls)
    drains ls k =
        weaken s.lives ls
          (at_pointer (e.revents.pollout || broken e.revents) (get_or s.polls.evwriters i none)
            drain_live ls)
          k
          (at_pointer-AllKept drain_live drain_live-Kept (e.revents.pollout || broken e.revents)
            (get_or s.polls.evwriters i none) ls
            (Valid-subst s.polls.evwriters _ _ k.addrs h.writers i) k.sound)

pub on_events-InRound :
    (single : Bool) (now i : ℕ) (es : List Readiness) (s : Loop)
    → InRound s
    → Ensures InRound (on_events single now i es s)
unfolding on_events
on_events-InRound single now i [] s h = h
on_events-InRound single now i (e ∷ es) s h =
    bind-Ensures InRound InRound (on_event single now i e s) (on_events single now (i + 1) es)
      (on_event-InRound single now i e s h) (λ s' h'. on_events-InRound single now (i + 1) es s' h')
