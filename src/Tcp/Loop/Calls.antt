-- ===== src/Tcp/Loop/Calls.antt =====
-- What `conn_poll` of rlib.c calls for one connection uses its session only while it is there.
use stanford.Prelude.{
  ℕ, ◌≡◌, ◌≢◌, refl, ◌∙◌, Bool, true, false, not, ◌&&◌, Option, none, some, List, [], ◌∷◌, ◌==◌,
  if◌then◌else◌, arith, take, drop, ◌++◌,
}
use stanford.Tcp.Conn.{
  Conn, Chunk, OsWrite, os_write, drain_chunk, drain_queue, conn_drain, conn_destroy,
}
use stanford.Tcp.State.{Rel}
use stanford.Tcp.Sender.{rel_read, retransmit_pkt}
use stanford.Tcp.Receiver.{rel_output}
use stanford.Tcp.Session.{should_close_conn}
use stanford.Tcp.Loop.{
  Result, going, exited, fault, freed_use, ◌>>=◌, Live, conn_of, with_conn, after_call,
  call_session, destroy_session, Revents, broken, Received, received, nothing, recv_datagram,
  on_readable, drain_live, close_finished, tick_session,
}

-- What holds when the loop goes on; and nothing that was freed is used.
abbrev pub Ensures {ℓ} : {A : Type ℓ} → (A → Type 0) → Result A → Type 0
Ensures P (going a) = P a
Ensures P exited = Unit {0}
Ensures P fault = Unit {0}
Ensures P freed_use = ⊥

pub bind-Ensures {ℓ κ} :
    {A : Type ℓ} {B : Type κ} (P : A → Type 0) (Q : B → Type 0) (o : Result A) (f : A → Result B)
    → Ensures P o
    → ((a : A) → P a → Ensures Q (f a))
    → Ensures Q (o >>= f)
bind-Ensures P Q (going a) f h k = k a h
bind-Ensures P Q exited f h k = tt
bind-Ensures P Q fault f h k = tt
bind-Ensures P Q freed_use f h k = absurd h

-- A connection without a session is to be deleted.
pub record IsSound (l : Live) : Type 0 where
  pub deleted : l.rel ≡ none → (conn_of l).delete_me ≡ true

-- After a call for one connection.
pub record Kept (l l' : Live) : Type 0 where
  pub sound : IsSound l'
  pub addr : l'.polled.addr ≡ l.polled.addr

if-Ensures :
    (P : Live → Type 0) (b : Bool) (x y : Result Live)
    → (b ≡ true → Ensures P x)
    → (b ≡ false → Ensures P y)
    → Ensures P (if b then x else y)
if-Ensures P true x y h k = h refl
if-Ensures P false x y h k = k refl

after_call-Kept : (l : Live) (o : Option Rel) → Ensures (Kept l) (after_call l o)
unfolding after_call
after_call-Kept l none = tt
after_call-Kept l (some r) = record { sound = record { deleted = λ e. cc }; addr = refl }

call_session-Kept :
    (l : Live) (o : Option Rel) (f : Rel → Option Rel)
    → o ≢ none
    → Ensures (Kept l) (call_session l o f)
unfolding call_session
call_session-Kept l none f ne = absurd (ne refl)
call_session-Kept l (some r) f ne = after_call-Kept l (f (record r { c = conn_of l }))

destroy_session-Kept :
    (l : Live) (o : Option Rel) → o ≢ none → Ensures (Kept l) (destroy_session l o)
unfolding destroy_session conn_destroy
destroy_session-Kept l none ne = absurd (ne refl)
destroy_session-Kept l (some r) ne = record { sound = record { deleted = λ e. refl }; addr = refl }

Kept-refl : (l : Live) → IsSound l → Kept l l
Kept-refl l h = record { sound = h; addr = refl }

-- The session of a connection that is not to be deleted is there.
has_session : (l : Live) → IsSound l → (conn_of l).delete_me ≡ false → l.rel ≢ none
has_session l h e n = let d = h.deleted n in absurd (ground (arith, e, d))

recv_datagram-Kept :
    (l : Live) (pkt : Received) (now : ℕ)
    → IsSound l
    → l.rel ≢ none
    → Ensures (Kept l) (recv_datagram l pkt now)
unfolding recv_datagram
recv_datagram-Kept l nothing now h ne = Kept-refl l h
recv_datagram-Kept l (received bytes stale) now h ne = call_session-Kept l l.rel _ ne

exit_or_destroy :
    (single : Bool) (l : Live)
    → l.rel ≢ none
    → Ensures (Kept l) (if single then exited else destroy_session l l.rel)
exit_or_destroy true l ne = tt
exit_or_destroy false l ne = destroy_session-Kept l l.rel ne

same_addr-Kept :
    (l x : Live) (o : Result Live)
    → x.polled.addr ≡ l.polled.addr
    → Ensures (Kept x) o
    → Ensures (Kept l) o
same_addr-Kept l x (going y) e k = record { sound = k.sound; addr = k.addr ∙ e }
same_addr-Kept l x exited e k = tt
same_addr-Kept l x fault e k = tt
same_addr-Kept l x freed_use e k = k

-- A call into the session of `l` over another state of its connection.
call_over-Kept :
    (l : Live) (c : Conn) (f : Rel → Option Rel)
    → l.rel ≢ none
    → Ensures (Kept l) (call_session (with_conn l c) l.rel f)
call_over-Kept l c f ne =
    same_addr-Kept l (with_conn l c) (call_session (with_conn l c) l.rel f) refl
      (call_session-Kept (with_conn l c) l.rel f ne)

pub on_readable-Kept :
    (single : Bool) (ev : Revents) (fd : ℕ) (pkt : Received) (now : ℕ) (l : Live)
    → IsSound l
    → Ensures (Kept l) (on_readable single ev fd pkt now l)
unfolding on_readable
on_readable-Kept single ev fd pkt now l h =
    if-Ensures (Kept l) (conn_of l).delete_me _ _ (λ e. Kept-refl l h)
      (λ e.
        let ne = has_session l h e in
        if-Ensures (Kept l) (fd == l.polled.rfd) _ _
          (λ _. call_over-Kept l (record (conn_of l) { xoff = true }) (λ r. rel_read r now) ne)
          (λ _.
            if-Ensures (Kept l) (fd == l.polled.nfd && broken ev) _ _
              (λ _. exit_or_destroy single l ne)
              (λ _.
                if-Ensures (Kept l) (fd == l.polled.nfd && not l.polled.server) _ _
                  (λ _. recv_datagram-Kept l pkt now h ne) (λ _. Kept-refl l h))))

abbrev KeepsMark : (Conn → Bool → List Chunk × Conn × Bool) → Type 0
KeepsMark next = (c : Conn) (did : Bool) → (next c did).1.delete_me ≡ c.delete_me

drain_chunk_mark :
    (ch : Chunk) (w : OsWrite × List OsWrite) (next : Conn → Bool → List Chunk × Conn × Bool)
    (rest : List Chunk)
    → KeepsMark next
    → KeepsMark (λ c did. drain_chunk c ch w next did rest)
unfolding drain_chunk
drain_chunk_mark ch (OsWrite.failed, ws) next rest k c did = refl
drain_chunk_mark ch (OsWrite.blocked, ws) next rest k c did = refl
drain_chunk_mark ch (OsWrite.wrote n, ws) next rest k c did =
    let out = take n (drop ch.used ch.buf) in
    ground (arith, k (record c { writes = ws; written = c.written ++ out }) true)

drain_queue_mark : (chs : List Chunk) → KeepsMark (drain_queue chs)
unfolding drain_queue
drain_queue_mark [] c did = refl
drain_queue_mark (ch ∷ rest) c did =
    drain_chunk_mark ch (os_write c.writes) (λ c' did'. drain_queue rest c' did') rest
      (drain_queue_mark rest) c did

-- `conn_drain` leaves the mark for deletion, and calls the session of a connection without it only.
conn_drain_mark :
    (c : Conn)
    → ((conn_drain c).0.delete_me ≡ c.delete_me) × ((conn_drain c).1 ≡ true → c.delete_me ≡ false)
unfolding conn_drain
conn_drain_mark c =
    let m = drain_queue_mark c.outq c false in (ground (arith, m), λ e. ground (arith, e, m))

drained-Kept :
    (l : Live) (d : Conn × Bool)
    → IsSound l
    → d.0.delete_me ≡ (conn_of l).delete_me
    → (d.1 ≡ true → (conn_of l).delete_me ≡ false)
    → Ensures
        (Kept l)
        (if d.1 then call_session (with_conn l d.0) l.rel rel_output else going (with_conn l d.0))
drained-Kept l (c', true) h m live = call_over-Kept l c' rel_output (has_session l h (live refl))
drained-Kept l (c', false) h m live = record {
  sound = record { deleted = λ e. m ∙ h.deleted e };
  addr = refl;
}

pub drain_live-Kept : (l : Live) → IsSound l → Ensures (Kept l) (drain_live l)
unfolding drain_live
drain_live-Kept l h =
    let m = conn_drain_mark (conn_of l) in drained-Kept l (conn_drain (conn_of l)) h m.0 m.1

close_finished-Kept :
    (l : Live) (o : Option Rel) → IsSound l → Ensures (Kept l) (close_finished l o)
unfolding close_finished
close_finished-Kept l none h = Kept-refl l h
close_finished-Kept l (some r) h =
    if-Ensures (Kept l) (should_close_conn r) _ _ (λ _. destroy_session-Kept l (some r) (λ e. cc))
      (λ _. Kept-refl l h)

pub tick_session-Kept :
    (l : Live) (o : Option Rel) (now : ℕ) → IsSound l → Ensures (Kept l) (tick_session l o now)
unfolding tick_session
tick_session-Kept l none now h = Kept-refl l h
tick_session-Kept l (some r) now h =
    bind-Ensures (Kept l) (Kept l) (call_session l (some r) (λ r'. retransmit_pkt r' now)) _
      (call_session-Kept l (some r) (λ r'. retransmit_pkt r' now) (λ e. cc))
      (λ l' k.
        same_addr-Kept l l' (close_finished l' l'.rel) k.addr
          (close_finished-Kept l' l'.rel k.sound))
