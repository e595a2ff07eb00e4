-- ===== src/Tcp/Loop.antt =====
-- The event loop of cs144/tcp/rlib.c, `conn_poll`. What `poll`, `recv` and the clock give is an
-- argument. A connection is found by its address, as in Tcp/Conn/Poll. The masks of the events that
-- change between two calls of `conn_mkevents` are left out: `poll` says which events there are.
pub mod Calls
pub mod Events
pub mod Pointers
pub mod Safety
pub mod Client
use stanford.Prelude.{
  ℕ, zero, suc, ◌+◌, Bool, true, false, not, ◌&&◌, ◌||◌, Option, none, some, List, [], ◌∷◌, ◌++◌,
  ◌==◌, if◌then◌else◌, get_or, set, length, map,
}
use stanford.Tcp.Packet.{read_pkt}
use stanford.Tcp.Conn.{Conn, is_nil, conn_drain, conn_destroy}
use stanford.Tcp.Conn.Poll.{Polled, Polls, Event, no_event, conn_mkevents, Timespec, need_timer_in}
use stanford.Tcp.State.{Rel}
use stanford.Tcp.Sender.{rel_read, retransmit_pkt}
use stanford.Tcp.Receiver.{rel_output}
use stanford.Tcp.Session.{rel_recvpkt, should_close_conn}

-- How a piece of the loop ends: it goes on, the program exits, a session faults, or a session or a
-- connection is used whose memory was freed.
pub data Result {ℓ} (A : Type ℓ) : Type ℓ where
  going : A → Result A
  exited fault freed_use : Result A

infixl 5 ◌>>=◌
abbrev pub ◌>>=◌ {ℓ κ} : {A : Type ℓ} {B : Type κ} → Result A → (A → Result B) → Result B
going a >>= f = f a
exited >>= f = exited
fault >>= f = fault
freed_use >>= f = freed_use

-- A connection in `conn_list` with its session, which is freed by `rel_destroy`. The session's view
-- of the connection is the connection.
pub record Live : Type 0 where
  pub polled : Polled
  pub rel : Option Rel

abbrev pub conn_of : Live → Conn
conn_of l = l.polled.conn

abbrev pub with_conn : Live → Conn → Live
with_conn l c = record l { polled = record l.polled { conn = c } }

unfoldable pub after_call : Live → Option Rel → Result Live
after_call l none = fault
after_call l (some r) = going (record { polled = record l.polled { conn = r.c }; rel = some r })

-- A call into the session.
unfoldable pub call_session : Live → Option Rel → (Rel → Option Rel) → Result Live
call_session l none f = freed_use
call_session l (some r) f = after_call l (f (record r { c = conn_of l }))

-- `rel_destroy`.
unfoldable pub destroy_session : Live → Option Rel → Result Live
destroy_session l none = freed_use
destroy_session l (some r) =
    going (record { polled = record l.polled { conn = conn_destroy (conn_of l) }; rel = none })

-- `revents` of a descriptor.
pub record Revents : Type 0 where
  pub pollin : Bool
  pub pollout : Bool
  pub pollerr : Bool
  pub pollhup : Bool

abbrev pub broken : Revents → Bool
broken ev = ev.pollhup || ev.pollerr

-- What `recv` gives: a datagram, with what the buffer holds behind it, or an error.
pub data Received : Type 0 where
  received : List ℕ → List ℕ → Received
  nothing : Received

unfoldable pub recv_datagram : Live → Received → ℕ → Result Live
recv_datagram l nothing now = going l
recv_datagram l (received bytes stale) now =
    call_session l l.rel (λ r. rel_recvpkt r (read_pkt (bytes ++ stale)) (length bytes) now)

-- The connection that reads from descriptor `fd`; `single` is `cc->single_connection`.
unfoldable pub on_readable : Bool → Revents → ℕ → Received → ℕ → Live → Result Live
on_readable single ev fd pkt now l =
    if (conn_of l).delete_me
    then going l
    else (if fd == l.polled.rfd
        then call_session (with_conn l (record (conn_of l) { xoff = true })) l.rel
            (λ r. rel_read r now)
        else (if fd == l.polled.nfd && broken ev
            then (if single then exited else destroy_session l l.rel)
            else (if fd == l.polled.nfd && not l.polled.server
                then recv_datagram l pkt now
                else going l)))

-- `conn_drain` and the `rel_output` at its end.
unfoldable pub drain_live : Live → Result Live
drain_live l =
    let (c', didsome) = conn_drain (conn_of l) in
    if didsome then call_session (with_conn l c') l.rel rel_output else going (with_conn l c')

-- The connection at an address. An address that no connection has is one that was freed.
unfoldable pub at_address : ℕ → (Live → Result Live) → List Live → Result (List Live)
at_address a f [] = freed_use
at_address a f (l ∷ ls) =
    if l.polled.addr == a
    then (f l >>= λ l'. going (l' ∷ ls))
    else (at_address a f ls >>= λ ls'. going (l ∷ ls'))

unfoldable pub at_pointer : Bool → Option ℕ → (Live → Result Live) → List Live → Result (List Live)
at_pointer false p f ls = going ls
at_pointer true none f ls = going ls
at_pointer true (some a) f ls = at_address a f ls

-- `changed` says that `cevents_generation` was moved.
pub record Loop : Type 0 where
  pub polls : Polls
  pub lives : List Live
  pub changed : Bool

-- What `poll` says about a place, and what `recv` there would give.
pub record Readiness : Type 0 where
  pub revents : Revents
  pub datagram : Received

-- The descriptor at a place.
abbrev pub descriptor : List Event → ℕ → Option ℕ
descriptor es i = (get_or es i no_event).fd

unfoldable pub hang_up : ℕ → Option ℕ → Loop → Result Loop
hang_up i none s = going s
hang_up i (some fd) s =
    if fd == 2
    then exited
    else going (record s {
      polls = record s.polls {
        cevents = set s.polls.cevents i (record (get_or s.polls.cevents i no_event) { fd = none });
      };
    })

abbrev pub fd_of : Option ℕ → ℕ
fd_of none = 4294967295
fd_of (some fd) = fd

-- One round of the `for` over the descriptors.
unfoldable pub on_event : Bool → ℕ → ℕ → Readiness → Loop → Result Loop
on_event single now i e s =
    let ev = e.revents in
    let fd = descriptor s.polls.cevents i in
    at_pointer (ev.pollin || broken ev) (get_or s.polls.evreaders i none)
      (on_readable single ev (fd_of fd) e.datagram now) s.lives
    >>= λ ls.
        at_pointer (ev.pollout || broken ev) (get_or s.polls.evwriters i none) drain_live ls
        >>= λ ls'.
            let s' = record s { lives = ls' } in if broken ev then hang_up i fd s' else going s'

unfoldable pub on_events : Bool → ℕ → ℕ → List Readiness → Loop → Result Loop
on_events single now i [] s = going s
on_events single now i (e ∷ es) s = on_event single now i e s >>= on_events single now (i + 1) es

unfoldable pub close_finished : Live → Option Rel → Result Live
close_finished l none = going l
close_finished l (some r) = if should_close_conn r then destroy_session l (some r) else going l

-- `rel_timer` for the session of a connection. Sessions and connections stand in the same order.
unfoldable pub tick_session : Live → Option Rel → ℕ → Result Live
tick_session l none now = going l
tick_session l (some r) now =
    call_session l (some r) (λ r'. retransmit_pkt r' now) >>= λ l'. close_finished l' l'.rel

unfoldable pub tick : List Live → ℕ → Result (List Live)
tick [] now = going []
tick (l ∷ ls) now = tick_session l l.rel now >>= λ l'. tick ls now >>= λ ls'. going (l' ∷ ls')

-- A connection that is to be deleted and has nothing left to write.
abbrev pub is_finished : Live → Bool
is_finished l =
    (conn_of l).delete_me && (not ((conn_of l).write_err == 0) || is_nil (conn_of l).outq)

-- The last loop: `conn_free` of the finished connections, which also says that the places changed.
unfoldable pub free_conns : List Live → List Live × Bool
free_conns [] = ([], false)
free_conns (l ∷ ls) =
    let (ls', changed) = free_conns ls in if is_finished l then (ls', true) else (l ∷ ls', changed)

unfoldable pub with_polled : List Live → List Polled → List Live
with_polled (l ∷ ls) (p ∷ ps) = record l { polled = p } ∷ with_polled ls ps
with_polled ls _ = ls

-- `conn_mkevents` when the connections have changed.
unfoldable pub refresh : Loop → Loop
refresh s =
    if s.changed
    then (let p = conn_mkevents (get_or s.polls.cevents 0 no_event) (map (λ l. l.polled) s.lives) in
        record { polls = p; lives = with_polled s.lives p.conns; changed = false })
    else s

unfoldable pub finish : Bool → ℕ → Loop → Result Loop
finish due now s = (if due then tick s.lives now else going s.lives) >>= λ ls.
    let (ls', changed) = free_conns ls in
    going (record s { lives = ls'; changed = s.changed || changed })

-- `events` is what `poll` returns for the places from 1 on; `last`, `ts` and `timer` are for
-- `need_timer_in` after the events.
unfoldable pub conn_poll :
    Bool → Timespec → Timespec → ℕ → ℕ → (Loop → List Readiness) → Loop → Result Loop
conn_poll single last ts timer now poll s =
    let s' = refresh s in
    on_events single now 1 (poll s') s' >>= finish (need_timer_in last ts timer == 0) now
