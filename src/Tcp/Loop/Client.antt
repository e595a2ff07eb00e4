-- ===== src/Tcp/Loop/Client.antt =====
-- `do_client` of rlib.c: the event loop, and new connections of the local side in between.
use stanford.Prelude.{
  ℕ, Bool, true, false, Option, none, some, List, [], ◌∷◌, get_or, All, if◌then◌else◌,
}
use stanford.Tcp.Conn.{OsRead, OsWrite, OsSend}
use stanford.Tcp.Conn.Poll.{Polled, Timespec, Event, no_event, conn_mkevents}
use stanford.Tcp.State.{Config, unspec, new_rel}
use stanford.Tcp.Loop.{Result, going, ◌>>=◌, Readiness, Loop, conn_poll, refresh, with_polled}
use stanford.Tcp.Loop.Calls.{Ensures, bind-Ensures, IsSound}
use stanford.Tcp.Loop.Pointers.{refreshed-InRound}
use stanford.Tcp.Loop.Safety.{IsSafe, conn_poll-IsSafe}

-- What the system calls on the descriptors of a connection do.
pub record Script : Type 0 where
  pub reads : List OsRead
  pub writes : List OsWrite
  pub sends : List OsSend

-- `xmalloc` gives the address.
unfoldable pub conn_alloc : ℕ → Script → Polled
conn_alloc addr os = record {
  addr = addr;
  conn = record {
    read_eof = false;
    write_eof = false;
    write_err = 0;
    xoff = false;
    delete_me = false;
    outq = [];
    reads = os.reads;
    writes = os.writes;
    sends = os.sends;
    written = [];
    is_shut = false;
    network = [];
  };
  rfd = 0;
  wfd = 0;
  nfd = 0;
  server = false;
  rpoll = 0;
  wpoll = 0;
  npoll = 0;
}

-- `conn_create` of a server: `n` is what `connect_to` returned, and `none` its -1.
unfoldable pub conn_create : Option ℕ → ℕ → ℕ → Script → Option Polled
conn_create none udp_socket addr os = none
conn_create (some n) udp_socket addr os =
    some (record (conn_alloc addr os) { nfd = udp_socket; rfd = n; wfd = n; server = true })

-- One pass of the loop of `do_client`: the clock, what `poll` returns, whether the listening socket
-- has an event, and what `accept` and `connect_to` return then.
pub record Round : Type 0 where
  pub last : Timespec
  pub ts : Timespec
  pub now : ℕ
  pub poll : Loop → List Readiness
  pub listening : Bool
  pub accepted : Option ℕ
  pub connected : Option ℕ
  pub addr : ℕ
  pub os : Script

-- The call of `conn_mkevents`, which leaves the count of `conn_alloc` as it is.
unfoldable pub make_events : Loop → Loop
unfolding refresh
make_events s = record (refresh (record s { changed = true })) { changed = true }

unfoldable pub accept_client : Option ℕ → Option ℕ → ℕ → Script → Config → Loop → Loop
accept_client none connected addr os cfg s = s
accept_client (some fd) none addr os cfg s = s
accept_client (some fd) (some u) addr os cfg s =
    let c = record (conn_alloc addr os) { rfd = fd; wfd = fd; nfd = u } in
    make_events
      (record s { lives = record { polled = c; rel = some (new_rel c.conn unspec cfg) } ∷ s.lives })

unfoldable pub client_round : Bool → ℕ → Config → Round → Loop → Result Loop
client_round single timer cfg t s = conn_poll single t.last t.ts timer t.now t.poll s >>= λ s'.
    going (if t.listening then accept_client t.accepted t.connected t.addr t.os cfg s' else s')

unfoldable pub client_rounds : Bool → ℕ → Config → List Round → Loop → Result Loop
client_rounds single timer cfg [] s = going s
client_rounds single timer cfg (t ∷ ts) s =
    client_round single timer cfg t s >>= client_rounds single timer cfg ts

-- `listen` is the event of the listening socket.
unfoldable pub do_client : Event → Bool → ℕ → Config → List Round → Result Loop
do_client listen single timer cfg ts =
    client_rounds single timer cfg ts
      (record { polls = conn_mkevents listen []; lives = []; changed = false })

make_events-IsSafe : (s : Loop) → All IsSound s.lives → IsSafe (make_events s)
unfolding make_events
make_events-IsSafe s h =
    let r = refreshed-InRound (get_or s.polls.cevents 0 no_event) s.lives h in
    record { sound = r.sound; readers = λ e. r.readers; writers = λ e. r.writers }

accept_client-IsSafe :
    (a b : Option ℕ) (addr : ℕ) (os : Script) (cfg : Config) (s : Loop)
    → IsSafe s
    → IsSafe (accept_client a b addr os cfg s)
unfolding accept_client
accept_client-IsSafe none b addr os cfg s h = h
accept_client-IsSafe (some fd) none addr os cfg s h = h
accept_client-IsSafe (some fd) (some u) addr os cfg s h =
    make_events-IsSafe _ (record { deleted = λ e. cc }, h.sound)

client_round-IsSafe :
    (single : Bool) (timer : ℕ) (cfg : Config) (t : Round) (s : Loop)
    → IsSafe s
    → Ensures IsSafe (client_round single timer cfg t s)
unfolding client_round
client_round-IsSafe single timer cfg t s h =
    bind-Ensures IsSafe IsSafe (conn_poll single t.last t.ts timer t.now t.poll s) _
      (conn_poll-IsSafe single t.last t.ts timer t.now t.poll s h) (λ s' k. both t.listening s' k)
  where
    both :
        (b : Bool) (s' : Loop)
        → IsSafe s'
        → IsSafe (if b then accept_client t.accepted t.connected t.addr t.os cfg s' else s')
    both true s' k = accept_client-IsSafe t.accepted t.connected t.addr t.os cfg s' k
    both false s' k = k

client_rounds-IsSafe :
    (single : Bool) (timer : ℕ) (cfg : Config) (ts : List Round) (s : Loop)
    → IsSafe s
    → Ensures IsSafe (client_rounds single timer cfg ts s)
unfolding client_rounds
client_rounds-IsSafe single timer cfg [] s h = h
client_rounds-IsSafe single timer cfg (t ∷ ts) s h =
    bind-Ensures IsSafe IsSafe (client_round single timer cfg t s)
      (client_rounds single timer cfg ts) (client_round-IsSafe single timer cfg t s h)
      (λ s' k. client_rounds-IsSafe single timer cfg ts s' k)

-- However many rounds a client runs, whatever connections it accepts, and whatever `poll`, `recv` and
-- the clock say: it never uses a session after `rel_destroy` freed it, never follows a pointer of the
-- poll arrays to a connection that `conn_free` freed, and between two rounds each connection without
-- a session is marked for deletion.
pub do_client-IsSafe :
    (listen : Event) (single : Bool) (timer : ℕ) (cfg : Config) (ts : List Round)
    → Ensures IsSafe (do_client listen single timer cfg ts)
unfolding do_client with_polled
do_client-IsSafe listen single timer cfg ts = client_rounds-IsSafe single timer cfg ts _ (
    let p = refreshed-InRound listen [] tt in
    record { sound = tt; readers = λ e. p.readers; writers = λ e. p.writers })
