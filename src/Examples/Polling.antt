-- ===== src/Examples/Polling.antt =====
-- The poll masks and the timer of the transport.
use stanford.Prelude.{◌+◌, ◌*◌, ◌/◌, ◌<◌, ◌≤◌, ◌≡◌, refl, true, false, [], ◌∷◌, arith, All}
use stanford.Tcp.Conn.{Conn}
use stanford.Tcp.Conn.Poll.{Polled, no_event, conn_mkevents, Timespec, need_timer_in}
use stanford.Tcp.Conn.Poll.Dispatch.{IsFound, mkevents-IsFound}
use stanford.Tcp.Conn.Poll.Timer.{nanoseconds, need_timer_in-due}

abbrev open_conn : Conn
open_conn = record {
  read_eof = false;
  write_eof = false;
  write_err = 0;
  xoff = false;
  delete_me = false;
  outq = [];
  reads = [];
  writes = [];
  sends = [];
  written = [];
  is_shut = false;
  network = [];
}

-- A client on its terminal, and a session of a server.
abbrev client : Polled
client = record {
  addr = 4096;
  conn = open_conn;
  rfd = 0;
  wfd = 1;
  nfd = 5;
  server = false;
  rpoll = 0;
  wpoll = 0;
  npoll = 0;
}

abbrev session : Polled
session = record client { addr = 8192; rfd = 7; wfd = 7; nfd = 6; server = true }

mkevents-IsFound_example :
    let p = conn_mkevents no_event (client ∷ session ∷ []) in
    All (IsFound p.evreaders p.evwriters) p.conns
mkevents-IsFound_example = mkevents-IsFound no_event (client ∷ session ∷ [])

-- A nanosecond before the first second ends, and at its end.
abbrev early : Timespec
early = record { tv_sec = 0; tv_nsec = 999999999 }

abbrev on_second : Timespec
on_second = record { tv_sec = 1; tv_nsec = 0 }

abbrev later : Timespec
later = record { tv_sec = 1; tv_nsec = 399999999 }

-- The timer of 400 ms is due after a nanosecond.
early-on_second : need_timer_in early on_second 400 ≡ 0
unfolding need_timer_in
early-on_second = refl

need_timer_in-due_example :
    let wait = need_timer_in early later 400 in
    (nanoseconds early + 400 * 1000000 ≤ nanoseconds later → wait ≡ 0)
    × (wait ≡ 0 → nanoseconds early + 400 / 1000 * 1000000000 < nanoseconds later + 1000000)
    × (1 ≤ wait → nanoseconds early + 400 * 1000000 < nanoseconds later + wait * 1000000 + 1000000)
    × (1 ≤ wait → nanoseconds later + wait * 1000000 < nanoseconds early + 400 * 1000000 + 1000000)
need_timer_in-due_example =
    need_timer_in-due early later 400 (omega arith) (omega arith) (omega arith)
