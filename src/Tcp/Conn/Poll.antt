-- ===== src/Tcp/Conn/Poll.antt =====
-- The poll masks of cs144/tcp/rlib.c: `conn_mkevents` gives each descriptor of each connection its
-- place in the array for `poll`, and `conn_poll` finds the connection by that place.
pub mod Dispatch
pub mod Timer
use stanford.Prelude.{
  ℕ, zero, suc, ◌+◌, ◌-◌, ◌*◌, ◌/◌, ltb, leb, ◌<◌, ◌≤◌, ◌≡◌, ◌≢◌, refl, sym, Bool, true, false, not,
  Option, none, some, List, [], ◌∷◌, ◌==◌, if◌then◌else◌, arith, length, All, set, get_or,
  replicate, ap, ◌∙◌,
}
use stanford.Tcp.Conn.{Conn, is_nil}

-- A connection in `conn_list`: `addr` is its address, and `rfd`, `wfd` and `nfd` its descriptors.
pub record Polled : Type 0 where
  pub addr : ℕ
  pub conn : Conn
  pub rfd : ℕ
  pub wfd : ℕ
  pub nfd : ℕ
  pub server : Bool
  pub rpoll : ℕ
  pub wpoll : ℕ
  pub npoll : ℕ

-- The first loop, from the first place that is free; the places of the descriptors to read and write.
unfoldable pub read_write_slots : ℕ → Polled → ℕ × Polled
read_write_slots n c =
    let dead = not (c.conn.write_err == 0) in
    if c.conn.read_eof
    then (if dead
        then (n, record c { rpoll = 0; wpoll = 0 })
        else (n + 1, record c { rpoll = 0; wpoll = n }))
    else (if dead
        then (n + 1, record c { rpoll = n; wpoll = 0 })
        else (if c.wfd == c.rfd
            then (n + 1, record c { rpoll = n; wpoll = n })
            else (n + 2, record c { rpoll = n; wpoll = n + 1 })))

unfoldable pub slots : ℕ → Polled → ℕ × Polled
slots n c =
    let (m, c') = read_write_slots n c in
    if c.server then (m, record c' { npoll = 0 }) else (m + 1, record c' { npoll = m })

unfoldable pub all_slots : ℕ → List Polled → ℕ × List Polled
all_slots n [] = (n, [])
all_slots n (c ∷ cs) = let (m, c') = slots n c in let (k, cs') = all_slots m cs in (k, c' ∷ cs')

-- `struct pollfd`; `none` is the descriptor -1.
pub record Event : Type 0 where
  pub fd : Option ℕ
  pub pollin : Bool
  pub pollout : Bool

abbrev pub no_event : Event
no_event = record { fd = none; pollin = false; pollout = false }

-- `e[i].fd = fd; e[i].events |= …`, if the connection has the place.
unfoldable pub put_event : ℕ → ℕ → Bool → Bool → List Event → List Event
put_event i fd reads writes es =
    if i == 0
    then es
    else (let e = get_or es i no_event in
        set es i (record {
          fd = some fd;
          pollin = if reads then true else e.pollin;
          pollout = if writes then true else e.pollout;
        }))

unfoldable pub fill_events : List Polled → List Event → List Event
fill_events [] es = es
fill_events (c ∷ cs) es = fill_events cs (
    put_event c.npoll c.nfd true false (
      put_event c.wpoll c.wfd false (not (is_nil c.conn.outq))
        (put_event c.rpoll c.rfd (not c.conn.xoff) false es)))

unfoldable pub put : ℕ → ℕ → List (Option ℕ) → List (Option ℕ)
put i addr ps = if i == 0 then ps else set ps i (some addr)

unfoldable pub fill_readers : List Polled → List (Option ℕ) → List (Option ℕ)
fill_readers [] r = r
fill_readers (c ∷ cs) r = fill_readers cs (put c.npoll c.addr (put c.rpoll c.addr r))

unfoldable pub fill_writers : List Polled → List (Option ℕ) → List (Option ℕ)
fill_writers [] w = w
fill_writers (c ∷ cs) w = fill_writers cs (put c.wpoll c.addr w)

-- `conn_list` and the three arrays.
pub record Polls : Type 0 where
  pub conns : List Polled
  pub cevents : List Event
  pub evreaders : List (Option ℕ)
  pub evwriters : List (Option ℕ)

-- Each place but the first gets a descriptor. The first two are for the UDP socket of a server, `listen`, and for stderr.
unfoldable pub conn_mkevents : Event → List Polled → Polls
conn_mkevents listen conns =
    let (n, cs) = all_slots 2 conns in
    record {
      conns = cs;
      cevents =
          fill_events cs
            (set (set (replicate n no_event) 0 listen) 1 (record no_event { fd = some 2 }));
      evreaders = fill_readers cs (replicate n none);
      evwriters = fill_writers cs (replicate n none);
    }

-- `struct timespec`.
pub record Timespec : Type 0 where
  pub tv_sec : ℕ
  pub tv_nsec : ℕ

-- `ts` is what the clock says, which is not before `last`. A `long` is divided towards 0.
unfoldable pub need_timer_in : Timespec → Timespec → ℕ → ℕ
need_timer_in last ts timer =
    let to = ts.tv_sec - last.tv_sec in
    let ms =
      if leb last.tv_nsec ts.tv_nsec
      then to * 1000 + (ts.tv_nsec - last.tv_nsec) / 1000000
      else to * 1000 - (last.tv_nsec - ts.tv_nsec) / 1000000 in
    if ltb (timer / 1000) to then 0 else (if leb timer ms then 0 else timer - ms)
