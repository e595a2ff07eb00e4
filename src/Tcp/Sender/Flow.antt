-- ===== src/Tcp/Sender/Flow.antt =====
-- `rel_read` and `process_ack_pkt` of reliable.c keep the send window.
use stanford.Prelude.{
  ℕ, zero, suc, ◌+◌, ◌≤◌, ◌<◌, ◌≡◌, refl, ◌∙◌, inl, inr, Bool, true, false, Option, some, List, [],
  arith, ltb, if◌then◌else◌, ◌==◌, Bool-cases, ◌&&◌, ◌⊎◌,
}
use stanford.Tcp.Packet.{Packet, data_packet_max_payload_len}
use stanford.Tcp.Conn.{Conn, Ret, ret, minus_one}
use stanford.Tcp.State.{Rel, add32, avail_send_window_slots}
use stanford.Tcp.Sender.{read_round, read_loop, rel_read, process_ack_pkt}
use stanford.Tcp.Sender.Window.{SendInv, send_new-Sent, conn_input_alive}

-- The call returns a session that keeps the window, its size and what was acknowledged.
abbrev pub Keeps : Rel → Option Rel → Type 0
Keeps r o =
    (r' : Rel) × (o ≡ some r')
    × SendInv r'
    × (r'.last_ackno_recvd ≡ r.last_ackno_recvd)
    × (r'.window_size ≡ r.window_size)

with_conn-SendInv :
    (r : Rel) (c' : Conn) (eof partial : Bool)
    → c'.delete_me ≡ false
    → SendInv r
    → SendInv (record r { c = c'; read_eof = eof; last_pkt_sent_partial = partial })
with_conn-SendInv r c' eof partial al v = record {
  alive = al;
  window_pos = v.window_pos;
  no_wrap = v.no_wrap;
  ack_pos = v.ack_pos;
  acked_sent = v.acked_sent;
  in_window = v.in_window;
  slots = v.slots;
  held = v.held;
}

-- There is room for `k` packets more.
abbrev Room : ℕ → Rel → Type 0
Room k r = r.last_seqno_sent + 1 + k ≤ r.last_ackno_recvd + r.window_size

-- Marking the last packet as partial, or not, makes no difference to the rest of the loop.
marked-Keeps :
    (b : Bool) (k : ℕ) (x : Rel) (next : Rel → Option Rel)
    → SendInv x
    → Room k x
    → ((y : Rel) → SendInv y → Room k y → Keeps y (next y))
    → Keeps x (next (if b then record x { last_pkt_sent_partial = true } else x))
marked-Keeps true k x next v room h =
    h (record x { last_pkt_sent_partial = true })
      (with_conn-SendInv x x.c x.read_eof true v.alive v) room
marked-Keeps false k x next v room h = h x v room

read_round-Keeps :
    (k : ℕ) (r : Rel) (c' : Conn) (n : Ret) (buf : List ℕ) (now : ℕ) (next : Rel → Option Rel)
    → c'.delete_me ≡ false
    → SendInv r
    → Room (suc k) r
    → ((x : Rel) → SendInv x → Room k x → Keeps x (next x))
    → Keeps r (read_round r (c', n, buf) now next)
unfolding read_round
read_round-Keeps k r c' minus_one buf now next al v room h =
    let (r', e, s) =
      send_new-Sent (record r { c = c'; read_eof = true }) [] 0 now
        (with_conn-SendInv r c' true r.last_pkt_sent_partial al v) (omega arith) in
    (r', e, s.0, s.2, s.3)
read_round-Keeps k r c' (ret n) buf now next al v room h = elim (Bool-cases (n == 0)) [
  | inl t ↦ rw t (
    record r { c = c' },
    refl,
    with_conn-SendInv r c' r.read_eof r.last_pkt_sent_partial al v,
    refl,
    refl,
  )
  | inr t ↦
      let (r', e, s) =
        send_new-Sent (record r { c = c' }) buf n now
          (with_conn-SendInv r c' r.read_eof r.last_pkt_sent_partial al v) (omega arith) in
      let (x, f, w, a, z) =
        marked-Keeps (ltb n data_packet_max_payload_len) k r' next s.0 (omega (arith, s)) h in
      rw (t, e) (x, f, w, a ∙ s.2, z ∙ s.3)
]

read_loop-Keeps : (k : ℕ) (r : Rel) (now : ℕ) → SendInv r → Room k r → Keeps r (read_loop k r now)
unfolding read_loop
read_loop-Keeps zero r now v room = (r, refl, v, refl, refl)
read_loop-Keeps (suc k) r now v room =
    let (i, e, al) = conn_input_alive r.c data_packet_max_payload_len v.alive in
    rw e (
      read_round-Keeps k r i.0 i.1 i.2 now (λ x. read_loop k x now) al v room
        (λ x u q. read_loop-Keeps k x now u q))

-- The free slots are what the packets in flight leave of the window.
avail_lem :
    (r : Rel)
    → SendInv r
    → avail_send_window_slots r + (r.last_seqno_sent + 1) ≡ r.last_ackno_recvd + r.window_size
unfolding avail_send_window_slots
avail_lem r v = omega (arith, v.acked_sent, v.in_window, v.no_wrap, v.ack_pos)

rel_read_cases :
    (r : Rel) (now : ℕ)
    → (rel_read r now ≡ some r) ⊎ (rel_read r now ≡ read_loop (avail_send_window_slots r) r now)
unfolding rel_read
rel_read_cases r now = ground arith

-- On a session whose connection is not deleted and whose window stays below sequence number 2 ^ 32,
-- `rel_read` returns, whatever input and network do, and keeps the send window: no more than
-- `window_size` packets are in flight, each of them stands in its slot with its number, and nothing
-- is acknowledged by it.
pub rel_read-Keeps : (r : Rel) (now : ℕ) → SendInv r → Keeps r (rel_read r now)
rel_read-Keeps r now v = elim (rel_read_cases r now) [
  | inl e ↦ rw e (r, refl, v, refl, refl)
  | inr e ↦
      rw e (read_loop-Keeps (avail_send_window_slots r) r now v (omega (arith, avail_lem r v)))
]

-- The session with an acknowledgement entered, before `rel_read`.
abbrev pub acked : Rel → Packet → Rel
acked r pkt = record r {
  last_pkt_sent_partial =
      if r.last_pkt_sent_partial && pkt.ackno == add32 r.last_seqno_sent 1
      then false
      else r.last_pkt_sent_partial;
  last_ackno_recvd = pkt.ackno;
}

process_ack_pkt_cases :
    (r : Rel) (pkt : Packet) (now : ℕ)
    → r.last_seqno_sent + 1 < 4294967296
    → (process_ack_pkt r pkt now ≡ some r)
      ⊎ ((process_ack_pkt r pkt now ≡ rel_read (acked r pkt) now)
          × (r.last_ackno_recvd < pkt.ackno)
          × (pkt.ackno ≤ r.last_seqno_sent + 1))
unfolding process_ack_pkt
process_ack_pkt_cases r pkt now h = ground arith

acked-SendInv :
    (r : Rel) (pkt : Packet)
    → SendInv r
    → pkt.ackno + r.window_size < 4294967296
    → r.last_ackno_recvd < pkt.ackno
    → pkt.ackno ≤ r.last_seqno_sent + 1
    → SendInv (acked r pkt)
acked-SendInv r pkt v h lo hi = record {
  alive = v.alive;
  window_pos = v.window_pos;
  no_wrap = h;
  ack_pos = omega arith;
  acked_sent = hi;
  in_window = omega (arith, v.in_window);
  slots = v.slots;
  held = λ s l u. v.held s (omega arith) u;
}

-- On a session whose connection is not deleted and whose window stays below sequence number 2 ^ 32,
-- at the packet's `ackno` too, `process_ack_pkt` returns and keeps the send window. It moves the
-- acknowledged number only to the packet's, and only if that is beyond what was acknowledged and
-- not beyond what was sent.
pub process_ack_pkt-Keeps :
    (r : Rel) (pkt : Packet) (now : ℕ)
    → SendInv r
    → pkt.ackno + r.window_size < 4294967296
    → (r' : Rel) × (process_ack_pkt r pkt now ≡ some r')
      × SendInv r'
      × (r'.window_size ≡ r.window_size)
      × ((r'.last_ackno_recvd ≡ r.last_ackno_recvd)
          ⊎ ((r'.last_ackno_recvd ≡ pkt.ackno)
              × (r.last_ackno_recvd < pkt.ackno)
              × (pkt.ackno ≤ r.last_seqno_sent + 1)))
process_ack_pkt-Keeps r pkt now v h =
    elim (process_ack_pkt_cases r pkt now (omega (arith, v.in_window, v.no_wrap))) [
      | inl e ↦ (r, e, v, refl, inl refl)
      | inr (e, lo, hi) ↦
          let (r', f, w, a, z) = rel_read-Keeps (acked r pkt) now (acked-SendInv r pkt v h lo hi) in
          (r', e ∙ f, w, z, inr (a, lo, hi))
    ]
