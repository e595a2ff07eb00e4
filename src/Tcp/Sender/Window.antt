-- ===== src/Tcp/Sender/Window.antt =====
-- The send window of reliable.c: no more packets are in flight than the window holds, and each
-- packet that is not acknowledged is still in its slot, to be sent again.
use native.Mathlib.Nat.{mod-add-mod, mod-eq_of_lt, mod-eq-sub-mod}
use stanford.Prelude.{
  ℕ, ◌+◌, ◌-◌, ◌%◌, ◌≤◌, ◌<◌, ◌≡◌, ◌≢◌, refl, sym, ap, ◌∙◌, inl, inr, Bool, false, some, List, [],
  ◌∷◌, arith, length, get_or, set, dec_lt, ℕ_discrete, length-set, take, get_or-set_self,
  get_or-set_ne, Bool-cases, subst,
}
use stanford.Tcp.Packet.{Packet, blank, init_data_pkt, bytes_of, seal, pkt_ntoh}
use stanford.Tcp.Conn.{
  Conn, Ret, minus_one, OsRead, OsSend, conn_sendpkt, conn_input, send_wire, os_send, take_input,
  os_read,
}
use stanford.Tcp.State.{Rel, add32, get_pkt_idx}
use stanford.Tcp.Sender.{add_pkt_to_send_window, send_data_pkt, send_new_data_pkt}

-- The slots are those of `get_pkt_idx` while sequence numbers do not wrap.
abbrev pub slot : Rel → ℕ → ℕ
slot r s = (s - 1) % r.window_size

pub record SendInv (r : Rel) : Type 0 where
  pub alive : r.c.delete_me ≡ false
  pub window_pos : 0 < r.window_size
  pub no_wrap : r.last_ackno_recvd + r.window_size < 4294967296
  pub ack_pos : 1 ≤ r.last_ackno_recvd
  pub acked_sent : r.last_ackno_recvd ≤ r.last_seqno_sent + 1
  pub in_window : r.last_seqno_sent + 1 ≤ r.last_ackno_recvd + r.window_size
  pub slots : length r.pkts_sent ≡ r.window_size
  pub held :
      (s : ℕ)
      → r.last_ackno_recvd ≤ s
      → s ≤ r.last_seqno_sent
      → (get_or r.pkts_sent (slot r s) blank).seqno ≡ s

-- Two numbers less than a window apart have different slots.
pub slot-ne : (w a b : ℕ) → a < b → b < a + w → a % w ≢ b % w
slot-ne w a b lt near e = elim (dec_lt (a % w + (b - a)) w) [
  | yes p ↦ absurd (omega (arith, e, back, mod-eq_of_lt p))
  | no p ↦ absurd (
      omega (
        arith,
        e,
        back,
        mod-eq-sub-mod {n = a % w + (b - a)} {m = w} (omega arith),
        mod-eq_of_lt {n = a % w + (b - a) - w} {m = w} (omega arith),
      ))
]
  where
    split : a + (b - a) ≡ b
    split = omega arith

    back : (a % w + (b - a)) % w ≡ b % w
    back = mod-add-mod a w (b - a) ∙ ap (λ n. n % w) split

pub init_data_pkt-seqno :
    (pkt : Packet) (ackno seqno n : ℕ) (buf : List ℕ)
    → (init_data_pkt pkt ackno seqno buf n).seqno ≡ seqno
unfolding init_data_pkt
init_data_pkt-seqno pkt ackno seqno n buf = refl

send_wire-alive :
    (c : Conn) (wire : List ℕ) (w : OsSend × List OsSend)
    → (send_wire c wire w).0.delete_me ≡ c.delete_me
unfolding send_wire
send_wire-alive c wire (OsSend.sent, ss) = refl
send_wire-alive c wire (OsSend.dropped, ss) = refl
send_wire-alive c wire (OsSend.failed, ss) = refl

conn_sendpkt_alive :
    (c : Conn) (wire : List ℕ)
    → c.delete_me ≡ false
    → conn_sendpkt c wire ≡ some (send_wire c wire (os_send c.sends))
unfolding conn_sendpkt
conn_sendpkt_alive c wire e = rw (e, conn_sendpkt) refl

take_input-alive :
    (c : Conn) (n : ℕ) (w : OsRead × List OsRead) → (take_input c n w).0.delete_me ≡ c.delete_me
unfolding take_input
take_input-alive c n (OsRead.got [], rs) = refl
take_input-alive c n (OsRead.got (b ∷ bs), rs) = refl
take_input-alive c n (OsRead.blocked, rs) = refl
take_input-alive c n (OsRead.failed, rs) = refl

pub conn_input_alive :
    (c : Conn) (n : ℕ)
    → c.delete_me ≡ false
    → (i : Conn × Ret × List ℕ) × (conn_input c n ≡ some i) × (i.0.delete_me ≡ false)
unfolding conn_input
conn_input_alive c n e = elim (Bool-cases c.read_eof) [
  | inl t ↦ ((c, minus_one, []), rw (e, t, conn_input) refl, e)
  | inr t ↦ (
    take_input c n (os_read c.reads),
    rw (e, t, conn_input) refl,
    take_input-alive c n (os_read c.reads) ∙ e,
  )
]

get_pkt_idx-slot : (r : Rel) (s : ℕ) → 1 ≤ s → s < 4294967296 → get_pkt_idx r s ≡ slot r s
unfolding get_pkt_idx
get_pkt_idx-slot r s h g = ap (λ n. n % r.window_size) (omega arith)

-- Entering the next packet changes the window's number and slot by it, and nothing else that counts.
record Added (r r' : Rel) (pkt : Packet) : Type 0 where
  conn : r'.c ≡ r.c
  window : r'.window_size ≡ r.window_size
  acked : r'.last_ackno_recvd ≡ r.last_ackno_recvd
  number : r'.last_seqno_sent ≡ r.last_seqno_sent + 1
  entered : r'.pkts_sent ≡ set r.pkts_sent (slot r (r.last_seqno_sent + 1)) pkt

add-Added :
    (r : Rel) (pkt : Packet) (now : ℕ)
    → pkt.seqno ≡ r.last_seqno_sent + 1
    → r.last_seqno_sent + 1 < 4294967296
    → Added r (add_pkt_to_send_window r pkt now) pkt
unfolding add_pkt_to_send_window
add-Added r pkt now e h = record {
  conn = refl;
  window = refl;
  acked = refl;
  number = ground arith;
  entered =
      ap (λ i. set r.pkts_sent i pkt)
        (ap (get_pkt_idx r) e ∙ get_pkt_idx-slot r (r.last_seqno_sent + 1) (omega arith) h);
}

Added-held :
    (r r' : Rel) (pkt : Packet) (s : ℕ)
    → SendInv r
    → Added r r' pkt
    → pkt.seqno ≡ r.last_seqno_sent + 1
    → r.last_seqno_sent + 1 < r.last_ackno_recvd + r.window_size
    → r.last_ackno_recvd ≤ s
    → s ≤ r.last_seqno_sent + 1
    → (get_or r'.pkts_sent (slot r s) blank).seqno ≡ s
Added-held r r' pkt s v a e room lo hi = elim (ℕ_discrete s (r.last_seqno_sent + 1)) [
  | yes same ↦
      rw (a.entered, same)
        (ap (λ (q : Packet). q.seqno)
            (get_or-set_self r.pkts_sent (slot r (r.last_seqno_sent + 1)) pkt blank
              (omega (arith, v.slots, v.window_pos)))
          ∙ e)
  | no other ↦ rw a.entered (
      ap (λ (q : Packet). q.seqno)
        (get_or-set_ne r.pkts_sent (slot r (r.last_seqno_sent + 1)) (slot r s) pkt blank (λ eq.
          slot-ne r.window_size (s - 1) r.last_seqno_sent (omega (arith, v.ack_pos))
            (omega (arith, v.ack_pos)) (sym eq ∙ ap (λ n. n % r.window_size) (omega arith))))
      ∙ v.held s lo (omega arith))
]

Added-SendInv :
    (r r' : Rel) (pkt : Packet) (c' : Conn) (eof : Bool)
    → SendInv r
    → Added r r' pkt
    → pkt.seqno ≡ r.last_seqno_sent + 1
    → r.last_seqno_sent + 1 < r.last_ackno_recvd + r.window_size
    → c'.delete_me ≡ false
    → SendInv (record r' { c = c'; read_eof = eof })
Added-SendInv r r' pkt c' eof v a e room al = record {
  alive = al;
  window_pos = omega (arith, v.window_pos, a.window);
  no_wrap = omega (arith, v.no_wrap, a.acked, a.window);
  ack_pos = omega (arith, v.ack_pos, a.acked);
  acked_sent = omega (arith, v.acked_sent, a.acked, a.number);
  in_window = omega (arith, a.acked, a.number, a.window);
  slots =
      ap length a.entered
      ∙ length-set r.pkts_sent (slot r (r.last_seqno_sent + 1)) pkt
      ∙ v.slots
      ∙ sym a.window;
  held = λ s lo hi.
      ap (λ w. (get_or r'.pkts_sent ((s - 1) % w) blank).seqno) a.window
      ∙ Added-held r r' pkt s v a e room (omega (arith, a.acked)) (omega (arith, a.number));
}

-- The session after `send_new_data_pkt`: the packet in its slot, and sent on the connection.
send_data_pkt_alive :
    (r : Rel) (pkt : Packet)
    → r.c.delete_me ≡ false
    → (s : Rel × Packet) × (c' : Conn) × (send_data_pkt r pkt ≡ some s)
      × (s.0 ≡ record r { c = c' })
      × (c'.delete_me ≡ false)
unfolding send_data_pkt
send_data_pkt_alive r pkt al =
    let w = take pkt.len (bytes_of (seal pkt)) in
    let c' = (send_wire r.c w (os_send r.c.sends)).0 in
    (
      (record r { c = c' }, pkt_ntoh (seal pkt)),
      c',
      rw (conn_sendpkt_alive r.c w al) refl,
      refl,
      send_wire-alive r.c w (os_send r.c.sends) ∙ al,
    )

-- What sending a packet does to the numbers of the window.
abbrev pub Sent : Rel → Rel → Type 0
Sent r r' =
    SendInv r'
    × (r'.last_seqno_sent ≡ r.last_seqno_sent + 1)
    × (r'.last_ackno_recvd ≡ r.last_ackno_recvd)
    × (r'.window_size ≡ r.window_size)

-- Sending the next packet keeps the window, if there is room for it.
pub send_new-Sent :
    (r : Rel) (buf : List ℕ) (n now : ℕ)
    → SendInv r
    → r.last_seqno_sent + 1 < r.last_ackno_recvd + r.window_size
    → (r' : Rel) × (send_new_data_pkt r buf n now ≡ some r') × Sent r r'
unfolding send_new_data_pkt
send_new-Sent r buf n now v room =
    let pkt = init_data_pkt blank r.last_ackno_sent (add32 r.last_seqno_sent 1) buf n in
    let number : pkt.seqno ≡ r.last_seqno_sent + 1 =
      init_data_pkt-seqno blank r.last_ackno_sent (add32 r.last_seqno_sent 1) n buf
      ∙ omega (arith, v.no_wrap) in
    let mid = add_pkt_to_send_window r pkt now in
    let a = add-Added r pkt now number (omega (arith, v.no_wrap)) in
    let (s, c', e, f, al) =
      send_data_pkt_alive mid pkt (ap (λ (c : Conn). c.delete_me) a.conn ∙ v.alive) in
    (
      s.0,
      rw e refl,
      subst (λ x. Sent r x) (sym f)
          (Added-SendInv r mid pkt c' mid.read_eof v a number room al, a.number, a.acked, a.window),
    )
