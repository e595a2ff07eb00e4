-- ===== src/Tcp/Sender/Apart.antt =====
-- The sending half of a session of reliable.c does not touch what its receiving half works on.
pub mod Calls
use stanford.Prelude.{
  Leads, bind-Leads, if-Leads, ℕ, zero, suc, ◌≡◌, refl, ◌∙◌, inl, inr, Bool, true, false, Option,
  none, some, List, [], ◌∷◌, arith, ltb, leb, if◌then◌else◌, ◌==◌, subst, Bool-cases, Option-cases,
  ◌>>=◌, take, some_inj, ◌&&◌, ◌||◌, sym, get_or, set,
}
use stanford.Tcp.Packet.{Packet, blank, init_data_pkt, bytes_of, seal, data_packet_max_payload_len}
use stanford.Tcp.Conn.{
  Conn, Ret, ret, minus_one, OsRead, OsSend, os_read, os_send, take_input, conn_input, send_wire,
  conn_sendpkt,
}
use stanford.Tcp.State.{Rel, add32, get_pkt_idx, avail_send_window_slots}
use stanford.Tcp.Sender.{
  add_pkt_to_send_window, send_data_pkt, send_new_data_pkt, read_round, read_loop, rel_read,
  process_ack_pkt, retransmit_pkt, elapsed,
}
use stanford.Tcp.Receiver.Refuse.{Quiet}

-- The output side of a connection is as it was.
pub record SameOutput (c c' : Conn) : Type 0 where
  pub written : c'.written ≡ c.written
  pub queue : c'.outq ≡ c.outq
  pub alive : c'.delete_me ≡ c.delete_me
  pub closing : c'.write_eof ≡ c.write_eof
  pub shut : c'.is_shut ≡ c.is_shut
  pub write_err : c'.write_err ≡ c.write_err
  pub writes : c'.writes ≡ c.writes

-- The receiving half of a session is as it was, what it acknowledged included.
pub record Still (r r' : Rel) : Type 0 where
  pub quiet : Quiet r r'
  pub acked : r'.last_ackno_sent ≡ r.last_ackno_sent

-- If the call returns, the receiving half is as it was.
abbrev pub Stays : Rel → Option Rel → Type 0
Stays r o = Leads (Still r) o

pub Still-refl : (r : Rel) → Still r r
Still-refl r = ground arith

pub Still-trans : (r r' r'' : Rel) → Still r r' → Still r' r'' → Still r r''
Still-trans r r' r'' a b = ground (arith, a, b)

pub Stays-trans : (r r' : Rel) (o : Option Rel) → Still r r' → Stays r' o → Stays r o
Stays-trans r r' none a b = tt
Stays-trans r r' (some r'') a b = Still-trans r r' r'' a b

take_input-SameOutput :
    (c : Conn) (n : ℕ) (i : OsRead × List OsRead) → SameOutput c (take_input c n i).0
unfolding take_input
take_input-SameOutput c n (OsRead.got [], rs) = ground arith
take_input-SameOutput c n (OsRead.got (b ∷ bs), rs) = ground arith
take_input-SameOutput c n (OsRead.blocked, rs) = ground arith
take_input-SameOutput c n (OsRead.failed, rs) = ground arith

pub conn_input-SameOutput :
    (c : Conn) (n : ℕ) (i : Conn × Ret × List ℕ) → conn_input c n ≡ some i → SameOutput c i.0
unfolding conn_input
conn_input-SameOutput c n i e = ground (arith, e, take_input-SameOutput c n (os_read c.reads))

send_wire-SameOutput :
    (c : Conn) (wire : List ℕ) (w : OsSend × List OsSend) → SameOutput c (send_wire c wire w).0
unfolding send_wire
send_wire-SameOutput c wire (OsSend.sent, ss) = ground arith
send_wire-SameOutput c wire (OsSend.dropped, ss) = ground arith
send_wire-SameOutput c wire (OsSend.failed, ss) = ground arith

conn_sendpkt-SameOutput :
    (c : Conn) (wire : List ℕ) (s : Conn × Ret) → conn_sendpkt c wire ≡ some s → SameOutput c s.0
unfolding conn_sendpkt
conn_sendpkt-SameOutput c wire s e =
    ground (arith, e, send_wire-SameOutput c wire (os_send c.sends))

pub with_conn-Still :
    (r : Rel) (c' : Conn) (sent : List Packet) (times : List ℕ) (high : ℕ) (eof partial : Bool)
    → SameOutput r.c c'
    → Still r (record r {
      c = c';
      pkts_sent = sent;
      pkt_send_time_millis = times;
      last_seqno_sent = high;
      read_eof = eof;
      last_pkt_sent_partial = partial;
    })
with_conn-Still r c' sent times high eof partial s = ground (arith, s)

pub send_data_pkt-Still :
    (r : Rel) (pkt : Packet) (s : Rel × Packet) → send_data_pkt r pkt ≡ some s → Still r s.0
unfolding send_data_pkt
send_data_pkt-Still r pkt s e =
    elim (Option-cases (conn_sendpkt r.c (take pkt.len (bytes_of (seal pkt))))) [
      | inl f ↦ ground (arith, e, f)
      | inr (o, f) ↦
          let same = conn_sendpkt-SameOutput r.c (take pkt.len (bytes_of (seal pkt))) o f in
          let st =
            with_conn-Still r o.0 r.pkts_sent r.pkt_send_time_millis r.last_seqno_sent r.read_eof
              r.last_pkt_sent_partial same in
          let q : record r { c = o.0 } ≡ s.0 = ground (arith, e, f) in subst (Still r) q st
    ]
