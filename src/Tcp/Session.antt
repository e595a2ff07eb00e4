-- ===== src/Tcp/Session.antt =====
-- The list of sessions of cs144/tcp/reliable.c: packets for a session, new sessions and the timer.
pub mod Walk
pub mod Demux
pub mod Timer
use stanford.Prelude.{
  ℕ, length, Bool, true, false, not, ◌&&◌, Option, none, some, List, [], ◌∷◌, ◌++◌, ◌==◌,
  if◌then◌else◌, ◌>>=◌,
}
use stanford.Tcp.Packet.{
  Packet, PacketType, data_packet, ack_packet, invalid_packet, get_pkt_type, pkt_ntoh, read_pkt,
}
use stanford.Tcp.Conn.{Conn, conn_destroy}
use stanford.Tcp.State.{
  Rel, Config, Sockaddr, inet, inet6, unix, unspec, new_rel, has_unackd_pkts, has_buffered_pkts,
}
use stanford.Tcp.Sender.{process_ack_pkt, retransmit_pkt}
use stanford.Tcp.Receiver.{process_data_pkt}

-- `addreq`: an unknown family aborts.
unfoldable pub addreq : Sockaddr → Sockaddr → Option Bool
addreq (inet a p) (inet b q) = some (a == b && p == q)
addreq (inet6 a p) (inet6 b q) = some (a == b && p == q)
addreq (unix a) (unix b) = some (a == b)
addreq unspec unspec = none
addreq _ _ = some false

-- The connections that `rel_destroy` marked for deletion are kept beside the sessions.
pub record Sessions : Type 0 where
  pub rel_list : List Rel
  pub destroyed : List Conn

unfoldable pub process_pkt : Rel → Packet → PacketType → ℕ → Option Rel
process_pkt r pkt ack_packet now = process_ack_pkt r pkt now
process_pkt r pkt data_packet now = process_data_pkt r pkt
process_pkt r pkt invalid_packet now = some r

unfoldable pub rel_recvpkt : Rel → Packet → ℕ → ℕ → Option Rel
rel_recvpkt r pkt n now = process_pkt r (pkt_ntoh pkt) (get_pkt_type pkt n) now

-- `rel_create(NULL, ss, cc)`: `conn` is what `conn_create` returned; with a NULL connection the
-- session is given up and the caller goes on with a NULL session, which is a fault.
unfoldable pub process_first_pkt :
    List Rel → Option Conn → Packet → PacketType → Sockaddr → Config → ℕ → Option (List Rel)
process_first_pkt rs conn pkt data_packet ss cc now =
    if pkt.seqno == 1
    then (conn >>= λ c. process_pkt (new_rel c ss cc) pkt data_packet now >>= λ r. some (r ∷ rs))
    else some rs
process_first_pkt rs conn pkt _ ss cc now = some rs

-- `get_session` and the call of `process_pkt` on what it found: `none` in the pair is a NULL session.
unfoldable pub serve_session :
    List Rel → Sockaddr → Packet → PacketType → ℕ → Option (Option (List Rel))
serve_session [] ss pkt pkt_type now = some none
serve_session (r ∷ rs) ss pkt pkt_type now = addreq r.ss ss >>= λ same.
    if same
    then (process_pkt r pkt pkt_type now >>= λ r'. some (some (r' ∷ rs)))
    else (serve_session rs ss pkt pkt_type now >>= λ found. elim found [
      | none ↦ some none
      | some rs' ↦ some (some (r ∷ rs'))
    ])

unfoldable pub demux_valid :
    List Rel → Config → Sockaddr → Option Conn → Packet → PacketType → ℕ → Option (List Rel)
demux_valid rs cc ss conn pkt invalid_packet now = some rs
demux_valid rs cc ss conn pkt pkt_type now =
    serve_session rs ss (pkt_ntoh pkt) pkt_type now >>= λ found. elim found [
      | some rs' ↦ some rs'
      | none ↦ process_first_pkt rs conn (pkt_ntoh pkt) pkt_type ss cc now
    ]

unfoldable pub rel_demux :
    List Rel → Config → Sockaddr → Option Conn → Packet → ℕ → ℕ → Option (List Rel)
rel_demux rs cc ss conn pkt len now = demux_valid rs cc ss conn pkt (get_pkt_type pkt len) now

unfoldable pub should_close_conn : Rel → Bool
should_close_conn r =
    if not r.last_pkt_recvd_eof
    then false
    else (if not r.read_eof
        then false
        else (if not (has_unackd_pkts r)
            then false
            else (if has_buffered_pkts r then false else true)))

-- The walk of `rel_timer` over the sessions.
unfoldable pub rel_timer : List Rel → ℕ → Option Sessions
rel_timer [] now = some (record { rel_list = []; destroyed = [] })
rel_timer (r ∷ rs) now = retransmit_pkt r now >>= λ r'. rel_timer rs now >>= λ s.
    if should_close_conn r'
    then some (record s { destroyed = conn_destroy r'.c ∷ s.destroyed })
    else some (record s { rel_list = r' ∷ s.rel_list })

-- A datagram, with what the buffer holds behind it, what `conn_create` would return if it opened a
-- session, and the time.
pub record Datagram : Type 0 where
  pub from : Sockaddr
  pub bytes : List ℕ
  pub stale : List ℕ
  pub conn : Option Conn
  pub now : ℕ

-- `conn_demux`: the datagrams that are there, until `debug_recv` fails.
unfoldable pub conn_demux : List Rel → Config → List Datagram → Option (List Rel)
conn_demux rs cc [] = some rs
conn_demux rs cc (d ∷ ds) =
    rel_demux rs cc d.from d.conn (read_pkt (d.bytes ++ d.stale)) (length d.bytes) d.now >>= λ rs'.
    conn_demux rs' cc ds
