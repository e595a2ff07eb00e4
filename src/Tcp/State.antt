-- ===== src/Tcp/State.antt =====
-- `struct reliable_state` of cs144/tcp/reliable.c and the tests on it. Sequence numbers are
-- `uint32_t`; the window's arrays are lists of `window_size` entries.
use stanford.Prelude.{
  ℕ, ◌+◌, ◌-◌, ◌%◌, Bool, true, false, Option, some, List, ◌==◌, ltb, leb, if◌then◌else◌, get_or,
  replicate, ◌>>=◌, take,
}
use stanford.Tcp.Packet.{Packet, blank, init_ack_pkt, bytes_of, seal, ack_packet_len}
use stanford.Tcp.Conn.{Conn, Ret, ret, minus_one, conn_sendpkt}

abbrev pub add32 : ℕ → ℕ → ℕ
add32 a b = (a + b) % 4294967296

abbrev pub sub32 : ℕ → ℕ → ℕ
sub32 a b = (a + 4294967296 - b) % 4294967296

-- `struct config_common`, the fields that sessions read.
pub record Config : Type 0 where
  pub window : ℕ
  pub timeout : ℕ

-- `struct sockaddr_storage` by its family.
pub data Sockaddr : Type 0 where
  inet : ℕ → ℕ → Sockaddr
  inet6 : ℕ → ℕ → Sockaddr
  unix : ℕ → Sockaddr
  unspec : Sockaddr

pub record Rel : Type 0 where
  pub c : Conn
  pub ss : Sockaddr
  pub window_size : ℕ
  pub pkts_sent : List Packet
  pub pkts_recvd : List Packet
  pub has_recvd : List Bool
  pub pkt_send_time_millis : List ℕ
  pub last_ackno_sent : ℕ
  pub last_ackno_recvd : ℕ
  pub last_seqno_sent : ℕ
  pub last_seqno_recvd : ℕ
  pub last_pkt_bytes_outputted : ℕ
  pub last_pkt_recvd_eof : Bool
  pub read_eof : Bool
  pub last_pkt_sent_partial : Bool
  pub timeout_millis : ℕ

unfoldable pub get_pkt_idx : Rel → ℕ → ℕ
get_pkt_idx r seqno = sub32 seqno 1 % r.window_size

unfoldable pub avail_send_window_slots : Rel → ℕ
avail_send_window_slots r =
    sub32 r.window_size (add32 (sub32 r.last_seqno_sent r.last_ackno_recvd) 1)

unfoldable pub has_unackd_pkts : Rel → Bool
has_unackd_pkts r = add32 r.last_seqno_sent 1 == r.last_ackno_recvd

unfoldable pub pkt_out_of_bounds : Rel → Packet → Bool
pkt_out_of_bounds r pkt =
    if ltb pkt.seqno r.last_ackno_sent
    then true
    else leb (add32 r.last_ackno_sent r.window_size) pkt.seqno

unfoldable pub has_recvd_pkt : Rel → Packet → Bool
unfolding get_pkt_idx
has_recvd_pkt r pkt = get_or r.has_recvd (get_pkt_idx r pkt.seqno) false

unfoldable pub has_buffered_pkts : Rel → Bool
has_buffered_pkts r = ltb r.last_ackno_sent r.last_seqno_recvd

-- `xmalloc` leaves `pkts_sent` and `pkts_recvd` unset; no entry is read before it is written.
unfoldable pub new_rel : Conn → Sockaddr → Config → Rel
new_rel c ss cc = record {
  c = c;
  ss = ss;
  window_size = cc.window;
  pkts_sent = replicate cc.window blank;
  pkts_recvd = replicate cc.window blank;
  has_recvd = replicate cc.window false;
  pkt_send_time_millis = replicate cc.window 0;
  last_ackno_sent = 1;
  last_ackno_recvd = 1;
  last_seqno_sent = 0;
  last_seqno_recvd = 1;
  last_pkt_bytes_outputted = 0;
  last_pkt_recvd_eof = false;
  read_eof = false;
  last_pkt_sent_partial = false;
  timeout_millis = cc.timeout;
}

-- `bytes_sent > 0` is when the acknowledgement counts as sent.
unfoldable pub note_ack : Rel → ℕ → Conn × Ret → Rel
note_ack r ackno (c', ret n) =
    if n == 0 then record r { c = c' } else record r { c = c'; last_ackno_sent = ackno }
note_ack r ackno (c', minus_one) = record r { c = c' }

-- The caller's local packet is not initialised; what it holds does not reach the wire.
unfoldable pub send_ack_pkt : Rel → ℕ → Option Rel
send_ack_pkt r ackno =
    conn_sendpkt r.c (take ack_packet_len (bytes_of (seal (init_ack_pkt blank ackno)))) >>= λ s.
    some (note_ack r ackno s)
