-- ===== src/Examples/Translation.antt =====
-- A flow of each kind from the inside to the outside and back.
use stanford.Prelude.{ℕ, ◌≡◌, refl, true, false, none, some, List, [], ◌∷◌}
use stanford.Wire.{htonl}
use stanford.SrProtocol.{IpHdr, TcpHdr}
use stanford.SrNat.{
  Nat, Mapping, find, update_first, nat_mapping_icmp, nat_mapping_tcp, sr_nat_insert_mapping,
}
use stanford.SrNat.Sessions.{
  Headers, forget_syn, nat_remove_unsolicited_syn, track_sent, nat_lookup_connection,
  sr_nat_update_tcp_sent_state,
}
use stanford.SrNat.Calls.{Call, inserts, step}
use stanford.SrNat.Invariant.{run}
use stanford.SrIf.{Iface, Instance, sr_get_interface}
use stanford.SrIp.{Route, sr_find_longest_prefix_match, match_loop, longer}
use stanford.SrIcmp.{EchoHdr}
use stanford.SrNatHandler.{
  Handled, nat_mapped, rewrite_source_address, handle_internal_tcp_pkt, handle_external_tcp_pkt,
  handle_internal_icmp_echo_req_pkt, handle_external_icmp_echo_reply_pkt,
}
use stanford.SrNatHandler.Tcp.{tcp-round_trip}
use stanford.SrNatHandler.Icmp.{echo-round_trip}

abbrev no_headers : Headers
no_headers ip_ptr = none

-- 172.16.0.1.
abbrev outside : Iface
outside = record {
  name = 101 ∷ 116 ∷ 104 ∷ 50 ∷ [];
  addr = 2 ∷ 0 ∷ 0 ∷ 0 ∷ 0 ∷ 2 ∷ [];
  ip = 16781484;
}

abbrev to_outside : Route
to_outside = record { dest = 172; gw = 150999212; mask = 255; iface = outside.name }

abbrev empty : Nat
empty = record {
  mappings = [];
  unsolicited_syns = [];
  tcp_id = 1024;
  icmp_id = 0;
  icmp_query_timeout = 60;
  tcp_established_idle_timeout = 7440;
  tcp_transitory_idle_timeout = 300;
}

abbrev router : Instance
router = record {
  if_list = outside ∷ [];
  routing_table = to_outside ∷ [];
  cache = record { entries = []; requests = [] };
  nat = some empty;
  sent = [];
  next_addr = 4096;
}

-- Between 10.0.0.5 and 172.16.0.7, in host order.
abbrev header : ℕ → ℕ → ℕ → IpHdr
header p src dst = record {
  ip_hl = 5;
  ip_v = 4;
  ip_tos = 0;
  ip_len = 40;
  ip_id = 7;
  ip_off = 0;
  ip_ttl = 64;
  ip_p = p;
  ip_sum = 0;
  ip_src = src;
  ip_dst = dst;
}

abbrev segment : ℕ → ℕ → TcpHdr
segment source dest = record {
  source = source;
  dest = dest;
  seq = 100;
  ack_seq = 0;
  off_res = 80;
  fin = false;
  syn = true;
  rst_psh = 0;
  ack = false;
  urg_res = 0;
  window = 1000;
  check = 0;
  urg_ptr = 0;
}

abbrev echo : ℕ → ℕ → EchoHdr
echo type iden = record { icmp_type = type; icmp_code = 0; icmp_sum = 0; iden = iden; seqno = 1 }

abbrev web : Mapping
web = record {
  type = nat_mapping_tcp;
  ip_int = 167772165;
  aux_int = 5000;
  aux_ext = 1024;
  last_updated = 20;
  conns = [];
}

abbrev ping : Mapping
ping = record {
  type = nat_mapping_icmp;
  ip_int = 167772165;
  aux_int = 77;
  aux_ext = 0;
  last_updated = 20;
  conns = [];
}

abbrev sent_segment : Handled TcpHdr
sent_segment = record {
  nat = record empty { mappings = web ∷ []; tcp_id = 1025 };
  ip = header 6 2886729729 2886729735;
  hdr = segment 1024 80;
  resp = nat_mapped;
}

abbrev sent_echo : Handled EchoHdr
sent_echo = record {
  nat = record empty { mappings = ping ∷ []; icmp_id = 1 };
  ip = header 1 2886729729 2886729735;
  hdr = echo 8 0;
  resp = nat_mapped;
}

segment-sent :
    handle_internal_tcp_pkt no_headers router empty
      (header 6 167772165 2886729735)
      (segment 5000 80)
      20
    ≡ some sent_segment
unfolding handle_internal_tcp_pkt sr_nat_insert_mapping find update_first
    sr_nat_update_tcp_sent_state rewrite_source_address forget_syn nat_remove_unsolicited_syn
    track_sent nat_lookup_connection sr_find_longest_prefix_match match_loop htonl longer
    sr_get_interface
segment-sent = refl

echo-sent :
    handle_internal_icmp_echo_req_pkt router empty (header 1 167772165 2886729735) (echo 8 77) 20
    ≡ some sent_echo
unfolding handle_internal_icmp_echo_req_pkt sr_nat_insert_mapping find update_first
    rewrite_source_address sr_find_longest_prefix_match match_loop htonl longer sr_get_interface
echo-sent = refl

-- Another flow comes between.
abbrev between : List (ℕ × Call)
between = (22, inserts 167772166 5000 nat_mapping_tcp) ∷ []

abbrev other : ℕ → Mapping
other aux_ext = record {
  type = nat_mapping_tcp;
  ip_int = 167772166;
  aux_int = 5000;
  aux_ext = aux_ext;
  last_updated = 22;
  conns = [];
}

abbrev later_tcp : Nat
later_tcp = record empty { mappings = other 1025 ∷ web ∷ []; tcp_id = 1026 }

abbrev later_icmp : Nat
later_icmp = record empty { mappings = other 1024 ∷ ping ∷ []; tcp_id = 1025; icmp_id = 1 }

tcp-ran : run no_headers sent_segment.nat between ≡ some later_tcp
unfolding run step sr_nat_insert_mapping find update_first
tcp-ran = refl

icmp-ran : run no_headers sent_echo.nat between ≡ some later_icmp
unfolding run step sr_nat_insert_mapping find update_first
icmp-ran = refl

tcp-round_trip_example :
    let ip_in = header 6 2886729735 2886729729 in
    (back : Handled TcpHdr) × (handle_external_tcp_pkt no_headers 64 later_tcp ip_in
        (segment 80 1024)
        30
      ≡ some back)
    × (back.resp ≡ nat_mapped)
    × (back.ip ≡ header 6 2886729735 167772165)
    × (back.hdr ≡ segment 80 5000)
tcp-round_trip_example =
    tcp-round_trip no_headers router empty later_tcp (header 6 167772165 2886729735)
      (header 6 2886729735 2886729729) (segment 5000 80) (segment 80 1024) 20 30 64 between
      sent_segment segment-sent refl (refl, tt) tcp-ran ((refl, tt), (tt, tt)) refl

echo-round_trip_example :
    let back =
      handle_external_icmp_echo_reply_pkt later_icmp
        (header 1 2886729735 2886729729)
        (echo 0 0)
        30 in
    (back.resp ≡ nat_mapped) × (back.ip ≡ header 1 2886729735 167772165) × (back.hdr ≡ echo 0 77)
echo-round_trip_example =
    echo-round_trip no_headers router empty later_icmp (header 1 167772165 2886729735)
      (header 1 2886729735 2886729729) (echo 8 77) (echo 0 0) 20 30 between sent_echo echo-sent refl
      (refl, tt) icmp-ran ((refl, tt), (tt, tt)) refl
