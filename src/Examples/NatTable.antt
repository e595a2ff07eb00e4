-- ===== src/Examples/NatTable.antt =====
-- Runs of the translation table and of the connection tracker.
use stanford.Prelude.{ℕ, ◌≡◌, refl, Bool, true, false, none, some, List, [], ◌∷◌, arith}
use stanford.SrProtocol.{TcpHdr}
use stanford.SrTcp.{tcp_close, tcp_time_wait, tcp_established, sr_get_tcp_transition}
use stanford.SrTcp.Machine.{
  Segment, run, Explained, any_segment, is_sent_syn, is_sent_fin, is_recvd_fin, run-Explained,
}
use stanford.SrNat.{
  Nat, Mapping, nat_mapping_icmp, nat_mapping_tcp, find, update_first, touch, sr_nat_init,
  sr_nat_insert_mapping, sr_nat_lookup_internal, sr_nat_lookup_external,
}
use stanford.SrNat.Sessions.{Headers}
use stanford.SrNat.Sweep.{
  sweep_mapping, sweep_mappings, timeout_connections, respond_to_syns, nat_remove_stale_mappings,
  nat_respond_to_unsolicited_syns, sr_nat_timeout_round,
}
use stanford.SrNat.Bindings.{bindings}
use stanford.SrNat.Calls.{Call, inserts, sweeps, step}
use stanford.SrNat.Insert.{lookup_internal-insert}
use stanford.SrNat.Invariant.{IsValid, run-IsValid}
use stanford.SrNat.Invariant
use stanford.SrNat.Distinct.{ExternalsDistinct, run-ExternalsDistinct}
use stanford.SrNat.Untracked.{IsUntracked, IsIcmpOnly, run-sweep-IsUntracked}
use stanford.SrNat.Sweep.Stale.{lookup-sweep_icmp}

abbrev segment : Bool → Bool → Bool → TcpHdr
segment fin syn ack = record {
  source = 40000;
  dest = 80;
  seq = 1;
  ack_seq = 1;
  off_res = 80;
  fin = fin;
  syn = syn;
  rst_psh = 0;
  ack = ack;
  urg_res = 0;
  window = 512;
  check = 0;
  urg_ptr = 0;
}

-- A connection opened from the inside, and closed from both sides.
abbrev opened : List Segment
opened = (segment false true false, true) ∷ (segment false true true, false) ∷ []

abbrev closed : List Segment
closed =
    (segment false true false, true)
    ∷ (segment false true true, false)
    ∷ (segment true false true, true)
    ∷ (segment true false true, false)
    ∷ (segment true false true, false)
    ∷ []

opened-established : run tcp_close opened ≡ tcp_established
unfolding run sr_get_tcp_transition
opened-established = refl

closed-time_wait : run tcp_close closed ≡ tcp_time_wait
unfolding run sr_get_tcp_transition
closed-time_wait = refl

run-Explained_example :
    Explained
      (any_segment is_sent_syn closed)
      (any_segment is_sent_fin closed)
      (any_segment is_recvd_fin closed)
      (run tcp_close closed)
run-Explained_example = run-Explained closed

abbrev no_headers : Headers
no_headers p = none

abbrev calls : List (ℕ × Call)
calls =
    (10, inserts 1 7 nat_mapping_icmp)
    ∷ (11, inserts 1 7 nat_mapping_icmp)
    ∷ (12, inserts 2 80 nat_mapping_tcp)
    ∷ []

abbrev ping : Mapping
ping = record {
  type = nat_mapping_icmp;
  ip_int = 1;
  aux_int = 7;
  aux_ext = 0;
  last_updated = 11;
  conns = [];
}

abbrev web : Mapping
web = record {
  type = nat_mapping_tcp;
  ip_int = 2;
  aux_int = 80;
  aux_ext = 1024;
  last_updated = 12;
  conns = [];
}

abbrev table : Nat
table = record {
  mappings = web ∷ ping ∷ [];
  unsolicited_syns = [];
  tcp_id = 1025;
  icmp_id = 1;
  icmp_query_timeout = 60;
  tcp_established_idle_timeout = 7440;
  tcp_transitory_idle_timeout = 300;
}

calls-table : Invariant.run no_headers (sr_nat_init 60 7440 300) calls ≡ some table
unfolding Invariant.run sr_nat_init step sr_nat_insert_mapping find update_first
calls-table = refl

swept-table : step no_headers table (13, sweeps) ≡ some (record table { mappings = ping ∷ [] })
unfolding step sr_nat_timeout_round nat_remove_stale_mappings sweep_mappings sweep_mapping
    timeout_connections nat_respond_to_unsolicited_syns respond_to_syns
swept-table = refl

run-IsValid_example : IsValid table
run-IsValid_example = run-IsValid no_headers 60 7440 300 calls table calls-table

run-ExternalsDistinct_example : ExternalsDistinct (bindings table)
run-ExternalsDistinct_example =
    run-ExternalsDistinct no_headers 60 7440 300 calls table (omega arith) calls-table

run-sweep-IsUntracked_example : IsUntracked table.mappings × IsIcmpOnly (ping ∷ [])
run-sweep-IsUntracked_example =
    run-sweep-IsUntracked no_headers 60 7440 300 calls 13 table
      (record table { mappings = ping ∷ [] }) calls-table swept-table

lookup_internal-insert_example :
    (sr_nat_lookup_internal
      (sr_nat_insert_mapping table 3 90 nat_mapping_tcp 20).0
      3
      90
      nat_mapping_tcp
      21).1
    ≡ some (touch 21 (sr_nat_insert_mapping table 3 90 nat_mapping_tcp 20).1)
lookup_internal-insert_example = lookup_internal-insert table 3 90 nat_mapping_tcp 20 21

lookup-sweep_icmp_example :
    (sr_nat_lookup_external
      (nat_remove_stale_mappings (sr_nat_lookup_external table 0 nat_mapping_icmp 50).0 100)
      0
      nat_mapping_icmp
      105).1
    ≡ some (touch 105 (touch 50 ping))
unfolding sr_nat_lookup_external find
lookup-sweep_icmp_example = lookup-sweep_icmp table 0 50 100 105 (touch 50 ping) refl (omega arith)
