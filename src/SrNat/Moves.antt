-- ===== src/SrNat/Moves.antt =====
-- What each call on the table of sr_nat.c does to its bindings.
use stanford.Prelude.{
  some_inj, ℕ, ◌≡◌, refl, inl, inr, Bool, true, false, none, some, List, [], ◌∷◌, arith, subst,
  Option-cases, ◌>>=◌,
}
use stanford.SrProtocol.{IpHdr, TcpHdr}
use stanford.SrNat.{
  Nat, Mapping, MappingType, nat_mapping_icmp, nat_mapping_tcp, find, touch, lookup_touch,
  update_first, is_internal, is_external, add_mapping, sr_nat_insert_mapping,
  sr_nat_lookup_internal, sr_nat_lookup_external, nat_lookup_internal_no_lock,
  nat_lookup_external_no_lock,
}
use stanford.SrNat.Sessions.{
  Headers, track_sent, update_conns, transition, forget_syn, sr_nat_update_tcp_sent_state,
  sr_nat_update_tcp_recvd_state, sr_nat_handle_unsolicited_syn, nat_insert_unsolicited_syn,
}
use stanford.SrNat.Sweep.{
  sr_nat_timeout_round, nat_remove_stale_mappings, nat_respond_to_unsolicited_syns, sweep_mappings,
}
use stanford.SrNat.Table.{Without, find-none}
use stanford.SrNat.Bindings.{
  bindings, bindings_of, Sub, Sub-refl, bindings-lookup_touch, bindings-update_first,
  bindings-sweep_mappings,
}
use stanford.SrNat.Calls.{
  Call, looks_external, looks_internal, inserts, sends, receives, sees_syn, sweeps, read_header,
  step, Unbound, insert_count, Move, shrink, bind_icmp, bind_tcp, Same,
}

Same-Move : {nat nat' : Nat} (k : ℕ) → Same nat nat' → Move nat nat' k
Same-Move {nat} k s = shrink (rw s.bound (Sub-refl (bindings nat))) s.tcp s.icmp

Same-trans : {a b c : Nat} → Same a b → Same b c → Same a c
Same-trans s t = ground arith

pub lookup-Same : (nat : Nat) (p : Mapping → Bool) (now : ℕ) → Same nat (lookup_touch nat p now).0
lookup-Same nat p now = record {
  bound = bindings-lookup_touch nat p now;
  tcp = ground arith;
  icmp = ground arith;
}

Without-Unbound :
    (ip aux : ℕ) (type : MappingType) (ms : List Mapping)
    → Without (is_internal ip aux type) ms
    → Unbound ip aux type (bindings_of ms)
Without-Unbound ip aux type [] h = tt
Without-Unbound ip aux type (m ∷ ms) h = (h.0, Without-Unbound ip aux type ms h.1)

insert-new :
    (nat : Nat) (ip aux : ℕ) (type : MappingType) (now : ℕ)
    → find (is_internal ip aux type) nat.mappings ≡ none
    → sr_nat_insert_mapping nat ip aux type now ≡ add_mapping nat ip aux type now
unfolding sr_nat_insert_mapping
insert-new nat ip aux type now e = ground arith

insert-old :
    (nat : Nat) (ip aux : ℕ) (type : MappingType) (now : ℕ) (m : Mapping)
    → find (is_internal ip aux type) nat.mappings ≡ some m
    → (sr_nat_insert_mapping nat ip aux type now).0
      ≡ (lookup_touch nat (is_internal ip aux type) now).0
unfolding sr_nat_insert_mapping
insert-old nat ip aux type now m e = ground arith

add-Move :
    (nat : Nat) (ip aux : ℕ) (type : MappingType) (now : ℕ)
    → Unbound ip aux type (bindings nat)
    → Move nat (add_mapping nat ip aux type now).0 1
unfolding add_mapping
add-Move nat ip aux nat_mapping_icmp now h = bind_icmp ip aux (omega arith) h refl refl refl
add-Move nat ip aux nat_mapping_tcp now h = bind_tcp ip aux (omega arith) h refl refl refl

insert-Move :
    (nat : Nat) (ip aux : ℕ) (type : MappingType) (now : ℕ)
    → Move nat (sr_nat_insert_mapping nat ip aux type now).0 1
insert-Move nat ip aux type now =
    elim (Option-cases (find (is_internal ip aux type) nat.mappings)) [
      | inl e ↦ rw (insert-new nat ip aux type now e) (
          add-Move nat ip aux type now (Without-Unbound ip aux type nat.mappings (find-none _ _ e)))
      | inr (m, e) ↦
          rw (insert-old nat ip aux type now m e)
            (Same-Move 1 (lookup-Same nat (is_internal ip aux type) now))
    ]

track_sent-Same :
    (nat : Nat) (m : Mapping) (ip_hdr : IpHdr) (tcp_hdr : TcpHdr) (now : ℕ)
    → Same nat (track_sent nat m ip_hdr tcp_hdr now)
unfolding track_sent
track_sent-Same nat m ip_hdr tcp_hdr now = ground (
  arith,
  bindings-update_first (is_internal ip_hdr.ip_src tcp_hdr.source nat_mapping_tcp)
      (update_conns ip_hdr.ip_dst tcp_hdr.dest (transition tcp_hdr true now)) nat.mappings
      (λ m. refl),
)

forget_syn-Same :
    (mem : Headers) (nat nat' : Nat) (ip src dst : ℕ)
    → forget_syn mem nat ip src dst ≡ some nat'
    → Same nat nat'
unfolding forget_syn
forget_syn-Same mem nat nat' ip src dst e = ground arith

pub sent-Same :
    (mem : Headers) (nat nat' : Nat) (ip_hdr : IpHdr) (tcp_hdr : TcpHdr) (now : ℕ)
    → sr_nat_update_tcp_sent_state mem nat ip_hdr tcp_hdr now ≡ some nat'
    → Same nat nat'
unfolding sr_nat_update_tcp_sent_state nat_lookup_internal_no_lock
sent-Same mem nat nat' ip_hdr tcp_hdr now e = elim (Option-cases (find p nat.mappings)) [
  | inl n ↦ ground (arith, e)
  | inr (m, f) ↦ ground (
    arith,
    e,
    lookup-Same nat p now,
    track_sent-Same (lookup_touch nat p now).0 (touch now m) ip_hdr tcp_hdr now,
    forget_syn-Same mem (track_sent (lookup_touch nat p now).0 (touch now m) ip_hdr tcp_hdr now)
        nat' ip_hdr.ip_dst tcp_hdr.dest m.aux_ext,
  )
]
  where
    p : Mapping → Bool
    p = is_internal ip_hdr.ip_src tcp_hdr.source nat_mapping_tcp

pub recvd-Same :
    (nat : Nat) (ip_hdr : IpHdr) (tcp_hdr : TcpHdr) (now : ℕ)
    → Same nat (sr_nat_update_tcp_recvd_state nat ip_hdr tcp_hdr now)
unfolding sr_nat_update_tcp_recvd_state nat_lookup_external_no_lock
recvd-Same nat ip_hdr tcp_hdr now = ground (
  arith,
  bindings-update_first p (touch now) nat.mappings (λ m. refl),
  bindings-update_first p (update_conns ip_hdr.ip_src tcp_hdr.source (transition tcp_hdr false now))
      (update_first p (touch now) nat.mappings) (λ m. refl),
)
  where
    p : Mapping → Bool
    p = is_external tcp_hdr.dest nat_mapping_tcp

pub syn-Same :
    (mem : Headers) (nat nat' : Nat) (ip_ptr : ℕ) (ip_hdr : IpHdr) (tcp_hdr : TcpHdr) (now : ℕ)
    → sr_nat_handle_unsolicited_syn mem nat ip_ptr ip_hdr tcp_hdr now ≡ some nat'
    → Same nat nat'
unfolding sr_nat_handle_unsolicited_syn nat_insert_unsolicited_syn
syn-Same mem nat nat' ip_ptr ip_hdr tcp_hdr now e = ground arith

sweep-Move :
    (mem : Headers) (nat nat' : Nat) (now : ℕ)
    → (sr_nat_timeout_round (read_header mem) nat now tt >>= λ r. some r.0) ≡ some nat'
    → Move nat nat' 0
unfolding sr_nat_timeout_round nat_respond_to_unsolicited_syns nat_remove_stale_mappings
sweep-Move mem nat nat' now e =
    shrink
      (subst (λ ms. Sub (bindings_of ms) (bindings nat)) swept
        (bindings-sweep_mappings nat nat.mappings now))
      (ground (arith, e)) (ground (arith, e))
  where
    swept : sweep_mappings nat nat.mappings now ≡ nat'.mappings
    swept = ground (arith, e)

-- Every call moves the bindings and the counters in one of these ways.
pub step-Move :
    (mem : Headers) (nat nat' : Nat) (now : ℕ) (c : Call)
    → step mem nat (now, c) ≡ some nat'
    → Move nat nat' (insert_count c)
unfolding step sr_nat_lookup_external sr_nat_lookup_internal
step-Move mem nat nat' now (looks_external aux type) e =
    subst (λ n. Move nat n 0) (some_inj _ _ e)
      (Same-Move 0 (lookup-Same nat (is_external aux type) now))
step-Move mem nat nat' now (looks_internal ip aux type) e =
    subst (λ n. Move nat n 0) (some_inj _ _ e)
      (Same-Move 0 (lookup-Same nat (is_internal ip aux type) now))
step-Move mem nat nat' now (inserts ip aux type) e =
    subst (λ n. Move nat n 1) (some_inj _ _ e) (insert-Move nat ip aux type now)
step-Move mem nat nat' now (sends ip_hdr tcp_hdr) e =
    Same-Move 0 (sent-Same mem nat nat' ip_hdr tcp_hdr now e)
step-Move mem nat nat' now (receives ip_hdr tcp_hdr) e =
    subst (λ n. Move nat n 0) (some_inj _ _ e) (Same-Move 0 (recvd-Same nat ip_hdr tcp_hdr now))
step-Move mem nat nat' now (sees_syn ip_ptr ip_hdr tcp_hdr) e =
    Same-Move 0 (syn-Same mem nat nat' ip_ptr ip_hdr tcp_hdr now e)
step-Move mem nat nat' now sweeps e = sweep-Move mem nat nat' now e
