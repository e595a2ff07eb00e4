-- ===== src/SrNat/Untracked.antt =====
-- The connection lists of the table of sr_nat.c stay empty: `sr_nat_update_tcp_sent_state` puts a new
-- connection into the copy of the mapping that its lookup returned, so the sweep, which removes the
-- TCP mappings without connections, removes every TCP mapping.
use stanford.Prelude.{
  some_inj, ℕ, ◌≡◌, refl, inl, inr, Bool, none, some, List, [], ◌∷◌, arith, All, subst,
  Option-cases, ◌>>=◌, ◌⊎◌,
}
use stanford.SrProtocol.{IpHdr, TcpHdr}
use stanford.SrNat.{
  Nat, Mapping, MappingType, nat_mapping_icmp, nat_mapping_tcp, find, update_first, touch,
  lookup_touch, is_external, is_internal, sr_nat_lookup_external, sr_nat_lookup_internal,
  nat_lookup_internal_no_lock, nat_lookup_external_no_lock, sr_nat_insert_mapping, add_mapping,
  sr_nat_init,
}
use stanford.SrNat.Sessions.{
  Headers, track_sent, forget_syn, nat_lookup_connection, sr_nat_update_tcp_sent_state,
  sr_nat_update_tcp_recvd_state, sr_nat_handle_unsolicited_syn, nat_insert_unsolicited_syn,
}
use stanford.SrNat.Sweep.{
  sr_nat_timeout_round, nat_remove_stale_mappings, nat_respond_to_unsolicited_syns, sweep_mapping,
  sweep_mappings, timeout_connections,
}
use stanford.SrNat.Table.{update_first-All, find-All}
use stanford.SrNat.Calls.{
  Call, looks_external, looks_internal, inserts, sends, receives, sees_syn, sweeps, step,
  read_header,
}
use stanford.SrNat.Invariant.{run}

abbrev pub IsUntracked : List Mapping → Type 0
IsUntracked = All (λ m. m.conns ≡ [])

touch-IsUntracked :
    (p : Mapping → Bool) (now : ℕ) (ms : List Mapping)
    → IsUntracked ms
    → IsUntracked (update_first p (touch now) ms)
touch-IsUntracked p now ms h = update_first-All (λ m. m.conns ≡ []) p (touch now) ms (λ a e. e) h

lookup-IsUntracked :
    (nat : Nat) (p : Mapping → Bool) (now : ℕ)
    → IsUntracked nat.mappings
    → IsUntracked (lookup_touch nat p now).0.mappings
lookup-IsUntracked nat p now h = elim (Option-cases (find p nat.mappings)) [
  | inl e ↦
      let same : nat.mappings ≡ (lookup_touch nat p now).0.mappings = ground (arith, e) in
      subst IsUntracked same h
  | inr (m, e) ↦
      let same : update_first p (touch now) nat.mappings ≡ (lookup_touch nat p now).0.mappings =
        ground (arith, e) in
      subst IsUntracked same (touch-IsUntracked p now nat.mappings h)
]

add-IsUntracked :
    (nat : Nat) (ip aux : ℕ) (type : MappingType) (now : ℕ)
    → IsUntracked nat.mappings
    → IsUntracked (add_mapping nat ip aux type now).0.mappings
unfolding add_mapping
add-IsUntracked nat ip aux nat_mapping_icmp now h = (refl, h)
add-IsUntracked nat ip aux nat_mapping_tcp now h = (refl, h)

insert-IsUntracked :
    (nat : Nat) (ip aux : ℕ) (type : MappingType) (now : ℕ)
    → IsUntracked nat.mappings
    → IsUntracked (sr_nat_insert_mapping nat ip aux type now).0.mappings
unfolding sr_nat_insert_mapping
insert-IsUntracked nat ip aux type now h =
    elim (Option-cases (find (is_internal ip aux type) nat.mappings)) [
      | inl e ↦
          let same : (add_mapping nat ip aux type now).0.mappings
              ≡ (sr_nat_insert_mapping nat ip aux type now).0.mappings =
            ground (arith, e) in
          subst IsUntracked same (add-IsUntracked nat ip aux type now h)
      | inr (m, e) ↦
          let same : (lookup_touch nat (is_internal ip aux type) now).0.mappings
              ≡ (sr_nat_insert_mapping nat ip aux type now).0.mappings =
            ground (arith, e) in
          subst IsUntracked same (lookup-IsUntracked nat (is_internal ip aux type) now h)
    ]

-- With no connections there is nothing to update.
track_sent-idle :
    (nat : Nat) (m : Mapping) (ip_hdr : IpHdr) (tcp_hdr : TcpHdr) (now : ℕ)
    → m.conns ≡ []
    → track_sent nat m ip_hdr tcp_hdr now ≡ nat
unfolding track_sent nat_lookup_connection
track_sent-idle nat m ip_hdr tcp_hdr now e = rw (e, track_sent) refl

sent-IsUntracked :
    (mem : Headers) (nat nat' : Nat) (ip_hdr : IpHdr) (tcp_hdr : TcpHdr) (now : ℕ)
    → IsUntracked nat.mappings
    → sr_nat_update_tcp_sent_state mem nat ip_hdr tcp_hdr now ≡ some nat'
    → IsUntracked nat'.mappings
unfolding sr_nat_update_tcp_sent_state nat_lookup_internal_no_lock forget_syn
sent-IsUntracked mem nat nat' ip_hdr tcp_hdr now h e =
    subst IsUntracked same (lookup-IsUntracked nat p now h)
  where
    p : Mapping → Bool
    p = is_internal ip_hdr.ip_src tcp_hdr.source nat_mapping_tcp

    same : (lookup_touch nat p now).0.mappings ≡ nat'.mappings
    same = elim (Option-cases (find p nat.mappings)) [
      | inl n ↦ ground (arith, e, n)
      | inr (m, f) ↦ ground (
        arith,
        e,
        f,
        track_sent-idle (lookup_touch nat p now).0 (touch now m) ip_hdr tcp_hdr now
            (find-All (λ a. a.conns ≡ []) p nat.mappings m h f),
      )
    ]

recvd-IsUntracked :
    (nat : Nat) (ip_hdr : IpHdr) (tcp_hdr : TcpHdr) (now : ℕ)
    → IsUntracked nat.mappings
    → IsUntracked (sr_nat_update_tcp_recvd_state nat ip_hdr tcp_hdr now).mappings
unfolding sr_nat_update_tcp_recvd_state nat_lookup_external_no_lock nat_lookup_connection
recvd-IsUntracked nat ip_hdr tcp_hdr now h =
    subst {A = Nat} (λ n. IsUntracked n.mappings) same (lookup-IsUntracked nat p now h)
  where
    p : Mapping → Bool
    p = is_external tcp_hdr.dest nat_mapping_tcp

    same : (lookup_touch nat p now).0 ≡ sr_nat_update_tcp_recvd_state nat ip_hdr tcp_hdr now
    same = elim (Option-cases (find p nat.mappings)) [
      | inl n ↦ ground (arith, n)
      | inr (m, f) ↦ ground (arith, f, find-All (λ a. a.conns ≡ []) p nat.mappings m h f)
    ]

-- A TCP mapping without connections is removed, an ICMP mapping is kept as it is or removed.
sweep-idle :
    (nat : Nat) (t : MappingType) (m : Mapping) (now : ℕ)
    → m.conns ≡ []
    → (sweep_mapping nat t m now ≡ none)
      ⊎ ((sweep_mapping nat t m now ≡ some m) × (t ≡ nat_mapping_icmp))
unfolding sweep_mapping timeout_connections
sweep-idle nat nat_mapping_icmp m now e = ground arith
sweep-idle nat nat_mapping_tcp m now e = inl (rw (e, sweep_mapping) refl)

abbrev pub IsIcmpOnly : List Mapping → Type 0
IsIcmpOnly = All (λ m. m.type ≡ nat_mapping_icmp)

sweep_mappings-idle :
    (nat : Nat) (ms : List Mapping) (now : ℕ)
    → IsUntracked ms
    → IsUntracked (sweep_mappings nat ms now) × IsIcmpOnly (sweep_mappings nat ms now)
unfolding sweep_mappings
sweep_mappings-idle nat [] now h = (tt, tt)
sweep_mappings-idle nat (m ∷ ms) now h =
    let ih = sweep_mappings-idle nat ms now h.1 in
    elim (sweep-idle nat m.type m now h.0) [
      | inl e ↦ rw (e, sweep_mappings) ih
      | inr (e, t) ↦ rw (e, sweep_mappings) ((h.0, ih.0), (t, ih.1))
    ]

round-IsUntracked :
    (mem : Headers) (nat nat' : Nat) (now : ℕ)
    → IsUntracked nat.mappings
    → (sr_nat_timeout_round (read_header mem) nat now tt >>= λ r. some r.0) ≡ some nat'
    → IsUntracked nat'.mappings × IsIcmpOnly nat'.mappings
unfolding sr_nat_timeout_round nat_respond_to_unsolicited_syns nat_remove_stale_mappings
round-IsUntracked mem nat nat' now h e =
    subst (λ ms. IsUntracked ms × IsIcmpOnly ms) swept (sweep_mappings-idle nat nat.mappings now h)
  where
    swept : sweep_mappings nat nat.mappings now ≡ nat'.mappings
    swept = ground (arith, e)

syn-mappings :
    (mem : Headers) (nat nat' : Nat) (ip_ptr : ℕ) (ip_hdr : IpHdr) (tcp_hdr : TcpHdr) (now : ℕ)
    → sr_nat_handle_unsolicited_syn mem nat ip_ptr ip_hdr tcp_hdr now ≡ some nat'
    → nat.mappings ≡ nat'.mappings
unfolding sr_nat_handle_unsolicited_syn nat_insert_unsolicited_syn
syn-mappings mem nat nat' ip_ptr ip_hdr tcp_hdr now e = ground (arith, e)

step-IsUntracked :
    (mem : Headers) (nat nat' : Nat) (now : ℕ) (c : Call)
    → IsUntracked nat.mappings
    → step mem nat (now, c) ≡ some nat'
    → IsUntracked nat'.mappings
unfolding step sr_nat_lookup_external sr_nat_lookup_internal
step-IsUntracked mem nat nat' now (looks_external aux type) h e =
    subst {A = Nat} (λ n. IsUntracked n.mappings) (some_inj _ _ e)
      (lookup-IsUntracked nat (is_external aux type) now h)
step-IsUntracked mem nat nat' now (looks_internal ip aux type) h e =
    subst {A = Nat} (λ n. IsUntracked n.mappings) (some_inj _ _ e)
      (lookup-IsUntracked nat (is_internal ip aux type) now h)
step-IsUntracked mem nat nat' now (inserts ip aux type) h e =
    subst {A = Nat} (λ n. IsUntracked n.mappings) (some_inj _ _ e)
      (insert-IsUntracked nat ip aux type now h)
step-IsUntracked mem nat nat' now (sends ip_hdr tcp_hdr) h e =
    sent-IsUntracked mem nat nat' ip_hdr tcp_hdr now h e
step-IsUntracked mem nat nat' now (receives ip_hdr tcp_hdr) h e =
    subst {A = Nat} (λ n. IsUntracked n.mappings) (some_inj _ _ e)
      (recvd-IsUntracked nat ip_hdr tcp_hdr now h)
step-IsUntracked mem nat nat' now (sees_syn ip_ptr ip_hdr tcp_hdr) h e =
    subst IsUntracked (syn-mappings mem nat nat' ip_ptr ip_hdr tcp_hdr now e) h
step-IsUntracked mem nat nat' now sweeps h e = (round-IsUntracked mem nat nat' now h e).0

run-IsUntracked_from :
    (mem : Headers) (cs : List (ℕ × Call)) (nat nat' : Nat)
    → IsUntracked nat.mappings
    → run mem nat cs ≡ some nat'
    → IsUntracked nat'.mappings
unfolding run
run-IsUntracked_from mem [] nat nat' h e =
    subst {A = Nat} (λ n. IsUntracked n.mappings) (some_inj _ _ e) h
run-IsUntracked_from mem ((now, c) ∷ cs) nat nat' h e =
    elim (Option-cases (step mem nat (now, c))) [
      | inl f ↦ ground (arith, e)
      | inr (mid, f) ↦
          run-IsUntracked_from mem cs mid nat' (step-IsUntracked mem nat mid now c h f)
            (ground (arith, e))
    ]

-- After any calls on a new table that read no freed memory, no mapping of the table has a tracked
-- connection, and the next round of the timer, at any time and with any timeouts, leaves no TCP
-- mapping in it.
pub run-sweep-IsUntracked :
    (mem : Headers) (icmp established transitory : ℕ) (cs : List (ℕ × Call)) (now : ℕ)
    (nat swept : Nat)
    → run mem (sr_nat_init icmp established transitory) cs ≡ some nat
    → step mem nat (now, sweeps) ≡ some swept
    → IsUntracked nat.mappings × IsIcmpOnly swept.mappings
unfolding sr_nat_init step
run-sweep-IsUntracked mem icmp established transitory cs now nat swept e f =
    let idle = run-IsUntracked_from mem cs _ nat tt e in
    (idle, (round-IsUntracked mem nat swept now idle f).1)
