-- ===== src/SrNat/Sessions.antt =====
-- The connection tracking of cs144/router/sr_nat.c, and its list of unsolicited SYNs.
--
-- `nat_lookup_internal_no_lock` and `nat_lookup_external_no_lock` return a `memcpy` of the mapping:
-- the copy shares the connection nodes of the table's mapping, but it has its own `conns` pointer.
-- An assignment to a node's fields is seen in the table; a node put in front of the copy's list is
-- not.
use stanford.Prelude.{
  ℕ, Bool, true, false, ◌&&◌, Option, none, some, List, [], ◌∷◌, ◌==◌, if◌then◌else◌, ◌>>=◌,
}
use stanford.SrProtocol.{IpHdr, TcpHdr}
use stanford.SrTcp.{sr_get_tcp_transition}
use stanford.SrNat.{
  Nat, Mapping, Connection, UnsolicitedSyn, nat_mapping_tcp, is_external, is_internal, update_first,
  nat_lookup_internal_no_lock, nat_lookup_external_no_lock,
}

-- The memory that the stored header pointers refer to; `none` is memory that was freed.
abbrev pub Headers : Type 0
Headers = ℕ → Option IpHdr

abbrev pub is_connection : ℕ → ℕ → Connection → Bool
is_connection ip_ext port_ext c = c.ip_ext == ip_ext && c.port_ext == port_ext

unfoldable pub nat_lookup_connection : List Connection → ℕ → ℕ → Option Connection
nat_lookup_connection [] ip_ext port_ext = none
nat_lookup_connection (c ∷ cs) ip_ext port_ext =
    if is_connection ip_ext port_ext c then some c else nat_lookup_connection cs ip_ext port_ext

-- The two assignments through the pointer that `nat_lookup_connection` returned.
unfoldable pub update_connection :
    ℕ → ℕ → (Connection → Connection) → List Connection → List Connection
update_connection ip_ext port_ext f [] = []
update_connection ip_ext port_ext f (c ∷ cs) =
    if is_connection ip_ext port_ext c then f c ∷ cs else c ∷ update_connection ip_ext port_ext f cs

abbrev pub transition : TcpHdr → Bool → ℕ → Connection → Connection
transition tcp_hdr sent now c = record c {
  curr_state = sr_get_tcp_transition tcp_hdr c.curr_state sent;
  last_updated_state = now;
}

abbrev pub update_conns : ℕ → ℕ → (Connection → Connection) → Mapping → Mapping
update_conns ip_ext port_ext f m = record m { conns = update_connection ip_ext port_ext f m.conns }

-- The test of the two loops over the SYNs reads through the stored pointer: `none` is a fault.
abbrev pub is_syn : Headers → ℕ → ℕ → ℕ → UnsolicitedSyn → Option Bool
is_syn mem ip_src port_src port_dst s = mem s.ip_hdr >>= λ ip_hdr.
    some (ip_hdr.ip_src == ip_src && (s.port_src == port_src && s.port_dst == port_dst))

unfoldable pub nat_lookup_unsolicited_syn :
    Headers → List UnsolicitedSyn → ℕ → ℕ → ℕ → Option (Option UnsolicitedSyn)
nat_lookup_unsolicited_syn mem [] ip_src port_src port_dst = some none
nat_lookup_unsolicited_syn mem (s ∷ ss) ip_src port_src port_dst =
    is_syn mem ip_src port_src port_dst s >>= λ hit.
    if hit then some (some s) else nat_lookup_unsolicited_syn mem ss ip_src port_src port_dst

unfoldable pub nat_insert_unsolicited_syn : Nat → ℕ → ℕ → ℕ → ℕ → Nat
nat_insert_unsolicited_syn nat ip_hdr port_src port_dst now = record nat {
  unsolicited_syns =
      record { ip_hdr = ip_hdr; port_src = port_src; port_dst = port_dst; timestamp = now }
      ∷ nat.unsolicited_syns;
}

unfoldable pub nat_remove_unsolicited_syn :
    Headers → List UnsolicitedSyn → ℕ → ℕ → ℕ → Option (List UnsolicitedSyn)
nat_remove_unsolicited_syn mem [] ip_src port_src port_dst = some []
nat_remove_unsolicited_syn mem (s ∷ ss) ip_src port_src port_dst =
    is_syn mem ip_src port_src port_dst s >>= λ hit.
    if hit
    then some ss
    else (nat_remove_unsolicited_syn mem ss ip_src port_src port_dst >>= λ rest. some (s ∷ rest))

-- `ip_ptr` is the address of `ip_hdr`.
unfoldable pub sr_nat_handle_unsolicited_syn : Headers → Nat → ℕ → IpHdr → TcpHdr → ℕ → Option Nat
sr_nat_handle_unsolicited_syn mem nat ip_ptr ip_hdr tcp_hdr now =
    nat_lookup_unsolicited_syn mem nat.unsolicited_syns ip_hdr.ip_src tcp_hdr.source tcp_hdr.dest
    >>= λ existing. elim existing [
      | none ↦ some (nat_insert_unsolicited_syn nat ip_ptr tcp_hdr.source tcp_hdr.dest now)
      | some _ ↦ some nat
    ]

-- The connection part of `sr_nat_update_tcp_sent_state`, at the copy `m` of the mapping. A new
-- connection is put in front of the copy's list, which nothing reads again.
unfoldable pub track_sent : Nat → Mapping → IpHdr → TcpHdr → ℕ → Nat
track_sent nat m ip_hdr tcp_hdr now =
    elim (nat_lookup_connection m.conns ip_hdr.ip_dst tcp_hdr.dest) [
      | none ↦ nat
      | some _ ↦ record nat {
        mappings =
            update_first (is_internal ip_hdr.ip_src tcp_hdr.source nat_mapping_tcp)
              (update_conns ip_hdr.ip_dst tcp_hdr.dest (transition tcp_hdr true now)) nat.mappings;
      }
    ]

unfoldable pub forget_syn : Headers → Nat → ℕ → ℕ → ℕ → Option Nat
forget_syn mem nat ip_src port_src port_dst =
    nat_remove_unsolicited_syn mem nat.unsolicited_syns ip_src port_src port_dst >>= λ rest.
    some (record nat { unsolicited_syns = rest })

unfoldable pub sr_nat_update_tcp_sent_state : Headers → Nat → IpHdr → TcpHdr → ℕ → Option Nat
sr_nat_update_tcp_sent_state mem nat ip_hdr tcp_hdr now =
    let (nat', mapping) =
      nat_lookup_internal_no_lock nat ip_hdr.ip_src tcp_hdr.source nat_mapping_tcp now in
    elim mapping [
      | none ↦ some nat'
      | some m ↦
          let tracked = track_sent nat' m ip_hdr tcp_hdr now in
          if tcp_hdr.syn
          then forget_syn mem tracked ip_hdr.ip_dst tcp_hdr.dest m.aux_ext
          else some tracked
    ]

unfoldable pub sr_nat_update_tcp_recvd_state : Nat → IpHdr → TcpHdr → ℕ → Nat
sr_nat_update_tcp_recvd_state nat ip_hdr tcp_hdr now =
    let (nat', mapping) = nat_lookup_external_no_lock nat tcp_hdr.dest nat_mapping_tcp now in
    elim mapping [
      | none ↦ nat'
      | some m ↦ elim (nat_lookup_connection m.conns ip_hdr.ip_src tcp_hdr.source) [
        | none ↦ nat'
        | some _ ↦ record nat' {
          mappings =
              update_first (is_external tcp_hdr.dest nat_mapping_tcp)
                (update_conns ip_hdr.ip_src tcp_hdr.source (transition tcp_hdr false now))
                nat'.mappings;
        }
      ]
    ]
