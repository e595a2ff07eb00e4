-- ===== src/SrNat/Sweep.antt =====
-- The timer thread of cs144/router/sr_nat.c. A loop that unlinks nodes by its `prev` and `next`
-- pointers is a recursion that leaves those nodes out.
pub mod Stale
use stanford.Prelude.{
  ℕ, ◌+◌, Bool, true, false, ◌||◌, Option, none, some, List, [], ◌∷◌, ◌==◌, leb, if◌then◌else◌,
  ◌>>=◌,
}
use stanford.SrTcp.{
  tcp_established, tcp_syn_sent, tcp_syn_recv, tcp_close_wait, tcp_closing, tcp_fin_wait1,
  tcp_fin_wait2, tcp_last_ack,
}
use stanford.SrNat.{
  Nat, Mapping, Connection, UnsolicitedSyn, MappingType, nat_mapping_icmp, nat_mapping_tcp,
}

abbrev pub unsolicited_syn_timeout : ℕ
unsolicited_syn_timeout = 6

-- `difftime(curtime, since) >= timeout`.
abbrev pub is_over : ℕ → ℕ → ℕ → Bool
is_over since timeout curtime = leb (since + timeout) curtime

abbrev pub is_transitory : ℕ → Bool
is_transitory s =
    s == tcp_syn_sent
    || (s == tcp_syn_recv
        || (s == tcp_close_wait
            || (s == tcp_closing
                || (s == tcp_fin_wait1 || (s == tcp_fin_wait2 || s == tcp_last_ack)))))

unfoldable pub should_timeout_connection : Nat → Connection → ℕ → Bool
should_timeout_connection nat conn curtime =
    if conn.curr_state == tcp_established
    then is_over conn.last_updated_state nat.tcp_established_idle_timeout curtime
    else (if is_transitory conn.curr_state
        then is_over conn.last_updated_state nat.tcp_transitory_idle_timeout curtime
        else false)

unfoldable pub timeout_connections : Nat → List Connection → ℕ → List Connection
timeout_connections nat [] curtime = []
timeout_connections nat (c ∷ cs) curtime =
    let rest = timeout_connections nat cs curtime in
    if should_timeout_connection nat c curtime then rest else c ∷ rest

abbrev pub is_null : List Connection → Bool
is_null [] = true
is_null (c ∷ cs) = false

-- The body of the loop for one mapping: what is left of it, if it is kept.
unfoldable pub sweep_mapping : Nat → MappingType → Mapping → ℕ → Option Mapping
sweep_mapping nat nat_mapping_icmp m curtime =
    if is_over m.last_updated nat.icmp_query_timeout curtime then none else some m
sweep_mapping nat nat_mapping_tcp m curtime =
    let left = timeout_connections nat m.conns curtime in
    if is_null left then none else some (record m { conns = left })

unfoldable pub sweep_mappings : Nat → List Mapping → ℕ → List Mapping
sweep_mappings nat [] curtime = []
sweep_mappings nat (m ∷ ms) curtime =
    let rest = sweep_mappings nat ms curtime in
    elim (sweep_mapping nat m.type m curtime) [ none ↦ rest | some m' ↦ m' ∷ rest ]

unfoldable pub nat_remove_stale_mappings : Nat → ℕ → Nat
nat_remove_stale_mappings nat curtime = record nat {
  mappings = sweep_mappings nat nat.mappings curtime;
}

-- `send` is the effect on the router of `sr_send_icmp_unreachable_pkt(sr, PORT_UNREACHABLE, ip_hdr)`.
module _ {S : Type 0} (send : ℕ → S → Option S) where
  unfoldable pub respond_to_syns : List UnsolicitedSyn → ℕ → S → Option (List UnsolicitedSyn × S)
  respond_to_syns [] curtime s = some ([], s)
  respond_to_syns (u ∷ us) curtime s =
      if is_over u.timestamp unsolicited_syn_timeout curtime
      then (send u.ip_hdr s >>= λ s'. respond_to_syns us curtime s')
      else (respond_to_syns us curtime s >>= λ r. some (u ∷ r.0, r.1))

  unfoldable pub nat_respond_to_unsolicited_syns : Nat → ℕ → S → Option (Nat × S)
  nat_respond_to_unsolicited_syns nat curtime s =
      respond_to_syns nat.unsolicited_syns curtime s >>= λ r.
      some (record nat { unsolicited_syns = r.0 }, r.1)

  -- One round of the `while (1)` of `sr_nat_timeout`, between its lock and its unlock.
  unfoldable pub sr_nat_timeout_round : Nat → ℕ → S → Option (Nat × S)
  sr_nat_timeout_round nat curtime s =
      nat_respond_to_unsolicited_syns (nat_remove_stale_mappings nat curtime) curtime s
