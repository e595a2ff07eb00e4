-- ===== src/SrNat/Calls.antt =====
-- The calls that the router and the timer thread make on the table of sr_nat.c, in the order in
-- which they get its lock, and what a call does to the bindings.
use stanford.Prelude.{ℕ, ◌<◌, ◌≡◌, false, ◌&&◌, Option, some, List, ◌∷◌, All, ◌>>=◌, ◌==◌}
use stanford.SrProtocol.{IpHdr, TcpHdr}
use stanford.SrNat.{
  Nat, MappingType, nat_mapping_icmp, nat_mapping_tcp, same_type, bump_id, min_tcp_port,
  sr_nat_insert_mapping, sr_nat_lookup_internal, sr_nat_lookup_external,
}
use stanford.SrNat.Sessions.{
  Headers, sr_nat_update_tcp_sent_state, sr_nat_update_tcp_recvd_state,
  sr_nat_handle_unsolicited_syn,
}
use stanford.SrNat.Sweep.{sr_nat_timeout_round}
use stanford.SrNat.Bindings.{Binding, bindings, Sub}

pub data Call : Type 0 where
  looks_external : ℕ → MappingType → Call
  looks_internal : ℕ → ℕ → MappingType → Call
  inserts : ℕ → ℕ → MappingType → Call
  sends : IpHdr → TcpHdr → Call
  receives : IpHdr → TcpHdr → Call
  sees_syn : ℕ → IpHdr → TcpHdr → Call
  sweeps : Call

-- The answer to an unsolicited SYN reads the header behind the stored pointer.
abbrev pub read_header : Headers → ℕ → Unit {0} → Option (Unit {0})
read_header mem ip_ptr s = mem ip_ptr >>= λ ip_hdr. some s

-- One call at a time; `none` is a read of freed memory.
unfoldable pub step : Headers → Nat → ℕ × Call → Option Nat
step mem nat (now, looks_external aux type) = some (sr_nat_lookup_external nat aux type now).0
step mem nat (now, looks_internal ip aux type) = some (sr_nat_lookup_internal nat ip aux type now).0
step mem nat (now, inserts ip aux type) = some (sr_nat_insert_mapping nat ip aux type now).0
step mem nat (now, sends ip_hdr tcp_hdr) = sr_nat_update_tcp_sent_state mem nat ip_hdr tcp_hdr now
step mem nat (now, receives ip_hdr tcp_hdr) =
    some (sr_nat_update_tcp_recvd_state nat ip_hdr tcp_hdr now)
step mem nat (now, sees_syn ip_ptr ip_hdr tcp_hdr) =
    sr_nat_handle_unsolicited_syn mem nat ip_ptr ip_hdr tcp_hdr now
step mem nat (now, sweeps) = sr_nat_timeout_round (read_header mem) nat now tt >>= λ r. some r.0

-- No binding of the list is for this internal address and id.
abbrev pub Unbound : ℕ → ℕ → MappingType → List Binding → Type 0
Unbound ip aux type =
    All (λ b. (b.ip_int == ip && (b.aux_int == aux && same_type b.type type)) ≡ false)

-- How many bindings a call may make.
abbrev pub insert_count : Call → ℕ
insert_count (inserts ip aux type) = 1
insert_count _ = 0

-- What a call may do to the bindings and the counters: take bindings away, or add one for an
-- internal address and id that had none, with the counter's value, and step that counter. `k` is 0 if no binding
-- may be made.
pub data Move (nat nat' : Nat) (k : ℕ) : Type 0 where
  shrink :
      Sub (bindings nat') (bindings nat)
      → nat'.tcp_id ≡ nat.tcp_id
      → nat'.icmp_id ≡ nat.icmp_id
      → Move nat nat' k
  bind_icmp :
      (ip aux : ℕ)
      → 0 < k
      → Unbound ip aux nat_mapping_icmp (bindings nat)
      → bindings nat'
        ≡ record { type = nat_mapping_icmp; ip_int = ip; aux_int = aux; aux_ext = nat.icmp_id }
          ∷ bindings nat
      → nat'.tcp_id ≡ nat.tcp_id
      → nat'.icmp_id ≡ bump_id 0 nat.icmp_id
      → Move nat nat' k
  bind_tcp :
      (ip aux : ℕ)
      → 0 < k
      → Unbound ip aux nat_mapping_tcp (bindings nat)
      → bindings nat'
        ≡ record { type = nat_mapping_tcp; ip_int = ip; aux_int = aux; aux_ext = nat.tcp_id }
          ∷ bindings nat
      → nat'.tcp_id ≡ bump_id min_tcp_port nat.tcp_id
      → nat'.icmp_id ≡ nat.icmp_id
      → Move nat nat' k

-- The same bindings and counters.
pub record Same (nat nat' : Nat) : Type 0 where
  pub bound : bindings nat' ≡ bindings nat
  pub tcp : nat'.tcp_id ≡ nat.tcp_id
  pub icmp : nat'.icmp_id ≡ nat.icmp_id
