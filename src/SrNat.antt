-- ===== src/SrNat.antt =====
-- The translation table of cs144/router/sr_nat.c. Its linked lists are lists, newest first. Each
-- operation runs under the table's lock, so it is one step; `now` is the clock's reading during it.
-- `ip_ext` of a mapping is never written nor read and is left out.
pub mod Table
pub mod Insert
pub mod Bindings
pub mod Calls
pub mod Moves
pub mod Invariant
pub mod Distinct
pub mod Untracked
pub mod External
pub mod Kept
pub mod Sessions
pub mod Sweep
use stanford.Prelude.{
  ℕ, ◌+◌, ◌%◌, Bool, true, false, ◌&&◌, ◌||◌, not, Option, none, some, List, [], ◌∷◌, ◌==◌, leb,
  if◌then◌else◌, ◌>>=◌,
}
use stanford.SrProtocol.{IpHdr, TcpHdr}
use stanford.SrTcp.{
  tcp_established, tcp_syn_sent, tcp_syn_recv, tcp_close, tcp_close_wait, tcp_closing,
  tcp_fin_wait1, tcp_fin_wait2, tcp_last_ack, sr_get_tcp_transition,
}

abbrev pub min_tcp_port : ℕ
min_tcp_port = 1024

abbrev pub ushrt_max : ℕ
ushrt_max = 65535

-- `sr_nat_mapping_type`.
pub data MappingType : Type 0 where
  nat_mapping_icmp nat_mapping_tcp : MappingType

abbrev pub same_type : MappingType → MappingType → Bool
same_type nat_mapping_icmp nat_mapping_icmp = true
same_type nat_mapping_icmp nat_mapping_tcp = false
same_type nat_mapping_tcp nat_mapping_icmp = false
same_type nat_mapping_tcp nat_mapping_tcp = true

pub record Connection : Type 0 where
  pub ip_ext : ℕ
  pub port_ext : ℕ
  pub curr_state : ℕ
  pub last_updated_state : ℕ

pub record Mapping : Type 0 where
  pub type : MappingType
  pub ip_int : ℕ
  pub aux_int : ℕ
  pub aux_ext : ℕ
  pub last_updated : ℕ
  pub conns : List Connection

-- `ip_hdr` is the address of a header: the code keeps the pointer, not a copy.
pub record UnsolicitedSyn : Type 0 where
  pub ip_hdr : ℕ
  pub port_src : ℕ
  pub port_dst : ℕ
  pub timestamp : ℕ

pub record Nat : Type 0 where
  pub mappings : List Mapping
  pub unsolicited_syns : List UnsolicitedSyn
  pub tcp_id : ℕ
  pub icmp_id : ℕ
  pub icmp_query_timeout : ℕ
  pub tcp_established_idle_timeout : ℕ
  pub tcp_transitory_idle_timeout : ℕ

-- The fields that `sr_nat_init` sets, after it has made the lock and the thread.
unfoldable pub sr_nat_init : ℕ → ℕ → ℕ → Nat
sr_nat_init icmp_query established transitory = record {
  mappings = [];
  unsolicited_syns = [];
  tcp_id = min_tcp_port;
  icmp_id = 0;
  icmp_query_timeout = icmp_query;
  tcp_established_idle_timeout = established;
  tcp_transitory_idle_timeout = transitory;
}

-- The search loops. The first match of the list has its `last_updated` set; the copy that the code
-- returns is that mapping with the new time.
abbrev pub is_external : ℕ → MappingType → Mapping → Bool
is_external aux_ext type m = m.aux_ext == aux_ext && same_type m.type type

abbrev pub is_internal : ℕ → ℕ → MappingType → Mapping → Bool
is_internal ip_int aux_int type m =
    m.ip_int == ip_int && (m.aux_int == aux_int && same_type m.type type)

unfoldable pub find : (Mapping → Bool) → List Mapping → Option Mapping
find p [] = none
find p (m ∷ ms) = if p m then some m else find p ms

unfoldable pub update_first : (Mapping → Bool) → (Mapping → Mapping) → List Mapping → List Mapping
update_first p f [] = []
update_first p f (m ∷ ms) = if p m then f m ∷ ms else m ∷ update_first p f ms

abbrev pub touch : ℕ → Mapping → Mapping
touch now m = record m { last_updated = now }

abbrev pub lookup_touch : Nat → (Mapping → Bool) → ℕ → Nat × Option Mapping
lookup_touch nat p now = elim (find p nat.mappings) [
  | none ↦ (nat, none)
  | some m ↦ (record nat { mappings = update_first p (touch now) nat.mappings }, some (touch now m))
]

unfoldable pub nat_lookup_external_no_lock : Nat → ℕ → MappingType → ℕ → Nat × Option Mapping
nat_lookup_external_no_lock nat aux_ext type now = lookup_touch nat (is_external aux_ext type) now

unfoldable pub nat_lookup_internal_no_lock : Nat → ℕ → ℕ → MappingType → ℕ → Nat × Option Mapping
nat_lookup_internal_no_lock nat ip_int aux_int type now =
    lookup_touch nat (is_internal ip_int aux_int type) now

unfoldable pub sr_nat_lookup_external : Nat → ℕ → MappingType → ℕ → Nat × Option Mapping
unfolding nat_lookup_external_no_lock
sr_nat_lookup_external = nat_lookup_external_no_lock

unfoldable pub sr_nat_lookup_internal : Nat → ℕ → ℕ → MappingType → ℕ → Nat × Option Mapping
unfolding nat_lookup_internal_no_lock
sr_nat_lookup_internal = nat_lookup_internal_no_lock

-- `nat->icmp_id++` and `nat->tcp_id++` on a `uint16_t`, with the reset that follows.
unfoldable pub bump_id : ℕ → ℕ → ℕ
bump_id first id = let next = (id + 1) % 65536 in if next == ushrt_max then first else next

unfoldable pub add_mapping : Nat → ℕ → ℕ → MappingType → ℕ → Nat × Mapping
unfolding bump_id
add_mapping nat ip_int aux_int nat_mapping_icmp now =
    let m : Mapping = record {
      type = nat_mapping_icmp;
      ip_int = ip_int;
      aux_int = aux_int;
      aux_ext = nat.icmp_id;
      last_updated = now;
      conns = [];
    } in
    (record nat { mappings = m ∷ nat.mappings; icmp_id = bump_id 0 nat.icmp_id }, m)
add_mapping nat ip_int aux_int nat_mapping_tcp now =
    let m : Mapping = record {
      type = nat_mapping_tcp;
      ip_int = ip_int;
      aux_int = aux_int;
      aux_ext = nat.tcp_id;
      last_updated = now;
      conns = [];
    } in
    (record nat { mappings = m ∷ nat.mappings; tcp_id = bump_id min_tcp_port nat.tcp_id }, m)

unfoldable pub sr_nat_insert_mapping : Nat → ℕ → ℕ → MappingType → ℕ → Nat × Mapping
unfolding nat_lookup_internal_no_lock add_mapping
sr_nat_insert_mapping nat ip_int aux_int type now =
    let (nat', existing) = nat_lookup_internal_no_lock nat ip_int aux_int type now in
    elim existing [ some m ↦ (nat', m) | none ↦ add_mapping nat' ip_int aux_int type now ]
