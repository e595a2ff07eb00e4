-- ===== src/SrNat/Invariant.antt =====
-- What holds of the table of sr_nat.c after any calls: one binding for each internal address and id,
-- external ids in the range of their kind, and no external id twice until a counter has gone round.
use stanford.Prelude.{
  some_inj, ℕ, ◌≤◌, ◌<◌, ◌≡◌, inl, inr, Option, some, List, [], ◌∷◌, arith, All, subst, ◌>>=◌,
  Option-cases,
}
use stanford.SrNat.{
  Nat, MappingType, nat_mapping_icmp, nat_mapping_tcp, bump_id, min_tcp_port, sr_nat_init,
}
use stanford.SrNat.Sessions.{Headers}
use stanford.SrNat.Bindings.{Binding, bindings, Sub, done, skip, keep}
use stanford.SrNat.Calls.{Call, step, Unbound, Move, shrink, bind_icmp, bind_tcp}
use stanford.SrNat.Moves.{step-Move}

pub Sub-All {ℓ} : (P : Binding → Type ℓ) {xs ys : List Binding} → Sub xs ys → All P ys → All P xs
Sub-All P done h = h
Sub-All P (skip s) h = Sub-All P s h.1
Sub-All P (keep s) h = (h.0, Sub-All P s h.1)

abbrev pub KeysDistinct : List Binding → Type 0
KeysDistinct [] = Unit
KeysDistinct (b ∷ bs) = Unbound b.ip_int b.aux_int b.type bs × KeysDistinct bs

Sub-KeysDistinct : {xs ys : List Binding} → Sub xs ys → KeysDistinct ys → KeysDistinct xs
Sub-KeysDistinct done h = h
Sub-KeysDistinct (skip s) h = Sub-KeysDistinct s h.1
Sub-KeysDistinct (keep {b = b} s) h = (Sub-All _ s h.0, Sub-KeysDistinct s h.1)

-- The ids that the code means to give out: 0 to 65534 for ICMP, 1024 to 65534 for TCP.
abbrev pub IdInRange : MappingType → ℕ → Type 0
IdInRange nat_mapping_icmp id = id < 65535
IdInRange nat_mapping_tcp id = (min_tcp_port ≤ id) × (id < 65535)

pub record IsValid (nat : Nat) : Type 0 where
  pub keys : KeysDistinct (bindings nat)
  pub ids : All (λ b. IdInRange b.type b.aux_ext) (bindings nat)
  pub next_icmp : IdInRange nat_mapping_icmp nat.icmp_id
  pub next_tcp : IdInRange nat_mapping_tcp nat.tcp_id

bump_id-lt : (first id : ℕ) → first < 65535 → id < 65535 → bump_id first id < 65535
unfolding bump_id
bump_id-lt first id h g = ground arith

bump_id-ge : (first id : ℕ) → first ≤ id → id < 65535 → first ≤ bump_id first id
unfolding bump_id
bump_id-ge first id h g = ground arith

Move-IsValid : {nat nat' : Nat} {k : ℕ} → Move nat nat' k → IsValid nat → IsValid nat'
Move-IsValid (shrink s t i) v = record {
  keys = Sub-KeysDistinct s v.keys;
  ids = Sub-All _ s v.ids;
  next_icmp = rw i v.next_icmp;
  next_tcp = rw t v.next_tcp;
}
Move-IsValid {nat} (bind_icmp ip aux p free e t i) v = record {
  keys = rw e (free, v.keys);
  ids = rw e (v.next_icmp, v.ids);
  next_icmp = rw i (bump_id-lt 0 nat.icmp_id (omega arith) v.next_icmp);
  next_tcp = rw t v.next_tcp;
}
Move-IsValid {nat} (bind_tcp ip aux p free e t i) v = record {
  keys = rw e (free, v.keys);
  ids = rw e (v.next_tcp, v.ids);
  next_icmp = rw i v.next_icmp;
  next_tcp = rw t (
    bump_id-ge min_tcp_port nat.tcp_id v.next_tcp.0 v.next_tcp.1,
    bump_id-lt min_tcp_port nat.tcp_id (omega arith) v.next_tcp.1,
  );
}

unfoldable pub run : Headers → Nat → List (ℕ × Call) → Option Nat
run mem nat [] = some nat
run mem nat (c ∷ cs) = step mem nat c >>= λ nat'. run mem nat' cs

step-IsValid :
    (mem : Headers) (nat nat' : Nat) (c : ℕ × Call)
    → step mem nat c ≡ some nat'
    → IsValid nat
    → IsValid nat'
step-IsValid mem nat nat' (now, c) e v = Move-IsValid (step-Move mem nat nat' now c e) v

init-IsValid : (icmp established transitory : ℕ) → IsValid (sr_nat_init icmp established transitory)
unfolding sr_nat_init
init-IsValid icmp established transitory = ground arith

run-IsValid_from :
    (mem : Headers) (cs : List (ℕ × Call)) (nat nat' : Nat)
    → IsValid nat
    → run mem nat cs ≡ some nat'
    → IsValid nat'
unfolding run
run-IsValid_from mem [] nat nat' v e = subst IsValid (some_inj _ _ e) v
run-IsValid_from mem (c ∷ cs) nat nat' v e = elim (Option-cases (step mem nat c)) [
  | inl f ↦ ground (arith, e)
  | inr (mid, f) ↦
      run-IsValid_from mem cs mid nat' (step-IsValid mem nat mid c f v) (ground (arith, e))
]

-- In any order of calls on a new table, by the router and by the timer, that ends without a read of
-- freed memory, the table that is reached has at most one mapping for an internal address, id and
-- kind; every external id is in its kind's range, 0 to 65534 for ICMP and 1024 to 65534 for TCP;
-- and so are the two counters.
pub run-IsValid :
    (mem : Headers) (icmp established transitory : ℕ) (cs : List (ℕ × Call)) (nat : Nat)
    → run mem (sr_nat_init icmp established transitory) cs ≡ some nat
    → IsValid nat
run-IsValid mem icmp established transitory cs nat e =
    run-IsValid_from mem cs _ nat (init-IsValid icmp established transitory) e
