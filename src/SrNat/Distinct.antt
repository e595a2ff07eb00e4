-- ===== src/SrNat/Distinct.antt =====
-- When two mappings of the table of sr_nat.c can share an external id.
use stanford.Prelude.{
  some_inj, ℕ, ◌+◌, ◌≤◌, ◌<◌, ◌≡◌, inl, inr, false, ◌&&◌, some, List, [], ◌∷◌, arith, All, subst,
  ◌∙◌, ◌==◌, Option-cases,
}
use stanford.SrNat.{
  Nat, MappingType, nat_mapping_icmp, nat_mapping_tcp, same_type, bump_id, min_tcp_port,
  sr_nat_init,
}
use stanford.SrNat.Sessions.{Headers}
use stanford.SrNat.Bindings.{Binding, bindings, Sub, done, skip, keep}
use stanford.SrNat.Calls.{Call, step, insert_count, Move, shrink, bind_icmp, bind_tcp}
use stanford.SrNat.Moves.{step-Move}
use stanford.SrNat.Invariant.{Sub-All, run}

-- No binding of the list has this external id and kind.
abbrev pub Unused : ℕ → MappingType → List Binding → Type 0
Unused id type = All (λ b. (b.aux_ext == id && same_type b.type type) ≡ false)

abbrev pub ExternalsDistinct : List Binding → Type 0
ExternalsDistinct [] = Unit
ExternalsDistinct (b ∷ bs) = Unused b.aux_ext b.type bs × ExternalsDistinct bs

Sub-ExternalsDistinct :
    {xs ys : List Binding} → Sub xs ys → ExternalsDistinct ys → ExternalsDistinct xs
Sub-ExternalsDistinct done h = h
Sub-ExternalsDistinct (skip s) h = Sub-ExternalsDistinct s h.1
Sub-ExternalsDistinct (keep {b = b} s) h = (Sub-All _ s h.0, Sub-ExternalsDistinct s h.1)

-- An id is below the counter of its kind.
abbrev BelowIn : ℕ → ℕ → MappingType → ℕ → Type 0
BelowIn icmp tcp nat_mapping_icmp id = id < icmp
BelowIn icmp tcp nat_mapping_tcp id = id < tcp

abbrev AllBelow : ℕ → ℕ → List Binding → Type 0
AllBelow icmp tcp = All (λ b. BelowIn icmp tcp b.type b.aux_ext)

BelowIn-mono :
    (icmp tcp icmp' tcp' : ℕ) (t : MappingType) (id : ℕ)
    → icmp ≤ icmp'
    → tcp ≤ tcp'
    → BelowIn icmp tcp t id
    → BelowIn icmp' tcp' t id
BelowIn-mono icmp tcp icmp' tcp' nat_mapping_icmp id h g b = omega arith
BelowIn-mono icmp tcp icmp' tcp' nat_mapping_tcp id h g b = omega arith

AllBelow-mono :
    (icmp tcp icmp' tcp' : ℕ) (bs : List Binding)
    → icmp ≤ icmp'
    → tcp ≤ tcp'
    → AllBelow icmp tcp bs
    → AllBelow icmp' tcp' bs
AllBelow-mono icmp tcp icmp' tcp' [] h g a = tt
AllBelow-mono icmp tcp icmp' tcp' (b ∷ bs) h g a = (
  BelowIn-mono icmp tcp icmp' tcp' b.type b.aux_ext h g a.0,
  AllBelow-mono icmp tcp icmp' tcp' bs h g a.1,
)

unused_icmp :
    (icmp tcp : ℕ) (t : MappingType) (id : ℕ)
    → BelowIn icmp tcp t id
    → (id == icmp && same_type t nat_mapping_icmp) ≡ false
unused_icmp icmp tcp nat_mapping_icmp id h = ground arith
unused_icmp icmp tcp nat_mapping_tcp id h = ground arith

unused_tcp :
    (icmp tcp : ℕ) (t : MappingType) (id : ℕ)
    → BelowIn icmp tcp t id
    → (id == tcp && same_type t nat_mapping_tcp) ≡ false
unused_tcp icmp tcp nat_mapping_icmp id h = ground arith
unused_tcp icmp tcp nat_mapping_tcp id h = ground arith

AllBelow-Unused_icmp :
    (icmp tcp : ℕ) (bs : List Binding) → AllBelow icmp tcp bs → Unused icmp nat_mapping_icmp bs
AllBelow-Unused_icmp icmp tcp [] h = tt
AllBelow-Unused_icmp icmp tcp (b ∷ bs) h =
    (unused_icmp icmp tcp b.type b.aux_ext h.0, AllBelow-Unused_icmp icmp tcp bs h.1)

AllBelow-Unused_tcp :
    (icmp tcp : ℕ) (bs : List Binding) → AllBelow icmp tcp bs → Unused tcp nat_mapping_tcp bs
AllBelow-Unused_tcp icmp tcp [] h = tt
AllBelow-Unused_tcp icmp tcp (b ∷ bs) h =
    (unused_tcp icmp tcp b.type b.aux_ext h.0, AllBelow-Unused_tcp icmp tcp bs h.1)

-- After `n` inserts at most, no counter has gone round.
record Serial (n : ℕ) (nat : Nat) : Type 0 where
  icmp_high : nat.icmp_id ≤ n
  tcp_high : nat.tcp_id ≤ 1024 + n
  below : AllBelow nat.icmp_id nat.tcp_id (bindings nat)
  distinct : ExternalsDistinct (bindings nat)

bump_id-suc : (first id : ℕ) → id + 1 < 65535 → bump_id first id ≡ id + 1
unfolding bump_id
bump_id-suc first id h = ground arith

AllBelow-cons :
    (icmp tcp x y : ℕ) (b : Binding) (bs : List Binding) {bs' : List Binding}
    → bs' ≡ b ∷ bs
    → icmp ≤ x
    → tcp ≤ y
    → BelowIn x y b.type b.aux_ext
    → AllBelow icmp tcp bs
    → AllBelow x y bs'
AllBelow-cons icmp tcp x y b bs e h g c a = rw e (c, AllBelow-mono icmp tcp x y bs h g a)

Move-Serial :
    {nat nat' : Nat} {k : ℕ} (n : ℕ)
    → n + k < 64511
    → Move nat nat' k
    → Serial n nat
    → Serial (n + k) nat'
Move-Serial n lt (shrink s t i) v = record {
  icmp_high = rw i (omega (arith, v.icmp_high));
  tcp_high = rw t (omega (arith, v.tcp_high));
  below = rw (i, t) (Sub-All _ s v.below);
  distinct = Sub-ExternalsDistinct s v.distinct;
}
Move-Serial {nat} {nat'} n lt (bind_icmp ip aux p free e t i) v =
    let i' = i ∙ bump_id-suc 0 nat.icmp_id (omega (arith, v.icmp_high)) in
    record {
      icmp_high = rw i' (omega (arith, v.icmp_high));
      tcp_high = rw t (omega (arith, v.tcp_high));
      below =
          AllBelow-cons nat.icmp_id nat.tcp_id nat'.icmp_id nat'.tcp_id _ (bindings nat) e
            (omega arith) (omega arith) (omega arith) v.below;
      distinct =
          rw e (AllBelow-Unused_icmp nat.icmp_id nat.tcp_id (bindings nat) v.below, v.distinct);
    }
Move-Serial {nat} {nat'} n lt (bind_tcp ip aux p free e t i) v =
    let t' = t ∙ bump_id-suc min_tcp_port nat.tcp_id (omega (arith, v.tcp_high)) in
    record {
      icmp_high = rw i (omega (arith, v.icmp_high));
      tcp_high = rw t' (omega (arith, v.tcp_high));
      below =
          AllBelow-cons nat.icmp_id nat.tcp_id nat'.icmp_id nat'.tcp_id _ (bindings nat) e
            (omega arith) (omega arith) (omega arith) v.below;
      distinct =
          rw e (AllBelow-Unused_tcp nat.icmp_id nat.tcp_id (bindings nat) v.below, v.distinct);
    }

abbrev pub insert_total : List (ℕ × Call) → ℕ
insert_total [] = 0
insert_total ((now, c) ∷ cs) = insert_count c + insert_total cs

run-Serial :
    (mem : Headers) (n : ℕ) (cs : List (ℕ × Call)) (nat nat' : Nat)
    → n + insert_total cs < 64511
    → Serial n nat
    → run mem nat cs ≡ some nat'
    → ExternalsDistinct (bindings nat')
unfolding run
run-Serial mem n [] nat nat' lt v e =
    subst (λ t. ExternalsDistinct (bindings t)) (some_inj _ _ e) v.distinct
run-Serial mem n ((now, c) ∷ cs) nat nat' lt v e = elim (Option-cases (step mem nat (now, c))) [
  | inl f ↦ ground (arith, e)
  | inr (mid, f) ↦
      run-Serial mem (n + insert_count c) cs mid nat' (omega arith)
        (Move-Serial n (omega arith) (step-Move mem nat mid now c f) v) (ground (arith, e))
]

-- In any order of calls on a new table with fewer than 64511 calls of `sr_nat_insert_mapping` in all,
-- no two mappings of one kind have the same external id.
pub run-ExternalsDistinct :
    (mem : Headers) (icmp established transitory : ℕ) (cs : List (ℕ × Call)) (nat : Nat)
    → insert_total cs < 64511
    → run mem (sr_nat_init icmp established transitory) cs ≡ some nat
    → ExternalsDistinct (bindings nat)
unfolding sr_nat_init
run-ExternalsDistinct mem icmp established transitory cs nat lt e =
    run-Serial mem 0 cs _ nat (omega arith)
      (record { icmp_high = omega arith; tcp_high = omega arith; below = tt; distinct = tt }) e
