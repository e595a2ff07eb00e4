-- ===== src/SrNat/Sweep/Stale.antt =====
-- What a sweep of the timer thread of sr_nat.c keeps of the ICMP mappings, and when.
use stanford.Prelude.{
  some_inj, ℕ, ◌+◌, ◌<◌, ◌≡◌, refl, inl, inr, Bool, some, List, [], ◌∷◌, arith, Option-cases,
  Bool-cases, subst, sym,
}
use stanford.SrNat.{
  Nat, Mapping, MappingType, nat_mapping_icmp, nat_mapping_tcp, find, touch, is_external,
  sr_nat_lookup_external,
}
use stanford.SrNat.Table.{find-update_first, find-test, same_type→eq}
use stanford.SrNat.Sweep.{sweep_mapping, sweep_mappings, nat_remove_stale_mappings}

-- What a sweep makes of the first mapping that passes a test is the first that passes it afterwards,
-- if the sweep keeps it and the test does not look at connections.
find-sweep :
    (nat : Nat) (now : ℕ) (p : Mapping → Bool) (ms : List Mapping) (m m' : Mapping)
    → ((a a' : Mapping) → sweep_mapping nat a.type a now ≡ some a' → p a' ≡ p a)
    → find p ms ≡ some m
    → sweep_mapping nat m.type m now ≡ some m'
    → find p (sweep_mappings nat ms now) ≡ some m'
unfolding find sweep_mappings
find-sweep nat now p [] m m' keep e f = ground arith
find-sweep nat now p (x ∷ ms) m m' keep e f = elim (Bool-cases (p x)) [
  | inl t ↦
      let x_eq : x ≡ m = some_inj x m (ground (arith, e, t)) in
      let f' : sweep_mapping nat x.type x now ≡ some m' =
        subst (λ a. sweep_mapping nat a.type a now ≡ some m') (sym x_eq) f in
      ground (arith, f', keep x m' f', t)
  | inr t ↦
      let ih = find-sweep nat now p ms m m' keep (ground (arith, e, t)) f in
      elim (Option-cases (sweep_mapping nat x.type x now)) [
        | inl g ↦ ground (arith, g, ih)
        | inr (a, g) ↦ ground (arith, g, keep x a g, t, ih)
      ]
]

sweep-is_external :
    (nat : Nat) (now aux : ℕ) (type : MappingType) (t : MappingType) (a a' : Mapping)
    → sweep_mapping nat t a now ≡ some a'
    → is_external aux type a' ≡ is_external aux type a
unfolding sweep_mapping
sweep-is_external nat now aux type nat_mapping_icmp a a' e = ground arith
sweep-is_external nat now aux type nat_mapping_tcp a a' e = ground arith

lookup_external-some :
    (nat : Nat) (aux : ℕ) (type : MappingType) (now : ℕ) (m : Mapping)
    → (sr_nat_lookup_external nat aux type now).1 ≡ some m
    → find (is_external aux type) (sr_nat_lookup_external nat aux type now).0.mappings ≡ some m
unfolding sr_nat_lookup_external
lookup_external-some nat aux type now m e =
    elim (Option-cases (find (is_external aux type) nat.mappings)) [
      | inl f ↦ ground (arith, e)
      | inr (a, f) ↦ ground (
        arith,
        e,
        find-update_first (is_external aux type) (touch now) nat.mappings a (λ b. refl) f,
      )
    ]

lookup_external-time :
    (nat : Nat) (aux : ℕ) (now : ℕ) (m : Mapping)
    → (sr_nat_lookup_external nat aux nat_mapping_icmp now).1 ≡ some m
    → m.last_updated ≡ now
unfolding sr_nat_lookup_external
lookup_external-time nat aux now m e = ground (arith, e)

lookup_external-timeout :
    (nat : Nat) (aux : ℕ) (type : MappingType) (now : ℕ)
    → (sr_nat_lookup_external nat aux type now).0.icmp_query_timeout ≡ nat.icmp_query_timeout
unfolding sr_nat_lookup_external
lookup_external-timeout nat aux type now = ground arith

find-type :
    (aux : ℕ) (type : MappingType) (ms : List Mapping) (m : Mapping)
    → find (is_external aux type) ms ≡ some m
    → m.type ≡ type
find-type aux type ms m e = same_type→eq m.type type (ground (arith, find-test _ ms m e))

sweep_mapping-icmp :
    (nat : Nat) (m : Mapping) (t : MappingType) (now : ℕ)
    → t ≡ nat_mapping_icmp
    → now < m.last_updated + nat.icmp_query_timeout
    → sweep_mapping nat t m now ≡ some m
unfolding sweep_mapping
sweep_mapping-icmp nat m nat_mapping_icmp now e h = ground arith
sweep_mapping-icmp nat m nat_mapping_tcp now e h = ground (arith, e)

find-lookup_external :
    (nat : Nat) (aux : ℕ) (type : MappingType) (now : ℕ) (m : Mapping)
    → find (is_external aux type) nat.mappings ≡ some m
    → (sr_nat_lookup_external nat aux type now).1 ≡ some (touch now m)
unfolding sr_nat_lookup_external
find-lookup_external nat aux type now m e = ground (arith, e)

find-remove_stale :
    (nat : Nat) (aux now : ℕ) (m : Mapping)
    → find (is_external aux nat_mapping_icmp) nat.mappings ≡ some m
    → now < m.last_updated + nat.icmp_query_timeout
    → find (is_external aux nat_mapping_icmp) (nat_remove_stale_mappings nat now).mappings ≡ some m
unfolding nat_remove_stale_mappings
find-remove_stale nat aux now m e h =
    find-sweep nat now (is_external aux nat_mapping_icmp) nat.mappings m m
      (λ a a' g. sweep-is_external nat now aux nat_mapping_icmp a.type a a' g) e
      (sweep_mapping-icmp nat m m.type now (find-type aux nat_mapping_icmp nat.mappings m e) h)

-- An ICMP mapping that a lookup by its external id returns survives a sweep that comes less than
-- `icmp_query_timeout` seconds after the lookup, and the same lookup after it finds it again, with
-- its time set, whatever other mappings the sweep removes.
pub lookup-sweep_icmp :
    (nat : Nat) (aux now curtime later : ℕ) (m : Mapping)
    → (sr_nat_lookup_external nat aux nat_mapping_icmp now).1 ≡ some m
    → curtime < now + nat.icmp_query_timeout
    → let used = (sr_nat_lookup_external nat aux nat_mapping_icmp now).0 in
      (sr_nat_lookup_external (nat_remove_stale_mappings used curtime) aux nat_mapping_icmp later).1
      ≡ some (touch later m)
lookup-sweep_icmp nat aux now curtime later m e h =
    find-lookup_external (nat_remove_stale_mappings used curtime) aux nat_mapping_icmp later m (
      find-remove_stale used aux curtime m (lookup_external-some nat aux nat_mapping_icmp now m e) (
        omega (
          arith,
          lookup_external-time nat aux now m e,
          lookup_external-timeout nat aux nat_mapping_icmp now,
        )))
  where
    used : Nat
    used = (sr_nat_lookup_external nat aux nat_mapping_icmp now).0
