-- ===== src/SrNat/Bindings.antt =====
-- The abstract view of the translation table of sr_nat.c: the list of its bindings, which forgets
-- times and connections, and what each operation does to it.
use stanford.Prelude.{
  ℕ, ◌≡◌, refl, ap, inl, inr, Bool, some, List, [], ◌∷◌, arith, Bool-cases, Option-cases,
}
use stanford.SrNat.{
  Nat, Mapping, MappingType, nat_mapping_icmp, nat_mapping_tcp, find, update_first, touch,
  lookup_touch,
}
use stanford.SrNat.Sweep.{sweep_mapping, sweep_mappings}

pub record Binding : Type 0 where
  pub type : MappingType
  pub ip_int : ℕ
  pub aux_int : ℕ
  pub aux_ext : ℕ

abbrev pub binding : Mapping → Binding
binding m = record { type = m.type; ip_int = m.ip_int; aux_int = m.aux_int; aux_ext = m.aux_ext }

abbrev pub bindings_of : List Mapping → List Binding
bindings_of [] = []
bindings_of (m ∷ ms) = binding m ∷ bindings_of ms

abbrev pub bindings : Nat → List Binding
bindings nat = bindings_of nat.mappings

-- A part of a list, in its order.
pub data Sub : List Binding → List Binding → Type 0 where
  done : Sub [] []
  skip : {b : Binding} {xs ys : List Binding} → Sub xs ys → Sub xs (b ∷ ys)
  keep : {b : Binding} {xs ys : List Binding} → Sub xs ys → Sub (b ∷ xs) (b ∷ ys)

pub Sub-refl : (xs : List Binding) → Sub xs xs
Sub-refl [] = done
Sub-refl (x ∷ xs) = keep (Sub-refl xs)

-- An update that leaves the binding of each mapping alone leaves the table's bindings alone.
pub bindings-update_first :
    (p : Mapping → Bool) (f : Mapping → Mapping) (ms : List Mapping)
    → ((m : Mapping) → binding (f m) ≡ binding m)
    → bindings_of (update_first p f ms) ≡ bindings_of ms
unfolding update_first
bindings-update_first p f [] h = refl
bindings-update_first p f (m ∷ ms) h = elim (Bool-cases (p m)) [
  | inl e ↦ rw e (ap (λ b. b ∷ bindings_of ms) (h m))
  | inr e ↦ rw e (ap (λ bs. binding m ∷ bs) (bindings-update_first p f ms h))
]

-- What a sweep keeps of a mapping has the mapping's binding.
sweep_mapping-binding :
    (nat : Nat) (t : MappingType) (m m' : Mapping) (now : ℕ)
    → sweep_mapping nat t m now ≡ some m'
    → binding m' ≡ binding m
unfolding sweep_mapping
sweep_mapping-binding nat nat_mapping_icmp m m' now e = ground arith
sweep_mapping-binding nat nat_mapping_tcp m m' now e = ground arith

-- A sweep takes bindings away and makes none.
pub bindings-sweep_mappings :
    (nat : Nat) (ms : List Mapping) (now : ℕ)
    → Sub (bindings_of (sweep_mappings nat ms now)) (bindings_of ms)
unfolding sweep_mappings
bindings-sweep_mappings nat [] now = done
bindings-sweep_mappings nat (m ∷ ms) now = elim (Option-cases (sweep_mapping nat m.type m now)) [
  | inl e ↦ rw (e, sweep_mappings) (skip (bindings-sweep_mappings nat ms now))
  | inr (m', e) ↦
      rw (e, sweep_mappings, sweep_mapping-binding nat m.type m m' now e)
        (keep (bindings-sweep_mappings nat ms now))
]

pub bindings-lookup_touch :
    (nat : Nat) (p : Mapping → Bool) (now : ℕ) → bindings (lookup_touch nat p now).0 ≡ bindings nat
bindings-lookup_touch nat p now = elim (Option-cases (find p nat.mappings)) [
  | inl e ↦ ground arith
  | inr (m, e) ↦ ground (arith, bindings-update_first p (touch now) nat.mappings (λ m. refl))
]
