-- ===== src/SrNat/External.antt =====
-- The mapping that an insert returned is what a lookup by its external id finds.
use stanford.Prelude.{
  some_inj, ℕ, ◌≡◌, refl, sym, inl, inr, Bool, true, false, ◌&&◌, Option, none, some, List, [], ◌∷◌,
  arith, ap, subst, ◌∙◌, ◌==◌, Option-cases, Bool-cases,
}
use stanford.SrNat.{
  Nat, Mapping, MappingType, nat_mapping_icmp, nat_mapping_tcp, same_type, find, touch,
  lookup_touch, is_external, is_internal, add_mapping, sr_nat_insert_mapping,
  sr_nat_lookup_external, nat_lookup_internal_no_lock, nat_lookup_external_no_lock,
}
use stanford.SrNat.Table.{find-test, same_type→eq, same_type_refl}
use stanford.SrNat.Insert.{lookup_found, lookup_none, add_mapping-key, add_mapping-mappings}
use stanford.SrNat.Bindings.{Binding, binding, bindings_of, bindings, bindings-lookup_touch}
use stanford.SrNat.Distinct.{Unused, ExternalsDistinct}

-- The list has the binding.
pub data Has (b : Binding) : List Binding → Type 0 where
  here : {c : Binding} {bs : List Binding} → c ≡ b → Has b (c ∷ bs)
  there : {c : Binding} {bs : List Binding} → Has b bs → Has b (c ∷ bs)

find-Has :
    (p : Mapping → Bool) (ms : List Mapping) (m : Mapping)
    → find p ms ≡ some m
    → Has (binding m) (bindings_of ms)
unfolding find
find-Has p [] m e = absurd (ground (arith, e))
find-Has p (x ∷ ms) m e = elim (Bool-cases (p x)) [
  | inl t ↦
      let same : x ≡ m = some_inj x m (rw t at e) in
      subst {A = Mapping} (λ z. Has (binding z) (binding x ∷ bindings_of ms)) same (here refl)
  | inr t ↦ there (find-Has p ms m (rw t at e))
]

same_type_sym : (s t : MappingType) → same_type s t ≡ same_type t s
same_type_sym nat_mapping_icmp nat_mapping_icmp = refl
same_type_sym nat_mapping_icmp nat_mapping_tcp = refl
same_type_sym nat_mapping_tcp nat_mapping_icmp = refl
same_type_sym nat_mapping_tcp nat_mapping_tcp = refl

Unused-Has :
    (id : ℕ) (type : MappingType) (b : Binding) (bs : List Binding)
    → Has b bs
    → Unused id type bs
    → (id == b.aux_ext && same_type type b.type) ≡ false
Unused-Has id type b [] h u = elim h [ ]
Unused-Has id type b (c ∷ bs) (here e) (u, us) =
    subst {A = Binding} (λ z. (id == z.aux_ext && same_type type z.type) ≡ false) e
      (let s = same_type_sym c.type type in ground (arith, u, s))
Unused-Has id type b (c ∷ bs) (there h) (u, us) = Unused-Has id type b bs h us

pub find_external :
    (b : Binding) (ms : List Mapping)
    → Has b (bindings_of ms)
    → ExternalsDistinct (bindings_of ms)
    → (m : Mapping) × (find (is_external b.aux_ext b.type) ms ≡ some m) × (binding m ≡ b)
unfolding find
find_external b [] h u = elim h [ ]
find_external b (m ∷ ms) (here e) (u, us) = (
  m,
  subst {A = Binding} (λ z. find (is_external z.aux_ext z.type) (m ∷ ms) ≡ some m) e
      (ground (arith, same_type_refl m.type)),
  e,
)
find_external b (m ∷ ms) (there h) (u, us) =
    let (m', e, s) = find_external b ms h us in
    let miss = Unused-Has m.aux_ext m.type b (bindings_of ms) h u in
    (m', ground (arith, e, miss), s)

-- A mapping in the table for the internal address and id.
pub record IsBound (nat : Nat) (ip aux : ℕ) (type : MappingType) (m : Mapping) : Type 0 where
  pub bound : Has (binding m) (bindings nat)
  pub same_ip : m.ip_int ≡ ip
  pub same_aux : m.aux_int ≡ aux
  pub kind : m.type ≡ type

internal-IsBound :
    (nat : Nat) (ip aux : ℕ) (type : MappingType) (m : Mapping)
    → Has (binding m) (bindings nat)
    → is_internal ip aux type m ≡ true
    → IsBound nat ip aux type m
internal-IsBound nat ip aux type m h t = record {
  bound = h;
  same_ip = ground (arith, t);
  same_aux = ground (arith, t);
  kind = same_type→eq m.type type (ground (arith, t));
}

insert_new :
    (nat : Nat) (ip aux : ℕ) (type : MappingType) (now : ℕ)
    → find (is_internal ip aux type) nat.mappings ≡ none
    → sr_nat_insert_mapping nat ip aux type now ≡ add_mapping nat ip aux type now
unfolding sr_nat_insert_mapping nat_lookup_internal_no_lock
insert_new nat ip aux type now e =
    let l = lookup_none nat (is_internal ip aux type) now e in ground (arith, l)

insert_old :
    (nat : Nat) (ip aux : ℕ) (type : MappingType) (now : ℕ) (m : Mapping)
    → find (is_internal ip aux type) nat.mappings ≡ some m
    → sr_nat_insert_mapping nat ip aux type now
      ≡ ((lookup_touch nat (is_internal ip aux type) now).0, touch now m)
unfolding sr_nat_insert_mapping nat_lookup_internal_no_lock
insert_old nat ip aux type now m e =
    let l = lookup_found nat (is_internal ip aux type) now m e in ground (arith, l)

pub insert-IsBound :
    (nat : Nat) (ip aux : ℕ) (type : MappingType) (now : ℕ)
    → let (nat', m) = sr_nat_insert_mapping nat ip aux type now in IsBound nat' ip aux type m
insert-IsBound nat ip aux type now =
    elim (Option-cases (find (is_internal ip aux type) nat.mappings)) [
      | inl e ↦
          let (added, m) = add_mapping nat ip aux type now in
          let listed = add_mapping-mappings nat ip aux type now in
          subst {A = Nat × Mapping} (λ r. IsBound r.0 ip aux type r.1)
            (sym (insert_new nat ip aux type now e))
            (internal-IsBound added ip aux type m
              (subst {A = List Mapping} (λ ms. Has (binding m) (bindings_of ms)) (sym listed)
                (here refl))
              (add_mapping-key nat ip aux type now))
      | inr (m, e) ↦
          let p = is_internal ip aux type in
          subst {A = Nat × Mapping} (λ r. IsBound r.0 ip aux type r.1)
            (sym (insert_old nat ip aux type now m e))
            (internal-IsBound (lookup_touch nat p now).0 ip aux type (touch now m)
              (subst {A = List Binding} (λ bs. Has (binding m) bs)
                (sym (bindings-lookup_touch nat p now)) (find-Has p nat.mappings m e))
              (find-test p nat.mappings m e))
    ]

-- What a table has after an insert it had before, or is the new mapping's.
pub insert-keeps :
    (nat : Nat) (ip aux : ℕ) (type : MappingType) (now : ℕ) (b : Binding)
    → Has b (bindings nat)
    → Has b (bindings (sr_nat_insert_mapping nat ip aux type now).0)
insert-keeps nat ip aux type now b h =
    elim (Option-cases (find (is_internal ip aux type) nat.mappings)) [
      | inl e ↦
          let listed = add_mapping-mappings nat ip aux type now in
          subst {A = Nat × Mapping} (λ r. Has b (bindings r.0))
            (sym (insert_new nat ip aux type now e))
            (subst {A = List Mapping} (λ ms. Has b (bindings_of ms)) (sym listed) (there h))
      | inr (m, e) ↦
          let p = is_internal ip aux type in
          subst {A = Nat × Mapping} (λ r. Has b (bindings r.0))
            (sym (insert_old nat ip aux type now m e))
            (subst {A = List Binding} (Has b) (sym (bindings-lookup_touch nat p now)) h)
    ]

-- A lookup by the external id of a mapping that the table has finds its internal address and id.
pub lookup_external-Has :
    (nat : Nat) (b : Binding) (now : ℕ)
    → Has b (bindings nat)
    → ExternalsDistinct (bindings nat)
    → (m : Mapping) × ((sr_nat_lookup_external nat b.aux_ext b.type now).1 ≡ some m)
      × (binding m ≡ b)
unfolding sr_nat_lookup_external nat_lookup_external_no_lock
lookup_external-Has nat b now h d =
    let (m, e, s) = find_external b nat.mappings h d in
    (
      touch now m,
      ap (λ (r : Nat × Option Mapping). r.1)
          (lookup_found nat (is_external b.aux_ext b.type) now m e),
      s,
    )

pub IsBound-moves :
    (nat nat' : Nat) (ip aux : ℕ) (type : MappingType) (m : Mapping)
    → bindings nat' ≡ bindings nat
    → IsBound nat ip aux type m
    → IsBound nat' ip aux type m
IsBound-moves nat nat' ip aux type m e v = record {
  bound = subst {A = List Binding} (Has (binding m)) (sym e) v.bound;
  same_ip = v.same_ip;
  same_aux = v.same_aux;
  kind = v.kind;
}

-- A lookup of the external id of a bound mapping gives the internal address and id.
pub lookup_external-IsBound :
    (nat : Nat) (ip aux : ℕ) (type : MappingType) (m : Mapping) (id now : ℕ)
    → IsBound nat ip aux type m
    → ExternalsDistinct (bindings nat)
    → id ≡ m.aux_ext
    → (m' : Mapping) × ((sr_nat_lookup_external nat id type now).1 ≡ some m')
      × (m'.ip_int ≡ ip)
      × (m'.aux_int ≡ aux)
lookup_external-IsBound nat ip aux type m id now v d e =
    let (m', f, s) = lookup_external-Has nat (binding m) now v.bound d in
    (
      m',
      ap (λ i. (sr_nat_lookup_external nat i type now).1) e
          ∙ ap (λ t. (sr_nat_lookup_external nat m.aux_ext t now).1) (sym v.kind)
          ∙ f,
      ap (λ (b : Binding). b.ip_int) s ∙ v.same_ip,
      ap (λ (b : Binding). b.aux_int) s ∙ v.same_aux,
    )
