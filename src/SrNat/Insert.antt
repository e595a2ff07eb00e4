-- ===== src/SrNat/Insert.antt =====
-- `sr_nat_insert_mapping` and the two lookups: what is inserted is found again, and the table keeps
-- one mapping for each internal key.
use stanford.Prelude.{ℕ, ◌≡◌, refl, inl, inr, Bool, true, none, some, ◌∷◌, arith, Option-cases}
use stanford.SrNat.{
  Nat, Mapping, MappingType, nat_mapping_icmp, nat_mapping_tcp, lookup_touch, add_mapping, find,
  update_first, touch, is_internal, sr_nat_insert_mapping, sr_nat_lookup_internal,
}
use stanford.SrNat.Table.{find-update_first}

pub lookup_found :
    (nat : Nat) (p : Mapping → Bool) (now : ℕ) (m : Mapping)
    → find p nat.mappings ≡ some m
    → lookup_touch nat p now
      ≡ (record nat { mappings = update_first p (touch now) nat.mappings }, some (touch now m))
lookup_found nat p now m e = ground arith

pub lookup_none :
    (nat : Nat) (p : Mapping → Bool) (now : ℕ)
    → find p nat.mappings ≡ none
    → lookup_touch nat p now ≡ (nat, none)
lookup_none nat p now e = ground arith

-- The test that `sr_nat_insert_mapping` searches by passes at the mapping that it makes.
pub add_mapping-key :
    (nat : Nat) (ip_int aux_int : ℕ) (type : MappingType) (now : ℕ)
    → is_internal ip_int aux_int type (add_mapping nat ip_int aux_int type now).1 ≡ true
unfolding add_mapping
add_mapping-key nat ip_int aux_int nat_mapping_icmp now = ground arith
add_mapping-key nat ip_int aux_int nat_mapping_tcp now = ground arith

pub add_mapping-mappings :
    (nat : Nat) (ip_int aux_int : ℕ) (type : MappingType) (now : ℕ)
    → let (nat', m) = add_mapping nat ip_int aux_int type now in nat'.mappings ≡ m ∷ nat.mappings
unfolding add_mapping
add_mapping-mappings nat ip_int aux_int nat_mapping_icmp now = refl
add_mapping-mappings nat ip_int aux_int nat_mapping_tcp now = refl

-- After an insert for an internal address and id, a lookup of that address and id finds the mapping
-- that the insert returned, with its time set.
pub lookup_internal-insert :
    (nat : Nat) (ip_int aux_int : ℕ) (type : MappingType) (now later : ℕ)
    → let (nat', m) = sr_nat_insert_mapping nat ip_int aux_int type now in
      (sr_nat_lookup_internal nat' ip_int aux_int type later).1 ≡ some (touch later m)
unfolding sr_nat_insert_mapping sr_nat_lookup_internal find
lookup_internal-insert nat ip_int aux_int type now later =
    elim (Option-cases (find (is_internal ip_int aux_int type) nat.mappings)) [
      | inl e ↦ ground (
        arith,
        add_mapping-key nat ip_int aux_int type now,
        add_mapping-mappings nat ip_int aux_int type now,
      )
      | inr (m, e) ↦ ground (
        arith,
        find-update_first (is_internal ip_int aux_int type) (touch now) nat.mappings m (λ a. refl)
            e,
      )
    ]
