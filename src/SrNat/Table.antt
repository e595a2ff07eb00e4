-- ===== src/SrNat/Table.antt =====
-- Facts about the search and update loops over the mappings, whatever the test.
use stanford.Prelude.{
  some_inj, ◌≡◌, refl, inl, inr, Bool, true, false, none, some, List, [], ◌∷◌, arith, All,
  Bool-cases, subst,
}
use stanford.SrNat.{Mapping, MappingType, find, update_first, same_type}

-- A search finds what an update of the searched entry made of it.
pub find-update_first :
    (p : Mapping → Bool) (f : Mapping → Mapping) (ms : List Mapping) (m : Mapping)
    → ((a : Mapping) → p (f a) ≡ p a)
    → find p ms ≡ some m
    → find p (update_first p f ms) ≡ some (f m)
unfolding find update_first
find-update_first p f [] m keep e = ground arith
find-update_first p f (x ∷ ms) m keep e = ground (arith, keep x, find-update_first p f ms m keep)

-- What holds of each entry, and of each updated one, holds after the update.
pub update_first-All {ℓ} :
    (P : Mapping → Type ℓ) (p : Mapping → Bool) (f : Mapping → Mapping) (ms : List Mapping)
    → ((a : Mapping) → P a → P (f a))
    → All P ms
    → All P (update_first p f ms)
unfolding update_first
update_first-All P p f [] keep h = tt
update_first-All P p f (x ∷ ms) keep h = elim (Bool-cases (p x)) [
  | inl e ↦ rw e (keep x h.0, h.1)
  | inr e ↦ rw e (h.0, update_first-All P p f ms keep h.1)
]

pub find-All {ℓ} :
    (P : Mapping → Type ℓ) (p : Mapping → Bool) (ms : List Mapping) (m : Mapping)
    → All P ms
    → find p ms ≡ some m
    → P m
unfolding find
find-All P p [] m h e = ground arith
find-All P p (x ∷ ms) m h e = elim (Bool-cases (p x)) [
  | inl t ↦ subst P (some_inj x m (rw t at e)) h.0
  | inr t ↦ find-All P p ms m h.1 (rw t at e)
]

-- A failed search says that no entry passes.
abbrev pub Without : (Mapping → Bool) → List Mapping → Type 0
Without p ms = All (λ m. p m ≡ false) ms

pub find-none : (p : Mapping → Bool) (ms : List Mapping) → find p ms ≡ none → Without p ms
unfolding find
find-none p [] e = tt
find-none p (x ∷ ms) e = ground (arith, find-none p ms)

pub Without-find : (p : Mapping → Bool) (ms : List Mapping) → Without p ms → find p ms ≡ none
unfolding find
Without-find p [] h = refl
Without-find p (x ∷ ms) h = ground (arith, Without-find p ms)

pub find-test :
    (p : Mapping → Bool) (ms : List Mapping) (m : Mapping) → find p ms ≡ some m → p m ≡ true
unfolding find
find-test p [] m e = ground arith
find-test p (x ∷ ms) m e = elim (Bool-cases (p x)) [
  | inl t ↦ ground arith
  | inr t ↦ find-test p ms m (rw t at e)
]

pub same_type_refl : (t : MappingType) → same_type t t ≡ true
same_type_refl MappingType.nat_mapping_icmp = refl
same_type_refl MappingType.nat_mapping_tcp = refl

pub same_type→eq : (s t : MappingType) → same_type s t ≡ true → s ≡ t
same_type→eq s t h = ground arith
