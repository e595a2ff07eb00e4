-- ===== src/SrVns/Routes.antt =====
-- What a routing table that passed its test is good for.
use stanford.Prelude.{
  ℕ, ◌≤◌, ◌≡◌, sym, Bool, true, false, ◌||◌, Option, none, some, List, [], ◌∷◌, ◌++◌, arith, All,
  ap, subst, ◌∙◌, Option-cases, inl, inr, if◌then◌else◌,
}
use stanford.SrIf.{Iface, Instance, sr_get_interface}
use stanford.SrIp.{Route, sr_find_longest_prefix_match}
use stanford.SrVns.{one_more, count_missing, is_empty, sr_verify_routing_table}
use stanford.SrIp.Match.{Found, IsLongest, sr_find_longest_prefix_match_lem}

one_more_le : (o : Option Iface) (ret : ℕ) → ret ≤ one_more o ret
unfolding one_more
one_more_le none ret = omega arith
one_more_le (some i) ret = omega arith

count_missing_le : (ifs : List Iface) (rts : List Route) (ret : ℕ) → ret ≤ count_missing ifs rts ret
unfolding count_missing
count_missing_le ifs [] ret = omega arith
count_missing_le ifs (rt ∷ rts) ret =
    let here = one_more_le (sr_get_interface ifs rt.iface) ret in
    let there = count_missing_le ifs rts (one_more (sr_get_interface ifs rt.iface) ret) in
    omega (arith, here, there)

-- The interface of the route is there.
abbrev pub HasInterface : List Iface → Route → Type 0
HasInterface ifs rt = (i : Iface) × (sr_get_interface ifs rt.iface ≡ some i)

none_missing :
    (ifs : List Iface) (rts : List Route) → count_missing ifs rts 0 ≡ 0 → All (HasInterface ifs) rts
unfolding count_missing one_more
none_missing ifs [] h = tt
none_missing ifs (rt ∷ rts) h = elim (Option-cases (sr_get_interface ifs rt.iface)) [
  | inl e ↦
      let one : count_missing ifs rts 1 ≡ 0 =
        ap (λ o. count_missing ifs rts (one_more o 0)) (sym e) ∙ h in
      absurd (omega (arith, one, count_missing_le ifs rts 1))
  | inr (i, e) ↦
      let rest : count_missing ifs rts 0 ≡ 0 =
        ap (λ o. count_missing ifs rts (one_more o 0)) (sym e) ∙ h in
      ((i, e), none_missing ifs rts rest)
]

All-middle : (P : Route → Type 0) (xs ys : List Route) (x : Route) → All P (xs ++ x ∷ ys) → P x
All-middle P [] ys x h = h.0
All-middle P (y ∷ xs) ys x h = All-middle P xs ys x h.1

found-HasInterface :
    (ifs : List Iface) (rts : List Route) (ip : ℕ) (rt : Route)
    → All (HasInterface ifs) rts
    → sr_find_longest_prefix_match rts ip ≡ some rt
    → HasInterface ifs rt
found-HasInterface ifs rts ip rt all e =
    let l : IsLongest ip rts rt =
      subst {A = Option Route} (Found ip rts) e (sr_find_longest_prefix_match_lem rts ip) in
    All-middle (HasInterface ifs) l.before l.after rt
      (subst {A = List Route} (All (HasInterface ifs)) l.split all)

if_zero : (b : Bool) (n : ℕ) → (if b then 999 else n) ≡ 0 → n ≡ 0
if_zero true n h = absurd (omega (arith, h))
if_zero false n h = h

-- In a router whose routing table passed its test, each route that the search of the table finds has
-- its interface in the list of interfaces: the lookup of the interface that follows the search gives
-- no null pointer.
pub verify_routing_table-HasInterface :
    (sr : Instance) (ip : ℕ) (rt : Route)
    → sr_verify_routing_table sr ≡ 0
    → sr_find_longest_prefix_match sr.routing_table ip ≡ some rt
    → (i : Iface) × (sr_get_interface sr.if_list rt.iface ≡ some i)
unfolding sr_verify_routing_table
verify_routing_table-HasInterface sr ip rt h e =
    found-HasInterface sr.if_list sr.routing_table ip rt
      (none_missing sr.if_list sr.routing_table (
        if_zero (is_empty sr.if_list || is_empty sr.routing_table)
          (count_missing sr.if_list sr.routing_table 0) h))
      e
