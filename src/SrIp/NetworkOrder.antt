-- ===== src/SrIp/NetworkOrder.antt =====
-- The search of the routing table at masks whose number is below 2 ^ 31. On a little-endian host
-- `s_addr` holds the bytes of a mask in reverse, so these are the masks whose last octet is below
-- 128, as that of 255.255.255.0, whose number is 0x00ffffff.
use stanford.Prelude.{
  ℕ, ◌<◌, ◌/◌, ◌%◌, ◌≡◌, refl, inl, inr, Option, none, some, List, [], ◌∷◌, arith, All, Bool-cases,
  if◌then◌else◌,
}
use stanford.SrIp.{
  Route, get_prefix_len, prefix_from, prefix_matches, longer, match_loop,
  sr_find_longest_prefix_match,
}

get_prefix_len-zero : (mask : ℕ) → mask < 2147483648 → get_prefix_len mask ≡ 0
unfolding get_prefix_len prefix_from
get_prefix_len-zero mask h = let top : mask / 2147483648 % 2 ≡ 0 = omega (arith, h) in rw top refl

abbrev pub first_match : ℕ → List Route → Option Route
first_match ip [] = none
first_match ip (x ∷ xs) = if prefix_matches ip x then some x else first_match ip xs

match_loop_stays :
    (ip : ℕ) (es : List Route) (best : Route)
    → All (λ x. x.mask < 2147483648) es
    → match_loop ip es (some (0, best)) ≡ some (0, best)
unfolding match_loop longer
match_loop_stays ip [] best h = refl
match_loop_stays ip (x ∷ xs) best (h, hs) =
    let ih = match_loop_stays ip xs best hs in
    let zero_len = get_prefix_len-zero x.mask h in ground (arith, ih, zero_len)

-- On a table whose masks are all below 2 ^ 31 as numbers, the search returns the first route that
-- matches, however long its prefix and those of the others are.
pub sr_find_longest_prefix_match-first_match :
    (table : List Route) (ip_dst : ℕ)
    → All (λ x. x.mask < 2147483648) table
    → sr_find_longest_prefix_match table ip_dst ≡ first_match ip_dst table
unfolding sr_find_longest_prefix_match match_loop longer
sr_find_longest_prefix_match-first_match [] ip_dst h = refl
sr_find_longest_prefix_match-first_match (x ∷ xs) ip_dst (h, hs) =
    elim (Bool-cases (prefix_matches ip_dst x)) [
      | inl t ↦
          let stays = match_loop_stays ip_dst xs x hs in
          let zero_len = get_prefix_len-zero x.mask h in ground (arith, t, stays, zero_len)
      | inr t ↦
          let ih = sr_find_longest_prefix_match-first_match xs ip_dst hs in ground (arith, t, ih)
    ]
