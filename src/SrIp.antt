-- ===== src/SrIp.antt =====
-- The routing table of cs144/router/sr_rt.c and its search in cs144/router/sr_ip.c. Addresses and
-- masks are the numbers that the code's `s_addr` fields hold.
pub mod Match
pub mod NetworkOrder
pub mod Header
pub mod Forward
pub mod Load
use Prim.Native.Nat.{bit_and}
use stanford.Prelude.{
  ℕ, zero, suc, ◌+◌, ◌-◌, ◌/◌, ◌%◌, ◌^◌, Bool, true, false, Option, none, some, List, [], ◌∷◌, ◌++◌,
  ◌==◌, ltb, if◌then◌else◌,
}

-- `struct sr_rt`; `iface` is its `interface`.
pub record Route : Type 0 where
  pub dest : ℕ
  pub gw : ℕ
  pub mask : ℕ
  pub iface : List ℕ

-- Both branches of `sr_add_rt_entry` put the route at the end.
unfoldable pub sr_add_rt_entry : List Route → ℕ → ℕ → ℕ → List ℕ → List Route
sr_add_rt_entry table dest gw mask if_name =
    table ++ (record { dest = dest; gw = gw; mask = mask; iface = if_name } ∷ [])

-- The loop of `get_prefix_len` at `i`, with as many rounds left as it has.
unfoldable pub prefix_from : ℕ → ℕ → ℕ → ℕ
prefix_from zero i mask = i
prefix_from (suc left) i mask =
    let rest = prefix_from left (suc i) mask in if mask / 2 ^ (31 - i) % 2 == 0 then i else rest

unfoldable pub get_prefix_len : ℕ → ℕ
get_prefix_len mask = prefix_from 32 0 mask

abbrev pub prefix_matches : ℕ → Route → Bool
prefix_matches ip_dst entry = bit_and ip_dst entry.mask == bit_and entry.dest entry.mask

-- `longest_prefix` and `longest_prefix_entry`; `none` is -1 and NULL, which any length beats.
unfoldable pub longer : Option (ℕ × Route) → Route → Option (ℕ × Route)
longer none entry = some (get_prefix_len entry.mask, entry)
longer (some (longest_prefix, best)) entry =
    if ltb longest_prefix (get_prefix_len entry.mask)
    then some (get_prefix_len entry.mask, entry)
    else some (longest_prefix, best)

unfoldable pub match_loop : ℕ → List Route → Option (ℕ × Route) → Option (ℕ × Route)
match_loop ip_dst [] longest = longest
match_loop ip_dst (entry ∷ entries) longest =
    match_loop ip_dst entries
      (if prefix_matches ip_dst entry then longer longest entry else longest)

unfoldable pub sr_find_longest_prefix_match : List Route → ℕ → Option Route
sr_find_longest_prefix_match table ip_dst = elim (match_loop ip_dst table none) [
  | none ↦ none
  | some (_, entry) ↦ some entry
]
