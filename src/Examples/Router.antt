-- ===== src/Examples/Router.antt =====
-- The ARP cache and the routing table of the router at small tables.
use stanford.Prelude.{ℕ, ◌≡◌, refl, true, false, Option, none, some, List, [], ◌∷◌, arith}
use stanford.SrArpcache.{
  QueuedPacket, ArpEntry, ArpReq, ArpCache, sr_arpcache_lookup, sr_arpcache_queuereq,
  sr_arpcache_insert, find_request, last_entry,
}
use stanford.SrArpcache.Waiting.{waiting, Taken, queuereq-waiting, insert-waiting}
use stanford.SrArpcache.Queue.{queues, inserts, destroys, cache_run, run-RequestsDistinct}
use stanford.SrArpcache.Waiting.{RequestsDistinct}
use stanford.SrArpcache.Entries.{lookup-insert}
use stanford.SrArpcache.{sr_arpcache_init}
use stanford.SrIp.{Route, sr_find_longest_prefix_match}
use stanford.SrIp.Match.{Found, sr_find_longest_prefix_match_lem}
use stanford.SrIp.NetworkOrder.{first_match, sr_find_longest_prefix_match-first_match}

abbrev known : ArpEntry
known = record { mac = 2 ∷ 0 ∷ 0 ∷ 0 ∷ 0 ∷ 7 ∷ []; ip = 70; added = 10; valid = true }

abbrev unused : ArpEntry
unused = record { mac = []; ip = 0; added = 0; valid = false }

abbrev frame : QueuedPacket
frame = record { buf = 1 ∷ []; iface = 101 ∷ [] }

abbrev request : ArpReq
request = record { addr = 4096; ip = 80; sent = 0; times_sent = 0; packets = frame ∷ [] }

abbrev cache : ArpCache
cache = record { entries = known ∷ unused ∷ []; requests = request ∷ [] }

abbrev full_cache : ArpCache
full_cache = record { entries = known ∷ []; requests = [] }

queuereq-waiting_example :
    let queue : Option (List ℕ) → Option (List ℕ) → ArpCache =
      λ packet iface. (sr_arpcache_queuereq cache 8192 80 packet iface).0 in
    (waiting (queue (some (9 ∷ [])) (some (101 ∷ []))) 80
      ≡ record { buf = 9 ∷ []; iface = 101 ∷ [] } ∷ waiting cache 80)
    × (waiting (queue (some (9 ∷ [])) (some (101 ∷ []))) 70 ≡ waiting cache 70)
    × (waiting (queue none (some (101 ∷ []))) 80 ≡ waiting cache 80)
    × (waiting (queue (some []) (some (101 ∷ []))) 80 ≡ waiting cache 80)
    × (waiting (queue (some (9 ∷ [])) none) 80 ≡ waiting cache 80)
queuereq-waiting_example = queuereq-waiting cache 8192 80 70 9 [] (101 ∷ []) (omega arith)

insert-waiting_example :
    let (after, req) = sr_arpcache_insert cache (5 ∷ []) 80 12 in
    Taken 80 cache.requests after.requests req
    × (waiting after 80 ≡ [])
    × (waiting after 70 ≡ waiting cache 70)
unfolding find_request
insert-waiting_example = insert-waiting cache (5 ∷ []) 80 70 12 (refl, tt) (omega arith)

run-RequestsDistinct_example :
    RequestsDistinct
      (cache_run sr_arpcache_init (
        queues 4096 80 (some (9 ∷ [])) (some (101 ∷ []))
        ∷ queues 8192 80 (some (8 ∷ [])) (some (101 ∷ []))
        ∷ inserts (5 ∷ []) 80 12
        ∷ destroys (some 4096)
        ∷ [])).requests
run-RequestsDistinct_example = run-RequestsDistinct (
    queues 4096 80 (some (9 ∷ [])) (some (101 ∷ []))
    ∷ queues 8192 80 (some (8 ∷ [])) (some (101 ∷ []))
    ∷ inserts (5 ∷ []) 80 12
    ∷ destroys (some 4096)
    ∷ [])

lookup-insert_example :
    let after = (sr_arpcache_insert cache (5 ∷ []) 80 12).0 in
    (sr_arpcache_lookup after 80
      ≡ some (record { mac = 5 ∷ []; ip = 80; added = 12; valid = true }))
    × (sr_arpcache_lookup after 70 ≡ sr_arpcache_lookup cache 70)
unfolding sr_arpcache_lookup last_entry
lookup-insert_example = lookup-insert cache (5 ∷ []) 80 70 12 refl refl (omega arith)

-- 10.0.0.0 by 10.0.0.1 on "e", and behind it 10.0.1.0 with mask 255.255.255.0, which is longer: the
-- numbers are those of a little-endian host.
abbrev wide : Route
wide = record { dest = 10; gw = 16777226; mask = 255; iface = 101 ∷ [] }

abbrev narrow : Route
narrow = record { dest = 65546; gw = 33554442; mask = 16777215; iface = 102 ∷ [] }

-- 10.0.1.5.
abbrev host : ℕ
host = 83951626

sr_find_longest_prefix_match_lem_example :
    Found host (wide ∷ narrow ∷ []) (sr_find_longest_prefix_match (wide ∷ narrow ∷ []) host)
sr_find_longest_prefix_match_lem_example =
    sr_find_longest_prefix_match_lem (wide ∷ narrow ∷ []) host

sr_find_longest_prefix_match-first_match_example :
    sr_find_longest_prefix_match (wide ∷ narrow ∷ []) host ≡ first_match host (wide ∷ narrow ∷ [])
sr_find_longest_prefix_match-first_match_example =
    sr_find_longest_prefix_match-first_match (wide ∷ narrow ∷ []) host
      (omega arith, (omega arith, tt))

-- The wide route is taken, and not the longer one.
find_wide : sr_find_longest_prefix_match (wide ∷ narrow ∷ []) host ≡ some wide
find_wide =
    sr_find_longest_prefix_match-first_match (wide ∷ narrow ∷ []) host
      (omega arith, (omega arith, tt))
