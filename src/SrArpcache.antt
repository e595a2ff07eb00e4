-- ===== src/SrArpcache.antt =====
-- The ARP cache of cs144/router/sr_arpcache.c: its table of addresses, and the requests with the
-- packets that wait for their answers. Its mutex is held during each call.
pub mod Waiting
pub mod Entries
pub mod Queue
use stanford.Prelude.{
  ℕ, ◌+◌, Bool, true, false, ◌&&◌, Option, none, some, List, [], ◌∷◌, ◌==◌, ltb, if◌then◌else◌,
  replicate,
}

pub record QueuedPacket : Type 0 where
  pub buf : List ℕ
  pub iface : List ℕ

pub record ArpEntry : Type 0 where
  pub mac : List ℕ
  pub ip : ℕ
  pub added : ℕ
  pub valid : Bool

-- `addr` is where the request lies in memory: pointers to requests are compared.
pub record ArpReq : Type 0 where
  pub addr : ℕ
  pub ip : ℕ
  pub sent : ℕ
  pub times_sent : ℕ
  pub packets : List QueuedPacket

pub record ArpCache : Type 0 where
  pub entries : List ArpEntry
  pub requests : List ArpReq

abbrev pub arpcache_sz : ℕ
arpcache_sz = 100

abbrev pub arpcache_to : ℕ
arpcache_to = 15

abbrev no_entry : ArpEntry
no_entry = record { mac = replicate 6 0; ip = 0; added = 0; valid = false }

unfoldable pub sr_arpcache_init : ArpCache
sr_arpcache_init = record { entries = replicate arpcache_sz no_entry; requests = [] }

-- The loop of `sr_arpcache_lookup`, at its local `entry`.
unfoldable pub last_entry : ℕ → List ArpEntry → Option ArpEntry → Option ArpEntry
last_entry ip [] entry = entry
last_entry ip (e ∷ es) entry = last_entry ip es (if e.valid && e.ip == ip then some e else entry)

unfoldable pub sr_arpcache_lookup : ArpCache → ℕ → Option ArpEntry
sr_arpcache_lookup cache ip = last_entry ip cache.entries none

unfoldable pub find_request : ℕ → List ArpReq → Option ArpReq
find_request ip [] = none
find_request ip (r ∷ rs) = if r.ip == ip then some r else find_request ip rs

-- `if (packet && packet_len && iface)`: `none` is a null pointer.
unfoldable pub add_packet :
    Option (List ℕ) → Option (List ℕ) → List QueuedPacket → List QueuedPacket
add_packet (some (b ∷ bs)) (some iface) ps = record { buf = b ∷ bs; iface = iface } ∷ ps
add_packet _ _ ps = ps

abbrev pub queue_packet : Option (List ℕ) → Option (List ℕ) → ArpReq → ArpReq
queue_packet packet iface r = record r { packets = add_packet packet iface r.packets }

-- The writes through the pointer to the request that was found.
unfoldable pub update_request : ℕ → Option (List ℕ) → Option (List ℕ) → List ArpReq → List ArpReq
update_request ip packet iface [] = []
update_request ip packet iface (r ∷ rs) =
    if r.ip == ip then queue_packet packet iface r ∷ rs else r ∷ update_request ip packet iface rs

-- `fresh` is the address that `calloc` gives. The result has the request that is returned.
unfoldable pub sr_arpcache_queuereq :
    ArpCache → ℕ → ℕ → Option (List ℕ) → Option (List ℕ) → ArpCache × ArpReq
unfolding find_request update_request
sr_arpcache_queuereq cache fresh ip packet iface = elim (find_request ip cache.requests) [
  | some r ↦ (
    record cache { requests = update_request ip packet iface cache.requests },
    queue_packet packet iface r,
  )
  | none ↦
      let made : ArpReq = record {
        addr = fresh;
        ip = ip;
        sent = 0;
        times_sent = 0;
        packets = [];
      } in
      let r = queue_packet packet iface made in (record cache { requests = r ∷ cache.requests }, r)
]

unfoldable pub remove_request : ℕ → List ArpReq → List ArpReq
remove_request ip [] = []
remove_request ip (r ∷ rs) = if r.ip == ip then rs else r ∷ remove_request ip rs

-- The first entry that is not valid is taken; a full table stays as it is.
unfoldable pub fill_entry : ArpEntry → List ArpEntry → List ArpEntry
fill_entry e [] = []
fill_entry e (x ∷ xs) = if x.valid then x ∷ fill_entry e xs else e ∷ xs

unfoldable pub sr_arpcache_insert : ArpCache → List ℕ → ℕ → ℕ → ArpCache × Option ArpReq
sr_arpcache_insert cache mac ip now = (
  record {
    entries = fill_entry (record { mac = mac; ip = ip; added = now; valid = true }) cache.entries;
    requests = remove_request ip cache.requests;
  },
  find_request ip cache.requests,
)

unfoldable pub remove_at : ℕ → List ArpReq → List ArpReq
remove_at addr [] = []
remove_at addr (r ∷ rs) = if r.addr == addr then rs else r ∷ remove_at addr rs

-- `addr` is the pointer to the request; `none` is the null pointer.
unfoldable pub sr_arpreq_destroy : ArpCache → Option ℕ → ArpCache
sr_arpreq_destroy cache none = cache
sr_arpreq_destroy cache (some addr) = record cache { requests = remove_at addr cache.requests }

unfoldable pub expire_entry : ℕ → ArpEntry → ArpEntry
expire_entry curtime e =
    if e.valid && ltb (e.added + arpcache_to) curtime then record e { valid = false } else e

-- The loop over the entries in a round of `sr_arpcache_timeout`.
unfoldable pub expire_entries : ℕ → List ArpEntry → List ArpEntry
expire_entries curtime [] = []
expire_entries curtime (e ∷ es) = expire_entry curtime e ∷ expire_entries curtime es
