-- ===== src/SrArpcache/Waiting.antt =====
-- Which packets of the ARP cache wait for which address.
use stanford.Prelude.{
  ℕ, ◌≡◌, ◌≢◌, refl, inl, inr, Option, none, some, List, [], ◌∷◌, arith, Option-cases, ◌==◌, ◌∙◌,
  sym, ap, Bool-cases, All, ◌++◌,
}
use stanford.SrArpcache.{
  QueuedPacket, ArpReq, ArpCache, find_request, add_packet, queue_packet, update_request,
  sr_arpcache_queuereq, remove_request, sr_arpcache_insert,
}

abbrev pub packets_of : Option ArpReq → List QueuedPacket
packets_of none = []
packets_of (some r) = r.packets

-- The packets that wait for the address, the last one first.
abbrev pub waiting : ArpCache → ℕ → List QueuedPacket
waiting cache ip = packets_of (find_request ip cache.requests)

abbrev pub RequestsDistinct : List ArpReq → Type 0
RequestsDistinct [] = Unit
RequestsDistinct (r ∷ rs) = (find_request r.ip rs ≡ none) × RequestsDistinct rs

find-update :
    (ip : ℕ) (packet iface : Option (List ℕ)) (r : ArpReq) (rs : List ArpReq)
    → find_request ip rs ≡ some r
    → find_request ip (update_request ip packet iface rs) ≡ some (queue_packet packet iface r)
unfolding find_request update_request
find-update ip packet iface r [] e = ground (arith, e)
find-update ip packet iface r (x ∷ xs) e = elim (Bool-cases (x.ip == ip)) [
  | inl t ↦ ground (arith, e, t)
  | inr t ↦ ground (arith, e, t, find-update ip packet iface r xs)
]

pub find-update_other :
    (ip other : ℕ) (packet iface : Option (List ℕ)) (rs : List ArpReq)
    → other ≢ ip
    → find_request other (update_request ip packet iface rs) ≡ find_request other rs
unfolding find_request update_request
find-update_other ip other packet iface [] ne = refl
find-update_other ip other packet iface (x ∷ xs) ne =
    let ih = find-update_other ip other packet iface xs ne in ground (arith, ih, ne)

pub find-remove_other :
    (ip other : ℕ) (rs : List ArpReq)
    → other ≢ ip
    → find_request other (remove_request ip rs) ≡ find_request other rs
unfolding find_request remove_request
find-remove_other ip other [] ne = refl
find-remove_other ip other (x ∷ xs) ne =
    let ih = find-remove_other ip other xs ne in ground (arith, ih, ne)

find-remove :
    (ip : ℕ) (rs : List ArpReq)
    → RequestsDistinct rs
    → find_request ip (remove_request ip rs) ≡ none
unfolding find_request remove_request
find-remove ip [] d = refl
find-remove ip (x ∷ xs) (d, ds) = let ih = find-remove ip xs ds in ground (arith, ih, d)

-- What `sr_arpcache_queuereq` leaves of the requests, as its lookup finds one or not.
pub queuereq_found :
    (cache : ArpCache) (fresh ip : ℕ) (packet iface : Option (List ℕ)) (r : ArpReq)
    → find_request ip cache.requests ≡ some r
    → (sr_arpcache_queuereq cache fresh ip packet iface).0.requests
      ≡ update_request ip packet iface cache.requests
unfolding sr_arpcache_queuereq
queuereq_found cache fresh ip packet iface r e = rw (e, sr_arpcache_queuereq) refl

pub queuereq_new :
    (cache : ArpCache) (fresh ip : ℕ) (packet iface : Option (List ℕ))
    → find_request ip cache.requests ≡ none
    → (r : ArpReq) × ((sr_arpcache_queuereq cache fresh ip packet iface).0.requests
        ≡ r ∷ cache.requests)
      × (r.ip ≡ ip)
      × (r.packets ≡ add_packet packet iface [])
unfolding sr_arpcache_queuereq
queuereq_new cache fresh ip packet iface e = (
  queue_packet packet iface
      (record { addr = fresh; ip = ip; sent = 0; times_sent = 0; packets = [] }),
  rw (e, sr_arpcache_queuereq) refl,
  refl,
  refl,
)

find_request-hit :
    (r : ArpReq) (rs : List ArpReq) (ip : ℕ) → r.ip ≡ ip → find_request ip (r ∷ rs) ≡ some r
unfolding find_request
find_request-hit r rs ip e = ground (arith, e)

find_request-miss :
    (r : ArpReq) (rs : List ArpReq) (ip : ℕ)
    → r.ip ≢ ip
    → find_request ip (r ∷ rs) ≡ find_request ip rs
unfolding find_request
find_request-miss r rs ip e = ground (arith, e)

queue-packets :
    (cache : ArpCache) (fresh ip : ℕ) (packet iface : Option (List ℕ))
    → waiting (sr_arpcache_queuereq cache fresh ip packet iface).0 ip
      ≡ add_packet packet iface (waiting cache ip)
queue-packets cache fresh ip packet iface = elim (Option-cases (find_request ip cache.requests)) [
  | inl e ↦
      let (r, made, same, ps) = queuereq_new cache fresh ip packet iface e in
      rw made (rw (find_request-hit r cache.requests ip same, e) ps)
  | inr (r, e) ↦
      rw (queuereq_found cache fresh ip packet iface r e)
        (rw (find-update ip packet iface r cache.requests e, e) refl)
]

queue-others :
    (cache : ArpCache) (fresh ip other : ℕ) (packet iface : Option (List ℕ))
    → other ≢ ip
    → waiting (sr_arpcache_queuereq cache fresh ip packet iface).0 other ≡ waiting cache other
queue-others cache fresh ip other packet iface ne =
    elim (Option-cases (find_request ip cache.requests)) [
      | inl e ↦
          let (r, made, same, ps) = queuereq_new cache fresh ip packet iface e in
          rw made
            (ap packets_of (find_request-miss r cache.requests other (λ q. ne (sym q ∙ same))))
      | inr (r, e) ↦
          rw (queuereq_found cache fresh ip packet iface r e)
            (ap packets_of (find-update_other ip other packet iface cache.requests ne))
    ]

-- Queueing a packet of one byte or more with an interface for an address adds them in front of
-- those that wait for that address, and those that wait for any other address stay. Without a packet,
-- with an empty one or without an interface, what waits for the address stays as it is, too.
pub queuereq-waiting :
    (cache : ArpCache) (fresh ip other b : ℕ) (bs name : List ℕ)
    → other ≢ ip
    → let queue : Option (List ℕ) → Option (List ℕ) → ArpCache =
        λ packet iface. (sr_arpcache_queuereq cache fresh ip packet iface).0 in
      (waiting (queue (some (b ∷ bs)) (some name)) ip
        ≡ record { buf = b ∷ bs; iface = name } ∷ waiting cache ip)
      × (waiting (queue (some (b ∷ bs)) (some name)) other ≡ waiting cache other)
      × (waiting (queue none (some name)) ip ≡ waiting cache ip)
      × (waiting (queue (some []) (some name)) ip ≡ waiting cache ip)
      × (waiting (queue (some (b ∷ bs)) none) ip ≡ waiting cache ip)
unfolding add_packet
queuereq-waiting cache fresh ip other b bs name ne = (
  queue-packets cache fresh ip (some (b ∷ bs)) (some name),
  queue-others cache fresh ip other (some (b ∷ bs)) (some name) ne,
  queue-packets cache fresh ip none (some name),
  queue-packets cache fresh ip (some []) (some name),
  queue-packets cache fresh ip (some (b ∷ bs)) none,
)

-- What taking out the request for an address does to the requests: none is for the address, and none
-- is returned; or the one that is for it is returned, and all others stay in their order.
pub data Taken (ip : ℕ) : List ArpReq → List ArpReq → Option ArpReq → Type 0 where
  absent : (rs : List ArpReq) → All (λ x. x.ip ≢ ip) rs → Taken ip rs rs none
  taken :
      (before after : List ArpReq) (r : ArpReq)
      → r.ip ≡ ip
      → All (λ x. x.ip ≢ ip) (before ++ after)
      → Taken ip (before ++ (r ∷ after)) (before ++ after) (some r)

Taken-cons :
    (ip : ℕ) (x : ArpReq) (rs rs' : List ArpReq) (o : Option ArpReq)
    → x.ip ≢ ip
    → Taken ip rs rs' o
    → Taken ip (x ∷ rs) (x ∷ rs') o
Taken-cons ip x rs rs' o ne (absent ys h) = absent (x ∷ ys) (ne, h)
Taken-cons ip x rs rs' o ne (taken before after r e h) = taken (x ∷ before) after r e (ne, h)

find_request-absent :
    (ip : ℕ) (rs : List ArpReq) → find_request ip rs ≡ none → All (λ x. x.ip ≢ ip) rs
unfolding find_request
find_request-absent ip [] e = tt
find_request-absent ip (x ∷ xs) e = elim (Bool-cases (x.ip == ip)) [
  | inl t ↦ absurd (ground (arith, e, t))
  | inr t ↦ (λ q. absurd (ground (arith, t, q)), find_request-absent ip xs (rw t at e))
]

remove-Taken :
    (ip : ℕ) (rs : List ArpReq)
    → RequestsDistinct rs
    → Taken ip rs (remove_request ip rs) (find_request ip rs)
unfolding find_request remove_request
remove-Taken ip [] d = absent [] tt
remove-Taken ip (x ∷ xs) (d, ds) = elim (Bool-cases (x.ip == ip)) [
  | inl t ↦
      let same : x.ip ≡ ip = ground (arith, t) in
      rw t (
        taken [] xs x same (find_request-absent ip xs (ap (λ a. find_request a xs) (sym same) ∙ d)))
  | inr t ↦
      rw t (Taken-cons ip x xs _ _ (λ q. absurd (ground (arith, t, q))) (remove-Taken ip xs ds))
]

-- On a queue with one request at most for each address, `sr_arpcache_insert` takes the request for
-- the address out of the queue and returns it, and returns none only if no request is for the address.
-- All other requests stay as they are and in their order; so nothing waits for the address any more,
-- and the packets that wait for any other address stay.
pub insert-waiting :
    (cache : ArpCache) (mac : List ℕ) (ip other now : ℕ)
    → RequestsDistinct cache.requests
    → other ≢ ip
    → let (cache', req) = sr_arpcache_insert cache mac ip now in
      Taken ip cache.requests cache'.requests req
      × (waiting cache' ip ≡ [])
      × (waiting cache' other ≡ waiting cache other)
unfolding sr_arpcache_insert
insert-waiting cache mac ip other now d ne = (
  remove-Taken ip cache.requests d,
  ap packets_of (find-remove ip cache.requests d),
  ap packets_of (find-remove_other ip other cache.requests ne),
)
