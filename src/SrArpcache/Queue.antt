-- ===== src/SrArpcache/Queue.antt =====
-- The queue of ARP requests over any sequence of calls: one request for an address at most.
use stanford.Prelude.{
  ℕ, ◌≡◌, ◌≢◌, sym, inl, inr, Option, none, some, List, [], ◌∷◌, arith, subst, Option-cases, ◌∙◌,
  ℕ_discrete, ◌==◌, Bool-cases,
}
use stanford.SrArpcache.{
  ArpReq, ArpCache, find_request, queue_packet, update_request, sr_arpcache_init,
  sr_arpcache_queuereq, remove_request, sr_arpcache_insert, remove_at, sr_arpreq_destroy,
}
use stanford.SrArpcache.Waiting.{
  RequestsDistinct, find-update_other, find-remove_other, queuereq_found, queuereq_new,
}

pub data CacheCall : Type 0 where
  queues : ℕ → ℕ → Option (List ℕ) → Option (List ℕ) → CacheCall
  inserts : List ℕ → ℕ → ℕ → CacheCall
  destroys : Option ℕ → CacheCall

unfoldable pub cache_step : ArpCache → CacheCall → ArpCache
cache_step c (queues fresh ip packet iface) = (sr_arpcache_queuereq c fresh ip packet iface).0
cache_step c (inserts mac ip now) = (sr_arpcache_insert c mac ip now).0
cache_step c (destroys req) = sr_arpreq_destroy c req

unfoldable pub cache_run : ArpCache → List CacheCall → ArpCache
cache_run c [] = c
cache_run c (call ∷ calls) = cache_run (cache_step c call) calls

update_hit :
    (ip : ℕ) (packet iface : Option (List ℕ)) (x : ArpReq) (xs : List ArpReq)
    → x.ip ≡ ip
    → update_request ip packet iface (x ∷ xs) ≡ queue_packet packet iface x ∷ xs
unfolding update_request
update_hit ip packet iface x xs e = ground (arith, e)

update_miss :
    (ip : ℕ) (packet iface : Option (List ℕ)) (x : ArpReq) (xs : List ArpReq)
    → x.ip ≢ ip
    → update_request ip packet iface (x ∷ xs) ≡ x ∷ update_request ip packet iface xs
unfolding update_request
update_miss ip packet iface x xs ne = ground (arith, ne)

update-RequestsDistinct :
    (ip : ℕ) (packet iface : Option (List ℕ)) (rs : List ArpReq)
    → RequestsDistinct rs
    → RequestsDistinct (update_request ip packet iface rs)
unfolding update_request
update-RequestsDistinct ip packet iface [] d = d
update-RequestsDistinct ip packet iface (x ∷ xs) (d, ds) = elim (ℕ_discrete x.ip ip) [
  | yes e ↦ subst RequestsDistinct (sym (update_hit ip packet iface x xs e)) (d, ds)
  | no ne ↦ subst RequestsDistinct (sym (update_miss ip packet iface x xs ne)) (
    find-update_other ip x.ip packet iface xs ne ∙ d,
    update-RequestsDistinct ip packet iface xs ds,
  )
]

find-remove_at :
    (addr ip : ℕ) (rs : List ArpReq)
    → find_request ip rs ≡ none
    → find_request ip (remove_at addr rs) ≡ none
unfolding find_request remove_at
find-remove_at addr ip [] e = e
find-remove_at addr ip (x ∷ xs) e = let ih = find-remove_at addr ip xs in ground (arith, e, ih)

remove_at-RequestsDistinct :
    (addr : ℕ) (rs : List ArpReq) → RequestsDistinct rs → RequestsDistinct (remove_at addr rs)
unfolding remove_at
remove_at-RequestsDistinct addr [] d = d
remove_at-RequestsDistinct addr (x ∷ xs) (d, ds) =
    let ih = remove_at-RequestsDistinct addr xs ds in
    let kept = find-remove_at addr x.ip xs d in
    elim (Bool-cases (x.addr == addr)) [ inl t ↦ rw t ds | inr f ↦ rw f (kept, ih) ]

remove-RequestsDistinct :
    (ip : ℕ) (rs : List ArpReq) → RequestsDistinct rs → RequestsDistinct (remove_request ip rs)
unfolding remove_request
remove-RequestsDistinct ip [] d = d
remove-RequestsDistinct ip (x ∷ xs) (d, ds) = elim (ℕ_discrete x.ip ip) [
  | yes e ↦
      let gone : xs ≡ remove_request ip (x ∷ xs) = ground (arith, e) in
      subst RequestsDistinct gone ds
  | no ne ↦
      let kept : x ∷ remove_request ip xs ≡ remove_request ip (x ∷ xs) = ground (arith, ne) in
      subst RequestsDistinct kept
        (find-remove_other ip x.ip xs ne ∙ d, remove-RequestsDistinct ip xs ds)
]

step-RequestsDistinct :
    (c : ArpCache) (call : CacheCall)
    → RequestsDistinct c.requests
    → RequestsDistinct (cache_step c call).requests
unfolding cache_step sr_arpcache_insert sr_arpreq_destroy
step-RequestsDistinct c (queues fresh ip packet iface) d =
    elim (Option-cases (find_request ip c.requests)) [
      | inl e ↦
          let (r, made, same, _) = queuereq_new c fresh ip packet iface e in
          subst RequestsDistinct (sym made)
            (subst {A = ℕ} (λ n. find_request n c.requests ≡ none) (sym same) e, d)
      | inr (r, e) ↦
          subst RequestsDistinct (sym (queuereq_found c fresh ip packet iface r e))
            (update-RequestsDistinct ip packet iface c.requests d)
    ]
step-RequestsDistinct c (inserts mac ip now) d = remove-RequestsDistinct ip c.requests d
step-RequestsDistinct c (destroys none) d = d
step-RequestsDistinct c (destroys (some addr)) d = remove_at-RequestsDistinct addr c.requests d

run-RequestsDistinct_from :
    (c : ArpCache) (calls : List CacheCall)
    → RequestsDistinct c.requests
    → RequestsDistinct (cache_run c calls).requests
unfolding cache_run
run-RequestsDistinct_from c [] d = d
run-RequestsDistinct_from c (call ∷ calls) d =
    run-RequestsDistinct_from (cache_step c call) calls (step-RequestsDistinct c call d)

-- After any calls on a new cache that queue packets, enter addresses and destroy requests, no
-- address has two requests.
pub run-RequestsDistinct :
    (calls : List CacheCall) → RequestsDistinct (cache_run sr_arpcache_init calls).requests
unfolding sr_arpcache_init
run-RequestsDistinct calls = run-RequestsDistinct_from sr_arpcache_init calls tt
