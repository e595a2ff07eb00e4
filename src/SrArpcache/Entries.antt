-- ===== src/SrArpcache/Entries.antt =====
-- The table of the ARP cache: what a lookup finds after an insert and after a round of the timer.
use stanford.Prelude.{
  some_inj, ℕ, ◌+◌, ◌≤◌, ◌≡◌, ◌≢◌, refl, sym, inl, inr, Bool, true, false, ◌&&◌, Option, none, some,
  List, [], ◌∷◌, arith, ◌==◌, All, Bool-cases, ap, ltb, if◌then◌else◌, subst,
}
use stanford.SrArpcache.{
  ArpEntry, ArpCache, last_entry, sr_arpcache_lookup, fill_entry, sr_arpcache_insert, expire_entry,
  expire_entries,
}

abbrev matches : ℕ → ArpEntry → Bool
matches ip e = e.valid && e.ip == ip

abbrev pub is_full : List ArpEntry → Bool
is_full [] = true
is_full (e ∷ es) = e.valid && is_full es

last_entry-some : (ip : ℕ) (es : List ArpEntry) (x : ArpEntry) → last_entry ip es (some x) ≢ none
unfolding last_entry
last_entry-some ip [] x e = absurd (ground (arith, e))
last_entry-some ip (y ∷ ys) x e = elim (Bool-cases (matches ip y)) [
  | inl t ↦ last_entry-some ip ys y (ground (arith, e, t))
  | inr t ↦ last_entry-some ip ys x (ground (arith, e, t))
]

last_entry-none :
    (ip : ℕ) (es : List ArpEntry)
    → last_entry ip es none ≡ none
    → All (λ x. matches ip x ≡ false) es
unfolding last_entry
last_entry-none ip [] e = tt
last_entry-none ip (y ∷ ys) e = elim (Bool-cases (matches ip y)) [
  | inl t ↦ absurd (last_entry-some ip ys y (ground (arith, e, t)))
  | inr t ↦ (t, last_entry-none ip ys (ground (arith, e, t)))
]

last_entry_skip :
    (ip : ℕ) (es : List ArpEntry) (acc : Option ArpEntry)
    → All (λ x. matches ip x ≡ false) es
    → last_entry ip es acc ≡ acc
unfolding last_entry
last_entry_skip ip [] acc h = refl
last_entry_skip ip (y ∷ ys) acc (h, hs) =
    let ih = last_entry_skip ip ys acc hs in ground (arith, h, ih)

last_entry-fill :
    (ip : ℕ) (es : List ArpEntry) (acc : Option ArpEntry) (e : ArpEntry)
    → All (λ x. matches ip x ≡ false) es
    → is_full es ≡ false
    → matches ip e ≡ true
    → last_entry ip (fill_entry e es) acc ≡ some e
unfolding last_entry fill_entry
last_entry-fill ip [] acc e h full m = absurd (ground (arith, full))
last_entry-fill ip (y ∷ ys) acc e (h, hs) full m = elim (Bool-cases y.valid) [
  | inl t ↦
      let ih = last_entry-fill ip ys acc e hs (ground (arith, full, t)) m in
      ground (arith, h, t, ih)
  | inr t ↦ let skip = last_entry_skip ip ys (some e) hs in ground (arith, t, m, skip)
]

last_entry-fill_other :
    (ip : ℕ) (es : List ArpEntry) (acc : Option ArpEntry) (e : ArpEntry)
    → matches ip e ≡ false
    → last_entry ip (fill_entry e es) acc ≡ last_entry ip es acc
unfolding last_entry fill_entry
last_entry-fill_other ip [] acc e m = refl
last_entry-fill_other ip (y ∷ ys) acc e m = elim (Bool-cases y.valid) [
  | inl t ↦
      let ih = last_entry-fill_other ip ys (if matches ip y then some y else acc) e m in
      ground (arith, t, ih)
  | inr t ↦ ground (arith, t, m)
]

-- After an insert for an address that the table does not have, into a table that is not full, a
-- lookup finds the new entry, and a lookup of any other address finds what it did before.
pub lookup-insert :
    (cache : ArpCache) (mac : List ℕ) (ip other now : ℕ)
    → sr_arpcache_lookup cache ip ≡ none
    → is_full cache.entries ≡ false
    → other ≢ ip
    → let cache' = (sr_arpcache_insert cache mac ip now).0 in
      (sr_arpcache_lookup cache' ip
        ≡ some (record { mac = mac; ip = ip; added = now; valid = true }))
      × (sr_arpcache_lookup cache' other ≡ sr_arpcache_lookup cache other)
unfolding sr_arpcache_lookup sr_arpcache_insert
lookup-insert cache mac ip other now e full ne =
    let new : ArpEntry = record { mac = mac; ip = ip; added = now; valid = true } in
    (
      last_entry-fill ip cache.entries none new (last_entry-none ip cache.entries e) full
          (ground arith),
      last_entry-fill_other other cache.entries none new (ground (arith, ne)),
    )

fill_entry-full : (e : ArpEntry) (es : List ArpEntry) → is_full es ≡ true → fill_entry e es ≡ es
unfolding fill_entry
fill_entry-full e [] h = refl
fill_entry-full e (y ∷ ys) h = let ih = fill_entry-full e ys in ground (arith, h, ih)

-- An insert into a full table changes no lookup: the new address is not entered, and no old one
-- makes place for it.
pub lookup-insert_full :
    (cache : ArpCache) (mac : List ℕ) (ip now any : ℕ)
    → is_full cache.entries ≡ true
    → sr_arpcache_lookup (sr_arpcache_insert cache mac ip now).0 any ≡ sr_arpcache_lookup cache any
unfolding sr_arpcache_lookup sr_arpcache_insert
lookup-insert_full cache mac ip now any h =
    ap (λ es. last_entry any es none)
      (fill_entry-full (record { mac = mac; ip = ip; added = now; valid = true }) cache.entries h)

expire_entry_live :
    (curtime : ℕ) (e : ArpEntry) → curtime ≤ e.added + 15 → expire_entry curtime e ≡ e
unfolding expire_entry
expire_entry_live curtime e h = ground (arith, h)

expire_entry_idle :
    (curtime ip : ℕ) (e : ArpEntry)
    → matches ip e ≡ false
    → matches ip (expire_entry curtime e) ≡ false
unfolding expire_entry
expire_entry_idle curtime ip e h = ground (arith, h)

-- One round of the loop of the lookup, before and after the entry expired.
expire_round :
    (ip curtime : ℕ) (y e : ArpEntry) (acc acc' : Option ArpEntry)
    → curtime ≤ e.added + 15
    → (acc ≡ some e → acc' ≡ some e)
    → (if matches ip y then some y else acc) ≡ some e
    → (if matches ip (expire_entry curtime y) then some (expire_entry curtime y) else acc') ≡ some e
expire_round ip curtime y e acc acc' fresh k h = elim (Bool-cases (matches ip y)) [
  | inl t ↦
      let same : y ≡ e = some_inj y e (rw t at h) in
      let kept : expire_entry curtime y ≡ y =
        expire_entry_live curtime y
          (subst {A = ArpEntry} (λ x. curtime ≤ x.added + 15) (sym same) fresh) in
      rw (kept, t) (ap some same)
  | inr t ↦ rw (expire_entry_idle curtime ip y t) (k (rw t at h))
]

last_entry-expire :
    (ip curtime : ℕ) (es : List ArpEntry) (acc acc' : Option ArpEntry) (e : ArpEntry)
    → last_entry ip es acc ≡ some e
    → curtime ≤ e.added + 15
    → (acc ≡ some e → acc' ≡ some e)
    → last_entry ip (expire_entries curtime es) acc' ≡ some e
unfolding last_entry expire_entries
last_entry-expire ip curtime [] acc acc' e h fresh k = k h
last_entry-expire ip curtime (y ∷ ys) acc acc' e h fresh k =
    last_entry-expire ip curtime ys (if matches ip y then some y else acc)
      (if matches ip (expire_entry curtime y) then some (expire_entry curtime y) else acc') e h
      fresh (expire_round ip curtime y e acc acc' fresh k)

-- An entry that a lookup finds is found after a round of the timer too, if at most 15 seconds went by
-- since it was entered.
pub lookup-expire :
    (cache : ArpCache) (ip curtime : ℕ) (e : ArpEntry)
    → sr_arpcache_lookup cache ip ≡ some e
    → curtime ≤ e.added + 15
    → sr_arpcache_lookup (record cache { entries = expire_entries curtime cache.entries }) ip
      ≡ some e
unfolding sr_arpcache_lookup
lookup-expire cache ip curtime e h fresh =
    last_entry-expire ip curtime cache.entries none none e h fresh (λ q. q)

abbrev Answer : ℕ → ℕ → ArpEntry → Type 0
Answer ip curtime e = (e.ip ≡ ip) × (e.valid ≡ true) × (curtime ≤ e.added + 15)

expire_entry-Answer :
    (ip curtime : ℕ) (y : ArpEntry)
    → matches ip (expire_entry curtime y) ≡ true
    → Answer ip curtime (expire_entry curtime y)
unfolding expire_entry
expire_entry-Answer ip curtime y h = elim (Bool-cases (y.valid && ltb (y.added + 15) curtime)) [
  | inl t ↦ absurd (ground (arith, h, t))
  | inr t ↦
      let kept : expire_entry curtime y ≡ y = ground (arith, t) in
      subst {A = ArpEntry} (Answer ip curtime) (sym kept)
        (ground (arith, h, t), ground (arith, h, t), ground (arith, h, t))
]

last_entry-Answer :
    (ip curtime : ℕ) (es : List ArpEntry) (acc : Option ArpEntry) (e : ArpEntry)
    → (acc ≡ some e → Answer ip curtime e)
    → last_entry ip (expire_entries curtime es) acc ≡ some e
    → Answer ip curtime e
unfolding last_entry expire_entries
last_entry-Answer ip curtime [] acc e k h = k h
last_entry-Answer ip curtime (y ∷ ys) acc e k h =
    last_entry-Answer ip curtime ys
      (if matches ip (expire_entry curtime y) then some (expire_entry curtime y) else acc) e
      (λ q. elim (Bool-cases (matches ip (expire_entry curtime y))) [
        | inl t ↦
            subst {A = ArpEntry} (Answer ip curtime)
              (some_inj (expire_entry curtime y) e (rw t at q)) (expire_entry-Answer ip curtime y t)
        | inr t ↦ k (rw t at q)
      ])
      h

-- What a lookup finds after a round of the timer is for the address asked for, valid, and at most 15
-- seconds old.
pub lookup-expire_fresh :
    (cache : ArpCache) (ip curtime : ℕ) (e : ArpEntry)
    → sr_arpcache_lookup (record cache { entries = expire_entries curtime cache.entries }) ip
      ≡ some e
    → (e.ip ≡ ip) × (e.valid ≡ true) × (curtime ≤ e.added + 15)
unfolding sr_arpcache_lookup
lookup-expire_fresh cache ip curtime e h =
    last_entry-Answer ip curtime cache.entries none e (λ q. absurd (ground (arith, q))) h
