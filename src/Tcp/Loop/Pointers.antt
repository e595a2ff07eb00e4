-- ===== src/Tcp/Loop/Pointers.antt =====
-- The pointers that `conn_mkevents` of rlib.c makes are to connections of the list.
use stanford.Prelude.{
  ℕ, zero, suc, ◌≡◌, refl, sym, ap, ap₂, ◌∙◌, inl, inr, ◌⊎◌, false, Option, none, some, List, [],
  ◌∷◌, ◌==◌, get_or, set, map, arith, All, Bool-cases, subst, some_inj, replicate,
}
use stanford.Tcp.Conn.Poll.{
  Polled, Event, conn_mkevents, put, fill_readers, fill_writers, slots, read_write_slots, all_slots,
}
use stanford.Tcp.Conn.{Conn}
use stanford.Tcp.Loop.{Live, with_polled}
use stanford.Tcp.Loop.Calls.{IsSound}
use stanford.Tcp.Loop.Events.{
  addr_of, Known, AllKept, AllKept-refl, AllKept-cons, Valid, Valid-subst, InRound,
}

get_or-set_either :
    (ps : List (Option ℕ)) (i n : ℕ) (p : Option ℕ)
    → (get_or (set ps i p) n none ≡ p) ⊎ (get_or (set ps i p) n none ≡ get_or ps n none)
get_or-set_either [] i n p = inr refl
get_or-set_either (x ∷ ps) zero zero p = inl refl
get_or-set_either (x ∷ ps) zero (suc n) p = inr refl
get_or-set_either (x ∷ ps) (suc i) zero p = inr refl
get_or-set_either (x ∷ ps) (suc i) (suc n) p = get_or-set_either ps i n p

module _ (xs : List ℕ) where
  Valid-set :
      (i addr : ℕ) (ps : List (Option ℕ))
      → Known addr xs
      → Valid ps xs
      → Valid (set ps i (some addr)) xs
  Valid-set i addr ps k v n a q = elim (get_or-set_either ps i n (some addr)) [
    | inl e ↦ subst (λ b. Known b xs) (some_inj addr a (sym e ∙ q)) k
    | inr e ↦ v n a (sym e ∙ q)
  ]

  Valid-put :
      (i addr : ℕ) (ps : List (Option ℕ)) → Known addr xs → Valid ps xs → Valid (put i addr ps) xs
  unfolding put
  Valid-put i addr ps k v = elim (Bool-cases (i == 0)) [
    | inl e ↦ rw e v
    | inr e ↦ rw e (Valid-set i addr ps k v)
  ]

  Valid-fill_readers :
      (cs : List Polled) (ps : List (Option ℕ))
      → All (λ c. Known c.addr xs) cs
      → Valid ps xs
      → Valid (fill_readers cs ps) xs
  unfolding fill_readers
  Valid-fill_readers [] ps k v = v
  Valid-fill_readers (c ∷ cs) ps k v =
      Valid-fill_readers cs (put c.npoll c.addr (put c.rpoll c.addr ps)) k.1
        (Valid-put c.npoll c.addr (put c.rpoll c.addr ps) k.0 (Valid-put c.rpoll c.addr ps k.0 v))

  Valid-fill_writers :
      (cs : List Polled) (ps : List (Option ℕ))
      → All (λ c. Known c.addr xs) cs
      → Valid ps xs
      → Valid (fill_writers cs ps) xs
  unfolding fill_writers
  Valid-fill_writers [] ps k v = v
  Valid-fill_writers (c ∷ cs) ps k v =
      Valid-fill_writers cs (put c.wpoll c.addr ps) k.1 (Valid-put c.wpoll c.addr ps k.0 v)

  All-Known :
      (cs : List Polled)
      → ((a : ℕ) → Known a (map (λ (c : Polled). c.addr) cs) → Known a xs)
      → All (λ c. Known c.addr xs) cs
  All-Known [] h = tt
  All-Known (c ∷ cs) h = (h c.addr (inl refl), All-Known cs (λ a k. h a (inr k)))

  Valid-none : (n : ℕ) → Valid (replicate n none) xs
  Valid-none zero i a q = let f : none ≡ some a = q in cc
  Valid-none (suc n) zero a q = cc
  Valid-none (suc n) (suc i) a q = Valid-none n i a q

slots_same : (n : ℕ) (c : Polled) → ((slots n c).1.addr ≡ c.addr) × ((slots n c).1.conn ≡ c.conn)
unfolding slots read_write_slots
slots_same n c = ground arith

with_polled-AllKept :
    (n : ℕ) (ls : List Live)
    → All IsSound ls
    → AllKept ls (with_polled ls (all_slots n (map (λ l. l.polled) ls)).1)
unfolding with_polled all_slots
with_polled-AllKept n [] h = AllKept-refl [] h
with_polled-AllKept n (l ∷ ls) h =
    let s = slots_same n l.polled in
    AllKept-cons l (record l { polled = (slots n l.polled).1 }) ls _
      (record {
        sound = record { deleted = λ e. ap (λ (c : Conn). c.delete_me) s.1 ∙ h.0.deleted e };
        addr = s.0;
      })
      (with_polled-AllKept (slots n l.polled).0 ls h.1)

all_slots_addrs :
    (n : ℕ) (ls : List Live)
    → map (λ (c : Polled). c.addr) (all_slots n (map (λ l. l.polled) ls)).1 ≡ map addr_of ls
unfolding all_slots
all_slots_addrs n [] = refl
all_slots_addrs n (l ∷ ls) =
    ap₂ (λ (a : ℕ) (xs : List ℕ). a ∷ xs) (slots_same n l.polled).0
      (all_slots_addrs (slots n l.polled).0 ls)

pub refreshed-InRound :
    (listen : Event) (ls : List Live)
    → All IsSound ls
    → let p = conn_mkevents listen (map (λ l. l.polled) ls) in
      InRound (record { polls = p; lives = with_polled ls p.conns; changed = false })
unfolding conn_mkevents
refreshed-InRound listen ls h =
    let polled = map (λ l. l.polled) ls in
    let k = with_polled-AllKept 2 ls h in
    let (n, cs) = all_slots 2 polled in
    let known = All-Known (map addr_of ls) cs (λ a q. subst (Known a) (all_slots_addrs 2 ls) q) in
    record {
      sound = k.sound;
      readers = Valid-subst (fill_readers cs (replicate n none)) _ _ k.addrs (
          Valid-fill_readers (map addr_of ls) cs (replicate n none) known
            (Valid-none (map addr_of ls) n));
      writers = Valid-subst (fill_writers cs (replicate n none)) _ _ k.addrs (
          Valid-fill_writers (map addr_of ls) cs (replicate n none) known
            (Valid-none (map addr_of ls) n));
    }
