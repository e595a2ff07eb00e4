-- ===== src/SrIp/Match.antt =====
-- What the search of the routing table finds.
use stanford.Prelude.{
  some_inj, ℕ, ◌<◌, ◌≤◌, ◌≡◌, ◌⊎◌, refl, sym, inl, inr, true, false, Option, none, some, List, [],
  ◌∷◌, ◌++◌, arith, All, Bool-cases, ap, subst, dec_lt,
}
use stanford.SrIp.{
  Route, get_prefix_len, prefix_matches, longer, match_loop, sr_find_longest_prefix_match,
}

-- The route does not match, or its prefix is shorter than `n`, or no longer than `n`.
abbrev pub Shorter : ℕ → ℕ → Route → Type 0
Shorter ip n x = (prefix_matches ip x ≡ false) ⊎ (get_prefix_len x.mask < n)

abbrev pub NoLonger : ℕ → ℕ → Route → Type 0
NoLonger ip n x = (prefix_matches ip x ≡ false) ⊎ (get_prefix_len x.mask ≤ n)

abbrev Beats : ℕ → Option (ℕ × Route) → Type 0
Beats n none = Unit
Beats n (some (m, _)) = m < n

-- The route is the first of the longest matches of the list.
pub record IsLongest (ip : ℕ) (es : List Route) (e : Route) : Type 0 where
  pub before : List Route
  pub after : List Route
  pub split : es ≡ before ++ e ∷ after
  pub hit : prefix_matches ip e ≡ true
  pub shorter : All (Shorter ip (get_prefix_len e.mask)) before
  pub no_longer : All (NoLonger ip (get_prefix_len e.mask)) after

-- How the loop ends: with what it had, or with a route that beats it.
data Ends (ip : ℕ) (es : List Route) (best : Option (ℕ × Route)) : Option (ℕ × Route) → Type 0 where
  missed : best ≡ none → All (λ x. prefix_matches ip x ≡ false) es → Ends ip es best none
  kept :
      (n : ℕ) (e : Route)
      → best ≡ some (n, e)
      → All (NoLonger ip n) es
      → Ends ip es best (some (n, e))
  found :
      (e : Route)
      → Beats (get_prefix_len e.mask) best
      → IsLongest ip es e
      → Ends ip es best (some (get_prefix_len e.mask, e))

skip_round :
    (ip : ℕ) (x : Route) (xs : List Route) (best r : Option (ℕ × Route))
    → prefix_matches ip x ≡ false
    → Ends ip xs best r
    → Ends ip (x ∷ xs) best r
skip_round ip x xs best none h (missed e all) = missed e (h, all)
skip_round ip x xs best (some _) h (kept n e b all) = kept n e b (inl h, all)
skip_round ip x xs best (some _) h (found e b l) = found e b (record {
  before = x ∷ l.before;
  after = l.after;
  split = ap (λ ys. x ∷ ys) l.split;
  hit = l.hit;
  shorter = (inl h, l.shorter);
  no_longer = l.no_longer;
})

Beats-trans : (m n : ℕ) (best : Option (ℕ × Route)) → m < n → Beats m best → Beats n best
Beats-trans m n none h b = tt
Beats-trans m n (some (k, _)) h b = omega (arith, h, b)

-- The route at hand is the new best, and stays it or is beaten by a later one.
take_round :
    (ip : ℕ) (x : Route) (xs : List Route) (best r : Option (ℕ × Route))
    → prefix_matches ip x ≡ true
    → Beats (get_prefix_len x.mask) best
    → Ends ip xs (some (get_prefix_len x.mask, x)) r
    → Ends ip (x ∷ xs) best r
take_round ip x xs best r h b (missed e all) = absurd (ground (arith, e))
take_round ip x xs best (some _) h b (kept n e q all) =
    let same : n ≡ get_prefix_len x.mask =
      sym (ap (λ (z : ℕ × Route). z.0) (some_inj (get_prefix_len x.mask, x) (n, e) q)) in
    subst {A = Option (ℕ × Route)} (Ends ip (x ∷ xs) best) q (
      found x b (record {
        before = [];
        after = xs;
        split = refl;
        hit = h;
        shorter = tt;
        no_longer = subst {A = ℕ} (λ k. All (NoLonger ip k) xs) same all;
      }))
take_round ip x xs best (some _) h b (found e b' l) =
    found e (Beats-trans (get_prefix_len x.mask) (get_prefix_len e.mask) best b' b) (record {
      before = x ∷ l.before;
      after = l.after;
      split = ap (λ ys. x ∷ ys) l.split;
      hit = l.hit;
      shorter = (inr b', l.shorter);
      no_longer = l.no_longer;
    })

-- The route at hand matches and is no longer than the best.
keep_round :
    (ip : ℕ) (x : Route) (xs : List Route) (m : ℕ) (best : Route) (r : Option (ℕ × Route))
    → get_prefix_len x.mask ≤ m
    → Ends ip xs (some (m, best)) r
    → Ends ip (x ∷ xs) (some (m, best)) r
keep_round ip x xs m best none h (missed e all) = absurd (ground (arith, e))
keep_round ip x xs m best (some _) h (kept n e q all) =
    let same : m ≡ n = ap (λ (z : ℕ × Route). z.0) (some_inj (m, best) (n, e) q) in
    kept n e q (inr (omega (arith, same, h)), all)
keep_round ip x xs m best (some _) h (found e b l) = found e b (record {
  before = x ∷ l.before;
  after = l.after;
  split = ap (λ ys. x ∷ ys) l.split;
  hit = l.hit;
  shorter = (inr (omega (arith, b, h)), l.shorter);
  no_longer = l.no_longer;
})

hit_round :
    (ip : ℕ) (x : Route) (xs : List Route) (best : Option (ℕ × Route))
    → prefix_matches ip x ≡ true
    → ((b : Option (ℕ × Route)) → Ends ip xs b (match_loop ip xs b))
    → Ends ip (x ∷ xs) best (match_loop ip xs (longer best x))
unfolding longer
hit_round ip x xs none t ih =
    take_round ip x xs none (match_loop ip xs (some (get_prefix_len x.mask, x))) t tt
      (ih (some (get_prefix_len x.mask, x)))
hit_round ip x xs (some (m, best)) t ih = elim (dec_lt m (get_prefix_len x.mask)) [
  | yes p ↦
      let now : longer (some (m, best)) x ≡ some (get_prefix_len x.mask, x) = ground (arith, p) in
      subst {A = Option (ℕ × Route)} (λ b. Ends ip (x ∷ xs) (some (m, best)) (match_loop ip xs b))
        (sym now)
        (take_round ip x xs (some (m, best)) (match_loop ip xs (some (get_prefix_len x.mask, x))) t
          p (ih (some (get_prefix_len x.mask, x))))
  | no q ↦
      let now : longer (some (m, best)) x ≡ some (m, best) = ground (arith, q) in
      subst {A = Option (ℕ × Route)} (λ b. Ends ip (x ∷ xs) (some (m, best)) (match_loop ip xs b))
        (sym now)
        (keep_round ip x xs m best (match_loop ip xs (some (m, best))) (omega (arith, q))
          (ih (some (m, best))))
]

match_loop-Ends :
    (ip : ℕ) (es : List Route) (best : Option (ℕ × Route)) → Ends ip es best (match_loop ip es best)
unfolding match_loop
match_loop-Ends ip [] none = missed refl tt
match_loop-Ends ip [] (some (n, e)) = kept n e refl tt
match_loop-Ends ip (x ∷ xs) best = elim (Bool-cases (prefix_matches ip x)) [
  | inl t ↦ rw t (hit_round ip x xs best t (match_loop-Ends ip xs))
  | inr t ↦ rw t (skip_round ip x xs best (match_loop ip xs best) t (match_loop-Ends ip xs best))
]

-- What the search returns: no route only if none matches, and otherwise the first of the longest.
abbrev pub Found : ℕ → List Route → Option Route → Type 0
Found ip es none = All (λ x. prefix_matches ip x ≡ false) es
Found ip es (some e) = IsLongest ip es e

Ends-Found :
    (ip : ℕ) (es : List Route) (r : Option (ℕ × Route))
    → Ends ip es none r
    → Found ip es (elim r [ none ↦ none | some (_, entry) ↦ some entry ])
Ends-Found ip es none (missed e all) = all
Ends-Found ip es (some _) (kept n e q all) = absurd (ground (arith, q))
Ends-Found ip es (some _) (found e b l) = l

-- `sr_find_longest_prefix_match` returns NULL only if no route of the table matches the address;
-- otherwise it returns a route that matches, such that each match before it in the table has a
-- shorter prefix by `get_prefix_len`, and each match behind it has no longer one.
pub sr_find_longest_prefix_match_lem :
    (table : List Route) (ip_dst : ℕ)
    → Found ip_dst table (sr_find_longest_prefix_match table ip_dst)
unfolding sr_find_longest_prefix_match
sr_find_longest_prefix_match_lem table ip_dst =
    Ends-Found ip_dst table (match_loop ip_dst table none) (match_loop-Ends ip_dst table none)
