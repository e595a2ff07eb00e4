-- ===== src/SrNat/Kept.antt =====
-- Between two rounds of the timer the table loses no mapping.
use stanford.Prelude.{
  some_inj, ℕ, ◌≡◌, sym, inl, inr, Bool, true, false, some, List, [], ◌∷◌, arith, All, subst,
  Option-cases,
}
use stanford.SrNat.{
  Nat, is_external, is_internal, sr_nat_lookup_external, sr_nat_lookup_internal,
  nat_lookup_external_no_lock, nat_lookup_internal_no_lock,
}
use stanford.SrNat.Sessions.{Headers}
use stanford.SrNat.Bindings.{Binding, bindings}
use stanford.SrNat.Calls.{
  Call, looks_external, looks_internal, inserts, sends, receives, sees_syn, sweeps, step, Same,
}
use stanford.SrNat.Moves.{lookup-Same, sent-Same, recvd-Same, syn-Same}
use stanford.SrNat.Invariant.{run}
use stanford.SrNat.External.{Has, insert-keeps}

abbrev pub is_sweep : Call → Bool
is_sweep sweeps = true
is_sweep _ = false

-- None of the calls is a round of the timer.
abbrev pub NoSweep : List (ℕ × Call) → Type 0
NoSweep = All (λ c. is_sweep c.1 ≡ false)

Same-keeps :
    {nat nat' : Nat} {b : Binding} → Same nat nat' → Has b (bindings nat) → Has b (bindings nat')
Same-keeps {b = b} s h = subst {A = List Binding} (Has b) (sym s.bound) h

step-keeps :
    (mem : Headers) (nat nat' : Nat) (now : ℕ) (c : Call) (b : Binding)
    → is_sweep c ≡ false
    → step mem nat (now, c) ≡ some nat'
    → Has b (bindings nat)
    → Has b (bindings nat')
unfolding step sr_nat_lookup_external sr_nat_lookup_internal nat_lookup_external_no_lock
    nat_lookup_internal_no_lock
step-keeps mem nat nat' now (looks_external aux type) b q e h =
    subst {A = Nat} (λ n. Has b (bindings n)) (some_inj _ _ e)
      (Same-keeps (lookup-Same nat (is_external aux type) now) h)
step-keeps mem nat nat' now (looks_internal ip aux type) b q e h =
    subst {A = Nat} (λ n. Has b (bindings n)) (some_inj _ _ e)
      (Same-keeps (lookup-Same nat (is_internal ip aux type) now) h)
step-keeps mem nat nat' now (inserts ip aux type) b q e h =
    subst {A = Nat} (λ n. Has b (bindings n)) (some_inj _ _ e)
      (insert-keeps nat ip aux type now b h)
step-keeps mem nat nat' now (sends ip_hdr tcp_hdr) b q e h =
    Same-keeps (sent-Same mem nat nat' ip_hdr tcp_hdr now e) h
step-keeps mem nat nat' now (receives ip_hdr tcp_hdr) b q e h =
    subst {A = Nat} (λ n. Has b (bindings n)) (some_inj _ _ e)
      (Same-keeps (recvd-Same nat ip_hdr tcp_hdr now) h)
step-keeps mem nat nat' now (sees_syn ip_ptr ip_hdr tcp_hdr) b q e h =
    Same-keeps (syn-Same mem nat nat' ip_ptr ip_hdr tcp_hdr now e) h
step-keeps mem nat nat' now sweeps b q e h = absurd (ground (arith, q))

pub run-keeps :
    (mem : Headers) (cs : List (ℕ × Call)) (nat nat' : Nat) (b : Binding)
    → NoSweep cs
    → run mem nat cs ≡ some nat'
    → Has b (bindings nat)
    → Has b (bindings nat')
unfolding run
run-keeps mem [] nat nat' b q e h = subst {A = Nat} (λ n. Has b (bindings n)) (some_inj _ _ e) h
run-keeps mem (c ∷ cs) nat nat' b (q, qs) e h = elim (Option-cases (step mem nat c)) [
  | inl f ↦ absurd (ground (arith, e, f))
  | inr (mid, f) ↦
      run-keeps mem cs mid nat' b qs (ground (arith, e, f)) (step-keeps mem nat mid c.0 c.1 b q f h)
]
