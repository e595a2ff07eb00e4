-- ===== src/Tcp/Session/Timer.antt =====
-- `rel_timer` of reliable.c: each session is looked at once, and the finished ones are given up.
use stanford.Prelude.{
  ℕ, ◌≤◌, ◌≡◌, ◌↔◌, refl, inl, inr, Bool, true, false, some, List, [], ◌∷◌, arith, All, Bool-cases,
  Option-cases, if◌then◌else◌,
}
use stanford.Tcp.Conn.{Conn, conn_destroy, conn_sendpkt}
use stanford.Tcp.State.{Rel, add32, has_unackd_pkts, has_buffered_pkts}
use stanford.Tcp.Sender.{send_data_pkt, retransmit_pkt}
use stanford.Tcp.Session.{Sessions, should_close_conn, rel_timer}

-- Both sides have ended, all that was sent is acknowledged, and nothing received is still held back.
pub record IsDone (r : Rel) : Type 0 where
  pub ended : r.last_pkt_recvd_eof ≡ true
  pub read : r.read_eof ≡ true
  pub acked : add32 r.last_seqno_sent 1 ≡ r.last_ackno_recvd
  pub output : r.last_seqno_recvd ≤ r.last_ackno_sent

should_close_conn-IsDone : (r : Rel) → (should_close_conn r ≡ true) ↔ IsDone r
unfolding should_close_conn has_unackd_pkts has_buffered_pkts
should_close_conn-IsDone r = (
  λ e. record {
    ended = ground (arith, e);
    read = ground (arith, e);
    acked = ground (arith, e);
    output = ground (arith, e);
  },
  λ d. ground (arith, d),
)

-- The sessions that stay and the connections that are given up, both in the order of the list.
pub data Ticked (now : ℕ) : List Rel → List Rel → List Conn → Type 0 where
  none_left : Ticked now [] [] []
  kept :
      {r r' : Rel} {rs ks : List Rel} {ds : List Conn}
      → retransmit_pkt r now ≡ some r'
      → ¬ IsDone r'
      → Ticked now rs ks ds
      → Ticked now (r ∷ rs) (r' ∷ ks) ds
  closed :
      {r r' : Rel} {rs ks : List Rel} {ds : List Conn}
      → retransmit_pkt r now ≡ some r'
      → IsDone r'
      → Ticked now rs ks ds
      → Ticked now (r ∷ rs) ks (conn_destroy r'.c ∷ ds)

abbrev pub IsAlive : Rel → Type 0
IsAlive r = r.c.delete_me ≡ false

retransmit_pkt-returns :
    (r : Rel) (now : ℕ) → IsAlive r → (r' : Rel) × (retransmit_pkt r now ≡ some r')
unfolding retransmit_pkt send_data_pkt conn_sendpkt
retransmit_pkt-returns r now al = elim (Option-cases (retransmit_pkt r now)) [
  | inl e ↦ absurd (ground (arith, e, al))
  | inr (r', e) ↦ (r', e)
]

rel_timer_step :
    (r r' : Rel) (rs : List Rel) (now : ℕ) (s : Sessions) (b : Bool)
    → retransmit_pkt r now ≡ some r'
    → rel_timer rs now ≡ some s
    → should_close_conn r' ≡ b
    → rel_timer (r ∷ rs) now ≡ (
        if b
        then some (record s { destroyed = conn_destroy r'.c ∷ s.destroyed })
        else some (record s { rel_list = r' ∷ s.rel_list }))
unfolding rel_timer
rel_timer_step r r' rs now s b e f g = ground (arith, e, f, g)

-- On sessions whose connections are not deleted, `rel_timer` returns. It hands each session to
-- `retransmit_pkt` once, and closes exactly those for which then both sides have ended, all that was
-- sent is acknowledged and nothing that was received is held back; the others stay, in their order.
pub rel_timer-Ticked :
    (rs : List Rel) (now : ℕ)
    → All IsAlive rs
    → (s : Sessions) × (rel_timer rs now ≡ some s) × Ticked now rs s.rel_list s.destroyed
unfolding rel_timer
rel_timer-Ticked [] now al = (record { rel_list = []; destroyed = [] }, refl, none_left)
rel_timer-Ticked (r ∷ rs) now al =
    let (r', e) = retransmit_pkt-returns r now al.0 in
    let (s, f, t) = rel_timer-Ticked rs now al.1 in
    elim (Bool-cases (should_close_conn r')) [
      | inl g ↦ (
        record s { destroyed = conn_destroy r'.c ∷ s.destroyed },
        rel_timer_step r r' rs now s true e f g,
        closed e ((should_close_conn-IsDone r').0 g) t,
      )
      | inr g ↦ (
        record s { rel_list = r' ∷ s.rel_list },
        rel_timer_step r r' rs now s false e f g,
        kept e (λ d. let h = (should_close_conn-IsDone r').1 d in cc) t,
      )
    ]
