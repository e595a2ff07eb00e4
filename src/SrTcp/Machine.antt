-- ===== src/SrTcp/Machine.antt =====
-- What the tracked state of a connection tells of the segments that went by, for the state machine
-- of sr_tcp.c started as `sr_nat_update_tcp_sent_state` starts it, in TCP_CLOSE.
use stanford.Prelude.{
  ℕ, ◌≤◌, ◌≡◌, ◌≢◌, refl, Bool, true, false, not, ◌&&◌, ◌||◌, List, [], ◌∷◌, arith, ◌==◌,
}
use stanford.SrProtocol.{TcpHdr}
use stanford.SrTcp.{tcp_close, tcp_time_wait, tcp_listen, sr_get_tcp_transition}

-- A segment, and whether it was sent from the inside.
abbrev pub Segment : Type 0
Segment = TcpHdr × Bool

unfoldable pub run : ℕ → List Segment → ℕ
run s [] = s
run s ((hdr, sent) ∷ rest) = run (sr_get_tcp_transition hdr s sent) rest

abbrev pub any_segment : (Segment → Bool) → List Segment → Bool
any_segment p [] = false
any_segment p (x ∷ xs) = p x || any_segment p xs

abbrev pub is_sent_syn : Segment → Bool
is_sent_syn (hdr, sent) = hdr.syn && sent

abbrev pub is_sent_fin : Segment → Bool
is_sent_fin (hdr, sent) = hdr.fin && sent

abbrev pub is_recvd_fin : Segment → Bool
is_recvd_fin (hdr, sent) = hdr.fin && not sent

-- FIN_WAIT1, FIN_WAIT2, TIME_WAIT, LAST_ACK, CLOSING.
abbrev pub has_sent_fin : ℕ → Bool
has_sent_fin s = s == 4 || (s == 5 || (s == 6 || (s == 9 || s == 11)))

-- FIN_WAIT2, TIME_WAIT, CLOSE_WAIT, LAST_ACK, CLOSING.
abbrev pub has_recvd_fin : ℕ → Bool
has_recvd_fin s = s == 5 || (s == 6 || (s == 8 || (s == 9 || s == 11)))

-- What a state claims, given whether a SYN and a FIN were sent and a FIN was received.
pub record Explained (syn_out fin_out fin_in : Bool) (s : ℕ) : Type 0 where
  pub low : 1 ≤ s
  pub high : s ≤ 11
  pub not_listen : s ≢ tcp_listen
  pub opened : s ≢ tcp_close → syn_out ≡ true
  pub closing_out : has_sent_fin s ≡ true → fin_out ≡ true
  pub closing_in : has_recvd_fin s ≡ true → fin_in ≡ true

abbrev merge : Bool → Bool → Bool
merge a b = a || b

step-Explained :
    (a b c : Bool) (s : ℕ) (hdr : TcpHdr) (sent : Bool)
    → Explained a b c s
    → Explained
        (merge a (hdr.syn && sent))
        (merge b (hdr.fin && sent))
        (merge c (hdr.fin && not sent))
        (sr_get_tcp_transition hdr s sent)
unfolding sr_get_tcp_transition
step-Explained a b c s hdr sent e = ground arith

or_assoc : (a b c : Bool) → ((a || b) || c) ≡ (a || (b || c))
or_assoc a b c = ground arith

or_false : (a : Bool) → (a || false) ≡ a
or_false a = ground arith

run-Explained_from :
    (a b c : Bool) (s : ℕ) (segs : List Segment)
    → Explained a b c s
    → Explained
        (a || any_segment is_sent_syn segs)
        (b || any_segment is_sent_fin segs)
        (c || any_segment is_recvd_fin segs)
        (run s segs)
unfolding run
run-Explained_from a b c s [] e = simp or_false e
run-Explained_from a b c s ((hdr, sent) ∷ rest) e = simp (← or_assoc) (
    run-Explained_from (a || hdr.syn && sent) (b || hdr.fin && sent) (c || hdr.fin && not sent)
      (sr_get_tcp_transition hdr s sent) rest (step-Explained a b c s hdr sent e))

-- Whatever segments go by, the state tracked from TCP_CLOSE on is one of the named states other than
-- TCP_LISTEN; it is not TCP_CLOSE only if a SYN was sent from the inside; it is FIN_WAIT1,
-- FIN_WAIT2, TIME_WAIT, LAST_ACK or CLOSING only if a FIN was sent from the inside; and it is
-- FIN_WAIT2, TIME_WAIT, CLOSE_WAIT, LAST_ACK or CLOSING only if a FIN came from the outside.
pub run-Explained :
    (segs : List Segment)
    → Explained
        (any_segment is_sent_syn segs)
        (any_segment is_sent_fin segs)
        (any_segment is_recvd_fin segs)
        (run tcp_close segs)
run-Explained segs = run-Explained_from false false false tcp_close segs (ground arith)

-- Once TIME_WAIT is reached the tracked state never changes again.
pub run-time_wait : (segs : List Segment) → run tcp_time_wait segs ≡ tcp_time_wait
unfolding run sr_get_tcp_transition
run-time_wait [] = refl
run-time_wait ((hdr, sent) ∷ rest) = run-time_wait rest
