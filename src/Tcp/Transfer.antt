-- ===== src/Tcp/Transfer.antt =====
-- The two ends of the transport together: a session of reliable.c that sends its local input, a network
-- that loses, repeats, delays and reorders what was sent, and a session that receives it.
mod Datagrams
use stanford.Prelude.{
  ℕ, zero, suc, ◌+◌, ◌-◌, ◌≤◌, ◌<◌, ◌≡◌, ◌≢◌, refl, sym, ap, ap₂, ◌∙◌, inl, inr, ◌⊎◌, Bool, true,
  false, Option, none, some, List, [], ◌∷◌, ◌++◌, arith, length, take, get_or, All, replicate,
  Leads, subst, take-length, some_inj,
}
use stanford.Tcp.Packet.{
  Packet, data_packet, invalid_packet, blank, bytes_of, seal, read_pkt, pkt_ntoh, get_pkt_type,
}
use stanford.Tcp.Packet.RoundTrip.{
  wire, read-wire, sealed-type, sealed-fields, wire-seal, length-bytes_of, seal-payload,
}
use stanford.Tcp.Conn.{Conn, OsRead, OsSend, os_send}
use stanford.Tcp.Conn.Stream.{stream}
use stanford.Tcp.Conn.Healthy.{Healthy}
use stanford.Tcp.State.{Rel, Config, Sockaddr, new_rel}
use stanford.Tcp.Sender.{rel_read, process_ack_pkt, retransmit_pkt}
use stanford.Tcp.Sender.Chunks.{input_chunks, chunk, Carries, Entry, Wired}
use stanford.Tcp.Sender.Streams.{Streams}
use stanford.Tcp.Sender.Sending.{rel_read-Streams, process_ack_pkt-Streams, retransmit_pkt-Streams}
use stanford.Tcp.Receiver.{process_data_pkt, drain_then_output}
use stanford.Tcp.Receiver.Deliver.{body}
use stanford.Tcp.Receiver.Reassembly.{stretch, Holds, HasRoom}
use stanford.Tcp.Receiver.Drained.{Receiving, new_rel-Receiving}
use stanford.Tcp.Receiver.Runs.{Step, arrives, drains, Reach, here, next, Reach-in_order}
use stanford.Tcp.Session.{process_pkt, rel_recvpkt}
use stanford.Tcp.Transfer.Datagrams.{datagram-Step}

-- The sender reads local input, gets acknowledgements, and sends again.
pub data Sends (s : Rel) : Rel → Type 0 where
  started : Sends s s
  reads : {r r' : Rel} (now : ℕ) → Sends s r → rel_read r now ≡ some r' → Sends s r'
  acks :
      {r r' : Rel} (pkt : Packet) (now : ℕ)
      → Sends s r
      → process_ack_pkt r pkt now ≡ some r'
      → Sends s r'
  ticks : {r r' : Rel} (now : ℕ) → Sends s r → retransmit_pkt r now ≡ some r' → Sends s r'

abbrev pub IsIn : List ℕ → List (List ℕ) → Type 0
IsIn x [] = ⊥
IsIn x (y ∷ ys) = (x ≡ y) ⊎ IsIn x ys

-- The receiver gets datagrams that were sent, each as often as the network likes, and passes output
-- on. `junk` is what its buffer holds behind a datagram. The EOF, which has no payload, is left out.
pub data Delivers (network : List (List ℕ)) (s : Rel) : Rel → Type 0 where
  started : Delivers network s s
  datagram :
      {r r' : Rel} (bytes junk : List ℕ) (now : ℕ)
      → Delivers network s r
      → IsIn bytes network
      → length bytes ≢ 12
      → HasRoom r
      → (os_send r.c.sends).0 ≢ OsSend.failed
      → rel_recvpkt r (read_pkt (bytes ++ junk)) (length bytes) now ≡ some r'
      → Delivers network s r'
  drained :
      {r r' : Rel}
      → Delivers network s r
      → r.last_ackno_sent < 4294967296
      → drain_then_output r ≡ some r'
      → Delivers network s r'

All-IsIn : (P : List ℕ → Type 0) (xs : List (List ℕ)) (x : List ℕ) → All P xs → IsIn x xs → P x
All-IsIn P [] x h m = absurd m
All-IsIn P (y ∷ ys) x h (inl e) = subst P (sym e) h.0
All-IsIn P (y ∷ ys) x h (inr m) = All-IsIn P ys x h.1 m

All-replicate-blank : (script : List OsRead) (n : ℕ) → All (Entry script) (replicate n blank)
All-replicate-blank script zero = tt
All-replicate-blank script (suc n) = (inl refl, All-replicate-blank script n)

new_rel-Streams :
    (c : Conn) (ss : Sockaddr) (cfg : Config)
    → c.read_eof ≡ false
    → c.network ≡ []
    → Streams c.reads [] (new_rel c ss cfg)
unfolding new_rel
new_rel-Streams c ss cfg e f = record {
  made = [];
  split = refl;
  count = refl;
  eof = λ _. e;
  entries = All-replicate-blank c.reads cfg.window;
  wires = subst (All (Wired c.reads)) (sym f) tt;
  ackno = omega arith;
}

Sends-Streams :
    {script : List OsRead} {s r : Rel}
    → length (input_chunks script) < 4294967296
    → Streams script [] s
    → Sends s r
    → Streams script [] r
Sends-Streams few v started = v
Sends-Streams {script} few v (reads {r} now h e) =
    subst (Leads (Streams script [])) e (rel_read-Streams script few r now (Sends-Streams few v h))
Sends-Streams {script} few v (acks {r} pkt now h e) =
    subst (Leads (Streams script [])) e
      (process_ack_pkt-Streams script few r pkt now (Sends-Streams few v h))
Sends-Streams {script} few v (ticks {r} now h e) =
    subst (Leads (Streams script [])) e
      (retransmit_pkt-Streams script few r now (Sends-Streams few v h))

module _ (script : List OsRead) (few : length (input_chunks script) < 4294967296) where
  Delivers-Reach :
      {network : List (List ℕ)} {s r : Rel}
      → All (Wired script) network
      → Delivers network s r
      → Reach (chunk script) s r
  Delivers-Reach w started = here
  Delivers-Reach {network} {s} w (datagram {r} {r'} bytes junk now h is_in ne m sent e) =
      onto r r' (Delivers-Reach w h) (
        datagram-Step script few r r' bytes junk now (All-IsIn (Wired script) network bytes w is_in)
          ne m sent e)
    where
      onto :
          (r r' : Rel)
          → Reach (chunk script) s r
          → (r ≡ r') ⊎ Step (chunk script) r r'
          → Reach (chunk script) s r'
      onto r r' h (inl q) = subst (Reach (chunk script) s) q h
      onto r r' h (inr st) = next h st
  Delivers-Reach w (drained h lt e) = next (Delivers-Reach w h) (drains lt e)

abbrev pub concat : List (List ℕ) → List ℕ
concat [] = []
concat (x ∷ xs) = x ++ concat xs

stretch-concat :
    (xs : List (List ℕ)) (sent : ℕ → List ℕ) (a k : ℕ)
    → ((i : ℕ) → sent (a + i) ≡ get_or xs i [])
    → stretch sent a k ≡ concat (take k xs)
stretch-concat xs sent a zero h = refl
stretch-concat [] sent a (suc k) h =
    ap₂ (λ (x y : List ℕ). x ++ y) (ap sent (omega arith) ∙ h 0)
      (stretch-concat [] sent (suc a) k (λ i. ap sent (omega arith) ∙ h (suc i))
        ∙ ap concat (take-nil k))
  where
    take-nil : (k : ℕ) → take {A = List ℕ} k [] ≡ []
    take-nil zero = refl
    take-nil (suc k) = refl
stretch-concat (x ∷ xs) sent a (suc k) h =
    ap₂ (λ (x y : List ℕ). x ++ y) (ap sent (omega arith) ∙ h 0)
      (stretch-concat xs sent (suc a) k (λ i. ap sent (omega arith) ∙ h (suc i)))

-- A new session on `a` sends its local input, of fewer than 2 ^ 32 pieces, gets any acknowledgements,
-- and sends again by the timer. A new session on `b`, which has delivered nothing and whose output is
-- open and never fails, gets any of the datagrams that were sent, in any order and as often as the
-- network likes, and passes output on in between. Each datagram arrives with room for a window of
-- packets, its acknowledgement is not refused by the network, and none is the EOF. Then what the
-- receiver's local side has got, or has queued, is what the sender read: its first `n` pieces, each
-- once and in order, where `n` + 1 is the number that the receiver last acknowledged.
pub Delivers-in_order :
    (a b : Conn) (to from : Sockaddr) (cfg : Config) (s r : Rel)
    → a.read_eof ≡ false
    → a.network ≡ []
    → length (input_chunks a.reads) < 4294967296
    → Sends (new_rel a to cfg) s
    → stream b ≡ []
    → Healthy b
    → 0 < cfg.window
    → Delivers s.c.network (new_rel b from cfg) r
    → stream r.c ≡ concat (take (r.last_ackno_sent - 1) (input_chunks a.reads))
Delivers-in_order a b to from cfg s r e f few sending q h w delivering =
    let v = Sends-Streams few (new_rel-Streams a to cfg e f) sending in
    Reach-in_order (chunk a.reads) b from cfg r q h w
      (Delivers-Reach a.reads few v.wires delivering)
    ∙ stretch-concat (input_chunks a.reads) (chunk a.reads) 1 (r.last_ackno_sent - 1)
        (λ i. ap (λ n. get_or (input_chunks a.reads) n []) (omega arith))
