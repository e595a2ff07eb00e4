-- ===== src/Tcp/Receiver/Runs.antt =====
-- Runs of a session of reliable.c: whatever else happens between the data packets, the receiver is in
-- step with the peer's stream.
use stanford.Prelude.{
  some_inj, ℕ, ◌-◌, ◌≤◌, ◌<◌, ◌≡◌, ◌≢◌, sym, ◌∙◌, some, List, [], arith, Option, ℕ_discrete, subst,
}
use stanford.Tcp.Packet.{Packet}
use stanford.Tcp.Conn.{Conn, OsSend, os_send, conn_drain}
use stanford.Tcp.Conn.Stream.{stream}
use stanford.Tcp.Conn.Healthy.{Healthy}
use stanford.Tcp.State.{Rel, Config, Sockaddr, new_rel}
use stanford.Tcp.Sender.{rel_read, process_ack_pkt, retransmit_pkt}
use stanford.Tcp.Sender.Apart.{Still, Stays}
use stanford.Tcp.Sender.Apart.Calls.{rel_read-Stays, process_ack_pkt-Stays, retransmit_pkt-Stays}
use stanford.Tcp.Receiver.{process_data_pkt, drain_then_output}
use stanford.Tcp.Receiver.Reassembly.{stretch, Holds, HasRoom}
use stanford.Tcp.Receiver.Receives.{
  Quiet-Advanced, process_data_pkt-Advanced, process_data_pkt-next,
}
use stanford.Tcp.Receiver.Drained.{
  Receiving, drained-Receiving, drain_then_output_lem, new_rel-Receiving,
}

-- If the receiver has room for a window of packets and the network takes the next acknowledgement,
-- then `process_data_pkt` returns on every data packet of the stream, whatever its number: early,
-- late or repeated. The output stays the stream's payloads, in order, up to the number acknowledged,
-- which does not fall; and it grows if the packet is the one that the receiver waits for.
pub process_data_pkt-Receiving :
    (sent : ℕ → List ℕ) (r : Rel) (pkt : Packet)
    → Receiving sent r
    → HasRoom r
    → Holds sent pkt.seqno pkt
    → (os_send r.c.sends).0 ≢ OsSend.failed
    → (r' : Rel) × (process_data_pkt r pkt ≡ some r')
      × Receiving sent r'
      × (r.last_ackno_sent ≤ r'.last_ackno_sent)
      × (pkt.seqno ≡ r.last_ackno_sent → r.last_ackno_sent < r'.last_ackno_sent)
process_data_pkt-Receiving sent r pkt v m h ne = elim (ℕ_discrete pkt.seqno r.last_ackno_sent) [
  | yes e ↦
      let (r', k, f, a, p) = process_data_pkt-next sent r pkt v.inv v.clear m h ne e in
      (
        r',
        f,
        record { inv = a.inv; clear = a.clear },
        omega (arith, a.acked),
        λ _. omega (arith, a.acked),
      )
  | no other ↦
      let (r', k, f, a) = process_data_pkt-Advanced sent r pkt v.inv v.clear m h ne in
      (
        r',
        f,
        record { inv = a.inv; clear = a.clear },
        omega (arith, a.acked),
        λ e. absurd (other e),
      )
]

-- What may happen to a session: a data packet of the stream arrives, in any order and any number of
-- times; the local side takes output; there is local input; an acknowledgement arrives; the timer
-- ticks.
pub data Step (sent : ℕ → List ℕ) : Rel → Rel → Type 0 where
  arrives :
      {r r' : Rel} (pkt : Packet)
      → HasRoom r
      → Holds sent pkt.seqno pkt
      → (os_send r.c.sends).0 ≢ OsSend.failed
      → process_data_pkt r pkt ≡ some r'
      → Step sent r r'
  drains :
      {r r' : Rel} → r.last_ackno_sent < 4294967296 → drain_then_output r ≡ some r' → Step sent r r'
  reads : {r r' : Rel} (now : ℕ) → rel_read r now ≡ some r' → Step sent r r'
  acks :
      {r r' : Rel} (pkt : Packet) (now : ℕ) → process_ack_pkt r pkt now ≡ some r' → Step sent r r'
  ticks : {r r' : Rel} (now : ℕ) → retransmit_pkt r now ≡ some r' → Step sent r r'

pub data Reach (sent : ℕ → List ℕ) (r : Rel) : Rel → Type 0 where
  here : Reach sent r r
  next : {r' r'' : Rel} → Reach sent r r' → Step sent r' r'' → Reach sent r r''

Stays-Receiving :
    (sent : ℕ → List ℕ) (r r' : Rel) (o : Option Rel)
    → Stays r o
    → o ≡ some r'
    → Receiving sent r
    → Receiving sent r'
Stays-Receiving sent r r' o st e v =
    let still : Still r r' = subst (Stays r) e st in
    let a = Quiet-Advanced sent r r' v.inv v.clear still.quiet still.acked in
    record { inv = a.inv; clear = a.clear }

pub same_result :
    (sent : ℕ → List ℕ) (r r' : Rel) (o : Option Rel)
    → o ≡ some r
    → o ≡ some r'
    → Receiving sent r
    → Receiving sent r'
same_result sent r r' o e f v = subst (Receiving sent) (some_inj _ _ (sym e ∙ f)) v

Step-Receiving :
    {sent : ℕ → List ℕ} {r r' : Rel} → Step sent r r' → Receiving sent r → Receiving sent r'
Step-Receiving {sent} {r} {r'} (arrives pkt m h ne e) v =
    let (q, f, w, _, _) = process_data_pkt-Receiving sent r pkt v m h ne in
    same_result sent q r' (process_data_pkt r pkt) f e w
Step-Receiving {sent} {r} {r'} (drains lt e) v =
    same_result sent (record r { c = (conn_drain r.c).0 }) r' (drain_then_output r)
      (drain_then_output_lem sent r v lt) e (drained-Receiving sent r v)
Step-Receiving {sent} {r} {r'} (reads now e) v =
    Stays-Receiving sent r r' (rel_read r now) (rel_read-Stays r now) e v
Step-Receiving {sent} {r} {r'} (acks pkt now e) v =
    Stays-Receiving sent r r' (process_ack_pkt r pkt now) (process_ack_pkt-Stays r pkt now) e v
Step-Receiving {sent} {r} {r'} (ticks now e) v =
    Stays-Receiving sent r r' (retransmit_pkt r now) (retransmit_pkt-Stays r now) e v

pub Reach-Receiving :
    {sent : ℕ → List ℕ} {r r' : Rel} → Reach sent r r' → Receiving sent r → Receiving sent r'
Reach-Receiving here v = v
Reach-Receiving (next h s) v = Step-Receiving s (Reach-Receiving h v)

-- A new session on a connection that has delivered nothing, with its output open and no failing
-- `write`, gets data packets of the peer's stream in any order, some of them never, some several
-- times, while output is taken, local input is read, acknowledgements arrive and the timer ticks in
-- between; each data packet arrives with room for a window of packets, and the acknowledgement that it
-- causes is not refused by the network. Then what the local side has got, or has queued, is
-- just the payloads of the packets before the number last acknowledged, each once and in order.
pub Reach-in_order :
    (sent : ℕ → List ℕ) (c : Conn) (ss : Sockaddr) (cfg : Config) (r : Rel)
    → stream c ≡ []
    → Healthy c
    → 0 < cfg.window
    → Reach sent (new_rel c ss cfg) r
    → stream r.c ≡ stretch sent 1 (r.last_ackno_sent - 1)
Reach-in_order sent c ss cfg r e h w steps =
    (Reach-Receiving steps (new_rel-Receiving sent c ss cfg e h w)).inv.delivered
