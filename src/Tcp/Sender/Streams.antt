-- ===== src/Tcp/Sender/Streams.antt =====
-- The sender of reliable.c sends its local input: what it does with each piece that it reads.
use stanford.Prelude.{
  ℕ, zero, suc, ◌<◌, ◌≡◌, refl, sym, ap, ◌∙◌, inl, inr, List, [], ◌∷◌, ◌++◌, arith, length, get_or,
  set, All, some, none, false, Leads, bind-Leads, if◌then◌else◌, subst, Bool-cases, some_inj,
}
use stanford.Tcp.Packet.{Packet, seal, pkt_ntoh}
use stanford.Tcp.Packet.RoundTrip.{wire}
use stanford.Tcp.Conn.{Conn, Ret, OsRead, OsSend, os_send, send_wire, conn_sendpkt}
use stanford.Tcp.State.{Rel}
use stanford.Tcp.Sender.{send_data_pkt}
use stanford.Tcp.Sender.Chunks.{input_chunks, Entry, Wired, Entry-Wired}

-- What is still to be read.
abbrev pub left : Rel → List (List ℕ)
left r = if r.read_eof then [] else input_chunks r.c.reads

-- The packets made so far, then the payloads `extra` that were just read, then what is to be read,
-- make the script; and all that is in the window or on the network is of the script.
pub record Streams (script : List OsRead) (extra : List (List ℕ)) (r : Rel) : Type 0 where
  pub made : List (List ℕ)
  pub split : made ++ (extra ++ left r) ≡ input_chunks script
  pub count : length made ≡ r.last_seqno_sent
  pub eof : r.read_eof ≡ false → r.c.read_eof ≡ false
  pub entries : All (Entry script) r.pkts_sent
  pub wires : All (Wired script) r.c.network
  pub ackno : r.last_ackno_sent < 4294967296

pub All-set {ℓ κ} :
    {A : Type ℓ} (P : A → Type κ) (xs : List A) (i : ℕ) (v : A)
    → All P xs
    → P v
    → All P (set xs i v)
All-set P [] i v h p = h
All-set P (x ∷ xs) zero v h p = (p, h.1)
All-set P (x ∷ xs) (suc i) v h p = (h.0, All-set P xs i v h.1 p)

pub All-get_or {ℓ κ} :
    {A : Type ℓ} (P : A → Type κ) (xs : List A) (i : ℕ) (d : A) → All P xs → P d → P (get_or xs i d)
All-get_or P [] i d h p = p
All-get_or P (x ∷ xs) zero d h p = h.0
All-get_or P (x ∷ xs) (suc i) d h p = All-get_or P xs i d h.1 p

All-snoc {ℓ κ} :
    {A : Type ℓ} (P : A → Type κ) (xs : List A) (x : A) → All P xs → P x → All P (xs ++ x ∷ [])
All-snoc P [] x h p = (p, tt)
All-snoc P (y ∷ xs) x h p = (h.0, All-snoc P xs x h.1 p)

-- What sending bytes does to a connection.
record SentOn (P : List ℕ → Type 0) (c c' : Conn) : Type 0 where
  reads : c'.reads ≡ c.reads
  eof : c'.read_eof ≡ c.read_eof
  network : All P c'.network

send_wire-SentOn :
    (P : List ℕ → Type 0) (c : Conn) (bytes : List ℕ) (w : OsSend × List OsSend)
    → All P c.network
    → P bytes
    → SentOn P c (send_wire c bytes w).0
unfolding send_wire
send_wire-SentOn P c bytes (OsSend.sent, ss) h p = record {
  reads = refl;
  eof = refl;
  network = All-snoc P c.network bytes h p;
}
send_wire-SentOn P c bytes (OsSend.dropped, ss) h p = record {
  reads = refl;
  eof = refl;
  network = h;
}
send_wire-SentOn P c bytes (OsSend.failed, ss) h p = record {
  reads = refl;
  eof = refl;
  network = h;
}

conn_sendpkt-SentOn :
    (P : List ℕ → Type 0) (c : Conn) (bytes : List ℕ) (s : Conn × Ret)
    → conn_sendpkt c bytes ≡ some s
    → All P c.network
    → P bytes
    → SentOn P c s.0
unfolding conn_sendpkt
conn_sendpkt-SentOn P c bytes s e h p = elim (Bool-cases c.delete_me) [
  | inl d ↦ let q : none ≡ some s = sym (ground (arith, d)) ∙ e in cc
  | inr d ↦
      subst (λ x. SentOn P c x.0)
        (some_inj (send_wire c bytes (os_send c.sends)) s (ground (arith, d, e)))
        (send_wire-SentOn P c bytes (os_send c.sends) h p)
]

-- The same session over a connection that has sent something.
sent-Streams :
    (script : List OsRead) (extra : List (List ℕ)) (r : Rel) (c' : Conn)
    → Streams script extra r
    → SentOn (Wired script) r.c c'
    → Streams script extra (record r { c = c' })
sent-Streams script extra r c' v s = record {
  made = v.made;
  split =
      ap (λ (rs : List OsRead). v.made ++ (extra ++ (if r.read_eof then [] else input_chunks rs)))
        s.reads
      ∙ v.split;
  count = v.count;
  eof = λ e. s.eof ∙ v.eof e;
  entries = v.entries;
  wires = s.network;
  ackno = v.ackno;
}

-- `send_data_pkt` puts an entry of the window on the network.
pub send_data_pkt-Streams :
    (script : List OsRead) (extra : List (List ℕ)) (r : Rel) (pkt : Packet)
    → Streams script extra r
    → Entry script pkt
    → Leads (λ s. Streams script extra s.0 × (s.1 ≡ pkt_ntoh (seal pkt))) (send_data_pkt r pkt)
unfolding send_data_pkt
send_data_pkt-Streams script extra r pkt v h =
    bind-Leads (λ s. Streams script extra s.0 × (s.1 ≡ pkt_ntoh (seal pkt)))
      (conn_sendpkt r.c (wire pkt)) (λ s. some (record r { c = s.0 }, pkt_ntoh (seal pkt)))
      (λ s e. (
        sent-Streams script extra r s.0 v (
            conn_sendpkt-SentOn (Wired script) r.c (wire pkt) s e v.wires
              (Entry-Wired script pkt h)),
        refl,
      ))
