-- ===== src/Tcp/Sender/Reading.antt =====
-- `send_new_data_pkt` of reliable.c makes the next packet of what was just read.
use mathlib.Core.List.{append_assoc}
use stanford.Prelude.{
  ℕ, ◌+◌, ◌≤◌, ◌<◌, ◌≡◌, sym, ap, ap₂, ◌∙◌, inr, List, [], ◌∷◌, ◌++◌, arith, length, take, get_or,
  Option, some, none, Leads, length-append, ◌>>=◌,
}
use stanford.Tcp.Packet.{Packet, blank, seal, pkt_ntoh, init_data_pkt}
use stanford.Tcp.Conn.{OsRead}
use stanford.Tcp.State.{Rel, add32, get_pkt_idx}
use stanford.Tcp.Sender.{add_pkt_to_send_window, send_data_pkt, send_new_data_pkt}
use stanford.Tcp.Sender.Chunks.{input_chunks, Carries, Entry, get_or-append}
use stanford.Tcp.Sender.Window.{init_data_pkt-seqno}
use stanford.Tcp.Sender.Streams.{left, Streams, All-set, send_data_pkt-Streams}

module _ (script : List OsRead) (few : length (input_chunks script) < 4294967296) where
  -- The packet made of the payload that was just read carries it.
  new-Carries :
      (r : Rel) (p buf : List ℕ) (n : ℕ)
      → Streams script (p ∷ []) r
      → p ≡ take n buf
      → length p ≡ n
      → n ≤ 500
      → Carries script (init_data_pkt blank r.last_ackno_sent (add32 r.last_seqno_sent 1) buf n)
  unfolding init_data_pkt
  new-Carries r p buf n v e l short =
      let total = ap (λ (xs : List (List ℕ)). length xs) v.split in
      let bound = length-append v.made (p ∷ left r) in
      let number : add32 r.last_seqno_sent 1 ≡ length v.made + 1 =
        omega (arith, v.count, total, bound) in
      record {
        len = omega (arith, l, ap (λ (xs : List ℕ). length xs) e);
        payload =
            sym e
            ∙ sym (get_or-append v.made (left r) p)
            ∙ ap₂ (λ (xs : List (List ℕ)) (i : ℕ). get_or xs i []) v.split (omega (arith, number));
        short = omega (arith, l, ap (λ (xs : List ℕ). length xs) e);
        first = omega (arith, number);
        there = omega (arith, number, total, bound);
        ackno = v.ackno;
      }

  added-Streams :
      (r : Rel) (p : List ℕ) (pkt : Packet) (now : ℕ)
      → Streams script (p ∷ []) r
      → Carries script pkt
      → pkt.seqno ≡ r.last_seqno_sent + 1
      → Streams script [] (add_pkt_to_send_window r pkt now)
  unfolding add_pkt_to_send_window
  added-Streams r p pkt now v h e = record {
    made = v.made ++ p ∷ [];
    split = append_assoc v.made (p ∷ []) (left r) ∙ v.split;
    count = ground (arith, length-append v.made (p ∷ []), v.count, e);
    eof = v.eof;
    entries = All-set (Entry script) r.pkts_sent (get_pkt_idx r pkt.seqno) pkt v.entries (inr h);
    wires = v.wires;
    ackno = v.ackno;
  }

  pub send_new-Streams :
      (r : Rel) (p buf : List ℕ) (n now : ℕ)
      → Streams script (p ∷ []) r
      → p ≡ take n buf
      → length p ≡ n
      → n ≤ 500
      → Leads (Streams script []) (send_new_data_pkt r buf n now)
  unfolding send_new_data_pkt
  send_new-Streams r p buf n now v e l short =
      let pkt = init_data_pkt blank r.last_ackno_sent (add32 r.last_seqno_sent 1) buf n in
      let h = new-Carries r p buf n v e l short in
      let w = added-Streams r p pkt now v h (number r p buf n v) in
      both (send_data_pkt (add_pkt_to_send_window r pkt now) pkt) (pkt_ntoh (seal pkt))
        (send_data_pkt-Streams script [] (add_pkt_to_send_window r pkt now) pkt w (inr h))
    where
      number :
          (r : Rel) (p buf : List ℕ) (n : ℕ)
          → Streams script (p ∷ []) r
          → (init_data_pkt blank r.last_ackno_sent (add32 r.last_seqno_sent 1) buf n).seqno
            ≡ r.last_seqno_sent + 1
      number r p buf n v =
          init_data_pkt-seqno blank r.last_ackno_sent (add32 r.last_seqno_sent 1) n buf
          ∙ omega (
            arith,
            v.count,
            ap (λ (xs : List (List ℕ)). length xs) v.split,
            length-append v.made (p ∷ left r),
          )

      both :
          (o : Option (Rel × Packet)) (q : Packet)
          → Leads (λ s. Streams script [] s.0 × (s.1 ≡ q)) o
          → Leads (Streams script []) (o >>= λ s. some s.0)
      both none q h = tt
      both (some s) q h = h.0
