-- ===== src/Tcp/Sender/Chunks.antt =====
-- What the sender of reliable.c makes of its local input: the payloads of its packets, in order.
use stanford.Prelude.{
  ℕ, ◌+◌, ◌-◌, ◌≤◌, ◌<◌, ◌≡◌, refl, sym, ap, ◌∙◌, inl, inr, ◌⊎◌, List, [], ◌∷◌, ◌++◌, arith, length,
  take, get_or,
}
use stanford.Wire.Order.{htons-htons, htonl-htonl}
use stanford.Tcp.Packet.{Packet, bytes_of, seal, pkt_ntoh, pkt_hton}
use stanford.Tcp.Packet.RoundTrip.{wire}
use stanford.Tcp.Conn.{OsRead}

-- A script of `read` cut into payloads: each result makes a packet, and the end of the file an empty
-- one, which is the last.
abbrev pub input_chunks : List OsRead → List (List ℕ)
input_chunks [] = []
input_chunks (OsRead.got [] ∷ rs) = [] ∷ []
input_chunks (OsRead.got (b ∷ bs) ∷ rs) = take 500 (b ∷ bs) ∷ input_chunks rs
input_chunks (OsRead.blocked ∷ rs) = input_chunks rs
input_chunks (OsRead.failed ∷ rs) = [] ∷ []

-- The payload of packet `n`.
abbrev pub chunk : List OsRead → ℕ → List ℕ
chunk script n = get_or (input_chunks script) (n - 1) []

-- A packet that carries the payload of its number.
pub record Carries (script : List OsRead) (pkt : Packet) : Type 0 where
  pub len : pkt.len ≡ 12 + length pkt.payload
  pub payload : pkt.payload ≡ chunk script pkt.seqno
  pub short : length pkt.payload ≤ 500
  pub first : 1 ≤ pkt.seqno
  pub there : pkt.seqno ≤ length (input_chunks script)
  pub ackno : pkt.ackno < 4294967296

-- An entry of the send window: not written yet, or such a packet.
abbrev pub Entry : List OsRead → Packet → Type 0
Entry script pkt = (pkt.len ≡ 0) ⊎ Carries script pkt

-- What is on the network: nothing, or the bytes of such a packet.
abbrev pub Wired : List OsRead → List ℕ → Type 0
Wired script bytes = (bytes ≡ []) ⊎ ((pkt : Packet) × Carries script pkt × (bytes ≡ wire pkt))

pub Entry-Wired : (script : List OsRead) (pkt : Packet) → Entry script pkt → Wired script (wire pkt)
Entry-Wired script pkt (inl e) = inl (ap (λ n. take n (bytes_of (seal pkt))) e)
Entry-Wired script pkt (inr h) = inr (pkt, h, refl)

-- Sealing and converting back in place keeps what a packet carries.
resealed :
    (pkt : Packet)
    → pkt.len < 65536
    → pkt.ackno < 4294967296
    → pkt.seqno < 4294967296
    → let q = pkt_ntoh (seal pkt) in
      (q.len ≡ pkt.len) × (q.ackno ≡ pkt.ackno) × (q.seqno ≡ pkt.seqno) × (q.payload ≡ pkt.payload)
unfolding pkt_ntoh seal pkt_hton
resealed pkt l a s =
    ground (arith, htons-htons pkt.len l, htonl-htonl pkt.ackno a, htonl-htonl pkt.seqno s)

resealed_len : (pkt : Packet) → pkt.len < 65536 → (pkt_ntoh (seal pkt)).len ≡ pkt.len
unfolding pkt_ntoh seal pkt_hton
resealed_len pkt l = htons-htons pkt.len l

pub resealed-Entry :
    (script : List OsRead) (pkt : Packet)
    → length (input_chunks script) < 4294967296
    → Entry script pkt
    → Entry script (pkt_ntoh (seal pkt))
resealed-Entry script pkt few (inl e) = inl (resealed_len pkt (omega arith) ∙ e)
resealed-Entry script pkt few (inr h) =
    let (l, a, s, p) =
      resealed pkt (omega (arith, h.len, h.short)) h.ackno (omega (arith, h.there)) in
    inr (record {
      len = l ∙ h.len ∙ ap (λ (xs : List ℕ). 12 + length xs) (sym p);
      payload = p ∙ h.payload ∙ ap (chunk script) (sym s);
      short = omega (arith, ap length p, h.short);
      first = omega (arith, s, h.first);
      there = omega (arith, s, h.there);
      ackno = omega (arith, a, h.ackno);
    })

-- The entry behind some others.
pub get_or-append : (xs ys : List (List ℕ)) (y : List ℕ) → get_or (xs ++ y ∷ ys) (length xs) [] ≡ y
get_or-append [] ys y = refl
get_or-append (x ∷ xs) ys y = get_or-append xs ys y
