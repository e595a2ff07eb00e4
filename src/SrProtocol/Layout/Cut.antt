-- ===== src/SrProtocol/Layout/Cut.antt =====
-- The bytes of a frame of which a part is read, and where its addresses lie in them.
use stanford.Prelude.{
  ℕ, zero, suc, ◌+◌, ◌-◌, ◌≤◌, ◌≡◌, refl, some, List, [], ◌∷◌, ◌++◌, arith, length, take, drop, ap,
  ◌∙◌, le→leb, length-append,
}
use stanford.Wire.{le16}
use stanford.SrProtocol.{IpHdr, EthHdr, IpFrame}
use stanford.SrProtocol.Layout.{ip_bytes, eth_bytes, read_bytes}
use stanford.SrProtocol.Layout.RoundTrip.{Six, six, length-ip_bytes}

-- The header's length is that of memory that is there.
pub record IsWhole (f : IpFrame) : Type 0 where
  pub header : 20 ≤ f.ip.ip_len
  pub there : f.ip.ip_len ≤ 20 + length f.payload

pub take-over :
    (n : ℕ) (xs ys : List ℕ) → length xs ≤ n → take n (xs ++ ys) ≡ xs ++ take (n - length xs) ys
take-over n [] ys h = ap (λ k. take k ys) (omega arith)
take-over zero (x ∷ xs) ys h = absurd (omega (arith, h))
take-over (suc n) (x ∷ xs) ys h =
    ap (λ l. x ∷ l) (take-over n xs ys (omega (arith, h)) ∙ ap (λ k. xs ++ take k ys) (omega arith))

pub length-Six : (xs : List ℕ) → Six xs → length xs ≡ 6
length-Six xs (six a b c d e f) = refl

pub take-Six : (xs : List ℕ) → Six xs → take 6 xs ≡ xs
take-Six xs (six a b c d e f) = refl

pub length-eth_bytes :
    (e : EthHdr) → Six e.ether_dhost → Six e.ether_shost → length (eth_bytes e) ≡ 14
unfolding le16
length-eth_bytes e d s = ground (
  arith,
  length-Six e.ether_dhost d,
  length-Six e.ether_shost s,
  length-append e.ether_dhost (e.ether_shost ++ le16 e.ether_type),
  length-append e.ether_shost (le16 e.ether_type),
)

pub read_bytes-part : (n : ℕ) (xs : List ℕ) → n ≤ length xs → read_bytes n xs ≡ some (take n xs)
unfolding read_bytes
read_bytes-part n xs h = rw (le→leb n (length xs) h) refl

pub source_bytes :
    (d s t rest : List ℕ) → Six d → Six s → take 6 (drop 6 ((d ++ (s ++ t)) ++ rest)) ≡ s
source_bytes d s t rest (six a0 a1 a2 a3 a4 a5) (six b0 b1 b2 b3 b4 b5) = refl

-- A read of the two headers and of part of what follows them.
pub read_bytes-frame :
    (e : EthHdr) (h : IpHdr) (p : List ℕ) (len : ℕ)
    → Six e.ether_dhost
    → Six e.ether_shost
    → 20 ≤ len
    → len ≤ 20 + length p
    → read_bytes (14 + len) (eth_bytes e ++ (ip_bytes h ++ p))
      ≡ some (eth_bytes e ++ (ip_bytes h ++ take (len - 20) p))
read_bytes-frame e h p len d s header there =
    let eb = eth_bytes e in
    let ib = ip_bytes h in
    let len_e = length-eth_bytes e d s in
    let len_i = length-ip_bytes h in
    let n = 14 + len in
    read_bytes-part n (eb ++ (ib ++ p))
      (omega (arith, there, len_e, len_i, length-append eb (ib ++ p), length-append ib p))
    ∙ ap some (
        take-over n eb (ib ++ p) (omega (arith, len_e))
        ∙ ap (λ l. eb ++ l)
            (take-over (n - length eb) ib p (omega (arith, len_e, len_i, header))
              ∙ ap (λ k. ib ++ take k p) (omega (arith, len_e, len_i))))
