-- ===== src/Tcp/Receiver/Reassembly.antt =====
-- The receiver of reliable.c against the stream that the peer sends: the numbered payloads in order.
use mathlib.Core.List.{append_assoc}
use stanford.Prelude.{
  ℕ, zero, suc, ◌+◌, ◌-◌, ◌*◌, ◌≤◌, ◌<◌, ◌≡◌, refl, ap, ap₂, ◌∙◌, inl, inr, Bool, true, false, List,
  [], ◌++◌, arith, length, get_or, subst, length-append, Bool-cases, dec_lt,
}
use stanford.Tcp.Packet.{Packet, blank}
use stanford.Tcp.Conn.{conn_bufspace}
use stanford.Tcp.Conn.Stream.{stream}
use stanford.Tcp.Conn.Healthy.{Healthy, conn_bufspace-le}
use stanford.Tcp.State.{Rel}
use stanford.Tcp.Receiver.Deliver.{ahead, body, payloads, IsWhole}
use stanford.Tcp.Receiver.InOrder.{Ready}

-- The payloads of the `k` packets from number `a` on, of a peer that sends `sent n` as number `n`.
abbrev pub stretch : (ℕ → List ℕ) → ℕ → ℕ → List ℕ
stretch sent a zero = []
stretch sent a (suc k) = sent a ++ stretch sent (suc a) k

pub stretch-add :
    (sent : ℕ → List ℕ) (a m k : ℕ)
    → stretch sent a m ++ stretch sent (a + m) k ≡ stretch sent a (m + k)
stretch-add sent a zero k = ap₂ (stretch sent) (omega arith) (omega arith)
stretch-add sent a (suc m) k =
    append_assoc (sent a) (stretch sent (suc a) m) (stretch sent (a + suc m) k)
    ∙ ap (λ ys. sent a ++ ys)
        (ap (λ n. stretch sent (suc a) m ++ stretch sent n k) (omega arith)
          ∙ stretch-add sent (suc a) m k)
    ∙ ap (stretch sent a) (let e : suc (m + k) ≡ suc m + k = omega arith in e)

-- A data packet with just the `n`-th payload, which has between 1 and 500 bytes.
pub record Holds (sent : ℕ → List ℕ) (n : ℕ) (pkt : Packet) : Type 0 where
  pub bytes : body pkt ≡ sent n
  pub len : pkt.len ≡ 12 + length (sent n)
  pub nonempty : 0 < length (sent n)
  pub small : length (sent n) ≤ 500

pub Holds-IsWhole : (sent : ℕ → List ℕ) (n : ℕ) (pkt : Packet) → Holds sent n pkt → IsWhole pkt
Holds-IsWhole sent n pkt h = record {
  nonempty = omega (arith, h.len, h.nonempty);
  small = omega (arith, h.len, h.small);
  full = omega (arith, h.len, ap length h.bytes);
}

-- What the local side got is the stream up to the acknowledged number, and each packet in the
-- window is the one that belongs there.
pub record RecvInv (sent : ℕ → List ℕ) (r : Rel) : Type 0 where
  pub healthy : Healthy r.c
  pub fresh : r.last_pkt_bytes_outputted ≡ 0
  pub window : 0 < r.window_size
  pub flags : length r.has_recvd ≡ r.window_size
  pub slots : length r.pkts_recvd ≡ r.window_size
  pub pos : 1 ≤ r.last_ackno_sent
  pub no_eof : r.last_pkt_recvd_eof ≡ false
  pub holds :
      (i : ℕ)
      → i < r.window_size
      → get_or r.has_recvd (ahead r i) false ≡ true
      → Holds sent (r.last_ackno_sent + i) (get_or r.pkts_recvd (ahead r i) blank)
  pub delivered : stream r.c ≡ stretch sent 1 (r.last_ackno_sent - 1)

-- There is room for a window of the largest packets, and numbers are far from the wrap.
pub record HasRoom (r : Rel) : Type 0 where
  pub room : r.window_size * 500 ≤ conn_bufspace r.c
  pub no_wrap : r.last_ackno_sent + r.window_size < 4294967296

-- How many of `w` flags are set before the first that is clear.
pub record Leading (flag : ℕ → Bool) (w : ℕ) : Type 0 where
  pub count : ℕ
  pub inside : count ≤ w
  pub there : (i : ℕ) → i < count → flag i ≡ true
  pub stop : count < w → flag count ≡ false

Leading-suc : (flag : ℕ → Bool) (w : ℕ) → Leading flag w → Leading flag (suc w)
Leading-suc flag w l = elim (dec_lt l.count w) [
  | yes lt ↦ record {
    count = l.count;
    inside = omega (arith, l.inside);
    there = l.there;
    stop = λ _. l.stop lt;
  }
  | no ge ↦ elim (Bool-cases (flag w)) [
    | inr e ↦ record {
      count = l.count;
      inside = omega (arith, l.inside);
      there = l.there;
      stop = λ _. ap flag (omega (arith, l.inside)) ∙ e;
    }
    | inl e ↦ record {
      count = suc w;
      inside = omega arith;
      there = λ i lt. elim (dec_lt i w) [
        | yes p ↦ l.there i (omega arith)
        | no p ↦ ap flag (omega arith) ∙ e
      ];
      stop = λ lt. absurd (omega arith);
    }
  ]
]

pub leading : (flag : ℕ → Bool) (w : ℕ) → Leading flag w
leading flag zero = record {
  count = 0;
  inside = omega arith;
  there = λ i lt. absurd (omega arith);
  stop = λ lt. absurd (omega arith);
}
leading flag (suc w) = Leading-suc flag w (leading flag w)

-- The flags of the window in the order of the packets.
abbrev pub flag_of : Rel → ℕ → Bool
flag_of r i = get_or r.has_recvd (ahead r (0 + i)) false

payloads-stretch :
    (sent : ℕ → List ℕ) (r : Rel) (j k a : ℕ)
    → ((i : ℕ) → i < k → Holds sent (a + i) (get_or r.pkts_recvd (ahead r (j + i)) blank))
    → (payloads r j k ≡ stretch sent a k) × (length (payloads r j k) ≤ k * 500)
payloads-stretch sent r j zero a h = (refl, omega arith)
payloads-stretch sent r j (suc k) a h =
    let first : Holds sent a (get_or r.pkts_recvd (ahead r j) blank) =
      subst (λ n. Holds sent n (get_or r.pkts_recvd (ahead r j) blank)) (omega arith)
        (subst (λ n. Holds sent (a + 0) (get_or r.pkts_recvd (ahead r n) blank)) (omega arith)
          (h 0 (omega arith))) in
    let (e, le) = payloads-stretch sent r (suc j) k (suc a) (λ i lt.
      subst (λ n. Holds sent n (get_or r.pkts_recvd (ahead r (suc j + i)) blank)) (omega arith)
        (subst (λ n. Holds sent (a + suc i) (get_or r.pkts_recvd (ahead r n) blank)) (omega arith)
          (h (suc i) (omega arith)))) in
    (
      ap₂ (λ (x y : List ℕ). x ++ y) first.bytes e,
      omega (
        arith,
        le,
        first.small,
        ap length first.bytes,
        length-append (body (get_or r.pkts_recvd (ahead r j) blank)) (payloads r (suc j) k),
      ),
    )

module _ (sent : ℕ → List ℕ) (r : Rel) (v : RecvInv sent r)
    (l : Leading (flag_of r) r.window_size) where
  pub leading-Holds :
      (i : ℕ)
      → i < l.count
      → Holds sent (r.last_ackno_sent + i) (get_or r.pkts_recvd (ahead r (0 + i)) blank)
  leading-Holds i lt =
      subst (λ n. Holds sent (r.last_ackno_sent + i) (get_or r.pkts_recvd (ahead r n) blank))
        (omega arith)
        (v.holds i (omega (arith, l.inside))
          (ap (λ n. get_or r.has_recvd (ahead r n) false) (omega arith) ∙ l.there i lt))

  pub leading-payloads :
      (payloads r 0 l.count ≡ stretch sent r.last_ackno_sent l.count)
      × (length (payloads r 0 l.count) ≤ l.count * 500)
  leading-payloads = payloads-stretch sent r 0 l.count r.last_ackno_sent leading-Holds

  pub leading-Ready : HasRoom r → Ready r 0 l.count
  leading-Ready m = record {
    healthy = v.healthy;
    fresh = v.fresh;
    window = v.window;
    flags = v.flags;
    pos = v.pos;
    no_wrap = omega (arith, m.no_wrap, l.inside);
    few = omega (arith, m.room, l.inside, conn_bufspace-le r.c);
    inside = l.inside;
    there = l.there;
    whole = λ i lt. Holds-IsWhole sent (r.last_ackno_sent + i) _ (leading-Holds i lt);
    stop = l.stop;
    fits = omega (arith, m.room, l.inside, leading-payloads.1);
  }
