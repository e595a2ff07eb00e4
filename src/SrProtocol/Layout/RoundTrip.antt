-- ===== src/SrProtocol/Layout/RoundTrip.antt =====
-- The structs of the router read back from the memory that they were written to.
use stanford.Prelude.{
  ℕ, ◌+◌, ◌*◌, ◌/◌, ◌%◌, ◌<◌, ◌≡◌, refl, Bool, true, false, some, List, [], ◌∷◌, ◌++◌, arith,
  length, take, ap, take-length, le→leb, length-append, subst,
}
use stanford.Wire.{le16}
use stanford.Wire.Order.{read16-le16, read32-le32}
use stanford.SrProtocol.{IpHdr, TcpHdr, EthHdr, IpFrame}
use stanford.SrProtocol.Layout.{
  ip_bytes, read_ip, read_bytes, eth_bytes, read_eth, frame_bytes, read_frame, tcp_bytes, read_tcp,
  bit, is_odd,
}

-- The fields of the header fit into their words.
pub record Fits (h : IpHdr) : Type 0 where
  pub hl : h.ip_hl < 16
  pub len : h.ip_len < 65536
  pub id : h.ip_id < 65536
  pub off : h.ip_off < 65536
  pub sum : h.ip_sum < 65536
  pub src : h.ip_src < 4294967296
  pub dst : h.ip_dst < 4294967296

pub read_ip-bytes :
    (h : IpHdr) (rest : List ℕ) → Fits h → read_ip (ip_bytes h ++ rest) ≡ some (h, rest)
unfolding read_ip ip_bytes
read_ip-bytes h rest v = ground (
  arith,
  v.hl,
  read16-le16 h.ip_len v.len,
  read16-le16 h.ip_id v.id,
  read16-le16 h.ip_off v.off,
  read16-le16 h.ip_sum v.sum,
  read32-le32 h.ip_src v.src,
  read32-le32 h.ip_dst v.dst,
)

pub length-ip_bytes : (h : IpHdr) → length (ip_bytes h) ≡ 20
unfolding ip_bytes
length-ip_bytes h = refl

-- A read of as many bytes as the first part has gives that part.
pub read_bytes-append : (n : ℕ) (xs ys : List ℕ) → length xs ≡ n → read_bytes n (xs ++ ys) ≡ some xs
unfolding read_bytes
read_bytes-append n xs ys e =
    let fits = le→leb n (length (xs ++ ys)) (omega (arith, e, length-append xs ys)) in
    let part : take n (xs ++ ys) ≡ xs =
      subst {A = ℕ} (λ k. take k (xs ++ ys) ≡ xs) e (take-length xs ys) in
    rw fits (ap some part)

-- A list of six, as Ethernet addresses are.
pub data Six : List ℕ → Type 0 where
  six : (a b c d e f : ℕ) → Six (a ∷ b ∷ c ∷ d ∷ e ∷ f ∷ [])

read_eth-Six :
    (d s : List ℕ) (t : ℕ) (rest : List ℕ)
    → Six d
    → Six s
    → t < 65536
    → read_eth (eth_bytes (record { ether_dhost = d; ether_shost = s; ether_type = t }) ++ rest)
      ≡ some (record { ether_dhost = d; ether_shost = s; ether_type = t }, rest)
unfolding read_eth le16
read_eth-Six d s t rest (six a0 a1 a2 a3 a4 a5) (six b0 b1 b2 b3 b4 b5) lt =
    ground (arith, read16-le16 t lt)

pub read_eth-bytes :
    (e : EthHdr) (rest : List ℕ)
    → Six e.ether_dhost
    → Six e.ether_shost
    → e.ether_type < 65536
    → read_eth (eth_bytes e ++ rest) ≡ some (e, rest)
read_eth-bytes e rest d s lt = read_eth-Six e.ether_dhost e.ether_shost e.ether_type rest d s lt

-- A frame whose Ethernet addresses have six bytes and whose numbers fit into their words.
pub record IsFrame (f : IpFrame) : Type 0 where
  pub dhost : Six f.eth.ether_dhost
  pub shost : Six f.eth.ether_shost
  pub type : f.eth.ether_type < 65536
  pub header : Fits f.ip

pub read_frame-bytes : (f : IpFrame) → IsFrame f → read_frame (frame_bytes f) ≡ some f
unfolding read_frame
read_frame-bytes f v =
    let eth = read_eth-bytes f.eth (ip_bytes f.ip ++ f.payload) v.dhost v.shost v.type in
    let ip = read_ip-bytes f.ip f.payload v.header in rw eth (rw ip refl)

-- The fields of the TCP header fit into their words.
pub record TcpFits (h : TcpHdr) : Type 0 where
  pub source : h.source < 65536
  pub dest : h.dest < 65536
  pub seq : h.seq < 4294967296
  pub ack_seq : h.ack_seq < 4294967296
  pub rst_psh : h.rst_psh < 4
  pub window : h.window < 65536
  pub check : h.check < 65536
  pub urg_ptr : h.urg_ptr < 65536

abbrev flags_of : Bool → Bool → ℕ → Bool → ℕ → ℕ
flags_of f s r a u = bit f + bit s * 2 + r * 4 + bit a * 16 + u * 32

record SameFlags (f s : Bool) (r : ℕ) (a : Bool) (u x : ℕ) : Type 0 where
  same_fin : is_odd x ≡ f
  same_syn : is_odd (x / 2) ≡ s
  same_rst : x / 4 % 4 ≡ r
  same_ack : is_odd (x / 16) ≡ a
  same_urg : x / 32 ≡ u

flags-Same :
    (f s : Bool) (r : ℕ) (a : Bool) (u : ℕ) → r < 4 → SameFlags f s r a u (flags_of f s r a u)
flags-Same true true r true u h = ground arith
flags-Same true true r false u h = ground arith
flags-Same true false r true u h = ground arith
flags-Same true false r false u h = ground arith
flags-Same false true r true u h = ground arith
flags-Same false true r false u h = ground arith
flags-Same false false r true u h = ground arith
flags-Same false false r false u h = ground arith

pub read_tcp-bytes :
    (h : TcpHdr) (rest : List ℕ) → TcpFits h → read_tcp (tcp_bytes h ++ rest) ≡ some (h, rest)
unfolding read_tcp tcp_bytes
read_tcp-bytes h rest v =
    let fl = flags-Same h.fin h.syn h.rst_psh h.ack h.urg_res v.rst_psh in
    ground (
      arith,
      fl.same_fin,
      fl.same_syn,
      fl.same_rst,
      fl.same_ack,
      fl.same_urg,
      read16-le16 h.source v.source,
      read16-le16 h.dest v.dest,
      read32-le32 h.seq v.seq,
      read32-le32 h.ack_seq v.ack_seq,
      read16-le16 h.window v.window,
      read16-le16 h.check v.check,
      read16-le16 h.urg_ptr v.urg_ptr,
    )
