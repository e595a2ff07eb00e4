-- ===== src/SrProtocol/Layout.antt =====
-- How the structs of cs144/router/sr_protocol.h lie in memory, and how memory is read as one. A read
-- behind the end of what was received or allocated is a fault, `none`.
pub mod RoundTrip
pub mod Cut
use stanford.Prelude.{
  ℕ, zero, suc, ◌+◌, ◌*◌, ◌/◌, ◌%◌, Bool, true, false, Option, none, some, List, [], ◌∷◌, ◌++◌,
  ◌==◌, leb, if◌then◌else◌, length, take, drop, ◌>>=◌,
}
use stanford.Wire.{le16, le32, read16, read32}
use stanford.SrProtocol.{IpHdr, TcpHdr, EthHdr, ArpHdr, IpFrame}

-- `n` bytes from the start of the memory.
unfoldable pub read_bytes : ℕ → List ℕ → Option (List ℕ)
read_bytes n mem = if leb n (length mem) then some (take n mem) else none

abbrev pub eth_bytes : EthHdr → List ℕ
eth_bytes e = e.ether_dhost ++ (e.ether_shost ++ le16 e.ether_type)

unfoldable pub ip_bytes : IpHdr → List ℕ
unfolding le16 le32
ip_bytes h =
    (h.ip_hl + h.ip_v * 16)
    ∷ h.ip_tos
    ∷ (le16 h.ip_len
        ++ (le16 h.ip_id
            ++ (le16 h.ip_off
                ++ (h.ip_ttl ∷ h.ip_p ∷ (le16 h.ip_sum ++ (le32 h.ip_src ++ le32 h.ip_dst))))))

unfoldable pub read_ip : List ℕ → Option (IpHdr × List ℕ)
unfolding read16 read32
read_ip
      (v ∷ t ∷ l0 ∷ l1 ∷ i0 ∷ i1 ∷ o0 ∷ o1 ∷ ttl ∷ p ∷ c0 ∷ c1 ∷ s0 ∷ s1 ∷ s2 ∷ s3 ∷ d0 ∷ d1 ∷ d2
        ∷ d3 ∷ rest) =
    some (
      record {
        ip_hl = v % 16;
        ip_v = v / 16;
        ip_tos = t;
        ip_len = read16 l0 l1;
        ip_id = read16 i0 i1;
        ip_off = read16 o0 o1;
        ip_ttl = ttl;
        ip_p = p;
        ip_sum = read16 c0 c1;
        ip_src = read32 s0 s1 s2 s3;
        ip_dst = read32 d0 d1 d2 d3;
      },
      rest,
    )
read_ip _ = none

unfoldable pub read_eth : List ℕ → Option (EthHdr × List ℕ)
unfolding read16
read_eth (a0 ∷ a1 ∷ a2 ∷ a3 ∷ a4 ∷ a5 ∷ b0 ∷ b1 ∷ b2 ∷ b3 ∷ b4 ∷ b5 ∷ t0 ∷ t1 ∷ rest) = some (
  record {
    ether_dhost = a0 ∷ a1 ∷ a2 ∷ a3 ∷ a4 ∷ a5 ∷ [];
    ether_shost = b0 ∷ b1 ∷ b2 ∷ b3 ∷ b4 ∷ b5 ∷ [];
    ether_type = read16 t0 t1;
  },
  rest,
)
read_eth _ = none

abbrev pub frame_bytes : IpFrame → List ℕ
frame_bytes f = eth_bytes f.eth ++ (ip_bytes f.ip ++ f.payload)

unfoldable pub read_frame : List ℕ → Option IpFrame
read_frame mem =
    read_eth mem >>= λ e. read_ip e.1 >>= λ i. some (record { eth = e.0; ip = i.0; payload = i.1 })

unfoldable pub arp_bytes : ArpHdr → List ℕ
unfolding le16 le32
arp_bytes h =
    le16 h.ar_hrd
    ++ (le16 h.ar_pro
        ++ (h.ar_hln
            ∷ h.ar_pln
            ∷ (le16 h.ar_op ++ (h.ar_sha ++ (le32 h.ar_sip ++ (h.ar_tha ++ le32 h.ar_tip))))))

unfoldable pub read_arp : List ℕ → Option ArpHdr
unfolding read16 read32
read_arp
      (h0 ∷ h1 ∷ p0 ∷ p1 ∷ hln ∷ pln ∷ o0 ∷ o1 ∷ a0 ∷ a1 ∷ a2 ∷ a3 ∷ a4 ∷ a5 ∷ s0 ∷ s1 ∷ s2 ∷ s3
        ∷ b0 ∷ b1 ∷ b2 ∷ b3 ∷ b4 ∷ b5 ∷ t0 ∷ t1 ∷ t2 ∷ t3 ∷ rest) =
    some (record {
      ar_hrd = read16 h0 h1;
      ar_pro = read16 p0 p1;
      ar_hln = hln;
      ar_pln = pln;
      ar_op = read16 o0 o1;
      ar_sha = a0 ∷ a1 ∷ a2 ∷ a3 ∷ a4 ∷ a5 ∷ [];
      ar_sip = read32 s0 s1 s2 s3;
      ar_tha = b0 ∷ b1 ∷ b2 ∷ b3 ∷ b4 ∷ b5 ∷ [];
      ar_tip = read32 t0 t1 t2 t3;
    })
read_arp _ = none

abbrev pub bit : Bool → ℕ
bit true = 1
bit false = 0

abbrev pub is_odd : ℕ → Bool
is_odd n = n % 2 == 1

unfoldable pub tcp_bytes : TcpHdr → List ℕ
unfolding le16 le32
tcp_bytes h =
    le16 h.source
    ++ (le16 h.dest
        ++ (le32 h.seq
            ++ (le32 h.ack_seq
                ++ (h.off_res
                    ∷ (bit h.fin + bit h.syn * 2 + h.rst_psh * 4 + bit h.ack * 16 + h.urg_res * 32)
                    ∷ (le16 h.window ++ (le16 h.check ++ le16 h.urg_ptr))))))

unfoldable pub read_tcp : List ℕ → Option (TcpHdr × List ℕ)
unfolding read16 read32
read_tcp
      (s0 ∷ s1 ∷ d0 ∷ d1 ∷ q0 ∷ q1 ∷ q2 ∷ q3 ∷ a0 ∷ a1 ∷ a2 ∷ a3 ∷ off ∷ flags ∷ w0 ∷ w1 ∷ c0 ∷ c1
        ∷ u0 ∷ u1 ∷ rest) =
    some (
      record {
        source = read16 s0 s1;
        dest = read16 d0 d1;
        seq = read32 q0 q1 q2 q3;
        ack_seq = read32 a0 a1 a2 a3;
        off_res = off;
        fin = is_odd flags;
        syn = is_odd (flags / 2);
        rst_psh = flags / 4 % 4;
        ack = is_odd (flags / 16);
        urg_res = flags / 32;
        window = read16 w0 w1;
        check = read16 c0 c1;
        urg_ptr = read16 u0 u1;
      },
      rest,
    )
read_tcp _ = none

abbrev pub same_bytes : List ℕ → List ℕ → Bool
same_bytes [] [] = true
same_bytes (x ∷ xs) (y ∷ ys) = if x == y then same_bytes xs ys else false
same_bytes _ _ = false
