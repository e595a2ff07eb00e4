-- ===== src/SrProtocol.antt =====
-- The headers of cs144/router/sr_protocol.h that the modules share, as records whose fields are
-- numbers in host byte order once the `_ntoh` helpers have run.
pub mod Layout
use stanford.Prelude.{ℕ, Bool, List}

-- `sr_ip_hdr_t`.
pub record IpHdr : Type 0 where
  pub ip_hl : ℕ
  pub ip_v : ℕ
  pub ip_tos : ℕ
  pub ip_len : ℕ
  pub ip_id : ℕ
  pub ip_off : ℕ
  pub ip_ttl : ℕ
  pub ip_p : ℕ
  pub ip_sum : ℕ
  pub ip_src : ℕ
  pub ip_dst : ℕ

-- `struct tcphdr` of <netinet/tcp.h>. The bits that the router does not look at are kept in groups:
-- `off_res` is the byte of the data offset, `rst_psh` and `urg_res` are two and three bits.
pub record TcpHdr : Type 0 where
  pub source : ℕ
  pub dest : ℕ
  pub seq : ℕ
  pub ack_seq : ℕ
  pub off_res : ℕ
  pub fin : Bool
  pub syn : Bool
  pub rst_psh : ℕ
  pub ack : Bool
  pub urg_res : ℕ
  pub window : ℕ
  pub check : ℕ
  pub urg_ptr : ℕ

-- `sr_ethernet_hdr_t` and `sr_arp_hdr_t`.
pub record EthHdr : Type 0 where
  pub ether_dhost : List ℕ
  pub ether_shost : List ℕ
  pub ether_type : ℕ

pub record ArpHdr : Type 0 where
  pub ar_hrd : ℕ
  pub ar_pro : ℕ
  pub ar_hln : ℕ
  pub ar_pln : ℕ
  pub ar_op : ℕ
  pub ar_sha : List ℕ
  pub ar_sip : ℕ
  pub ar_tha : List ℕ
  pub ar_tip : ℕ

-- A frame behind a pointer `e_hdr`, with the IP header at `sr_extract_ip_hdr(e_hdr)` and the memory
-- behind that.
pub record IpFrame : Type 0 where
  pub eth : EthHdr
  pub ip : IpHdr
  pub payload : List ℕ

abbrev pub ip_protocol_icmp : ℕ
ip_protocol_icmp = 1

abbrev pub ip_protocol_tcp : ℕ
ip_protocol_tcp = 6

abbrev pub ip_protocol_udp : ℕ
ip_protocol_udp = 17

abbrev pub ethertype_arp : ℕ
ethertype_arp = 2054

abbrev pub ethertype_ip : ℕ
ethertype_ip = 2048

abbrev pub arp_op_request : ℕ
arp_op_request = 1

abbrev pub arp_op_reply : ℕ
arp_op_reply = 2
