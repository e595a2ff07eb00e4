-- ===== src/SrIcmp.antt =====
-- ICMP: cs144/router/sr_icmp.c. An unreachable message is itself forwarded, which can queue it for a
-- gateway that does not answer, which sends unreachable messages: the recursion is on fuel.
pub mod Unanswered
use stanford.Prelude.{
  ℕ, zero, suc, ◌+◌, ◌-◌, ◌%◌, Bool, true, false, ◌||◌, Option, none, some, List, [], ◌∷◌, ◌++◌,
  ◌==◌, if◌then◌else◌, ◌>>=◌, take, drop, replicate,
}
use stanford.Wire.{htons, le16, read16, cksum}
use stanford.SrProtocol.{IpHdr, IpFrame, ip_protocol_icmp, ethertype_ip}
use stanford.SrProtocol.Layout.{ip_bytes, read_bytes}
use stanford.SrIf.{Instance}
use stanford.SrIp.Header.{sr_ip_hdr_hton}
use stanford.SrIp.Forward.{sr_frwd_ip_pkt, sr_create_and_frwd_ip_pkt}

abbrev pub echo_reply : ℕ
echo_reply = 0

abbrev pub echo_request : ℕ
echo_request = 8

abbrev pub net_unreachable : ℕ
net_unreachable = 0

abbrev pub port_unreachable : ℕ
port_unreachable = 3

abbrev pub icmp_data_size : ℕ
icmp_data_size = 28

-- `ip_len - sizeof(sr_ip_hdr_t)`, cut to a `uint16_t`.
abbrev pub icmp_len : IpHdr → ℕ
icmp_len ip_hdr = (ip_hdr.ip_len + 65516) % 65536

-- A message of type 3 or 11, whose second word is zero, about the packet.
unfoldable pub error_message : ℕ → ℕ → List ℕ → List ℕ
unfolding le16
error_message icmp_type icmp_code quoted =
    icmp_type
    ∷ icmp_code
    ∷ (le16 (cksum (icmp_type ∷ icmp_code ∷ 0 ∷ 0 ∷ 0 ∷ 0 ∷ 0 ∷ 0 ∷ quoted))
        ++ (0 ∷ 0 ∷ 0 ∷ 0 ∷ quoted))

-- The copy of the header in network order and of what is behind it.
unfoldable pub error_data : IpHdr → List ℕ → Option (List ℕ)
error_data ip_hdr payload = read_bytes icmp_data_size (ip_bytes (sr_ip_hdr_hton ip_hdr) ++ payload)

unfoldable pub unreachable_source : ℕ → IpHdr → ℕ
unreachable_source icmp_code ip_hdr = if icmp_code == 0 || icmp_code == 1 then 0 else ip_hdr.ip_dst

-- `none` is a fault, or that the recursion was deeper than the fuel.
unfoldable pub sr_send_icmp_unreachable_pkt :
    ℕ → ℕ → Instance → ℕ → IpHdr → List ℕ → Option Instance
sr_send_icmp_unreachable_pkt zero now sr icmp_code ip_hdr payload = none
sr_send_icmp_unreachable_pkt (suc fuel) now sr icmp_code ip_hdr payload =
    error_data ip_hdr payload >>= λ quoted.
    sr_create_and_frwd_ip_pkt (λ s c h p. sr_send_icmp_unreachable_pkt fuel now s c h p) sr
      (unreachable_source icmp_code ip_hdr) ip_hdr.ip_src (error_message 3 icmp_code quoted)
      ip_protocol_icmp now

unfoldable pub sr_send_icmp_time_exceeded_pkt :
    ℕ → ℕ → Instance → ℕ → IpHdr → List ℕ → Option Instance
sr_send_icmp_time_exceeded_pkt fuel now sr icmp_code ip_hdr payload =
    error_data ip_hdr payload >>= λ quoted.
    sr_create_and_frwd_ip_pkt (sr_send_icmp_unreachable_pkt fuel now) sr 0 ip_hdr.ip_src
      (error_message 11 icmp_code quoted) ip_protocol_icmp now

-- The message is read from the memory behind the IP header; `none` is a read behind that.
unfoldable pub sr_icmp_checksum_matches : IpHdr → List ℕ → Option Bool
sr_icmp_checksum_matches ip_hdr (ty ∷ code ∷ s0 ∷ s1 ∷ rest) =
    if icmp_len ip_hdr == 0
    then some false
    else (read_bytes (icmp_len ip_hdr) (ty ∷ code ∷ 0 ∷ 0 ∷ rest) >>= λ msg.
        some (read16 s0 s1 == cksum msg))
sr_icmp_checksum_matches ip_hdr _ = none

-- The reply's message, from the request's: writing a header of 4 bytes into less is a fault.
unfoldable pub reply_message : List ℕ → Option (List ℕ)
unfolding le16
reply_message (ty ∷ code ∷ s0 ∷ s1 ∷ rest) =
    some (echo_reply ∷ code ∷ (le16 (cksum (echo_reply ∷ code ∷ 0 ∷ 0 ∷ rest)) ++ rest))
reply_message _ = none

unfoldable pub sr_send_icmp_echo_reply_pkt : ℕ → ℕ → Instance → IpHdr → List ℕ → Option Instance
sr_send_icmp_echo_reply_pkt fuel now sr ip_hdr payload =
    read_bytes (icmp_len ip_hdr) payload >>= λ msg. reply_message msg >>= λ reply.
    sr_frwd_ip_pkt (sr_send_icmp_unreachable_pkt fuel now) sr
      (record {
        eth = record {
          ether_dhost = replicate 6 0;
          ether_shost = replicate 6 0;
          ether_type = ethertype_ip;
        };
        ip = record ip_hdr { ip_src = ip_hdr.ip_dst; ip_dst = ip_hdr.ip_src };
        payload = reply;
      })
      now
    >>= λ r. some r.0

-- `icmp_hdr->icmp_type`.
unfoldable pub first_byte : List ℕ → Option ℕ
first_byte [] = none
first_byte (b ∷ _) = some b

unfoldable pub sr_recv_icmp_pkt_for_us : ℕ → ℕ → Instance → IpHdr → List ℕ → Option Instance
sr_recv_icmp_pkt_for_us fuel now sr ip_hdr payload =
    sr_icmp_checksum_matches ip_hdr payload >>= λ good.
    if good
    then (first_byte payload >>= λ icmp_type.
        if icmp_type == echo_request
        then sr_send_icmp_echo_reply_pkt fuel now sr ip_hdr payload
        else some sr)
    else some sr

-- The header of an echo message, as `sr_icmp_t3_hdr_t` reads it, and what follows it.
pub record EchoHdr : Type 0 where
  pub icmp_type : ℕ
  pub icmp_code : ℕ
  pub icmp_sum : ℕ
  pub iden : ℕ
  pub seqno : ℕ

unfoldable pub read_echo : List ℕ → Option (EchoHdr × List ℕ)
unfolding read16
read_echo (ty ∷ code ∷ s0 ∷ s1 ∷ i0 ∷ i1 ∷ q0 ∷ q1 ∷ rest) = some (
  record {
    icmp_type = ty;
    icmp_code = code;
    icmp_sum = read16 s0 s1;
    iden = read16 i0 i1;
    seqno = read16 q0 q1;
  },
  rest,
)
read_echo _ = none

unfoldable pub echo_bytes : EchoHdr → List ℕ
unfolding le16
echo_bytes h = h.icmp_type ∷ h.icmp_code ∷ (le16 h.icmp_sum ++ (le16 h.iden ++ le16 h.seqno))

unfoldable pub sr_icmp_t3_hdr_ntoh : EchoHdr → EchoHdr
sr_icmp_t3_hdr_ntoh hdr = record hdr { iden = htons hdr.iden; seqno = htons hdr.seqno }

-- `rest` is the memory behind the header; `none` is a read behind that. A length below 0 is the one
-- that `cksum` takes for 0.
unfoldable pub sr_icmp_t3_hdr_hton : EchoHdr → List ℕ → IpHdr → Option EchoHdr
sr_icmp_t3_hdr_hton hdr rest ip_hdr =
    let net = record hdr { iden = htons hdr.iden; seqno = htons hdr.seqno; icmp_sum = 0 } in
    read_bytes (ip_hdr.ip_len - 20) (echo_bytes net ++ rest) >>= λ msg.
    some (record net { icmp_sum = cksum msg })
