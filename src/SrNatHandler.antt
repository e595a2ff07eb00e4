-- ===== src/SrNatHandler.antt =====
-- The translation of packets: cs144/router/sr_nat_handler.c. Its entry gets the frame with the IP
-- header in host order, and the memory behind the IP header in network order.
pub mod Tcp
pub mod Icmp
use stanford.Prelude.{
  ℕ, Bool, true, false, not, ◌&&◌, Option, none, some, List, [], ◌∷◌, ◌++◌, ◌==◌, if◌then◌else◌,
  ◌>>=◌,
}
use stanford.Wire.{htonl}
use stanford.SrProtocol.{IpHdr, TcpHdr, IpFrame, ip_protocol_icmp, ip_protocol_tcp}
use stanford.SrProtocol.Layout.{read_tcp, tcp_bytes, same_bytes}
use stanford.SrTcp.Header.{sr_tcp_hdr_ntoh, sr_tcp_hdr_hton}
use stanford.SrNat.{
  Nat, nat_mapping_icmp, nat_mapping_tcp, sr_nat_insert_mapping, sr_nat_lookup_external,
}
use stanford.SrNat.Sessions.{
  Headers, sr_nat_update_tcp_sent_state, sr_nat_update_tcp_recvd_state,
  sr_nat_handle_unsolicited_syn,
}
use stanford.SrIf.{Instance, sr_get_interface, sr_is_router_ip}
use stanford.SrIp.{sr_find_longest_prefix_match}
use stanford.SrIcmp.{
  EchoHdr, first_byte, echo_request, echo_reply, read_echo, echo_bytes, sr_icmp_t3_hdr_ntoh,
  sr_icmp_t3_hdr_hton,
}

pub data NatResponse : Type 0 where
  nat_no_mapping nat_mapped nat_ignored : NatResponse

-- "eth1".
abbrev pub internal_iface : List ℕ
internal_iface = 101 ∷ 116 ∷ 104 ∷ 49 ∷ []

-- The inner `none` is the code's `false`; the outer one is a route to an interface that is not there.
unfoldable pub rewrite_source_address : Instance → IpHdr → Option (Option IpHdr)
rewrite_source_address sr ip_hdr =
    elim (sr_find_longest_prefix_match sr.routing_table (htonl ip_hdr.ip_dst)) [
      | none ↦ some none
      | some rt ↦ sr_get_interface sr.if_list rt.iface >>= λ i.
          some (some (record ip_hdr { ip_src = htonl i.ip }))
    ]

-- What a handler makes of the NAT and the two headers, `H` being that of the protocol.
pub record Handled (H : Type 0) : Type 0 where
  pub nat : Nat
  pub ip : IpHdr
  pub hdr : H
  pub resp : NatResponse

unfoldable pub handle_internal_icmp_echo_req_pkt :
    Instance → Nat → IpHdr → EchoHdr → ℕ → Option (Handled EchoHdr)
handle_internal_icmp_echo_req_pkt sr nat ip_hdr icmp_hdr now =
    let (nat', mapping) =
      sr_nat_insert_mapping nat ip_hdr.ip_src icmp_hdr.iden nat_mapping_icmp now in
    rewrite_source_address sr ip_hdr >>= λ rewritten. elim rewritten [
      | none ↦ some (record { nat = nat'; ip = ip_hdr; hdr = icmp_hdr; resp = nat_no_mapping })
      | some ip' ↦ some (record {
        nat = nat';
        ip = ip';
        hdr = record icmp_hdr { iden = mapping.aux_ext };
        resp = nat_mapped;
      })
    ]

unfoldable pub handle_external_icmp_echo_reply_pkt : Nat → IpHdr → EchoHdr → ℕ → Handled EchoHdr
handle_external_icmp_echo_reply_pkt nat ip_hdr icmp_hdr now =
    let (nat', mapping) = sr_nat_lookup_external nat icmp_hdr.iden nat_mapping_icmp now in
    elim mapping [
      | none ↦ record { nat = nat'; ip = ip_hdr; hdr = icmp_hdr; resp = nat_no_mapping }
      | some m ↦ record {
        nat = nat';
        ip = record ip_hdr { ip_dst = m.ip_int };
        hdr = record icmp_hdr { iden = m.aux_int };
        resp = nat_mapped;
      }
    ]

unfoldable pub handle_internal_tcp_pkt :
    Headers → Instance → Nat → IpHdr → TcpHdr → ℕ → Option (Handled TcpHdr)
handle_internal_tcp_pkt mem sr nat ip_hdr tcp_hdr now =
    let (nat', mapping) =
      sr_nat_insert_mapping nat ip_hdr.ip_src tcp_hdr.source nat_mapping_tcp now in
    sr_nat_update_tcp_sent_state mem nat' ip_hdr tcp_hdr now >>= λ tracked.
    rewrite_source_address sr ip_hdr >>= λ rewritten. elim rewritten [
      | none ↦ some (record { nat = tracked; ip = ip_hdr; hdr = tcp_hdr; resp = nat_no_mapping })
      | some ip' ↦ some (record {
        nat = tracked;
        ip = ip';
        hdr = record tcp_hdr { source = mapping.aux_ext };
        resp = nat_mapped;
      })
    ]

-- `ip_ptr` is the address of the IP header.
unfoldable pub handle_external_tcp_pkt :
    Headers → ℕ → Nat → IpHdr → TcpHdr → ℕ → Option (Handled TcpHdr)
handle_external_tcp_pkt mem ip_ptr nat ip_hdr tcp_hdr now =
    let (nat', mapping) = sr_nat_lookup_external nat tcp_hdr.dest nat_mapping_tcp now in
    elim mapping [
      | none ↦
          if tcp_hdr.syn
          then (sr_nat_handle_unsolicited_syn mem nat' ip_ptr ip_hdr tcp_hdr now >>= λ noted.
              some (record { nat = noted; ip = ip_hdr; hdr = tcp_hdr; resp = nat_no_mapping }))
          else some (record { nat = nat'; ip = ip_hdr; hdr = tcp_hdr; resp = nat_no_mapping })
      | some m ↦ some (record {
        nat = sr_nat_update_tcp_recvd_state nat' ip_hdr tcp_hdr now;
        ip = record ip_hdr { ip_dst = m.ip_int };
        hdr = record tcp_hdr { dest = m.aux_int };
        resp = nat_mapped;
      })
    ]

-- The router with the new NAT, the frame as it was rewritten, and the response.
abbrev pub Rewritten : Type 0
Rewritten = Instance × IpFrame × NatResponse

unfoldable pub handle_tcp_pkt : Headers → ℕ → Instance → Nat → IpFrame → Bool → ℕ → Option Rewritten
handle_tcp_pkt mem ip_ptr sr nat f is_internal now = read_tcp f.payload >>= λ t.
    let tcp_hdr = sr_tcp_hdr_ntoh t.0 in
    (if is_internal
      then handle_internal_tcp_pkt mem sr nat f.ip tcp_hdr now
      else handle_external_tcp_pkt mem ip_ptr nat f.ip tcp_hdr now)
    >>= λ h. sr_tcp_hdr_hton h.hdr t.1 h.ip >>= λ net. some (
      record sr { nat = some h.nat },
      record f { ip = h.ip; payload = tcp_bytes net ++ t.1 },
      h.resp,
    )

-- The part of `handle_icmp_pkt` for the two kinds of message that are translated.
unfoldable pub handle_echo_pkt : Instance → Nat → IpFrame → Bool → ℕ → Option Rewritten
handle_echo_pkt sr nat f is_internal now = read_echo f.payload >>= λ t.
    let icmp_hdr = sr_icmp_t3_hdr_ntoh t.0 in
    (if is_internal
      then handle_internal_icmp_echo_req_pkt sr nat f.ip icmp_hdr now
      else some (handle_external_icmp_echo_reply_pkt nat f.ip icmp_hdr now))
    >>= λ h. sr_icmp_t3_hdr_hton h.hdr t.1 h.ip >>= λ net. some (
      record sr { nat = some h.nat },
      record f { ip = h.ip; payload = echo_bytes net ++ t.1 },
      h.resp,
    )

unfoldable pub handle_icmp_pkt : Instance → Nat → IpFrame → Bool → ℕ → Option Rewritten
handle_icmp_pkt sr nat f is_internal now = first_byte f.payload >>= λ icmp_type.
    if (if is_internal then icmp_type == echo_request else icmp_type == echo_reply)
    then handle_echo_pkt sr nat f is_internal now
    else some (sr, f, nat_no_mapping)

abbrev pub same_bit : Bool → Bool → Bool
same_bit true b = b
same_bit false b = not b

unfoldable pub sr_rewrite_pkt_for_nat :
    Headers → ℕ → Instance → Nat → IpFrame → List ℕ → ℕ → Option Rewritten
sr_rewrite_pkt_for_nat mem ip_ptr sr nat f interface now =
    let is_internal = same_bytes interface internal_iface in
    if same_bit (sr_is_router_ip sr f.ip.ip_dst) is_internal
    then some (sr, f, nat_ignored)
    else (if f.ip.ip_p == ip_protocol_icmp
        then handle_icmp_pkt sr nat f is_internal now
        else (if f.ip.ip_p == ip_protocol_tcp
            then handle_tcp_pkt mem ip_ptr sr nat f is_internal now
            else some (sr, f, nat_ignored)))
