-- ===== src/Examples/Forwarding.antt =====
-- Packets through the router of Examples/Network, and what waits in it.
use stanford.Prelude.{◌≡◌, ◌==◌, refl, false, true, none, some, [], ◌∷◌, ◌++◌, ◌>>=◌, arith}
use stanford.Wire.{le16, le32, htons, htonl, cksum, sum_words, fold_carries}
use stanford.SrProtocol.{ArpHdr, IpFrame}
use stanford.SrProtocol.Layout.{ip_bytes, read_ip, frame_bytes}
use stanford.SrProtocol.Layout.RoundTrip.{six, IsFrame}
use stanford.SrArpcache.{ArpReq, QueuedPacket, find_request, remove_request}
use stanford.SrIf.{Instance, Sent}
use stanford.SrIp.Header.{sr_ip_hdr_hton, sr_ip_hdr_ntoh, sr_ip_checksum_matches}
use stanford.SrIp.Header.RoundTrip.{sr_ip_hdr_hton-round_trip}
use stanford.SrIp.Forward.{set_source, sr_frwd_ip_pkt}
use stanford.SrIp.Forward.Known.{between}
use stanford.SrIp.Forward.Unknown.{request_frame}
use stanford.SrArp.{find_at}
use stanford.SrArp.Answered.{SentOnAnswer, answered-sends}
use stanford.SrIcmp.{sr_send_icmp_unreachable_pkt}
use stanford.SrIcmp.Unanswered.{notice, sweeps, unanswered-ends}
use stanford.SrRouter.{sr_handlepacket}
use stanford.SrRouter.Drop.{with_sum, handlepacket-drops}
use stanford.SrRouter.Transit.{on_wire, handlepacket-forwards}
use stanford.Examples.Network.{
  no_headers, inside, outside, to_inside, to_outside, inside_gw, unused, router, inside_host,
  outside_host, inbound, outbound, inbound-Fits, inbound-IsIpFrame, inbound_Reached, outbound-Fits,
  filled-Fits, whole, outbound_route, outbound_interface, outbound_unknown, inbound_here,
}

handlepacket-forwards_example :
    sr_handlepacket no_headers 0 1 20 router (on_wire inbound) outside.name
    ≡ some (record router {
      sent =
          record {
            buf = on_wire (
                between inside_gw.mac inside.addr
                  (record inbound { ip = record inbound.ip { ip_ttl = 63 } }));
            iface = inside.name;
          }
          ∷ [];
    })
unfolding inbound_Reached
handlepacket-forwards_example =
    handlepacket-forwards no_headers 0 1 20 router inbound outside.name inbound-IsIpFrame refl
      (omega arith) inbound_here (omega arith) (omega arith) inbound_Reached

wrong_sum : (1 == (sr_ip_hdr_hton inbound.ip).ip_sum) ≡ false
unfolding sr_ip_hdr_hton htons htonl cksum sum_words fold_carries ip_bytes le16 le32
wrong_sum = refl

handlepacket-drops_example :
    (sr_handlepacket no_headers 0 1 20 router (2 ∷ 0 ∷ 0 ∷ []) inside.name ≡ some router)
    × (sr_handlepacket no_headers 0 1 20 router (with_sum inbound 1) inside.name ≡ some router)
handlepacket-drops_example =
    handlepacket-drops no_headers 0 1 20 router (2 ∷ 0 ∷ 0 ∷ []) inbound 1 inside.name (omega arith)
      inbound-IsIpFrame (omega arith) (ground (arith, wrong_sum))

sr_ip_hdr_hton-round_trip_example :
    let net = sr_ip_hdr_hton inbound.ip in
    (read_ip (ip_bytes net ++ (1 ∷ [])) ≡ some (net, 1 ∷ []))
    × (sr_ip_checksum_matches net (1 ∷ []) ≡ some true)
    × (sr_ip_hdr_ntoh net ≡ record inbound.ip { ip_sum = net.ip_sum })
sr_ip_hdr_hton-round_trip_example = sr_ip_hdr_hton-round_trip inbound.ip (1 ∷ []) inbound-Fits refl

-- The reply of 172.16.0.9.
abbrev reply : ArpHdr
reply = record {
  ar_hrd = 1;
  ar_pro = 2048;
  ar_hln = 6;
  ar_pln = 4;
  ar_op = 2;
  ar_sha = 2 ∷ 0 ∷ 0 ∷ 0 ∷ 0 ∷ 7 ∷ [];
  ar_sip = 2886729737;
  ar_tha = outside.addr;
  ar_tip = 2886729729;
}

reply_gw : htonl reply.ar_sip ≡ to_outside.gw
unfolding htonl
reply_gw = refl

answered-sends_example :
    SentOnAnswer
      (sr_send_icmp_unreachable_pkt 1 20)
      router
      outbound
      to_outside
      outside
      reply
      20
      21
      (record outbound {
        eth = record outbound.eth { ether_dhost = reply.ar_sha; ether_shost = outside.addr };
      })
answered-sends_example =
    answered-sends (sr_send_icmp_unreachable_pkt 1 20) router outbound to_outside outside reply 20
      21 refl outbound_route outbound_interface outbound_unknown refl (six 2 0 0 0 0 2)
      (six 2 0 0 0 0 2) (omega arith) filled-Fits (whole inside_host outside_host) reply_gw
      (six 2 0 0 0 0 7)

-- A packet that was filled in for the inside interface.
abbrev filled : IpFrame
filled = record inbound { eth = record inbound.eth { ether_shost = inside.addr } }

filled-IsFrame : IsFrame filled
filled-IsFrame = record {
  dhost = six 2 0 0 0 0 2;
  shost = six 2 0 0 0 0 1;
  type = omega arith;
  header = inbound-Fits;
}

abbrev waiting : QueuedPacket
waiting = record { buf = frame_bytes filled; iface = inside.name }

abbrev request : ArpReq
request = record {
  addr = 4096;
  ip = to_inside.gw;
  sent = 20;
  times_sent = 1;
  packets = waiting ∷ [];
}

abbrev waiting_router : Instance
waiting_router = record router { cache = record { entries = unused ∷ []; requests = request ∷ [] } }

-- The reply of 10.0.0.9.
abbrev inside_reply : ArpHdr
inside_reply = record reply { ar_sha = inside_gw.mac; ar_sip = 167772169 }

inside_requested :
    find_request (htonl inside_reply.ar_sip) waiting_router.cache.requests ≡ some request
unfolding find_request htonl
inside_requested = refl

inside_alone :
    find_at request.addr (remove_request (htonl inside_reply.ar_sip) waiting_router.cache.requests)
    ≡ none
unfolding remove_request find_at htonl
inside_alone = refl

-- The packet as it waits.
abbrev queued_packet : IpFrame
queued_packet = record outbound { eth = record outbound.eth { ether_shost = outside.addr } }

unanswered-ends_example :
    let a : Sent = record { buf = request_frame outside to_outside.gw; iface = outside.name } in
    (sr_frwd_ip_pkt (sr_send_icmp_unreachable_pkt 1 20) router outbound 20 >>= λ r.
    sweeps 1 r.0 (21 ∷ 22 ∷ 23 ∷ 24 ∷ 26 ∷ []))
    ≡ some (record router {
      next_addr = 4097;
      sent = notice router queued_packet inbound_Reached ∷ a ∷ a ∷ a ∷ a ∷ a ∷ [];
    })
unfolding set_source
unanswered-ends_example =
    unanswered-ends 0 router outbound to_outside outside 20 21 22 23 24 26 refl outbound_route
      outbound_interface outbound_unknown (six 2 0 0 0 0 2) (six 2 0 0 0 0 2) (omega arith)
      outbound-Fits (whole inside_host outside_host) (omega arith) inbound_Reached
      (omega arith, omega arith, omega arith, omega arith, omega arith)
