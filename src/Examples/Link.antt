-- ===== src/Examples/Link.antt =====
-- An echo request to the router of Examples/Network, and the hardware command that sets it up.
use stanford.Prelude.{All, ℕ, none, List, ◌≡◌, refl, true, some, [], ◌∷◌, ◌++◌, arith}
use stanford.Wire.{htonl, cksum, sum_words, fold_carries, read16}
use stanford.SrProtocol.{IpHdr}
use stanford.SrProtocol.Layout.RoundTrip.{six}
use stanford.SrIf.{Iface, is_iface_ip, sr_is_router_ip, sr_get_interface}
use stanford.SrIp.Forward.Known.{between}
use stanford.SrRouter.{sr_handlepacket}
use stanford.SrRouter.Transit.{IsIpFrame, on_wire}
use stanford.SrRouter.Ping.{request_of, reply_of, handlepacket-pings}
use stanford.SrVns.{sr_handle_hwinfo, sr_verify_routing_table, one_more, count_missing}
use stanford.SrVns.Hardware.{IsInterface, ifaces_bytes, handle_hwinfo-adds}
use stanford.SrVns.Routes.{verify_routing_table-HasInterface}
use stanford.SrVns.Server.{
  Recv, got, interrupted, Link, Outside, command_len, ending, expect_command,
  sr_read_from_server_expect,
}
use stanford.SrVns.Server.Pieces.{all_bytes, IsSteady}
use stanford.SrVns.Server.Framing.{sr_read_from_server_expect-Framed}
use stanford.Examples.Network.{
  inside, outside, inside_gw, to_inside, router, udp_header, inside_host, inbound, inbound_Reached,
  no_headers,
}

-- From 10.0.0.5 to 10.0.0.1.
abbrev ping_header : IpHdr
ping_header = record (udp_header inside_host 167772161) { ip_len = 28; ip_p = 1 }

ping-IsIpFrame : IsIpFrame (request_of inbound.eth ping_header 0 247 253 (0 ∷ 1 ∷ 0 ∷ 1 ∷ []))
ping-IsIpFrame = record {
  frame = record {
    dhost = six 2 0 0 0 0 2;
    shost = six 2 0 0 0 0 8;
    type = omega arith;
    header = record {
      hl = omega arith;
      len = omega arith;
      id = omega arith;
      off = omega arith;
      sum = omega arith;
      src = omega arith;
      dst = omega arith;
    };
  };
  ip = refl;
  no_options = refl;
  len = refl;
}

ping_sum : read16 247 253 ≡ cksum (8 ∷ 0 ∷ 0 ∷ 0 ∷ 0 ∷ 1 ∷ 0 ∷ 1 ∷ [])
unfolding read16 cksum sum_words fold_carries
ping_sum = refl

ping_ours : sr_is_router_ip router ping_header.ip_dst ≡ true
unfolding sr_is_router_ip is_iface_ip htonl
ping_ours = refl

handlepacket-pings_example :
    sr_handlepacket no_headers 0 1 20 router
      (on_wire (request_of inbound.eth ping_header 0 247 253 (0 ∷ 1 ∷ 0 ∷ 1 ∷ [])))
      inside.name
    ≡ some (record router {
      sent =
          record {
            buf =
                on_wire
                  (between inside_gw.mac inside.addr (reply_of ping_header 0 (0 ∷ 1 ∷ 0 ∷ 1 ∷ [])));
            iface = inside.name;
          }
          ∷ [];
    })
unfolding inbound_Reached
handlepacket-pings_example =
    handlepacket-pings inbound.eth ping_header 0 247 253 (0 ∷ 1 ∷ 0 ∷ 1 ∷ []) ping-IsIpFrame
      ping_sum no_headers 0 1 20 router inside.name refl (omega arith) ping_ours refl
      inbound_Reached

inside-IsInterface : IsInterface inside
inside-IsInterface = record {
  named = ((refl, (refl, (refl, (refl, tt)))), omega arith);
  addr = six 2 0 0 0 0 1;
  ip = omega arith;
}

outside-IsInterface : IsInterface outside
outside-IsInterface = record {
  named = ((refl, (refl, (refl, (refl, tt)))), omega arith);
  addr = six 2 0 0 0 0 2;
  ip = omega arith;
}

handle_hwinfo-adds_example :
    sr_handle_hwinfo
      (record router { if_list = [] })
      ((0 ∷ 0 ∷ 0 ∷ 224 ∷ 0 ∷ 0 ∷ 0 ∷ 16 ∷ []) ++ ifaces_bytes (inside ∷ outside ∷ []))
    ≡ some router
handle_hwinfo-adds_example =
    handle_hwinfo-adds (record router { if_list = [] }) (0 ∷ 0 ∷ 0 ∷ 224 ∷ 0 ∷ 0 ∷ 0 ∷ 16 ∷ [])
      (inside ∷ outside ∷ []) refl (inside-IsInterface, (outside-IsInterface, tt))

router_verified : sr_verify_routing_table router ≡ 0
unfolding sr_verify_routing_table count_missing one_more sr_get_interface
router_verified = refl

verify_routing_table-HasInterface_example :
    (i : Iface) × (sr_get_interface router.if_list to_inside.iface ≡ some i)
unfolding inbound_Reached
verify_routing_table-HasInterface_example =
    verify_routing_table-HasInterface router (htonl inside_host) to_inside router_verified
      inbound_Reached.routed

-- An authentication status of nine bytes that comes in two pieces, with a signal in between and the
-- first byte of the next command behind it.
abbrev status : List ℕ
status = 0 ∷ 0 ∷ 0 ∷ 9 ∷ 0 ∷ 0 ∷ 2 ∷ 0 ∷ 1 ∷ []

abbrev pieces : List Recv
pieces = got (0 ∷ 0 ∷ []) ∷ interrupted ∷ got (0 ∷ 9 ∷ 0 ∷ 0 ∷ 2 ∷ 0 ∷ 1 ∷ 0 ∷ []) ∷ []

abbrev link : Link
link = record { inst = router; user = 117 ∷ []; sent_commands = []; files = [] }

abbrev outside_world : Outside
outside_world = record {
  auth_key = none;
  sha1 = λ bytes. none;
  rtable_opens = true;
  send_takes = true;
}

status_len : command_len status ≡ 9
unfolding command_len htonl
status_len = refl

sr_read_from_server_expect-Framed_example :
    (rest : List Recv) × (sr_read_from_server_expect outside_world no_headers 0 10 5 link 0 pieces
      ≡ ending rest (expect_command outside_world no_headers 0 10 5 link 0 status))
    × (all_bytes rest ≡ 0 ∷ [])
    × All IsSteady rest
sr_read_from_server_expect-Framed_example =
    sr_read_from_server_expect-Framed outside_world no_headers 0 10 5 link 0 pieces status (0 ∷ [])
      (tt, (tt, (tt, tt))) refl (omega arith) status_len (omega arith)
