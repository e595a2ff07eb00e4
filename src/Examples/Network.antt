-- ===== src/Examples/Network.antt =====
-- A router with an inside and an outside interface, and packets between the two.
use stanford.Prelude.{ℕ, ◌≡◌, refl, true, false, none, some, [], ◌∷◌, arith}
use stanford.Wire.{htonl}
use stanford.SrProtocol.{IpHdr, IpFrame}
use stanford.SrProtocol.Layout.RoundTrip.{Fits, six}
use stanford.SrProtocol.Layout.Cut.{IsWhole}
use stanford.SrArpcache.{ArpEntry, last_entry, sr_arpcache_lookup}
use stanford.SrNat.Sessions.{Headers}
use stanford.SrIf.{Iface, Instance, sr_get_interface, is_iface_ip, sr_is_router_ip}
use stanford.SrIp.{Route, match_loop, longer, sr_find_longest_prefix_match}
use stanford.SrIp.Forward.{set_source}
use stanford.SrIcmp.Unanswered.{Reached}
use stanford.SrRouter.Transit.{IsIpFrame}

abbrev pub no_headers : Headers
no_headers ip_ptr = none

-- 10.0.0.1 and 172.16.0.1.
abbrev pub inside : Iface
inside = record {
  name = 101 ∷ 116 ∷ 104 ∷ 49 ∷ [];
  addr = 2 ∷ 0 ∷ 0 ∷ 0 ∷ 0 ∷ 1 ∷ [];
  ip = 16777226;
}

abbrev pub outside : Iface
outside = record {
  name = 101 ∷ 116 ∷ 104 ∷ 50 ∷ [];
  addr = 2 ∷ 0 ∷ 0 ∷ 0 ∷ 0 ∷ 2 ∷ [];
  ip = 16781484;
}

-- 10.0.0.0/8 over 10.0.0.9, and 172.0.0.0/8 over 172.16.0.9.
abbrev pub to_inside : Route
to_inside = record { dest = 10; gw = 150994954; mask = 255; iface = inside.name }

abbrev pub to_outside : Route
to_outside = record { dest = 172; gw = 150999212; mask = 255; iface = outside.name }

abbrev pub inside_gw : ArpEntry
inside_gw = record { mac = 2 ∷ 0 ∷ 0 ∷ 0 ∷ 0 ∷ 9 ∷ []; ip = 150994954; added = 10; valid = true }

abbrev pub unused : ArpEntry
unused = record { mac = 0 ∷ 0 ∷ 0 ∷ 0 ∷ 0 ∷ 0 ∷ []; ip = 0; added = 0; valid = false }

abbrev pub router : Instance
router = record {
  if_list = inside ∷ outside ∷ [];
  routing_table = to_inside ∷ to_outside ∷ [];
  cache = record { entries = inside_gw ∷ unused ∷ []; requests = [] };
  nat = none;
  sent = [];
  next_addr = 4096;
}

abbrev pub udp_header : ℕ → ℕ → IpHdr
udp_header src dst = record {
  ip_hl = 5;
  ip_v = 4;
  ip_tos = 0;
  ip_len = 30;
  ip_id = 7;
  ip_off = 0;
  ip_ttl = 64;
  ip_p = 17;
  ip_sum = 0;
  ip_src = src;
  ip_dst = dst;
}

abbrev pub udp_frame : ℕ → ℕ → IpFrame
udp_frame src dst = record {
  eth = record {
    ether_dhost = 2 ∷ 0 ∷ 0 ∷ 0 ∷ 0 ∷ 2 ∷ [];
    ether_shost = 2 ∷ 0 ∷ 0 ∷ 0 ∷ 0 ∷ 8 ∷ [];
    ether_type = 2048;
  };
  ip = udp_header src dst;
  payload = 0 ∷ 53 ∷ 0 ∷ 53 ∷ 0 ∷ 10 ∷ 0 ∷ 0 ∷ 104 ∷ 105 ∷ [];
}

-- 10.0.0.5 and 172.16.0.7, in host order.
abbrev pub inside_host : ℕ
inside_host = 167772165

abbrev pub outside_host : ℕ
outside_host = 2886729735

-- From the outside to the inside, and back.
abbrev pub inbound : IpFrame
inbound = udp_frame outside_host inside_host

abbrev pub outbound : IpFrame
outbound = udp_frame inside_host outside_host

pub inbound-Fits : Fits inbound.ip
inbound-Fits = record {
  hl = omega arith;
  len = omega arith;
  id = omega arith;
  off = omega arith;
  sum = omega arith;
  src = omega arith;
  dst = omega arith;
}

pub inbound-IsIpFrame : IsIpFrame inbound
inbound-IsIpFrame = record {
  frame = record {
    dhost = six 2 0 0 0 0 2;
    shost = six 2 0 0 0 0 8;
    type = omega arith;
    header = inbound-Fits;
  };
  ip = refl;
  no_options = refl;
  len = refl;
}

unfoldable pub inbound_Reached : Reached router inside_host
unfolding sr_find_longest_prefix_match match_loop longer htonl sr_get_interface sr_arpcache_lookup
    last_entry
inbound_Reached = record {
  rt = to_inside;
  i = inside;
  entry = inside_gw;
  routed = refl;
  over = refl;
  known = refl;
  own = six 2 0 0 0 0 1;
  mac = six 2 0 0 0 0 9;
}

pub outbound-Fits : Fits outbound.ip
outbound-Fits = record {
  hl = omega arith;
  len = omega arith;
  id = omega arith;
  off = omega arith;
  sum = omega arith;
  src = omega arith;
  dst = omega arith;
}

pub filled-Fits : Fits (set_source outside outbound).ip
unfolding set_source
filled-Fits = outbound-Fits

pub whole : (src dst : ℕ) → IsWhole (udp_frame src dst)
whole src dst = record { header = omega arith; there = omega arith }

pub outbound_route :
    sr_find_longest_prefix_match router.routing_table (htonl outbound.ip.ip_dst) ≡ some to_outside
unfolding sr_find_longest_prefix_match match_loop longer htonl
outbound_route = refl

pub outbound_interface : sr_get_interface router.if_list to_outside.iface ≡ some outside
unfolding sr_get_interface
outbound_interface = refl

pub outbound_unknown : sr_arpcache_lookup router.cache to_outside.gw ≡ none
unfolding sr_arpcache_lookup last_entry
outbound_unknown = refl

pub inbound_here : sr_is_router_ip router inbound.ip.ip_dst ≡ false
unfolding sr_is_router_ip is_iface_ip htonl
inbound_here = refl
