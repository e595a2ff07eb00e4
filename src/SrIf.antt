-- ===== src/SrIf.antt =====
-- The interfaces of cs144/router/sr_if.c and `struct sr_instance` of cs144/router/sr_router.h, with
-- the sending of frames by cs144/router/sr_vns_comm.c. Names are the bytes before their NUL.
use stanford.Prelude.{
  ℕ, Bool, true, false, Option, none, some, List, [], ◌∷◌, ◌++◌, ◌==◌, ltb, if◌then◌else◌, length,
  take, drop, replicate,
}
use stanford.Wire.{htonl}
use stanford.SrProtocol.Layout.{same_bytes}
use stanford.SrArpcache.{ArpCache}
use stanford.SrIp.{Route}
use stanford.SrNat.{Nat}

-- `struct sr_if`; `ip` is in network byte order. `speed` is not used.
pub record Iface : Type 0 where
  pub name : List ℕ
  pub addr : List ℕ
  pub ip : ℕ

abbrev pub iface_namelen : ℕ
iface_namelen = 32

-- `strncmp(a, b, sr_IFACE_NAMELEN) == 0`.
abbrev pub same_name : List ℕ → List ℕ → Bool
same_name a b = same_bytes (take iface_namelen a) (take iface_namelen b)

unfoldable pub sr_get_interface : List Iface → List ℕ → Option Iface
sr_get_interface [] name = none
sr_get_interface (i ∷ is) name = if same_name i.name name then some i else sr_get_interface is name

-- Memory from `malloc` is zero here until it is set. Both branches put the interface at the end.
unfoldable pub sr_add_interface : List Iface → List ℕ → List Iface
sr_add_interface ifs name =
    ifs ++ (record { name = take iface_namelen name; addr = replicate 6 0; ip = 0 } ∷ [])

-- The last interface of the list is changed; without one the assertion fails.
unfoldable pub update_last : (Iface → Iface) → List Iface → Option (List Iface)
update_last f [] = none
update_last f (i ∷ []) = some (f i ∷ [])
update_last f (i ∷ j ∷ is) = elim (update_last f (j ∷ is)) [
  | none ↦ none
  | some rest ↦ some (i ∷ rest)
]

unfoldable pub sr_set_ether_addr : List Iface → List ℕ → Option (List Iface)
sr_set_ether_addr ifs addr = update_last (λ i. record i { addr = addr }) ifs

unfoldable pub sr_set_ether_ip : List Iface → ℕ → Option (List Iface)
sr_set_ether_ip ifs ip_nbo = update_last (λ i. record i { ip = ip_nbo }) ifs

-- A frame that was written to the server's socket, with the name of its interface.
pub record Sent : Type 0 where
  pub buf : List ℕ
  pub iface : List ℕ

-- `struct sr_instance`. `sent` is what went out, the last one first; `next_addr` is the address that
-- the next `calloc` gives.
pub record Instance : Type 0 where
  pub if_list : List Iface
  pub routing_table : List Route
  pub cache : ArpCache
  pub nat : Option Nat
  pub sent : List Sent
  pub next_addr : ℕ

unfoldable pub is_iface_ip : ℕ → List Iface → Bool
is_iface_ip ip_dst_net [] = false
is_iface_ip ip_dst_net (i ∷ is) = if i.ip == ip_dst_net then true else is_iface_ip ip_dst_net is

-- `sr_is_router_ip` of cs144/router/sr_ip.c.
unfoldable pub sr_is_router_ip : Instance → ℕ → Bool
sr_is_router_ip sr ip_dst = is_iface_ip (htonl ip_dst) sr.if_list

unfoldable pub sr_ether_addrs_match_interface : Instance → List ℕ → List ℕ → Bool
unfolding sr_get_interface
sr_ether_addrs_match_interface sr buf name = elim (sr_get_interface sr.if_list name) [
  | none ↦ false
  | some i ↦ same_bytes (take 6 (drop 6 buf)) i.addr
]

-- A frame that is refused is not written. No caller looks at the result.
unfoldable pub sr_send_packet : Instance → List ℕ → List ℕ → Instance
sr_send_packet sr buf iface =
    if ltb (length buf) 14
    then sr
    else (if sr_ether_addrs_match_interface sr buf iface
        then record sr { sent = record { buf = buf; iface = iface } ∷ sr.sent }
        else sr)
