-- ===== src/SrVns.antt =====
-- The link to the simulator: the commands of cs144/router/sr_vns_comm.c that carry a frame or the
-- list of interfaces, and the test of the routes of cs144/router/sr_main.c. A read behind a command
-- or through a null pointer is `none`.
pub mod Hardware
pub mod Routes
pub mod Server
use stanford.Prelude.{
  ℕ, zero, suc, ◌+◌, ◌-◌, ◌/◌, Bool, true, false, not, ◌&&◌, ◌||◌, Option, none, some, List, [],
  ◌∷◌, ◌++◌, ◌==◌, ltb, if◌then◌else◌, ◌>>=◌, length, take, drop,
}
use stanford.Wire.{htons, htonl, read32}
use stanford.SrProtocol.{ethertype_arp, arp_op_request}
use stanford.SrProtocol.Layout.{read_bytes, read_eth, read_arp}
use stanford.SrNat.Sessions.{Headers}
use stanford.SrIf.{
  Iface, Instance, iface_namelen, sr_get_interface, sr_add_interface, sr_set_ether_addr,
  sr_set_ether_ip,
}
use stanford.SrIp.{Route}
use stanford.SrRouter.{sr_handlepacket}

-- The bytes before the NUL, of which at most `n` are looked at.
unfoldable pub c_string : ℕ → List ℕ → Option (List ℕ)
c_string zero mem = some []
c_string (suc n) [] = none
c_string (suc n) (b ∷ bs) =
    let rest = c_string n bs in if b == 0 then some [] else (rest >>= λ s. some (b ∷ s))

abbrev pub hw_interface : ℕ
hw_interface = 1

abbrev pub hw_ether : ℕ
hw_ether = 32

abbrev pub hw_eth_ip : ℕ
hw_eth_ip = 64

-- `c_hw_entry`, with its key in host order.
pub record HwEntry : Type 0 where
  pub key : ℕ
  pub value : List ℕ

unfoldable pub read_entry : List ℕ → Option (HwEntry × List ℕ)
unfolding read32
read_entry (k0 ∷ k1 ∷ k2 ∷ k3 ∷ rest) = read_bytes 32 rest >>= λ value.
    some (record { key = htonl (read32 k0 k1 k2 k3); value = value }, drop 32 rest)
read_entry _ = none

-- `*((uint32_t*)value)`.
unfoldable pub first_word : List ℕ → Option ℕ
unfolding read32
first_word (b0 ∷ b1 ∷ b2 ∷ b3 ∷ _) = some (read32 b0 b1 b2 b3)
first_word _ = none

-- The `switch` of `sr_handle_hwinfo`.
unfoldable pub handle_entry : List Iface → HwEntry → Option (List Iface)
handle_entry ifs e =
    if e.key == hw_interface
    then (c_string iface_namelen e.value >>= λ name. some (sr_add_interface ifs name))
    else (if e.key == hw_eth_ip
        then (first_word e.value >>= λ ip. sr_set_ether_ip ifs ip)
        else (if e.key == hw_ether
            then (read_bytes 6 e.value >>= λ addr. sr_set_ether_addr ifs addr)
            else some ifs))

unfoldable pub handle_entries : ℕ → List Iface → List ℕ → Option (List Iface)
handle_entries zero ifs mem = some ifs
handle_entries (suc n) ifs mem =
    read_entry mem >>= λ e. handle_entry ifs e.0 >>= λ ifs'. handle_entries n ifs' e.1

-- The command from its first byte on. It has the 8 bytes that its reader has looked at, and `mLen` is
-- its length.
unfoldable pub sr_handle_hwinfo : Instance → List ℕ → Option Instance
sr_handle_hwinfo sr buf = handle_entries ((length buf - 8) / 36) sr.if_list (drop 8 buf) >>= λ ifs.
    some (record sr { if_list = ifs })

-- The loop of `sr_verify_routing_table`, at its local `ret`.
unfoldable pub one_more : Option Iface → ℕ → ℕ
one_more none ret = ret + 1
one_more (some i) ret = ret

unfoldable pub count_missing : List Iface → List Route → ℕ → ℕ
count_missing ifs [] ret = ret
count_missing ifs (rt ∷ rts) ret =
    count_missing ifs rts (one_more (sr_get_interface ifs rt.iface) ret)

abbrev pub is_empty : {A : Type 0} → List A → Bool
is_empty [] = true
is_empty (x ∷ xs) = false

unfoldable pub sr_verify_routing_table : Instance → ℕ
sr_verify_routing_table sr =
    if is_empty sr.if_list || is_empty sr.routing_table
    then 999
    else count_missing sr.if_list sr.routing_table 0

-- The command with the hardware: the result is false for the code's -1.
unfoldable pub recv_hwinfo : Instance → List ℕ → Option (Instance × Bool)
recv_hwinfo sr buf = sr_handle_hwinfo sr buf >>= λ sr'. some (sr', sr_verify_routing_table sr' == 0)

unfoldable pub sr_arp_req_not_for_us : Instance → List ℕ → List ℕ → Option Bool
sr_arp_req_not_for_us sr packet interface =
    if ltb (length packet) 42
    then some false
    else (sr_get_interface sr.if_list interface >>= λ iface. read_eth packet >>= λ e.
        read_arp e.1 >>= λ a. some (
          e.0.ether_type == htons ethertype_arp
          && (a.ar_op == htons arp_op_request && not (a.ar_tip == iface.ip))))

-- The command with a frame. A shorter one than its header has a length that wraps, and is read behind.
unfoldable pub recv_packet : Headers → ℕ → ℕ → ℕ → Instance → List ℕ → Option Instance
recv_packet mem ip_ptr fuel now sr buf =
    if ltb (length buf) 24
    then none
    else (c_string iface_namelen (drop 8 buf) >>= λ interface.
        sr_arp_req_not_for_us sr (drop 24 buf) interface >>= λ drops.
        if drops then some sr else sr_handlepacket mem ip_ptr fuel now sr (drop 24 buf) interface)
