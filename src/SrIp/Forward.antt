-- ===== src/SrIp/Forward.antt =====
-- The way of a packet out of the router: `sr_frwd_ip_pkt` of cs144/router/sr_ip.c.
pub mod Known
pub mod Unknown
use stanford.Prelude.{
  ℕ, suc, ◌+◌, Bool, true, false, Option, none, some, List, [], ◌∷◌, ◌++◌, ◌==◌, if◌then◌else◌,
  ◌>>=◌, take, length, replicate,
}
use stanford.Wire.{htonl}
use stanford.SrProtocol.{IpHdr, EthHdr, IpFrame, ethertype_ip}
use stanford.SrProtocol.Layout.{read_bytes, frame_bytes}
use stanford.SrArpcache.{ArpEntry, sr_arpcache_lookup, sr_arpcache_queuereq}
use stanford.SrIf.{Instance, Iface, sr_get_interface}
use stanford.SrIp.{Route, sr_find_longest_prefix_match}
use stanford.SrIp.Header.{sr_init_ip_hdr, get_eth_ip_pkt_len, sr_send_ip_pkt}
use stanford.SrArp.{sr_handle_cached_arp_req}

-- The frame with its source addresses filled in from the interface.
unfoldable pub set_source : Iface → IpFrame → IpFrame
set_source i f = record f {
  eth = record f.eth { ether_shost = take 6 i.addr };
  ip = record f.ip { ip_src = if f.ip.ip_src == 0 then htonl i.ip else f.ip.ip_src };
}

module _ (unreachable : Instance → ℕ → IpHdr → List ℕ → Option Instance) where
  -- The branch of `sr_frwd_ip_pkt` for a gateway whose address is not known.
  unfoldable pub queue_frame : Instance → IpFrame → Route → ℕ → Option Instance
  queue_frame sr f rt now = read_bytes (get_eth_ip_pkt_len f) (frame_bytes f) >>= λ buf.
      let (cache', req) =
        sr_arpcache_queuereq sr.cache sr.next_addr rt.gw (some buf) (some rt.iface) in
      sr_handle_cached_arp_req unreachable
        (record sr { cache = cache'; next_addr = suc sr.next_addr }) req.addr now

  unfoldable pub send_or_queue : Option ArpEntry → Instance → IpFrame → Route → ℕ → Option Instance
  send_or_queue none sr f rt now = queue_frame sr f rt now
  send_or_queue (some entry) sr f rt now =
      sr_send_ip_pkt sr (record f { eth = record f.eth { ether_dhost = entry.mac } }) rt.iface

  unfoldable pub frwd_by : Option Route → Instance → IpFrame → ℕ → Option (Instance × Bool)
  frwd_by none sr f now = some (sr, false)
  frwd_by (some rt) sr f now = sr_get_interface sr.if_list rt.iface >>= λ i.
      send_or_queue (sr_arpcache_lookup sr.cache rt.gw) sr (set_source i f) rt now >>= λ sr'.
      some (sr', true)

  -- The result is false for the code's -1, and true for its 0.
  unfoldable pub sr_frwd_ip_pkt : Instance → IpFrame → ℕ → Option (Instance × Bool)
  sr_frwd_ip_pkt sr f now =
      frwd_by (sr_find_longest_prefix_match sr.routing_table (htonl f.ip.ip_dst)) sr f now

  -- The Ethernet addresses of the new frame are not set before `sr_frwd_ip_pkt` sets them: they are
  -- zeros here.
  unfoldable pub sr_create_and_frwd_ip_pkt : Instance → ℕ → ℕ → List ℕ → ℕ → ℕ → Option Instance
  sr_create_and_frwd_ip_pkt sr ip_src ip_dst payload protocol now =
      sr_frwd_ip_pkt sr
        (record {
          eth = record {
            ether_dhost = replicate 6 0;
            ether_shost = replicate 6 0;
            ether_type = ethertype_ip;
          };
          ip = sr_init_ip_hdr ip_src ip_dst (length payload) protocol;
          payload = payload;
        })
        now
      >>= λ r. some r.0
