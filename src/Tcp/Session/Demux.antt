-- ===== src/Tcp/Session/Demux.antt =====
-- `rel_demux` of reliable.c: which session a packet changes.
use stanford.Prelude.{
  ℕ, ◌≡◌, refl, inl, inr, ◌⊎◌, true, Option, none, some, List, ◌∷◌, arith, ◌==◌, ◌≢◌, ℕ_discrete,
  ne→==, ◌>>=◌,
}
use stanford.Tcp.Packet.{
  Packet, PacketType, data_packet, ack_packet, invalid_packet, get_pkt_type, pkt_ntoh,
}
use stanford.Tcp.Conn.{Conn}
use stanford.Tcp.State.{Rel, Config, Sockaddr, new_rel}
use stanford.Tcp.Session.{process_pkt, serve_session, process_first_pkt, demux_valid, rel_demux}
use stanford.Tcp.Session.Walk.{Unknown, Served, Stopped, Walked, serve_session-Walked}

-- The packet opened a session, which stands in front of the others and has processed it.
pub record Opened (rs rs' : List Rel) (ss : Sockaddr) (cfg : Config) (conn : Option Conn)
    (pkt : Packet) (now : ℕ) : Type 0 where
  pub made : Conn
  pub created : conn ≡ some made
  pub opened : Rel
  pub new : rs' ≡ opened ∷ rs
  pub unknown : Unknown ss rs
  pub first : pkt.seqno ≡ 1
  pub processed : process_pkt (new_rel made ss cfg) pkt data_packet now ≡ some opened

-- What a packet of type `t` does to the list of sessions.
pub data Demuxed (rs rs' : List Rel) (ss : Sockaddr) (cfg : Config) (conn : Option Conn)
    (pkt : Packet) (t : PacketType) (now : ℕ) : Type 0 where
  ignored :
      rs' ≡ rs
      → (t ≡ invalid_packet) ⊎ (Unknown ss rs × ((t ≡ ack_packet) ⊎ (pkt.seqno ≢ 1)))
      → Demuxed rs rs' ss cfg conn pkt t now
  served : t ≢ invalid_packet → Served rs rs' ss pkt t now → Demuxed rs rs' ss cfg conn pkt t now
  opens : t ≡ data_packet → Opened rs rs' ss cfg conn pkt now → Demuxed rs rs' ss cfg conn pkt t now

-- The packet would open a session, but there is no connection for it, or it faults.
pub record NotOpened (rs : List Rel) (ss : Sockaddr) (cfg : Config) (conn : Option Conn)
    (pkt : Packet) (now : ℕ) : Type 0 where
  pub unknown : Unknown ss rs
  pub first : pkt.seqno ≡ 1
  pub fault :
      (conn ≡ none)
      ⊎ ((c : Conn) × (conn ≡ some c) × (process_pkt (new_rel c ss cfg) pkt data_packet now ≡ none))

-- What the call does when it returns, and why it faults when it does.
abbrev pub Outcome :
    List Rel
    → Sockaddr
    → Config
    → Option Conn
    → Packet
    → PacketType
    → ℕ
    → Option (List Rel)
    → Type 0
Outcome rs ss cfg conn pkt t now none =
    (t ≢ invalid_packet)
    × (Stopped rs ss pkt t now ⊎ ((t ≡ data_packet) × NotOpened rs ss cfg conn pkt now))
Outcome rs ss cfg conn pkt t now (some rs') = Demuxed rs rs' ss cfg conn pkt t now

open_session :
    (rs : List Rel) (ss : Sockaddr) (cfg : Config) (conn : Option Conn) (pkt : Packet) (now : ℕ)
    (o : Option Rel) (c : Conn)
    → conn ≡ some c
    → Unknown ss rs
    → pkt.seqno ≡ 1
    → process_pkt (new_rel c ss cfg) pkt data_packet now ≡ o
    → Outcome rs ss cfg conn pkt data_packet now (o >>= λ r. some (r ∷ rs))
open_session rs ss cfg conn pkt now none c e u f g =
    (λ q. cc, inr (refl, record { unknown = u; first = f; fault = inr (c, e, g) }))
open_session rs ss cfg conn pkt now (some r) c e u f g = opens refl (record {
  made = c;
  created = e;
  opened = r;
  new = refl;
  unknown = u;
  first = f;
  processed = g;
})

first_data :
    (rs : List Rel) (ss : Sockaddr) (cfg : Config) (conn : Option Conn) (pkt : Packet) (now : ℕ)
    → Unknown ss rs
    → Outcome rs ss cfg conn pkt data_packet now
        (process_first_pkt rs conn pkt data_packet ss cfg now)
unfolding process_first_pkt
first_data rs ss cfg conn pkt now u = elim (ℕ_discrete pkt.seqno 1) [
  | no other ↦ rw (ne→== pkt.seqno 1 other) (ignored refl (inr (u, inr other)))
  | yes e ↦ rw (let q : (pkt.seqno == 1) ≡ true = ground (arith, e) in q) (opens_by e conn)
]
  where
    opens_by :
        pkt.seqno ≡ 1
        → (conn : Option Conn)
        → Outcome rs ss cfg conn pkt data_packet now (
            conn >>= λ c. process_pkt (new_rel c ss cfg) pkt data_packet now >>= λ r. some (r ∷ rs))
    opens_by e none = (λ q. cc, inr (refl, record { unknown = u; first = e; fault = inl refl }))
    opens_by e (some c) = open_session rs ss cfg (some c) pkt now _ c refl u e refl

-- The packet by what the walk found.
by_session :
    (rs : List Rel) (ss : Sockaddr) (cfg : Config) (conn : Option Conn) (pkt : Packet)
    (t : PacketType) (now : ℕ) (found : Option (Option (List Rel)))
    → serve_session rs ss (pkt_ntoh pkt) t now ≡ found
    → Walked rs ss (pkt_ntoh pkt) t now found
    → Outcome rs ss cfg conn (pkt_ntoh pkt) t now (demux_valid rs cfg ss conn pkt t now)
unfolding demux_valid process_first_pkt
by_session rs ss cfg conn pkt invalid_packet now found e w = ignored refl (inl refl)
by_session rs ss cfg conn pkt data_packet now none e w = rw e (λ q. cc, inl w)
by_session rs ss cfg conn pkt data_packet now (some (some rs')) e w = rw e (served (λ q. cc) w)
by_session rs ss cfg conn pkt data_packet now (some none) e w =
    rw e (first_data rs ss cfg conn (pkt_ntoh pkt) now w)
by_session rs ss cfg conn pkt ack_packet now none e w = rw e (λ q. cc, inl w)
by_session rs ss cfg conn pkt ack_packet now (some (some rs')) e w = rw e (served (λ q. cc) w)
by_session rs ss cfg conn pkt ack_packet now (some none) e w =
    rw e (ignored refl (inr (w, inl refl)))

-- What `rel_demux` does to the sessions. An invalid packet changes nothing. A valid one from a known
-- address is processed by the first session with that address, and no other session changes. From
-- an unknown address, a data packet numbered 1 opens a session, which stands in front of the others
-- and processes it; any other packet changes nothing. The call faults only on a valid packet: when the
-- walk meets an address of an unknown family, when the session that processes the packet faults, or
-- when the connection for a new session cannot be made.
pub rel_demux-Outcome :
    (rs : List Rel) (cfg : Config) (ss : Sockaddr) (conn : Option Conn) (pkt : Packet) (len now : ℕ)
    → Outcome rs ss cfg conn
        (pkt_ntoh pkt)
        (get_pkt_type pkt len)
        now
        (rel_demux rs cfg ss conn pkt len now)
unfolding rel_demux
rel_demux-Outcome rs cfg ss conn pkt len now =
    by_session rs ss cfg conn pkt (get_pkt_type pkt len) now _ refl
      (serve_session-Walked rs ss (pkt_ntoh pkt) (get_pkt_type pkt len) now)
