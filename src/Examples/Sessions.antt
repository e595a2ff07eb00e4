-- ===== src/Examples/Sessions.antt =====
-- The list of sessions and the event loop of the transport.
use stanford.Prelude.{◌≡◌, refl, true, false, some, [], ◌∷◌}
use stanford.Tcp.Packet.{Packet, read_pkt, get_pkt_type, pkt_ntoh}
use stanford.Tcp.Packet.RoundTrip.{wire, data_pkt}
use stanford.Tcp.Conn.Poll.{no_event, Timespec}
use stanford.Tcp.State.{Rel, inet, new_rel}
use stanford.Tcp.Session.{Sessions, rel_demux, rel_timer}
use stanford.Tcp.Session.Demux.{Outcome, rel_demux-Outcome}
use stanford.Tcp.Session.Timer.{Ticked, rel_timer-Ticked}
use stanford.Tcp.Loop.{Readiness, nothing}
use stanford.Tcp.Loop.Calls.{Ensures}
use stanford.Tcp.Loop.Safety.{IsSafe}
use stanford.Tcp.Loop.Client.{Round, do_client, do_client-IsSafe}
use stanford.Examples.Reassembly.{open_conn, config, start}

-- The first packet of a peer, as it arrives.
abbrev first : Packet
first = read_pkt (wire (data_pkt 1 1 (65 ∷ 66 ∷ [])))

rel_demux-Outcome_example :
    Outcome
      (start ∷ [])
      (inet 3 4)
      config
      (some open_conn)
      (pkt_ntoh first)
      (get_pkt_type first 14)
      5
      (rel_demux (start ∷ []) config (inet 3 4) (some open_conn) first 14 5)
rel_demux-Outcome_example =
    rel_demux-Outcome (start ∷ []) config (inet 3 4) (some open_conn) first 14 5

-- Both sides of the session have ended.
abbrev ended : Rel
ended = record start { last_pkt_recvd_eof = true; read_eof = true; last_seqno_recvd = 1 }

rel_timer-Ticked_example :
    (s : Sessions) × (rel_timer (start ∷ ended ∷ []) 5 ≡ some s)
    × Ticked 5 (start ∷ ended ∷ []) s.rel_list s.destroyed
unfolding new_rel
rel_timer-Ticked_example = rel_timer-Ticked (start ∷ ended ∷ []) 5 (refl, (refl, tt))

abbrev midnight : Timespec
midnight = record { tv_sec = 0; tv_nsec = 0 }

-- A connection is accepted in the first round; in the second its network socket is broken.
abbrev accepting : Round
accepting = record {
  last = midnight;
  ts = midnight;
  now = 5;
  poll = λ s. [];
  listening = true;
  accepted = some 6;
  connected = some 7;
  addr = 4096;
  os = record { reads = []; writes = []; sends = [] };
}

abbrev quiet : Readiness
quiet = record {
  revents = record { pollin = false; pollout = false; pollerr = false; pollhup = false };
  datagram = nothing;
}

abbrev hung_up : Readiness
hung_up = record {
  revents = record { pollin = false; pollout = false; pollerr = true; pollhup = false };
  datagram = nothing;
}

abbrev breaking : Round
breaking = record accepting { poll = λ s. quiet ∷ quiet ∷ hung_up ∷ []; listening = false }

do_client-IsSafe_example :
    Ensures IsSafe (do_client no_event false 400 config (accepting ∷ breaking ∷ breaking ∷ []))
do_client-IsSafe_example =
    do_client-IsSafe no_event false 400 config (accepting ∷ breaking ∷ breaking ∷ [])
