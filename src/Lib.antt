-- ===== src/Lib.antt =====
-- Verification of the two network programs of the cs144 course work: the reliable transport of
-- cs144/tcp and the router with NAT of cs144/router, both in C.
--
-- Parts and files:
--
-- - Wire.antt: byte order, and the Internet checksum `cksum` that cs144/tcp/rlib.c and
--   cs144/router/sr_utils.c both carry. Wire/Order has the laws of the byte order, Wire/Cksum those
--   of the checksum. Machine words are natural numbers with `% 2 ^ w` written out.
-- - Tcp.antt: the transport. A packet arrives at `rel_demux` or `rel_recvpkt` (Tcp/Session), which
--   classify it (Tcp/Packet; an acknowledgement is shorter than `packet_t`, so what the buffer holds
--   behind a datagram is there), and goes to `process_ack_pkt` (Tcp/Sender) or `process_data_pkt`
--   (Tcp/Receiver). These change `struct reliable_state` (Tcp/State) and call the connections of
--   cs144/tcp/rlib.c (Tcp/Conn) for input, output and network; Tcp/Conn/Poll has the poll masks, and
--   Tcp/Loop the event loop `conn_poll` and `do_client`, which call the handlers of the sessions.
--   Tcp/Receiver/Reassembly has the peer's stream that the receiver is measured by, Tcp/Receiver/Runs
--   the steps of a session, in any order, and Tcp/Sender/Apart what the sending half leaves alone.
--   Tcp/Sender/Chunks has the payloads that the sender makes of its input, and Tcp/Transfer puts both
--   ends and a network between them together.
--   Function names are those of cs144/tcp/reliable.c and cs144/tcp/rlib.c. A failed `assert`, an
--   abort and a fault are `none`.
-- - SrNat.antt: the mapping table of cs144/router/sr_nat.c; SrNat/Sessions has its connection
--   tracking and unsolicited SYNs, SrNat/Sweep the rounds of its timer thread, SrNat/Calls one step
--   of any of its entry points. The mutex is held during each, so an interleaving of the router and
--   the timer is a list of calls with their times.
-- - SrArpcache.antt: the address table and the request queue of cs144/router/sr_arpcache.c, one
--   function per call; SrArpcache/Waiting and SrArpcache/Queue are about the packets that wait,
--   SrArpcache/Entries about the table.
-- - SrIp.antt: the routes of cs144/router/sr_rt.c and their search in cs144/router/sr_ip.c;
--   addresses are the numbers in the `s_addr` fields. SrIp/Header has the headers of
--   cs144/router/sr_ip.c and cs144/router/sr_eth.c, SrIp/Forward the way of a packet to a gateway
--   whose Ethernet address is known or not, and SrIp/Load the file of routes, `sscanf` and
--   `inet_aton` being parameters.
-- - SrTcp.antt: the state tracking of cs144/router/sr_tcp.c, and SrTcp/Header its header functions;
--   SrProtocol.antt: the headers of cs144/router/sr_protocol.h, whose fields are in host or network
--   order as in the code, and SrProtocol/Layout how they lie in memory.
-- - SrIf.antt: the interfaces of cs144/router/sr_if.c, the state `struct sr_instance` of
--   cs144/router/sr_router.h, and `sr_send_packet` of cs144/router/sr_vns_comm.c up to its `write`.
-- - SrArp.antt: cs144/router/sr_arp.c and the sweep of cs144/router/sr_arpcache.c. SrArp/Retry is
--   about requests that go out again, SrArp/Reply and SrArp/Answered about their answers.
-- - SrIcmp.antt: cs144/router/sr_icmp.c; SrIcmp/Unanswered is about a gateway that never answers.
-- - SrNatHandler.antt: the translation of packets of cs144/router/sr_nat_handler.c, over SrNat.
-- - SrRouter.antt: `sr_handlepacket` of cs144/router/sr_router.c, from the bytes of a frame on. It
--   hands packets to all of the above; SrRouter/Transit, SrRouter/Ping and SrRouter/Drop follow
--   whole frames.
-- - SrVns.antt: the commands of cs144/router/sr_vns_comm.c that carry a frame or the interfaces,
--   and the test of the routes of cs144/router/sr_main.c. It sets up the state that SrRouter works
--   on. SrVns/Server has the reads from the socket and the handling of all commands, SHA-1 and the
--   files being parameters.
-- - Examples.antt: runs on concrete inputs.
--
-- The environment is explicit. `read`, `write` and `sendto` take their results from scripts in the
-- connection, any sequence of results being possible, and the clock is an argument. The memory that
-- stored header pointers refer to is a function whose `none` is freed memory. What ICMP does with
-- an unanswered SYN is a parameter of the timer round. Of the router, `sent` is the list of the
-- frames that were handed to `write`, requests of the ARP queue are named by their addresses,
-- `next_addr` being the one that `calloc` gives next, and a read behind the bytes of a packet,
-- through a null pointer or of a freed request is `none`.
--
-- Fuel: the loop of `cksum` that folds carries has 2 rounds, which do for every `uint32_t`. The
-- output loop of `output_pkts` has one round more than the window has slots: each round that does
-- not end it clears one slot that was taken. The input loop of `rel_read` counts down the free
-- slots of the window, as the code does. The sweep of ARP requests has as many rounds as there are
-- requests at its start. An unreachable message is forwarded, which can end another request and
-- send unreachable messages for it: the depth of that recursion has fuel, of which a message whose
-- receiver is reached over a known gateway takes one.
--
-- Not modelled: sockets and the options of cs144/tcp/rlib.c, with its debugging options that
-- duplicate, delay or corrupt packets; the changes of its poll masks between two calls of
-- `conn_mkevents`, since `poll` may report any event; the release of memory beyond what Tcp/Loop
-- says; the log output; of the router, its start and the opening of the socket to the simulator; the
-- SHA-1 of cs144/router/sha1.c, which is a copy of the code of RFC 3174; the C++, OpenCL, Python,
-- Scala and Matlab projects of the repository.
pub mod Prelude
pub mod Wire
pub mod SrProtocol
pub mod SrTcp
pub mod SrNat
pub mod SrArpcache
pub mod SrIp
pub mod SrIf
pub mod SrArp
pub mod SrIcmp
pub mod SrNatHandler
pub mod SrRouter
pub mod SrVns
pub mod Tcp
pub mod Examples
