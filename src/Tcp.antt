-- ===== src/Tcp.antt =====
-- cs144/tcp: the sliding-window transport of reliable.c over the connections of rlib.c.
pub mod Packet
pub mod Conn
pub mod State
pub mod Sender
pub mod Receiver
pub mod Session
pub mod Loop
pub mod Transfer
