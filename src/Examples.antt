-- ===== src/Examples.antt =====
-- The theorems at concrete inputs, and runs of the model on inputs that can be followed in the code.
mod NatTable
mod Transport
mod Router
mod Network
mod Forwarding
mod Link
mod Polling
mod Translation
mod Reassembly
mod Sessions
mod Transfer
