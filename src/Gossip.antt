-- ===== src/Gossip.antt =====
-- tools/peer_mesh_gossip.py: envelopes of status observations, and their merge into the state of
-- an observer. Reading and writing files and the command line are left out.
pub mod Envelope
pub mod State
pub mod Relay
pub mod Conversion
mod Tests
