-- ===== src/Delivery.antt =====
-- tools/peer_mesh_delivery.py: the sender's record of gossip deliveries. Reading and writing files
-- and the command line are left out.
pub mod Validate
pub mod Update
pub mod Expiry
pub mod Totals
mod Tests
