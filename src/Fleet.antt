-- ===== src/Fleet.antt =====
-- tools/fleet_control_plane.py: the controller's state, and the operations that its HTTP handler
-- calls. The handler's routing, the server and the command line are left out.
pub mod State
pub mod Keeps
pub mod Payload
pub mod Commands
pub mod Mirror
pub mod Intents
pub mod Report
pub mod Quiet
pub mod Lease
pub mod Sweep
pub mod Next
pub mod Session
pub mod Replies
pub mod Invariant
pub mod Trace
pub mod Revocation
pub mod Polling
pub mod Duplicate
pub mod Collision
mod Tests
