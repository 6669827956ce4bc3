-- ===== src/Send.antt =====
-- tools/peer_mesh_send_dry_run.py: a simulated sending of the ready dispatches of a plan. Reading
-- and writing files and the command line are left out.
pub mod Outcomes
pub mod Run
