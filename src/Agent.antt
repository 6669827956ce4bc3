-- ===== src/Agent.antt =====
-- scripts/termux_fleet_agent.py: the policy that the agent on the device applies to a command before
-- it runs anything. What a permitted command then does (processes, ADB, downloads), the HTTP calls
-- and the command line are left out.
pub mod Policy
pub mod Mirror
pub mod Admission
pub mod Gates
mod Tests
