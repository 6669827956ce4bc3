-- ===== src/Health.antt =====
-- tools/peer_mesh_route_health.py and tools/peer_mesh_route_history.py: the status of the configured
-- routes from simulated evidence, and its trend over several reports. Reading and writing files and
-- the command lines are left out.
pub mod Report
pub mod History
pub mod Routes
pub mod Totals
pub mod Statuses
pub mod Trend
mod Tests
