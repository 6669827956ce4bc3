-- ===== src/Lib.antt =====
-- Quest Termux Lab: the controller, the agent and the peer mesh tools that decide what may run on
-- a fleet of headsets.
--
-- The parts and how they interact. tools/fleet_control_plane.py is the controller: it keeps
-- heartbeats, command queues, mirror leases and mirror intents, and agents poll it for commands.
-- scripts/termux_fleet_agent.py is the agent, which admits a command before it runs anything.
-- tools/peer_mesh_gossip.py spreads status observations between agents;
-- tools/peer_mesh_delivery.py tracks the delivery of gossip envelopes;
-- tools/peer_mesh_retry_plan.py and tools/peer_mesh_dispatch_plan.py plan over a delivery state;
-- tools/peer_mesh_send_dry_run.py runs a plan against made-up outcomes;
-- tools/peer_mesh_route_health.py and tools/peer_mesh_route_history.py report on routes;
-- tools/peer_mesh_topology.py finds which expected peers are reachable,
-- tools/peer_mesh_live_lab_readiness.py holds the history against a policy,
-- tools/peer_mesh_lab_bundle.py checks the artifacts of an experiment together, and
-- tools/peer_mesh_trust_gate.py reviews the peers and sample envelopes of a bundle;
-- tools/peer_mesh_rehearsal.py plans the phases of an experiment, and
-- tools/peer_mesh_cleanup_plan.py the steps after it;
-- tools/peer_mesh_evidence_intake.py judges the artifacts that it leaves;
-- tools/peer_mesh_scorecard.py scores the reports together,
-- tools/peer_mesh_scorecard_history.py compares scorecards in time, and
-- tools/peer_mesh_scorecard_regression.py holds that history against a policy.
--
-- Files. Base has the shared names. Py has the runtime that the tools stand on: JSON values,
-- dictionaries, exceptions as values, datetimes, and the parts of the standard library that are
-- parameters (Py/Stdlib). Entries has what the report tools repeat, and ByTime puts reports in the
-- order of their times. Gossip, Delivery, Retry, Dispatch, Send, Health, Topology, Readiness,
-- Bundle, Trust, Rehearsal, Cleanup, Intake, Scorecard, Regression, Fleet and Agent model the
-- tools of those names; a function keeps its name, and a function of a class takes the class's
-- state. FleetState and GossipState are records. The controller's operations live in a monad
-- (Fleet/State) that gives the state back beside an exception, since an operation may raise after
-- it has changed the state; the clock is a function from readings to instants. A function that
-- changes no state returns a Result. Part of a function that splits on a computed value is a
-- function of its own. Proofs stand beside: Gossip/Relay, Gossip/Conversion, Gossip/State/Merge,
-- Agent/Gates, Delivery/Expiry, Delivery/Totals, Retry/Due, Dispatch/Ready, Health/Statuses,
-- Health/Trend, Health/Totals, ByTime/Sorted, Scorecard/Steady, Scorecard/Deltas,
-- Scorecard/Clear, Scorecard/Cleared, Scorecard/Covered, Regression/Clear, Rehearsal/Ready,
-- Cleanup/Required, Intake/Accepted, Intake/Complete, Entries/Counts, Entries/Texts,
-- Topology/Edges, Topology/Agents, Topology/Made, Topology/Total, Topology/Counts,
-- Topology/Targets, Topology/Report, Topology/Shows, Readiness/Ready, Bundle/Ready,
-- Trust/Samples, Trust/Trusted, and, for
-- the controller, Fleet/Keeps (rules for what operations keep), Fleet/Quiet, Fleet/Replies,
-- Fleet/Invariant and Fleet/Trace (invariants over runs of requests), Fleet/Lease,
-- Fleet/Revocation, Fleet/Sweep, Fleet/Next, Fleet/Polling, Fleet/Duplicate and Fleet/Collision.
-- The modules called Tests apply the theorems at concrete inputs, with the sample library of
-- Py/Sample.
--
-- Bounds and fuel. No definition uses fuel: every loop of the modelled code is a recursion over a
-- list, a dictionary or a JSON value. Integers have no bound, as in Python; instants are natural
-- numbers of microseconds.
--
-- Not modelled: reading and writing files, command lines, sockets, threads and processes; the
-- paths and bodies of HTTP requests before they are routed; floating-point numbers, which are kept
-- by their text; the handlers of the agent's commands; and the other tools, most of which repeat
-- the checks of the modelled ones over other documents.
mod Base
pub mod Py
pub mod Gossip
pub mod Delivery
pub mod Retry
pub mod Dispatch
pub mod Send
pub mod Fleet
pub mod Health
pub mod Intake
pub mod Agent
pub mod Entries
pub mod Readiness
pub mod Topology
pub mod Bundle
pub mod Trust
pub mod ByTime
pub mod Scorecard
pub mod Rehearsal
pub mod Regression
pub mod Cleanup
