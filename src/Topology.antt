-- ===== src/Topology.antt =====
-- tools/peer_mesh_topology.py: which of the expected peers are reachable from one source, by the
-- configured routes and a route-health report. Reading and writing files and the command line are
-- left out; the validation of a topology report is in Topology/Validate.
pub mod Validate
pub mod Checks
pub mod Edges
pub mod Counts
pub mod Agents
pub mod Made
pub mod Total
pub mod Targets
pub mod Ready
pub mod Report
pub mod Shows
mod Tests
use quest_termux_lab.Base.{
  Bool, List, Option, String, [], all, false, if◌then◌else◌, keep, length, map, member, none, not,
  some, true, ℕ, ◌+◌, ◌-◌, ◌==◌, ◌∷◌,
}
use quest_termux_lab.Entries.{count_where}
use quest_termux_lab.Health.Report.{get_from}
use quest_termux_lab.Py.Dict.{Table, insert, item, list_of, lookup, py_eq}
use quest_termux_lab.Py.Result.{
  Result, err, guard, map_ok, ok, type_error, value_error, ◌>>=◌, ◌>>◌,
}
use quest_termux_lab.Py.Stdlib.{Stdlib, text_of}
use quest_termux_lab.Py.Text.{sort_texts}
use quest_termux_lab.Py.Value.{Fields, Value, is_str, null, obj, str, text}

abbrev pub topology_manifest_schema : String
topology_manifest_schema = "quest-termux-lab.peer-topology-manifest.v1"

abbrev pub topology_report_schema : String
topology_report_schema = "quest-termux-lab.peer-topology-report.v1"

abbrev pub topology_statuses : List String
topology_statuses = "topology_ready" ∷ "manual_review" ∷ "topology_blocked" ∷ []

abbrev pub reachability_statuses : List String
reachability_statuses =
    "reachable" ∷ "degraded" ∷ "unreachable" ∷ "disabled" ∷ "unknown" ∷ "missing_health"
    ∷ "missing_route" ∷ []

pub record Reach : Type 0 where
  pub transport_mode : String
  pub status : String
  pub reason : String

abbrev pub reach : String → String → String → Reach
reach transport_mode status reason = record {
  transport_mode = transport_mode;
  status = status;
  reason = reason;
}

-- The branches of reachability_for on a health status.
unfoldable pub reachability_of : String → String → Reach
reachability_of mode status =
    if status == "healthy"
    then reach mode "reachable" "route-health status is healthy"
    else if status == "degraded"
    then reach mode "degraded" "route-health status is degraded"
    else if status == "unavailable"
    then reach mode "unreachable" "route-health status is unavailable"
    else if status == "disabled"
    then reach mode "disabled" "route-health status is disabled"
    else reach mode "unknown" "route-health status is unknown"

pub record Edge : Type 0 where
  pub source_agent_id : Value
  pub target_agent_id : Value
  pub configured : Bool
  pub transport_mode : String
  pub route_health_status : Value
  pub reachability_status : String
  pub reason : String

abbrev pub is_some {ℓ} : {A : Type ℓ} → Option A → Bool
is_some none = false
is_some (some a) = true

pub record Summary : Type 0 where
  pub expected_agent_count : ℕ
  pub expected_target_count : ℕ
  pub edge_count : ℕ
  pub configured_edge_count : ℕ
  pub missing_route_count : ℕ
  pub missing_health_count : ℕ
  pub reachable_edge_count : ℕ
  pub degraded_edge_count : ℕ
  pub unreachable_edge_count : ℕ
  pub reachable_agent_count : ℕ
  pub non_ready_edge_count : ℕ

abbrev pub edge_is : String → Edge → Bool
edge_is status edge = edge.reachability_status == status

abbrev pub edge_in : List String → Edge → Bool
edge_in statuses edge = member edge.reachability_status statuses

-- max(n - 1, 0) is the subtraction that stops at 0, and so is len(edges) - reachable_edge_count,
-- where the count is of some of the edges.
unfoldable pub summarize : List String → List Edge → Summary
summarize expected edges =
    let reachable = count_where (edge_is "reachable") edges in
    record {
      expected_agent_count = length expected;
      expected_target_count = length expected - 1;
      edge_count = length edges;
      configured_edge_count = count_where (λ e. e.configured) edges;
      missing_route_count = count_where (edge_is "missing_route") edges;
      missing_health_count = count_where (edge_is "missing_health") edges;
      reachable_edge_count = reachable;
      degraded_edge_count = count_where (edge_is "degraded") edges;
      unreachable_edge_count =
          count_where (edge_in ("unreachable" ∷ "disabled" ∷ "unknown" ∷ [])) edges;
      reachable_agent_count = 1 + reachable;
      non_ready_edge_count = length edges - reachable;
    }

-- manifest["source_agent_id"], which is read for each of the expected agents
abbrev pub source_of : Fields → List Value → Result Value
source_of manifest [] = ok null
source_of manifest (agent ∷ agents) = item manifest "source_agent_id"

module _ (lib : Stdlib) where
  -- { str(route["target_agent_id"]): dict(route) for route in routes }
  unfoldable pub routes_by_target : Table Fields → List Value → Result (Table Fields)
  unfolding insert
  routes_by_target table [] = ok table
  routes_by_target table (obj route ∷ vs) = item route "target_agent_id" >>= λ target.
      routes_by_target (insert table (text_of lib target) route) vs
  routes_by_target table (_ ∷ vs) = err type_error

  -- route_config_by_target and route_health_by_target, which differ in the document only
  unfoldable pub route_config_by_target : Fields → Result (Table Fields)
  unfolding routes_by_target
  route_config_by_target document = do
    held ← item document "routes"
    routes ← list_of held
    routes_by_target [] routes

  unfoldable pub reachability_for : Option Fields → Option Fields → Result Reach
  unfolding reachability_of
  reachability_for none health =
      ok (reach "none" "missing_route" "no configured route for expected target")
  reachability_for (some route) none = item route "transport_mode" >>= λ mode.
      ok (reach (text_of lib mode) "missing_health" "configured route has no route-health evidence")
  reachability_for (some route) (some health) = do
    mode ← item route "transport_mode"
    status ← item health "status"
    ok (reachability_of (text_of lib mode) (text_of lib status))

  -- The entry that topology_edges appends.
  unfoldable pub edge_entry : Value → Option Fields → Option Fields → Value → Reach → Edge
  edge_entry source route health target found = record {
    source_agent_id = source;
    target_agent_id = target;
    configured = is_some route;
    transport_mode = found.transport_mode;
    route_health_status = get_from health "status";
    reachability_status = found.status;
    reason = found.reason;
  }

  -- One round of the loop of topology_edges.
  unfoldable pub topology_edge : Value → Option Fields → Option Fields → Value → Result Edge
  unfolding edge_entry reachability_for
  topology_edge source route health target = do
    found ← reachability_for route health
    guard (member found.status reachability_statuses)
        (value_error "unsupported reachability status")
    ok (edge_entry source route health target found)

  abbrev pub edge_to : Value → Table Fields → Table Fields → Value → Result Edge
  edge_to source routes health target =
      topology_edge source (lookup routes (text_of lib target)) (lookup health (text_of lib target))
        target

  -- sorted(agents)
  unfoldable pub sorted_agents : List Value → Result (List Value)
  unfolding sort_texts
  sorted_agents agents =
      if all is_str agents
      then ok (map str (sort_texts (map text agents)))
      else lib.sorted_values agents

  -- The expected agents other than the source, in order.
  unfoldable pub targets_of : Value → List Value → Result (List Value)
  unfolding sorted_agents py_eq
  targets_of source agents = sorted_agents (keep (λ agent. not (py_eq agent source)) agents)

  unfoldable pub topology_edges : Fields → Fields → Fields → Result (List Edge)
  unfolding route_config_by_target topology_edge targets_of
  topology_edges manifest route_config route_health_report = do
    routes ← route_config_by_target route_config
    health ← route_config_by_target route_health_report
    expected ← item manifest "expected_agent_ids"
    agents ← list_of expected
    source ← source_of manifest agents
    targets ← targets_of source agents
    map_ok (edge_to source routes health) targets
