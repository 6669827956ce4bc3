-- ===== src/Topology/Tests.antt =====
-- Runs of the topology report over two peers, one of them the source.
use quest_termux_lab.Base.{String, [], none, refl, true, ◌∷◌, ◌≡◌}
use quest_termux_lab.Dispatch.{route_config_schema, validate_route_config}
use quest_termux_lab.Gossip.Envelope.{contains_forbidden_key, forbidden_key}
use quest_termux_lab.Health.Report.{health_report_schema}
use quest_termux_lab.Py.Dict.{py_eq}
use quest_termux_lab.Py.Result.{Result, err, is_ok, key_error, ok, value_of}
use quest_termux_lab.Py.Sample.{past_text, sample_lib}
use quest_termux_lab.Py.Value.{Fields, array, bool, dict, end, nat, obj, str}
use quest_termux_lab.Topology.{topology_edges, topology_manifest_schema}
use quest_termux_lab.Topology.Checks.{TopologyReport, build_topology_report}
use quest_termux_lab.Topology.Counts.{AddsUp}
use quest_termux_lab.Topology.Report.{build_topology_report-AddsUp}
use quest_termux_lab.Topology.Shows.{ShowsReady, build_topology_report-ShowsReady}
use quest_termux_lab.Topology.Targets.{other_agents}
use quest_termux_lab.Topology.Total.{HasEdges, topology_edges-HasEdges}
use quest_termux_lab.Topology.Validate.{validate_manifest, validate_route_health_report}

abbrev manifest : Fields
manifest = dict (
    ("schema", str topology_manifest_schema)
    ∷ ("topology_id", str "t1")
    ∷ ("fleet_id", str "f1")
    ∷ ("source_agent_id", str "a1")
    ∷ ("observed_at", str past_text)
    ∷ ("experiment_scope", str "private_configured_peer_gossip_only")
    ∷ ("expected_agent_ids", array (str "a2" ∷ str "a1" ∷ []))
    ∷ ("route_config_path", str "routes.json")
    ∷ ("route_health_report_path", str "health.json")
    ∷ ("require_all_expected_routes", bool true)
    ∷ ("require_no_unhealthy_routes", bool true)
    ∷ ("min_healthy_route_count", nat 1)
    ∷ ("min_reachable_agent_count", nat 2)
    ∷ ("authority_boundary", array (str "synthetic only" ∷ []))
    ∷ [])

abbrev config : Fields
config = dict (
    ("schema", str route_config_schema)
    ∷ ("fleet_id", str "f1")
    ∷ ("source_agent_id", str "a1")
    ∷ (
      "routes",
      array (
          obj (
            dict (
              ("target_agent_id", str "a2")
              ∷ ("transport_mode", str "file_drop_simulator")
              ∷ ("target_inbox_dir", str "inbox")
              ∷ []))
          ∷ []),
    )
    ∷ [])

abbrev health_with : String → Fields
health_with status = dict (
    ("schema", str health_report_schema)
    ∷ ("fleet_id", str "f1")
    ∷ ("source_agent_id", str "a1")
    ∷ ("observed_at", str past_text)
    ∷ (
      "routes",
      array (
          obj (
            dict (
              ("target_agent_id", str "a2")
              ∷ ("transport_mode", str "file_drop_simulator")
              ∷ ("status", str status)
              ∷ ("reason", str "seen")
              ∷ []))
          ∷ []),
    )
    ∷ ("summary", obj end)
    ∷ [])

abbrev report_on : Fields → Result TopologyReport
report_on health = build_topology_report sample_lib manifest config health none

report_made : is_ok (report_on (health_with "healthy")) ≡ true
unfolding build_topology_report contains_forbidden_key forbidden_key py_eq
report_made = refl

build_topology_report-AddsUp_example :
    AddsUp (value_of (report_on (health_with "healthy")) report_made).summary
    × ((value_of (report_on (health_with "healthy")) report_made).summary.edge_count
        ≡ (value_of (report_on (health_with "healthy")) report_made).summary.expected_target_count)
unfolding build_topology_report contains_forbidden_key forbidden_key py_eq
build_topology_report-AddsUp_example =
    build_topology_report-AddsUp sample_lib manifest config (health_with "healthy") none
      (value_of (report_on (health_with "healthy")) report_made) refl

build_topology_report-ShowsReady_example :
    ShowsReady sample_lib manifest config
      (health_with "healthy")
      (value_of (report_on (health_with "healthy")) report_made)
unfolding build_topology_report contains_forbidden_key forbidden_key py_eq
build_topology_report-ShowsReady_example =
    build_topology_report-ShowsReady sample_lib manifest config (health_with "healthy") none
      (value_of (report_on (health_with "healthy")) report_made) refl refl

topology_edges-HasEdges_example :
    HasEdges (topology_edges sample_lib manifest config (health_with "healthy")) (str "a2" ∷ [])
unfolding validate_manifest validate_route_config validate_route_health_report
    contains_forbidden_key forbidden_key other_agents
topology_edges-HasEdges_example =
    topology_edges-HasEdges sample_lib manifest config (health_with "healthy") refl refl refl

-- A configuration that was not tested, with a route without a target, makes it raise.
untargeted :
    topology_edges sample_lib manifest
      (dict (("routes", array (obj (dict (("transport_mode", str "disabled") ∷ [])) ∷ [])) ∷ []))
      (health_with "healthy")
    ≡ err (key_error "target_agent_id")
unfolding topology_edges
untargeted = refl

-- A degraded route keeps the topology from being ready.
degraded :
    (r : TopologyReport) × (report_on (health_with "degraded") ≡ ok r)
    × (r.overall_status ≡ "topology_blocked")
unfolding build_topology_report contains_forbidden_key forbidden_key py_eq
degraded = (_, refl, refl)
