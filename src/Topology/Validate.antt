-- ===== src/Topology/Validate.antt =====
-- The validation of the documents that tools/peer_mesh_topology.py reads, and of its reports.
use quest_termux_lab.Base.{List, String, [], is_empty, not, ◌∷◌}
use quest_termux_lab.Delivery.Validate.{require_texts}
use quest_termux_lab.Dispatch.{transport_modes}
use quest_termux_lab.Entries.{
  check_in, check_statuses, require_bools, require_counts, validate_json_path, validate_text_array,
}
use quest_termux_lab.Fleet.Report.{summary}
use quest_termux_lab.Fleet.State.{check}
use quest_termux_lab.Gossip.Envelope.{parse_time, contains_forbidden_key, require_keys}
use quest_termux_lab.Health.Report.{health_report_schema, route_statuses}
use quest_termux_lab.Py.Dict.{array_or, get}
use quest_termux_lab.Py.Result.{Check, Result, each, err, guard, ok, value_error, ◌>>=◌, ◌>>◌}
use quest_termux_lab.Py.Stdlib.{Stdlib, text_of}
use quest_termux_lab.Py.Text.{◌+ₛ◌}
use quest_termux_lab.Py.Value.{Fields, Value, is_bool, is_count, is_one_of, is_text, obj, text}
use quest_termux_lab.Readiness.{experiment_scopes}
use quest_termux_lab.Topology.{
  reachability_statuses, topology_manifest_schema, topology_report_schema, topology_statuses,
}

abbrev pub manifest_texts : List String
manifest_texts =
    "topology_id" ∷ "fleet_id" ∷ "source_agent_id" ∷ "observed_at" ∷ "route_config_path"
    ∷ "route_health_report_path" ∷ []

abbrev pub manifest_keys : List String
manifest_keys =
    "topology_id" ∷ "fleet_id" ∷ "source_agent_id" ∷ "observed_at" ∷ "experiment_scope"
    ∷ "expected_agent_ids" ∷ "route_config_path" ∷ "route_health_report_path"
    ∷ "require_all_expected_routes" ∷ "require_no_unhealthy_routes" ∷ "min_healthy_route_count"
    ∷ "min_reachable_agent_count" ∷ "authority_boundary" ∷ []

-- One round of the loop of validate_route_health_report, with the targets seen before.
unfoldable pub validate_health_route : List String → Value → Result (List String)
unfolding require_texts
validate_health_route seen (obj route) = do
  require_texts "route-health route missing "
      ("target_agent_id" ∷ "transport_mode" ∷ "status" ∷ "reason" ∷ []) route
  guard (not (is_one_of (get route "target_agent_id") seen))
      (value_error "duplicate target_agent_id in route-health routes")
  guard (is_one_of (get route "transport_mode") transport_modes)
      (value_error "unsupported route-health transport_mode")
  guard (is_one_of (get route "status") route_statuses)
      (value_error "unsupported route-health status")
  ok (text (get route "target_agent_id") ∷ seen)
validate_health_route seen _ = err (value_error "route-health route must be an object")

unfoldable pub validate_health_routes : List String → List Value → Check
unfolding validate_health_route
validate_health_routes seen [] = ok tt
validate_health_routes seen (v ∷ vs) =
    validate_health_route seen v >>= λ seen'. validate_health_routes seen' vs

unfoldable pub validate_topology_check : Value → Check
unfolding require_keys
validate_topology_check (obj check) = do
  require_keys "topology check missing "
      ("check_id" ∷ "status" ∷ "observed" ∷ "threshold" ∷ "reason" ∷ []) check
  check_in (get check "status") check_statuses (value_error "unsupported topology check status")
validate_topology_check _ = err (value_error "topology check must be an object")

unfoldable pub validate_edge : Value → Check
unfolding require_keys
validate_edge (obj edge) = do
  require_keys "topology edge missing "
      ("source_agent_id" ∷ "target_agent_id" ∷ "configured" ∷ "transport_mode"
        ∷ "reachability_status" ∷ "reason" ∷ [])
      edge
  guard (is_bool (get edge "configured")) (value_error "topology edge configured must be boolean")
  check_in (get edge "transport_mode")
      ("file_drop_simulator" ∷ "loopback_http_simulator" ∷ "disabled" ∷ "none" ∷ [])
      (value_error "unsupported topology transport_mode")
  check_in (get edge "reachability_status") reachability_statuses
      (value_error "unsupported topology reachability status")
validate_edge _ = err (value_error "topology edge must be an object")

abbrev pub topology_counts : List String
topology_counts =
    "expected_agent_count" ∷ "expected_target_count" ∷ "edge_count" ∷ "configured_edge_count"
    ∷ "missing_route_count" ∷ "missing_health_count" ∷ "reachable_edge_count"
    ∷ "degraded_edge_count" ∷ "unreachable_edge_count" ∷ "reachable_agent_count"
    ∷ "non_ready_edge_count" ∷ []

unfoldable pub validate_topology_summary : Value → Check
unfolding require_counts
validate_topology_summary (obj summary) =
    require_counts "topology summary missing non-negative " topology_counts summary
validate_topology_summary _ = err (value_error "topology summary must be an object")

module _ (lib : Stdlib) where
  -- parse_time(str(d["observed_at"])), for its exception
  unfoldable pub check_time : Value → Check
  unfolding parse_time
  check_time v = parse_time lib (text_of lib v) >>= λ _. ok tt

  unfoldable pub validate_manifest : Fields → Check
  unfolding require_keys require_texts check_time validate_text_array validate_json_path
      require_bools
  validate_manifest manifest = do
    guard (is_text (get manifest "schema") topology_manifest_schema)
        (value_error "unsupported peer topology manifest schema")
    guard (not (contains_forbidden_key (obj manifest)))
        (value_error "peer topology manifest contains command-like or credential-like fields")
    require_keys "peer topology manifest missing " manifest_keys manifest
    require_texts "peer topology manifest missing " manifest_texts manifest
    check_time (get manifest "observed_at")
    check_in (get manifest "experiment_scope") experiment_scopes
        (value_error "unsupported experiment_scope")
    agents ← validate_text_array (get manifest "expected_agent_ids") "expected_agent_ids"
    guard (is_one_of (get manifest "source_agent_id") agents)
        (value_error "expected_agent_ids must include source_agent_id")
    validate_json_path lib (text (get manifest "route_config_path")) "route_config_path"
    validate_json_path lib (text (get manifest "route_health_report_path"))
        "route_health_report_path"
    require_bools ("require_all_expected_routes" ∷ "require_no_unhealthy_routes" ∷ []) manifest
    each
        (λ key.
          guard (is_count (get manifest key))
            (value_error (key +ₛ " must be a non-negative integer")))
        ("min_healthy_route_count" ∷ "min_reachable_agent_count" ∷ [])
    boundary ← validate_text_array (get manifest "authority_boundary") "authority_boundary"
    guard (not (is_empty boundary)) (value_error "authority_boundary must not be empty")

  unfoldable pub validate_route_health_report : Fields → Check
  unfolding require_keys require_texts check_time validate_health_routes
  validate_route_health_report report = do
    guard (is_text (get report "schema") health_report_schema)
        (value_error "unsupported route-health report schema")
    guard (not (contains_forbidden_key (obj report)))
        (value_error "route-health report contains command-like or credential-like fields")
    require_keys "route-health report missing "
        ("fleet_id" ∷ "source_agent_id" ∷ "observed_at" ∷ "routes" ∷ "summary" ∷ []) report
    require_texts "route-health report missing "
        ("fleet_id" ∷ "source_agent_id" ∷ "observed_at" ∷ []) report
    check_time (get report "observed_at")
    routes ← array_or (get report "routes") (value_error "route-health routes must be an array")
    validate_health_routes [] routes

  unfoldable pub validate_topology_report : Fields → Check
  unfolding require_keys require_texts check_time validate_text_array validate_topology_check
      validate_edge validate_topology_summary
  validate_topology_report report = do
    guard (is_text (get report "schema") topology_report_schema)
        (value_error "unsupported peer topology report schema")
    guard (not (contains_forbidden_key (obj report)))
        (value_error "peer topology report contains command-like or credential-like fields")
    require_keys "peer topology report missing "
        ("fleet_id" ∷ "source_agent_id" ∷ "observed_at" ∷ "topology_id" ∷ "experiment_scope"
          ∷ "overall_status" ∷ "checks" ∷ "expected_agent_ids" ∷ "edges" ∷ "summary" ∷ [])
        report
    require_texts "peer topology report missing "
        ("fleet_id" ∷ "source_agent_id" ∷ "observed_at" ∷ "topology_id" ∷ "experiment_scope" ∷ [])
        report
    check_time (get report "observed_at")
    check_in (get report "experiment_scope") experiment_scopes
        (value_error "unsupported experiment_scope")
    check_in (get report "overall_status") topology_statuses
        (value_error "unsupported topology status")
    validate_text_array (get report "expected_agent_ids") "expected_agent_ids" >>= λ _. ok tt
    checks ← array_or (get report "checks") (value_error "topology checks must be an array")
    each validate_topology_check checks
    edges ← array_or (get report "edges") (value_error "topology edges must be an array")
    each validate_edge edges
    validate_topology_summary (get report "summary")
