-- ===== src/Topology/Checks.antt =====
-- The checks, the status and the report of tools/peer_mesh_topology.py.
use quest_termux_lab.Base.{
  Bool, List, Option, String, [], eqb, if◌then◌else◌, keep, ltb, member, not, ℕ, ◌&&◌, ◌++◌, ◌∷◌,
}
use quest_termux_lab.Dispatch.{validate_route_config}
use quest_termux_lab.Entries.{CheckEntry, any_status, check_statuses, texts_of}
use quest_termux_lab.Health.Routes.{counted}
use quest_termux_lab.Py.Dict.{get, keys, list_of, py_eq}
use quest_termux_lab.Py.Result.{Result, guard, ok, value_error, ◌>>=◌, ◌>>◌}
use quest_termux_lab.Py.Stdlib.{Stdlib, or_text, text_of}
use quest_termux_lab.Py.Text.{join_texts, ◌+ₛ◌}
use quest_termux_lab.Py.Value.{Fields, Value, count_of, is_true, nat}
use quest_termux_lab.Topology.{Edge, Summary, summarize, topology_edges}
use quest_termux_lab.Topology.Validate.{validate_manifest, validate_route_health_report}

unfoldable pub check_entry : String → String → String → String → String → Result CheckEntry
check_entry check_id status observed threshold reason = do
  guard (member status check_statuses) (value_error "unsupported peer topology check status")
  ok (record {
    check_id = check_id;
    status = status;
    observed = observed;
    threshold = threshold;
    reason = reason;
  })

abbrev pub mismatches : Fields → Fields → List String
mismatches manifest document =
    keep (λ key. not (py_eq (get document key) (get manifest key)))
      ("fleet_id" ∷ "source_agent_id" ∷ [])

-- One round of the loop of identity_checks, for the keys that differ.
unfoldable pub identity_check : String → List String → Result CheckEntry
unfolding check_entry
identity_check check_id [] =
    check_entry check_id "passed" "match" "match" (check_id +ₛ " matches topology manifest")
identity_check check_id keys =
    check_entry check_id "failed" (join_texts "," keys) "match"
      (check_id +ₛ " does not match topology manifest")

unfoldable pub identity_checks : Fields → Fields → Fields → Result (List CheckEntry)
unfolding identity_check
identity_checks manifest route_config route_health_report = do
  config_check ← identity_check "route_config_identity" (mismatches manifest route_config)
  health_check ← identity_check "route_health_identity" (mismatches manifest route_health_report)
  ok (config_check ∷ health_check ∷ [])

unfoldable pub overall_status : List CheckEntry → String
overall_status checks =
    if any_status "failed" checks
    then "topology_blocked"
    else if any_status "manual_review" checks
    then "manual_review"
    else "topology_ready"

pub record TopologyReport : Type 0 where
  pub fleet_id : Value
  pub source_agent_id : Value
  pub observed_at : String
  pub topology_id : Value
  pub experiment_scope : Value
  pub overall_status : String
  pub checks : List CheckEntry
  pub expected_agent_ids : List Value
  pub edges : List Edge
  pub summary : Summary

module _ (lib : Stdlib) where
  -- str(n)
  abbrev pub number_text : ℕ → String
  number_text n = text_of lib (nat n)

  unfoldable pub coverage_check : Bool → ℕ → Result CheckEntry
  unfolding check_entry
  coverage_check required missing =
      if not (eqb missing 0) && required
      then check_entry "configured_route_coverage" "failed" (number_text missing) "0 missing"
          "expected agents are missing configured routes"
      else if not (eqb missing 0)
      then check_entry "configured_route_coverage" "manual_review" (number_text missing) "0 missing"
          "expected route gaps require review"
      else check_entry "configured_route_coverage" "passed" (number_text 0) "0 missing"
          "expected targets have configured routes"

  unfoldable pub health_check : ℕ → Result CheckEntry
  unfolding check_entry
  health_check missing =
      if not (eqb missing 0)
      then check_entry "route_health_coverage" "manual_review" (number_text missing) "0 missing"
          "configured routes are missing route-health evidence"
      else check_entry "route_health_coverage" "passed" (number_text 0) "0 missing"
          "configured routes have route-health evidence"

  unfoldable pub threshold_check : String → String → ℕ → ℕ → Result CheckEntry
  unfolding check_entry
  threshold_check check_id counted found wanted =
      if ltb found wanted
      then check_entry check_id "failed" (number_text found) (number_text wanted)
          (counted +ₛ " count is below threshold")
      else check_entry check_id "passed" (number_text found) (number_text wanted)
          (counted +ₛ " count meets threshold")

  unfoldable pub non_ready_check : Bool → ℕ → Result CheckEntry
  unfolding check_entry
  non_ready_check required non_ready =
      if not (eqb non_ready 0) && required
      then check_entry "non_ready_route_policy" "failed" (number_text non_ready) (number_text 0)
          "one or more expected routes are not ready"
      else if not (eqb non_ready 0)
      then check_entry "non_ready_route_policy" "manual_review" (number_text non_ready)
          (number_text 0) "one or more expected routes need review"
      else check_entry "non_ready_route_policy" "passed" (number_text 0) (number_text 0)
          "all expected routes are reachable"

  unfoldable pub topology_checks : Fields → Summary → Result (List CheckEntry)
  unfolding coverage_check health_check threshold_check non_ready_check
  topology_checks manifest counts = do
    coverage ←
        coverage_check (is_true (get manifest "require_all_expected_routes"))
          counts.missing_route_count
    evidence ← health_check counts.missing_health_count
    healthy ←
        threshold_check "healthy_route_threshold" "healthy route" counts.reachable_edge_count
          (count_of (get manifest "min_healthy_route_count"))
    reached ←
        threshold_check "reachable_agent_threshold" "reachable agent" counts.reachable_agent_count
          (count_of (get manifest "min_reachable_agent_count"))
    ready ←
        non_ready_check (is_true (get manifest "require_no_unhealthy_routes"))
          counts.non_ready_edge_count
    ok (coverage ∷ evidence ∷ healthy ∷ reached ∷ ready ∷ [])

  unfoldable pub build_topology_report :
      Fields → Fields → Fields → Option String → Result TopologyReport
  unfolding validate_manifest validate_route_config validate_route_health_report topology_edges
      summarize identity_checks topology_checks overall_status
  build_topology_report manifest route_config route_health_report now_text = do
    validate_manifest lib manifest
    validate_route_config lib route_config
    validate_route_health_report lib route_health_report
    let expected = texts_of (get manifest "expected_agent_ids")
    edges ← topology_edges lib manifest route_config route_health_report
    let counts = summarize expected edges
    identities ← identity_checks manifest route_config route_health_report
    others ← topology_checks manifest counts
    listed ← list_of (get manifest "expected_agent_ids")
    ok (record {
      fleet_id = get manifest "fleet_id";
      source_agent_id = get manifest "source_agent_id";
      observed_at = or_text now_text (text_of lib (get manifest "observed_at"));
      topology_id = get manifest "topology_id";
      experiment_scope = get manifest "experiment_scope";
      overall_status = overall_status (identities ++ others);
      checks = identities ++ others;
      expected_agent_ids = listed;
      edges = edges;
      summary = counts;
    })
