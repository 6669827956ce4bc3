-- ===== src/Bundle.antt =====
-- tools/peer_mesh_lab_bundle.py: a bundle of four artifacts for one experiment. Reading and writing
-- files and the command line are left out.
pub mod Matches
pub mod Known
pub mod Ready
mod Tests
use quest_termux_lab.Base.{
  Bool, List, Option, String, [], any, if◌then◌else◌, length, member, not, ℕ, ◌&&◌, ◌==◌, ◌∷◌,
}
use quest_termux_lab.Delivery.Validate.{require_texts}
use quest_termux_lab.Dispatch.{route_config_schema, validate_relative_path, validate_route_config}
use quest_termux_lab.Entries.{check_in, count_where, require_bools, require_counts}
use quest_termux_lab.Fleet.Report.{summary}
use quest_termux_lab.Fleet.State.{check}
use quest_termux_lab.Gossip.Envelope.{contains_forbidden_key, dict_or, require_keys}
use quest_termux_lab.Health.History.{route_history_schema}
use quest_termux_lab.Py.Dict.{get, get_or, py_eq}
use quest_termux_lab.Py.Result.{
  Check, Result, each, err, guard, ok, on_value_error, value_error, ◌>>=◌, ◌>>◌,
}
use quest_termux_lab.Py.Stdlib.{Stdlib, or_text, text_of}
use quest_termux_lab.Py.Text.{◌+ₛ◌}
use quest_termux_lab.Py.Value.{
  Fields, Value, arr, count_of, end, is_name, is_text, is_true, obj, str, text, to_list,
}
use quest_termux_lab.Readiness.{
  experiment_scopes, readiness_report_schema, readiness_statuses, validate_history,
}
use quest_termux_lab.Topology.{reach, topology_report_schema, topology_statuses}
use quest_termux_lab.Topology.Validate.{validate_topology_report}

abbrev pub lab_bundle_manifest_schema : String
lab_bundle_manifest_schema = "quest-termux-lab.peer-lab-bundle-manifest.v1"

abbrev pub lab_bundle_report_schema : String
lab_bundle_report_schema = "quest-termux-lab.peer-lab-bundle-report.v1"

abbrev pub bundle_statuses : List String
bundle_statuses = "synthetic_ready" ∷ "manual_review" ∷ "blocked" ∷ []

-- ARTIFACT_SCHEMAS
abbrev pub artifact_schemas : List (String × String)
artifact_schemas =
    ("route_config", route_config_schema)
    ∷ ("topology_report", topology_report_schema)
    ∷ ("route_history", route_history_schema)
    ∷ ("readiness_report", readiness_report_schema)
    ∷ []

unfoldable pub validate_report_summary : Value → Check
unfolding require_counts
validate_report_summary (obj summary) =
    require_counts "readiness summary missing non-negative "
      ("route_count" ∷ "ready_route_count" ∷ "not_ready_route_count" ∷ []) summary
validate_report_summary _ = err (value_error "readiness summary must be an object")

abbrev pub readiness_report_keys : List String
readiness_report_keys =
    "fleet_id" ∷ "source_agent_id" ∷ "observed_at" ∷ "experiment_scope" ∷ "overall_status"
    ∷ "summary" ∷ []

unfoldable pub validate_readiness_report : Fields → Check
unfolding require_keys validate_report_summary
validate_readiness_report report = do
  guard (is_text (get report "schema") readiness_report_schema)
      (value_error "unsupported readiness report schema")
  guard (not (contains_forbidden_key (obj report)))
      (value_error "readiness report contains command-like or credential-like fields")
  require_keys "readiness report missing " readiness_report_keys report
  check_in (get report "experiment_scope") experiment_scopes
      (value_error "unsupported readiness experiment_scope")
  check_in (get report "overall_status") readiness_statuses
      (value_error "unsupported readiness status")
  validate_report_summary (get report "summary")

unfoldable pub validate_reach_summary : Value → Check
unfolding require_counts
validate_reach_summary (obj summary) =
    require_counts "topology summary missing non-negative "
      ("reachable_agent_count" ∷ "non_ready_edge_count" ∷ []) summary
validate_reach_summary _ = err (value_error "topology summary must be an object")

pub record ArtifactEntry : Type 0 where
  pub artifact_id : String
  pub expected_schema : String
  pub observed_schema : String
  pub status : String
  pub reason : String

pub record Summary : Type 0 where
  pub artifact_check_count : ℕ
  pub passed_artifact_check_count : ℕ
  pub failed_artifact_check_count : ℕ
  pub configured_route_count : ℕ
  pub topology_reachable_agent_count : ℕ
  pub topology_non_ready_edge_count : ℕ
  pub ready_route_count : ℕ
  pub not_ready_route_count : ℕ

abbrev pub artifact_is : String → ArtifactEntry → Bool
artifact_is status check = check.status == status

-- len(v) if isinstance(v, list) else 0
abbrev pub list_size : Value → ℕ
list_size (arr vs) = length (to_list vs)
list_size _ = 0

-- v if isinstance(v, dict) else {}
abbrev pub dict_or_empty : Value → Fields
dict_or_empty (obj d) = d
dict_or_empty _ = end

-- The inner function non_negative_int is count_of: a value that is no count is counted as 0.
unfoldable pub summarize : List ArtifactEntry → Fields → Fields → Fields → Summary
summarize checks route_config topology readiness =
    let reach = dict_or_empty (get topology "summary") in
    let routes = dict_or_empty (get readiness "summary") in
    record {
      artifact_check_count = length checks;
      passed_artifact_check_count = count_where (artifact_is "passed") checks;
      failed_artifact_check_count = count_where (artifact_is "failed") checks;
      configured_route_count = list_size (get route_config "routes");
      topology_reachable_agent_count = count_of (get reach "reachable_agent_count");
      topology_non_ready_edge_count = count_of (get reach "non_ready_edge_count");
      ready_route_count = count_of (get routes "ready_route_count");
      not_ready_route_count = count_of (get routes "not_ready_route_count");
    }

unfoldable pub overall_status : Fields → List ArtifactEntry → String → String → String
overall_status manifest checks topology_status readiness_status =
    if any (artifact_is "failed") checks
    then "blocked"
    else if topology_status == "topology_blocked"
    then "blocked"
    else if readiness_status == "not_ready"
    then "blocked"
    else if topology_status == "manual_review"
    then "manual_review"
    else if readiness_status == "manual_review"
    then "manual_review"
    else if is_true (get manifest "operator_approval_required")
        && not (is_true (get manifest "operator_approval_recorded"))
    then "manual_review"
    else "synthetic_ready"

abbrev pub blocked_steps : List String
blocked_steps =
    "Resolve blocked readiness status or failed synthetic artifact checks before any private LAN peer experiment."
    ∷ "Regenerate route health, route history, readiness, and bundle reports from sanitized inputs."
    ∷ "Do not start live transport from this public bundle report." ∷ []

abbrev pub review_steps : List String
review_steps =
    "Record explicit operator approval in the private workflow before any live LAN peer experiment."
    ∷ "Use the team device workflow for live ADB, port, install, launch, capture, and cleanup gates."
    ∷ "Keep peer messages gossip-only and keep central ADB reserved for bootstrap and recovery."
    ∷ []

abbrev pub ready_steps : List String
ready_steps =
    "Treat this as synthetic readiness only, not live approval."
    ∷ "Move private LAN endpoint selection and live transport evidence into the private workflow."
    ∷ "Capture first live evidence as gossip-only peer observations, receipts, route health, and cleanup records."
    ∷ []

unfoldable pub next_private_steps : String → List String
next_private_steps status =
    if status == "blocked"
    then blocked_steps
    else if status == "manual_review"
    then review_steps
    else ready_steps

pub record BundleReport : Type 0 where
  pub fleet_id : Value
  pub source_agent_id : Value
  pub observed_at : String
  pub experiment_id : Value
  pub experiment_scope : Value
  pub overall_status : String
  pub topology_status : String
  pub readiness_status : String
  pub operator_approval_required : Value
  pub operator_approval_recorded : Value
  pub artifact_checks : List ArtifactEntry
  pub summary : Summary
  pub next_private_steps : List String

-- raw if raw in statuses else "invalid"
abbrev pub known_status : List String → String → String
known_status statuses raw = if member raw statuses then raw else "invalid"

-- payload.get(key) != manifest[key]
abbrev pub same_as : Fields → Fields → String → Check
same_as manifest payload key =
    guard (py_eq (get payload key) (get manifest key)) (value_error (key +ₛ " mismatch"))

abbrev pub is_scoped : String → Bool
is_scoped artifact_id = member artifact_id ("topology_report" ∷ "readiness_report" ∷ [])

-- The body of the `try` of artifact_check.
unfoldable pub check_artifact : String → String → Fields → Fields → (Fields → Check) → Check
check_artifact artifact_id schema payload manifest validator = do
  validator payload
  guard (is_text (get payload "schema") schema) (value_error "schema mismatch")
  same_as manifest payload "fleet_id"
  same_as manifest payload "source_agent_id"
  if is_scoped artifact_id then same_as manifest payload "experiment_scope" else ok tt

module _ (lib : Stdlib) where
  -- One round of the loop of validate_manifest over the schemas.
  unfoldable pub validate_artifact : Fields → Fields → String × String → Check
  unfolding validate_relative_path
  validate_artifact paths schemas (artifact_id, schema) = do
    guard (is_text (get schemas artifact_id) schema)
        (value_error ("expected_artifact_schemas missing " +ₛ artifact_id))
    guard (is_name (get paths artifact_id)) (value_error ("artifact_paths missing " +ₛ artifact_id))
    validate_relative_path lib (text (get paths artifact_id)) ("artifact_paths." +ₛ artifact_id)

  unfoldable pub validate_manifest : Fields → Check
  unfolding require_keys require_texts require_bools validate_artifact
  validate_manifest manifest = do
    guard (is_text (get manifest "schema") lab_bundle_manifest_schema)
        (value_error "unsupported lab bundle manifest schema")
    guard (not (contains_forbidden_key (obj manifest)))
        (value_error "lab bundle manifest contains command-like or credential-like fields")
    require_keys "lab bundle manifest missing "
        ("fleet_id" ∷ "source_agent_id" ∷ "observed_at" ∷ "experiment_id" ∷ "experiment_scope"
          ∷ "operator_approval_required" ∷ "operator_approval_recorded" ∷ "artifact_paths"
          ∷ "expected_artifact_schemas" ∷ [])
        manifest
    require_texts "lab bundle manifest missing "
        ("fleet_id" ∷ "source_agent_id" ∷ "observed_at" ∷ "experiment_id" ∷ []) manifest
    check_in (get manifest "experiment_scope") experiment_scopes
        (value_error "unsupported experiment_scope")
    require_bools ("operator_approval_required" ∷ "operator_approval_recorded" ∷ []) manifest
    paths ← dict_or (get manifest "artifact_paths") (value_error "artifact_paths must be an object")
    schemas ←
        dict_or (get manifest "expected_artifact_schemas")
          (value_error "expected_artifact_schemas must be an object")
    each (validate_artifact paths schemas) artifact_schemas

  unfoldable pub validate_bundle_topology : Fields → Check
  unfolding validate_topology_report validate_reach_summary
  validate_bundle_topology report = do
    validate_topology_report lib report
    check_in (get report "overall_status") topology_statuses
        (value_error "unsupported topology status")
    validate_reach_summary (get report "summary")

  abbrev pub artifact_fields : String → String → Fields → String → String → ArtifactEntry
  artifact_fields artifact_id schema payload status reason = record {
    artifact_id = artifact_id;
    expected_schema = schema;
    observed_schema = text_of lib (get_or payload "schema" (str ""));
    status = status;
    reason = reason;
  }

  -- The entry that artifact_check makes of the outcome of its `try`.
  unfoldable pub artifact_entry : String → String → Fields → Check → Result ArtifactEntry
  artifact_entry artifact_id schema payload checked =
      let entry = artifact_fields artifact_id schema payload in
      on_value_error (checked >>= λ _. ok (entry "passed" "artifact matches manifest and schema"))
        (λ message. entry "failed" message)

  unfoldable pub artifact_check :
      String → String → Fields → Fields → (Fields → Check) → Result ArtifactEntry
  unfolding check_artifact artifact_entry
  artifact_check artifact_id schema payload manifest validator =
      artifact_entry artifact_id schema payload
        (check_artifact artifact_id schema payload manifest validator)

  -- known_status(str(report.get("overall_status", "invalid")))
  unfoldable pub status_in : List String → Fields → String
  status_in statuses report =
      known_status statuses (text_of lib (get_or report "overall_status" (str "invalid")))

  unfoldable pub artifact_checks :
      Fields → Fields → Fields → Fields → Fields → Result (List ArtifactEntry)
  unfolding artifact_check validate_route_config validate_bundle_topology validate_history
      validate_readiness_report
  artifact_checks manifest route_config topology history readiness = do
    config_entry ←
        artifact_check "route_config" route_config_schema route_config manifest
          (validate_route_config lib)
    topology_entry ←
        artifact_check "topology_report" topology_report_schema topology manifest
          validate_bundle_topology
    history_entry ←
        artifact_check "route_history" route_history_schema history manifest validate_history
    readiness_entry ←
        artifact_check "readiness_report" readiness_report_schema readiness manifest
          validate_readiness_report
    ok (config_entry ∷ topology_entry ∷ history_entry ∷ readiness_entry ∷ [])

  unfoldable pub build_bundle_report :
      Fields → Fields → Fields → Fields → Fields → Option String → Result BundleReport
  unfolding validate_manifest artifact_checks status_in overall_status summarize next_private_steps
  build_bundle_report manifest route_config topology history readiness now_text = do
    validate_manifest manifest
    checks ← artifact_checks manifest route_config topology history readiness
    let topology_status = status_in topology_statuses topology
    let readiness_status = status_in readiness_statuses readiness
    let status = overall_status manifest checks topology_status readiness_status
    ok (record {
      fleet_id = get manifest "fleet_id";
      source_agent_id = get manifest "source_agent_id";
      observed_at = or_text now_text (text_of lib (get manifest "observed_at"));
      experiment_id = get manifest "experiment_id";
      experiment_scope = get manifest "experiment_scope";
      overall_status = status;
      topology_status = topology_status;
      readiness_status = readiness_status;
      operator_approval_required = get manifest "operator_approval_required";
      operator_approval_recorded = get manifest "operator_approval_recorded";
      artifact_checks = checks;
      summary = summarize checks route_config topology readiness;
      next_private_steps = next_private_steps status;
    })
