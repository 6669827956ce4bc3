-- ===== src/Intake.antt =====
-- tools/peer_mesh_evidence_intake.py: the manifest, and the artifacts that a run leaves. Reading and
-- writing files and the command line are left out.
pub mod Verdict
pub mod Accepted
pub mod Complete
mod Tests
use quest_termux_lab.Base.{
  Bool, List, String, [], any, if◌then◌else◌, map, member, not, suc, ℕ, ◌==◌, ◌∷◌,
}
use quest_termux_lab.Delivery.Validate.{http_receipt_schema, require_texts}
use quest_termux_lab.Dispatch.{validate_relative_path}
use quest_termux_lab.Entries.{check_in, require_bools, texts_of, unique}
use quest_termux_lab.Gossip.Envelope.{contains_forbidden_key, dict_or, nonempty_list, require_keys}
use quest_termux_lab.Health.History.{route_history_schema}
use quest_termux_lab.Health.Report.{health_report_schema}
use quest_termux_lab.Py.Dict.{Table, array_or, get, keys}
use quest_termux_lab.Py.Result.{Check, each, err, guard, key_error, ok, value_error, ◌>>=◌, ◌>>◌}
use quest_termux_lab.Py.Stdlib.{Stdlib}
use quest_termux_lab.Py.Text.{place, ◌+ₛ◌}
use quest_termux_lab.Py.Value.{
  Fields, Value, arr, end, field, is_bool, is_name, is_text, obj, str, text,
}
use quest_termux_lab.Readiness.{experiment_scopes, validate_history}
use quest_termux_lab.Rehearsal.{rehearsal_report_schema, rehearsal_statuses, validate_trust_report}
use quest_termux_lab.Topology.Checks.{number_text}
use quest_termux_lab.Trust.{trust_report_schema}

abbrev pub evidence_manifest_schema : String
evidence_manifest_schema = "quest-termux-lab.peer-evidence-intake-manifest.v1"

abbrev pub cleanup_record_schema : String
cleanup_record_schema = "quest-termux-lab.peer-cleanup-record.v1"

abbrev pub evidence_schemas : Table String
evidence_schemas =
    ("rehearsal_report", rehearsal_report_schema)
    ∷ ("trust_report", trust_report_schema)
    ∷ ("gossip_receipt", http_receipt_schema)
    ∷ ("route_health_report", health_report_schema)
    ∷ ("route_history_report", route_history_schema)
    ∷ ("cleanup_record", cleanup_record_schema)
    ∷ []

abbrev pub artifact_kinds : List String
artifact_kinds = keys evidence_schemas

abbrev pub kind_lists : List String
kind_lists = "required_artifact_kinds" ∷ "optional_artifact_kinds" ∷ []

-- One round of the loop over the two lists of kinds.
unfoldable pub validate_kinds : Fields → String → Check
validate_kinds manifest key = do
  kinds ← array_or (get manifest key) (value_error (key +ₛ " must be an array"))
  each (λ v. check_in v artifact_kinds (value_error ("unsupported " +ₛ key +ₛ " entry"))) kinds
  guard (unique (map text kinds)) (value_error (key +ₛ " entries must be unique"))

-- The kinds of a list that was tested.
abbrev pub kinds_at : Fields → String → List String
kinds_at manifest key = texts_of (get manifest key)

abbrev pub overlap : Fields → Bool
overlap manifest =
    any (λ kind. member kind (kinds_at manifest "optional_artifact_kinds"))
      (kinds_at manifest "required_artifact_kinds")

module _ (lib : Stdlib) where
  -- The loop over enumerate(value), from an index on.
  unfoldable pub validate_paths : String → ℕ → List Value → Check
  unfolding validate_relative_path
  validate_paths label index [] = ok tt
  validate_paths label index (v ∷ vs) =
      let place = label +ₛ "[" +ₛ number_text lib index +ₛ "]" in
      let rest = validate_paths label (suc index) vs in
      guard (is_name v) (value_error (place +ₛ " must be a non-empty string"))
      >> validate_relative_path lib (text v) place
      >> rest

  -- One round of the loop over artifact_paths.items().
  unfoldable pub validate_artifact_paths : String → Value → Check
  unfolding validate_paths validate_relative_path nonempty_list
  validate_artifact_paths label (str s) = validate_relative_path lib s label
  validate_artifact_paths label (arr vs) =
      nonempty_list (arr vs) (value_error (label +ₛ " must not be empty"))
      >>= validate_paths label 0
  validate_artifact_paths label _ = err (value_error (label +ₛ " must be a string or array"))

  unfoldable pub validate_all_paths : Fields → Check
  unfolding validate_artifact_paths
  validate_all_paths end = ok tt
  validate_all_paths (field kind v paths) =
      let rest = validate_all_paths paths in
      guard (member kind artifact_kinds) (value_error "artifact_paths contains unsupported kind")
      >> validate_artifact_paths ("artifact_paths." +ₛ kind) v
      >> rest

  unfoldable pub validate_manifest : Fields → Check
  unfolding require_keys require_texts require_bools validate_kinds validate_all_paths
  validate_manifest manifest = do
    guard (is_text (get manifest "schema") evidence_manifest_schema)
        (value_error "unsupported evidence intake manifest schema")
    guard (not (contains_forbidden_key (obj manifest)))
        (value_error "evidence intake manifest contains command-like or credential-like fields")
    require_keys "evidence intake manifest missing "
        ("fleet_id" ∷ "source_agent_id" ∷ "observed_at" ∷ "intake_id" ∷ "experiment_scope"
          ∷ "require_rehearsal_ready" ∷ "required_artifact_kinds" ∷ "optional_artifact_kinds"
          ∷ "artifact_paths" ∷ [])
        manifest
    require_texts "evidence intake manifest missing "
        ("fleet_id" ∷ "source_agent_id" ∷ "observed_at" ∷ "intake_id" ∷ []) manifest
    check_in (get manifest "experiment_scope") experiment_scopes
        (value_error "unsupported experiment_scope")
    require_bools ("require_rehearsal_ready" ∷ []) manifest
    each (validate_kinds manifest) kind_lists
    guard (not (overlap manifest))
        (value_error "required and optional artifact kinds must not overlap")
    paths ← dict_or (get manifest "artifact_paths") (value_error "artifact_paths must be an object")
    validate_all_paths paths

unfoldable pub validate_rehearsal_report : Fields → Check
unfolding require_keys
validate_rehearsal_report report = do
  guard (is_text (get report "schema") rehearsal_report_schema)
      (value_error "unsupported rehearsal report schema")
  guard (not (contains_forbidden_key (obj report)))
      (value_error "rehearsal report contains command-like or credential-like fields")
  require_keys "rehearsal report missing "
      ("fleet_id" ∷ "source_agent_id" ∷ "experiment_scope" ∷ "overall_status" ∷ "summary" ∷ [])
      report
  check_in (get report "overall_status") rehearsal_statuses
      (value_error "unsupported rehearsal status")

unfoldable pub validate_gossip_receipt : Fields → Check
unfolding require_keys
validate_gossip_receipt receipt = do
  guard (is_text (get receipt "schema") http_receipt_schema)
      (value_error "unsupported gossip receipt schema")
  guard (not (contains_forbidden_key (obj receipt)))
      (value_error "gossip receipt contains command-like or credential-like fields")
  require_keys "gossip receipt missing "
      ("fleet_id" ∷ "observer_agent_id" ∷ "message_id" ∷ "sender_agent_id" ∷ "status" ∷ "applied"
        ∷ [])
      receipt
  check_in (get receipt "status") ("accepted" ∷ "duplicate" ∷ [])
      (value_error "unsupported gossip receipt status")
  guard (is_bool (get receipt "applied")) (value_error "gossip receipt applied must be boolean")

unfoldable pub validate_route_health_report : Fields → Check
unfolding require_keys
validate_route_health_report report = do
  guard (is_text (get report "schema") health_report_schema)
      (value_error "unsupported route-health report schema")
  guard (not (contains_forbidden_key (obj report)))
      (value_error "route-health report contains command-like or credential-like fields")
  require_keys "route-health report missing "
      ("fleet_id" ∷ "source_agent_id" ∷ "routes" ∷ "summary" ∷ []) report
  array_or (get report "routes") (value_error "route-health routes must be an array") >>= λ _. ok tt

unfoldable pub validate_cleanup_record : Fields → Check
unfolding require_keys
validate_cleanup_record record_fields = do
  guard (is_text (get record_fields "schema") cleanup_record_schema)
      (value_error "unsupported cleanup record schema")
  guard (not (contains_forbidden_key (obj record_fields)))
      (value_error "cleanup record contains command-like or credential-like fields")
  require_keys "cleanup record missing "
      ("fleet_id" ∷ "source_agent_id" ∷ "observed_at" ∷ "cleanup_status"
        ∷ "private_live_work_performed" ∷ [])
      record_fields
  check_in (get record_fields "cleanup_status") ("not_started" ∷ "completed" ∷ "manual_review" ∷ [])
      (value_error "unsupported cleanup_status")
  guard (is_bool (get record_fields "private_live_work_performed"))
      (value_error "private_live_work_performed must be boolean")

-- VALIDATORS[kind]
unfoldable pub validator_of : String → Fields → Check
unfolding validate_rehearsal_report validate_trust_report validate_gossip_receipt
    validate_route_health_report validate_history validate_cleanup_record
validator_of kind artifact =
    if kind == "rehearsal_report"
    then validate_rehearsal_report artifact
    else if kind == "trust_report"
    then validate_trust_report artifact
    else if kind == "gossip_receipt"
    then validate_gossip_receipt artifact
    else if kind == "route_health_report"
    then validate_route_health_report artifact
    else if kind == "route_history_report"
    then validate_history artifact
    else if kind == "cleanup_record"
    then validate_cleanup_record artifact
    else err (key_error kind)
