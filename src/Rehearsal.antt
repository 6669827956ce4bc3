-- ===== src/Rehearsal.antt =====
-- tools/peer_mesh_rehearsal.py: whether a bundle and a trust report allow a rehearsal. Reading and
-- writing files and the command line are left out.
pub mod Gate
pub mod Ready
mod Tests
use quest_termux_lab.Base.{List, String, [], map, not, ◌∷◌}
use quest_termux_lab.Bundle.{bundle_statuses}
use quest_termux_lab.Delivery.Validate.{require_texts}
use quest_termux_lab.Entries.{check_in, require_bools, require_counts, unique}
use quest_termux_lab.Fleet.Report.{summary}
use quest_termux_lab.Gossip.Envelope.{contains_forbidden_key, nonempty_list, require_keys}
use quest_termux_lab.Py.Dict.{get}
use quest_termux_lab.Py.Result.{Check, Result, each, err, guard, ok, value_error, ◌>>=◌, ◌>>◌}
use quest_termux_lab.Py.Text.{◌+ₛ◌}
use quest_termux_lab.Py.Value.{Fields, Value, is_bool, is_name, is_one_of, is_text, obj, text}
use quest_termux_lab.Readiness.{experiment_scopes}
use quest_termux_lab.Trust.{trust_report_schema, trust_statuses}

abbrev pub rehearsal_manifest_schema : String
rehearsal_manifest_schema = "quest-termux-lab.peer-rehearsal-manifest.v1"

abbrev pub rehearsal_report_schema : String
rehearsal_report_schema = "quest-termux-lab.peer-rehearsal-report.v1"

abbrev pub rehearsal_statuses : List String
rehearsal_statuses = "rehearsal_ready" ∷ "manual_review" ∷ "blocked" ∷ []

abbrev pub phase_statuses : List String
phase_statuses = "ready" ∷ "manual_review" ∷ "blocked" ∷ "private_only" ∷ []

abbrev pub evidence_kinds : List String
evidence_kinds =
    "preflight_bundle_report" ∷ "trust_report" ∷ "private_operator_approval"
    ∷ "private_endpoint_selection_record" ∷ "gossip_receipts" ∷ "route_health_after_run"
    ∷ "route_history_after_run" ∷ "cleanup_record" ∷ []

unfoldable pub validate_status_list : Value → List String → String → Check
unfolding nonempty_list
validate_status_list value allowed label = do
  found ← nonempty_list value (value_error (label +ₛ " must be a non-empty array"))
  each (λ v. check_in v allowed (value_error ("unsupported " +ₛ label +ₛ " entry"))) found
  guard (unique (map text found)) (value_error (label +ₛ " entries must be unique"))

-- One round of the loop over the planned phases, with the identifiers seen before.
unfoldable pub validate_phase : List String → Value → Result (List String)
unfolding require_keys
validate_phase seen (obj phase) = do
  require_keys "planned phase missing " ("phase_id" ∷ "evidence_kind" ∷ "required_before_live" ∷ [])
      phase
  guard (is_name (get phase "phase_id")) (value_error "planned phase missing phase_id")
  guard (not (is_one_of (get phase "phase_id") seen)) (value_error "duplicate phase_id")
  check_in (get phase "evidence_kind") evidence_kinds (value_error "unsupported evidence_kind")
  guard (is_bool (get phase "required_before_live"))
      (value_error "required_before_live must be boolean")
  ok (text (get phase "phase_id") ∷ seen)
validate_phase seen _ = err (value_error "planned phase must be an object")

unfoldable pub validate_phases : List String → List Value → Check
unfolding validate_phase
validate_phases seen [] = ok tt
validate_phases seen (v ∷ vs) = validate_phase seen v >>= λ seen'. validate_phases seen' vs

unfoldable pub validate_manifest : Fields → Check
unfolding require_keys require_texts require_bools validate_status_list validate_phases
    nonempty_list
validate_manifest manifest = do
  guard (is_text (get manifest "schema") rehearsal_manifest_schema)
      (value_error "unsupported rehearsal manifest schema")
  guard (not (contains_forbidden_key (obj manifest)))
      (value_error "rehearsal manifest contains command-like or credential-like fields")
  require_keys "rehearsal manifest missing "
      ("fleet_id" ∷ "source_agent_id" ∷ "observed_at" ∷ "rehearsal_id" ∷ "experiment_scope"
        ∷ "required_lab_bundle_statuses" ∷ "required_trust_statuses" ∷ "operator_review_required"
        ∷ "operator_review_recorded" ∷ "planned_phases" ∷ [])
      manifest
  require_texts "rehearsal manifest missing "
      ("fleet_id" ∷ "source_agent_id" ∷ "observed_at" ∷ "rehearsal_id" ∷ []) manifest
  check_in (get manifest "experiment_scope") experiment_scopes
      (value_error "unsupported experiment_scope")
  validate_status_list (get manifest "required_lab_bundle_statuses") bundle_statuses
      "required_lab_bundle_statuses"
  validate_status_list (get manifest "required_trust_statuses") trust_statuses
      "required_trust_statuses"
  require_bools ("operator_review_required" ∷ "operator_review_recorded" ∷ []) manifest
  phases ←
      nonempty_list (get manifest "planned_phases")
        (value_error "planned_phases must be a non-empty array")
  validate_phases [] phases

unfoldable pub validate_trust_summary : Value → Check
unfolding require_counts
validate_trust_summary (obj summary) =
    require_counts "trust report summary missing non-negative "
      ("configured_peer_count" ∷ "trusted_peer_count" ∷ "untrusted_peer_count" ∷ []) summary
validate_trust_summary _ = err (value_error "trust report summary must be an object")

unfoldable pub validate_trust_report : Fields → Check
unfolding require_keys validate_trust_summary
validate_trust_report report = do
  guard (is_text (get report "schema") trust_report_schema)
      (value_error "unsupported trust report schema")
  guard (not (contains_forbidden_key (obj report)))
      (value_error "trust report contains command-like or credential-like fields")
  require_keys "trust report missing "
      ("fleet_id" ∷ "source_agent_id" ∷ "observed_at" ∷ "experiment_scope" ∷ "overall_status"
        ∷ "summary" ∷ [])
      report
  check_in (get report "experiment_scope") experiment_scopes
      (value_error "unsupported trust report experiment_scope")
  check_in (get report "overall_status") trust_statuses
      (value_error "unsupported trust report status")
  validate_trust_summary (get report "summary")
