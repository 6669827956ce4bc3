-- ===== src/Trust.antt =====
-- tools/peer_mesh_trust_gate.py: a trust policy against a route configuration, a bundle report and
-- sample envelopes. Reading and writing files and the command line are left out.
pub mod Reviews
pub mod Gate
pub mod Peers
pub mod Samples
pub mod Trusted
mod Tests
use quest_termux_lab.Base.{List, String, [], leb, member, not, ◌∷◌}
use quest_termux_lab.Bundle.{bundle_statuses, lab_bundle_report_schema}
use quest_termux_lab.Delivery.Validate.{require_texts}
use quest_termux_lab.Dispatch.{transport_modes}
use quest_termux_lab.Entries.{
  CheckEntry, check_in, require_bools, require_counts, validate_text_array,
}
use quest_termux_lab.Fleet.Report.{summary}
use quest_termux_lab.Gossip.Envelope.{contains_forbidden_key, gossip_schema, require_keys}
use quest_termux_lab.Py.Dict.{get}
use quest_termux_lab.Py.Result.{Check, each, err, guard, value_error, ◌>>=◌, ◌>>◌}
use quest_termux_lab.Py.Text.{◌+ₛ◌}
use quest_termux_lab.Py.Value.{Fields, Value, count_of, is_count, is_one_of, is_text, obj}
use quest_termux_lab.Readiness.{experiment_scopes}

abbrev pub trust_policy_schema : String
trust_policy_schema = "quest-termux-lab.peer-trust-policy.v1"

abbrev pub trust_report_schema : String
trust_report_schema = "quest-termux-lab.peer-trust-report.v1"

abbrev pub trust_statuses : List String
trust_statuses = "trusted" ∷ "manual_review" ∷ "untrusted" ∷ []

abbrev pub trust_policy_keys : List String
trust_policy_keys =
    "fleet_id" ∷ "source_agent_id" ∷ "observed_at" ∷ "policy_id" ∷ "experiment_scope"
    ∷ "allowed_agent_ids" ∷ "allowed_transport_modes" ∷ "required_message_schema" ∷ "max_hop_ttl"
    ∷ "min_sample_envelopes" ∷ "require_configured_peers_only" ∷ "require_trusted_bundle_status"
    ∷ "operator_review_required" ∷ []

-- validate_string_list raises what validate_text_array of the other tools raises.
unfoldable pub validate_policy : Fields → Check
unfolding require_keys require_texts require_bools validate_text_array
validate_policy policy = do
  guard (is_text (get policy "schema") trust_policy_schema)
      (value_error "unsupported trust policy schema")
  guard (not (contains_forbidden_key (obj policy)))
      (value_error "trust policy contains command-like or credential-like fields")
  require_keys "trust policy missing " trust_policy_keys policy
  require_texts "trust policy missing "
      ("fleet_id" ∷ "source_agent_id" ∷ "observed_at" ∷ "policy_id" ∷ []) policy
  check_in (get policy "experiment_scope") experiment_scopes
      (value_error "unsupported experiment_scope")
  agents ← validate_text_array (get policy "allowed_agent_ids") "allowed_agent_ids"
  guard (is_one_of (get policy "source_agent_id") agents)
      (value_error "source_agent_id must be present in allowed_agent_ids")
  modes ← validate_text_array (get policy "allowed_transport_modes") "allowed_transport_modes"
  each
      (λ mode.
        guard (member mode transport_modes) (value_error "unsupported allowed transport mode"))
      modes
  guard (is_text (get policy "required_message_schema") gossip_schema)
      (value_error "required_message_schema must be peer gossip")
  each
      (λ key.
        guard (is_count (get policy key)) (value_error (key +ₛ " must be a non-negative integer")))
      ("max_hop_ttl" ∷ "min_sample_envelopes" ∷ [])
  guard (leb 1 (count_of (get policy "max_hop_ttl"))) (value_error "max_hop_ttl must be at least 1")
  require_bools
      ("require_configured_peers_only" ∷ "require_trusted_bundle_status"
        ∷ "operator_review_required" ∷ [])
      policy

unfoldable pub validate_bundle_summary : Value → Check
unfolding require_counts
validate_bundle_summary (obj summary) =
    require_counts "lab bundle summary missing non-negative "
      ("configured_route_count" ∷ "ready_route_count" ∷ "not_ready_route_count" ∷ []) summary
validate_bundle_summary _ = err (value_error "lab bundle summary must be an object")

unfoldable pub validate_bundle_report : Fields → Check
unfolding require_keys validate_bundle_summary
validate_bundle_report report = do
  guard (is_text (get report "schema") lab_bundle_report_schema)
      (value_error "unsupported lab bundle report schema")
  guard (not (contains_forbidden_key (obj report)))
      (value_error "lab bundle report contains command-like or credential-like fields")
  require_keys "lab bundle report missing "
      ("fleet_id" ∷ "source_agent_id" ∷ "observed_at" ∷ "experiment_id" ∷ "experiment_scope"
        ∷ "overall_status" ∷ "summary" ∷ [])
      report
  check_in (get report "experiment_scope") experiment_scopes
      (value_error "unsupported lab bundle experiment_scope")
  check_in (get report "overall_status") bundle_statuses
      (value_error "unsupported lab bundle status")
  validate_bundle_summary (get report "summary")

-- passed, failed and manual: check_entry of a status that it accepts
abbrev pub entry_with : String → String → String → String → String → CheckEntry
entry_with status check_id expected observed reason = record {
  check_id = check_id;
  status = status;
  observed = observed;
  threshold = expected;
  reason = reason;
}

unfoldable pub passed : String → String → String → String → CheckEntry
passed = entry_with "passed"

unfoldable pub failed : String → String → String → String → CheckEntry
failed = entry_with "failed"

unfoldable pub manual : String → String → String → String → CheckEntry
manual = entry_with "manual_review"
