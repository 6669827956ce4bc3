-- ===== src/Scorecard/Card.antt =====
-- tools/peer_mesh_scorecard.py: the score of each artifact and the report. Reading and writing files
-- and the command line are left out.
use quest_termux_lab.Base.{
  Bool, List, String, [], any, false, if◌then◌else◌, keep, length, map, member, not, true, ℕ, ◌&&◌,
  ◌++◌, ◌==◌, ◌||◌, ◌∷◌,
}
use quest_termux_lab.Bundle.{lab_bundle_report_schema, validate_readiness_report}
use quest_termux_lab.Entries.{check_in, count_where, texts_of, unique}
use quest_termux_lab.Gossip.Envelope.{contains_forbidden_key, require_keys}
use quest_termux_lab.Health.History.{route_history_schema}
use quest_termux_lab.Health.Report.{health_report_schema}
use quest_termux_lab.Intake.{
  cleanup_record_schema, validate_cleanup_record, validate_rehearsal_report,
  validate_route_health_report,
}
use quest_termux_lab.Intake.Verdict.{evidence_report_schema, intake_statuses, scope_differs}
use quest_termux_lab.Py.Dict.{Table, array_or, get, keys, py_eq}
use quest_termux_lab.Py.Result.{
  Check, Result, each, err, guard, key_error, ok, value_error, ◌>>=◌, ◌>>◌,
}
use quest_termux_lab.Py.Text.{◌+ₛ◌}
use quest_termux_lab.Py.Value.{Fields, Value, is_pos, is_text, obj, text, ℤ}
use quest_termux_lab.Readiness.{readiness_report_schema, validate_history}
use quest_termux_lab.Rehearsal.{rehearsal_report_schema, validate_trust_report}
use quest_termux_lab.Trust.{trust_report_schema, validate_bundle_report}

abbrev pub scorecard_manifest_schema : String
scorecard_manifest_schema = "quest-termux-lab.peer-scorecard-manifest.v1"

abbrev pub scored_schemas : Table String
scored_schemas =
    ("readiness_report", readiness_report_schema)
    ∷ ("lab_bundle_report", lab_bundle_report_schema)
    ∷ ("trust_report", trust_report_schema)
    ∷ ("rehearsal_report", rehearsal_report_schema)
    ∷ ("evidence_intake_report", evidence_report_schema)
    ∷ ("route_health_report", health_report_schema)
    ∷ ("route_history_report", route_history_schema)
    ∷ ("cleanup_record", cleanup_record_schema)
    ∷ []

abbrev pub scored_kinds : List String
scored_kinds = keys scored_schemas

unfoldable pub validate_artifact_kind_list : Value → String → Result (List String)
validate_artifact_kind_list value label = do
  found ← array_or value (value_error (label +ₛ " must be an array"))
  each (λ v. check_in v scored_kinds (value_error ("unsupported " +ₛ label +ₛ " entry"))) found
  guard (unique (map text found)) (value_error (label +ₛ " entries must be unique"))
  ok (map text found)

unfoldable pub validate_evidence_intake_report : Fields → Check
unfolding require_keys
validate_evidence_intake_report report = do
  guard (is_text (get report "schema") evidence_report_schema)
      (value_error "unsupported evidence intake report schema")
  guard (not (contains_forbidden_key (obj report)))
      (value_error "evidence intake report contains command-like or credential-like fields")
  require_keys "evidence intake report missing "
      ("fleet_id" ∷ "source_agent_id" ∷ "observed_at" ∷ "experiment_scope" ∷ "overall_status"
        ∷ "summary" ∷ [])
      report
  check_in (get report "overall_status") intake_statuses
      (value_error "unsupported evidence intake status")

-- VALIDATORS[kind]
unfoldable pub scored_validator : String → Fields → Check
unfolding validate_readiness_report validate_bundle_report validate_trust_report
    validate_rehearsal_report validate_evidence_intake_report validate_route_health_report
    validate_history validate_cleanup_record
scored_validator kind artifact =
    if kind == "readiness_report"
    then validate_readiness_report artifact
    else if kind == "lab_bundle_report"
    then validate_bundle_report artifact
    else if kind == "trust_report"
    then validate_trust_report artifact
    else if kind == "rehearsal_report"
    then validate_rehearsal_report artifact
    else if kind == "evidence_intake_report"
    then validate_evidence_intake_report artifact
    else if kind == "route_health_report"
    then validate_route_health_report artifact
    else if kind == "route_history_report"
    then validate_history artifact
    else if kind == "cleanup_record"
    then validate_cleanup_record artifact
    else err (key_error kind)

unfoldable pub identity_check : Fields → Fields → Check
identity_check artifact manifest = do
  guard (py_eq (get artifact "fleet_id") (get manifest "fleet_id"))
      (value_error "fleet_id mismatch")
  guard (py_eq (get artifact "source_agent_id") (get manifest "source_agent_id"))
      (value_error "source_agent_id mismatch")
  guard (not (scope_differs artifact manifest)) (value_error "experiment_scope mismatch")

-- What status_from_artifact returns.
pub record Score : Type 0 where
  pub status : String
  pub source_status : String
  pub reason : String

abbrev pub score : String → String → String → Score
score status source reason = record { status = status; source_status = source; reason = reason }

-- The score of a report by its overall status, of which one is good.
unfoldable pub graded : String → String → String → String → String → Score
graded good clear_reason review_reason blocked_reason source =
    if source == good
    then score "synthetic_clear" source clear_reason
    else if source == "manual_review"
    then score "manual_review" source review_reason
    else score "blocked" source blocked_reason

unfoldable pub health_score : ℤ → ℤ → Score
health_score unknown unavailable =
    if is_pos unavailable
    then score "blocked" "unavailable" "route-health report has unavailable routes"
    else if is_pos unknown
    then score "manual_review" "unknown" "route-health report has unknown routes"
    else score "synthetic_clear" "clear" "route-health report has no unavailable or unknown routes"

unfoldable pub history_score : ℤ → ℤ → ℤ → Score
history_score unknown unavailable worsening =
    if is_pos unavailable || is_pos worsening
    then score "blocked" "unavailable_or_worsening"
        "route-history report has unavailable or worsening routes"
    else if is_pos unknown
    then score "manual_review" "unknown" "route-history report has unknown routes"
    else score "synthetic_clear" "clear"
        "route-history report has no unavailable, worsening, or unknown routes"

unfoldable pub cleanup_score : String → Score
cleanup_score source =
    if source == "completed"
    then score "synthetic_clear" source "cleanup record is completed"
    else score "manual_review" source "cleanup record is not completed"

pub record ScoreEntry : Type 0 where
  pub artifact_kind : String
  pub required : Bool
  pub status : String
  pub source_status : String
  pub expected_schema : String
  pub observed_schema : String
  pub reason : String

abbrev pub missing_entry : String → Bool → String → ScoreEntry
missing_entry kind required schema = record {
  artifact_kind = kind;
  required = required;
  status = "missing";
  source_status = "missing";
  expected_schema = schema;
  observed_schema = "";
  reason = if required then "required artifact missing" else "optional artifact not provided";
}

abbrev pub score_is : String → ScoreEntry → Bool
score_is status entry = entry.status == status

abbrev pub is_blocking : ScoreEntry → Bool
is_blocking entry = score_is "blocked" entry || (entry.required && score_is "missing" entry)

unfoldable pub overall_status : List ScoreEntry → String
overall_status entries =
    if any is_blocking entries
    then "blocked"
    else if any (score_is "manual_review") entries
    then "manual_review"
    else "synthetic_clear"

pub record Summary : Type 0 where
  pub artifact_count : ℕ
  pub required_artifact_count : ℕ
  pub synthetic_clear_count : ℕ
  pub manual_review_count : ℕ
  pub blocked_count : ℕ
  pub missing_count : ℕ

unfoldable pub summarize : List ScoreEntry → Summary
summarize entries = record {
  artifact_count = length entries;
  required_artifact_count = count_where (λ (e : ScoreEntry). e.required) entries;
  synthetic_clear_count = count_where (score_is "synthetic_clear") entries;
  manual_review_count = count_where (score_is "manual_review") entries;
  blocked_count = count_where (score_is "blocked") entries;
  missing_count = count_where (score_is "missing") entries;
}

pub record PressurePoint : Type 0 where
  pub artifact_kind : String
  pub status : String
  pub reason : String

unfoldable pub pressure_points : List ScoreEntry → List PressurePoint
pressure_points entries =
    map
      (λ (e : ScoreEntry). record {
        artifact_kind = e.artifact_kind;
        status = e.status;
        reason = e.reason;
      })
      (keep (λ e. member e.status ("blocked" ∷ "manual_review" ∷ "missing" ∷ [])) entries)

pub record ScorecardReport : Type 0 where
  pub fleet_id : Value
  pub source_agent_id : Value
  pub observed_at : String
  pub scorecard_id : Value
  pub experiment_scope : Value
  pub overall_status : String
  pub artifacts : List ScoreEntry
  pub pressure_points : List PressurePoint
  pub summary : Summary

-- The kinds of the manifest, each with whether it is required.
abbrev pub kinds_of : Fields → List (String × Bool)
kinds_of manifest =
    map (λ kind. (kind, true)) (texts_of (get manifest "required_artifact_kinds"))
    ++ map (λ kind. (kind, false)) (texts_of (get manifest "optional_artifact_kinds"))
