-- ===== src/Scorecard/Build.antt =====
-- The artifacts' entries and the report of tools/peer_mesh_scorecard.py.
use quest_termux_lab.Base.{
  Bool, Option, String, [], any, if◌then◌else◌, member, none, not, some, ◌==◌, ◌∷◌,
}
use quest_termux_lab.Delivery.Validate.{require_texts}
use quest_termux_lab.Dispatch.{validate_relative_path}
use quest_termux_lab.Entries.{check_in}
use quest_termux_lab.Fleet.Report.{summary}
use quest_termux_lab.Gossip.Envelope.{contains_forbidden_key, dict_or, require_keys}
use quest_termux_lab.Health.Report.{optional}
use quest_termux_lab.Intake.Verdict.{schema_or_error}
use quest_termux_lab.Py.Dict.{Table, get, get_or, item, lookup}
use quest_termux_lab.Py.Result.{
  Check, Result, err, guard, map_ok, ok, on_value_error, value_error, ◌>>=◌, ◌>>◌,
}
use quest_termux_lab.Py.Stdlib.{Stdlib, int_of, or_text, text_of}
use quest_termux_lab.Py.Text.{◌+ₛ◌}
use quest_termux_lab.Py.Value.{
  Fields, Value, end, field, is_name, is_text, nat, obj, pos, str, text, ℤ,
}
use quest_termux_lab.Readiness.{experiment_scopes, grade}
use quest_termux_lab.Scorecard.Card.{
  Score, ScoreEntry, ScorecardReport, cleanup_score, graded, health_score, history_score,
  identity_check, kinds_of, missing_entry, overall_status, pressure_points, score,
  scorecard_manifest_schema, scored_kinds, scored_schemas, scored_validator, summarize,
  validate_artifact_kind_list,
}

module _ (lib : Stdlib) where
  -- int(summary.get(key, 0)) if isinstance(summary, dict) else 0
  abbrev pub counted : Value → String → Result ℤ
  counted (obj summary) key = int_of lib (get_or summary key (nat 0))
  counted _ key = ok (pos 0)

  -- str(artifact[key])
  abbrev pub status_text : Fields → String → Result String
  status_text artifact key = item artifact key >>= λ v. ok (text_of lib v)

  unfoldable pub score_health : Fields → Result Score
  unfolding health_score
  score_health artifact = do
    let summary = get_or artifact "summary" (obj end)
    unknown ← counted summary "unknown_count"
    unavailable ← counted summary "unavailable_count"
    ok (health_score unknown unavailable)

  unfoldable pub score_history : Fields → Result Score
  unfolding history_score
  score_history artifact = do
    let summary = get_or artifact "summary" (obj end)
    unknown ← counted summary "last_unknown_count"
    unavailable ← counted summary "last_unavailable_count"
    worsening ← counted summary "worsening_count"
    ok (history_score unknown unavailable worsening)

  -- The score of a report that is good with one overall status.
  abbrev pub graded_by : Fields → (String → Score) → Result Score
  graded_by artifact grade = status_text artifact "overall_status" >>= λ source. ok (grade source)

  unfoldable pub status_from_artifact : String → Fields → Result Score
  unfolding graded score_health score_history cleanup_score
  status_from_artifact kind artifact =
      if kind == "readiness_report"
      then graded_by artifact (
          graded "ready" "readiness report is ready" "readiness report requires manual review"
            "readiness report is not ready")
      else if kind == "lab_bundle_report"
      then graded_by artifact (
          graded "synthetic_ready" "lab bundle is synthetically ready"
            "lab bundle requires manual review" "lab bundle is blocked")
      else if kind == "trust_report"
      then graded_by artifact (
          graded "trusted" "trust report is trusted" "trust report requires manual review"
            "trust report is untrusted")
      else if kind == "rehearsal_report"
      then graded_by artifact (
          graded "rehearsal_ready" "rehearsal report is ready"
            "rehearsal report requires manual review" "rehearsal report is blocked")
      else if kind == "evidence_intake_report"
      then graded_by artifact (
          graded "accepted" "evidence intake is accepted" "evidence intake requires manual review"
            "evidence intake is rejected")
      else if kind == "route_health_report"
      then score_health artifact
      else if kind == "route_history_report"
      then score_history artifact
      else if kind == "cleanup_record"
      then (status_text artifact "cleanup_status" >>= λ source. ok (cleanup_score source))
      else err (value_error "unsupported artifact kind")

  -- The body of the `try` of artifact_entry.
  unfoldable pub score_artifact : String → String → Fields → Fields → Result Score
  unfolding scored_validator identity_check status_from_artifact
  score_artifact kind schema manifest artifact = do
    scored_validator kind artifact
    guard (is_text (get artifact "schema") schema) (value_error "schema mismatch")
    identity_check artifact manifest
    status_from_artifact kind artifact

  abbrev pub scored_entry : String → Bool → String → Fields → Score → ScoreEntry
  scored_entry kind required schema artifact found = record {
    artifact_kind = kind;
    required = required;
    status = found.status;
    source_status = found.source_status;
    expected_schema = schema;
    observed_schema = text_of lib (get_or artifact "schema" (str ""));
    reason = found.reason;
  }

  -- The entry of the outcome of the `try`.
  unfoldable pub caught_score : String → Bool → String → Fields → Result Score → Result ScoreEntry
  caught_score kind required schema artifact scored =
      on_value_error (scored >>= λ found. ok (scored_entry kind required schema artifact found))
        (λ message. scored_entry kind required schema artifact (score "blocked" "invalid" message))

  unfoldable pub entry_with : String → Bool → String → Fields → Option Fields → Result ScoreEntry
  unfolding caught_score score_artifact
  entry_with kind required schema manifest none = ok (missing_entry kind required schema)
  entry_with kind required schema manifest (some artifact) =
      caught_score kind required schema artifact (score_artifact kind schema manifest artifact)

  unfoldable pub artifact_entry : Fields → Table Fields → String × Bool → Result ScoreEntry
  unfolding entry_with
  artifact_entry manifest artifacts_by_kind (kind, required) =
      schema_or_error kind (lookup scored_schemas kind) >>= λ schema.
      entry_with kind required schema manifest (lookup artifacts_by_kind kind)

  unfoldable pub validate_scored_paths : Fields → Check
  unfolding validate_relative_path
  validate_scored_paths end = ok tt
  validate_scored_paths (field kind v paths) =
      let label = "artifact_paths." +ₛ kind in
      let rest = validate_scored_paths paths in
      guard (member kind scored_kinds) (value_error "artifact_paths contains unsupported kind")
      >> guard (is_name v) (value_error (label +ₛ " must be a non-empty string"))
      >> validate_relative_path lib (text v) label
      >> rest

  unfoldable pub validate_manifest : Fields → Check
  unfolding require_keys require_texts validate_artifact_kind_list validate_scored_paths
  validate_manifest manifest = do
    guard (is_text (get manifest "schema") scorecard_manifest_schema)
        (value_error "unsupported scorecard manifest schema")
    guard (not (contains_forbidden_key (obj manifest)))
        (value_error "scorecard manifest contains command-like or credential-like fields")
    require_keys "scorecard manifest missing "
        ("fleet_id" ∷ "source_agent_id" ∷ "observed_at" ∷ "scorecard_id" ∷ "experiment_scope"
          ∷ "required_artifact_kinds" ∷ "optional_artifact_kinds" ∷ "artifact_paths" ∷ [])
        manifest
    require_texts "scorecard manifest missing "
        ("fleet_id" ∷ "source_agent_id" ∷ "observed_at" ∷ "scorecard_id" ∷ []) manifest
    check_in (get manifest "experiment_scope") experiment_scopes
        (value_error "unsupported experiment_scope")
    required ←
        validate_artifact_kind_list (get manifest "required_artifact_kinds")
          "required_artifact_kinds"
    optional ←
        validate_artifact_kind_list (get manifest "optional_artifact_kinds")
          "optional_artifact_kinds"
    guard (not (any (λ kind. member kind optional) required))
        (value_error "required and optional artifact kinds must not overlap")
    paths ← dict_or (get manifest "artifact_paths") (value_error "artifact_paths must be an object")
    validate_scored_paths paths

  unfoldable pub build_scorecard_report :
      Fields → Table Fields → Option String → Result ScorecardReport
  unfolding validate_manifest artifact_entry overall_status pressure_points summarize
  build_scorecard_report manifest artifacts_by_kind now_text = do
    validate_manifest manifest
    entries ← map_ok (artifact_entry manifest artifacts_by_kind) (kinds_of manifest)
    ok (record {
      fleet_id = get manifest "fleet_id";
      source_agent_id = get manifest "source_agent_id";
      observed_at = or_text now_text (text_of lib (get manifest "observed_at"));
      scorecard_id = get manifest "scorecard_id";
      experiment_scope = get manifest "experiment_scope";
      overall_status = overall_status entries;
      artifacts = entries;
      pressure_points = pressure_points entries;
      summary = summarize entries;
    })
