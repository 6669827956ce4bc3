-- ===== src/Regression.antt =====
-- tools/peer_mesh_scorecard_regression.py: a policy on what a history of scorecards may show. Reading
-- and writing files and the command line are left out.
pub mod Clear
mod Tests
use quest_termux_lab.Base.{
  Bool, List, Option, String, [], eqb, if◌then◌else◌, leb, length, not, ℕ, ◌&&◌, ◌++◌, ◌==◌, ◌∷◌,
}
use quest_termux_lab.Delivery.Validate.{require_texts}
use quest_termux_lab.Entries.{CheckEntry, any_status, check_in, count_status, require_counts}
use quest_termux_lab.Fleet.Report.{summary}
use quest_termux_lab.Gossip.Envelope.{contains_forbidden_key, nonempty_list, require_keys}
use quest_termux_lab.Health.History.{trend_values}
use quest_termux_lab.Py.Dict.{dict_of, get, py_eq}
use quest_termux_lab.Py.Result.{Check, Result, each, err, guard, ok, value_error, ◌>>=◌, ◌>>◌}
use quest_termux_lab.Py.Stdlib.{Stdlib, or_text, text_of}
use quest_termux_lab.Py.Text.{◌+ₛ◌}
use quest_termux_lab.Py.Value.{
  Fields, Value, count_of, is_bool, is_count, is_name, is_positive, is_text, is_true, nat, obj,
}
use quest_termux_lab.Readiness.{experiment_scopes}
use quest_termux_lab.Scorecard.{scorecard_history_schema, scorecard_statuses}
use quest_termux_lab.Topology.Validate.{check_time}

abbrev pub regression_policy_schema : String
regression_policy_schema = "quest-termux-lab.peer-scorecard-regression-policy.v1"

abbrev pub regression_report_schema : String
regression_report_schema = "quest-termux-lab.peer-scorecard-regression-report.v1"

abbrev pub policy_integer_fields : List String
policy_integer_fields =
    "min_report_count" ∷ "max_new_pressure_point_count" ∷ "max_worsening_artifact_count"
    ∷ "max_persistent_pressure_point_count" ∷ "max_last_blocked_count" ∷ "max_last_missing_count"
    ∷ []

abbrev pub regression_flags : List String
regression_flags =
    "allow_single_sample_review" ∷ "allow_manual_review_history" ∷ "require_non_worsening_overall"
    ∷ []

unfoldable pub validate_regression_policy : Fields → Check
unfolding require_keys require_texts nonempty_list
validate_regression_policy policy = do
  guard (is_text (get policy "schema") regression_policy_schema)
      (value_error "unsupported scorecard regression policy schema")
  guard (not (contains_forbidden_key (obj policy)))
      (value_error "scorecard regression policy contains command-like or credential-like fields")
  require_keys "scorecard regression policy missing "
      (("policy_id" ∷ "fleet_id" ∷ "source_agent_id" ∷ "experiment_scope" ∷ regression_flags)
        ++ ("authority_boundary" ∷ policy_integer_fields))
      policy
  require_texts "scorecard regression policy missing "
      ("policy_id" ∷ "fleet_id" ∷ "source_agent_id" ∷ []) policy
  check_in (get policy "experiment_scope") experiment_scopes
      (value_error "unsupported experiment_scope")
  each
      (λ key.
        guard (is_count (get policy key)) (
          value_error ("scorecard regression policy " +ₛ key +ₛ " must be a non-negative integer")))
      policy_integer_fields
  each
      (λ key.
        guard (is_bool (get policy key))
          (value_error ("scorecard regression policy " +ₛ key +ₛ " must be boolean")))
      regression_flags
  boundary ←
      nonempty_list (get policy "authority_boundary")
        (value_error "scorecard regression policy authority_boundary must be a non-empty array")
  each
      (λ v.
        guard (is_name v)
          (value_error "scorecard regression policy authority boundary entry must be text"))
      boundary

abbrev pub history_counts : List String
history_counts =
    "report_count" ∷ "last_blocked_count" ∷ "last_missing_count" ∷ "last_manual_review_count"
    ∷ "worsening_artifact_count" ∷ "new_pressure_point_count" ∷ "persistent_pressure_point_count"
    ∷ []

unfoldable pub validate_history_counts : Value → Check
unfolding require_counts
validate_history_counts (obj summary) =
    require_counts "scorecard history summary missing non-negative integer " history_counts summary
validate_history_counts _ = err (value_error "scorecard history summary must be an object")

abbrev pub history_keys : List String
history_keys =
    "fleet_id" ∷ "source_agent_id" ∷ "observed_at" ∷ "experiment_scope" ∷ "overall_status"
    ∷ "overall_trend" ∷ "report_count" ∷ "first_report_at" ∷ "last_report_at" ∷ "summary" ∷ []

abbrev pub history_texts : List String
history_texts = "fleet_id" ∷ "source_agent_id" ∷ "observed_at" ∷ "experiment_scope" ∷ []

unfoldable pub validate_scorecard_history : Stdlib → Fields → Check
unfolding require_keys require_texts check_time validate_history_counts
validate_scorecard_history lib history = do
  guard (is_text (get history "schema") scorecard_history_schema)
      (value_error "unsupported scorecard history schema")
  guard (not (contains_forbidden_key (obj history)))
      (value_error "scorecard history contains command-like or credential-like fields")
  require_keys "scorecard history missing " history_keys history
  require_texts "scorecard history missing " history_texts history
  check_time lib (get history "observed_at")
  check_in (get history "overall_status") scorecard_statuses
      (value_error "unsupported scorecard history overall status")
  check_in (get history "overall_trend") trend_values
      (value_error "unsupported scorecard history overall trend")
  guard (is_positive (get history "report_count"))
      (value_error "scorecard history report_count must be positive")
  validate_history_counts (get history "summary")

-- check_entry, of a status that its callers write out
unfoldable pub check_entry : String → String → String → String → String → CheckEntry
check_entry check_id status observed threshold reason = record {
  check_id = check_id;
  status = status;
  observed = observed;
  threshold = threshold;
  reason = reason;
}

unfoldable pub trend_check : Bool → String → CheckEntry
unfolding check_entry
trend_check required trend =
    if required && trend == "worsening"
    then check_entry "overall_trend" "failed" trend "not worsening"
        "overall scorecard trend is worsening"
    else if required && trend == "mixed"
    then check_entry "overall_trend" "manual_review" trend "not worsening"
        "overall scorecard trend is mixed"
    else check_entry "overall_trend" "passed" trend "not worsening"
        "overall scorecard trend is acceptable"

unfoldable pub history_status_check : Bool → String → CheckEntry
unfolding check_entry
history_status_check allowed status =
    if status == "blocked"
    then check_entry "history_status" "failed" status "not blocked"
        "latest scorecard history is blocked"
    else if status == "manual_review" && not allowed
    then check_entry "history_status" "failed" status "synthetic_clear"
        "manual-review history is not allowed by policy"
    else if status == "manual_review"
    then check_entry "history_status" "manual_review" status "synthetic_clear"
        "history requires manual review"
    else check_entry "history_status" "passed" status "synthetic_clear"
        "history is synthetically clear"

pub record Summary : Type 0 where
  pub check_count : ℕ
  pub passed_check_count : ℕ
  pub manual_review_check_count : ℕ
  pub failed_check_count : ℕ

unfoldable pub summarize_checks : List CheckEntry → Summary
summarize_checks checks = record {
  check_count = length checks;
  passed_check_count = count_status "passed" checks;
  manual_review_check_count = count_status "manual_review" checks;
  failed_check_count = count_status "failed" checks;
}

unfoldable pub overall_status : List CheckEntry → String
overall_status checks =
    if any_status "failed" checks
    then "regression_blocked"
    else if any_status "manual_review" checks
    then "manual_review"
    else "regression_clear"

pub record RegressionReport : Type 0 where
  pub fleet_id : Value
  pub source_agent_id : Value
  pub observed_at : String
  pub experiment_scope : Value
  pub policy_id : Value
  pub history_status : Value
  pub history_trend : Value
  pub overall_status : String
  pub checks : List CheckEntry
  pub summary : Summary

-- if history[key] != policy[key]: raise ValueError("scorecard regression " + key + " mismatch")
abbrev pub same_key : Fields → Fields → String → Check
same_key policy history key =
    guard (py_eq (get history key) (get policy key))
      (value_error ("scorecard regression " +ₛ key +ₛ " mismatch"))

module _ (lib : Stdlib) where
  unfoldable pub report_count_check : Bool → ℕ → ℕ → CheckEntry
  unfolding check_entry
  report_count_check single_allowed report_count min_count =
      let found = text_of lib (nat report_count) in
      let wanted = ">= " +ₛ text_of lib (nat min_count) in
      if leb min_count report_count
      then check_entry "report_count" "passed" found wanted "history has enough scorecard reports"
      else if single_allowed && eqb report_count 1
      then check_entry "report_count" "manual_review" found wanted
          "single scorecard needs repeat evidence"
      else check_entry "report_count" "failed" found wanted "not enough scorecard reports"

  unfoldable pub numeric_check : String → ℕ → ℕ → String → String → CheckEntry
  unfolding check_entry
  numeric_check check_id observed threshold good bad =
      let bound = "<= " +ₛ text_of lib (nat threshold) in
      if leb observed threshold
      then check_entry check_id "passed" (text_of lib (nat observed)) bound good
      else check_entry check_id "failed" (text_of lib (nat observed)) bound bad

  unfoldable pub numeric_checks : Fields → Fields → List CheckEntry
  unfolding numeric_check
  numeric_checks policy summary =
      numeric_check "new_pressure_points" (count_of (get summary "new_pressure_point_count"))
        (count_of (get policy "max_new_pressure_point_count"))
        "new pressure points are within policy" "new pressure points exceed policy"
      ∷ numeric_check "worsening_artifacts" (count_of (get summary "worsening_artifact_count"))
          (count_of (get policy "max_worsening_artifact_count"))
          "worsening artifacts are within policy" "worsening artifacts exceed policy"
      ∷ numeric_check "persistent_pressure_points"
          (count_of (get summary "persistent_pressure_point_count"))
          (count_of (get policy "max_persistent_pressure_point_count"))
          "persistent pressure points are within policy" "persistent pressure points exceed policy"
      ∷ numeric_check "last_blocked_artifacts" (count_of (get summary "last_blocked_count"))
          (count_of (get policy "max_last_blocked_count"))
          "latest blocked artifact count is within policy"
          "latest blocked artifact count exceeds policy"
      ∷ numeric_check "last_missing_artifacts" (count_of (get summary "last_missing_count"))
          (count_of (get policy "max_last_missing_count"))
          "latest missing artifact count is within policy"
          "latest missing artifact count exceeds policy"
      ∷ []

  unfoldable pub build_checks : Fields → Fields → Fields → List CheckEntry
  unfolding report_count_check trend_check history_status_check numeric_checks
  build_checks policy history summary =
      report_count_check (is_true (get policy "allow_single_sample_review"))
        (count_of (get history "report_count")) (count_of (get policy "min_report_count"))
      ∷ trend_check (is_true (get policy "require_non_worsening_overall"))
          (text_of lib (get history "overall_trend"))
      ∷ history_status_check (is_true (get policy "allow_manual_review_history"))
          (text_of lib (get history "overall_status"))
      ∷ numeric_checks policy summary

  unfoldable pub build_regression_report : Fields → Fields → Option String → Result RegressionReport
  unfolding validate_regression_policy validate_scorecard_history build_checks overall_status
      summarize_checks
  build_regression_report policy history now_text = do
    validate_regression_policy policy
    validate_scorecard_history lib history
    each (same_key policy history) ("fleet_id" ∷ "source_agent_id" ∷ "experiment_scope" ∷ [])
    summary ← dict_of (get history "summary")
    let checks = build_checks policy history summary
    ok (record {
      fleet_id = get policy "fleet_id";
      source_agent_id = get policy "source_agent_id";
      observed_at = or_text now_text (text_of lib (get history "observed_at"));
      experiment_scope = get policy "experiment_scope";
      policy_id = get policy "policy_id";
      history_status = get history "overall_status";
      history_trend = get history "overall_trend";
      overall_status = overall_status checks;
      checks = checks;
      summary = summarize_checks checks;
    })
