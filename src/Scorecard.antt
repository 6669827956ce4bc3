-- ===== src/Scorecard.antt =====
-- tools/peer_mesh_scorecard_history.py: the statuses of artifacts over several scorecards. Reading
-- and writing files and the command line are left out.
pub mod Build
pub mod Card
pub mod Cleared
pub mod Covered
pub mod History
pub mod Steady
pub mod Deltas
pub mod Clear
mod CardTests
mod Tests
use quest_termux_lab.Base.{Bool, List, String, [], all, if◌then◌else◌, ltb, not, ℕ, ◌&&◌, ◌==◌, ◌∷◌}
use quest_termux_lab.Delivery.Validate.{require_texts}
use quest_termux_lab.Entries.{check_in, require_counts}
use quest_termux_lab.Fleet.Report.{summary}
use quest_termux_lab.Gossip.Envelope.{contains_forbidden_key, require_keys}
use quest_termux_lab.Health.History.{last_of}
use quest_termux_lab.Py.Dict.{array_or, get}
use quest_termux_lab.Py.Result.{
  Check, Result, each, err, guard, key_error, ok, value_error, ◌>>=◌, ◌>>◌,
}
use quest_termux_lab.Py.Stdlib.{Stdlib}
use quest_termux_lab.Py.Text.{◌+ₛ◌}
use quest_termux_lab.Py.Value.{Fields, Value, is_bool, is_one_of, is_str, is_text, obj}
use quest_termux_lab.Topology.Validate.{check_time}

abbrev pub scorecard_history_schema : String
scorecard_history_schema = "quest-termux-lab.peer-scorecard-history.v1"

abbrev pub scorecard_report_schema : String
scorecard_report_schema = "quest-termux-lab.peer-scorecard-report.v1"

abbrev pub score_statuses : List String
score_statuses = "synthetic_clear" ∷ "manual_review" ∷ "blocked" ∷ "missing" ∷ []

abbrev pub scorecard_statuses : List String
scorecard_statuses = "synthetic_clear" ∷ "manual_review" ∷ "blocked" ∷ []

abbrev pub delta_values : List String
delta_values =
    "observed_pressure_point" ∷ "single_sample_clear" ∷ "resolved" ∷ "new_pressure_point"
    ∷ "improved" ∷ "regressed" ∷ "persistent" ∷ "unchanged_clear" ∷ []

-- STATUS_SCORE
unfoldable pub score_of : String → Result ℕ
score_of status =
    if status == "missing"
    then ok 0
    else if status == "blocked"
    then ok 0
    else if status == "manual_review"
    then ok 1
    else if status == "synthetic_clear"
    then ok 2
    else err (key_error status)

abbrev pub summary_counters : List String
summary_counters =
    "artifact_count" ∷ "required_artifact_count" ∷ "synthetic_clear_count" ∷ "manual_review_count"
    ∷ "blocked_count" ∷ "missing_count" ∷ []

unfoldable pub validate_summary : Value → Check
unfolding require_counts
validate_summary (obj summary) =
    require_counts "scorecard summary missing non-negative integer " summary_counters summary
validate_summary _ = err (value_error "scorecard summary must be an object")

unfoldable pub validate_artifact_entry : Value → Check
validate_artifact_entry (obj entry) = do
  each
      (λ key.
        guard (is_str (get entry key)) (value_error ("scorecard artifact entry missing " +ₛ key)))
      ("artifact_kind" ∷ "status" ∷ "source_status" ∷ "expected_schema" ∷ "observed_schema"
        ∷ "reason" ∷ [])
  guard (is_bool (get entry "required")) (value_error "scorecard artifact entry missing required")
  guard (is_one_of (get entry "status") score_statuses)
      (value_error "unsupported scorecard artifact status")
validate_artifact_entry _ = err (value_error "scorecard artifact entry must be an object")

unfoldable pub validate_pressure_point : Value → Check
unfolding require_texts
validate_pressure_point (obj point) = do
  require_texts "scorecard pressure point missing " ("artifact_kind" ∷ "status" ∷ "reason" ∷ [])
      point
  guard (is_one_of (get point "status") ("manual_review" ∷ "blocked" ∷ "missing" ∷ []))
      (value_error "unsupported scorecard pressure point status")
validate_pressure_point _ = err (value_error "scorecard pressure point must be an object")

unfoldable pub validate_pressure_points : Value → Check
unfolding validate_pressure_point
validate_pressure_points value =
    array_or value (value_error "scorecard pressure_points must be an array") >>= λ points.
    each validate_pressure_point points

abbrev pub scorecard_texts : List String
scorecard_texts =
    "fleet_id" ∷ "source_agent_id" ∷ "observed_at" ∷ "scorecard_id" ∷ "experiment_scope" ∷ []

unfoldable pub validate_scorecard_report : Stdlib → Fields → Check
unfolding require_keys require_texts check_time validate_artifact_entry validate_pressure_points
    validate_summary
validate_scorecard_report lib report = do
  guard (is_text (get report "schema") scorecard_report_schema)
      (value_error "unsupported scorecard report schema")
  guard (not (contains_forbidden_key (obj report)))
      (value_error "scorecard report contains command-like or credential-like fields")
  require_keys "scorecard report missing "
      ("fleet_id" ∷ "source_agent_id" ∷ "observed_at" ∷ "scorecard_id" ∷ "experiment_scope"
        ∷ "overall_status" ∷ "artifacts" ∷ "pressure_points" ∷ "summary" ∷ [])
      report
  require_texts "scorecard report missing " scorecard_texts report
  check_time lib (get report "observed_at")
  check_in (get report "overall_status") scorecard_statuses
      (value_error "unsupported scorecard overall status")
  artifacts ← array_or (get report "artifacts") (value_error "scorecard artifacts must be an array")
  each validate_artifact_entry artifacts
  validate_pressure_points (get report "pressure_points")
  validate_summary (get report "summary")

-- The trend of statuses that end in another than the first, by their scores.
abbrev pub trend_name : Bool → ℕ → ℕ → String
trend_name same first_score last_score =
    if same
    then "stable"
    else if ltb first_score last_score
    then "improving"
    else if ltb last_score first_score
    then "worsening"
    else "mixed"

unfoldable pub score_trend : List String → Result String
unfolding score_of
score_trend [] = ok "single_sample"
score_trend (s ∷ []) = ok "single_sample"
score_trend (s ∷ t ∷ rest) = do
  first_score ← score_of s
  last_score ← score_of (last_of t rest)
  ok (trend_name (all (λ x. x == s) (t ∷ rest)) first_score last_score)

abbrev pub is_clear : String → Bool
is_clear status = status == "synthetic_clear"

-- The tests of delta_for on the scores.
unfoldable pub delta_by_score : String → String → Result String
unfolding score_of
delta_by_score first_status last_status = do
  last_score ← score_of last_status
  first_score ← score_of first_status
  ok (
      if ltb first_score last_score
      then "improved"
      else if ltb last_score first_score
      then "regressed"
      else if not (is_clear last_status)
      then "persistent"
      else "unchanged_clear")

unfoldable pub delta_for : String → String → String → Result String
unfolding delta_by_score
delta_for first_status last_status trend =
    let by_score = delta_by_score first_status last_status in
    if trend == "single_sample"
    then ok (if is_clear last_status then "single_sample_clear" else "observed_pressure_point")
    else if not (is_clear first_status) && is_clear last_status
    then ok "resolved"
    else if is_clear first_status && not (is_clear last_status)
    then ok "new_pressure_point"
    else by_score
