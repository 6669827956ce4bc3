-- ===== src/Regression/Tests.antt =====
-- Runs of the regression gate.
use quest_termux_lab.Base.{String, [], none, refl, true, ◌∷◌, ◌≡◌}
use quest_termux_lab.Gossip.Envelope.{contains_forbidden_key, forbidden_key}
use quest_termux_lab.Py.Dict.{dict_of, get, py_eq}
use quest_termux_lab.Py.Result.{Result, is_ok, ok, value_of}
use quest_termux_lab.Py.Sample.{past_text, sample_lib}
use quest_termux_lab.Py.Value.{Fields, array, bool, dict, nat, obj, str}
use quest_termux_lab.Regression.{
  RegressionReport, build_regression_report, regression_policy_schema,
}
use quest_termux_lab.Regression.Clear.{IsClear, build_regression_report-IsClear}
use quest_termux_lab.Scorecard.{scorecard_history_schema}

abbrev regression_policy : Fields
regression_policy = dict (
    ("schema", str regression_policy_schema)
    ∷ ("policy_id", str "p1")
    ∷ ("fleet_id", str "f1")
    ∷ ("source_agent_id", str "a1")
    ∷ ("experiment_scope", str "private_configured_peer_gossip_only")
    ∷ ("min_report_count", nat 2)
    ∷ ("max_new_pressure_point_count", nat 0)
    ∷ ("max_worsening_artifact_count", nat 0)
    ∷ ("max_persistent_pressure_point_count", nat 1)
    ∷ ("max_last_blocked_count", nat 0)
    ∷ ("max_last_missing_count", nat 0)
    ∷ ("allow_single_sample_review", bool true)
    ∷ ("allow_manual_review_history", bool true)
    ∷ ("require_non_worsening_overall", bool true)
    ∷ ("authority_boundary", array (str "synthetic only" ∷ []))
    ∷ [])

abbrev judged_history : String → Fields
judged_history trend = dict (
    ("schema", str scorecard_history_schema)
    ∷ ("fleet_id", str "f1")
    ∷ ("source_agent_id", str "a1")
    ∷ ("observed_at", str past_text)
    ∷ ("experiment_scope", str "private_configured_peer_gossip_only")
    ∷ ("overall_status", str "synthetic_clear")
    ∷ ("overall_trend", str trend)
    ∷ ("report_count", nat 3)
    ∷ ("first_report_at", str past_text)
    ∷ ("last_report_at", str past_text)
    ∷ (
      "summary",
      obj (
          dict (
            ("report_count", nat 3)
            ∷ ("last_blocked_count", nat 0)
            ∷ ("last_missing_count", nat 0)
            ∷ ("last_manual_review_count", nat 0)
            ∷ ("worsening_artifact_count", nat 0)
            ∷ ("new_pressure_point_count", nat 0)
            ∷ ("persistent_pressure_point_count", nat 1)
            ∷ [])),
    )
    ∷ [])

abbrev regression_on : String → Result RegressionReport
regression_on trend =
    build_regression_report sample_lib regression_policy (judged_history trend) none

regression_made : is_ok (regression_on "stable") ≡ true
unfolding build_regression_report contains_forbidden_key forbidden_key py_eq
regression_made = refl

build_regression_report-IsClear_example :
    (counts : Fields) × (dict_of (get (judged_history "stable") "summary") ≡ ok counts)
    × IsClear sample_lib regression_policy (judged_history "stable") counts
unfolding build_regression_report contains_forbidden_key forbidden_key py_eq
build_regression_report-IsClear_example =
    build_regression_report-IsClear sample_lib regression_policy (judged_history "stable") none
      (value_of (regression_on "stable") regression_made) refl refl

-- A trend that gets worse blocks.
worse :
    (r : RegressionReport) × (regression_on "worsening" ≡ ok r)
    × (r.overall_status ≡ "regression_blocked")
unfolding build_regression_report contains_forbidden_key forbidden_key py_eq
worse = (_, refl, refl)
