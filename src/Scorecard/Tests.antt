-- ===== src/Scorecard/Tests.antt =====
-- Runs of the scorecard history.
use quest_termux_lab.Base.{List, String, [], map, none, refl, true, ◌∷◌, ◌≡◌}
use quest_termux_lab.Gossip.Envelope.{contains_forbidden_key, forbidden_key}
use quest_termux_lab.Py.Dict.{py_eq}
use quest_termux_lab.Py.Result.{is_ok, value_of}
use quest_termux_lab.Py.Sample.{future_text, past_text, sample_lib}
use quest_termux_lab.Py.Value.{Fields, Value, array, bool, dict, nat, obj, str}
use quest_termux_lab.Scorecard.{scorecard_report_schema}
use quest_termux_lab.Scorecard.Clear.{Faithful, build_scorecard_history-Faithful}
use quest_termux_lab.Scorecard.History.{build_scorecard_history}

abbrev artifact_with : String → String → Value
artifact_with kind status = obj (
    dict (
      ("artifact_kind", str kind)
      ∷ ("status", str status)
      ∷ ("source_status", str "seen")
      ∷ ("expected_schema", str "s")
      ∷ ("observed_schema", str "s")
      ∷ ("reason", str "r")
      ∷ ("required", bool true)
      ∷ []))

abbrev scorecard_at : String → String → String → Fields
scorecard_at time overall status = dict (
    ("schema", str scorecard_report_schema)
    ∷ ("fleet_id", str "f1")
    ∷ ("source_agent_id", str "a1")
    ∷ ("observed_at", str time)
    ∷ ("scorecard_id", str "c1")
    ∷ ("experiment_scope", str "lab")
    ∷ ("overall_status", str overall)
    ∷ ("artifacts", array (artifact_with "trust_report" status ∷ []))
    ∷ ("pressure_points", array [])
    ∷ (
      "summary",
      obj (
          dict (
            ("artifact_count", nat 1)
            ∷ ("required_artifact_count", nat 1)
            ∷ ("synthetic_clear_count", nat 1)
            ∷ ("manual_review_count", nat 0)
            ∷ ("blocked_count", nat 0)
            ∷ ("missing_count", nat 0)
            ∷ [])),
    )
    ∷ [])

abbrev scorecards : List Fields
scorecards =
    scorecard_at future_text "synthetic_clear" "synthetic_clear"
    ∷ scorecard_at past_text "blocked" "blocked"
    ∷ []

scorecards_made : is_ok (build_scorecard_history sample_lib scorecards none) ≡ true
unfolding build_scorecard_history contains_forbidden_key forbidden_key py_eq
scorecards_made = refl

build_scorecard_history-Faithful_example :
    Faithful (value_of (build_scorecard_history sample_lib scorecards none) scorecards_made)
unfolding build_scorecard_history contains_forbidden_key forbidden_key py_eq
build_scorecard_history-Faithful_example =
    build_scorecard_history-Faithful sample_lib scorecards none
      (value_of (build_scorecard_history sample_lib scorecards none) scorecards_made) refl

-- The blocked artifact of the earlier scorecard is resolved in the later one.
resolved :
    map
      (λ a. a.delta)
      (value_of (build_scorecard_history sample_lib scorecards none) scorecards_made).artifacts
    ≡ "resolved" ∷ []
unfolding build_scorecard_history contains_forbidden_key forbidden_key py_eq
resolved = refl
