-- ===== src/Scorecard/CardTests.antt =====
-- Runs of the scorecard over an evidence intake report and a cleanup record.
use quest_termux_lab.Base.{All, List, String, [], false, map, none, refl, true, ◌++◌, ◌∷◌, ◌≡◌}
use quest_termux_lab.Gossip.Envelope.{contains_forbidden_key, dict_or, forbidden_key}
use quest_termux_lab.Intake.{cleanup_record_schema}
use quest_termux_lab.Intake.Verdict.{evidence_report_schema}
use quest_termux_lab.Py.Dict.{Table, py_eq}
use quest_termux_lab.Py.Result.{Result, is_ok, map_result, ok, value_of}
use quest_termux_lab.Py.Sample.{past_text, sample_lib}
use quest_termux_lab.Py.Value.{Fields, Value, array, bool, dict, end, obj, str}
use quest_termux_lab.Scorecard.Build.{build_scorecard_report}
use quest_termux_lab.Scorecard.Card.{ScorecardReport, kinds_of, scorecard_manifest_schema}
use quest_termux_lab.Scorecard.Covered.{IsCovered, build_scorecard_report-IsCovered}

abbrev carded : String → List (String × Value)
carded schema =
    ("schema", str schema)
    ∷ ("fleet_id", str "f1")
    ∷ ("source_agent_id", str "a1")
    ∷ ("observed_at", str past_text)
    ∷ ("experiment_scope", str "private_configured_peer_gossip_only")
    ∷ []

abbrev card_manifest : Fields
card_manifest = dict (
    carded scorecard_manifest_schema
    ++ (("scorecard_id", str "s1")
        ∷ (
          "required_artifact_kinds",
          array (str "evidence_intake_report" ∷ str "cleanup_record" ∷ []),
        )
        ∷ ("optional_artifact_kinds", array (str "trust_report" ∷ []))
        ∷ ("artifact_paths", obj (dict (("cleanup_record", str "runs/cleanup.json") ∷ [])))
        ∷ []))

abbrev card_artifacts : String → Table Fields
card_artifacts status =
    (
      "evidence_intake_report",
      dict (
          carded evidence_report_schema
          ++ (("overall_status", str "accepted") ∷ ("summary", obj end) ∷ [])),
    )
    ∷ (
      "cleanup_record",
      dict (
          carded cleanup_record_schema
          ++ (("cleanup_status", str status) ∷ ("private_live_work_performed", bool false) ∷ [])),
    )
    ∷ []

abbrev card_on : String → Result ScorecardReport
card_on status = build_scorecard_report sample_lib card_manifest (card_artifacts status) none

card_made : is_ok (card_on "completed") ≡ true
unfolding build_scorecard_report contains_forbidden_key forbidden_key py_eq dict_or
card_made = refl

build_scorecard_report-IsCovered_example :
    All (IsCovered sample_lib card_manifest (card_artifacts "completed")) (kinds_of card_manifest)
unfolding build_scorecard_report contains_forbidden_key forbidden_key py_eq dict_or
build_scorecard_report-IsCovered_example =
    build_scorecard_report-IsCovered sample_lib card_manifest (card_artifacts "completed") none
      (value_of (card_on "completed") card_made) refl refl

-- A missing optional artifact is a pressure point, and the scorecard is clear all the same.
missing_trust :
    map_result {A = ScorecardReport} {B = String × List String}
      (λ (r : ScorecardReport). (r.overall_status, map (λ p. p.artifact_kind) r.pressure_points))
      (card_on "completed")
    ≡ ok ("synthetic_clear", "trust_report" ∷ [])
unfolding build_scorecard_report contains_forbidden_key forbidden_key py_eq dict_or
missing_trust = refl

unfinished_cleanup :
    map_result {A = ScorecardReport} {B = String}
      (λ (r : ScorecardReport). r.overall_status)
      (card_on "not_started")
    ≡ ok "manual_review"
unfolding build_scorecard_report contains_forbidden_key forbidden_key py_eq dict_or
unfinished_cleanup = refl
