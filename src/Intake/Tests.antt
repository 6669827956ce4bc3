-- ===== src/Intake/Tests.antt =====
-- Runs of the evidence intake over a receipt, a cleanup record and a rehearsal report.
use quest_termux_lab.Base.{All, List, String, [], false, none, refl, true, ◌++◌, ◌∷◌, ◌≡◌}
use quest_termux_lab.Delivery.Validate.{http_receipt_schema}
use quest_termux_lab.Gossip.Envelope.{contains_forbidden_key, dict_or, forbidden_key}
use quest_termux_lab.Health.Report.{health_report_schema}
use quest_termux_lab.Intake.{cleanup_record_schema, evidence_manifest_schema}
use quest_termux_lab.Intake.Complete.{IsSupplied, build_evidence_report-IsSupplied}
use quest_termux_lab.Intake.Verdict.{
  EvidenceReport, build_evidence_report, caught_entry, count_verdict, or_nothing, ordered_kinds,
}
use quest_termux_lab.Py.Dict.{Table, lookup, py_eq}
use quest_termux_lab.Py.Result.{Result, err, is_ok, ok, type_error, value_of}
use quest_termux_lab.Py.Sample.{past_text, sample_lib}
use quest_termux_lab.Py.Value.{Fields, Value, array, bool, dict, end, obj, str}
use quest_termux_lab.Rehearsal.{rehearsal_report_schema}

abbrev identified : String → List (String × Value)
identified schema =
    ("schema", str schema)
    ∷ ("fleet_id", str "f1")
    ∷ ("source_agent_id", str "a1")
    ∷ ("observed_at", str past_text)
    ∷ ("experiment_scope", str "private_configured_peer_gossip_only")
    ∷ []

abbrev intake_manifest : Fields
intake_manifest = dict (
    identified evidence_manifest_schema
    ++ (("intake_id", str "i1")
        ∷ ("require_rehearsal_ready", bool true)
        ∷ ("required_artifact_kinds", array (str "gossip_receipt" ∷ str "cleanup_record" ∷ []))
        ∷ ("optional_artifact_kinds", array (str "rehearsal_report" ∷ []))
        ∷ (
          "artifact_paths",
          obj (dict (("cleanup_record", array (str "runs/cleanup.json" ∷ [])) ∷ [])),
        )
        ∷ []))

abbrev receipt : Fields
receipt = dict (
    ("schema", str http_receipt_schema)
    ∷ ("fleet_id", str "f1")
    ∷ ("observer_agent_id", str "a2")
    ∷ ("message_id", str "m1")
    ∷ ("sender_agent_id", str "a1")
    ∷ ("status", str "accepted")
    ∷ ("applied", bool true)
    ∷ [])

abbrev cleanup_record_of : String → Fields
cleanup_record_of status = dict (
    identified cleanup_record_schema
    ++ (("cleanup_status", str status) ∷ ("private_live_work_performed", bool false) ∷ []))

abbrev rehearsal_document : Fields
rehearsal_document = dict (
    identified rehearsal_report_schema
    ++ (("overall_status", str "rehearsal_ready") ∷ ("summary", obj end) ∷ []))

abbrev artifacts_with : String → Table (List Fields)
artifacts_with status =
    ("gossip_receipt", receipt ∷ receipt ∷ [])
    ∷ ("cleanup_record", cleanup_record_of status ∷ [])
    ∷ ("rehearsal_report", rehearsal_document ∷ [])
    ∷ []

abbrev intake_on : Table (List Fields) → Result EvidenceReport
intake_on by_kind = build_evidence_report sample_lib intake_manifest by_kind none

intake_made : is_ok (intake_on (artifacts_with "completed")) ≡ true
unfolding build_evidence_report contains_forbidden_key forbidden_key py_eq dict_or
intake_made = refl

build_evidence_report-IsSupplied_example :
    All
      (λ kind.
        IsSupplied intake_manifest kind (or_nothing (lookup (artifacts_with "completed") kind)))
      (ordered_kinds intake_manifest)
unfolding build_evidence_report contains_forbidden_key forbidden_key py_eq dict_or
build_evidence_report-IsSupplied_example =
    build_evidence_report-IsSupplied sample_lib intake_manifest (artifacts_with "completed") none
      (value_of (intake_on (artifacts_with "completed")) intake_made) refl refl

-- A cleanup that has not started leaves the evidence to a review; a missing record rejects it.
left_to_review :
    (r : EvidenceReport) × (intake_on (artifacts_with "not_started") ≡ ok r)
    × (r.overall_status ≡ "manual_review")
unfolding build_evidence_report contains_forbidden_key forbidden_key py_eq dict_or
left_to_review = (_, refl, refl)

nothing_given : (r : EvidenceReport) × (intake_on [] ≡ ok r) × (r.overall_status ≡ "rejected")
unfolding build_evidence_report contains_forbidden_key forbidden_key py_eq dict_or
nothing_given = (_, refl, refl)

-- A count that is a text raises a TypeError, which no handler catches.
count_of_text :
    caught_entry sample_lib "route_health_report" health_report_schema end
      (count_verdict "unknown_count" "r" (obj (dict (("unknown_count", str "1") ∷ []))))
    ≡ err type_error
unfolding caught_entry count_verdict
count_of_text = refl
