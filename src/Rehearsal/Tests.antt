-- ===== src/Rehearsal/Tests.antt =====
-- Runs of the rehearsal gate.
use quest_termux_lab.Base.{List, String, [], none, refl, true, ◌++◌, ◌∷◌, ◌≡◌}
use quest_termux_lab.Bundle.{lab_bundle_report_schema}
use quest_termux_lab.Gossip.Envelope.{contains_forbidden_key, forbidden_key}
use quest_termux_lab.Py.Dict.{py_eq}
use quest_termux_lab.Py.Result.{Result, is_ok, ok, value_of}
use quest_termux_lab.Py.Sample.{past_text, sample_lib}
use quest_termux_lab.Py.Value.{Fields, Value, array, bool, dict, nat, obj, str}
use quest_termux_lab.Rehearsal.{rehearsal_manifest_schema}
use quest_termux_lab.Rehearsal.Gate.{RehearsalReport, build_rehearsal_report}
use quest_termux_lab.Rehearsal.Ready.{IsReady, build_rehearsal_report-IsReady}
use quest_termux_lab.Trust.{trust_report_schema}

abbrev scoped : String → List (String × Value)
scoped schema =
    ("schema", str schema)
    ∷ ("fleet_id", str "f1")
    ∷ ("source_agent_id", str "a1")
    ∷ ("observed_at", str past_text)
    ∷ ("experiment_scope", str "private_configured_peer_gossip_only")
    ∷ []

abbrev planned_phase : String → String → Value
planned_phase id kind = obj (
    dict (
      ("phase_id", str id)
      ∷ ("evidence_kind", str kind)
      ∷ ("required_before_live", bool true)
      ∷ []))

abbrev rehearsal_manifest : Fields
rehearsal_manifest = dict (
    scoped rehearsal_manifest_schema
    ++ (("rehearsal_id", str "r1")
        ∷ ("required_lab_bundle_statuses", array (str "synthetic_ready" ∷ []))
        ∷ ("required_trust_statuses", array (str "trusted" ∷ str "manual_review" ∷ []))
        ∷ ("operator_review_required", bool true)
        ∷ ("operator_review_recorded", bool true)
        ∷ (
          "planned_phases",
          array (
              planned_phase "p1" "preflight_bundle_report"
              ∷ planned_phase "p2" "trust_report"
              ∷ planned_phase "p3" "gossip_receipts"
              ∷ []),
        )
        ∷ []))

abbrev bundle_document : Fields
bundle_document = dict (
    scoped lab_bundle_report_schema
    ++ (("experiment_id", str "e1")
        ∷ ("overall_status", str "synthetic_ready")
        ∷ (
          "summary",
          obj (
              dict (
                ("configured_route_count", nat 1)
                ∷ ("ready_route_count", nat 1)
                ∷ ("not_ready_route_count", nat 0)
                ∷ [])),
        )
        ∷ []))

abbrev trust_document : String → Fields
trust_document status = dict (
    scoped trust_report_schema
    ++ (("overall_status", str status)
        ∷ (
          "summary",
          obj (
              dict (
                ("configured_peer_count", nat 1)
                ∷ ("trusted_peer_count", nat 1)
                ∷ ("untrusted_peer_count", nat 0)
                ∷ [])),
        )
        ∷ []))

abbrev rehearsal_on : String → Result RehearsalReport
rehearsal_on status =
    build_rehearsal_report sample_lib rehearsal_manifest bundle_document (trust_document status)
      none

rehearsal_made : is_ok (rehearsal_on "trusted") ≡ true
unfolding build_rehearsal_report contains_forbidden_key forbidden_key py_eq
rehearsal_made = refl

build_rehearsal_report-IsReady_example :
    IsReady sample_lib rehearsal_manifest bundle_document
      (trust_document "trusted")
      (value_of (rehearsal_on "trusted") rehearsal_made).phases
unfolding build_rehearsal_report contains_forbidden_key forbidden_key py_eq
build_rehearsal_report-IsReady_example =
    build_rehearsal_report-IsReady sample_lib rehearsal_manifest bundle_document
      (trust_document "trusted") none (value_of (rehearsal_on "trusted") rehearsal_made) refl refl

-- A trust report that asks for a review is accepted, and leaves the rehearsal to a review.
left_to_review :
    (r : RehearsalReport) × (rehearsal_on "manual_review" ≡ ok r)
    × (r.overall_status ≡ "manual_review")
unfolding build_rehearsal_report contains_forbidden_key forbidden_key py_eq
left_to_review = (_, refl, refl)
