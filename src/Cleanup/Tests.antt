-- ===== src/Cleanup/Tests.antt =====
-- Runs of the cleanup plan report over a plan with the five needed kinds.
use quest_termux_lab.Base.{All, Bool, List, String, [], false, none, refl, true, ℕ, ◌↔◌, ◌∷◌, ◌≡◌}
use quest_termux_lab.Cleanup.{
  CleanupPlanReport, build_cleanup_plan_report, cleanup_plan_manifest_schema,
  required_cleanup_kinds, step_entries,
}
use quest_termux_lab.Cleanup.Required.{build_cleanup_plan_report-ready, covers}
use quest_termux_lab.Gossip.Envelope.{contains_forbidden_key, forbidden_key}
use quest_termux_lab.Py.Dict.{py_eq}
use quest_termux_lab.Py.Result.{Result, is_ok, map_result, ok, value_of}
use quest_termux_lab.Py.Sample.{past_text, sample_lib}
use quest_termux_lab.Py.Value.{Fields, Value, array, bool, dict, obj, str}

abbrev step_of : String → Bool → Value
step_of kind needed = obj (
    dict (
      ("step_id", str kind)
      ∷ ("cleanup_kind", str kind)
      ∷ ("timing", str "post_run")
      ∷ ("required", bool needed)
      ∷ ("expected_evidence_kind", str "cleanup_record")
      ∷ ("reason", str "r")
      ∷ []))

abbrev declared_steps : Bool → List Value
declared_steps approval =
    step_of "operator_review" approval
    ∷ step_of "clear_ephemeral_inbox" true
    ∷ step_of "clear_ephemeral_outbox" true
    ∷ step_of "confirm_peer_transport_stopped" true
    ∷ step_of "record_cleanup_record" true
    ∷ []

abbrev manifest : Bool → Fields
manifest approval = dict (
    ("schema", str cleanup_plan_manifest_schema)
    ∷ ("cleanup_plan_id", str "c1")
    ∷ ("fleet_id", str "f1")
    ∷ ("source_agent_id", str "a1")
    ∷ ("observed_at", str past_text)
    ∷ ("experiment_scope", str "private_configured_peer_gossip_only")
    ∷ ("cleanup_steps", array (declared_steps approval))
    ∷ ("authority_boundary", array [])
    ∷ [])

abbrev report_made : Bool → Result CleanupPlanReport
report_made approval = build_cleanup_plan_report sample_lib (manifest approval) none

made : (approval : Bool) → is_ok (report_made approval) ≡ true
unfolding build_cleanup_plan_report contains_forbidden_key forbidden_key py_eq
made true = refl
made false = refl

-- A step that is not required leaves the plan blocked, with no kind counted as missing.
optional_review :
    map_result {A = CleanupPlanReport} {B = String × ℕ}
      (λ (r : CleanupPlanReport). (r.overall_status, r.summary.missing_required_cleanup_kind_count))
      (report_made false)
    ≡ ok ("cleanup_plan_blocked", 0)
unfolding build_cleanup_plan_report contains_forbidden_key forbidden_key py_eq
optional_review = refl

build_cleanup_plan_report-ready_example :
    ((value_of (report_made true) (made true)).overall_status ≡ "cleanup_plan_ready")
    ↔ All (λ kind. covers (step_entries (declared_steps true)) kind ≡ true) required_cleanup_kinds
unfolding build_cleanup_plan_report contains_forbidden_key forbidden_key py_eq
build_cleanup_plan_report-ready_example =
    build_cleanup_plan_report-ready sample_lib (manifest true) (declared_steps true) none
      (value_of (report_made true) (made true)) refl refl
