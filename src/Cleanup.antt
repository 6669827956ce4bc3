-- ===== src/Cleanup.antt =====
-- tools/peer_mesh_cleanup_plan.py: the steps that clean up after an experiment. Reading and writing
-- files and the command line are left out.
pub mod Required
mod Tests
use quest_termux_lab.Base.{
  Bool, List, Option, String, [], any, if◌then◌else◌, keep, length, map, member, not, true, ℕ, ◌&&◌,
  ◌++◌, ◌==◌, ◌∷◌,
}
use quest_termux_lab.Delivery.Validate.{require_texts}
use quest_termux_lab.Entries.{check_in, count_where, nonempty_text, unique}
use quest_termux_lab.Fleet.Report.{summary}
use quest_termux_lab.Gossip.Envelope.{contains_forbidden_key, nonempty_list, require_keys}
use quest_termux_lab.Py.Dict.{array_or, get, list_of}
use quest_termux_lab.Py.Result.{
  Check, Result, each, err, guard, map_ok, ok, value_error, ◌>>=◌, ◌>>◌,
}
use quest_termux_lab.Py.Stdlib.{Stdlib, or_text, text_of}
use quest_termux_lab.Py.Text.{◌+ₛ◌}
use quest_termux_lab.Py.Value.{Fields, Value, is_bool, is_one_of, is_text, is_true, obj, text}
use quest_termux_lab.Readiness.{experiment_scopes}
use quest_termux_lab.Topology.Validate.{check_time}
use quest_termux_lab.Trust.Reviews.{distinct}

abbrev pub cleanup_plan_manifest_schema : String
cleanup_plan_manifest_schema = "quest-termux-lab.peer-cleanup-plan-manifest.v1"

abbrev pub cleanup_kinds : List String
cleanup_kinds =
    "operator_review" ∷ "confirm_peer_transport_stopped" ∷ "clear_ephemeral_inbox"
    ∷ "clear_ephemeral_outbox" ∷ "preserve_sanitized_summary" ∷ "record_post_run_route_health"
    ∷ "record_route_history" ∷ "record_cleanup_record" ∷ []

-- The set of the kinds that every plan has to declare, in order.
abbrev pub required_cleanup_kinds : List String
required_cleanup_kinds =
    "clear_ephemeral_inbox" ∷ "clear_ephemeral_outbox" ∷ "confirm_peer_transport_stopped"
    ∷ "operator_review" ∷ "record_cleanup_record" ∷ []

abbrev pub timing_values : List String
timing_values = "pre_run" ∷ "post_run" ∷ "post_evidence" ∷ "final_review" ∷ []

abbrev pub cleanup_evidence_kinds : List String
cleanup_evidence_kinds =
    "none" ∷ "cleanup_record" ∷ "route_health_report" ∷ "route_history_report"
    ∷ "evidence_intake_report" ∷ "scorecard_report" ∷ []

-- validate_text_array, which allows an empty array and texts that stand twice
unfoldable pub validate_texts : Value → String → Check
unfolding nonempty_text
validate_texts value label =
    array_or value (value_error (label +ₛ " must be an array")) >>= λ found.
    map_ok (nonempty_text label) found >>= λ _. ok tt

abbrev pub step_texts : List String
step_texts = "step_id" ∷ "cleanup_kind" ∷ "timing" ∷ "expected_evidence_kind" ∷ "reason" ∷ []

unfoldable pub validate_cleanup_step : Value → Check
unfolding require_keys require_texts
validate_cleanup_step (obj step) = do
  require_keys "cleanup step missing "
      ("step_id" ∷ "cleanup_kind" ∷ "timing" ∷ "required" ∷ "expected_evidence_kind" ∷ "reason"
        ∷ [])
      step
  require_texts "cleanup step missing " step_texts step
  guard (is_one_of (get step "cleanup_kind") cleanup_kinds) (value_error "unsupported cleanup_kind")
  guard (is_one_of (get step "timing") timing_values) (value_error "unsupported cleanup timing")
  guard (is_bool (get step "required")) (value_error "cleanup step required must be boolean")
  guard (is_one_of (get step "expected_evidence_kind") cleanup_evidence_kinds)
      (value_error "unsupported expected_evidence_kind")
validate_cleanup_step _ = err (value_error "cleanup_steps entries must be objects")

pub record StepEntry : Type 0 where
  pub step_id : String
  pub cleanup_kind : String
  pub timing : String
  pub required : Bool
  pub expected_evidence_kind : String
  pub status : String
  pub reason : String

-- The fields of a step that validate_cleanup_step has tested.
unfoldable pub step_entry : Fields → StepEntry
step_entry step = record {
  step_id = text (get step "step_id");
  cleanup_kind = text (get step "cleanup_kind");
  timing = text (get step "timing");
  required = is_true (get step "required");
  expected_evidence_kind = text (get step "expected_evidence_kind");
  status = "planned";
  reason = text (get step "reason");
}

unfoldable pub step_entries : List Value → List StepEntry
unfolding step_entry
step_entries [] = []
step_entries (obj step ∷ vs) = step_entry step ∷ step_entries vs
step_entries (_ ∷ vs) = step_entries vs

abbrev pub missing_entry : String → StepEntry
missing_entry kind = record {
  step_id = "missing-" +ₛ kind;
  cleanup_kind = kind;
  timing = "final_review";
  required = true;
  expected_evidence_kind = "cleanup_record";
  status = "missing";
  reason = "required cleanup category is not declared";
}

-- The required kinds are listed in the order in which sorted puts them.
unfoldable pub missing_required_entries : List String → List StepEntry
missing_required_entries observed =
    map missing_entry (keep (λ kind. not (member kind observed)) required_cleanup_kinds)

pub record Summary : Type 0 where
  pub step_count : ℕ
  pub planned_step_count : ℕ
  pub missing_step_count : ℕ
  pub required_cleanup_kind_count : ℕ
  pub observed_required_cleanup_kind_count : ℕ
  pub missing_required_cleanup_kind_count : ℕ
  pub evidence_kind_count : ℕ

abbrev pub step_is : String → StepEntry → Bool
step_is status entry = entry.status == status

-- The kinds of the entries that pass a test.
abbrev pub kinds_where : (StepEntry → Bool) → List StepEntry → List String
kinds_where p entries = map (λ e. e.cleanup_kind) (keep p entries)

abbrev pub is_required_kind : StepEntry → Bool
is_required_kind entry = member entry.cleanup_kind required_cleanup_kinds

unfoldable pub summarize : List StepEntry → Summary
unfolding distinct
summarize entries =
    let observed = kinds_where (λ e. step_is "planned" e && is_required_kind e) entries in
    let evidence =
      map (λ (e : StepEntry). e.expected_evidence_kind)
        (keep (λ e. not (e.expected_evidence_kind == "none") && step_is "planned" e) entries) in
    record {
      step_count = length entries;
      planned_step_count = count_where (step_is "planned") entries;
      missing_step_count = count_where (step_is "missing") entries;
      required_cleanup_kind_count = length required_cleanup_kinds;
      observed_required_cleanup_kind_count = length (distinct observed);
      missing_required_cleanup_kind_count =
          length (keep (λ kind. not (member kind observed)) required_cleanup_kinds);
      evidence_kind_count = length (distinct evidence);
    }

unfoldable pub overall_status : List StepEntry → String
overall_status entries =
    if any (step_is "missing") entries then "cleanup_plan_blocked" else "cleanup_plan_ready"

-- The declared steps and the entries for the required kinds that none of them covers.
unfoldable pub plan_entries : List StepEntry → List StepEntry
unfolding missing_required_entries
plan_entries declared =
    declared
    ++ missing_required_entries (kinds_where (λ e. e.required && is_required_kind e) declared)

pub record CleanupPlanReport : Type 0 where
  pub fleet_id : Value
  pub source_agent_id : Value
  pub observed_at : String
  pub cleanup_plan_id : Value
  pub experiment_scope : Value
  pub overall_status : String
  pub required_kinds : List String
  pub cleanup_steps : List StepEntry
  pub summary : Summary

-- str(step["step_id"]), for steps that were tested
abbrev pub step_ids : List Value → List String
step_ids [] = []
step_ids (obj step ∷ vs) = text (get step "step_id") ∷ step_ids vs
step_ids (_ ∷ vs) = step_ids vs

module _ (lib : Stdlib) where
  unfoldable pub validate_manifest : Fields → Check
  unfolding require_keys require_texts check_time nonempty_list validate_cleanup_step validate_texts
  validate_manifest manifest = do
    guard (is_text (get manifest "schema") cleanup_plan_manifest_schema)
        (value_error "unsupported cleanup plan manifest schema")
    guard (not (contains_forbidden_key (obj manifest)))
        (value_error "cleanup plan manifest contains command-like or credential-like fields")
    require_keys "cleanup plan manifest missing "
        ("cleanup_plan_id" ∷ "fleet_id" ∷ "source_agent_id" ∷ "observed_at" ∷ "experiment_scope"
          ∷ "cleanup_steps" ∷ "authority_boundary" ∷ [])
        manifest
    require_texts "cleanup plan manifest missing "
        ("cleanup_plan_id" ∷ "fleet_id" ∷ "source_agent_id" ∷ "observed_at" ∷ []) manifest
    check_time lib (get manifest "observed_at")
    check_in (get manifest "experiment_scope") experiment_scopes
        (value_error "unsupported experiment_scope")
    steps ←
        nonempty_list (get manifest "cleanup_steps")
          (value_error "cleanup_steps must be a non-empty array")
    each validate_cleanup_step steps
    guard (unique (step_ids steps)) (value_error "cleanup step ids must be unique")
    validate_texts (get manifest "authority_boundary") "authority_boundary"

  unfoldable pub build_cleanup_plan_report : Fields → Option String → Result CleanupPlanReport
  unfolding validate_manifest step_entries plan_entries overall_status summarize
  build_cleanup_plan_report manifest now_text = do
    validate_manifest manifest
    steps ← list_of (get manifest "cleanup_steps")
    let entries = plan_entries (step_entries steps)
    ok (record {
      fleet_id = get manifest "fleet_id";
      source_agent_id = get manifest "source_agent_id";
      observed_at = or_text now_text (text_of lib (get manifest "observed_at"));
      cleanup_plan_id = get manifest "cleanup_plan_id";
      experiment_scope = get manifest "experiment_scope";
      overall_status = overall_status entries;
      required_kinds = required_cleanup_kinds;
      cleanup_steps = entries;
      summary = summarize entries;
    })
