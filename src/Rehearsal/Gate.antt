-- ===== src/Rehearsal/Gate.antt =====
-- The checks, the phases, the status and the report of tools/peer_mesh_rehearsal.py.
use quest_termux_lab.Base.{
  Bool, List, Option, String, [], any, if◌then◌else◌, length, member, not, ℕ, ◌&&◌, ◌==◌, ◌∷◌,
}
use quest_termux_lab.Entries.{CheckEntry, any_status, count_status, count_where, texts_of, when}
use quest_termux_lab.Py.Dict.{get, get_or, list_of}
use quest_termux_lab.Py.Result.{
  Check, Result, err, guard, map_ok, ok, type_error, value_error, ◌>>=◌, ◌>>◌,
}
use quest_termux_lab.Py.Stdlib.{Stdlib, or_text, text_of}
use quest_termux_lab.Py.Text.{join_texts, sort_texts, ◌+ₛ◌}
use quest_termux_lab.Py.Value.{Fields, Value, is_true, obj, str, truthy}
use quest_termux_lab.Rehearsal.{phase_statuses, validate_manifest, validate_trust_report}
use quest_termux_lab.Trust.{failed, manual, passed}
use quest_termux_lab.Trust.Gate.{caught_check, check_bundle, same_identity}

pub record Phase : Type 0 where
  pub phase_id : String
  pub evidence_kind : String
  pub status : String
  pub required_before_live : Bool
  pub reason : String

-- The body of the second `try` of preflight_checks; the first is the test of the trust gate.
unfoldable pub check_trust : Fields → Fields → Check
unfolding validate_trust_report
check_trust manifest trust =
    validate_trust_report trust
    >> same_identity manifest ("fleet_id" ∷ "source_agent_id" ∷ "experiment_scope" ∷ []) trust

-- The check of a status against the statuses that the manifest accepts.
unfoldable pub status_check : String → List String → String → String → String → CheckEntry
unfolding passed manual failed
status_check check_id accepted status good bad =
    let wanted = join_texts ", " (sort_texts accepted) in
    if member status accepted
    then (if status == "manual_review"
        then manual check_id wanted status good
        else passed check_id wanted status good)
    else failed check_id wanted status bad

abbrev pub review_open : Fields → Bool
review_open manifest =
    is_true (get manifest "operator_review_required")
    && not (is_true (get manifest "operator_review_recorded"))

unfoldable pub review_checks : Fields → List CheckEntry
unfolding manual passed
review_checks manifest =
    if review_open manifest
    then manual "operator_review" "operator review recorded in private workflow"
        "not represented in public synthetic evidence"
        "public rehearsal reports cannot grant live-device or LAN approval"
      ∷ []
    else when (is_true (get manifest "operator_review_required")) (
        passed "operator_review" "operator review recorded in private workflow" "recorded flag true"
          "manifest says private operator review has been recorded")

-- The status and the reason of a planned phase, by the kind of its evidence.
unfoldable pub phase_status :
    Fields → String → String → List String → List String → String → String × String
phase_status manifest bundle_status trust_status allowed_bundle allowed_trust kind =
    if kind == "preflight_bundle_report"
    then (
      if member bundle_status allowed_bundle then "ready" else "blocked",
      "lab bundle status is " +ₛ bundle_status,
    )
    else if kind == "trust_report"
    then (
      if not (member trust_status allowed_trust)
          then "blocked"
          else if trust_status == "manual_review"
          then "manual_review"
          else "ready",
      "trust status is " +ₛ trust_status,
    )
    else if kind == "private_operator_approval"
    then (if review_open manifest
        then (
          "manual_review",
          "operator review is required and not represented in public synthetic evidence",
        )
        else ("ready", "operator review gate is not blocking this rehearsal report"))
    else (
      "private_only",
      "evidence belongs to a future private live-run workflow, not this public repo",
    )

pub record Summary : Type 0 where
  pub check_count : ℕ
  pub passed_check_count : ℕ
  pub failed_check_count : ℕ
  pub manual_review_check_count : ℕ
  pub phase_count : ℕ
  pub ready_phase_count : ℕ
  pub blocked_phase_count : ℕ
  pub manual_review_phase_count : ℕ
  pub private_only_phase_count : ℕ

abbrev pub phase_is : String → Phase → Bool
phase_is status phase = phase.status == status

unfoldable pub summarize : List CheckEntry → List Phase → Summary
summarize checks phases = record {
  check_count = length checks;
  passed_check_count = count_status "passed" checks;
  failed_check_count = count_status "failed" checks;
  manual_review_check_count = count_status "manual_review" checks;
  phase_count = length phases;
  ready_phase_count = count_where (phase_is "ready") phases;
  blocked_phase_count = count_where (phase_is "blocked") phases;
  manual_review_phase_count = count_where (phase_is "manual_review") phases;
  private_only_phase_count = count_where (phase_is "private_only") phases;
}

unfoldable pub overall_status : List CheckEntry → List Phase → String
overall_status checks phases =
    if any_status "failed" checks
    then "blocked"
    else if any (phase_is "blocked") phases
    then "blocked"
    else if any_status "manual_review" checks
    then "manual_review"
    else if any (phase_is "manual_review") phases
    then "manual_review"
    else "rehearsal_ready"

pub record RehearsalReport : Type 0 where
  pub fleet_id : Value
  pub source_agent_id : Value
  pub observed_at : String
  pub rehearsal_id : Value
  pub experiment_scope : Value
  pub overall_status : String
  pub checks : List CheckEntry
  pub phases : List Phase
  pub summary : Summary

module _ (lib : Stdlib) where
  -- str(report.get("overall_status", "invalid"))
  abbrev pub reported_status : Fields → String
  reported_status report = text_of lib (get_or report "overall_status" (str "invalid"))

  unfoldable pub preflight_checks : Fields → Fields → Fields → Result (List CheckEntry)
  unfolding check_bundle check_trust caught_check status_check review_checks
  preflight_checks manifest bundle trust = do
    bundle_entry ←
        caught_check "lab_bundle_valid" "valid lab bundle report"
          "lab bundle matches rehearsal identity" (check_bundle manifest bundle)
    trust_entry ←
        caught_check "trust_report_valid" "valid trust report"
          "trust report matches rehearsal identity" (check_trust manifest trust)
    let bundle_check =
        status_check "lab_bundle_status" (texts_of (get manifest "required_lab_bundle_statuses"))
          (reported_status bundle) "lab bundle status satisfies rehearsal manifest"
          "lab bundle status is not acceptable for rehearsal"
    let trust_check =
        status_check "trust_status" (texts_of (get manifest "required_trust_statuses"))
          (reported_status trust) "trust status satisfies rehearsal manifest"
          "trust status is not acceptable for rehearsal"
    ok (bundle_entry ∷ trust_entry ∷ bundle_check ∷ trust_check ∷ review_checks manifest)

  -- One round of the loop of phase_reviews.
  unfoldable pub phase_review : Fields → Fields → Fields → Value → Result Phase
  unfolding phase_status
  phase_review manifest bundle trust (obj phase) = do
    let kind = text_of lib (get phase "evidence_kind")
    let judged =
        phase_status manifest (reported_status bundle) (reported_status trust)
          (texts_of (get manifest "required_lab_bundle_statuses"))
          (texts_of (get manifest "required_trust_statuses")) kind
    guard (member judged.0 phase_statuses) (value_error "unsupported phase status")
    ok (record {
      phase_id = text_of lib (get phase "phase_id");
      evidence_kind = kind;
      status = judged.0;
      required_before_live = truthy (get phase "required_before_live");
      reason = judged.1;
    })
  phase_review manifest bundle trust _ = err type_error

  unfoldable pub phase_reviews : Fields → Fields → Fields → Result (List Phase)
  unfolding phase_review
  phase_reviews manifest bundle trust = list_of (get manifest "planned_phases") >>= λ planned.
      map_ok (phase_review manifest bundle trust) planned

  unfoldable pub build_rehearsal_report :
      Fields → Fields → Fields → Option String → Result RehearsalReport
  unfolding validate_manifest preflight_checks phase_reviews overall_status summarize
  build_rehearsal_report manifest bundle trust now_text = do
    validate_manifest manifest
    checks ← preflight_checks manifest bundle trust
    phases ← phase_reviews manifest bundle trust
    ok (record {
      fleet_id = get manifest "fleet_id";
      source_agent_id = get manifest "source_agent_id";
      observed_at = or_text now_text (text_of lib (get manifest "observed_at"));
      rehearsal_id = get manifest "rehearsal_id";
      experiment_scope = get manifest "experiment_scope";
      overall_status = overall_status checks phases;
      checks = checks;
      phases = phases;
      summary = summarize checks phases;
    })
