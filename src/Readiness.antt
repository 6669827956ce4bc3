-- ===== src/Readiness.antt =====
-- tools/peer_mesh_live_lab_readiness.py: a readiness policy against a route-health history. Reading
-- and writing files and the command line are left out.
pub mod Ready
mod Tests
use quest_termux_lab.Base.{
  Bool, List, Option, String, [], any, eqb, false, if◌then◌else◌, leb, length, not, true, ℕ, ◌&&◌,
  ◌++◌, ◌==◌, ◌∷◌,
}
use quest_termux_lab.Entries.{
  CheckEntry, any_status, check_in, count_status, count_where, lists, require_bools, require_counts,
  when,
}
use quest_termux_lab.Fleet.Report.{summary}
use quest_termux_lab.Fleet.State.{check}
use quest_termux_lab.Gossip.Envelope.{contains_forbidden_key, nonempty_list, require_keys}
use quest_termux_lab.Health.History.{route_history_schema, trend_values}
use quest_termux_lab.Health.Report.{route_statuses}
use quest_termux_lab.Py.Dict.{array_or, dict_of, get, list_of, py_eq}
use quest_termux_lab.Py.Result.{
  Check, Result, each, err, guard, map_ok, ok, type_error, value_error, ◌>>=◌, ◌>>◌,
}
use quest_termux_lab.Py.Stdlib.{Stdlib, or_text, text_of}
use quest_termux_lab.Py.Text.{join_texts, ◌+ₛ◌}
use quest_termux_lab.Py.Value.{Fields, Value, count_of, is_positive, is_text, is_true, obj}

abbrev pub readiness_policy_schema : String
readiness_policy_schema = "quest-termux-lab.peer-live-lab-readiness-policy.v1"

abbrev pub readiness_report_schema : String
readiness_report_schema = "quest-termux-lab.peer-live-lab-readiness-report.v1"

abbrev pub experiment_scopes : List String
experiment_scopes = "private_configured_peer_gossip_only" ∷ []

abbrev pub readiness_statuses : List String
readiness_statuses = "ready" ∷ "manual_review" ∷ "not_ready" ∷ []

abbrev pub history_summary_fields : List String
history_summary_fields =
    "tracked_route_count" ∷ "last_unavailable_count" ∷ "last_disabled_count" ∷ "last_unknown_count"
    ∷ "worsening_count" ∷ []

abbrev pub policy_flags : List String
policy_flags =
    "require_no_unavailable_routes" ∷ "require_no_unknown_routes" ∷ "require_no_disabled_routes"
    ∷ "require_no_worsening_routes" ∷ "operator_approval_required" ∷ []

abbrev pub policy_keys : List String
policy_keys =
    "fleet_id" ∷ "source_agent_id" ∷ "observed_at" ∷ "experiment_scope" ∷ "min_history_reports"
    ∷ "min_tracked_routes" ∷ "allowed_last_statuses" ∷ "acceptable_trends" ∷ policy_flags

-- A non-empty array whose members are all in a set of texts.
unfoldable pub validate_choices : Value → String → List String → String → Check
unfolding nonempty_list
validate_choices value label names unsupported = do
  found ← nonempty_list value (value_error (label +ₛ " must be a non-empty array"))
  each (λ v. check_in v names (value_error unsupported)) found

unfoldable pub validate_policy : Fields → Check
unfolding require_keys require_bools validate_choices
validate_policy policy = do
  guard (is_text (get policy "schema") readiness_policy_schema)
      (value_error "unsupported readiness policy schema")
  guard (not (contains_forbidden_key (obj policy)))
      (value_error "readiness policy contains command-like or credential-like fields")
  require_keys "readiness policy missing " policy_keys policy
  check_in (get policy "experiment_scope") experiment_scopes
      (value_error "unsupported experiment_scope")
  each
      (λ key.
        guard (is_positive (get policy key)) (value_error (key +ₛ " must be a positive integer")))
      ("min_history_reports" ∷ "min_tracked_routes" ∷ [])
  require_bools policy_flags policy
  validate_choices (get policy "allowed_last_statuses") "allowed_last_statuses" route_statuses
      "unsupported allowed route status"
  validate_choices (get policy "acceptable_trends") "acceptable_trends" trend_values
      "unsupported acceptable trend"

unfoldable pub validate_history_route : Value → Check
unfolding require_keys
validate_history_route (obj route) = do
  require_keys "route-health history route missing "
      ("target_agent_id" ∷ "last_status" ∷ "trend" ∷ "sample_count" ∷ "last_reason" ∷ []) route
  check_in (get route "last_status") route_statuses (value_error "unsupported route last_status")
  check_in (get route "trend") trend_values (value_error "unsupported route trend")
  guard (is_positive (get route "sample_count"))
      (value_error "route-health history route sample_count must be a positive integer")
validate_history_route _ = err (value_error "route-health history route must be an object")

unfoldable pub validate_history_summary : Value → Check
unfolding require_counts
validate_history_summary (obj summary) =
    require_counts "route-health history summary missing non-negative " history_summary_fields
      summary
validate_history_summary _ = err (value_error "route-health history summary must be an object")

unfoldable pub validate_history : Fields → Check
unfolding require_keys validate_history_route validate_history_summary
validate_history history = do
  guard (is_text (get history "schema") route_history_schema)
      (value_error "unsupported route-health history schema")
  guard (not (contains_forbidden_key (obj history)))
      (value_error "route-health history contains command-like or credential-like fields")
  require_keys "route-health history missing "
      ("fleet_id" ∷ "source_agent_id" ∷ "observed_at" ∷ "report_count" ∷ "routes" ∷ "summary" ∷ [])
      history
  guard (is_positive (get history "report_count"))
      (value_error "route-health history report_count must be a positive integer")
  routes ←
      array_or (get history "routes") (value_error "route-health history routes must be an array")
  validate_history_summary (get history "summary")
  each validate_history_route routes

-- check_entry
abbrev pub grade : Bool → String
grade true = "passed"
grade false = "failed"

unfoldable pub check_entry : String → Bool → String → String → String → CheckEntry
check_entry check_id passed expected observed reason = record {
  check_id = check_id;
  status = grade passed;
  observed = observed;
  threshold = expected;
  reason = reason;
}

unfoldable pub manual_check : String → String → String → String → CheckEntry
manual_check check_id expected observed reason = record {
  check_id = check_id;
  status = "manual_review";
  observed = observed;
  threshold = expected;
  reason = reason;
}

pub record RouteReview : Type 0 where
  pub target_agent_id : Value
  pub last_status : String
  pub trend : String
  pub sample_count : ℕ
  pub readiness_status : String
  pub reason : String

abbrev pub readiness_of : List String → String
readiness_of [] = "ready"
readiness_of (_ ∷ _) = "not_ready"

abbrev pub reason_of : List String → String
reason_of [] = "route satisfies synthetic readiness policy"
reason_of reasons = join_texts "; " reasons

abbrev pub summary_count : Fields → String → ℕ
summary_count d key = count_of (get d key)

pub record Summary : Type 0 where
  pub check_count : ℕ
  pub passed_check_count : ℕ
  pub failed_check_count : ℕ
  pub manual_review_check_count : ℕ
  pub route_count : ℕ
  pub ready_route_count : ℕ
  pub not_ready_route_count : ℕ

abbrev pub review_is : String → RouteReview → Bool
review_is status review = review.readiness_status == status

unfoldable pub summarize : List CheckEntry → List RouteReview → Summary
summarize checks routes = record {
  check_count = length checks;
  passed_check_count = count_status "passed" checks;
  failed_check_count = count_status "failed" checks;
  manual_review_check_count = count_status "manual_review" checks;
  route_count = length routes;
  ready_route_count = count_where (review_is "ready") routes;
  not_ready_route_count = count_where (review_is "not_ready") routes;
}

unfoldable pub overall_status : List CheckEntry → List RouteReview → String
overall_status checks routes =
    if any_status "failed" checks
    then "not_ready"
    else if any (review_is "not_ready") routes
    then "not_ready"
    else if any_status "manual_review" checks
    then "manual_review"
    else "ready"

pub record ReadinessReport : Type 0 where
  pub fleet_id : Value
  pub source_agent_id : Value
  pub observed_at : String
  pub experiment_scope : Value
  pub overall_status : String
  pub checks : List CheckEntry
  pub routes : List RouteReview
  pub summary : Summary

-- `if policy[flag]: checks.append(…)`
abbrev pub optional_check : Fields → String → CheckEntry → List CheckEntry
optional_check policy flag check = when (is_true (get policy flag)) check

module _ (lib : Stdlib) where
  -- The reasons why a route is not ready: each of them sets the status.
  unfoldable pub review_reasons : Fields → String → String → List String
  review_reasons policy last_status trend =
      when (not (lists (get policy "allowed_last_statuses") last_status))
        ("last status " +ₛ last_status +ₛ " is not allowed")
      ++ when (not (lists (get policy "acceptable_trends") trend))
          ("trend " +ₛ trend +ₛ " is not acceptable")
      ++ when (is_true (get policy "require_no_worsening_routes") && trend == "worsening")
          "worsening routes are disallowed"

  unfoldable pub route_review : Fields → Fields → RouteReview
  unfolding review_reasons
  route_review policy route =
      let last_status = text_of lib (get route "last_status") in
      let trend = text_of lib (get route "trend") in
      let reasons = review_reasons policy last_status trend in
      record {
        target_agent_id = get route "target_agent_id";
        last_status = last_status;
        trend = trend;
        sample_count = count_of (get route "sample_count");
        readiness_status = readiness_of reasons;
        reason = reason_of reasons;
      }

  abbrev pub review_value : Fields → Value → Result RouteReview
  review_value policy (obj route) = ok (route_review policy route)
  review_value policy _ = err type_error

  -- The two checks that are always made.
  unfoldable pub threshold_checks : Fields → Fields → Fields → List CheckEntry
  unfolding check_entry
  threshold_checks policy history summary =
      check_entry "history_report_count"
        (leb (count_of (get policy "min_history_reports")) (count_of (get history "report_count")))
        (">= " +ₛ text_of lib (get policy "min_history_reports") +ₛ " route-health reports")
        (text_of lib (get history "report_count")) "route-health history sample count"
      ∷ check_entry "tracked_route_count"
          (leb (count_of (get policy "min_tracked_routes"))
            (summary_count summary "tracked_route_count"))
          (">= " +ₛ text_of lib (get policy "min_tracked_routes") +ₛ " tracked routes")
          (text_of lib (get summary "tracked_route_count")) "tracked configured route count"
      ∷ []

  -- int(summary[key]) == 0
  unfoldable pub zero_check : String → Fields → String → String → String → CheckEntry
  unfolding check_entry
  zero_check check_id summary key expected reason =
      check_entry check_id (eqb (summary_count summary key) 0) expected
        (text_of lib (get summary key)) reason

  unfoldable pub unavailable_check : Fields → Fields → List CheckEntry
  unfolding zero_check
  unavailable_check policy summary = optional_check policy "require_no_unavailable_routes" (
      zero_check "no_unavailable_routes" summary "last_unavailable_count" "0 unavailable routes"
        "latest route-health status must not be unavailable")

  unfoldable pub unknown_check : Fields → Fields → List CheckEntry
  unfolding zero_check
  unknown_check policy summary = optional_check policy "require_no_unknown_routes" (
      zero_check "no_unknown_routes" summary "last_unknown_count" "0 unknown routes"
        "every configured route needs synthetic evidence before live lab work")

  unfoldable pub disabled_check : Fields → Fields → List CheckEntry
  unfolding zero_check
  disabled_check policy summary = optional_check policy "require_no_disabled_routes" (
      zero_check "no_disabled_routes" summary "last_disabled_count" "0 disabled routes"
        "disabled routes should be removed or intentionally excluded before live lab work")

  unfoldable pub worsening_check : Fields → Fields → List CheckEntry
  unfolding zero_check
  worsening_check policy summary = optional_check policy "require_no_worsening_routes" (
      zero_check "no_worsening_routes" summary "worsening_count" "0 worsening routes"
        "route-health trend must not be worsening")

  unfoldable pub policy_checks : Fields → Fields → List CheckEntry
  unfolding unavailable_check unknown_check disabled_check worsening_check
  policy_checks policy summary =
      unavailable_check policy summary
      ++ unknown_check policy summary
      ++ disabled_check policy summary
      ++ worsening_check policy summary

  unfoldable pub readiness_checks : Fields → Fields → Fields → List CheckEntry
  unfolding threshold_checks policy_checks manual_check
  readiness_checks policy history summary =
      threshold_checks policy history summary
      ++ policy_checks policy summary
      ++ optional_check policy "operator_approval_required" (
          manual_check "operator_approval"
            "explicit operator approval before live LAN peer experiment"
            "not represented in public synthetic evidence"
            "this public report cannot grant live-device or LAN approval")

  unfoldable pub build_readiness_report : Fields → Fields → Option String → Result ReadinessReport
  unfolding validate_policy validate_history readiness_checks route_review overall_status summarize
  build_readiness_report policy history now_text = do
    validate_policy policy
    validate_history history
    guard (py_eq (get policy "fleet_id") (get history "fleet_id"))
        (value_error "readiness fleet_id mismatch")
    guard (py_eq (get policy "source_agent_id") (get history "source_agent_id"))
        (value_error "readiness source_agent_id mismatch")
    summary ← dict_of (get history "summary")
    found ← list_of (get history "routes")
    reviews ← map_ok (review_value policy) found
    let checks = readiness_checks policy history summary
    ok (record {
      fleet_id = get history "fleet_id";
      source_agent_id = get history "source_agent_id";
      observed_at = or_text now_text (text_of lib (get policy "observed_at"));
      experiment_scope = get policy "experiment_scope";
      overall_status = overall_status checks reviews;
      checks = checks;
      routes = reviews;
      summary = summarize checks reviews;
    })
