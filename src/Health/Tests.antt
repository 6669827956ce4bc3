-- ===== src/Health/Tests.antt =====
-- The theorems on tools/peer_mesh_route_health.py and tools/peer_mesh_route_history.py at concrete
-- routes.
use quest_termux_lab.Base.{String, [], length, map, none, refl, some, true, ◌+◌, ◌↔◌, ◌∷◌, ◌≡◌}
use quest_termux_lab.Dispatch.{validate_route}
use quest_termux_lab.Gossip.Envelope.{contains_forbidden_key, forbidden_key}
use quest_termux_lab.Health.History.{transition_count, trend_for}
use quest_termux_lab.Health.Report.{
  health_report_schema, route_entry, summarize, validate_action, validate_retry,
}
use quest_termux_lab.Health.Routes.{HistoryReport, build_history}
use quest_termux_lab.Health.Statuses.{HasEntry, route_entry-HasEntry}
use quest_termux_lab.Health.Totals.{CountsUp, build_history-CountsUp, count_at, summarize-adds_up}
use quest_termux_lab.Health.Trend.{trend_for-stable}
use quest_termux_lab.Py.Dict.{py_eq}
use quest_termux_lab.Py.Result.{Result, err, is_ok, key_error, ok, value_of}
use quest_termux_lab.Py.Sample.{future_text, past_text, sample_lib}
use quest_termux_lab.Py.Value.{Fields, Value, array, dict, obj, str}

abbrev file_route : Fields
file_route = dict (
    ("target_agent_id", str "quest-1")
    ∷ ("transport_mode", str "file_drop_simulator")
    ∷ ("target_inbox_dir", str "inbox")
    ∷ [])

abbrev sample_action : Fields
sample_action = dict (
    ("target_agent_id", str "quest-1")
    ∷ ("message_id", str "m1")
    ∷ ("simulated_outcome", str "no_response")
    ∷ ("dispatch_decision", str "ready")
    ∷ [])

abbrev sample_retry : Fields
sample_retry = dict (
    ("target_agent_id", str "quest-1")
    ∷ ("message_id", str "m1")
    ∷ ("delivery_state", str "pending")
    ∷ ("decision", str "due_now")
    ∷ [])

route_entry-HasEntry_example :
    HasEntry (route_entry sample_lib file_route (some sample_action) (some sample_retry))
unfolding validate_route validate_action validate_retry
route_entry-HasEntry_example =
    route_entry-HasEntry sample_lib [] ("quest-1" ∷ []) file_route (some sample_action)
      (some sample_retry) refl refl refl

-- An action that was not tested makes route_entry raise.
untested_action :
    route_entry sample_lib file_route (some sample_retry) none ≡ err (key_error "simulated_outcome")
unfolding route_entry
untested_action = refl

trend_test : trend_for ("healthy" ∷ "degraded" ∷ "healthy" ∷ []) ≡ ok "mixed"
unfolding trend_for
trend_test = refl

trend_for-stable_example :
    (◌≡◌ {A = String} "mixed" "stable")
    ↔ (transition_count ("healthy" ∷ "degraded" ∷ "healthy" ∷ []) ≡ 0)
trend_for-stable_example = trend_for-stable "healthy" "degraded" ("healthy" ∷ []) "mixed" trend_test

abbrev report_at : String → String → Fields
report_at time status = dict (
    ("schema", str health_report_schema)
    ∷ ("fleet_id", str "f1")
    ∷ ("source_agent_id", str "a1")
    ∷ ("observed_at", str time)
    ∷ (
      "routes",
      array (
          obj (
            dict (
              ("target_agent_id", str "a2")
              ∷ ("transport_mode", str "file_drop_simulator")
              ∷ ("status", str status)
              ∷ ("reason", str "seen")
              ∷ []))
          ∷ []),
    )
    ∷ [])

abbrev two_reports : Result HistoryReport
two_reports =
    build_history sample_lib (report_at future_text "healthy" ∷ report_at past_text "degraded" ∷ [])
      none

history_made : is_ok two_reports ≡ true
unfolding build_history contains_forbidden_key forbidden_key py_eq
history_made = refl

build_history-CountsUp_example :
    CountsUp (value_of two_reports history_made).summary
    × ((value_of two_reports history_made).summary.tracked_route_count
        ≡ length (value_of two_reports history_made).routes)
unfolding build_history contains_forbidden_key forbidden_key py_eq
build_history-CountsUp_example =
    build_history-CountsUp sample_lib
      (report_at future_text "healthy" ∷ report_at past_text "degraded" ∷ []) none
      (value_of two_reports history_made) refl

-- The reports are read in the order of their times, so the route gets better.
improving : map (λ r. r.trend) (value_of two_reports history_made).routes ≡ "improving" ∷ []
unfolding build_history contains_forbidden_key forbidden_key py_eq
improving = refl

-- A report whose route has no reason is accepted, and makes the history raise.
abbrev unreasoned : Fields
unreasoned = dict (
    ("schema", str health_report_schema)
    ∷ ("fleet_id", str "f1")
    ∷ ("source_agent_id", str "a1")
    ∷ ("observed_at", str past_text)
    ∷ (
      "routes",
      array (
          obj (
            dict (
              ("target_agent_id", str "a2")
              ∷ ("transport_mode", str "file_drop_simulator")
              ∷ ("status", str "healthy")
              ∷ []))
          ∷ []),
    )
    ∷ [])

no_reason : build_history sample_lib (unreasoned ∷ []) none ≡ err (key_error "reason")
unfolding build_history contains_forbidden_key forbidden_key py_eq
no_reason = refl

abbrev judged_route : Value
judged_route = obj (dict (("target_agent_id", str "a2") ∷ ("status", str "healthy") ∷ []))

summary_made : is_ok (summarize sample_lib (judged_route ∷ []) 0 0) ≡ true
unfolding summarize
summary_made = refl

abbrev sample_counts : Fields
sample_counts = value_of (summarize sample_lib (judged_route ∷ []) 0 0) summary_made

summarize-adds_up_example :
    (count_at sample_counts "healthy_count"
        + count_at sample_counts "degraded_count"
        + count_at sample_counts "unavailable_count"
        + count_at sample_counts "disabled_count"
        + count_at sample_counts "unknown_count"
      ≡ length (judged_route ∷ []))
    × (count_at sample_counts "route_count" ≡ length (judged_route ∷ []))
unfolding summarize
summarize-adds_up_example = summarize-adds_up sample_lib (judged_route ∷ []) 0 0 sample_counts refl
