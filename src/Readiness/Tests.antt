-- ===== src/Readiness/Tests.antt =====
-- Runs of the readiness gate.
use quest_termux_lab.Base.{String, [], false, none, refl, true, ◌∷◌, ◌≡◌}
use quest_termux_lab.Gossip.Envelope.{contains_forbidden_key, forbidden_key}
use quest_termux_lab.Health.History.{route_history_schema}
use quest_termux_lab.Py.Dict.{dict_of, get, py_eq}
use quest_termux_lab.Py.Result.{Result, is_ok, ok, value_of}
use quest_termux_lab.Py.Sample.{past_text, sample_lib}
use quest_termux_lab.Py.Value.{Fields, array, bool, dict, nat, obj, str}
use quest_termux_lab.Readiness.{ReadinessReport, build_readiness_report, readiness_policy_schema}
use quest_termux_lab.Readiness.Ready.{IsReady, build_readiness_report-IsReady}

abbrev readiness_policy : Fields
readiness_policy = dict (
    ("schema", str readiness_policy_schema)
    ∷ ("fleet_id", str "f1")
    ∷ ("source_agent_id", str "a1")
    ∷ ("observed_at", str past_text)
    ∷ ("experiment_scope", str "private_configured_peer_gossip_only")
    ∷ ("min_history_reports", nat 2)
    ∷ ("min_tracked_routes", nat 1)
    ∷ ("allowed_last_statuses", array (str "healthy" ∷ []))
    ∷ ("acceptable_trends", array (str "stable" ∷ str "improving" ∷ []))
    ∷ ("require_no_unavailable_routes", bool true)
    ∷ ("require_no_unknown_routes", bool true)
    ∷ ("require_no_disabled_routes", bool true)
    ∷ ("require_no_worsening_routes", bool true)
    ∷ ("operator_approval_required", bool false)
    ∷ [])

abbrev history_with : String → Fields
history_with status = dict (
    ("schema", str route_history_schema)
    ∷ ("fleet_id", str "f1")
    ∷ ("source_agent_id", str "a1")
    ∷ ("observed_at", str past_text)
    ∷ ("report_count", nat 3)
    ∷ (
      "routes",
      array (
          obj (
            dict (
              ("target_agent_id", str "a2")
              ∷ ("last_status", str status)
              ∷ ("trend", str "stable")
              ∷ ("sample_count", nat 3)
              ∷ ("last_reason", str "seen")
              ∷ []))
          ∷ []),
    )
    ∷ (
      "summary",
      obj (
          dict (
            ("tracked_route_count", nat 1)
            ∷ ("last_unavailable_count", nat 0)
            ∷ ("last_disabled_count", nat 0)
            ∷ ("last_unknown_count", nat 0)
            ∷ ("worsening_count", nat 0)
            ∷ [])),
    )
    ∷ [])

abbrev readiness_of_history : String → Result ReadinessReport
readiness_of_history status =
    build_readiness_report sample_lib readiness_policy (history_with status) none

readiness_made : is_ok (readiness_of_history "healthy") ≡ true
unfolding build_readiness_report contains_forbidden_key forbidden_key py_eq
readiness_made = refl

build_readiness_report-IsReady_example :
    (counts : Fields) × (dict_of (get (history_with "healthy") "summary") ≡ ok counts)
    × IsReady readiness_policy
        (history_with "healthy")
        counts
        (value_of (readiness_of_history "healthy") readiness_made).routes
unfolding build_readiness_report contains_forbidden_key forbidden_key py_eq
build_readiness_report-IsReady_example =
    build_readiness_report-IsReady sample_lib readiness_policy (history_with "healthy") none
      (value_of (readiness_of_history "healthy") readiness_made) refl refl
