-- ===== src/Health/Report.antt =====
-- tools/peer_mesh_route_health.py. `clock` is what utc_now() returns.
use quest_termux_lab.Base.{
  Bool, List, Option, String, [], false, if◌then◌else◌, length, member, none, not, some, suc, ℕ,
  ◌==◌, ◌∷◌,
}
use quest_termux_lab.Delivery.Update.{field_text}
use quest_termux_lab.Delivery.Validate.{require_texts}
use quest_termux_lab.Dispatch.{validate_route_config}
use quest_termux_lab.Gossip.Envelope.{contains_forbidden_key, require_keys}
use quest_termux_lab.Py.Dict.{
  Table, array_or, check_members, count_text, get, get_or, insert, item, keys, list_of, lookup,
  py_eq,
}
use quest_termux_lab.Py.Result.{
  Check, Result, each, err, guard, map_ok, ok, type_error, value_error, ◌>>=◌, ◌>>◌,
}
use quest_termux_lab.Py.Stdlib.{Stdlib, text_of}
use quest_termux_lab.Py.Text.{◌+ₛ◌}
use quest_termux_lab.Py.Value.{
  Fields, Value, array, dict, is_one_of, is_text, nat, null, obj, or_null, str, text, truthy,
  unhashable,
}
use quest_termux_lab.Retry.{decisions, retry_plan_schema}
use quest_termux_lab.Send.Outcomes.{report_schema}

abbrev pub health_report_schema : String
health_report_schema = "quest-termux-lab.peer-route-health-report.v1"

abbrev pub route_statuses : List String
route_statuses = "healthy" ∷ "degraded" ∷ "unavailable" ∷ "disabled" ∷ "unknown" ∷ []

abbrev pub action_outcomes : List String
action_outcomes = "accepted" ∷ "duplicate" ∷ "rejected" ∷ "no_response" ∷ "not_sent" ∷ []

abbrev pub action_texts : List String
action_texts = "target_agent_id" ∷ "message_id" ∷ "simulated_outcome" ∷ "dispatch_decision" ∷ []

unfoldable pub validate_action : Value → Check
unfolding require_texts
validate_action (obj action) = do
  require_texts "send dry-run action missing " action_texts action
  guard (is_one_of (get action "simulated_outcome") action_outcomes)
      (value_error "unsupported simulated outcome")
validate_action _ = err (value_error "send dry-run action must be an object")

unfoldable pub validate_send_report : Fields → Check
unfolding validate_action
validate_send_report report = do
  guard (is_text (get report "schema") report_schema)
      (value_error "unsupported send dry-run report schema")
  guard (not (contains_forbidden_key (obj report)))
      (value_error "send dry-run report contains command-like or credential-like fields")
  require_keys "send dry-run report missing "
      ("fleet_id" ∷ "source_agent_id" ∷ "observed_at" ∷ "actions" ∷ []) report
  actions ← array_or (get report "actions") (value_error "send dry-run actions must be an array")
  each validate_action actions

abbrev pub retry_texts : List String
retry_texts = "target_agent_id" ∷ "message_id" ∷ "delivery_state" ∷ "decision" ∷ []

unfoldable pub validate_retry : Value → Check
unfolding require_texts
validate_retry (obj retry) = do
  require_texts "retry entry missing " retry_texts retry
  guard (is_one_of (get retry "decision") decisions) (value_error "unsupported retry decision")
validate_retry _ = err (value_error "retry entry must be an object")

unfoldable pub validate_retry_plan : Fields → Check
unfolding validate_retry
validate_retry_plan plan = do
  guard (is_text (get plan "schema") retry_plan_schema)
      (value_error "unsupported retry plan schema")
  guard (not (contains_forbidden_key (obj plan)))
      (value_error "retry plan contains command-like or credential-like fields")
  require_keys "retry plan missing "
      ("fleet_id" ∷ "source_agent_id" ∷ "observed_at" ∷ "retries" ∷ []) plan
  retries ← array_or (get plan "retries") (value_error "retry entries must be an array")
  each validate_retry retries

-- `v in names`, for a set of texts
abbrev pub found_in : List String → Value → Result Bool
found_in names v = if unhashable v then err type_error else ok (is_one_of v names)

-- `retry is not None and retry["decision"] in names`
abbrev pub retry_in : Option Fields → List String → Result Bool
retry_in none names = ok false
retry_in (some retry) names = item retry "decision" >>= found_in names

-- retry['decision'], where it was found in a set of texts
abbrev pub retry_decision : Option Fields → String
retry_decision none = ""
retry_decision (some retry) = text (get retry "decision")

-- The branch of status_from_action for an action that was not sent.
unfoldable pub status_not_sent : String → String → String × String
status_not_sent dispatch_decision delivery_state =
    if dispatch_decision == "route_disabled"
    then ("disabled", "route disabled")
    else if member delivery_state ("accepted" ∷ "duplicate" ∷ [])
    then ("healthy", "delivery already terminal " +ₛ delivery_state)
    else if member delivery_state ("rejected" ∷ "expired" ∷ [])
    then ("unavailable", "delivery already terminal " +ₛ delivery_state)
    else ("unknown", "not sent because " +ₛ dispatch_decision)

-- status_from_action, by the action's outcome, dispatch decision and delivery state
unfoldable pub status_of_outcome :
    String → String → String → Option Fields → Result (String × String)
unfolding status_not_sent
status_of_outcome outcome dispatch_decision delivery_state retry =
    if member outcome ("accepted" ∷ "duplicate" ∷ [])
    then ok ("healthy", "synthetic delivery " +ₛ outcome)
    else if outcome == "no_response"
    then (retry_in retry ("max_attempts_reached" ∷ "non_retryable_error" ∷ "expired" ∷ [])
        >>= λ given_up. ok (
            if given_up
            then ("unavailable", "no response and retry decision " +ₛ retry_decision retry)
            else ("degraded", "synthetic no response")))
    else if outcome == "rejected"
    then (retry_in retry ("due_now" ∷ "waiting_backoff" ∷ []) >>= λ allowed. ok (
        if allowed
        then ("degraded", "synthetic rejection with retry still allowed")
        else ("unavailable", "synthetic rejection")))
    else if outcome == "not_sent"
    then ok (status_not_sent dispatch_decision delivery_state)
    else ok ("unknown", "no recognized synthetic outcome")

-- status_from_retry, for a retry entry
unfoldable pub status_of_retry : String → String → String × String
status_of_retry decision delivery_state =
    if member decision ("due_now" ∷ "waiting_backoff" ∷ [])
    then ("degraded", "pending delivery " +ₛ decision)
    else if member decision ("max_attempts_reached" ∷ "non_retryable_error" ∷ "expired" ∷ [])
    then ("unavailable", "retry decision " +ₛ decision)
    else if decision == "terminal"
    then (if member delivery_state ("accepted" ∷ "duplicate" ∷ [])
        then ("healthy", "delivery already terminal " +ₛ delivery_state)
        else ("unavailable", "delivery already terminal " +ₛ delivery_state))
    else ("unknown", "no recognized retry decision")

-- action.get(key) if action is not None else None
abbrev pub get_from : Option Fields → String → Value
get_from none key = null
get_from (some d) key = get d key

-- len(set(found) - configured)
unfoldable pub unconfigured : List String → List String → ℕ
unconfigured configured [] = 0
unconfigured configured (k ∷ rest) =
    let n = unconfigured configured rest in if member k configured then n else suc n

-- The message of the action, else that of the retry.
abbrev pub message_of : Option Fields → Option Fields → Value
message_of (some action) retry = get action "message_id"
message_of none retry = get_from retry "message_id"

-- `if evidence is not None: f(evidence)`
abbrev pub optional : (Fields → Check) → Option Fields → Check
optional f none = ok tt
optional f (some d) = f d

-- a or b or c or d
abbrev pub first_truthy : Value → Value → Value → Value → Value
first_truthy a b c d = if truthy a then a else if truthy b then b else if truthy c then c else d

abbrev pub entries_of : String → Option Fields → Result (List Value)
entries_of key none = ok []
entries_of key (some d) = list_of (get d key)

abbrev pub health_boundary : List Value
health_boundary =
    str
      "Route-health reports infer configured gossip route status from synthetic dry-run evidence only."
    ∷ str
        "Route-health reports do not probe peers, open sockets, copy files, discover devices, send gossip, use ADB, or launch apps."
    ∷ str
        "Route-health reports do not carry gossip bodies, commands, shell text, ADB targets, pairing material, install requests, or launch requests."
    ∷ []

-- The entry that route_entry makes.
abbrev pub route_fields : Value → Value → Option Fields → Option Fields → String → String → Fields
route_fields target mode action retry status reason = dict (
    ("target_agent_id", target)
    ∷ ("transport_mode", mode)
    ∷ ("status", str status)
    ∷ ("latest_simulated_outcome", get_from action "simulated_outcome")
    ∷ ("retry_decision", get_from retry "decision")
    ∷ ("retry_next_attempt_at", get_from retry "next_attempt_at")
    ∷ ("message_id", message_of action retry)
    ∷ ("last_error", get_from retry "last_error")
    ∷ ("reason", str reason)
    ∷ [])

module _ (lib : Stdlib) where
  -- latest[str(entry["target_agent_id"])] = dict(entry)
  abbrev add_latest : Table Fields → Value → Result (Table Fields)
  add_latest table (obj d) =
      item d "target_agent_id" >>= λ target. ok (insert table (text_of lib target) d)
  add_latest table _ = err type_error

  unfoldable pub latest_by_target : Table Fields → List Value → Result (Table Fields)
  unfolding insert
  latest_by_target table [] = ok table
  latest_by_target table (v ∷ vs) = add_latest table v >>= λ added. latest_by_target added vs

  unfoldable pub status_from_action : Fields → Option Fields → Result (String × String)
  unfolding status_of_outcome
  status_from_action action retry = do
    outcome ← item action "simulated_outcome"
    decision ← item action "dispatch_decision"
    status_of_outcome (text_of lib outcome) (text_of lib decision)
        (text_of lib (get_or action "delivery_state_after" (str "pending"))) retry

  unfoldable pub status_from_retry : Option Fields → Result (String × String)
  unfolding status_of_retry
  status_from_retry none = ok ("unknown", "no send or retry evidence for route")
  status_from_retry (some retry) = do
    decision ← item retry "decision"
    delivery_state ← item retry "delivery_state"
    ok (status_of_retry (text_of lib decision) (text_of lib delivery_state))

  -- The branches of route_entry on the transport mode and the evidence.
  unfoldable pub route_status : Value → Option Fields → Option Fields → Result (String × String)
  unfolding status_from_action status_from_retry
  route_status mode action retry =
      if is_text mode "disabled"
      then ok ("disabled", "route disabled")
      else elim action [ some a ↦ status_from_action a retry | none ↦ status_from_retry retry ]

  unfoldable pub route_entry : Fields → Option Fields → Option Fields → Result Value
  unfolding route_status
  route_entry route action retry = do
    mode ← item route "transport_mode"
    judged ← route_status mode action retry
    guard (member judged.0 route_statuses) (value_error "unsupported route status")
    target ← item route "target_agent_id"
    ok (obj (route_fields target mode action retry judged.0 judged.1))

  unfoldable pub entry_for : Table Fields → Table Fields → Value → Result Value
  unfolding route_entry
  entry_for actions retries (obj route) = do
    target ← item route "target_agent_id"
    route_entry route (lookup actions (text_of lib target)) (lookup retries (text_of lib target))
  entry_for actions retries _ = err type_error

  unfoldable pub summarize : List Value → ℕ → ℕ → Result Fields
  unfolding field_text
  summarize routes unconfigured_actions unconfigured_retries = do
    found ← map_ok (field_text lib "status") routes
    check_members route_statuses found
    ok (
        dict (
          ("route_count", nat (length routes))
          ∷ ("healthy_count", nat (count_text "healthy" found))
          ∷ ("degraded_count", nat (count_text "degraded" found))
          ∷ ("unavailable_count", nat (count_text "unavailable" found))
          ∷ ("disabled_count", nat (count_text "disabled" found))
          ∷ ("unknown_count", nat (count_text "unknown" found))
          ∷ ("unconfigured_action_count", nat unconfigured_actions)
          ∷ ("unconfigured_retry_count", nat unconfigured_retries)
          ∷ []))

  -- The tests of one piece of evidence against the configuration.
  unfoldable pub check_evidence : Fields → Option Fields → Check
  check_evidence route_config none = ok tt
  check_evidence route_config (some evidence) = do
    guard (py_eq (get evidence "fleet_id") (get route_config "fleet_id"))
        (value_error "route health evidence fleet_id mismatch")
    guard (py_eq (get evidence "source_agent_id") (get route_config "source_agent_id"))
        (value_error "route health evidence source_agent_id mismatch")

  unfoldable pub build_route_health_report :
      String → Fields → Option Fields → Option Fields → Option String → Result Fields
  unfolding validate_route_config validate_send_report validate_retry_plan check_evidence
      latest_by_target entry_for summarize unconfigured
  build_route_health_report clock route_config send_report retry_plan now_text = do
    validate_route_config lib route_config
    optional validate_send_report send_report
    optional validate_retry_plan retry_plan
    check_evidence route_config send_report
    check_evidence route_config retry_plan
    let observed_at =
        first_truthy (or_null now_text) (get_from send_report "observed_at")
          (get_from retry_plan "observed_at") (str clock)
    found_actions ← entries_of "actions" send_report
    actions ← latest_by_target [] found_actions
    found_retries ← entries_of "retries" retry_plan
    retries ← latest_by_target [] found_retries
    configured ← list_of (get route_config "routes")
    targets ← map_ok (field_text lib "target_agent_id") configured
    routes ← map_ok (entry_for actions retries) configured
    counts ←
        summarize routes (unconfigured targets (keys actions)) (unconfigured targets (keys retries))
    ok (
        dict (
          ("schema", str health_report_schema)
          ∷ ("fleet_id", get route_config "fleet_id")
          ∷ ("source_agent_id", get route_config "source_agent_id")
          ∷ ("observed_at", observed_at)
          ∷ ("routes", array routes)
          ∷ ("summary", obj counts)
          ∷ ("authority_boundary", array health_boundary)
          ∷ []))
