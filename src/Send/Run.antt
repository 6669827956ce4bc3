-- ===== src/Send/Run.antt =====
-- The run of tools/peer_mesh_send_dry_run.py. `clock` is what utc_now() returns.
use quest_termux_lab.Base.{List, Option, String, [], if◌then◌else◌, length, member, some, ◌==◌, ◌∷◌}
use quest_termux_lab.Delivery.Update.{
  apply_error, apply_receipt, expire_pending, field_text, find_delivery, refresh_summary,
  with_delivery,
}
use quest_termux_lab.Dispatch.{build_dispatch_plan}
use quest_termux_lab.Gossip.Envelope.{if_text}
use quest_termux_lab.Py.Dict.{count_text, get, item, list_of, py_eq}
use quest_termux_lab.Py.Result.{
  Result, err, guard, map_ok, ok, type_error, value_error, ◌>>=◌, ◌>>◌,
}
use quest_termux_lab.Py.Stdlib.{Stdlib, or_text, text_of}
use quest_termux_lab.Py.Value.{Fields, Value, array, dict, is_text, nat, obj, str, text}
use quest_termux_lab.Send.Outcomes.{
  chosen_outcome, not_sent, outcome_for, record_silence, report_schema, send_boundary,
  synthetic_receipt, validate_outcomes,
}

module _ (lib : Stdlib) where
  unfoldable pub record_no_response : String → Fields → Fields → String → String → Result Fields
  unfolding record_silence with_delivery refresh_summary
  record_no_response clock delivery_state dispatch reason observed_at = do
    updated ← refresh_summary lib clock delivery_state (some observed_at)
    changed ←
        with_delivery updated (text_of lib (get dispatch "target_agent_id"))
          (text_of lib (get dispatch "message_id")) (record_silence reason observed_at)
    refresh_summary lib clock changed (some observed_at)

  -- The state after a ready dispatch, by the simulated result.
  unfoldable pub deliver : String → Fields → Fields → Fields → String → Result Fields
  unfolding synthetic_receipt record_no_response apply_receipt apply_error
  deliver clock delivery_state dispatch chosen observed_at =
      let result = text_of lib (get chosen "result") in
      let target = text_of lib (get dispatch "target_agent_id") in
      let message = text_of lib (get dispatch "message_id") in
      let reason = text (get chosen "reason") in
      if member result ("accepted" ∷ "duplicate" ∷ [])
      then apply_receipt lib clock delivery_state
          (synthetic_receipt delivery_state dispatch chosen observed_at) (some target)
      else if result == "rejected"
      then apply_error lib clock delivery_state target message
          (or_text (some reason) "synthetic rejection") (some observed_at)
      else if result == "no_response"
      then record_no_response clock delivery_state dispatch
          (or_text (some reason) "synthetic no response") observed_at
      else err (value_error "unsupported outcome result")

  unfoldable pub apply_ready_outcome :
      String → Fields → Fields → Option Fields → String → Result (Fields × Value)
  unfolding chosen_outcome deliver find_delivery
  apply_ready_outcome clock delivery_state dispatch outcome observed_at = do
    let chosen = chosen_outcome dispatch outcome
    updated ← deliver clock delivery_state dispatch chosen observed_at
    after ←
        find_delivery updated (text_of lib (get dispatch "target_agent_id"))
          (text_of lib (get dispatch "message_id"))
    state ← item after "state"
    ok (
      updated,
      obj (
          dict (
            ("delivery_id", get dispatch "delivery_id")
            ∷ ("target_agent_id", get dispatch "target_agent_id")
            ∷ ("message_id", get dispatch "message_id")
            ∷ ("dispatch_decision", get dispatch "decision")
            ∷ ("simulated_outcome", str (text_of lib (get chosen "result")))
            ∷ ("transport_mode", get dispatch "transport_mode")
            ∷ ("method", get dispatch "method")
            ∷ ("delivery_state_after", state)
            ∷ ("reason", if_text (get chosen "reason"))
            ∷ [])),
    )

  unfoldable pub run_dispatch :
      String → List Value → String → Fields → Value → Result (Fields × Value)
  unfolding not_sent apply_ready_outcome outcome_for
  run_dispatch clock outcomes observed_at state (obj dispatch) =
      if is_text (get dispatch "decision") "ready"
      then apply_ready_outcome clock state dispatch
          (outcome_for outcomes (text_of lib (get dispatch "target_agent_id"))
            (text_of lib (get dispatch "message_id")))
          observed_at
      else ok (state, not_sent dispatch)
  run_dispatch clock outcomes observed_at state _ = err type_error

  -- The loop of run_dry_run.
  unfoldable pub run_dispatches :
      String → List Value → String → Fields → List Value → Result (Fields × List Value)
  unfolding run_dispatch
  run_dispatches clock outcomes observed_at state [] = ok (state, [])
  run_dispatches clock outcomes observed_at state (v ∷ vs) =
      run_dispatch clock outcomes observed_at state v >>= λ r.
      run_dispatches clock outcomes observed_at r.0 vs >>= λ rest. ok (rest.0, r.1 ∷ rest.1)

  unfoldable pub summarize_actions : List Value → Result Fields
  unfolding field_text
  summarize_actions actions = do
    found ← map_ok (field_text lib "simulated_outcome") actions
    ok (
        dict (
          ("action_count", nat (length actions))
          ∷ ("accepted_count", nat (count_text "accepted" found))
          ∷ ("duplicate_count", nat (count_text "duplicate" found))
          ∷ ("rejected_count", nat (count_text "rejected" found))
          ∷ ("no_response_count", nat (count_text "no_response" found))
          ∷ ("not_sent_count", nat (count_text "not_sent" found))
          ∷ []))

  unfoldable pub run_dry_run : String → Fields → Fields → Fields → Option String → Result Fields
  unfolding validate_outcomes build_dispatch_plan run_dispatches summarize_actions
  run_dry_run clock delivery_state route_config outcomes now_text = do
    validate_outcomes outcomes
    fleet ← item delivery_state "fleet_id"
    guard (py_eq (get outcomes "fleet_id") fleet) (value_error "outcomes fleet_id mismatch")
    source ← item delivery_state "source_agent_id"
    guard (py_eq (get outcomes "source_agent_id") source)
        (value_error "outcomes source_agent_id mismatch")
    let observed_at = or_text now_text (text_of lib (get outcomes "observed_at"))
    plan ← build_dispatch_plan lib clock delivery_state route_config (some observed_at)
    updated ← expire_pending lib clock delivery_state (some observed_at)
    listed ← list_of (get outcomes "outcomes")
    dispatches ← list_of (get plan "dispatches")
    run ← run_dispatches clock listed observed_at updated dispatches
    counts ← summarize_actions run.1
    ok (
        dict (
          ("schema", str report_schema)
          ∷ ("fleet_id", get run.0 "fleet_id")
          ∷ ("source_agent_id", get run.0 "source_agent_id")
          ∷ ("observed_at", str observed_at)
          ∷ ("dispatch_summary", get plan "summary")
          ∷ ("actions", array run.1)
          ∷ ("summary", obj counts)
          ∷ ("updated_delivery_state", obj run.0)
          ∷ ("authority_boundary", array send_boundary)
          ∷ []))
