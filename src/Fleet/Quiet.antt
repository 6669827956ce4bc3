-- ===== src/Fleet/Quiet.antt =====
-- The operations of tools/fleet_control_plane.py that leave the queues, the idempotency keys and the
-- leases alone: reading the clock, the log, and what is recorded of intents and results.
use Prim.Native.Char.{code}
use quest_termux_lab.Base.{List, Option, String, [], none, refl, some, ◌∷◌}
use quest_termux_lab.Fleet.Commands.{record_heartbeat, set_heartbeat}
use quest_termux_lab.Fleet.Intents.{
  add_result, apply_found, apply_result, apply_results, expiry_message, record_found, record_intent,
  record_mirror_result, record_result, reject_mirror_intent,
}
use quest_termux_lab.Fleet.Keeps.{
  Keeps, Quiet, bind-Keeps, keeps, lift-Keeps, modify-Keeps, pure-Keeps,
}
use quest_termux_lab.Fleet.Mirror.{
  add_event, error_after_expiry, error_after_parties, expiry_error_at, index_command, mirror_event,
  parties_error, set_intent, validate_mirror_lease_for_intent,
}
use quest_termux_lab.Fleet.Payload.{has_passed, is_expired, is_expired_at, require_future_expiry}
use quest_termux_lab.Fleet.State.{
  Env, FleetState, append_log, modify, read_clock, response, utc_now,
}
use quest_termux_lab.Py.Dict.{get}
use quest_termux_lab.Py.Value.{Fields, Value, as_str}

module _ (env : Env) {P : FleetState → Type 0} (quiet : Quiet P) where
  read_clock-Keeps : Keeps P (read_clock env)
  unfolding read_clock
  read_clock-Keeps = record { run = λ s p. quiet s _ refl refl refl p }

  pub append_log-Keeps : (name : String) (payload : Fields) → Keeps P (append_log name payload)
  unfolding append_log
  append_log-Keeps name payload = modify-Keeps _ λ s p. quiet s _ refl refl refl p

  pub utc_now-Keeps : Keeps P (utc_now env)
  unfolding utc_now
  utc_now-Keeps = search (keeps, read_clock-Keeps) depth 12

  pub response-Keeps :
      (status : String) (extra : List (String × Value)) → Keeps P (response env status extra)
  unfolding response
  response-Keeps status extra = search (keeps, utc_now-Keeps) depth 12

  has_passed-Keeps : (expires_at : String) → Keeps P (has_passed env expires_at)
  unfolding has_passed
  has_passed-Keeps expires_at = search (keeps, read_clock-Keeps) depth 12

  is_expired_at-Keeps : (o : Option String) → Keeps P (is_expired_at env o)
  unfolding is_expired_at
  is_expired_at-Keeps none = pure-Keeps _
  is_expired_at-Keeps (some expires_at) = has_passed-Keeps expires_at

  pub is_expired-Keeps : (command : Fields) → Keeps P (is_expired env command)
  unfolding is_expired
  is_expired-Keeps command = is_expired_at-Keeps (as_str (get command "expires_at"))

  pub require_future_expiry-Keeps :
      (payload : Fields) (label : String) → Keeps P (require_future_expiry env payload label)
  unfolding require_future_expiry
  require_future_expiry-Keeps payload label = search (keeps, read_clock-Keeps) depth 12

  expiry_error_at-Keeps : (o : Option String) → Keeps P (expiry_error_at env o)
  unfolding expiry_error_at
  expiry_error_at-Keeps none = pure-Keeps _
  expiry_error_at-Keeps (some expires_at) = search (keeps, has_passed-Keeps)

  error_after_expiry-Keeps :
      (lease intent : Fields) (o : Option String) → Keeps P (error_after_expiry env lease intent o)
  unfolding error_after_expiry
  error_after_expiry-Keeps lease intent none = lift-Keeps _
  error_after_expiry-Keeps lease intent (some code) = pure-Keeps _

  error_after_parties-Keeps :
      (lease intent : Fields) (o : Option String) → Keeps P (error_after_parties env lease intent o)
  unfolding error_after_parties
  error_after_parties-Keeps lease intent none =
      search (keeps, expiry_error_at-Keeps, error_after_expiry-Keeps)
  error_after_parties-Keeps lease intent (some code) = pure-Keeps _

  pub validate_mirror_lease_for_intent-Keeps :
      (lease intent : Fields) → Keeps P (validate_mirror_lease_for_intent env lease intent)
  unfolding validate_mirror_lease_for_intent
  validate_mirror_lease_for_intent-Keeps lease intent =
      error_after_parties-Keeps lease intent (parties_error lease intent)

  pub expiry_message-Keeps : (payload : Fields) → Keeps P (expiry_message env payload)
  unfolding expiry_message
  expiry_message-Keeps payload = search (keeps, require_future_expiry-Keeps)

  set_intent-Keeps :
      (mirror_intent_id : String) (status : Fields)
      → Keeps P (modify (set_intent mirror_intent_id status))
  unfolding set_intent
  set_intent-Keeps mirror_intent_id status = modify-Keeps _ λ s p. quiet s _ refl refl refl p

  add_event-Keeps :
      (lease_id : String) (event : Fields) → Keeps P (modify (add_event lease_id event))
  unfolding add_event
  add_event-Keeps lease_id event = modify-Keeps _ λ s p. quiet s _ refl refl refl p

  index_command-Keeps :
      (command_id mirror_intent_id : String)
      → Keeps P (modify (index_command command_id mirror_intent_id))
  unfolding index_command
  index_command-Keeps command_id mirror_intent_id = modify-Keeps _ λ s p. quiet s _ refl refl refl p

  mirror_event-Keeps :
      (intent : Fields) (command_id state status : String) (error_code message : Value)
      → Keeps P (mirror_event env intent command_id state status error_code message)
  unfolding mirror_event
  mirror_event-Keeps intent command_id state status error_code message =
      search (keeps, utc_now-Keeps) depth 12

  pub reject_mirror_intent-Keeps :
      (payload : Fields) (error_code message : String)
      → Keeps P (reject_mirror_intent env payload error_code message)
  unfolding reject_mirror_intent
  reject_mirror_intent-Keeps payload error_code message =
      search
        (
          keeps, utc_now-Keeps, mirror_event-Keeps, set_intent-Keeps, add_event-Keeps,
          append_log-Keeps, response-Keeps,
        )
        depth 12

  pub record_intent-Keeps :
      (payload : Fields) (mirror_intent_id lease_id command_id status : String)
      → Keeps P (record_intent env payload mirror_intent_id lease_id command_id status)
  unfolding record_intent
  record_intent-Keeps payload mirror_intent_id lease_id command_id status =
      search
        (
          keeps, utc_now-Keeps, mirror_event-Keeps, set_intent-Keeps, index_command-Keeps,
          add_event-Keeps, append_log-Keeps, response-Keeps,
        )
        depth 12

  apply_found-Keeps :
      (found : Option Fields) (command_id : String) (result : Fields) (state id : String)
      → Keeps P (apply_found env command_id result state id found)
  unfolding apply_found
  apply_found-Keeps none command_id result state id = pure-Keeps tt
  apply_found-Keeps (some current) command_id result state id =
      search (keeps, utc_now-Keeps, set_intent-Keeps, add_event-Keeps, append_log-Keeps) depth 12

  apply_result-Keeps :
      (command_id : String) (result : Fields) (state id : String)
      → Keeps P (apply_result env command_id result state id)
  unfolding apply_result
  apply_result-Keeps command_id result state id = search (keeps, apply_found-Keeps) depth 12

  apply_results-Keeps :
      (command_id : String) (result : Fields) (state : String) (ids : List String)
      → Keeps P (apply_results env command_id result state ids)
  unfolding apply_results
  apply_results-Keeps command_id result state [] = pure-Keeps tt
  apply_results-Keeps command_id result state (id ∷ ids) =
      bind-Keeps (apply_result-Keeps command_id result state id)
        λ _. apply_results-Keeps command_id result state ids

  record_found-Keeps :
      (command_id : String) (result : Fields) (ids : List String)
      → Keeps P (record_found env command_id result ids)
  unfolding record_found
  record_found-Keeps command_id result [] = pure-Keeps tt
  record_found-Keeps command_id result (id ∷ ids) = search (keeps, apply_results-Keeps) depth 12

  record_mirror_result-Keeps :
      (command_id : String) (result : Fields) → Keeps P (record_mirror_result env command_id result)
  unfolding record_mirror_result
  record_mirror_result-Keeps command_id result = search (keeps, record_found-Keeps) depth 12

  add_result-Keeps : (result : Fields) → Keeps P (modify (add_result result))
  unfolding add_result
  add_result-Keeps result = modify-Keeps _ λ s p. quiet s _ refl refl refl p

  pub record_result-Keeps : (payload : Fields) → Keeps P (record_result env payload)
  unfolding record_result
  record_result-Keeps payload =
      search (keeps, add_result-Keeps, append_log-Keeps, record_mirror_result-Keeps, response-Keeps)
        depth 12

  set_heartbeat-Keeps :
      (agent_id : String) (payload : Fields) → Keeps P (modify (set_heartbeat agent_id payload))
  unfolding set_heartbeat
  set_heartbeat-Keeps agent_id payload = modify-Keeps _ λ s p. quiet s _ refl refl refl p

  pub record_heartbeat-Keeps : (payload : Fields) → Keeps P (record_heartbeat env payload)
  unfolding record_heartbeat
  record_heartbeat-Keeps payload =
      search (keeps, set_heartbeat-Keeps, append_log-Keeps, response-Keeps) depth 12
