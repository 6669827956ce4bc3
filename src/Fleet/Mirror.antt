-- ===== src/Fleet/Mirror.antt =====
-- Mirror leases, intents and events of tools/fleet_control_plane.py.
use Prim.Native.Char.{code}
use quest_termux_lab.Base.{
  Bool, List, Option, String, [], any, false, if◌then◌else◌, none, not, some, ◌&&◌, ◌++◌, ◌∷◌,
}
use quest_termux_lab.Fleet.Payload.{
  command_schema, has_passed, mirror_adb_action_kinds, mirror_event_schema,
}
use quest_termux_lab.Fleet.State.{Env, Exec, FleetState, catch_value, lift, pure, utc_now, ◌>>=◌}
use quest_termux_lab.Py.Dict.{get, get_or, insert, item, lookup, py_eq}
use quest_termux_lab.Py.Result.{Result, err, map_result, ok, type_error}
use quest_termux_lab.Py.Stdlib.{dict_from, int_of, text_of}
use quest_termux_lab.Py.Text.{◌+ₛ◌}
use quest_termux_lab.Py.Value.{
  Fields, Value, arr, as_str, bool, dict, end, int, is_one_of, is_true, nat, null, obj, str, text,
  to_list, truthy, unhashable,
}

-- f"mirror-{mirror_intent_id}"
unfoldable pub mirror_command_id : String → String
mirror_command_id mirror_intent_id = "mirror-" +ₛ mirror_intent_id

abbrev pub events_of : FleetState → String → List Fields
events_of s lease_id = elim (lookup s.mirror_events lease_id) [ none ↦ [] | some events ↦ events ]

abbrev pub intents_of : FleetState → String → List String
intents_of s command_id = elim (lookup s.mirror_command_index command_id) [
  | none ↦ []
  | some ids ↦ ids
]

unfoldable pub set_intent : String → Fields → FleetState → FleetState
set_intent mirror_intent_id status s = record s {
  mirror_intents = insert s.mirror_intents mirror_intent_id status;
}

unfoldable pub index_command : String → String → FleetState → FleetState
index_command command_id mirror_intent_id s = record s {
  mirror_command_index =
      insert s.mirror_command_index command_id (intents_of s command_id ++ mirror_intent_id ∷ []);
}

unfoldable pub add_event : String → Fields → FleetState → FleetState
add_event lease_id event s = record s {
  mirror_events = insert s.mirror_events lease_id (events_of s lease_id ++ event ∷ []);
}

unfoldable pub set_lease : String → Fields → FleetState → FleetState
set_lease lease_id lease s = record s { mirror_leases = insert s.mirror_leases lease_id lease }

-- `kind in set(allowed)`, which raises a TypeError for a list or a dict
unfoldable pub kind_allowed : Value → Value → Result Bool
kind_allowed kind (arr vs) =
    if unhashable kind then err type_error else ok (any (λ v. py_eq v kind) (to_list vs))
kind_allowed kind _ = ok false

-- The end of validate_mirror_lease_for_intent, after the test of the lease's expiry.
unfoldable pub kind_error : Fields → Fields → Result (Option String)
kind_error lease intent =
    map_result
      (λ allowed.
        if not allowed
        then some "mirror_kind_not_allowed"
        else if is_one_of (get intent "kind") mirror_adb_action_kinds
            && (is_true (get lease "requires_local_adb_shell_for_adb_commands")
                && not (is_true (get intent "requires_local_adb_shell")))
        then some "mirror_adb_requirement_missing"
        else none)
      (kind_allowed (get intent "kind") (get lease "allowed_command_kinds"))

-- The tests of validate_mirror_lease_for_intent before the lease's expiry.
unfoldable pub parties_error : Fields → Fields → Option String
parties_error lease intent =
    if truthy (get lease "revoked")
    then some "mirror_lease_revoked"
    else if not (py_eq (get lease "fleet_id") (get intent "fleet_id"))
    then some "mirror_lease_fleet_mismatch"
    else if not (py_eq (get lease "source_agent_id") (get intent "source_agent_id"))
    then some "mirror_source_not_allowed"
    else if not (py_eq (get lease "target_agent_id") (get intent "target_agent_id"))
    then some "mirror_target_not_allowed"
    else none

abbrev pub intent_status :
    Fields → String → String → String → String → String → String → Value → Value → Value → Fields
intent_status payload mirror_intent_id lease_id command_id state controller_status submitted updated
      code message =
    dict (
      ("schema", str "quest-termux-lab.mirror-intent-status.v1")
      ∷ ("mirror_intent_id", str mirror_intent_id)
      ∷ ("lease_id", str lease_id)
      ∷ ("source_agent_id", get payload "source_agent_id")
      ∷ ("target_agent_id", get payload "target_agent_id")
      ∷ ("command_id", str command_id)
      ∷ ("state", str state)
      ∷ ("controller_status", str controller_status)
      ∷ ("submitted_at", str submitted)
      ∷ ("updated_at", updated)
      ∷ ("target_result", null)
      ∷ ("error_code", code)
      ∷ ("error_message", message)
      ∷ [])

-- `status in {...}`, else "failed"; a status that is a list or a dict is a TypeError
unfoldable pub mirror_state_from_result : Fields → Result String
mirror_state_from_result result =
    if unhashable (get result "status")
    then err type_error
    else ok (
        if is_one_of (get result "status")
          ("completed" ∷ "rejected" ∷ "failed" ∷ "timeout" ∷ "skipped" ∷ [])
        then text (get result "status")
        else "failed")

module _ (env : Env) where
  -- The lease's expiry, where a text that does not parse is an answer and not an exception.
  unfoldable pub expiry_error_at : Option String → Exec (Option String)
  expiry_error_at none = pure (some "mirror_lease_missing_expiry")
  expiry_error_at (some expires_at) =
      catch_value
        (do
          past ← has_passed env expires_at
          pure (if past then some "mirror_lease_expired" else none))
        (λ _. pure (some "mirror_lease_bad_expiry"))

  -- What follows the test of the lease's expiry.
  unfoldable pub error_after_expiry : Fields → Fields → Option String → Exec (Option String)
  error_after_expiry lease intent (some code) = pure (some code)
  error_after_expiry lease intent none = lift (kind_error lease intent)

  -- What follows the test of the lease's parties.
  unfoldable pub error_after_parties : Fields → Fields → Option String → Exec (Option String)
  error_after_parties lease intent (some code) = pure (some code)
  error_after_parties lease intent none = do
    expiry ← expiry_error_at (as_str (get lease "expires_at"))
    error_after_expiry lease intent expiry

  unfoldable pub validate_mirror_lease_for_intent : Fields → Fields → Exec (Option String)
  validate_mirror_lease_for_intent lease intent =
      error_after_parties lease intent (parties_error lease intent)

  unfoldable pub mirror_intent_to_fleet_command : Fields → Exec Fields
  mirror_intent_to_fleet_command intent = do
    fleet_id ← lift (item intent "fleet_id")
    mirror_intent_id ← lift (item intent "mirror_intent_id")
    target ← lift (item intent "target_agent_id")
    issued_at ← lift (item intent "issued_at")
    expires_at ← lift (item intent "expires_at")
    key ← lift (item intent "idempotency_key")
    kind ← lift (item intent "kind")
    lease_id ← lift (item intent "lease_id")
    adb ← lift (item intent "requires_local_adb_shell")
    timeout ← lift (int_of env.lib (get_or intent "timeout_ms" (nat 10000)))
    stdout ← lift (int_of env.lib (get_or intent "max_stdout_bytes" (nat 4096)))
    stderr ← lift (int_of env.lib (get_or intent "max_stderr_bytes" (nat 4096)))
    payload ← lift (dict_from env.lib (get_or intent "payload" (obj end)))
    source ← lift (item intent "source_agent_id")
    reason ← lift (item intent "reason")
    pure (
        dict (
          ("schema", str command_schema)
          ∷ ("fleet_id", fleet_id)
          ∷ ("command_id", str (mirror_command_id (text_of env.lib mirror_intent_id)))
          ∷ ("target_agent_id", target)
          ∷ ("origin", str "mirror")
          ∷ ("issued_at", issued_at)
          ∷ ("expires_at", expires_at)
          ∷ ("idempotency_key", key)
          ∷ ("kind", kind)
          ∷ ("remote_session_lease_id", lease_id)
          ∷ ("requires_local_adb_shell", bool (truthy adb))
          ∷ ("timeout_ms", int timeout)
          ∷ ("max_stdout_bytes", int stdout)
          ∷ ("max_stderr_bytes", int stderr)
          ∷ ("payload", obj payload)
          ∷ ("sensitivity", get_or intent "sensitivity" (str "local_only"))
          ∷ ("requested_by", str ("mirror:" +ₛ text_of env.lib source))
          ∷ ("reason", reason)
          ∷ ("source_agent_id", source)
          ∷ ("mirror_intent_id", mirror_intent_id)
          ∷ []))

  unfoldable pub mirror_event : Fields → String → String → String → Value → Value → Exec Fields
  mirror_event intent command_id state controller_status error_code error_message = do
    mirror_intent_id ← lift (item intent "mirror_intent_id")
    lease_id ← lift (item intent "lease_id")
    source ← lift (item intent "source_agent_id")
    target ← lift (item intent "target_agent_id")
    now ← utc_now env
    pure (
        dict (
          ("schema", str mirror_event_schema)
          ∷ ("mirror_intent_id", mirror_intent_id)
          ∷ ("lease_id", lease_id)
          ∷ ("source_agent_id", source)
          ∷ ("target_agent_id", target)
          ∷ ("command_id", str command_id)
          ∷ ("state", str state)
          ∷ ("observed_at", str now)
          ∷ ("target_result", null)
          ∷ ("controller_status", str controller_status)
          ∷ ("error_code", error_code)
          ∷ ("error_message", error_message)
          ∷ []))
