-- ===== src/Fleet/Intents.antt =====
-- The operations of tools/fleet_control_plane.py on leases, intents and results.
use Prim.Native.Char.{code}
use quest_termux_lab.Agent.Policy.{lease_error}
use quest_termux_lab.Base.{
  List, Option, String, [], eqb, false, if◌then◌else◌, inl, inr, is_empty, none, not, some, true,
  ◌++◌, ◌==◌, ◌∷◌, ◌⊎◌,
}
use quest_termux_lab.Fleet.Commands.{queue_command}
use quest_termux_lab.Fleet.Mirror.{
  add_event, index_command, intent_status, intents_of, mirror_command_id, mirror_event,
  mirror_intent_to_fleet_command, mirror_state_from_result, set_intent, set_lease,
  validate_mirror_lease_for_intent,
}
use quest_termux_lab.Fleet.Payload.{
  mirror_event_schema, mirror_intent_schema, mirror_lease_schema, require_bool,
  require_future_expiry, require_text, require_text_list, result_schema,
}
use quest_termux_lab.Fleet.State.{
  Env, Exec, FleetState, append_log, catch_value, check, gets, lift, modify, pure, response,
  utc_now, ◌>>=◌, ◌>>◌,
}
use quest_termux_lab.Py.Dict.{get, get_or, item, lookup, put}
use quest_termux_lab.Py.Result.{err, value_error}
use quest_termux_lab.Py.Stdlib.{text_of}
use quest_termux_lab.Py.Value.{
  Fields, Value, bool, dict, is_str, is_text, null, obj, str, text, truthy,
}

-- lease["revoked"] = bool(lease.get("revoked", False))
unfoldable pub new_lease : Fields → Fields
new_lease payload = put payload "revoked" (bool (truthy (get_or payload "revoked" (bool false))))

-- The lease that revoke_mirror_lease stores.
unfoldable pub revoked_lease : Fields → String → Value → Fields
revoked_lease lease now revoked_by =
    let marked = put (put lease "revoked" (bool true)) "revoked_at" (str now) in
    if is_str revoked_by then put marked "revoked_by" revoked_by else marked

-- The intent's status after a result.
unfoldable pub with_result : Fields → String → Fields → String → Fields
with_result current state result now =
    put (put (put current "state" (str state)) "target_result" (obj result)) "updated_at" (str now)

unfoldable pub add_result : Fields → FleetState → FleetState
add_result payload s = record s { results = s.results ++ payload ∷ [] }

-- code.replace("_", " ")
abbrev pub spaced : String → String
spaced String.[] = ""
spaced (String.◌∷◌ c s) = String.◌∷◌ (if eqb (code c) b'_' then " " else c) (spaced s)

module _ (env : Env) where
  unfoldable pub create_mirror_lease : Fields → Exec Fields
  create_mirror_lease payload = do
    check (is_text (get payload "schema") mirror_lease_schema)
        (value_error "unsupported mirror lease schema")
    lease_id ← require_text payload "lease_id"
    operator ← require_text payload "operator_id"
    source ← require_text payload "source_agent_id"
    target ← require_text payload "target_agent_id"
    check (not (source == target)) (value_error "mirror source and target must differ")
    fleet ← require_text payload "fleet_id"
    purpose ← require_text payload "purpose"
    consent ← require_text payload "consent_mode"
    indicator ← require_bool payload "active_indicator_required"
    stop ← require_bool payload "emergency_stop_supported"
    require_future_expiry env payload "mirror lease"
    kinds ← require_text_list payload "allowed_command_kinds"
    check (not (is_empty kinds)) (value_error "mirror lease must allow at least one command kind")
    modify (set_lease lease_id (new_lease payload))
    append_log "mirror-leases.jsonl" (new_lease payload)
    response env "accepted" (
        ("lease_id", str lease_id)
        ∷ ("source_agent_id", str source)
        ∷ ("target_agent_id", str target)
        ∷ [])

  unfoldable pub revoke_found : String → Fields → Option Fields → Exec Fields
  revoke_found lease_id payload none = lift (err (value_error "mirror lease missing"))
  revoke_found lease_id payload (some lease) = do
    now ← utc_now env
    let revoked = revoked_lease lease now (get payload "revoked_by")
    modify (set_lease lease_id revoked)
    append_log "mirror-lease-revocations.jsonl" (
        dict (
          ("schema", str "quest-termux-lab.mirror-session-revocation.v1")
          ∷ ("lease_id", str lease_id)
          ∷ ("revoked_at", str now)
          ∷ ("revoked_by", get revoked "revoked_by")
          ∷ ("reason", get payload "reason")
          ∷ []))
    response env "revoked" (("lease_id", str lease_id) ∷ [])

  -- `payload` is the request's body, an object.
  unfoldable pub revoke_mirror_lease : String → Fields → Exec Fields
  revoke_mirror_lease lease_id payload = do
    found ← gets (λ s. lookup s.mirror_leases lease_id)
    revoke_found lease_id payload found

  unfoldable pub reject_mirror_intent : Fields → String → String → Exec Fields
  reject_mirror_intent payload code message = do
    mirror_intent_id ← require_text payload "mirror_intent_id"
    lease_id ← require_text payload "lease_id"
    let command_id = mirror_command_id mirror_intent_id
    event ← mirror_event env payload command_id "rejected" "rejected" (str code) (str message)
    submitted ← utc_now env
    modify (
        set_intent mirror_intent_id (
          intent_status payload mirror_intent_id lease_id command_id "rejected" "rejected" submitted
            (get event "observed_at") (str code) (str message)))
    modify (add_event lease_id event)
    append_log "mirror-intents.jsonl" payload
    append_log "mirror-events.jsonl" event
    response env "rejected" (
        ("mirror_intent_id", str mirror_intent_id)
        ∷ ("lease_id", str lease_id)
        ∷ ("command_id", str command_id)
        ∷ ("state", str "rejected")
        ∷ ("error_code", str code)
        ∷ ("error_message", str message)
        ∷ [])

  -- submit_mirror_intent once the command is queued, or was queued before.
  unfoldable pub record_intent : Fields → String → String → String → String → Exec Fields
  record_intent payload mirror_intent_id lease_id command_id status = do
    event ← mirror_event env payload command_id "queued_for_target" status null null
    submitted ← utc_now env
    modify (
        set_intent mirror_intent_id (
          intent_status payload mirror_intent_id lease_id command_id "queued_for_target" status
            submitted (get event "observed_at") null null))
    modify (index_command command_id mirror_intent_id)
    modify (add_event lease_id event)
    append_log "mirror-intents.jsonl" payload
    append_log "mirror-events.jsonl" event
    response env "queued_for_target" (
        ("mirror_intent_id", str mirror_intent_id)
        ∷ ("lease_id", str lease_id)
        ∷ ("command_id", str command_id)
        ∷ ("controller_status", str status)
        ∷ [])

  -- str(queued.get("existing_command_id") or command["command_id"])
  abbrev pub effective_command : Fields → Fields → String
  effective_command queued command =
      if truthy (get queued "existing_command_id")
      then text (get queued "existing_command_id")
      else text (get command "command_id")

  -- The `try` round queue_command: the answer, or the message of a ValueError.
  unfoldable pub try_queue : Fields → Exec (Fields ⊎ String)
  try_queue command =
      catch_value (queue_command env command >>= λ answer. pure (inl answer))
        (λ message. pure (inr message))

  -- What follows the attempt to queue the command.
  unfoldable pub after_queueing : Fields → String → String → Fields → Fields ⊎ String → Exec Fields
  after_queueing payload mirror_intent_id lease_id command (inr message) =
      reject_mirror_intent payload "mirror_queue_rejected" message
  after_queueing payload mirror_intent_id lease_id command (inl answer) =
      record_intent payload mirror_intent_id lease_id (effective_command answer command)
        (text (get answer "status"))

  -- submit_mirror_intent once the lease allows the intent.
  unfoldable pub forward_intent : Fields → String → String → Exec Fields
  forward_intent payload mirror_intent_id lease_id = do
    command ← mirror_intent_to_fleet_command env payload
    queued ← try_queue command
    after_queueing payload mirror_intent_id lease_id command queued

  -- What follows validate_mirror_lease_for_intent.
  unfoldable pub after_validation : Fields → String → String → Option String → Exec Fields
  after_validation payload mirror_intent_id lease_id (some code) =
      reject_mirror_intent payload code (spaced code)
  after_validation payload mirror_intent_id lease_id none =
      forward_intent payload mirror_intent_id lease_id

  -- submit_mirror_intent once the intent has not expired, for the lease if it is there.
  unfoldable pub judge_intent : Fields → String → String → Option Fields → Exec Fields
  judge_intent payload mirror_intent_id lease_id none =
      reject_mirror_intent payload "mirror_lease_missing" "Mirror lease is missing."
  judge_intent payload mirror_intent_id lease_id (some lease) = do
    lease_error ← validate_mirror_lease_for_intent env lease payload
    after_validation payload mirror_intent_id lease_id lease_error

  -- What follows the test of the intent's expiry.
  unfoldable pub after_expiry : Fields → String → String → Option String → Exec Fields
  after_expiry payload mirror_intent_id lease_id (some message) =
      reject_mirror_intent payload "mirror_intent_expired" message
  after_expiry payload mirror_intent_id lease_id none = do
    found ← gets (λ s. lookup s.mirror_leases lease_id)
    judge_intent payload mirror_intent_id lease_id found

  -- The message of the ValueError that require_future_expiry raises, if it raises one.
  unfoldable pub expiry_message : Fields → Exec (Option String)
  expiry_message payload =
      catch_value (require_future_expiry env payload "mirror intent" >> pure none)
        (λ message. pure (some message))

  -- submit_mirror_intent once the identifiers are read, for the intent's status if it is there.
  unfoldable pub submit_new_intent : Fields → String → Option Fields → Exec Fields
  submit_new_intent payload mirror_intent_id (some existing) = response env "duplicate" (
      ("mirror_intent_id", str mirror_intent_id)
      ∷ ("command_id", get existing "command_id")
      ∷ ("state", get existing "state")
      ∷ [])
  submit_new_intent payload mirror_intent_id none = do
    lease_id ← require_text payload "lease_id"
    expiry ← expiry_message payload
    after_expiry payload mirror_intent_id lease_id expiry

  unfoldable pub submit_mirror_intent : Fields → Exec Fields
  submit_mirror_intent payload = do
    check (is_text (get payload "schema") mirror_intent_schema)
        (value_error "unsupported mirror intent schema")
    mirror_intent_id ← require_text payload "mirror_intent_id"
    source ← require_text payload "source_agent_id"
    target ← require_text payload "target_agent_id"
    known ← gets (λ s. lookup s.mirror_intents mirror_intent_id)
    submit_new_intent payload mirror_intent_id known

  -- One round of the loop of _record_mirror_result, for the intent's status if it is there.
  unfoldable pub apply_found : String → Fields → String → String → Option Fields → Exec (Unit {0})
  apply_found command_id result state mirror_intent_id none = pure tt
  apply_found command_id result state mirror_intent_id (some current) = do
    now ← utc_now env
    let updated = with_result current state result now
    modify (set_intent mirror_intent_id updated)
    lease_id ← lift (item updated "lease_id")
    source ← lift (item updated "source_agent_id")
    target ← lift (item updated "target_agent_id")
    let event = dict (
        ("schema", str mirror_event_schema)
        ∷ ("mirror_intent_id", str mirror_intent_id)
        ∷ ("lease_id", lease_id)
        ∷ ("source_agent_id", source)
        ∷ ("target_agent_id", target)
        ∷ ("command_id", str command_id)
        ∷ ("state", str state)
        ∷ ("observed_at", str now)
        ∷ ("target_result", obj result)
        ∷ ("controller_status", str "accepted")
        ∷ ("error_code", null)
        ∷ ("error_message", null)
        ∷ [])
    modify (add_event (text_of env.lib lease_id) event)
    append_log "mirror-events.jsonl" event

  unfoldable pub apply_result : String → Fields → String → String → Exec (Unit {0})
  apply_result command_id result state mirror_intent_id = do
    found ← gets (λ s. lookup s.mirror_intents mirror_intent_id)
    apply_found command_id result state mirror_intent_id found

  unfoldable pub apply_results : String → Fields → String → List String → Exec (Unit {0})
  apply_results command_id result state [] = pure tt
  apply_results command_id result state (id ∷ ids) =
      apply_result command_id result state id >> apply_results command_id result state ids

  unfoldable pub record_found : String → Fields → List String → Exec (Unit {0})
  record_found command_id result [] = pure tt
  record_found command_id result (id ∷ ids) = do
    state ← lift (mirror_state_from_result result)
    apply_results command_id result state (id ∷ ids)

  unfoldable pub record_mirror_result : String → Fields → Exec (Unit {0})
  record_mirror_result command_id result = do
    ids ← gets (λ s. intents_of s command_id)
    record_found command_id result ids

  unfoldable pub record_result : Fields → Exec Fields
  record_result payload = do
    check (is_text (get payload "schema") result_schema) (value_error "unsupported result schema")
    command_id ← require_text payload "command_id"
    agent_id ← require_text payload "agent_id"
    modify (add_result payload)
    append_log "results.jsonl" payload
    record_mirror_result command_id payload
    response env "accepted" (("command_id", str command_id) ∷ ("agent_id", str agent_id) ∷ [])
