-- ===== src/Fleet/Commands.antt =====
-- Heartbeats and the command queues of tools/fleet_control_plane.py.
use quest_termux_lab.Base.{
  Bool, List, Option, String, [], false, member, none, not, some, true, ◌++◌, ◌∷◌,
}
use quest_termux_lab.Fleet.Payload.{
  command_schema, heartbeat_schema, is_expired, no_command_schema, passive_command_kinds,
  require_text,
}
use quest_termux_lab.Fleet.State.{
  Env, Exec, FleetState, append_log, check, gets, modify, pure, response, utc_now, ◌>>=◌, ◌>>◌,
}
use quest_termux_lab.Py.Dict.{get, insert, lookup, remove}
use quest_termux_lab.Py.Result.{value_error}
use quest_termux_lab.Py.Text.{◌+ₛ◌}
use quest_termux_lab.Py.Value.{Fields, Value, dict, is_text, str}

-- f"{agent_id}:{idempotency_key}"
unfoldable pub idempotency_id : String → String → String
idempotency_id agent_id key = agent_id +ₛ ":" +ₛ key

abbrev pub or_empty : Option (List Fields) → List Fields
or_empty none = []
or_empty (some queue) = queue

abbrev pub queue_of : FleetState → String → List Fields
queue_of s agent_id = or_empty (lookup s.commands agent_id)

-- self.commands.setdefault(target, []).append(payload)
unfoldable pub enqueue : String → Fields → FleetState → FleetState
enqueue target payload s = record s {
  commands = insert s.commands target (queue_of s target ++ payload ∷ []);
}

unfoldable pub remember_key : String → String → FleetState → FleetState
remember_key id command_id s = record s {
  idempotency_index = insert s.idempotency_index id command_id;
}

-- self.idempotency_index.pop(f"{agent_id}:{key}", None), where the key is a text
unfoldable pub forget_key : String → Value → FleetState → FleetState
forget_key agent_id (str key) s = record s {
  idempotency_index = remove s.idempotency_index (idempotency_id agent_id key);
}
forget_key agent_id _ s = s

abbrev pub expired_record : Fields → String → Fields
expired_record command now = dict (
    ("schema", str "quest-termux-lab.fleet-expired-command.v1")
    ∷ ("command_id", get command "command_id")
    ∷ ("target_agent_id", get command "target_agent_id")
    ∷ ("expired_at", str now)
    ∷ [])

-- `if selected is None: selected = command`, else the command is kept
abbrev pub choose : Option Fields → Fields → Option Fields × List Fields
choose none command = (some command, [])
choose (some first) command = (some first, command ∷ [])

unfoldable pub set_queue : String → List Fields → FleetState → FleetState
set_queue agent_id queue s = record s { commands = insert s.commands agent_id queue }

unfoldable pub set_heartbeat : String → Fields → FleetState → FleetState
set_heartbeat agent_id payload s = record s { heartbeats = insert s.heartbeats agent_id payload }

module _ (env : Env) where
  unfoldable pub record_heartbeat : Fields → Exec Fields
  record_heartbeat payload = do
    check (is_text (get payload "schema") heartbeat_schema)
        (value_error "unsupported heartbeat schema")
    agent_id ← require_text payload "agent_id"
    modify (set_heartbeat agent_id payload)
    append_log "heartbeats.jsonl" payload
    response env "accepted" (("agent_id", str agent_id) ∷ [])

  -- The end of queue_command, once the payload is valid, for the command that the key names.
  unfoldable pub queue_new : Fields → String → String → String → Option String → Exec Fields
  queue_new payload command_id target key (some other) = response env "duplicate" (
      ("command_id", str command_id)
      ∷ ("target_agent_id", str target)
      ∷ ("existing_command_id", str other)
      ∷ [])
  queue_new payload command_id target key none = do
    modify (remember_key (idempotency_id target key) command_id)
    modify (enqueue target payload)
    append_log "commands.jsonl" payload
    response env "queued" (("command_id", str command_id) ∷ ("target_agent_id", str target) ∷ [])

  -- The test that an active command names a lease.
  unfoldable pub require_lease : Fields → Bool → Exec String
  require_lease payload true = pure ""
  require_lease payload false = require_text payload "remote_session_lease_id"

  -- What follows the test of the command's expiry.
  unfoldable pub queue_unexpired : Fields → String → String → String → Bool → Exec Fields
  queue_unexpired payload command_id target key expired = do
    check (not expired) (value_error "command is already expired")
    kind ← require_text payload "kind"
    lease_id ← require_lease payload (member kind passive_command_kinds)
    existing ← gets (λ s. lookup s.idempotency_index (idempotency_id target key))
    queue_new payload command_id target key existing

  unfoldable pub queue_command : Fields → Exec Fields
  queue_command payload = do
    check (is_text (get payload "schema") command_schema) (value_error "unsupported command schema")
    command_id ← require_text payload "command_id"
    target ← require_text payload "target_agent_id"
    key ← require_text payload "idempotency_key"
    expired ← is_expired env payload
    queue_unexpired payload command_id target key expired

  -- What next_command does with an expired command.
  unfoldable pub drop_expired : String → Fields → Exec (Unit {0})
  drop_expired agent_id command = do
    modify (forget_key agent_id (get command "idempotency_key"))
    now ← utc_now env
    append_log "expired-commands.jsonl" (expired_record command now)

  unfoldable pub sort_out :
      String → Option Fields → Fields → Bool → Exec (Option Fields × List Fields)
  sort_out agent_id selected command true = do drop_expired agent_id command; pure (selected, [])
  sort_out agent_id selected command false = pure (choose selected command)

  -- One round of the loop of next_command: the selected command, and what is kept of this one.
  unfoldable pub visit : String → Option Fields → Fields → Exec (Option Fields × List Fields)
  visit agent_id selected command = do
    expired ← is_expired env command
    sort_out agent_id selected command expired

  unfoldable pub sweep : String → Option Fields → List Fields → Exec (Option Fields × List Fields)
  sweep agent_id selected [] = pure (selected, [])
  sweep agent_id selected (command ∷ queue) = do
    visited ← visit agent_id selected command
    rest ← sweep agent_id visited.0 queue
    pure (rest.0, visited.1 ++ rest.1)

  unfoldable pub answer_next : String → Option Fields → Exec Fields
  answer_next agent_id (some command) = pure command
  answer_next agent_id none = do
    now ← utc_now env
    pure (
        dict (
          ("schema", str no_command_schema)
          ∷ ("agent_id", str agent_id)
          ∷ ("status", str "empty")
          ∷ ("observed_at", str now)
          ∷ []))

  unfoldable pub next_command : String → Exec Fields
  next_command agent_id = do
    queue ← gets (λ s. queue_of s agent_id)
    modify (set_queue agent_id queue)
    swept ← sweep agent_id none queue
    modify (set_queue agent_id swept.1)
    answer_next agent_id swept.0
