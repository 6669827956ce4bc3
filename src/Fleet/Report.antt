-- ===== src/Fleet/Report.antt =====
-- The read-only answers of tools/fleet_control_plane.py.
use quest_termux_lab.Base.{
  List, Option, String, [], if◌then◌else◌, length, map, none, some, ℕ, ◌+◌, ◌∷◌,
}
use quest_termux_lab.Fleet.Mirror.{events_of}
use quest_termux_lab.Fleet.Payload.{mirror_session_summary_schema}
use quest_termux_lab.Fleet.State.{Env, Exec, FleetState, gets, lift, pure, utc_now, ◌>>=◌}
use quest_termux_lab.Py.Dict.{Table, get, get_or, insert, keys, lookup}
use quest_termux_lab.Py.Result.{err, value_error}
use quest_termux_lab.Py.Text.{sort_texts}
use quest_termux_lab.Py.Value.{
  Fields, Value, array, as_str, dict, end, is_text, nat, null, obj, str, truthy,
}

-- latest_result_by_agent: the last result of every agent
unfoldable pub latest_results : Table Fields → List Fields → Table Fields
latest_results table [] = table
latest_results table (result ∷ rest) =
    latest_results
      (elim (as_str (get result "agent_id")) [
        | none ↦ table
        | some agent_id ↦ insert table agent_id result
      ])
      rest

-- The reason that the heartbeat gives; a value that counts as false is no reason.
unfoldable pub heartbeat_reason : Fields → Value
heartbeat_reason heartbeat = elim (get_or heartbeat "local_adb" (obj end)) [
  | obj adb ↦
      if truthy (get adb "checked")
      then (if truthy (get adb "available")
          then null
          else if truthy (get adb "last_failure_reason")
          then get adb "last_failure_reason"
          else str "local_adb_unavailable")
      else str "local_adb_not_checked"
  | _ ↦ null
]

unfoldable pub recovery_reason : Fields → Option Fields → Value
recovery_reason heartbeat none = heartbeat_reason heartbeat
recovery_reason heartbeat (some result) =
    if is_text (get result "error_code") "local_adb_unavailable"
    then str "local_adb_unavailable_after_command"
    else heartbeat_reason heartbeat

unfoldable pub candidates_for : Table Fields → Table Fields → List String → List Value
candidates_for heartbeats latest [] = []
candidates_for heartbeats latest (agent_id ∷ rest) =
    let others = candidates_for heartbeats latest rest in
    let heartbeat : Fields = elim (lookup heartbeats agent_id) [ none ↦ end | some h ↦ h ] in
    let reason = recovery_reason heartbeat (lookup latest agent_id) in
    if truthy reason
    then obj (
        dict (
          ("agent_id", str agent_id)
          ∷ ("reason", reason)
          ∷ ("recommended_action", str "central_direct_adb_recovery")
          ∷ []))
      ∷ others
    else others

unfoldable pub recovery_candidates : FleetState → List Value
recovery_candidates s =
    candidates_for s.heartbeats (latest_results [] s.results) (sort_texts (keys s.heartbeats))

abbrev pub queued_count : Table (List Fields) → ℕ
queued_count [] = 0
queued_count ((agent_id, queue) ∷ rest) = length queue + queued_count rest

abbrev pub text_values : List String → List Value
text_values [] = []
text_values (s ∷ rest) = str s ∷ text_values rest

module _ (env : Env) where
  unfoldable pub summary : Exec Fields
  summary = do
    s ← gets (λ s. s)
    now ← utc_now env
    pure (
        dict (
          ("schema", str "quest-termux-lab.fleet-summary.v1")
          ∷ ("observed_at", str now)
          ∷ ("agent_count", nat (length s.heartbeats))
          ∷ ("agents", array (text_values (sort_texts (keys s.heartbeats))))
          ∷ ("queued_command_count", nat (queued_count s.commands))
          ∷ ("result_count", nat (length s.results))
          ∷ ("recovery_candidates", array (recovery_candidates s))
          ∷ []))

  unfoldable pub found_intent : Option Fields → Exec Fields
  found_intent none = lift (err (value_error "mirror intent missing"))
  found_intent (some status) = pure status

  unfoldable pub mirror_intent_status : String → Exec Fields
  mirror_intent_status mirror_intent_id = do
    found ← gets (λ s. lookup s.mirror_intents mirror_intent_id)
    found_intent found

  unfoldable pub mirror_session_events : String → Exec Fields
  mirror_session_events lease_id = do
    lease ← gets (λ s. lookup s.mirror_leases lease_id)
    events ← gets (λ s. events_of s lease_id)
    now ← utc_now env
    pure (
        dict (
          ("schema", str mirror_session_summary_schema)
          ∷ ("fleet_id", elim lease [ none ↦ str "" | some l ↦ get l "fleet_id" ])
          ∷ ("lease_id", str lease_id)
          ∷ ("observed_at", str now)
          ∷ ("event_count", nat (length events))
          ∷ ("events", array (map obj events))
          ∷ []))
