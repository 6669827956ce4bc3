-- ===== src/Fleet/Payload.antt =====
-- The checks of a payload's fields in tools/fleet_control_plane.py, and its schemas.
use quest_termux_lab.Base.{
  Bool, List, Option, String, [], all, false, if◌then◌else◌, none, not, some, true, ◌∷◌,
}
use quest_termux_lab.Fleet.State.{
  Env, Exec, catch_value, check, lift, pure, read_clock, ◌>>=◌, ◌>>◌,
}
use quest_termux_lab.Py.Dict.{get, list_of}
use quest_termux_lab.Py.Result.{Result, err, value_error}
use quest_termux_lab.Py.Stdlib.{from_iso}
use quest_termux_lab.Py.Text.{drop_last, ends_with, ◌+ₛ◌}
use quest_termux_lab.Py.Time.{DateTime, at_most}
use quest_termux_lab.Py.Value.{
  Fields, Value, arr, as_str, is_bool, is_name, is_str, is_true, text, to_list,
}

abbrev pub heartbeat_schema : String
heartbeat_schema = "quest-termux-lab.fleet-agent-heartbeat.v1"

abbrev pub command_schema : String
command_schema = "quest-termux-lab.fleet-command-request.v1"

abbrev pub result_schema : String
result_schema = "quest-termux-lab.fleet-command-result.v1"

abbrev pub no_command_schema : String
no_command_schema = "quest-termux-lab.fleet-no-command.v1"

abbrev pub mirror_lease_schema : String
mirror_lease_schema = "quest-termux-lab.mirror-session-lease.v1"

abbrev pub mirror_intent_schema : String
mirror_intent_schema = "quest-termux-lab.mirror-command-intent.v1"

abbrev pub mirror_event_schema : String
mirror_event_schema = "quest-termux-lab.mirror-command-event.v1"

abbrev pub mirror_session_summary_schema : String
mirror_session_summary_schema = "quest-termux-lab.mirror-session-summary.v1"

abbrev pub passive_command_kinds : List String
passive_command_kinds = "agent.status" ∷ "agent.capabilities" ∷ []

abbrev pub mirror_adb_action_kinds : List String
mirror_adb_action_kinds =
    "android.foreground_snapshot" ∷ "app.launch_allowlisted"
    ∷ "uiautomator.run_allowlisted_scenario" ∷ []

unfoldable pub require_text : Fields → String → Exec String
require_text payload key = do
  check (is_name (get payload key)) (value_error ("missing " +ₛ key))
  pure (text (get payload key))

abbrev all_names : List Value → Bool
all_names vs = all is_name vs

abbrev name_list : Value → Bool
name_list (arr vs) = all_names (to_list vs)
name_list _ = false

unfoldable pub require_text_list : Fields → String → Exec (List Value)
require_text_list payload key = do
  check (name_list (get payload key)) (value_error ("missing " +ₛ key))
  lift (list_of (get payload key))

unfoldable pub require_bool : Fields → String → Exec Bool
require_bool payload key = do
  check (is_bool (get payload key)) (value_error ("missing " +ₛ key))
  pure (is_true (get payload key))

module _ (env : Env) where
  -- parse_time
  unfoldable pub parse_time : String → Result DateTime
  parse_time value =
      from_iso env.lib (if ends_with b'Z' value then drop_last value +ₛ "+00:00" else value)

  -- parse_time(text) <= datetime.now(timezone.utc)
  unfoldable pub has_passed : String → Exec Bool
  has_passed expires_at = do
    expires ← lift (parse_time expires_at)
    now ← read_clock env
    lift (at_most expires now)

  unfoldable pub is_expired_at : Option String → Exec Bool
  is_expired_at none = pure true
  is_expired_at (some expires_at) = has_passed expires_at

  unfoldable pub is_expired : Fields → Exec Bool
  is_expired command = is_expired_at (as_str (get command "expires_at"))

  -- Only the parsing stands in the `try`; the comparison may still raise a TypeError.
  unfoldable pub require_future_expiry : Fields → String → Exec (Unit {0})
  require_future_expiry payload label = do
    check (is_str (get payload "expires_at")) (value_error (label +ₛ " is missing expires_at"))
    expires ←
        catch_value (lift (parse_time (text (get payload "expires_at"))))
          (λ _. lift (err (value_error (label +ₛ " has invalid expires_at"))))
    now ← read_clock env
    past ← lift (at_most expires now)
    check (not past) (value_error (label +ₛ " is already expired"))
