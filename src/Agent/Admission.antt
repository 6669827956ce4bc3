-- ===== src/Agent/Admission.antt =====
-- execute_command of scripts/termux_fleet_agent.py, up to the choice of the handler.
use Prim.Native.Char.{code}
use quest_termux_lab.Agent.Mirror.{validate_mirror_binding_policy}
use quest_termux_lab.Agent.Policy.{passed, validate_remote_session_lease}
use quest_termux_lab.Base.{
  Bool, List, Option, String, [], any, if◌then◌else◌, member, none, not, some, true, ◌∷◌,
}
use quest_termux_lab.Fleet.Payload.{command_schema}
use quest_termux_lab.Py.Dict.{get, get_or, item, list_of, py_eq}
use quest_termux_lab.Py.Result.{Result, err, ok, type_error, ◌>>=◌}
use quest_termux_lab.Py.Stdlib.{Stdlib, text_of}
use quest_termux_lab.Py.Time.{DateTime}
use quest_termux_lab.Py.Value.{Fields, Value, arr, as_str, is_text, nil, unhashable}

-- What execute_command does with a command: it rejects it with an error code, or it calls the
-- handler of the command's kind.
pub data Verdict : Type 0 where
  rejected : String → Verdict
  dispatched : String → Verdict

abbrev pub implemented_kinds : List String
implemented_kinds =
    "agent.status" ∷ "agent.capabilities" ∷ "termux.exec_allowlisted" ∷ "adb.self_check"
    ∷ "apk.update_verified" ∷ "app.launch_allowlisted" ∷ "android.foreground_snapshot"
    ∷ "android.logcat_slice" ∷ "adb.lease_check" ∷ "adb.lease_disconnect"
    ∷ "uiautomator.run_allowlisted_scenario" ∷ "termux.agent.restart_status"
    ∷ "media_projection.preview_request" ∷ "media_projection.preview_stop" ∷ []

unfoldable pub choose_handler : String → Verdict
choose_handler kind =
    if member kind implemented_kinds then dispatched kind else rejected "kind_unimplemented"

abbrev pub verdict_or : Result (Option String) → Result Verdict → Result Verdict
verdict_or (ok (some code)) rest = ok (rejected code)
verdict_or (ok none) rest = rest
verdict_or (err e) rest = err e

-- `kind not in set(config.get("allowed_command_kinds", []))`, which raises a TypeError where the
-- kind or a member of the allowlist is a list or a dict
unfoldable pub in_allowlist : Fields → Value → Result Bool
in_allowlist config kind = list_of (get_or config "allowed_command_kinds" (arr nil)) >>= λ allowed.
    if any unhashable (kind ∷ allowed) then err type_error else ok (any (λ v. py_eq v kind) allowed)

module _ (lib : Stdlib) where
  -- The lease and the mirror tests, at the clock readings `lease_now`.
  unfoldable pub admit : DateTime → Fields → Fields → String → Result Verdict
  unfolding validate_remote_session_lease validate_mirror_binding_policy choose_handler
  admit lease_now config command kind =
      verdict_or (validate_remote_session_lease lib lease_now config command kind) (
        verdict_or (validate_mirror_binding_policy lib config command kind)
          (ok (choose_handler kind)))

  -- `not isinstance(expires_at, str) or parse_time(expires_at) <= now`
  unfoldable pub command_expired : DateTime → Fields → Result Bool
  unfolding passed
  command_expired now command = elim (as_str (get command "expires_at")) [
    | none ↦ ok true
    | some expires_at ↦ passed lib now expires_at
  ]

  -- `now` and `lease_now` are the clock's readings at the command's and at the lease's expiry.
  unfoldable pub execute_command : DateTime → DateTime → Fields → Fields → Result Verdict
  unfolding command_expired in_allowlist admit
  execute_command now lease_now config command =
      if not (is_text (get command "schema") command_schema)
      then ok (rejected "unsupported_schema")
      else item config "agent_id" >>= λ agent_id.
          if not (py_eq (get command "target_agent_id") agent_id)
          then ok (rejected "wrong_agent")
          else command_expired now command >>= λ expired.
              if expired
              then ok (rejected "expired")
              else in_allowlist config (get command "kind") >>= λ allowed.
                  if not allowed
                  then ok (rejected "kind_not_allowed")
                  else admit lease_now config command (text_of lib (get command "kind"))
