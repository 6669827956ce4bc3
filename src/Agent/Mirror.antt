-- ===== src/Agent/Mirror.antt =====
-- The mirror bindings of scripts/termux_fleet_agent.py.
use Prim.Native.Char.{code}
use quest_termux_lab.Agent.Policy.{lists_text, members, parse_time, text_list}
use quest_termux_lab.Base.{
  Bool, Option, String, false, if◌then◌else◌, leb, ltb, member, none, not, some, ℕ, ◌&&◌, ◌*◌, ◌+◌,
  ◌==◌,
}
use quest_termux_lab.Fleet.Payload.{mirror_adb_action_kinds}
use quest_termux_lab.Py.Dict.{get, get_or}
use quest_termux_lab.Py.Result.{Result, err, map_result, ok, type_error, value_error, ◌>>=◌}
use quest_termux_lab.Py.Stdlib.{Stdlib}
use quest_termux_lab.Py.Time.{DateTime, comparable}
use quest_termux_lab.Py.Value.{
  Fields, Value, arr, as_dict, as_str, bool, count_of, end, is_name, is_null, is_positive, is_str,
  is_text, is_true, nil, obj, text, truthy,
}

-- bindings.get(source): only the bindings that are objects count
unfoldable pub mirror_binding : Fields → String → Option Fields
mirror_binding config source = elim (get_or config "mirror_bindings" (obj end)) [
  | obj bindings ↦ as_dict (get bindings source)
  | _ ↦ none
]

-- An allowlist of a policy that must be a list of texts, and a text that must be on it.
unfoldable pub allowlist_error : Value → Option String → String → String → Option String
allowlist_error allowed asked bad denied =
    if not (text_list allowed) then some bad else elim asked [
      | none ↦ some denied
      | some name ↦ if lists_text name (members allowed) then none else some denied
    ]

-- The last tests of validate_mirror_binding_policy, on the payload.
unfoldable pub payload_error : Fields → Fields → String → Option String
unfolding allowlist_error
payload_error policy command kind = elim (get_or command "payload" (obj end)) [
  | obj payload ↦
      if kind == "app.launch_allowlisted"
      then allowlist_error (get_or policy "allowed_launch_components" (arr nil))
          (as_str (get payload "component")) "mirror_policy_bad_launch_components"
          "mirror_launch_component_not_allowed"
      else if kind == "uiautomator.run_allowlisted_scenario"
      then allowlist_error (get_or policy "allowed_uiautomator_scenarios" (arr nil))
          (as_str (get payload "scenario")) "mirror_policy_bad_uiautomator_scenarios"
          "mirror_uiautomator_scenario_not_allowed"
      else none
  | _ ↦ some "mirror_payload_invalid"
]

-- expires - issued, where it is positive and at most `max` seconds
abbrev pub ttl_fits : ℕ → ℕ → ℕ → Bool
ttl_fits issued expires max_seconds =
    ltb issued expires && leb expires (issued + max_seconds * 1000000)

abbrev pub ttl_error : ℕ → DateTime → DateTime → Result (Option String)
ttl_error max_seconds issued expires =
    if comparable issued expires
    then ok (
        if ttl_fits issued.instant expires.instant max_seconds
        then none
        else some "mirror_ttl_exceeded")
    else err type_error

abbrev pub bad_ttl : Result (Option String) → Result (Option String)
bad_ttl (err (value_error message)) = ok (some "mirror_ttl_invalid")
bad_ttl r = r

abbrev pub first_error : Option String → Option String → Option String
first_error (some code) rest = some code
first_error none rest = rest

-- The tests of a binding's policy after the test of its lifetime. The last one also marks the
-- local ADB unavailable in the agent's state, which no later test reads.
unfoldable pub device_error : Fields → Fields → Fields → String → Option String
unfolding payload_error
device_error config policy command kind =
    if is_true (get policy "require_operator_visible_session")
      && not (is_true (get config "operator_visible_session_active"))
    then some "mirror_operator_consent_missing"
    else if is_true (get policy "require_local_adb_shell")
        && (member kind mirror_adb_action_kinds
            && not (is_true (get command "requires_local_adb_shell")))
    then some "mirror_local_adb_not_required_by_command"
    else if is_true (get policy "require_local_adb_shell")
        && (is_true (get command "requires_local_adb_shell")
            && (member kind mirror_adb_action_kinds
                && not (truthy (get_or config "local_adb_enabled" (bool false)))))
    then some "local_adb_required_but_unavailable"
    else payload_error policy command kind

-- The tests of a binding's policy up to its kinds.
unfoldable pub binding_error : Fields → Fields → String → Option String
unfolding allowlist_error
binding_error policy command kind =
    if not (is_true (get policy "enabled"))
    then some "mirror_binding_disabled"
    else if not (is_name (get command "remote_session_lease_id"))
    then some "missing_remote_session_lease"
    else first_error
        (allowlist_error (get_or policy "allowed_lease_ids" (arr nil))
          (as_str (get command "remote_session_lease_id")) "mirror_policy_bad_lease_ids"
          "mirror_lease_not_allowed")
        (allowlist_error (get_or policy "allowed_command_kinds" (arr nil)) (some kind)
          "mirror_policy_bad_command_kinds" "mirror_kind_not_allowed")

module _ (lib : Stdlib) where
  unfoldable pub validate_mirror_command_ttl : Fields → Fields → Result (Option String)
  unfolding parse_time
  validate_mirror_command_ttl policy command =
      if is_null (get policy "max_command_ttl_seconds")
      then ok none
      else if not (is_positive (get policy "max_command_ttl_seconds"))
      then ok (some "mirror_policy_bad_ttl")
      else if not (is_str (get command "issued_at") && is_str (get command "expires_at"))
      then ok (some "mirror_ttl_invalid")
      else bad_ttl (
          parse_time lib (text (get command "expires_at")) >>= λ expires.
          parse_time lib (text (get command "issued_at")) >>= λ issued.
          ttl_error (count_of (get policy "max_command_ttl_seconds")) issued expires)

  unfoldable pub policy_error : Fields → Fields → Fields → String → Result (Option String)
  unfolding binding_error validate_mirror_command_ttl device_error
  policy_error config policy command kind = elim (binding_error policy command kind) [
    | some code ↦ ok (some code)
    | none ↦
        map_result (λ code. first_error code (device_error config policy command kind))
          (validate_mirror_command_ttl policy command)
  ]

  unfoldable pub validate_mirror_binding_policy : Fields → Fields → String → Result (Option String)
  unfolding mirror_binding policy_error
  validate_mirror_binding_policy config command kind =
      let mirrored = is_text (get command "origin") "mirror" in
      if not mirrored
        && (is_null (get command "source_agent_id") && is_null (get command "mirror_intent_id"))
      then ok none
      else if not mirrored
      then ok (some "mirror_origin_missing")
      else if not (is_name (get command "source_agent_id"))
      then ok (some "mirror_source_missing")
      else if not (is_name (get command "mirror_intent_id"))
      then ok (some "mirror_intent_missing")
      else elim (mirror_binding config (text (get command "source_agent_id"))) [
        | none ↦ ok (some "mirror_source_not_allowed")
        | some policy ↦ policy_error config policy command kind
      ]
