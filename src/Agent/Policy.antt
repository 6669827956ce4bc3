-- ===== src/Agent/Policy.antt =====
-- The remote session leases of scripts/termux_fleet_agent.py. `now` is the clock's reading.
use quest_termux_lab.Base.{
  Bool, List, Option, String, [], all, any, false, if◌then◌else◌, member, none, not, some, true,
  ◌&&◌, ◌||◌, ◌∷◌,
}
use quest_termux_lab.Fleet.Payload.{passive_command_kinds}
use quest_termux_lab.Py.Dict.{get, get_or, py_eq}
use quest_termux_lab.Py.Result.{Result, err, ok, value_error, ◌>>=◌}
use quest_termux_lab.Py.Stdlib.{Stdlib, from_iso}
use quest_termux_lab.Py.Text.{drop_last, ends_with, ◌+ₛ◌}
use quest_termux_lab.Py.Time.{DateTime, at_most}
use quest_termux_lab.Py.Value.{
  Fields, Value, arr, as_str, end, field, is_false, is_name, is_null, is_str, is_text, nil, obj,
  text, to_list, truthy,
}

unfoldable pub dicts_in : List Value → List Fields
dicts_in [] = []
dicts_in (obj d ∷ vs) = d ∷ dicts_in vs
dicts_in (_ ∷ vs) = dicts_in vs

abbrev pub field_values : Fields → List Value
field_values end = []
field_values (field k v d) = v ∷ field_values d

unfoldable pub configured_remote_session_leases : Fields → List Fields
unfolding dicts_in
configured_remote_session_leases config =
    elim (get_or config "active_remote_session_leases" (arr nil)) [
      | obj d ↦ dicts_in (field_values d)
      | arr vs ↦ dicts_in (to_list vs)
      | _ ↦ []
    ]

-- matching[0]
unfoldable pub matching_lease : String → List Fields → Option Fields
matching_lease lease_id [] = none
matching_lease lease_id (lease ∷ rest) =
    if is_text (get lease "lease_id") lease_id then some lease else matching_lease lease_id rest

-- `v in (None, own)`
abbrev pub unset_or : Value → Value → Bool
unset_or v own = is_null v || py_eq v own

-- a list of texts
abbrev pub text_list : Value → Bool
text_list (arr vs) = all is_str (to_list vs)
text_list _ = false

abbrev pub members : Value → List Value
members (arr vs) = to_list vs
members _ = []

abbrev pub lists_text : String → List Value → Bool
lists_text name vs = any (λ v. is_text v name) vs

-- The end of validate_remote_session_lease, after the test of the expiry.
unfoldable pub scope_error : Fields → Fields → String → Option String
scope_error lease command kind =
    let scopes = get_or lease "command_scopes" (arr nil) in
    if not (text_list scopes)
    then some "remote_session_lease_bad_scopes"
    else if not (lists_text "*" (members scopes) || lists_text kind (members scopes))
    then some "remote_session_lease_scope_denied"
    else if truthy (get command "requires_local_adb_shell")
        && is_false (get lease "requires_local_adb_shell")
    then some "remote_session_lease_disallows_adb"
    else none

abbrev pub caught : Result Bool → Option String → Option String → Result (Option String)
caught (ok true) expired rest = ok expired
caught (ok false) expired rest = ok rest
caught (err (value_error message)) expired rest = ok (some "remote_session_lease_bad_expiry")
caught (err e) expired rest = err e

module _ (lib : Stdlib) where
  -- parse_time
  unfoldable pub parse_time : String → Result DateTime
  parse_time value =
      from_iso lib (if ends_with b'Z' value then drop_last value +ₛ "+00:00" else value)

  unfoldable pub passed : DateTime → String → Result Bool
  unfolding parse_time
  passed now expires_at = parse_time expires_at >>= λ expires. at_most expires now

  -- The tests of a matching lease.
  unfoldable pub lease_error : DateTime → Fields → Fields → Fields → String → Result (Option String)
  unfolding passed scope_error
  lease_error now config lease command kind =
      if truthy (get lease "revoked")
      then ok (some "remote_session_lease_revoked")
      else if not (unset_or (get lease "fleet_id") (get config "fleet_id"))
      then ok (some "remote_session_lease_wrong_fleet")
      else if not (unset_or (get lease "agent_id") (get config "agent_id"))
      then ok (some "remote_session_lease_wrong_agent")
      else elim (as_str (get lease "expires_at")) [
        | none ↦ ok (some "remote_session_lease_missing_expiry")
        | some expires_at ↦
            caught (passed now expires_at) (some "remote_session_lease_expired")
              (scope_error lease command kind)
      ]

  unfoldable pub found_lease_error :
      DateTime → Fields → Fields → String → Option Fields → Result (Option String)
  unfolding lease_error
  found_lease_error now config command kind none = ok (some "remote_session_lease_inactive")
  found_lease_error now config command kind (some lease) = lease_error now config lease command kind

  unfoldable pub validate_remote_session_lease :
      DateTime → Fields → Fields → String → Result (Option String)
  unfolding configured_remote_session_leases matching_lease found_lease_error
  validate_remote_session_lease now config command kind =
      if member kind passive_command_kinds
      then ok none
      else if not (is_name (get command "remote_session_lease_id"))
      then ok (some "missing_remote_session_lease")
      else found_lease_error now config command kind (
          matching_lease (text (get command "remote_session_lease_id"))
            (configured_remote_session_leases config))
