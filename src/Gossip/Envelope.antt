-- ===== src/Gossip/Envelope.antt =====
-- The schemas, the forbidden fields, and what makes an envelope: the module's functions of that
-- name in tools/peer_mesh_gossip.py.
use quest_termux_lab.Base.{
  Bool, List, Option, String, [], any, false, if◌then◌else◌, none, not, some, true, ◌||◌, ◌∷◌,
}
use quest_termux_lab.Py.Dict.{get, get_or, has, item, keys, list_of, put}
use quest_termux_lab.Py.Result.{
  Check, Error, Result, each, err, guard, map_ok, ok, type_error, value_error, ◌>>=◌, ◌>>◌,
}
use quest_termux_lab.Py.Stdlib.{Stdlib, from_iso, int_of, or_text, text_of}
use quest_termux_lab.Py.Text.{drop_last, ends_with, lowers_to, ◌+ₛ◌}
use quest_termux_lab.Py.Time.{DateTime}
use quest_termux_lab.Py.Value.{
  Fields, Items, Value, arr, array, bool, cons, dict, end, field, int, is_pos, is_str, is_text,
  minus_one, nil, null, obj, or_null, str, to_list, truthy, ℤ,
}

abbrev pub gossip_schema : String
gossip_schema = "quest-termux-lab.peer-gossip-envelope.v1"

abbrev pub summary_schema : String
summary_schema = "quest-termux-lab.peer-mesh-summary.v1"

abbrev pub heartbeat_schema : String
heartbeat_schema = "quest-termux-lab.fleet-agent-heartbeat.v1"

abbrev pub forbidden_keys : List String
forbidden_keys =
    "adb_command" ∷ "adb_target" ∷ "apk_path" ∷ "command" ∷ "command_id" ∷ "install_request"
    ∷ "launch_request" ∷ "pairing_code" ∷ "payload" ∷ "shell" ∷ "shell_command" ∷ "token" ∷ []

-- key.lower() in FORBIDDEN_KEYS
unfoldable pub forbidden_key : String → Bool
forbidden_key key = any (λ f. lowers_to key f) forbidden_keys

unfoldable mutual
  pub contains_forbidden_key : Value → Bool
  contains_forbidden_key (obj d) = forbidden_in_fields d
  contains_forbidden_key (arr vs) = forbidden_in_items vs
  contains_forbidden_key _ = false

  pub forbidden_in_items : Items → Bool
  forbidden_in_items nil = false
  forbidden_in_items (cons v vs) = contains_forbidden_key v || forbidden_in_items vs

  pub forbidden_in_fields : Fields → Bool
  forbidden_in_fields end = false
  forbidden_in_fields (field k v d) =
      forbidden_key k || (contains_forbidden_key v || forbidden_in_fields d)

-- `for key in keys: if key not in d: raise ValueError(prefix + key)`
unfoldable pub require_keys : String → List String → Fields → Check
require_keys prefix keys d = each (λ key. guard (has d key) (value_error (prefix +ₛ key))) keys

abbrev pub observation_keys : List String
observation_keys =
    "agent_id" ∷ "observed_at" ∷ "heard_from_agent_id" ∷ "heartbeat_sequence" ∷ "agent_alive"
    ∷ "central_reachable" ∷ "local_adb_available" ∷ "stale_after_seconds" ∷ []

unfoldable pub validate_observation : Value → Check
unfolding require_keys
validate_observation (obj d) = require_keys "observation missing " observation_keys d
validate_observation _ = err (value_error "observation must be an object")

unfoldable pub nonempty_list : Value → Error → Result (List Value)
nonempty_list (arr nil) e = err e
nonempty_list (arr vs) e = ok (to_list vs)
nonempty_list _ e = err e

unfoldable pub validate_envelope : Fields → Check
unfolding validate_observation nonempty_list
validate_envelope payload = do
  guard (is_text (get payload "schema") gossip_schema) (value_error "unsupported gossip schema")
  guard (not (contains_forbidden_key (obj payload)))
      (value_error "gossip envelope contains command-like or credential-like fields")
  guard (is_str (get payload "fleet_id")) (value_error "missing fleet_id")
  guard (is_str (get payload "sender_agent_id")) (value_error "missing sender_agent_id")
  observations ← nonempty_list (get payload "observations") (value_error "missing observations")
  each validate_observation observations

abbrev pub heartbeat_keys : List String
heartbeat_keys =
    "fleet_id" ∷ "agent_id" ∷ "sequence" ∷ "observed_at" ∷ "central_reachable" ∷ "local_adb" ∷ []

-- The test for forbidden fields at the end returns in either case.
unfoldable pub validate_heartbeat : Fields → Check
unfolding require_keys
validate_heartbeat payload = do
  guard (is_text (get payload "schema") heartbeat_schema)
      (value_error "unsupported heartbeat schema")
  require_keys "heartbeat missing " heartbeat_keys payload

-- `v if isinstance(v, str) else None`, and for int
abbrev pub if_text : Value → Value
if_text (str s) = str s
if_text _ = null

abbrev pub if_int : Value → Value
if_int (int z) = int z
if_int (bool b) = bool b
if_int _ = null

unfoldable pub dict_or : Value → Error → Result Fields
dict_or (obj d) e = ok d
dict_or _ e = err e

abbrev pub gossip_boundary : List Value
gossip_boundary =
    str "Peer gossip carries status observations only."
    ∷ str
        "Peer gossip does not carry commands, shell text, ADB targets, pairing material, or install/launch authority."
    ∷ str "Central direct ADB remains the recovery and privileged truth-check route."
    ∷ []

-- One round of the loop of relay_envelope: dict(observation), with the sender put in.
unfoldable pub heard_from : String → Value → Result Value
heard_from sender (obj d) = ok (obj (put d "heard_from_agent_id" (str sender)))
heard_from sender _ = err type_error

-- The envelope that relay_envelope makes.
unfoldable pub relayed_fields :
    String → String → String → Value → ℤ → List Value → List Value → Fields
relayed_fields now sender message_id fleet_id hop_ttl observations boundary = dict (
    ("schema", str gossip_schema)
    ∷ ("fleet_id", fleet_id)
    ∷ ("message_id", str message_id)
    ∷ ("sender_agent_id", str sender)
    ∷ ("created_at", str now)
    ∷ ("hop_ttl", int hop_ttl)
    ∷ ("observations", array observations)
    ∷ ("authority_boundary", array boundary)
    ∷ [])

module _ (lib : Stdlib) where
  -- parse_time
  unfoldable pub parse_time : String → Result DateTime
  parse_time value =
      from_iso lib (if ends_with b'Z' value then drop_last value +ₛ "+00:00" else value)

  unfoldable pub observation_from_heartbeat :
      Fields → Option String → ℤ → Option String → Result Fields
  unfolding validate_heartbeat dict_or
  observation_from_heartbeat heartbeat heard_by stale_after summary_hash = do
    validate_heartbeat heartbeat
    local_adb ←
        dict_or (get heartbeat "local_adb") (value_error "heartbeat local_adb must be an object")
    agent ← item heartbeat "agent_id"
    observed_at ← item heartbeat "observed_at"
    sequence ← item heartbeat "sequence"
    sequence_number ← int_of lib sequence
    reachable ← item heartbeat "central_reachable"
    let agent_id = text_of lib agent
    ok (
        dict (
          ("agent_id", str agent_id)
          ∷ ("observed_at", str (text_of lib observed_at))
          ∷ ("heard_from_agent_id", str (or_text heard_by agent_id))
          ∷ ("heartbeat_sequence", int sequence_number)
          ∷ ("agent_alive", bool true)
          ∷ ("central_reachable", bool (truthy reachable))
          ∷ ("local_adb_available", bool (truthy (get_or local_adb "available" (bool false))))
          ∷ ("local_adb_shell_uid", if_text (get local_adb "shell_uid"))
          ∷ ("battery_percent", if_int (get heartbeat "battery_percent"))
          ∷ ("last_command_status", if_text (get heartbeat "last_command_status"))
          ∷ ("stale_after_seconds", int stale_after)
          ∷ ("summary_hash", or_null summary_hash)
          ∷ []))

  -- `now` is what utc_now() returns.
  unfoldable pub envelope_from_heartbeat : String → Fields → String → String → ℤ → ℤ → Result Fields
  unfolding observation_from_heartbeat validate_envelope
  envelope_from_heartbeat now heartbeat sender message_id hop_ttl stale_after = do
    observation ← observation_from_heartbeat heartbeat (some sender) stale_after none
    fleet_id ← item heartbeat "fleet_id"
    let envelope = dict (
        ("schema", str gossip_schema)
        ∷ ("fleet_id", str (text_of lib fleet_id))
        ∷ ("message_id", str message_id)
        ∷ ("sender_agent_id", str sender)
        ∷ ("created_at", str now)
        ∷ ("hop_ttl", int hop_ttl)
        ∷ ("observations", array (obj observation ∷ []))
        ∷ ("authority_boundary", array gossip_boundary)
        ∷ [])
    validate_envelope envelope
    ok envelope

  unfoldable pub relay_envelope : String → Fields → String → String → Result Fields
  unfolding validate_envelope heard_from relayed_fields
  relay_envelope now envelope sender message_id = do
    validate_envelope envelope
    ttl ← item envelope "hop_ttl"
    hop_ttl ← int_of lib ttl
    guard (is_pos hop_ttl) (value_error "cannot relay envelope with hop_ttl <= 0")
    observations ← item envelope "observations"
    entries ← list_of observations
    updated ← map_ok (heard_from sender) entries
    fleet_id ← item envelope "fleet_id"
    boundary ← item envelope "authority_boundary"
    boundary_list ← list_of boundary
    let relayed =
        relayed_fields now sender message_id fleet_id (minus_one hop_ttl) updated boundary_list
    validate_envelope relayed
    ok relayed
