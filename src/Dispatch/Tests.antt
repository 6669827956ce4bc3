-- ===== src/Dispatch/Tests.antt =====
-- The theorem on tools/peer_mesh_dispatch_plan.py at a concrete state.
use quest_termux_lab.Base.{String, [], none, refl, true, ◌∷◌, ◌≡◌}
use quest_termux_lab.Delivery.Update.{expire_pending}
use quest_termux_lab.Delivery.Validate.{delivery_state_schema, validate_state}
use quest_termux_lab.Dispatch.{build_dispatch_plan, route_config_schema}
use quest_termux_lab.Dispatch.Ready.{HasGrounded, build_dispatch_plan-HasGrounded}
use quest_termux_lab.Gossip.Envelope.{
  contains_forbidden_key, forbidden_key, parse_time, require_keys,
}
use quest_termux_lab.Py.Dict.{insert, put, py_eq}
use quest_termux_lab.Py.Result.{Result, is_ok, value_of}
use quest_termux_lab.Py.Sample.{future_text, past_text, sample_lib}
use quest_termux_lab.Py.Value.{Fields, Value, array, dict, nat, obj, str}

abbrev delivery_to : String → String → Value
delivery_to id target = obj (
    dict (
      ("delivery_id", str id)
      ∷ ("target_agent_id", str target)
      ∷ ("message_id", str "m1")
      ∷ ("state", str "pending")
      ∷ ("created_at", str past_text)
      ∷ ("expires_at", str future_text)
      ∷ ("attempt_count", nat 0)
      ∷ []))

abbrev dispatch_state : Fields
dispatch_state = dict (
    ("schema", str delivery_state_schema)
    ∷ ("fleet_id", str "f1")
    ∷ ("source_agent_id", str "a1")
    ∷ ("observed_at", str past_text)
    ∷ ("deliveries", array (delivery_to "d1" "a2" ∷ delivery_to "d2" "a3" ∷ []))
    ∷ [])

abbrev dispatch_config : Fields
dispatch_config = dict (
    ("schema", str route_config_schema)
    ∷ ("fleet_id", str "f1")
    ∷ ("source_agent_id", str "a1")
    ∷ (
      "routes",
      array (
          obj (
            dict (
              ("target_agent_id", str "a2")
              ∷ ("transport_mode", str "file_drop_simulator")
              ∷ ("target_inbox_dir", str "inbox")
              ∷ []))
          ∷ []),
    )
    ∷ [])

abbrev planned : Result Fields
planned = build_dispatch_plan sample_lib past_text dispatch_state dispatch_config none

plan_made : is_ok planned ≡ true
unfolding build_dispatch_plan contains_forbidden_key forbidden_key py_eq validate_state require_keys
    expire_pending parse_time put insert
plan_made = refl

build_dispatch_plan-HasGrounded_example :
    HasGrounded sample_lib dispatch_config (value_of planned plan_made)
unfolding build_dispatch_plan contains_forbidden_key forbidden_key py_eq validate_state require_keys
    expire_pending parse_time put insert
build_dispatch_plan-HasGrounded_example =
    build_dispatch_plan-HasGrounded sample_lib past_text dispatch_state dispatch_config
      (value_of planned plan_made) none refl
