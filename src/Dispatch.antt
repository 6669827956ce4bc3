-- ===== src/Dispatch.antt =====
-- tools/peer_mesh_dispatch_plan.py: which configured route a pending delivery would take. Reading
-- and writing files and the command line are left out.
pub mod Ready
mod Tests
use quest_termux_lab.Base.{
  List, Option, String, [], if◌then◌else◌, length, member, none, not, some, ◌&&◌, ◌==◌, ◌||◌, ◌∷◌,
}
use quest_termux_lab.Delivery.Update.{expire_pending, field_text}
use quest_termux_lab.Delivery.Validate.{require_texts, terminal_states, validate_state}
use quest_termux_lab.Gossip.Envelope.{contains_forbidden_key, gossip_schema, require_keys}
use quest_termux_lab.Py.Dict.{
  Table, array_or, check_members, count_text, get, insert, item, list_of, lookup, py_eq,
}
use quest_termux_lab.Py.Result.{
  Check, Result, err, guard, map_ok, ok, type_error, value_error, ◌>>=◌, ◌>>◌,
}
use quest_termux_lab.Py.Stdlib.{Stdlib, Url, is_some_text, or_text, text_of}
use quest_termux_lab.Py.Text.{◌+ₛ◌}
use quest_termux_lab.Py.Value.{
  Fields, Value, array, dict, is_name, is_one_of, is_text, nat, null, obj, str, text,
}

abbrev pub route_config_schema : String
route_config_schema = "quest-termux-lab.peer-route-config.v1"

abbrev pub dispatch_plan_schema : String
dispatch_plan_schema = "quest-termux-lab.peer-dispatch-plan.v1"

abbrev pub transport_modes : List String
transport_modes = "file_drop_simulator" ∷ "loopback_http_simulator" ∷ "disabled" ∷ []

abbrev pub dispatch_decisions : List String
dispatch_decisions =
    "ready" ∷ "skipped_terminal" ∷ "expired" ∷ "missing_route" ∷ "route_disabled" ∷ []

abbrev pub is_loopback : Option Url → Check
is_loopback none = err (value_error "Invalid URL")
is_loopback (some url) =
    guard (url.scheme == "http" && is_some_text url.hostname "127.0.0.1")
      (value_error "loopback route must use http://127.0.0.1")

abbrev pub dispatch_boundary : List Value
dispatch_boundary =
    str "Dispatch plans describe intended gossip delivery only."
    ∷ str
        "Dispatch plans do not carry gossip bodies, commands, shell text, ADB targets, pairing material, install requests, or launch requests."
    ∷ str "This simulator does not open sockets, copy files, discover peers, or send gossip."
    ∷ []

-- The transport, its target and its method in an entry, for the route that was found.
pub record Transport : Type 0 where
  pub mode : String
  pub target : Value
  pub method : String

unfoldable pub transport : Option Fields → Result Transport
transport none = ok (record { mode = "none"; target = null; method = "none" })
transport (some route) =
    let mode = text (get route "transport_mode") in
    if mode == "loopback_http_simulator"
    then (item route "gossip_endpoint" >>= λ target.
        ok (record { mode = mode; target = target; method = "post_gossip" }))
    else if mode == "file_drop_simulator"
    then (item route "target_inbox_dir" >>= λ target.
        ok (record { mode = mode; target = target; method = "copy_envelope" }))
    else ok (record { mode = mode; target = null; method = "none" })

unfoldable pub dispatch_entry : Fields → String → Option Fields → Value → Result Value
unfolding transport
dispatch_entry delivery decision route reason = do
  guard (member decision dispatch_decisions) (value_error "unsupported dispatch decision")
  t ← transport route
  ok (
      obj (
        dict (
          ("delivery_id", get delivery "delivery_id")
          ∷ ("target_agent_id", get delivery "target_agent_id")
          ∷ ("message_id", get delivery "message_id")
          ∷ ("delivery_state", get delivery "state")
          ∷ ("decision", str decision)
          ∷ ("transport_mode", str t.mode)
          ∷ ("method", str t.method)
          ∷ ("route_target", t.target)
          ∷ ("message_schema", str gossip_schema)
          ∷ ("attempt_count", get delivery "attempt_count")
          ∷ ("expires_at", get delivery "expires_at")
          ∷ ("reason", reason)
          ∷ [])))

-- The branches for a pending delivery.
unfoldable pub routed : Option Fields → String × Option Fields × Value
routed none = ("missing_route", none, str "no configured route for target")
routed (some r) =
    if is_text (get r "transport_mode") "disabled"
    then ("route_disabled", some r, str "route disabled")
    else ("ready", some r, null)

-- The branches of the loop of build_dispatch_plan: the decision, the route that the entry shows,
-- and the reason.
unfoldable pub decide : Fields → Option Fields → String × Option Fields × Value
unfolding routed
decide delivery route =
    if is_text (get delivery "state") "expired"
    then ("expired", route, str "delivery expired")
    else if is_one_of (get delivery "state") terminal_states
    then ("skipped_terminal", route, str "delivery already terminal")
    else routed route

module _ (lib : Stdlib) where
  unfoldable pub validate_relative_path : String → String → Check
  validate_relative_path value label =
      guard (not (lib.is_absolute value || member ".." (lib.path_parts value)))
        (value_error (label +ₛ " must be relative and stay inside the run root"))

  -- The part of a route's validation that depends on its transport.
  unfoldable pub validate_transport : Fields → Check
  unfolding validate_relative_path
  validate_transport route = do
    guard (is_one_of (get route "transport_mode") transport_modes)
        (value_error "unsupported transport_mode")
    (if is_text (get route "transport_mode") "loopback_http_simulator"
        then (guard (is_name (get route "gossip_endpoint"))
              (value_error "loopback route missing gossip_endpoint")
            >> is_loopback (lib.urlparse (text (get route "gossip_endpoint"))))
        else ok tt)
    if is_text (get route "transport_mode") "file_drop_simulator"
        then (guard (is_name (get route "target_inbox_dir"))
              (value_error "file-drop route missing target_inbox_dir")
            >> validate_relative_path (text (get route "target_inbox_dir")) "target_inbox_dir")
        else ok tt

  -- One round of the loop of validate_route_config, with the targets seen before.
  unfoldable pub validate_route : List String → Value → Result (List String)
  unfolding validate_transport require_texts
  validate_route seen (obj route) = do
    require_texts "route missing " ("target_agent_id" ∷ "transport_mode" ∷ []) route
    guard (not (is_one_of (get route "target_agent_id") seen))
        (value_error "duplicate target_agent_id in routes")
    validate_transport route
    ok (text (get route "target_agent_id") ∷ seen)
  validate_route seen _ = err (value_error "route must be an object")

  unfoldable pub validate_routes : List String → List Value → Check
  unfolding validate_route
  validate_routes seen [] = ok tt
  validate_routes seen (v ∷ vs) = validate_route seen v >>= λ seen'. validate_routes seen' vs

  unfoldable pub validate_route_config : Fields → Check
  unfolding validate_routes
  validate_route_config config = do
    guard (is_text (get config "schema") route_config_schema)
        (value_error "unsupported route config schema")
    guard (not (contains_forbidden_key (obj config)))
        (value_error "route config contains command-like or credential-like fields")
    require_keys "route config missing " ("fleet_id" ∷ "source_agent_id" ∷ "routes" ∷ []) config
    routes ← array_or (get config "routes") (value_error "routes must be an array")
    validate_routes [] routes

  unfoldable pub add_route : Table Fields → List Value → Table Fields
  add_route table [] = table
  add_route table (obj route ∷ vs) =
      add_route (insert table (text_of lib (get route "target_agent_id")) route) vs
  add_route table (_ ∷ vs) = add_route table vs

  -- route_by_target, over the routes of a valid configuration
  unfoldable pub route_by_target : List Value → Table Fields
  unfolding add_route
  route_by_target = add_route []

  -- One round of the loop of build_dispatch_plan.
  unfoldable pub plan_dispatch : Table Fields → Value → Result Value
  unfolding decide dispatch_entry
  plan_dispatch routes (obj delivery) =
      let route = lookup routes (text_of lib (get delivery "target_agent_id")) in
      let decided = decide delivery route in dispatch_entry delivery decided.0 decided.1 decided.2
  plan_dispatch routes _ = err type_error

  unfoldable pub summarize : List Value → Result Fields
  unfolding field_text
  summarize dispatches = do
    found ← map_ok (field_text lib "decision") dispatches
    check_members dispatch_decisions found
    ok (
        dict (
          ("dispatch_count", nat (length dispatches))
          ∷ ("ready_count", nat (count_text "ready" found))
          ∷ ("skipped_terminal_count", nat (count_text "skipped_terminal" found))
          ∷ ("expired_count", nat (count_text "expired" found))
          ∷ ("missing_route_count", nat (count_text "missing_route" found))
          ∷ ("route_disabled_count", nat (count_text "route_disabled" found))
          ∷ []))

  unfoldable pub build_dispatch_plan : String → Fields → Fields → Option String → Result Fields
  unfolding validate_route_config route_by_target plan_dispatch summarize
  build_dispatch_plan clock delivery_state route_config now_text = do
    validate_state delivery_state
    validate_route_config route_config
    guard (py_eq (get route_config "fleet_id") (get delivery_state "fleet_id"))
        (value_error "route config fleet_id mismatch")
    guard (py_eq (get route_config "source_agent_id") (get delivery_state "source_agent_id"))
        (value_error "route config source_agent_id mismatch")
    let observed_at = or_text now_text clock
    refreshed ← expire_pending lib clock delivery_state (some observed_at)
    configured ← list_of (get route_config "routes")
    let routes = route_by_target configured
    found ← item refreshed "deliveries"
    deliveries ← list_of found
    dispatches ← map_ok (plan_dispatch routes) deliveries
    counts ← summarize dispatches
    ok (
        dict (
          ("schema", str dispatch_plan_schema)
          ∷ ("fleet_id", get refreshed "fleet_id")
          ∷ ("source_agent_id", get refreshed "source_agent_id")
          ∷ ("observed_at", str observed_at)
          ∷ ("route_count", nat (length routes))
          ∷ ("dispatches", array dispatches)
          ∷ ("summary", obj counts)
          ∷ ("authority_boundary", array dispatch_boundary)
          ∷ []))
