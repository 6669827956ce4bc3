-- ===== src/Fleet/Session.antt =====
-- The requests that FleetHandler of tools/fleet_control_plane.py routes, one after the other. A
-- request stands for its route, its path's identifier and its JSON body.
use quest_termux_lab.Base.{List, Option, String, [], none, some, ℕ, ◌∷◌}
use quest_termux_lab.Fleet.Commands.{next_command, queue_command, record_heartbeat}
use quest_termux_lab.Fleet.Intents.{
  create_mirror_lease, record_result, revoke_mirror_lease, submit_mirror_intent,
}
use quest_termux_lab.Fleet.Report.{mirror_intent_status, mirror_session_events, summary}
use quest_termux_lab.Fleet.State.{Env, Exec, FleetState, response}
use quest_termux_lab.Py.Result.{Error, Result, err, ok, value_error}
use quest_termux_lab.Py.Value.{Fields, str}

pub data Request : Type 0 where
  get_summary : Request
  get_intent : String → Request
  get_events : String → Request
  poll : String → Request
  post_heartbeat : Fields → Request
  post_command : Fields → Request
  post_result : Fields → Request
  post_lease : Fields → Request
  post_intent : Fields → Request
  post_revoke : String → Fields → Request

-- What the client gets: a status with a body, or a dropped connection where the handler does not
-- catch the exception.
pub data Reply : Type 0 where
  answered : ℕ → Fields → Reply
  dropped : Error → Reply

-- The status that an `except ValueError` of the route sends, if it has one.
unfoldable pub error_status : Request → Option ℕ
error_status get_summary = none
error_status (get_intent id) = some 404
error_status (get_events id) = none
error_status (poll agent_id) = none
error_status _ = some 400

abbrev pub reply_with : ℕ → Result Fields × FleetState → Reply × FleetState
reply_with status (ok body, s) = (answered status body, s)
reply_with status (err e, s) = (dropped e, s)

module _ (env : Env) where
  unfoldable pub operation : Request → Exec Fields
  operation get_summary = summary env
  operation (get_intent id) = mirror_intent_status env id
  operation (get_events id) = mirror_session_events env id
  operation (poll agent_id) = next_command env agent_id
  operation (post_heartbeat payload) = record_heartbeat env payload
  operation (post_command payload) = queue_command env payload
  operation (post_result payload) = record_result env payload
  operation (post_lease payload) = create_mirror_lease env payload
  operation (post_intent payload) = submit_mirror_intent env payload
  operation (post_revoke lease_id payload) = revoke_mirror_lease env lease_id payload

  -- _send_error
  unfoldable pub send_error : ℕ → String → FleetState → Reply × FleetState
  send_error status message s =
      reply_with status (response env "error" (("error", str message) ∷ []) s)

  unfoldable pub reply : Option ℕ → Result Fields → FleetState → Reply × FleetState
  reply status (ok body) s = (answered 200 body, s)
  reply (some status) (err (value_error message)) s = send_error status message s
  reply status (err e) s = (dropped e, s)

  -- do_GET and do_POST, for a route that exists
  unfoldable pub handle : Request → FleetState → Reply × FleetState
  handle request s = let done = operation request s in reply (error_status request) done.0 done.1

  -- The state after a run of requests, from a state.
  unfoldable pub replay : List Request → FleetState → FleetState
  replay [] s = s
  replay (request ∷ requests) s = replay requests (handle request s).1
