-- ===== src/Fleet/Trace.antt =====
-- What holds after any run of requests to the controller of tools/fleet_control_plane.py.
use Prim.Native.Char.{code}
use mathlib.Core.Path.{subst}
use quest_termux_lab.Base.{All, List, Option, String, [], inl, inr, none, some, sym, ◌∷◌, ◌≡◌, ◌⊎◌}
use quest_termux_lab.Fleet.Intents.{
  after_expiry, after_queueing, after_validation, create_mirror_lease, forward_intent, judge_intent,
  new_lease, revoke_found, revoke_mirror_lease, revoked_lease, submit_mirror_intent,
  submit_new_intent, try_queue,
}
use quest_termux_lab.Fleet.Invariant.{Sound, Sound-Quiet, next_command-Keeps, queue_command-Keeps}
use quest_termux_lab.Fleet.Keeps.{
  Keeps, Quiet, bind-Keeps, bind_result-Keeps, check-Keeps, gets-Keeps, keeps, lift-Keeps,
  modify-Keeps, require_bool-Keeps, require_text-Keeps, require_text-text, require_text_list-Keeps,
}
use quest_termux_lab.Fleet.Mirror.{mirror_intent_to_fleet_command, set_lease}
use quest_termux_lab.Fleet.Quiet.{
  append_log-Keeps, expiry_message-Keeps, record_heartbeat-Keeps, record_intent-Keeps,
  record_result-Keeps, reject_mirror_intent-Keeps, require_future_expiry-Keeps, response-Keeps,
  utc_now-Keeps, validate_mirror_lease_for_intent-Keeps,
}
use quest_termux_lab.Fleet.Replies.{
  mirror_intent_status-Keeps, mirror_session_events-Keeps, reply-kept, summary-Keeps,
}
use quest_termux_lab.Fleet.Session.{
  Request, error_status, get_events, get_intent, get_summary, handle, operation, poll, post_command,
  post_heartbeat, post_intent, post_lease, post_result, post_revoke, replay,
}
use quest_termux_lab.Fleet.State.{Env, FleetState, modify}
use quest_termux_lab.Py.Dict.{Table, get, insert}
use quest_termux_lab.Py.Value.{Fields, Value, text}

module _ (env : Env) (R : Table Fields → Type 0)
    (revoking : (t : Table Fields) (id : String) (lease : Fields) (now : String)
        (revoked_by : Value)
      → R t
      → R (insert t id (revoked_lease lease now revoked_by))) where
  abbrev P : FleetState → Type 0
  P s = Sound env R s

  quiet : Quiet P
  quiet = Sound-Quiet env R

  try_queue-Keeps : (command : Fields) → Keeps P (try_queue env command)
  unfolding try_queue
  try_queue-Keeps command = search (keeps, queue_command-Keeps env R) depth 12

  mirror_intent_to_fleet_command-Keeps :
      (intent : Fields) → Keeps P (mirror_intent_to_fleet_command env intent)
  unfolding mirror_intent_to_fleet_command
  mirror_intent_to_fleet_command-Keeps intent = search (keeps) depth 20

  after_queueing-Keeps :
      (payload : Fields) (id lease_id : String) (command : Fields) (r : Fields ⊎ String)
      → Keeps P (after_queueing env payload id lease_id command r)
  unfolding after_queueing
  after_queueing-Keeps payload id lease_id command (inl answer) =
      record_intent-Keeps env quiet payload id lease_id _ _
  after_queueing-Keeps payload id lease_id command (inr message) =
      reject_mirror_intent-Keeps env quiet payload _ message

  after_validation-Keeps :
      (payload : Fields) (id lease_id : String) (o : Option String)
      → Keeps P (after_validation env payload id lease_id o)
  unfolding after_validation forward_intent
  after_validation-Keeps payload id lease_id (some code) =
      reject_mirror_intent-Keeps env quiet payload code _
  after_validation-Keeps payload id lease_id none =
      bind-Keeps (mirror_intent_to_fleet_command-Keeps payload) λ command.
        bind-Keeps (try_queue-Keeps command) λ r. after_queueing-Keeps payload id lease_id command r

  judge_intent-Keeps :
      (payload : Fields) (id lease_id : String) (o : Option Fields)
      → Keeps P (judge_intent env payload id lease_id o)
  unfolding judge_intent
  judge_intent-Keeps payload id lease_id none = reject_mirror_intent-Keeps env quiet payload _ _
  judge_intent-Keeps payload id lease_id (some lease) =
      bind-Keeps (validate_mirror_lease_for_intent-Keeps env quiet lease payload)
        λ o. after_validation-Keeps payload id lease_id o

  after_expiry-Keeps :
      (payload : Fields) (id lease_id : String) (o : Option String)
      → Keeps P (after_expiry env payload id lease_id o)
  unfolding after_expiry
  after_expiry-Keeps payload id lease_id (some message) =
      reject_mirror_intent-Keeps env quiet payload _ message
  after_expiry-Keeps payload id lease_id none =
      bind-Keeps (gets-Keeps _) λ found. judge_intent-Keeps payload id lease_id found

  submit_new_intent-Keeps :
      (payload : Fields) (id : String) (o : Option Fields)
      → Keeps P (submit_new_intent env payload id o)
  unfolding submit_new_intent
  submit_new_intent-Keeps payload id (some existing) = response-Keeps env quiet _ _
  submit_new_intent-Keeps payload id none =
      search (keeps, expiry_message-Keeps env quiet, after_expiry-Keeps) depth 12

  submit_mirror_intent-Keeps : (payload : Fields) → Keeps P (submit_mirror_intent env payload)
  unfolding submit_mirror_intent
  submit_mirror_intent-Keeps payload = search (keeps, submit_new_intent-Keeps) depth 12

  set_revoked-Keeps :
      (lease_id : String) (lease : Fields) (now : String) (revoked_by : Value)
      → Keeps P (modify (set_lease lease_id (revoked_lease lease now revoked_by)))
  unfolding set_lease
  set_revoked-Keeps lease_id lease now revoked_by =
      modify-Keeps _ λ s p. (p.0, revoking s.mirror_leases lease_id lease now revoked_by p.1)

  revoke_found-Keeps :
      (lease_id : String) (payload : Fields) (o : Option Fields)
      → Keeps P (revoke_found env lease_id payload o)
  unfolding revoke_found
  revoke_found-Keeps lease_id payload none = lift-Keeps _
  revoke_found-Keeps lease_id payload (some lease) = bind-Keeps (utc_now-Keeps env quiet) λ now.
      bind-Keeps (set_revoked-Keeps lease_id lease now (get payload "revoked_by"))
        λ _. bind-Keeps (append_log-Keeps env quiet _ _) λ _. response-Keeps env quiet _ _

  pub revoke_mirror_lease-Keeps :
      (lease_id : String) (payload : Fields) → Keeps P (revoke_mirror_lease env lease_id payload)
  unfolding revoke_mirror_lease
  revoke_mirror_lease-Keeps lease_id payload = search (keeps, revoke_found-Keeps) depth 12

  -- The lease that the payload asks for may be stored.
  abbrev pub MayStore : Fields → Type 0
  MayStore payload =
      (t : Table Fields) → R t → R (insert t (text (get payload "lease_id")) (new_lease payload))

  set_new-Keeps :
      (payload : Fields)
      → MayStore payload
      → (id : String) → id ≡ text (get payload "lease_id")
      → Keeps P (modify (set_lease id (new_lease payload)))
  unfolding set_lease
  set_new-Keeps payload storing id e = modify-Keeps _ λ s p. (
    p.0,
    subst (λ i. R (insert s.mirror_leases i (new_lease payload))) (sym e)
        (storing s.mirror_leases p.1),
  )

  create_mirror_lease-Keeps :
      (payload : Fields) → MayStore payload → Keeps P (create_mirror_lease env payload)
  unfolding create_mirror_lease
  create_mirror_lease-Keeps payload storing = bind-Keeps (check-Keeps _ _) λ _.
      bind_result-Keeps (require_text-Keeps payload "lease_id")
        (λ s id e. require_text-text payload "lease_id" s e)
        λ id e. bind-Keeps (require_text-Keeps _ _) λ _. bind-Keeps (require_text-Keeps _ _) λ _.
          bind-Keeps (require_text-Keeps _ _) λ _. bind-Keeps (check-Keeps _ _) λ _.
            bind-Keeps (require_text-Keeps _ _) λ _. bind-Keeps (require_text-Keeps _ _) λ _.
              bind-Keeps (require_text-Keeps _ _) λ _. bind-Keeps (require_bool-Keeps _ _) λ _.
                bind-Keeps (require_bool-Keeps _ _) λ _.
                  bind-Keeps (require_future_expiry-Keeps env quiet _ _) λ _.
                    bind-Keeps (require_text_list-Keeps _ _) λ _. bind-Keeps (check-Keeps _ _) λ _.
                      bind-Keeps (set_new-Keeps payload storing id e) λ _.
                        bind-Keeps (append_log-Keeps env quiet _ _)
                          λ _. response-Keeps env quiet _ _

  -- The request stores a lease only if `R` survives it.
  abbrev pub Respects : Request → Type 0
  Respects (post_lease payload) = MayStore payload
  Respects _ = Unit

  operation-Keeps : (request : Request) → Respects request → Keeps P (operation env request)
  unfolding operation
  operation-Keeps get_summary h = summary-Keeps env quiet
  operation-Keeps (get_intent id) h = mirror_intent_status-Keeps env quiet id
  operation-Keeps (get_events id) h = mirror_session_events-Keeps env quiet id
  operation-Keeps (poll agent_id) h = next_command-Keeps env R agent_id
  operation-Keeps (post_heartbeat payload) h = record_heartbeat-Keeps env quiet payload
  operation-Keeps (post_command payload) h = queue_command-Keeps env R payload
  operation-Keeps (post_result payload) h = record_result-Keeps env quiet payload
  operation-Keeps (post_lease payload) h = create_mirror_lease-Keeps payload h
  operation-Keeps (post_intent payload) h = submit_mirror_intent-Keeps payload
  operation-Keeps (post_revoke id payload) h = revoke_mirror_lease-Keeps id payload

  pub handle-Sound :
      (request : Request) (s : FleetState) → Respects request → P s → P (handle env request s).1
  unfolding handle
  handle-Sound request s h p =
      reply-kept env quiet (error_status request) _ _ ((operation-Keeps request h).run s p)

  pub replay-Sound :
      (requests : List Request) (s : FleetState)
      → All Respects requests
      → P s
      → P (replay env requests s)
  unfolding replay
  replay-Sound [] s h p = p
  replay-Sound (request ∷ requests) s (h, hs) p =
      replay-Sound requests (handle env request s).1 hs (handle-Sound request s h p)
