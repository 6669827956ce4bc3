-- ===== src/Fleet/Polling.antt =====
-- Agents that poll the controller of tools/fleet_control_plane.py get an answer.
use quest_termux_lab.Base.{All, List, Option, String, [], ap, none, refl, some, ◌∙◌, ◌∷◌, ◌≡◌}
use quest_termux_lab.Fleet.Commands.{answer_next, next_command, queue_of, set_queue}
use quest_termux_lab.Fleet.Invariant.{AllReadable}
use quest_termux_lab.Fleet.Next.{next_command-run, sweep-runs, swept_queue}
use quest_termux_lab.Fleet.Session.{
  Request, answered, error_status, handle, operation, poll, post_lease, replay, reply,
}
use quest_termux_lab.Fleet.State.{Env, FleetState, initial, pure, read_clock, utc_now, ◌>>=◌}
use quest_termux_lab.Fleet.Trace.{Respects, replay-Sound}
use quest_termux_lab.Py.Dict.{Table}
use quest_termux_lab.Py.Result.{ok}
use quest_termux_lab.Py.Value.{Fields}

module _ (env : Env) where
  abbrev AnyLeases : Table Fields → Type 0
  AnyLeases t = Unit {0}

  answer_next-runs :
      (agent_id : String) (o : Option Fields) (s : FleetState)
      → (d : Fields) × ((answer_next env agent_id o s).0 ≡ ok d)
  unfolding answer_next ◌>>=◌ utc_now read_clock pure
  answer_next-runs agent_id (some command) s = (command, refl)
  answer_next-runs agent_id none s = (_, refl)

  next_command-runs :
      (agent_id : String) (s : FleetState)
      → AllReadable env s
      → (d : Fields) × ((next_command env agent_id s).0 ≡ ok d)
  next_command-runs agent_id s readable =
      let queue = queue_of s agent_id in
      let (r, done, kept) =
        sweep-runs env agent_id none queue (set_queue agent_id queue s) (readable agent_id) in
      let (d, returned) =
        answer_next-runs agent_id r.0 (set_queue agent_id r.1 (swept_queue env agent_id s).1) in
      (d, ap (λ p. p.0) (next_command-run env agent_id s r done) ∙ returned)

  one-Respects : (request : Request) → Respects env AnyLeases (λ t i l n b u. tt) request
  one-Respects (post_lease payload) = λ t u. tt
  one-Respects _ = tt

  any-Respects :
      (requests : List Request) → All (Respects env AnyLeases (λ t i l n b u. tt)) requests
  any-Respects [] = tt
  any-Respects (request ∷ requests) = (one-Respects request, any-Respects requests)

  -- Whatever requests the controller has served from its initial state, and whatever they raised, a
  -- poll of any agent is answered with status 200: no expiry in a queue can make it raise.
  pub replay-answered :
      (requests : List Request) (agent_id : String)
      → (body : Fields) × ((handle env (poll agent_id) (replay env requests initial)).0
          ≡ answered 200 body)
  unfolding handle operation error_status reply
  replay-answered requests agent_id =
      let sound =
        replay-Sound env AnyLeases (λ t i l n b u. tt) requests initial (any-Respects requests)
          (λ a. tt, tt) in
      let (d, returned) = next_command-runs agent_id (replay env requests initial) sound.0 in
      (d, rw returned refl)
