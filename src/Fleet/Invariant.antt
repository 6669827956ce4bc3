-- ===== src/Fleet/Invariant.antt =====
-- What every operation of the controller of tools/fleet_control_plane.py keeps: the queued commands'
-- expiries are readable, and `R` holds of the leases, where `R` is a property that a revocation
-- keeps.
use mathlib.Core.Path.{subst}
use quest_termux_lab.Base.{
  All, Bool, Bool-cases, List, Option, String, [], false, inl, inr, none, some, sym, true, ◌++◌,
  ◌==◌, ◌∙◌, ◌∷◌, ◌≡◌,
}
use quest_termux_lab.Fleet.Commands.{
  answer_next, drop_expired, enqueue, forget_key, next_command, or_empty, queue_command, queue_new,
  queue_of, queue_unexpired, remember_key, require_lease, set_queue, sort_out, sweep, visit,
}
use quest_termux_lab.Fleet.Keeps.{
  Keeps, Quiet, bind-Keeps, bind_result-Keeps, check-Keeps, gets_bind-Keeps, keeps, modify-Keeps,
  pure-Keeps, require_text-Keeps,
}
use quest_termux_lab.Fleet.Next.{sweep-runs}
use quest_termux_lab.Fleet.Quiet.{append_log-Keeps, is_expired-Keeps, response-Keeps, utc_now-Keeps}
use quest_termux_lab.Fleet.State.{Env, FleetState, modify}
use quest_termux_lab.Fleet.Sweep.{Readable, is_expired-Readable}
use quest_termux_lab.Py.Dict.{Table, insert, lookup, lookup-insert}
use quest_termux_lab.Py.Result.{ok, ok-injective}
use quest_termux_lab.Py.Value.{Fields, Value, str}

abbrev pub AllReadable : Env → FleetState → Type 0
AllReadable env s = (agent_id : String) → All (Readable env) (queue_of s agent_id)

abbrev pub Sound : Env → (Table Fields → Type 0) → FleetState → Type 0
Sound env R s = AllReadable env s × R s.mirror_leases

append-All :
    (env : Env) (xs : List Fields) (y : Fields)
    → All (Readable env) xs
    → Readable env y
    → All (Readable env) (xs ++ y ∷ [])
append-All env [] y h k = (k, tt)
append-All env (x ∷ xs) y (p, h) k = (p, append-All env xs y h k)

insert-Readable :
    (env : Env) (t : Table (List Fields)) (target agent_id : String) (queue : List Fields)
    → All (Readable env) queue
    → All (Readable env) (or_empty (lookup t agent_id))
    → All (Readable env) (or_empty (lookup (insert t target queue) agent_id))
insert-Readable env t target agent_id queue h k =
    rw lookup-insert (elim (Bool-cases (target == agent_id)) [ inl e ↦ rw e h | inr e ↦ rw e k ])

module _ (env : Env) (R : Table Fields → Type 0) where
  abbrev P : FleetState → Type 0
  P s = Sound env R s

  pub Sound-Quiet : Quiet P
  Sound-Quiet s t c i l (readable, r) =
      (λ a. subst (λ m. All (Readable env) (or_empty (lookup m a))) c (readable a), subst R l r)

  remember_key-Keeps : (id command_id : String) → Keeps P (modify (remember_key id command_id))
  unfolding remember_key
  remember_key-Keeps id command_id = modify-Keeps _ λ s p. p

  enqueue-Keeps :
      (target : String) (payload : Fields)
      → Readable env payload
      → Keeps P (modify (enqueue target payload))
  unfolding enqueue
  enqueue-Keeps target payload h = modify-Keeps _ λ s p. (
    λ a.
        insert-Readable env s.commands target a _
          (append-All env (queue_of s target) payload (p.0 target) h) (p.0 a),
    p.1,
  )

  set_queue-Keeps :
      (target : String) (queue : List Fields)
      → All (Readable env) queue
      → Keeps P (modify (set_queue target queue))
  unfolding set_queue
  set_queue-Keeps target queue h =
      modify-Keeps _ λ s p. (λ a. insert-Readable env s.commands target a queue h (p.0 a), p.1)

  forget_key-kept :
      (agent_id : String) (key : Value) (s : FleetState) → P s → P (forget_key agent_id key s)
  unfolding forget_key
  forget_key-kept agent_id (str key) s p = p
  forget_key-kept agent_id _ s p = p

  queue_new-Keeps :
      (payload : Fields) (command_id target key : String) (o : Option String)
      → Readable env payload
      → Keeps P (queue_new env payload command_id target key o)
  unfolding queue_new
  queue_new-Keeps payload command_id target key (some other) h = response-Keeps env Sound-Quiet _ _
  queue_new-Keeps payload command_id target key none h =
      search
        (
          keeps,
          remember_key-Keeps,
          enqueue-Keeps,
          append_log-Keeps env Sound-Quiet,
          response-Keeps env Sound-Quiet,
        )
        depth 12

  require_lease-Keeps : (payload : Fields) (b : Bool) → Keeps P (require_lease env payload b)
  unfolding require_lease
  require_lease-Keeps payload true = pure-Keeps ""
  require_lease-Keeps payload false = require_text-Keeps payload "remote_session_lease_id"

  queue_unexpired-Keeps :
      (payload : Fields) (command_id target key : String) (expired : Bool)
      → Readable env payload
      → Keeps P (queue_unexpired env payload command_id target key expired)
  unfolding queue_unexpired
  queue_unexpired-Keeps payload command_id target key expired h =
      search (keeps, require_lease-Keeps, queue_new-Keeps) depth 12

  pub queue_command-Keeps : (payload : Fields) → Keeps P (queue_command env payload)
  unfolding queue_command
  queue_command-Keeps payload = bind-Keeps (check-Keeps _ _) λ _.
      bind-Keeps (require_text-Keeps _ _) λ command_id.
        bind-Keeps (require_text-Keeps _ _) λ target. bind-Keeps (require_text-Keeps _ _) λ key.
          bind_result-Keeps (is_expired-Keeps env Sound-Quiet payload)
            (λ s b h. is_expired-Readable env payload s b h)
            λ expired h. queue_unexpired-Keeps payload command_id target key expired h

  drop_expired-Keeps :
      (agent_id : String) (command : Fields) → Keeps P (drop_expired env agent_id command)
  unfolding drop_expired
  drop_expired-Keeps agent_id command =
      bind-Keeps (modify-Keeps _ (forget_key-kept agent_id _))
        λ _. bind-Keeps (utc_now-Keeps env Sound-Quiet) λ _. append_log-Keeps env Sound-Quiet _ _

  sort_out-Keeps :
      (agent_id : String) (selected : Option Fields) (command : Fields) (b : Bool)
      → Keeps P (sort_out env agent_id selected command b)
  unfolding sort_out
  sort_out-Keeps agent_id selected command true =
      bind-Keeps (drop_expired-Keeps agent_id command) λ _. pure-Keeps _
  sort_out-Keeps agent_id selected command false = pure-Keeps _

  visit-Keeps :
      (agent_id : String) (selected : Option Fields) (command : Fields)
      → Keeps P (visit env agent_id selected command)
  unfolding visit
  visit-Keeps agent_id selected command =
      bind-Keeps (is_expired-Keeps env Sound-Quiet command)
        λ b. sort_out-Keeps agent_id selected command b

  sweep-Keeps :
      (agent_id : String) (selected : Option Fields) (queue : List Fields)
      → Keeps P (sweep env agent_id selected queue)
  unfolding sweep
  sweep-Keeps agent_id selected [] = pure-Keeps _
  sweep-Keeps agent_id selected (command ∷ queue) =
      bind-Keeps (visit-Keeps agent_id selected command)
        λ v. bind-Keeps (sweep-Keeps agent_id v.0 queue) λ _. pure-Keeps _

  answer_next-Keeps : (agent_id : String) (o : Option Fields) → Keeps P (answer_next env agent_id o)
  unfolding answer_next
  answer_next-Keeps agent_id (some command) = pure-Keeps command
  answer_next-Keeps agent_id none = bind-Keeps (utc_now-Keeps env Sound-Quiet) λ _. pure-Keeps _

  sweep-Readable :
      (agent_id : String) (queue : List Fields) (s : FleetState) (r : Option Fields × List Fields)
      → All (Readable env) queue
      → (sweep env agent_id none queue s).0 ≡ ok r
      → All (Readable env) r.1
  sweep-Readable agent_id queue s r h e =
      let (kept, returned, readable) = sweep-runs env agent_id none queue s h in
      subst (λ p. All (Readable env) p.1) (ok-injective (sym returned ∙ e)) readable

  pub next_command-Keeps : (agent_id : String) → Keeps P (next_command env agent_id)
  unfolding next_command
  next_command-Keeps agent_id = gets_bind-Keeps _ _ λ s p.
      (bind-Keeps (set_queue-Keeps agent_id (queue_of s agent_id) (p.0 agent_id)) λ _.
          bind_result-Keeps (sweep-Keeps agent_id none (queue_of s agent_id))
            (λ t r e. sweep-Readable agent_id (queue_of s agent_id) t r (p.0 agent_id) e)
            λ r h.
              bind-Keeps (set_queue-Keeps agent_id r.1 h) λ _. answer_next-Keeps agent_id r.0).run
        s p
