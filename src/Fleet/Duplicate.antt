-- ===== src/Fleet/Duplicate.antt =====
-- The idempotency keys of tools/fleet_control_plane.py.
-- The key of the text `id` is Held.
use mathlib.Core.Path.{subst}
use quest_termux_lab.Base.{
  Bool, List, Option, String, eq_refl, false, none, refl, some, sym, true, ◌∙◌, ◌≡◌,
}
use quest_termux_lab.Fleet.Commands.{
  enqueue, idempotency_id, queue_command, queue_new, queue_unexpired, remember_key, require_lease,
}
use quest_termux_lab.Fleet.Keeps.{
  Keeps, Quiet, bind-Keeps, bind_result-Keeps, check-Keeps, gets_bind-Keeps, keeps, modify-Keeps,
  pure-Keeps, require_text-Keeps, require_text-text,
}
use quest_termux_lab.Fleet.Quiet.{append_log-Keeps, is_expired-Keeps, response-Keeps}
use quest_termux_lab.Fleet.State.{
  Env, Exec, FleetState, append_log, continue, gets, modify, response, ◌>>=◌, ◌>>◌,
}
use quest_termux_lab.Py.Dict.{Table, get, lookup, lookup-insert}
use quest_termux_lab.Py.Result.{Result, err, ok}
use quest_termux_lab.Py.Value.{Fields, Value, text}

abbrev pub IsTaken : String → FleetState → Type 0
IsTaken id s = (command_id : String) × (lookup s.idempotency_index id ≡ some command_id)

-- `Q` holds of the state after `m` whenever `m` returns.
record Ends (Q : FleetState → Type 0) {A : Type 0} (m : Exec A) : Type 0 where
  run : (s : FleetState) (a : A) → (m s).0 ≡ ok a → Q (m s).1

module _ {Q : FleetState → Type 0} where
  continue-ended :
      {A B : Type 0} (f : A → Exec B) (r : Result A) (s : FleetState) (b : B)
      → ((a : A) → r ≡ ok a → Ends Q (f a))
      → (continue f r s).0 ≡ ok b
      → Q (continue f r s).1
  continue-ended f (ok a) s b h e = (h a refl).run s b e
  continue-ended f (err x) s b h e = absurd (cc e)

  bind_result-Ends :
      {A B : Type 0} {R : A → Type 0} (m : Exec A) {f : A → Exec B}
      → ((s : FleetState) (a : A) → (m s).0 ≡ ok a → R a)
      → ((a : A) → R a → Ends Q (f a))
      → Ends Q (m >>= f)
  unfolding ◌>>=◌
  bind_result-Ends m {f = f} r h = record {
    run = λ s b e. continue-ended f (m s).0 (m s).1 b (λ a d. h a (r s a d)) e;
  }

  bind-Ends :
      {A B : Type 0} (m : Exec A) {f : A → Exec B} → ((a : A) → Ends Q (f a)) → Ends Q (m >>= f)
  bind-Ends m h = bind_result-Ends {R = λ a. Unit {0}} m (λ s a e. tt) λ a u. h a

  gets_bind-Ends :
      {A B : Type 0} (g : FleetState → A) (f : A → Exec B)
      → ((s : FleetState) → Q (f (g s) s).1)
      → Ends Q (gets g >>= f)
  unfolding ◌>>=◌ gets
  gets_bind-Ends g f h = record { run = λ s b e. h s }

module _ (env : Env) (target key : String) where
  abbrev Held : FleetState → Type 0
  Held s = IsTaken (idempotency_id target key) s

  Held-Quiet : Quiet Held
  Held-Quiet s t c i l (command_id, h) =
      (command_id, subst (λ m. lookup m (idempotency_id target key) ≡ some command_id) i h)

  remembered :
      (command_id : String) (s : FleetState)
      → Held (remember_key (idempotency_id target key) command_id s)
  unfolding remember_key
  remembered command_id s = (
    command_id,
    lookup-insert s.idempotency_index (idempotency_id target key) _ command_id
        ∙ rw (eq_refl (idempotency_id target key)) refl,
  )

  enqueue-Keeps : (payload : Fields) → Keeps Held (modify (enqueue target payload))
  unfolding enqueue
  enqueue-Keeps payload = modify-Keeps _ λ s p. p

  queue_rest-Keeps :
      (payload : Fields) (extra : List (String × Value))
      → Keeps Held (
          modify (enqueue target payload)
          >> (append_log "commands.jsonl" payload >> response env "queued" extra))
  queue_rest-Keeps payload extra =
      search (keeps, enqueue-Keeps, append_log-Keeps env Held-Quiet, response-Keeps env Held-Quiet)
        depth 12

  queue_new-Held :
      (payload : Fields) (command_id : String) (s : FleetState) (o : Option String)
      → lookup s.idempotency_index (idempotency_id target key) ≡ o
      → Held (queue_new env payload command_id target key o s).1
  unfolding queue_new ◌>>=◌ modify
  queue_new-Held payload command_id s (some other) h =
      (response-Keeps env Held-Quiet "duplicate" _).run s (other, h)
  queue_new-Held payload command_id s none h =
      (queue_rest-Keeps payload _).run (remember_key (idempotency_id target key) command_id s)
        (remembered command_id s)

  queue_unexpired-Ends :
      (payload : Fields) (command_id : String) (expired : Bool)
      → Ends Held (queue_unexpired env payload command_id target key expired)
  unfolding queue_unexpired
  queue_unexpired-Ends payload command_id expired = bind-Ends _ λ _. bind-Ends _ λ _.
      bind-Ends _ λ _. gets_bind-Ends _ _ λ s.
        queue_new-Held payload command_id s (lookup s.idempotency_index (idempotency_id target key))
          refl

-- The payload's target and key.
abbrev pub command_key : Fields → String
command_key payload =
    idempotency_id (text (get payload "target_agent_id")) (text (get payload "idempotency_key"))

module _ (env : Env) (payload : Fields) where
  abbrev Taken : FleetState → Type 0
  Taken s = IsTaken (command_key payload) s

  queue_command-Ends : Ends Taken (queue_command env payload)
  unfolding queue_command
  queue_command-Ends = bind-Ends _ λ _. bind-Ends _ λ command_id.
      bind_result-Ends _ (λ s a e. require_text-text payload "target_agent_id" s e)
        λ target t.
          bind_result-Ends _ (λ s a e. require_text-text payload "idempotency_key" s e)
            λ key k. bind-Ends _ λ expired.
              rw (t, k)
                (queue_unexpired-Ends env (text (get payload "target_agent_id"))
                  (text (get payload "idempotency_key")) payload command_id expired)

  module _ (queues : Table (List Fields)) where
    abbrev P : FleetState → Type 0
    P s = Taken s × (s.commands ≡ queues)

    quiet : Quiet P
    quiet s t c i l ((command_id, h), q) =
        ((command_id, subst (λ m. lookup m (command_key payload) ≡ some command_id) i h), sym c ∙ q)

    queue_new-held :
        (command_id target key : String) (s : FleetState) (o : Option String)
        → IsTaken (idempotency_id target key) s
        → lookup s.idempotency_index (idempotency_id target key) ≡ o
        → P s
        → P (queue_new env payload command_id target key o s).1
    unfolding queue_new
    queue_new-held command_id target key s (some other) h e p =
        (response-Keeps env quiet "duplicate" _).run s p
    queue_new-held command_id target key s none (other, h) e p = absurd (cc (sym h ∙ e))

    require_lease-Keeps : (b : Bool) → Keeps P (require_lease env payload b)
    unfolding require_lease
    require_lease-Keeps true = pure-Keeps ""
    require_lease-Keeps false = require_text-Keeps payload "remote_session_lease_id"

    queue_unexpired-held :
        (command_id target key : String) (expired : Bool)
        → idempotency_id target key ≡ command_key payload
        → Keeps P (queue_unexpired env payload command_id target key expired)
    unfolding queue_unexpired
    queue_unexpired-held command_id target key expired e = bind-Keeps (check-Keeps _ _) λ _.
        bind-Keeps (require_text-Keeps _ _) λ kind. bind-Keeps (require_lease-Keeps _) λ _.
          gets_bind-Keeps _ _ λ s p.
            queue_new-held command_id target key s _ (subst (λ i. IsTaken i s) (sym e) p.0) refl p

    queue_command-held : Keeps P (queue_command env payload)
    unfolding queue_command
    queue_command-held = bind-Keeps (check-Keeps _ _) λ _.
        bind-Keeps (require_text-Keeps _ _) λ command_id.
          bind_result-Keeps (require_text-Keeps payload "target_agent_id")
            (λ s a e. require_text-text payload "target_agent_id" s e)
            λ target t.
              bind_result-Keeps (require_text-Keeps payload "idempotency_key")
                (λ s a e. require_text-text payload "idempotency_key" s e)
                λ key k.
                  bind-Keeps (is_expired-Keeps env quiet payload)
                    λ expired. queue_unexpired-held command_id target key expired (rw (t, k) refl)

-- Once a command has been accepted or found to be a duplicate, queueing any command with the same
-- target and idempotency key next leaves every queue as it is.
pub queue_command-once :
    (env : Env) (payload again answer : Fields) (s : FleetState)
    → command_key payload ≡ command_key again
    → (queue_command env payload s).0 ≡ ok answer
    → (queue_command env again (queue_command env payload s).1).1.commands
      ≡ (queue_command env payload s).1.commands
queue_command-once env payload again answer s same returned =
    let next = (queue_command env payload s).1 in
    let kept =
      subst (λ i. IsTaken i next) same ((queue_command-Ends env payload).run s answer returned) in
    ((queue_command-held env again next.commands).run next (kept, refl)).1
