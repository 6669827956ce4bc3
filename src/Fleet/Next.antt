-- ===== src/Fleet/Next.antt =====
-- What an agent gets from next_command of tools/fleet_control_plane.py.
-- The commands that are not overdue, in order.
use mathlib.Core.Path.{subst}
use quest_termux_lab.Base.{
  All, Bool, List, Option, String, [], ap, eq_refl, false, if◌then◌else◌, none, refl, some, true, ℕ,
  ◌++◌, ◌∙◌, ◌∷◌, ◌≡◌,
}
use quest_termux_lab.Fleet.Commands.{
  answer_next, next_command, or_empty, queue_of, set_queue, sweep, visit,
}
use quest_termux_lab.Fleet.Keeps.{Keeps, Quiet, bind-Keeps, pure-Keeps}
use quest_termux_lab.Fleet.Payload.{no_command_schema}
use quest_termux_lab.Fleet.Quiet.{utc_now-Keeps}
use quest_termux_lab.Fleet.State.{Env, FleetState, gets, modify, pure, read_clock, utc_now, ◌>>=◌}
use quest_termux_lab.Fleet.Sweep.{Readable, overdue, sorted, sweep-step, visit-sorted}
use quest_termux_lab.Py.Dict.{get?, lookup, lookup-insert}
use quest_termux_lab.Py.Result.{Result, ok}
use quest_termux_lab.Py.Value.{Fields, str}

abbrev pub live : Env → ℕ → List Fields → List Fields
live env now [] = []
live env now (command ∷ queue) =
    let rest = live env now queue in if overdue env now command then rest else command ∷ rest

-- What a sweep makes of the live commands: it selects the first unless one is selected.
abbrev pub chosen : Option Fields → List Fields → Option Fields × List Fields
chosen none [] = (none, [])
chosen none (command ∷ rest) = (some command, rest)
chosen (some selected) rest = (some selected, rest)

-- The answer to a poll, and the queue that it leaves, for the live commands of the queue.
abbrev pub Answers : List Fields → Result Fields → List Fields → Type 0
Answers [] answer left =
    (left ≡ []) × (d : Fields) × (answer ≡ ok d) × (get? d "schema" ≡ some (str no_command_schema))
Answers (command ∷ rest) answer left = (answer ≡ ok command) × (left ≡ rest)

module _ (env : Env) (agent_id : String) where
  chosen-sorted :
      (selected : Option Fields) (command : Fields) (b : Bool) (rest : List Fields)
      → (
        (chosen (sorted env selected command b).0 rest).0,
        (sorted env selected command b).1 ++ (chosen (sorted env selected command b).0 rest).1,
      )
        ≡ chosen selected (if b then rest else command ∷ rest)
  chosen-sorted none command true [] = refl
  chosen-sorted none command true (c ∷ rest) = refl
  chosen-sorted (some first_one) command true rest = refl
  chosen-sorted none command false rest = refl
  chosen-sorted (some first_one) command false rest = refl

  sweep-chosen :
      (now : ℕ) (selected : Option Fields) (queue : List Fields) (s : FleetState)
      → ((n : ℕ) → env.clock n ≡ now)
      → All (Readable env) queue
      → (sweep env agent_id selected queue s).0 ≡ ok (chosen selected (live env now queue))
  unfolding sweep pure
  sweep-chosen now none [] s still readable = refl
  sweep-chosen now (some first_one) [] s still readable = refl
  sweep-chosen now selected (command ∷ queue) s still (head_readable, readable) =
      let b = overdue env now command in
      let visited : (visit env agent_id selected command s).0 ≡ ok (sorted env selected command b) =
        subst
          (λ n.
            (visit env agent_id selected command s).0
            ≡ ok (sorted env selected command (overdue env n command)))
          (still s.reads) (visit-sorted env agent_id selected command s head_readable) in
      sweep-step env agent_id selected command queue s _ _ visited (
        sweep-chosen now (sorted env selected command b).0 queue
          (visit env agent_id selected command s).1 still readable)
      ∙ ap ok (chosen-sorted selected command b (live env now queue))

  sorted-Readable :
      (selected : Option Fields) (command : Fields) (b : Bool)
      → Readable env command
      → All (Readable env) (sorted env selected command b).1
  sorted-Readable selected command true h = tt
  sorted-Readable none command false h = tt
  sorted-Readable (some first_one) command false h = (h, tt)

  append-All :
      (xs ys : List Fields)
      → All (Readable env) xs
      → All (Readable env) ys
      → All (Readable env) (xs ++ ys)
  append-All [] ys h k = k
  append-All (x ∷ xs) ys (p, h) k = (p, append-All xs ys h k)

  -- Whatever the clock does, a sweep of readable commands returns, and keeps readable commands.
  pub sweep-runs :
      (selected : Option Fields) (queue : List Fields) (s : FleetState)
      → All (Readable env) queue
      → (r : Option Fields × List Fields) × ((sweep env agent_id selected queue s).0 ≡ ok r)
        × All (Readable env) r.1
  unfolding sweep pure
  sweep-runs selected [] s readable = ((selected, []), refl, tt)
  sweep-runs selected (command ∷ queue) s (head_readable, readable) =
      let v = sorted env selected command (overdue env (env.clock s.reads) command) in
      let (r, done, kept) =
        sweep-runs v.0 queue (visit env agent_id selected command s).1 readable in
      (
        (r.0, v.1 ++ r.1),
        sweep-step env agent_id selected command queue s v r
            (visit-sorted env agent_id selected command s head_readable) done,
        append-All v.1 r.1
            (sorted-Readable selected command (overdue env (env.clock s.reads) command)
              head_readable)
            kept,
      )

  abbrev pub swept_queue : FleetState → Result (Option Fields × List Fields) × FleetState
  swept_queue s =
      sweep env agent_id none (queue_of s agent_id) (set_queue agent_id (queue_of s agent_id) s)

  pub next_command-run :
      (s : FleetState) (r : Option Fields × List Fields)
      → (swept_queue s).0 ≡ ok r
      → next_command env agent_id s
        ≡ answer_next env agent_id r.0 (set_queue agent_id r.1 (swept_queue s).1)
  unfolding next_command ◌>>=◌ gets modify
  next_command-run s r h = rw h refl

  queue_of-set_queue :
      (queue : List Fields) (s : FleetState)
      → queue_of (set_queue agent_id queue s) agent_id ≡ queue
  unfolding set_queue
  queue_of-set_queue queue s = rw (lookup-insert, eq_refl agent_id) refl

  module _ (queue : List Fields) where
    quiet : Quiet (λ s. queue_of s agent_id ≡ queue)
    quiet s t c i l h = subst (λ m. or_empty (lookup m agent_id) ≡ queue) c h

    answer_next-Keeps :
        (o : Option Fields) → Keeps (λ s. queue_of s agent_id ≡ queue) (answer_next env agent_id o)
    unfolding answer_next
    answer_next-Keeps (some command) = pure-Keeps command
    answer_next-Keeps none = bind-Keeps (utc_now-Keeps env quiet) λ _. pure-Keeps _

  answer_next-kept :
      (queue : List Fields) (o : Option Fields) (t : FleetState)
      → queue_of (answer_next env agent_id o (set_queue agent_id queue t)).1 agent_id ≡ queue
  answer_next-kept queue o t =
      (answer_next-Keeps queue o).run (set_queue agent_id queue t) (queue_of-set_queue queue t)

  next_command-chosen :
      (s : FleetState) (o : Option Fields) (rest : List Fields)
      → (swept_queue s).0 ≡ ok (o, rest)
      → ((next_command env agent_id s).0
          ≡ (answer_next env agent_id o (set_queue agent_id rest (swept_queue s).1)).0)
        × (queue_of (next_command env agent_id s).1 agent_id ≡ rest)
  next_command-chosen s o rest h =
      let run = next_command-run s (o, rest) h in
      (
        ap (λ p. p.0) run,
        ap (λ p. queue_of p.1 agent_id) run ∙ answer_next-kept rest o (swept_queue s).1,
      )

  answer_next-none :
      (t : FleetState)
      → (d : Fields) × ((answer_next env agent_id none t).0 ≡ ok d)
        × (get? d "schema" ≡ some (str no_command_schema))
  unfolding answer_next ◌>>=◌ utc_now read_clock pure
  answer_next-none t = (_, refl, refl)

  answer_next-some :
      (command : Fields) (t : FleetState)
      → (answer_next env agent_id (some command) t).0 ≡ ok command
  unfolding answer_next pure
  answer_next-some command t = refl

  Answers-of :
      (commands : List Fields) (s : FleetState)
      → (swept_queue s).0 ≡ ok (chosen none commands)
      → Answers commands
          (next_command env agent_id s).0
          (queue_of (next_command env agent_id s).1 agent_id)
  Answers-of [] s h =
      let (answer, left) = next_command-chosen s none [] h in
      let (d, returned, schema) = answer_next-none (set_queue agent_id [] (swept_queue s).1) in
      (left, d, answer ∙ returned, schema)
  Answers-of (command ∷ rest) s h =
      let (answer, left) = next_command-chosen s (some command) rest h in
      (answer ∙ answer_next-some command _, left)

  -- While the clock stands at `now`, and the queue's expiries are readable, a poll returns the first
  -- command that is not overdue and leaves the rest of those in order, or, where there is none,
  -- returns the message for an empty queue and leaves the queue empty.
  pub next_command-Answers :
      (now : ℕ) (s : FleetState)
      → ((n : ℕ) → env.clock n ≡ now)
      → All (Readable env) (queue_of s agent_id)
      → Answers
          (live env now (queue_of s agent_id))
          (next_command env agent_id s).0
          (queue_of (next_command env agent_id s).1 agent_id)
  next_command-Answers now s still readable = Answers-of (live env now (queue_of s agent_id)) s (
      sweep-chosen now none (queue_of s agent_id) (set_queue agent_id (queue_of s agent_id) s) still
        readable)
