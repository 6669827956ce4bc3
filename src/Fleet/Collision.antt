-- ===== src/Fleet/Collision.antt =====
-- Two agents that share an entry of the idempotency index of tools/fleet_control_plane.py.
use text.Mathlib.TextLemmas.{append_assoc}
use quest_termux_lab.Base.{String, ap, ◌∙◌, ◌≡◌}
use quest_termux_lab.Fleet.Commands.{idempotency_id, queue_command}
use quest_termux_lab.Fleet.Duplicate.{command_key, queue_command-once}
use quest_termux_lab.Fleet.State.{Env, FleetState}
use quest_termux_lab.Py.Dict.{get}
use quest_termux_lab.Py.Result.{ok}
use quest_termux_lab.Py.Text.{◌+ₛ◌}
use quest_termux_lab.Py.Value.{Fields, str}

ids_collide : (a b c : String) → idempotency_id (a +ₛ ":" +ₛ b) c ≡ idempotency_id a (b +ₛ ":" +ₛ c)
unfolding idempotency_id
ids_collide a b c =
    append_assoc a (":" +ₛ b) (":" +ₛ c) ∙ ap (λ t. a +ₛ t) (append_assoc ":" b (":" +ₛ c))

-- Where one agent's name is `a:b` and another's is `a`, once a command has been queued for the first
-- with key `c`, a command for the second with key `b:c` leaves every queue as it is.
pub queue_command-collides :
    (env : Env) (payload again answer : Fields) (s : FleetState) (a b c : String)
    → get payload "target_agent_id" ≡ str (a +ₛ ":" +ₛ b)
    → get payload "idempotency_key" ≡ str c
    → get again "target_agent_id" ≡ str a
    → get again "idempotency_key" ≡ str (b +ₛ ":" +ₛ c)
    → (queue_command env payload s).0 ≡ ok answer
    → (queue_command env again (queue_command env payload s).1).1.commands
      ≡ (queue_command env payload s).1.commands
queue_command-collides env payload again answer s a b c target key other_target other_key returned =
    let same : command_key payload ≡ command_key again =
      rw (target, key, other_target, other_key) (ids_collide a b c) in
    queue_command-once env payload again answer s same returned
