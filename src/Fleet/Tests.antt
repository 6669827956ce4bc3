-- ===== src/Fleet/Tests.antt =====
-- The theorems on tools/fleet_control_plane.py at concrete requests.
use quest_termux_lab.Base.{String, [], false, refl, ◌∷◌, ◌≡◌, ◌⊎◌}
use quest_termux_lab.Fleet.Collision.{queue_command-collides}
use quest_termux_lab.Fleet.Commands.{
  enqueue, idempotency_id, next_command, queue_command, queue_new, queue_of, queue_unexpired,
  remember_key, require_lease,
}
use quest_termux_lab.Fleet.Duplicate.{queue_command-once}
use quest_termux_lab.Fleet.Intents.{revoke_mirror_lease, submit_mirror_intent}
use quest_termux_lab.Fleet.Lease.{Authorised, named_lease, submit_mirror_intent-Authorised}
use quest_termux_lab.Fleet.Next.{Answers, live, next_command-Answers}
use quest_termux_lab.Fleet.Payload.{
  command_schema, has_passed, is_expired, is_expired_at, mirror_intent_schema, mirror_lease_schema,
  parse_time, require_text,
}
use quest_termux_lab.Fleet.Polling.{replay-answered}
use quest_termux_lab.Fleet.Revocation.{replay-held}
use quest_termux_lab.Fleet.Session.{answered, handle, poll, post_command, replay}
use quest_termux_lab.Fleet.State.{
  Env, FleetState, append_log, check, gets, initial, lift, modify, pure, read_clock, response,
  utc_now, ◌>>=◌,
}
use quest_termux_lab.Fleet.Sweep.{Readable, dated}
use quest_termux_lab.Py.Dict.{insert, put, update}
use quest_termux_lab.Py.Result.{ok}
use quest_termux_lab.Py.Sample.{future_text, past_text, sample_lib, utc}
use quest_termux_lab.Py.Value.{Fields, array, bool, dict, end, str}

abbrev sample_env : Env
sample_env = record { lib = sample_lib; clock = λ n. 5000 }

abbrev command_for : String → String → String → Fields
command_for id key expires_at = dict (
    ("schema", str command_schema)
    ∷ ("command_id", str id)
    ∷ ("target_agent_id", str "quest-1")
    ∷ ("idempotency_key", str key)
    ∷ ("expires_at", str expires_at)
    ∷ ("kind", str "agent.status")
    ∷ [])

abbrev sample_lease : Fields
sample_lease = dict (
    ("schema", str mirror_lease_schema)
    ∷ ("lease_id", str "lease-1")
    ∷ ("fleet_id", str "lab")
    ∷ ("source_agent_id", str "quest-2")
    ∷ ("target_agent_id", str "quest-1")
    ∷ ("expires_at", str future_text)
    ∷ ("allowed_command_kinds", array (str "agent.status" ∷ []))
    ∷ [])

abbrev sample_intent : Fields
sample_intent = dict (
    ("schema", str mirror_intent_schema)
    ∷ ("mirror_intent_id", str "intent-1")
    ∷ ("lease_id", str "lease-1")
    ∷ ("fleet_id", str "lab")
    ∷ ("source_agent_id", str "quest-2")
    ∷ ("target_agent_id", str "quest-1")
    ∷ ("issued_at", str past_text)
    ∷ ("expires_at", str future_text)
    ∷ ("idempotency_key", str "key-1")
    ∷ ("kind", str "agent.status")
    ∷ ("requires_local_adb_shell", bool false)
    ∷ ("reason", str "test")
    ∷ [])

abbrev with_lease : FleetState
with_lease = record initial { mirror_leases = ("lease-1", sample_lease) ∷ [] }

abbrev with_queue : FleetState
with_queue = record initial {
  commands =
      (
        "quest-1",
        command_for "c1" "k1" past_text
            ∷ command_for "c2" "k2" future_text
            ∷ command_for "c3" "k3" future_text
            ∷ [],
      )
      ∷ [];
}

past_Readable : (id key : String) → Readable sample_env (command_for id key past_text)
unfolding parse_time
past_Readable id key = dated past_text (utc 1000) 1440 refl refl refl

future_Readable : (id key : String) → Readable sample_env (command_for id key future_text)
unfolding parse_time
future_Readable id key = dated future_text (utc 9000) 1440 refl refl refl

submit_mirror_intent-Authorised_example :
    ((submit_mirror_intent sample_env sample_intent with_lease).1.commands ≡ with_lease.commands)
    ⊎ Authorised sample_env (named_lease with_lease sample_intent) sample_intent
submit_mirror_intent-Authorised_example =
    submit_mirror_intent-Authorised sample_env sample_intent with_lease

replay-held_example :
    (submit_mirror_intent sample_env sample_intent (
      replay sample_env
        (poll "quest-1" ∷ [])
        (revoke_mirror_lease sample_env "lease-1" end with_lease).1)).1.commands
    ≡ (replay sample_env
        (poll "quest-1" ∷ [])
        (revoke_mirror_lease sample_env "lease-1" end with_lease).1).commands
replay-held_example =
    replay-held sample_env "lease-1" end sample_lease sample_intent (poll "quest-1" ∷ []) with_lease
      (λ a. tt) refl refl refl

replay-answered_example :
    (body : Fields) × ((handle sample_env (poll "quest-1") (
        replay sample_env
          (post_command (command_for "c1" "k1" future_text) ∷ poll "quest-2" ∷ [])
          initial)).0
      ≡ answered 200 body)
replay-answered_example =
    replay-answered sample_env
      (post_command (command_for "c1" "k1" future_text) ∷ poll "quest-2" ∷ []) "quest-1"

next_command-Answers_example :
    Answers
      (live sample_env 5000 (queue_of with_queue "quest-1"))
      (next_command sample_env "quest-1" with_queue).0
      (queue_of (next_command sample_env "quest-1" with_queue).1 "quest-1")
next_command-Answers_example =
    next_command-Answers sample_env "quest-1" 5000 with_queue (λ n. refl)
      (past_Readable "c1" "k1", (future_Readable "c2" "k2", (future_Readable "c3" "k3", tt)))

-- The command that is not overdue is delivered, and the third is left.
live_test :
    live sample_env 5000 (queue_of with_queue "quest-1")
    ≡ (command_for "c2" "k2" future_text ∷ command_for "c3" "k3" future_text ∷ [])
unfolding parse_time
live_test = refl

abbrev queued_answer : Fields
queued_answer = dict (
    ("status", str "queued")
    ∷ ("observed_at", str "2026-01-01T12:00:00Z")
    ∷ ("command_id", str "c1")
    ∷ ("target_agent_id", str "quest-1")
    ∷ [])

queued_test :
    (queue_command sample_env (command_for "c1" "k1" future_text) initial).0 ≡ ok queued_answer
unfolding queue_command queue_unexpired queue_new require_lease require_text is_expired
    is_expired_at has_passed parse_time read_clock utc_now response ◌>>=◌ pure lift check gets
    modify append_log remember_key enqueue idempotency_id update put insert
queued_test = refl

queue_command-once_example :
    (queue_command sample_env
      (command_for "c2" "k1" future_text)
      (queue_command sample_env (command_for "c1" "k1" future_text) initial).1).1.commands
    ≡ (queue_command sample_env (command_for "c1" "k1" future_text) initial).1.commands
queue_command-once_example =
    queue_command-once sample_env (command_for "c1" "k1" future_text)
      (command_for "c2" "k1" future_text) queued_answer initial refl queued_test

-- A command for the agent `target`.
abbrev command_to : String → String → Fields
command_to target key = dict (
    ("schema", str command_schema)
    ∷ ("command_id", str "c1")
    ∷ ("target_agent_id", str target)
    ∷ ("idempotency_key", str key)
    ∷ ("expires_at", str future_text)
    ∷ ("kind", str "agent.status")
    ∷ [])

abbrev other_answer : Fields
other_answer = dict (
    ("status", str "queued")
    ∷ ("observed_at", str "2026-01-01T12:00:00Z")
    ∷ ("command_id", str "c1")
    ∷ ("target_agent_id", str "quest:1")
    ∷ [])

other_test : (queue_command sample_env (command_to "quest:1" "k") initial).0 ≡ ok other_answer
unfolding queue_command queue_unexpired queue_new require_lease require_text is_expired
    is_expired_at has_passed parse_time read_clock utc_now response ◌>>=◌ pure lift check gets
    modify append_log remember_key enqueue idempotency_id update put insert
other_test = refl

queue_command-collides_example :
    (queue_command sample_env
      (command_to "quest" "1:k")
      (queue_command sample_env (command_to "quest:1" "k") initial).1).1.commands
    ≡ (queue_command sample_env (command_to "quest:1" "k") initial).1.commands
queue_command-collides_example =
    queue_command-collides sample_env (command_to "quest:1" "k") (command_to "quest" "1:k")
      other_answer initial "quest" "1" "k" refl refl refl refl other_test
