-- ===== src/Gossip/State/Summary.antt =====
-- GossipState.summary and status_for of tools/peer_mesh_gossip.py.
use quest_termux_lab.Base.{
  Bool, String, [], if◌then◌else◌, length, ltb, none, some, ℕ, ◌*◌, ◌+◌, ◌∷◌,
}
use quest_termux_lab.Gossip.Envelope.{summary_schema}
use quest_termux_lab.Gossip.State.{GossipState, observed_time}
use quest_termux_lab.Py.Dict.{Table, get, item, keys, lookup}
use quest_termux_lab.Py.Result.{Result, err, key_error, map_ok, ok, type_error, ◌>>=◌, ◌>>◌}
use quest_termux_lab.Py.Stdlib.{Stdlib, int_of}
use quest_termux_lab.Py.Text.{sort_texts}
use quest_termux_lab.Py.Time.{DateTime, comparable}
use quest_termux_lab.Py.Value.{
  Fields, Value, array, bool, dict, nat, negsuc, obj, pos, str, truthy, ℤ,
}

-- now - observed > seconds, for a number of seconds that may be negative
abbrev older_than : ℕ → ℕ → ℤ → Bool
older_than now observed (pos n) = ltb (observed + n * 1000000) now
older_than now observed (negsuc n) = ltb observed (now + (n + 1) * 1000000)

module _ (lib : Stdlib) where
  unfoldable pub status_for : Fields → DateTime → Result String
  unfolding observed_time
  status_for observation now =
      if truthy (get observation "agent_alive")
      then (do
        observed_at ← observed_time lib observation
        stale ← item observation "stale_after_seconds"
        stale_after ← int_of lib stale
        if comparable now observed_at then ok tt else err type_error
        ok (if older_than now.instant observed_at.instant stale_after then "stale" else "alive"))
      else ok "unknown"

  unfoldable pub peer_entry : DateTime → String → Fields → Result Fields
  unfolding status_for
  peer_entry now agent_id observation = do
    status ← status_for observation now
    observed_at ← item observation "observed_at"
    heard ← item observation "heard_from_agent_id"
    reachable ← item observation "central_reachable"
    available ← item observation "local_adb_available"
    ok (
        dict (
          ("agent_id", str agent_id)
          ∷ ("status", str status)
          ∷ ("observed_at", observed_at)
          ∷ ("heard_from_agent_id", heard)
          ∷ ("central_reachable", bool (truthy reachable))
          ∷ ("local_adb_available", bool (truthy available))
          ∷ ("battery_percent", get observation "battery_percent")
          ∷ ("last_command_status", get observation "last_command_status")
          ∷ []))

  unfoldable pub peer_for : DateTime → Table Fields → String → Result Value
  unfolding peer_entry
  peer_for now observations agent_id = elim (lookup observations agent_id) [
    | none ↦ err (key_error agent_id)
    | some observation ↦ peer_entry now agent_id observation >>= λ entry. ok (obj entry)
  ]

  -- `now` is the argument, or the clock's reading where it is None.
  unfoldable pub summary : GossipState → DateTime → Result Fields
  unfolding peer_for
  summary s now = do
    peers ← map_ok (peer_for now s.observations) (sort_texts (keys s.observations))
    ok (
        dict (
          ("schema", str summary_schema)
          ∷ ("fleet_id", str s.fleet_id)
          ∷ ("observer_agent_id", str s.observer_agent_id)
          ∷ ("observed_at", str (lib.format_seconds now))
          ∷ ("known_peer_count", nat (length peers))
          ∷ ("forbidden_message_count", nat s.forbidden_message_count)
          ∷ ("peers", array peers)
          ∷ []))
