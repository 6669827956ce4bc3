-- ===== src/Gossip/Tests.antt =====
-- The theorems on tools/peer_mesh_gossip.py at concrete envelopes.
use quest_termux_lab.Base.{List, String, [], false, none, refl, some, true, ℕ, ◌-◌, ◌∷◌, ◌≡◌, ◌≤◌}
use quest_termux_lab.Gossip.Conversion.{observation_from_heartbeat-is_clean}
use quest_termux_lab.Gossip.Envelope.{
  contains_forbidden_key, forbidden_key, gossip_boundary, gossip_schema, heartbeat_schema,
  observation_from_heartbeat, relay_envelope, relayed_fields, validate_envelope,
}
use quest_termux_lab.Gossip.Relay.{IsRelay, Relayed-le, relay, relay_envelope-IsRelay, sent}
use quest_termux_lab.Gossip.State.{GossipState, merge_envelope}
use quest_termux_lab.Gossip.State.Merge.{Advances, merge_envelope-Advances}
use quest_termux_lab.Py.Dict.{get?, lookup, put}
use quest_termux_lab.Py.Result.{ok}
use quest_termux_lab.Py.Sample.{past_text, sample_lib}
use quest_termux_lab.Py.Value.{Fields, Value, array, bool, dict, int, nat, null, obj, pos, str}

abbrev observation : ℕ → String → Value
observation sequence observed_at = obj (
    dict (
      ("agent_id", str "quest-1")
      ∷ ("observed_at", str observed_at)
      ∷ ("heard_from_agent_id", str "quest-1")
      ∷ ("heartbeat_sequence", nat sequence)
      ∷ ("agent_alive", bool true)
      ∷ ("central_reachable", bool true)
      ∷ ("local_adb_available", bool true)
      ∷ ("stale_after_seconds", nat 60)
      ∷ []))

abbrev envelope : ℕ → List Value → Fields
envelope ttl observations = dict (
    ("schema", str gossip_schema)
    ∷ ("fleet_id", str "lab")
    ∷ ("message_id", str "m1")
    ∷ ("sender_agent_id", str "quest-1")
    ∷ ("created_at", str past_text)
    ∷ ("hop_ttl", nat ttl)
    ∷ ("observations", array observations)
    ∷ ("authority_boundary", array gossip_boundary)
    ∷ [])

abbrev origin : Fields
origin = envelope 3 (observation 1 past_text ∷ [])

abbrev relayed_once : Fields
relayed_once =
    relayed_fields "now" "quest-2" "m2" (str "lab") (pos 2)
      (obj (
          dict (
            ("agent_id", str "quest-1")
            ∷ ("observed_at", str past_text)
            ∷ ("heard_from_agent_id", str "quest-2")
            ∷ ("heartbeat_sequence", nat 1)
            ∷ ("agent_alive", bool true)
            ∷ ("central_reachable", bool true)
            ∷ ("local_adb_available", bool true)
            ∷ ("stale_after_seconds", nat 60)
            ∷ []))
        ∷ [])
      gossip_boundary

relay_test : relay_envelope sample_lib "now" origin "quest-2" "m2" ≡ ok relayed_once
unfolding relay_envelope validate_envelope contains_forbidden_key forbidden_key put
relay_test = refl

relay_envelope-IsRelay_example : IsRelay sample_lib origin relayed_once
relay_envelope-IsRelay_example =
    relay_envelope-IsRelay sample_lib "now" "quest-2" "m2" origin relayed_once relay_test

Relayed-le_example : (1 ≤ 3) × (get? relayed_once "hop_ttl" ≡ some (int (pos (3 - 1))))
Relayed-le_example =
    Relayed-le sample_lib origin relayed_once 1 3 refl (relay "now" "quest-2" "m2" sent relay_test)

abbrev heartbeat : Fields
heartbeat = dict (
    ("schema", str heartbeat_schema)
    ∷ ("fleet_id", str "lab")
    ∷ ("agent_id", str "quest-1")
    ∷ ("sequence", nat 7)
    ∷ ("observed_at", str past_text)
    ∷ ("central_reachable", bool true)
    ∷ ("local_adb", obj (dict (("available", bool true) ∷ ("shell_uid", str "2000") ∷ [])))
    ∷ ("adb_target", str "127.0.0.1:5555")
    ∷ [])

abbrev observed : Fields
observed = dict (
    ("agent_id", str "quest-1")
    ∷ ("observed_at", str past_text)
    ∷ ("heard_from_agent_id", str "quest-1")
    ∷ ("heartbeat_sequence", nat 7)
    ∷ ("agent_alive", bool true)
    ∷ ("central_reachable", bool true)
    ∷ ("local_adb_available", bool true)
    ∷ ("local_adb_shell_uid", str "2000")
    ∷ ("battery_percent", null)
    ∷ ("last_command_status", null)
    ∷ ("stale_after_seconds", nat 60)
    ∷ ("summary_hash", null)
    ∷ [])

observation_test :
    observation_from_heartbeat sample_lib heartbeat (some "quest-1") (pos 60) none ≡ ok observed
unfolding observation_from_heartbeat
observation_test = refl

observation_from_heartbeat-is_clean_example : contains_forbidden_key (obj observed) ≡ false
observation_from_heartbeat-is_clean_example =
    observation_from_heartbeat-is_clean sample_lib heartbeat observed (some "quest-1") (pos 60) none
      observation_test

abbrev observer : GossipState
observer = record {
  fleet_id = "lab";
  observer_agent_id = "quest-3";
  observations = [];
  forbidden_message_count = 0;
}

merge_envelope-Advances_example :
    Advances sample_lib none
      (lookup (merge_envelope sample_lib observer origin).0.observations "quest-1")
merge_envelope-Advances_example = merge_envelope-Advances sample_lib observer origin "quest-1"
