-- ===== src/Trust/Tests.antt =====
-- Runs of the trust gate.
use quest_termux_lab.Base.{List, String, [], false, none, refl, true, ◌∷◌, ◌≡◌}
use quest_termux_lab.Bundle.{lab_bundle_report_schema}
use quest_termux_lab.Dispatch.{route_config_schema}
use quest_termux_lab.Gossip.Envelope.{
  contains_forbidden_key, forbidden_key, gossip_schema, validate_envelope,
}
use quest_termux_lab.Py.Dict.{py_eq}
use quest_termux_lab.Py.Result.{Result, err, is_ok, key_error, ok, value_of}
use quest_termux_lab.Py.Sample.{past_text, sample_lib}
use quest_termux_lab.Py.Value.{Fields, Value, array, bool, dict, nat, obj, str}
use quest_termux_lab.Trust.{trust_policy_schema}
use quest_termux_lab.Trust.Gate.{TrustReport, build_trust_report}
use quest_termux_lab.Trust.Trusted.{ShowsTrust, build_trust_report-ShowsTrust}

abbrev trust_policy : Fields
trust_policy = dict (
    ("schema", str trust_policy_schema)
    ∷ ("fleet_id", str "f1")
    ∷ ("source_agent_id", str "a1")
    ∷ ("observed_at", str past_text)
    ∷ ("policy_id", str "p1")
    ∷ ("experiment_scope", str "private_configured_peer_gossip_only")
    ∷ ("allowed_agent_ids", array (str "a1" ∷ str "a2" ∷ []))
    ∷ ("allowed_transport_modes", array (str "file_drop_simulator" ∷ []))
    ∷ ("required_message_schema", str gossip_schema)
    ∷ ("max_hop_ttl", nat 3)
    ∷ ("min_sample_envelopes", nat 1)
    ∷ ("require_configured_peers_only", bool true)
    ∷ ("require_trusted_bundle_status", bool true)
    ∷ ("operator_review_required", bool false)
    ∷ [])

abbrev trusted_config : Fields
trusted_config = dict (
    ("schema", str route_config_schema)
    ∷ ("fleet_id", str "f1")
    ∷ ("source_agent_id", str "a1")
    ∷ ("allowed_message_schemas", array (str gossip_schema ∷ []))
    ∷ (
      "routes",
      array (
          obj (
            dict (
              ("target_agent_id", str "a2")
              ∷ ("transport_mode", str "file_drop_simulator")
              ∷ ("target_inbox_dir", str "inbox")
              ∷ []))
          ∷ []),
    )
    ∷ [])

abbrev trusted_bundle : Fields
trusted_bundle = dict (
    ("schema", str lab_bundle_report_schema)
    ∷ ("fleet_id", str "f1")
    ∷ ("source_agent_id", str "a1")
    ∷ ("observed_at", str past_text)
    ∷ ("experiment_id", str "e1")
    ∷ ("experiment_scope", str "private_configured_peer_gossip_only")
    ∷ ("overall_status", str "synthetic_ready")
    ∷ (
      "summary",
      obj (
          dict (
            ("configured_route_count", nat 1)
            ∷ ("ready_route_count", nat 1)
            ∷ ("not_ready_route_count", nat 0)
            ∷ [])),
    )
    ∷ [])

abbrev observation : Fields
observation = dict (
    ("agent_id", str "a1")
    ∷ ("observed_at", str past_text)
    ∷ ("heard_from_agent_id", str "a2")
    ∷ ("heartbeat_sequence", nat 1)
    ∷ ("agent_alive", bool true)
    ∷ ("central_reachable", bool true)
    ∷ ("local_adb_available", bool true)
    ∷ ("stale_after_seconds", nat 30)
    ∷ [])

abbrev envelope_with : List (String × Value) → Fields
envelope_with hops = dict (
    ("schema", str gossip_schema)
    ∷ ("fleet_id", str "f1")
    ∷ ("message_id", str "m1")
    ∷ ("sender_agent_id", str "a2")
    ∷ ("observations", array (obj observation ∷ []))
    ∷ hops)

abbrev sample_envelope : Fields
sample_envelope = envelope_with (("hop_ttl", nat 2) ∷ [])

abbrev trust_on : Fields → Result TrustReport
trust_on envelope =
    build_trust_report sample_lib trust_policy trusted_config trusted_bundle (envelope ∷ []) none

trust_made : is_ok (trust_on sample_envelope) ≡ true
unfolding build_trust_report contains_forbidden_key forbidden_key py_eq validate_envelope
trust_made = refl

build_trust_report-ShowsTrust_example :
    ShowsTrust sample_lib trust_policy trusted_config trusted_bundle
      (sample_envelope ∷ [])
      (value_of (trust_on sample_envelope) trust_made)
unfolding build_trust_report contains_forbidden_key forbidden_key py_eq validate_envelope
build_trust_report-ShowsTrust_example =
    build_trust_report-ShowsTrust sample_lib trust_policy trusted_config trusted_bundle
      (sample_envelope ∷ []) none (value_of (trust_on sample_envelope) trust_made) refl refl

-- A hop count above the policy's is not trusted.
too_far :
    (r : TrustReport) × (trust_on (envelope_with (("hop_ttl", nat 4) ∷ [])) ≡ ok r)
    × (r.overall_status ≡ "untrusted")
unfolding build_trust_report contains_forbidden_key forbidden_key py_eq validate_envelope
too_far = (_, refl, refl)

-- An envelope without a hop count is valid gossip, and makes the gate raise.
no_hop_count : trust_on (envelope_with []) ≡ err (key_error "hop_ttl")
unfolding build_trust_report contains_forbidden_key forbidden_key py_eq validate_envelope
no_hop_count = refl
