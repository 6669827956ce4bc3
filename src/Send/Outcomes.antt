-- ===== src/Send/Outcomes.antt =====
-- The outcomes that tools/peer_mesh_send_dry_run.py simulates, and what it records of them.
use quest_termux_lab.Base.{
  Bool, List, Option, String, [], false, if◌then◌else◌, none, not, some, ◌&&◌, ◌==◌, ◌||◌, ◌∷◌,
}
use quest_termux_lab.Delivery.Update.{bump_attempts, is_delivery}
use quest_termux_lab.Delivery.Validate.{http_receipt_schema, require_texts}
use quest_termux_lab.Gossip.Envelope.{contains_forbidden_key, require_keys}
use quest_termux_lab.Py.Dict.{array_or, get, put}
use quest_termux_lab.Py.Result.{Check, Result, err, guard, ok, value_error, ◌>>=◌, ◌>>◌}
use quest_termux_lab.Py.Value.{
  Fields, Value, bool, dict, field, is_null, is_one_of, is_str, is_text, nat, null, obj, str, text,
}

abbrev pub outcomes_schema : String
outcomes_schema = "quest-termux-lab.peer-send-dry-run-outcomes.v1"

abbrev pub report_schema : String
report_schema = "quest-termux-lab.peer-send-dry-run-report.v1"

abbrev pub outcome_results : List String
outcome_results = "accepted" ∷ "duplicate" ∷ "rejected" ∷ "no_response" ∷ []

abbrev pub send_boundary : List Value
send_boundary =
    str "Send dry runs simulate configured-peer gossip delivery only."
    ∷ str
        "Send dry runs do not open sockets, copy files, discover peers, send gossip, use ADB, or launch apps."
    ∷ str
        "Send dry runs do not carry gossip bodies, commands, shell text, ADB targets, pairing material, install requests, or launch requests."
    ∷ []

-- `(target, message) in seen`
unfoldable pub seen_pair : String → String → List (String × String) → Bool
seen_pair target message [] = false
seen_pair target message ((t, m) ∷ rest) =
    (t == target && m == message) || seen_pair target message rest

-- One round of the loop of validate_outcomes, with the pairs seen before.
unfoldable pub validate_outcome : List (String × String) → Value → Result (List (String × String))
unfolding seen_pair require_texts
validate_outcome seen (obj outcome) = do
  require_texts "outcome missing " ("target_agent_id" ∷ "message_id" ∷ "result" ∷ []) outcome
  guard (is_one_of (get outcome "result") outcome_results)
      (value_error "unsupported outcome result")
  let target = text (get outcome "target_agent_id")
  let message = text (get outcome "message_id")
  guard (not (seen_pair target message seen)) (value_error "duplicate outcome target/message pair")
  guard (is_null (get outcome "reason") || is_str (get outcome "reason"))
      (value_error "outcome reason must be a string or null")
  ok ((target, message) ∷ seen)
validate_outcome seen _ = err (value_error "outcome entry must be an object")

unfoldable pub validate_each : List (String × String) → List Value → Check
unfolding validate_outcome
validate_each seen [] = ok tt
validate_each seen (v ∷ vs) = validate_outcome seen v >>= λ seen'. validate_each seen' vs

unfoldable pub validate_outcomes : Fields → Check
unfolding validate_each
validate_outcomes payload = do
  guard (is_text (get payload "schema") outcomes_schema)
      (value_error "unsupported dry-run outcomes schema")
  guard (not (contains_forbidden_key (obj payload)))
      (value_error "dry-run outcomes contain command-like or credential-like fields")
  require_keys "dry-run outcomes missing "
      ("fleet_id" ∷ "source_agent_id" ∷ "observed_at" ∷ "outcomes" ∷ []) payload
  outcomes ← array_or (get payload "outcomes") (value_error "outcomes must be an array")
  validate_each [] outcomes

-- outcomes_by_target(payload).get((target, message)): the dict is keyed by the pair, and valid
-- outcomes have no pair twice, so the first outcome of the pair is the one that the dict holds.
unfoldable pub outcome_for : List Value → String → String → Option Fields
unfolding is_delivery
outcome_for [] target message = none
outcome_for (obj o ∷ vs) target message =
    if is_delivery target message (obj o) then some o else outcome_for vs target message
outcome_for (_ ∷ vs) target message = outcome_for vs target message

-- `outcome or {...}`
unfoldable pub chosen_outcome : Fields → Option Fields → Fields
chosen_outcome dispatch (some (field k v d)) = field k v d
chosen_outcome dispatch _ = dict (
    ("target_agent_id", get dispatch "target_agent_id")
    ∷ ("message_id", get dispatch "message_id")
    ∷ ("result", str "no_response")
    ∷ ("reason", str "no synthetic outcome configured")
    ∷ [])

unfoldable pub synthetic_receipt : Fields → Fields → Fields → String → Fields
synthetic_receipt delivery_state dispatch outcome observed_at =
    let result = text (get outcome "result") in
    dict (
      ("schema", str http_receipt_schema)
      ∷ ("status", str result)
      ∷ ("observed_at", str observed_at)
      ∷ ("fleet_id", get delivery_state "fleet_id")
      ∷ ("observer_agent_id", get dispatch "target_agent_id")
      ∷ ("message_id", get dispatch "message_id")
      ∷ ("sender_agent_id", get delivery_state "source_agent_id")
      ∷ ("applied", bool (result == "accepted"))
      ∷ ("reason", get outcome "reason")
      ∷ ("known_peer_count", nat 0)
      ∷ ("accepted_message_count", nat 0)
      ∷ ("duplicate_message_count", nat 0)
      ∷ ("rejected_message_count", nat 0)
      ∷ ("expired_seen_message_count", nat 0)
      ∷ ("seen_message_ttl_seconds", nat 300)
      ∷ [])

unfoldable pub record_silence : String → String → Fields → Fields
unfolding bump_attempts
record_silence reason observed_at delivery =
    put
      (put (put (bump_attempts delivery) "last_attempt_at" (str observed_at)) "last_receipt_status"
        null)
      "last_error" (str reason)

-- The entry for a dispatch that is not ready.
unfoldable pub not_sent : Fields → Value
not_sent dispatch = obj (
    dict (
      ("delivery_id", get dispatch "delivery_id")
      ∷ ("target_agent_id", get dispatch "target_agent_id")
      ∷ ("message_id", get dispatch "message_id")
      ∷ ("dispatch_decision", get dispatch "decision")
      ∷ ("simulated_outcome", str "not_sent")
      ∷ ("transport_mode", get dispatch "transport_mode")
      ∷ ("method", get dispatch "method")
      ∷ ("delivery_state_after", get dispatch "delivery_state")
      ∷ ("reason", get dispatch "reason")
      ∷ []))
