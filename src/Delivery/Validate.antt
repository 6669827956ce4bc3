-- ===== src/Delivery/Validate.antt =====
-- The validation of delivery states and receipts in tools/peer_mesh_delivery.py.
use quest_termux_lab.Base.{List, String, [], not, ◌∷◌}
use quest_termux_lab.Gossip.Envelope.{require_keys}
use quest_termux_lab.Py.Dict.{array_or, get, keys}
use quest_termux_lab.Py.Result.{Check, Result, each, err, guard, ok, value_error, ◌>>=◌, ◌>>◌}
use quest_termux_lab.Py.Text.{◌+ₛ◌}
use quest_termux_lab.Py.Value.{
  Fields, Value, is_bool, is_count, is_name, is_one_of, is_text, obj, text,
}

abbrev pub delivery_state_schema : String
delivery_state_schema = "quest-termux-lab.peer-delivery-state.v1"

abbrev pub http_receipt_schema : String
http_receipt_schema = "quest-termux-lab.peer-http-gossip-receipt.v1"

abbrev pub delivery_states : List String
delivery_states = "pending" ∷ "accepted" ∷ "duplicate" ∷ "rejected" ∷ "expired" ∷ []

abbrev pub terminal_states : List String
terminal_states = "accepted" ∷ "duplicate" ∷ "rejected" ∷ "expired" ∷ []

-- `if not isinstance(d.get(key), str) or not d[key]: raise ValueError(prefix + key)`
unfoldable pub require_texts : String → List String → Fields → Check
require_texts prefix keys d =
    each (λ key. guard (is_name (get d key)) (value_error (prefix +ₛ key))) keys

abbrev pub delivery_keys : List String
delivery_keys =
    "delivery_id" ∷ "target_agent_id" ∷ "message_id" ∷ "state" ∷ "created_at" ∷ "expires_at" ∷ []

-- One round of the loop of validate_state, with the identifiers seen before.
unfoldable pub validate_delivery : List String → Value → Result (List String)
unfolding require_texts
validate_delivery seen (obj delivery) = do
  require_texts "delivery missing " delivery_keys delivery
  guard (is_one_of (get delivery "state") delivery_states)
      (value_error "unsupported delivery state")
  guard (not (is_one_of (get delivery "delivery_id") seen)) (value_error "duplicate delivery_id")
  guard (is_count (get delivery "attempt_count"))
      (value_error "delivery attempt_count must be a non-negative integer")
  ok (text (get delivery "delivery_id") ∷ seen)
validate_delivery seen _ = err (value_error "delivery entry must be an object")

unfoldable pub validate_deliveries : List String → List Value → Check
unfolding validate_delivery
validate_deliveries seen [] = ok tt
validate_deliveries seen (v ∷ vs) =
    validate_delivery seen v >>= λ seen'. validate_deliveries seen' vs

abbrev pub state_keys : List String
state_keys = "fleet_id" ∷ "source_agent_id" ∷ "observed_at" ∷ "deliveries" ∷ []

unfoldable pub validate_state : Fields → Check
unfolding validate_deliveries
validate_state state = do
  guard (is_text (get state "schema") delivery_state_schema)
      (value_error "unsupported delivery state schema")
  require_keys "delivery state missing " state_keys state
  deliveries ← array_or (get state "deliveries") (value_error "deliveries must be an array")
  validate_deliveries [] deliveries

unfoldable pub validate_receipt : Fields → Check
unfolding require_texts
validate_receipt receipt = do
  guard (is_text (get receipt "schema") http_receipt_schema)
      (value_error "unsupported receipt schema")
  guard (is_one_of (get receipt "status") ("accepted" ∷ "duplicate" ∷ []))
      (value_error "unsupported receipt status")
  require_texts "receipt missing "
      ("fleet_id" ∷ "observer_agent_id" ∷ "message_id" ∷ "observed_at" ∷ []) receipt
  guard (is_bool (get receipt "applied")) (value_error "receipt missing applied")
