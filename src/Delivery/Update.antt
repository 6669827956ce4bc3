-- ===== src/Delivery/Update.antt =====
-- The updates of a delivery state in tools/peer_mesh_delivery.py: the summary, receipts, errors and
-- expiry. `clock` is what utc_now() returns.
use quest_termux_lab.Base.{
  Bool, List, Option, String, [], false, if◌then◌else◌, length, map, none, some, ◌&&◌, ◌∷◌,
}
use quest_termux_lab.Delivery.Validate.{
  delivery_states, terminal_states, validate_receipt, validate_state,
}
use quest_termux_lab.Gossip.Envelope.{if_text, parse_time}
use quest_termux_lab.Py.Dict.{
  check_members, count_text, first_dict, get, item, list_of, put, py_eq, sum,
}
use quest_termux_lab.Py.Result.{
  Result, err, guard, map_ok, ok, type_error, value_error, ◌>>=◌, ◌>>◌,
}
use quest_termux_lab.Py.Stdlib.{Stdlib, or_text, text_of}
use quest_termux_lab.Py.Time.{DateTime, at_most}
use quest_termux_lab.Py.Value.{
  Fields, Value, array, as_int, dict, int, is_text, nat, null, obj, on_dict, plus_one, str, text,
}

-- `delivery["target_agent_id"] == target and delivery["message_id"] == message`
unfoldable pub is_delivery : String → String → Value → Bool
is_delivery target message (obj d) =
    is_text (get d "target_agent_id") target && is_text (get d "message_id") message
is_delivery target message _ = false

-- find_delivery returns the first match, which the callers change in place: here the change is
-- applied to it.
unfoldable pub change_delivery :
    String → String → (Fields → Fields) → List Value → Result (List Value)
unfolding is_delivery
change_delivery target message change [] =
    err (value_error "delivery not found for target and message_id")
change_delivery target message change (v ∷ vs) =
    let rest = change_delivery target message change vs in
    if is_delivery target message v
    then ok (on_dict change v ∷ vs)
    else (rest >>= λ ws. ok (v ∷ ws))

unfoldable pub find_delivery : Fields → String → String → Result Fields
unfolding is_delivery
find_delivery state target message = do
  found ← item state "deliveries"
  deliveries ← list_of found
  first_dict (is_delivery target message) deliveries
      (value_error "delivery not found for target and message_id")

-- d[key] += 1, at the delivery's counter
unfoldable pub bump_attempts : Fields → Fields
bump_attempts d = elim (as_int (get d "attempt_count")) [
  | none ↦ d
  | some n ↦ put d "attempt_count" (int (plus_one n))
]

-- Changes one delivery of a state, as the callers of find_delivery do.
unfoldable pub with_delivery : Fields → String → String → (Fields → Fields) → Result Fields
unfolding change_delivery
with_delivery state target message change = do
  found ← item state "deliveries"
  deliveries ← list_of found
  changed ← change_delivery target message change deliveries
  ok (put state "deliveries" (array changed))

unfoldable pub record_receipt : Fields → Fields → Fields
unfolding bump_attempts
record_receipt receipt delivery =
    put
      (put
        (put (bump_attempts (put delivery "state" (get receipt "status"))) "last_attempt_at"
          (get receipt "observed_at"))
        "last_receipt_status" (get receipt "status"))
      "last_error" (if_text (get receipt "reason"))

unfoldable pub record_error : String → String → Fields → Fields
unfolding bump_attempts
record_error reason when delivery =
    put
      (put
        (put (bump_attempts (put delivery "state" (str "rejected"))) "last_attempt_at" (str when))
        "last_receipt_status" null)
      "last_error" (str reason)

unfoldable pub mark_expired : Fields → Fields
mark_expired delivery =
    put
      (put
        (put (put delivery "state" (str "expired")) "last_attempt_at"
          (get delivery "last_attempt_at"))
        "last_receipt_status" null)
      "last_error" (str "delivery expired before receipt")

module _ (lib : Stdlib) where
  -- str(delivery[key])
  unfoldable pub field_text : String → Value → Result String
  field_text key (obj d) = item d key >>= λ v. ok (text_of lib v)
  field_text key _ = err type_error

  unfoldable pub summarize : Fields → Result Fields
  unfolding field_text
  summarize state = do
    found ← item state "deliveries"
    deliveries ← list_of found
    states ← map_ok (field_text "state") deliveries
    check_members delivery_states states
    let count = λ (name : String). count_text name states
    ok (
        dict (
          ("delivery_count", nat (length deliveries))
          ∷ ("pending_count", nat (count "pending"))
          ∷ ("accepted_count", nat (count "accepted"))
          ∷ ("duplicate_count", nat (count "duplicate"))
          ∷ ("rejected_count", nat (count "rejected"))
          ∷ ("expired_count", nat (count "expired"))
          ∷ ("terminal_count", nat (sum (map count terminal_states)))
          ∷ []))

  -- The copies of the deliveries have no counterpart: values are not shared here.
  unfoldable pub refresh_summary : String → Fields → Option String → Result Fields
  unfolding summarize validate_state
  refresh_summary clock state observed_at = do
    validate_state state
    let updated = put state "observed_at" (str (or_text observed_at clock))
    counts ← summarize updated
    ok (put updated "summary" (obj counts))

  unfoldable pub apply_receipt : String → Fields → Fields → Option String → Result Fields
  unfolding refresh_summary validate_receipt with_delivery record_receipt
  apply_receipt clock state receipt target_agent_id = do
    validate_state state
    validate_receipt receipt
    fleet ← item receipt "fleet_id"
    own_fleet ← item state "fleet_id"
    guard (py_eq fleet own_fleet) (value_error "receipt fleet_id mismatch")
    let target = or_text target_agent_id (text (get receipt "observer_agent_id"))
    let observed_at = text (get receipt "observed_at")
    updated ← refresh_summary clock state (some observed_at)
    changed ←
        with_delivery updated target (text (get receipt "message_id")) (record_receipt receipt)
    refresh_summary clock changed (some observed_at)

  unfoldable pub apply_error :
      String → Fields → String → String → String → Option String → Result Fields
  unfolding refresh_summary with_delivery record_error
  apply_error clock state target_agent_id message_id reason observed_at = do
    validate_state state
    let when = or_text observed_at clock
    updated ← refresh_summary clock state (some when)
    changed ← with_delivery updated target_agent_id message_id (record_error reason when)
    refresh_summary clock changed (some when)

  -- The expiry of a pending delivery.
  unfoldable pub expire_overdue : DateTime → Fields → Result Value
  unfolding mark_expired
  expire_overdue now delivery = do
    expires ← item delivery "expires_at"
    expires_at ← parse_time lib (text_of lib expires)
    past ← at_most expires_at now
    ok (obj (if past then mark_expired delivery else delivery))

  -- One round of the loop of expire_pending.
  unfoldable pub expire_one : DateTime → Value → Result Value
  unfolding expire_overdue
  expire_one now (obj delivery) =
      if is_text (get delivery "state") "pending"
      then expire_overdue now delivery
      else ok (obj delivery)
  expire_one now _ = err type_error

  unfoldable pub expire_pending : String → Fields → Option String → Result Fields
  unfolding refresh_summary expire_one
  expire_pending clock state now_text = do
    validate_state state
    now ← parse_time lib (or_text now_text clock)
    updated ← refresh_summary clock state (some (lib.isoformat now))
    found ← item updated "deliveries"
    deliveries ← list_of found
    expired ← map_ok (expire_one now) deliveries
    refresh_summary clock (put updated "deliveries" (array expired)) (some (lib.isoformat now))
