-- ===== src/Delivery/Tests.antt =====
-- The theorem on tools/peer_mesh_delivery.py at a concrete state.
use quest_termux_lab.Base.{String, [], refl, some, ◌∷◌, ◌≡◌}
use quest_termux_lab.Delivery.Expiry.{IsExpired, expire_pending-IsExpired}
use quest_termux_lab.Delivery.Totals.{AddsUp, summarize-total}
use quest_termux_lab.Delivery.Update.{expire_pending, summarize}
use quest_termux_lab.Delivery.Validate.{delivery_state_schema, validate_state}
use quest_termux_lab.Gossip.Envelope.{parse_time, require_keys}
use quest_termux_lab.Py.Dict.{put, update}
use quest_termux_lab.Py.Result.{Result, err, ok}
use quest_termux_lab.Py.Sample.{future_text, past_text, sample_lib}
use quest_termux_lab.Py.Stdlib.{or_text}
use quest_termux_lab.Py.Time.{DateTime}
use quest_termux_lab.Py.Value.{Fields, Value, array, dict, end, nat, obj, str}

abbrev delivery : String → String → String → Value
delivery id state expires = obj (
    dict (
      ("delivery_id", str id)
      ∷ ("target_agent_id", str "quest-1")
      ∷ ("message_id", str "m1")
      ∷ ("state", str state)
      ∷ ("created_at", str past_text)
      ∷ ("expires_at", str expires)
      ∷ ("attempt_count", nat 0)
      ∷ []))

abbrev sample_state : Fields
sample_state = dict (
    ("schema", str delivery_state_schema)
    ∷ ("fleet_id", str "lab")
    ∷ ("source_agent_id", str "quest-2")
    ∷ ("observed_at", str past_text)
    ∷ (
      "deliveries",
      array (delivery "d1" "pending" past_text ∷ delivery "d2" "pending" future_text ∷ []),
    )
    ∷ [])

abbrev get_ok : Result Fields → Fields
get_ok (ok d) = d
get_ok (err e) = end

abbrev expired_state : Fields
expired_state = get_ok (expire_pending sample_lib "" sample_state (some past_text))

expire_test : expire_pending sample_lib "" sample_state (some past_text) ≡ ok expired_state
unfolding expire_pending validate_state put update require_keys parse_time
expire_test = refl

expire_pending-IsExpired_example :
    (now : DateTime) × (parse_time sample_lib (or_text (some past_text) "") ≡ ok now)
    × IsExpired sample_lib now sample_state expired_state
expire_pending-IsExpired_example =
    expire_pending-IsExpired sample_lib "" sample_state expired_state (some past_text) expire_test

valid_state : validate_state sample_state ≡ ok tt
unfolding validate_state require_keys
valid_state = refl

summarize-total_example :
    (counts : Fields) × (summarize sample_lib sample_state ≡ ok counts) × AddsUp counts
summarize-total_example = summarize-total sample_lib sample_state valid_state
