-- ===== src/Retry.antt =====
-- tools/peer_mesh_retry_plan.py: when a pending delivery is tried again. Reading and writing files
-- and the command line are left out.
pub mod Due
mod Tests
use Prim.Native.Nat.{min}
use quest_termux_lab.Base.{
  Bool, List, Option, String, [], any, false, if◌then◌else◌, leb, length, member, none, not, some,
  suc, true, zero, ℕ, ◌||◌, ◌∷◌,
}
use quest_termux_lab.Delivery.Update.{expire_pending, field_text}
use quest_termux_lab.Delivery.Validate.{terminal_states, validate_state}
use quest_termux_lab.Gossip.Envelope.{contains_forbidden_key, parse_time, require_keys}
use quest_termux_lab.Py.Dict.{array_or, check_members, count_text, get, item, list_of, py_eq}
use quest_termux_lab.Py.Result.{
  Check, Result, each, err, guard, map_ok, ok, overflow_error, type_error, value_error, ◌>>=◌, ◌>>◌,
}
use quest_termux_lab.Py.Stdlib.{Stdlib, at_least_one, or_text, plus_seconds, text_of}
use quest_termux_lab.Py.Text.{◌+ₛ◌}
use quest_termux_lab.Py.Time.{DateTime, at_most}
use quest_termux_lab.Py.Value.{
  Fields, Value, array, count_of, dict, is_count, is_name, is_null, is_one_of, is_positive, is_text,
  nat, null, obj, str,
}

abbrev pub retry_policy_schema : String
retry_policy_schema = "quest-termux-lab.peer-retry-policy.v1"

abbrev pub retry_plan_schema : String
retry_plan_schema = "quest-termux-lab.peer-retry-plan.v1"

abbrev pub decisions : List String
decisions =
    "due_now" ∷ "waiting_backoff" ∷ "max_attempts_reached" ∷ "non_retryable_error" ∷ "expired"
    ∷ "terminal" ∷ []

abbrev pub policy_keys : List String
policy_keys =
    "fleet_id" ∷ "source_agent_id" ∷ "observed_at" ∷ "max_attempts" ∷ "min_retry_delay_seconds"
    ∷ "max_retry_delay_seconds" ∷ "backoff_multiplier" ∷ "retryable_errors" ∷ []

unfoldable pub check_delay : Fields → String → Check
check_delay policy key =
    guard (is_count (get policy key)) (value_error (key +ₛ " must be a non-negative integer"))

unfoldable pub check_error : Value → Check
check_error v = guard (is_name v) (value_error "retryable_errors entries must be non-empty strings")

-- A policy's numbers, once it is valid.
abbrev pub max_attempts : Fields → ℕ
max_attempts policy = count_of (get policy "max_attempts")

abbrev pub min_delay : Fields → ℕ
min_delay policy = count_of (get policy "min_retry_delay_seconds")

abbrev pub max_delay : Fields → ℕ
max_delay policy = count_of (get policy "max_retry_delay_seconds")

-- `last_error is None`, one of the policy's retryable errors, or a policy that has "*"
unfoldable pub is_retryable_error : List Value → Value → Bool
is_retryable_error retryable null = true
is_retryable_error retryable (str e) = any (λ v. is_text v "*" || is_text v e) retryable
is_retryable_error retryable _ = false

abbrev pub plan_policy : Fields → Fields
plan_policy policy = dict (
    ("max_attempts", get policy "max_attempts")
    ∷ ("min_retry_delay_seconds", get policy "min_retry_delay_seconds")
    ∷ ("max_retry_delay_seconds", get policy "max_retry_delay_seconds")
    ∷ ("backoff_multiplier", get policy "backoff_multiplier")
    ∷ [])

abbrev pub retry_boundary : List Value
retry_boundary =
    str "Retry plans schedule gossip delivery attempts only."
    ∷ str
        "Retry plans do not open sockets, copy files, discover peers, send gossip, use ADB, or launch apps."
    ∷ str
        "Retry plans do not carry gossip bodies, commands, shell text, ADB targets, pairing material, install requests, or launch requests."
    ∷ []

-- The rounded power, cut to the maximum, where math.pow gives one.
unfoldable pub capped : ℕ → Option ℕ → Result ℕ
capped maximum none = err overflow_error
capped maximum (some raw) = ok (min maximum raw)

module _ (lib : Stdlib) where
  unfoldable pub validate_policy : Fields → Check
  unfolding check_delay check_error
  validate_policy policy = do
    guard (is_text (get policy "schema") retry_policy_schema)
        (value_error "unsupported retry policy schema")
    guard (not (contains_forbidden_key (obj policy)))
        (value_error "retry policy contains command-like or credential-like fields")
    require_keys "retry policy missing " policy_keys policy
    guard (is_positive (get policy "max_attempts"))
        (value_error "max_attempts must be a positive integer")
    check_delay policy "min_retry_delay_seconds"
    check_delay policy "max_retry_delay_seconds"
    guard (leb (min_delay policy) (max_delay policy))
        (value_error "max_retry_delay_seconds must be >= min_retry_delay_seconds")
    guard (at_least_one lib (get policy "backoff_multiplier"))
        (value_error "backoff_multiplier must be >= 1")
    errors ←
        array_or (get policy "retryable_errors") (value_error "retryable_errors must be an array")
    each check_error errors

  unfoldable pub retry_delay_seconds : Fields → ℕ → Result ℕ
  unfolding capped
  retry_delay_seconds policy zero = ok 0
  retry_delay_seconds policy (suc n) =
      capped (max_delay policy) (lib.scaled (min_delay policy) (get policy "backoff_multiplier") n)

  -- The time of the next attempt, where the last one was at `last`.
  unfoldable pub next_attempt : Fields → Fields → Value → Result (ℕ × DateTime)
  unfolding retry_delay_seconds
  next_attempt policy delivery last = do
    delay ← retry_delay_seconds policy (count_of (get delivery "attempt_count"))
    last_attempt ← parse_time lib (text_of lib last)
    time ← plus_seconds lib last_attempt delay
    ok (delay, time)

  -- `next_attempt_at` and `backoff_delay_seconds` of an entry
  unfoldable pub schedule : Fields → DateTime → String → Fields → Result (Value × ℕ)
  unfolding next_attempt
  schedule policy now decision delivery =
      if member decision ("due_now" ∷ "waiting_backoff" ∷ [])
      then (if is_null (get delivery "last_attempt_at")
          then ok (str (lib.format_seconds now), 0)
          else (do
            planned ← next_attempt policy delivery (get delivery "last_attempt_at")
            ok (str (lib.format_seconds planned.1), planned.0)))
      else ok (null, 0)

  unfoldable pub retry_entry : Fields → DateTime → Fields → String → String → Result Value
  unfolding schedule
  retry_entry policy now delivery decision reason = do
    guard (member decision decisions) (value_error "unsupported retry decision")
    timing ← schedule policy now decision delivery
    ok (
        obj (
          dict (
            ("delivery_id", get delivery "delivery_id")
            ∷ ("target_agent_id", get delivery "target_agent_id")
            ∷ ("message_id", get delivery "message_id")
            ∷ ("delivery_state", get delivery "state")
            ∷ ("attempt_count", get delivery "attempt_count")
            ∷ ("decision", str decision)
            ∷ ("next_attempt_at", timing.0)
            ∷ ("backoff_delay_seconds", nat timing.1)
            ∷ ("expires_at", get delivery "expires_at")
            ∷ ("last_error", get delivery "last_error")
            ∷ ("reason", str reason)
            ∷ [])))

  -- The backoff test at the end of the loop, for a delivery with a last attempt.
  unfoldable pub decide_backoff : Fields → DateTime → Fields → Value → Result (String × String)
  unfolding next_attempt
  decide_backoff policy now delivery last = do
    planned ← next_attempt policy delivery last
    due ← at_most planned.1 now
    ok (
        if due
        then ("due_now", "retry backoff elapsed")
        else ("waiting_backoff", "retry backoff active"))

  unfoldable pub decide : Fields → List Value → DateTime → Fields → Result (String × String)
  unfolding decide_backoff is_retryable_error
  decide policy retryable now delivery =
      if is_text (get delivery "state") "expired"
      then ok ("expired", "delivery expired")
      else if is_one_of (get delivery "state") terminal_states
      then ok ("terminal", "delivery already terminal")
      else if leb (max_attempts policy) (count_of (get delivery "attempt_count"))
      then ok ("max_attempts_reached", "max attempts reached")
      else if not (is_retryable_error retryable (get delivery "last_error"))
      then ok ("non_retryable_error", "last error is not retryable")
      else if is_null (get delivery "last_attempt_at")
      then ok ("due_now", "no previous attempt")
      else decide_backoff policy now delivery (get delivery "last_attempt_at")

  -- One round of the loop of build_retry_plan.
  unfoldable pub plan_retry : Fields → List Value → DateTime → Value → Result Value
  unfolding decide retry_entry
  plan_retry policy retryable now (obj delivery) = do
    decided ← decide policy retryable now delivery
    retry_entry policy now delivery decided.0 decided.1
  plan_retry policy retryable now _ = err type_error

  unfoldable pub summarize : List Value → Result Fields
  unfolding field_text
  summarize retries = do
    found ← map_ok (field_text lib "decision") retries
    check_members decisions found
    ok (
        dict (
          ("retry_count", nat (length retries))
          ∷ ("due_now_count", nat (count_text "due_now" found))
          ∷ ("waiting_backoff_count", nat (count_text "waiting_backoff" found))
          ∷ ("max_attempts_reached_count", nat (count_text "max_attempts_reached" found))
          ∷ ("non_retryable_error_count", nat (count_text "non_retryable_error" found))
          ∷ ("expired_count", nat (count_text "expired" found))
          ∷ ("terminal_count", nat (count_text "terminal" found))
          ∷ []))

  unfoldable pub build_retry_plan : String → Fields → Fields → Option String → Result Fields
  unfolding validate_policy plan_retry summarize
  build_retry_plan clock delivery_state policy now_text = do
    validate_state delivery_state
    validate_policy policy
    guard (py_eq (get policy "fleet_id") (get delivery_state "fleet_id"))
        (value_error "retry policy fleet_id mismatch")
    guard (py_eq (get policy "source_agent_id") (get delivery_state "source_agent_id"))
        (value_error "retry policy source_agent_id mismatch")
    let observed_at = or_text now_text (text_of lib (get policy "observed_at"))
    now ← parse_time lib observed_at
    refreshed ← expire_pending lib clock delivery_state (some observed_at)
    found ← item refreshed "deliveries"
    deliveries ← list_of found
    retryable ← list_of (get policy "retryable_errors")
    retries ← map_ok (plan_retry policy retryable now) deliveries
    counts ← summarize retries
    ok (
        dict (
          ("schema", str retry_plan_schema)
          ∷ ("fleet_id", get refreshed "fleet_id")
          ∷ ("source_agent_id", get refreshed "source_agent_id")
          ∷ ("observed_at", str observed_at)
          ∷ ("policy", obj (plan_policy policy))
          ∷ ("retries", array retries)
          ∷ ("summary", obj counts)
          ∷ ("authority_boundary", array retry_boundary)
          ∷ []))
