-- ===== src/Retry/Due.antt =====
-- When tools/peer_mesh_retry_plan.py says that a delivery is due.
use quest_termux_lab.Base.{
  Bool, List, String, ap, arith, different, false, if◌then◌else◌, leb, not, not-false, refl, true,
  ℕ, ◌<◌, ◌==◌, ◌∙◌, ◌≡◌,
}
use quest_termux_lab.Delivery.Validate.{terminal_states}
use quest_termux_lab.Py.Dict.{get}
use quest_termux_lab.Py.Result.{Result, ok, ok-injective, on_ok}
use quest_termux_lab.Py.Stdlib.{Stdlib}
use quest_termux_lab.Py.Time.{DateTime, at_most}
use quest_termux_lab.Py.Value.{Fields, Value, count_of, is_null, is_one_of, is_text}
use quest_termux_lab.Retry.{decide, decide_backoff, is_retryable_error, max_attempts, next_attempt}

-- What holds of a pending delivery that is due at `now`, where its last attempt is `last`.
pub data IsDue (lib : Stdlib) (policy : Fields) (now : DateTime) (delivery : Fields) : Type 0 where
  never_tried : is_null (get delivery "last_attempt_at") ≡ true → IsDue lib policy now delivery
  backed_off :
      (delay : ℕ) (time : DateTime)
      → next_attempt lib policy delivery (get delivery "last_attempt_at") ≡ ok (delay, time)
      → at_most time now ≡ ok true
      → IsDue lib policy now delivery

pub record MayRetry (lib : Stdlib) (policy : Fields) (retryable : List Value) (now : DateTime)
    (delivery : Fields) : Type 0 where
  pub pending : is_one_of (get delivery "state") terminal_states ≡ false
  pub attempts : count_of (get delivery "attempt_count") < max_attempts policy
  pub error : is_retryable_error retryable (get delivery "last_error") ≡ true
  pub due : IsDue lib policy now delivery

pass_decision :
    (b : Bool) (p : String × String) (rest : Result (String × String)) (reason : String)
    → (p.0 == "due_now") ≡ false
    → (if b then ok p else rest) ≡ ok ("due_now", reason)
    → (b ≡ false) × (rest ≡ ok ("due_now", reason))
pass_decision true p rest reason other h =
    absurd (different p.0 "due_now" other (ap (λ q. q.0) (ok-injective h)))
pass_decision false p rest reason other h = (refl, h)

abbrev judged : Bool → String × String
judged due =
    if due
    then ("due_now", "retry backoff elapsed")
    else ("waiting_backoff", "retry backoff active")

due_only : (b : Bool) (reason : String) → judged b ≡ ("due_now", reason) → b ≡ true
due_only true reason h = refl
due_only false reason h = absurd (different _ _ refl (ap (λ q. q.0) h))

module _ (lib : Stdlib) (policy : Fields) (now : DateTime) (delivery : Fields) where
  decide_backoff-IsDue :
      (reason : String)
      → decide_backoff lib policy now delivery (get delivery "last_attempt_at")
        ≡ ok ("due_now", reason)
      → IsDue lib policy now delivery
  unfolding decide_backoff
  decide_backoff-IsDue reason h =
      on_ok (next_attempt lib policy delivery (get delivery "last_attempt_at")) h λ planned e h1.
        on_ok (at_most planned.1 now) h1 λ due late h2.
          let sure : due ≡ true = due_only due reason (ok-injective h2) in
          backed_off planned.0 planned.1 e (late ∙ ap ok sure)

  last-IsDue :
      (b : Bool) (reason : String)
      → is_null (get delivery "last_attempt_at") ≡ b
      → (if b
          then ok ("due_now", "no previous attempt")
          else decide_backoff lib policy now delivery (get delivery "last_attempt_at"))
        ≡ ok ("due_now", reason)
      → IsDue lib policy now delivery
  last-IsDue true reason e h = never_tried e
  last-IsDue false reason e h = decide_backoff-IsDue reason h

  leb-lt : (m n : ℕ) → leb m n ≡ false → n < m
  leb-lt m n h = ground arith

  -- A delivery is decided to be due now only where it is pending, has been tried fewer times than
  -- the policy's maximum, its last error may be retried, and either it was never tried or the time
  -- of its next attempt has come.
  pub decide-MayRetry :
      (retryable : List Value) (reason : String)
      → decide lib policy retryable now delivery ≡ ok ("due_now", reason)
      → MayRetry lib policy retryable now delivery
  unfolding decide
  decide-MayRetry retryable reason h =
      let (_, h1) = pass_decision (is_text (get delivery "state") "expired") _ _ reason refl h in
      let (pending, h2) =
        pass_decision (is_one_of (get delivery "state") terminal_states) _ _ reason refl h1 in
      let (attempts, h3) =
        pass_decision (leb (max_attempts policy) (count_of (get delivery "attempt_count"))) _ _
          reason refl h2 in
      let (error, h4) =
        pass_decision (not (is_retryable_error retryable (get delivery "last_error"))) _ _ reason
          refl h3 in
      record {
        pending = pending;
        attempts = leb-lt _ _ attempts;
        error = not-false _ error;
        due = last-IsDue _ reason refl h4;
      }
