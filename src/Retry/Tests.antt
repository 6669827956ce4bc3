-- ===== src/Retry/Tests.antt =====
-- The theorems on tools/peer_mesh_retry_plan.py at a concrete policy.
use quest_termux_lab.Base.{[], refl, ◌∷◌, ◌≡◌}
use quest_termux_lab.Py.Result.{ok}
use quest_termux_lab.Py.Sample.{sample_lib, utc}
use quest_termux_lab.Py.Value.{Fields, dict, nat, null, str}
use quest_termux_lab.Retry.{decide, retry_delay_seconds, retry_policy_schema}
use quest_termux_lab.Retry.Due.{MayRetry, decide-MayRetry}

abbrev sample_policy : Fields
sample_policy = dict (
    ("schema", str retry_policy_schema)
    ∷ ("max_attempts", nat 3)
    ∷ ("min_retry_delay_seconds", nat 1)
    ∷ ("max_retry_delay_seconds", nat 4)
    ∷ ("backoff_multiplier", nat 2)
    ∷ [])

abbrev sample_delivery : Fields
sample_delivery = dict (
    ("state", str "pending")
    ∷ ("attempt_count", nat 2)
    ∷ ("last_attempt_at", null)
    ∷ ("last_error", str "timeout")
    ∷ [])

delay_test : retry_delay_seconds sample_lib sample_policy 2 ≡ ok 1
unfolding retry_delay_seconds
delay_test = refl

decide_test :
    decide sample_lib sample_policy (str "*" ∷ []) (utc 5000) sample_delivery
    ≡ ok ("due_now", "no previous attempt")
unfolding decide
decide_test = refl

decide-MayRetry_example :
    MayRetry sample_lib sample_policy (str "*" ∷ []) (utc 5000) sample_delivery
decide-MayRetry_example =
    decide-MayRetry sample_lib sample_policy (utc 5000) sample_delivery (str "*" ∷ [])
      "no previous attempt" decide_test
