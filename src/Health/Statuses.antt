-- ===== src/Health/Statuses.antt =====
-- The statuses that tools/peer_mesh_route_health.py gives a route.
-- A judgement that is made, of one of the listed statuses.
use mathlib.Core.Path.{subst}
use quest_termux_lab.Base.{
  Bool, List, Option, String, [], false, if◌then◌else◌, member, none, refl, some, sym, true, ◌==◌,
  ◌∷◌, ◌≡◌,
}
use quest_termux_lab.Delivery.Validate.{require_texts}
use quest_termux_lab.Dispatch.{validate_route}
use quest_termux_lab.Entries.Texts.{HasText, require_texts-HasText}
use quest_termux_lab.Health.Report.{
  action_texts, found_in, optional, retry_in, retry_texts, route_entry, route_fields, route_status,
  route_statuses, status_from_action, status_from_retry, status_not_sent, status_of_outcome,
  status_of_retry, validate_action, validate_retry,
}
use quest_termux_lab.Py.Dict.{get?, get_or}
use quest_termux_lab.Py.Result.{Result, ok, on_ok, ◌>>=◌}
use quest_termux_lab.Py.Stdlib.{Stdlib, text_of}
use quest_termux_lab.Py.Time.{later}
use quest_termux_lab.Py.Value.{Fields, Value, is_text, obj, str}

pub record IsJudged (made : Result (String × String)) : Type 0 where
  pub status : String
  pub reason : String
  pub judged : made ≡ ok (status, reason)
  pub listed : member status route_statuses ≡ true

if-IsJudged :
    (b : Bool) (p q : Result (String × String))
    → IsJudged p
    → IsJudged q
    → IsJudged (if b then p else q)
if-IsJudged true p q h k = h
if-IsJudged false p q h k = k

ok-IsJudged :
    (status reason : String) → member status route_statuses ≡ true → IsJudged (ok (status, reason))
ok-IsJudged status reason h = record { status = status; reason = reason; judged = refl; listed = h }

-- A choice between two judgements is a judgement.
ok_if-IsJudged :
    (b : Bool) (p q : String × String)
    → IsJudged (ok p)
    → IsJudged (ok q)
    → IsJudged (ok (if b then p else q))
ok_if-IsJudged true p q h k = h
ok_if-IsJudged false p q h k = k

ruleset judgements = (if-IsJudged, ok_if-IsJudged, ok-IsJudged)

then-IsJudged :
    {A : Type 0} (m : Result A) (a : A) (f : A → Result (String × String))
    → m ≡ ok a
    → IsJudged (f a)
    → IsJudged (m >>= f)
then-IsJudged m a f h k = subst (λ r. IsJudged (r >>= f)) (sym h) k

validate_action-HasText :
    (action : Fields)
    → validate_action (obj action) ≡ ok tt
    → HasText action "simulated_outcome" × HasText action "dispatch_decision"
unfolding validate_action
validate_action-HasText action h =
    on_ok (require_texts "send dry-run action missing " action_texts action) h λ u named _.
      let (_, (_, (outcome, (decision, _)))) =
        require_texts-HasText "send dry-run action missing " action_texts action u named in
      (outcome, decision)

validate_retry-HasText :
    (retry : Fields)
    → validate_retry (obj retry) ≡ ok tt
    → HasText retry "delivery_state" × HasText retry "decision"
unfolding validate_retry
validate_retry-HasText retry h =
    on_ok (require_texts "retry entry missing " retry_texts retry) h λ u named _.
      let (_, (_, (state, (decision, _)))) =
        require_texts-HasText "retry entry missing " retry_texts retry u named in
      (state, decision)

pub validate_route-HasText :
    (lib : Stdlib) (seen later : List String) (route : Fields)
    → validate_route lib seen (obj route) ≡ ok later
    → HasText route "target_agent_id" × HasText route "transport_mode"
unfolding validate_route
validate_route-HasText lib seen later route h =
    on_ok (require_texts "route missing " ("target_agent_id" ∷ "transport_mode" ∷ []) route) h
      λ u named _.
        let (target, (mode, _)) =
          require_texts-HasText "route missing " ("target_agent_id" ∷ "transport_mode" ∷ []) route u
            named in
        (target, mode)

-- A retry entry that its validator accepts, where there is one.
abbrev pub IsValidRetry : Option Fields → Type 0
IsValidRetry retry = optional (λ d. validate_retry (obj d)) retry ≡ ok tt

abbrev pub IsValidAction : Option Fields → Type 0
IsValidAction action = optional (λ d. validate_action (obj d)) action ≡ ok tt

retry_in-read :
    (retry : Option Fields) (names : List String)
    → IsValidRetry retry
    → (b : Bool) × (retry_in retry names ≡ ok b)
retry_in-read none names h = (false, refl)
retry_in-read (some retry) names h =
    let decision = (validate_retry-HasText retry h).1 in
    (
      member decision.held names,
      subst (λ r. (r >>= found_in names) ≡ ok (member decision.held names)) (sym decision.read)
          refl,
    )

status_not_sent-IsJudged :
    (decision state : String) → IsJudged (ok (status_not_sent decision state))
unfolding status_not_sent
status_not_sent-IsJudged decision state = search (judgements) depth 12

status_of_retry-IsJudged :
    (decision state : String) → IsJudged (ok (status_of_retry decision state))
unfolding status_of_retry
status_of_retry-IsJudged decision state = search (judgements) depth 12

status_of_outcome-IsJudged :
    (outcome decision state : String) (retry : Option Fields)
    → IsValidRetry retry
    → IsJudged (status_of_outcome outcome decision state retry)
unfolding status_of_outcome
status_of_outcome-IsJudged outcome decision state retry h =
    let (b, given_up) =
      retry_in-read retry ("max_attempts_reached" ∷ "non_retryable_error" ∷ "expired" ∷ []) h in
    let (c, allowed) = retry_in-read retry ("due_now" ∷ "waiting_backoff" ∷ []) h in
    if-IsJudged (member outcome ("accepted" ∷ "duplicate" ∷ [])) _ _ (ok-IsJudged _ _ refl) (
      if-IsJudged (outcome == "no_response") _ _
        (then-IsJudged _ b _ given_up
          (ok_if-IsJudged b _ _ (ok-IsJudged _ _ refl) (ok-IsJudged _ _ refl)))
        (if-IsJudged (outcome == "rejected") _ _
          (then-IsJudged _ c _ allowed
            (ok_if-IsJudged c _ _ (ok-IsJudged _ _ refl) (ok-IsJudged _ _ refl)))
          (if-IsJudged (outcome == "not_sent") _ _ (status_not_sent-IsJudged decision state)
            (ok-IsJudged _ _ refl))))

status_from_action-IsJudged :
    (lib : Stdlib) (action : Fields) (retry : Option Fields)
    → validate_action (obj action) ≡ ok tt
    → IsValidRetry retry
    → IsJudged (status_from_action lib action retry)
unfolding status_from_action
status_from_action-IsJudged lib action retry h valid =
    let (outcome, decision) = validate_action-HasText action h in
    then-IsJudged _ (str outcome.held) _ outcome.read (
      then-IsJudged _ (str decision.held) _ decision.read (
        status_of_outcome-IsJudged outcome.held decision.held
          (text_of lib (get_or action "delivery_state_after" (str "pending"))) retry valid))

status_from_retry-IsJudged :
    (lib : Stdlib) (retry : Option Fields)
    → IsValidRetry retry
    → IsJudged (status_from_retry lib retry)
unfolding status_from_retry
status_from_retry-IsJudged lib none h = ok-IsJudged _ _ refl
status_from_retry-IsJudged lib (some retry) h =
    let (state, decision) = validate_retry-HasText retry h in
    then-IsJudged _ (str decision.held) _ decision.read (
      then-IsJudged _ (str state.held) _ state.read
        (status_of_retry-IsJudged decision.held state.held))

route_status-IsJudged :
    (lib : Stdlib) (mode : Value) (action retry : Option Fields)
    → IsValidAction action
    → IsValidRetry retry
    → IsJudged (route_status lib mode action retry)
unfolding route_status
route_status-IsJudged lib mode none retry h k =
    if-IsJudged (is_text mode "disabled") _ _ (ok-IsJudged _ _ refl)
      (status_from_retry-IsJudged lib retry k)
route_status-IsJudged lib mode (some action) retry h k =
    if-IsJudged (is_text mode "disabled") _ _ (ok-IsJudged _ _ refl)
      (status_from_action-IsJudged lib action retry h k)

-- The entry of a route, with the status that was judged.
pub record HasEntry (made : Result Value) : Type 0 where
  pub entry : Fields
  pub returned : made ≡ ok (obj entry)
  pub status : String
  pub shown_status : get? entry "status" ≡ some (str status)
  pub listed : member status route_statuses ≡ true

-- For a route, an action and a retry entry that their validators accept, where there is an action or
-- a retry entry at all, route_entry returns an entry whose status is a listed one: it raises neither
-- a KeyError nor the error for an unsupported status.
pub route_entry-HasEntry :
    (lib : Stdlib) (seen later : List String) (route : Fields) (action retry : Option Fields)
    → validate_route lib seen (obj route) ≡ ok later
    → IsValidAction action
    → IsValidRetry retry
    → HasEntry (route_entry lib route action retry)
unfolding route_entry
route_entry-HasEntry lib seen later route action retry h k l =
    let (target, mode) = validate_route-HasText lib seen later route h in
    let judged = route_status-IsJudged lib (str mode.held) action retry k l in
    record {
      entry =
          route_fields (str target.held) (str mode.held) action retry judged.status judged.reason;
      returned = rw mode.read (rw judged.judged (rw judged.listed (rw target.read refl)));
      status = judged.status;
      shown_status = refl;
      listed = judged.listed;
    }
