-- ===== src/Fleet/Lease.antt =====
-- What a mirror lease permits in tools/fleet_control_plane.py.
-- The lease has not expired at a reading of the clock.
use Prim.Native.Char.{code}
use mathlib.Core.Path.{subst}
use quest_termux_lab.Base.{
  Bool, List, Option, String, ap, false, if◌then◌else◌, inl, inr, none, not, not-false, refl, some,
  some_inj, sym, true, ℕ, ◌∙◌, ◌≡◌, ◌⊎◌,
}
use quest_termux_lab.Fleet.Intents.{
  after_expiry, after_validation, expiry_message, judge_intent, spaced, submit_mirror_intent,
  submit_new_intent,
}
use quest_termux_lab.Fleet.Keeps.{
  Keeps, Quiet, all-Keeps, bind-Keeps, bind_result-Keeps, gets_bind-Keeps, keeps, on_bind,
  require_text-Keeps, require_text-text,
}
use quest_termux_lab.Fleet.Mirror.{
  error_after_expiry, error_after_parties, expiry_error_at, kind_allowed, kind_error, parties_error,
  validate_mirror_lease_for_intent,
}
use quest_termux_lab.Fleet.Payload.{has_passed, parse_time}
use quest_termux_lab.Fleet.Quiet.{
  expiry_message-Keeps, reject_mirror_intent-Keeps, response-Keeps,
  validate_mirror_lease_for_intent-Keeps,
}
use quest_termux_lab.Fleet.State.{
  Env, FleetState, catch_value, handle_value, lift, pure, read_clock, ◌>>=◌,
}
use quest_termux_lab.Py.Dict.{Table, get, lookup, py_eq}
use quest_termux_lab.Py.Result.{
  Result, err, key_error, map_result, ok, ok-injective, overflow_error, type_error, value_error,
}
use quest_termux_lab.Py.Time.{DateTime, at_most}
use quest_termux_lab.Py.Value.{Fields, Value, as_str, str, text, truthy}

pub record Fresh (env : Env) (expires_at : String) : Type 0 where
  pub expires : DateTime
  pub reading : ℕ
  pub parsed : parse_time env expires_at ≡ ok expires
  pub ahead :
      at_most expires (record { instant = env.clock reading; offset = some 1440 }) ≡ ok false

-- What the controller checked before it forwarded an intent, with `found` the lease that the intent
-- names: the lease is there, it is not revoked, it names the intent's fleet, source and target, it
-- allows the intent's kind, and it has not expired.
pub record Authorised (env : Env) (found : Option Fields) (intent : Fields) : Type 0 where
  pub lease : Fields
  pub is_there : found ≡ some lease
  pub active : truthy (get lease "revoked") ≡ false
  pub fleet : py_eq (get lease "fleet_id") (get intent "fleet_id") ≡ true
  pub source : py_eq (get lease "source_agent_id") (get intent "source_agent_id") ≡ true
  pub target : py_eq (get lease "target_agent_id") (get intent "target_agent_id") ≡ true
  pub kind : kind_allowed (get intent "kind") (get lease "allowed_command_kinds") ≡ ok true
  pub fresh : Fresh env (text (get lease "expires_at"))

abbrev pub named_lease : FleetState → Fields → Option Fields
named_lease s intent = lookup s.mirror_leases (text (get intent "lease_id"))

has_passed-Fresh :
    (env : Env) (expires_at : String) (s : FleetState)
    → (has_passed env expires_at s).0 ≡ ok false
    → Fresh env expires_at
unfolding has_passed lift read_clock
has_passed-Fresh env expires_at s h =
    on_bind (lift (parse_time env expires_at)) _ s h λ expires parsed h1.
      on_bind (read_clock env) _ s h1 λ now read h2. record {
        expires = expires;
        reading = s.reads;
        parsed = parsed;
        ahead = subst (λ t. at_most expires t ≡ ok false) (sym (ok-injective read)) h2;
      }

module _ (env : Env) (lease intent : Fields) where
  pass_test :
      (b : Bool) (code : String) (rest : Option String)
      → (if b then some code else rest) ≡ none
      → (b ≡ false) × (rest ≡ none)
  pass_test true code rest h = absurd (cc h)
  pass_test false code rest h = (refl, h)

  parties_pass :
      parties_error lease intent ≡ none
      → (truthy (get lease "revoked") ≡ false)
        × (py_eq (get lease "fleet_id") (get intent "fleet_id") ≡ true)
        × (py_eq (get lease "source_agent_id") (get intent "source_agent_id") ≡ true)
        × (py_eq (get lease "target_agent_id") (get intent "target_agent_id") ≡ true)
  unfolding parties_error
  parties_pass h =
      let (active, h1) = pass_test (truthy (get lease "revoked")) _ _ h in
      let (fleet, h2) =
        pass_test (not (py_eq (get lease "fleet_id") (get intent "fleet_id"))) _ _ h1 in
      let (source, h3) =
        pass_test (not (py_eq (get lease "source_agent_id") (get intent "source_agent_id"))) _ _
          h2 in
      let (target, h4) =
        pass_test (not (py_eq (get lease "target_agent_id") (get intent "target_agent_id"))) _ _
          h3 in
      (active, not-false _ fleet, not-false _ source, not-false _ target)

  allowed_pass :
      (r : Result Bool) (rest : Option String)
      → map_result (λ allowed. if not allowed then some "mirror_kind_not_allowed" else rest) r
        ≡ ok none
      → r ≡ ok true
  allowed_pass (ok true) rest h = refl
  allowed_pass (ok false) rest h = absurd (cc h)
  allowed_pass (err e) rest h = absurd (cc h)

  kind_pass :
      kind_error lease intent ≡ ok none
      → kind_allowed (get intent "kind") (get lease "allowed_command_kinds") ≡ ok true
  unfolding kind_error
  kind_pass h = allowed_pass _ _ h

  handled-none :
      (r : Result (Option String)) (code : String) (s : FleetState)
      → (handle_value (λ _. pure (some code)) r s).0 ≡ ok none
      → r ≡ ok none
  unfolding pure
  handled-none (ok o) code s h = h
  handled-none (err (value_error message)) code s h = absurd (cc h)
  handled-none (err (key_error key)) code s h = absurd (cc h)
  handled-none (err type_error) code s h = absurd (cc h)
  handled-none (err overflow_error) code s h = absurd (cc h)

  not_past : (b : Bool) (code : String) → (if b then some code else none) ≡ none → b ≡ false
  not_past true code h = cc
  not_past false code h = refl

  as_str-text : (v : Value) (t : String) → as_str v ≡ some t → text v ≡ t
  as_str-text (str s) t h = some_inj h
  as_str-text _ t h = absurd (cc h)

  expiry_error_at-Fresh :
      (o : Option String) (s : FleetState)
      → as_str (get lease "expires_at") ≡ o
      → (expiry_error_at env o s).0 ≡ ok none
      → Fresh env (text (get lease "expires_at"))
  unfolding expiry_error_at catch_value pure
  expiry_error_at-Fresh none s e h = absurd (cc h)
  expiry_error_at-Fresh (some t) s e h =
      on_bind (has_passed env t) _ s (handled-none _ _ _ h) λ past he h2.
        subst (Fresh env) (sym (as_str-text _ t e))
          (has_passed-Fresh env t s (rw (← not_past past _ (ok-injective h2)) he))

  after_expiry-Authorised :
      (expiry : Option String) (s t : FleetState)
      → parties_error lease intent ≡ none
      → (expiry_error_at env (as_str (get lease "expires_at")) s).0 ≡ ok expiry
      → (error_after_expiry env lease intent expiry t).0 ≡ ok none
      → Authorised env (some lease) intent
  unfolding error_after_expiry pure lift
  after_expiry-Authorised (some code) s t e he h = absurd (cc h)
  after_expiry-Authorised none s t e he h = record {
    lease = lease;
    is_there = refl;
    active = (parties_pass e).0;
    fleet = (parties_pass e).1;
    source = (parties_pass e).2;
    target = (parties_pass e).3;
    kind = kind_pass h;
    fresh = expiry_error_at-Fresh _ s refl he;
  }

  after_parties-Authorised :
      (o : Option String) (s : FleetState)
      → parties_error lease intent ≡ o
      → (error_after_parties env lease intent o s).0 ≡ ok none
      → Authorised env (some lease) intent
  unfolding error_after_parties pure
  after_parties-Authorised (some code) s e h = absurd (cc h)
  after_parties-Authorised none s e h =
      on_bind (expiry_error_at env (as_str (get lease "expires_at"))) _ s h
        λ expiry he h2. after_expiry-Authorised expiry s _ e he h2

  validate_mirror_lease_for_intent-Authorised :
      (s : FleetState) (o : Option String)
      → (validate_mirror_lease_for_intent env lease intent s).0 ≡ ok o
      → o ≡ none
      → Authorised env (some lease) intent
  unfolding validate_mirror_lease_for_intent
  validate_mirror_lease_for_intent-Authorised s o h e =
      after_parties-Authorised (parties_error lease intent) s refl (h ∙ ap ok e)

-- The queues are as they were, and so is the lease; or the intent is authorised.
abbrev Held : Env → Fields → Option Fields → Table (List Fields) → FleetState → Type 0
Held env intent found queues s =
    ((named_lease s intent ≡ found) × (s.commands ≡ queues)) ⊎ Authorised env found intent

module _ (env : Env) (intent : Fields) (found : Option Fields) (queues : Table (List Fields)) where
  abbrev P : FleetState → Type 0
  P s = Held env intent found queues s

  quiet : Quiet P
  quiet s t c i l (inl (e, k)) =
      inl (subst (λ m. lookup m (text (get intent "lease_id")) ≡ found) l e, sym c ∙ k)
  quiet s t c i l (inr a) = inr a

  after_validation-Keeps :
      (o : Option String) (id lease_id : String)
      → (o ≡ none → Authorised env found intent)
      → Keeps P (after_validation env intent id lease_id o)
  unfolding after_validation
  after_validation-Keeps (some code) id lease_id h =
      reject_mirror_intent-Keeps env quiet intent code (spaced code)
  after_validation-Keeps none id lease_id h = all-Keeps _ λ s. inr (h refl)

  judge_intent-Keeps :
      (o : Option Fields) (id lease_id : String)
      → o ≡ found
      → Keeps P (judge_intent env intent id lease_id o)
  unfolding judge_intent
  judge_intent-Keeps none id lease_id e = reject_mirror_intent-Keeps env quiet intent _ _
  judge_intent-Keeps (some lease) id lease_id e =
      bind_result-Keeps (validate_mirror_lease_for_intent-Keeps env quiet lease intent)
        (λ s o h. validate_mirror_lease_for_intent-Authorised env lease intent s o h)
        λ o h.
          after_validation-Keeps o id lease_id λ n. subst (λ f. Authorised env f intent) e (h n)

  judge_named-Keeps :
      (id : String) → Keeps P (after_expiry env intent id (text (get intent "lease_id")) none)
  unfolding after_expiry
  judge_named-Keeps id = gets_bind-Keeps _ _ λ s h. elim h [
    | inl (e, k) ↦ (judge_intent-Keeps (named_lease s intent) id _ e).run s (inl (e, k))
    | inr a ↦ inr a
  ]

  after_expiry-Keeps :
      (o : Option String) (id : String)
      → Keeps P (after_expiry env intent id (text (get intent "lease_id")) o)
  unfolding after_expiry
  after_expiry-Keeps none id = judge_named-Keeps id
  after_expiry-Keeps (some message) id = reject_mirror_intent-Keeps env quiet intent _ message

  submit_new_intent-Keeps :
      (o : Option Fields) (id : String) → Keeps P (submit_new_intent env intent id o)
  unfolding submit_new_intent
  submit_new_intent-Keeps (some existing) id = response-Keeps env quiet _ _
  submit_new_intent-Keeps none id =
      bind_result-Keeps (require_text-Keeps intent "lease_id")
        (λ s a h. require_text-text intent "lease_id" s h)
        λ lease_id e.
          subst (λ l. Keeps P (expiry_message env intent >>= after_expiry env intent id l)) (sym e)
            (bind-Keeps (expiry_message-Keeps env quiet intent) λ o. after_expiry-Keeps o id)

  submit_mirror_intent-Keeps : Keeps P (submit_mirror_intent env intent)
  unfolding submit_mirror_intent
  submit_mirror_intent-Keeps = search (keeps, submit_new_intent-Keeps) depth 12

-- Submitting an intent leaves every queue as it is, whether it returns or raises, unless the lease
-- that the intent names authorises it: the lease is stored, not revoked, names the intent's fleet,
-- source and target, allows its kind, and has not expired at a reading of the clock.
pub submit_mirror_intent-Authorised :
    (env : Env) (intent : Fields) (s : FleetState)
    → ((submit_mirror_intent env intent s).1.commands ≡ s.commands)
      ⊎ Authorised env (named_lease s intent) intent
submit_mirror_intent-Authorised env intent s =
    elim ((submit_mirror_intent-Keeps env intent (named_lease s intent) s.commands).run s
      (inl (refl, refl))) [ inl (e, k) ↦ inl k | inr a ↦ inr a ]
