-- ===== src/Agent/Gates.antt =====
-- What a command that execute_command of scripts/termux_fleet_agent.py dispatches has passed.
use Prim.Native.Char.{code}
use mathlib.Core.Path.{subst}
use quest_termux_lab.Agent.Admission.{
  Verdict, admit, choose_handler, command_expired, dispatched, execute_command, implemented_kinds,
  in_allowlist, rejected, verdict_or,
}
use quest_termux_lab.Agent.Mirror.{validate_mirror_binding_policy}
use quest_termux_lab.Agent.Policy.{
  caught, configured_remote_session_leases, found_lease_error, lease_error, matching_lease, passed,
  scope_error, unset_or, validate_remote_session_lease,
}
use quest_termux_lab.Base.{
  Bool, Option, String, false, if◌then◌else◌, member, none, not, not-false, refl, some, true, ◌≡◌,
}
use quest_termux_lab.Fleet.Payload.{command_schema, passive_command_kinds}
use quest_termux_lab.Py.Dict.{get, get?, item, item-eq-ok, py_eq}
use quest_termux_lab.Py.Result.{
  >>=-eq-ok, Result, err, key_error, ok, ok-injective, overflow_error, type_error, value_error,
}
use quest_termux_lab.Py.Stdlib.{Stdlib, text_of}
use quest_termux_lab.Py.Time.{DateTime}
use quest_termux_lab.Py.Value.{
  Fields, Value, arr, as_str, bool, float, int, is_name, is_text, null, obj, str, text, truthy,
}

-- A configured lease that covers the command at the time of the test.
pub record Covers (lib : Stdlib) (now : DateTime) (config command : Fields) (kind : String)
    (lease : Fields) : Type 0 where
  pub found :
      matching_lease
        (text (get command "remote_session_lease_id"))
        (configured_remote_session_leases config)
      ≡ some lease
  pub active : truthy (get lease "revoked") ≡ false
  pub fleet : unset_or (get lease "fleet_id") (get config "fleet_id") ≡ true
  pub agent : unset_or (get lease "agent_id") (get config "agent_id") ≡ true
  pub expires_at : String
  pub dated : get lease "expires_at" ≡ str expires_at
  pub unexpired : passed lib now expires_at ≡ ok false
  pub scope : scope_error lease command kind ≡ none

-- A test that gives an error code was passed, where the answer is that there is no error.
pass_test :
    (b : Bool) (code : String) (rest : Result (Option String))
    → (if b then ok (some code) else rest) ≡ ok none
    → (b ≡ false) × (rest ≡ ok none)
pass_test true code rest h = cc
pass_test false code rest h = (refl, h)

pass_text :
    (v : Value) (code : String) (f : String → Result (Option String))
    → (elim (as_str v) [ none ↦ ok (some code) | some t ↦ f t ]) ≡ ok none
    → (t : String) × (v ≡ str t) × (f t ≡ ok none)
pass_text (str t) code f h = (t, refl, h)
pass_text null code f h = cc
pass_text (bool b) code f h = cc
pass_text (int z) code f h = cc
pass_text (float t) code f h = cc
pass_text (arr vs) code f h = cc
pass_text (obj d) code f h = cc

pass_expiry :
    (r : Result Bool) (code : String) (rest : Option String)
    → caught r (some code) rest ≡ ok none
    → (r ≡ ok false) × (rest ≡ none)
pass_expiry (ok true) code rest h = cc
pass_expiry (ok false) code rest h = (refl, cc)
pass_expiry (err (value_error m)) code rest h = cc
pass_expiry (err (key_error m)) code rest h = cc
pass_expiry (err type_error) code rest h = cc
pass_expiry (err overflow_error) code rest h = cc

module _ (lib : Stdlib) (now : DateTime) (config command : Fields) (kind : String) where
  abbrev lease_id : String
  lease_id = text (get command "remote_session_lease_id")

  lease_error-Covers :
      (lease : Fields)
      → matching_lease lease_id (configured_remote_session_leases config) ≡ some lease
      → lease_error lib now config lease command kind ≡ ok none
      → Covers lib now config command kind lease
  unfolding lease_error
  lease_error-Covers lease found h =
      let (active, h1) = pass_test (truthy (get lease "revoked")) _ _ h in
      let (fleet, h2) =
        pass_test (not (unset_or (get lease "fleet_id") (get config "fleet_id"))) _ _ h1 in
      let (agent, h3) =
        pass_test (not (unset_or (get lease "agent_id") (get config "agent_id"))) _ _ h2 in
      let (expires_at, given, h4) = pass_text (get lease "expires_at") _ _ h3 in
      let (unexpired, scope) = pass_expiry (passed lib now expires_at) _ _ h4 in
      record {
        found = found;
        active = active;
        fleet = not-false _ fleet;
        agent = not-false _ agent;
        expires_at = expires_at;
        dated = given;
        unexpired = unexpired;
        scope = scope;
      }

  matching-Covers :
      (o : Option Fields)
      → matching_lease lease_id (configured_remote_session_leases config) ≡ o
      → found_lease_error lib now config command kind o ≡ ok none
      → (lease : Fields) × Covers lib now config command kind lease
  unfolding found_lease_error
  matching-Covers none found h = cc
  matching-Covers (some lease) found h = (lease, lease_error-Covers lease found h)

  -- The lease test finds no error for a kind that is not passive only where a configured lease
  -- covers the command.
  pub validate_remote_session_lease-Covers :
      member kind passive_command_kinds ≡ false
      → validate_remote_session_lease lib now config command kind ≡ ok none
      → (lease : Fields) × Covers lib now config command kind lease
  unfolding validate_remote_session_lease
  validate_remote_session_lease-Covers active h =
      let (_, h1) =
        pass_test (not (is_name (get command "remote_session_lease_id"))) _ _ (rw active at h) in
      matching-Covers _ refl h1

verdict_or-dispatched :
    (r : Result (Option String)) (rest : Result Verdict) (k : String)
    → verdict_or r rest ≡ ok (dispatched k)
    → (r ≡ ok none) × (rest ≡ ok (dispatched k))
verdict_or-dispatched (ok (some code)) rest k h = cc
verdict_or-dispatched (ok none) rest k h = (refl, h)
verdict_or-dispatched (err e) rest k h = cc

if-dispatched :
    (b : Bool) (kind k code : String)
    → (if b then dispatched kind else rejected code) ≡ dispatched k
    → (kind ≡ k) × (b ≡ true)
if-dispatched true kind k code h = (cc, refl)
if-dispatched false kind k code h = cc

pass_check :
    (b : Bool) (code k : String) (rest : Result Verdict)
    → (if b then ok (rejected code) else rest) ≡ ok (dispatched k)
    → (b ≡ false) × (rest ≡ ok (dispatched k))
pass_check true code k rest h = cc
pass_check false code k rest h = (refl, h)

-- What a dispatched command has passed, with its kind `k`.
pub record Passed (lib : Stdlib) (now lease_now : DateTime) (config command : Fields) (k : String)
    : Type 0 where
  pub kind : text_of lib (get command "kind") ≡ k
  pub implemented : member k implemented_kinds ≡ true
  pub schema : is_text (get command "schema") command_schema ≡ true
  pub agent_id : Value
  pub own : get? config "agent_id" ≡ some agent_id
  pub addressed : py_eq (get command "target_agent_id") agent_id ≡ true
  pub unexpired : command_expired lib now command ≡ ok false
  pub allowed : in_allowlist config (get command "kind") ≡ ok true
  pub lease : validate_remote_session_lease lib lease_now config command k ≡ ok none
  pub mirror : validate_mirror_binding_policy lib config command k ≡ ok none

module _ (lib : Stdlib) (now lease_now : DateTime) (config command : Fields) where
  admit-dispatched :
      (kind k : String)
      → admit lib lease_now config command kind ≡ ok (dispatched k)
      → (kind ≡ k)
        × (member kind implemented_kinds ≡ true)
        × (validate_remote_session_lease lib lease_now config command kind ≡ ok none)
        × (validate_mirror_binding_policy lib config command kind ≡ ok none)
  unfolding admit choose_handler
  admit-dispatched kind k h =
      let (lease, h1) = verdict_or-dispatched _ _ k h in
      let (mirror, h2) = verdict_or-dispatched _ _ k h1 in
      let (same, implemented) =
        if-dispatched (member kind implemented_kinds) kind k _ (ok-injective h2) in
      (same, implemented, lease, mirror)

  -- A command is dispatched only after every test: schema, target, expiry, allowlist, remote
  -- session lease and mirror binding, and only to the handler of its own kind.
  pub execute_command-Passed :
      (k : String)
      → execute_command lib now lease_now config command ≡ ok (dispatched k)
      → Passed lib now lease_now config command k
  unfolding execute_command
  execute_command-Passed k h =
      let (schema, h1) = pass_check (not (is_text (get command "schema") command_schema)) _ k _ h in
      let (agent_id, own, h2) = >>=-eq-ok (item config "agent_id") _ h1 in
      let (addressed, h3) =
        pass_check (not (py_eq (get command "target_agent_id") agent_id)) _ k _ h2 in
      let (expired, read, h4) = >>=-eq-ok (command_expired lib now command) _ h3 in
      let (unexpired, h5) = pass_check expired _ k _ h4 in
      let (allowed, listed, h6) = >>=-eq-ok (in_allowlist config (get command "kind")) _ h5 in
      let (permitted, h7) = pass_check (not allowed) _ k _ h6 in
      let (same, implemented, lease, mirror) = admit-dispatched _ k h7 in
      record {
        kind = same;
        implemented = subst (λ x. member x implemented_kinds ≡ true) same implemented;
        schema = not-false _ schema;
        agent_id = agent_id;
        own = item-eq-ok config "agent_id" agent_id own;
        addressed = not-false _ addressed;
        unexpired = cc;
        allowed = cc (not-false allowed permitted);
        lease =
            subst (λ x. validate_remote_session_lease lib lease_now config command x ≡ ok none) same
              lease;
        mirror =
            subst (λ x. validate_mirror_binding_policy lib config command x ≡ ok none) same mirror;
      }

  -- A dispatched command of a kind that is not passive is covered by a configured lease.
  pub execute_command-Covers :
      (k : String)
      → member k passive_command_kinds ≡ false
      → execute_command lib now lease_now config command ≡ ok (dispatched k)
      → (lease : Fields) × Covers lib lease_now config command k lease
  execute_command-Covers k active h =
      validate_remote_session_lease-Covers lib lease_now config command k active
        (execute_command-Passed k h).lease
