-- ===== src/Dispatch/Ready.antt =====
-- When tools/peer_mesh_dispatch_plan.py says that a delivery is ready.
use mathlib.Core.Path.{subst}
use quest_termux_lab.Base.{
  All, Bool, Bool-cases, List, Mem, Option, String, [], ap, different, eq_iff, false, if◌then◌else◌,
  inl, inr, mem-cons_of_mem, mem-cons_self, member, none, refl, some, some_inj, sym, true, ◌==◌,
  ◌∙◌, ◌∷◌, ◌≡◌, ◌⊎◌,
}
use quest_termux_lab.ByTime.{before}
use quest_termux_lab.Delivery.Update.{expire_pending}
use quest_termux_lab.Delivery.Validate.{terminal_states, validate_state}
use quest_termux_lab.Dispatch.{
  add_route, build_dispatch_plan, decide, dispatch_decisions, dispatch_entry, plan_dispatch,
  route_by_target, routed, summarize, transport, validate_route_config,
}
use quest_termux_lab.Fleet.Next.{chosen}
use quest_termux_lab.Py.Dict.{Table, get, insert, item, list_of, lookup, lookup-insert, py_eq}
use quest_termux_lab.Py.Result.{map_ok, ok, ok-injective, on_guard, on_ok}
use quest_termux_lab.Py.Stdlib.{Stdlib, or_text, text_of}
use quest_termux_lab.Py.Time.{later}
use quest_termux_lab.Py.Value.{Fields, Value, array, is_one_of, is_text, obj, str}

-- The route of a ready dispatch.
record IsReady (delivery : Fields) (route : Option Fields) : Type 0 where
  taken : Fields
  configured : route ≡ some taken
  enabled : is_text (get taken "transport_mode") "disabled" ≡ false
  unexpired : is_text (get delivery "state") "expired" ≡ false
  pending : is_one_of (get delivery "state") terminal_states ≡ false

pass_decision :
    (b : Bool) (p rest : String × Option Fields × Value)
    → (p.0 == "ready") ≡ false
    → (if b then p else rest).0 ≡ "ready"
    → (b ≡ false) × (rest.0 ≡ "ready")
pass_decision true p rest other h = absurd (different p.0 "ready" other h)
pass_decision false p rest other h = (refl, h)

routed-IsReady :
    (delivery : Fields) (route : Option Fields)
    → is_text (get delivery "state") "expired" ≡ false
    → is_one_of (get delivery "state") terminal_states ≡ false
    → (routed route).0 ≡ "ready"
    → IsReady delivery route
unfolding routed
routed-IsReady delivery none unexpired pending h = absurd (different _ _ refl h)
routed-IsReady delivery (some route) unexpired pending h =
    let (enabled, _) = pass_decision (is_text (get route "transport_mode") "disabled") _ _ refl h in
    record {
      taken = route;
      configured = refl;
      enabled = enabled;
      unexpired = unexpired;
      pending = pending;
    }

-- A delivery is decided to be ready only where it is neither expired nor in another terminal state
-- and its target has a configured route that is not disabled.
decide-IsReady :
    (delivery : Fields) (route : Option Fields)
    → (decide delivery route).0 ≡ "ready"
    → IsReady delivery route
unfolding decide
decide-IsReady delivery route h =
    let (unexpired, h1) = pass_decision (is_text (get delivery "state") "expired") _ _ refl h in
    let (pending, h2) =
      pass_decision (is_one_of (get delivery "state") terminal_states) _ _ refl h1 in
    routed-IsReady delivery route unexpired pending h2

-- A route of the list that has the target k.
record IsTargeted (lib : Stdlib) (configured : List Value) (k : String) (route : Fields)
    : Type 0 where
  there : Mem (obj route) configured
  targeted : text_of lib (get route "target_agent_id") ≡ k

skip-IsTargeted :
    (lib : Stdlib) (v : Value) (vs : List Value) (k : String) (route : Fields)
    → IsTargeted lib vs k route
    → IsTargeted lib (v ∷ vs) k route
skip-IsTargeted lib v vs k route found = record {
  there = mem-cons_of_mem v found.there;
  targeted = found.targeted;
}

insert-IsTargeted :
    (lib : Stdlib) (table : Table Fields) (found : Fields) (vs : List Value) (k : String)
    (route : Fields)
    → lookup (insert table (text_of lib (get found "target_agent_id")) found) k ≡ some route
    → (lookup table k ≡ some route) ⊎ IsTargeted lib (obj found ∷ vs) k route
insert-IsTargeted lib table found vs k route h =
    let name = text_of lib (get found "target_agent_id") in
    let e = sym (lookup-insert table name k found) ∙ h in
    elim (Bool-cases (name == k)) [
      | inl same ↦
          let here : found ≡ route =
            some_inj
              (subst (λ b. (if b then some found else lookup table k) ≡ some route) same e) in
          inr (record {
            there = subst (λ d. Mem (obj d) (obj found ∷ vs)) here mem-cons_self;
            targeted =
                subst (λ d. text_of lib (get d "target_agent_id") ≡ k) here
                  ((eq_iff name k).0 same);
          })
      | inr other ↦
          inl (subst (λ b. (if b then some found else lookup table k) ≡ some route) other e)
    ]

-- What is found in the table was there before, or is a route of the list with that target.
add_route-IsTargeted :
    (lib : Stdlib) (table : Table Fields) (vs : List Value) (k : String) (route : Fields)
    → lookup (add_route lib table vs) k ≡ some route
    → (lookup table k ≡ some route) ⊎ IsTargeted lib vs k route
unfolding add_route
add_route-IsTargeted lib table [] k route h = inl h
add_route-IsTargeted lib table (obj found ∷ vs) k route h =
    elim (add_route-IsTargeted lib (insert table (text_of lib (get found "target_agent_id")) found)
      vs k route h) [
        | inl before ↦ insert-IsTargeted lib table found vs k route before
        | inr later ↦ inr (skip-IsTargeted lib (obj found) vs k route later)
      ]
add_route-IsTargeted lib table (v ∷ vs) k route h =
    elim (add_route-IsTargeted lib table vs k route h) [
      | inl before ↦ inl before
      | inr later ↦ inr (skip-IsTargeted lib v vs k route later)
    ]

-- A ready entry of a plan: its delivery is in no terminal state, and a configured route that is not
-- disabled has its target.
pub record ReadyDispatch (lib : Stdlib) (configured : List Value) (entry : Fields) : Type 0 where
  pub pending : is_one_of (get entry "delivery_state") terminal_states ≡ false
  pub route : Fields
  pub there : Mem (obj route) configured
  pub targeted :
      text_of lib (get route "target_agent_id") ≡ text_of lib (get entry "target_agent_id")
  pub enabled : is_text (get route "transport_mode") "disabled" ≡ false

-- An entry whose decision is "ready" only where it may be.
pub record IsGrounded (lib : Stdlib) (configured : List Value) (v : Value) : Type 0 where
  pub entry : Fields
  pub same : v ≡ obj entry
  pub grounded :
      (is_text (get entry "decision") "ready" ≡ false) ⊎ ReadyDispatch lib configured entry

ready-or-not :
    (lib : Stdlib) (configured : List Value) (delivery : Fields) (entry : Fields)
    → get entry "delivery_state" ≡ get delivery "state"
    → get entry "target_agent_id" ≡ get delivery "target_agent_id"
    → get entry "decision"
      ≡ str
          (decide delivery (
            lookup
              (route_by_target lib configured)
              (text_of lib (get delivery "target_agent_id")))).0
    → (is_text (get entry "decision") "ready" ≡ false) ⊎ ReadyDispatch lib configured entry
unfolding route_by_target
ready-or-not lib configured delivery entry state target decision =
    let name = text_of lib (get delivery "target_agent_id") in
    let route = lookup (add_route lib [] configured) name in
    elim (Bool-cases ((decide delivery route).0 == "ready")) [
      | inr other ↦ inl (subst (λ v. is_text v "ready" ≡ false) (sym decision) other)
      | inl chosen ↦
          let ready =
            decide-IsReady delivery route ((eq_iff (decide delivery route).0 "ready").0 chosen) in
          elim (add_route-IsTargeted lib [] configured name ready.taken ready.configured) [
            | inl nowhere ↦ absurd (cc nowhere)
            | inr found ↦ inr (record {
              pending = subst (λ v. is_one_of v terminal_states ≡ false) (sym state) ready.pending;
              route = ready.taken;
              there = found.there;
              targeted = found.targeted ∙ ap (text_of lib) (sym target);
              enabled = ready.enabled;
            })
          ]
    ]

plan_dispatch-IsGrounded :
    (lib : Stdlib) (configured : List Value) (delivery dispatch : Value)
    → plan_dispatch lib (route_by_target lib configured) delivery ≡ ok dispatch
    → IsGrounded lib configured dispatch
unfolding plan_dispatch dispatch_entry
plan_dispatch-IsGrounded lib configured (obj delivery) dispatch h =
    let route =
      lookup (route_by_target lib configured) (text_of lib (get delivery "target_agent_id")) in
    let decided = decide delivery route in
    on_guard (member decided.0 dispatch_decisions) _ h λ _ h1.
      on_ok (transport decided.1) h1 λ t _ h2.
        subst (IsGrounded lib configured) (ok-injective h2) (record {
          entry = _;
          same = refl;
          grounded = ready-or-not lib configured delivery _ refl refl refl;
        })
plan_dispatch-IsGrounded lib configured v dispatch h = absurd (cc h)

plan_dispatches-IsGrounded :
    (lib : Stdlib) (configured deliveries dispatches : List Value)
    → map_ok (plan_dispatch lib (route_by_target lib configured)) deliveries ≡ ok dispatches
    → All (IsGrounded lib configured) dispatches
plan_dispatches-IsGrounded lib configured [] dispatches h =
    subst (All (IsGrounded lib configured)) (ok-injective h) tt
plan_dispatches-IsGrounded lib configured (v ∷ deliveries) dispatches h =
    on_ok (plan_dispatch lib (route_by_target lib configured) v) h λ d made h1.
      on_ok (map_ok (plan_dispatch lib (route_by_target lib configured)) deliveries) h1
        λ others rest h2. subst (All (IsGrounded lib configured)) (ok-injective h2) (
          plan_dispatch-IsGrounded lib configured v d made,
          plan_dispatches-IsGrounded lib configured deliveries others rest,
        )

-- The dispatches of a plan over the routes of a configuration.
pub record HasGrounded (lib : Stdlib) (config plan : Fields) : Type 0 where
  pub configured : List Value
  pub listed : list_of (get config "routes") ≡ ok configured
  pub dispatches : List Value
  pub planned : get plan "dispatches" ≡ array dispatches
  pub grounded : All (IsGrounded lib configured) dispatches

-- In a dispatch plan that is made, an entry whose decision is "ready" is of a delivery in no terminal
-- state, and the route configuration has a route to its target that is not disabled.
pub build_dispatch_plan-HasGrounded :
    (lib : Stdlib) (clock : String) (state config plan : Fields) (now : Option String)
    → build_dispatch_plan lib clock state config now ≡ ok plan
    → HasGrounded lib config plan
unfolding build_dispatch_plan
build_dispatch_plan-HasGrounded lib clock state config plan now h =
    on_ok (validate_state state) h λ _ _ h1. on_ok (validate_route_config lib config) h1 λ _ _ h2.
      on_guard (py_eq (get config "fleet_id") (get state "fleet_id")) _ h2 λ _ h3.
        on_guard (py_eq (get config "source_agent_id") (get state "source_agent_id")) _ h3 λ _ h4.
          on_ok (expire_pending lib clock state (some (or_text now clock))) h4 λ refreshed _ h5.
            on_ok (list_of (get config "routes")) h5 λ configured listed h6.
              on_ok (item refreshed "deliveries") h6 λ found _ h7.
                on_ok (list_of found) h7 λ deliveries _ h8.
                  on_ok (map_ok (plan_dispatch lib (route_by_target lib configured)) deliveries) h8
                    λ dispatches made h9. on_ok (summarize lib dispatches) h9 λ counts _ h10.
                      subst (HasGrounded lib config) (ok-injective h10) (record {
                        configured = configured;
                        listed = listed;
                        dispatches = dispatches;
                        planned = refl;
                        grounded =
                            plan_dispatches-IsGrounded lib configured deliveries dispatches made;
                      })
