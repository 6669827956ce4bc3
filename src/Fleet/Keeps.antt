-- ===== src/Fleet/Keeps.antt =====
-- Rules for properties of the state that the operations of tools/fleet_control_plane.py keep,
-- whether they return or raise.
-- `P` holds after `m` wherever it held before, whether `m` returns or raises.
use quest_termux_lab.Base.{Bool, String, refl, sym, ◌≡◌}
use quest_termux_lab.Fleet.Payload.{require_bool, require_text, require_text_list}
use quest_termux_lab.Fleet.State.{
  Exec, FleetState, catch_value, check, continue, gets, handle_value, lift, modify, pure, ◌>>=◌,
}
use quest_termux_lab.Py.Dict.{get}
use quest_termux_lab.Py.Result.{
  Error, Result, err, key_error, ok, ok-injective, overflow_error, type_error, value_error,
}
use quest_termux_lab.Py.Value.{Fields, is_name, text}

pub record Keeps (P : FleetState → Type 0) {A : Type 0} (m : Exec A) : Type 0 where
  pub run : (s : FleetState) → P s → P (m s).1

on_continue :
    {A B R : Type 0} (f : A → Exec B) (r : Result A) (s : FleetState) {b : B}
    → (continue f r s).0 ≡ ok b
    → ((a : A) → r ≡ ok a → (f a s).0 ≡ ok b → R)
    → R
on_continue f (ok a) s h k = k a refl h
on_continue f (err e) s h k = absurd (cc h)

-- What a sequence that returns has gone through.
pub on_bind :
    {A B R : Type 0} (m : Exec A) (f : A → Exec B) (s : FleetState) {b : B}
    → ((m >>= f) s).0 ≡ ok b
    → ((a : A) → (m s).0 ≡ ok a → (f a (m s).1).0 ≡ ok b → R)
    → R
unfolding ◌>>=◌
on_bind m f s h k = on_continue f (m s).0 (m s).1 h k

pub run_bind :
    {A B : Type 0} (m : Exec A) (f : A → Exec B) (s : FleetState) (a : A)
    → (m s).0 ≡ ok a
    → (m >>= f) s ≡ f a (m s).1
unfolding ◌>>=◌
run_bind m f s a h = rw h refl

module _ {P : FleetState → Type 0} where
  continue-kept :
      {A B : Type 0} (f : A → Exec B) (r : Result A) (s : FleetState)
      → ((a : A) → Keeps P (f a))
      → P s
      → P (continue f r s).1
  continue-kept f (ok a) s k p = (k a).run s p
  continue-kept f (err e) s k p = p

  pub bind-Keeps :
      {A B : Type 0} {m : Exec A} {f : A → Exec B}
      → Keeps P m
      → ((a : A) → Keeps P (f a))
      → Keeps P (m >>= f)
  unfolding ◌>>=◌
  bind-Keeps {m = m} {f = f} h k = record {
    run = λ s p. continue-kept f (m s).0 (m s).1 k (h.run s p);
  }

  pub lift-Keeps : {A : Type 0} (r : Result A) → Keeps P (lift r)
  unfolding lift
  lift-Keeps r = record { run = λ s p. p }

  pub pure-Keeps : {A : Type 0} (a : A) → Keeps P (pure a)
  unfolding pure
  pure-Keeps a = record { run = λ s p. p }

  pub check-Keeps : (b : Bool) (e : Error) → Keeps P (check b e)
  unfolding check
  check-Keeps b e = record { run = λ s p. p }

  pub gets-Keeps : {A : Type 0} (f : FleetState → A) → Keeps P (gets f)
  unfolding gets
  gets-Keeps f = record { run = λ s p. p }

  pub modify-Keeps :
      (f : FleetState → FleetState) → ((s : FleetState) → P s → P (f s)) → Keeps P (modify f)
  unfolding modify
  modify-Keeps f h = record { run = h }

  handle_value-kept :
      {A : Type 0} (handler : String → Exec A) (r : Result A) (s : FleetState)
      → ((message : String) → Keeps P (handler message))
      → P s
      → P (handle_value handler r s).1
  handle_value-kept handler (ok a) s k p = p
  handle_value-kept handler (err (value_error message)) s k p = (k message).run s p
  handle_value-kept handler (err (key_error key)) s k p = p
  handle_value-kept handler (err type_error) s k p = p
  handle_value-kept handler (err overflow_error) s k p = p

  pub catch_value-Keeps :
      {A : Type 0} {m : Exec A} {handler : String → Exec A}
      → Keeps P m
      → ((message : String) → Keeps P (handler message))
      → Keeps P (catch_value m handler)
  unfolding catch_value
  catch_value-Keeps {m = m} {handler = handler} h k = record {
    run = λ s p. handle_value-kept handler (m s).0 (m s).1 k (h.run s p);
  }

  pub all-Keeps : {A : Type 0} (m : Exec A) → ((s : FleetState) → P s) → Keeps P m
  all-Keeps m h = record { run = λ s _. h (m s).1 }

  -- A reading of the state, with what `P` says of what is read.
  pub gets_bind-Keeps :
      {A B : Type 0} (g : FleetState → A) (f : A → Exec B)
      → ((s : FleetState) → P s → P (f (g s) s).1)
      → Keeps P (gets g >>= f)
  unfolding ◌>>=◌ gets
  gets_bind-Keeps g f h = record { run = h }

  continue_result-kept :
      {A B : Type 0} (f : A → Exec B) (r : Result A) (s : FleetState)
      → ((a : A) → r ≡ ok a → Keeps P (f a))
      → P s
      → P (continue f r s).1
  continue_result-kept f (ok a) s k p = (k a refl).run s p
  continue_result-kept f (err e) s k p = p

  -- The rule for a sequence whose first part also tells something of what it returns.
  pub bind_result-Keeps :
      {A B : Type 0} {Q : A → Type 0} {m : Exec A} {f : A → Exec B}
      → Keeps P m
      → ((s : FleetState) (a : A) → (m s).0 ≡ ok a → Q a)
      → ((a : A) → Q a → Keeps P (f a))
      → Keeps P (m >>= f)
  unfolding ◌>>=◌
  bind_result-Keeps {m = m} {f = f} h q k = record {
    run = λ s p. continue_result-kept f (m s).0 (m s).1 (λ a e. k a (q s a e)) (h.run s p);
  }

  pub require_text-Keeps : (payload : Fields) (key : String) → Keeps P (require_text payload key)
  unfolding require_text
  require_text-Keeps payload key = bind-Keeps (check-Keeps _ _) λ _. pure-Keeps _

-- `P` speaks only of the queues, the idempotency keys and the leases.
abbrev pub Quiet : (FleetState → Type 0) → Type 0
Quiet P =
    (s t : FleetState)
    → s.commands ≡ t.commands
    → s.idempotency_index ≡ t.idempotency_index
    → s.mirror_leases ≡ t.mirror_leases
    → P s
    → P t

module _ {P : FleetState → Type 0} where
  pub require_bool-Keeps : (payload : Fields) (key : String) → Keeps P (require_bool payload key)
  unfolding require_bool
  require_bool-Keeps payload key = bind-Keeps (check-Keeps _ _) λ _. pure-Keeps _

  pub require_text_list-Keeps :
      (payload : Fields) (key : String) → Keeps P (require_text_list payload key)
  unfolding require_text_list
  require_text_list-Keeps payload key = bind-Keeps (check-Keeps _ _) λ _. lift-Keeps _

pub require_text-text :
    (payload : Fields) (key : String) (s : FleetState) {t : String}
    → (require_text payload key s).0 ≡ ok t
    → t ≡ text (get payload key)
unfolding require_text pure
require_text-text payload key s h =
    on_bind (check (is_name (get payload key)) _) _ s h λ _ _ h2. sym (ok-injective h2)

pub ruleset keeps = (
  bind-Keeps, lift-Keeps, pure-Keeps, check-Keeps, gets-Keeps, catch_value-Keeps,
  require_text-Keeps,
)
