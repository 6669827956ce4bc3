-- ===== src/Fleet/State.antt =====
-- FleetState of tools/fleet_control_plane.py, as the state of a monad. An operation may raise after
-- it has changed the state, so the state comes back beside the exception. The clock is a parameter
-- that gives an instant for every reading, and `reads` counts the readings made so far; `log` holds
-- what _append_jsonl writes, by file name, where a log directory is configured.
use quest_termux_lab.Base.{Bool, List, String, [], some, ℕ, ◌++◌, ◌+◌, ◌∷◌}
use quest_termux_lab.Py.Dict.{Table, update}
use quest_termux_lab.Py.Result.{Error, Result, err, guard, ok, value_error}
use quest_termux_lab.Py.Stdlib.{Stdlib}
use quest_termux_lab.Py.Time.{DateTime}
use quest_termux_lab.Py.Value.{Fields, Value, dict, str}

pub record FleetState : Type 0 where
  pub heartbeats : Table Fields
  pub commands : Table (List Fields)
  pub results : List Fields
  pub idempotency_index : Table String
  pub mirror_leases : Table Fields
  pub mirror_intents : Table Fields
  pub mirror_events : Table (List Fields)
  pub mirror_command_index : Table (List String)
  pub log : List (String × Fields)
  pub reads : ℕ

abbrev pub initial : FleetState
initial = record {
  heartbeats = [];
  commands = [];
  results = [];
  idempotency_index = [];
  mirror_leases = [];
  mirror_intents = [];
  mirror_events = [];
  mirror_command_index = [];
  log = [];
  reads = 0;
}

abbrev pub Exec : Type 0 → Type 0
Exec A = FleetState → Result A × FleetState

abbrev pub continue : {A B : Type 0} → (A → Exec B) → Result A → Exec B
continue f (ok a) s = f a s
continue f (err e) s = (err e, s)

infixl 5 ◌>>=◌ ◌>>◌
unfoldable pub ◌>>=◌ : {A B : Type 0} → Exec A → (A → Exec B) → Exec B
◌>>=◌ m f s = continue f (m s).0 (m s).1

abbrev pub ◌>>◌ : {B : Type 0} → Exec (Unit {0}) → Exec B → Exec B
m >> k = m >>= λ _. k

unfoldable pub pure : {A : Type 0} → A → Exec A
pure a s = (ok a, s)

unfoldable pub lift : {A : Type 0} → Result A → Exec A
lift r s = (r, s)

unfoldable pub check : Bool → Error → Exec (Unit {0})
check b e s = (guard b e, s)

unfoldable pub gets : {A : Type 0} → (FleetState → A) → Exec A
gets f s = (ok (f s), s)

unfoldable pub modify : (FleetState → FleetState) → Exec (Unit {0})
modify f s = (ok tt, f s)

abbrev pub handle_value : {A : Type 0} → (String → Exec A) → Result A → Exec A
handle_value handler (ok a) s = (ok a, s)
handle_value handler (err (value_error message)) s = handler message s
handle_value handler (err e) s = (err e, s)

-- try: m; except ValueError as exc: handler(str(exc))
unfoldable pub catch_value : {A : Type 0} → Exec A → (String → Exec A) → Exec A
catch_value m handler s = handle_value handler (m s).0 (m s).1

-- _append_jsonl
unfoldable pub append_log : String → Fields → Exec (Unit {0})
append_log name payload = modify (λ s. record s { log = s.log ++ (name, payload) ∷ [] })

-- What the controller takes from outside: the standard library, and the instants that the clock
-- gives at its readings, in microseconds.
pub record Env : Type 0 where
  pub lib : Stdlib
  pub clock : ℕ → ℕ

module _ (env : Env) where
  -- datetime.now(timezone.utc)
  unfoldable pub read_clock : Exec DateTime
  read_clock s = (
    ok (record { instant = env.clock s.reads; offset = some 1440 }),
    record s { reads = s.reads + 1 },
  )

  unfoldable pub utc_now : Exec String
  utc_now = do now ← read_clock; pure (env.lib.format_seconds now)

  unfoldable pub response : String → List (String × Value) → Exec Fields
  response status extra = do
    now ← utc_now
    pure (update (dict (("status", str status) ∷ ("observed_at", str now) ∷ [])) (dict extra))
