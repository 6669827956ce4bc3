-- ===== src/Fleet/Sweep.antt =====
-- The sweep of a queue in next_command of tools/fleet_control_plane.py.
-- The command's expiry is one that a comparison with the clock can read.
use mathlib.Core.Path.{subst}
use quest_termux_lab.Base.{
  Bool, List, Option, String, [], ap, false, if◌then◌else◌, leb, none, refl, some, sym, true, ℕ,
  ◌++◌, ◌∙◌, ◌∷◌, ◌≡◌,
}
use quest_termux_lab.Fleet.Commands.{choose, drop_expired, sort_out, sweep, visit}
use quest_termux_lab.Fleet.Keeps.{on_bind, run_bind}
use quest_termux_lab.Fleet.Payload.{has_passed, is_expired, is_expired_at, parse_time}
use quest_termux_lab.Fleet.State.{
  Env, FleetState, append_log, lift, modify, pure, read_clock, utc_now, ◌>>=◌,
}
use quest_termux_lab.Py.Dict.{get}
use quest_termux_lab.Py.Result.{Result, err, ok, ok-injective, type_error}
use quest_termux_lab.Py.Time.{DateTime, at_most, same_kind}
use quest_termux_lab.Py.Value.{Fields, as_str}

pub data Readable (env : Env) (command : Fields) : Type 0 where
  undated : as_str (get command "expires_at") ≡ none → Readable env command
  dated :
      (expires_at : String) (expires : DateTime) (east : ℕ)
      → as_str (get command "expires_at") ≡ some expires_at
      → parse_time env expires_at ≡ ok expires
      → expires.offset ≡ some east
      → Readable env command

abbrev pub passed_by : ℕ → Result DateTime → Bool
passed_by now (ok expires) = leb expires.instant now
passed_by now (err e) = false

-- The command is overdue when the clock stands at `now`.
abbrev pub overdue_at : Env → ℕ → Option String → Bool
overdue_at env now none = true
overdue_at env now (some expires_at) = passed_by now (parse_time env expires_at)

abbrev pub overdue : Env → ℕ → Fields → Bool
overdue env now command = overdue_at env now (as_str (get command "expires_at"))

module _ (env : Env) where
  at_most-reading :
      (expires : DateTime) (east now : ℕ)
      → expires.offset ≡ some east
      → at_most expires (record { instant = now; offset = some 1440 })
        ≡ ok (leb expires.instant now)
  at_most-reading expires east now h = rw h refl

  has_passed-reading :
      (expires_at : String) (expires : DateTime) (east : ℕ) (s : FleetState)
      → parse_time env expires_at ≡ ok expires
      → expires.offset ≡ some east
      → (has_passed env expires_at s).0 ≡ ok (leb expires.instant (env.clock s.reads))
  unfolding has_passed lift ◌>>=◌ read_clock
  has_passed-reading expires_at expires east s parsed zoned =
      rw parsed (at_most-reading expires east _ zoned)

  pub is_expired-overdue :
      (command : Fields) (s : FleetState)
      → Readable env command
      → (is_expired env command s).0 ≡ ok (overdue env (env.clock s.reads) command)
  unfolding is_expired is_expired_at pure
  is_expired-overdue command s (undated h) = rw h refl
  is_expired-overdue command s (dated expires_at expires east h parsed zoned) =
      rw (h, parsed) (has_passed-reading expires_at expires east s parsed zoned)

  zoned_of :
      (o : Option ℕ) (m : ℕ) (c b : Bool)
      → (if same_kind o (some m) then ok c else err type_error) ≡ ok b
      → (east : ℕ) × (o ≡ some east)
  zoned_of none m c b h = absurd (cc h)
  zoned_of (some east) m c b h = (east, refl)

  at_most-zoned :
      (expires now : DateTime) (m : ℕ) (b : Bool)
      → now.offset ≡ some m
      → at_most expires now ≡ ok b
      → (east : ℕ) × (expires.offset ≡ some east)
  at_most-zoned expires now m b zoned h =
      zoned_of expires.offset m (leb expires.instant now.instant) b (
        subst
          (λ o.
            (if same_kind expires.offset o
              then ok (leb expires.instant now.instant)
              else err type_error)
            ≡ ok b)
          zoned h)

  has_passed-Readable :
      (command : Fields) (expires_at : String) (s : FleetState) (b : Bool)
      → as_str (get command "expires_at") ≡ some expires_at
      → (has_passed env expires_at s).0 ≡ ok b
      → Readable env command
  unfolding has_passed lift read_clock
  has_passed-Readable command expires_at s b e h =
      on_bind (lift (parse_time env expires_at)) _ s h λ expires parsed h1.
        on_bind (read_clock env) _ s h1 λ now read h2.
          let zone : now.offset ≡ some 1440 = ap (λ d. d.offset) (sym (ok-injective read)) in
          let (east, zoned) = at_most-zoned expires now 1440 b zone h2 in
          dated expires_at expires east e parsed zoned

  is_expired_at-Readable :
      (command : Fields) (o : Option String) (s : FleetState) (b : Bool)
      → as_str (get command "expires_at") ≡ o
      → (is_expired_at env o s).0 ≡ ok b
      → Readable env command
  unfolding is_expired_at
  is_expired_at-Readable command none s b e h = undated e
  is_expired_at-Readable command (some t) s b e h = has_passed-Readable command t s b e h

  -- A command whose expiry could be compared with the clock once can always be compared.
  pub is_expired-Readable :
      (command : Fields) (s : FleetState) (b : Bool)
      → (is_expired env command s).0 ≡ ok b
      → Readable env command
  unfolding is_expired
  is_expired-Readable command s b h =
      is_expired_at-Readable command (as_str (get command "expires_at")) s b refl h

  abbrev pub sorted : Option Fields → Fields → Bool → Option Fields × List Fields
  sorted selected command true = (selected, [])
  sorted selected command false = choose selected command

  sort_out-sorted :
      (agent_id : String) (selected : Option Fields) (command : Fields) (b : Bool) (s : FleetState)
      → (sort_out env agent_id selected command b s).0 ≡ ok (sorted selected command b)
  unfolding sort_out drop_expired ◌>>=◌ pure modify utc_now read_clock append_log
  sort_out-sorted agent_id selected command true s = refl
  sort_out-sorted agent_id selected command false s = refl

  pub visit-sorted :
      (agent_id : String) (selected : Option Fields) (command : Fields) (s : FleetState)
      → Readable env command
      → (visit env agent_id selected command s).0
        ≡ ok (sorted selected command (overdue env (env.clock s.reads) command))
  unfolding visit
  visit-sorted agent_id selected command s readable =
      ap (λ p. p.0)
        (run_bind (is_expired env command) _ s _ (is_expired-overdue command s readable))
      ∙ sort_out-sorted agent_id selected command _ _

  pub sweep-step :
      (agent_id : String) (selected : Option Fields) (command : Fields) (queue : List Fields)
      (s : FleetState) (v r : Option Fields × List Fields)
      → (visit env agent_id selected command s).0 ≡ ok v
      → (sweep env agent_id v.0 queue (visit env agent_id selected command s).1).0 ≡ ok r
      → (sweep env agent_id selected (command ∷ queue) s).0 ≡ ok (r.0, v.1 ++ r.1)
  unfolding sweep ◌>>=◌ pure
  sweep-step agent_id selected command queue s v r h k = rw (h, k) refl
