-- ===== src/Gossip/Conversion.antt =====
-- What envelope_from_heartbeat of tools/peer_mesh_gossip.py takes over from a heartbeat.
use mathlib.Core.Path.{subst}
use quest_termux_lab.Base.{Option, String, false, none, refl, some, ◌≡◌}
use quest_termux_lab.Gossip.Envelope.{
  contains_forbidden_key, dict_or, forbidden_key, if_int, if_text, observation_from_heartbeat,
  validate_heartbeat,
}
use quest_termux_lab.Py.Dict.{get, item}
use quest_termux_lab.Py.Result.{ok, ok-injective, on_ok}
use quest_termux_lab.Py.Stdlib.{Stdlib, int_of}
use quest_termux_lab.Py.Value.{Fields, Value, bool, int, obj, or_null, str, ℤ}

-- A value that holds no other value.
if_text_plain : (v : Value) → contains_forbidden_key (if_text v) ≡ false
unfolding contains_forbidden_key
if_text_plain (str s) = refl
if_text_plain _ = refl

if_int_plain : (v : Value) → contains_forbidden_key (if_int v) ≡ false
unfolding contains_forbidden_key
if_int_plain (int z) = refl
if_int_plain (bool b) = refl
if_int_plain _ = refl

or_null_plain : (o : Option String) → contains_forbidden_key (or_null o) ≡ false
unfolding contains_forbidden_key
or_null_plain none = refl
or_null_plain (some s) = refl

module _ (lib : Stdlib) where
  -- Whatever a heartbeat holds, an ADB target or a command identifier included, the observation
  -- made of it has no forbidden field.
  pub observation_from_heartbeat-is_clean :
      (heartbeat observation : Fields) (heard_by : Option String) (stale_after : ℤ)
      (summary_hash : Option String)
      → observation_from_heartbeat lib heartbeat heard_by stale_after summary_hash ≡ ok observation
      → contains_forbidden_key (obj observation) ≡ false
  unfolding observation_from_heartbeat contains_forbidden_key forbidden_key
  observation_from_heartbeat-is_clean heartbeat observation heard_by stale_after summary_hash h =
      on_ok (validate_heartbeat heartbeat) h λ _ _ h1.
        on_ok (dict_or (get heartbeat "local_adb") _) h1 λ local_adb _ h2.
          on_ok (item heartbeat "agent_id") h2 λ agent _ h3.
            on_ok (item heartbeat "observed_at") h3 λ observed_at _ h4.
              on_ok (item heartbeat "sequence") h4 λ sequence _ h5.
                on_ok (int_of lib sequence) h5 λ n _ h6.
                  on_ok (item heartbeat "central_reachable") h6 λ reachable _ h7.
                    subst (λ d. contains_forbidden_key (obj d) ≡ false) (ok-injective h7)
                      (simp (if_text_plain, if_int_plain, or_null_plain))
