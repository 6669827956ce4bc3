-- ===== src/Topology/Agents.antt =====
-- The agents that a manifest of tools/peer_mesh_topology.py lists.
use mathlib.Core.Path.{subst}
use quest_termux_lab.Base.{List, Option, String, map, member, none, not, refl, some, sym, true, ◌≡◌}
use quest_termux_lab.Delivery.Validate.{require_texts}
use quest_termux_lab.Entries.{check_in, texts_of, unique, validate_text_array}
use quest_termux_lab.Gossip.Envelope.{contains_forbidden_key, require_keys}
use quest_termux_lab.Py.Dict.{get, get?, item, list_of, or_default, or_key_error}
use quest_termux_lab.Py.Result.{ok, on_guard, on_ok, value_error}
use quest_termux_lab.Py.Stdlib.{Stdlib}
use quest_termux_lab.Py.Value.{Fields, Value, is_one_of, is_text, null, obj, str, text}
use quest_termux_lab.Readiness.{experiment_scopes}
use quest_termux_lab.Topology.{topology_manifest_schema}
use quest_termux_lab.Topology.Targets.{validate_text_array-list, validate_text_array-texts}
use quest_termux_lab.Topology.Validate.{
  check_time, manifest_keys, manifest_texts, validate_manifest,
}

is_one_of-member :
    (v : Value) (xs : List String) → is_one_of v xs ≡ true → member (text v) xs ≡ true
is_one_of-member (str s) xs h = h
is_one_of-member _ xs h = absurd (cc h)

is_one_of-item :
    (k : String) (o : Option Value) (xs : List String)
    → is_one_of (or_default null o) xs ≡ true
    → or_key_error k o ≡ ok (str (text (or_default null o)))
is_one_of-item k none xs h = absurd (cc h)
is_one_of-item k (some (str s)) xs h = refl
is_one_of-item k (some v) xs h = absurd (cc h)

pub list_of-item :
    (k : String) (o : Option Value) (vs : List Value)
    → list_of (or_default null o) ≡ ok vs
    → (held : Value) × ((or_key_error k o ≡ ok held) × (list_of held ≡ ok vs))
list_of-item k none vs h = absurd (cc h)
list_of-item k (some v) vs h = (v, (refl, h))

abbrev pub source_name : Fields → String
source_name manifest = text (get manifest "source_agent_id")

abbrev pub agent_names : Fields → List String
agent_names manifest = texts_of (get manifest "expected_agent_ids")

-- The expected agents of a manifest are texts, each listed once, and the source is one of them.
pub record HasAgents (manifest : Fields) : Type 0 where
  pub alone : unique (agent_names manifest) ≡ true
  pub present : member (source_name manifest) (agent_names manifest) ≡ true
  pub held : Value
  pub agents_held : item manifest "expected_agent_ids" ≡ ok held
  pub agents_read : list_of held ≡ ok (map str (agent_names manifest))
  pub source_held : item manifest "source_agent_id" ≡ ok (str (source_name manifest))

pub validate_manifest-HasAgents :
    (lib : Stdlib) (manifest : Fields) (u : Unit {0})
    → validate_manifest lib manifest ≡ ok u
    → HasAgents manifest
unfolding validate_manifest
validate_manifest-HasAgents lib manifest u h =
    on_guard (is_text (get manifest "schema") topology_manifest_schema) _ h λ _ h1.
      on_guard (not (contains_forbidden_key (obj manifest))) _ h1 λ _ h2.
        on_ok (require_keys "peer topology manifest missing " manifest_keys manifest) h2 λ _ _ h3.
          on_ok (require_texts "peer topology manifest missing " manifest_texts manifest) h3
            λ _ _ h4. on_ok (check_time lib (get manifest "observed_at")) h4 λ _ _ h5.
              on_ok
                (check_in (get manifest "experiment_scope") experiment_scopes
                  (value_error "unsupported experiment_scope"))
                h5
                λ _ _ h6.
                  on_ok
                    (validate_text_array (get manifest "expected_agent_ids") "expected_agent_ids")
                    h6
                    λ agents found h7.
                      on_guard (is_one_of (get manifest "source_agent_id") agents) _ h7 λ here _.
                        let (same, alone) =
                          validate_text_array-texts _ "expected_agent_ids" agents found in
                        let (held, (agents_held, agents_read)) =
                          list_of-item "expected_agent_ids" (get? manifest "expected_agent_ids")
                            (map str agents)
                            (validate_text_array-list _ "expected_agent_ids" agents found) in
                        record {
                          alone = subst (λ l. unique l ≡ true) (sym same) alone;
                          present =
                              subst (λ l. member (source_name manifest) l ≡ true) (sym same)
                                (is_one_of-member (get manifest "source_agent_id") agents here);
                          held = held;
                          agents_held = agents_held;
                          agents_read =
                              subst (λ l. list_of held ≡ ok (map str l)) (sym same) agents_read;
                          source_held =
                              is_one_of-item "source_agent_id" (get? manifest "source_agent_id")
                                agents here;
                        }
