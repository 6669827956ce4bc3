-- ===== src/Delivery/Totals.antt =====
-- The summary of a valid delivery state in tools/peer_mesh_delivery.py.
-- A text that a dictionary holds, and that a test has found in a list of names.
use mathlib.Core.Path.{subst}
use quest_termux_lab.Base.{
  List, Option, String, [], arith, length, map, member, none, refl, some, sym, true, ℕ, ◌+◌, ◌∷◌,
  ◌≡◌,
}
use quest_termux_lab.Delivery.Update.{field_text, summarize}
use quest_termux_lab.Delivery.Validate.{
  delivery_keys, delivery_state_schema, delivery_states, require_texts, state_keys, terminal_states,
  validate_deliveries, validate_delivery, validate_state,
}
use quest_termux_lab.Entries.Counts.{counts-total}
use quest_termux_lab.Gossip.Envelope.{require_keys}
use quest_termux_lab.Py.Dict.{
  array_or, check_members, count_text, get, get?, or_default, or_key_error, size, sum,
}
use quest_termux_lab.Py.Result.{
  Error, map_ok, map_ok-length, ok, ok-injective, on_guard, on_ok, value_error, ◌>>=◌,
}
use quest_termux_lab.Py.Stdlib.{Stdlib, text_of}
use quest_termux_lab.Py.Value.{
  Fields, Items, Value, arr, count_of, dict, is_one_of, is_text, nat, null, obj, str, to_list,
}

record Held (lib : Stdlib) (names : List String) (key : String) (d : Fields) : Type 0 where
  held : String
  found : field_text lib key (obj d) ≡ ok held
  listed : member held names ≡ true

held_text :
    (lib : Stdlib) (names : List String) (key : String) (o : Option Value)
    → is_one_of (or_default null o) names ≡ true
    → (s : String) × ((or_key_error key o >>= λ v. ok (text_of lib v)) ≡ ok s)
      × (member s names ≡ true)
held_text lib names key (some (str s)) h = (s, refl, h)
held_text lib names key none h = absurd (cc h)
held_text lib names key (some v) h = absurd (cc h)

field_text-Held :
    (lib : Stdlib) (names : List String) (key : String) (d : Fields)
    → is_one_of (get d key) names ≡ true
    → Held lib names key d
unfolding field_text
field_text-Held lib names key d h =
    let (s, found, listed) = held_text lib names key (get? d key) h in
    record { held = s; found = found; listed = listed }

-- The states of a list of deliveries are read, and each of them is listed.
record StatesRead (lib : Stdlib) (vs : List Value) : Type 0 where
  states : List String
  read : map_ok (field_text lib "state") vs ≡ ok states
  known : check_members delivery_states states ≡ ok tt

state-read :
    (lib : Stdlib) (v : Value) (vs : List Value) (s : String)
    → field_text lib "state" v ≡ ok s
    → member s delivery_states ≡ true
    → StatesRead lib vs
    → StatesRead lib (v ∷ vs)
state-read lib v vs s h listed rest = record {
  states = s ∷ rest.states;
  read = rw (h, rest.read) refl;
  known = rw (listed, rest.known) refl;
}

validate_deliveries-StatesRead :
    (lib : Stdlib) (seen : List String) (vs : List Value) (u : Unit {0})
    → validate_deliveries seen vs ≡ ok u
    → StatesRead lib vs
unfolding validate_deliveries validate_delivery
validate_deliveries-StatesRead lib seen [] u h = record { states = []; read = refl; known = refl }
validate_deliveries-StatesRead lib seen (obj d ∷ vs) u h =
    on_ok (validate_delivery seen (obj d)) h λ seen' fine rest.
      on_ok (require_texts "delivery missing " delivery_keys d) fine λ _ _ h1.
        on_guard (is_one_of (get d "state") delivery_states) _ h1 λ here _.
          let held = field_text-Held lib delivery_states "state" d here in
          state-read lib (obj d) vs held.held held.found held.listed
            (validate_deliveries-StatesRead lib seen' vs u rest)
validate_deliveries-StatesRead lib seen (v ∷ vs) u h = absurd (cc h)

-- What a summary says of the deliveries of a state.
pub record AddsUp (counts : Fields) : Type 0 where
  pub by_state :
      count_of (get counts "pending_count")
        + count_of (get counts "accepted_count")
        + count_of (get counts "duplicate_count")
        + count_of (get counts "rejected_count")
        + count_of (get counts "expired_count")
      ≡ count_of (get counts "delivery_count")
  pub terminal :
      count_of (get counts "pending_count") + count_of (get counts "terminal_count")
      ≡ count_of (get counts "delivery_count")

held_array :
    (o : Option Value) (e : Error) (vs : List Value)
    → array_or (or_default null o) e ≡ ok vs
    → (items : Items) × (o ≡ some (arr items)) × (to_list items ≡ vs)
held_array (some (arr items)) e vs h = (items, refl, ok-injective h)
held_array none e vs h = absurd (cc h)
held_array (some v) e vs h = absurd (cc h)

validate_state-StatesRead :
    (lib : Stdlib) (state : Fields)
    → validate_state state ≡ ok tt
    → (items : Items) × (get? state "deliveries" ≡ some (arr items))
      × StatesRead lib (to_list items)
unfolding validate_state
validate_state-StatesRead lib state h =
    on_guard (is_text (get state "schema") delivery_state_schema) _ h λ _ h1.
      on_ok (require_keys "delivery state missing " state_keys state) h1 λ _ _ h2.
        on_ok (array_or (get state "deliveries") (value_error "deliveries must be an array")) h2
          λ deliveries there h3.
            let (items, held, same) = held_array (get? state "deliveries") _ deliveries there in
            (
              items,
              held,
              subst (StatesRead lib) (sym same)
                  (validate_deliveries-StatesRead lib [] deliveries tt h3),
            )

-- The counts of the states that were read.
abbrev counts_of : List String → ℕ → Fields
counts_of states size = dict (
    ("delivery_count", nat size)
    ∷ ("pending_count", nat (count_text "pending" states))
    ∷ ("accepted_count", nat (count_text "accepted" states))
    ∷ ("duplicate_count", nat (count_text "duplicate" states))
    ∷ ("rejected_count", nat (count_text "rejected" states))
    ∷ ("expired_count", nat (count_text "expired" states))
    ∷ ("terminal_count", nat (sum (map (λ s. count_text s states) terminal_states)))
    ∷ [])

counts_of-AddsUp :
    (states : List String)
    → check_members delivery_states states ≡ ok tt
    → AddsUp (counts_of states (length states))
counts_of-AddsUp states known = record {
  by_state = omega (arith, counts-total delivery_states states refl known);
  terminal = omega (arith, counts-total delivery_states states refl known);
}

-- The summary of a valid state is made, whatever else the state holds: each delivery is counted in
-- exactly one state, and each is either pending or terminal.
pub summarize-total :
    (lib : Stdlib) (state : Fields)
    → validate_state state ≡ ok tt
    → (counts : Fields) × (summarize lib state ≡ ok counts) × AddsUp counts
unfolding summarize
summarize-total lib state h =
    let (items, held, read) = validate_state-StatesRead lib state h in
    let size = map_ok-length (field_text lib "state") (to_list items) read.states read.read in
    (
      counts_of read.states (length (to_list items)),
      rw (held, read.read, read.known) refl,
      subst (λ n. AddsUp (counts_of read.states n)) size (counts_of-AddsUp read.states read.known),
    )
