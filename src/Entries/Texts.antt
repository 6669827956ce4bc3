-- ===== src/Entries/Texts.antt =====
-- What a dict holds whose texts require_texts has tested.
-- A key of a dict that holds a text.
use quest_termux_lab.Base.{All, List, Option, String, [], none, refl, some, true, ◌∷◌, ◌≡◌}
use quest_termux_lab.Delivery.Validate.{require_texts}
use quest_termux_lab.Py.Dict.{get, get?, item, keys, or_default, or_key_error}
use quest_termux_lab.Py.Result.{ok, on_guard}
use quest_termux_lab.Py.Value.{Fields, Value, is_name, null, str}

pub record HasText (d : Fields) (k : String) : Type 0 where
  pub held : String
  pub read : item d k ≡ ok (str held)

abbrev TextIn : String → Option Value → Type 0
TextIn k o = (s : String) × (or_key_error k o ≡ ok (str s))

name-TextIn : (k : String) (o : Option Value) → is_name (or_default null o) ≡ true → TextIn k o
name-TextIn k none h = absurd (cc h)
name-TextIn k (some (str s)) h = (s, refl)
name-TextIn k (some v) h = absurd (cc h)

pub require_texts-HasText :
    (prefix : String) (keys : List String) (d : Fields) (u : Unit {0})
    → require_texts prefix keys d ≡ ok u
    → All (HasText d) keys
unfolding require_texts
require_texts-HasText prefix [] d u h = tt
require_texts-HasText prefix (k ∷ keys) d u h = on_guard (is_name (get d k)) _ h λ named rest.
    let (held, read) = name-TextIn k (get? d k) named in
    (record { held = held; read = read }, require_texts-HasText prefix keys d u rest)
