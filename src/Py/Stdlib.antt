-- ===== src/Py/Stdlib.antt =====
-- What the tools leave to the standard library and the model takes as a parameter.
use quest_termux_lab.Base.{
  Bool, List, Option, String, false, if◌then◌else◌, leb, none, some, true, ℕ, ◌*◌, ◌+◌, ◌==◌, ◌||◌,
}
use quest_termux_lab.Py.Result.{Result, err, ok, overflow_error, type_error, value_error}
use quest_termux_lab.Py.Time.{DateTime}
use quest_termux_lab.Py.Value.{Fields, Value, arr, bool, float, int, is_pos, obj, pos, str, ℤ}

pub record Url : Type 0 where
  pub scheme : String
  pub hostname : Option String

pub record Stdlib : Type 0 where
  -- datetime.fromisoformat, which raises a ValueError on `none`
  pub fromisoformat : String → Option DateTime
  -- t.isoformat().replace("+00:00", "Z"), and the same with the microseconds set to 0
  pub isoformat : DateTime → String
  pub format_seconds : DateTime → String
  -- the largest instant that a datetime can hold
  pub max_instant : ℕ
  -- str(v), for a value that is not a text
  pub repr : Value → String
  -- int(t) for a text, and int(x) for the finite float or nan with the text t; `none` is a
  -- ValueError
  pub parse_int : String → Option ℤ
  pub truncate : String → Option ℤ
  -- x >= 1, for the float with the text x
  pub float_at_least_one : String → Bool
  -- int(round(n * math.pow(float(m), k))), where a result out of range is an OverflowError
  pub scaled : ℕ → Value → ℕ → Option ℕ
  -- urlparse, which raises a ValueError on `none`
  pub urlparse : String → Option Url
  -- Path(p).is_absolute(), Path(p).parts
  pub is_absolute : String → Bool
  pub path_parts : String → List String
  -- Path(p).suffix
  pub suffix : String → String
  -- sorted(vs), for values that are not all texts
  pub sorted_values : List Value → Result (List Value)
  -- dict(v), for a list or a text
  pub dict_of_pairs : Value → Result Fields

abbrev parsed : Option ℤ → Result ℤ
parsed none = err (value_error "invalid literal for int()")
parsed (some z) = ok z

-- int() of an infinity raises an OverflowError.
abbrev is_infinite : String → Bool
is_infinite t = t == "inf" || t == "-inf"

-- v >= 1, for an integer or a float
abbrev pub at_least_one : Stdlib → Value → Bool
at_least_one lib (int z) = is_pos z
at_least_one lib (bool b) = b
at_least_one lib (float t) = lib.float_at_least_one t
at_least_one lib _ = false

module _ (lib : Stdlib) where
  -- str(v)
  abbrev pub text_of : Value → String
  text_of (str s) = s
  text_of v = lib.repr v

  -- int(v)
  abbrev pub int_of : Value → Result ℤ
  int_of (int z) = ok z
  int_of (bool true) = ok (pos 1)
  int_of (bool false) = ok (pos 0)
  int_of (str t) = parsed (lib.parse_int t)
  int_of (float t) = if is_infinite t then err overflow_error else parsed (lib.truncate t)
  int_of _ = err type_error

  -- dict(v)
  abbrev pub dict_from : Value → Result Fields
  dict_from (obj d) = ok d
  dict_from (arr vs) = lib.dict_of_pairs (arr vs)
  dict_from (str s) = lib.dict_of_pairs (str s)
  dict_from _ = err type_error

  -- datetime.fromisoformat(t)
  abbrev pub from_iso : String → Result DateTime
  from_iso t = elim (lib.fromisoformat t) [
    | none ↦ err (value_error "Invalid isoformat string")
    | some d ↦ ok d
  ]

  -- t + timedelta(seconds=n)
  abbrev pub plus_seconds : DateTime → ℕ → Result DateTime
  plus_seconds t n =
      let moved = t.instant + n * 1000000 in
      if leb moved lib.max_instant then ok (record t { instant = moved }) else err overflow_error

-- `x or default`, for an argument that may be None or empty
abbrev pub or_text : Option String → String → String
or_text none default = default
or_text (some s) default = if s == "" then default else s

-- o == t, for a text that may be None
abbrev pub is_some_text : Option String → String → Bool
is_some_text none t = false
is_some_text (some s) t = s == t
