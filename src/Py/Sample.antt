-- ===== src/Py/Sample.antt =====
-- A concrete standard library for the tests: it reads two dates, and prints every date alike.
use quest_termux_lab.Base.{String, [], false, if◌then◌else◌, none, some, true, ℕ, ◌==◌, ◌∷◌}
use quest_termux_lab.Py.Result.{err, ok, type_error}
use quest_termux_lab.Py.Stdlib.{Stdlib}
use quest_termux_lab.Py.Time.{DateTime}
use quest_termux_lab.Py.Value.{pos}

abbrev pub past_text : String
past_text = "2026-01-01T00:00:00+00:00"

abbrev pub future_text : String
future_text = "2026-01-02T00:00:00+00:00"

abbrev pub utc : ℕ → DateTime
utc n = record { instant = n; offset = some 1440 }

abbrev pub sample_lib : Stdlib
sample_lib = record {
  fromisoformat = λ t.
      if t == past_text
      then some (utc 1000)
      else if t == future_text
      then some (utc 9000)
      else none;
  isoformat = λ d. "2026-01-01T12:00:00Z";
  format_seconds = λ d. "2026-01-01T12:00:00Z";
  max_instant = 1000000000000;
  repr = λ v. "";
  parse_int = λ t. none;
  truncate = λ t. some (pos 0);
  float_at_least_one = λ t. true;
  scaled = λ n m k. some n;
  urlparse = λ t. none;
  is_absolute = λ t. false;
  path_parts = λ t. t ∷ [];
  suffix = λ t. ".json";
  sorted_values = λ vs. ok vs;
  dict_of_pairs = λ v. err type_error;
}
