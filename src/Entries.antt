-- ===== src/Entries.antt =====
-- What the report tools under tools/ repeat: validate_text_array, the tests of paths and sets, the
-- entries of a list of checks, and the counts of a summary.
pub mod Counts
pub mod Texts
use mathlib.Core.Path.{subst}
use quest_termux_lab.Base.{
  All, Bool, Bool-cases, List, String, [], any, arith, false, if◌then◌else◌, inl, inr, length, map,
  member, not, refl, suc, true, ℕ, ◌&&◌, ◌+◌, ◌==◌, ◌∷◌, ◌≡◌, ◌≤◌,
}
use quest_termux_lab.Dispatch.{validate_relative_path}
use quest_termux_lab.Fleet.State.{check}
use quest_termux_lab.Gossip.Envelope.{nonempty_list}
use quest_termux_lab.Py.Dict.{get, keys}
use quest_termux_lab.Py.Result.{
  Check, Error, Result, each, err, guard, guard-eq-ok, map_ok, ok, on_guard, type_error,
  value_error, ◌>>=◌, ◌>>◌,
}
use quest_termux_lab.Py.Stdlib.{Stdlib}
use quest_termux_lab.Py.Text.{lowers_to, ◌+ₛ◌}
use quest_termux_lab.Py.Value.{
  Fields, Value, arr, is_bool, is_count, is_one_of, is_text, str, text, to_list, unhashable,
}

-- `if condition: entries.append(x)`
abbrev pub when {ℓ} : {A : Type ℓ} → Bool → A → List A
when true x = x ∷ []
when false x = []

-- sum(1 for x in xs if p(x))
abbrev pub count_where {ℓ} : {A : Type ℓ} → (A → Bool) → List A → ℕ
count_where p [] = 0
count_where p (x ∷ xs) = let n = count_where p xs in if p x then suc n else n

abbrev pub one : Bool → ℕ
one true = 1
one false = 0

pub count-step {ℓ} :
    {A : Type ℓ} (p : A → Bool) (x : A) (xs : List A)
    → count_where p (x ∷ xs) ≡ one (p x) + count_where p xs
count-step p x xs = elim (Bool-cases (p x)) [
  | inl taken ↦ rw taken (omega arith)
  | inr skipped ↦ rw skipped (omega arith)
]

pub one-le : (b : Bool) → one b ≤ 1
one-le true = omega arith
one-le false = omega arith

pub one-or-not : (b c : Bool) → c ≡ not b → one c + one b ≡ 1
one-or-not true c h = rw h refl
one-or-not false c h = rw h refl

pub count-le {ℓ} : {A : Type ℓ} (p : A → Bool) (xs : List A) → count_where p xs ≤ length xs
count-le p [] = omega arith
count-le p (x ∷ xs) = omega (arith, count-le p xs, count-step p x xs, one-le (p x))

-- Where as many entries pass a test as there are, each of them passes it.
pub count-all {ℓ} :
    {A : Type ℓ} (p : A → Bool) (xs : List A)
    → count_where p xs ≡ length xs
    → All (λ x. p x ≡ true) xs
count-all p [] h = tt
count-all p (x ∷ xs) h = elim (Bool-cases (p x)) [
  | inl taken ↦
      let step : count_where p (x ∷ xs) ≡ one true + count_where p xs =
        subst (λ b. count_where p (x ∷ xs) ≡ one b + count_where p xs) taken (count-step p x xs) in
      (taken, count-all p xs (omega (arith, h, step)))
  | inr skipped ↦
      let step : count_where p (x ∷ xs) ≡ one false + count_where p xs =
        subst (λ b. count_where p (x ∷ xs) ≡ one b + count_where p xs) skipped
          (count-step p x xs) in
      absurd (omega (arith, h, step, count-le p xs))
]

-- `if v not in names: raise e`, for a set of texts
abbrev pub check_in : Value → List String → Error → Check
check_in v names e = guard (not (unhashable v)) type_error >> guard (is_one_of v names) e

pub check_in-listed :
    (v : Value) (names : List String) (e : Error) (u : Unit {0})
    → check_in v names e ≡ ok u
    → is_one_of v names ≡ true
check_in-listed v names e u h =
    on_guard (not (unhashable v)) type_error h λ _ h1. guard-eq-ok (is_one_of v names) e h1

-- s in v, for a text s and a list v
abbrev pub lists : Value → String → Bool
lists (arr vs) s = any (λ v. is_text v s) (to_list vs)
lists _ s = false

-- [str(v) for v in value], for a list of texts that was tested to be one
abbrev pub texts_of : Value → List String
texts_of (arr vs) = map text (to_list vs)
texts_of _ = []

unfoldable pub nonempty_text : String → Value → Result String
nonempty_text label (str s) =
    guard (not (s == "")) (value_error (label +ₛ " entries must be non-empty strings")) >> ok s
nonempty_text label _ = err (value_error (label +ₛ " entries must be non-empty strings"))

-- len(texts) == len(set(texts))
abbrev pub unique : List String → Bool
unique [] = true
unique (s ∷ rest) = not (member s rest) && unique rest

unfoldable pub validate_text_array : Value → String → Result (List String)
unfolding nonempty_list nonempty_text
validate_text_array value label = do
  found ← nonempty_list value (value_error (label +ₛ " must be a non-empty array"))
  texts ← map_ok (nonempty_text label) found
  guard (unique texts) (value_error (label +ₛ " entries must be unique"))
  ok texts

-- `if not isinstance(d[key], bool): raise ValueError(key + " must be boolean")`
unfoldable pub require_bools : List String → Fields → Check
require_bools keys d =
    each (λ key. guard (is_bool (get d key)) (value_error (key +ₛ " must be boolean"))) keys

-- `if not isinstance(d.get(key), int) or d[key] < 0: raise ValueError(prefix + key)`
unfoldable pub require_counts : String → List String → Fields → Check
require_counts prefix keys d =
    each (λ key. guard (is_count (get d key)) (value_error (prefix +ₛ key))) keys

-- An entry of a list of checks. `threshold` is called `expected` in some tools.
pub record CheckEntry : Type 0 where
  pub check_id : String
  pub status : String
  pub observed : String
  pub threshold : String
  pub reason : String

abbrev pub check_statuses : List String
check_statuses = "passed" ∷ "manual_review" ∷ "failed" ∷ []

-- any(check["status"] == status for check in checks)
abbrev pub any_status : String → List CheckEntry → Bool
any_status status checks = any (λ c. c.status == status) checks

abbrev pub count_status : String → List CheckEntry → ℕ
count_status status checks = count_where (λ c. c.status == status) checks

-- A check that is neither failed nor left to a review.
pub record Good (check : CheckEntry) : Type 0 where
  pub unfailed : (check.status == "failed") ≡ false
  pub reviewed : (check.status == "manual_review") ≡ false

pub all-Good :
    (checks : List CheckEntry)
    → All (λ c. (c.status == "failed") ≡ false) checks
    → All (λ c. (c.status == "manual_review") ≡ false) checks
    → All Good checks
all-Good [] h k = tt
all-Good (c ∷ checks) (h, hs) (k, ks) =
    (record { unfailed = h; reviewed = k }, all-Good checks hs ks)

module _ (lib : Stdlib) where
  unfoldable pub validate_json_path : String → String → Check
  unfolding validate_relative_path
  validate_json_path value label =
      validate_relative_path lib value label
      >> guard (lowers_to (lib.suffix value) ".json")
          (value_error (label +ₛ " must reference a json file"))
