-- ===== src/Scorecard/Covered.antt =====
-- What a scorecard that says "synthetic_clear" shows.
use mathlib.Core.Path.{subst}
use quest_termux_lab.Base.{
  All, Bool, List, Option, String, [], any, any-false, ap, different, false, if◌then◌else◌, none,
  or_false, refl, some, sym, true, ◌&&◌, ◌∙◌, ◌∷◌, ◌≡◌,
}
use quest_termux_lab.Intake.Verdict.{schema_or_error}
use quest_termux_lab.Py.Dict.{Table, get, lookup, py_eq}
use quest_termux_lab.Py.Result.{
  Result, err, key_error, map_ok, ok, ok-injective, on_guard, on_ok, overflow_error, type_error,
  value_error,
}
use quest_termux_lab.Py.Stdlib.{Stdlib}
use quest_termux_lab.Py.Value.{Fields, is_text}
use quest_termux_lab.Scorecard.Build.{
  artifact_entry, build_scorecard_report, caught_score, entry_with, score_artifact,
  validate_manifest,
}
use quest_termux_lab.Scorecard.Card.{
  Score, ScoreEntry, ScorecardReport, identity_check, is_blocking, kinds_of, overall_status,
  score_is, scored_schemas, scored_validator,
}
use quest_termux_lab.Scorecard.Cleared.{
  Clears, Unblocked, blocked-bad, has_good_status, status_from_artifact-good,
}

pub record IsCleared (lib : Stdlib) (manifest : Fields) (kind : String) (artifact : Fields)
    : Type 0 where
  pub valid : scored_validator kind artifact ≡ ok tt
  pub same_fleet : py_eq (get artifact "fleet_id") (get manifest "fleet_id") ≡ true
  pub same_source : py_eq (get artifact "source_agent_id") (get manifest "source_agent_id") ≡ true
  pub good_status : has_good_status lib kind artifact ≡ true

-- Without an artifact the kind is optional, and an artifact that is there is clear.
abbrev pub IsCoveredBy : Stdlib → Fields → String → Bool → Option Fields → Type 0
IsCoveredBy lib manifest kind required none = required ≡ false
IsCoveredBy lib manifest kind required (some artifact) = IsCleared lib manifest kind artifact

abbrev pub IsCovered : Stdlib → Fields → Table Fields → String × Bool → Type 0
IsCovered lib manifest by_kind (kind, required) =
    IsCoveredBy lib manifest kind required (lookup by_kind kind)

optional : (required : Bool) → (required && true) ≡ false → required ≡ false
optional false h = refl
optional true h = absurd (cc h)

score_artifact-IsCleared :
    (lib : Stdlib) (kind schema : String) (manifest artifact : Fields)
    → Clears (score_artifact lib kind schema manifest artifact)
    → IsCleared lib manifest kind artifact
unfolding score_artifact identity_check
score_artifact-IsCleared lib kind schema manifest artifact (s, (h, u)) =
    on_ok (scored_validator kind artifact) h λ _ valid h1.
      on_guard (is_text (get artifact "schema") schema) _ h1 λ _ h2.
        on_ok (identity_check artifact manifest) h2 λ _ identity h3.
          on_guard (py_eq (get artifact "fleet_id") (get manifest "fleet_id")) _ identity
            λ fleet i1.
              on_guard (py_eq (get artifact "source_agent_id") (get manifest "source_agent_id")) _
                i1
                λ source _. record {
                  valid = valid;
                  same_fleet = fleet;
                  same_source = source;
                  good_status = status_from_artifact-good lib kind artifact (s, (h3, u));
                }

caught_score-Clears :
    (lib : Stdlib) (kind : String) (required : Bool) (schema : String) (artifact : Fields)
    (scored : Result Score) (entry : ScoreEntry)
    → caught_score lib kind required schema artifact scored ≡ ok entry
    → Unblocked entry.status
    → Clears scored
unfolding caught_score
caught_score-Clears lib kind required schema artifact (ok s) entry h u =
    (s, (refl, subst (λ (e : ScoreEntry). Unblocked e.status) (sym (ok-injective h)) u))
caught_score-Clears lib kind required schema artifact (err (value_error m)) entry h u =
    absurd (blocked-bad (subst (λ (e : ScoreEntry). Unblocked e.status) (sym (ok-injective h)) u))
caught_score-Clears lib kind required schema artifact (err (key_error k)) entry h u = absurd (cc h)
caught_score-Clears lib kind required schema artifact (err type_error) entry h u = absurd (cc h)
caught_score-Clears lib kind required schema artifact (err overflow_error) entry h u = absurd (cc h)

-- An entry that lets a scorecard be clear.
record Clear (entry : ScoreEntry) : Type 0 where
  status_clear : Unblocked entry.status
  not_missing : (entry.required && score_is "missing" entry) ≡ false

entry_with-IsCovered :
    (lib : Stdlib) (kind : String) (required : Bool) (schema : String) (manifest : Fields)
    (given : Option Fields) (entry : ScoreEntry)
    → entry_with lib kind required schema manifest given ≡ ok entry
    → Clear entry
    → IsCoveredBy lib manifest kind required given
unfolding entry_with
entry_with-IsCovered lib kind required schema manifest none entry h clear =
    optional required (subst Clear (sym (ok-injective h)) clear).not_missing
entry_with-IsCovered lib kind required schema manifest (some artifact) entry h clear =
    score_artifact-IsCleared lib kind schema manifest artifact (
      caught_score-Clears lib kind required schema artifact
        (score_artifact lib kind schema manifest artifact) entry h clear.status_clear)

artifact_entry-IsCovered :
    (lib : Stdlib) (manifest : Fields) (by_kind : Table Fields) (kind : String × Bool)
    (entry : ScoreEntry)
    → artifact_entry lib manifest by_kind kind ≡ ok entry
    → Clear entry
    → IsCovered lib manifest by_kind kind
unfolding artifact_entry
artifact_entry-IsCovered lib manifest by_kind (kind, required) entry h clear =
    on_ok (schema_or_error kind (lookup scored_schemas kind)) h λ schema _ h1.
      entry_with-IsCovered lib kind required schema manifest (lookup by_kind kind) entry h1 clear

entries-IsCovered :
    (lib : Stdlib) (manifest : Fields) (by_kind : Table Fields) (kinds : List (String × Bool))
    (entries : List ScoreEntry)
    → map_ok (artifact_entry lib manifest by_kind) kinds ≡ ok entries
    → All Clear entries
    → All (IsCovered lib manifest by_kind) kinds
entries-IsCovered lib manifest by_kind [] entries h clear = tt
entries-IsCovered lib manifest by_kind (kind ∷ kinds) entries h clear =
    on_ok (artifact_entry lib manifest by_kind kind) h λ entry made h1.
      on_ok (map_ok (artifact_entry lib manifest by_kind) kinds) h1 λ others made_others h2.
        let (here, there) = subst (All Clear) (sym (ok-injective h2)) clear in
        (
          artifact_entry-IsCovered lib manifest by_kind kind entry made here,
          entries-IsCovered lib manifest by_kind kinds others made_others there,
        )

all-Clear :
    (entries : List ScoreEntry)
    → All (λ e. is_blocking e ≡ false) entries
    → All (λ e. score_is "manual_review" e ≡ false) entries
    → All Clear entries
all-Clear [] h k = tt
all-Clear (e ∷ entries) (h, hs) (k, ks) =
    let (unblocked, present) =
      or_false (score_is "blocked" e) (e.required && score_is "missing" e) h in
    (
      record {
        status_clear = record { unblocked = unblocked; reviewed = k };
        not_missing = present;
      },
      all-Clear entries hs ks,
    )

abbrev clear_text : String
clear_text = "synthetic_clear"

clear_chain :
    (a b : Bool)
    → (if a then "blocked" else if b then "manual_review" else clear_text) ≡ clear_text
    → (a ≡ false) × (b ≡ false)
clear_chain false false h = (refl, refl)
clear_chain true b h = absurd (different "blocked" clear_text refl h)
clear_chain false true h = absurd (different "manual_review" clear_text refl h)

overall_status-Clear :
    (entries : List ScoreEntry) → overall_status entries ≡ clear_text → All Clear entries
unfolding overall_status
overall_status-Clear entries h =
    let (a, b) = clear_chain (any is_blocking entries) (any (score_is "manual_review") entries) h in
    all-Clear entries (any-false is_blocking entries a)
      (any-false (score_is "manual_review") entries b)

-- If a scorecard report is made and says "synthetic_clear", there is an artifact of each required
-- kind, and each artifact of a kind that the manifest lists is valid, has the fleet and source of
-- the manifest, and has the good status of its kind, where the kind has one.
pub build_scorecard_report-IsCovered :
    (lib : Stdlib) (manifest : Fields) (by_kind : Table Fields) (now : Option String)
    (report : ScorecardReport)
    → build_scorecard_report lib manifest by_kind now ≡ ok report
    → report.overall_status ≡ "synthetic_clear"
    → All (IsCovered lib manifest by_kind) (kinds_of manifest)
unfolding build_scorecard_report
build_scorecard_report-IsCovered lib manifest by_kind now report h clear =
    on_ok (validate_manifest lib manifest) h λ _ _ h1.
      on_ok (map_ok (artifact_entry lib manifest by_kind) (kinds_of manifest)) h1 λ entries made h2.
        entries-IsCovered lib manifest by_kind (kinds_of manifest) entries made (
          overall_status-Clear entries
            (ap (λ (r : ScorecardReport). r.overall_status) (ok-injective h2) ∙ clear))
