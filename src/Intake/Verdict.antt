-- ===== src/Intake/Verdict.antt =====
-- The verdict on each artifact, the status and the report of tools/peer_mesh_evidence_intake.py.
use Prim.Native.Char.{code}
use quest_termux_lab.Base.{
  Bool, List, Option, String, [], any, eqb, false, if◌then◌else◌, length, member, none, not, some,
  ℕ, ◌&&◌, ◌++◌, ◌==◌, ◌∷◌,
}
use quest_termux_lab.Entries.{count_where}
use quest_termux_lab.Fleet.Report.{summary}
use quest_termux_lab.Intake.{evidence_schemas, kinds_at, validate_manifest, validator_of}
use quest_termux_lab.Py.Dict.{Table, get, get_or, lookup, py_eq}
use quest_termux_lab.Py.Result.{
  Check, Result, err, guard, key_error, map_ok, ok, on_value_error, type_error, value_error, ◌>>=◌,
  ◌>>◌,
}
use quest_termux_lab.Py.Stdlib.{Stdlib, or_text, text_of}
use quest_termux_lab.Py.Value.{
  Fields, Value, bool, end, float, int, is_pos, is_text, is_true, nat, obj, str, truthy,
}

abbrev pub evidence_report_schema : String
evidence_report_schema = "quest-termux-lab.peer-evidence-intake-report.v1"

abbrev pub intake_statuses : List String
intake_statuses = "accepted" ∷ "manual_review" ∷ "rejected" ∷ []

pub record ArtifactEntry : Type 0 where
  pub artifact_kind : String
  pub status : String
  pub expected_schema : String
  pub observed_schema : String
  pub reason : String

-- t > 0.0, for the text of a float: `repr` starts a negative one with a minus sign.
abbrev pub starts_negative : String → Bool
starts_negative String.[] = false
starts_negative (String.◌∷◌ c s) = eqb (code c) b'-'

abbrev pub positive_float : String → Bool
positive_float t = not (starts_negative t) && not (t == "0.0") && not (t == "nan")

-- v > 0
unfoldable pub above_zero : Value → Result Bool
above_zero (int z) = ok (is_pos z)
above_zero (bool b) = ok b
above_zero (float t) = ok (positive_float t)
above_zero _ = err type_error

-- artifact.get(key) and artifact.get(key) != manifest[key]
abbrev pub scope_differs : Fields → Fields → Bool
scope_differs artifact manifest =
    truthy (get artifact "experiment_scope")
    && not (py_eq (get artifact "experiment_scope") (get manifest "experiment_scope"))

unfoldable pub identity_check : String → Fields → Fields → Check
identity_check kind artifact manifest =
    guard (py_eq (get artifact "fleet_id") (get manifest "fleet_id"))
      (value_error "fleet_id mismatch")
    >> (if kind == "gossip_receipt"
        then ok tt
        else guard (py_eq (get artifact "source_agent_id") (get manifest "source_agent_id"))
            (value_error "source_agent_id mismatch")
          >> guard (not (scope_differs artifact manifest))
              (value_error "experiment_scope mismatch"))

-- The status and the reason that an artifact gets.
abbrev pub Verdict : Type 0
Verdict = String × String

abbrev pub artifact_accepted : Verdict
artifact_accepted = ("accepted", "artifact accepted")

abbrev pub left_open : Bool → String → Verdict
left_open waiting reason = if waiting then ("manual_review", reason) else artifact_accepted

unfoldable pub rehearsal_verdict : Fields → Fields → Verdict
rehearsal_verdict manifest artifact =
    if not (is_true (get manifest "require_rehearsal_ready"))
    then artifact_accepted
    else if is_text (get artifact "overall_status") "manual_review"
    then ("manual_review", "rehearsal report requires manual review")
    else if not (is_text (get artifact "overall_status") "rehearsal_ready")
    then ("rejected", "rehearsal report is not rehearsal_ready")
    else artifact_accepted

unfoldable pub trust_verdict : Fields → Verdict
trust_verdict artifact =
    if is_text (get artifact "overall_status") "manual_review"
    then ("manual_review", "trust report requires manual review")
    else if is_text (get artifact "overall_status") "untrusted"
    then ("rejected", "trust report is untrusted")
    else artifact_accepted

unfoldable pub cleanup_verdict : Fields → Verdict
cleanup_verdict artifact =
    if is_text (get artifact "cleanup_status") "manual_review"
    then ("manual_review", "cleanup record requires manual review")
    else if is_text (get artifact "cleanup_status") "not_started"
    then ("manual_review", "cleanup has not started in public synthetic evidence")
    else artifact_accepted

-- The review of a count of a summary, where the summary is a dict.
unfoldable pub count_verdict : String → String → Value → Result Verdict
unfolding above_zero
count_verdict key reason (obj summary) =
    above_zero (get_or summary key (nat 0)) >>= λ some_left. ok (left_open some_left reason)
count_verdict key reason _ = ok artifact_accepted

-- The tests by kind, which exclude each other.
unfoldable pub verdict : Fields → String → Fields → Result Verdict
unfolding rehearsal_verdict trust_verdict count_verdict cleanup_verdict
verdict manifest kind artifact =
    if kind == "rehearsal_report"
    then ok (rehearsal_verdict manifest artifact)
    else if kind == "trust_report"
    then ok (trust_verdict artifact)
    else if kind == "route_health_report"
    then count_verdict "unknown_count" "route-health report still has unknown routes"
        (get_or artifact "summary" (obj end))
    else if kind == "route_history_report"
    then count_verdict "last_unknown_count" "route-history report still has unknown routes"
        (get_or artifact "summary" (obj end))
    else if kind == "cleanup_record"
    then ok (cleanup_verdict artifact)
    else ok artifact_accepted

-- The body of the `try` of artifact_entries.
unfoldable pub judge_artifact : Fields → String → String → Fields → Result Verdict
unfolding validator_of identity_check verdict
judge_artifact manifest kind schema artifact = do
  validator_of kind artifact
  guard (is_text (get artifact "schema") schema) (value_error "schema mismatch")
  identity_check kind artifact manifest
  verdict manifest kind artifact

abbrev pub schema_or_error : String → Option String → Result String
schema_or_error kind none = err (key_error kind)
schema_or_error kind (some schema) = ok schema

-- The entry for a kind without artifacts.
abbrev pub absent_entry : Bool → String → String → ArtifactEntry
absent_entry required kind schema = record {
  artifact_kind = kind;
  status = if required then "missing" else "manual_review";
  expected_schema = schema;
  observed_schema = "";
  reason = if required then "required artifact missing" else "optional artifact not provided";
}

-- artifacts_by_kind.get(kind, [])
abbrev pub or_nothing : Option (List Fields) → List Fields
or_nothing none = []
or_nothing (some artifacts) = artifacts

abbrev pub entry_is : String → ArtifactEntry → Bool
entry_is status entry = entry.status == status

abbrev pub is_rejected : ArtifactEntry → Bool
is_rejected entry = member entry.status ("missing" ∷ "rejected" ∷ [])

pub record Summary : Type 0 where
  pub artifact_count : ℕ
  pub accepted_artifact_count : ℕ
  pub missing_artifact_count : ℕ
  pub rejected_artifact_count : ℕ
  pub manual_review_artifact_count : ℕ

unfoldable pub summarize : List ArtifactEntry → Summary
summarize entries = record {
  artifact_count = length entries;
  accepted_artifact_count = count_where (entry_is "accepted") entries;
  missing_artifact_count = count_where (entry_is "missing") entries;
  rejected_artifact_count = count_where (entry_is "rejected") entries;
  manual_review_artifact_count = count_where (entry_is "manual_review") entries;
}

unfoldable pub overall_status : List ArtifactEntry → String
overall_status entries =
    if any is_rejected entries
    then "rejected"
    else if any (entry_is "manual_review") entries
    then "manual_review"
    else "accepted"

pub record EvidenceReport : Type 0 where
  pub fleet_id : Value
  pub source_agent_id : Value
  pub observed_at : String
  pub intake_id : Value
  pub experiment_scope : Value
  pub overall_status : String
  pub artifacts : List ArtifactEntry
  pub summary : Summary

abbrev pub ordered_kinds : Fields → List String
ordered_kinds manifest =
    kinds_at manifest "required_artifact_kinds" ++ kinds_at manifest "optional_artifact_kinds"

module _ (lib : Stdlib) where
  abbrev pub entry_of : String → String → Fields → Verdict → ArtifactEntry
  entry_of kind schema artifact verdict_found = record {
    artifact_kind = kind;
    status = verdict_found.0;
    expected_schema = schema;
    observed_schema = text_of lib (get_or artifact "schema" (str ""));
    reason = verdict_found.1;
  }

  -- The entry of the outcome of the `try`.
  unfoldable pub caught_entry : String → String → Fields → Result Verdict → Result ArtifactEntry
  caught_entry kind schema artifact judged =
      on_value_error (judged >>= λ found. ok (entry_of kind schema artifact found))
        (λ message. entry_of kind schema artifact ("rejected", message))

  unfoldable pub entries_of : Fields → String → String → List Fields → Result (List ArtifactEntry)
  unfolding caught_entry judge_artifact
  entries_of manifest kind schema [] =
      ok (absent_entry (member kind (kinds_at manifest "required_artifact_kinds")) kind schema ∷ [])
  entries_of manifest kind schema (artifact ∷ artifacts) =
      map_ok (λ a. caught_entry kind schema a (judge_artifact manifest kind schema a))
        (artifact ∷ artifacts)

  unfoldable pub artifact_entries : String → Fields → List Fields → Result (List ArtifactEntry)
  unfolding entries_of
  artifact_entries kind manifest artifacts =
      schema_or_error kind (lookup evidence_schemas kind) >>= λ schema.
      entries_of manifest kind schema artifacts

  -- The loop over the kinds.
  unfoldable pub all_entries :
      Fields → Table (List Fields) → List String → Result (List ArtifactEntry)
  unfolding artifact_entries
  all_entries manifest artifacts_by_kind [] = ok []
  all_entries manifest artifacts_by_kind (kind ∷ kinds) = do
    here ← artifact_entries kind manifest (or_nothing (lookup artifacts_by_kind kind))
    others ← all_entries manifest artifacts_by_kind kinds
    ok (here ++ others)

  unfoldable pub build_evidence_report :
      Fields → Table (List Fields) → Option String → Result EvidenceReport
  unfolding validate_manifest all_entries overall_status summarize
  build_evidence_report manifest artifacts_by_kind now_text = do
    validate_manifest lib manifest
    entries ← all_entries manifest artifacts_by_kind (ordered_kinds manifest)
    ok (record {
      fleet_id = get manifest "fleet_id";
      source_agent_id = get manifest "source_agent_id";
      observed_at = or_text now_text (text_of lib (get manifest "observed_at"));
      intake_id = get manifest "intake_id";
      experiment_scope = get manifest "experiment_scope";
      overall_status = overall_status entries;
      artifacts = entries;
      summary = summarize entries;
    })
