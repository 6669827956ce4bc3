-- ===== src/Scorecard/History.antt =====
-- The history that tools/peer_mesh_scorecard_history.py builds.
use quest_termux_lab.Base.{
  Bool, List, Option, String, [], any, if◌then◌else◌, keep, length, map, member, none, not, some, ℕ,
  ◌++◌, ◌+◌, ◌==◌, ◌∷◌,
}
use quest_termux_lab.Bundle.{dict_or_empty, list_size}
use quest_termux_lab.ByTime.{sort_reports}
use quest_termux_lab.Health.History.{transition_count, trend_values}
use quest_termux_lab.Health.Routes.{last_sample}
use quest_termux_lab.Py.Dict.{Table, check_members, count_text, get, insert, lookup, put, py_eq}
use quest_termux_lab.Py.Result.{
  Check, Result, each, err, guard, map_ok, ok, value_error, ◌>>=◌, ◌>>◌,
}
use quest_termux_lab.Py.Stdlib.{Stdlib, or_text, text_of}
use quest_termux_lab.Py.Text.{sort_texts, ◌+ₛ◌}
use quest_termux_lab.Py.Time.{later}
use quest_termux_lab.Py.Value.{Fields, Value, arr, count_of, dict, obj, str, to_list}
use quest_termux_lab.Scorecard.{
  delta_for, delta_values, score_statuses, score_trend, validate_scorecard_report,
}
use quest_termux_lab.Trust.Reviews.{distinct}

pub record Snapshot : Type 0 where
  pub scorecard_id : String
  pub observed_at : String
  pub overall_status : String
  pub synthetic_clear_count : ℕ
  pub manual_review_count : ℕ
  pub blocked_count : ℕ
  pub missing_count : ℕ
  pub pressure_point_count : ℕ

pub record ArtifactHistory : Type 0 where
  pub artifact_kind : String
  pub sample_count : ℕ
  pub first_observed_at : String
  pub last_observed_at : String
  pub first_status : String
  pub last_status : String
  pub first_source_status : String
  pub last_source_status : String
  pub trend : String
  pub delta : String
  pub status_counts : List (String × ℕ)
  pub transition_count : ℕ
  pub last_reason : String

abbrev pub sorted_scores : List String
sorted_scores = "blocked" ∷ "manual_review" ∷ "missing" ∷ "synthetic_clear" ∷ []

-- The artifacts that pressure_point_deltas shows.
abbrev pub is_visible : ArtifactHistory → Bool
is_visible a = not (member a.delta ("unchanged_clear" ∷ "single_sample_clear" ∷ []))

unfoldable pub pressure_point_deltas : List ArtifactHistory → List ArtifactHistory
pressure_point_deltas = keep is_visible

abbrev pub trend_is : String → ArtifactHistory → Bool
trend_is trend a = a.trend == trend

unfoldable pub history_overall_status : String → List ArtifactHistory → String
history_overall_status last_scorecard_status artifacts =
    if last_scorecard_status == "blocked"
    then "blocked"
    else if any (trend_is "worsening") artifacts
    then "blocked"
    else if any (λ a. member a.last_status ("blocked" ∷ "missing" ∷ [])) artifacts
    then "blocked"
    else if last_scorecard_status == "manual_review"
    then "manual_review"
    else if any (trend_is "mixed") artifacts
    then "manual_review"
    else if any (λ a. a.last_status == "manual_review") artifacts
    then "manual_review"
    else "synthetic_clear"

pub record Summary : Type 0 where
  pub report_count : ℕ
  pub artifact_kind_count : ℕ
  pub first_overall_status : String
  pub last_overall_status : String
  pub overall_trend : String
  pub last_synthetic_clear_count : ℕ
  pub last_manual_review_count : ℕ
  pub last_blocked_count : ℕ
  pub last_missing_count : ℕ
  pub last_pressure_point_count : ℕ
  pub stable_artifact_count : ℕ
  pub improving_artifact_count : ℕ
  pub worsening_artifact_count : ℕ
  pub mixed_artifact_count : ℕ
  pub single_sample_artifact_count : ℕ
  pub resolved_pressure_point_count : ℕ
  pub new_pressure_point_count : ℕ
  pub persistent_pressure_point_count : ℕ

abbrev pub last_snapshot : Snapshot → List Snapshot → Snapshot
last_snapshot s [] = s
last_snapshot s (t ∷ rest) = last_snapshot t rest

-- The list of scorecards has a first one.
unfoldable pub summarize_history :
    Snapshot → List Snapshot → List ArtifactHistory → String → Result Summary
summarize_history first_card later_cards artifacts overall_trend = do
  let newest = last_snapshot first_card later_cards
  let trends = map (λ a. a.trend) artifacts
  let deltas = map (λ a. a.delta) artifacts
  check_members trend_values trends
  check_members delta_values deltas
  ok (record {
    report_count = length (first_card ∷ later_cards);
    artifact_kind_count = length artifacts;
    first_overall_status = first_card.overall_status;
    last_overall_status = newest.overall_status;
    overall_trend = overall_trend;
    last_synthetic_clear_count = newest.synthetic_clear_count;
    last_manual_review_count = newest.manual_review_count;
    last_blocked_count = newest.blocked_count;
    last_missing_count = newest.missing_count;
    last_pressure_point_count = newest.pressure_point_count;
    stable_artifact_count = count_text "stable" trends;
    improving_artifact_count = count_text "improving" trends;
    worsening_artifact_count = count_text "worsening" trends;
    mixed_artifact_count = count_text "mixed" trends;
    single_sample_artifact_count = count_text "single_sample" trends;
    resolved_pressure_point_count = count_text "resolved" deltas;
    new_pressure_point_count = count_text "new_pressure_point" deltas;
    persistent_pressure_point_count =
        count_text "persistent" deltas + count_text "observed_pressure_point" deltas;
  })

pub record ScorecardHistory : Type 0 where
  pub fleet_id : Value
  pub source_agent_id : Value
  pub observed_at : String
  pub experiment_scope : Value
  pub overall_status : String
  pub overall_trend : String
  pub report_count : ℕ
  pub scorecards : List Snapshot
  pub artifacts : List ArtifactHistory
  pub deltas : List ArtifactHistory
  pub summary : Summary

-- The tests of the later reports against the first.
unfoldable pub check_scorecard : Fields → Fields → Check
check_scorecard first_report report =
    each
      (λ key.
        guard (py_eq (get report key) (get first_report key))
          (value_error ("scorecard report " +ₛ key +ₛ " mismatch")))
      ("fleet_id" ∷ "source_agent_id" ∷ "experiment_scope" ∷ [])

abbrev pub entries_in : Fields → List Value
entries_in report = elim (get report "artifacts") [ arr vs ↦ to_list vs | _ ↦ [] ]

-- str(d[key]), for a key that was tested to be there
abbrev pub shown : Stdlib → Fields → String → String
shown lib d key = text_of lib (get d key)

module _ (lib : Stdlib) where
  unfoldable pub scorecard_snapshot : Fields → Snapshot
  scorecard_snapshot report =
      let summary = dict_or_empty (get report "summary") in
      record {
        scorecard_id = shown lib report "scorecard_id";
        observed_at = shown lib report "observed_at";
        overall_status = shown lib report "overall_status";
        synthetic_clear_count = count_of (get summary "synthetic_clear_count");
        manual_review_count = count_of (get summary "manual_review_count");
        blocked_count = count_of (get summary "blocked_count");
        missing_count = count_of (get summary "missing_count");
        pressure_point_count = list_size (get report "pressure_points");
      }

  -- str(entry["artifact_kind"]) for each entry of a report
  unfoldable pub kinds_of : List Value → List String
  kinds_of [] = []
  kinds_of (obj entry ∷ vs) = shown lib entry "artifact_kind" ∷ kinds_of vs
  kinds_of (_ ∷ vs) = kinds_of vs

  unfoldable pub all_kinds : List Fields → List String
  unfolding kinds_of
  all_kinds [] = []
  all_kinds (report ∷ rest) = kinds_of (entries_in report) ++ all_kinds rest

  unfoldable pub entries_by_kind : Table Fields → List Value → Table Fields
  unfolding insert
  entries_by_kind table [] = table
  entries_by_kind table (obj entry ∷ vs) =
      entries_by_kind (insert table (shown lib entry "artifact_kind") entry) vs
  entries_by_kind table (_ ∷ vs) = entries_by_kind table vs

  abbrev pub or_absent : String → Option Fields → Fields
  or_absent kind (some entry) = entry
  or_absent kind none = dict (
      ("artifact_kind", str kind)
      ∷ ("status", str "missing")
      ∷ ("source_status", str "absent")
      ∷ ("reason", str "artifact not present in scorecard report")
      ∷ [])

  -- The sample that artifact_samples_for_reports takes of a report.
  unfoldable pub sample_for : String → Fields → Fields
  unfolding entries_by_kind put
  sample_for kind report =
      let entry = or_absent kind (lookup (entries_by_kind [] (entries_in report)) kind) in
      put (put entry "observed_at" (str (shown lib report "observed_at"))) "scorecard_id"
        (str (shown lib report "scorecard_id"))

  unfoldable pub artifact_history_entry : String → Fields → List Fields → Result ArtifactHistory
  unfolding score_trend delta_for transition_count
  artifact_history_entry kind oldest later = do
    let newest = last_sample oldest later
    let statuses = map (λ d. shown lib d "status") (oldest ∷ later)
    check_members score_statuses statuses
    trend ← score_trend statuses
    delta ← delta_for (shown lib oldest "status") (shown lib newest "status") trend
    ok (record {
      artifact_kind = kind;
      sample_count = length (oldest ∷ later);
      first_observed_at = shown lib oldest "observed_at";
      last_observed_at = shown lib newest "observed_at";
      first_status = shown lib oldest "status";
      last_status = shown lib newest "status";
      first_source_status = shown lib oldest "source_status";
      last_source_status = shown lib newest "source_status";
      trend = trend;
      delta = delta;
      status_counts = map (λ s. (s, count_text s statuses)) sorted_scores;
      transition_count = transition_count statuses;
      last_reason = shown lib newest "reason";
    })

  abbrev pub history_for : Fields → List Fields → String → Result ArtifactHistory
  history_for oldest later kind =
      artifact_history_entry kind (sample_for kind oldest) (map (sample_for kind) later)

  -- The part of build_history that follows the sorting of the reports.
  unfoldable pub history_of_ordered :
      Fields → Option String → Fields → List Fields → Result ScorecardHistory
  unfolding scorecard_snapshot all_kinds sample_for artifact_history_entry summarize_history
      history_overall_status pressure_point_deltas distinct sort_texts
  history_of_ordered first_report now_text oldest later = do
    let cards = map scorecard_snapshot later
    let newest = last_sample oldest later
    trend ← score_trend (map (λ r. shown lib r "overall_status") (oldest ∷ later))
    artifacts ←
        map_ok (history_for oldest later) (sort_texts (distinct (all_kinds (oldest ∷ later))))
    counts ← summarize_history (scorecard_snapshot oldest) cards artifacts trend
    ok (record {
      fleet_id = get first_report "fleet_id";
      source_agent_id = get first_report "source_agent_id";
      observed_at = or_text now_text (shown lib newest "observed_at");
      experiment_scope = get first_report "experiment_scope";
      overall_status = history_overall_status (shown lib newest "overall_status") artifacts;
      overall_trend = trend;
      report_count = length (oldest ∷ later);
      scorecards = scorecard_snapshot oldest ∷ cards;
      artifacts = artifacts;
      deltas = pressure_point_deltas artifacts;
      summary = counts;
    })

  -- The sorted list has as many reports as were given, so that it is not empty.
  abbrev pub nonempty_history : Fields → Option String → List Fields → Result ScorecardHistory
  nonempty_history first_report now_text [] =
      err (value_error "at least one scorecard report is required")
  nonempty_history first_report now_text (r ∷ rest) =
      history_of_ordered first_report now_text r rest

  unfoldable pub build_scorecard_history : List Fields → Option String → Result ScorecardHistory
  unfolding validate_scorecard_report check_scorecard sort_reports history_of_ordered
  build_scorecard_history [] now_text =
      err (value_error "at least one scorecard report is required")
  build_scorecard_history (first_report ∷ rest) now_text = do
    each (validate_scorecard_report lib) (first_report ∷ rest)
    each (check_scorecard first_report) rest
    ordered ← sort_reports lib (first_report ∷ rest)
    nonempty_history first_report now_text ordered
