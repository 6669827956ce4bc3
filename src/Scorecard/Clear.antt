-- ===== src/Scorecard/Clear.antt =====
-- What a history of scorecards in tools/peer_mesh_scorecard_history.py shows.
use mathlib.Core.Path.{subst}
use quest_termux_lab.Base.{
  All, Bool, Bool-cases, List, Option, String, [], any, any-false, eq_iff, eq_refl, false,
  if◌then◌else◌, inl, inr, keep, map, member, member-elim, refl, sym, true, ◌==◌, ◌∷◌, ◌≡◌, ◌⊎◌,
}
use quest_termux_lab.ByTime.{sort_reports}
use quest_termux_lab.Py.Result.{each, map_ok, ok, ok-injective, on_ok}
use quest_termux_lab.Py.Stdlib.{Stdlib}
use quest_termux_lab.Py.Text.{sort_texts}
use quest_termux_lab.Py.Time.{later}
use quest_termux_lab.Py.Value.{Fields}
use quest_termux_lab.Scorecard.{is_clear, score_statuses, score_trend, validate_scorecard_report}
use quest_termux_lab.Scorecard.Deltas.{Shown, entries-Shown}
use quest_termux_lab.Scorecard.History.{
  ArtifactHistory, ScorecardHistory, all_kinds, build_scorecard_history, check_scorecard,
  history_for, history_of_ordered, history_overall_status, is_visible, nonempty_history,
  pressure_point_deltas, scorecard_snapshot, shown, summarize_history, trend_is,
}
use quest_termux_lab.Trust.Reviews.{distinct}

abbrev six : Bool → Bool → Bool → Bool → Bool → Bool → String
six a b c d e f =
    if a
    then "blocked"
    else if b
    then "blocked"
    else if c
    then "blocked"
    else if d
    then "manual_review"
    else if e
    then "manual_review"
    else if f
    then "manual_review"
    else "synthetic_clear"

six-clear :
    (a b c d e f : Bool)
    → (six a b c d e f == "synthetic_clear") ≡ true
    → (b ≡ false) × (c ≡ false) × (e ≡ false) × (f ≡ false)
six-clear false false false false false false h = (refl, refl, refl, refl)
six-clear true b c d e f h = absurd (cc h)
six-clear false true c d e f h = absurd (cc h)
six-clear false false true d e f h = absurd (cc h)
six-clear false false false true e f h = absurd (cc h)
six-clear false false false false true f h = absurd (cc h)
six-clear false false false false false true h = absurd (cc h)

abbrev Unstuck : String → Type 0
Unstuck s =
    member s ("blocked" ∷ "missing" ∷ []) ≡ false
    → (s == "manual_review") ≡ false
    → s ≡ "synthetic_clear"

unstuck : (s : String) → member s score_statuses ≡ true → Unstuck s
unstuck s h = member-elim Unstuck s score_statuses h (
  (λ _ _. refl),
  ((λ _ k. absurd (cc k)), ((λ k _. absurd (cc k)), ((λ k _. absurd (cc k)), tt))),
)

-- A clear artifact: it ends clear, and where it began clear it never changed.
pub record IsClear (a : ArtifactHistory) : Type 0 where
  pub ends_clear : a.last_status ≡ "synthetic_clear"
  pub steady : (is_clear a.first_status ≡ false) ⊎ (a.transition_count ≡ 0)

all-IsClear :
    (artifacts : List ArtifactHistory)
    → All Shown artifacts
    → All (λ a. member a.last_status ("blocked" ∷ "missing" ∷ []) ≡ false) artifacts
    → All (λ a. trend_is "mixed" a ≡ false) artifacts
    → All (λ a. (a.last_status == "manual_review") ≡ false) artifacts
    → All IsClear artifacts
all-IsClear [] p c e f = tt
all-IsClear (a ∷ rest) (p, ps) (c, cs) (e, es) (f, fs) =
    let ended = unstuck a.last_status p.listed c f in
    (
      record { ends_clear = ended; steady = p.steady ((eq_iff a.last_status _).1 ended) e },
      all-IsClear rest ps cs es fs,
    )

history_overall_status-IsClear :
    (last_status : String) (artifacts : List ArtifactHistory)
    → All Shown artifacts
    → history_overall_status last_status artifacts ≡ "synthetic_clear"
    → All IsClear artifacts
unfolding history_overall_status
history_overall_status-IsClear last_status artifacts shown_all h =
    let stuck = λ (a : ArtifactHistory). member a.last_status ("blocked" ∷ "missing" ∷ []) in
    let reviewed = λ (a : ArtifactHistory). a.last_status == "manual_review" in
    let (_, c, e, f) =
      six-clear (last_status == "blocked") (any (trend_is "worsening") artifacts)
        (any stuck artifacts) (last_status == "manual_review") (any (trend_is "mixed") artifacts)
        (any reviewed artifacts)
        (subst (λ s. (s == "synthetic_clear") ≡ true) (sym h) (eq_refl "synthetic_clear")) in
    all-IsClear artifacts shown_all (any-false stuck artifacts c)
      (any-false (trend_is "mixed") artifacts e) (any-false reviewed artifacts f)

IsClear-or_not :
    (last_status : String) (artifacts : List ArtifactHistory)
    → All Shown artifacts
    → ((history_overall_status last_status artifacts == "synthetic_clear") ≡ false)
      ⊎ All IsClear artifacts
IsClear-or_not last_status artifacts fine =
    elim (Bool-cases (history_overall_status last_status artifacts == "synthetic_clear")) [
      | inl same ↦
          inr (history_overall_status-IsClear last_status artifacts fine ((eq_iff _ _).0 same))
      | inr other ↦ inl other
    ]

-- What a history that is made shows.
pub record Faithful (history : ScorecardHistory) : Type 0 where
  pub shown_artifacts : All Shown history.artifacts
  pub shown_deltas : history.deltas ≡ keep is_visible history.artifacts
  pub clear :
      ((history.overall_status == "synthetic_clear") ≡ false) ⊎ All IsClear history.artifacts

ordered-Faithful :
    (lib : Stdlib) (first_report : Fields) (now : Option String) (ordered : List Fields)
    (history : ScorecardHistory)
    → nonempty_history lib first_report now ordered ≡ ok history
    → Faithful history
unfolding history_of_ordered pressure_point_deltas
ordered-Faithful lib first_report now [] history h = absurd (cc h)
ordered-Faithful lib first_report now (oldest ∷ later) history h =
    on_ok (score_trend (map (λ r. shown lib r "overall_status") (oldest ∷ later))) h λ trend _ h1.
      on_ok
        (map_ok (history_for lib oldest later)
          (sort_texts (distinct (all_kinds lib (oldest ∷ later)))))
        h1
        λ artifacts made h2.
          on_ok
            (summarize_history (scorecard_snapshot lib oldest) (map (scorecard_snapshot lib) later)
              artifacts trend)
            h2
            λ counts _ h3.
              let fine = entries-Shown lib oldest later _ artifacts made in
              subst Faithful (ok-injective h3) (record {
                shown_artifacts = fine;
                shown_deltas = refl;
                clear = IsClear-or_not _ artifacts fine;
              })

-- In a history that is made, each artifact's last status is listed, each artifact whose last status
-- is not clear is among the deltas shown, an artifact that ends clear with a trend that is not mixed
-- began otherwise or never changed, and where the history says "synthetic_clear" each artifact ends
-- clear and, if it began clear, never changed.
pub build_scorecard_history-Faithful :
    (lib : Stdlib) (reports : List Fields) (now : Option String) (history : ScorecardHistory)
    → build_scorecard_history lib reports now ≡ ok history
    → Faithful history
unfolding build_scorecard_history
build_scorecard_history-Faithful lib [] now history h = absurd (cc h)
build_scorecard_history-Faithful lib (report ∷ rest) now history h =
    on_ok (each (validate_scorecard_report lib) (report ∷ rest)) h λ _ _ h1.
      on_ok (each (check_scorecard report) rest) h1 λ _ _ h2.
        on_ok (sort_reports lib (report ∷ rest)) h2
          λ ordered _ h3. ordered-Faithful lib report now ordered history h3
