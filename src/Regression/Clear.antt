-- ===== src/Regression/Clear.antt =====
-- When tools/peer_mesh_scorecard_regression.py finds no regression.
-- A count of the history is at most the maximum of the policy.
use mathlib.Core.Path.{subst}
use quest_termux_lab.Base.{
  All, Bool, List, Option, String, [], any-false, eq_refl, eqb, false, if◌then◌else◌, leb, leb→le,
  not, refl, sym, true, ℕ, ◌&&◌, ◌==◌, ◌||◌, ◌∷◌, ◌≡◌, ◌≤◌,
}
use quest_termux_lab.Entries.{CheckEntry, Good, all-Good, any_status}
use quest_termux_lab.Py.Dict.{dict_of, get}
use quest_termux_lab.Py.Result.{each, ok, ok-injective, on_ok}
use quest_termux_lab.Py.Stdlib.{Stdlib, text_of}
use quest_termux_lab.Py.Value.{Fields, count_of, is_true}
use quest_termux_lab.Regression.{
  RegressionReport, build_checks, build_regression_report, check_entry, history_status_check,
  numeric_check, numeric_checks, overall_status, report_count_check, same_key, trend_check,
  validate_regression_policy, validate_scorecard_history,
}

abbrev pub Within : Fields → Fields → String → String → Type 0
Within policy counts key maximum = count_of (get counts key) ≤ count_of (get policy maximum)

pub record IsClear (lib : Stdlib) (policy history counts : Fields) : Type 0 where
  pub enough_reports :
      count_of (get policy "min_report_count") ≤ count_of (get history "report_count")
  pub steady :
      (is_true (get policy "require_non_worsening_overall")
        && (text_of lib (get history "overall_trend") == "worsening"
            || text_of lib (get history "overall_trend") == "mixed"))
      ≡ false
  pub unblocked : (text_of lib (get history "overall_status") == "blocked") ≡ false
  pub unreviewed : (text_of lib (get history "overall_status") == "manual_review") ≡ false
  pub new_points : Within policy counts "new_pressure_point_count" "max_new_pressure_point_count"
  pub worsening : Within policy counts "worsening_artifact_count" "max_worsening_artifact_count"
  pub persistent :
      Within policy counts "persistent_pressure_point_count" "max_persistent_pressure_point_count"
  pub last_blocked : Within policy counts "last_blocked_count" "max_last_blocked_count"
  pub last_missing : Within policy counts "last_missing_count" "max_last_missing_count"

abbrev regression_chain : Bool → Bool → String
regression_chain a b =
    if a then "regression_blocked" else if b then "manual_review" else "regression_clear"

regression_chain-clear :
    (a b : Bool) → (regression_chain a b == "regression_clear") ≡ true → (a ≡ false) × (b ≡ false)
regression_chain-clear false false h = (refl, refl)
regression_chain-clear true b h = absurd (cc h)
regression_chain-clear false true h = absurd (cc h)

overall_status-Good :
    (checks : List CheckEntry) → overall_status checks ≡ "regression_clear" → All Good checks
unfolding overall_status
overall_status-Good checks h =
    let (a, b) =
      regression_chain-clear (any_status "failed" checks) (any_status "manual_review" checks)
        (subst (λ s. (s == "regression_clear") ≡ true) (sym h) (eq_refl "regression_clear")) in
    all-Good checks (any-false (λ c. c.status == "failed") checks a)
      (any-false (λ c. c.status == "manual_review") checks b)

abbrev three : Bool → Bool → CheckEntry → CheckEntry → CheckEntry → CheckEntry
three a b x y z = if a then x else if b then y else z

-- Where the first two of three entries stop a report, a good one is the third.
three-Good :
    (a b : Bool) (x y z : CheckEntry)
    → (Good x → ⊥)
    → (Good y → ⊥)
    → Good (three a b x y z)
    → (a ≡ false) × (b ≡ false)
three-Good false false x y z p q good = (refl, refl)
three-Good true b x y z p q good = absurd (p good)
three-Good false true x y z p q good = absurd (q good)

-- Where the last two stop a report, a good one is the first.
first-Good :
    (a b : Bool) (x y z : CheckEntry)
    → (Good y → ⊥)
    → (Good z → ⊥)
    → Good (three a b x y z)
    → a ≡ true
first-Good true b x y z p q good = refl
first-Good false true x y z p q good = absurd (p good)
first-Good false false x y z p q good = absurd (q good)

failed-bad :
    (check_id observed threshold reason : String)
    → Good (check_entry check_id "failed" observed threshold reason)
    → ⊥
unfolding check_entry
failed-bad check_id observed threshold reason good = cc good.unfailed

manual-bad :
    (check_id observed threshold reason : String)
    → Good (check_entry check_id "manual_review" observed threshold reason)
    → ⊥
unfolding check_entry
manual-bad check_id observed threshold reason good = cc good.reviewed

numeric_check-le :
    (lib : Stdlib) (check_id : String) (observed threshold : ℕ) (reason other : String)
    → Good (numeric_check lib check_id observed threshold reason other)
    → observed ≤ threshold
unfolding numeric_check
numeric_check-le lib check_id observed threshold reason other good = leb→le observed threshold (
    first-Good (leb observed threshold) false _ _ _ (failed-bad "" "" "" "") (failed-bad _ _ _ _)
      good)

report_count_check-le :
    (lib : Stdlib) (single : Bool) (found wanted : ℕ)
    → Good (report_count_check lib single found wanted)
    → wanted ≤ found
unfolding report_count_check
report_count_check-le lib single found wanted good = leb→le wanted found (
    first-Good (leb wanted found) (single && eqb found 1) _ _ _ (manual-bad _ _ _ _)
      (failed-bad _ _ _ _) good)

both_no : (r w m : Bool) → (r && w) ≡ false → (r && m) ≡ false → (r && (w || m)) ≡ false
both_no true false false h k = refl
both_no false w m h k = refl
both_no true true m h k = absurd (cc h)
both_no true false true h k = absurd (cc k)

trend_check-steady :
    (required : Bool) (trend : String)
    → Good (trend_check required trend)
    → (required && (trend == "worsening" || trend == "mixed")) ≡ false
unfolding trend_check
trend_check-steady required trend good =
    let (a, b) =
      three-Good (required && trend == "worsening") (required && trend == "mixed") _ _ _
        (failed-bad _ _ _ _) (manual-bad _ _ _ _) good in
    both_no required (trend == "worsening") (trend == "mixed") a b

abbrev status_three :
    Bool → Bool → Bool → CheckEntry → CheckEntry → CheckEntry → CheckEntry → CheckEntry
status_three blocked reviewed allowed x y z w =
    if blocked then x else if reviewed && not allowed then y else if reviewed then z else w

status_three-Good :
    (blocked reviewed allowed : Bool) (x y z w : CheckEntry)
    → (Good x → ⊥)
    → (Good y → ⊥)
    → (Good z → ⊥)
    → Good (status_three blocked reviewed allowed x y z w)
    → (blocked ≡ false) × (reviewed ≡ false)
status_three-Good false false allowed x y z w p q r good = (refl, refl)
status_three-Good true reviewed allowed x y z w p q r good = absurd (p good)
status_three-Good false true true x y z w p q r good = absurd (r good)
status_three-Good false true false x y z w p q r good = absurd (q good)

history_status_check-clear :
    (allowed : Bool) (status : String)
    → Good (history_status_check allowed status)
    → ((status == "blocked") ≡ false) × ((status == "manual_review") ≡ false)
unfolding history_status_check
history_status_check-clear allowed status good =
    status_three-Good (status == "blocked") (status == "manual_review") allowed _ _ _ _
      (failed-bad _ _ _ _) (failed-bad _ _ _ _) (manual-bad _ _ _ _) good

build_checks-IsClear :
    (lib : Stdlib) (policy history counts : Fields)
    → All Good (build_checks lib policy history counts)
    → IsClear lib policy history counts
unfolding build_checks numeric_checks
build_checks-IsClear lib policy history counts (g1, (g2, (g3, (g4, (g5, (g6, (g7, (g8, _)))))))) =
    let (unblocked, unreviewed) = history_status_check-clear _ _ g3 in
    record {
      enough_reports = report_count_check-le lib _ _ _ g1;
      steady =
          trend_check-steady (is_true (get policy "require_non_worsening_overall"))
            (text_of lib (get history "overall_trend")) g2;
      unblocked = unblocked;
      unreviewed = unreviewed;
      new_points = numeric_check-le lib _ _ _ _ _ g4;
      worsening = numeric_check-le lib _ _ _ _ _ g5;
      persistent = numeric_check-le lib _ _ _ _ _ g6;
      last_blocked = numeric_check-le lib _ _ _ _ _ g7;
      last_missing = numeric_check-le lib _ _ _ _ _ g8;
    }

-- Where a report that is made says "regression_clear", the history has the reports that the policy
-- asks for, its trend is neither worsening nor mixed where the policy asks for that, its status is
-- neither blocked nor left to a review, and each of the five counts is within the policy.
pub build_regression_report-IsClear :
    (lib : Stdlib) (policy history : Fields) (now : Option String) (report : RegressionReport)
    → build_regression_report lib policy history now ≡ ok report
    → report.overall_status ≡ "regression_clear"
    → (counts : Fields) × (dict_of (get history "summary") ≡ ok counts)
      × IsClear lib policy history counts
unfolding build_regression_report
build_regression_report-IsClear lib policy history now report h clear =
    on_ok (validate_regression_policy policy) h λ _ _ h1.
      on_ok (validate_scorecard_history lib history) h1 λ _ _ h2.
        on_ok
          (each (same_key policy history)
            ("fleet_id" ∷ "source_agent_id" ∷ "experiment_scope" ∷ []))
          h2
          λ _ _ h3. on_ok (dict_of (get history "summary")) h3 λ counts found h4. (
            counts,
            found,
            build_checks-IsClear lib policy history counts (
                overall_status-Good (build_checks lib policy history counts) (
                  subst (λ r. r.overall_status ≡ "regression_clear") (sym (ok-injective h4))
                    clear)),
          )
