-- ===== src/Readiness/Ready.antt =====
-- When tools/peer_mesh_live_lab_readiness.py finds a lab ready.
use mathlib.Core.Path.{subst}
use quest_termux_lab.Base.{
  All, Bool, List, Option, String, [], any, any-append, arith, different, eqb, false, if◌then◌else◌,
  leb→le, not, or_false, refl, sym, true, ◌&&◌, ◌++◌, ◌==◌, ◌||◌, ◌∷◌, ◌≡◌, ◌≤◌,
}
use quest_termux_lab.Entries.{CheckEntry, any_status, lists, when}
use quest_termux_lab.Fleet.Report.{summary}
use quest_termux_lab.Fleet.State.{check}
use quest_termux_lab.Py.Dict.{dict_of, get, list_of, py_eq}
use quest_termux_lab.Py.Result.{map_ok, ok, ok-injective, on_guard, on_ok}
use quest_termux_lab.Py.Stdlib.{Stdlib}
use quest_termux_lab.Py.Value.{Fields, Value, count_of, is_true, obj}
use quest_termux_lab.Readiness.{
  ReadinessReport, RouteReview, build_readiness_report, check_entry, disabled_check, grade,
  manual_check, optional_check, overall_status, policy_checks, readiness_checks, readiness_of,
  review_is, review_reasons, review_value, route_review, summary_count, threshold_checks,
  unavailable_check, unknown_check, validate_history, validate_policy, worsening_check, zero_check,
}

pub record Allowed (policy : Fields) (review : RouteReview) : Type 0 where
  pub status_allowed : lists (get policy "allowed_last_statuses") review.last_status ≡ true
  pub trend_allowed : lists (get policy "acceptable_trends") review.trend ≡ true
  pub not_worsening :
      (is_true (get policy "require_no_worsening_routes") && review.trend == "worsening") ≡ false

-- A flag of the policy, where it is set, asks for a count of the history to be 0.
abbrev pub Zero : Fields → Fields → String → String → Type 0
Zero policy summary flag key = is_true (get policy flag) ≡ true → summary_count summary key ≡ 0

pub record IsReady (policy history summary : Fields) (reviews : List RouteReview) : Type 0 where
  pub enough_reports :
      count_of (get policy "min_history_reports") ≤ count_of (get history "report_count")
  pub enough_routes :
      count_of (get policy "min_tracked_routes") ≤ summary_count summary "tracked_route_count"
  pub no_unavailable : Zero policy summary "require_no_unavailable_routes" "last_unavailable_count"
  pub no_unknown : Zero policy summary "require_no_unknown_routes" "last_unknown_count"
  pub no_disabled : Zero policy summary "require_no_disabled_routes" "last_disabled_count"
  pub no_worsening : Zero policy summary "require_no_worsening_routes" "worsening_count"
  pub no_approval : is_true (get policy "operator_approval_required") ≡ false
  pub routes : All (Allowed policy) reviews

abbrev chain : Bool → Bool → Bool → String
chain a b c =
    if a then "not_ready" else if b then "not_ready" else if c then "manual_review" else "ready"

chain-ready : (a b c : Bool) → chain a b c ≡ "ready" → (a ≡ false) × (b ≡ false) × (c ≡ false)
chain-ready true b c h = absurd (different "not_ready" "ready" refl h)
chain-ready false true c h = absurd (different "not_ready" "ready" refl h)
chain-ready false false true h = absurd (different "manual_review" "ready" refl h)
chain-ready false false false h = (refl, refl, refl)

overall_status-ready :
    (checks : List CheckEntry) (reviews : List RouteReview)
    → overall_status checks reviews ≡ "ready"
    → (any_status "failed" checks ≡ false)
      × (any (review_is "not_ready") reviews ≡ false)
      × (any_status "manual_review" checks ≡ false)
unfolding overall_status
overall_status-ready checks reviews h = chain-ready _ _ _ h

-- A check that did not fail has passed.
passed : (b rest : Bool) → ((grade b == "failed") || rest) ≡ false → (b ≡ true) × (rest ≡ false)
passed true rest h = (refl, h)
passed false rest h = absurd (cc h)

no_failure :
    (b : Bool) (check : CheckEntry) (p : Bool)
    → check.status ≡ grade p
    → any_status "failed" (when b check) ≡ false
    → b ≡ true
    → p ≡ true
no_failure true check p same h set =
    (passed p false (subst (λ s. ((s == "failed") || false) ≡ false) same h)).0
no_failure false check p same h set = absurd (cc set)

zero_check-Zero :
    (lib : Stdlib) (policy counts : Fields) (flag check_id key expected reason : String)
    → any_status "failed"
        (optional_check policy flag (zero_check lib check_id counts key expected reason))
      ≡ false
    → Zero policy counts flag key
unfolding zero_check check_entry
zero_check-Zero lib policy counts flag check_id key expected reason h set =
    let n = summary_count counts key in
    let zero_found : eqb n 0 ≡ true = no_failure _ _ (eqb n 0) refl h set in
    ground (arith, zero_found)

unapproved :
    (flag : Bool) (check : CheckEntry)
    → check.status ≡ "manual_review"
    → any_status "manual_review" (when flag check) ≡ false
    → flag ≡ false
unapproved true check same h =
    absurd (cc (subst (λ s. ((s == "manual_review") || false) ≡ false) same h))
unapproved false check same h = refl

no_reasons :
    (a b c : Bool) (r s t : String)
    → (readiness_of (when (not a) r ++ when (not b) s ++ when c t) == "not_ready") ≡ false
    → (a ≡ true) × (b ≡ true) × (c ≡ false)
no_reasons true true false r s t h = (refl, refl, refl)
no_reasons false b c r s t h = absurd (cc h)
no_reasons true false c r s t h = absurd (cc h)
no_reasons true true true r s t h = absurd (cc h)

route_review-Allowed :
    (lib : Stdlib) (policy route : Fields)
    → review_is "not_ready" (route_review lib policy route) ≡ false
    → Allowed policy (route_review lib policy route)
unfolding route_review review_reasons
route_review-Allowed lib policy route h =
    let (a, b, c) = no_reasons _ _ _ _ _ _ h in
    record { status_allowed = a; trend_allowed = b; not_worsening = c }

reviews-Allowed :
    (lib : Stdlib) (policy : Fields) (found : List Value) (reviews : List RouteReview)
    → map_ok (review_value lib policy) found ≡ ok reviews
    → any (review_is "not_ready") reviews ≡ false
    → All (Allowed policy) reviews
reviews-Allowed lib policy [] reviews h none_bad = subst (All (Allowed policy)) (ok-injective h) tt
reviews-Allowed lib policy (obj route ∷ found) reviews h none_bad =
    on_ok (map_ok (review_value lib policy) found) h λ rest same h1.
      let e = ok-injective h1 in
      let (good, rest_good) =
        or_false _ _ (subst (λ l. any (review_is "not_ready") l ≡ false) (sym e) none_bad) in
      subst (All (Allowed policy)) e (
        route_review-Allowed lib policy route good,
        reviews-Allowed lib policy found rest same rest_good,
      )
reviews-Allowed lib policy (v ∷ found) reviews h none_bad = absurd (cc h)

-- What the four flags of the policy ask of the counts of the history.
abbrev Zeros : Fields → Fields → Type 0
Zeros policy counts =
    Zero policy counts "require_no_unavailable_routes" "last_unavailable_count"
    × Zero policy counts "require_no_unknown_routes" "last_unknown_count"
    × Zero policy counts "require_no_disabled_routes" "last_disabled_count"
    × Zero policy counts "require_no_worsening_routes" "worsening_count"

unavailable_check-Zero :
    (lib : Stdlib) (policy counts : Fields)
    → any_status "failed" (unavailable_check lib policy counts) ≡ false
    → Zero policy counts "require_no_unavailable_routes" "last_unavailable_count"
unfolding unavailable_check
unavailable_check-Zero lib policy counts h = zero_check-Zero lib policy counts _ _ _ _ _ h

unknown_check-Zero :
    (lib : Stdlib) (policy counts : Fields)
    → any_status "failed" (unknown_check lib policy counts) ≡ false
    → Zero policy counts "require_no_unknown_routes" "last_unknown_count"
unfolding unknown_check
unknown_check-Zero lib policy counts h = zero_check-Zero lib policy counts _ _ _ _ _ h

disabled_check-Zero :
    (lib : Stdlib) (policy counts : Fields)
    → any_status "failed" (disabled_check lib policy counts) ≡ false
    → Zero policy counts "require_no_disabled_routes" "last_disabled_count"
unfolding disabled_check
disabled_check-Zero lib policy counts h = zero_check-Zero lib policy counts _ _ _ _ _ h

worsening_check-Zero :
    (lib : Stdlib) (policy counts : Fields)
    → any_status "failed" (worsening_check lib policy counts) ≡ false
    → Zero policy counts "require_no_worsening_routes" "worsening_count"
unfolding worsening_check
worsening_check-Zero lib policy counts h = zero_check-Zero lib policy counts _ _ _ _ _ h

policy_checks-Zeros :
    (lib : Stdlib) (policy counts : Fields)
    → any_status "failed" (policy_checks lib policy counts) ≡ false
    → Zeros policy counts
unfolding policy_checks
policy_checks-Zeros lib policy counts h =
    let failed = λ (c : CheckEntry). c.status == "failed" in
    let first_two = unavailable_check lib policy counts ++ unknown_check lib policy counts in
    let first_three = first_two ++ disabled_check lib policy counts in
    let (h3, d) = any-append failed first_three (worsening_check lib policy counts) h in
    let (h2, c) = any-append failed first_two (disabled_check lib policy counts) h3 in
    let (a, b) =
      any-append failed (unavailable_check lib policy counts) (unknown_check lib policy counts)
        h2 in
    (
      unavailable_check-Zero lib policy counts a,
      unknown_check-Zero lib policy counts b,
      disabled_check-Zero lib policy counts c,
      worsening_check-Zero lib policy counts d,
    )

readiness_checks-IsReady :
    (lib : Stdlib) (policy history counts : Fields) (reviews : List RouteReview)
    → any_status "failed" (readiness_checks lib policy history counts) ≡ false
    → any_status "manual_review" (readiness_checks lib policy history counts) ≡ false
    → All (Allowed policy) reviews
    → IsReady policy history counts reviews
unfolding readiness_checks threshold_checks check_entry manual_check
readiness_checks-IsReady lib policy history counts reviews h manual allowed =
    let (reports, h1) = passed _ _ h in
    let (tracked, h2) = passed _ _ h1 in
    let (h3, _) = any-append (λ c. c.status == "failed") (policy_checks lib policy counts) _ h2 in
    let (a, b, c, d) = policy_checks-Zeros lib policy counts h3 in
    let (_, m1) = or_false _ _ manual in
    let (_, m2) = or_false _ _ m1 in
    let (_, m3) =
      any-append (λ c. c.status == "manual_review") (policy_checks lib policy counts) _ m2 in
    record {
      enough_reports = leb→le _ _ reports;
      enough_routes = leb→le _ _ tracked;
      no_unavailable = a;
      no_unknown = b;
      no_disabled = c;
      no_worsening = d;
      no_approval = unapproved _ _ refl m3;
      routes = allowed;
    }

-- Where the report's status is "ready", the history has at least the reports and the tracked routes
-- that the policy asks for, every count that a flag of the policy wants to be 0 is 0, no operator
-- approval is required, and the last status and the trend of every reviewed route are allowed.
pub build_readiness_report-IsReady :
    (lib : Stdlib) (policy history : Fields) (now : Option String) (report : ReadinessReport)
    → build_readiness_report lib policy history now ≡ ok report
    → report.overall_status ≡ "ready"
    → (counts : Fields) × (dict_of (get history "summary") ≡ ok counts)
      × IsReady policy history counts report.routes
unfolding build_readiness_report
build_readiness_report-IsReady lib policy history now report h ready =
    on_ok (validate_policy policy) h λ _ _ h1. on_ok (validate_history history) h1 λ _ _ h2.
      on_guard (py_eq (get policy "fleet_id") (get history "fleet_id")) _ h2 λ _ h3.
        on_guard (py_eq (get policy "source_agent_id") (get history "source_agent_id")) _ h3 λ _ h4.
          on_ok (dict_of (get history "summary")) h4 λ counts found_counts h5.
            on_ok (list_of (get history "routes")) h5 λ found _ h6.
              on_ok (map_ok (review_value lib policy) found) h6 λ reviews reviewed h7.
                let e = ok-injective h7 in
                let status = subst (λ r. r.overall_status ≡ "ready") (sym e) ready in
                let (unfailed, no_bad, no_manual) =
                  overall_status-ready (readiness_checks lib policy history counts) reviews
                    status in
                subst
                  (λ r.
                    (counts : Fields) × (dict_of (get history "summary") ≡ ok counts)
                    × IsReady policy history counts r.routes)
                  e
                  (
                    counts,
                    found_counts,
                    readiness_checks-IsReady lib policy history counts reviews unfailed no_manual
                        (reviews-Allowed lib policy found reviews reviewed no_bad),
                  )
