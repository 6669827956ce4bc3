-- ===== src/Health/Totals.antt =====
-- The counts of the summaries of tools/peer_mesh_route_health.py and
-- tools/peer_mesh_route_history.py add up.
use mathlib.Core.Path.{subst}
use quest_termux_lab.Base.{
  List, Option, String, [], arith, length, length-map, map, refl, sym, ℕ, ◌+◌, ◌∙◌, ◌∷◌, ◌≡◌,
}
use quest_termux_lab.ByTime.{sort_reports}
use quest_termux_lab.Delivery.Update.{field_text}
use quest_termux_lab.Entries.Counts.{counts-total}
use quest_termux_lab.Health.History.{trend_values}
use quest_termux_lab.Health.Report.{route_statuses, summarize}
use quest_termux_lab.Health.Routes.{
  HistoryReport, HistorySummary, RouteHistory, build_history, check_identity, counted, first_of,
  history_of, last_sample, samples_by_target, summarize_routes, text_item, validate_health_report,
}
use quest_termux_lab.Py.Dict.{check_members, get, keys}
use quest_termux_lab.Py.Result.{each, map_ok, map_ok-length, ok, ok-injective, on_ok}
use quest_termux_lab.Py.Stdlib.{Stdlib}
use quest_termux_lab.Py.Text.{sort_texts}
use quest_termux_lab.Py.Value.{Fields, Value, count_of}

pub record CountsUp (counts : HistorySummary) : Type 0 where
  pub by_status :
      counts.last_healthy_count + counts.last_degraded_count + counts.last_unavailable_count
        + counts.last_disabled_count + counts.last_unknown_count
      ≡ counts.tracked_route_count
  pub by_trend :
      counts.stable_count + counts.improving_count + counts.worsening_count + counts.mixed_count
        + counts.single_sample_count
      ≡ counts.tracked_route_count

counted-CountsUp :
    (statuses trends : List String)
    → check_members route_statuses statuses ≡ ok tt
    → check_members trend_values trends ≡ ok tt
    → length statuses ≡ length trends
    → CountsUp (counted statuses trends (length trends))
counted-CountsUp statuses trends h k same = record {
  by_status = omega (arith, counts-total route_statuses statuses refl h, same);
  by_trend = omega (arith, counts-total trend_values trends refl k);
}

pub summarize_routes-CountsUp :
    (routes : List RouteHistory) (counts : HistorySummary)
    → summarize_routes routes ≡ ok counts
    → CountsUp counts × (counts.tracked_route_count ≡ length routes)
unfolding summarize_routes
summarize_routes-CountsUp routes counts h =
    let statuses = map (λ (r : RouteHistory). r.last_status) routes in
    let trends = map (λ (r : RouteHistory). r.trend) routes in
    on_ok (check_members route_statuses statuses) h λ _ known h1.
      on_ok (check_members trend_values trends) h1 λ _ moving h2.
        let size_statuses = length-map (λ (r : RouteHistory). r.last_status) routes in
        let size = length-map (λ (r : RouteHistory). r.trend) routes in
        let made = counted-CountsUp statuses trends known moving (size_statuses ∙ sym size) in
        let e : counted statuses trends (length routes) ≡ counts = ok-injective h2 in
        subst (λ c. CountsUp c × (c.tracked_route_count ≡ length routes)) e
          (subst (λ n. CountsUp (counted statuses trends n)) size made, refl)

-- In a history that is made, the counts by last status and the counts by trend both add up to the
-- number of routes.
pub build_history-CountsUp :
    (lib : Stdlib) (reports : List Fields) (now : Option String) (history : HistoryReport)
    → build_history lib reports now ≡ ok history
    → CountsUp history.summary × (history.summary.tracked_route_count ≡ length history.routes)
unfolding build_history
build_history-CountsUp lib [] now history h = absurd (cc h)
build_history-CountsUp lib (report ∷ rest) now history h =
    on_ok (each validate_health_report (report ∷ rest)) h λ _ _ h1.
      on_ok (each (check_identity report) rest) h1 λ _ _ h2.
        on_ok (sort_reports lib (report ∷ rest)) h2 λ ordered _ h3.
          on_ok (samples_by_target lib [] ordered) h3 λ table _ h4.
            on_ok (map_ok (history_of lib table) (sort_texts (keys table))) h4 λ routes _ h5.
              on_ok (text_item lib (first_of lib report ordered) "observed_at") h5 λ _ _ h6.
                on_ok (text_item lib (last_sample report ordered) "observed_at") h6 λ _ _ h7.
                  on_ok (summarize_routes routes) h7 λ counts made h8.
                    subst
                      (λ r. CountsUp r.summary × (r.summary.tracked_route_count ≡ length r.routes))
                      (ok-injective h8) (summarize_routes-CountsUp routes counts made)

-- count_of (d[key])
abbrev pub count_at : Fields → String → ℕ
count_at d key = count_of (get d key)

-- The counts by status of a route-health summary add up to the number of routes, whatever the
-- numbers of pieces of evidence without a route.
pub summarize-adds_up :
    (lib : Stdlib) (routes : List Value) (actions retries : ℕ) (counts : Fields)
    → summarize lib routes actions retries ≡ ok counts
    → (count_at counts "healthy_count"
          + count_at counts "degraded_count"
          + count_at counts "unavailable_count"
          + count_at counts "disabled_count"
          + count_at counts "unknown_count"
        ≡ length routes)
      × (count_at counts "route_count" ≡ length routes)
unfolding summarize
summarize-adds_up lib routes actions retries counts h =
    on_ok (map_ok (field_text lib "status") routes) h λ found read h1.
      on_ok (check_members route_statuses found) h1 λ _ known h2.
        let size = map_ok-length (field_text lib "status") routes found read in
        let total = counts-total route_statuses found refl known in
        subst
          (λ d.
            (count_at d "healthy_count"
                + count_at d "degraded_count"
                + count_at d "unavailable_count"
                + count_at d "disabled_count"
                + count_at d "unknown_count"
              ≡ length routes)
            × (count_at d "route_count" ≡ length routes))
          (ok-injective h2) (omega (arith, total, size), refl)
