-- ===== src/Health/Routes.antt =====
-- tools/peer_mesh_route_history.py: the history of each route over several route-health reports.
-- The samples of a route, of which there is at least one.
use quest_termux_lab.Base.{List, Option, String, [], length, map, none, not, some, ℕ, ◌++◌, ◌∷◌}
use quest_termux_lab.ByTime.{sort_reports}
use quest_termux_lab.Delivery.Validate.{require_texts}
use quest_termux_lab.Gossip.Envelope.{contains_forbidden_key, require_keys}
use quest_termux_lab.Health.History.{transition_count, trend_for, trend_values}
use quest_termux_lab.Health.Report.{health_report_schema, route_statuses}
use quest_termux_lab.Py.Dict.{
  Table, array_or, check_members, count_text, get, insert, item, keys, list_of, lookup, put, py_eq,
  size,
}
use quest_termux_lab.Py.Result.{
  Check, Result, each, err, guard, key_error, map_ok, ok, type_error, value_error, ◌>>=◌, ◌>>◌,
}
use quest_termux_lab.Py.Stdlib.{Stdlib, or_text, text_of}
use quest_termux_lab.Py.Text.{sort_texts}
use quest_termux_lab.Py.Value.{Fields, Value, is_one_of, is_text, obj, str}

pub record Samples : Type 0 where
  pub first_sample : Fields
  pub later_samples : List Fields

-- samples[-1]
abbrev pub last_sample : Fields → List Fields → Fields
last_sample sample [] = sample
last_sample sample (s ∷ rest) = last_sample s rest

pub record RouteHistory : Type 0 where
  pub target_agent_id : String
  pub transport_mode : String
  pub sample_count : ℕ
  pub first_observed_at : String
  pub last_observed_at : String
  pub first_status : String
  pub last_status : String
  pub trend : String
  pub status_counts : List (String × ℕ)
  pub transition_count : ℕ
  pub last_reason : String

abbrev pub sorted_statuses : List String
sorted_statuses = "degraded" ∷ "disabled" ∷ "healthy" ∷ "unavailable" ∷ "unknown" ∷ []

unfoldable pub validate_sample_route : Value → Check
unfolding require_texts
validate_sample_route (obj route) = do
  require_texts "route-health route missing " ("target_agent_id" ∷ "transport_mode" ∷ "status" ∷ [])
      route
  guard (is_one_of (get route "status") route_statuses) (value_error "unsupported route status")
validate_sample_route _ = err (value_error "route-health route must be an object")

unfoldable pub validate_health_report : Fields → Check
unfolding require_keys validate_sample_route
validate_health_report report = do
  guard (is_text (get report "schema") health_report_schema)
      (value_error "unsupported route-health report schema")
  guard (not (contains_forbidden_key (obj report)))
      (value_error "route-health report contains command-like or credential-like fields")
  require_keys "route-health report missing "
      ("fleet_id" ∷ "source_agent_id" ∷ "observed_at" ∷ "routes" ∷ []) report
  routes ← array_or (get report "routes") (value_error "route-health routes must be an array")
  each validate_sample_route routes

pub record HistorySummary : Type 0 where
  pub tracked_route_count : ℕ
  pub last_healthy_count : ℕ
  pub last_degraded_count : ℕ
  pub last_unavailable_count : ℕ
  pub last_disabled_count : ℕ
  pub last_unknown_count : ℕ
  pub stable_count : ℕ
  pub improving_count : ℕ
  pub worsening_count : ℕ
  pub mixed_count : ℕ
  pub single_sample_count : ℕ

abbrev pub counted : List String → List String → ℕ → HistorySummary
counted statuses trends size = record {
  tracked_route_count = size;
  last_healthy_count = count_text "healthy" statuses;
  last_degraded_count = count_text "degraded" statuses;
  last_unavailable_count = count_text "unavailable" statuses;
  last_disabled_count = count_text "disabled" statuses;
  last_unknown_count = count_text "unknown" statuses;
  stable_count = count_text "stable" trends;
  improving_count = count_text "improving" trends;
  worsening_count = count_text "worsening" trends;
  mixed_count = count_text "mixed" trends;
  single_sample_count = count_text "single_sample" trends;
}

unfoldable pub summarize_routes : List RouteHistory → Result HistorySummary
summarize_routes routes = do
  let statuses = map (λ r. r.last_status) routes
  let trends = map (λ r. r.trend) routes
  check_members route_statuses statuses
  check_members trend_values trends
  ok (counted statuses trends (length routes))

pub record HistoryReport : Type 0 where
  pub fleet_id : Value
  pub source_agent_id : Value
  pub observed_at : String
  pub report_count : ℕ
  pub first_report_at : String
  pub last_report_at : String
  pub routes : List RouteHistory
  pub summary : HistorySummary

-- samples_by_target.setdefault(target, []).append(sample)
abbrev pub with_sample : Option Samples → Fields → Samples
with_sample none sample = record { first_sample = sample; later_samples = [] }
with_sample (some samples) sample = record {
  first_sample = samples.first_sample;
  later_samples = samples.later_samples ++ (sample ∷ []);
}

-- The tests of the later reports against the first.
unfoldable pub check_identity : Fields → Fields → Check
check_identity first_report report = do
  guard (py_eq (get report "fleet_id") (get first_report "fleet_id"))
      (value_error "route-health report fleet_id mismatch")
  guard (py_eq (get report "source_agent_id") (get first_report "source_agent_id"))
      (value_error "route-health report source_agent_id mismatch")

abbrev pub or_missing : String → Option Samples → Result Samples
or_missing target none = err (key_error target)
or_missing target (some samples) = ok samples

module _ (lib : Stdlib) where
  -- str(d[key])
  abbrev pub text_item : Fields → String → Result String
  text_item d key = item d key >>= λ v. ok (text_of lib v)

  unfoldable pub route_history_entry : String → Samples → Result RouteHistory
  unfolding trend_for transition_count
  route_history_entry target samples = do
    let oldest = samples.first_sample
    let newest = last_sample oldest samples.later_samples
    statuses ← map_ok (λ d. text_item d "status") (oldest ∷ samples.later_samples)
    check_members route_statuses statuses
    mode ← text_item newest "transport_mode"
    first_at ← text_item oldest "observed_at"
    last_at ← text_item newest "observed_at"
    first_status ← text_item oldest "status"
    last_status ← text_item newest "status"
    trend ← trend_for statuses
    reason ← text_item newest "reason"
    ok (record {
      target_agent_id = target;
      transport_mode = mode;
      sample_count = length (oldest ∷ samples.later_samples);
      first_observed_at = first_at;
      last_observed_at = last_at;
      first_status = first_status;
      last_status = last_status;
      trend = trend;
      status_counts = map (λ s. (s, count_text s statuses)) sorted_statuses;
      transition_count = transition_count statuses;
      last_reason = reason;
    })

  -- The loop of build_history over the routes of one report.
  unfoldable pub add_samples : String → Table Samples → List Value → Result (Table Samples)
  unfolding insert put
  add_samples observed_at table [] = ok table
  add_samples observed_at table (obj route ∷ vs) = do
    target ← text_item route "target_agent_id"
    let sample = put route "observed_at" (str observed_at)
    add_samples observed_at (insert table target (with_sample (lookup table target) sample)) vs
  add_samples observed_at table (_ ∷ vs) = err type_error

  unfoldable pub samples_by_target : Table Samples → List Fields → Result (Table Samples)
  unfolding add_samples
  samples_by_target table [] = ok table
  samples_by_target table (report ∷ rest) = do
    observed_at ← text_item report "observed_at"
    found ← item report "routes"
    routes ← list_of found
    added ← add_samples observed_at table routes
    samples_by_target added rest

  abbrev pub history_of : Table Samples → String → Result RouteHistory
  history_of table target =
      or_missing target (lookup table target) >>= λ samples. route_history_entry target samples

  -- The sorted list has as many reports as were given, so that it has a first and a last one.
  abbrev pub first_of : Fields → List Fields → Fields
  first_of other [] = other
  first_of other (r ∷ rest) = r

  unfoldable pub build_history : List Fields → Option String → Result HistoryReport
  unfolding validate_health_report check_identity sort_reports samples_by_target route_history_entry
      sort_texts summarize_routes
  build_history [] now_text = err (value_error "at least one route-health report is required")
  build_history (first_report ∷ rest) now_text = do
    each validate_health_report (first_report ∷ rest)
    each (check_identity first_report) rest
    ordered ← sort_reports lib (first_report ∷ rest)
    table ← samples_by_target [] ordered
    routes ← map_ok (history_of table) (sort_texts (keys table))
    first_at ← text_item (first_of first_report ordered) "observed_at"
    last_at ← text_item (last_sample first_report ordered) "observed_at"
    counts ← summarize_routes routes
    ok (record {
      fleet_id = get first_report "fleet_id";
      source_agent_id = get first_report "source_agent_id";
      observed_at = or_text now_text last_at;
      report_count = length ordered;
      first_report_at = first_at;
      last_report_at = last_at;
      routes = routes;
      summary = counts;
    })
