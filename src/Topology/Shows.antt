-- ===== src/Topology/Shows.antt =====
-- What a ready topology of tools/peer_mesh_topology.py shows.
use mathlib.Core.Path.{subst}
use quest_termux_lab.Base.{
  All, Bool, List, Option, String, [], any, any-append, any-false, arith, different, false,
  if◌then◌else◌, keep-empty, not, not-false, refl, sym, true, ◌++◌, ◌==◌, ◌∙◌, ◌∷◌, ◌≡◌, ◌≤◌, ◌⊎◌,
}
use quest_termux_lab.Entries.{CheckEntry, Good, all-Good, count-all, count-le}
use quest_termux_lab.Py.Dict.{Table, get, py_eq}
use quest_termux_lab.Py.Result.{ok, ok-injective, on_ok}
use quest_termux_lab.Py.Stdlib.{Stdlib}
use quest_termux_lab.Py.Value.{Fields, count_of, is_true, str}
use quest_termux_lab.Topology.{Edge, Summary, edge_is, route_config_by_target, summarize}
use quest_termux_lab.Topology.Agents.{agent_names, source_name}
use quest_termux_lab.Topology.Checks.{
  TopologyReport, build_topology_report, coverage_check, health_check, identity_check,
  identity_checks, mismatches, non_ready_check, overall_status, threshold_check, topology_checks,
}
use quest_termux_lab.Topology.Ready.{
  Reached, entries-Reached, identity_check-none, non_ready_check-zero, threshold_check-le,
}
use quest_termux_lab.Topology.Report.{build_topology_report-Built}
use quest_termux_lab.Topology.Targets.{other_agents, targets-All}

pub record SameIdentity (manifest document : Fields) : Type 0 where
  pub same_fleet : py_eq (get document "fleet_id") (get manifest "fleet_id") ≡ true
  pub same_source : py_eq (get document "source_agent_id") (get manifest "source_agent_id") ≡ true

mismatches-SameIdentity :
    (manifest document : Fields)
    → mismatches manifest document ≡ []
    → SameIdentity manifest document
mismatches-SameIdentity manifest document h =
    let (fleet, (source, _)) =
      keep-empty (λ key. not (py_eq (get document key) (get manifest key)))
        ("fleet_id" ∷ "source_agent_id" ∷ []) h in
    record { same_fleet = not-false _ fleet; same_source = not-false _ source }

identity_checks-SameIdentity :
    (manifest config health : Fields) (checks : List CheckEntry)
    → identity_checks manifest config health ≡ ok checks
    → All Good checks
    → SameIdentity manifest config × SameIdentity manifest health
unfolding identity_checks
identity_checks-SameIdentity manifest config health checks h good =
    on_ok (identity_check "route_config_identity" (mismatches manifest config)) h λ c1 e1 h1.
      on_ok (identity_check "route_health_identity" (mismatches manifest health)) h1 λ c2 e2 h2.
        let (g1, (g2, _)) = subst (All Good) (sym (ok-injective h2)) good in
        (
          mismatches-SameIdentity manifest config (identity_check-none _ _ c1 e1 g1),
          mismatches-SameIdentity manifest health (identity_check-none _ _ c2 e2 g2),
        )

pub record Enough (manifest : Fields) (counts : Summary) : Type 0 where
  pub none_left : counts.non_ready_edge_count ≡ 0
  pub enough_routes :
      count_of (get manifest "min_healthy_route_count") ≤ counts.reachable_edge_count
  pub enough_agents :
      count_of (get manifest "min_reachable_agent_count") ≤ counts.reachable_agent_count

topology_checks-Enough :
    (lib : Stdlib) (manifest : Fields) (counts : Summary) (checks : List CheckEntry)
    → topology_checks lib manifest counts ≡ ok checks
    → All Good checks
    → Enough manifest counts
unfolding topology_checks
topology_checks-Enough lib manifest counts checks h good =
    on_ok
      (coverage_check lib (is_true (get manifest "require_all_expected_routes"))
        counts.missing_route_count)
      h
      λ c1 _ h1. on_ok (health_check lib counts.missing_health_count) h1 λ c2 _ h2.
        on_ok
          (threshold_check lib "healthy_route_threshold" "healthy route" counts.reachable_edge_count
            (count_of (get manifest "min_healthy_route_count")))
          h2
          λ c3 e3 h3.
            on_ok
              (threshold_check lib "reachable_agent_threshold" "reachable agent"
                counts.reachable_agent_count (count_of (get manifest "min_reachable_agent_count")))
              h3
              λ c4 e4 h4.
                on_ok
                  (non_ready_check lib (is_true (get manifest "require_no_unhealthy_routes"))
                    counts.non_ready_edge_count)
                  h4
                  λ c5 e5 h5.
                    let (_, (_, (g3, (g4, (g5, _))))) =
                      subst (All Good) (sym (ok-injective h5)) good in
                    record {
                      none_left = non_ready_check-zero lib _ _ c5 e5 g5;
                      enough_routes = threshold_check-le lib _ "healthy route" _ _ c3 e3 g3;
                      enough_agents = threshold_check-le lib _ "reachable agent" _ _ c4 e4 g4;
                    }

abbrev topology_chain : Bool → Bool → String
topology_chain a b =
    if a then "topology_blocked" else if b then "manual_review" else "topology_ready"

topology_chain-ready :
    (a b : Bool) → topology_chain a b ≡ "topology_ready" → (a ≡ false) × (b ≡ false)
topology_chain-ready true b h = absurd (different "topology_blocked" "topology_ready" refl h)
topology_chain-ready false true h = absurd (different "manual_review" "topology_ready" refl h)
topology_chain-ready false false h = (refl, refl)

overall_status-Good :
    (first second : List CheckEntry)
    → overall_status (first ++ second) ≡ "topology_ready"
    → All Good first × All Good second
unfolding overall_status
overall_status-Good xs ys h =
    let failed = λ (c : CheckEntry). c.status == "failed" in
    let manual = λ (c : CheckEntry). c.status == "manual_review" in
    let (f, m) = topology_chain-ready (any failed (xs ++ ys)) (any manual (xs ++ ys)) h in
    let (f1, f2) = any-append failed xs ys f in
    let (m1, m2) = any-append manual xs ys m in
    (
      all-Good xs (any-false failed xs f1) (any-false manual xs m1),
      all-Good ys (any-false failed ys f2) (any-false manual ys m2),
    )

-- What a ready topology shows: the documents are about one fleet and one source, and each expected
-- agent is the source or has a configured route whose evidence is healthy.
pub record ShowsReady (lib : Stdlib) (manifest config health : Fields) (report : TopologyReport)
    : Type 0 where
  pub same_config : SameIdentity manifest config
  pub same_health : SameIdentity manifest health
  pub enough : Enough manifest report.summary
  pub routes : Table Fields
  pub configured : route_config_by_target lib config ≡ ok routes
  pub evidence : Table Fields
  pub reported : route_config_by_target lib health ≡ ok evidence
  pub reached :
      All
        (λ agent. (agent ≡ source_name manifest) ⊎ Reached lib routes evidence agent)
        (agent_names manifest)

all_reachable :
    (expected : List String) (edges : List Edge)
    → (summarize expected edges).non_ready_edge_count ≡ 0
    → All (λ e. edge_is "reachable" e ≡ true) edges
unfolding summarize
all_reachable expected edges h =
    count-all (edge_is "reachable") edges (omega (arith, h, count-le (edge_is "reachable") edges))

-- Where a report that is made says "topology_ready", the route configuration and the route-health
-- report name the fleet and the source of the manifest, each expected agent is the source or has a
-- configured route whose evidence says "healthy", and the two thresholds are met.
pub build_topology_report-ShowsReady :
    (lib : Stdlib) (manifest config health : Fields) (now : Option String) (report : TopologyReport)
    → build_topology_report lib manifest config health now ≡ ok report
    → report.overall_status ≡ "topology_ready"
    → ShowsReady lib manifest config health report
build_topology_report-ShowsReady lib manifest config health now report h ready =
    let built = build_topology_report-Built lib manifest config health now report h in
    let source = source_name manifest in
    let expected = agent_names manifest in
    let edges = built.edges in
    let (good, better) =
      overall_status-Good built.identities built.others (sym built.status ∙ ready) in
    let (config_same, health_same) =
      identity_checks-SameIdentity manifest config health built.identities built.identified good in
    let enough =
      topology_checks-Enough lib manifest report.summary built.others built.checked better in
    let left = subst (λ s. s.non_ready_edge_count ≡ 0) built.counts enough.none_left in
    record {
      same_config = config_same;
      same_health = health_same;
      enough = enough;
      routes = edges.routes;
      configured = edges.configured;
      evidence = edges.evidence;
      reported = edges.reported;
      reached = targets-All (Reached lib edges.routes edges.evidence) source expected (
          entries-Reached lib (str source) edges.routes edges.evidence
            (other_agents source expected) report.edges edges.made
            (all_reachable expected report.edges left));
    }
