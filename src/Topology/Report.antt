-- ===== src/Topology/Report.antt =====
-- The report of tools/peer_mesh_topology.py: its counts.
-- What build_topology_report has done where it returns a report.
use mathlib.Core.Path.{subst}
use quest_termux_lab.Base.{
  All, List, Option, String, length, length-map, map, refl, sym, ◌++◌, ◌-◌, ◌∙◌, ◌≡◌,
}
use quest_termux_lab.Dispatch.{validate_route_config}
use quest_termux_lab.Entries.{CheckEntry}
use quest_termux_lab.Py.Dict.{get, list_of}
use quest_termux_lab.Py.Result.{map_ok-length, ok, ok-injective, on_ok}
use quest_termux_lab.Py.Stdlib.{Stdlib}
use quest_termux_lab.Py.Value.{Fields, str}
use quest_termux_lab.Topology.{edge_to, summarize, topology_edges}
use quest_termux_lab.Topology.Agents.{agent_names, source_name, validate_manifest-HasAgents}
use quest_termux_lab.Topology.Checks.{
  TopologyReport, build_topology_report, identity_checks, overall_status, topology_checks,
}
use quest_termux_lab.Topology.Counts.{AddsUp, IsEntry, entries-IsEntry, summarize-AddsUp}
use quest_termux_lab.Topology.Made.{EdgesMade, topology_edges-EdgesMade}
use quest_termux_lab.Topology.Targets.{other_agents, targets-count}
use quest_termux_lab.Topology.Validate.{validate_manifest, validate_route_health_report}

pub record Built (lib : Stdlib) (manifest route_config route_health : Fields)
    (report : TopologyReport) : Type 0 where
  pub valid : validate_manifest lib manifest ≡ ok tt
  pub identities : List CheckEntry
  pub identified : identity_checks manifest route_config route_health ≡ ok identities
  pub others : List CheckEntry
  pub checked : topology_checks lib manifest report.summary ≡ ok others
  pub status : report.overall_status ≡ overall_status (identities ++ others)
  pub edges : EdgesMade lib manifest route_config route_health report.edges
  pub counts : report.summary ≡ summarize (agent_names manifest) report.edges

pub build_topology_report-Built :
    (lib : Stdlib) (manifest route_config route_health : Fields) (now : Option String)
    (report : TopologyReport)
    → build_topology_report lib manifest route_config route_health now ≡ ok report
    → Built lib manifest route_config route_health report
unfolding build_topology_report
build_topology_report-Built lib manifest route_config route_health now report h =
    on_ok (validate_manifest lib manifest) h λ _ valid h1.
      on_ok (validate_route_config lib route_config) h1 λ _ _ h2.
        on_ok (validate_route_health_report lib route_health) h2 λ _ _ h3.
          on_ok (topology_edges lib manifest route_config route_health) h3 λ edges found h4.
            on_ok (identity_checks manifest route_config route_health) h4
              λ identities identified h5.
                on_ok (topology_checks lib manifest (summarize (agent_names manifest) edges)) h5
                  λ others checked h6.
                    on_ok (list_of (get manifest "expected_agent_ids")) h6 λ _ _ h7.
                      subst (Built lib manifest route_config route_health) (ok-injective h7)
                        (record {
                          valid = valid;
                          identities = identities;
                          identified = identified;
                          others = others;
                          checked = checked;
                          status = refl;
                          edges =
                              topology_edges-EdgesMade lib manifest route_config route_health edges
                                (validate_manifest-HasAgents lib manifest tt valid) found;
                          counts = refl;
                        })

-- In a report that is made, the classes of edges that the summary counts make up all the edges, an
-- edge is either configured or missing its route, and there is one edge for each expected target.
pub build_topology_report-AddsUp :
    (lib : Stdlib) (manifest route_config route_health : Fields) (now : Option String)
    (report : TopologyReport)
    → build_topology_report lib manifest route_config route_health now ≡ ok report
    → AddsUp report.summary × (report.summary.edge_count ≡ report.summary.expected_target_count)
unfolding summarize
build_topology_report-AddsUp lib manifest route_config route_health now report h =
    let built = build_topology_report-Built lib manifest route_config route_health now report h in
    let source = source_name manifest in
    let expected = agent_names manifest in
    let agents = validate_manifest-HasAgents lib manifest tt built.valid in
    let targets = map str (other_agents source expected) in
    let made = built.edges in
    let good : All IsEntry report.edges =
      entries-IsEntry lib (str source) made.routes made.evidence targets report.edges made.made in
    let size : length report.edges ≡ length expected - 1 =
      map_ok-length (edge_to lib (str source) made.routes made.evidence) targets report.edges
        made.made
      ∙ length-map str (other_agents source expected)
      ∙ targets-count source expected agents.alone agents.present in
    subst (λ s. AddsUp s × (s.edge_count ≡ s.expected_target_count)) (sym built.counts)
      (summarize-AddsUp expected report.edges good, size)
