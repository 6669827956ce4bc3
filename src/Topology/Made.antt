-- ===== src/Topology/Made.antt =====
-- How topology_edges of tools/peer_mesh_topology.py makes the edges.
-- The edges that were made for the agents of a manifest, over what was found in the two documents.
use quest_termux_lab.Base.{List, String, [], map, member, refl, sym, true, ◌∙◌, ◌∷◌, ◌≡◌}
use quest_termux_lab.Py.Dict.{Table, item}
use quest_termux_lab.Py.Result.{map_ok, ok, on_ok}
use quest_termux_lab.Py.Stdlib.{Stdlib}
use quest_termux_lab.Py.Value.{Fields, str}
use quest_termux_lab.Topology.{Edge, edge_to, route_config_by_target, source_of, topology_edges}
use quest_termux_lab.Topology.Agents.{HasAgents, agent_names, source_name}
use quest_termux_lab.Topology.Targets.{other_agents, targets_of-other_agents}

pub record EdgesMade (lib : Stdlib) (manifest config health : Fields) (edges : List Edge)
    : Type 0 where
  pub routes : Table Fields
  pub configured : route_config_by_target lib config ≡ ok routes
  pub evidence : Table Fields
  pub reported : route_config_by_target lib health ≡ ok evidence
  pub made :
      map_ok
        (edge_to lib (str (source_name manifest)) routes evidence)
        (map str (other_agents (source_name manifest) (agent_names manifest)))
      ≡ ok edges

source_of-read :
    (manifest : Fields) (s : String) (xs : List String)
    → member s xs ≡ true
    → item manifest "source_agent_id" ≡ ok (str s)
    → source_of manifest (map str xs) ≡ ok (str s)
source_of-read manifest s [] h read = absurd (cc h)
source_of-read manifest s (x ∷ xs) h read = read

-- Over readable documents and the agents of a manifest, only the rounds of the loop may raise.
pub topology_edges-rounds :
    (lib : Stdlib) (manifest config health : Fields) (routes evidence : Table Fields)
    → HasAgents manifest
    → route_config_by_target lib config ≡ ok routes
    → route_config_by_target lib health ≡ ok evidence
    → topology_edges lib manifest config health
      ≡ map_ok
          (edge_to lib (str (source_name manifest)) routes evidence)
          (map str (other_agents (source_name manifest) (agent_names manifest)))
unfolding topology_edges
topology_edges-rounds lib manifest config health routes evidence agents configured reported =
    let source =
      source_of-read manifest (source_name manifest) (agent_names manifest) agents.present
        agents.source_held in
    let targets = targets_of-other_agents lib (source_name manifest) (agent_names manifest) in
    rw configured
      (rw reported (rw agents.agents_held (rw agents.agents_read (rw source (rw targets refl)))))

pub topology_edges-EdgesMade :
    (lib : Stdlib) (manifest config health : Fields) (edges : List Edge)
    → HasAgents manifest
    → topology_edges lib manifest config health ≡ ok edges
    → EdgesMade lib manifest config health edges
unfolding topology_edges
topology_edges-EdgesMade lib manifest config health edges agents h =
    on_ok (route_config_by_target lib config) h λ routes configured h1.
      on_ok (route_config_by_target lib health) h1 λ evidence reported _. record {
        routes = routes;
        configured = configured;
        evidence = evidence;
        reported = reported;
        made =
            sym (
              topology_edges-rounds lib manifest config health routes evidence agents configured
                reported)
            ∙ h;
      }
