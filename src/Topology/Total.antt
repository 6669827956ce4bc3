-- ===== src/Topology/Total.antt =====
-- That topology_edges of tools/peer_mesh_topology.py returns over tested documents.
-- A route with a target and with a text under one more key.
use mathlib.Core.Path.{subst}
use quest_termux_lab.Base.{All, List, String, [], map, not, refl, sym, ◌∷◌, ◌≡◌}
use quest_termux_lab.Delivery.Validate.{require_texts}
use quest_termux_lab.Dispatch.{
  route_config_schema, validate_route, validate_route_config, validate_routes,
}
use quest_termux_lab.Entries.Texts.{HasText, require_texts-HasText}
use quest_termux_lab.Gossip.Envelope.{contains_forbidden_key, require_keys}
use quest_termux_lab.Health.Report.{health_report_schema}
use quest_termux_lab.Health.Statuses.{validate_route-HasText}
use quest_termux_lab.Py.Dict.{Table, array_or, get, get?, insert, list_of}
use quest_termux_lab.Py.Result.{Error, Result, map_ok, ok, on_guard, on_ok, value_error}
use quest_termux_lab.Py.Stdlib.{Stdlib}
use quest_termux_lab.Py.Time.{later}
use quest_termux_lab.Py.Value.{Fields, Value, arr, is_text, obj, str}
use quest_termux_lab.Topology.{
  Edge, edge_to, route_config_by_target, routes_by_target, topology_edges,
}
use quest_termux_lab.Topology.Agents.{
  agent_names, list_of-item, source_name, validate_manifest-HasAgents,
}
use quest_termux_lab.Topology.Edges.{AllHold, edge_to-HasEdge, insert-AllHold}
use quest_termux_lab.Topology.Made.{topology_edges-rounds}
use quest_termux_lab.Topology.Targets.{other_agents}
use quest_termux_lab.Topology.Validate.{
  check_time, validate_health_route, validate_health_routes, validate_manifest,
  validate_route_health_report,
}

record IsRoute (key : String) (v : Value) : Type 0 where
  route : Fields
  same : v ≡ obj route
  target : HasText route "target_agent_id"
  other : HasText route key

validate_route-IsRoute :
    (lib : Stdlib) (seen later : List String) (v : Value)
    → validate_route lib seen v ≡ ok later
    → IsRoute "transport_mode" v
unfolding validate_route
validate_route-IsRoute lib seen later (obj route) h =
    let (target, mode) = validate_route-HasText lib seen later route h in
    record { route = route; same = refl; target = target; other = mode }
validate_route-IsRoute lib seen later v h = absurd (cc h)

validate_routes-IsRoute :
    (lib : Stdlib) (seen : List String) (vs : List Value) (u : Unit {0})
    → validate_routes lib seen vs ≡ ok u
    → All (IsRoute "transport_mode") vs
unfolding validate_routes
validate_routes-IsRoute lib seen [] u h = tt
validate_routes-IsRoute lib seen (v ∷ vs) u h =
    on_ok (validate_route lib seen v) h λ later made rest.
      (validate_route-IsRoute lib seen later v made, validate_routes-IsRoute lib later vs u rest)

abbrev health_texts : List String
health_texts = "target_agent_id" ∷ "transport_mode" ∷ "status" ∷ "reason" ∷ []

validate_health_route-IsRoute :
    (seen later : List String) (v : Value)
    → validate_health_route seen v ≡ ok later
    → IsRoute "status" v
unfolding validate_health_route
validate_health_route-IsRoute seen later (obj route) h =
    on_ok (require_texts "route-health route missing " health_texts route) h λ u named _.
      let (target, (_, (status, _))) =
        require_texts-HasText "route-health route missing " health_texts route u named in
      record { route = route; same = refl; target = target; other = status }
validate_health_route-IsRoute seen later v h = absurd (cc h)

validate_health_routes-IsRoute :
    (seen : List String) (vs : List Value) (u : Unit {0})
    → validate_health_routes seen vs ≡ ok u
    → All (IsRoute "status") vs
unfolding validate_health_routes
validate_health_routes-IsRoute seen [] u h = tt
validate_health_routes-IsRoute seen (v ∷ vs) u h =
    on_ok (validate_health_route seen v) h λ later made rest. (
      validate_health_route-IsRoute seen later v made,
      validate_health_routes-IsRoute later vs u rest,
    )

-- The table of a document's routes is made, and its dicts hold a text under a key.
record HasTable (key : String) (made : Result (Table Fields)) : Type 0 where
  table : Table Fields
  returned : made ≡ ok table
  held : AllHold key table

routes_by_target-HasTable :
    (lib : Stdlib) (key : String) (table : Table Fields) (vs : List Value)
    → All (IsRoute key) vs
    → AllHold key table
    → HasTable key (routes_by_target lib table vs)
unfolding routes_by_target
routes_by_target-HasTable lib key table [] h held = record {
  table = table;
  returned = refl;
  held = held;
}
routes_by_target-HasTable lib key table (v ∷ vs) (here, there) held =
    let rest =
      routes_by_target-HasTable lib key (insert table here.target.held here.route) vs there
        (insert-AllHold key table here.target.held here.route held here.other) in
    subst (λ w. HasTable key (routes_by_target lib table (w ∷ vs))) (sym here.same)
      (record {
        table = rest.table;
        returned = rw here.target.read rest.returned;
        held = rest.held;
      })

array_or-list : (v : Value) (e : Error) (vs : List Value) → array_or v e ≡ ok vs → list_of v ≡ ok vs
array_or-list (arr items) e vs h = h
array_or-list v e vs h = absurd (cc h)

document-HasTable :
    (lib : Stdlib) (key : String) (document : Fields) (e : Error) (vs : List Value)
    → array_or (get document "routes") e ≡ ok vs
    → All (IsRoute key) vs
    → HasTable key (route_config_by_target lib document)
unfolding route_config_by_target
document-HasTable lib key document e vs h routes =
    let (held, (there, read)) =
      list_of-item "routes" (get? document "routes") vs (array_or-list _ e vs h) in
    let made = routes_by_target-HasTable lib key [] vs routes tt in
    record { table = made.table; returned = rw there (rw read made.returned); held = made.held }

validate_route_config-HasTable :
    (lib : Stdlib) (config : Fields) (u : Unit {0})
    → validate_route_config lib config ≡ ok u
    → HasTable "transport_mode" (route_config_by_target lib config)
unfolding validate_route_config
validate_route_config-HasTable lib config u h =
    on_guard (is_text (get config "schema") route_config_schema) _ h λ _ h1.
      on_guard (not (contains_forbidden_key (obj config))) _ h1 λ _ h2.
        on_ok
          (require_keys "route config missing " ("fleet_id" ∷ "source_agent_id" ∷ "routes" ∷ [])
            config)
          h2
          λ _ _ h3.
            on_ok (array_or (get config "routes") (value_error "routes must be an array")) h3
              λ vs listed h4.
                document-HasTable lib "transport_mode" config _ vs listed
                  (validate_routes-IsRoute lib [] vs u h4)

validate_route_health_report-HasTable :
    (lib : Stdlib) (health : Fields) (u : Unit {0})
    → validate_route_health_report lib health ≡ ok u
    → HasTable "status" (route_config_by_target lib health)
unfolding validate_route_health_report
validate_route_health_report-HasTable lib health u h =
    on_guard (is_text (get health "schema") health_report_schema) _ h λ _ h1.
      on_guard (not (contains_forbidden_key (obj health))) _ h1 λ _ h2.
        on_ok
          (require_keys "route-health report missing "
            ("fleet_id" ∷ "source_agent_id" ∷ "observed_at" ∷ "routes" ∷ "summary" ∷ []) health)
          h2
          λ _ _ h3.
            on_ok
              (require_texts "route-health report missing "
                ("fleet_id" ∷ "source_agent_id" ∷ "observed_at" ∷ []) health)
              h3
              λ _ _ h4. on_ok (check_time lib (get health "observed_at")) h4 λ _ _ h5.
                on_ok
                  (array_or (get health "routes")
                    (value_error "route-health routes must be an array"))
                  h5
                  λ vs listed h6.
                    document-HasTable lib "status" health _ vs listed
                      (validate_health_routes-IsRoute [] vs u h6)

-- The edges that are returned, one to each target.
pub record HasEdges (made : Result (List Edge)) (targets : List Value) : Type 0 where
  pub edges : List Edge
  pub returned : made ≡ ok edges
  pub same_targets : map (λ e. e.target_agent_id) edges ≡ targets

values-eq : {v w : Value} {vs ws : List Value} → v ≡ w → vs ≡ ws → (v ∷ vs) ≡ (w ∷ ws)
values-eq h k = cc

rounds-HasEdges :
    (lib : Stdlib) (source : Value) (routes health : Table Fields) (targets : List Value)
    → AllHold "transport_mode" routes
    → AllHold "status" health
    → HasEdges (map_ok (edge_to lib source routes health) targets) targets
rounds-HasEdges lib source routes health [] h k = record {
  edges = [];
  returned = refl;
  same_targets = refl;
}
rounds-HasEdges lib source routes health (target ∷ targets) h k =
    let first_edge = edge_to-HasEdge lib source routes health target h k in
    let others = rounds-HasEdges lib source routes health targets h k in
    record {
      edges = first_edge.edge ∷ others.edges;
      returned = rw first_edge.returned (rw others.returned refl);
      same_targets = values-eq first_edge.same_target others.same_targets;
    }

-- Over a manifest, a route configuration and a route-health report that their validators accept,
-- topology_edges returns: one edge for each expected agent but the source, in the order of names.
pub topology_edges-HasEdges :
    (lib : Stdlib) (manifest config health : Fields)
    → validate_manifest lib manifest ≡ ok tt
    → validate_route_config lib config ≡ ok tt
    → validate_route_health_report lib health ≡ ok tt
    → HasEdges
        (topology_edges lib manifest config health)
        (map str (other_agents (source_name manifest) (agent_names manifest)))
topology_edges-HasEdges lib manifest config health h k l =
    let agents = validate_manifest-HasAgents lib manifest tt h in
    let routes = validate_route_config-HasTable lib config tt k in
    let evidence = validate_route_health_report-HasTable lib health tt l in
    let targets = map str (other_agents (source_name manifest) (agent_names manifest)) in
    subst (λ r. HasEdges r targets)
      (sym (
        topology_edges-rounds lib manifest config health routes.table evidence.table agents
          routes.returned evidence.returned))
      (rounds-HasEdges lib (str (source_name manifest)) routes.table evidence.table targets
        routes.held evidence.held)
