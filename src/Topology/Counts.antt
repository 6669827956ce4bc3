-- ===== src/Topology/Counts.antt =====
-- The summary of tools/peer_mesh_topology.py adds up.
use mathlib.Core.Path.{subst}
use quest_termux_lab.Base.{
  All, Bool, List, Option, String, [], ap, arith, length, member, member-elim, none, not, refl,
  some, suc, sym, true, ℕ, ◌+◌, ◌==◌, ◌∙◌, ◌∷◌, ◌≡◌,
}
use quest_termux_lab.Entries.{count-le, count-step, count_where, one, one-or-not}
use quest_termux_lab.Py.Dict.{Table, item}
use quest_termux_lab.Py.Result.{map_ok, ok, ok-injective, on_guard, on_ok}
use quest_termux_lab.Py.Stdlib.{Stdlib, text_of}
use quest_termux_lab.Py.Value.{Fields, Value}
use quest_termux_lab.Topology.{
  Edge, Reach, Summary, edge_entry, edge_in, edge_is, edge_to, is_some, reachability_for,
  reachability_of, reachability_statuses, summarize, topology_edge,
}
use quest_termux_lab.Topology.Edges.{Passes, reaches}

-- The classes of the summary that an edge with this status is counted in.
abbrev classes : String → ℕ
classes s =
    one (s == "missing_route")
    + one (s == "missing_health")
    + one (s == "reachable")
    + one (s == "degraded")
    + one (member s ("unreachable" ∷ "disabled" ∷ "unknown" ∷ []))

classes-one : (s : String) → member s reachability_statuses ≡ true → classes s ≡ 1
classes-one s h =
    member-elim (λ t. classes t ≡ 1) s reachability_statuses h
      (refl, (refl, (refl, (refl, (refl, (refl, (refl, tt)))))))

pub record IsEntry (edge : Edge) : Type 0 where
  pub listed : member edge.reachability_status reachability_statuses ≡ true
  pub configured : edge.configured ≡ not (edge_is "missing_route" edge)

five :
    (edges : List Edge)
    → All IsEntry edges
    → count_where (edge_is "missing_route") edges
        + count_where (edge_is "missing_health") edges
        + count_where (edge_is "reachable") edges
        + count_where (edge_is "degraded") edges
        + count_where (edge_in ("unreachable" ∷ "disabled" ∷ "unknown" ∷ [])) edges
      ≡ length edges
five [] h = refl
five (e ∷ edges) (good, rest) =
    let step = λ (p : Edge → Bool). count-step p e edges in
    omega (
      arith,
      five edges rest,
      classes-one e.reachability_status good.listed,
      step (edge_is "missing_route"),
      step (edge_is "missing_health"),
      step (edge_is "reachable"),
      step (edge_is "degraded"),
      step (edge_in ("unreachable" ∷ "disabled" ∷ "unknown" ∷ [])),
    )

configured-or-missing :
    (edges : List Edge)
    → All IsEntry edges
    → count_where (λ e. e.configured) edges + count_where (edge_is "missing_route") edges
      ≡ length edges
configured-or-missing [] h = refl
configured-or-missing (e ∷ edges) (good, rest) =
    let p1 = count-step (λ d. d.configured) e edges in
    let p2 = count-step (edge_is "missing_route") e edges in
    let both : one e.configured + one (edge_is "missing_route" e) ≡ 1 =
      one-or-not (edge_is "missing_route" e) e.configured good.configured in
    omega (arith, configured-or-missing edges rest, p1, p2, both)

abbrev routed : Reach → Bool
routed found = not (found.status == "missing_route")

reachability_of-Passes : (mode status : String) → Passes routed (reachability_of mode status)
unfolding reachability_of
reachability_of-Passes mode status = search (reaches) depth 12

configured-not :
    (lib : Stdlib) (route health : Option Fields) (found : Reach)
    → reachability_for lib route health ≡ ok found
    → is_some route ≡ not (found.status == "missing_route")
unfolding reachability_for
configured-not lib none health found h =
    ap (λ (r : Reach). not (r.status == "missing_route")) (ok-injective h)
configured-not lib (some route) none found h =
    on_ok (item route "transport_mode") h
      λ mode _ h1. ap (λ (r : Reach). not (r.status == "missing_route")) (ok-injective h1)
configured-not lib (some route) (some health) found h =
    on_ok (item route "transport_mode") h λ mode _ h1.
      on_ok (item health "status") h1 λ status _ h2.
        sym (reachability_of-Passes (text_of lib mode) (text_of lib status)).passes
        ∙ ap (λ (r : Reach). not (r.status == "missing_route")) (ok-injective h2)

topology_edge-IsEntry :
    (lib : Stdlib) (source : Value) (route health : Option Fields) (target : Value) (edge : Edge)
    → topology_edge lib source route health target ≡ ok edge
    → IsEntry edge
unfolding topology_edge edge_entry
topology_edge-IsEntry lib source route health target edge h =
    on_ok (reachability_for lib route health) h λ found e h1.
      on_guard (member found.status reachability_statuses) _ h1 λ known h2.
        subst IsEntry (ok-injective h2)
          (record { listed = known; configured = configured-not lib route health found e })

-- What the counts of a summary have to do with each other.
pub record AddsUp (counts : Summary) : Type 0 where
  pub partition :
      counts.missing_route_count + counts.missing_health_count + counts.reachable_edge_count
        + counts.degraded_edge_count + counts.unreachable_edge_count
      ≡ counts.edge_count
  pub configured : counts.configured_edge_count + counts.missing_route_count ≡ counts.edge_count
  pub ready : counts.reachable_edge_count + counts.non_ready_edge_count ≡ counts.edge_count
  pub reached : counts.reachable_agent_count ≡ suc counts.reachable_edge_count

pub summarize-AddsUp :
    (expected : List String) (edges : List Edge)
    → All IsEntry edges
    → AddsUp (summarize expected edges)
unfolding summarize
summarize-AddsUp expected edges h = record {
  partition = five edges h;
  configured = configured-or-missing edges h;
  ready = omega (arith, count-le (edge_is "reachable") edges);
  reached = omega arith;
}

pub entries-IsEntry :
    (lib : Stdlib) (source : Value) (routes health : Table Fields) (targets : List Value)
    (edges : List Edge)
    → map_ok (edge_to lib source routes health) targets ≡ ok edges
    → All IsEntry edges
entries-IsEntry lib source routes health [] edges h = subst (All IsEntry) (ok-injective h) tt
entries-IsEntry lib source routes health (target ∷ targets) edges h =
    on_ok (edge_to lib source routes health target) h λ edge made h1.
      on_ok (map_ok (edge_to lib source routes health) targets) h1 λ others rest h2.
        subst (All IsEntry) (ok-injective h2) (
          topology_edge-IsEntry lib source _ _ target edge made,
          entries-IsEntry lib source routes health targets others rest,
        )
