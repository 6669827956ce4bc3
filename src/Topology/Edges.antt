-- ===== src/Topology/Edges.antt =====
-- The edges of tools/peer_mesh_topology.py: when one is made, and what its status is.
-- A test that a reachability passes.
use quest_termux_lab.Base.{
  All, Bool, Bool-cases, Option, String, [], false, if◌then◌else◌, inl, inr, member, none, refl,
  some, true, ◌==◌, ◌∷◌, ◌≡◌,
}
use quest_termux_lab.Entries.Texts.{HasText}
use quest_termux_lab.Py.Dict.{Table, insert, lookup}
use quest_termux_lab.Py.Result.{Result, ok}
use quest_termux_lab.Py.Stdlib.{Stdlib, text_of}
use quest_termux_lab.Py.Value.{Fields, Value}
use quest_termux_lab.Topology.{
  Edge, Reach, edge_entry, edge_to, reach, reachability_for, reachability_of, reachability_statuses,
  topology_edge,
}

pub record Passes (p : Reach → Bool) (found : Reach) : Type 0 where
  pub passes : p found ≡ true

pub if-Passes :
    (p : Reach → Bool) (b : Bool) (x y : Reach)
    → Passes p x
    → Passes p y
    → Passes p (if b then x else y)
if-Passes p true x y h k = h
if-Passes p false x y h k = k

pub reach-Passes :
    (p : Reach → Bool) (mode status reason : String)
    → p (reach mode status reason) ≡ true
    → Passes p (reach mode status reason)
reach-Passes p mode status reason h = record { passes = h }

pub ruleset reaches = (if-Passes, reach-Passes)

abbrev status_listed : Reach → Bool
status_listed found = member found.status reachability_statuses

reachability_of-Passes : (mode status : String) → Passes status_listed (reachability_of mode status)
unfolding reachability_of
reachability_of-Passes mode status = search (reaches) depth 12

-- A dict, where there is one, holds a text under a key.
abbrev pub IsHeld : String → Option Fields → Type 0
IsHeld key none = Unit {0}
IsHeld key (some d) = HasText d key

-- An edge that is made, to this target.
pub record HasEdge (made : Result Edge) (target : Value) : Type 0 where
  pub edge : Edge
  pub returned : made ≡ ok edge
  pub same_target : edge.target_agent_id ≡ target

topology_edge-HasEdge :
    (lib : Stdlib) (source : Value) (route health : Option Fields) (target : Value)
    → IsHeld "transport_mode" route
    → IsHeld "status" health
    → HasEdge (topology_edge lib source route health target) target
unfolding topology_edge reachability_for edge_entry
topology_edge-HasEdge lib source none health target h k = record {
  edge = edge_entry lib source none health target _;
  returned = refl;
  same_target = refl;
}
topology_edge-HasEdge lib source (some route) none target h k = record {
  edge =
      edge_entry lib source (some route) none target
        (reach h.held "missing_health" "configured route has no route-health evidence");
  returned = rw h.read refl;
  same_target = refl;
}
topology_edge-HasEdge lib source (some route) (some health) target h k = record {
  edge = edge_entry lib source (some route) (some health) target (reachability_of h.held k.held);
  returned = rw h.read (rw k.read (rw (reachability_of-Passes h.held k.held).passes refl));
  same_target = refl;
}

-- The dicts of a table hold a text under a key.
abbrev pub AllHold : String → Table Fields → Type 0
AllHold key table = All (λ (e : String × Fields). HasText e.1 key) table

pub insert-AllHold :
    (key : String) (table : Table Fields) (k : String) (d : Fields)
    → AllHold key table
    → HasText d key
    → AllHold key (insert table k d)
unfolding insert
insert-AllHold key [] k d h held = (held, tt)
insert-AllHold key ((j, w) ∷ table) k d (here, there) held = elim (Bool-cases (j == k)) [
  | inl same ↦ rw same (held, there)
  | inr other ↦ rw other (here, insert-AllHold key table k d there held)
]

lookup-IsHeld :
    (key : String) (table : Table Fields) (k : String)
    → AllHold key table
    → IsHeld key (lookup table k)
lookup-IsHeld key [] k h = tt
lookup-IsHeld key ((j, w) ∷ table) k (here, there) = elim (Bool-cases (j == k)) [
  | inl same ↦ rw same here
  | inr other ↦ rw other (lookup-IsHeld key table k there)
]

pub edge_to-HasEdge :
    (lib : Stdlib) (source : Value) (routes health : Table Fields) (target : Value)
    → AllHold "transport_mode" routes
    → AllHold "status" health
    → HasEdge (edge_to lib source routes health target) target
edge_to-HasEdge lib source routes health target h k =
    topology_edge-HasEdge lib source (lookup routes (text_of lib target))
      (lookup health (text_of lib target)) target
      (lookup-IsHeld "transport_mode" routes (text_of lib target) h)
      (lookup-IsHeld "status" health (text_of lib target) k)
