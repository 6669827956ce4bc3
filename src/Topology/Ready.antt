-- ===== src/Topology/Ready.antt =====
-- When tools/peer_mesh_topology.py finds a topology ready.
-- A target with a configured route, whose evidence says that the route is healthy.
use mathlib.Core.Path.{subst}
use quest_termux_lab.Base.{
  All, Bool, List, Option, String, [], ap, arith, eq_iff, eqb, false, if◌then◌else◌, ltb, map,
  member, none, not, refl, some, sym, true, ℕ, ◌&&◌, ◌==◌, ◌∙◌, ◌∷◌, ◌≡◌, ◌≤◌,
}
use quest_termux_lab.Entries.{CheckEntry, Good}
use quest_termux_lab.Fleet.State.{check}
use quest_termux_lab.Health.Routes.{counted}
use quest_termux_lab.Py.Dict.{Table, get, item, item-eq-ok, keys, lookup, or_default}
use quest_termux_lab.Py.Result.{Result, map_ok, ok, ok-injective, on_guard, on_ok}
use quest_termux_lab.Py.Stdlib.{Stdlib, text_of}
use quest_termux_lab.Py.Value.{Fields, Value, null, str}
use quest_termux_lab.Topology.{
  Edge, Reach, edge_entry, edge_is, edge_to, reachability_for, reachability_of,
  reachability_statuses, topology_edge,
}
use quest_termux_lab.Topology.Checks.{check_entry, identity_check, non_ready_check, threshold_check}
use quest_termux_lab.Topology.Edges.{Passes, reaches}

pub record Reached (lib : Stdlib) (routes health : Table Fields) (target : String) : Type 0 where
  pub route : Fields
  pub configured : lookup routes target ≡ some route
  pub evidence : Fields
  pub reported : lookup health target ≡ some evidence
  pub healthy : text_of lib (get evidence "status") ≡ "healthy"

abbrev elsewhere : Reach → Bool
elsewhere found = not (found.status == "reachable")

first_reached :
    (b : Bool) (x y : Reach)
    → Passes elsewhere y
    → ((if b then x else y).status == "reachable") ≡ true
    → b ≡ true
first_reached true x y away h = refl
first_reached false x y away h = absurd (cc (h, away.passes))

reachability_of-healthy :
    (mode status : String)
    → ((reachability_of mode status).status == "reachable") ≡ true
    → status ≡ "healthy"
unfolding reachability_of
reachability_of-healthy mode status h =
    (eq_iff status "healthy").0
      (first_reached (status == "healthy") _ _ (search (reaches) depth 12) h)

reachable-Reached :
    (lib : Stdlib) (routes health : Table Fields) (target : String) (route evidence : Option Fields)
    (found : Reach)
    → lookup routes target ≡ route
    → lookup health target ≡ evidence
    → reachability_for lib route evidence ≡ ok found
    → (found.status == "reachable") ≡ true
    → Reached lib routes health target
unfolding reachability_for
reachable-Reached lib routes health target none evidence found r e made h =
    absurd
      (cc (subst (λ (x : Reach). (x.status == "reachable") ≡ true) (sym (ok-injective made)) h))
reachable-Reached lib routes health target (some route) none found r e made h =
    on_ok (item route "transport_mode") made λ mode _ same.
      absurd
        (cc (subst (λ (x : Reach). (x.status == "reachable") ≡ true) (sym (ok-injective same)) h))
reachable-Reached lib routes health target (some route) (some evidence) found r e made h =
    on_ok (item route "transport_mode") made λ mode _ h1.
      on_ok (item evidence "status") h1 λ status read same. record {
        route = route;
        configured = r;
        evidence = evidence;
        reported = e;
        healthy =
            ap (text_of lib) (ap (or_default null) (item-eq-ok evidence "status" status read))
            ∙ reachability_of-healthy (text_of lib mode) (text_of lib status) (
                subst (λ (x : Reach). (x.status == "reachable") ≡ true) (sym (ok-injective same))
                  h);
      }

topology_edge-Reached :
    (lib : Stdlib) (source : Value) (routes health : Table Fields) (target : String) (edge : Edge)
    → edge_to lib source routes health (str target) ≡ ok edge
    → edge_is "reachable" edge ≡ true
    → Reached lib routes health target
unfolding topology_edge edge_entry
topology_edge-Reached lib source routes health target edge h reachable =
    on_ok (reachability_for lib (lookup routes target) (lookup health target)) h λ found made h1.
      on_guard (member found.status reachability_statuses) _ h1 λ _ h2.
        reachable-Reached lib routes health target _ _ found refl refl made
          (subst (λ e. edge_is "reachable" e ≡ true) (sym (ok-injective h2)) reachable)

pub entries-Reached :
    (lib : Stdlib) (source : Value) (routes health : Table Fields) (targets : List String)
    (edges : List Edge)
    → map_ok (edge_to lib source routes health) (map str targets) ≡ ok edges
    → All (λ e. edge_is "reachable" e ≡ true) edges
    → All (Reached lib routes health) targets
entries-Reached lib source routes health [] edges h reachable = tt
entries-Reached lib source routes health (target ∷ targets) edges h reachable =
    on_ok (edge_to lib source routes health (str target)) h λ edge made h1.
      on_ok (map_ok (edge_to lib source routes health) (map str targets)) h1 λ others rest h2.
        let (here, there) =
          subst (All (λ e. edge_is "reachable" e ≡ true)) (sym (ok-injective h2)) reachable in
        (
          topology_edge-Reached lib source routes health target edge made here,
          entries-Reached lib source routes health targets others rest there,
        )

-- A check that is made, where it is made, with a status that stops the report.
abbrev Bad : Result CheckEntry → Type 0
Bad made = (check : CheckEntry) → made ≡ ok check → Good check → ⊥

failed-Bad :
    (check_id observed threshold reason : String)
    → Bad (check_entry check_id "failed" observed threshold reason)
unfolding check_entry
failed-Bad check_id observed threshold reason check h good =
    cc (subst (λ c. (c.status == "failed") ≡ false) (sym (ok-injective h)) good.unfailed)

manual-Bad :
    (check_id observed threshold reason : String)
    → Bad (check_entry check_id "manual_review" observed threshold reason)
unfolding check_entry
manual-Bad check_id observed threshold reason check h good =
    cc (subst (λ c. (c.status == "manual_review") ≡ false) (sym (ok-injective h)) good.reviewed)

three-way :
    (b r : Bool) (x y z : Result CheckEntry) (check : CheckEntry)
    → (if not b && r then x else if not b then y else z) ≡ ok check
    → Good check
    → Bad x
    → Bad y
    → b ≡ true
three-way true r x y z check h good bad worse = refl
three-way false true x y z check h good bad worse = absurd (bad check h good)
three-way false false x y z check h good bad worse = absurd (worse check h good)

pub non_ready_check-zero :
    (lib : Stdlib) (required : Bool) (n : ℕ) (check : CheckEntry)
    → non_ready_check lib required n ≡ ok check
    → Good check
    → n ≡ 0
unfolding non_ready_check
non_ready_check-zero lib required n check h good =
    let zero_found =
      three-way (eqb n 0) required _ _ _ check h good (failed-Bad _ _ _ _) (manual-Bad _ _ _ _) in
    ground (arith, zero_found)

two-way :
    (b : Bool) (x y : Result CheckEntry) (check : CheckEntry)
    → (if b then x else y) ≡ ok check
    → Good check
    → Bad x
    → b ≡ false
two-way true x y check h good bad = absurd (bad check h good)
two-way false x y check h good bad = refl

pub threshold_check-le :
    (lib : Stdlib) (check_id counted : String) (found wanted : ℕ) (check : CheckEntry)
    → threshold_check lib check_id counted found wanted ≡ ok check
    → Good check
    → wanted ≤ found
unfolding threshold_check
threshold_check-le lib check_id counted found wanted check h good =
    let enough = two-way (ltb found wanted) _ _ check h good (failed-Bad _ _ _ _) in
    ground (arith, enough)

pub identity_check-none :
    (check_id : String) (keys : List String) (check : CheckEntry)
    → identity_check check_id keys ≡ ok check
    → Good check
    → keys ≡ []
unfolding identity_check
identity_check-none check_id [] check h good = refl
identity_check-none check_id (key ∷ keys) check h good = absurd (failed-Bad _ _ _ _ check h good)
