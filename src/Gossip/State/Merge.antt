-- ===== src/Gossip/State/Merge.antt =====
-- What merging does to the stored observations of GossipState in tools/peer_mesh_gossip.py.
use mathlib.Core.Path.{subst}
use quest_termux_lab.Base.{
  Bool, Bool-cases, List, Option, String, [], eq_iff, false, inl, inr, none, refl, some, true, ◌==◌,
  ◌∷◌, ◌≡◌,
}
use quest_termux_lab.Gossip.Envelope.{validate_envelope}
use quest_termux_lab.Gossip.State.{
  GossipState, absorb, absorb_all, absorb_found, after, is_newer, merge_checked, merge_envelope,
  merge_valid, replaces, store, store_named,
}
use quest_termux_lab.Py.Dict.{Table, get, insert, item, lookup, lookup-insert}
use quest_termux_lab.Py.Result.{Check, Result, err, ok}
use quest_termux_lab.Py.Stdlib.{Stdlib, text_of}
use quest_termux_lab.Py.Value.{Fields, Value, is_text, obj}

-- How an agent's stored observation may change: not at all, by being the first, or by a newer one.
pub data Advances (lib : Stdlib) : Option Fields → Option Fields → Type 0 where
  unchanged : {o : Option Fields} → Advances lib o o
  first_entry : {d : Fields} → Advances lib none (some d)
  newer_entry : {p d : Fields} → is_newer lib d p ≡ ok true → Advances lib (some p) (some d)
  chained : {a b c : Option Fields} → Advances lib a b → Advances lib b c → Advances lib a c

module _ (lib : Stdlib) where
  replaces-Advances :
      (d : Fields) (o : Option Fields) → replaces lib d o ≡ ok true → Advances lib o (some d)
  unfolding replaces
  replaces-Advances d none h = first_entry
  replaces-Advances d (some p) h = newer_entry h

  insert-Advances :
      (t : Table Fields) (k a : String) (d : Fields)
      → Advances lib (lookup t k) (some d)
      → Advances lib (lookup t a) (lookup (insert t k d) a)
  insert-Advances t k a d h = rw lookup-insert (elim (Bool-cases (k == a)) [
    | inl e ↦ rw e (subst (λ x. Advances lib (lookup t x) (some d)) ((eq_iff k a).0 e) h)
    | inr e ↦ rw e unchanged
  ])

  store-Advances :
      (s : GossipState) (k a : String) (d : Fields) (r : Result Bool)
      → replaces lib d (lookup s.observations k) ≡ r
      → Advances lib (lookup s.observations a) (lookup (store lib s k d r).0.observations a)
  unfolding store
  store-Advances s k a d (ok true) e =
      insert-Advances s.observations k a d (replaces-Advances d (lookup s.observations k) e)
  store-Advances s k a d (ok false) e = unchanged
  store-Advances s k a d (err x) e = unchanged

  store_named-Advances :
      (s : GossipState) (a : String) (d : Fields) (r : Result Value)
      → Advances lib (lookup s.observations a) (lookup (store_named lib s d r).0.observations a)
  unfolding store_named
  store_named-Advances s a d (err x) = unchanged
  store_named-Advances s a d (ok agent) = store-Advances s (text_of lib agent) a d _ refl

  absorb-Advances :
      (s : GossipState) (a : String) (v : Value)
      → Advances lib (lookup s.observations a) (lookup (absorb lib s v).0.observations a)
  unfolding absorb
  absorb-Advances s a (obj d) = store_named-Advances s a d (item d "agent_id")
  absorb-Advances s a _ = unchanged

  after-Advances :
      (a : String) (o : Option Fields) (n r : GossipState × Check)
      → Advances lib o (lookup n.0.observations a)
      → Advances lib (lookup n.0.observations a) (lookup r.0.observations a)
      → Advances lib o (lookup (after lib n r).0.observations a)
  unfolding after
  after-Advances a o (n, err x) r h k = h
  after-Advances a o (n, ok u) r h k = chained h k

  absorb_all-Advances :
      (s : GossipState) (a : String) (vs : List Value)
      → Advances lib (lookup s.observations a) (lookup (absorb_all lib s vs).0.observations a)
  unfolding absorb_all
  absorb_all-Advances s a [] = unchanged
  absorb_all-Advances s a (v ∷ vs) =
      after-Advances a _ (absorb lib s v) _ (absorb-Advances s a v)
        (absorb_all-Advances (absorb lib s v).0 a vs)

  absorb_found-Advances :
      (s : GossipState) (a : String) (r : Result (List Value))
      → Advances lib (lookup s.observations a) (lookup (absorb_found lib s r).0.observations a)
  unfolding absorb_found
  absorb_found-Advances s a (err x) = unchanged
  absorb_found-Advances s a (ok vs) = absorb_all-Advances s a vs

  merge_valid-Advances :
      (s : GossipState) (a : String) (envelope : Fields)
      → Advances lib
          (lookup s.observations a)
          (lookup (merge_valid lib s envelope).0.observations a)
  unfolding merge_valid
  merge_valid-Advances s a envelope =
      elim (Bool-cases (is_text (get envelope "fleet_id") s.fleet_id)) [
        | inl e ↦ rw e (absorb_found-Advances s a _)
        | inr e ↦ rw e unchanged
      ]

  merge_checked-Advances :
      (s : GossipState) (a : String) (envelope : Fields) (c : Check)
      → Advances lib
          (lookup s.observations a)
          (lookup (merge_checked lib s envelope c).0.observations a)
  unfolding merge_checked
  merge_checked-Advances s a envelope (err x) = unchanged
  merge_checked-Advances s a envelope (ok u) = merge_valid-Advances s a envelope

  -- Whatever the envelope, and whether the merge succeeds or raises, the observation stored for an
  -- agent is never dropped, and it is replaced only by observations that are newer, step by step.
  pub merge_envelope-Advances :
      (s : GossipState) (envelope : Fields) (a : String)
      → Advances lib
          (lookup s.observations a)
          (lookup (merge_envelope lib s envelope).0.observations a)
  unfolding merge_envelope
  merge_envelope-Advances s envelope a =
      merge_checked-Advances s a envelope (validate_envelope envelope)
