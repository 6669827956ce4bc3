-- ===== src/Gossip/State.antt =====
-- GossipState of tools/peer_mesh_gossip.py, with is_newer and status_for.
pub mod Summary
pub mod Merge
use quest_termux_lab.Base.{
  Bool, List, Option, String, [], false, if◌then◌else◌, none, some, true, ℕ, ◌+◌, ◌∷◌,
}
use quest_termux_lab.Gossip.Envelope.{parse_time, validate_envelope}
use quest_termux_lab.Py.Dict.{Table, get, get_or, insert, item, list_of, lookup}
use quest_termux_lab.Py.Result.{Check, Result, err, ok, type_error, value_error, ◌>>=◌, ◌>>◌}
use quest_termux_lab.Py.Stdlib.{Stdlib, int_of, text_of}
use quest_termux_lab.Py.Time.{DateTime, later, same_time}
use quest_termux_lab.Py.Value.{Fields, Value, is_text, lt_ℤ, nat, obj, ℤ}

pub record GossipState : Type 0 where
  pub fleet_id : String
  pub observer_agent_id : String
  pub observations : Table Fields
  pub forbidden_message_count : ℕ

module _ (lib : Stdlib) where
  -- parse_time(str(d["observed_at"]))
  unfoldable pub observed_time : Fields → Result DateTime
  observed_time d = do observed ← item d "observed_at"; parse_time lib (text_of lib observed)

  unfoldable pub sequence_of : Fields → Result ℤ
  sequence_of d = int_of lib (get_or d "heartbeat_sequence" (nat 0))

  unfoldable pub is_newer : Fields → Fields → Result Bool
  is_newer candidate previous = do
    candidate_time ← observed_time candidate
    previous_time ← observed_time previous
    if same_time candidate_time previous_time
        then (do
          candidate_sequence ← sequence_of candidate
          previous_sequence ← sequence_of previous
          ok (lt_ℤ previous_sequence candidate_sequence))
        else later candidate_time previous_time

  -- `previous is None or is_newer(observation, previous)`
  unfoldable pub replaces : Fields → Option Fields → Result Bool
  replaces observation none = ok true
  replaces observation (some previous) = is_newer observation previous

  unfoldable pub store : GossipState → String → Fields → Result Bool → GossipState × Check
  store s agent_id observation (ok true) =
      (record s { observations = insert s.observations agent_id observation }, ok tt)
  store s agent_id observation (ok false) = (s, ok tt)
  store s agent_id observation (err e) = (s, err e)

  unfoldable pub store_named : GossipState → Fields → Result Value → GossipState × Check
  store_named s observation (err e) = (s, err e)
  store_named s observation (ok agent) =
      let agent_id = text_of lib agent in
      store s agent_id observation (replaces observation (lookup s.observations agent_id))

  -- One round of the loop of merge_envelope.
  unfoldable pub absorb : GossipState → Value → GossipState × Check
  absorb s (obj observation) = store_named s observation (item observation "agent_id")
  absorb s _ = (s, err type_error)

  -- What follows one round: an exception ends the loop.
  unfoldable pub after : GossipState × Check → GossipState × Check → GossipState × Check
  after (s, err e) rest = (s, err e)
  after (s, ok _) rest = rest

  -- The loop. What was stored before an exception stays stored.
  unfoldable pub absorb_all : GossipState → List Value → GossipState × Check
  absorb_all s [] = (s, ok tt)
  absorb_all s (v ∷ vs) = let next = absorb s v in after next (absorb_all next.0 vs)

  unfoldable pub absorb_found : GossipState → Result (List Value) → GossipState × Check
  absorb_found s (err e) = (s, err e)
  absorb_found s (ok observations) = absorb_all s observations

  -- The part of merge_envelope after the validation.
  unfoldable pub merge_valid : GossipState → Fields → GossipState × Check
  merge_valid s envelope =
      if is_text (get envelope "fleet_id") s.fleet_id
      then absorb_found s (item envelope "observations" >>= list_of)
      else (s, err (value_error "fleet_id mismatch"))

  unfoldable pub merge_checked : GossipState → Fields → Check → GossipState × Check
  merge_checked s envelope (err e) =
      (record s { forbidden_message_count = s.forbidden_message_count + 1 }, err e)
  merge_checked s envelope (ok _) = merge_valid s envelope

  unfoldable pub merge_envelope : GossipState → Fields → GossipState × Check
  merge_envelope s envelope = merge_checked s envelope (validate_envelope envelope)
