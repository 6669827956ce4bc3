-- ===== src/Trust/Reviews.antt =====
-- The reviews of routes and of envelopes in tools/peer_mesh_trust_gate.py.
use quest_termux_lab.Base.{
  Bool, List, String, [], if◌then◌else◌, is_empty, keep, member, not, ◌++◌, ◌==◌, ◌∷◌,
}
use quest_termux_lab.Entries.{texts_of, when}
use quest_termux_lab.Gossip.Envelope.{if_int, validate_envelope}
use quest_termux_lab.Py.Dict.{get, get_or, item}
use quest_termux_lab.Py.Result.{Result, map_ok, ok, on_value_error, ◌>>=◌, ◌>>◌}
use quest_termux_lab.Py.Stdlib.{Stdlib, int_of, text_of}
use quest_termux_lab.Py.Text.{join_texts, sort_texts, ◌+ₛ◌}
use quest_termux_lab.Py.Value.{
  Fields, Value, arr, array, count_of, int, lt_ℤ, nat, obj, pos, str, to_list, truthy, ℤ,
}

pub record PeerReview : Type 0 where
  pub target_agent_id : String
  pub transport_mode : String
  pub trust_status : String
  pub reason : String

pub record EnvelopeReview : Type 0 where
  pub message_id : String
  pub sender_agent_id : String
  pub hop_ttl : Value
  pub trust_status : String
  pub reason : String

abbrev pub trust_of : List String → String
trust_of [] = "trusted"
trust_of (_ ∷ _) = "untrusted"

-- "; ".join(reasons), with the reason that stands where there is none
abbrev pub joined : String → List String → String
joined satisfied [] = satisfied
joined satisfied reasons = join_texts "; " reasons

abbrev pub peer_trusted : PeerReview → Bool
peer_trusted review = review.trust_status == "trusted"

abbrev pub envelope_trusted : EnvelopeReview → Bool
envelope_trusted review = review.trust_status == "trusted"

-- Each text of a list once.
unfoldable pub distinct : List String → List String
distinct [] = []
distinct (s ∷ rest) = let others = distinct rest in if member s rest then others else s ∷ others

module _ (lib : Stdlib) where
  -- str(route.get(key) or "(missing)")
  abbrev pub named : Fields → String → String
  named route key = if truthy (get route key) then text_of lib (get route key) else "(missing)"

  unfoldable pub route_reasons : Fields → String → String → List String
  route_reasons policy target mode =
      when (not (member target (texts_of (get policy "allowed_agent_ids"))))
        ("target " +ₛ target +ₛ " is not in allowed_agent_ids")
      ++ when (not (member mode (texts_of (get policy "allowed_transport_modes"))))
          ("transport mode " +ₛ mode +ₛ " is not allowed")

  unfoldable pub route_review : Fields → Fields → PeerReview
  unfolding route_reasons
  route_review policy route =
      let target = named route "target_agent_id" in
      let mode = named route "transport_mode" in
      let reasons = route_reasons policy target mode in
      record {
        target_agent_id = target;
        transport_mode = mode;
        trust_status = trust_of reasons;
        reason = joined "configured route satisfies trust policy" reasons;
      }

  -- The loop of route_reviews, which passes over what is not an object.
  unfoldable pub review_routes : Fields → List Value → List PeerReview
  unfolding route_review
  review_routes policy [] = []
  review_routes policy (obj route ∷ vs) = route_review policy route ∷ review_routes policy vs
  review_routes policy (_ ∷ vs) = review_routes policy vs

  unfoldable pub reviews_in : Fields → Value → List PeerReview
  unfolding review_routes
  reviews_in policy (arr vs) = review_routes policy (to_list vs)
  reviews_in policy _ = []

  unfoldable pub route_reviews : Fields → Fields → List PeerReview
  unfolding reviews_in
  route_reviews route_config policy = reviews_in policy (get_or route_config "routes" (array []))

  -- str(d.get(key, ""))
  abbrev pub text_at : Fields → String → String
  text_at d key = text_of lib (get_or d key (str ""))

  unfoldable pub observation_names : List Value → List String
  observation_names [] = []
  observation_names (obj d ∷ vs) =
      text_at d "agent_id" ∷ text_at d "heard_from_agent_id" ∷ observation_names vs
  observation_names (_ ∷ vs) = observation_names vs

  unfoldable pub observed_names : Value → List String
  unfolding observation_names
  observed_names (arr vs) = observation_names (to_list vs)
  observed_names _ = []

  -- The set is a list here: only its members are asked for.
  unfoldable pub envelope_participants : Fields → List String
  unfolding observed_names
  envelope_participants envelope =
      keep (λ s. not (s == ""))
        (text_at envelope "sender_agent_id"
          ∷ observed_names (get_or envelope "observations" (array [])))

  unfoldable pub unknown_participants : Fields → Fields → List String
  unfolding envelope_participants distinct sort_texts
  unknown_participants policy envelope = sort_texts (
      distinct (
        keep (λ s. not (member s (texts_of (get policy "allowed_agent_ids"))))
          (envelope_participants envelope)))

  unfoldable pub envelope_reasons : Fields → ℤ → List String → List String
  envelope_reasons policy hop_ttl unknown =
      when (lt_ℤ (pos (count_of (get policy "max_hop_ttl"))) hop_ttl) (
        "hop_ttl "
        +ₛ text_of lib (int hop_ttl)
        +ₛ " exceeds max "
        +ₛ text_of lib (nat (count_of (get policy "max_hop_ttl"))))
      ++ when (not (is_empty unknown))
          ("participants outside allowed_agent_ids: " +ₛ join_texts ", " unknown)

  abbrev pub review_fields : Fields → Value → String → String → EnvelopeReview
  review_fields envelope hop_ttl status reason = record {
    message_id = text_at envelope "message_id";
    sender_agent_id = text_at envelope "sender_agent_id";
    hop_ttl = hop_ttl;
    trust_status = status;
    reason = reason;
  }

  -- The body of the `try` of envelope_reviews.
  unfoldable pub judge_envelope : Fields → Fields → Result EnvelopeReview
  unfolding unknown_participants envelope_reasons
  judge_envelope policy envelope = do
    validate_envelope envelope
    given ← item envelope "hop_ttl"
    hop_ttl ← int_of lib given
    let reasons = envelope_reasons policy hop_ttl (unknown_participants policy envelope)
    ok (
        review_fields envelope (int hop_ttl) (trust_of reasons)
          (joined "sample envelope satisfies trust policy" reasons))

  -- One round of the loop of envelope_reviews: only a ValueError is caught.
  unfoldable pub envelope_review : Fields → Fields → Result EnvelopeReview
  unfolding judge_envelope
  envelope_review policy envelope =
      on_value_error (judge_envelope policy envelope)
        (λ message. review_fields envelope (if_int (get envelope "hop_ttl")) "untrusted" message)

  unfoldable pub envelope_reviews : Fields → List Fields → Result (List EnvelopeReview)
  unfolding envelope_review
  envelope_reviews policy envelopes = map_ok (envelope_review policy) envelopes
