-- ===== src/Trust/Gate.antt =====
-- The checks, the status and the report of tools/peer_mesh_trust_gate.py.
-- if d[key] != policy[key]: raise ValueError(key + " mismatch")
use quest_termux_lab.Base.{
  Bool, List, Option, String, [], all, any, if◌then◌else◌, leb, length, map, ℕ, ◌++◌, ◌==◌, ◌∷◌,
}
use quest_termux_lab.Dispatch.{validate_route_config}
use quest_termux_lab.Entries.{CheckEntry, any_status, count_status, count_where, when}
use quest_termux_lab.Py.Dict.{get, get_or, keys, py_eq}
use quest_termux_lab.Py.Result.{
  Check, Result, each, guard, ok, on_value_error, value_error, ◌>>=◌, ◌>>◌,
}
use quest_termux_lab.Py.Stdlib.{Stdlib, or_text, text_of}
use quest_termux_lab.Py.Text.{join_texts, ◌+ₛ◌}
use quest_termux_lab.Py.Value.{
  Fields, Value, arr, array, count_of, is_true, nat, nil, str, text, to_list,
}
use quest_termux_lab.Trust.{failed, manual, passed, validate_bundle_report, validate_policy}
use quest_termux_lab.Trust.Reviews.{
  EnvelopeReview, PeerReview, envelope_reviews, envelope_trusted, peer_trusted, route_reviews,
}

abbrev pub same_identity : Fields → List String → Fields → Check
same_identity policy keys document =
    each
      (λ key. guard (py_eq (get document key) (get policy key)) (value_error (key +ₛ " mismatch")))
      keys

-- The bodies of the first two `try`s of build_trust_report.
unfoldable pub check_bundle : Fields → Fields → Check
unfolding validate_bundle_report
check_bundle policy bundle =
    validate_bundle_report bundle
    >> same_identity policy ("fleet_id" ∷ "source_agent_id" ∷ "experiment_scope" ∷ []) bundle

unfoldable pub caught_check : String → String → String → Check → Result CheckEntry
unfolding passed failed
caught_check check_id expected reason checked =
    on_value_error (checked >>= λ _. ok (passed check_id expected "valid" reason))
      (λ message. failed check_id expected "invalid" message)

unfoldable pub bundle_status_check : String → CheckEntry
unfolding passed manual failed
bundle_status_check status =
    if status == "synthetic_ready"
    then passed "lab_bundle_status" "synthetic_ready" status
        "bundle preflight is synthetically ready"
    else if status == "manual_review"
    then manual "lab_bundle_status" "synthetic_ready" status
        "bundle preflight still needs manual review"
    else failed "lab_bundle_status" "synthetic_ready" status
        "bundle preflight is blocked or invalid"

-- A check that passes on a condition.
unfoldable pub check_that : Bool → String → String → String → String → String → CheckEntry
unfolding passed failed
check_that condition check_id expected observed good bad =
    if condition
    then passed check_id expected observed good
    else failed check_id expected observed bad

pub record Summary : Type 0 where
  pub check_count : ℕ
  pub passed_check_count : ℕ
  pub failed_check_count : ℕ
  pub manual_review_check_count : ℕ
  pub configured_peer_count : ℕ
  pub trusted_peer_count : ℕ
  pub untrusted_peer_count : ℕ
  pub sample_envelope_count : ℕ
  pub trusted_sample_envelope_count : ℕ
  pub untrusted_sample_envelope_count : ℕ

abbrev pub peer_untrusted : PeerReview → Bool
peer_untrusted review = review.trust_status == "untrusted"

abbrev pub envelope_untrusted : EnvelopeReview → Bool
envelope_untrusted review = review.trust_status == "untrusted"

unfoldable pub summarize : List CheckEntry → List PeerReview → List EnvelopeReview → Summary
summarize checks peers envelopes = record {
  check_count = length checks;
  passed_check_count = count_status "passed" checks;
  failed_check_count = count_status "failed" checks;
  manual_review_check_count = count_status "manual_review" checks;
  configured_peer_count = length peers;
  trusted_peer_count = count_where peer_trusted peers;
  untrusted_peer_count = count_where peer_untrusted peers;
  sample_envelope_count = length envelopes;
  trusted_sample_envelope_count = count_where envelope_trusted envelopes;
  untrusted_sample_envelope_count = count_where envelope_untrusted envelopes;
}

unfoldable pub overall_status : List CheckEntry → List PeerReview → List EnvelopeReview → String
overall_status checks peers envelopes =
    if any_status "failed" checks
    then "untrusted"
    else if any peer_untrusted peers
    then "untrusted"
    else if any envelope_untrusted envelopes
    then "untrusted"
    else if any_status "manual_review" checks
    then "manual_review"
    else "trusted"

pub record TrustReport : Type 0 where
  pub fleet_id : Value
  pub source_agent_id : Value
  pub observed_at : String
  pub policy_id : Value
  pub experiment_scope : Value
  pub overall_status : String
  pub checks : List CheckEntry
  pub configured_peers : List PeerReview
  pub sample_envelopes : List EnvelopeReview
  pub summary : Summary

module _ (lib : Stdlib) where
  unfoldable pub check_config : Fields → Fields → Check
  unfolding validate_route_config
  check_config policy route_config =
      validate_route_config lib route_config
      >> same_identity policy ("fleet_id" ∷ "source_agent_id" ∷ []) route_config

  -- What a message_schema check shows where the schemas are not the one expected.
  unfoldable pub schemas_text : Value → String
  schemas_text (arr nil) = "none"
  schemas_text (arr vs) = join_texts ", " (map (text_of lib) (to_list vs))
  schemas_text _ = "invalid"

  unfoldable pub schema_check : Fields → Fields → CheckEntry
  unfolding check_that schemas_text
  schema_check policy route_config =
      let schemas = get_or route_config "allowed_message_schemas" (array []) in
      let expected = text (get policy "required_message_schema") in
      let allowed = py_eq schemas (array (str expected ∷ [])) in
      check_that allowed "message_schema" expected
        (if allowed then expected else schemas_text schemas)
        "route config allows gossip schema only"
        "route config must allow only peer gossip envelopes"

  unfoldable pub peer_checks : Fields → List PeerReview → List CheckEntry
  unfolding check_that
  peer_checks policy peers =
      let trusted = all peer_trusted peers in
      let size = text_of lib (nat (length peers)) in
      when (is_true (get policy "require_configured_peers_only")) (
        check_that trusted "configured_peers_allowed" "all configured targets in allowed_agent_ids"
          size "configured peers are explicitly allowed"
          "one or more configured peers are not allowed")
      ++ (check_that trusted "transport_modes_allowed" "all configured transports allowed" size
            "configured transport modes are allowed"
            "one or more configured transport modes are not allowed"
          ∷ [])

  unfoldable pub sample_checks : Fields → List EnvelopeReview → List CheckEntry
  unfolding check_that
  sample_checks policy envelopes =
      let size = text_of lib (nat (length envelopes)) in
      check_that (leb (count_of (get policy "min_sample_envelopes")) (length envelopes))
        "sample_envelope_count"
        (">= " +ₛ text_of lib (get policy "min_sample_envelopes") +ₛ " samples") size
        "enough synthetic gossip samples were provided"
        "not enough synthetic gossip samples were provided"
      ∷ check_that (all envelope_trusted envelopes) "sample_envelopes_trusted"
          "sample envelopes within trust policy" size
          "sample envelopes satisfy agent and TTL policy"
          "one or more sample envelopes violate trust policy"
      ∷ []

  -- Each review is of one envelope, so that the number of reviews is the number of envelopes.
  unfoldable pub policy_checks :
      Fields → Fields → Fields → List PeerReview → List EnvelopeReview → List CheckEntry
  unfolding bundle_status_check schema_check peer_checks sample_checks manual
  policy_checks policy route_config bundle peers envelopes =
      when (is_true (get policy "require_trusted_bundle_status"))
        (bundle_status_check (text_of lib (get_or bundle "overall_status" (str "invalid"))))
      ++ (schema_check policy route_config ∷ peer_checks policy peers)
      ++ sample_checks policy envelopes
      ++ when (is_true (get policy "operator_review_required")) (
          manual "operator_review" "private operator review before live LAN peer experiment"
            "not represented in public synthetic evidence"
            "this public report cannot grant live-device or LAN approval")

  unfoldable pub build_trust_report :
      Fields → Fields → Fields → List Fields → Option String → Result TrustReport
  unfolding validate_policy check_config check_bundle caught_check route_reviews envelope_reviews
      policy_checks overall_status summarize
  build_trust_report policy route_config bundle gossip_envelopes now_text = do
    validate_policy policy
    config_entry ←
        caught_check "route_config_valid" "valid peer-route-config.v1"
          "route config matches policy identity" (check_config policy route_config)
    bundle_entry ←
        caught_check "lab_bundle_valid" "valid peer-lab-bundle-report.v1"
          "lab bundle matches policy identity" (check_bundle policy bundle)
    let peers = route_reviews lib route_config policy
    envelopes ← envelope_reviews lib policy gossip_envelopes
    let checks =
        config_entry ∷ bundle_entry ∷ policy_checks policy route_config bundle peers envelopes
    ok (record {
      fleet_id = get policy "fleet_id";
      source_agent_id = get policy "source_agent_id";
      observed_at = or_text now_text (text_of lib (get policy "observed_at"));
      policy_id = get policy "policy_id";
      experiment_scope = get policy "experiment_scope";
      overall_status = overall_status checks peers envelopes;
      checks = checks;
      configured_peers = peers;
      sample_envelopes = envelopes;
      summary = summarize checks peers envelopes;
    })
