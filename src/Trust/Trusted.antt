-- ===== src/Trust/Trusted.antt =====
-- What a report of tools/peer_mesh_trust_gate.py that says "trusted" shows.
use mathlib.Core.Path.{subst}
use quest_termux_lab.Base.{
  All, All-append, Bool, List, Option, String, any, any-false, eq_iff, eq_refl, false,
  if◌then◌else◌, leb→le, length, refl, sym, true, ◌++◌, ◌==◌, ◌∷◌, ◌≡◌, ◌≤◌,
}
use quest_termux_lab.Entries.{CheckEntry, Good, all-Good, any_status, when}
use quest_termux_lab.Fleet.State.{check}
use quest_termux_lab.Py.Dict.{get, get_or, size}
use quest_termux_lab.Py.Result.{Check, err, ok, ok-injective, on_ok, value_error}
use quest_termux_lab.Py.Stdlib.{Stdlib, text_of}
use quest_termux_lab.Py.Value.{Fields, count_of, is_true, str}
use quest_termux_lab.Trust.{manual, validate_policy}
use quest_termux_lab.Trust.Gate.{
  TrustReport, build_trust_report, bundle_status_check, caught_check, check_bundle, check_config,
  check_that, envelope_untrusted, overall_status, peer_checks, peer_untrusted, policy_checks,
  sample_checks, schema_check,
}
use quest_termux_lab.Trust.Peers.{PeerAllowed, route_reviews-PeerAllowed}
use quest_termux_lab.Trust.Reviews.{EnvelopeReview, PeerReview, envelope_reviews, route_reviews}
use quest_termux_lab.Trust.Samples.{Trustworthy, envelope_reviews-Trustworthy}

pub record ShowsTrust (lib : Stdlib) (policy config bundle : Fields) (envelopes : List Fields)
    (report : TrustReport) : Type 0 where
  pub config_valid : check_config lib policy config ≡ ok tt
  pub bundle_valid : check_bundle policy bundle ≡ ok tt
  pub bundle_ready :
      is_true (get policy "require_trusted_bundle_status") ≡ true
      → text_of lib (get_or bundle "overall_status" (str "invalid")) ≡ "synthetic_ready"
  pub peers_allowed : All (PeerAllowed policy) report.configured_peers
  pub samples_trusted : All (Trustworthy lib policy) envelopes
  pub enough_samples : count_of (get policy "min_sample_envelopes") ≤ length envelopes
  pub no_review : is_true (get policy "operator_review_required") ≡ false

abbrev trust_chain : Bool → Bool → Bool → Bool → String
trust_chain a b c d =
    if a
    then "untrusted"
    else if b
    then "untrusted"
    else if c
    then "untrusted"
    else if d
    then "manual_review"
    else "trusted"

trust_chain-trusted :
    (a b c d : Bool)
    → (trust_chain a b c d == "trusted") ≡ true
    → (a ≡ false) × (b ≡ false) × (c ≡ false) × (d ≡ false)
trust_chain-trusted false false false false h = (refl, refl, refl, refl)
trust_chain-trusted true b c d h = absurd (cc h)
trust_chain-trusted false true c d h = absurd (cc h)
trust_chain-trusted false false true d h = absurd (cc h)
trust_chain-trusted false false false true h = absurd (cc h)

overall_status-trusted :
    (checks : List CheckEntry) (peers : List PeerReview) (envelopes : List EnvelopeReview)
    → overall_status checks peers envelopes ≡ "trusted"
    → All Good checks
      × (any peer_untrusted peers ≡ false)
      × (any envelope_untrusted envelopes ≡ false)
unfolding overall_status
overall_status-trusted checks peers envelopes h =
    let (a, b, c, d) =
      trust_chain-trusted (any_status "failed" checks) (any peer_untrusted peers)
        (any envelope_untrusted envelopes) (any_status "manual_review" checks)
        (subst (λ s. (s == "trusted") ≡ true) (sym h) (eq_refl "trusted")) in
    (
      all-Good checks (any-false (λ k. k.status == "failed") checks a)
          (any-false (λ k. k.status == "manual_review") checks d),
      b,
      c,
    )

pub caught_check-Good :
    (check_id expected reason : String) (checked : Check) (entry : CheckEntry)
    → caught_check check_id expected reason checked ≡ ok entry
    → Good entry
    → checked ≡ ok tt
unfolding caught_check
caught_check-Good check_id expected reason (ok u) entry h good = refl
caught_check-Good check_id expected reason (err (value_error m)) entry h good =
    absurd (cc (subst (λ c. (c.status == "failed") ≡ false) (sym (ok-injective h)) good.unfailed))
caught_check-Good check_id expected reason (err e) entry h good = absurd (cc h)

abbrev by_status : Bool → Bool → CheckEntry → CheckEntry → CheckEntry → CheckEntry
by_status a b x y z = if a then x else if b then y else z

by_status-Good :
    (a b : Bool) (x y z : CheckEntry)
    → (y.status == "manual_review") ≡ true
    → (z.status == "failed") ≡ true
    → Good (by_status a b x y z)
    → a ≡ true
by_status-Good true b x y z p q good = refl
by_status-Good false true x y z p q good = absurd (cc (good.reviewed, p))
by_status-Good false false x y z p q good = absurd (cc (good.unfailed, q))

bundle_status_check-Good :
    (status : String) → Good (bundle_status_check status) → status ≡ "synthetic_ready"
unfolding bundle_status_check
bundle_status_check-Good status good =
    (eq_iff status "synthetic_ready").0 (
      by_status-Good (status == "synthetic_ready") (status == "manual_review") _ _ _ refl refl good)

when-Good : (b : Bool) (check : CheckEntry) → All Good (when b check) → b ≡ true → Good check
when-Good true check (good, _) h = good
when-Good false check good h = absurd (cc h)

check_that-Good :
    (condition : Bool) (check_id expected observed reason other : String)
    → Good (check_that condition check_id expected observed reason other)
    → condition ≡ true
unfolding check_that
check_that-Good true check_id expected observed reason other good = refl
check_that-Good false check_id expected observed reason other good = absurd (cc good.unfailed)

sample_checks-enough :
    (lib : Stdlib) (policy : Fields) (envelopes : List EnvelopeReview)
    → All Good (sample_checks lib policy envelopes)
    → count_of (get policy "min_sample_envelopes") ≤ length envelopes
unfolding sample_checks
sample_checks-enough lib policy envelopes (good, _) = leb→le _ _ (check_that-Good _ _ _ _ _ _ good)

no_manual :
    (b : Bool) (check : CheckEntry)
    → (check.status == "manual_review") ≡ true
    → All Good (when b check)
    → b ≡ false
no_manual true check h (good, _) = absurd (cc (h, good.reviewed))
no_manual false check h good = refl

policy_checks-parts :
    (lib : Stdlib) (policy config bundle : Fields) (peers : List PeerReview)
    (envelopes : List EnvelopeReview)
    → All Good (policy_checks lib policy config bundle peers envelopes)
    → (is_true (get policy "require_trusted_bundle_status") ≡ true
        → text_of lib (get_or bundle "overall_status" (str "invalid")) ≡ "synthetic_ready")
      × (count_of (get policy "min_sample_envelopes") ≤ length envelopes)
      × (is_true (get policy "operator_review_required") ≡ false)
unfolding policy_checks manual
policy_checks-parts lib policy config bundle peers envelopes h =
    let status = text_of lib (get_or bundle "overall_status" (str "invalid")) in
    let first_part =
      when (is_true (get policy "require_trusted_bundle_status")) (bundle_status_check status) in
    let second_part =
      first_part ++ (schema_check lib policy config ∷ peer_checks lib policy peers) in
    let (h1, review) = All-append Good (second_part ++ sample_checks lib policy envelopes) _ h in
    let (h2, samples) = All-append Good second_part (sample_checks lib policy envelopes) h1 in
    let (bundles, _) = All-append Good first_part _ h2 in
    (
      λ set. bundle_status_check-Good status (when-Good _ _ bundles set),
      sample_checks-enough lib policy envelopes samples,
      no_manual _ _ refl review,
    )

-- Where a report says "trusted", the route configuration and the bundle report are valid and have
-- the identity of the policy, the bundle is ready where the policy asks for it, each reviewed peer
-- and transport is allowed, there are enough samples, each sample is a valid envelope whose hop
-- count is at most the policy's and whose participants are all allowed, and no operator review is
-- asked for.
pub build_trust_report-ShowsTrust :
    (lib : Stdlib) (policy config bundle : Fields) (envelopes : List Fields) (now : Option String)
    (report : TrustReport)
    → build_trust_report lib policy config bundle envelopes now ≡ ok report
    → report.overall_status ≡ "trusted"
    → ShowsTrust lib policy config bundle envelopes report
unfolding build_trust_report
build_trust_report-ShowsTrust lib policy config bundle envelopes now report h trusted =
    on_ok (validate_policy policy) h λ _ _ h1.
      on_ok
        (caught_check "route_config_valid" "valid peer-route-config.v1"
          "route config matches policy identity" (check_config lib policy config))
        h1
        λ c1 m1 h2.
          on_ok
            (caught_check "lab_bundle_valid" "valid peer-lab-bundle-report.v1"
              "lab bundle matches policy identity" (check_bundle policy bundle))
            h2
            λ c2 m2 h3. on_ok (envelope_reviews lib policy envelopes) h3 λ reviews made h4.
              let peers = route_reviews lib config policy in
              let status =
                subst (λ r. r.overall_status ≡ "trusted") (sym (ok-injective h4)) trusted in
              let ((g1, (g2, rest)), peers_fine, samples_fine) =
                overall_status-trusted
                  (c1 ∷ c2 ∷ policy_checks lib policy config bundle peers reviews) peers reviews
                  status in
              let (bundle_fine, enough, unreviewed) =
                policy_checks-parts lib policy config bundle peers reviews rest in
              let (samples, size) =
                envelope_reviews-Trustworthy lib policy envelopes reviews made samples_fine in
              subst (ShowsTrust lib policy config bundle envelopes) (ok-injective h4) (record {
                config_valid = caught_check-Good _ _ _ _ c1 m1 g1;
                bundle_valid = caught_check-Good _ _ _ _ c2 m2 g2;
                bundle_ready = bundle_fine;
                peers_allowed = route_reviews-PeerAllowed lib config policy peers_fine;
                samples_trusted = samples;
                enough_samples =
                    subst (λ n. count_of (get policy "min_sample_envelopes") ≤ n) size enough;
                no_review = unreviewed;
              })
