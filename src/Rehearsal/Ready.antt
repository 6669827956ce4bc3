-- ===== src/Rehearsal/Ready.antt =====
-- When tools/peer_mesh_rehearsal.py finds a rehearsal ready.
-- A status that the manifest accepts and that asks for no review.
use mathlib.Core.Path.{subst}
use quest_termux_lab.Base.{
  All, Bool, List, Option, String, [], any, any-false, eq_refl, false, if◌then◌else◌, member, refl,
  sym, true, ◌==◌, ◌∷◌, ◌≡◌,
}
use quest_termux_lab.Entries.{CheckEntry, Good, all-Good, any_status, texts_of}
use quest_termux_lab.Py.Dict.{get}
use quest_termux_lab.Py.Result.{ok, ok-injective, on_ok}
use quest_termux_lab.Py.Stdlib.{Stdlib}
use quest_termux_lab.Py.Value.{Fields}
use quest_termux_lab.Rehearsal.{validate_manifest}
use quest_termux_lab.Rehearsal.Gate.{
  Phase, RehearsalReport, build_rehearsal_report, check_trust, overall_status, phase_is,
  phase_reviews, preflight_checks, reported_status, review_checks, review_open, status_check,
}
use quest_termux_lab.Trust.Gate.{caught_check, check_bundle}
use quest_termux_lab.Trust.Trusted.{caught_check-Good}

pub record Accepted (accepted : List String) (status : String) : Type 0 where
  pub listed : member status accepted ≡ true
  pub reviewed : (status == "manual_review") ≡ false

pub record IsReady (lib : Stdlib) (manifest bundle trust : Fields) (phases : List Phase)
    : Type 0 where
  pub bundle_valid : check_bundle manifest bundle ≡ ok tt
  pub trust_valid : check_trust manifest trust ≡ ok tt
  pub bundle_accepted :
      Accepted (texts_of (get manifest "required_lab_bundle_statuses")) (reported_status lib bundle)
  pub trust_accepted :
      Accepted (texts_of (get manifest "required_trust_statuses")) (reported_status lib trust)
  pub no_open_review : review_open manifest ≡ false
  pub no_blocked_phase : All (λ p. phase_is "blocked" p ≡ false) phases
  pub no_reviewed_phase : All (λ p. phase_is "manual_review" p ≡ false) phases

abbrev rehearsal_chain : Bool → Bool → Bool → Bool → String
rehearsal_chain a b c d =
    if a
    then "blocked"
    else if b
    then "blocked"
    else if c
    then "manual_review"
    else if d
    then "manual_review"
    else "rehearsal_ready"

rehearsal_chain-ready :
    (a b c d : Bool)
    → (rehearsal_chain a b c d == "rehearsal_ready") ≡ true
    → (a ≡ false) × (b ≡ false) × (c ≡ false) × (d ≡ false)
rehearsal_chain-ready false false false false h = (refl, refl, refl, refl)
rehearsal_chain-ready true b c d h = absurd (cc h)
rehearsal_chain-ready false true c d h = absurd (cc h)
rehearsal_chain-ready false false true d h = absurd (cc h)
rehearsal_chain-ready false false false true h = absurd (cc h)

overall_status-ready :
    (checks : List CheckEntry) (phases : List Phase)
    → overall_status checks phases ≡ "rehearsal_ready"
    → All Good checks
      × All (λ p. phase_is "blocked" p ≡ false) phases
      × All (λ p. phase_is "manual_review" p ≡ false) phases
unfolding overall_status
overall_status-ready checks phases h =
    let (a, b, c, d) =
      rehearsal_chain-ready (any_status "failed" checks) (any (phase_is "blocked") phases)
        (any_status "manual_review" checks) (any (phase_is "manual_review") phases)
        (subst (λ s. (s == "rehearsal_ready") ≡ true) (sym h) (eq_refl "rehearsal_ready")) in
    (
      all-Good checks (any-false (λ k. k.status == "failed") checks a)
          (any-false (λ k. k.status == "manual_review") checks c),
      any-false (phase_is "blocked") phases b,
      any-false (phase_is "manual_review") phases d,
    )

abbrev status_shape : Bool → Bool → CheckEntry → CheckEntry → CheckEntry → CheckEntry
status_shape here reviewed x y z = if here then (if reviewed then x else y) else z

status_shape-Good :
    (here reviewed : Bool) (x y z : CheckEntry)
    → (x.status == "manual_review") ≡ true
    → (z.status == "failed") ≡ true
    → Good (status_shape here reviewed x y z)
    → (here ≡ true) × (reviewed ≡ false)
status_shape-Good true false x y z p q good = (refl, refl)
status_shape-Good true true x y z p q good = absurd (cc (p, good.reviewed))
status_shape-Good false reviewed x y z p q good = absurd (cc (q, good.unfailed))

status_check-Accepted :
    (check_id : String) (accepted : List String) (status reason other : String)
    → Good (status_check check_id accepted status reason other)
    → Accepted accepted status
unfolding status_check
status_check-Accepted check_id accepted status reason other good =
    let (here, unreviewed) =
      status_shape-Good (member status accepted) (status == "manual_review") _ _ _ refl refl good in
    record { listed = here; reviewed = unreviewed }

abbrev review_shape : Bool → CheckEntry → List CheckEntry → List CheckEntry
review_shape waiting x xs = if waiting then x ∷ [] else xs

review_shape-Good :
    (waiting : Bool) (x : CheckEntry) (xs : List CheckEntry)
    → (x.status == "manual_review") ≡ true
    → All Good (review_shape waiting x xs)
    → waiting ≡ false
review_shape-Good true x xs h (good, _) = absurd (cc (h, good.reviewed))
review_shape-Good false x xs h good = refl

review_checks-closed :
    (manifest : Fields) → All Good (review_checks manifest) → review_open manifest ≡ false
unfolding review_checks
review_checks-closed manifest good = review_shape-Good (review_open manifest) _ _ refl good

preflight_checks-IsReady :
    (lib : Stdlib) (manifest bundle trust : Fields) (checks : List CheckEntry) (phases : List Phase)
    → preflight_checks lib manifest bundle trust ≡ ok checks
    → All Good checks
    → All (λ p. phase_is "blocked" p ≡ false) phases
    → All (λ p. phase_is "manual_review" p ≡ false) phases
    → IsReady lib manifest bundle trust phases
unfolding preflight_checks
preflight_checks-IsReady lib manifest bundle trust checks phases h good unblocked reviewed =
    on_ok
      (caught_check "lab_bundle_valid" "valid lab bundle report"
        "lab bundle matches rehearsal identity" (check_bundle manifest bundle))
      h
      λ c1 m1 h1.
        on_ok
          (caught_check "trust_report_valid" "valid trust report"
            "trust report matches rehearsal identity" (check_trust manifest trust))
          h1
          λ c2 m2 h2.
            let (g1, (g2, (g3, (g4, rest)))) = subst (All Good) (sym (ok-injective h2)) good in
            record {
              bundle_valid = caught_check-Good _ _ _ (check_bundle manifest bundle) c1 m1 g1;
              trust_valid = caught_check-Good _ _ _ (check_trust manifest trust) c2 m2 g2;
              bundle_accepted = status_check-Accepted "lab_bundle_status" _ _ _ _ g3;
              trust_accepted = status_check-Accepted "trust_status" _ _ _ _ g4;
              no_open_review = review_checks-closed manifest rest;
              no_blocked_phase = unblocked;
              no_reviewed_phase = reviewed;
            }

-- Where a report that is made says "rehearsal_ready", the bundle report and the trust report are
-- valid and have the fleet, the source and the scope of the manifest, the status of each is one that
-- the manifest accepts and is not "manual_review", an operator review that is required is recorded,
-- and no planned phase is blocked or left to a review.
pub build_rehearsal_report-IsReady :
    (lib : Stdlib) (manifest bundle trust : Fields) (now : Option String) (report : RehearsalReport)
    → build_rehearsal_report lib manifest bundle trust now ≡ ok report
    → report.overall_status ≡ "rehearsal_ready"
    → IsReady lib manifest bundle trust report.phases
unfolding build_rehearsal_report
build_rehearsal_report-IsReady lib manifest bundle trust now report h ready =
    on_ok (validate_manifest manifest) h λ _ _ h1.
      on_ok (preflight_checks lib manifest bundle trust) h1 λ checks made h2.
        on_ok (phase_reviews lib manifest bundle trust) h2 λ phases _ h3.
          let status =
            subst (λ r. r.overall_status ≡ "rehearsal_ready") (sym (ok-injective h3)) ready in
          let (good, unblocked, reviewed) = overall_status-ready checks phases status in
          subst (λ r. IsReady lib manifest bundle trust r.phases) (ok-injective h3)
            (preflight_checks-IsReady lib manifest bundle trust checks phases made good unblocked
              reviewed)
