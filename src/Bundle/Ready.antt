-- ===== src/Bundle/Ready.antt =====
-- When tools/peer_mesh_lab_bundle.py finds a bundle ready.
use mathlib.Core.Path.{subst}
use quest_termux_lab.Base.{
  Bool, List, Option, String, [], any, any-false, eq_refl, false, if◌then◌else◌, not, not-false,
  refl, sym, true, ◌&&◌, ◌==◌, ◌||◌, ◌∷◌, ◌≡◌,
}
use quest_termux_lab.Bundle.{
  ArtifactEntry, BundleReport, artifact_check, artifact_checks, artifact_is, build_bundle_report,
  overall_status, readiness_report_keys, status_in, validate_bundle_topology, validate_manifest,
  validate_readiness_report,
}
use quest_termux_lab.Bundle.Known.{Known, Known-left, status_in-Known}
use quest_termux_lab.Bundle.Matches.{Matches, artifact_check-Matches}
use quest_termux_lab.Dispatch.{route_config_schema, validate_route_config}
use quest_termux_lab.Entries.{check_in, check_in-listed}
use quest_termux_lab.Gossip.Envelope.{contains_forbidden_key, require_keys}
use quest_termux_lab.Health.History.{route_history_schema}
use quest_termux_lab.Py.Dict.{get}
use quest_termux_lab.Py.Result.{ok, ok-injective, on_guard, on_ok, value_error}
use quest_termux_lab.Py.Stdlib.{Stdlib}
use quest_termux_lab.Py.Value.{Fields, is_text, is_true, obj, str}
use quest_termux_lab.Readiness.{
  experiment_scopes, readiness_report_schema, readiness_statuses, validate_history,
}
use quest_termux_lab.Topology.{topology_report_schema, topology_statuses}
use quest_termux_lab.Topology.Validate.{validate_topology_report}

pub record IsReady (lib : Stdlib) (manifest config topology history readiness : Fields)
    : Type 0 where
  pub config_matches : Matches manifest config (validate_route_config lib)
  pub topology_matches : Matches manifest topology (validate_bundle_topology lib)
  pub history_matches : Matches manifest history validate_history
  pub readiness_matches : Matches manifest readiness validate_readiness_report
  pub topology_ready : get topology "overall_status" ≡ str "topology_ready"
  pub readiness_ready : get readiness "overall_status" ≡ str "ready"
  pub approved :
      is_true (get manifest "operator_approval_required") ≡ true
      → is_true (get manifest "operator_approval_recorded") ≡ true

abbrev bundle_chain : Bool → Bool → Bool → Bool → Bool → Bool → String
bundle_chain a b c d e f =
    if a
    then "blocked"
    else if b
    then "blocked"
    else if c
    then "blocked"
    else if d
    then "manual_review"
    else if e
    then "manual_review"
    else if f
    then "manual_review"
    else "synthetic_ready"

bundle_chain-ready :
    (a b c d e f : Bool)
    → (bundle_chain a b c d e f == "synthetic_ready") ≡ true
    → (a ≡ false) × ((b || d) ≡ false) × ((c || e) ≡ false) × (f ≡ false)
bundle_chain-ready false false false false false false h = (refl, refl, refl, refl)
bundle_chain-ready true b c d e f h = absurd (cc h)
bundle_chain-ready false true c d e f h = absurd (cc h)
bundle_chain-ready false false true d e f h = absurd (cc h)
bundle_chain-ready false false false true e f h = absurd (cc h)
bundle_chain-ready false false false false true f h = absurd (cc h)
bundle_chain-ready false false false false false true h = absurd (cc h)

approval :
    (required recorded : Bool)
    → (required && not recorded) ≡ false
    → required ≡ true
    → recorded ≡ true
approval true recorded h set = not-false recorded h
approval false recorded h set = absurd (cc set)

topology-Known :
    (lib : Stdlib) (report : Fields)
    → validate_bundle_topology lib report ≡ ok tt
    → Known lib topology_statuses report
unfolding validate_bundle_topology
topology-Known lib report h = on_ok (validate_topology_report lib report) h λ _ _ h1.
    on_ok
      (check_in (get report "overall_status") topology_statuses
        (value_error "unsupported topology status"))
      h1
      λ u listed _.
        status_in-Known lib topology_statuses report
          (check_in-listed (get report "overall_status") topology_statuses _ u listed)

readiness-Known :
    (lib : Stdlib) (report : Fields)
    → validate_readiness_report report ≡ ok tt
    → Known lib readiness_statuses report
unfolding validate_readiness_report
readiness-Known lib report h =
    on_guard (is_text (get report "schema") readiness_report_schema) _ h λ _ h1.
      on_guard (not (contains_forbidden_key (obj report))) _ h1 λ _ h2.
        on_ok (require_keys "readiness report missing " readiness_report_keys report) h2 λ _ _ h3.
          on_ok
            (check_in (get report "experiment_scope") experiment_scopes
              (value_error "unsupported readiness experiment_scope"))
            h3
            λ _ _ h4.
              on_ok
                (check_in (get report "overall_status") readiness_statuses
                  (value_error "unsupported readiness status"))
                h4
                λ u listed _.
                  status_in-Known lib readiness_statuses report
                    (check_in-listed (get report "overall_status") readiness_statuses _ u listed)

overall_status-stops :
    (manifest : Fields) (checks : List ArtifactEntry) (topology_status readiness_status : String)
    → overall_status manifest checks topology_status readiness_status ≡ "synthetic_ready"
    → (any (artifact_is "failed") checks ≡ false)
      × (((topology_status == "topology_blocked") || (topology_status == "manual_review")) ≡ false)
      × (((readiness_status == "not_ready") || (readiness_status == "manual_review")) ≡ false)
      × ((is_true (get manifest "operator_approval_required")
            && not (is_true (get manifest "operator_approval_recorded")))
          ≡ false)
unfolding overall_status
overall_status-stops manifest checks topology_status readiness_status h =
    bundle_chain-ready (any (artifact_is "failed") checks) (topology_status == "topology_blocked")
      (readiness_status == "not_ready") (topology_status == "manual_review")
      (readiness_status == "manual_review") _
      (subst (λ s. (s == "synthetic_ready") ≡ true) (sym h) (eq_refl "synthetic_ready"))

artifact_checks-IsReady :
    (lib : Stdlib) (manifest config topology history readiness : Fields)
    (checks : List ArtifactEntry)
    → artifact_checks lib manifest config topology history readiness ≡ ok checks
    → overall_status manifest checks
        (status_in lib topology_statuses topology)
        (status_in lib readiness_statuses readiness)
      ≡ "synthetic_ready"
    → IsReady lib manifest config topology history readiness
unfolding artifact_checks
artifact_checks-IsReady lib manifest config topology history readiness checks h ready =
    on_ok
      (artifact_check lib "route_config" route_config_schema config manifest
        (validate_route_config lib))
      h
      λ e1 m1 h1.
        on_ok
          (artifact_check lib "topology_report" topology_report_schema topology manifest
            (validate_bundle_topology lib))
          h1
          λ e2 m2 h2.
            on_ok
              (artifact_check lib "route_history" route_history_schema history manifest
                validate_history)
              h2
              λ e3 m3 h3.
                on_ok
                  (artifact_check lib "readiness_report" readiness_report_schema readiness manifest
                    validate_readiness_report)
                  h3
                  λ e4 m4 h4.
                    let (fine, on_topology, on_readiness, on_approval) =
                      overall_status-stops manifest checks _ _ ready in
                    let (g1, (g2, (g3, (g4, _)))) =
                      any-false (artifact_is "failed") (e1 ∷ e2 ∷ e3 ∷ e4 ∷ []) (
                        subst (λ l. any (artifact_is "failed") l ≡ false) (sym (ok-injective h4))
                          fine) in
                    let topology_ok =
                      artifact_check-Matches lib "topology_report" _ _ _ _ e2 m2 g2 in
                    let readiness_ok =
                      artifact_check-Matches lib "readiness_report" _ _ _ _ e4 m4 g4 in
                    record {
                      config_matches = artifact_check-Matches lib "route_config" _ _ _ _ e1 m1 g1;
                      topology_matches = topology_ok;
                      history_matches = artifact_check-Matches lib "route_history" _ _ _ _ e3 m3 g3;
                      readiness_matches = readiness_ok;
                      topology_ready =
                          Known-left lib "topology_ready" "manual_review" "topology_blocked"
                            topology (topology-Known lib topology topology_ok.valid) on_topology;
                      readiness_ready =
                          Known-left lib "ready" "manual_review" "not_ready" readiness
                            (readiness-Known lib readiness readiness_ok.valid) on_readiness;
                      approved = approval _ _ on_approval;
                    }

-- A bundle report says "synthetic_ready" only where each of the four artifacts is accepted by its
-- validator and has the fleet and the source of the manifest, the topology report says
-- "topology_ready", the readiness report says "ready", and an approval that is required is recorded.
pub build_bundle_report-IsReady :
    (lib : Stdlib) (manifest config topology history readiness : Fields) (now : Option String)
    (report : BundleReport)
    → build_bundle_report lib manifest config topology history readiness now ≡ ok report
    → report.overall_status ≡ "synthetic_ready"
    → IsReady lib manifest config topology history readiness
unfolding build_bundle_report
build_bundle_report-IsReady lib manifest config topology history readiness now report h ready =
    on_ok (validate_manifest lib manifest) h λ _ _ h1.
      on_ok (artifact_checks lib manifest config topology history readiness) h1 λ checks made h2.
        artifact_checks-IsReady lib manifest config topology history readiness checks made
          (subst (λ r. r.overall_status ≡ "synthetic_ready") (sym (ok-injective h2)) ready)
