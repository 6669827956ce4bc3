-- ===== src/Bundle/Tests.antt =====
-- Runs of the lab bundle.
use quest_termux_lab.Base.{List, String, [], none, refl, true, ◌++◌, ◌∷◌, ◌≡◌}
use quest_termux_lab.Bundle.{BundleReport, build_bundle_report, lab_bundle_manifest_schema}
use quest_termux_lab.Bundle.Ready.{IsReady, build_bundle_report-IsReady}
use quest_termux_lab.Dispatch.{route_config_schema}
use quest_termux_lab.Gossip.Envelope.{contains_forbidden_key, dict_or, forbidden_key}
use quest_termux_lab.Health.History.{route_history_schema}
use quest_termux_lab.Py.Dict.{keys, py_eq}
use quest_termux_lab.Py.Result.{Result, is_ok, ok, value_of}
use quest_termux_lab.Py.Sample.{past_text, sample_lib}
use quest_termux_lab.Py.Value.{Fields, Value, array, bool, dict, end, field, nat, obj, str}
use quest_termux_lab.Readiness.{history_summary_fields, readiness_report_schema}
use quest_termux_lab.Topology.{topology_report_schema}
use quest_termux_lab.Topology.Validate.{topology_counts}

abbrev identity : String → List (String × Value)
identity schema =
    ("schema", str schema)
    ∷ ("fleet_id", str "f1")
    ∷ ("source_agent_id", str "a1")
    ∷ ("observed_at", str past_text)
    ∷ []

abbrev scope : String × Value
scope = ("experiment_scope", str "private_configured_peer_gossip_only")

abbrev zeros : List String → Fields
zeros [] = end
zeros (key ∷ keys) = field key (nat 0) (zeros keys)

abbrev bundle_manifest : Fields
bundle_manifest = dict (
    identity lab_bundle_manifest_schema
    ++ (("experiment_id", str "e1")
        ∷ scope
        ∷ ("operator_approval_required", bool true)
        ∷ ("operator_approval_recorded", bool true)
        ∷ (
          "artifact_paths",
          obj (
              dict (
                ("route_config", str "routes.json")
                ∷ ("topology_report", str "topology.json")
                ∷ ("route_history", str "history.json")
                ∷ ("readiness_report", str "readiness.json")
                ∷ [])),
        )
        ∷ (
          "expected_artifact_schemas",
          obj (
              dict (
                ("route_config", str route_config_schema)
                ∷ ("topology_report", str topology_report_schema)
                ∷ ("route_history", str route_history_schema)
                ∷ ("readiness_report", str readiness_report_schema)
                ∷ [])),
        )
        ∷ []))

abbrev empty_config : Fields
empty_config = dict (identity route_config_schema ++ (("routes", array []) ∷ []))

abbrev topology_document : String → Fields
topology_document status = dict (
    identity topology_report_schema
    ++ (("topology_id", str "t1")
        ∷ scope
        ∷ ("overall_status", str status)
        ∷ ("checks", array [])
        ∷ ("expected_agent_ids", array (str "a1" ∷ []))
        ∷ ("edges", array [])
        ∷ ("summary", obj (zeros topology_counts))
        ∷ []))

abbrev history_document : Fields
history_document = dict (
    identity route_history_schema
    ++ (("report_count", nat 1)
        ∷ ("routes", array [])
        ∷ ("summary", obj (zeros history_summary_fields))
        ∷ []))

abbrev readiness_document : Fields
readiness_document = dict (
    identity readiness_report_schema
    ++ (scope
        ∷ ("overall_status", str "ready")
        ∷ (
          "summary",
          obj (zeros ("route_count" ∷ "ready_route_count" ∷ "not_ready_route_count" ∷ [])),
        )
        ∷ []))

abbrev bundle_on : String → Result BundleReport
bundle_on status =
    build_bundle_report sample_lib bundle_manifest empty_config (topology_document status)
      history_document readiness_document none

bundle_made : is_ok (bundle_on "topology_ready") ≡ true
unfolding build_bundle_report contains_forbidden_key forbidden_key py_eq dict_or
bundle_made = refl

build_bundle_report-IsReady_example :
    IsReady sample_lib bundle_manifest empty_config
      (topology_document "topology_ready")
      history_document
      readiness_document
unfolding build_bundle_report contains_forbidden_key forbidden_key py_eq dict_or
build_bundle_report-IsReady_example =
    build_bundle_report-IsReady sample_lib bundle_manifest empty_config
      (topology_document "topology_ready") history_document readiness_document none
      (value_of (bundle_on "topology_ready") bundle_made) refl refl

-- A blocked topology blocks the bundle.
blocked :
    (r : BundleReport) × (bundle_on "topology_blocked" ≡ ok r) × (r.overall_status ≡ "blocked")
unfolding build_bundle_report contains_forbidden_key forbidden_key py_eq dict_or
blocked = (_, refl, refl)
