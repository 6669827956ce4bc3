-- ===== src/Agent/Tests.antt =====
-- The theorems on scripts/termux_fleet_agent.py at a concrete command.
use quest_termux_lab.Agent.Admission.{dispatched, execute_command}
use quest_termux_lab.Agent.Gates.{
  Covers, Passed, execute_command-Covers, execute_command-Passed,
  validate_remote_session_lease-Covers,
}
use quest_termux_lab.Agent.Policy.{validate_remote_session_lease}
use quest_termux_lab.Base.{[], none, refl, ◌∷◌, ◌≡◌}
use quest_termux_lab.Fleet.Payload.{command_schema}
use quest_termux_lab.Py.Dict.{py_eq}
use quest_termux_lab.Py.Result.{ok}
use quest_termux_lab.Py.Sample.{future_text, sample_lib, utc}
use quest_termux_lab.Py.Value.{Fields, array, dict, obj, str}

abbrev sample_command : Fields
sample_command = dict (
    ("schema", str command_schema)
    ∷ ("target_agent_id", str "quest-1")
    ∷ ("expires_at", str future_text)
    ∷ ("kind", str "adb.self_check")
    ∷ ("remote_session_lease_id", str "lease-1")
    ∷ [])

abbrev sample_config : Fields
sample_config = dict (
    ("agent_id", str "quest-1")
    ∷ ("fleet_id", str "lab")
    ∷ ("allowed_command_kinds", array (str "adb.self_check" ∷ []))
    ∷ (
      "active_remote_session_leases",
      array (
          obj (
            dict (
              ("lease_id", str "lease-1")
              ∷ ("fleet_id", str "lab")
              ∷ ("expires_at", str future_text)
              ∷ ("command_scopes", array (str "adb.self_check" ∷ []))
              ∷ []))
          ∷ []),
    )
    ∷ [])

dispatch_test :
    execute_command sample_lib (utc 5000) (utc 5000) sample_config sample_command
    ≡ ok (dispatched "adb.self_check")
unfolding execute_command py_eq
dispatch_test = refl

lease_test :
    validate_remote_session_lease sample_lib
      (utc 5000)
      sample_config
      sample_command
      "adb.self_check"
    ≡ ok none
unfolding validate_remote_session_lease py_eq
lease_test = refl

execute_command-Passed_example :
    Passed sample_lib (utc 5000) (utc 5000) sample_config sample_command "adb.self_check"
execute_command-Passed_example =
    execute_command-Passed sample_lib (utc 5000) (utc 5000) sample_config sample_command
      "adb.self_check" dispatch_test

execute_command-Covers_example :
    (lease : Fields) × Covers sample_lib
      (utc 5000)
      sample_config
      sample_command
      "adb.self_check"
      lease
execute_command-Covers_example =
    execute_command-Covers sample_lib (utc 5000) (utc 5000) sample_config sample_command
      "adb.self_check" refl dispatch_test

validate_remote_session_lease-Covers_example :
    (lease : Fields) × Covers sample_lib
      (utc 5000)
      sample_config
      sample_command
      "adb.self_check"
      lease
validate_remote_session_lease-Covers_example =
    validate_remote_session_lease-Covers sample_lib (utc 5000) sample_config sample_command
      "adb.self_check" refl lease_test
