-- ===== src/Bundle/Matches.antt =====
-- The artifacts that tools/peer_mesh_lab_bundle.py accepts.
use mathlib.Core.Path.{subst}
use quest_termux_lab.Base.{String, false, refl, sym, true, ◌≡◌}
use quest_termux_lab.Bundle.{
  ArtifactEntry, artifact_check, artifact_entry, artifact_is, check_artifact,
}
use quest_termux_lab.Py.Dict.{get, py_eq}
use quest_termux_lab.Py.Result.{Check, err, ok, ok-injective, on_guard, on_ok, value_error}
use quest_termux_lab.Py.Stdlib.{Stdlib}
use quest_termux_lab.Py.Value.{Fields, is_text}

entry-passed :
    (lib : Stdlib) (artifact_id schema : String) (payload : Fields) (checked : Check)
    (entry : ArtifactEntry)
    → artifact_entry lib artifact_id schema payload checked ≡ ok entry
    → artifact_is "failed" entry ≡ false
    → checked ≡ ok tt
unfolding artifact_entry
entry-passed lib artifact_id schema payload (ok u) entry h good = refl
entry-passed lib artifact_id schema payload (err (value_error message)) entry h good =
    absurd (cc (subst (λ e. artifact_is "failed" e ≡ false) (sym (ok-injective h)) good))
entry-passed lib artifact_id schema payload (err e) entry h good = absurd (cc h)

-- An artifact that its validator accepts and that has the identity of the manifest.
pub record Matches (manifest payload : Fields) (validator : Fields → Check) : Type 0 where
  pub valid : validator payload ≡ ok tt
  pub same_fleet : py_eq (get payload "fleet_id") (get manifest "fleet_id") ≡ true
  pub same_source : py_eq (get payload "source_agent_id") (get manifest "source_agent_id") ≡ true

check_artifact-Matches :
    (artifact_id schema : String) (payload manifest : Fields) (validator : Fields → Check)
    → check_artifact artifact_id schema payload manifest validator ≡ ok tt
    → Matches manifest payload validator
unfolding check_artifact
check_artifact-Matches artifact_id schema payload manifest validator h =
    on_ok (validator payload) h λ _ valid h1.
      on_guard (is_text (get payload "schema") schema) _ h1 λ _ h2.
        on_guard (py_eq (get payload "fleet_id") (get manifest "fleet_id")) _ h2 λ fleet h3.
          on_guard (py_eq (get payload "source_agent_id") (get manifest "source_agent_id")) _ h3
            λ source _. record { valid = valid; same_fleet = fleet; same_source = source }

pub artifact_check-Matches :
    (lib : Stdlib) (artifact_id schema : String) (payload manifest : Fields)
    (validator : Fields → Check) (entry : ArtifactEntry)
    → artifact_check lib artifact_id schema payload manifest validator ≡ ok entry
    → artifact_is "failed" entry ≡ false
    → Matches manifest payload validator
unfolding artifact_check
artifact_check-Matches lib artifact_id schema payload manifest validator entry h good =
    check_artifact-Matches artifact_id schema payload manifest validator
      (entry-passed lib artifact_id schema payload _ entry h good)
