-- ===== src/Intake/Accepted.antt =====
-- When tools/peer_mesh_evidence_intake.py accepts the evidence of a run.
-- Neither rejected nor left to a review.
use mathlib.Core.Path.{subst}
use quest_termux_lab.Base.{
  Bool, Bool-cases, String, [], ap, eq_iff, false, if◌then◌else◌, inl, inr, member, not, refl, sym,
  true, ◌&&◌, ◌==◌, ◌||◌, ◌∙◌, ◌∷◌, ◌≡◌,
}
use quest_termux_lab.Intake.{validator_of}
use quest_termux_lab.Intake.Verdict.{Verdict, identity_check, scope_differs, verdict}
use quest_termux_lab.Py.Dict.{get, py_eq}
use quest_termux_lab.Py.Result.{Error, guard, ok, ok-injective, on_guard, ◌>>◌}
use quest_termux_lab.Py.Value.{Fields, is_text, is_true}

pub record Fine (status : String) : Type 0 where
  pub unrejected : member status ("missing" ∷ "rejected" ∷ []) ≡ false
  pub reviewed : (status == "manual_review") ≡ false

abbrev pub cleanup_open : Fields → Bool
cleanup_open artifact =
    is_text (get artifact "cleanup_status") "manual_review"
    || is_text (get artifact "cleanup_status") "not_started"

abbrev pub distrusted : Fields → Bool
distrusted artifact =
    is_text (get artifact "overall_status") "manual_review"
    || is_text (get artifact "overall_status") "untrusted"

abbrev pub unready : Fields → Fields → Bool
unready manifest artifact =
    is_true (get manifest "require_rehearsal_ready")
    && not (is_text (get artifact "overall_status") "rehearsal_ready")

-- What is true of an artifact of a kind that is accepted.
pub record IsAccepted (manifest : Fields) (kind : String) (artifact : Fields) : Type 0 where
  pub valid : validator_of kind artifact ≡ ok tt
  pub same_fleet : py_eq (get artifact "fleet_id") (get manifest "fleet_id") ≡ true
  pub same_source :
      (kind == "gossip_receipt"
        || py_eq (get artifact "source_agent_id") (get manifest "source_agent_id"))
      ≡ true
  pub rehearsed : (kind == "rehearsal_report" && unready manifest artifact) ≡ false
  pub trusted : (kind == "trust_report" && distrusted artifact) ≡ false
  pub cleaned : (kind == "cleanup_record" && cleanup_open artifact) ≡ false

pub only_at :
    (kind name : String) (b : Bool) → (kind ≡ name → b ≡ false) → (kind == name && b) ≡ false
only_at kind name b h = elim (Bool-cases (kind == name)) [
  | inl same ↦ ap (λ c. c && b) same ∙ h ((eq_iff kind name).0 same)
  | inr other ↦ ap (λ c. c && b) other
]

two_tests :
    (b c : Bool) (x y z v : Verdict)
    → (Fine x.0 → ⊥)
    → (Fine y.0 → ⊥)
    → (if b then x else if c then y else z) ≡ v
    → Fine v.0
    → (b || c) ≡ false
two_tests false false x y z v p q h fine = refl
two_tests false true x y z v p q h fine =
    absurd (q (subst (λ (w : Verdict). Fine w.0) (sym h) fine))
two_tests true c x y z v p q h fine = absurd (p (subst (λ (w : Verdict). Fine w.0) (sym h) fine))

three_tests :
    (r m ready : Bool) (x y z v : Verdict)
    → (Fine x.0 → ⊥)
    → (Fine y.0 → ⊥)
    → (if not r then z else if m then x else if not ready then y else z) ≡ v
    → Fine v.0
    → (r && not ready) ≡ false
three_tests false m ready x y z v p q h fine = refl
three_tests true m true x y z v p q h fine = refl
three_tests true true false x y z v p q h fine =
    absurd (p (subst (λ (w : Verdict). Fine w.0) (sym h) fine))
three_tests true false false x y z v p q h fine =
    absurd (q (subst (λ (w : Verdict). Fine w.0) (sym h) fine))

pub review-bad : Fine "manual_review" → ⊥
review-bad fine = cc fine.reviewed

pub rejected-bad : Fine "rejected" → ⊥
rejected-bad fine = cc fine.unrejected

pub missing-bad : Fine "missing" → ⊥
missing-bad fine = cc fine.unrejected

pub verdict-rehearsed :
    (manifest : Fields) (kind : String) (artifact : Fields) (v : Verdict)
    → verdict manifest kind artifact ≡ ok v
    → Fine v.0
    → kind ≡ "rehearsal_report"
    → unready manifest artifact ≡ false
unfolding verdict
verdict-rehearsed manifest kind artifact v h fine same =
    three_tests (is_true (get manifest "require_rehearsal_ready"))
      (is_text (get artifact "overall_status") "manual_review")
      (is_text (get artifact "overall_status") "rehearsal_ready") _ _ _ v review-bad rejected-bad
      (ok-injective (subst (λ k. verdict manifest k artifact ≡ ok v) same h)) fine

pub verdict-trusted :
    (manifest : Fields) (kind : String) (artifact : Fields) (v : Verdict)
    → verdict manifest kind artifact ≡ ok v
    → Fine v.0
    → kind ≡ "trust_report"
    → distrusted artifact ≡ false
unfolding verdict
verdict-trusted manifest kind artifact v h fine same =
    two_tests (is_text (get artifact "overall_status") "manual_review")
      (is_text (get artifact "overall_status") "untrusted") _ _ _ v review-bad rejected-bad
      (ok-injective (subst (λ k. verdict manifest k artifact ≡ ok v) same h)) fine

pub verdict-cleaned :
    (manifest : Fields) (kind : String) (artifact : Fields) (v : Verdict)
    → verdict manifest kind artifact ≡ ok v
    → Fine v.0
    → kind ≡ "cleanup_record"
    → cleanup_open artifact ≡ false
unfolding verdict
verdict-cleaned manifest kind artifact v h fine same =
    two_tests (is_text (get artifact "cleanup_status") "manual_review")
      (is_text (get artifact "cleanup_status") "not_started") _ _ _ v review-bad review-bad
      (ok-injective (subst (λ k. verdict manifest k artifact ≡ ok v) same h)) fine

source_shape :
    (receipt same scoped : Bool) (e1 e2 : Error) (u : Unit {0})
    → (if receipt then ok tt else guard same e1 >> guard scoped e2) ≡ ok u
    → (receipt || same) ≡ true
source_shape true same scoped e1 e2 u h = refl
source_shape false true scoped e1 e2 u h = refl
source_shape false false scoped e1 e2 u h = absurd (cc h)

pub identity_check-same :
    (kind : String) (artifact manifest : Fields) {u : Unit {0}}
    → identity_check kind artifact manifest ≡ ok u
    → (py_eq (get artifact "fleet_id") (get manifest "fleet_id") ≡ true)
      × ((kind == "gossip_receipt"
            || py_eq (get artifact "source_agent_id") (get manifest "source_agent_id"))
          ≡ true)
unfolding identity_check
identity_check-same kind artifact manifest {u} h =
    on_guard (py_eq (get artifact "fleet_id") (get manifest "fleet_id")) _ h λ fleet h1. (
      fleet,
      source_shape (kind == "gossip_receipt")
          (py_eq (get artifact "source_agent_id") (get manifest "source_agent_id"))
          (not (scope_differs artifact manifest)) _ _ u h1,
    )
