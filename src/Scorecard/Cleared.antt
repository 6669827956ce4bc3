-- ===== src/Scorecard/Cleared.antt =====
-- When tools/peer_mesh_scorecard.py finds the evidence clear.
-- Neither blocked nor left to a review.
use mathlib.Core.Path.{subst}
use quest_termux_lab.Base.{Bool, String, ap, false, if◌then◌else◌, refl, sym, true, ◌==◌, ◌∙◌, ◌≡◌}
use quest_termux_lab.Py.Dict.{get, item, item-eq-ok, or_default}
use quest_termux_lab.Py.Result.{Result, ok, ok-injective, on_ok, ◌>>=◌}
use quest_termux_lab.Py.Stdlib.{Stdlib, text_of}
use quest_termux_lab.Py.Value.{Fields, Value, null}
use quest_termux_lab.Scorecard.Build.{graded_by, status_from_artifact, status_text}
use quest_termux_lab.Scorecard.Card.{Score, cleanup_score, graded}

pub record Unblocked (status : String) : Type 0 where
  pub unblocked : (status == "blocked") ≡ false
  pub reviewed : (status == "manual_review") ≡ false

pub blocked-bad : Unblocked "blocked" → ⊥
blocked-bad u = cc u.unblocked

manual-bad : Unblocked "manual_review" → ⊥
manual-bad u = cc u.reviewed

-- A score that neither blocks nor asks for a review.
abbrev pub Clears : Result Score → Type 0
Clears scored = (s : Score) × ((scored ≡ ok s) × Unblocked s.status)

item-get : (d : Fields) (k : String) (v : Value) → item d k ≡ ok v → get d k ≡ v
item-get d k v h = ap (or_default null) (item-eq-ok d k v h)

-- The first of three scores, where the others block or ask for a review.
grade_shape :
    (x m : Bool) (a b c : Score)
    → (Unblocked b.status → ⊥)
    → (Unblocked c.status → ⊥)
    → Unblocked (if x then a else if m then b else c).status
    → x ≡ true
grade_shape true m a b c p q u = refl
grade_shape false true a b c p q u = absurd (p u)
grade_shape false false a b c p q u = absurd (q u)

graded_by-good :
    (lib : Stdlib) (artifact : Fields) (good c r b : String)
    → Clears (graded_by lib artifact (graded good c r b))
    → (text_of lib (get artifact "overall_status") == good) ≡ true
unfolding graded
graded_by-good lib artifact good c r b (s, (h, u)) =
    on_ok (status_text lib artifact "overall_status") h λ source read h1.
      on_ok (item artifact "overall_status") read λ v found h2.
        let here : source ≡ text_of lib (get artifact "overall_status") =
          sym (ok-injective h2)
          ∙ ap (text_of lib) (sym (item-get artifact "overall_status" v found)) in
        subst (λ t. (t == good) ≡ true) here
          (grade_shape (source == good) (source == "manual_review") _ _ _ manual-bad blocked-bad
            (subst (λ (x : Score). Unblocked x.status) (sym (ok-injective h1)) u))

two_shape :
    (x : Bool) (a b : Score)
    → (Unblocked b.status → ⊥)
    → Unblocked (if x then a else b).status
    → x ≡ true
two_shape true a b p u = refl
two_shape false a b p u = absurd (p u)

cleanup-good :
    (lib : Stdlib) (artifact : Fields)
    → Clears (status_text lib artifact "cleanup_status" >>= λ source. ok (cleanup_score source))
    → (text_of lib (get artifact "cleanup_status") == "completed") ≡ true
unfolding cleanup_score
cleanup-good lib artifact (s, (h, u)) =
    on_ok (status_text lib artifact "cleanup_status") h λ source read h1.
      on_ok (item artifact "cleanup_status") read λ v found h2.
        let here : source ≡ text_of lib (get artifact "cleanup_status") =
          sym (ok-injective h2)
          ∙ ap (text_of lib) (sym (item-get artifact "cleanup_status" v found)) in
        subst (λ t. (t == "completed") ≡ true) here
          (two_shape (source == "completed") _ _ manual-bad
            (subst (λ (x : Score). Unblocked x.status) (sym (ok-injective h1)) u))

branch :
    (k : Bool) (g rest : Result Score) (p q : Bool)
    → (Clears g → p ≡ true)
    → (Clears rest → q ≡ true)
    → Clears (if k then g else rest)
    → (if k then p else q) ≡ true
branch true g rest p q here there c = here c
branch false g rest p q here there c = there c

-- The status that an artifact of a kind has to have, whatever else it holds.
abbrev pub has_good_status : Stdlib → String → Fields → Bool
has_good_status lib kind artifact =
    let overall = text_of lib (get artifact "overall_status") in
    if kind == "readiness_report"
    then overall == "ready"
    else if kind == "lab_bundle_report"
    then overall == "synthetic_ready"
    else if kind == "trust_report"
    then overall == "trusted"
    else if kind == "rehearsal_report"
    then overall == "rehearsal_ready"
    else if kind == "evidence_intake_report"
    then overall == "accepted"
    else if kind == "route_health_report"
    then true
    else if kind == "route_history_report"
    then true
    else if kind == "cleanup_record"
    then text_of lib (get artifact "cleanup_status") == "completed"
    else true

pub status_from_artifact-good :
    (lib : Stdlib) (kind : String) (artifact : Fields)
    → Clears (status_from_artifact lib kind artifact)
    → has_good_status lib kind artifact ≡ true
unfolding status_from_artifact
status_from_artifact-good lib kind artifact =
    branch (kind == "readiness_report") _ _ _ _ (graded_by-good lib artifact _ _ _ _) (
      branch (kind == "lab_bundle_report") _ _ _ _ (graded_by-good lib artifact _ _ _ _) (
        branch (kind == "trust_report") _ _ _ _ (graded_by-good lib artifact _ _ _ _) (
          branch (kind == "rehearsal_report") _ _ _ _ (graded_by-good lib artifact _ _ _ _) (
            branch (kind == "evidence_intake_report") _ _ _ _ (graded_by-good lib artifact _ _ _ _)
              (branch (kind == "route_health_report") _ _ _ _ (λ _. refl)
                (branch (kind == "route_history_report") _ _ _ _ (λ _. refl)
                  (branch (kind == "cleanup_record") _ _ _ _ (cleanup-good lib artifact)
                    (λ _. refl))))))))
