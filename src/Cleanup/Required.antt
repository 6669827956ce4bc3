-- ===== src/Cleanup/Required.antt =====
-- When tools/peer_mesh_cleanup_plan.py finds a plan ready.
-- Some declared step is required and of this kind.
use mathlib.Core.Path.{subst}
use quest_termux_lab.Base.{
  All, All-imp, Bool, Bool-cases, List, Option, String, [], any, ap, different, eq_iff, false,
  if◌then◌else◌, inl, inr, keep, map, member, not, or_false, refl, sym, true, ◌&&◌, ◌++◌, ◌==◌,
  ◌||◌, ◌↔◌, ◌∙◌, ◌∷◌, ◌≡◌,
}
use quest_termux_lab.Cleanup.{
  CleanupPlanReport, StepEntry, build_cleanup_plan_report, is_required_kind, kinds_where,
  missing_entry, missing_required_entries, overall_status, plan_entries, required_cleanup_kinds,
  step_entries, step_entry, step_is, validate_manifest,
}
use quest_termux_lab.Py.Dict.{get, list_of}
use quest_termux_lab.Py.Result.{ok, ok-injective, on_ok}
use quest_termux_lab.Py.Stdlib.{Stdlib}
use quest_termux_lab.Py.Value.{Fields, Value, arr, bool, float, int, null, obj, str}

abbrev pub covers : List StepEntry → String → Bool
covers declared kind = any (λ e. e.required && e.cleanup_kind == kind) declared

planned-not-missing : (vs : List Value) → any (step_is "missing") (step_entries vs) ≡ false
unfolding step_entries step_entry
planned-not-missing [] = refl
planned-not-missing (obj step ∷ vs) = planned-not-missing vs
planned-not-missing (arr v ∷ vs) = planned-not-missing vs
planned-not-missing (null ∷ vs) = planned-not-missing vs
planned-not-missing (bool b ∷ vs) = planned-not-missing vs
planned-not-missing (int z ∷ vs) = planned-not-missing vs
planned-not-missing (float t ∷ vs) = planned-not-missing vs
planned-not-missing (str s ∷ vs) = planned-not-missing vs

-- Between the kinds of the required steps that are required kinds, and the required steps.
abbrev pub declared_kinds : List StepEntry → List String
declared_kinds declared = kinds_where (λ e. e.required && is_required_kind e) declared

-- An entry that is kept adds its kind, and one that is not kept has another.
kinds-keep :
    (e : StepEntry) (kept : List StepEntry) (kind : String) (asked needed rest : Bool)
    → ((e.cleanup_kind == kind) ≡ true → needed ≡ true)
    → member kind (map (λ k. k.cleanup_kind) kept) ≡ rest
    → member kind (map (λ k. k.cleanup_kind) (if asked && needed then e ∷ kept else kept))
      ≡ (asked && e.cleanup_kind == kind || rest)
kinds-keep e kept kind false needed rest h same = same
kinds-keep e kept kind true true rest h same = ap (λ b. e.cleanup_kind == kind || b) same
kinds-keep e kept kind true false rest h same = elim (Bool-cases (e.cleanup_kind == kind)) [
  | inl equal ↦ absurd (cc (h equal))
  | inr other ↦ same ∙ sym (ap (λ b. b || rest) other)
]

-- A kind that every plan needs is among the declared ones exactly where a step covers it.
member-covers :
    (declared : List StepEntry) (kind : String)
    → member kind required_cleanup_kinds ≡ true
    → member kind (declared_kinds declared) ≡ covers declared kind
member-covers [] kind h = refl
member-covers (e ∷ declared) kind h =
    kinds-keep e (keep (λ k. k.required && is_required_kind k) declared) kind e.required
      (is_required_kind e) (covers declared kind)
      (λ equal.
        subst (λ k. member k required_cleanup_kinds ≡ true)
          (sym ((eq_iff e.cleanup_kind kind).0 equal)) h)
      (member-covers declared kind h)

-- No entry is made for a kind that is met, and one for each other.
none_missing-All :
    (met : String → Bool) (kinds : List String)
    → any (step_is "missing") (map missing_entry (keep (λ k. not (met k)) kinds)) ≡ false
    → All (λ k. met k ≡ true) kinds
none_missing-All met [] h = tt
none_missing-All met (k ∷ kinds) h = elim (Bool-cases (met k)) [
  | inl yes_met ↦ (
    yes_met,
    none_missing-All met kinds (
        subst
          (λ b.
            any (step_is "missing") (
              map missing_entry (
                if not b then k ∷ keep (λ k. not (met k)) kinds else keep (λ k. not (met k)) kinds))
            ≡ false)
          yes_met h),
  )
  | inr unmet ↦ absurd (
      cc (
        subst
          (λ b.
            any (step_is "missing") (
              map missing_entry (
                if not b then k ∷ keep (λ k. not (met k)) kinds else keep (λ k. not (met k)) kinds))
            ≡ false)
          unmet h))
]

All-none_missing :
    (met : String → Bool) (kinds : List String)
    → All (λ k. met k ≡ true) kinds
    → any (step_is "missing") (map missing_entry (keep (λ k. not (met k)) kinds)) ≡ false
All-none_missing met [] h = refl
All-none_missing met (k ∷ kinds) (here, there) =
    subst
      (λ b.
        any (step_is "missing") (
          map missing_entry
            (if not b then k ∷ keep (λ k. not (met k)) kinds else keep (λ k. not (met k)) kinds))
        ≡ false)
      (sym here) (All-none_missing met kinds there)

All-same :
    (p q : String → Bool) (kinds : List String)
    → All (λ k. p k ≡ q k) kinds
    → All (λ k. p k ≡ true) kinds
    → All (λ k. q k ≡ true) kinds
All-same p q [] same h = tt
All-same p q (k ∷ kinds) (same, others) (here, there) =
    (sym same ∙ here, All-same p q kinds others there)

abbrev ready : String
ready = "cleanup_plan_ready"

-- Whether an entry is missing decides the status.
ready-nothing_missing :
    (missing : Bool) → (if missing then "cleanup_plan_blocked" else ready) ≡ ready → missing ≡ false
ready-nothing_missing false h = refl
ready-nothing_missing true h = absurd (different _ _ refl h)

any-append_false :
    (p : StepEntry → Bool) (xs ys : List StepEntry) → any p xs ≡ false → any p (xs ++ ys) ≡ any p ys
any-append_false p [] ys h = refl
any-append_false p (x ∷ xs) ys h =
    let (here, there) = or_false (p x) (any p xs) h in
    ap (λ b. b || any p (xs ++ ys)) here ∙ any-append_false p xs ys there

all_same :
    (declared : List StepEntry)
    → All (λ k. member k (declared_kinds declared) ≡ covers declared k) required_cleanup_kinds
all_same declared = (
  member-covers declared "clear_ephemeral_inbox" refl,
  (
    member-covers declared "clear_ephemeral_outbox" refl,
    (
      member-covers declared "confirm_peer_transport_stopped" refl,
      (
        member-covers declared "operator_review" refl,
        (member-covers declared "record_cleanup_record" refl, tt),
      ),
    ),
  ),
)

-- The declared steps are planned, so the entries made for missing kinds decide the status.
overall_status-ready :
    (steps : List Value)
    → (overall_status (plan_entries (step_entries steps)) ≡ ready)
      ↔ All (λ kind. covers (step_entries steps) kind ≡ true) required_cleanup_kinds
unfolding overall_status plan_entries missing_required_entries
overall_status-ready steps =
    let declared = step_entries steps in
    let met : String → Bool = λ kind. member kind (declared_kinds declared) in
    let made = map missing_entry (keep (λ k. not (met k)) required_cleanup_kinds) in
    let only_made =
      any-append_false (step_is "missing") declared made (planned-not-missing steps) in
    (
      (λ h. All-same met (covers declared) required_cleanup_kinds (all_same declared) (
          none_missing-All met required_cleanup_kinds (
            sym only_made ∙ ready-nothing_missing (any (step_is "missing") (declared ++ made)) h))),
      (λ h.
          ap (λ b. if b then "cleanup_plan_blocked" else ready)
            (only_made
              ∙ All-none_missing met required_cleanup_kinds (
                  All-same (covers declared) met required_cleanup_kinds
                    (All-imp (λ k. met k ≡ covers declared k) (λ k. covers declared k ≡ met k)
                      (λ k same. sym same) required_cleanup_kinds (all_same declared))
                    h))),
    )

-- Where a cleanup plan report is made over some declared steps, it says "cleanup_plan_ready" exactly
-- if each kind that a plan needs is the kind of a declared step that is marked as required.
pub build_cleanup_plan_report-ready :
    (lib : Stdlib) (manifest : Fields) (steps : List Value) (now : Option String)
    (report : CleanupPlanReport)
    → list_of (get manifest "cleanup_steps") ≡ ok steps
    → build_cleanup_plan_report lib manifest now ≡ ok report
    → (report.overall_status ≡ ready)
      ↔ All (λ kind. covers (step_entries steps) kind ≡ true) required_cleanup_kinds
unfolding build_cleanup_plan_report
build_cleanup_plan_report-ready lib manifest steps now report listed made =
    on_ok (validate_manifest lib manifest) made λ checked _ h1.
      on_ok (list_of (get manifest "cleanup_steps")) h1 λ found same h2.
        subst
          (λ (r : CleanupPlanReport).
            (r.overall_status ≡ ready)
            ↔ All (λ kind. covers (step_entries steps) kind ≡ true) required_cleanup_kinds)
          (ok-injective h2)
          (subst
            (λ vs.
              (overall_status (plan_entries (step_entries vs)) ≡ ready)
              ↔ All (λ kind. covers (step_entries steps) kind ≡ true) required_cleanup_kinds)
            (ok-injective (sym listed ∙ same)) (overall_status-ready steps))
