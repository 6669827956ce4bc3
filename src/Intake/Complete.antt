-- ===== src/Intake/Complete.antt =====
-- What an evidence report that says "accepted" shows.
use mathlib.Core.Path.{subst}
use quest_termux_lab.Base.{
  All, All-append, Bool, List, Option, String, [], any, any-false, ap, different, false,
  if◌then◌else◌, member, refl, sym, true, ◌∙◌, ◌∷◌, ◌≡◌,
}
use quest_termux_lab.Intake.{evidence_schemas, kinds_at, validate_manifest, validator_of}
use quest_termux_lab.Intake.Accepted.{
  Fine, IsAccepted, cleanup_open, distrusted, identity_check-same, missing-bad, only_at,
  rejected-bad, review-bad, unready, verdict-cleaned, verdict-rehearsed, verdict-trusted,
}
use quest_termux_lab.Intake.Verdict.{
  ArtifactEntry, EvidenceReport, Verdict, all_entries, artifact_entries, build_evidence_report,
  caught_entry, entries_of, entry_is, identity_check, is_rejected, judge_artifact, or_nothing,
  ordered_kinds, overall_status, schema_or_error,
}
use quest_termux_lab.Py.Dict.{Table, get, lookup}
use quest_termux_lab.Py.Result.{
  Result, err, key_error, map_ok, ok, ok-injective, on_guard, on_ok, overflow_error, type_error,
  value_error,
}
use quest_termux_lab.Py.Stdlib.{Stdlib}
use quest_termux_lab.Py.Value.{Fields, is_text}

judged-IsAccepted :
    (manifest : Fields) (kind schema : String) (artifact : Fields) (v : Verdict)
    → judge_artifact manifest kind schema artifact ≡ ok v
    → Fine v.0
    → IsAccepted manifest kind artifact
unfolding judge_artifact identity_check
judged-IsAccepted manifest kind schema artifact v h fine =
    on_ok (validator_of kind artifact) h λ _ valid h1.
      on_guard (is_text (get artifact "schema") schema) _ h1 λ _ h2.
        on_ok (identity_check kind artifact manifest) h2 λ _ identity h3.
          let (fleet, source) = identity_check-same kind artifact manifest identity in
          record {
            valid = valid;
            same_fleet = fleet;
            same_source = source;
            rehearsed =
                only_at kind "rehearsal_report" (unready manifest artifact)
                  (verdict-rehearsed manifest kind artifact v h3 fine);
            trusted =
                only_at kind "trust_report" (distrusted artifact)
                  (verdict-trusted manifest kind artifact v h3 fine);
            cleaned =
                only_at kind "cleanup_record" (cleanup_open artifact)
                  (verdict-cleaned manifest kind artifact v h3 fine);
          }

caught_entry-judged :
    (lib : Stdlib) (kind schema : String) (artifact : Fields) (judged : Result Verdict)
    (entry : ArtifactEntry)
    → caught_entry lib kind schema artifact judged ≡ ok entry
    → Fine entry.status
    → (v : Verdict) × ((judged ≡ ok v) × Fine v.0)
unfolding caught_entry
caught_entry-judged lib kind schema artifact (ok v) entry h fine =
    (v, (refl, subst (λ (e : ArtifactEntry). Fine e.status) (sym (ok-injective h)) fine))
caught_entry-judged lib kind schema artifact (err (value_error message)) entry h fine =
    absurd (rejected-bad (subst (λ (e : ArtifactEntry). Fine e.status) (sym (ok-injective h)) fine))
caught_entry-judged lib kind schema artifact (err (key_error k)) entry h fine = absurd (cc h)
caught_entry-judged lib kind schema artifact (err type_error) entry h fine = absurd (cc h)
caught_entry-judged lib kind schema artifact (err overflow_error) entry h fine = absurd (cc h)

-- An entry that does not stand in the way of the run's acceptance.
abbrev AllFine : List ArtifactEntry → Type 0
AllFine entries = All (λ (e : ArtifactEntry). Fine e.status) entries

caught_entries-IsAccepted :
    (lib : Stdlib) (manifest : Fields) (kind schema : String) (artifacts : List Fields)
    (entries : List ArtifactEntry)
    → map_ok (λ a. caught_entry lib kind schema a (judge_artifact manifest kind schema a)) artifacts
      ≡ ok entries
    → AllFine entries
    → All (IsAccepted manifest kind) artifacts
caught_entries-IsAccepted lib manifest kind schema [] entries h fine = tt
caught_entries-IsAccepted lib manifest kind schema (a ∷ artifacts) entries h fine =
    let judged = judge_artifact manifest kind schema a in
    on_ok (caught_entry lib kind schema a judged) h λ entry made h1.
      on_ok
        (map_ok (λ a. caught_entry lib kind schema a (judge_artifact manifest kind schema a))
          artifacts)
        h1
        λ others made_others h2.
          let (here, there) = subst AllFine (sym (ok-injective h2)) fine in
          let (v, (found, fine_v)) = caught_entry-judged lib kind schema a judged entry made here in
          (
            judged-IsAccepted manifest kind schema a v found fine_v,
            caught_entries-IsAccepted lib manifest kind schema artifacts others made_others there,
          )

-- There are artifacts of a kind, and each is accepted.
abbrev pub IsSupplied : Fields → String → List Fields → Type 0
IsSupplied manifest kind [] = ⊥
IsSupplied manifest kind (a ∷ artifacts) = All (IsAccepted manifest kind) (a ∷ artifacts)

absent-bad : (required : Bool) → Fine (if required then "missing" else "manual_review") → ⊥
absent-bad true fine = missing-bad fine
absent-bad false fine = review-bad fine

entries_of-IsSupplied :
    (lib : Stdlib) (manifest : Fields) (kind schema : String) (artifacts : List Fields)
    (entries : List ArtifactEntry)
    → entries_of lib manifest kind schema artifacts ≡ ok entries
    → AllFine entries
    → IsSupplied manifest kind artifacts
unfolding entries_of
entries_of-IsSupplied lib manifest kind schema [] entries h fine = absurd (
    absent-bad (member kind (kinds_at manifest "required_artifact_kinds"))
      (subst AllFine (sym (ok-injective h)) fine).0)
entries_of-IsSupplied lib manifest kind schema (a ∷ artifacts) entries h fine =
    caught_entries-IsAccepted lib manifest kind schema (a ∷ artifacts) entries h fine

artifact_entries-IsSupplied :
    (lib : Stdlib) (manifest : Fields) (kind : String) (artifacts : List Fields)
    (entries : List ArtifactEntry)
    → artifact_entries lib kind manifest artifacts ≡ ok entries
    → AllFine entries
    → IsSupplied manifest kind artifacts
unfolding artifact_entries
artifact_entries-IsSupplied lib manifest kind artifacts entries h fine =
    on_ok (schema_or_error kind (lookup evidence_schemas kind)) h
      λ schema _ h1. entries_of-IsSupplied lib manifest kind schema artifacts entries h1 fine

all_entries-IsSupplied :
    (lib : Stdlib) (manifest : Fields) (by_kind : Table (List Fields)) (kinds : List String)
    (entries : List ArtifactEntry)
    → all_entries lib manifest by_kind kinds ≡ ok entries
    → AllFine entries
    → All (λ kind. IsSupplied manifest kind (or_nothing (lookup by_kind kind))) kinds
unfolding all_entries
all_entries-IsSupplied lib manifest by_kind [] entries h fine = tt
all_entries-IsSupplied lib manifest by_kind (kind ∷ kinds) entries h fine =
    let given = or_nothing (lookup by_kind kind) in
    on_ok (artifact_entries lib kind manifest given) h λ here made h1.
      on_ok (all_entries lib manifest by_kind kinds) h1 λ others made_others h2.
        let (fine_here, fine_others) =
          All-append (λ (e : ArtifactEntry). Fine e.status) here others
            (subst AllFine (sym (ok-injective h2)) fine) in
        (
          artifact_entries-IsSupplied lib manifest kind given here made fine_here,
          all_entries-IsSupplied lib manifest by_kind kinds others made_others fine_others,
        )

all-Fine :
    (entries : List ArtifactEntry)
    → All (λ e. is_rejected e ≡ false) entries
    → All (λ e. entry_is "manual_review" e ≡ false) entries
    → AllFine entries
all-Fine [] h k = tt
all-Fine (e ∷ entries) (h, hs) (k, ks) =
    (record { unrejected = h; reviewed = k }, all-Fine entries hs ks)

abbrev accepted_text : String
accepted_text = "accepted"

accepted_chain :
    (a b : Bool)
    → (if a then "rejected" else if b then "manual_review" else accepted_text) ≡ accepted_text
    → (a ≡ false) × (b ≡ false)
accepted_chain false false h = (refl, refl)
accepted_chain true b h = absurd (different "rejected" "accepted" refl h)
accepted_chain false true h = absurd (different "manual_review" "accepted" refl h)

overall_status-AllFine :
    (entries : List ArtifactEntry) → overall_status entries ≡ "accepted" → AllFine entries
unfolding overall_status
overall_status-AllFine entries h =
    let (a, b) =
      accepted_chain (any is_rejected entries) (any (entry_is "manual_review") entries) h in
    all-Fine entries (any-false is_rejected entries a)
      (any-false (entry_is "manual_review") entries b)

-- If an evidence report is made and says "accepted", then of each kind that the manifest requires or
-- lists as optional there is an artifact, and each of those is valid, is of the manifest's fleet and,
-- but for a receipt, of its source, is a rehearsal report only if ready where that is asked for, a
-- trust report only if neither untrusted nor left to a review, and a cleanup record only if started
-- and not left to a review.
pub build_evidence_report-IsSupplied :
    (lib : Stdlib) (manifest : Fields) (by_kind : Table (List Fields)) (now : Option String)
    (report : EvidenceReport)
    → build_evidence_report lib manifest by_kind now ≡ ok report
    → report.overall_status ≡ "accepted"
    → All
        (λ kind. IsSupplied manifest kind (or_nothing (lookup by_kind kind)))
        (ordered_kinds manifest)
unfolding build_evidence_report
build_evidence_report-IsSupplied lib manifest by_kind now report h accepted =
    on_ok (validate_manifest lib manifest) h λ _ _ h1.
      on_ok (all_entries lib manifest by_kind (ordered_kinds manifest)) h1 λ entries made h2.
        all_entries-IsSupplied lib manifest by_kind (ordered_kinds manifest) entries made (
          overall_status-AllFine entries
            (ap (λ (r : EvidenceReport). r.overall_status) (ok-injective h2) ∙ accepted))
