-- ===== src/Bundle/Known.antt =====
-- The statuses that tools/peer_mesh_lab_bundle.py reads from two of the artifacts.
use mathlib.Core.Path.{subst}
use quest_termux_lab.Base.{
  Bool-cases, List, Option, String, [], ap, arith, eq_iff, false, inl, inr, member, none, or_false,
  refl, some, sym, true, ◌==◌, ◌||◌, ◌∙◌, ◌∷◌, ◌≡◌,
}
use quest_termux_lab.Bundle.{known_status, status_in}
use quest_termux_lab.Py.Dict.{get, get?, or_default}
use quest_termux_lab.Py.Stdlib.{Stdlib, text_of}
use quest_termux_lab.Py.Value.{Fields, Value, is_one_of, null, str}

flip : (s t : String) → (s == t) ≡ false → (t == s) ≡ false
flip s t h = ground (arith, eq_iff s t, eq_iff t s)

different_left :
    (blocked review left s : String)
    → (s == blocked) ≡ false
    → (s == review) ≡ false
    → (left == s) ≡ false
    → member s (left ∷ review ∷ blocked ∷ []) ≡ true
    → ⊥
different_left blocked review left s h k other there =
    let none : member s (left ∷ review ∷ blocked ∷ []) ≡ false =
      rw (other, flip s review k, flip s blocked h) refl in
    cc (there, none)

-- A listed status that is none of the two others is the one left.
left_status :
    (blocked review left : String) (s : String)
    → (s == blocked) ≡ false
    → (s == review) ≡ false
    → member s (left ∷ review ∷ blocked ∷ []) ≡ true
    → s ≡ left
left_status blocked review left s h k there = elim (Bool-cases (left == s)) [
  | inl same ↦ sym ((eq_iff left s).0 same)
  | inr other ↦ absurd (different_left blocked review left s h k other there)
]

-- A status of a report that its validator has found in the list.
pub record Known (lib : Stdlib) (statuses : List String) (report : Fields) : Type 0 where
  pub status : String
  pub found : get report "overall_status" ≡ str status
  pub listed : member status statuses ≡ true
  pub read : status_in lib statuses report ≡ status

known_of :
    (lib : Stdlib) (statuses : List String) (o : Option Value) (v : Value)
    → or_default null o ≡ v
    → is_one_of v statuses ≡ true
    → (s : String) × (or_default null o ≡ str s)
      × (member s statuses ≡ true)
      × (known_status statuses (text_of lib (or_default (str "invalid") o)) ≡ s)
known_of lib statuses (some (str s)) v same h =
    let here = subst (λ w. is_one_of w statuses ≡ true) (sym same) h in
    (s, refl, here, rw here refl)
known_of lib statuses none v same h =
    absurd (cc (subst (λ w. is_one_of w statuses ≡ true) (sym same) h))
known_of lib statuses (some w) v same h =
    absurd (cc (subst (λ x. is_one_of x statuses ≡ true) (sym same) h))

pub status_in-Known :
    (lib : Stdlib) (statuses : List String) (report : Fields)
    → is_one_of (get report "overall_status") statuses ≡ true
    → Known lib statuses report
unfolding status_in
status_in-Known lib statuses report h =
    let (s, found, listed, read) =
      known_of lib statuses (get? report "overall_status") (get report "overall_status") refl h in
    record { status = s; found = found; listed = listed; read = read }

-- The status is neither of the two that stop the bundle, so it is the one that does not.
pub Known-left :
    (lib : Stdlib) (left review blocked : String) (report : Fields)
    → Known lib (left ∷ review ∷ blocked ∷ []) report
    → ((status_in lib (left ∷ review ∷ blocked ∷ []) report == blocked)
        || (status_in lib (left ∷ review ∷ blocked ∷ []) report == review))
      ≡ false
    → get report "overall_status" ≡ str left
Known-left lib left review blocked report known h =
    let stops = subst (λ s. ((s == blocked) || (s == review)) ≡ false) known.read h in
    let (not_blocked, not_review) = or_false _ _ stops in
    known.found
    ∙ ap str (left_status blocked review left known.status not_blocked not_review known.listed)
