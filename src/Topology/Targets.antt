-- ===== src/Topology/Targets.antt =====
-- The targets of tools/peer_mesh_topology.py: each expected agent but the source, once.
use mathlib.Core.Path.{subst}
use quest_termux_lab.Base.{
  All, Bool-cases, List, String, [], all, and_true, ap, arith, eq_iff, false, if◌then◌else◌, inl,
  inr, keep, length, map, member, not, not-true, or_false, refl, suc, true, ◌-◌, ◌==◌, ◌||◌, ◌∙◌,
  ◌∷◌, ◌≡◌, ◌⊎◌,
}
use quest_termux_lab.Entries.{nonempty_text, texts_of, unique, validate_text_array}
use quest_termux_lab.Gossip.Envelope.{nonempty_list}
use quest_termux_lab.Py.Dict.{list_of, py_eq}
use quest_termux_lab.Py.Result.{map_ok, ok, ok-injective, on_guard, on_ok}
use quest_termux_lab.Py.Stdlib.{Stdlib}
use quest_termux_lab.Py.Text.{sort_texts}
use quest_termux_lab.Py.Text.Sorted.{All-sort_texts, length-sort_texts}
use quest_termux_lab.Py.Value.{Value, arr, cons, is_str, str, text, to_list}
use quest_termux_lab.Topology.{sorted_agents, targets_of}

-- The texts of a list but one, in order.
unfoldable pub other_agents : String → List String → List String
unfolding sort_texts
other_agents source expected = sort_texts (keep (λ agent. not (agent == source)) expected)

keep-absent :
    (s : String) (xs : List String) → member s xs ≡ false → keep (λ agent. not (agent == s)) xs ≡ xs
keep-absent s [] h = refl
keep-absent s (x ∷ xs) h =
    let (other, rest) = or_false (x == s) (member s xs) h in
    rw other (ap (λ l. x ∷ l) (keep-absent s xs rest))

keep-present :
    (s : String) (xs : List String)
    → unique xs ≡ true
    → member s xs ≡ true
    → suc (length (keep (λ agent. not (agent == s)) xs)) ≡ length xs
keep-present s [] u h = absurd (cc h)
keep-present s (x ∷ xs) u h =
    let (alone, rest) = and_true (not (member x xs)) (unique xs) u in
    elim (Bool-cases (x == s)) [
      | inl same ↦
          let e = (eq_iff x s).0 same in
          let absent = subst (λ y. member y xs ≡ false) e (not-true _ alone) in
          rw same (ap (λ l. suc (length l)) (keep-absent s xs absent))
      | inr other ↦
          let there = subst (λ b. (b || member s xs) ≡ true) other h in
          rw other (ap suc (keep-present s xs rest there))
    ]

pub targets-count :
    (source : String) (expected : List String)
    → unique expected ≡ true
    → member source expected ≡ true
    → length (other_agents source expected) ≡ length expected - 1
unfolding other_agents
targets-count source expected u h = omega (
  arith,
  keep-present source expected u h,
  length-sort_texts (keep (λ agent. not (agent == source)) expected),
)

-- What holds of every kept text holds of every text that the test accepts.
All-keep :
    (P : String → Type 0) (source : String) (xs : List String)
    → All P (keep (λ agent. not (agent == source)) xs)
    → All (λ agent. (agent ≡ source) ⊎ P agent) xs
All-keep P source [] h = tt
All-keep P source (x ∷ xs) h = elim (Bool-cases (x == source)) [
  | inl same ↦
      let rest =
        subst
          (λ b. All P (
            if not b
            then x ∷ keep (λ agent. not (agent == source)) xs
            else keep (λ agent. not (agent == source)) xs))
          same h in
      (inl ((eq_iff x source).0 same), All-keep P source xs rest)
  | inr other ↦
      let (holds, rest) =
        subst
          (λ b. All P (
            if not b
            then x ∷ keep (λ agent. not (agent == source)) xs
            else keep (λ agent. not (agent == source)) xs))
          other h in
      (inr holds, All-keep P source xs rest)
]

pub targets-All :
    (P : String → Type 0) (source : String) (expected : List String)
    → All P (other_agents source expected)
    → All (λ agent. (agent ≡ source) ⊎ P agent) expected
unfolding other_agents
targets-All P source expected h =
    All-keep P source expected (All-sort_texts P (keep (λ agent. not (agent == source)) expected) h)

cons-eq : {s t : String} {xs ys : List String} → s ≡ t → xs ≡ ys → (s ∷ xs) ≡ (t ∷ ys)
cons-eq h k = cc

nonempty-texts :
    (label : String) (found : List Value) (texts : List String)
    → map_ok (nonempty_text label) found ≡ ok texts
    → map text found ≡ texts
unfolding nonempty_text
nonempty-texts label [] texts h = ok-injective h
nonempty-texts label (str s ∷ found) texts h =
    on_ok (nonempty_text label (str s)) h λ t first_ok h1.
      on_ok (map_ok (nonempty_text label) found) h1 λ rest rest_ok h2.
        on_guard (not (s == "")) _ first_ok λ _ same.
          cons-eq (ok-injective same) (nonempty-texts label found rest rest_ok) ∙ ok-injective h2
nonempty-texts label (v ∷ found) texts h = absurd (cc h)

pub validate_text_array-texts :
    (v : Value) (label : String) (texts : List String)
    → validate_text_array v label ≡ ok texts
    → (texts_of v ≡ texts) × (unique texts ≡ true)
unfolding validate_text_array nonempty_list
validate_text_array-texts (arr (cons v vs)) label texts h =
    on_ok (map_ok (nonempty_text label) (to_list (cons v vs))) h λ found found_ok h1.
      on_guard (unique found) _ h1 λ alone h2.
        let e = ok-injective h2 in
        (
          nonempty-texts label (v ∷ to_list vs) found found_ok ∙ e,
          subst (λ l. unique l ≡ true) e alone,
        )
validate_text_array-texts v label texts h = absurd (cc h)

texts-str : (xs : List String) → (all is_str (map str xs) ≡ true) × (map text (map str xs) ≡ xs)
texts-str [] = (refl, refl)
texts-str (x ∷ xs) = let (strs, same) = texts-str xs in (strs, ap (λ l. x ∷ l) same)

keep-str :
    (s : String) (xs : List String)
    → keep (λ agent. not (py_eq agent (str s))) (map str xs)
      ≡ map str (keep (λ agent. not (agent == s)) xs)
unfolding py_eq
keep-str s [] = refl
keep-str s (x ∷ xs) = elim (Bool-cases (x == s)) [
  | inl same ↦ rw same (keep-str s xs)
  | inr other ↦ rw other (ap (λ l. str x ∷ l) (keep-str s xs))
]

pub targets_of-other_agents :
    (lib : Stdlib) (source : String) (expected : List String)
    → targets_of lib (str source) (map str expected) ≡ ok (map str (other_agents source expected))
unfolding targets_of sorted_agents other_agents
targets_of-other_agents lib source expected =
    let kept = keep (λ agent. not (agent == source)) expected in
    let (strs, same) = texts-str kept in rw (keep-str source expected, strs, same) refl

values-eq : {s t : Value} {xs ys : List Value} → s ≡ t → xs ≡ ys → (s ∷ xs) ≡ (t ∷ ys)
values-eq h k = cc

nonempty-str :
    (label : String) (found : List Value) (texts : List String)
    → map_ok (nonempty_text label) found ≡ ok texts
    → found ≡ map str texts
unfolding nonempty_text
nonempty-str label [] texts h = ap (map str) (ok-injective h)
nonempty-str label (str s ∷ found) texts h = on_ok (nonempty_text label (str s)) h λ t first_ok h1.
    on_ok (map_ok (nonempty_text label) found) h1 λ rest rest_ok h2.
      on_guard (not (s == "")) _ first_ok λ _ same.
        values-eq (ap str (ok-injective same)) (nonempty-str label found rest rest_ok)
        ∙ ap (map str) (ok-injective h2)
nonempty-str label (v ∷ found) texts h = absurd (cc h)

-- A text array that was tested is a list of those texts.
pub validate_text_array-list :
    (v : Value) (label : String) (texts : List String)
    → validate_text_array v label ≡ ok texts
    → list_of v ≡ ok (map str texts)
unfolding validate_text_array nonempty_list
validate_text_array-list (arr (cons v vs)) label texts h =
    on_ok (map_ok (nonempty_text label) (to_list (cons v vs))) h λ found found_ok h1.
      on_guard (unique found) _ h1 λ alone h2.
        ap ok (nonempty-str label (v ∷ to_list vs) found found_ok ∙ ap (map str) (ok-injective h2))
validate_text_array-list v label texts h = absurd (cc h)
