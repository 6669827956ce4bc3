-- ===== src/Entries/Counts.antt =====
-- The counts that a summary makes of a list of names add up.
use mathlib.Core.Path.{subst}
use quest_termux_lab.Base.{
  Bool-cases, List, String, [], and_true, arith, eq_iff, false, inl, inr, length, map, member, not,
  not-true, or_false, refl, true, ℕ, ◌+◌, ◌==◌, ◌||◌, ◌∷◌, ◌≡◌,
}
use quest_termux_lab.Entries.{one, unique}
use quest_termux_lab.Py.Dict.{check_members, count_text, sum}
use quest_termux_lab.Py.Result.{key_error, ok, on_guard}

abbrev hits : String → List String → ℕ
hits s names = sum (map (λ n. one (s == n)) names)

hits-absent : (s : String) (names : List String) → member s names ≡ false → hits s names ≡ 0
hits-absent s [] h = refl
hits-absent s (n ∷ names) h =
    let (other, rest) = or_false (n == s) (member s names) h in
    let miss : (s == n) ≡ false = ground (arith, eq_iff s n, eq_iff n s, other) in
    rw miss (omega (arith, hits-absent s names rest))

hits-present :
    (s : String) (names : List String)
    → unique names ≡ true
    → member s names ≡ true
    → hits s names ≡ 1
hits-present s [] u h = absurd (cc h)
hits-present s (n ∷ names) u h =
    let (alone, rest) = and_true (not (member n names)) (unique names) u in
    elim (Bool-cases (n == s)) [
      | inl same ↦
          let hit : (s == n) ≡ true = ground (arith, eq_iff s n, eq_iff n s, same) in
          let away = subst (λ x. member x names ≡ false) ((eq_iff n s).0 same) (not-true _ alone) in
          rw hit (omega (arith, hits-absent s names away))
      | inr other ↦
          let miss : (s == n) ≡ false = ground (arith, eq_iff s n, eq_iff n s, other) in
          let there = subst (λ b. (b || member s names) ≡ true) other h in
          rw miss (omega (arith, hits-present s names rest there))
    ]

count-hit :
    (s n : String) (found : List String)
    → count_text n (s ∷ found) ≡ one (s == n) + count_text n found
count-hit s n found = elim (Bool-cases (s == n)) [
  | inl same ↦ rw same (omega arith)
  | inr other ↦ rw other (omega arith)
]

counts-cons :
    (s : String) (found names : List String)
    → sum (map (λ n. count_text n (s ∷ found)) names)
      ≡ hits s names + sum (map (λ n. count_text n found) names)
counts-cons s found [] = omega arith
counts-cons s found (n ∷ names) = omega (arith, count-hit s n found, counts-cons s found names)

counts-none : (names : List String) → sum (map (λ n. count_text n []) names) ≡ 0
counts-none [] = refl
counts-none (n ∷ names) = omega (arith, counts-none names)

-- Where each text found is one of the names, and no name stands twice, the counts of the names add
-- up to the number of texts.
pub counts-total :
    (names found : List String)
    → unique names ≡ true
    → check_members names found ≡ ok tt
    → sum (map (λ n. count_text n found) names) ≡ length found
counts-total names [] u h = counts-none names
counts-total names (s ∷ found) u h = on_guard (member s names) (key_error s) h λ here rest.
    omega (
      arith,
      counts-cons s found names,
      hits-present s names u here,
      counts-total names found u rest,
    )
