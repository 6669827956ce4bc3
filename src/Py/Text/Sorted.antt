-- ===== src/Py/Text/Sorted.antt =====
-- A sorted list of texts has the texts that were given.
use mathlib.Core.Path.{subst}
use quest_termux_lab.Base.{
  All, Bool-cases, List, String, [], ap, if◌then◌else◌, inl, inr, length, refl, suc, ◌∙◌, ◌∷◌, ◌≡◌,
}
use quest_termux_lab.Py.Text.{place, sort_texts, text_le}

length-place : (s : String) (xs : List String) → length (place s xs) ≡ suc (length xs)
unfolding place
length-place s [] = refl
length-place s (t ∷ rest) = elim (Bool-cases (text_le s t)) [
  | inl before ↦ rw before refl
  | inr later_on ↦ rw later_on (ap suc (length-place s rest))
]

pub length-sort_texts : (xs : List String) → length (sort_texts xs) ≡ length xs
unfolding sort_texts
length-sort_texts [] = refl
length-sort_texts (s ∷ rest) = length-place s (sort_texts rest) ∙ ap suc (length-sort_texts rest)

module _ {ℓ} (P : String → Type ℓ) where
  All-place : (s : String) (xs : List String) → All P (place s xs) → P s × All P xs
  unfolding place
  All-place s [] h = h
  All-place s (t ∷ rest) h = elim (Bool-cases (text_le s t)) [
    | inl before ↦ subst (λ b. All P (if b then s ∷ t ∷ rest else t ∷ place s rest)) before h
    | inr later_on ↦
        let (first_holds, others) =
          subst (λ b. All P (if b then s ∷ t ∷ rest else t ∷ place s rest)) later_on h in
        let (holds, others_hold) = All-place s rest others in (holds, (first_holds, others_hold))
  ]

  pub All-sort_texts : (xs : List String) → All P (sort_texts xs) → All P xs
  unfolding sort_texts
  All-sort_texts [] h = tt
  All-sort_texts (s ∷ rest) h =
      let (holds, others) = All-place s (sort_texts rest) h in (holds, All-sort_texts rest others)
