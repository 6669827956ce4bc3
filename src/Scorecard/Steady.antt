-- ===== src/Scorecard/Steady.antt =====
-- Statuses that begin and end clear, in tools/peer_mesh_scorecard_history.py.
use mathlib.Core.Path.{subst}
use quest_termux_lab.Base.{
  Bool, Bool-cases, List, String, [], all, ap, arith, eq_iff, false, if◌then◌else◌, inl, inr, ltb,
  map, refl, sym, true, ℕ, ◌==◌, ◌∙◌, ◌∷◌, ◌≡◌, ◌⊎◌,
}
use quest_termux_lab.Health.History.{last_of, transition_count}
use quest_termux_lab.Health.Routes.{last_sample}
use quest_termux_lab.Health.Trend.{same-transitions}
use quest_termux_lab.Py.Result.{ok, ok-injective, on_ok}
use quest_termux_lab.Py.Value.{Fields}
use quest_termux_lab.Scorecard.{is_clear, score_of, score_trend, trend_name}

last_of-map :
    (f : Fields → String) (d : Fields) (rest : List Fields)
    → last_of (f d) (map f rest) ≡ f (last_sample d rest)
last_of-map f d [] = refl
last_of-map f d (e ∷ rest) = last_of-map f e rest

ltb_irrefl : (n : ℕ) → ltb n n ≡ false
ltb_irrefl n = ground arith

-- Between equal scores the trend is mixed unless all the statuses are the same.
trend_name-same : (same : Bool) (n : ℕ) → (trend_name same n n == "mixed") ≡ false → same ≡ true
trend_name-same true n h = refl
trend_name-same false n h = absurd (
    cc (
      subst
        (λ b. ((if b then "improving" else if b then "worsening" else "mixed") == "mixed") ≡ false)
        (ltb_irrefl n) h))

-- Samples that begin and end clear, whose trend is not mixed, are clear throughout.
both_clear :
    (s t : String) (rest : List String) (trend : String)
    → is_clear s ≡ true
    → is_clear (last_of t rest) ≡ true
    → score_trend (s ∷ t ∷ rest) ≡ ok trend
    → (trend == "mixed") ≡ false
    → transition_count (s ∷ t ∷ rest) ≡ 0
unfolding score_trend transition_count
both_clear s t rest trend first_clear last_clear h unmixed =
    let alike : last_of t rest ≡ s =
      (eq_iff (last_of t rest) "synthetic_clear").0 last_clear
      ∙ sym ((eq_iff s "synthetic_clear").0 first_clear) in
    on_ok (score_of s) h λ first_score e1 h1.
      on_ok (score_of (last_of t rest)) h1 λ last_score e2 h2.
        let equal : last_score ≡ first_score = ok-injective (sym e2 ∙ ap score_of alike ∙ e1) in
        let named =
          subst (λ n. trend_name (all (λ x. x == s) (t ∷ rest)) first_score n ≡ trend) equal
            (ok-injective h2) in
        same-transitions s (t ∷ rest)
          (trend_name-same _ first_score (subst (λ x. (x == "mixed") ≡ false) (sym named) unmixed))

pub statuses-steady :
    (f : Fields → String) (oldest : Fields) (later : List Fields) (trend : String)
    → score_trend (map f (oldest ∷ later)) ≡ ok trend
    → is_clear (f (last_sample oldest later)) ≡ true
    → (trend == "mixed") ≡ false
    → (is_clear (f oldest) ≡ false) ⊎ (transition_count (map f (oldest ∷ later)) ≡ 0)
unfolding transition_count
statuses-steady f oldest [] trend h clear unmixed = inr refl
statuses-steady f oldest (d ∷ rest) trend h clear unmixed =
    elim (Bool-cases (is_clear (f oldest))) [
      | inl began ↦ inr (
          both_clear (f oldest) (f d) (map f rest) trend began
            (subst (λ s. is_clear s ≡ true) (sym (last_of-map f d rest)) clear) h unmixed)
      | inr other ↦ inl other
    ]
