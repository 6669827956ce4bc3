-- ===== src/Health/Trend.antt =====
-- The trend and the transitions of a route in tools/peer_mesh_route_history.py.
use quest_termux_lab.Base.{
  Bool, List, String, [], all, arith, eq_iff, false, if◌then◌else◌, refl, sym, true, ℕ, ◌==◌, ◌↔◌,
  ◌∙◌, ◌∷◌, ◌≡◌,
}
use quest_termux_lab.Health.History.{
  last_of, status_score, transition_count, transitions, trend_for,
}
use quest_termux_lab.Py.Result.{ok, ok-injective, on_ok}

pub same-transitions :
    (s : String) (rest : List String) → all (λ x. x == s) rest ≡ true → transitions s rest ≡ 0
unfolding transitions
same-transitions s [] h = refl
same-transitions s (x ∷ rest) h = ground (arith, eq_iff s x, eq_iff x s, same-transitions s rest)

transitions-same :
    (s : String) (rest : List String) → transitions s rest ≡ 0 → all (λ x. x == s) rest ≡ true
unfolding transitions
transitions-same s [] h = refl
transitions-same s (x ∷ rest) h = ground (arith, eq_iff s x, eq_iff x s, transitions-same s rest)

abbrev moving : Bool → Bool → String
moving c d = if c then "improving" else if d then "worsening" else "mixed"

not_stable : (c d : Bool) → moving c d ≡ "stable" → ⊥
not_stable true d h = cc h
not_stable false true h = cc h
not_stable false false h = cc h

abbrev named : Bool → Bool → Bool → String
named b c d = if b then "stable" else moving c d

stable_cases :
    (b c d : Bool) (trend : String)
    → named b c d ≡ trend
    → (n : ℕ) → (b ≡ true → n ≡ 0)
    → (n ≡ 0 → b ≡ true)
    → (trend ≡ "stable") ↔ (n ≡ 0)
stable_cases true c d trend h n p q = (λ e. p refl, λ e. sym h)
stable_cases false c d trend h n p q =
    (λ e. absurd (not_stable c d (h ∙ e)), λ e. absurd (cc (q e)))

-- Over at least two samples, the trend is "stable" exactly where no sample differs from the one
-- before it, whenever the trend is found.
pub trend_for-stable :
    (s t : String) (rest : List String) (trend : String)
    → trend_for (s ∷ t ∷ rest) ≡ ok trend
    → (trend ≡ "stable") ↔ (transition_count (s ∷ t ∷ rest) ≡ 0)
unfolding trend_for transition_count
trend_for-stable s t rest trend h = on_ok (status_score s) h λ first_score _ h1.
    on_ok (status_score (last_of t rest)) h1 λ last_score _ h2.
      stable_cases _ _ _ trend (ok-injective h2) _ (same-transitions s (t ∷ rest))
        (transitions-same s (t ∷ rest))
