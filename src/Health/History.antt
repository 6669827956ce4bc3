-- ===== src/Health/History.antt =====
-- tools/peer_mesh_route_history.py: the trend of a route over its samples.
use quest_termux_lab.Base.{List, String, [], all, if◌then◌else◌, ltb, suc, ℕ, ◌==◌, ◌∷◌}
use quest_termux_lab.Py.Result.{Result, err, key_error, ok, ◌>>=◌}

abbrev pub route_history_schema : String
route_history_schema = "quest-termux-lab.peer-route-health-history.v1"

abbrev pub trend_values : List String
trend_values = "stable" ∷ "improving" ∷ "worsening" ∷ "mixed" ∷ "single_sample" ∷ []

-- STATUS_SCORE
unfoldable pub status_score : String → Result ℕ
status_score status =
    if status == "disabled"
    then ok 0
    else if status == "unavailable"
    then ok 1
    else if status == "unknown"
    then ok 2
    else if status == "degraded"
    then ok 3
    else if status == "healthy"
    then ok 4
    else err (key_error status)

-- statuses[-1] of a list that begins with `first`
abbrev pub last_of : String → List String → String
last_of first [] = first
last_of first (s ∷ rest) = last_of s rest

unfoldable pub trend_for : List String → Result String
unfolding status_score
trend_for [] = ok "single_sample"
trend_for (first ∷ []) = ok "single_sample"
trend_for (first ∷ second ∷ rest) = do
  first_score ← status_score first
  last_score ← status_score (last_of second rest)
  ok (
      if all (λ s. s == first) (second ∷ rest)
      then "stable"
      else if ltb first_score last_score
      then "improving"
      else if ltb last_score first_score
      then "worsening"
      else "mixed")

-- transition_count, from the status before
unfoldable pub transitions : String → List String → ℕ
transitions previous [] = 0
transitions previous (s ∷ rest) = let n = transitions s rest in if previous == s then n else suc n

unfoldable pub transition_count : List String → ℕ
unfolding transitions
transition_count [] = 0
transition_count (s ∷ rest) = transitions s rest
