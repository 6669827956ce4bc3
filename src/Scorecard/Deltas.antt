-- ===== src/Scorecard/Deltas.antt =====
-- The artifacts that tools/peer_mesh_scorecard_history.py shows among its deltas.
-- What holds of the statuses of a list of samples holds of the last one.
use mathlib.Core.Path.{subst}
use quest_termux_lab.Base.{
  All, Bool, List, String, [], false, if◌then◌else◌, ltb, map, member, not, refl, sym, true, ◌&&◌,
  ◌==◌, ◌∷◌, ◌≡◌, ◌⊎◌,
}
use quest_termux_lab.Health.Routes.{last_sample}
use quest_termux_lab.Py.Dict.{check_members}
use quest_termux_lab.Py.Result.{Result, map_ok, ok, ok-injective, on_guard, on_ok}
use quest_termux_lab.Py.Stdlib.{Stdlib}
use quest_termux_lab.Py.Time.{later}
use quest_termux_lab.Py.Value.{Fields}
use quest_termux_lab.Scorecard.{
  delta_by_score, delta_for, is_clear, score_of, score_statuses, score_trend,
}
use quest_termux_lab.Scorecard.History.{
  ArtifactHistory, artifact_history_entry, history_for, is_visible, shown, trend_is,
}
use quest_termux_lab.Scorecard.Steady.{statuses-steady}

last-All :
    (P : Fields → Type 0) (oldest : Fields) (later : List Fields)
    → All P (oldest ∷ later)
    → P (last_sample oldest later)
last-All P oldest [] (here, _) = here
last-All P oldest (r ∷ rest) (_, there) = last-All P r rest there

known-All :
    (lib : Stdlib) (samples : List Fields) (u : Unit {0})
    → check_members score_statuses (map (λ d. shown lib d "status") samples) ≡ ok u
    → All (λ d. member (shown lib d "status") score_statuses ≡ true) samples
known-All lib [] u h = tt
known-All lib (d ∷ samples) u h =
    on_guard (member (shown lib d "status") score_statuses) _ h
      λ here rest. (here, known-All lib samples u rest)

abbrev delta_visible : String → Bool
delta_visible d = not (member d ("unchanged_clear" ∷ "single_sample_clear" ∷ []))

abbrev moved_name : Bool → Bool → Bool → String
moved_name up down clear =
    if up
    then "improved"
    else if down
    then "regressed"
    else if not clear
    then "persistent"
    else "unchanged_clear"

moved-visible : (up down : Bool) → delta_visible (moved_name up down false) ≡ true
moved-visible true down = refl
moved-visible false true = refl
moved-visible false false = refl

by_score-visible :
    (first_status last_status d : String)
    → is_clear last_status ≡ false
    → delta_by_score first_status last_status ≡ ok d
    → delta_visible d ≡ true
unfolding delta_by_score
by_score-visible first_status last_status d unclear h = on_ok (score_of last_status) h λ b _ h1.
    on_ok (score_of first_status) h1 λ a _ h2.
      let e : moved_name (ltb a b) (ltb b a) (is_clear last_status) ≡ d = ok-injective h2 in
      subst (λ t. delta_visible t ≡ true) e
        (subst (λ c. delta_visible (moved_name (ltb a b) (ltb b a) c) ≡ true) (sym unclear)
          (moved-visible (ltb a b) (ltb b a)))

abbrev delta_shape : Bool → Bool → Bool → Result String → Result String
delta_shape single first_clear last_clear by_score =
    if single
    then ok (if last_clear then "single_sample_clear" else "observed_pressure_point")
    else if not first_clear && last_clear
    then ok "resolved"
    else if first_clear && not last_clear
    then ok "new_pressure_point"
    else by_score

shape-visible :
    (single first_clear : Bool) (by_score : Result String) (d : String)
    → (by_score ≡ ok d → delta_visible d ≡ true)
    → delta_shape single first_clear false by_score ≡ ok d
    → delta_visible d ≡ true
shape-visible true first_clear by_score d k h =
    subst (λ t. delta_visible t ≡ true) (ok-injective h) refl
shape-visible false true by_score d k h = subst (λ t. delta_visible t ≡ true) (ok-injective h) refl
shape-visible false false by_score d k h = k h

-- An artifact whose last status is not clear is among the ones that are shown.
delta_for-visible :
    (first_status last_status trend d : String)
    → is_clear last_status ≡ false
    → delta_for first_status last_status trend ≡ ok d
    → delta_visible d ≡ true
unfolding delta_for
delta_for-visible first_status last_status trend d unclear h =
    let by_score = delta_by_score first_status last_status in
    let e =
      subst (λ c. delta_shape (trend == "single_sample") (is_clear first_status) c by_score ≡ ok d)
        unclear h in
    shape-visible (trend == "single_sample") (is_clear first_status) by_score d
      (by_score-visible first_status last_status d unclear) e

-- The last status of an artifact's history is listed, and the artifact is shown where it is not
-- clear. Where it is clear, and the trend is not mixed, the artifact began otherwise or never changed.
pub record Shown (a : ArtifactHistory) : Type 0 where
  pub listed : member a.last_status score_statuses ≡ true
  pub visible : is_clear a.last_status ≡ false → is_visible a ≡ true
  pub steady :
      is_clear a.last_status ≡ true
      → trend_is "mixed" a ≡ false
      → (is_clear a.first_status ≡ false) ⊎ (a.transition_count ≡ 0)

artifact_history_entry-Shown :
    (lib : Stdlib) (kind : String) (oldest : Fields) (later : List Fields) (a : ArtifactHistory)
    → artifact_history_entry lib kind oldest later ≡ ok a
    → Shown a
unfolding artifact_history_entry
artifact_history_entry-Shown lib kind oldest later a h =
    let statuses = map (λ (d : Fields). shown lib d "status") (oldest ∷ later) in
    let newest = last_sample oldest later in
    on_ok (check_members score_statuses statuses) h λ u known h1.
      on_ok (score_trend statuses) h1 λ trend moved h2.
        on_ok (delta_for (shown lib oldest "status") (shown lib newest "status") trend) h2
          λ delta found h3. subst Shown (ok-injective h3) (record {
            listed =
                last-All (λ d. member (shown lib d "status") score_statuses ≡ true) oldest later
                  (known-All lib (oldest ∷ later) u known);
            visible = λ unclear.
                delta_for-visible (shown lib oldest "status") (shown lib newest "status") trend
                  delta unclear found;
            steady = λ clear unmixed.
                statuses-steady (λ d. shown lib d "status") oldest later trend moved clear unmixed;
          })

pub entries-Shown :
    (lib : Stdlib) (oldest : Fields) (later : List Fields) (kinds : List String)
    (artifacts : List ArtifactHistory)
    → map_ok (history_for lib oldest later) kinds ≡ ok artifacts
    → All Shown artifacts
entries-Shown lib oldest later [] artifacts h = subst (All Shown) (ok-injective h) tt
entries-Shown lib oldest later (kind ∷ kinds) artifacts h =
    on_ok (history_for lib oldest later kind) h λ a made h1.
      on_ok (map_ok (history_for lib oldest later) kinds) h1 λ rest others h2.
        subst (All Shown) (ok-injective h2) (
          artifact_history_entry-Shown lib kind _ _ a made,
          entries-Shown lib oldest later kinds rest others,
        )
