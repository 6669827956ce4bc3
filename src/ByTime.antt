-- ===== src/ByTime.antt =====
-- sort_reports of tools/peer_mesh_route_history.py and tools/peer_mesh_scorecard_history.py: reports
-- in the order of their times.
pub mod Sorted
mod Tests
use quest_termux_lab.Gossip.Envelope.{parse_time}
use quest_termux_lab.Base.{Bool, List, [], all, if◌then◌else◌, leb, map, true, ◌∷◌}
use quest_termux_lab.Py.Dict.{item}
use quest_termux_lab.Py.Result.{Result, guard, map_ok, ok, type_error, ◌>>=◌, ◌>>◌}
use quest_termux_lab.Py.Stdlib.{Stdlib, text_of}
use quest_termux_lab.Py.Time.{DateTime, comparable}
use quest_termux_lab.Py.Value.{Fields}

pub record Timed : Type 0 where
  pub time : DateTime
  pub report : Fields

-- A sort compares each report with another, so it raises a TypeError where some of the times have an
-- offset and some have none.
abbrev pub all_comparable : List Timed → Bool
all_comparable [] = true
all_comparable (t ∷ rest) = all (λ u. comparable t.time u.time) rest

abbrev pub before : Timed → Timed → Bool
before t u = leb t.time.instant u.time.instant

unfoldable pub place_report : Timed → List Timed → List Timed
place_report t [] = t ∷ []
place_report t (u ∷ rest) = if before t u then t ∷ u ∷ rest else u ∷ place_report t rest

-- Reports of one time stay in the order in which they were given.
unfoldable pub sort_timed : List Timed → List Timed
unfolding place_report
sort_timed [] = []
sort_timed (t ∷ rest) = place_report t (sort_timed rest)

module _ (lib : Stdlib) where
  unfoldable pub timed : Fields → Result Timed
  unfolding parse_time
  timed report = do
    observed_at ← item report "observed_at"
    time ← parse_time lib (text_of lib observed_at)
    ok (record { time = time; report = report })

  unfoldable pub sort_reports : List Fields → Result (List Fields)
  unfolding timed sort_timed
  sort_reports reports = do
    keyed ← map_ok timed reports
    guard (all_comparable keyed) type_error
    ok (map (λ t. t.report) (sort_timed keyed))
