-- ===== src/ByTime/Sorted.antt =====
-- The order that ByTime.antt puts reports in.
use mathlib.Core.List.{Perm}
use quest_termux_lab.Base.{All, Bool-cases, List, [], inl, inr, map, ◌∷◌, ◌≡◌, ◌≤◌}
use quest_termux_lab.ByTime.{Timed, before, place_report, sort_timed, timed}
use quest_termux_lab.Py.Result.{map_ok, ok}
use quest_termux_lab.Py.Stdlib.{Stdlib}
use quest_termux_lab.Py.Value.{Fields}
use mathlib.Core.List.Perm

abbrev pub InOrder : List Timed → Type 0
InOrder [] = Unit {0}
InOrder (t ∷ rest) = All (λ u. t.time.instant ≤ u.time.instant) rest × InOrder rest

module _ (P : Timed → Type 0) where
  place-All : (t : Timed) (xs : List Timed) → P t → All P xs → All P (place_report t xs)
  unfolding place_report
  place-All t [] holds h = (holds, tt)
  place-All t (u ∷ rest) holds (here, there) = elim (Bool-cases (before t u)) [
    | inl first_of_two ↦ rw first_of_two (holds, (here, there))
    | inr second ↦ rw second (here, place-All t rest holds there)
  ]

  sort_timed-All : (xs : List Timed) → All P xs → All P (sort_timed xs)
  unfolding sort_timed
  sort_timed-All [] h = tt
  sort_timed-All (t ∷ rest) (here, there) =
      place-All t (sort_timed rest) here (sort_timed-All rest there)

-- Where the reports are sorted, each has a time that is read, the sorted list has the same reports
-- with the same times, as often as they were given, and no report stands before an earlier one.
pub record SortedReports (lib : Stdlib) (reports ordered : List Fields) : Type 0 where
  pub given : List Timed
  pub read : map_ok (timed lib) reports ≡ ok given
  pub timeline : List Timed
  pub shown : ordered ≡ map (λ t. t.report) timeline
  pub same_reports : Perm timeline given
  pub in_order : InOrder timeline
