-- ===== src/Py/Time.antt =====
-- Datetimes. An instant is a count of microseconds from a fixed origin before every datetime that
-- Python can hold. A datetime with no offset is naive: Python refuses to order it against one
-- that has an offset, and never finds the two equal.
use quest_termux_lab.Base.{Bool, Option, eqb, false, if◌then◌else◌, leb, ltb, none, some, true, ℕ}
use quest_termux_lab.Py.Result.{Result, err, ok, type_error}

pub record DateTime : Type 0 where
  pub instant : ℕ
  -- minutes east of UTC, from -24 hours on; `none` is a naive datetime
  pub offset : Option ℕ

abbrev pub same_kind : Option ℕ → Option ℕ → Bool
same_kind none none = true
same_kind (some _) (some _) = true
same_kind _ _ = false

abbrev pub comparable : DateTime → DateTime → Bool
comparable a b = same_kind a.offset b.offset

-- a <= b, a > b, a == b
abbrev pub at_most : DateTime → DateTime → Result Bool
at_most a b = if comparable a b then ok (leb a.instant b.instant) else err type_error

abbrev pub later : DateTime → DateTime → Result Bool
later a b = if comparable a b then ok (ltb b.instant a.instant) else err type_error

abbrev pub same_time : DateTime → DateTime → Bool
same_time a b = if comparable a b then eqb a.instant b.instant else false
