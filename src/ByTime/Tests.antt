-- ===== src/ByTime/Tests.antt =====
-- Two reports are put in the order of their times.
use quest_termux_lab.Base.{String}
use quest_termux_lab.Py.Value.{Fields, end, field, str}

abbrev report_at : String → Fields
report_at t = field "observed_at" (str t) end
