-- ===== src/Tests/Reports.antt =====
-- The summary of reports at concrete inputs, over a codec of one value.
use streamerson.Prelude.{
  ◌≡◌, ap, arith, String, refl, Bool, true, false, ◌&&◌, none, some, [], ◌∷◌, ◌==◌, eq_iff, nat_eq,
}
use streamerson.Prelude.Result.{Result, ok}
use streamerson.Prelude.Integer.{pos}
use streamerson.Prelude.Value.{Value, own, Fields, undefined, num, str, arr, obj, end, field}
use streamerson.Message.{Json}
use streamerson.Prelude.Decimal.{show_nat}
use streamerson.Benchmarks.Stages.{finalized, report_value}
use streamerson.Benchmarks.Stages.Timeline.{ended}
use streamerson.Benchmarks.Summary.{
  Results, summarize_results, summarize_report, record_result, new_row, property_of, find_event,
  find_step, has_own_property,
}
use streamerson.Benchmarks.Summary.Rows.{IsRow, summarize_results-IsRow}
use streamerson.Prelude.Dict
use streamerson.Benchmarks.Pipeline.{
  Measured, Reports, nothing, reported, events_of, duration_of, summarize_results-last,
}
use streamerson.Tests.Benchmarks.{ticking, nothing_done}

-- Equality of the values that reports hold.
mutual
  value_eq : Value → Value → Bool
  value_eq (num (pos a)) (num (pos b)) = nat_eq a b
  value_eq (str s) (str t) = s == t
  value_eq (arr none fs) (arr none gs) = fields_eq fs gs
  value_eq (obj none fs) (obj none gs) = fields_eq fs gs
  value_eq v w = false

  fields_eq : Fields → Fields → Bool
  fields_eq end end = true
  fields_eq (field j v fs) (field k w gs) = (j == k) && (value_eq v w && fields_eq fs gs)
  fields_eq fs gs = false

mutual
  unfolding value_eq

  value_eq_sound : (v w : Value) → value_eq v w ≡ true → v ≡ w
  value_eq_sound (num (pos a)) (num (pos b)) h = ground arith
  value_eq_sound (str s) (str t) h = ground (arith, eq_iff s t)
  value_eq_sound (arr none fs) (arr none gs) h = ap (arr none) (fields_eq_sound fs gs h)
  value_eq_sound (obj none fs) (obj none gs) h = ap (obj none) (fields_eq_sound fs gs h)
  value_eq_sound v w h = cc

  fields_eq_sound : (fs gs : Fields) → fields_eq fs gs ≡ true → fs ≡ gs
  fields_eq_sound end end h = refl
  fields_eq_sound (field j v fs) (field k w gs) h =
      ground (arith, eq_iff j k, value_eq_sound v w, fields_eq_sound fs gs)
  fields_eq_sound fs gs h = cc

-- The report of a benchmark that did nothing between the readings 1 and 2 of the clock.
abbrev report : Value
report = report_value "control" (
    events_of "idle" (pos 1) (str "done") (
      record { name = "timing"; step = finalized; duration = some (pos 3); result = undefined }
      ∷ []))

abbrev parse_report : String → Result Value
parse_report s = ok report

report-parsed : (v : Value) → value_eq v report ≡ true → parse_report "report" ≡ ok v
report-parsed v h = rw (value_eq_sound v report h)

abbrev codec : Json
codec = record {
  parse = parse_report;
  stringify = λ v. "report";
  plain = λ v. value_eq v report;
  parse-stringify = report-parsed;
}

abbrev key : Value → String
key (str s) = s
key v = ""

abbrev measured : Measured
measured = record { type = "control"; name = "idle"; duration = pos 1 }

one_report : Reports codec ticking ("report" ∷ []) (measured ∷ [])
unfolding value_eq report_value show_nat
one_report = reported {s = 1} "control" 0 nothing_done refl refl ended refl nothing

summarize_results-last_example :
    (results : Results) × (summarize_results key codec ("report" ∷ []) ≡ ok results)
    × (duration_of results "idle" "control" ≡ some (num (pos 1)))
summarize_results-last_example =
    summarize_results-last key (λ s. refl) codec ticking [] [] measured one_report tt

-- The row of the idle benchmark.
abbrev idle_row : Dict.Dict Value
idle_row = Dict.put new_row "control" (num (pos 1))

summary-idle : summarize_results key codec ("report" ∷ []) ≡ ok (("idle", idle_row) ∷ [])
unfolding summarize_results summarize_report record_result property_of find_event find_step
    has_own_property report_value show_nat Dict.get Dict.put own
summary-idle = refl

summarize_results-IsRow_example : IsRow idle_row
unfolding Dict.get
summarize_results-IsRow_example =
    summarize_results-IsRow key codec ("report" ∷ []) (("idle", idle_row) ∷ []) "idle" idle_row
      summary-idle refl
