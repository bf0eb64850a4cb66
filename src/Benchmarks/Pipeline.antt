-- ===== src/Benchmarks/Pipeline.antt =====
-- The summary of what the benchmarks report: the reports of utils/report.ts as tools/summarizeResults.ts
-- reads them.
use streamerson.Prelude.{
  ℕ, ◌+◌, String, ◌≡◌, refl, ◌∙◌, true, false, ◌&&◌, Option, none, some, List, [], ◌∷◌, ◌++◌, map,
  All, ◌==◌, eq_iff, eq_refl, or_else, truthy, if◌then◌else◌, Bool-cases, inl, inr,
}
use streamerson.Prelude.Result.{ok}
use streamerson.Prelude.Integer.{ℤ, sub_ℕ}
use streamerson.Prelude.Value.{Value, Fields, own, arr, num, str, undefined, truthy_value}
use streamerson.Prelude.Decimal.{show_nat, parse_int, parse_int-show_nat}
use streamerson.Prelude.Dict
use streamerson.Prelude.Dict.{Dict, get-put}
use streamerson.Message.{Json}
use streamerson.Benchmarks.Stages.{
  Stage, StepEvent, step_text, start, finished, finalized, event, opening, Machine, event_value,
  element_fields, report_value,
}
use streamerson.Benchmarks.Stages.Timeline.{Timeline, ended, staged}
use streamerson.Benchmarks.Summary.{
  Results, new_row, record_result, find_step, find_event, property_of, has_own_property,
  summarize_report, summarize_reports, parse_files, summarize_results,
}

-- An index of an array is not its length.
index-ne-length : (n : ℕ) → (show_nat n == "length") ≡ false
index-ne-length n = elim (Bool-cases (show_nat n == "length")) [
  | inr h ↦ h
  | inl h ↦
      let same : show_nat n ≡ "length" = (eq_iff (show_nat n) "length").0 h in
      let no_number : parse_int "length" ≡ none = unfold parse_int in refl in
      absurd (cc (parse_int-show_nat n, same, no_number))
]

find_step-element_fields :
    (n : ℕ) (e : StepEvent) (es : List StepEvent) (step : String)
    → find_step (element_fields n (map event_value (e ∷ es))) step ≡ (
        if step_text e.step == step
        then ok (event_value e)
        else find_step (element_fields (n + 1) (map event_value es)) step)
unfolding find_step element_fields event_value own
find_step-element_fields n e es step = rw (index-ne-length n, find_step) refl

abbrev elements : ℕ → List StepEvent → Fields
elements n l = element_fields n (map event_value l)

-- The search goes past an event of another step, and finds one of its own.
passes-step :
    (n : ℕ) (e : StepEvent) (es : List StepEvent) (step : String)
    → (step_text e.step == step) ≡ false
    → find_step (elements n (e ∷ es)) step ≡ find_step (elements (n + 1) es) step
passes-step n e es step h = find_step-element_fields n e es step ∙ rw h

finds-step :
    (n : ℕ) (e : StepEvent) (es : List StepEvent) (step : String)
    → (step_text e.step == step) ≡ true
    → find_step (elements n (e ∷ es)) step ≡ ok (event_value e)
finds-step n e es step h = find_step-element_fields n e es step ∙ rw h

event_value-truthy : (e : StepEvent) → truthy_value (event_value e) ≡ true
unfolding event_value
event_value-truthy e = refl

module _ {S : Type 0} (machine : Machine S) where
  -- The last event of a benchmark is found.
  finalized-found :
      (total n : ℕ) {stages : List (Stage S)} {l : List StepEvent} {s s' : S}
      → Timeline machine total stages s l s'
      → (e : StepEvent) × (find_step (elements n l) "finalized" ≡ ok (event_value e))
  finalized-found total n (ended {s = s}) = (
    event "timing" finalized (some (sub_ℕ (machine.now s).0 total)) undefined,
    finds-step n _ [] "finalized" refl,
  )
  finalized-found total n (staged {s = s} {s₂ = s₂} {l = l} {v = v} stage h r) =
      let (e, same) = finalized-found total (n + 1 + 1) r in
      (
        e,
        passes-step n (event stage.name start none undefined)
              (event stage.name finished (some (sub_ℕ (machine.now s₂).0 (machine.now s).0)) v ∷ l)
              "finalized" refl
            ∙ passes-step (n + 1)
                (event stage.name finished (some (sub_ℕ (machine.now s₂).0 (machine.now s).0)) v) l
                "finalized" refl
            ∙ same,
      )

-- The first event that finished is the one of the first stage.
finished-found :
    (name : String) (d : Option ℤ) (v : Value) (l : List StepEvent)
    → find_step
        (elements 0 (opening ∷ event name start none undefined ∷ event name finished d v ∷ l))
        "finished"
      ≡ ok (event_value (event name finished d v))
finished-found name d v l =
    passes-step 0 opening (event name start none undefined ∷ event name finished d v ∷ l) "finished"
      refl
    ∙ passes-step (0 + 1) (event name start none undefined) (event name finished d v ∷ l) "finished"
        refl
    ∙ finds-step (0 + 1 + 1) (event name finished d v) l "finished" refl

-- The events of a benchmark whose first stage has a name, a duration and a result.
abbrev pub events_of : String → ℤ → Value → List StepEvent → List StepEvent
events_of name d v l =
    opening ∷ event name start none undefined ∷ event name finished (some d) v ∷ l

finalized-later :
    (name : String) (d : ℤ) (v : Value) (l : List StepEvent)
    → find_step (elements 0 (events_of name d v l)) "finalized"
      ≡ find_step (elements (0 + 1 + 1 + 1) l) "finalized"
finalized-later name d v l =
    passes-step 0 opening (event name start none undefined ∷ event name finished (some d) v ∷ l)
      "finalized" refl
    ∙ passes-step (0 + 1) (event name start none undefined) (event name finished (some d) v ∷ l)
        "finalized" refl
    ∙ passes-step (0 + 1 + 1) (event name finished (some d) v) l "finalized" refl

module _ (type : String) (es : List StepEvent) where
  report-events : property_of (report_value type es) "timingEvents" ≡ ok (arr none (elements 0 es))
  unfolding property_of report_value own
  report-events = refl

  report-type : property_of (report_value type es) "experimentType" ≡ ok (str type)
  unfolding property_of report_value own
  report-type = refl

find_event-arr : (fs : Fields) (step : String) → find_event (arr none fs) step ≡ find_step fs step
unfolding find_event
find_event-arr fs step = refl

module _ (name : String) (d : ℤ) (v : Value) where
  abbrev done : Value
  done = event_value (event name finished (some d) v)

  finished-name : property_of done "name" ≡ ok (str name)
  unfolding property_of event_value own
  finished-name = refl

  finished-has_duration : has_own_property done "duration" ≡ true
  unfolding has_own_property event_value
  finished-has_duration = refl

  finished-duration : property_of done "duration" ≡ ok (num d)
  unfolding property_of event_value own
  finished-duration = refl

module _ (key : Value → String) (key-str : (s : String) → key (str s) ≡ s) where
  -- The report of a benchmark that finished counts under the name of its first stage.
  summarize-report_value :
      (results : Results) (type name : String) (d : ℤ) (v : Value) (l : List StepEvent)
      (e : StepEvent)
      → truthy type ≡ true
      → find_step (elements 0 (events_of name d v l)) "finalized" ≡ ok (event_value e)
      → summarize_report key results (report_value type (events_of name d v l))
        ≡ ok (record_result results name type (num d))
  unfolding summarize_report record_result
  summarize-report_value results type name d v l e t h = rw report-events (
      rw (find_event-arr, h)
        (rw (event_value-truthy, report-type)
          (rw (find_event-arr, finished-found)
            (rw (finished-name, t)
              (rw finished-has_duration
                (rw (finished-duration, key-str name) (rw (key-str type))))))))

-- A benchmark that finished: its type, the name of its first stage, and how long that took.
pub record Measured : Type 0 where
  pub type : String
  pub name : String
  pub duration : ℤ

module _ (json : Json) {S : Type 0} (machine : Machine S) where
  -- Texts of reports that benchmarks wrote, each of the stages that it ran, and what they measured.
  pub data Reports : List String → List Measured → Type 0 where
    nothing : Reports [] []
    reported :
        {files : List String} {runs : List Measured} {stages : List (Stage S)} {s s₂ s' : S}
        {l : List StepEvent} {v : Value} (type : String) (total : ℕ) (stage : Stage S)
        → truthy type ≡ true
        → stage.fn (machine.now s).1 ≡ (ok v, s₂)
        → Timeline machine total stages (machine.now s₂).1 l s'
        → json.plain (
            report_value type
              (events_of stage.name (sub_ℕ (machine.now s₂).0 (machine.now s).0) v l))
          ≡ true
        → Reports files runs
        → Reports
            (json.stringify (
                report_value type
                  (events_of stage.name (sub_ℕ (machine.now s₂).0 (machine.now s).0) v l))
              ∷ files)
            (record {
              type = type;
              name = stage.name;
              duration = sub_ℕ (machine.now s₂).0 (machine.now s).0;
            }
              ∷ runs)

-- What is measured is recorded, in order.
record_all : Results → List Measured → Results
record_all results [] = results
record_all results (m ∷ runs) =
    record_all (record_result results m.name m.type (num m.duration)) runs

-- `results[name][type]`, if both are there.
abbrev column : Option (Dict Value) → String → Option Value
column none type = none
column (some row) type = Dict.get row type

abbrev pub duration_of : Results → String → String → Option Value
duration_of results name type = column (Dict.get results name) type

column-or_else :
    (row : Option (Dict Value)) (type : String) {v : Value}
    → column row type ≡ some v
    → Dict.get (or_else row new_row) type ≡ some v
column-or_else none type h = cc
column-or_else (some row) type h = h

duration_of-record_result :
    (results : Results) (name type : String) (v : Value)
    → duration_of (record_result results name type v) name type ≡ some v
unfolding record_result
duration_of-record_result results name type v = simp (get-put, eq_refl)

-- Two measurements fill different places of the summary.
abbrev pub Apart : String → String → Measured → Type 0
Apart name type m = ((m.name == name) && (m.type == type)) ≡ false

duration_of-kept :
    (results : Results) (name type : String) (m : Measured) {v : Value}
    → Apart name type m
    → duration_of results name type ≡ some v
    → duration_of (record_result results m.name m.type (num m.duration)) name type ≡ some v
unfolding record_result
duration_of-kept results name type m apart h = elim (Bool-cases (m.name == name)) [
  | inr other ↦ rw (get-put, other) h
  | inl same ↦
      let other : (m.type == type) ≡ false = rw same at apart in
      let equal : m.name ≡ name = (eq_iff m.name name).0 same in
      rw (get-put, same)
        (rw (get-put, other) (column-or_else (Dict.get results m.name) type (rw equal h)))
]

duration_of-record_all :
    (results : Results) (name type : String) (runs : List Measured) {v : Value}
    → All (Apart name type) runs
    → duration_of results name type ≡ some v
    → duration_of (record_all results runs) name type ≡ some v
unfolding record_all
duration_of-record_all results name type [] apart h = h
duration_of-record_all results name type (m ∷ runs) apart h =
    duration_of-record_all (record_result results m.name m.type (num m.duration)) name type runs
      apart.1 (duration_of-kept results name type m apart.0 h)

record_all-append :
    (results : Results) (before after : List Measured)
    → record_all results (before ++ after) ≡ record_all (record_all results before) after
unfolding record_all
record_all-append results [] after = refl
record_all-append results (m ∷ before) after =
    record_all-append (record_result results m.name m.type (num m.duration)) before after

module _ (key : Value → String) (key-str : (s : String) → key (str s) ≡ s) where
  module _ (json : Json) {S : Type 0} (machine : Machine S) where
    -- What the texts are parsed to, and what the summary of that records.
    summarize-Reports :
        {files : List String} {runs : List Measured}
        → Reports json machine files runs
        → (values : List Value) × (parse_files key json files ≡ ok values)
          × ((results : Results)
              → summarize_reports key results values ≡ ok (record_all results runs))
    unfolding parse_files summarize_reports record_all
    summarize-Reports nothing = ([], refl, λ results. refl)
    summarize-Reports
          (reported {s = s} {s₂ = s₂} {l = l} {v = v} type total stage t h r plain more) =
        let (values, parsed, recorded) = summarize-Reports more in
        let (e, last) = finalized-found machine total (0 + 1 + 1 + 1) r in
        let d = sub_ℕ (machine.now s₂).0 (machine.now s).0 in
        let report = report_value type (events_of stage.name d v l) in
        (
          report ∷ values,
          rw (json.parse-stringify report plain) (rw parsed),
          λ results.
              rw
                (summarize-report_value key key-str results type stage.name d v l e t
                  (finalized-later stage.name d v l ∙ last))
                (recorded (record_result results stage.name type (num d))),
        )

    -- Benchmarks with types that are not empty finished, and their reports are plain JSON. Then the
    -- summary of the reports succeeds, and has at a benchmark's name and type what its last report of
    -- that name and type measured: the time that its first stage took.
    pub summarize_results-last :
        {files : List String} (before after : List Measured) (m : Measured)
        → Reports json machine files (before ++ m ∷ after)
        → All (Apart m.name m.type) after
        → (results : Results) × (summarize_results key json files ≡ ok results)
          × (duration_of results m.name m.type ≡ some (num m.duration))
    unfolding summarize_results
    summarize_results-last before after m reports apart =
        let (values, parsed, recorded) = summarize-Reports reports in
        (
          record_all [] (before ++ m ∷ after),
          rw parsed (recorded []),
          rw (record_all-append [] before (m ∷ after)) (
              unfold record_all in
              duration_of-record_all _ m.name m.type after apart
                (duration_of-record_result (record_all [] before) m.name m.type (num m.duration))),
        )
