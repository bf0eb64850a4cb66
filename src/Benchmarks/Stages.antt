-- ===== src/Benchmarks/Stages.antt =====
-- The stages of a benchmark and their report: iterateTimedEvents.ts, report.ts and contexts.ts of
-- packages/benchmarking/src/utils. `for await` runs its body at each event that the generator
-- yields, before the generator goes on, so the generator takes the body as a function. What is
-- logged is left out.
pub mod Timeline
use streamerson.Prelude.{
  ℕ, ◌+◌, String, ◌≡◌, refl, ap, map, ◌∙◌, Bool, true, false, Option, none, some, List, [], ◌∷◌,
  ◌++◌, ◌==◌, append-nil, append_assoc, or_else, truthy, if◌then◌else◌,
}
use streamerson.Prelude.Result.{Result, ok, err, is_ok}
use streamerson.Prelude.Integer.{ℤ, pos, sub_ℕ}
use streamerson.Prelude.Value.{Value, Fields, num, str, arr, obj, undefined, end, field}
use streamerson.Prelude.Decimal.{show_nat}
use streamerson.Prelude.Dict
use streamerson.Prelude.Dict.{Dict}
use streamerson.Message.{Json}

pub data Step : Type 0 where
  begin start finished finalized : Step

abbrev pub step_text : Step → String
step_text begin = "begin"
step_text start = "start"
step_text finished = "finished"
step_text finalized = "finalized"

pub record StepEvent : Type 0 where
  pub name : String
  pub step : Step
  pub duration : Option ℤ
  pub result : Value

-- A stage runs on a state of the world, and may throw.
pub record Stage (S : Type 0) : Type 0 where
  pub name : String
  pub fn : S → Result Value × S

-- `Date.now()`, the writing of a file, an upload with `fetch`, and the variables of the process.
pub record Machine (S : Type 0) : Type 0 where
  pub now : S → ℕ × S
  pub write_file : String → String → S → Result (Unit {0}) × S
  pub upload : String → String → S → Result (Unit {0}) × S
  pub env : Dict String

-- A context: `shut` is what a connected benchmark does with its data source at the end, for the
-- framework's own an `abort` and then a `disconnect`.
pub record BenchmarkingContext (S : Type 0) : Type 0 where
  pub experiment_type : String
  pub connect : Bool
  pub shut : S → Result (Unit {0}) × S

-- `getClientContext` and `getFrameworkContext`, once they are connected.
module _ {S : Type 0} where
  unfoldable pub client_context : Option Bool → (S → Result (Unit {0}) × S) → BenchmarkingContext S
  client_context connect shut = record {
    experiment_type = "control";
    connect = or_else connect true;
    shut = shut;
  }

  unfoldable pub framework_context :
      Option Bool → Option String → (S → Result (Unit {0}) × S) → BenchmarkingContext S
  framework_context connect type shut = record {
    experiment_type = or_else type "experiment";
    connect = or_else connect true;
    shut = shut;
  }

abbrev pub event : String → Step → Option ℤ → Value → StepEvent
event name step duration result = record {
  name = name;
  step = step;
  duration = duration;
  result = result;
}

abbrev pub opening : StepEvent
opening = event "timing" begin none undefined

-- The generator, with the body of the loop over it. `t` is what the body keeps, `s` the world.
module _ {S T : Type 0} (machine : Machine S) (body : StepEvent → T → S → T × S) where
  -- After `await stage.fn()`, begun at a reading of the clock: `next` is the rest of the loop.
  unfoldable pub after_stage :
      (T → S → Result (Unit {0}) × T × S)
      → String
      → ℕ
      → T
      → Result Value × S
      → Result (Unit {0}) × T × S
  after_stage next name started t (err e, s) = (err e, t, s)
  after_stage next name started t (ok result, s) =
      let (ended, s₁) = machine.now s in
      let (t', s₂) = body (event name finished (some (sub_ℕ ended started)) result) t s₁ in
      next t' s₂

  -- The rest of the generator, from a stage on. `total` is when it was begun.
  unfoldable pub iterate_stages : ℕ → List (Stage S) → T → S → Result (Unit {0}) × T × S
  unfolding after_stage
  iterate_stages total [] t s =
      let (time, s') = machine.now s in
      let (t', s₁) = body (event "timing" finalized (some (sub_ℕ time total)) undefined) t s' in
      (ok tt, t', s₁)
  iterate_stages total (stage ∷ stages) t s =
      let (t₀, s₀) = body (event stage.name start none undefined) t s in
      let (started, s₁) = machine.now s₀ in
      after_stage (iterate_stages total stages) stage.name started t₀ (stage.fn s₁)

  -- `for await (const event of iterateTimedEvents(stages)) { … }`
  unfoldable pub iterate_timed_events : List (Stage S) → T → S → Result (Unit {0}) × T × S
  unfolding iterate_stages
  iterate_timed_events stages t s =
      let (total, s') = machine.now s in
      let (t', s₁) = body opening t s' in iterate_stages total stages t' s₁

-- What `JSON.stringify` makes of an event and of a report: a field that is undefined is left out.
with_field : String → Value → Fields → Fields
with_field k undefined fs = fs
with_field k v fs = field k v fs

duration_value : Option ℤ → Value
duration_value none = undefined
duration_value (some n) = num n

unfoldable pub event_value : StepEvent → Value
unfolding with_field duration_value
event_value e = obj none (
    field "name" (str e.name) (
      field "step" (str (step_text e.step))
        (with_field "duration" (duration_value e.duration) (with_field "result" e.result end))))

-- The elements of an array from index n on, and its length.
unfoldable pub element_fields : ℕ → List Value → Fields
element_fields n [] = field "length" (num (pos n)) end
element_fields n (v ∷ vs) = field (show_nat n) v (element_fields (n + 1) vs)

unfoldable pub report_value : String → List StepEvent → Value
unfolding event_value element_fields
report_value experiment_type events = obj none (
    field "experimentType" (str experiment_type)
      (field "timingEvents" (arr none (element_fields 0 (map event_value events))) end))

-- How a benchmark ends: the process exits with a code, or something is thrown.
pub data Ending : Type 0 where
  exited : ℕ → Ending
  threw : String → Ending

abbrev pub is_finalized : Step → Bool
is_finalized finalized = true
is_finalized _ = false

module _ (json : Json) {S : Type 0} (machine : Machine S) (ctx : BenchmarkingContext S) where
  -- `buildReport(ctx, timingEvents)`. The text is that of `json`, indented. `url` is trimmed.
  unfoldable pub build_report : (String → String) → List StepEvent → S → Result (Unit {0}) × S
  unfolding report_value
  build_report trim events s =
      let body = json.stringify (report_value ctx.experiment_type events) in
      let (written, s') = machine.write_file "/app/benchmarking/benchmark-report.json" body s in
      let url = trim (or_else (Dict.get machine.env "STREAMERSON_REPORT_PRESIGNED_URL") "") in
      elim written [
        | err e ↦ (err e, s')
        | ok _ ↦ if truthy url then machine.upload url body s' else (ok tt, s')
      ]

  -- The body of the loop in `withReport`: an error of the data source is caught.
  unfoldable pub report_body : StepEvent → List StepEvent → S → List StepEvent × S
  report_body e events s =
      let (_, closed) = ctx.shut s in
      (events ++ e ∷ [], if is_finalized e.step then (if ctx.connect then closed else s) else s)

  -- How a benchmark ends once its report was built.
  abbrev pub ended_by : Result (Unit {0}) × S → Ending × S
  ended_by (err e, s) = (threw e, s)
  ended_by (ok _, s) = (exited 0, s)

  -- After the loop.
  unfoldable pub conclude : (String → String) → Result (Unit {0}) × List StepEvent × S → Ending × S
  conclude trim (err e, events, s) = (threw e, s)
  conclude trim (ok _, events, s) = ended_by (build_report trim events s)

  -- `withReport(ctx, iterateTimedEvents(stages))()`
  unfoldable pub with_report : (String → String) → List (Stage S) → S → Ending × S
  unfolding build_report report_body iterate_timed_events conclude
  with_report trim stages s = conclude trim (iterate_timed_events machine report_body stages [] s)
