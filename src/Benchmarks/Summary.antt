-- ===== src/Benchmarks/Summary.antt =====
-- The summary of the reports: summarizeResults.ts of packages/benchmarking/tools. The files are given
-- as their texts, in the order in which they were found. The table in Markdown, which computes with
-- floating point numbers, is left out.
pub mod Rows
use streamerson.Prelude.{String, Bool, true, false, List, [], ◌∷◌, ◌==◌, or_else, if◌then◌else◌}
use streamerson.Prelude.Result.{Result, ok, err, ◌>>=◌, ◌>>◌, guard}
use streamerson.Prelude.Value.{
  Value, Fields, str, arr, obj, undefined, null, end, field, own, truthy_value,
}
use streamerson.Prelude.Text.{template}
use streamerson.Prelude.Dict
use streamerson.Prelude.Dict.{Dict, get-put}
use streamerson.Message.{Json}

-- `v[k]` of a value that JSON can hold, for a name k that no prototype has: null and undefined throw.
unfoldable pub property_of : Value → String → Result Value
property_of undefined k =
    err (template ("Cannot read properties of undefined (reading '" ∷ k ∷ "')" ∷ []))
property_of null k = err (template ("Cannot read properties of null (reading '" ∷ k ∷ "')" ∷ []))
property_of (obj r fs) k = ok (own fs k)
property_of (arr r fs) k = ok (own fs k)
property_of v k = ok undefined

-- `v === s`
abbrev is_string : Value → String → Bool
is_string (str t) s = t == s
is_string v s = false

-- `Object.prototype.hasOwnProperty.call(v, k)`
abbrev has_key : Fields → String → Bool
has_key end k = false
has_key (field j v fs) k = if j == k then true else has_key fs k

unfoldable pub has_own_property : Value → String → Bool
has_own_property (obj r fs) k = has_key fs k
has_own_property (arr r fs) k = has_key fs k
has_own_property v k = false

-- What `find` returns where the test of an element is known, and the rest of the search.
found : Value → String → Result Value → Result Value → Result Value
found v step (err e) rest = err e
found v step (ok s) rest = if is_string s step then ok v else rest

-- `elements.find((e) => e.step === step)`. An array's length is the last of its fields.
unfoldable pub find_step : Fields → String → Result Value
unfolding found property_of
find_step end step = ok undefined
find_step (field k v fs) step =
    let rest = find_step fs step in
    if k == "length" then rest else found v step (property_of v "step") rest

-- `v.find((e) => e.step === step)`: only an array has the method.
unfoldable pub find_event : Value → String → Result Value
unfolding find_step
find_event (arr r fs) step = find_step fs step
find_event undefined step = err "Cannot read properties of undefined (reading 'find')"
find_event null step = err "Cannot read properties of null (reading 'find')"
find_event v step = err "report.timingEvents.find is not a function"

-- `Record<string, Record<ExperimentType, number | 'n/a'>>`
abbrev pub Results : Type 0
Results = Dict (Dict Value)

-- The row of a benchmark of which nothing was measured yet.
abbrev pub new_row : Dict Value
new_row =
    ("control", str "n/a")
    ∷ ("experiment", str "n/a")
    ∷ ("stream", str "n/a")
    ∷ ("iterator", str "n/a")
    ∷ []

-- `results[eventName][experimentType] = duration`, in a row that is made if there is none.
unfoldable pub record_result : Results → String → String → Value → Results
record_result results name type duration =
    Dict.put results name (Dict.put (or_else (Dict.get results name) new_row) type duration)

-- `key` is how a value reads as a property key, and in a text: a text as itself.
module _ (key : Value → String) where
  -- The body of the loop over the reports.
  unfoldable pub summarize_report : Results → Value → Result Results
  unfolding record_result find_event property_of has_own_property
  summarize_report results report = do
    events ← property_of report "timingEvents"
    finalized ← find_event events "finalized"
    guard (truthy_value finalized) "Did not finish benchmarking"
    experiment_type ← property_of report "experimentType"
    finished ← find_event events "finished"
    event_name ← property_of finished "name"
    guard (truthy_value experiment_type)
        (template ("No experiment type found for " ∷ key event_name ∷ []))
    guard (has_own_property finished "duration")
        (template ("No duration found for " ∷ key event_name ∷ []))
    duration ← property_of finished "duration"
    ok (record_result results (key event_name) (key experiment_type) duration)

  unfoldable pub summarize_reports : Results → List Value → Result Results
  unfolding summarize_report
  summarize_reports results [] = ok results
  summarize_reports results (report ∷ reports) = do
    results' ← summarize_report results report
    summarize_reports results' reports

  -- All texts are parsed before any is looked at.
  unfoldable pub parse_files : Json → List String → Result (List Value)
  parse_files json [] = ok []
  parse_files json (file ∷ files) = do
    report ← json.parse file
    reports ← parse_files json files
    ok (report ∷ reports)

  -- `summarizeResults(folder)`
  unfoldable pub summarize_results : Json → List String → Result Results
  unfolding summarize_reports parse_files
  summarize_results json files = do reports ← parse_files json files; summarize_reports [] reports
