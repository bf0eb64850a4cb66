-- ===== src/Benchmarks/Summary/Rows.antt =====
-- What the rows of a summary hold.
use streamerson.Prelude.{
  String, ◌≡◌, refl, true, some, List, [], ◌∷◌, ◌==◌, is_some, or_else, Bool-cases, Option-cases,
  inl, inr,
}
use mathlib.Core.Path.{subst}
use mathlib.Core.Option.{some-injective}
use streamerson.Prelude.Result.{Result, ok, err, ◌>>=◌, ok-inj, guard, Result-cases}
use streamerson.Prelude.Value.{Value, truthy_value}
use streamerson.Prelude.Dict
use streamerson.Prelude.Dict.{Dict, get-put}
use streamerson.Message.{Json}
use streamerson.Benchmarks.Summary.{
  Results, new_row, record_result, summarize_report, summarize_reports, parse_files,
  summarize_results, property_of, find_event, has_own_property,
}

-- A row has a column for each type of experiment.
pub record IsRow (row : Dict Value) : Type 0 where
  pub control : is_some (Dict.get row "control") ≡ true
  pub experiment : is_some (Dict.get row "experiment") ≡ true
  pub stream : is_some (Dict.get row "stream") ≡ true
  pub iterator : is_some (Dict.get row "iterator") ≡ true

abbrev pub HasRows : Results → Type 0
HasRows results = (name : String) (row : Dict Value) → Dict.get results name ≡ some row → IsRow row

new_row-IsRow : IsRow new_row
unfolding Dict.get
new_row-IsRow = record { control = refl; experiment = refl; stream = refl; iterator = refl }

put-kept :
    (row : Dict Value) (type j : String) (v : Value)
    → is_some (Dict.get row j) ≡ true
    → is_some (Dict.get (Dict.put row type v) j) ≡ true
put-kept row type j v h =
    rw get-put (elim (Bool-cases (type == j)) [ inl same ↦ rw same refl | inr other ↦ rw other h ])

put-IsRow : (row : Dict Value) (type : String) (v : Value) → IsRow row → IsRow (Dict.put row type v)
put-IsRow row type v r = record {
  control = put-kept row type "control" v r.control;
  experiment = put-kept row type "experiment" v r.experiment;
  stream = put-kept row type "stream" v r.stream;
  iterator = put-kept row type "iterator" v r.iterator;
}

or_else-IsRow :
    (results : Results) (name : String)
    → HasRows results
    → IsRow (or_else (Dict.get results name) new_row)
or_else-IsRow results name rows = elim (Option-cases (Dict.get results name)) [
  | inl missing ↦ rw missing new_row-IsRow
  | inr (row, found) ↦ rw found (rows name row found)
]

record_result-HasRows :
    (results : Results) (name type : String) (v : Value)
    → HasRows results
    → HasRows (record_result results name type v)
unfolding record_result
record_result-HasRows results name type v rows j row h =
    let placed = rw get-put at h in
    elim (Bool-cases (name == j)) [
      | inr other ↦ rows j row (rw other at placed)
      | inl same ↦ subst IsRow (some-injective _ _ (rw same at placed)) (
          put-IsRow (or_else (Dict.get results name) new_row) type v
            (or_else-IsRow results name rows))
    ]

-- A chain that succeeds has a first step that does, and so does the rest on its result.
>>=-first :
    {A B : Type 0} (m : Result A) {f : A → Result B} {b : B}
    → (m >>= f) ≡ ok b
    → (a : A) × (f a ≡ ok b)
>>=-first (ok a) h = (a, h)
>>=-first (err e) h = cc

summarize_report-HasRows :
    (key : Value → String) (results results' : Results) (report : Value)
    → HasRows results
    → summarize_report key results report ≡ ok results'
    → HasRows results'
unfolding summarize_report
summarize_report-HasRows key results results' report rows h =
    let (events, h1) = >>=-first (property_of report "timingEvents") h in
    let (finalized, h2) = >>=-first (find_event events "finalized") h1 in
    let (_, h3) = >>=-first (guard (truthy_value finalized) "Did not finish benchmarking") h2 in
    let (type, h4) = >>=-first (property_of report "experimentType") h3 in
    let (finished, h5) = >>=-first (find_event events "finished") h4 in
    let (name, h6) = >>=-first (property_of finished "name") h5 in
    let (_, h7) = >>=-first (guard (truthy_value type) _) h6 in
    let (_, h8) = >>=-first (guard (has_own_property finished "duration") _) h7 in
    let (duration, h9) = >>=-first (property_of finished "duration") h8 in
    subst HasRows (ok-inj h9) (record_result-HasRows results (key name) (key type) duration rows)

summarize_reports-HasRows :
    (key : Value → String) (reports : List Value) (results results' : Results)
    → HasRows results
    → summarize_reports key results reports ≡ ok results'
    → HasRows results'
unfolding summarize_reports
summarize_reports-HasRows key [] results results' rows h = subst HasRows (ok-inj h) rows
summarize_reports-HasRows key (report ∷ reports) results results' rows h =
    elim (Result-cases (summarize_report key results report)) [
      | inr (e, failed) ↦ absurd (cc (rw failed at h))
      | inl (next, one) ↦
          summarize_reports-HasRows key reports next results'
            (summarize_report-HasRows key results next report rows one) (rw one at h)
    ]

-- Whatever the files hold: if the summary of them succeeds, each row it holds has a column for each of the four
-- types of experiment.
pub summarize_results-IsRow :
    (key : Value → String) (json : Json) (files : List String) (results : Results) (name : String)
    (row : Dict Value)
    → summarize_results key json files ≡ ok results
    → Dict.get results name ≡ some row
    → IsRow row
unfolding summarize_results Dict.get
summarize_results-IsRow key json files results name row h found =
    let (reports, all) = >>=-first (parse_files key json files) h in
    summarize_reports-HasRows key reports [] results (λ j held g. cc) all name row found
