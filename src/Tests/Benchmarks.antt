-- ===== src/Tests/Benchmarks.antt =====
-- Benchmarks at concrete inputs.
use Prim.Native.String.{◌++◌ as ◌<>◌}
use streamerson.Prelude.{
  ℕ, suc, ◌≡◌, ◌*◌, ◌+◌, ◌≤◌, ◌<◌, arith, String, refl, true, false, none, some, List, [], ◌∷◌,
  ◌++◌, ◌⊎◌, All,
}
use streamerson.Prelude.Result.{Result, ok, is_ok}
use streamerson.Prelude.Dict.{merge}
use streamerson.Prelude.Value.{str}
use streamerson.Benchmarks.Readers.{ReaderOptions, ReadMessages, client_reader}
use streamerson.Benchmarks.Readers.Ending.{IsExpected, client_reader-ends}
use streamerson.Benchmarks.Streamer.{
  stream_for, new_streamer, event_read, timer_ran, race, in_time, stream_for-outcome,
}
use streamerson.Benchmarks.Writers.{client_write, after_batches, batch_size}
use streamerson.Benchmarks.Definitions.{Definition, environment_for_definition}
use streamerson.Benchmarks.Stages.{
  Stage, StepEvent, Machine, BenchmarkingContext, opening, with_report, build_report, ended_by,
  threw, client_context,
}
use streamerson.Benchmarks.Stages.Timeline.{Timeline, Fails, shut_down, with_report-ends}
use streamerson.Benchmarks.Programs.{write_client, default_batch}
use streamerson.Benchmarks.Programs.Measuring.{processed, timed, timed_world, write_client-reports}
use streamerson.Benchmarks.Runner.{Shell, all_options, run_single_benchmark, extra_env}
use streamerson.Benchmarks.Runner.Configured.{Tells, run_single_benchmark-Tells}
use streamerson.Tests.Fixtures.{server, texts}

abbrev reader_options : ReaderOptions
reader_options = record {
  stop_at = 2;
  start_at = 0;
  fail_if_fewer = true;
  fail_if_more = false;
  batch_size = none;
}

client_reader-ends_example :
    (r : Result ReadMessages) × ((client_reader server 3 reader_options "orders" 0).0 ≡ some r)
    × IsExpected reader_options r
client_reader-ends_example = client_reader-ends server reader_options "orders" 0

abbrev definition : Definition
definition = record { count = 5; batch_size = 1; read = false }

-- A clock that counts, and a disk and a network that accept everything.
abbrev pub ticking : Machine ℕ
ticking = record {
  now = λ s. (s, suc s);
  write_file = λ path text s. (ok tt, s);
  upload = λ url text s. (ok tt, s);
  env = merge [] (environment_for_definition "write-5" definition);
}

abbrev open_line : ℕ → Result (Unit {0}) × ℕ
open_line s = (ok tt, s)

abbrev context : BenchmarkingContext ℕ
context = client_context none open_line

abbrev pub nothing_done : Stage ℕ
nothing_done = record { name = "idle"; fn = λ s. (ok (str "done"), s) }

abbrev trim : String → String
trim s = s

with_report-ends_example :
    ((l : List StepEvent) × (s' : ℕ) × Timeline ticking
        (ticking.now 0).0
        (nothing_done ∷ [])
        (ticking.now 0).1
        l
        s'
      × (with_report texts ticking context trim (nothing_done ∷ []) 0
          ≡ ended_by texts ticking context (
              build_report texts ticking context trim
                (opening ∷ l)
                (shut_down texts ticking context s'))))
    ⊎ ((e : String) × (s' : ℕ) × Fails ticking
          (ticking.now 0).0
          (nothing_done ∷ [])
          (ticking.now 0).1
          e
          s'
        × (with_report texts ticking context trim (nothing_done ∷ []) 0 ≡ (threw e, s')))
with_report-ends_example = with_report-ends texts ticking context trim (nothing_done ∷ []) 0

writing_accepted :
    (i s : ℕ) → is_ok (client_write server texts ("write-5" <> "-stream") none i s).0 ≡ true
unfolding client_write
writing_accepted i s = refl

write_client-reports_example :
    (let writing = client_write server texts ("write-5" <> "-stream") none in
      let size = batch_size 5 default_batch in
      let s₁ = (open_line 0).1 in
      let s₂ = (ticking.now (ticking.now s₁).1).1 in
      (k : ℕ) × (5 ≤ k * size)
      × (k * size < 5 + size)
      × (write_client texts texts server ticking open_line open_line trim 0
          ≡ ended_by texts ticking context (
              build_report texts ticking context trim
                (timed ticking "write-5"
                  (processed (k * size))
                  s₁
                  (after_batches writing k size s₂))
                (open_line (timed_world ticking (after_batches writing k size s₂))).1)))
write_client-reports_example =
    write_client-reports texts texts server ticking open_line open_line trim "write-5" definition []
      0 refl refl (omega arith) (omega arith) refl writing_accepted

-- A shell that finds each pattern as a file in the directory of the benchmarks, and accepts all.
abbrev shell : Shell ℕ
shell = record {
  glob = λ pattern. pattern ∷ [];
  resolve = λ file. file;
  directory_of = λ file. "core_modules";
  exec_sync = λ c s. (ok tt, suc s);
  env = [];
}

run_single_benchmark-Tells_example :
    All
      (Tells "write-5" definition)
      (run_single_benchmark shell all_options "report.json" "write-client"
        (extra_env "write-client" "write-5" definition)
        0).0
run_single_benchmark-Tells_example =
    run_single_benchmark-Tells shell all_options "write-5" definition "write-client" "report.json" 0

stream_for-outcome_example :
    (stream_for reader_options new_streamer
      (event_read ∷ event_read ∷ timer_ran ∷ event_read ∷ [])).outcome
    ≡ race reader_options (in_time (event_read ∷ event_read ∷ timer_ran ∷ event_read ∷ [])) true
stream_for-outcome_example =
    stream_for-outcome reader_options (event_read ∷ event_read ∷ timer_ran ∷ event_read ∷ [])
