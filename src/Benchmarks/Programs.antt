-- ===== src/Benchmarks/Programs.antt =====
-- The benchmarks as programs: read-client.ts, write-client.ts and write-framework.ts of
-- packages/benchmarking/src/core_modules. A count is at least 1 in each definition; a negative one is
-- taken for 0. What a program throws is the end of it.
pub mod Measuring
use streamerson.Prelude.{
  ℕ, suc, ◌≤◌, ◌<◌, String, Bool, true, false, Option, none, some, List, [], ◌∷◌, if◌then◌else◌,
}
use Prim.Native.String.{◌++◌}
use streamerson.Prelude.Result.{Result, ok, err}
use streamerson.Prelude.Integer.{pos, pos_part}
use streamerson.Prelude.Value.{Value, num, obj, end, field, undefined}
use streamerson.Message.{Json}
use streamerson.Redis.{Redis}
use streamerson.Source.{StreamingDataSource}
use streamerson.Benchmarks.Definitions.{BenchmarkConfig, get_benchmark_config}
use streamerson.Benchmarks.Writers.{bulk_client_writer, bulk_framework_writer, client_writer}
use streamerson.Benchmarks.Readers.{ReaderOptions, ReadMessages, client_reader}
use streamerson.Benchmarks.Stages.{
  Stage, Machine, BenchmarkingContext, client_context, framework_context, with_report, Ending,
  threw,
}

-- `_batchSize` of the bulk writers.
abbrev pub default_batch : ℕ
default_batch = 1000

-- `{ processed }`, and `{ iterations, messageCount }`. A loop that ran out of fuel has no value.
unfoldable pub processed_value : Option (Result ℕ) → Result Value
processed_value none = err "out of fuel"
processed_value (some (err e)) = err e
processed_value (some (ok n)) = ok (obj none (field "processed" (num (pos n)) end))

unfoldable pub messages_value : Option (Result ReadMessages) → Result Value
messages_value none = err "out of fuel"
messages_value (some (err e)) = err e
messages_value (some (ok r)) = ok (
    obj none (
      field "iterations" (num (pos r.iterations))
        (field "messageCount" (num (pos r.message_count)) end)))

abbrev pub stream_of : BenchmarkConfig → String
stream_of config = config.benchmark_name ++ "-stream"

abbrev pub count_of : BenchmarkConfig → ℕ
count_of config = pos_part config.message_count

abbrev pub reader_options : BenchmarkConfig → ReaderOptions
reader_options config = record {
  stop_at = count_of config;
  start_at = 0;
  fail_if_fewer = true;
  fail_if_more = true;
  batch_size = some (pos_part config.batch_size);
}

-- `json` writes messages, and `pretty` reports. `open_line` connects the data source, and `shut` is what
-- the report does with it at the end.
module _ (json pretty : Json) {S : Type 0} (redis : Redis S) (machine : Machine S)
    (open_line shut : S → Result (Unit {0}) × S) (trim : String → String) where
  unfoldable pub write_client_stage : BenchmarkConfig → Stage S
  unfolding processed_value bulk_client_writer
  write_client_stage config = record {
    name = config.benchmark_name;
    fn = λ s.
        let (r, s') =
          bulk_client_writer redis json (stream_of config) (count_of config) none default_batch s in
        (processed_value r, s');
  }

  unfoldable pub write_framework_stage : StreamingDataSource → BenchmarkConfig → Stage S
  unfolding processed_value bulk_framework_writer
  write_framework_stage d config = record {
    name = config.benchmark_name;
    fn = λ s.
        let (r, s') =
          bulk_framework_writer redis json (stream_of config) (count_of config) none d default_batch
            s in
        (processed_value r, s');
  }

  unfoldable pub read_client_stage : BenchmarkConfig → Stage S
  unfolding messages_value client_reader
  read_client_stage config = record {
    name = config.benchmark_name;
    fn = λ s.
        let o = reader_options config in
        let (r, s') = client_reader redis (suc o.stop_at) o (stream_of config) s in
        (messages_value r, s');
  }

  -- `run()` of write-client.ts
  unfoldable pub write_client : S → Ending × S
  unfolding write_client_stage with_report
  write_client s = elim (get_benchmark_config machine.env) [
    | err e ↦ (threw e, s)
    | ok config ↦
        let (connected, s₁) = open_line s in
        elim connected [
          | err e ↦ (threw e, s₁)
          | ok _ ↦
              with_report pretty machine (client_context none shut) trim
                (write_client_stage config ∷ []) s₁
        ]
  ]

  -- `run()` of write-framework.ts
  unfoldable pub write_framework : StreamingDataSource → S → Ending × S
  unfolding write_framework_stage with_report
  write_framework d s =
      let (connected, s₁) = open_line s in
      elim connected [
        | err e ↦ (threw e, s₁)
        | ok _ ↦ elim (get_benchmark_config machine.env) [
          | err e ↦ (threw e, s₁)
          | ok config ↦
              with_report pretty machine (framework_context none none shut) trim
                (write_framework_stage d config ∷ []) s₁
        ]
      ]

  -- `run()` of read-client.ts: it writes what it then reads.
  unfoldable pub read_client : S → Ending × S
  unfolding read_client_stage with_report client_writer
  read_client s = elim (get_benchmark_config machine.env) [
    | err e ↦ (threw e, s)
    | ok config ↦
        let (connected, s₁) = open_line s in
        let (written, s₂) = client_writer redis json (stream_of config) (count_of config) none s₁ in
        elim connected [
          | err e ↦ (threw e, s₁)
          | ok _ ↦ elim written [
            | err e ↦ (threw e, s₂)
            | ok _ ↦
                with_report pretty machine (client_context none shut) trim
                  (read_client_stage config ∷ []) s₂
          ]
        ]
  ]
