-- ===== src/Benchmarks/Programs/Measuring.antt =====
-- What a benchmark that writes reports, by its definition.
use Prim.Native.String.{◌++◌}
use streamerson.Prelude.{
  ℕ, suc, ◌*◌, ◌+◌, ◌≤◌, ◌<◌, String, ◌≡◌, refl, ap, ◌∙◌, true, Option, none, some, List, [], ◌∷◌,
  truthy, arith,
}
use streamerson.Prelude.Result.{Result, ok, is_ok}
use streamerson.Prelude.Integer.{pos, sub_ℕ}
use streamerson.Prelude.Value.{Value, num, obj, end, field, undefined}
use streamerson.Prelude.Dict.{Dict, merge}
use streamerson.Message.{Json}
use streamerson.Redis.{Redis}
use streamerson.Benchmarks.Definitions.{
  Definition, BenchmarkConfig, environment_for_definition, get_benchmark_config, configured,
  get_benchmark_config-environment_for_definition,
}
use streamerson.Benchmarks.Writers.{
  client_write, bulk_write, batch_size, after_batches, bulk_write-whole_batches,
}
use streamerson.Benchmarks.Stages.{
  Stage, StepEvent, start, finished, finalized, event, opening, Machine, BenchmarkingContext,
  client_context, build_report, ended_by, with_report,
}
use streamerson.Benchmarks.Stages.Timeline.{ended, staged, with_report-Timeline}
use streamerson.Benchmarks.Programs.{
  default_batch, processed_value, write_client_stage, write_client,
}

-- The configuration of a definition whose name is not empty and whose numbers are not 0.
abbrev pub config_of : String → Definition → BenchmarkConfig
config_of name d = record {
  benchmark_name = name;
  message_count = pos d.count;
  batch_size = pos d.batch_size;
}

configured-ok :
    (name : String) (d : Definition)
    → truthy name ≡ true
    → 0 < d.count
    → 0 < d.batch_size
    → configured name d.count d.batch_size ≡ ok (config_of name d)
configured-ok name d named some_asked sized = ground arith

-- What a bulk writer returns.
abbrev pub processed : ℕ → Value
processed n = obj none (field "processed" (num (pos n)) end)

module _ {S : Type 0} (machine : Machine S) where
  -- The events of a benchmark with one stage, from the reading of the clock at its begin in the world
  -- `s`, over the run of the stage, which takes it from `s₁` to `s₂`.
  abbrev pub timed : String → Value → S → S → List StepEvent
  timed name v s s₂ =
      let s₁ = (machine.now s).1 in
      let s₃ = (machine.now s₂).1 in
      opening
      ∷ event name start none undefined
      ∷ event name finished (some (sub_ℕ (machine.now s₂).0 (machine.now s₁).0)) v
      ∷ event "timing" finalized (some (sub_ℕ (machine.now s₃).0 (machine.now s).0)) undefined
      ∷ []

  -- The world after that.
  abbrev pub timed_world : S → S
  timed_world s₂ = (machine.now (machine.now s₂).1).1

  module _ (pretty : Json) (ctx : BenchmarkingContext S) (connected : ctx.connect ≡ true) where
    with_report-timed :
        (trim : String → String) (stage : Stage S) (s s₂ : S) (v : Value)
        → stage.fn (machine.now (machine.now s).1).1 ≡ (ok v, s₂)
        → with_report pretty machine ctx trim (stage ∷ []) s
          ≡ ended_by pretty machine ctx (
              build_report pretty machine ctx trim
                (timed stage.name v s s₂)
                (ctx.shut (timed_world s₂)).1)
    with_report-timed trim stage s s₂ v h =
        with_report-Timeline pretty machine ctx trim (staged stage h ended) ∙ rw connected

module _ (json pretty : Json) {S : Type 0} (redis : Redis S) (machine : Machine S)
    (open_line shut : S → Result (Unit {0}) × S) (trim : String → String) (name : String)
    (d : Definition) where
  abbrev writing : ℕ → S → Result String × S
  writing = client_write redis json (name ++ "-stream") none

  abbrev size : ℕ
  size = batch_size d.count default_batch

  abbrev context : BenchmarkingContext S
  context = client_context none shut

  stage-processed :
      (k : ℕ) (s s' : S)
      → bulk_write writing (suc d.count) d.count size 0 s ≡ (some (ok (k * size)), s')
      → (write_client_stage json pretty redis machine open_line shut trim (config_of name d)).fn s
        ≡ (ok (processed (k * size)), s')
  unfolding write_client_stage
  stage-processed k s s' h = ap (λ (x : Option (Result ℕ) × S). (processed_value x.0, x.1)) h

  -- In a process whose environment was extended by that of a definition with a name, a count and a batch
  -- size, and whose connection opens and accepts the writes: the writing client writes some number k of
  -- whole batches, which are at least as many messages as the definition's count and fewer than a batch too
  -- many. It is timed from right before to right after, and then shuts its connection and builds a report
  -- of that, under the definition's name.
  pub write_client-reports :
      (base : Dict String) (s : S)
      → machine.env ≡ merge base (environment_for_definition name d)
      → truthy name ≡ true
      → 0 < d.count
      → 0 < d.batch_size
      → (open_line s).0 ≡ ok tt
      → ((i : ℕ) (s : S) → is_ok (writing i s).0 ≡ true)
      → (let s₁ = (open_line s).1 in
          let s₂ = (machine.now (machine.now s₁).1).1 in
          (k : ℕ) × (d.count ≤ k * size)
          × (k * size < d.count + size)
          × (write_client json pretty redis machine open_line shut trim s
              ≡ ended_by pretty machine context (
                  build_report pretty machine context trim
                    (timed machine name (processed (k * size)) s₁ (after_batches writing k size s₂))
                    (shut (timed_world machine (after_batches writing k size s₂))).1)))
  unfolding write_client write_client_stage client_context
  write_client-reports base s env named some_asked sized opened accepted =
      let s₁ = (open_line s).1 in
      let s₂ = (machine.now (machine.now s₁).1).1 in
      let (k, written, all, near) =
        bulk_write-whole_batches writing accepted d.count default_batch s₂ some_asked
          (omega arith) in
      let known : get_benchmark_config machine.env ≡ ok (config_of name d) =
        ap get_benchmark_config env
        ∙ get_benchmark_config-environment_for_definition base name d
        ∙ configured-ok name d named some_asked sized in
      (
        k,
        all,
        near,
        rw (known, write_client)
            (rw (opened, write_client)
              (with_report-timed machine pretty context refl trim
                (write_client_stage json pretty redis machine open_line shut trim
                  (config_of name d))
                s₁ (after_batches writing k size s₂) (processed (k * size))
                (stage-processed k s₂ (after_batches writing k size s₂) written))),
      )
