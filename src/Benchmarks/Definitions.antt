-- ===== src/Benchmarks/Definitions.antt =====
-- The benchmarks and their configuration: packages/benchmarking/src/core_modules/definitions.ts. A
-- configuration reaches a benchmark through the variables of its process, as texts.
use streamerson.Prelude.{
  ℕ, zero, suc, ◌+◌, ◌-◌, ◌*◌, ◌/◌, String, ◌≡◌, Bool, true, false, not, Option, none, some, [],
  ◌∷◌, truthy, nat_eq, arith, if◌then◌else◌,
}
use streamerson.Prelude.Result.{Result, ok, err, ◌>>=◌}
use streamerson.Prelude.Integer.{ℤ, pos}
use streamerson.Prelude.Decimal.{show_nat, parse_int, parse_int-show_nat}
use streamerson.Prelude.Text.{template}
use streamerson.Prelude.Dict
use streamerson.Prelude.Dict.{Dict, get-put, merge}

pub record Definition : Type 0 where
  pub count : ℕ
  pub batch_size : ℕ
  pub read : Bool

-- `BULK_FACTOR`, which ignores its argument.
bulk_factor : ℕ → ℕ
bulk_factor n = 1

-- `Math.ceil(a / b)` of natural numbers, b not 0.
ceil_div : ℕ → ℕ → ℕ
ceil_div a b = (a + b - 1) / b

abbrev benchmark_name : String → ℕ → String → String
benchmark_name action thousands manner =
    template (action ∷ "-" ∷ show_nat thousands ∷ "k-" ∷ manner ∷ [])

-- `numberedControledTemplate(thousands)`
unfoldable pub numbered_controled_template : ℕ → Dict Definition
unfolding bulk_factor ceil_div
numbered_controled_template thousands =
    let real_figure = thousands * 1000 in
    let bulk = ceil_div real_figure (bulk_factor real_figure) in
    (
      benchmark_name "write" thousands "iterative",
      record { count = real_figure; batch_size = 1; read = false },
    )
    ∷ (
      benchmark_name "read" thousands "iterative",
      record { count = real_figure; batch_size = 1; read = true },
    )
    ∷ (
      benchmark_name "write" thousands "bulk",
      record { count = real_figure; batch_size = bulk; read = false },
    )
    ∷ (
      benchmark_name "read" thousands "bulk",
      record { count = real_figure; batch_size = bulk; read = true },
    )
    ∷ []

unfoldable pub definitions : Dict Definition
unfolding numbered_controled_template
definitions = merge (numbered_controled_template 1) (numbered_controled_template 100)

unfoldable pub get_definition : String → Result Definition
get_definition name = elim (Dict.get definitions name) [
  | none ↦ err (template ("No definition for " ∷ name ∷ []))
  | some d ↦ ok d
]

unfoldable pub environment_for_definition : String → Definition → Dict String
environment_for_definition name d =
    ("STREAMERSON_BENCHMARK_PROJECT", name)
    ∷ ("STREAMERSON_BENCHMARK_MESSAGE_COUNT", show_nat d.count)
    ∷ ("STREAMERSON_BENCHMARK_BATCH_SIZE", show_nat d.batch_size)
    ∷ []

pub record BenchmarkConfig : Type 0 where
  pub benchmark_name : String
  pub message_count : ℤ
  pub batch_size : ℤ

-- `parseInt(s)`. A variable that is not set reads as no number.
parse_variable : Option String → Option ℤ
parse_variable none = none
parse_variable (some s) = parse_int s

-- The number, unless it is not a number, or 0: both are falsy.
truthy_number : Option ℤ → Option ℤ
truthy_number (some (pos zero)) = none
truthy_number n = n

-- `if (!v) throw new Error(e)`, and the value.
needed {ℓ} : {A : Type ℓ} → String → Option A → Result A
needed e none = err e
needed e (some a) = ok a

truthy_text : Option String → Option String
truthy_text none = none
truthy_text (some s) = if truthy s then some s else none

-- `getBenchmarkConfig()`, over the variables of the process.
unfoldable pub get_benchmark_config : Dict String → Result BenchmarkConfig
unfolding parse_variable truthy_number needed truthy_text
get_benchmark_config env = do
  name ←
      needed "No benchmark name specified"
        (truthy_text (Dict.get env "STREAMERSON_BENCHMARK_PROJECT"))
  message_count ←
      needed "No message count specified"
        (truthy_number (parse_variable (Dict.get env "STREAMERSON_BENCHMARK_MESSAGE_COUNT")))
  batch_size ←
      needed "No batchSize specified"
        (truthy_number (parse_variable (Dict.get env "STREAMERSON_BENCHMARK_BATCH_SIZE")))
  ok (record { benchmark_name = name; message_count = message_count; batch_size = batch_size })

-- What the configuration of a definition is, from whatever environment it extends.
abbrev pub configured : String → ℕ → ℕ → Result BenchmarkConfig
configured name count batch_size =
    if not (truthy name)
    then err "No benchmark name specified"
    else if nat_eq count 0
    then err "No message count specified"
    else if nat_eq batch_size 0
    then err "No batchSize specified"
    else ok
        (record { benchmark_name = name; message_count = pos count; batch_size = pos batch_size })

read_back :
    (name : String) (count batch_size : ℕ)
    → (do
      n ← needed "No benchmark name specified" (truthy_text (some name))
      c ← needed "No message count specified" (truthy_number (some (pos count)))
      b ← needed "No batchSize specified" (truthy_number (some (pos batch_size)))
      ok (record { benchmark_name = n; message_count = c; batch_size = b }))
      ≡ configured name count batch_size
unfolding needed truthy_number truthy_text
read_back name zero zero = ground arith
read_back name zero (suc b) = ground arith
read_back name (suc c) zero = ground arith
read_back name (suc c) (suc b) = ground arith

-- The configuration is read from three variables.
pub get_benchmark_config-variables :
    (env : Dict String) (name : String) (count batch_size : ℕ)
    → Dict.get env "STREAMERSON_BENCHMARK_PROJECT" ≡ some name
    → Dict.get env "STREAMERSON_BENCHMARK_MESSAGE_COUNT" ≡ some (show_nat count)
    → Dict.get env "STREAMERSON_BENCHMARK_BATCH_SIZE" ≡ some (show_nat batch_size)
    → get_benchmark_config env ≡ configured name count batch_size
unfolding get_benchmark_config
get_benchmark_config-variables env name count batch_size project counted batch =
    rw (project, get_benchmark_config)
      (rw (counted, get_benchmark_config)
        (rw (batch, get_benchmark_config)
          (rw (parse_int-show_nat count, get_benchmark_config)
            (rw (parse_int-show_nat batch_size, get_benchmark_config)
              (read_back name count batch_size)))))

module _ (env : Dict String) (name : String) (d : Definition) where
  -- In an environment that was extended by that of a definition, whatever it was before, the
  -- configuration is the definition's name, count and batch size; or an error that names the first
  -- of them that is empty or 0.
  pub get_benchmark_config-environment_for_definition :
      get_benchmark_config (merge env (environment_for_definition name d))
      ≡ configured name d.count d.batch_size
  get_benchmark_config-environment_for_definition =
      get_benchmark_config-variables (merge env (environment_for_definition name d)) name d.count
        d.batch_size (unfold merge environment_for_definition in simp get-put)
        (unfold merge environment_for_definition in simp get-put)
        (unfold merge environment_for_definition in simp get-put)
