-- ===== src/Benchmarks/Runner.antt =====
-- The commands that run the benchmarks: tools/run-benchmark.ts. The files that `glob` finds do not
-- change while it runs. What is printed is left out.
pub mod Overwriting
pub mod Configured
use streamerson.Prelude.{
  ℕ, String, ◌≡◌, refl, ap, sym, ◌∙◌, Bool, true, false, ◌&&◌, ◌||◌, not, Option, none, some, List,
  [], ◌∷◌, ◌++◌, map, All, All-append, or_else, truthy, arith, if◌then◌else◌, Bool-cases, inl, inr,
}
use streamerson.Prelude.Result.{Result, ok, err}
use streamerson.Prelude.Text.{template, includes}
use streamerson.Prelude.Dict
use streamerson.Prelude.Dict.{Dict, get-put, merge}
use streamerson.Benchmarks.Definitions.{
  Definition, definitions, environment_for_definition, get_benchmark_config, configured,
}

pub record CliOptions : Type 0 where
  pub report : Option Bool
  pub build : Option Bool
  pub exec : Option Bool
  pub folder : String

-- A command for `execSync`: where it runs, if that is said, and the variables that it sees.
pub record Command : Type 0 where
  pub line : String
  pub cwd : Option String
  pub env : Dict String

-- `glob`, `path.resolve`, `path.basename(path.dirname(file))`, `execSync` and the process's variables.
pub record Shell (S : Type 0) : Type 0 where
  pub glob : String → List String
  pub resolve : String → String
  pub directory_of : String → String
  pub exec_sync : Command → S → Result (Unit {0}) × S
  pub env : Dict String

unfoldable pub build_base_image_command : String → String → String
build_base_image_command name path = template ("docker build -t " ∷ name ∷ " . -f " ∷ path ∷ [])

unfoldable pub build_benchmark_image_command : String → String → String → String
build_benchmark_image_command directory tag path =
    template ("docker build --build-arg TARGET=" ∷ directory ∷ " -t " ∷ tag ∷ " . -f " ∷ path ∷ [])

unfoldable pub copy_report_command : String → String → String
copy_report_command directory report_name = template (
    "docker cp build-benchmark-1:/app/benchmarking/benchmark-report.json ./_reports/" ∷ directory
    ∷ "/" ∷ report_name ∷ [])

-- The first of some files, if there is one.
abbrev first : List String → Option String
first [] = none
first (f ∷ fs) = some f

abbrev pub in_case : Bool → List Command → List Command
in_case true l = l
in_case false l = []

abbrev pub app_pattern : String → String
app_pattern file_key = template ("./packages/benchmarking/src/**/*" ∷ file_key ∷ ".ts" ∷ [])

abbrev image_of : String → String
image_of directory = template ("streamerson/benchmarking/" ∷ directory ∷ ":latest" ∷ [])

module _ {S : Type 0} (shell : Shell S) where
  -- The commands that are issued, up to the first that fails.
  unfoldable pub issue : List Command → S → List Command × S
  issue [] s = ([], s)
  issue (c ∷ commands) s =
      let (r, s') = shell.exec_sync c s in
      let rest = issue commands s' in elim r [ ok _ ↦ (c ∷ rest.0, rest.1) | err e ↦ (c ∷ [], s') ]

module _ {S : Type 0} (shell : Shell S) (options : CliOptions) where
  -- The variables of the commands for an app in a directory.
  unfoldable pub command_env : String → Dict String → Dict String
  command_env directory extra =
      merge
        (merge shell.env (
          ("STREAMERSON_IMAGE_TARGET", image_of directory)
          ∷ ("STREAMERSON_BENCHMARK_TARGET", options.folder)
          ∷ ("STREAMERSON_BENCHMARK_DIRECTORY", directory)
          ∷ ("STREAMERSON_PROJECT", directory)
          ∷ []))
        extra

  unfoldable pub build_commands : String → Dict String → List Command
  build_commands directory env =
      let docker_files =
        shell.glob (
          template
            ("./packages/benchmarking/src/**/" ∷ directory ∷ "/benchmark.dockerfile" ∷ [])) in
      let docker_file =
        or_else (first docker_files)
          (shell.resolve "./packages/benchmarking/build/app.dockerfile") in
      record {
        line =
            build_base_image_command "streamerson/benchmarking:latest"
              (shell.resolve "./packages/benchmarking/build/base.dockerfile");
        cwd = none;
        env = env;
      }
      ∷ record {
        line = build_benchmark_image_command directory (image_of directory) docker_file;
        cwd = none;
        env = env;
      }
      ∷ []

  unfoldable pub exec_command : Dict String → String → Command
  exec_command env line = record {
    line = line;
    cwd = some (shell.resolve "./packages/benchmarking");
    env = env;
  }

  -- The file that composes the containers of an app.
  unfoldable pub compose_file : String → String → String
  compose_file directory app_file =
      let files = shell.glob (
        template
          ("./packages/benchmarking/src/**/" ∷ directory ∷ "/benchmark.compose.yaml" ∷ [])) in
      or_else (first files) (
        if includes app_file "webapp"
        then "./build/compose.stack.yaml"
        else "./build/compose.benchmark.yaml")

  unfoldable pub execute_commands : String → String → String → Dict String → List Command
  unfolding exec_command compose_file
  execute_commands report_name app_file directory env =
      exec_command env (template ("echo \"Starting benchmark for " ∷ directory ∷ "\"" ∷ []))
      ∷ exec_command env (
          template (
            "docker compose -f ./build/compose.redis.yaml -f "
            ∷ compose_file directory app_file
            ∷ " up --abort-on-container-exit --force-recreate --renew-anon-volumes"
            ∷ []))
      ∷ in_case (or_else options.report true)
          (exec_command env (copy_report_command directory report_name) ∷ [])

  -- The body of the loop over the app files: what it would issue.
  unfoldable pub app_commands : String → Dict String → String → List Command
  unfolding execute_commands build_commands
  app_commands report_name extra file =
      let app_file = shell.resolve file in
      let directory = shell.directory_of app_file in
      let env = command_env directory extra in
      if truthy options.folder && not (includes options.folder directory)
      then []
      else in_case (or_else options.build false) (build_commands directory env)
        ++ in_case (or_else options.exec false)
            (execute_commands report_name app_file directory env)

  unfoldable pub all_commands : String → Dict String → List String → List Command
  unfolding app_commands
  all_commands report_name extra [] = []
  all_commands report_name extra (file ∷ files) =
      app_commands report_name extra file ++ all_commands report_name extra files

  -- `runSingleBenchmark(options, reportName, fileKey, envExtra)`: what it throws it prints.
  unfoldable pub run_single_benchmark : String → String → Dict String → S → List Command × S
  unfolding all_commands issue
  run_single_benchmark report_name file_key extra s =
      let acts = or_else options.exec false || or_else options.build false in
      let app_files = shell.glob (app_pattern file_key) in
      if acts then issue shell (all_commands report_name extra app_files) s else ([], s)

abbrev pub all_options : CliOptions
all_options = record {
  report = some true;
  build = some true;
  exec = some true;
  folder = "core_modules";
}

abbrev pub target_of : String → String → String
target_of test type = template (test ∷ "-" ∷ type ∷ [])

abbrev pub report_of : String → String → String
report_of name type = template (name ∷ "-" ∷ type ∷ "-report.json" ∷ [])

-- What a run adds to the variables: the definition's, and what it is to run.
unfoldable pub extra_env : String → String → Definition → Dict String
extra_env target name d = merge (environment_for_definition name d) (
    ("STREAMERSON_BENCHMARK_FILE_TARGET", target)
    ∷ ("STREAMERSON_BENCHMARK_DIRECTORY", "core_modules")
    ∷ ("STREAMERSON_PROJECT", "core_modules")
    ∷ [])

module _ {S : Type 0} (shell : Shell S) where
  unfoldable pub run_benchmark : String → String → String → Definition → S → List Command × S
  unfolding run_single_benchmark extra_env
  run_benchmark test type name d s =
      let target = target_of test type in
      run_single_benchmark shell all_options (report_of name type) target (extra_env target name d)
        s

  -- The innermost loop: the commands of each run, one after the other.
  unfoldable pub run_definitions : String → String → Dict Definition → S → List (List Command) × S
  unfolding run_benchmark
  run_definitions test type [] s = ([], s)
  run_definitions test type ((name, d) ∷ defs) s =
      let (commands, s') = run_benchmark test type name d s in
      let (runs, s₁) = run_definitions test type defs s' in (commands ∷ runs, s₁)

  unfoldable pub run_types : String → List String → Dict Definition → S → List (List Command) × S
  unfolding run_definitions
  run_types test [] defs s = ([], s)
  run_types test (type ∷ types) defs s =
      let (runs, s') = run_definitions test type defs s in
      let (more, s₁) = run_types test types defs s' in (runs ++ more, s₁)

  unfoldable pub run_tests : List String → Dict Definition → S → List (List Command) × S
  unfolding run_types
  run_tests [] defs s = ([], s)
  run_tests (test ∷ tests) defs s =
      let (runs, s') = run_types test ("client" ∷ "framework" ∷ []) defs s in
      let (more, s₁) = run_tests tests defs s' in (runs ++ more, s₁)

  -- `runAllBenchmarks()`: the commands of each of its runs.
  unfoldable pub run_all_benchmarks : S → List (List Command) × S
  unfolding run_tests
  run_all_benchmarks s = run_tests ("read" ∷ "write" ∷ []) definitions s
