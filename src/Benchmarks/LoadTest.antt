-- ===== src/Benchmarks/LoadTest.antt =====
-- The commands of a load test: tools/run-load-test.ts. What is printed is left out.
use streamerson.Prelude.{
  String, Bool, true, ◌||◌, not, Option, none, some, List, [], ◌∷◌, ◌++◌, or_else, truthy?,
  if◌then◌else◌,
}
use streamerson.Prelude.Result.{Result, ok, err, ◌>>◌}
use streamerson.Prelude.Text.{template}
use streamerson.Prelude.Dict.{Dict, merge}
use streamerson.Benchmarks.Runner.{Shell, Command, in_case, build_base_image_command}

pub record LoadTestOptions : Type 0 where
  pub build : Option Bool
  pub exec : Option Bool
  pub target : Option String
  pub framework : Bool
  pub control : Bool

-- `args.framework ? 'streamerson' : 'fastify'`
abbrev pub mode_prefix : LoadTestOptions → String
mode_prefix o = if o.framework then "streamerson" else "fastify"

-- A file of the load tests, before it is resolved.
abbrev load_test_file : String → String
load_test_file name = template ("./packages/benchmarking/src/loadtests/" ∷ name ∷ [])

module _ {S : Type 0} (shell : Shell S) (stat : String → Result (Unit {0})) where
  -- `stat` rejects for a file that is not there; what it gives for one that is there is truthy, so the
  -- errors that the code has for missing files are never thrown.
  unfoldable pub check_files : LoadTestOptions → String → Result (Unit {0})
  check_files o target =
      stat (shell.resolve (load_test_file (template (mode_prefix o ∷ "-microservice.ts" ∷ []))))
      >> (stat (shell.resolve (load_test_file (template (mode_prefix o ∷ "-gateway.ts" ∷ []))))
          >> stat
              (shell.resolve (load_test_file (template ("artillery/" ∷ target ∷ ".yaml" ∷ [])))))

  unfoldable pub load_test_env : LoadTestOptions → String → Dict String
  load_test_env o target = merge shell.env (
      ("STREAMERSON_BENCHMARK_DIRECTORY", "loadtests")
      ∷ ("STREAMERSON_BENCHMARK_GATEWAY_FILE_TARGET", template (mode_prefix o ∷ "-gateway" ∷ []))
      ∷ (
        "STREAMERSON_BENCHMARK_MICROSERVICE_FILE_TARGET",
        template (mode_prefix o ∷ "-microservice" ∷ []),
      )
      ∷ (
        "STREAMERSON_BENCHMARK_REPORT_PATH",
        template ("loadtest/" ∷ mode_prefix o ∷ "-" ∷ target ∷ "-report.json" ∷ []),
      )
      ∷ ("STREAMERSON_BENCHMARK_TARGET", target)
      ∷ [])

  load_test_command : Dict String → String → Command
  load_test_command env line = record {
    line = line;
    cwd = some (shell.resolve "./packages/benchmarking");
    env = env;
  }

  unfoldable pub load_test_commands : LoadTestOptions → String → List Command
  unfolding load_test_env load_test_command
  load_test_commands o target =
      let env = load_test_env o target in
      in_case (or_else o.build true) (
        record {
          line =
              build_base_image_command "streamerson/benchmarking:latest"
                (shell.resolve "./packages/benchmarking/build/base.dockerfile");
          cwd = none;
          env = env;
        }
        ∷ [])
      ++ in_case (or_else o.exec true) (
          load_test_command env (
            template (
              "echo \"Initiating Dockerized loadtest for "
              ∷ target
              ∷ " ("
              ∷ mode_prefix o
              ∷ ")\""
              ∷ []))
          ∷ load_test_command env
              "docker compose -f ./build/compose.redis.yaml -f ./build/compose.load.yaml up --abort-on-container-exit --force-recreate --renew-anon-volumes"
          ∷ [])

  -- Commands up to the first that fails, with its error.
  unfoldable pub issue_all : List Command → S → List Command × Result (Unit {0}) × S
  issue_all [] s = ([], ok tt, s)
  issue_all (c ∷ commands) s =
      let (r, s') = shell.exec_sync c s in
      let (issued, result, s₁) = issue_all commands s' in
      elim r [ ok _ ↦ (c ∷ issued, result, s₁) | err e ↦ (c ∷ [], err e, s') ]

  issue_checked :
      LoadTestOptions → String → Result (Unit {0}) → S → List Command × Result (Unit {0}) × S
  unfolding load_test_commands issue_all
  issue_checked o target (err e) s = ([], err e, s)
  issue_checked o target (ok _) s = issue_all (load_test_commands o target) s

  -- `run()`
  unfoldable pub run_load_test : LoadTestOptions → S → List Command × Result (Unit {0}) × S
  unfolding issue_checked check_files
  run_load_test o s =
      if not (o.framework || o.control)
      then ([], err "No benchmark specified; must be one or both of --framework or --control", s)
      else if truthy? o.target
      then issue_checked o (or_else o.target "") (check_files o (or_else o.target "")) s
      else ([], err "No target specified", s)
