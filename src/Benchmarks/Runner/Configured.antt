-- ===== src/Benchmarks/Runner/Configured.antt =====
-- What the commands that run the benchmarks tell them.
use streamerson.Prelude.{
  String, ◌≡◌, Bool, true, false, List, [], ◌∷◌, All, All-append, or_else, truthy, ◌&&◌, ◌||◌, not,
  Bool-cases, inl, inr,
}
use streamerson.Prelude.Result.{Result-cases}
use streamerson.Prelude.Text.{includes}
use streamerson.Prelude.Dict.{Dict, get-put, merge}
use streamerson.Benchmarks.Definitions.{
  Definition, environment_for_definition, get_benchmark_config, configured,
  get_benchmark_config-variables,
}
use streamerson.Benchmarks.Runner.{
  CliOptions, Command, Shell, in_case, exec_command, command_env, build_commands, execute_commands,
  app_commands, all_commands, issue, run_single_benchmark, extra_env,
}

-- A command whose variables configure a benchmark as its definition says.
abbrev pub Tells : String → Definition → Command → Type 0
Tells name d c = get_benchmark_config c.env ≡ configured name d.count d.batch_size

in_case-All {ℓ} :
    (P : Command → Type ℓ) (b : Bool) (l : List Command) → All P l → All P (in_case b l)
in_case-All P true l h = h
in_case-All P false l h = tt

module _ {S : Type 0} (shell : Shell S) (options : CliOptions) (name : String)
    (d : Definition) where
  abbrev told : String → String → Dict String
  told target directory = command_env shell options directory (extra_env target name d)

  command_env-configured :
      (target directory : String)
      → get_benchmark_config (told target directory) ≡ configured name d.count d.batch_size
  command_env-configured target directory =
      get_benchmark_config-variables (told target directory) name d.count d.batch_size
        (unfold command_env extra_env environment_for_definition merge in simp get-put)
        (unfold command_env extra_env environment_for_definition merge in simp get-put)
        (unfold command_env extra_env environment_for_definition merge in simp get-put)

  app_commands-Tells :
      (target report_name file : String)
      → All (Tells name d) (app_commands shell options report_name (extra_env target name d) file)
  unfolding app_commands
  app_commands-Tells target report_name file =
      let app_file = shell.resolve file in
      let directory = shell.directory_of app_file in
      let env = told target directory in
      let same = command_env-configured target directory in
      elim (Bool-cases (truthy options.folder && not (includes options.folder directory))) [
        | inl skipped ↦ rw skipped tt
        | inr wanted ↦ rw wanted (
            All-append (Tells name d)
              (in_case (or_else options.build false) (build_commands shell options directory env))
              (in_case (or_else options.exec false)
                (execute_commands shell options report_name app_file directory env))
              (in_case-All (Tells name d) (or_else options.build false) _
                (unfold build_commands in (same, (same, tt))))
              (in_case-All (Tells name d) (or_else options.exec false) _ (
                unfold execute_commands exec_command in
                (
                  same,
                  (same, in_case-All (Tells name d) (or_else options.report true) _ (same, tt)),
                ))))
      ]

  all_commands-Tells :
      (target report_name : String) (files : List String)
      → All (Tells name d) (all_commands shell options report_name (extra_env target name d) files)
  unfolding all_commands
  all_commands-Tells target report_name [] = tt
  all_commands-Tells target report_name (file ∷ files) =
      All-append (Tells name d)
        (app_commands shell options report_name (extra_env target name d) file)
        (all_commands shell options report_name (extra_env target name d) files)
        (app_commands-Tells target report_name file) (all_commands-Tells target report_name files)

-- What is issued is what was to be issued, or the first of it.
issue-All {ℓ} :
    {S : Type 0} (shell : Shell S) (P : Command → Type ℓ) (commands : List Command) (s : S)
    → All P commands
    → All P (issue shell commands s).0
unfolding issue
issue-All shell P [] s h = tt
issue-All shell P (c ∷ commands) s h = elim (Result-cases (shell.exec_sync c s).0) [
  | inl (u, ran) ↦ rw (ran, issue) (h.0, issue-All shell P commands (shell.exec_sync c s).1 h.1)
  | inr (e, failed) ↦ rw (failed, issue) (h.0, tt)
]

module _ {S : Type 0} (shell : Shell S) (options : CliOptions) (name : String)
    (d : Definition) where
  -- Every command that is issued to run a definition's benchmark, whatever is found and whatever
  -- fails, has variables from which the benchmark reads the definition's name, count and batch size,
  -- or the error that one of them is empty or 0.
  pub run_single_benchmark-Tells :
      (target report_name : String) (s : S)
      → All
          (Tells name d)
          (run_single_benchmark shell options report_name target (extra_env target name d) s).0
  unfolding run_single_benchmark
  run_single_benchmark-Tells target report_name s =
      elim (Bool-cases (or_else options.exec false || or_else options.build false)) [
        | inl acts ↦ rw acts (
            issue-All shell (Tells name d) _ s
              (all_commands-Tells shell options name d target report_name _))
        | inr idle ↦ rw idle tt
      ]
