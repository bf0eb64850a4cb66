-- ===== src/Benchmarks/Runner/Overwriting.antt =====
-- Where the reports of a run of all benchmarks are copied to.
use streamerson.Prelude.{String, ◌≡◌, Option, none, some, List, [], ◌∷◌, ◌++◌}
use streamerson.Prelude.Result.{ok}
use streamerson.Prelude.Dict.{Dict}
use streamerson.Benchmarks.Definitions.{Definition, definitions}
use streamerson.Benchmarks.Runner.{
  Command, Shell, copy_report_command, app_pattern, target_of, report_of,
}

-- The last command of a run.
abbrev pub last_line : List Command → Option String
last_line [] = none
last_line (c ∷ []) = some c.line
last_line (c ∷ c' ∷ commands) = last_line (c' ∷ commands)

-- Every command succeeds.
abbrev pub Accepts : {S : Type 0} → Shell S → Type 0
Accepts {S} shell = (c : Command) (s : S) → (shell.exec_sync c s).0 ≡ ok tt

-- For each target one app file is found, in the directory `core_modules`.
abbrev pub FindsApps : {S : Type 0} → Shell S → Type 0
FindsApps shell =
    (test type : String)
    → (file : String) × (shell.glob (app_pattern (target_of test type)) ≡ file ∷ [])
      × (shell.directory_of (shell.resolve file) ≡ "core_modules")

-- The copies of the reports of some definitions, for a type and for all types.
abbrev pub copies : String → Dict Definition → List (Option String)
copies type [] = []
copies type ((name, d) ∷ defs) =
    some (copy_report_command "core_modules" (report_of name type)) ∷ copies type defs

abbrev pub all_copies : List (Option String)
all_copies = copies "client" definitions ++ copies "framework" definitions
