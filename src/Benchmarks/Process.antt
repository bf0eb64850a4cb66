-- ===== src/Benchmarks/Process.antt =====
-- What the benchmarks do as processes: request.ts and shutdown.ts of packages/benchmarking/src/utils, and
-- config.ts. What is printed is left out.
use streamerson.Prelude.{
  ℕ, zero, suc, ◌+◌, String, ◌≡◌, refl, true, false, Option, none, some, [], ◌∷◌, ltb, arith,
  if◌then◌else◌, inl, inr,
}
use streamerson.Prelude.Result.{Result, ok, err, map_ok, Result-cases}
use streamerson.Prelude.Value.{Value}
use streamerson.Prelude.Text.{template}
use streamerson.Prelude.Dict
use streamerson.Prelude.Dict.{Dict}

-- `makeHTTPRequest(…, count)`. An attempt is a `fetch` and the reading of its JSON, and throws if one of
-- them does. On fuel, of which five are enough from count 0.
module _ {S : Type 0} (attempt : S → Result Value × S) where
  unfoldable pub make_http_request : ℕ → ℕ → S → Option (Result Value) × S
  make_http_request zero count s = (none, s)
  make_http_request (suc fuel) count s =
      let (r, s') = attempt s in
      let again = make_http_request fuel (count + 1) s' in
      if ltb 3 count
      then (some (err "Failed to make HTTP request after 3 attempts"), s)
      else elim r [ ok v ↦ (some (ok v), s') | err _ ↦ again ]

  -- The first of at most n attempts that does not throw.
  unfoldable pub tries : ℕ → S → Result Value × S
  tries zero s = (err "Failed to make HTTP request after 3 attempts", s)
  tries (suc n) s = let (r, s') = attempt s in elim r [ ok v ↦ (ok v, s') | err _ ↦ tries n s' ]

  make_http_request-tries :
      (n count : ℕ) (s : S)
      → count + n ≡ 4
      → make_http_request (suc n) count s ≡ (some (tries n s).0, (tries n s).1)
  unfolding make_http_request tries
  make_http_request-tries zero count s h =
      let last : ltb 3 count ≡ true = ground (arith, h) in rw last
  make_http_request-tries (suc n) count s h =
      let more : ltb 3 count ≡ false = ground (arith, h) in
      rw more (elim (Result-cases (attempt s).0) [
        | inl (v, answered) ↦ rw (answered, tries) refl
        | inr (e, failed) ↦
            rw (failed, tries)
              (make_http_request-tries n (count + 1) (attempt s).1 (omega (arith, h)))
      ])

  -- A request is attempted up to four times, and gives what the first attempt gives that does not throw.
  -- Five units of fuel are enough.
  pub make_http_request-four :
      (s : S) → make_http_request 5 0 s ≡ (some (tries 4 s).0, (tries 4 s).1)
  make_http_request-four s = make_http_request-tries 4 0 s (omega arith)

-- `handleExit(code)` of GracefulShutdown. `cleaned` is what the listeners of the event do, which may throw.
module _ {S : Type 0} (clean cleaned : ℕ → S → Result (Unit {0}) × S) where
  -- The code with which the process exits.
  unfoldable pub handle_exit : ℕ → S → ℕ × S
  handle_exit code s =
      let (r, s') = clean code s in
      let (heard, s₁) = cleaned code s' in
      elim r [ err _ ↦ (1, s') | ok _ ↦ elim heard [ err _ ↦ (1, s₁) | ok _ ↦ (code, s₁) ] ]

pub data Signal : Type 0 where
  exit sigterm sigint sighup : Signal

abbrev pub signal_code : Signal → ℕ
signal_code exit = 0
signal_code sigterm = 143
signal_code sigint = 130
signal_code sighup = 129

-- `buildEnv(props)`: names of fields, and the variables that they are read from.
unfoldable pub build_env : Dict String → Dict String → Result (Dict String)
build_env process [] = ok []
build_env process ((k, variable) ∷ props) = elim (Dict.get process variable) [
  | none ↦ err (template ("Missing env var: " ∷ variable ∷ []))
  | some v ↦ map_ok (λ env. (k, v) ∷ env) (build_env process props)
]
