-- ===== src/Support/Environment.antt =====
-- The environment and the log level: packages/core/src/utils/environment.ts and logger.ts. The variables
-- of the process are a dictionary.
use streamerson.Prelude.{
  ℕ, String, ◌≡◌, refl, Bool, true, false, ◌&&◌, ◌||◌, not, Option, none, some, [], ◌∷◌, or_else,
  truthy, ◌==◌, arith, eq_refl, ap, ◌∙◌, if◌then◌else◌, inl, inr, Bool-cases,
}
use streamerson.Prelude.Dict
use streamerson.Prelude.Dict.{Dict, get-put}

pub data EnvironmentKey : Type 0 where
  redis_host redis_port gateway_topic gateway_port gateway_host : EnvironmentKey

abbrev pub variable : EnvironmentKey → String
variable redis_host = "STREAMERSON_REDIS_HOST"
variable redis_port = "STREAMERSON_REDIS_PORT"
variable gateway_topic = "STREAMERSON_GATEWAY_TOPIC"
variable gateway_port = "STREAMERSON_GATEWAY_PORT"
variable gateway_host = "STREAMERSON_GATEWAY_HOST"

abbrev pub default_value : EnvironmentKey → String
default_value redis_host = "localhost"
default_value redis_port = "6379"
default_value gateway_topic = "default"
default_value gateway_port = "42000"
default_value gateway_host = "localhost"

-- `a || b`, for texts
abbrev pub or_text : Option String → String → String
or_text none b = b
or_text (some a) b = if truthy a then a else b

unfoldable pub environment_value_for : Dict String → EnvironmentKey → String
environment_value_for env k = or_text (Dict.get env (variable k)) (default_value k)

abbrev pub default_log_level : String
default_log_level = "debug"

abbrev pub is_log_level : String → Bool
is_log_level level =
    (level == "error")
    || ((level == "warn") || ((level == "info") || ((level == "debug") || (level == "trace"))))

known_level : String → String
known_level level = if is_log_level level then level else default_log_level

-- `getLogLevel()`. `normal` is `toLowerCase().trim()`. What it warns of is left out.
unfoldable pub log_level : (String → String) → Dict String → String
unfolding known_level
log_level normal env = known_level (
    normal (
      or_text (Dict.get env "STREAMERSON_LOG_LEVEL")
        (or_text (Dict.get env "PINO_LOG_LEVEL") default_log_level)))

-- A logger: the shared one, one that can have children or not, or a child with its options and level.
pub data Logger : Type 0 where
  always : Logger
  parent plain : ℕ → Logger
  child : Logger → Dict String → String → Logger

abbrev has_child : Logger → Bool
has_child (plain n) = false
has_child _ = true

abbrev is_always : Logger → Bool
is_always always = true
is_always _ = false

-- `createStreamersonLogger(options, fromLogger)`
unfoldable pub create_logger :
    (String → String) → Dict String → Dict String → Option Logger → Logger
create_logger normal env options from =
    let l = or_else from always in
    elim options [
      | [] ↦ l
      | o ∷ os ↦
          if not (is_always l) && has_child l then child l (o ∷ os) (log_level normal env) else l
    ]

or_text-truthy : (a : Option String) (b : String) → truthy b ≡ true → truthy (or_text a b) ≡ true
or_text-truthy none b h = h
or_text-truthy (some a) b h = ground (arith, h)

default_value-truthy : (k : EnvironmentKey) → truthy (default_value k) ≡ true
default_value-truthy redis_host = refl
default_value-truthy redis_port = refl
default_value-truthy gateway_topic = refl
default_value-truthy gateway_port = refl
default_value-truthy gateway_host = refl

or_text-put :
    (env : Dict String) (name set b : String)
    → truthy set ≡ true
    → or_text (Dict.get (Dict.put env name set) name) b ≡ set
or_text-put env name set b h = rw get-put (rw (eq_refl name) (ground (arith, h)))

is_log_level-known_level : (level : String) → is_log_level (known_level level) ≡ true
unfolding known_level
is_log_level-known_level level = elim (Bool-cases (is_log_level level)) [
  | inl h ↦ rw h h
  | inr h ↦ rw h refl
]

known_level-same : (level : String) → is_log_level level ≡ true → known_level level ≡ level
unfolding known_level
known_level-same level h = rw h refl

-- Every variable has a value that is not empty, and the log level is one of the five that there are,
-- whatever is set and however it is normalised. A level that is set for the library counts if it is one
-- of them when normalised, whatever is set for the logger; with neither set it is debug, if that is left
-- as it is.
pub environment_value_for-log_level :
    (normal : String → String) (env : Dict String) (k : EnvironmentKey) (set : String)
    → truthy set ≡ true
    → is_log_level (normal set) ≡ true
    → normal "debug" ≡ "debug"
    → (truthy (environment_value_for env k) ≡ true)
      × (is_log_level (log_level normal env) ≡ true)
      × (log_level normal (Dict.put env "STREAMERSON_LOG_LEVEL" set) ≡ normal set)
      × (log_level normal [] ≡ "debug")
unfolding environment_value_for log_level Dict.get
environment_value_for-log_level normal env k set full known debug = (
  or_text-truthy (Dict.get env (variable k)) (default_value k) (default_value-truthy k),
  is_log_level-known_level (
      normal (
        or_text (Dict.get env "STREAMERSON_LOG_LEVEL")
          (or_text (Dict.get env "PINO_LOG_LEVEL") default_log_level))),
  ap (λ level. known_level (normal level)) (or_text-put env "STREAMERSON_LOG_LEVEL" set _ full)
      ∙ known_level-same (normal set) known,
  rw debug refl,
)
