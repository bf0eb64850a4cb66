-- ===== src/StateCache.antt =====
-- The state cache: packages/state-machine/src/state-cache.ts. It hands each call to its cached data
-- source, with the configuration of the state's type.
pub mod Connection
use streamerson.Prelude.{String, Bool, false, Option, none, some, [], ◌∷◌}
use streamerson.Prelude.Result.{Result, ok, err}
use streamerson.Prelude.Text.{template, shown}
use streamerson.Prelude.Integer.{ℤ}
use streamerson.Prelude.Dict
use streamerson.Prelude.Dict.{Dict}
use streamerson.Prelude.Value.{Value, null}
use streamerson.Redis.{Redis}
use streamerson.Cache.{
  Lru, CacheableDataSource, StateConfiguration, KeyOptions, Change, increment, decrement,
}
use streamerson.Cache.Operations
use streamerson.Cache.Operations.{Outcome}

-- A state's configuration, with its function of data keys, if any.
pub record ApplicationState : Type 0 where
  pub configuration : StateConfiguration
  pub data_key : Option (String → Option String)

pub record StateCache (C : Type 0) : Type 0 where
  pub states : Dict ApplicationState
  pub auto_cache : CacheableDataSource C

-- `stateConfig ?? {}`
abbrev no_configuration : StateConfiguration
no_configuration = record { owner = false; rent = false; replicated = false }

configured : Option ApplicationState → StateConfiguration
configured none = no_configuration
configured (some a) = a.configuration

-- What a call gives: its result, the state cache and the server.
pub record Called (C S A : Type 0) : Type 0 where
  pub result : Result A
  pub cache : StateCache C
  pub server : S

called : {C S A : Type 0} → StateCache C → Outcome C S A → Called C S A
called c o = record {
  result = o.result;
  cache = record c { auto_cache = o.source };
  server = o.server;
}

module _ {C : Type 0} (lru : Lru C) where
  unfoldable pub has : StateCache C → String → KeyOptions → Bool
  has c type o = streamerson.Cache.has lru c.auto_cache o

  module _ {S : Type 0} (redis : Redis S) where
    unfoldable pub count : Change → StateCache C → String → KeyOptions → S → Called C S (Option ℤ)
    unfolding called configured
    count change c type o s = called c (
        Operations.incr_or_decr lru redis change o (configured (Dict.get c.states type))
          c.auto_cache s)

    unfoldable pub get : StateCache C → String → KeyOptions → S → Called C S Value
    unfolding called configured
    get c type o s =
        called c (Operations.get lru redis o (configured (Dict.get c.states type)) c.auto_cache s)

    unfoldable pub get_hash : StateCache C → String → KeyOptions → S → Called C S Value
    unfolding called configured
    get_hash c type o s =
        called c
          (Operations.get_hash lru redis o (configured (Dict.get c.states type)) c.auto_cache s)

    -- Without a configuration there is nothing to take apart: a write throws, except of null.
    unconfigured : StateCache C → KeyOptions → Value → S → Called C S Bool
    unconfigured c o null s = record { result = ok false; cache = c; server = s }
    unconfigured c o v s = record {
      result = err (
          template (
            "Failed attempt to call SET [key="
            ∷ o.key
            ∷ ", shard="
            ∷ shown o.shard
            ∷ ", value="
            ∷ Operations.as_text lru redis v
            ∷ "]"
            ∷ []));
      cache = c;
      server = s;
    }

    unfoldable pub set : StateCache C → String → KeyOptions → Value → S → Called C S Bool
    unfolding called unconfigured
    set c type o v s = elim (Dict.get c.states type) [
      | none ↦ unconfigured c o v s
      | some a ↦ called c (Operations.set lru redis o v a.configuration c.auto_cache s)
    ]

    -- `value ?? null`
    unfoldable pub set_hash :
        StateCache C → String → KeyOptions → Value → Option Value → S → Called C S Bool
    unfolding called
    set_hash c type o target v s = elim (Dict.get c.states type) [
      | none ↦ record {
        result = err (
            template
              ("Failed attempt to call SET [key=" ∷ o.key ∷ ", shard=" ∷ shown o.shard ∷ "]" ∷ []));
        cache = c;
        server = s;
      }
      | some a ↦
          called c
            (Operations.set_hash lru redis o target (or_null v) a.configuration c.auto_cache s)
    ]
      where
        or_null : Option Value → Value
        or_null none = null
        or_null (some w) = w
