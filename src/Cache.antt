-- ===== src/Cache.antt =====
-- The cached data source: packages/state-machine/src/datasources/cacheable.ts, and the state
-- configurations of packages/state-machine/src/types.ts. The cache (lru-cache, a third-party package)
-- is an interface. A read has two parts, before and after the wait for Redis, since other calls may
-- come in between. What is logged is left out.
pub mod Operations
pub mod Listener
use streamerson.Prelude.{
  ℕ, zero, suc, ◌+◌, nat_eq, leb, String, ◌≡◌, Bool, true, false, ◌||◌, Option, none, some, List,
  or_else, ◌==◌, if◌then◌else◌, truthy, truthy?,
}
use streamerson.Prelude.Result.{Result, ok, err, rethrow}
use streamerson.Prelude.Text.{template, shown}
use streamerson.Prelude.Integer.{ℤ, pos, negsuc}
use streamerson.Prelude.Decimal.{show_int, parse_int}
use streamerson.Prelude.Value.{
  Value, Fields, undefined, null, bool, num, str, arr, obj, end, field, spread, truthy_value,
}
use streamerson.Keys.{shard_decorator}
use streamerson.Remote.{RedisDataSource, client_of}
use streamerson.Redis.{Redis}

-- `SECONDS_TO_MS(600)`
abbrev pub ttl : ℕ
ttl = 600000

-- The cache as the constructor makes it, with a time to live and no other limit. `pass` lets a number of
-- milliseconds pass, and `age` bounds the time since an entry was set. What was set is there until it is
-- deleted, or older than the time to live; what becomes of it then is not said.
pub record Lru (C : Type 0) : Type 0 where
  pub get : C → String → Option Value
  pub set : C → String → Value → C
  pub delete : C → String → C
  pub get-set :
      (c : C) (k j : String) (v : Value) → get (set c k v) j ≡ (if k == j then some v else get c j)
  pub pass : ℕ → C → C
  pub age : C → String → ℕ
  pub get-pass :
      (n : ℕ) (c : C) (k : String) → leb (age c k + n) ttl ≡ true → get (pass n c) k ≡ get c k
  pub age-pass : (n : ℕ) (c : C) (k : String) → leb (age (pass n c) k) (age c k + n) ≡ true
  pub age-set :
      (c : C) (k j : String) (v : Value) → age (set c k v) j ≡ (if k == j then 0 else age c j)
  pub age-delete : (c : C) (k j : String) → (k == j) ≡ false → age (delete c k) j ≡ age c j
  pub get-delete : (c : C) (k j : String) → get (delete c k) j ≡ (if k == j then none else get c j)

pub record StateConfiguration : Type 0 where
  pub owner : Bool
  pub rent : Bool
  pub replicated : Bool

pub record KeyOptions : Type 0 where
  pub key : String
  pub shard : Option String

-- `client` is the source's own connection, `cached` that of its cached channel.
pub record CacheableDataSource (C : Type 0) : Type 0 where
  pub client : RedisDataSource
  pub cached : RedisDataSource
  pub cache : C

abbrev pub cache_key : KeyOptions → String
cache_key o = shard_decorator o.key o.shard

pub data Change : Type 0 where
  increment decrement : Change

-- 2^53: up to here every whole number is a double of its own.
abbrev pub max_exact : ℕ
max_exact = 9007199254740992

abbrev pub is_exact : ℤ → Bool
is_exact (pos n) = leb n max_exact
is_exact (negsuc n) = leb (suc n) max_exact

-- `val + 1` and `val - 1` on doubles, for a whole number of at most 2^53 in size: at 2^53 the sum rounds
-- back to it. What rounding makes of larger ones, which counting does not reach, is left out.
unfoldable pub changed : Change → ℤ → ℤ
changed increment (pos n) = if nat_eq n max_exact then pos n else pos (suc n)
changed increment (negsuc zero) = pos 0
changed increment (negsuc (suc n)) = negsuc n
changed decrement (pos zero) = negsuc 0
changed decrement (pos (suc n)) = pos n
changed decrement (negsuc n) = if nat_eq (suc n) max_exact then negsuc n else negsuc (suc n)

-- `parseInt(cache.get(key) ?? '0')`; `none` is NaN.
unfoldable pub cached_number : Option Value → Option ℤ
cached_number none = parse_int "0"
cached_number (some undefined) = parse_int "0"
cached_number (some null) = parse_int "0"
cached_number (some (str s)) = parse_int s
cached_number (some (num z)) = some z
cached_number (some (bool b)) = none
cached_number (some (arr r fs)) = none
cached_number (some (obj r fs)) = none

-- `(val + 1).toString()`
unfoldable pub number_text : Option ℤ → String
number_text none = "NaN"
number_text (some z) = show_int z

unfoldable pub map_change : Change → Option ℤ → Option ℤ
map_change type none = none
map_change type (some z) = some (changed type z)

unfoldable pub change_text : Change → String
change_text increment = "INCR"
change_text decrement = "DECR"

-- `invalidateCache(…args)`, with its first two arguments.
unfoldable pub invalidate_cache :
    {C : Type 0} → Lru C → CacheableDataSource C → Option String → String → CacheableDataSource C
invalidate_cache lru d none key = d
invalidate_cache lru d (some a) key =
    if truthy a then if key == "1" then d else record d { cache = lru.delete d.cache key } else d

-- The entry that marks a read on its way.
abbrev pub caching_in_progress : Value
caching_in_progress = str "caching in progress"

-- What a read does before it waits: it answers from the cache, or asks Redis on one of the channels.
pub data Lookup : Type 0 where
  hit : Value → Lookup
  ask_cached ask_client : Lookup

abbrev pub cacheable : StateConfiguration → Bool
cacheable f = f.replicated || f.rent

cached_hit : Option Value → Option Value
cached_hit none = none
cached_hit (some v) = if truthy_value v then some v else none

as_value : Option String → Value
as_value none = null
as_value (some s) = str s

unfoldable pub channel_of : {C : Type 0} → CacheableDataSource C → Lookup → RedisDataSource
channel_of d ask_cached = d.cached
channel_of d _ = d.client

module _ {C : Type 0} (lru : Lru C) where
  -- `has(options)`
  unfoldable pub has : CacheableDataSource C → KeyOptions → Bool
  has d o = elim (lru.get d.cache o.key) [ none ↦ false | some v ↦ true ]

  unfoldable pub begin_read :
      CacheableDataSource C → KeyOptions → StateConfiguration → Lookup × CacheableDataSource C
  unfolding cached_hit
  begin_read d o f =
      if cacheable f
      then elim (cached_hit (lru.get d.cache (cache_key o))) [
        | some v ↦ (hit v, d)
        | none ↦
            (ask_cached, record d { cache = lru.set d.cache (cache_key o) caching_in_progress })
      ]
      else (ask_client, d)

  -- What a cacheable read does with the reply: a truthy one is cached, any other is deleted.
  store : CacheableDataSource C → KeyOptions → Bool → Value → CacheableDataSource C
  store d o keep v =
      if keep
      then record d { cache = lru.set d.cache (cache_key o) v }
      else record d { cache = lru.delete d.cache (cache_key o) }

  unfoldable pub end_get :
      CacheableDataSource C
      → KeyOptions
      → StateConfiguration
      → Option String
      → Value × CacheableDataSource C
  unfolding store as_value
  end_get d o f reply =
      (as_value reply, (if cacheable f then store d o (truthy? reply) (as_value reply) else d))

  -- An object of HGETALL is truthy, also an empty one.
  unfoldable pub end_get_hash :
      CacheableDataSource C
      → KeyOptions
      → StateConfiguration
      → Fields
      → Value × CacheableDataSource C
  unfolding store
  end_get_hash d o f reply =
      (obj none reply, (if cacheable f then store d o true (obj none reply) else d))
