-- ===== src/Cache/Operations.antt =====
-- The operations of the cached data source on the server:
-- packages/state-machine/src/datasources/cacheable.ts.
pub mod Ownership
pub mod Refinement
use streamerson.Prelude.{
  ℕ, suc, String, Bool, true, false, ◌||◌, Option, none, some, List, [], ◌∷◌, if◌then◌else◌,
  truthy?,
}
use Prim.Native.String
use Prim.Native.String.{◌∷◌}
use streamerson.Prelude.Result.{Result, ok, err, rethrow, map_ok}
use streamerson.Prelude.Text.{template, shown}
use streamerson.Prelude.Integer.{ℤ}
use streamerson.Prelude.Decimal.{show_int}
use streamerson.Prelude.Value.{Value, Fields, null, num, str, arr, obj, end, field, spread}
use streamerson.Remote.{RedisDataSource, client_of}
use streamerson.Redis.{Redis}
use streamerson.Cache.{
  Lru, CacheableDataSource, StateConfiguration, KeyOptions, cache_key, Change, increment, decrement,
  changed, cached_number, number_text, map_change, change_text, invalidate_cache, Lookup, hit,
  ask_cached, ask_client, channel_of, begin_read, end_get, end_get_hash,
}

-- What an operation gives: its result, the source and the server.
pub record Outcome (C S A : Type 0) : Type 0 where
  pub result : Result A
  pub source : CacheableDataSource C
  pub server : S

abbrev outcome : {C S A : Type 0} → CacheableDataSource C → Result A × S → Outcome C S A
outcome d (r, s) = record { result = r; source = d; server = s }

abbrev failure : {C S A : Type 0} → String → Outcome C S A → Outcome C S A
failure message o = record o { result = rethrow o.result message }

on_channel : {S A : Type 0} → RedisDataSource → (S → Result A × S) → S → Result A × S
unfolding client_of
on_channel r call s = elim (client_of r) [ ok c ↦ call s | err e ↦ (err e, s) ]

-- A command whose promise only logs a failure: its reply is not looked at, but the getter of the client
-- may throw.
forgotten : {S A B : Type 0} → B → Result A × S → Result B × S
forgotten v (r, s) = (ok v, s)

unawaited : {S A B : Type 0} → RedisDataSource → (S → Result A × S) → B → S → Result B × S
unfolding forgotten client_of
unawaited r call v s = elim (client_of r) [ ok c ↦ forgotten v (call s) | err e ↦ (err e, s) ]

awaited : {S A B : Type 0} → RedisDataSource → (S → Result A × S) → (A → B) → S → Result B × S
unfolding on_channel
awaited r call f s = let (reply, s') = on_channel r call s in (map_ok f reply, s')

module _ {C : Type 0} (lru : Lru C) {S : Type 0} (redis : Redis S) where
  command : Change → String → S → Result ℤ × S
  command increment = redis.incr
  command decrement = redis.decr

  -- `incrOrDecr`: NaN is `none`. An owner counts in its cache; another that rents asks Redis; any
  -- other does nothing and answers 0. An owner awaits what it reads from the cache, so that other calls
  -- may come between its read and its write: these are the two parts.
  unfoldable pub begin_count : String → CacheableDataSource C → Option ℤ
  begin_count key d = cached_number (lru.get d.cache key)

  -- The part after the wait, with the number that was read.
  unfoldable pub end_count :
      Change → String → Bool → Option ℤ → CacheableDataSource C → S → Outcome C S (Option ℤ)
  unfolding command unawaited
  end_count type key replicated val d s =
      let value = map_change type val in
      let d' = record d { cache = lru.set d.cache key (str (number_text value)) } in
      if replicated
      then outcome d' (unawaited d'.cached (command type key) value s)
      else outcome d' (ok value, s)

  -- Both parts with no other call in between, as in what follows.
  count_owned : Change → String → Bool → CacheableDataSource C → S → Outcome C S (Option ℤ)
  unfolding begin_count end_count
  count_owned type key replicated d s = end_count type key replicated (begin_count key d) d s

  count_rented : Change → String → CacheableDataSource C → S → Outcome C S (Option ℤ)
  unfolding command awaited
  count_rented type key d s =
      let d' = invalidate_cache lru d none key in
      outcome d' (awaited d'.client (command type key) some s)

  count : Change → String → StateConfiguration → CacheableDataSource C → S → Outcome C S (Option ℤ)
  unfolding count_owned count_rented
  count type key f d s =
      if f.owner
      then count_owned type key f.replicated d s
      else if f.rent
      then count_rented type key d s
      else outcome d (ok (some (ℤ.pos 0)), s)

  -- The value in the message is the one that was reached before the error.
  reached : Change → String → Bool → CacheableDataSource C → String
  reached type key true d = number_text (map_change type (cached_number (lru.get d.cache key)))
  reached type key false d = "0"

  unfoldable pub incr_or_decr :
      Change → KeyOptions → StateConfiguration → CacheableDataSource C → S → Outcome C S (Option ℤ)
  unfolding count reached
  incr_or_decr type o f d s =
      failure
        (template (
          "Failed attempt to call "
          ∷ change_text type
          ∷ " [key="
          ∷ o.key
          ∷ ", shard="
          ∷ shown o.shard
          ∷ ", value="
          ∷ reached type (cache_key o) f.owner d
          ∷ "]"
          ∷ []))
        (count type (cache_key o) f d s)

  -- `get` and `getHash` with no other call in between.
  get_replied :
      KeyOptions
      → StateConfiguration
      → CacheableDataSource C
      → Result (Option String)
      → S
      → Outcome C S Value
  get_replied o f d (ok reply) s = let (v, d') = end_get lru d o f reply in outcome d' (ok v, s)
  get_replied o f d (err e) s = outcome d (err e, s)

  get_after :
      KeyOptions → StateConfiguration → Lookup × CacheableDataSource C → S → Outcome C S Value
  unfolding on_channel get_replied
  get_after o f (hit v, d) s = outcome d (ok v, s)
  get_after o f (ask, d) s =
      let (reply, s') = on_channel (channel_of d ask) (redis.get (cache_key o)) s in
      get_replied o f d reply s'

  unfoldable pub get :
      KeyOptions → StateConfiguration → CacheableDataSource C → S → Outcome C S Value
  unfolding get_after begin_read end_get
  get o f d s =
      failure
        (template
          ("Failed attempt to call GET [key=" ∷ o.key ∷ ",shard=" ∷ shown o.shard ∷ "]" ∷ []))
        (get_after o f (begin_read lru d o f) s)

  get_hash_replied :
      KeyOptions
      → StateConfiguration
      → CacheableDataSource C
      → Result Fields
      → S
      → Outcome C S Value
  get_hash_replied o f d (ok reply) s =
      let (v, d') = end_get_hash lru d o f reply in outcome d' (ok v, s)
  get_hash_replied o f d (err e) s = outcome d (err e, s)

  get_hash_after :
      KeyOptions → StateConfiguration → Lookup × CacheableDataSource C → S → Outcome C S Value
  unfolding on_channel get_hash_replied
  get_hash_after o f (hit v, d) s = outcome d (ok v, s)
  get_hash_after o f (ask, d) s =
      let (reply, s') = on_channel (channel_of d ask) (redis.hgetall (cache_key o)) s in
      get_hash_replied o f d reply s'

  unfoldable pub get_hash :
      KeyOptions → StateConfiguration → CacheableDataSource C → S → Outcome C S Value
  unfolding get_hash_after begin_read end_get_hash
  get_hash o f d s =
      failure
        (template
          ("Failed attempt to call GET [key=" ∷ o.key ∷ ",shard=" ∷ shown o.shard ∷ "]" ∷ []))
        (get_hash_after o f (begin_read lru d o f) s)

  -- `set`, of a text or a number; `null` goes to `del`, which does nothing and answers false.
  pub as_text : Value → String
  as_text (str s) = s
  as_text (num z) = show_int z
  as_text _ = ""

  set_owned : String → Value → Bool → CacheableDataSource C → S → Outcome C S Bool
  unfolding unawaited as_text
  set_owned key v replicated d s =
      let d' = record d { cache = lru.set d.cache key v } in
      if replicated
      then outcome d' (unawaited d'.cached (redis.set key (as_text v)) true s)
      else outcome d' (ok true, s)

  set_rented : String → Value → CacheableDataSource C → S → Outcome C S Bool
  unfolding awaited as_text
  set_rented key v d s =
      let d' = invalidate_cache lru d none key in
      outcome d' (awaited d'.client (redis.set key (as_text v)) (λ _. true) s)

  set_value : String → Value → StateConfiguration → CacheableDataSource C → S → Outcome C S Bool
  unfolding set_owned set_rented
  set_value key v f d s =
      if f.owner
      then set_owned key v f.replicated d s
      else if f.rent
      then set_rented key v d s
      else outcome d (ok true, s)

  set_or_delete :
      KeyOptions → Value → StateConfiguration → CacheableDataSource C → S → Outcome C S Bool
  unfolding set_value
  set_or_delete o null f d s = outcome d (ok false, s)
  set_or_delete o v f d s = set_value (cache_key o) v f d s

  unfoldable pub set :
      KeyOptions → Value → StateConfiguration → CacheableDataSource C → S → Outcome C S Bool
  unfolding set_or_delete
  set o v f d s =
      failure
        (template (
          "Failed attempt to call SET [key="
          ∷ o.key
          ∷ ", shard="
          ∷ shown o.shard
          ∷ ", value="
          ∷ as_text v
          ∷ "]"
          ∷ []))
        (set_or_delete o v f d s)

  -- `setHash`: `Object.assign` writes into the cached object itself, whoever owns it. A text that is
  -- cached is copied into a new object, with a field for each character. The value in the message is
  -- left out.
  hash_record : Value → Value → Fields
  hash_record (str property) v = field property v end
  hash_record (obj r fs) v = fs
  hash_record _ v = end

  character_fields : ℕ → String → Fields
  character_fields i String.[] = end
  character_fields i (c ∷ s) =
      field (show_int (ℤ.pos i)) (str (c ∷ "")) (character_fields (suc i) s)

  cached_fields : Option Value → Fields
  unfolding character_fields
  cached_fields (some (obj r fs)) = fs
  cached_fields (some (str s)) = character_fields 0 s
  cached_fields _ = end

  assigned_cache : CacheableDataSource C → String → Fields → CacheableDataSource C
  assigned_cache d key fs = elim (lru.get d.cache key) [
    | some (obj r gs) ↦ record d { cache = lru.set d.cache key (obj r fs) }
    | _ ↦ d
  ]

  set_fields_owned : String → Fields → Bool → CacheableDataSource C → S → Outcome C S Bool
  unfolding unawaited
  set_fields_owned key fs replicated d s =
      let d' = record d { cache = lru.set d.cache key (obj none fs) } in
      if replicated
      then outcome d' (unawaited d'.cached (redis.hset key fs) true s)
      else outcome d' (ok true, s)

  set_fields_rented : String → Fields → Bool → CacheableDataSource C → S → Outcome C S Bool
  unfolding unawaited awaited
  set_fields_rented key fs replicated d s =
      let d' = invalidate_cache lru d none key in
      if replicated
      then outcome d' (unawaited d'.cached (redis.hset key fs) true s)
      else outcome d' (awaited d'.client (redis.hset key fs) (λ _. true) s)

  set_fields : String → Fields → StateConfiguration → CacheableDataSource C → S → Outcome C S Bool
  unfolding set_fields_owned set_fields_rented
  set_fields key fs f d s =
      if f.owner
      then set_fields_owned key fs f.replicated d s
      else if f.rent
      then set_fields_rented key fs f.replicated d s
      else outcome d (ok true, s)

  unfoldable pub set_hash :
      KeyOptions → Value → Value → StateConfiguration → CacheableDataSource C → S → Outcome C S Bool
  unfolding hash_record cached_fields assigned_cache set_fields
  set_hash o target v f d s =
      let fs = spread (cached_fields (lru.get d.cache (cache_key o))) (hash_record target v) in
      failure
        (template
          ("Failed attempt to call SET [key=" ∷ o.key ∷ ", shard=" ∷ shown o.shard ∷ "]" ∷ []))
        (set_fields (cache_key o) fs f (assigned_cache d (cache_key o) fs) s)
