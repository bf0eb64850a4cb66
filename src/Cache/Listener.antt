-- ===== src/Cache/Listener.antt =====
-- The connections of the cached data source, of packages/state-machine/src/datasources/cacheable.ts:
-- beginCacheListener, endCacheListener and enableCache. The wait of one second is left out, and so is
-- what Redis publishes: the callback of `subscribe` is called once, with the error and the number of
-- subscriptions, and that is all that invalidateCache hears of the channel.
use streamerson.Prelude.{ℕ, String, ◌≡◌, false, List, ◌++◌, ◌==◌, none, if◌then◌else◌, arith}
use streamerson.Prelude.Result.{Result, ok, err, is_ok}
use streamerson.Prelude.Decimal.{show_nat}
use streamerson.Remote.{
  RedisDataSource, DataSourceOptions, Command, LogEntry, raw, new_source, client_of, Dialling,
  dial_up, disconnect,
}
use streamerson.Cache.{Lru, CacheableDataSource, invalidate_cache}

-- The cached data source with its channel for invalidations.
pub record CacheListener (C : Type 0) : Type 0 where
  pub source : CacheableDataSource C
  pub invalidation : RedisDataSource

-- The constructor, with an empty cache.
unfoldable pub new_cacheable : {C : Type 0} → DataSourceOptions → C → CacheListener C
new_cacheable o empty = record {
  source = record { client = new_source o; cached = new_source o; cache = empty };
  invalidation = new_source o;
}

module _ {C : Type 0} (lru : Lru C) where
  -- The callback with what SUBSCRIBE replies. For an error it deletes the key `undefined`, which the
  -- cache never has.
  subscribed : CacheListener C → Result ℕ → CacheListener C × Result (Unit {0})
  subscribed l (ok n) =
      (record l { source = invalidate_cache lru l.source none (show_nat n) }, ok tt)
  subscribed l (err e) = (l, err e)

  subscribe : CacheListener C → (ℕ → Result ℕ) → CacheListener C × Result (Unit {0})
  unfolding subscribed
  subscribe l reply = elim (client_of l.invalidation) [
    | ok c ↦ subscribed l (reply c)
    | err e ↦ (l, err e)
  ]

  connect_invalidation :
      CacheListener C
      → Dialling
      → (ℕ → Result ℕ)
      → Result (Unit {0})
      → CacheListener C × Result (Unit {0})
  unfolding subscribe
  connect_invalidation l d reply (err e) = (l, err e)
  connect_invalidation l d reply (ok _) =
      let (r, answer) = dial_up l.invalidation d in
      elim answer [
        | ok _ ↦ subscribe (record l { invalidation = r }) reply
        | err e ↦ (record l { invalidation = r }, err e)
      ]

  -- `beginCacheListener()`: the second channel is connected when the first one is.
  unfoldable pub begin_cache_listener :
      CacheListener C → Dialling → Dialling → (ℕ → Result ℕ) → CacheListener C × Result (Unit {0})
  unfolding connect_invalidation
  begin_cache_listener l d d' reply =
      let (r, answer) = dial_up l.source.cached d in
      connect_invalidation (record l { source = record l.source { cached = r } }) d' reply answer

-- What an operation on the connections gives: what was sent, the new state, and whether it threw.
pub record Ended (L : Type 0) : Type 0 where
  pub sent : List Command
  pub state : L
  pub result : Result (Unit {0})

-- `this.invalidationChannel.client.unsubscribe(…)`, with what UNSUBSCRIBE replies.
unsubscribe :
    {C : Type 0}
    → List Command
    → CacheListener C
    → (ℕ → Result (Unit {0}))
    → Ended (CacheListener C)
unsubscribe sent l reply = elim (client_of l.invalidation) [
  | ok c ↦ record { sent = sent; state = l; result = reply c }
  | err e ↦ record { sent = sent; state = l; result = err e }
]

disconnect_invalidation :
    {C : Type 0}
    → List Command
    → CacheListener C
    → (ℕ → Result (Unit {0}))
    → Result (Unit {0})
    → Ended (CacheListener C)
unfolding unsubscribe
disconnect_invalidation sent l reply (err e) = record { sent = sent; state = l; result = err e }
disconnect_invalidation sent l reply (ok _) =
    let (more, r, answer) = disconnect l.invalidation in
    elim answer [
      | ok _ ↦ unsubscribe (sent ++ more) (record l { invalidation = r }) reply
      | err e ↦ record {
        sent = sent ++ more;
        state = record l { invalidation = r };
        result = err e;
      }
    ]

-- `endCacheListener()`
unfoldable pub end_cache_listener :
    {C : Type 0} → CacheListener C → (ℕ → Result (Unit {0})) → Ended (CacheListener C)
unfolding disconnect_invalidation
end_cache_listener l reply =
    let (sent, r, answer) = disconnect l.source.cached in
    disconnect_invalidation sent (record l { source = record l.source { cached = r } }) reply answer

-- `enableCache(id)`: what it logs, with what CLIENT TRACKING replies.
unfoldable pub enable_cache :
    {C : Type 0} → CacheListener C → ℕ → (ℕ → Result String) → Result LogEntry
enable_cache l id reply = elim (client_of l.source.cached) [
  | err e ↦ err e
  | ok c ↦ elim (reply c) [
    | err e ↦ err e
    | ok answer ↦ ok (
        if answer == "OK"
        then raw "Enabled client tracking for ID" (show_nat id)
        else raw "Cannot enable client tracking" "")
  ]
]

-- Ending never succeeds: it unsubscribes on a channel that it has just disconnected.
pub end_cache_listener-throws :
    {C : Type 0} (l : CacheListener C) (reply : ℕ → Result (Unit {0}))
    → (is_ok (end_cache_listener l reply).result ≡ false)
      × ((end_cache_listener l reply).state.source.client ≡ l.source.client)
unfolding end_cache_listener disconnect client_of
end_cache_listener-throws l reply = ground arith
