-- ===== src/StateCache/Connection.antt =====
-- Connecting and disconnecting a state cache: packages/state-machine/src/state-cache.ts.
use streamerson.Prelude.{ℕ, ◌≡◌, false, [], ◌∷◌, ◌++◌, or_else, arith}
use streamerson.Prelude.Result.{Result, ok, err, is_ok}
use streamerson.Remote.{
  quit, DataSourceOptions, new_source, client_of, connect, disconnect, Dialling, dial_up,
}
use streamerson.Cache.{Lru, invalidate_cache}
use streamerson.Cache.Listener.{
  new_cacheable, CacheListener, Ended, begin_cache_listener, end_cache_listener,
}

module _ {C : Type 0} (lru : Lru C) where
  connect_client :
      CacheListener C × Result (Unit {0}) → Dialling → CacheListener C × Result (Unit {0})
  connect_client (l, err e) d = (l, err e)
  connect_client (l, ok _) d =
      let (r, answer) = dial_up l.source.client d in
      (record l { source = record l.source { client = r } }, answer)

  -- `connect()`: the listener of the cache first, then the source's own connection.
  unfoldable pub connect_cache :
      CacheListener C
      → Dialling
      → Dialling
      → Dialling
      → (ℕ → Result ℕ)
      → CacheListener C × Result (Unit {0})
  unfolding connect_client
  connect_cache l d d' d'' reply = connect_client (begin_cache_listener lru l d d' reply) d''

disconnect_client :
    {C : Type 0} → Ended (CacheListener C) → Result (Unit {0}) → Ended (CacheListener C)
disconnect_client ended (err e) = ended
disconnect_client ended (ok _) =
    let (sent, r, answer) = disconnect ended.state.source.client in
    record {
      sent = ended.sent ++ sent;
      state = record ended.state { source = record ended.state.source { client = r } };
      result = answer;
    }

-- `disconnect()`
unfoldable pub disconnect_cache :
    {C : Type 0} → CacheListener C → (ℕ → Result (Unit {0})) → Ended (CacheListener C)
unfolding disconnect_client
disconnect_cache l reply =
    let ended = end_cache_listener l reply in disconnect_client ended ended.result

-- After a new state cache was connected, disconnecting it closes the two connections of the listener,
-- throws, and leaves the third, its own, open.
pub disconnect_cache-connect_cache :
    {C : Type 0} (lru : Lru C) (o : DataSourceOptions) (empty : C) (d d' d'' : Dialling)
    (subscribes : ℕ → Result ℕ) (unsubscribes : ℕ → Result (Unit {0}))
    → (connect_cache lru (new_cacheable o empty) d d' d'' subscribes).1 ≡ ok tt
    → (let l = (connect_cache lru (new_cacheable o empty) d d' d'' subscribes).0 in
        let ended = disconnect_cache l unsubscribes in
        (is_ok ended.result ≡ false)
        × (client_of ended.state.source.client ≡ ok (or_else o.get_connection d''.fresh))
        × (ended.sent
            ≡ quit (or_else o.get_connection d.fresh)
              ∷ quit (or_else o.get_connection d'.fresh)
              ∷ []))
unfolding connect_cache begin_cache_listener new_cacheable new_source connect disconnect_cache
    end_cache_listener disconnect client_of invalidate_cache
disconnect_cache-connect_cache lru o empty d d' d'' subscribes unsubscribes h = ground (arith, h)
