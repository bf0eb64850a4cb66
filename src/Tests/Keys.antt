-- ===== src/Tests/Keys.antt =====
-- Keys and connections at concrete inputs.
use streamerson.Prelude.{◌≡◌, ◌↔◌, none, some, [], ◌∷◌, or_else}
use streamerson.Prelude.Result.{ok, err}
use streamerson.Keys.{consumer_key}
use streamerson.Keys.Separation.{consumer_key-eq_iff, effective_shard}
use streamerson.Remote.{new_source, connect, disconnect, quit}
use streamerson.Remote.Lifecycle.{run, disconnect-connect}
use streamerson.Tests.Fixtures.{orders, source_options}

consumer_key-eq_iff_example :
    (consumer_key orders (some "a") ≡ consumer_key orders none)
    ↔ (effective_shard (some "a") ≡ effective_shard none)
consumer_key-eq_iff_example = consumer_key-eq_iff orders (some "a") none

disconnect-connect_example :
    (let s = (connect (run (new_source source_options) []) 7 8 (λ c. "PONG")).0 in
      ((disconnect s).0 ≡ quit (or_else s.options.get_connection 7) ∷ [])
      × ((disconnect s).2 ≡ ok tt)
      × ((disconnect s).1.client ≡ none)
      × ((disconnect (disconnect s).1).0 ≡ [])
      × ((disconnect (disconnect s).1).2
          ≡ err "StreamingDataSource client called before initialization"))
disconnect-connect_example = disconnect-connect source_options [] 7 8 (λ c. "PONG")
