-- ===== src/Tests/Support.antt =====
-- Errors and connections at concrete inputs.
use streamerson.Prelude.{some, ℕ, ◌≡◌, refl, false, [], ◌∷◌}
use streamerson.Prelude.Result.{ok, is_ok}
use streamerson.Prelude.Dict.{Dict}
use streamerson.Prelude.Value.{Value}
use streamerson.Remote.{quit, client_of, connect, new_source, Dialling}
use streamerson.Support.Errors.{
  Thrown, extended, error_for_handler, warn, with_extended_errors, with_extended_errors-again,
}
use streamerson.Cache.Listener.{new_cacheable}
use streamerson.StateCache.Connection.{
  connect_cache, disconnect_cache, disconnect_cache-connect_cache,
}
use streamerson.Tests.Fixtures.{source_options}
use streamerson.Tests.Caches.{entries}

abbrev late : Thrown
late = extended (error_for_handler "late" "TIMEOUT" warn)

with_extended_errors-again_example :
    (let first = with_extended_errors late in
      let again = with_extended_errors (extended first.error) in
      (first.error.message ≡ "late")
      × (again
          ≡ record first { logged_error = extended first.error; logged_message = some "late" }))
unfolding with_extended_errors error_for_handler
with_extended_errors-again_example = with_extended_errors-again late

abbrev line : ℕ → Dialling
line n = record { fresh = n; fresh_control = 0; pong = λ c. "PONG" }

abbrev empty : Dict Value
empty = []

disconnect_cache-connect_cache_example :
    (let l =
        (connect_cache entries
          (new_cacheable source_options empty)
          (line 1)
          (line 2)
          (line 3)
          (λ c. ok 1)).0 in
      let ended = disconnect_cache l (λ c. ok tt) in
      (is_ok ended.result ≡ false)
      × (client_of ended.state.source.client ≡ ok 3)
      × (ended.sent ≡ quit 1 ∷ quit 2 ∷ []))
unfolding connect_cache connect new_cacheable new_source client_of
    streamerson.Cache.Listener.begin_cache_listener streamerson.Cache.invalidate_cache
disconnect_cache-connect_cache_example =
    disconnect_cache-connect_cache entries source_options empty (line 1) (line 2) (line 3)
      (λ c. ok 1) (λ c. ok tt) refl
