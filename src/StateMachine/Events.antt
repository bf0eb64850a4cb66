-- ===== src/StateMachine/Events.antt =====
-- The events of a state machine's streams, its counting of a state, and `broadcast`:
-- packages/state-machine/src/stream-state-machine.ts.
use streamerson.Prelude.{ℕ, String, Option, none, some, ltb, if◌then◌else◌}
use streamerson.Prelude.Result.{Result, ok, err}
use streamerson.Prelude.Integer.{ℤ}
use streamerson.Redis.{Redis}
use streamerson.Cache.{Lru, KeyOptions, increment, decrement}
use streamerson.StateCache
use streamerson.StateCache.{Called}
use streamerson.Consumer.{Route, primary, fallback, log}
use streamerson.Consumer.Events.{StreamEvent, own_event, general_event}
use streamerson.StateMachine.{StreamStateMachine}

-- `_optionallyRouteMessage`, by the numbers of the machine's listeners.
unfoldable pub route_message : ℕ → ℕ → Route
route_message primary_listeners fallback_listeners =
    if ltb 0 primary_listeners then primary else if ltb 0 fallback_listeners then fallback else log

-- The constructor binds each event of each stream, whoever else listens.
unfoldable pub bound_route : (String → ℕ) → String → StreamEvent → Route
unfolding route_message
bound_route listeners label e =
    route_message (listeners (own_event label e)) (listeners (general_event e))

module _ {C S : Type 0} where
  -- `broadcast`: `ids`, which it draws an ID from, is not in scope.
  unfoldable pub broadcast : StreamStateMachine C S → Result (Unit {0})
  broadcast m = elim m.outgoing_channel [ none ↦ ok tt | some channel ↦ err "ids is not defined" ]

  module _ (lru : Lru C) (redis : Redis S) where
    unfoldable pub atomically_increment_state :
        StreamStateMachine C S → String → KeyOptions → S → Called C S (Option ℤ)
    atomically_increment_state m state o s =
        StateCache.count lru redis increment m.state_cache state o s

    unfoldable pub atomically_decrement_state :
        StreamStateMachine C S → String → KeyOptions → S → Called C S (Option ℤ)
    atomically_decrement_state m state o s =
        StateCache.count lru redis decrement m.state_cache state o s
