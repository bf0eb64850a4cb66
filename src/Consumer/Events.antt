-- ===== src/Consumer/Events.antt =====
-- The events of a consumer's streams: the end of the constructor of
-- packages/consumer/src/stream-consumer.ts, which binds them, and what a bound event does.
use Prim.Native.String.{◌++◌}
use streamerson.Prelude.{
  ℕ, suc, String, ◌≡◌, Option, none, some, List, [], ◌∷◌, nat_eq, arith, if◌then◌else◌,
}
use streamerson.Consumer.{Route, optionally_route}

pub data StreamEvent : Type 0 where
  failed ended closed : StreamEvent

-- The suffix of the consumer's own event, the general event, and the level of the log.
abbrev pub own_event : String → StreamEvent → String
own_event label failed = label ++ "Error"
own_event label ended = label ++ "End"
own_event label closed = label ++ "Close"

abbrev pub general_event : StreamEvent → String
general_event failed = "error"
general_event ended = "end"
general_event closed = "close"

abbrev pub log_class : StreamEvent → String
log_class failed = "error"
log_class ended = "info"
log_class closed = "warn"

-- The listeners of a stream: those that were there, by their number, and those that consumers bound, by
-- the labels.
pub record StreamListeners : Type 0 where
  pub others : StreamEvent → ℕ
  pub bound : StreamEvent → List String

has_none : List String → ℕ → ℕ
has_none [] n = n
has_none (l ∷ ls) n = suc n

-- `channel.listenerCount(event)`, as far as it matters whether it is 0.
listener_count : StreamListeners → StreamEvent → ℕ
unfolding has_none
listener_count l e = has_none (l.bound e) (l.others e)

bind_event : StreamListeners → String → StreamEvent → List String
unfolding listener_count
bind_event l label e = if nat_eq (listener_count l e) 0 then label ∷ [] else l.bound e

-- The three bindings of one stream.
unfoldable pub bind_events : StreamListeners → String → StreamListeners
unfolding bind_event
bind_events l label = record l { bound = bind_event l label }

-- The loop over the incoming stream and the outgoing one, if it is there.
unfoldable pub bind_streams :
    StreamListeners × Option StreamListeners
    → String
    → String
    → StreamListeners × Option StreamListeners
unfolding bind_events
bind_streams (incoming, none) consumer_stream producer_stream =
    (bind_events incoming consumer_stream, none)
bind_streams (incoming, some outgoing) consumer_stream producer_stream =
    (bind_events incoming consumer_stream, some (bind_events outgoing producer_stream))

-- Where a bound event goes, by the numbers of the consumer's listeners.
unfoldable pub routed : (String → ℕ) → String → StreamEvent → Route
routed listeners label e =
    optionally_route (listeners (own_event label e)) (listeners (general_event e))

-- A second consumer on the same stream, whatever its label, binds nothing: the first keeps the events.
pub bind_events-bind_events :
    (l : StreamListeners) (label label' : String) (e : StreamEvent)
    → (bind_events (bind_events l label) label').bound e ≡ (bind_events l label).bound e
unfolding bind_events
bind_events-bind_events l label label' e = ground arith
