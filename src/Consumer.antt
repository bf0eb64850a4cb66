-- ===== src/Consumer.antt =====
-- The stream consumer: packages/consumer/src/stream-consumer.ts. A handler is a function of the
-- program that uses the library: it takes an event, and returns a payload or throws. Channels are
-- numbers; the events `error`, `end` and `close` of the streams are routed as the code routes them.
pub mod Pipe
pub mod Replies
pub mod Sharding
pub mod Producing
pub mod Connection
pub mod Events
use streamerson.Prelude.{
  ℕ, String, Bool, true, false, Option, none, some, List, [], ◌∷◌, or_else, is_some, ltb,
  if◌then◌else◌,
}
use streamerson.Prelude.Result.{Result, ok, err, ◌>>=◌, map_ok}
use streamerson.Prelude.Text.{template, shown}
use streamerson.Prelude.Dict
use streamerson.Prelude.Dict.{Dict}
use streamerson.Prelude.Value.{Value, typeof_object, undefined, null, bool, num, str, arr, obj}
use streamerson.Keys.{Topic, shard_decorator, consumer_key, producer_key}
use streamerson.Message.{Json, MappedStreamEvent}
use streamerson.Redis.{Redis}
use streamerson.Source.Read.{BatchOptions, ConsumerGroupInstanceConfig}
use streamerson.Source.{
  StreamingDataSource, KeyEvent, write_to_stream, add_stream_id, has_stream_id, remove_stream_id,
}

abbrev pub Handler : Type 0
Handler = MappedStreamEvent → Result Value

pub record StreamConsumerOptions : Type 0 where
  pub topic : Topic
  pub shard : Option String
  pub bidirectional : Option Bool
  pub group : Option ConsumerGroupInstanceConfig
  pub event_map : Dict Handler

-- `outgoing_stream` is the channel that the writable stream writes to.
pub record StreamConsumer : Type 0 where
  pub options : StreamConsumerOptions
  pub bidirectional : Bool
  pub incoming_channel : StreamingDataSource
  pub outgoing_channel : Option ℕ
  pub outgoing_stream : Option ℕ
  pub stream_events : Dict Handler

-- `handler(h)`: the event with the handler's payload in place of its own.
with_payload : MappedStreamEvent → Value → MappedStreamEvent
with_payload e v = record e { payload = v }

unfoldable pub handler : Handler → MappedStreamEvent → Result MappedStreamEvent
unfolding with_payload
handler h e = map_ok (with_payload e) (h e)

unfoldable pub register_stream_event : StreamConsumer → String → Handler → StreamConsumer
register_stream_event c type h = record c { stream_events = Dict.put c.stream_events type h }

unfoldable pub deregister_stream_event : StreamConsumer → String → StreamConsumer
deregister_stream_event c type = record c { stream_events = Dict.remove c.stream_events type }

unfoldable pub register_all : StreamConsumer → Dict Handler → StreamConsumer
unfolding register_stream_event
register_all c [] = c
register_all c ((type, h) ∷ more) = register_all (register_stream_event c type h) more

-- `a ?? (b ? fresh : undefined)`
abbrev or_made : Option ℕ → Bool → Option ℕ → Option ℕ
or_made (some c) made fresh = some c
or_made none made fresh = if made then fresh else none

-- `bindStreamEvents`: channels and streams that are there stay; new ones are made only for a
-- bidirectional consumer. The last step binds the handlers of the options again.
with_channel : StreamConsumer → ℕ → StreamConsumer
with_channel c fresh = record c {
  outgoing_channel = or_made c.outgoing_channel c.bidirectional (some fresh);
}

with_stream : StreamConsumer → StreamConsumer
with_stream c = record c {
  outgoing_stream = or_made c.outgoing_stream c.bidirectional c.outgoing_channel;
}

unfoldable pub bind_stream_events : StreamConsumer → ℕ → StreamConsumer
unfolding register_all with_channel with_stream
bind_stream_events c fresh = register_all (with_stream (with_channel c fresh)) c.options.event_map

-- The constructor reads from a channel of its own, on which `getReadStream` adds the stream.
unfoldable pub new_consumer : StreamConsumerOptions → StreamingDataSource → ℕ → ℕ → StreamConsumer
unfolding bind_stream_events
new_consumer o incoming now fresh =
    bind_stream_events
      (record {
        options = o;
        bidirectional = or_else o.bidirectional true;
        incoming_channel = (add_stream_id incoming (consumer_key o.topic o.shard) now).1;
        outgoing_channel = none;
        outgoing_stream = none;
        stream_events = [];
      })
      fresh

-- The options of `getReadStream` for the incoming stream, and the key that reading with them reads.
unfoldable pub listening_options : StreamConsumer → BatchOptions
listening_options c = record {
  stream = some (consumer_key c.options.topic c.options.shard);
  shard = c.options.shard;
  last = none;
  requested_batch_size = none;
  blocking_timeout = none;
  group = c.options.group;
}

unfoldable pub listening_key : StreamConsumer → String
unfolding listening_options
listening_key c =
    shard_decorator (or_else (listening_options c).stream "") (listening_options c).shard

unfoldable pub set_outgoing_channel : StreamConsumer → Option ℕ → ℕ → StreamConsumer
unfolding bind_stream_events
set_outgoing_channel c channel fresh =
    bind_stream_events (record c { bidirectional = true; outgoing_channel = channel }) fresh

unfoldable pub add_stream : StreamConsumer → String → ℕ → List KeyEvent × StreamConsumer
add_stream c key now =
    let (events, channel) = add_stream_id c.incoming_channel key now in
    (events, record c { incoming_channel = channel })

unfoldable pub has_stream : StreamConsumer → String → Bool
has_stream c key = has_stream_id c.incoming_channel key

unfoldable pub remove_stream : StreamConsumer → String → List KeyEvent × StreamConsumer
remove_stream c key =
    let (events, channel) = remove_stream_id c.incoming_channel key in
    (events, record c { incoming_channel = channel })

-- `cacheComposite`
unfoldable pub cache_composite : StreamConsumer → String → String × Option String
cache_composite c key = (key, c.options.shard)

-- The payload that a handler sees: an object as it is, a text parsed, and `undefined` as null.
-- `JSON.parse` of a number or a truth value gives it back.
unfoldable pub parsed_payload : Json → Value → Result Value
parsed_payload json undefined = json.parse "null"
parsed_payload json (str text) = json.parse text
parsed_payload json (bool b) = ok (bool b)
parsed_payload json (num n) = ok (num n)
parsed_payload json null = ok null
parsed_payload json (arr r fs) = ok (arr r fs)
parsed_payload json (obj r fs) = ok (obj r fs)

-- What `process` returns: the reply, or an `Error` for a type that has no handler.
pub data Processed : Type 0 where
  replied : MappedStreamEvent → Processed
  unhandled : String → Processed

handle : Json → Handler → MappedStreamEvent → Result Processed
unfolding handler
handle json h event = parsed_payload json event.payload >>= λ v.
    map_ok replied (handler h (record event { payload = v }))

unfoldable pub no_handler : StreamConsumer → MappedStreamEvent → String
no_handler c event = template (
    "No handler registered for message type: "
    ∷ shown event.message_type
    ∷ " for stream processing "
    ∷ consumer_key c.options.topic c.options.shard
    ∷ [])

unfoldable pub process : Json → StreamConsumer → MappedStreamEvent → Result Processed
unfolding handle
process json c event = elim (Dict.get c.stream_events (shown event.message_type)) [
  | none ↦ ok (unhandled (no_handler c event))
  | some h ↦ handle json h event
]

-- `produceMessage`, as it calls `writeToStream`: the message ID stands where the type belongs, and the
-- type where the message ID belongs.
unfoldable pub produce_message :
    {S : Type 0}
    → Redis S
    → Json
    → StreamConsumer
    → Option StreamingDataSource
    → String
    → String
    → Value
    → String
    → Option String
    → S
    → Result String × S
produce_message redis json c none id type message source shard s = (ok "", s)
produce_message redis json c (some channel) id type message source shard s =
    write_to_stream redis channel (producer_key c.options.topic none) none id type
      (json.stringify message) (some (consumer_key c.options.topic none)) shard s

-- `_optionallyRouteMessage`: to the listeners of the stream's event, else to those of the general
-- event, else to the log.
pub data Route : Type 0 where
  primary fallback log : Route

unfoldable pub optionally_route : ℕ → ℕ → Route
optionally_route primary_listeners fallback_listeners =
    if ltb 0 primary_listeners then primary else if ltb 0 fallback_listeners then fallback else log
