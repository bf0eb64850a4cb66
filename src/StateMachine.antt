-- ===== src/StateMachine.antt =====
-- The state machine: packages/state-machine/src/stream-state-machine.ts. A handler is a function of the
-- program that uses the library: it takes the state cache, on which the transformers act, the server and
-- an event, and gives a payload or throws.
pub mod Pipe
pub mod Replies
pub mod Transfer
pub mod Connection
pub mod Events
use Prim.Native.String.{◌++◌}
use streamerson.Prelude.{
  ℕ, String, Bool, true, false, Option, none, some, List, [], ◌∷◌, or_else, if◌then◌else◌,
}
use streamerson.Prelude.Result.{Result, ok, err}
use streamerson.Prelude.Text.{template, shown}
use streamerson.Prelude.Integer.{ℤ}
use streamerson.Prelude.Dict
use streamerson.Prelude.Dict.{Dict}
use streamerson.Prelude.Value.{Value, str, obj, end, field}
use streamerson.Keys.{shard_decorator}
use streamerson.Message.{Json, MappedStreamEvent}
use streamerson.Redis.{Redis}
use streamerson.Source.{
  StreamingDataSource, KeyEvent, add_stream_id, has_stream_id, remove_stream_id,
}
use streamerson.Awaiter.{StreamAwaiter, Dispatched, new_awaiter, dispatch}
use streamerson.Cache.{Lru, KeyOptions, Change, increment, decrement}
use streamerson.Consumer.{parsed_payload}
use streamerson.StateCache
use streamerson.StateCache.{StateCache, Called, ApplicationState}

abbrev pub Handler : Type 0 → Type 0 → Type 0
Handler C S = StateCache C → S → MappedStreamEvent → Called C S Value

-- `outgoing_stream` is the channel that the outgoing stream writes to: the one of the constructor, also
-- after `setOutgoingChannel`.
pub record StreamStateMachine (C S : Type 0) : Type 0 where
  pub state_cache : StateCache C
  pub shard : Option String
  pub incoming_stream_name : String
  pub outgoing_stream_name : String
  pub incoming_channel : StreamingDataSource
  pub outgoing_channel : Option StreamingDataSource
  pub outgoing_stream : StreamingDataSource
  pub transfer_channel : StreamAwaiter
  pub stream_events : Dict (Handler C S)

-- The awaiter that the constructor makes for transfers: it has no outgoing stream.
unfoldable pub transfer_awaiter : String → Option String → StreamingDataSource → StreamAwaiter
unfolding new_awaiter
transfer_awaiter incoming shard channel =
    new_awaiter none (shard_decorator incoming shard ++ "::incoming_state_transfer") channel none

data_key_of : Option ApplicationState → String → Option String
data_key_of none target = none
data_key_of (some a) target = elim a.data_key [ none ↦ none | some f ↦ f target ]

-- What becomes of a transfer: the promise that it awaits, or what it threw.
pub record Transferred (C S : Type 0) : Type 0 where
  pub awaits : Result ℕ
  pub cache : StateCache C
  pub awaiter : StreamAwaiter
  pub server : S

dispatched : {C S : Type 0} → StateCache C → Dispatched S → Transferred C S
dispatched c d = record { awaits = d.awaits; cache = c; awaiter = d.awaiter; server = d.server }

-- What `process` resolves to: the handler's payload, or an `Error` for a type that has no handler.
pub data Processed : Type 0 where
  answered : Value → Processed
  unhandled : String → Processed

-- `process` with the state that the handler leaves.
pub record Step (C S : Type 0) : Type 0 where
  pub processed : Result Processed
  pub cache : StateCache C
  pub server : S

answer : Result Value → Result Processed
answer (ok v) = ok (answered v)
answer (err e) = err e

handled : {C S : Type 0} → Called C S Value → Step C S
unfolding answer
handled c = record { processed = answer c.result; cache = c.cache; server = c.server }

module _ {C S : Type 0} where
  unfoldable pub set_outgoing_channel :
      StreamStateMachine C S → Option StreamingDataSource → StreamStateMachine C S
  set_outgoing_channel m channel = record m { outgoing_channel = channel }

  unfoldable pub register_stream_event :
      StreamStateMachine C S → String → Handler C S → StreamStateMachine C S
  register_stream_event m type h = record m { stream_events = Dict.put m.stream_events type h }

  unfoldable pub deregister_stream_event : StreamStateMachine C S → String → StreamStateMachine C S
  deregister_stream_event m type = record m { stream_events = Dict.remove m.stream_events type }

  unfoldable pub add_stream :
      StreamStateMachine C S → String → ℕ → List KeyEvent × StreamStateMachine C S
  add_stream m key now =
      let (events, channel) = add_stream_id m.incoming_channel key now in
      (events, record m { incoming_channel = channel })

  unfoldable pub has_stream : StreamStateMachine C S → String → Bool
  has_stream m key = has_stream_id m.incoming_channel key

  unfoldable pub remove_stream :
      StreamStateMachine C S → String → List KeyEvent × StreamStateMachine C S
  remove_stream m key =
      let (events, channel) = remove_stream_id m.incoming_channel key in
      (events, record m { incoming_channel = channel })

  abbrev pub cache_composite : StreamStateMachine C S → String → KeyOptions
  cache_composite m key = record { key = key; shard = m.shard }

  -- The key under which a transformer of a state keeps a target.
  unfoldable pub target_key : StreamStateMachine C S → String → String → KeyOptions
  unfolding data_key_of
  target_key m state target =
      cache_composite m (or_else (data_key_of (Dict.get m.state_cache.states state) target) target)

  module _ (lru : Lru C) (redis : Redis S) where
    -- `getRaw` and `setRaw`
    unfoldable pub get_raw :
        StreamStateMachine C S → String → Option String → Bool → S → Called C S Value
    get_raw m target value use_shard = StateCache.get lru redis m.state_cache target (
        if use_shard
        then cache_composite m (or_else value target)
        else record { key = or_else value target; shard = none })

    unfoldable pub set_raw : StreamStateMachine C S → String → Value → Bool → S → Called C S Bool
    set_raw m target value use_shard =
        StateCache.set lru redis m.state_cache target
          (if use_shard then cache_composite m target else record { key = target; shard = none })
          value

    -- The transformers of a state.
    unfoldable pub incr : StreamStateMachine C S → String → String → S → Called C S (Option ℤ)
    unfolding target_key
    incr m state target =
        StateCache.count lru redis increment m.state_cache state (target_key m state target)

    unfoldable pub decr : StreamStateMachine C S → String → String → S → Called C S (Option ℤ)
    unfolding target_key
    decr m state target =
        StateCache.count lru redis decrement m.state_cache state (target_key m state target)

    unfoldable pub get : StreamStateMachine C S → String → String → S → Called C S Value
    unfolding target_key
    get m state target = StateCache.get lru redis m.state_cache state (target_key m state target)

    unfoldable pub set : StreamStateMachine C S → String → String → Value → S → Called C S Bool
    unfolding target_key
    set m state target = StateCache.set lru redis m.state_cache state (target_key m state target)

    unfoldable pub get_hash : StreamStateMachine C S → String → String → S → Called C S Value
    unfolding target_key
    get_hash m state target =
        StateCache.get_hash lru redis m.state_cache state (target_key m state target)

    unfoldable pub set_hash :
        StreamStateMachine C S → String → String → Value → Option Value → S → Called C S Bool
    unfolding target_key
    set_hash m state target =
        StateCache.set_hash lru redis m.state_cache state (target_key m state target)

    -- `transfer`, up to the answer: the shard that is meant as the target is sent as the source, and the
    -- shard of the stream is "transfer".
    send :
        Json
        → StreamStateMachine C S
        → String
        → String
        → String
        → Called C S Value
        → Transferred C S
    unfolding dispatched
    send json m id state shard_target c = elim c.result [
      | err e ↦ record {
        awaits = err e;
        cache = c.cache;
        awaiter = m.transfer_channel;
        server = c.server;
      }
      | ok v ↦ dispatched c.cache (
          dispatch redis m.transfer_channel id
            (json.stringify (obj none (field "stateType" (str state) (field "stateData" v end))))
            "TRANSFER" (some shard_target) (some "transfer") none c.server)
    ]

    unfoldable pub transfer :
        Json → StreamStateMachine C S → String → String → String → String → S → Transferred C S
    unfolding send data_key_of
    transfer json m id state target shard_target s =
        if StateCache.has lru m.state_cache state (target_key m state target)
        then send json m id state shard_target (get m state target s)
        else record {
          awaits = err (
              template (
                "State "
                ∷ state
                ∷ "::"
                ∷ shown (data_key_of (Dict.get m.state_cache.states state) target)
                ∷ " is not locally held"
                ∷ []));
          cache = m.state_cache;
          awaiter = m.transfer_channel;
          server = s;
        }

  unfoldable pub no_handler : StreamStateMachine C S → MappedStreamEvent → String
  no_handler m event = template (
      "No handler registered for message type: "
      ∷ shown event.message_type
      ∷ " for stream processing "
      ∷ m.incoming_stream_name
      ∷ [])

  handle : StateCache C → S → Handler C S → MappedStreamEvent → Result Value → Step C S
  unfolding handled
  handle c s h event (ok v) = handled (h c s (record event { payload = v }))
  handle c s h event (err e) = record { processed = err e; cache = c; server = s }

  unfoldable pub process : Json → StreamStateMachine C S → MappedStreamEvent → S → Step C S
  unfolding handle
  process json m event s = elim (Dict.get m.stream_events (shown event.message_type)) [
    | none ↦ record {
      processed = ok (unhandled (no_handler m event));
      cache = m.state_cache;
      server = s;
    }
    | some h ↦ handle m.state_cache s h event (parsed_payload json event.payload)
  ]
