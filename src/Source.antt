-- ===== src/Source.antt =====
-- The streaming data source: packages/core/src/datasource/streamable.ts, with the times of
-- packages/core/src/utils/time.ts. Reading in batches and the stream iterator are in the children
-- Read and Iterate. The server's state is threaded through every call.
pub mod Read
pub mod Iterate
pub mod Cursor
pub mod Writing
use streamerson.Prelude.{
  ℕ, ◌*◌, String, Bool, true, false, Option, none, some, List, [], ◌∷◌, ◌==◌, truthy, truthy?, ltb,
  not, or_else, if◌then◌else◌, ◌||◌,
}
use streamerson.Prelude.Result.{Result, ok, err, rethrow, map_ok}
use streamerson.Prelude.Text.{template, shown}
use streamerson.Prelude.Integer.{ℤ}
use streamerson.Prelude.Value.{Value, truthy_value}
use streamerson.Prelude.Dict
use streamerson.Prelude.Dict.{Dict}
use streamerson.Keys.{Topic, shard_decorator, consumer_key, producer_key}
use streamerson.Message.{Json, response, message_type_text, entry_fields}
use streamerson.Remote.{RedisDataSource, DataSourceOptions, Command, new_source, client_of, abort}
use streamerson.Redis.{Redis}

abbrev pub ms_in_second : ℕ
ms_in_second = 1000

unfoldable pub seconds_to_ms : ℕ → ℕ
seconds_to_ms seconds = seconds * ms_in_second

unfoldable pub hours_to_ms : ℕ → ℕ
unfolding seconds_to_ms
hours_to_ms hours = seconds_to_ms (hours * 60 * 60)

-- `HOURS_TO_MS(0.5)`, in milliseconds.
abbrev pub default_blocking_timeout : ℕ
default_blocking_timeout = 1_800_000

abbrev pub default_max_batch_size : ℕ
default_max_batch_size = 10

-- `KeyEvents.UPDATE` and `KeyEvents.CANCEL`, the two that the code emits.
pub data KeyEvent : Type 0 where
  update : String → KeyEvent
  cancel : KeyEvent

pub record StreamingDataSource : Type 0 where
  pub remote : RedisDataSource
  pub stream_id_map : Dict ℕ
  pub response_type : Option String

unfoldable pub new_streaming_source : DataSourceOptions → StreamingDataSource
new_streaming_source o = record {
  remote = new_source o;
  stream_id_map = [];
  response_type = some (message_type_text response);
}

unfoldable pub set_response_type : StreamingDataSource → String → StreamingDataSource
set_response_type d type = record d { response_type = some type }

unfoldable pub add_stream_id :
    StreamingDataSource → String → ℕ → List KeyEvent × StreamingDataSource
add_stream_id d id now =
    (update id ∷ [], record d { stream_id_map = Dict.put d.stream_id_map id now })

-- `Boolean(streamIdMap[streamId])`: a time of 0 is falsy.
unfoldable pub has_stream_id : StreamingDataSource → String → Bool
has_stream_id d id = ltb 0 (or_else (Dict.get d.stream_id_map id) 0)

unfoldable pub remove_stream_id : StreamingDataSource → String → List KeyEvent × StreamingDataSource
remove_stream_id d id =
    (update id ∷ [], record d { stream_id_map = Dict.remove d.stream_id_map id })

-- The overriding `abort`: what is sent, and the event that is emitted.
unfoldable pub abort_streams : StreamingDataSource → Bool → List Command × List KeyEvent
abort_streams d error = (abort d.remote error, cancel ∷ [])

-- A command is sent by `this.client`, whose getter throws before `connect()`.
unfoldable pub with_client {ℓ} :
    {A : Type ℓ} {S : Type 0} → StreamingDataSource → (S → Result A × S) → S → Result A × S
unfolding client_of
with_client d call s = elim (client_of d.remote) [ ok c ↦ call s | err e ↦ (err e, s) ]

abbrev pub rethrow_with {ℓ} : {A : Type ℓ} {S : Type 0} → Result A × S → String → Result A × S
rethrow_with (r, s) message = (rethrow r message, s)

abbrev map_reply {ℓ κ} :
    {A : Type ℓ} {B : Type κ} {S : Type 0} → (A → B) → Result A × S → Result B × S
map_reply f (r, s) = (map_ok f r, s)

xadd_failure : String → Option String → Option String → String → String
xadd_failure outgoing incoming shard message = template (
    "Failed attempt to call XADD [key="
    ∷ outgoing
    ∷ ",response="
    ∷ shown incoming
    ∷ ", shard="
    ∷ shown shard
    ∷ ", message="
    ∷ message
    ∷ "]"
    ∷ [])

-- A chunk that is written to a `Writable`: a text of an ID may be missing, and so may the source.
pub record Chunk : Type 0 where
  pub message_id : Option String
  pub payload : Value
  pub message_source_id : Option String

-- Where a writable stream writes to.
pub data WriteTarget : Type 0 where
  to_topic : Topic → WriteTarget
  to_stream : String → Option String → WriteTarget

abbrev pub written_stream : WriteTarget → Option String → String
written_stream (to_topic t) shard = consumer_key t shard
written_stream (to_stream stream channel) shard = stream

abbrev pub answering_stream : WriteTarget → Option String → Option String
answering_stream (to_topic t) shard = some (producer_key t shard)
answering_stream (to_stream stream channel) shard = channel

-- What becomes of a chunk: the stream goes on only if the callback was called.
pub data WriteOutcome : Type 0 where
  dropped : WriteOutcome
  called_back : WriteOutcome
  rejected : String → WriteOutcome

abbrev outcome : {S : Type 0} → Result String × S → WriteOutcome × S
outcome (ok id, s) = (called_back, s)
outcome (err e, s) = (rejected e, s)

module _ {S : Type 0} (redis : Redis S) where
  -- `writeToStream`. A missing source is sent as the empty text.
  unfoldable pub write_to_stream :
      StreamingDataSource
      → String
      → Option String
      → String
      → String
      → String
      → Option String
      → Option String
      → S
      → Result String × S
  unfolding with_client xadd_failure
  write_to_stream d outgoing incoming message_type message_id message source shard s =
      rethrow_with
        (with_client d
          (redis.xadd (shard_decorator outgoing shard) (
            entry_fields message_id (or_else d.response_type message_type) incoming
              (or_else source "") message))
          s)
        (xadd_failure outgoing incoming shard message)

  -- The `write` method of `getWriteStream`.
  unfoldable pub write_chunk :
      Json → StreamingDataSource → WriteTarget → Option String → Chunk → S → WriteOutcome × S
  write_chunk json d target shard chunk s =
      if not (truthy? chunk.message_id) || not (truthy_value chunk.payload)
      then (dropped, s)
      else outcome (
          write_to_stream d (written_stream target shard) (answering_stream target shard)
            (message_type_text response) (or_else chunk.message_id "")
            (json.stringify chunk.payload) chunk.message_source_id shard s)

  unfoldable pub get : StreamingDataSource → String → Option String → S → Result (Option String) × S
  unfolding with_client
  get d key shard s =
      rethrow_with (with_client d (redis.get (shard_decorator key shard)) s)
        (template ("Failed attempt to call GET [key=" ∷ key ∷ ",shard=" ∷ shown shard ∷ "]" ∷ []))

  unfoldable pub incr : StreamingDataSource → String → Option String → S → Result ℤ × S
  unfolding with_client
  incr d key shard s =
      rethrow_with (with_client d (redis.incr (shard_decorator key shard)) s)
        (template ("Failed attempt to call INCR [key=" ∷ key ∷ ",shard=" ∷ shown shard ∷ "]" ∷ []))

  -- `set(options, value)`: the empty text is refused before anything is sent.
  set_reply : StreamingDataSource → String → Option String → String → S → Result Bool × S
  unfolding with_client
  set_reply d key shard value s =
      if truthy value
      then map_reply (λ reply. reply == "OK")
          (with_client d (redis.set (shard_decorator key shard) value) s)
      else (err "Cannot SET to empty strings, use DELETE", s)

  unfoldable pub set : StreamingDataSource → String → Option String → String → S → Result Bool × S
  unfolding set_reply
  set d key shard value s = rethrow_with (set_reply d key shard value s) (
      template (
        "Failed attempt to call SET [key="
        ∷ key
        ∷ ", shard="
        ∷ shown shard
        ∷ ", value="
        ∷ value
        ∷ "]"
        ∷ []))

  -- `markProcessedByGroup`: the promise of XACK is truthy, whatever it settles to.
  forget_reply : Result ℕ × S → Result (Unit {0}) × S
  forget_reply (r, s) = (ok tt, s)

  acknowledge : StreamingDataSource → String → String → String → S → Result (Unit {0}) × S
  unfolding client_of forget_reply
  acknowledge d key group id s = elim (client_of d.remote) [
    | ok c ↦ forget_reply (redis.xack key group id s)
    | err e ↦ (err e, s)
  ]

  unfoldable pub mark_processed_by_group :
      StreamingDataSource → Topic → String → String → Option String → S → Result (Unit {0}) × S
  unfolding acknowledge
  mark_processed_by_group d topic group id shard s =
      acknowledge d (consumer_key topic shard) group id s

  -- `createConsumerGroup` and `createGroupMember`: the promise's own `resolve` is the callback, so it
  -- resolves to the error that the client hands over first, if any.
  resolved : Result String × S → Result (Option String) × S
  resolved (ok reply, s) = (ok none, s)
  resolved (err e, s) = (ok (some e), s)

  command_resolved : StreamingDataSource → (S → Result String × S) → S → Result (Option String) × S
  unfolding client_of resolved
  command_resolved d call s = elim (client_of d.remote) [
    | ok c ↦ resolved (call s)
    | err e ↦ (err e, s)
  ]

  unfoldable pub create_consumer_group :
      StreamingDataSource → String → String → Option String → S → Result (Option String) × S
  unfolding command_resolved
  create_consumer_group d stream group cursor s =
      command_resolved d (redis.xgroup_create stream group (or_else cursor "$")) s

  unfoldable pub create_group_member :
      StreamingDataSource → String → String → String → S → Result (Option String) × S
  unfolding command_resolved
  create_group_member d stream group member s =
      command_resolved d (redis.xgroup_createconsumer stream group member) s
