-- ===== src/Consumer/Producing.antt =====
-- What `produceMessage` sends, as it is read back.
use streamerson.Prelude.{ℕ, String, ◌≡◌, ◌≢◌, true, Option, none, some, arith}
use streamerson.Prelude.Result.{ok}
use streamerson.Prelude.Value.{Value}
use streamerson.Keys.{shard_decorator, consumer_key, producer_key}
use streamerson.Message.{Json, entry_fields, deserialize_message_array}
use streamerson.Message.Roundtrip.{deserialize-entry_fields}
use streamerson.Remote.{client_of}
use streamerson.Redis.{Redis}
use streamerson.Source.{StreamingDataSource, write_to_stream}
use streamerson.Consumer.{StreamConsumer, produce_message}

-- A plain message that is produced over a connected channel with a response type changes the server as one
-- XADD whose entry is read back with the message's type as its ID, the channel's response type as its
-- type, and the consumer's key as its source: the ID and the source that were asked for are lost.
pub produce_message-read_back :
    {S : Type 0} (redis : Redis S) (json : Json) (c : StreamConsumer)
    (channel : StreamingDataSource) (id type source response title entry : String) (message : Value)
    (shard : Option String) (connection : ℕ) (s : S)
    → client_of channel.remote ≡ ok connection
    → channel.response_type ≡ some response
    → type ≢ ""
    → json.plain message ≡ true
    → (let fields =
          entry_fields type response none
            (consumer_key c.options.topic none)
            (json.stringify message) in
        ((produce_message redis json c (some channel) id type message source shard s).1
          ≡ (redis.xadd (shard_decorator (producer_key c.options.topic none) shard) fields s).1)
        × (deserialize_message_array json (entry, fields) title
            ≡ ok (record {
              stream_id = some title;
              stream_message_id = some entry;
              message_id = some type;
              message_type = some response;
              message_destination = some "";
              message_protocol = some "json";
              message_source_id = some (consumer_key c.options.topic none);
              message_headers = none;
              payload = message;
            })))
unfolding produce_message write_to_stream
produce_message-read_back redis json c channel id type source response title entry message shard
      connection s k r n p =
    (
      ground (arith, r),
      deserialize-entry_fields json title entry type response (consumer_key c.options.topic none)
          none message n p,
    )
