-- ===== src/StateMachine/Replies.antt =====
-- What a listening state machine writes in reply.
use streamerson.Prelude.{ℕ, String, ◌≡◌, true, none, some, arith, truthy?, or_else}
use streamerson.Prelude.Result.{Result, ok, is_ok}
use streamerson.Prelude.Text.{shown}
use streamerson.Prelude.Value.{Value}
use streamerson.Prelude.Dict
use streamerson.Keys.{shard_decorator}
use streamerson.Message.{Json, MappedStreamEvent, entry_fields}
use streamerson.Remote.{client_of}
use streamerson.Redis.{Redis}
use streamerson.Source.{StreamingDataSource, write_chunk, write_to_stream}
use streamerson.StateMachine.{StreamStateMachine, process}
use streamerson.StateMachine.Pipe.{Listening, transform, chunk_of, error_object}

module _ {C S : Type 0} (redis : Redis S) (json : Json) where
  -- What is sent in reply to an event: a payload under the event's ID, from no source.
  abbrev pub sent :
      StreamStateMachine C S → MappedStreamEvent → Value → String → S → Result String × S
  sent m event v type =
      redis.xadd (shard_decorator m.outgoing_stream_name m.shard)
        (entry_fields (or_else event.message_id "") type none "" (json.stringify v))

  -- In a pipe that reads and writes, with an outgoing channel, over a connected outgoing stream that has a
  -- response type: an event with an ID whose type has no handler is answered, with one XADD of an error
  -- object under its ID and from no source. The states stay as they are, and the stream goes on to write
  -- if Redis accepts it.
  pub transform-error_object :
      (l : Listening C S) (event : MappedStreamEvent) (channel : StreamingDataSource)
      (connection : ℕ) (type : String)
      → l.reading ≡ true
      → l.writing ≡ true
      → l.machine.outgoing_channel ≡ some channel
      → client_of l.machine.outgoing_stream.remote ≡ ok connection
      → l.machine.outgoing_stream.response_type ≡ some type
      → truthy? event.message_id ≡ true
      → Dict.get l.machine.stream_events (shown event.message_type) ≡ none
      → transform redis json l event ≡ record {
        machine = l.machine;
        reading = true;
        writing = is_ok (sent l.machine event error_object type l.server).0;
        server = (sent l.machine event error_object type l.server).1;
      }
  unfolding transform process chunk_of write_chunk write_to_stream
  transform-error_object l event channel connection type r w o k t i h = ground arith
