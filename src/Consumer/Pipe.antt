-- ===== src/Consumer/Pipe.antt =====
-- The pipe of a listening consumer, from the incoming stream through `process` into the outgoing
-- stream: `connectAndListen` of packages/consumer/src/stream-consumer.ts. The transform takes the next
-- event, and the outgoing stream writes the next chunk, only when the last one has called back.
use streamerson.Prelude.{Bool, true, false, none, some, List, [], ◌∷◌, if◌then◌else◌}
use streamerson.Prelude.Result.{Result, ok, err}
use streamerson.Prelude.Value.{undefined}
use streamerson.Keys.{producer_key}
use streamerson.Message.{Json, MappedStreamEvent}
use streamerson.Redis.{Redis}
use streamerson.Source.{
  StreamingDataSource, Chunk, WriteOutcome, called_back, dropped, rejected, WriteTarget,
  write_chunk,
}
use streamerson.Consumer.{StreamConsumer, Processed, replied, unhandled, process}

-- An `Error` has neither of the fields that the outgoing stream looks at.
unfoldable pub chunk_of : Processed → Chunk
chunk_of (replied e) = record {
  message_id = e.message_id;
  payload = e.payload;
  message_source_id = e.message_source_id;
}
chunk_of (unhandled e) = record { message_id = none; payload = undefined; message_source_id = none }

pub record Pipe : Type 0 where
  pub reading : Bool
  pub writing : Bool

abbrev pub flowing : Pipe
flowing = record { reading = true; writing = true }

after_write : {S : Type 0} → Pipe → WriteOutcome × S → Pipe × S
after_write p (called_back, s) = (p, s)
after_write p (dropped, s) = (record p { writing = false }, s)
after_write p (rejected e, s) = (record p { writing = false }, s)

module _ {S : Type 0} (redis : Redis S) (json : Json) (c : StreamConsumer)
    (channel : StreamingDataSource) where
  -- `push(message)`: without an outgoing stream the message goes nowhere, and behind a chunk that has
  -- not called back it waits.
  unfoldable pub push : Pipe → Processed → S → Pipe × S
  unfolding after_write chunk_of
  push p m s = elim c.outgoing_stream [
    | none ↦ (p, s)
    | some _ ↦
        if p.writing
        then after_write p (
            write_chunk redis json channel
              (WriteTarget.to_stream (producer_key c.options.topic c.options.shard) none)
              c.options.shard (chunk_of m) s)
        else (p, s)
  ]

  transformed : Pipe → Result Processed → S → Pipe × S
  unfolding push
  transformed p (ok m) s = push p m s
  transformed p (err e) s = (record p { reading = false }, s)

  -- The transform's step for one event. If `process` throws, it does not call back.
  unfoldable pub transform : Pipe → MappedStreamEvent → S → Pipe × S
  unfolding transformed
  transform p event s = if p.reading then transformed p (process json c event) s else (p, s)

  unfoldable pub pump : Pipe → List MappedStreamEvent → S → Pipe × S
  pump p [] s = (p, s)
  pump p (event ∷ events) s = let (p', s') = transform p event s in pump p' events s'
