-- ===== src/Source/Writing.antt =====
-- What writing to a stream, its keys and its consumer groups do on each branch.
use streamerson.Prelude.{
  ℕ, String, ◌≡◌, Bool, true, false, Option, some, ◌==◌, arith, truthy, truthy?, ltb, or_else, ◌&&◌,
  ◌↔◌, if◌then◌else◌,
}
use streamerson.Prelude.Result.{Result, ok, err, is_ok}
use streamerson.Prelude.Value.{truthy_value}
use streamerson.Prelude.Dict.{get-put, get-remove}
use streamerson.Keys.{Topic, shard_decorator, consumer_key}
use streamerson.Message.{Json, entry_fields}
use streamerson.Remote.{client_of}
use streamerson.Redis.{Redis}
use streamerson.Source.{
  StreamingDataSource, WriteTarget, Chunk, called_back, write_to_stream, write_chunk, set,
  add_stream_id, has_stream_id, remove_stream_id, mark_processed_by_group, create_consumer_group,
}

-- A stream is read after it was added at a time that is not 0, is not read after it was removed, and
-- neither changes whether any other stream is read.
pub has_stream_id-add-remove :
    (d : StreamingDataSource) (id other : String) (now : ℕ)
    → (has_stream_id (add_stream_id d id now).1 other
        ≡ (if id == other then ltb 0 now else has_stream_id d other))
      × (has_stream_id (remove_stream_id d id).1 other
          ≡ (if id == other then false else has_stream_id d other))
unfolding has_stream_id add_stream_id remove_stream_id
has_stream_id-add-remove d id other now =
    ground (arith, get-put d.stream_id_map id other now, get-remove d.stream_id_map id other)

module _ {S : Type 0} (redis : Redis S) where
  -- A source that has a response type, as every new one has, writes that type in each message: the
  -- message type that the caller asks for makes no difference.
  pub write_to_stream-type :
      (d : StreamingDataSource) (r outgoing asked other id message : String)
      (incoming source shard : Option String) (s : S)
      → d.response_type ≡ some r
      → write_to_stream redis d outgoing incoming asked id message source shard s
        ≡ write_to_stream redis d outgoing incoming other id message source shard s
  unfolding write_to_stream
  write_to_stream-type d r outgoing asked other id message incoming source shard s h = rw h

  -- What `XADD` is sent for a chunk that is written to a stream.
  abbrev sent :
      Json
      → StreamingDataSource
      → String
      → Option String
      → Option String
      → Chunk
      → S
      → Result String × S
  sent json d stream channel shard chunk = redis.xadd (shard_decorator stream shard) (
      entry_fields (or_else chunk.message_id "") (or_else d.response_type "resp") channel
        (or_else chunk.message_source_id "") (json.stringify chunk.payload))

  abbrev writable : Chunk → Bool
  writable chunk = truthy? chunk.message_id && truthy_value chunk.payload

  -- Over a connected source, a chunk with an ID and a truthy payload is sent to Redis as one XADD to
  -- the stream and shard, and the callback is called exactly if Redis accepts it. For any other chunk
  -- the server is untouched, and the callback is never called.
  pub write_chunk-sent :
      (json : Json) (d : StreamingDataSource) (stream : String) (channel shard : Option String)
      (chunk : Chunk) (connection : ℕ) (s : S)
      → client_of d.remote ≡ ok connection
      → ((write_chunk redis json d (WriteTarget.to_stream stream channel) shard chunk s).1
          ≡ (if writable chunk then (sent json d stream channel shard chunk s).1 else s))
        × (((write_chunk redis json d (WriteTarget.to_stream stream channel) shard chunk s).0
              ≡ called_back)
            ↔ ((writable chunk && is_ok (sent json d stream channel shard chunk s).0) ≡ true))
  unfolding write_chunk write_to_stream
  write_chunk-sent json d stream channel shard chunk connection s c = ground arith

  -- An acknowledgement over a connected source never fails: what Redis answers to XACK is not looked at.
  pub mark_processed_by_group-ok :
      (d : StreamingDataSource) (topic : Topic) (group id : String) (shard : Option String)
      (connection : ℕ) (s : S)
      → client_of d.remote ≡ ok connection
      → (mark_processed_by_group redis d topic group id shard s
          ≡ (ok tt, (redis.xack (consumer_key topic shard) group id s).1))
  unfolding mark_processed_by_group
  mark_processed_by_group-ok d topic group id shard connection s c = ground arith

  -- Creating a group over a connected source never throws: an error of Redis is what the promise
  -- resolves to.
  pub create_consumer_group-error :
      (d : StreamingDataSource) (stream group e : String) (cursor : Option String) (connection : ℕ)
      (s : S)
      → client_of d.remote ≡ ok connection
      → (redis.xgroup_create stream group (or_else cursor "$") s).0 ≡ err e
      → (create_consumer_group redis d stream group cursor s).0 ≡ ok (some e)
  unfolding create_consumer_group
  create_consumer_group-error d stream group e cursor connection s c h = ground arith

  -- An empty value is refused before anything is sent; any other is sent once, and the answer is whether
  -- Redis said OK.
  pub set-cases :
      (d : StreamingDataSource) (key value : String) (shard : Option String) (connection : ℕ)
      (s : S)
      → client_of d.remote ≡ ok connection
      → (is_ok (set redis d key shard value s).0
          ≡ (truthy value && is_ok (redis.set (shard_decorator key shard) value s).0))
        × ((set redis d key shard value s).1
            ≡ (if truthy value then (redis.set (shard_decorator key shard) value s).1 else s))
  unfolding set
  set-cases d key value shard connection s c = ground arith
