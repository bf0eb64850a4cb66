-- ===== src/Gateway/Sockets/Echo.antt =====
-- What comes back to a socket of a WebSocket route: the incoming stream is the one that its own messages
-- are written to, not the one that a consumer of the topic writes its answers to.
use streamerson.Prelude.{
  ℕ, String, ◌≡◌, ◌≢◌, true, false, Option, none, some, ltb, nat_eq, arith, eq_iff, eq_refl,
}
use streamerson.Prelude.Result.{ok}
use streamerson.Prelude.Value.{Value, obj, end, str, assign, spread, truthy_value}
use streamerson.Keys.{Topic, shard_decorator, consumer_key, producer_key}
use streamerson.Keys.Separation.{consumer_key-ne-producer_key}
use streamerson.Message.{Json, MappedStreamEvent, entry_fields, deserialize_message_array}
use streamerson.Message.Roundtrip.{deserialize-entry_fields}
use streamerson.Remote.{client_of}
use streamerson.Redis.{Redis}
use streamerson.Source.{
  StreamingDataSource, WriteTarget, write_chunk, write_to_stream, has_stream_id,
}
use streamerson.Source.Writing.{has_stream_id-add-remove}
use streamerson.Gateway.Sockets.{
  App, SocketGateway, deserialize_websocket_message, spread_fields, deserialize_stream_event,
  route_source, on_data, chunk,
}

-- A message as the gateway itself reads it.
abbrev pub echo_event : Topic → String → String → String → String → Value → MappedStreamEvent
echo_event t entry id kind token body = record {
  stream_id = some (consumer_key t none);
  stream_message_id = some entry;
  message_id = some id;
  message_type = some kind;
  message_destination = some (producer_key t none);
  message_protocol = some "json";
  message_source_id = some token;
  message_headers = none;
  payload = body;
}

-- The text that is published for an echo: the message's own fields and its ID.
abbrev pub echo_text : Json → String → Value → String
echo_text json id body =
    json.stringify (obj none (assign (spread end (spread_fields body)) "messageId" (str id)))

module _ {A S : Type 0} (app : App A) (redis : Redis S) (json : Json)
    (token_text : Value → Option String) (d : StreamingDataSource) (t : Topic) (type kind : String)
    (connection : ℕ) where
  reads_own_stream :
      (now : ℕ)
      → ltb 0 now ≡ true
      → (has_stream_id (route_source d t now) (consumer_key t none) ≡ true)
        × (has_stream_id (route_source d t now) (producer_key t none)
            ≡ has_stream_id d (producer_key t none))
  unfolding route_source
  reads_own_stream now h =
      let (added, _) = has_stream_id-add-remove d (consumer_key t none) (consumer_key t none) now in
      let (kept, _) = has_stream_id-add-remove d (consumer_key t none) (producer_key t none) now in
      (
        rw added (rw (eq_refl (consumer_key t none)) h),
        ground (
          arith,
          kept,
          eq_iff (consumer_key t none) (producer_key t none),
          consumer_key-ne-producer_key t t none none,
        ),
      )

  deserialize_websocket_message-id :
      (text id : String) (e : MappedStreamEvent)
      → deserialize_websocket_message token_text json text (some type) none id ≡ ok e
      → e.message_id ≡ some id
  unfolding deserialize_websocket_message
  deserialize_websocket_message-id text id e h = ground (arith, h)

  write_chunk-message :
      (id token : String) (e : MappedStreamEvent) (s : S)
      → id ≢ ""
      → e.message_id ≡ some id
      → e.message_source_id ≡ some token
      → truthy_value e.payload ≡ true
      → client_of d.remote ≡ ok connection
      → d.response_type ≡ some kind
      → (write_chunk redis json d (WriteTarget.to_topic t) none (chunk e) s).1
        ≡ (redis.xadd
            (consumer_key t none)
            (entry_fields id kind (some (producer_key t none)) token (json.stringify e.payload))
            s).1
  unfolding write_chunk write_to_stream shard_decorator
  write_chunk-message id token e s named i k full c r =
      ground (arith, eq_iff id "", named, i, k, full, c, r)

  on_data-published :
      (g : SocketGateway A S) (entry id token : String) (body : Value)
      → nat_eq (app.num_subscribers (some token) g.app) 0 ≡ false
      → on_data app redis json token_text d t type g (echo_event t entry id kind token body)
        ≡ record g { app = (app.publish (some token) (echo_text json id body) g.app).1 }
  unfolding on_data deserialize_stream_event
  on_data-published g entry id token body h = rw h

  -- A message that could be read, with an ID and a token, whose payload is plain and truthy, on an open
  -- connection that writes a response type: its chunk is one XADD to the stream that the route itself
  -- reads, which then is a stream of its source, while the stream of the answers is one only if it was
  -- before; the entry is read back as an event with the message's payload; and if the token has
  -- subscribers when it comes, they are published the message's own fields with its ID.
  pub message-echoed :
      (g : SocketGateway A S) (now : ℕ) (text entry id token : String) (e : MappedStreamEvent)
      (s : S)
      → ltb 0 now ≡ true
      → deserialize_websocket_message token_text json text (some type) none id ≡ ok e
      → id ≢ ""
      → e.message_source_id ≡ some token
      → truthy_value e.payload ≡ true
      → json.plain e.payload ≡ true
      → client_of d.remote ≡ ok connection
      → d.response_type ≡ some kind
      → nat_eq (app.num_subscribers (some token) g.app) 0 ≡ false
      → (let fields =
            entry_fields id kind (some (producer_key t none)) token (json.stringify e.payload) in
          let echo = echo_event t entry id kind token e.payload in
          (has_stream_id (route_source d t now) (consumer_key t none) ≡ true)
          × (has_stream_id (route_source d t now) (producer_key t none)
              ≡ has_stream_id d (producer_key t none))
          × ((write_chunk redis json d (WriteTarget.to_topic t) none (chunk e) s).1
              ≡ (redis.xadd (consumer_key t none) fields s).1)
          × (deserialize_message_array json (entry, fields) (consumer_key t none) ≡ ok echo)
          × (on_data app redis json token_text d t type g echo ≡ record g {
            app = (app.publish (some token) (echo_text json id e.payload) g.app).1;
          }))
  message-echoed g now text entry id token e s later q named k full plain c r subscribers =
      let (own_stream, answers) = reads_own_stream now later in
      (
        own_stream,
        answers,
        write_chunk-message id token e s named (deserialize_websocket_message-id text id e q) k full
            c r,
        deserialize-entry_fields json (consumer_key t none) entry id kind token
            (some (producer_key t none)) e.payload named plain,
        on_data-published g entry id token e.payload subscribers,
      )
