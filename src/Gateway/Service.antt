-- ===== src/Gateway/Service.antt =====
-- A gateway and a consumer of one topic, composed: a request is answered with what the handler makes of it.
-- The request and its answer are what each side writes, read back from the stream by the other.
use streamerson.Prelude.{
  ℕ, String, ◌≡◌, ◌≢◌, refl, true, Option, none, some, List, arith, get_elem?, truthy?, eq_iff,
}
use streamerson.Prelude.Result.{ok, is_ok}
use streamerson.Prelude.Dict
use streamerson.Prelude.Value.{Value, truthy_value}
use streamerson.Keys.{Topic, shard_decorator, consumer_key, producer_key}
use streamerson.Message.{Json, MappedStreamEvent, entry_fields, deserialize_message_array}
use streamerson.Message.Roundtrip.{deserialize-entry_fields}
use streamerson.Remote.{client_of}
use streamerson.Redis.{Redis}
use streamerson.Source.{StreamingDataSource}
use streamerson.Deferral.{DeferralTracker, fulfilled}
use streamerson.Awaiter.{StreamAwaiter, new_awaiter, resume, returned, on_response, response_stream}
use streamerson.Awaiter.Dispatching.{dispatch-response, dispatch-sent}
use streamerson.Consumer.{StreamConsumer, Handler, parsed_payload, listening_key}
use streamerson.Consumer.Pipe.{flowing, transform}
use streamerson.Consumer.Replies.{transform-replied}
use streamerson.Gateway.Fastify.{GatewayOptions, Route, route_awaiter, request_body, handle_request}

-- A request as the consumer reads it, with the type that the gateway's channel writes.
abbrev pub request_event : Topic → String → String → String → String → Value → MappedStreamEvent
request_event t entry id type source body = record {
  stream_id = some (consumer_key t none);
  stream_message_id = some entry;
  message_id = some id;
  message_type = some type;
  message_destination = some (producer_key t none);
  message_protocol = some "json";
  message_source_id = some source;
  message_headers = none;
  payload = body;
}

-- An answer as the gateway reads it.
abbrev pub answer_event : Topic → String → String → String → String → Value → MappedStreamEvent
answer_event t entry id type source answer = record {
  stream_id = some (producer_key t none);
  stream_message_id = some entry;
  message_id = some id;
  message_type = some type;
  message_destination = some "";
  message_protocol = some "json";
  message_source_id = some source;
  message_headers = none;
  payload = answer;
}

module _ {S : Type 0} (redis : Redis S) (json : Json) (o : GatewayOptions) (c : StreamConsumer)
    (answers : StreamingDataSource) (out gate back : ℕ) (type reply_type : String) where
  -- What connects a gateway to a consumer: one topic without shards, open connections, response types,
  -- and an outgoing stream.
  pub record IsConnected : Type 0 where
    pub topic : c.options.topic ≡ o.topic
    pub unsharded : c.options.shard ≡ none
    pub outgoing : c.outgoing_stream ≡ some out
    pub gate_open : client_of o.write_channel.remote ≡ ok gate
    pub gate_type : o.write_channel.response_type ≡ some type
    pub answers_open : client_of answers.remote ≡ ok back
    pub answers_type : answers.response_type ≡ some reply_type

  abbrev pub request_fields : String → String → Value → List String
  request_fields id source body =
      entry_fields id type (some (producer_key o.topic none)) source (json.stringify body)

  abbrev pub answer_fields : String → String → Value → List String
  answer_fields id source w = entry_fields id reply_type none source (json.stringify w)

  -- The awaiter of a route, after whatever requests it had before.
  abbrev pub gate_awaiter : DeferralTracker → StreamAwaiter
  gate_awaiter t = record (route_awaiter o) { tracker = t }

  module _ (k : IsConnected) where
    listening_key-gate : listening_key c ≡ consumer_key o.topic none
    unfolding listening_key shard_decorator
    listening_key-gate = rw k.unsharded (rw k.topic refl)

    answers_key :
        shard_decorator (producer_key c.options.topic c.options.shard) c.options.shard
        ≡ producer_key o.topic none
    unfolding shard_decorator
    answers_key = rw k.unsharded (rw k.topic refl)

    handle_request-sent :
        (t : DeferralTracker) (r : Route) (id source : String) (sent : Option Value) (s : S) (p : ℕ)
        → (handle_request redis json (gate_awaiter t) r id sent (some source) s).awaits ≡ ok p
        → (handle_request redis json (gate_awaiter t) r id sent (some source) s).server
          ≡ (redis.xadd (listening_key c) (request_fields id source (request_body sent)) s).1
    unfolding handle_request route_awaiter new_awaiter shard_decorator
    handle_request-sent t r id source sent s p h = rw listening_key-gate (
        dispatch-sent redis (gate_awaiter t) id (json.stringify (request_body sent)) r.message_type
          (consumer_key o.topic none) type (some source) none s gate p refl k.gate_open k.gate_type
          h)

    transform-answers :
        (t : DeferralTracker) (entry id source : String) (body v w : Value) (h : Handler) (s : S)
        → truthy? (some id) ≡ true
        → Dict.get c.stream_events type ≡ some h
        → parsed_payload json body ≡ ok v
        → h (record (request_event o.topic entry id type source body) { payload = v }) ≡ ok w
        → truthy_value w ≡ true
        → (let reply =
              redis.xadd (response_stream (gate_awaiter t) none) (answer_fields id source w) s in
            transform redis json c answers flowing
              (request_event o.topic entry id type source body)
              s
            ≡ (record { reading = true; writing = is_ok reply.0 }, reply.1))
    unfolding response_stream route_awaiter new_awaiter shard_decorator
    transform-answers t entry id source body v w h s named g q a full =
        let replied =
          transform-replied redis json c answers (request_event o.topic entry id type source body) h
            v w out back reply_type s k.outgoing g q a (ground (arith, named, full)) k.answers_open
            k.answers_type in
        let key = answers_key in cc

    -- A gateway's awaiter on a topic and a consumer of the topic without shards, over open connections that
    -- write response types, with an outgoing stream of the consumer that is flowing; a request whose ID is
    -- not empty and not yet tracked, whose body (an empty object if it has none, or `null`) is plain and can be
    -- parsed, that goes on to wait; and a
    -- handler, under the type that the gateway's channel writes, that answers the body with a plain and
    -- truthy payload. Then the request is one XADD to the stream that the consumer reads, which reads the
    -- request back; its transform of it is one XADD to the stream that the gateway reads, which reads the
    -- answer back; and the answer settles the promise, the gateway's dispatch returns the handler's payload,
    -- and the ID is no longer tracked.
    pub handle_request-answered :
        (t : DeferralTracker) (r : Route) (id source entry reply : String) (sent : Option Value)
        (v w : Value) (h : Handler) (p : ℕ) (s s' : S)
        → id ≢ ""
        → Dict.get t.promises id ≡ none
        → json.plain (request_body sent) ≡ true
        → parsed_payload json (request_body sent) ≡ ok v
        → Dict.get c.stream_events type ≡ some h
        → h (record (request_event o.topic entry id type source (request_body sent)) {
          payload = v;
        })
          ≡ ok w
        → truthy_value w ≡ true
        → json.plain w ≡ true
        → (handle_request redis json (gate_awaiter t) r id sent (some source) s).awaits ≡ ok p
        → (let d = handle_request redis json (gate_awaiter t) r id sent (some source) s in
            let request = request_event o.topic entry id type source (request_body sent) in
            let answer = answer_event o.topic reply id reply_type source w in
            let written =
              redis.xadd (response_stream (gate_awaiter t) none) (answer_fields id source w) s' in
            let b = on_response d.awaiter answer in
            (d.server
              ≡ (redis.xadd (listening_key c) (request_fields id source (request_body sent)) s).1)
            × (deserialize_message_array json
                  (entry, request_fields id source (request_body sent))
                  (listening_key c)
                ≡ ok request)
            × (transform redis json c answers flowing request s'
                ≡ (record { reading = true; writing = is_ok written.0 }, written.1))
            × (deserialize_message_array json
                  (reply, answer_fields id source w)
                  (response_stream (gate_awaiter t) none)
                ≡ ok answer)
            × (get_elem? b.tracker.settled p ≡ some (fulfilled answer))
            × ((resume b id (fulfilled answer)).0 ≡ returned w)
            × (Dict.get (resume b id (fulfilled answer)).1.tracker.promises id ≡ none))
    unfolding handle_request response_stream shard_decorator route_awaiter new_awaiter
    handle_request-answered t r id source entry reply sent v w h p s s' named fresh plain q g a full
          plain' waits =
        let (settled, returns, forgotten) =
          dispatch-response redis (gate_awaiter t) (json.stringify (request_body sent))
            r.message_type (some source) none none s
            (answer_event o.topic reply id reply_type source w) p fresh waits in
        (
          handle_request-sent t r id source sent s p waits,
          rw listening_key-gate (
              deserialize-entry_fields json (consumer_key o.topic none) entry id type source
                (some (producer_key o.topic none)) (request_body sent) named plain),
          transform-answers t entry id source (request_body sent) v w h s'
              (ground (arith, eq_iff id "", named)) g q a full,
          deserialize-entry_fields json (producer_key o.topic none) reply id reply_type source none
              w named plain',
          settled,
          returns,
          forgotten,
        )
