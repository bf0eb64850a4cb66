-- ===== src/Consumer/Replies.antt =====
-- What a listening consumer writes in reply.
use streamerson.Prelude.{
  ℕ, String, ◌≡◌, refl, ◌==◌, true, false, ◌&&◌, none, some, List, [], ◌∷◌, arith, Bool-cases, inl,
  inr, truthy?, or_else, if◌then◌else◌,
}
use streamerson.Prelude.Result.{Result, ok, is_ok}
use streamerson.Prelude.Text.{shown}
use streamerson.Prelude.Value.{Value, truthy_value}
use streamerson.Prelude.Dict
use streamerson.Prelude.Dict.{get-put, get-remove}
use streamerson.Keys.{shard_decorator, producer_key}
use streamerson.Message.{Json, MappedStreamEvent, entry_fields}
use streamerson.Remote.{client_of}
use streamerson.Redis.{Redis}
use streamerson.Source.{StreamingDataSource, write_chunk, write_to_stream}
use streamerson.Consumer.{
  StreamConsumer, Handler, replied, unhandled, process, handle, handler, parsed_payload,
  register_stream_event, deregister_stream_event, no_handler,
}
use streamerson.Consumer.Pipe.{Pipe, flowing, chunk_of, push, transform, pump}

-- Where the payload can be parsed and the handler does not throw: after a handler is registered for a
-- type, events of that type are answered with its payload, and all else about the event as it came;
-- after a type is deregistered its events are unhandled. Events of other types are processed as before.
pub process-register :
    (json : Json) (c : StreamConsumer) (type : String) (h : Handler) (event : MappedStreamEvent)
    (v w : Value)
    → parsed_payload json event.payload ≡ ok v
    → h (record event { payload = v }) ≡ ok w
    → (process json (register_stream_event c type h) event ≡ (
        if type == shown event.message_type
        then ok (replied (record event { payload = w }))
        else process json c event))
      × (process json (deregister_stream_event c type) event ≡ (
          if type == shown event.message_type
          then ok (unhandled (no_handler c event))
          else process json c event))
unfolding process register_stream_event deregister_stream_event no_handler
process-register json c type h event v w p q =
    elim (Bool-cases (type == shown event.message_type)) [
      | inl same ↦ (
        rw (get-put, process) (rw same (rw (p, handler) (rw q))),
        rw (get-remove, process) (rw same),
      )
      | inr other ↦ (rw (get-put, process) (rw other), rw (get-remove, process) (rw other))
    ]

process-handled :
    (json : Json) (c : StreamConsumer) (event : MappedStreamEvent) (h : Handler) (v w : Value)
    → Dict.get c.stream_events (shown event.message_type) ≡ some h
    → parsed_payload json event.payload ≡ ok v
    → h (record event { payload = v }) ≡ ok w
    → process json c event ≡ ok (replied (record event { payload = w }))
unfolding process
process-handled json c event h v w g p q = rw (g, process) (rw (p, handle) (rw (q, handler)))

module _ {S : Type 0} (redis : Redis S) (json : Json) (c : StreamConsumer)
    (channel : StreamingDataSource) where
  transform-blocked :
      (p : Pipe) (event : MappedStreamEvent) (s : S)
      → p.writing ≡ false
      → ((transform redis json c channel p event s).0.writing ≡ false)
        × ((transform redis json c channel p event s).1 ≡ s)
  unfolding transform push
  transform-blocked p event s h = ground arith

  -- Once the outgoing stream waits for a callback that never comes, nothing is written any more.
  pump-blocked :
      (p : Pipe) (events : List MappedStreamEvent) (s : S)
      → p.writing ≡ false
      → (pump redis json c channel p events s).1 ≡ s
  unfolding pump
  pump-blocked p [] s h = refl
  pump-blocked p (event ∷ events) s h =
      let (waits, same) = transform-blocked p event s h in
      rw
        (pump-blocked (transform redis json c channel p event s).0 events
          (transform redis json c channel p event s).1 waits)
        same

  transform-unhandled :
      (event : MappedStreamEvent) (out : ℕ) (s : S)
      → c.outgoing_stream ≡ some out
      → Dict.get c.stream_events (shown event.message_type) ≡ none
      → ((transform redis json c channel flowing event s).0.writing ≡ false)
        × ((transform redis json c channel flowing event s).1 ≡ s)
  unfolding transform push process write_chunk chunk_of
  transform-unhandled event out s o h = ground arith

  -- With an outgoing stream, after the first event whose type has no handler, nothing is written in
  -- reply to any later event.
  pub pump-unhandled :
      (event : MappedStreamEvent) (events : List MappedStreamEvent) (out : ℕ) (s : S)
      → c.outgoing_stream ≡ some out
      → Dict.get c.stream_events (shown event.message_type) ≡ none
      → (pump redis json c channel flowing (event ∷ events) s).1 ≡ s
  unfolding pump
  pump-unhandled event events out s o h =
      let (stuck, same) = transform-unhandled event out s o h in
      rw
        (pump-blocked (transform redis json c channel flowing event s).0 events
          (transform redis json c channel flowing event s).1 stuck)
        same

  -- What is sent for a reply: the payload, under the ID and to the source of the event it answers.
  abbrev reply_sent : MappedStreamEvent → Value → String → S → Result String × S
  reply_sent event w type =
      redis.xadd (shard_decorator (producer_key c.options.topic c.options.shard) c.options.shard) (
        entry_fields (or_else event.message_id "") type none (or_else event.message_source_id "")
          (json.stringify w))

  -- In a pipe that is flowing, with an outgoing stream over a connected channel that has a response type:
  -- an event with an ID, whose payload can be parsed and that its handler answers with a truthy payload, is
  -- answered by one XADD of that payload with the event's own ID and source. If Redis accepts it, the
  -- outgoing stream goes on to write; else it writes nothing any more.
  pub transform-replied :
      (event : MappedStreamEvent) (h : Handler) (v w : Value) (out connection : ℕ) (type : String)
      (s : S)
      → c.outgoing_stream ≡ some out
      → Dict.get c.stream_events (shown event.message_type) ≡ some h
      → parsed_payload json event.payload ≡ ok v
      → h (record event { payload = v }) ≡ ok w
      → (truthy? event.message_id && truthy_value w) ≡ true
      → client_of channel.remote ≡ ok connection
      → channel.response_type ≡ some type
      → transform redis json c channel flowing event s ≡ (
        record { reading = true; writing = is_ok (reply_sent event w type s).0 },
        (reply_sent event w type s).1,
      )
  unfolding transform push write_chunk write_to_stream chunk_of
  transform-replied event h v w out connection type s o g p q t k r =
      rw (process-handled json c event h v w g p q, transform) (rw (o, push) (ground arith))
