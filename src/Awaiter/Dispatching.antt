-- ===== src/Awaiter/Dispatching.antt =====
-- A dispatch sends its request under its ID and returns the payload of the response with that ID.
use streamerson.Prelude.{
  ℕ, String, ◌≡◌, refl, eq_refl, false, Option, none, some, arith, get_elem?, truthy?, or_else,
  String,
}
use streamerson.Prelude.Result.{ok, err}
use streamerson.Prelude.Dict
use streamerson.Prelude.Dict.{get-put, get-remove}
use streamerson.Prelude.Text.{shown}
use streamerson.Keys.{shard_decorator}
use streamerson.Remote.{client_of}
use streamerson.Source.{write_to_stream}
use streamerson.Message.{MappedStreamEvent, entry_fields}
use streamerson.Redis.{Redis}
use streamerson.Deferral.{fulfilled, promise, delete}
use streamerson.Deferral.Orders.{promise-either_order}
use streamerson.Awaiter.{StreamAwaiter, dispatch, dispatch_target, returned, resume, on_response}

module _ {S : Type 0} (redis : Redis S) where
  -- Without a target, configured or given, a dispatch throws, and neither the tracker nor the server changes.
  pub dispatch-no_target :
      (a : StreamAwaiter) (id message type : String) (source shard override : Option String) (s : S)
      → truthy? (dispatch_target a override) ≡ false
      → dispatch redis a id message type source shard override s ≡ record {
        awaits = err "Either a configured or override stream target must be provided";
        awaiter = a;
        server = s;
      }
  unfolding dispatch
  dispatch-no_target a id message type source shard override s h = rw h

  dispatch-awaits :
      (a : StreamAwaiter) (id message type : String) (source shard override : Option String) (s : S)
      (p : ℕ)
      → (dispatch redis a id message type source shard override s).awaits ≡ ok p
      → (p ≡ (promise a.tracker id).0)
        × ((dispatch redis a id message type source shard override s).awaiter.tracker
            ≡ (promise a.tracker id).1)
  unfolding dispatch
  dispatch-awaits a id message type source shard override s p h = ground arith

  -- A request under a new ID whose message was written returns the payload of the event that answers
  -- with its ID, and its ID is then no longer tracked.
  pub dispatch-response :
      (a : StreamAwaiter) (message type : String) (source shard override : Option String) (s : S)
      (event : MappedStreamEvent) (p : ℕ)
      → Dict.get a.tracker.promises (shown event.message_id) ≡ none
      → (dispatch redis a (shown event.message_id) message type source shard override s).awaits
        ≡ ok p
      → (let d = dispatch redis a (shown event.message_id) message type source shard override s in
          let b = on_response d.awaiter event in
          (get_elem? b.tracker.settled p ≡ some (fulfilled event))
          × ((resume b (shown event.message_id) (fulfilled event)).0 ≡ returned event.payload)
          × (Dict.get
                (resume b (shown event.message_id) (fulfilled event)).1.tracker.promises
                (shown event.message_id)
              ≡ none))
  unfolding dispatch on_response resume delete
  dispatch-response a message type source shard override s event p fresh h =
      let (same, tracked) =
        dispatch-awaits a (shown event.message_id) message type source shard override s p h in
      rw tracked (
        rw same (promise-either_order a.tracker event fresh).0,
        refl,
        rw get-remove (rw (eq_refl (shown event.message_id))),
      )

  -- A dispatch that goes on to wait has sent one entry.
  pub dispatch-sent :
      (a : StreamAwaiter) (id message type target kind : String) (source shard : Option String)
      (s : S) (connection p : ℕ)
      → a.outgoing_stream ≡ some target
      → client_of a.write_channel.remote ≡ ok connection
      → a.write_channel.response_type ≡ some kind
      → (dispatch redis a id message type source shard none s).awaits ≡ ok p
      → (dispatch redis a id message type source shard none s).server
        ≡ (redis.xadd
            (shard_decorator target shard)
            (entry_fields id kind (some a.incoming_stream) (or_else source "") message)
            s).1
  unfolding dispatch dispatch_target write_to_stream
  dispatch-sent a id message type target kind source shard s connection p o c r h = ground arith
