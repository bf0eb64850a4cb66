-- ===== src/Gateway/Sockets/Ordering.antt =====
-- The outgoing stream of a WebSocket route writes the messages of all its sockets in the order in which
-- they came.
use streamerson.Prelude.{
  ℕ, String, ◌≡◌, refl, Bool, false, Option, none, some, List, [], ◌∷◌, ◌++◌, append-nil,
  append_assoc, arith, inl, inr,
}
use streamerson.Prelude.Result.{Result, ok, err, Result-cases}
use streamerson.Prelude.Value.{Value}
use streamerson.Keys.{Topic}
use streamerson.Message.{Json, MappedStreamEvent}
use streamerson.Redis.{Redis}
use streamerson.Source.{StreamingDataSource}
use streamerson.Gateway.Sockets.{
  App, SocketGateway, Step, message, progress, callback_done, data_event,
  deserialize_websocket_message, on_message, call_back, on_callback, subscribe_sender, on_data,
  step, run, new_gateway,
}
use streamerson.Gateway.Sockets.Queue.{
  accepted, followed_by, IsOrderly, write_each, enqueued, enqueue-IsOrderly,
}
use streamerson.Gateway.Sockets.Writing.{next, next-IsOrderly}

module _ {A S : Type 0} (app : App A) (redis : Redis S) (json : Json)
    (token_text : Value → Option String) (d : StreamingDataSource) (t : Topic) (type : String) where
  abbrev Orderly : List MappedStreamEvent → S → SocketGateway A S → Type 0
  Orderly = IsOrderly app redis json token_text d t type

  subscribed-IsOrderly :
      (came : List MappedStreamEvent) (s : S) (g : SocketGateway A S) (a : A)
      → Orderly came s g
      → Orderly came s (record g { app = a })
  subscribed-IsOrderly came s g a o = record {
    done = o.done;
    accounted = o.accounted;
    written = o.written;
    silent = o.silent;
    idle = o.idle;
    busy = o.busy;
  }

  abbrev pub received : SocketGateway A S → ℕ → String → String → SocketGateway A S
  received = on_message app redis json token_text d t type

  abbrev pub read : String → String → Result MappedStreamEvent
  read text id = deserialize_websocket_message token_text json text (some type) none id

  -- The gateway when the sender of a message is subscribed to its token.
  abbrev pub joined : SocketGateway A S → ℕ → MappedStreamEvent → SocketGateway A S
  joined g ws e = record g {
    app = subscribe_sender app redis json token_text d t type ws e.message_source_id g.app;
  }

  pub on_message-read :
      (g : SocketGateway A S) (ws : ℕ) (text id : String) (e : MappedStreamEvent)
      → read text id ≡ ok e
      → received g ws text id ≡ call_back app redis json token_text d t type (joined g ws e) e
  unfolding on_message
  on_message-read g ws text id e h = rw h

  on_message-silent :
      (g : SocketGateway A S) (ws : ℕ) (text id : String) (e : MappedStreamEvent)
      → read text id ≡ ok e
      → g.listens ≡ false
      → received g ws text id ≡ enqueued app redis json token_text d t type (joined g ws e) e
  unfolding call_back
  on_message-silent g ws text id e h silent = rw (on_message-read g ws text id e h) (rw silent)

  pub callback-silent :
      (g : SocketGateway A S) (i : ℕ) (returns : Bool)
      → g.called ≡ []
      → on_callback app redis json token_text d t type g i returns ≡ g
  unfolding on_callback
  callback-silent g i returns silent = rw silent

  pub on_message-unread :
      (g : SocketGateway A S) (ws : ℕ) (text id x : String)
      → read text id ≡ err x
      → received g ws text id ≡ g
  unfolding on_message
  on_message-unread g ws text id x h = rw h

  pub on_data-app :
      (g : SocketGateway A S) (e : MappedStreamEvent)
      → on_data app redis json token_text d t type g e
        ≡ record g { app = (on_data app redis json token_text d t type g e).app }
  unfolding on_data
  on_data-app g e = ground arith

  pub data-IsOrderly :
      (came : List MappedStreamEvent) (s : S) (g : SocketGateway A S) (e : MappedStreamEvent)
      → Orderly came s g
      → Orderly came s (on_data app redis json token_text d t type g e)
  data-IsOrderly came s g e o = rw (on_data-app g e) (subscribed-IsOrderly came s g _ o)

  pub message-IsOrderly :
      (came : List MappedStreamEvent) (s : S) (g : SocketGateway A S) (ws : ℕ) (text id : String)
      (e : MappedStreamEvent)
      → read text id ≡ ok e
      → Orderly came s g
      → Orderly (came ++ e ∷ []) s (received g ws text id)
  message-IsOrderly came s g ws text id e h o = rw (on_message-silent g ws text id e h o.silent.0) (
      enqueue-IsOrderly app redis json token_text d t type came s (joined g ws e) e
        (subscribed-IsOrderly came s g _ o))

  pub run-IsOrderly :
      (came : List MappedStreamEvent) (s : S) (g : SocketGateway A S) (xs : List Step)
      → Orderly came s g
      → Orderly
          (came ++ accepted app redis json token_text d t type xs)
          s
          (run app redis json token_text d t type g xs)
  unfolding run step
  run-IsOrderly came s g [] o = rw append-nil o
  run-IsOrderly came s g (message ws text id ∷ xs) o = elim (Result-cases (read text id)) [
    | inl (e, h) ↦
        let more : followed_by (read text id) (accepted app redis json token_text d t type xs)
            ≡ e ∷ accepted app redis json token_text d t type xs =
          rw h refl in
        rw more (
          rw (append_assoc came (e ∷ []) (accepted app redis json token_text d t type xs)) at (
            run-IsOrderly (came ++ e ∷ []) s (received g ws text id) xs
              (message-IsOrderly came s g ws text id e h o)))
    | inr (x, h) ↦ rw (on_message-unread g ws text id x h) (rw h (run-IsOrderly came s g xs o))
  ]
  run-IsOrderly came s g (progress ∷ xs) o =
      run-IsOrderly came s (next app redis json token_text d t type g) xs
        (next-IsOrderly app redis json token_text d t type came s g o)
  run-IsOrderly came s g (callback_done i returns ∷ xs) o =
      rw (callback-silent g i returns o.silent.1) (run-IsOrderly came s g xs o)
  run-IsOrderly came s g (data_event e ∷ xs) o =
      run-IsOrderly came s _ xs (data-IsOrderly came s g e o)

  pub new-IsOrderly : (a : A) (s : S) → Orderly [] s (new_gateway false a s)
  new-IsOrderly a s = record {
    done = [];
    accounted = refl;
    written = refl;
    silent = (refl, refl);
    idle = λ _. refl;
    busy = λ h _. ground (arith, h);
  }

  -- After any steps of a new gateway whose route has no `onMessage` callback: the messages that could be
  -- read, in the order in which they came, are those that the outgoing stream has begun to write, those in its queue, and those whose handlers
  -- wait for a drain, in this order; and the server is as the writes of the first of them, one after the
  -- other and each once, leave it. No handler waits unless a drain is pending.
  pub run-in_order :
      (a : A) (s : S) (xs : List Step)
      → (let g = run app redis json token_text d t type (new_gateway false a s) xs in
          (done : List MappedStreamEvent) × (accepted app redis json token_text d t type xs
            ≡ done ++ (g.queue ++ g.waiting))
          × (g.server ≡ write_each app redis json token_text d t type done s)
          × (g.drained ≡ false → g.waiting ≡ []))
  run-in_order a s xs =
      let o = run-IsOrderly [] s (new_gateway false a s) xs (new-IsOrderly a s) in
      (o.done, o.accounted, o.written, o.idle)
