-- ===== src/Gateway/Sockets/Blocking.antt =====
-- A chunk that never calls back ends all writing of a WebSocket route.
use streamerson.Prelude.{
  ℕ, String, ◌≡◌, Bool, true, false, get_elem?, Bool-cases, Option-cases, ◌&&◌, Option, List, [],
  ◌∷◌, truthy?, arith, inl, inr,
}
use streamerson.Prelude.Result.{Result-cases}
use streamerson.Prelude.Value.{Value, truthy_value}
use streamerson.Keys.{Topic}
use streamerson.Message.{Json, MappedStreamEvent}
use streamerson.Redis.{Redis}
use streamerson.Source.{StreamingDataSource, write_chunk}
use streamerson.Gateway.Sockets.{
  App, SocketGateway, Step, message, progress, callback_done, data_event, offer, enqueue, call_back,
  on_callback, remove_at, on_data, on_progress, step, run,
}
use streamerson.Gateway.Sockets.Queue.{enqueued}
use streamerson.Gateway.Sockets.Ordering.{
  on_message-read, on_message-unread, read, received, on_data-app, joined,
}
use streamerson.Gateway.Sockets.Writing.{next, still-next}

module _ {A S : Type 0} (app : App A) (redis : Redis S) (json : Json)
    (token_text : Value → Option String) (d : StreamingDataSource) (t : Topic) (type : String) where
  -- The gateway is stuck, with the server in a given state.
  abbrev IsStuck : S → SocketGateway A S → Type 0
  IsStuck s g = (g.stuck ≡ true) × (g.server ≡ s)

  enqueue-IsStuck :
      (g : SocketGateway A S) (e : MappedStreamEvent) (s : S)
      → IsStuck s g
      → IsStuck s (enqueued app redis json token_text d t type g e)
  unfolding enqueue offer
  enqueue-IsStuck g e s h = ground (arith, h)

  call_back-IsStuck :
      (g : SocketGateway A S) (e : MappedStreamEvent) (s : S)
      → IsStuck s g
      → IsStuck s (call_back app redis json token_text d t type g e)
  unfolding call_back
  call_back-IsStuck g e s h = ground (arith, h, enqueue-IsStuck g e s h)

  callback-IsStuck :
      (g : SocketGateway A S) (i : ℕ) (returns : Bool) (s : S)
      → IsStuck s g
      → IsStuck s (on_callback app redis json token_text d t type g i returns)
  unfolding on_callback
  callback-IsStuck g i returns s h = elim (Option-cases (get_elem? g.called i)) [
    | inl none_called ↦ rw (none_called, on_callback) h
    | inr (e, found) ↦
        rw (found, on_callback)
          (elim (Bool-cases returns) [
            | inl done ↦
                rw done (enqueue-IsStuck (record g { called = remove_at g.called i }) e s h)
            | inr thrown ↦ rw thrown h
          ])
  ]

  message-IsStuck :
      (g : SocketGateway A S) (ws : ℕ) (text id : String) (s : S)
      → IsStuck s g
      → IsStuck s (received app redis json token_text d t type g ws text id)
  message-IsStuck g ws text id s h =
      elim (Result-cases (read app redis json token_text d t type text id)) [
        | inl (e, q) ↦
            rw (on_message-read app redis json token_text d t type g ws text id e q)
              (call_back-IsStuck (joined app redis json token_text d t type g ws e) e s h)
        | inr (x, q) ↦ rw (on_message-unread app redis json token_text d t type g ws text id x q) h
      ]

  data-IsStuck :
      (g : SocketGateway A S) (e : MappedStreamEvent) (s : S)
      → IsStuck s g
      → IsStuck s (on_data app redis json token_text d t type g e)
  data-IsStuck g e s h = rw (on_data-app app redis json token_text d t type g e) h

  run-IsStuck :
      (g : SocketGateway A S) (xs : List Step) (s : S)
      → IsStuck s g
      → IsStuck s (run app redis json token_text d t type g xs)
  unfolding run step
  run-IsStuck g [] s h = h
  run-IsStuck g (message ws text id ∷ xs) s h =
      run-IsStuck (received app redis json token_text d t type g ws text id) xs s
        (message-IsStuck g ws text id s h)
  run-IsStuck g (progress ∷ xs) s h =
      run-IsStuck (next app redis json token_text d t type g) xs s
        (rw (still-next app redis json token_text d t type g h.0) h)
  run-IsStuck g (callback_done i returns ∷ xs) s h =
      run-IsStuck (on_callback app redis json token_text d t type g i returns) xs s
        (callback-IsStuck g i returns s h)
  run-IsStuck g (data_event e ∷ xs) s h =
      run-IsStuck (on_data app redis json token_text d t type g e) xs s (data-IsStuck g e s h)

  drops :
      (e : MappedStreamEvent) (rest : List MappedStreamEvent) (g : SocketGateway A S)
      → g.queue ≡ e ∷ rest
      → g.stuck ≡ false
      → (truthy? e.message_id && truthy_value e.payload) ≡ false
      → IsStuck g.server (next app redis json token_text d t type g)
  unfolding on_progress write_chunk
  drops e rest g q k h = ground (arith, q, k, h)

  -- When the outgoing stream of a route comes to a message without an ID or with a payload that is not
  -- truthy, such as the number 0, nothing is written any more, whatever its sockets send from then on.
  pub run-blocked :
      (g : SocketGateway A S) (e : MappedStreamEvent) (rest : List MappedStreamEvent)
      (xs : List Step)
      → g.queue ≡ e ∷ rest
      → g.stuck ≡ false
      → (truthy? e.message_id && truthy_value e.payload) ≡ false
      → (run app redis json token_text d t type g (progress ∷ xs)).server ≡ g.server
  unfolding run step
  run-blocked g e rest xs q k h =
      (run-IsStuck (next app redis json token_text d t type g) xs g.server (drops e rest g q k h)).1
