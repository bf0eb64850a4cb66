-- ===== src/Gateway/Sockets/Draining.antt =====
-- The outgoing stream of a WebSocket route comes to an end with what it was given, if Redis accepts it.
use streamerson.Prelude.{
  ℕ, zero, suc, ◌+◌, ◌-◌, ◌≤◌, String, ◌≡◌, ◌∙◌, refl, ap, true, false, ◌&&◌, Option, none, some,
  List, [], ◌∷◌, ◌++◌, append-nil, length, length-append, truthy?, or_else, arith, Bool-cases, inl,
  inr, All, All-suffix, All-prefix, append_assoc,
}
use streamerson.Prelude.Result.{ok, is_ok, Result-cases}
use streamerson.Prelude.Value.{Value, truthy_value}
use streamerson.Keys.{Topic, shard_decorator, consumer_key, producer_key}
use streamerson.Message.{Json, MappedStreamEvent, entry_fields, response, message_type_text}
use streamerson.Remote.{client_of}
use streamerson.Redis.{Redis}
use streamerson.Source.{StreamingDataSource, called_back, write_chunk, write_to_stream}
use streamerson.Gateway.Sockets.{
  App, SocketGateway, Step, message, progress, callback_done, data_event, offer, offer_all,
  on_drain, on_message, enqueue, call_back, step, run, new_gateway,
}
use streamerson.Gateway.Sockets.Queue.{accepted, IsOrderly, write_each, write_one}
use streamerson.Gateway.Sockets.Ordering.{
  run-IsOrderly, new-IsOrderly, on_message-unread, callback-silent, on_data-app, data-IsOrderly,
  message-IsOrderly, received, read,
}
use streamerson.Gateway.Sockets.Writing.{
  next-IsOrderly, next, next-more, next-last, empty-next, queue-cases,
}

-- Nothing else comes while the stream goes on n times.
abbrev pub finish : ℕ → List Step
finish zero = []
finish (suc n) = progress ∷ finish n

-- What the outgoing stream can write.
abbrev pub CanWrite : MappedStreamEvent → Type 0
CanWrite e = (truthy? e.message_id && truthy_value e.payload) ≡ true

module _ {A S : Type 0} (app : App A) (redis : Redis S) (json : Json)
    (token_text : Value → Option String) (d : StreamingDataSource) (t : Topic) (type : String)
    (connection : ℕ) where
  abbrev all_accepted : List Step → List MappedStreamEvent
  all_accepted = accepted app redis json token_text d t type

  abbrev Orderly : List MappedStreamEvent → S → SocketGateway A S → Type 0
  Orderly = IsOrderly app redis json token_text d t type

  abbrev further : SocketGateway A S → SocketGateway A S
  further = next app redis json token_text d t type

  abbrev all_steps : SocketGateway A S → List Step → SocketGateway A S
  all_steps = run app redis json token_text d t type

  -- How much is left to write.
  abbrev left : SocketGateway A S → ℕ
  left g = length g.queue + length g.waiting

  length-offer_all :
      (g : SocketGateway A S) (es : List MappedStreamEvent)
      → (left (offer_all app redis json token_text d t type g es) ≡ left g + length es)
        × ((offer_all app redis json token_text d t type g es).stuck ≡ g.stuck)
  unfolding offer_all offer
  length-offer_all g [] = (omega arith, refl)
  length-offer_all g (e ∷ es) =
      let (more, same) = length-offer_all (offer app redis json token_text d t type g e) es in
      (omega (arith, more, length-append g.queue (e ∷ [])), same)

  length-on_drain :
      (g : SocketGateway A S)
      → (left (on_drain app redis json token_text d t type g) ≡ left g)
        × ((on_drain app redis json token_text d t type g).stuck ≡ g.stuck)
  unfolding on_drain
  length-on_drain g =
      let (more, same) = length-offer_all (record g { drained = false; waiting = [] }) g.waiting in
      (omega (arith, more), same)

  left-bound :
      (came : List MappedStreamEvent) (s : S) (g : SocketGateway A S)
      → Orderly came s g
      → left g ≤ length came
  left-bound came s g o = omega (
    arith,
    ap length o.accounted,
    length-append o.done (g.queue ++ g.waiting),
    length-append g.queue g.waiting,
  )

  no_elements : (es : List MappedStreamEvent) → length es ≡ 0 → es ≡ []
  no_elements [] h = refl
  no_elements (e ∷ es) h = ground (arith, h)

  written-all :
      (came : List MappedStreamEvent) (s : S) (g : SocketGateway A S)
      → left g ≡ 0
      → Orderly came s g
      → (g.queue ≡ [])
        × (g.waiting ≡ [])
        × (g.server ≡ write_each app redis json token_text d t type came s)
  written-all came s g h o =
      let q : g.queue ≡ [] = no_elements g.queue (omega (arith, h)) in
      let w : g.waiting ≡ [] = no_elements g.waiting (omega (arith, h)) in
      let all : came ≡ o.done = o.accounted ∙ (rw q (rw w (simp append-nil))) in
      (q, w, rw all o.written)

  module _ (connected : client_of d.remote ≡ ok connection)
      (accepts : (key : String) (fields : List String) (s : S)
        → is_ok (redis.xadd key fields s).0 ≡ true) where
    writes :
        (e : MappedStreamEvent) (s : S)
        → CanWrite e
        → (write_one app redis json token_text d t type e s).0 ≡ called_back
    unfolding write_chunk write_to_stream
    writes e s h =
        let sent =
          accepts (shard_decorator (consumer_key t none) none)
            (entry_fields (or_else e.message_id "")
              (or_else d.response_type (message_type_text response)) (some (producer_key t none))
              (or_else (some (or_else e.message_source_id "")) "") (json.stringify e.payload))
            s in
        ground (arith, connected, sent)

    -- The chunk at the head of the queue is written, if there is one.
    head-left :
        (g : SocketGateway A S) (e : MappedStreamEvent) (rest : List MappedStreamEvent)
        → g.queue ≡ e ∷ rest
        → g.stuck ≡ false
        → CanWrite e
        → (left (further g) ≡ left g - 1) × ((further g).stuck ≡ false)
    head-left g e (f ∷ rest) q k h =
        rw (next-more app redis json token_text d t type g e f rest q k (writes e g.server h))
          (omega (arith, ap length q), k)
    head-left g e [] q k h =
        let (same, still) = length-on_drain (record g {
          queue = [];
          server = (write_one app redis json token_text d t type e g.server).1;
        }) in
        rw (next-last app redis json token_text d t type g e q k (writes e g.server h))
          (ground (arith, same, still, ap length q, k))

    queued-CanWrite :
        (came : List MappedStreamEvent) (s : S) (g : SocketGateway A S) (e : MappedStreamEvent)
        (rest : List MappedStreamEvent)
        → g.queue ≡ e ∷ rest
        → All CanWrite came
        → Orderly came s g
        → CanWrite e
    queued-CanWrite came s g e rest q h o =
        let still : All CanWrite (g.queue ++ g.waiting) =
          All-suffix CanWrite o.done (g.queue ++ g.waiting) (rw o.accounted at h) in
        (rw q at still).0

    nothing_left :
        (came : List MappedStreamEvent) (s : S) (g : SocketGateway A S)
        → g.queue ≡ []
        → g.stuck ≡ false
        → Orderly came s g
        → left g ≡ 0
    nothing_left came s g q k o = elim (Bool-cases g.drained) [
      | inl pending ↦ ground (arith, ap length q, o.busy pending k)
      | inr free ↦ rw q (rw (o.idle free) refl)
    ]

    progress-left :
        (came : List MappedStreamEvent) (s : S) (g : SocketGateway A S)
        → g.stuck ≡ false
        → All CanWrite came
        → Orderly came s g
        → (left (further g) ≡ left g - 1) × ((further g).stuck ≡ false)
    progress-left came s g k h o = elim (queue-cases app redis json token_text d t type g.queue) [
      | inl q ↦
          let still = empty-next app redis json token_text d t type g q in
          rw still (rw (nothing_left came s g q k o) refl, k)
      | inr (e, rest, q) ↦ head-left g e rest q k (queued-CanWrite came s g e rest q h o)
    ]

    finish-left :
        (came : List MappedStreamEvent) (s : S) (g : SocketGateway A S) (n : ℕ)
        → g.stuck ≡ false
        → All CanWrite came
        → Orderly came s g
        → left g ≤ n
        → (left (all_steps g (finish n)) ≡ 0)
          × ((all_steps g (finish n)).stuck ≡ false)
          × Orderly came s (all_steps g (finish n))
    unfolding run step
    finish-left came s g zero k h o b = (omega (arith, b), k, o)
    finish-left came s g (suc n) k h o b =
        let (less, still) = progress-left came s g k h o in
        finish-left came s (further g) n still h
          (next-IsOrderly app redis json token_text d t type came s g o) (omega (arith, less, b))

    message-unstuck :
        (g : SocketGateway A S) (ws : ℕ) (text id : String)
        → (received app redis json token_text d t type g ws text id).stuck ≡ g.stuck
    unfolding on_message call_back enqueue offer
    message-unstuck g ws text id =
        elim (Result-cases (read app redis json token_text d t type text id)) [
          | inl (e, h) ↦ rw h (ground arith)
          | inr (x, h) ↦ rw h
        ]

    -- No write gets stuck.
    run-unstuck :
        (came : List MappedStreamEvent) (s : S) (g : SocketGateway A S) (xs : List Step)
        → g.stuck ≡ false
        → All CanWrite (came ++ all_accepted xs)
        → Orderly came s g
        → (all_steps g xs).stuck ≡ false
    unfolding run step
    run-unstuck came s g [] k h o = k
    run-unstuck came s g (message ws text id ∷ xs) k h o =
        let still = message-unstuck g ws text id ∙ k in
        elim (Result-cases (read app redis json token_text d t type text id)) [
          | inl (e, q) ↦
              run-unstuck (came ++ e ∷ []) s
                (received app redis json token_text d t type g ws text id) xs still
                (rw (append_assoc came (e ∷ []) (all_accepted xs)) (rw q at h))
                (message-IsOrderly app redis json token_text d t type came s g ws text id e q o)
          | inr (x, q) ↦
              ap (λ b. (all_steps b xs).stuck)
                (on_message-unread app redis json token_text d t type g ws text id x q)
              ∙ run-unstuck came s g xs k (rw q at h) o
        ]
    run-unstuck came s g (progress ∷ xs) k h o =
        let (_, still) =
          progress-left came s g k (All-prefix CanWrite came (all_accepted xs) h) o in
        run-unstuck came s (further g) xs still h
          (next-IsOrderly app redis json token_text d t type came s g o)
    run-unstuck came s g (callback_done i returns ∷ xs) k h o =
        ap (λ b. (all_steps b xs).stuck)
          (callback-silent app redis json token_text d t type g i returns o.silent.1)
        ∙ run-unstuck came s g xs k h o
    run-unstuck came s g (data_event e ∷ xs) k h o =
        run-unstuck came s _ xs (rw (on_data-app app redis json token_text d t type g e) k) h
          (data-IsOrderly app redis json token_text d t type came s g e o)

    -- A new gateway whose route has no `onMessage` callback, whose connection is open and whose every write
    -- Redis accepts: after any steps in which
    -- each message that can be read has a truthy payload and an ID, as many turns of the outgoing stream as
    -- there are messages leave it idle, with nothing in the queue, no handler waiting and none stuck, and the
    -- server as the writes of all messages, in the order in which they came, leave it.
    pub finish-written_in_order :
        (a : A) (s : S) (xs : List Step)
        → All CanWrite (all_accepted xs)
        → (let g =
              all_steps
                (all_steps (new_gateway false a s) xs)
                (finish (length (all_accepted xs))) in
            (g.queue ≡ [])
            × (g.waiting ≡ [])
            × (g.stuck ≡ false)
            × (g.server ≡ write_each app redis json token_text d t type (all_accepted xs) s))
    finish-written_in_order a s xs h =
        let g = all_steps (new_gateway false a s) xs in
        let k =
          run-unstuck [] s (new_gateway false a s) xs refl h
            (new-IsOrderly app redis json token_text d t type a s) in
        let o =
          run-IsOrderly app redis json token_text d t type [] s (new_gateway false a s) xs
            (new-IsOrderly app redis json token_text d t type a s) in
        let (none_left, still, o') =
          finish-left (all_accepted xs) s g (length (all_accepted xs)) k h o
            (left-bound (all_accepted xs) s g o) in
        let (queue, waiting, server) =
          written-all (all_accepted xs) s (all_steps g (finish (length (all_accepted xs))))
            none_left o' in
        (queue, waiting, still, server)
