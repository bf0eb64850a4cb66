-- ===== src/Gateway/Sockets/Queue.antt =====
-- What a WebSocket route has to write: the messages that came, in the queue of the outgoing stream or
-- waiting for a drain.
use streamerson.Prelude.{
  String, ◌≡◌, refl, sym, Bool, true, false, Option, none, some, List, [], ◌∷◌, ◌++◌, append-nil,
  append_assoc, length, length-append, ltb, arith, Bool-cases, inl, inr,
}
use streamerson.Prelude.Result.{Result, ok, err}
use streamerson.Prelude.Value.{Value}
use streamerson.Keys.{Topic}
use streamerson.Message.{Json, MappedStreamEvent}
use streamerson.Redis.{Redis}
use streamerson.Source.{StreamingDataSource, WriteOutcome, WriteTarget, write_chunk}
use streamerson.Gateway.Sockets.{
  App, SocketGateway, Step, message, progress, callback_done, data_event,
  deserialize_websocket_message, offer, offer_all, enqueue, on_drain, chunk,
}

-- A message that was read follows the others; one that could not be read is left out.
abbrev pub followed_by : Result MappedStreamEvent → List MappedStreamEvent → List MappedStreamEvent
followed_by (ok e) es = e ∷ es
followed_by (err x) es = es

module _ {A S : Type 0} (app : App A) (redis : Redis S) (json : Json)
    (token_text : Value → Option String) (d : StreamingDataSource) (t : Topic) (type : String) where
  -- The messages that can be read, in order.
  abbrev pub accepted : List Step → List MappedStreamEvent
  accepted [] = []
  accepted (message ws text id ∷ xs) =
      followed_by (deserialize_websocket_message token_text json text (some type) none id)
        (accepted xs)
  accepted (progress ∷ xs) = accepted xs
  accepted (callback_done i returns ∷ xs) = accepted xs
  accepted (data_event e ∷ xs) = accepted xs

  abbrev pub write_one : MappedStreamEvent → S → WriteOutcome × S
  write_one e s = write_chunk redis json d (WriteTarget.to_topic t) none (chunk e) s

  -- The server after each message was written, one after the other.
  abbrev pub write_each : List MappedStreamEvent → S → S
  write_each [] s = s
  write_each (e ∷ es) s = write_each es (write_one e s).1

  pub write_each-append :
      (es : List MappedStreamEvent) (e : MappedStreamEvent) (s : S)
      → write_each (es ++ e ∷ []) s ≡ (write_one e (write_each es s)).1
  write_each-append [] e s = refl
  write_each-append (x ∷ es) e s = write_each-append es e (write_one x s).1

  -- The messages that came are those that were written, those in the queue and those that wait. No
  -- message waits unless a drain is awaited, and for that one there is something in the queue. The route has no callback.
  pub record IsOrderly (came : List MappedStreamEvent) (s : S) (g : SocketGateway A S)
      : Type 0 where
    pub done : List MappedStreamEvent
    pub accounted : came ≡ done ++ (g.queue ++ g.waiting)
    pub written : g.server ≡ write_each done s
    pub idle : g.drained ≡ false → g.waiting ≡ []
    pub silent : (g.listens ≡ false) × (g.called ≡ [])
    pub busy : g.drained ≡ true → g.stuck ≡ false → ltb 0 (length g.queue) ≡ true

  abbrev pub offered : SocketGateway A S → MappedStreamEvent → SocketGateway A S
  offered = offer app redis json token_text d t type

  offer-IsOrderly :
      (came : List MappedStreamEvent) (s : S) (g : SocketGateway A S) (e : MappedStreamEvent)
      → g.waiting ≡ []
      → IsOrderly came s g
      → IsOrderly (came ++ e ∷ []) s (offered g e)
  unfolding offer
  offer-IsOrderly came s g e none_waits o = record {
    done = o.done;
    accounted = rw none_waits (rw o.accounted (rw none_waits (simp (append_assoc, append-nil))));
    written = o.written;
    silent = o.silent;
    idle = λ _. none_waits;
    busy = λ _ _. ground (arith, length-append g.queue (e ∷ []));
  }

  abbrev pub enqueued : SocketGateway A S → MappedStreamEvent → SocketGateway A S
  enqueued = enqueue app redis json token_text d t type

  enqueue-free :
      (g : SocketGateway A S) (e : MappedStreamEvent)
      → g.drained ≡ false
      → enqueued g e ≡ offered g e
  unfolding enqueue
  enqueue-free g e h = rw h

  enqueue-pending :
      (g : SocketGateway A S) (e : MappedStreamEvent)
      → g.drained ≡ true
      → enqueued g e ≡ record g { waiting = g.waiting ++ e ∷ [] }
  unfolding enqueue
  enqueue-pending g e h = rw h

  wait-IsOrderly :
      (came : List MappedStreamEvent) (s : S) (g : SocketGateway A S) (e : MappedStreamEvent)
      → g.drained ≡ true
      → IsOrderly came s g
      → IsOrderly (came ++ e ∷ []) s (record g { waiting = g.waiting ++ e ∷ [] })
  wait-IsOrderly came s g e pending o = record {
    done = o.done;
    accounted = rw o.accounted (simp append_assoc);
    written = o.written;
    silent = o.silent;
    idle = λ h. ground (arith, pending, h);
    busy = o.busy;
  }

  pub enqueue-IsOrderly :
      (came : List MappedStreamEvent) (s : S) (g : SocketGateway A S) (e : MappedStreamEvent)
      → IsOrderly came s g
      → IsOrderly (came ++ e ∷ []) s (enqueued g e)
  enqueue-IsOrderly came s g e o = elim (Bool-cases g.drained) [
    | inl pending ↦ rw (enqueue-pending g e pending) (wait-IsOrderly came s g e pending o)
    | inr free ↦ rw (enqueue-free g e free) (offer-IsOrderly came s g e (o.idle free) o)
  ]

  abbrev pub offered_all : SocketGateway A S → List MappedStreamEvent → SocketGateway A S
  offered_all = offer_all app redis json token_text d t type

  offer_all-IsOrderly :
      (came es : List MappedStreamEvent) (s : S) (g : SocketGateway A S)
      → g.waiting ≡ []
      → IsOrderly came s g
      → IsOrderly (came ++ es) s (offered_all g es)
  unfolding offer_all offer
  offer_all-IsOrderly came [] s g h o = rw append-nil o
  offer_all-IsOrderly came (e ∷ es) s g h o =
      rw (append_assoc came (e ∷ []) es) at
        (offer_all-IsOrderly (came ++ e ∷ []) es s (offered g e) h (offer-IsOrderly came s g e h o))

  pub moved-IsOrderly :
      (came : List MappedStreamEvent) (s : S) (g : SocketGateway A S) (e : MappedStreamEvent)
      (rest : List MappedStreamEvent) (b : Bool)
      → g.queue ≡ e ∷ rest
      → (g.drained ≡ true → b ≡ false → ltb 0 (length rest) ≡ true)
      → IsOrderly came s g
      → IsOrderly came s (record g { queue = rest; stuck = b; server = (write_one e g.server).1 })
  moved-IsOrderly came s g e rest b q busy o = record {
    done = o.done ++ e ∷ [];
    accounted = rw o.accounted (rw q (simp append_assoc));
    written = rw o.written (sym (write_each-append o.done e s));
    silent = o.silent;
    idle = o.idle;
    busy = busy;
  }

  -- After a drain the messages that waited are in the queue.
  pub drained-IsOrderly :
      (done : List MappedStreamEvent) (s : S) (g : SocketGateway A S)
      → g.queue ≡ []
      → g.server ≡ write_each done s
      → (g.listens ≡ false) × (g.called ≡ [])
      → IsOrderly (done ++ g.waiting) s (on_drain app redis json token_text d t type g)
  unfolding on_drain
  drained-IsOrderly done s g q w silent =
      offer_all-IsOrderly done g.waiting s (record g { drained = false; waiting = [] }) refl
        (record {
          done = done;
          accounted = rw q (simp append-nil);
          written = w;
          silent = silent;
          idle = λ _. refl;
          busy = λ h _. ground (arith, h);
        })
