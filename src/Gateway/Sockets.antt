-- ===== src/Gateway/Sockets.antt =====
-- The WebSocket gateway: packages/gateway-wss/src/wssapi.ts. uWebSockets is an interface of its queries
-- and commands on a state; it calls the handlers with a message that has been decoded to text. A socket
-- is a number. A message whose `onMessage` callback was called waits until that is done, which may throw; it
-- touches nothing of the gateway. The outgoing stream is Node's `Writable` for objects: it writes one chunk at a time, keeps the others in a
-- queue, and `write` answers false once 16 chunks are in it; `drain` follows when the queue is empty.
pub mod Blocking
pub mod Draining
pub mod Echo
pub mod Ordering
pub mod Queue
pub mod Subscriptions
pub mod Writing
use streamerson.Prelude.{
  ℕ, zero, suc, ◌+◌, String, Bool, true, false, not, ◌&&◌, ◌||◌, ◌==◌, Option, none, some, List, [],
  ◌∷◌, ◌++◌, length, get_elem?, nat_eq, ltb, or_else, if◌then◌else◌,
}
use streamerson.Prelude.Result.{Result, ok, err, ◌>>=◌}
use streamerson.Prelude.Decimal.{show_nat}
use streamerson.Prelude.Value.{
  Value, Fields, undefined, null, bool, num, str, arr, obj, end, field, own, assign, spread,
}
use streamerson.Keys.{Topic, consumer_key}
use streamerson.Message.{Json, MappedStreamEvent}
use streamerson.Redis.{Redis}
use streamerson.Source.{
  StreamingDataSource, Chunk, WriteOutcome, called_back, dropped, rejected, WriteTarget,
  write_chunk, add_stream_id,
}

-- `A` is the state of uWebSockets. A token that is missing is a topic of its own.
pub record App (A : Type 0) : Type 0 where
  pub is_subscribed : ℕ → Option String → A → Bool
  pub subscribe : ℕ → Option String → A → A
  pub num_subscribers : Option String → A → ℕ
  pub publish : Option String → String → A → Bool × A

-- `v[k]`, for a value that is neither null nor undefined.
abbrev own_field : Value → String → Value
own_field (obj r fs) k = own fs k
own_field (arr r fs) k = own fs k
own_field v k = undefined

unfoldable pub without : Fields → String → Fields
without end k = end
without (field j v fs) k = let rest = without fs k in if j == k then rest else field j v rest

-- `delete v[k]`
abbrev delete_field : Value → String → Value
delete_field (obj r fs) k = obj r (without fs k)
delete_field (arr r fs) k = arr r (without fs k)
delete_field v k = v

-- The characters of a text as the fields of its spread, where each is one UTF-16 unit.
text_fields : ℕ → String → Fields
text_fields n String.[] = end
text_fields n (String.◌∷◌ c s) = field (show_nat n) (str (String.◌∷◌ c "")) (text_fields (suc n) s)

-- What `...v` spreads: an array's length is not among it.
unfoldable pub spread_fields : Value → Fields
unfolding text_fields without
spread_fields (obj r fs) = fs
spread_fields (arr r fs) = without fs "length"
spread_fields (str s) = text_fields 0 s
spread_fields v = end

-- `token_text` is the text of a token for the clients that are given it; none for `undefined`.
module _ (token_text : Value → Option String) where
  socket_event : Value → Option String → Option String → String → MappedStreamEvent
  socket_event v type destination id = record {
    stream_id = none;
    stream_message_id = none;
    message_id = some id;
    message_type = some (or_else type "SOCKET");
    message_destination = some (or_else destination "");
    message_protocol = some "json";
    message_source_id = token_text (own_field v "token");
    message_headers = none;
    payload = delete_field v "token";
  }

  -- To take a field of null or `undefined` throws.
  from_json : Option String → Option String → String → Value → Result MappedStreamEvent
  unfolding socket_event
  from_json type destination id null =
      err "Cannot destructure property 'token' of 'messageJson' as it is null."
  from_json type destination id undefined =
      err "Cannot destructure property 'token' of 'messageJson' as it is undefined."
  from_json type destination id v = ok (socket_event v type destination id)

  -- `id` is the identifier that is drawn.
  unfoldable pub deserialize_websocket_message :
      Json → String → Option String → Option String → String → Result MappedStreamEvent
  unfolding from_json
  deserialize_websocket_message json text type destination id =
      json.parse text >>= from_json type destination id

abbrev text_value : Option String → Value
text_value none = undefined
text_value (some s) = str s

-- The response and the token that it is published to.
unfoldable pub deserialize_stream_event : MappedStreamEvent → Fields × Option String
unfolding spread_fields
deserialize_stream_event e = (
  assign (spread end (spread_fields e.payload)) "messageId" (text_value e.message_id),
  e.message_source_id,
)

-- The source of a route: to make the incoming stream adds the stream of the topic.
unfoldable pub route_source : StreamingDataSource → Topic → ℕ → StreamingDataSource
route_source d t now = (add_stream_id d (consumer_key t none) now).1

-- A list without its element at a place.
unfoldable pub remove_at : List MappedStreamEvent → ℕ → List MappedStreamEvent
remove_at [] i = []
remove_at (e ∷ es) zero = es
remove_at (e ∷ es) (suc i) = e ∷ remove_at es i

-- `stuck` is whether a chunk is being written that never calls back, and `queue` what is behind it or
-- yet to be written. `drained` is whether `this.drained` is pending, and `waiting` the messages whose
-- handlers wait for it. `listens` is whether the route has an `onMessage` callback, and `called` the
-- messages that wait for theirs.
pub record SocketGateway (A S : Type 0) : Type 0 where
  pub app : A
  pub server : S
  pub queue : List MappedStreamEvent
  pub stuck : Bool
  pub drained : Bool
  pub waiting : List MappedStreamEvent
  pub listens : Bool
  pub called : List MappedStreamEvent

abbrev pub high_water_mark : ℕ
high_water_mark = 16

pub data Step : Type 0 where
  -- a message of a socket, with the identifier drawn for it
  message : ℕ → String → String → Step
  -- the chunk that is being written is done
  progress : Step
  -- the callback of one of the messages that wait for theirs returns (true) or throws
  callback_done : ℕ → Bool → Step
  -- an event of the incoming stream
  data_event : MappedStreamEvent → Step

abbrev pub chunk : MappedStreamEvent → Chunk
chunk e = record {
  message_id = e.message_id;
  payload = e.payload;
  message_source_id = e.message_source_id;
}

module _ {A S : Type 0} (app : App A) (redis : Redis S) (json : Json)
    (token_text : Value → Option String) (d : StreamingDataSource) (t : Topic) (type : String) where
  -- `outgoingStream.write(streamEvent)`, and `this.drained ||= …` if it answers false.
  unfoldable pub offer : SocketGateway A S → MappedStreamEvent → SocketGateway A S
  offer g e =
      let queue = g.queue ++ e ∷ [] in
      let size = if g.stuck then suc (length queue) else length queue in
      record g { queue = queue; drained = g.drained || not (ltb size high_water_mark) }

  unfoldable pub offer_all : SocketGateway A S → List MappedStreamEvent → SocketGateway A S
  unfolding offer
  offer_all g [] = g
  offer_all g (e ∷ es) = offer_all (offer g e) es

  -- The `message` handler, after the callback: `await this.drained`, then the write.
  unfoldable pub enqueue : SocketGateway A S → MappedStreamEvent → SocketGateway A S
  unfolding offer
  enqueue g e = if g.drained then record g { waiting = g.waiting ++ e ∷ [] } else offer g e

  unfoldable pub subscribe_sender : ℕ → Option String → A → A
  subscribe_sender ws token a = if app.is_subscribed ws token a then a else app.subscribe ws token a

  -- `if (options.onMessage) await options.onMessage(ws, streamEvent)`
  unfoldable pub call_back : SocketGateway A S → MappedStreamEvent → SocketGateway A S
  unfolding enqueue
  call_back g e = if g.listens then record g { called = g.called ++ e ∷ [] } else enqueue g e

  -- A callback is done: its handler goes on, or ends with what the callback throws.
  unfoldable pub on_callback : SocketGateway A S → ℕ → Bool → SocketGateway A S
  unfolding enqueue
  on_callback g i returns = elim (get_elem? g.called i) [
    | none ↦ g
    | some e ↦
        let g' = record g { called = remove_at g.called i } in if returns then enqueue g' e else g'
  ]

  accept : SocketGateway A S → ℕ → Result MappedStreamEvent → SocketGateway A S
  unfolding call_back subscribe_sender
  accept g ws (err e) = g
  accept g ws (ok event) =
      call_back (record g { app = subscribe_sender ws event.message_source_id g.app }) event

  -- The `message` handler. If the message cannot be read, it throws before anything is done.
  unfoldable pub on_message : SocketGateway A S → ℕ → String → String → SocketGateway A S
  unfolding accept
  on_message g ws text id =
      accept g ws (deserialize_websocket_message token_text json text (some type) none id)

  -- `drain`: the handlers that wait go on, in the order in which they began to.
  unfoldable pub on_drain : SocketGateway A S → SocketGateway A S
  unfolding offer_all
  on_drain g = offer_all (record g { drained = false; waiting = [] }) g.waiting

  after_chunk : SocketGateway A S → List MappedStreamEvent → WriteOutcome × S → SocketGateway A S
  unfolding on_drain
  after_chunk g rest (dropped, s) = record g { queue = rest; stuck = true; server = s }
  after_chunk g rest (rejected e, s) = record g { queue = rest; stuck = true; server = s }
  after_chunk g [] (called_back, s) =
      if g.drained
      then on_drain (record g { queue = []; server = s })
      else record g { queue = []; server = s }
  after_chunk g (e ∷ es) (called_back, s) = record g { queue = e ∷ es; server = s }

  -- The write of one chunk, from `write` of `getWriteStream({ topic })` to its callback.
  unfoldable pub on_progress : SocketGateway A S → SocketGateway A S
  unfolding after_chunk
  on_progress g = elim g.queue [
    | [] ↦ g
    | e ∷ rest ↦
        if g.stuck
        then g
        else after_chunk g rest
            (write_chunk redis json d (WriteTarget.to_topic t) none (chunk e) g.server)
  ]

  -- The `data` listener of the incoming stream.
  unfoldable pub on_data : SocketGateway A S → MappedStreamEvent → SocketGateway A S
  unfolding deserialize_stream_event
  on_data g e =
      let (response, token) = deserialize_stream_event e in
      if nat_eq (app.num_subscribers token g.app) 0
      then g
      else record g { app = (app.publish token (json.stringify (obj none response)) g.app).1 }

  unfoldable pub step : SocketGateway A S → Step → SocketGateway A S
  unfolding on_message on_progress on_callback on_data
  step g (message ws text id) = on_message g ws text id
  step g progress = on_progress g
  step g (callback_done i returns) = on_callback g i returns
  step g (data_event e) = on_data g e

  unfoldable pub run : SocketGateway A S → List Step → SocketGateway A S
  unfolding step
  run g [] = g
  run g (x ∷ xs) = run (step g x) xs

-- A route without an `onMessage` callback, or with one.
abbrev pub new_gateway : {A S : Type 0} → Bool → A → S → SocketGateway A S
new_gateway listens a s = record {
  app = a;
  server = s;
  queue = [];
  stuck = false;
  drained = false;
  waiting = [];
  listens = listens;
  called = [];
}

-- What becomes of a request to open a socket.
pub data Upgrade : Type 0 where
  unauthorized : String → Upgrade
  upgraded : String → String → String → Upgrade

-- The `upgrade` handler, with what `authenticate` answered and the headers of the request.
unfoldable pub on_upgrade : Bool → String → String → String → Upgrade
on_upgrade auth key protocol extensions =
    if auth then upgraded key protocol extensions else unauthorized "401 Unauthorized"
