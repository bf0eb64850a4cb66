-- ===== src/Tests/Gateways.antt =====
-- The gateways at concrete inputs.
use streamerson.Prelude.{
  ℕ, suc, String, ◌≡◌, refl, eq_iff, arith, Bool, true, false, ◌&&◌, ◌||◌, Option, none, some, List,
  [], ◌∷◌, ◌++◌, get_elem?, length, nat_eq, if◌then◌else◌,
}
use streamerson.Prelude.Result.{ok}
use streamerson.Prelude.Dict
use streamerson.Prelude.Value.{Value, str}
use streamerson.Keys.{consumer_key, producer_key}
use streamerson.Message.{MappedStreamEvent, entry_fields, deserialize_message_array}
use streamerson.Remote.{client_of}
use streamerson.Source.{WriteTarget, write_chunk, has_stream_id}
use streamerson.Deferral.{fulfilled, new_tracker}
use streamerson.Awaiter.{dispatch, resume, returned, on_response, response_stream}
use streamerson.Consumer.{
  StreamConsumer, StreamConsumerOptions, Handler, listening_key, parsed_payload,
}
use streamerson.Consumer.Pipe.{flowing, transform}
use streamerson.Gateway.Fastify.{
  Route, GatewayOptions, new_plugin, register_routes, count, handle_request, route_awaiter,
  register_routes-readers,
}
use streamerson.Gateway.Service.{
  IsConnected, request_event, answer_event, request_fields, answer_fields, gate_awaiter,
  handle_request-answered,
}
use streamerson.Gateway.Sockets.{
  App, SocketGateway, Step, message, progress, run, new_gateway, on_data, chunk, route_source,
  deserialize_websocket_message,
}
use streamerson.Gateway.Sockets.Queue.{accepted, write_each}
use streamerson.Gateway.Sockets.Ordering.{run-in_order}
use streamerson.Gateway.Sockets.Draining.{finish, finish-written_in_order}
use streamerson.Gateway.Sockets.Subscriptions.{IsPubSub, same_token, has_sent, run-subscribed}
use streamerson.Gateway.Sockets.Echo.{echo_event, echo_text, message-echoed}
use streamerson.Gateway.Sockets.Blocking.{run-blocked}
use streamerson.Tests.Fixtures.{texts, server, channel, orders}

abbrev gateway_options : GatewayOptions
gateway_options = record { topic = orders; timeout = some 3000; write_channel = channel }

abbrev route : Route
route = record { method = "POST"; url = "/orders"; message_type = "greet" }

register_routes-readers_example :
    (length
        (register_routes gateway_options new_plugin (some route ∷ none ∷ some route ∷ [])).trackers
      ≡ 2)
    × (count 0
          (register_routes gateway_options new_plugin (some route ∷ none ∷ some route ∷ [])).readers
        ≡ 2)
register_routes-readers_example =
    register_routes-readers gateway_options (some route ∷ none ∷ some route ∷ []) 0

abbrev shout : Handler
shout event = ok (str "HELLO")

abbrev consumer_options : StreamConsumerOptions
consumer_options = record {
  topic = orders;
  shard = none;
  bidirectional = none;
  group = none;
  event_map = [];
}

abbrev greeter : StreamConsumer
greeter = record {
  options = consumer_options;
  bidirectional = true;
  incoming_channel = channel;
  outgoing_channel = some 1;
  outgoing_stream = some 1;
  stream_events = ("resp", shout) ∷ [];
}

abbrev connected : IsConnected server texts gateway_options greeter channel 1 7 7 "resp" "resp"
unfolding client_of
connected = record {
  topic = refl;
  unsharded = refl;
  outgoing = refl;
  gate_open = refl;
  gate_type = refl;
  answers_open = refl;
  answers_type = refl;
}

abbrev Subscribed : Type 0
Subscribed = List (ℕ × Option String)

abbrev is_in : ℕ → Option String → Subscribed → Bool
is_in ws token [] = false
is_in ws token ((other, asked) ∷ more) =
    (nat_eq other ws && same_token asked token) || is_in ws token more

abbrev how_many : Option String → Subscribed → ℕ
how_many token [] = 0
how_many token ((ws, asked) ∷ more) =
    let rest = how_many token more in if same_token asked token then suc rest else rest

-- The subscriptions are all that there is to it.
abbrev sockets : App Subscribed
sockets = record {
  is_subscribed = is_in;
  subscribe = λ ws token a. (ws, token) ∷ a;
  num_subscribers = how_many;
  publish = λ token text a. (true, a);
}

abbrev sockets-IsPubSub : IsPubSub sockets
sockets-IsPubSub = record {
  is_subscribed-subscribe = λ ws other token asked a. refl;
  is_subscribed-publish = λ ws token asked text a. refl;
}

-- Every message is from the one user.
abbrev ada : Value → Option String
ada v = some "ada"

abbrev steps : List Step
steps = message 1 "hello" "m" ∷ message 2 "world" "n" ∷ progress ∷ []

run-in_order_example :
    (let g = run sockets server texts ada channel orders "move" (new_gateway false [] 0) steps in
      (done : List MappedStreamEvent) × (accepted sockets server texts ada channel orders "move"
          steps
        ≡ done ++ (g.queue ++ g.waiting))
      × (g.server ≡ write_each sockets server texts ada channel orders "move" done 0)
      × (g.drained ≡ false → g.waiting ≡ []))
run-in_order_example = run-in_order sockets server texts ada channel orders "move" [] 0 steps

finish-written_in_order_example :
    (let all = accepted sockets server texts ada channel orders "move" steps in
      let g =
        run sockets server texts ada channel orders "move"
          (run sockets server texts ada channel orders "move" (new_gateway false [] 0) steps)
          (finish (length all)) in
      (g.queue ≡ [])
      × (g.waiting ≡ [])
      × (g.stuck ≡ false)
      × (g.server ≡ write_each sockets server texts ada channel orders "move" all 0))
unfolding client_of deserialize_websocket_message
finish-written_in_order_example =
    finish-written_in_order sockets server texts ada channel orders "move" 7 refl
      (λ key fields s. refl) [] 0 steps (refl, (refl, tt))

run-subscribed_example :
    is_in 1
      (some "ada")
      (run sockets server texts ada channel orders "move" (new_gateway false [] 0) steps).app
    ≡ (has_sent sockets server texts ada channel orders "move" steps 1 (some "ada") || false)
run-subscribed_example =
    run-subscribed sockets server texts ada channel orders "move" sockets-IsPubSub
      (new_gateway false [] 0) steps 1 (some "ada")

abbrev listening : SocketGateway Subscribed ℕ
listening = new_gateway false ((1, some "ada") ∷ []) 0

abbrev said : MappedStreamEvent
said = record {
  stream_id = none;
  stream_message_id = none;
  message_id = some "m";
  message_type = some "move";
  message_destination = some "";
  message_protocol = some "json";
  message_source_id = some "ada";
  message_headers = none;
  payload = str "hello";
}

message-echoed_example :
    (let fields = entry_fields "m" "resp" (some (producer_key orders none)) "ada" "hello" in
      let echo = echo_event orders "3-0" "m" "resp" "ada" (str "hello") in
      (has_stream_id (route_source channel orders 5) (consumer_key orders none) ≡ true)
      × (has_stream_id (route_source channel orders 5) (producer_key orders none)
          ≡ has_stream_id channel (producer_key orders none))
      × ((write_chunk server texts channel (WriteTarget.to_topic orders) none (chunk said) 0).1 ≡ 1)
      × (deserialize_message_array texts ("3-0", fields) (consumer_key orders none) ≡ ok echo)
      × (on_data sockets server texts ada channel orders "move" listening echo ≡ record listening {
        app = (sockets.publish (some "ada") (echo_text texts "m" (str "hello")) listening.app).1;
      }))
unfolding client_of deserialize_websocket_message
message-echoed_example =
    message-echoed sockets server texts ada channel orders "move" "resp" 7 listening 5 "hello" "3-0"
      "m" "ada" said 0 refl refl (λ e. ground (arith, eq_iff "m" "", e)) refl refl refl refl refl
      refl

handle_request-answered_example :
    (let a =
        gate_awaiter server texts gateway_options greeter channel 1 7 7 "resp" "resp"
          (new_tracker none) in
      let d = handle_request server texts a route "m" (some (str "hello")) (some "s") 0 in
      let request = request_event orders "1-0" "m" "resp" "s" (str "hello") in
      let answer = answer_event orders "2-0" "m" "resp" "s" (str "HELLO") in
      let asked =
        request_fields server texts gateway_options greeter channel 1 7 7 "resp" "resp" "m" "s"
          (str "hello") in
      let given =
        answer_fields server texts gateway_options greeter channel 1 7 7 "resp" "resp" "m" "s"
          (str "HELLO") in
      let b = on_response d.awaiter answer in
      (d.server ≡ 1)
      × (deserialize_message_array texts ("1-0", asked) (listening_key greeter) ≡ ok request)
      × (transform server texts greeter channel flowing request 1
          ≡ (record { reading = true; writing = true }, 2))
      × (deserialize_message_array texts ("2-0", given) (response_stream a none) ≡ ok answer)
      × (get_elem? b.tracker.settled 0 ≡ some (fulfilled answer))
      × ((resume b "m" (fulfilled answer)).0 ≡ returned (str "HELLO"))
      × (Dict.get (resume b "m" (fulfilled answer)).1.tracker.promises "m" ≡ none))
unfolding Dict.get client_of parsed_payload handle_request dispatch route_awaiter
    streamerson.Awaiter.new_awaiter streamerson.Deferral.promise new_tracker
    streamerson.Source.write_to_stream consumer_key
handle_request-answered_example =
    handle_request-answered server texts gateway_options greeter channel 1 7 7 "resp" "resp"
      connected (new_tracker none) route "m" "s" "1-0" "2-0" (some (str "hello")) (str "hello")
      (str "HELLO") shout 0 0 1 (λ e. ground (arith, eq_iff "m" "", e)) refl refl refl refl refl
      refl refl refl

abbrev nothing_said : MappedStreamEvent
nothing_said = record said { payload = str "" }

run-blocked_example :
    (run sockets server texts ada channel orders "move"
      (record (new_gateway false [] 0) { queue = nothing_said ∷ said ∷ [] })
      (progress ∷ message 1 "hello" "n" ∷ progress ∷ [])).server
    ≡ 0
run-blocked_example =
    run-blocked sockets server texts ada channel orders "move"
      (record (new_gateway false [] 0) { queue = nothing_said ∷ said ∷ [] }) nothing_said
      (said ∷ []) (message 1 "hello" "n" ∷ progress ∷ []) refl refl refl
