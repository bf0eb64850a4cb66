-- ===== src/Tests/Consumers.antt =====
-- Consumers and consumer groups at concrete inputs.
use streamerson.Prelude.{◌≡◌, refl, ◌==◌, eq_iff, arith, true, none, some, [], ◌∷◌, if◌then◌else◌}
use streamerson.Prelude.Result.{ok, is_ok}
use streamerson.Prelude.Text.{shown}
use streamerson.Prelude.Dict
use streamerson.Prelude.Value.{str}
use streamerson.Keys.{shard_decorator, consumer_key, producer_key}
use streamerson.Message.{MappedStreamEvent, entry_fields, deserialize_message_array}
use streamerson.Remote.{client_of}
use streamerson.Source.Read.{ConsumerGroupInstanceConfig}
use streamerson.Consumer.{
  Handler, StreamConsumer, StreamConsumerOptions, replied, unhandled, process, parsed_payload,
  produce_message, register_stream_event, deregister_stream_event, no_handler,
}
use streamerson.Consumer.Pipe.{flowing, transform, pump}
use streamerson.Consumer.Replies.{process-register, pump-unhandled, transform-replied}
use streamerson.Consumer.Producing.{produce_message-read_back}
use streamerson.Group.{ConsumerGroupTopic, ConsumerGroupMember, process_member}
use streamerson.Group.Config.{ConsumerGroupOptions, ConsumerGroupConfig}
use streamerson.Group.Members.{process_member-acknowledges}
use streamerson.Tests.Fixtures.{texts, server, channel, orders, greeting}

abbrev shout : Handler
shout event = ok (str "HELLO")

abbrev options : StreamConsumerOptions
options = record {
  topic = orders;
  shard = some "a";
  bidirectional = none;
  group = none;
  event_map = [];
}

abbrev greeter : StreamConsumer
greeter = record {
  options = options;
  bidirectional = true;
  incoming_channel = channel;
  outgoing_channel = some 1;
  outgoing_stream = some 1;
  stream_events = ("greet", shout) ∷ [];
}

abbrev unknown : MappedStreamEvent
unknown = record greeting { message_type = some "leave" }

process-register_example :
    (process texts (register_stream_event greeter "leave" shout) greeting ≡ (
      if "leave" == "greet"
      then ok (replied (record greeting { payload = str "HELLO" }))
      else process texts greeter greeting))
    × (process texts (deregister_stream_event greeter "leave") greeting ≡ (
        if "leave" == "greet"
        then ok (unhandled (no_handler greeter greeting))
        else process texts greeter greeting))
unfolding parsed_payload
process-register_example =
    process-register texts greeter "leave" shout greeting (str "hello") (str "HELLO") refl refl

pump-unhandled_example :
    (pump server texts greeter channel flowing (unknown ∷ greeting ∷ []) 0).1 ≡ 0
unfolding Dict.get
pump-unhandled_example =
    pump-unhandled server texts greeter channel unknown (greeting ∷ []) 1 0 refl refl

transform-replied_example :
    transform server texts greeter channel flowing greeting 0
    ≡ (record { reading = true; writing = true }, 1)
unfolding Dict.get parsed_payload client_of
transform-replied_example =
    transform-replied server texts greeter channel greeting shout (str "hello") (str "HELLO") 1 7
      "resp" 0 refl refl refl refl refl refl refl

produce_message-read_back_example :
    (let fields =
        entry_fields "greet" "resp" none
          (consumer_key orders none)
          (texts.stringify (str "hello")) in
      ((produce_message server texts greeter (some channel) "m" "greet" (str "hello") "s" none 0).1
        ≡ (server.xadd (shard_decorator (producer_key orders none) none) fields 0).1)
      × (deserialize_message_array texts ("3-0", fields) "orders"
          ≡ ok (record {
            stream_id = some "orders";
            stream_message_id = some "3-0";
            message_id = some "greet";
            message_type = some "resp";
            message_destination = some "";
            message_protocol = some "json";
            message_source_id = some (consumer_key orders none);
            message_headers = none;
            payload = str "hello";
          })))
unfolding client_of
produce_message-read_back_example =
    produce_message-read_back server texts greeter channel "m" "greet" "s" "resp" "orders" "3-0"
      (str "hello") none 7 0 refl refl (λ e. ground (arith, eq_iff "greet" "", e)) refl

abbrev group_options : ConsumerGroupOptions
group_options = record {
  name = "workers";
  min = none;
  max = some 2;
  processing_timeout = none;
  idle_timeout = none;
}

abbrev group_config : ConsumerGroupConfig
group_config = record {
  name = "workers";
  min = 1;
  max = 2;
  processing_timeout = 0;
  idle_timeout = 0;
}

abbrev workers : ConsumerGroupTopic
workers = record { topic = orders; config = group_config; channel = channel; connected = true }

abbrev instance_of : ConsumerGroupInstanceConfig
instance_of = record { group_id = "workers"; group_member_id = "w1" }

abbrev worker : ConsumerGroupMember
worker = record {
  consumer = record greeter { options = record options { group = some instance_of } };
  instance_config = instance_of;
  channel = channel;
}

process_member-acknowledges_example : process_member server texts worker greeting 0 ≡ (
  process texts worker.consumer greeting,
  (if is_ok (process texts worker.consumer greeting)
      then (server.xack
          (consumer_key orders (some "a"))
          "workers"
          (shown greeting.stream_message_id)
          0).1
      else 0),
)
unfolding client_of
process_member-acknowledges_example =
    process_member-acknowledges server texts worker instance_of 7 greeting 0 refl refl refl
