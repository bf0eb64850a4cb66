-- ===== src/Tests/Streams.antt =====
-- Messages and streams at concrete inputs.
use streamerson.Prelude.{String, ◌≡◌, refl, eq_iff, arith, none, some, List, ◌∷◌, map, take, ◌*◌}
use streamerson.Prelude.Result.{ok}
use streamerson.Prelude.Value.{str}
use streamerson.Keys.{shard_decorator}
use streamerson.Message.{
  MappedStreamEvent, StreamEventData, entry_fields, deserialize_message_array,
}
use streamerson.Message.Roundtrip.{deserialize-entry_fields}
use streamerson.Remote.{client_of}
use streamerson.Source.{Chunk}
use streamerson.Source.Read.{BatchOptions}
use streamerson.Source.Read.Log.{last_id}
use streamerson.Source.Iterate.{iterate, waiting}
use streamerson.Source.Cursor.{quiet, at, iterate-quiet}
use streamerson.Tests.Fixtures.{texts, log_after, server, server-ServesLog, channel, greeting}

deserialize-entry_fields_example :
    deserialize_message_array texts
      ("1-0", entry_fields "m" "greet" none "s" (texts.stringify (str "hello")))
      "orders"
    ≡ ok greeting
deserialize-entry_fields_example =
    deserialize-entry_fields texts "orders" "1-0" "m" "greet" "s" none (str "hello")
      (λ e. ground (arith, eq_iff "m" "", e)) refl

abbrev by_one : BatchOptions
by_one = record {
  stream = some "orders";
  shard = none;
  last = none;
  requested_batch_size = some 1;
  blocking_timeout = none;
  group = none;
}

abbrev last_field : List String → String
last_field (a ∷ b ∷ c ∷ d ∷ e ∷ f ∷ g ∷ text ∷ more) = text
last_field _ = ""

-- What an entry of the log reads as.
abbrev read_as : StreamEventData → MappedStreamEvent
read_as e = record greeting { stream_message_id = some e.0; payload = str (last_field e.1) }

iterate-quiet_example : iterate texts server channel by_one (at "orders" "0") (quiet 3) 0 ≡ (
  record {
    events = map read_as (take (3 * 1) (log_after "0"));
    status = waiting (at "orders" (last_id "0" (take (3 * 1) (log_after "0"))));
  },
  0,
)
unfolding client_of shard_decorator deserialize_message_array entry_fields
iterate-quiet_example =
    iterate-quiet texts server channel by_one "orders" 7 0 read_as refl refl refl refl
      (server-ServesLog "orders" 0) 3 "0" refl refl ((refl, refl), ((refl, refl), tt))

abbrev chunk : Chunk
chunk = record { message_id = some "m"; payload = str "hello"; message_source_id = none }
