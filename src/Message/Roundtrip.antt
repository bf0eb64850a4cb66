-- ===== src/Message/Roundtrip.antt =====
-- What is written to a stream is read back.
use streamerson.Prelude.{
  String, ◌≡◌, ◌≢◌, true, Option, none, some, arith, eq_iff, truthy?, or_else,
}
use streamerson.Prelude.Result.{ok}
use streamerson.Prelude.Value.{Value}
use streamerson.Message.{
  Json, MappedStreamEvent, StreamEventData, entry_fields, deserialize_message_array,
}

-- An entry that was written with a message ID and a plain payload is read back as the event with the
-- written ID, type, destination, source and payload, with no headers, under its stream and entry ID.
pub deserialize-entry_fields :
    (json : Json) (title entry_id message_id message_type source_id : String)
    (incoming : Option String) (payload : Value)
    → message_id ≢ ""
    → json.plain payload ≡ true
    → deserialize_message_array json
        (entry_id, entry_fields message_id message_type incoming source_id (json.stringify payload))
        title
      ≡ ok (record {
        stream_id = some title;
        stream_message_id = some entry_id;
        message_id = some message_id;
        message_type = some message_type;
        message_destination = some (or_else incoming "");
        message_protocol = some "json";
        message_source_id = some source_id;
        message_headers = none;
        payload = payload;
      })
unfolding deserialize_message_array entry_fields
deserialize-entry_fields json title entry_id message_id message_type source_id incoming payload h
      p =
    ground (arith, json.parse-stringify payload p, eq_iff message_id "")

-- An event that was read has a message ID, and names its stream and its entry.
pub deserialize-identified :
    (json : Json) (entry : StreamEventData) (title : String) (event : MappedStreamEvent)
    → deserialize_message_array json entry title ≡ ok event
    → (truthy? event.message_id ≡ true)
      × (event.stream_id ≡ some title)
      × (event.stream_message_id ≡ some entry.0)
unfolding deserialize_message_array
deserialize-identified json (entry_id, properties) title event h = ground arith
