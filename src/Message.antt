-- ===== src/Message.antt =====
-- Stream messages: packages/core/src/types.ts, and the serialisation of messages to and from the
-- fields of a Redis stream entry in packages/core/src/datasource/streamable.ts.
-- JSON is an interface: a codec of texts and values, with its round trip on plain values.
pub mod Roundtrip
use streamerson.Prelude.{
  ℕ, String, ◌≡◌, Bool, true, false, ◌&&◌, not, Option, none, some, List, [], ◌∷◌, get_elem?, ◌==◌,
  truthy, truthy?, if◌then◌else◌, or_else,
}
use streamerson.Prelude.Result.{Result, ok, err, ◌>>=◌, ◌>>◌, guard, map_ok}
use streamerson.Prelude.Value.{Value, Fields, obj, str, undefined, end}

pub data MessageType : Type 0 where
  transfer response login join socket broadcast : MessageType

abbrev pub message_type_text : MessageType → String
message_type_text transfer = "xfer"
message_type_text response = "resp"
message_type_text login = "login"
message_type_text join = "join"
message_type_text socket = "sock"
message_type_text broadcast = "xcast"

-- `enum MessageHeaderIndex`
pub data MessageHeaderIndex : Type 0 where
  id type destination headers content_type source_id unused payload : MessageHeaderIndex

abbrev pub header_position : MessageHeaderIndex → ℕ
header_position id = 0
header_position type = 1
header_position destination = 2
header_position headers = 3
header_position content_type = 4
header_position source_id = 5
header_position unused = 6
header_position payload = 7

-- `MappedStreamEvent`. A field that the code reads out of an entry may be undefined.
pub record MappedStreamEvent : Type 0 where
  pub stream_id : Option String
  pub stream_message_id : Option String
  pub message_id : Option String
  pub message_type : Option String
  pub message_destination : Option String
  pub message_protocol : Option String
  pub message_source_id : Option String
  pub message_headers : Option Value
  pub payload : Value

-- `JSON.parse` and `JSON.stringify`. Plain values are those that survive the round trip.
pub record Json : Type 0 where
  pub parse : String → Result Value
  pub stringify : Value → String
  pub plain : Value → Bool
  pub parse-stringify : (v : Value) → plain v ≡ true → parse (stringify v) ≡ ok v

-- The fields that `writeToStream` hands to `XADD`, in their order.
unfoldable pub entry_fields : String → String → Option String → String → String → List String
entry_fields message_id message_type incoming source message =
    message_id
    ∷ message_type
    ∷ or_else incoming ""
    ∷ "nil"
    ∷ "json"
    ∷ source
    ∷ "UnoccupiedField"
    ∷ message
    ∷ []

-- `StreamEventData`: an entry's ID, and the fields of the message.
abbrev pub StreamEventData : Type 0
StreamEventData = String × List String

abbrev property : List String → MessageHeaderIndex → Option String
property properties h = get_elem? properties (header_position h)

has_headers : Option String → Bool
has_headers none = false
has_headers (some text) = truthy text && not (text == "nil")

raw_text : Option String → Value
raw_text none = undefined
raw_text (some text) = str text

is_json : Option String → Bool
is_json none = false
is_json (some label) = label == "json"

module _ (json : Json) where
  open json use {parse}

  -- `JSON.parse(undefined)` throws.
  parse_field : Option String → Result Value
  parse_field none = err "SyntaxError"
  parse_field (some text) = parse text

  parse_headers : Option String → Result (Option Value)
  unfolding parse_field has_headers
  parse_headers field = if has_headers field then map_ok some (parse_field field) else ok none

  parse_payload : Option String → Option String → Result Value
  unfolding parse_field raw_text is_json
  parse_payload label field = if is_json label then parse_field field else ok (raw_text field)

  -- `deserializeMessageArray`
  unfoldable pub deserialize_message_array : StreamEventData → String → Result MappedStreamEvent
  unfolding parse_headers parse_payload
  deserialize_message_array (entry_id, properties) stream_title = do
    found_headers ← parse_headers (property properties headers)
    found_payload ← parse_payload (property properties content_type) (property properties payload)
    guard (truthy? (property properties id)) "No Message ID in Message"
    ok (record {
      stream_id = some stream_title;
      stream_message_id = some entry_id;
      message_id = property properties id;
      message_type = property properties type;
      message_destination = property properties destination;
      message_protocol = property properties content_type;
      message_source_id = property properties source_id;
      message_headers = found_headers;
      payload = found_payload;
    })
