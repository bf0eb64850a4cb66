-- ===== src/Tests/Fixtures.antt =====
-- What the examples share: a codec of texts, a server with one log, an open connection, a topic.
use streamerson.Prelude.{
  ℕ, zero, suc, String, ◌≡◌, refl, ◌==◌, ◌||◌, ltb, arith, All, Bool, true, false, Option, none,
  some, List, [], ◌∷◌, take, drop, if◌then◌else◌, Bool-cases, inl, inr,
}
use streamerson.Prelude.Result.{Result, ok, err}
use streamerson.Prelude.Integer.{pos}
use streamerson.Prelude.Value.{Value, str, end}
use streamerson.Keys.{Topic, name, ordered}
use streamerson.Message.{Json, MappedStreamEvent, StreamEventData, entry_fields}
use streamerson.Redis.{Redis, Pages}
use streamerson.Remote.{DataSourceOptions, RedisDataSource}
use streamerson.Source.{StreamingDataSource}
use streamerson.Source.Read.Log.{ServesLog, page, last_id}

abbrev text_of : Value → String
text_of (str s) = s
text_of _ = ""

abbrev is_text : Value → Bool
is_text (str s) = true
is_text _ = false

abbrev parse_text : String → Result Value
parse_text s = ok (str s)

pub text_round_trip : (v : Value) → is_text v ≡ true → parse_text (text_of v) ≡ ok v
text_round_trip (str s) h = refl
text_round_trip v h = cc

-- Only texts, and each for itself.
abbrev pub texts : Json
texts = record {
  parse = parse_text;
  stringify = text_of;
  plain = is_text;
  parse-stringify = text_round_trip;
}

abbrev entry : String → String → StreamEventData
entry id message = (id, entry_fields "m" "greet" none "s" message)

-- A log of two entries.
abbrev pub log_after : String → List StreamEventData
log_after cursor =
    if cursor == "0"
    then entry "1-0" "hello" ∷ entry "2-0" "world" ∷ []
    else if cursor == "1-0"
    then entry "2-0" "world" ∷ []
    else []

abbrev pub is_entry_id : String → Bool
is_entry_id cursor = cursor == "0" || (cursor == "1-0" || cursor == "2-0")

abbrev pub read_log : Option ℕ → List String → ℕ → Result (Option Pages) × ℕ
read_log (some zero) (key ∷ cursor ∷ []) s = (ok (page key (log_after cursor)), s)
read_log (some (suc n)) (key ∷ cursor ∷ []) s =
    if is_entry_id cursor
    then (ok (page key (take (suc n) (log_after cursor))), s)
    else (err "ERR Invalid stream ID specified as stream command argument", s)
read_log _ _ s = (err "ERR", s)

-- A server that counts the commands that write, and whose every stream has that log.
abbrev pub server : Redis ℕ
server = record {
  xadd = λ key fields s. (ok "3-0", suc s);
  xread = λ timeout n keys s. read_log n keys s;
  xreadgroup = λ group member timeout key cursor s. (ok none, s);
  xack = λ key group id s. (ok 1, suc s);
  xgroup_create = λ key group cursor s. (err "BUSYGROUP", s);
  xgroup_createconsumer = λ key group member s. (ok "OK", suc s);
  get = λ key s. (ok none, s);
  set = λ key value s. (ok "OK", suc s);
  incr = λ key s. (ok (pos (suc s)), suc s);
  decr = λ key s. (ok (pos s), suc s);
  hgetall = λ key s. (ok end, s);
  hset = λ key fields s. (ok 1, suc s);
}

after_first :
    (n : ℕ) (cursor : String)
    → (cursor == "0") ≡ true
    → log_after (last_id cursor (take n (log_after "0"))) ≡ drop n (log_after "0")
after_first zero cursor h = rw h
after_first (suc zero) cursor h = refl
after_first (suc (suc zero)) cursor h = refl
after_first (suc (suc (suc n))) cursor h = refl

after_second :
    (n : ℕ) (cursor : String)
    → (cursor == "0") ≡ false
    → (cursor == "1-0") ≡ true
    → log_after (last_id cursor (take n (log_after "1-0"))) ≡ drop n (log_after "1-0")
after_second zero cursor h k = rw h (rw k)
after_second (suc zero) cursor h k = refl
after_second (suc (suc n)) cursor h k = refl

after_none :
    (n : ℕ) (cursor : String)
    → (cursor == "0") ≡ false
    → (cursor == "1-0") ≡ false
    → log_after (last_id cursor (take n [])) ≡ drop n []
after_none zero cursor h k = rw h (rw k)
after_none (suc n) cursor h k = rw h (rw k)

pub after-last_id_lem :
    (n : ℕ) (cursor : String)
    → log_after (last_id cursor (take n (log_after cursor))) ≡ drop n (log_after cursor)
after-last_id_lem n cursor = elim (Bool-cases (cursor == "0")) [
  | inl first ↦ rw first (after_first n cursor first)
  | inr later ↦ elim (Bool-cases (cursor == "1-0")) [
    | inl second ↦ rw later (rw second (after_second n cursor later second))
    | inr other ↦ rw later (rw other (after_none n cursor later other))
  ]
]

pub read_log-page :
    (s : ℕ) (key : String) (timeout n : ℕ) (cursor : String)
    → is_entry_id cursor ≡ true
    → ltb 0 n ≡ true
    → read_log (some n) (key ∷ cursor ∷ []) s ≡ (ok (page key (take n (log_after cursor))), s)
read_log-page s key timeout zero cursor h k = ground (arith, k)
read_log-page s key timeout (suc n) cursor h k = rw h refl

pub is_entry_id-after :
    (cursor : String)
    → is_entry_id cursor ≡ true
    → All (λ (e : StreamEventData). is_entry_id e.0 ≡ true) (log_after cursor)
is_entry_id-after cursor h = elim (Bool-cases (cursor == "0")) [
  | inl first ↦ rw first (refl, (refl, tt))
  | inr later ↦ elim (Bool-cases (cursor == "1-0")) [
    | inl second ↦ rw later (rw second (refl, tt))
    | inr other ↦ rw later (rw other tt)
  ]
]

abbrev pub server-ServesLog : (key : String) (s : ℕ) → ServesLog server key s
server-ServesLog key s = record {
  is_id = is_entry_id;
  after = log_after;
  xread_lem = read_log-page s key;
  after-last_id = λ n cursor i. after-last_id_lem n cursor;
  is_id-after = is_entry_id-after;
}

abbrev pub source_options : DataSourceOptions
source_options = record { get_connection = none; port = none; host = none; controllable = true }

abbrev pub connection : RedisDataSource
connection = record {
  options = record source_options { controllable = false };
  client = some 7;
  control = none;
  client_id = none;
}

abbrev pub channel : StreamingDataSource
channel = record { remote = connection; stream_id_map = []; response_type = some "resp" }

abbrev pub orders : Topic
orders = record { given = name "orders"; topic = "DEFAULT"; mode = ordered; namespace = "orders" }

abbrev pub greeting : MappedStreamEvent
greeting = record {
  stream_id = some "orders";
  stream_message_id = some "1-0";
  message_id = some "m";
  message_type = some "greet";
  message_destination = some "";
  message_protocol = some "json";
  message_source_id = some "s";
  message_headers = none;
  payload = str "hello";
}
