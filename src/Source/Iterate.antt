-- ===== src/Source/Iterate.antt =====
-- The stream iterator: `iterateStream` and `getReadStream` of
-- packages/core/src/datasource/streamable.ts. A run is a list of turns of its loop. In each turn the
-- environment says whether an UPDATE was emitted while the generator was suspended at its last
-- `yield`, and what wins the race: the reply to the read, or an UPDATE. The reply to a read that lost
-- its race is not seen by anyone.
pub mod Ending
use streamerson.Prelude.{
  String, Bool, true, false, ◌||◌, Option, none, some, List, [], ◌∷◌, ◌++◌, truthy, truthy?,
  or_else, if◌then◌else◌, ℕ,
}
use streamerson.Prelude.Result.{Result, ok, err}
use streamerson.Keys.{Topic, consumer_key}
use streamerson.Message.{Json, MappedStreamEvent}
use streamerson.Redis.{Redis}
use streamerson.Source.{StreamingDataSource, KeyEvent, add_stream_id}
use streamerson.Source.Read.{BatchOptions, Batch, Position, one, each, blocking_stream_batch_map}

-- The variables of the generator: the fields of `args` that change, and the two flags.
pub record Iterator : Type 0 where
  pub stream : Option String
  pub last : Position
  pub has_new_streams : Bool
  pub active : Bool

pub data Wake : Type 0 where
  reply key_update : Wake

pub record Turn : Type 0 where
  pub updated : Bool
  pub wake : Wake

pub data Status : Type 0 where
  waiting : Iterator → Status
  finished : Status
  failed : String → Status

unfoldable pub start : BatchOptions → Iterator
start o = record {
  stream = o.stream;
  last = or_else o.last (if truthy? o.stream then one "$" else each []);
  has_new_streams = false;
  active = true;
}

keyed : Option String → Position → Position
keyed stream (one cursor) =
    if truthy? stream then each ((or_else stream "", cursor) ∷ []) else one cursor
keyed stream (each cursors) = each cursors

-- The head of the loop's body: after a change of keys it goes over to multistream mode.
unfoldable pub refresh : BatchOptions → Iterator → Iterator
unfolding keyed
refresh o it =
    if it.has_new_streams
    then record it { stream = none; has_new_streams = false; last = keyed o.stream it.last }
    else it

truthy_position : Position → Bool
truthy_position (one cursor) = truthy cursor
truthy_position (each cursors) = true

-- One turn: what it yields and how it leaves the iterator, or the error that it throws. `abort` emits
-- CANCEL, whose listener ends the loop.
pub data Round : Type 0 where
  yielded : List MappedStreamEvent → Iterator → Round
  threw : String → Round

settle : Iterator → Batch → Round
unfolding truthy_position
settle it b =
    if truthy_position b.cursor
    then yielded b.events (record it { last = b.cursor })
    else yielded [] (record it { active = false })

take_reply : {S : Type 0} → Iterator → Result Batch × S → Round × S
unfolding settle
take_reply it (ok b, s) = (settle it b, s)
take_reply it (err e, s) = (threw e, s)

pub record Trace : Type 0 where
  pub events : List MappedStreamEvent
  pub status : Status

prepend : {S : Type 0} → List MappedStreamEvent → Trace × S → Trace × S
prepend events (t, s) = (record t { events = events ++ t.events }, s)

continue : {S : Type 0} → Round × S → (Iterator → S → Trace × S) → Trace × S
unfolding prepend
continue (yielded events it, s) rest = prepend events (rest it s)
continue (threw e, s) rest = (record { events = []; status = failed e }, s)

module _ (json : Json) {S : Type 0} (redis : Redis S) (d : StreamingDataSource)
    (o : BatchOptions) where
  awaken : Iterator → Wake → S → Round × S
  unfolding take_reply
  awaken it reply s = take_reply it (
      blocking_stream_batch_map json redis d (record o { stream = it.stream; last = some it.last })
        s)
  awaken it key_update s = (yielded [] (record it { has_new_streams = true; active = false }), s)

  unfoldable pub turn : Iterator → Turn → S → Round × S
  unfolding awaken refresh
  turn it t s =
      awaken (refresh o (record it { has_new_streams = it.has_new_streams || t.updated })) t.wake s

  unfoldable pub iterate : Iterator → List Turn → S → Trace × S
  unfolding turn continue
  iterate it [] s = (record { events = []; status = if it.active then waiting it else finished }, s)
  iterate it (t ∷ ts) s = elim it.active [
    | false ↦ (record { events = []; status = finished }, s)
    | true ↦ continue (turn it t s) (λ it' s'. iterate it' ts s')
  ]

-- What `getReadStream` reads from: a topic, or the options of a stream.
pub data ReadTarget : Type 0 where
  of_topic : Topic → Option String → ReadTarget
  of_stream : String → BatchOptions → ReadTarget

-- `iterateStream` finds no `stream` in the options of a topic.
target_options : ReadTarget → BatchOptions
target_options (of_topic t shard) = record {
  stream = none;
  shard = shard;
  last = none;
  requested_batch_size = none;
  blocking_timeout = none;
  group = none;
}
target_options (of_stream stream o) = record o { stream = some stream }

target_key : ReadTarget → String
target_key (of_topic t shard) = consumer_key t shard
target_key (of_stream stream o) = stream

-- The iterator that the `Readable` reads from, and the source with the stream added.
unfoldable pub get_read_stream :
    StreamingDataSource
    → ReadTarget
    → ℕ
    → BatchOptions × Iterator × List KeyEvent × StreamingDataSource
unfolding target_options target_key start
get_read_stream d target now =
    let (events, d') = add_stream_id d (target_key target) now in
    (target_options target, start (target_options target), events, d')
