-- ===== src/Source/Read.antt =====
-- Reading a batch: `readAsSingle`, `readAsGroup` and `blockingStreamBatchMap` of
-- packages/core/src/datasource/streamable.ts.
pub mod Log
use streamerson.Prelude.{
  ℕ, String, Bool, true, false, Option, none, some, List, [], ◌∷◌, ◌++◌, map, truthy, truthy?,
  or_else, if◌then◌else◌,
}
use streamerson.Prelude.Result.{Result, ok, err, rethrow, map_ok, ◌>>=◌}
use streamerson.Prelude.Text.{template, shown}
use streamerson.Prelude.Dict
use streamerson.Prelude.Dict.{Dict}
use streamerson.Keys.{shard_decorator}
use streamerson.Message.{Json, MappedStreamEvent, StreamEventData, deserialize_message_array}
use streamerson.Redis.{Redis, Pages}
use streamerson.Source.{
  StreamingDataSource, with_client, rethrow_with, default_blocking_timeout, default_max_batch_size,
}

pub record ConsumerGroupInstanceConfig : Type 0 where
  pub group_id : String
  pub group_member_id : String

-- The type `string | Record<string, string>` of `last` and of the cursor.
pub data Position : Type 0 where
  one : String → Position
  each : Dict String → Position

pub record BatchOptions : Type 0 where
  pub stream : Option String
  pub shard : Option String
  pub last : Option Position
  pub requested_batch_size : Option ℕ
  pub blocking_timeout : Option ℕ
  pub group : Option ConsumerGroupInstanceConfig

pub record Batch : Type 0 where
  pub cursor : Position
  pub events : List MappedStreamEvent

as_batch : String × List MappedStreamEvent → Batch
as_batch (cursor, events) = record { cursor = one cursor; events = events }

as_batch_each : Dict String × List MappedStreamEvent → Batch
as_batch_each (cursors, events) = record { cursor = each cursors; events = events }

module _ (json : Json) where
  -- The inner loop over the entries of one stream.
  unfoldable pub collect_entries :
      String
      → List StreamEventData
      → String × List MappedStreamEvent
      → Result (String × List MappedStreamEvent)
  collect_entries title [] acc = ok acc
  collect_entries title (raw ∷ entries) (cursor, events) = do
    event ← deserialize_message_array json raw title
    collect_entries title entries (raw.0, events ++ event ∷ [])

  -- The outer loop over the pages of a read.
  unfoldable pub collect_pages :
      Pages → String × List MappedStreamEvent → Result (String × List MappedStreamEvent)
  unfolding collect_entries
  collect_pages [] acc = ok acc
  collect_pages ((title, entries) ∷ pages) acc = do
    acc' ← collect_entries title entries acc
    collect_pages pages acc'

  -- The same loops in multistream mode, where each stream has its own cursor.
  unfoldable pub collect_entries_each :
      String
      → List StreamEventData
      → Dict String × List MappedStreamEvent
      → Result (Dict String × List MappedStreamEvent)
  collect_entries_each title [] acc = ok acc
  collect_entries_each title (raw ∷ entries) (cursors, events) = do
    event ← deserialize_message_array json raw title
    collect_entries_each title entries (Dict.put cursors title raw.0, events ++ event ∷ [])

  unfoldable pub collect_pages_each :
      Pages → Dict String × List MappedStreamEvent → Result (Dict String × List MappedStreamEvent)
  unfolding collect_entries_each
  collect_pages_each [] acc = ok acc
  collect_pages_each ((title, entries) ∷ pages) acc = do
    acc' ← collect_entries_each title entries acc
    collect_pages_each pages acc'

  module _ {S : Type 0} (redis : Redis S) where
    unfoldable pub read_as_single :
        StreamingDataSource → String → String → ℕ → ℕ → S → Result (Option Pages) × S
    read_as_single d stream cursor timeout batch_size =
        with_client d (redis.xread timeout (some batch_size) (stream ∷ cursor ∷ []))

    unfoldable pub read_as_group :
        StreamingDataSource → String → String → String → String → ℕ → S → Result (Option Pages) × S
    read_as_group d stream cursor group member timeout =
        with_client d (redis.xreadgroup group member timeout stream cursor)

    read_stream :
        StreamingDataSource → String → String → BatchOptions → S → Result (Option Pages) × S
    unfolding read_as_single read_as_group
    read_stream d stream cursor o s = elim o.group [
      | some g ↦
          read_as_group d stream (if truthy cursor then ">" else "") g.group_id g.group_member_id
            (or_else o.blocking_timeout default_blocking_timeout) s
      | none ↦
          read_as_single d stream cursor (or_else o.blocking_timeout default_blocking_timeout)
            (or_else o.requested_batch_size default_max_batch_size) s
    ]

    gather : String → Result (Option Pages) × S → Result Batch × S
    unfolding collect_pages as_batch
    gather cursor (reply, s) =
        (reply >>= λ pages. map_ok as_batch (collect_pages (or_else pages []) (cursor, [])), s)

    -- Single-stream mode; an empty cursor is falsy, and read as "$".
    unfoldable pub single_batch :
        StreamingDataSource → String → String → BatchOptions → S → Result Batch × S
    unfolding read_stream gather
    single_batch d stream last o s =
        let cursor = if truthy last then last else "$" in
        gather cursor (read_stream d (shard_decorator stream o.shard) cursor o s)

    gather_each : Dict String → Result (Option Pages) × S → Result Batch × S
    unfolding collect_pages_each as_batch_each
    gather_each cursors (reply, s) = (
      reply >>= λ pages. map_ok as_batch_each (collect_pages_each (or_else pages []) (cursors, [])),
      s,
    )

    read_each :
        StreamingDataSource → List String → Dict String → BatchOptions → S → Result Batch × S
    unfolding gather_each
    read_each d streams cursors o s = gather_each cursors (
        with_client d
          (redis.xread (or_else o.blocking_timeout default_blocking_timeout) none
            (streams ++ map (λ k. or_else (Dict.get cursors k) "$") streams))
          s)

    -- Multistream mode.
    unfoldable pub multi_batch :
        StreamingDataSource → Dict String → BatchOptions → S → Result Batch × S
    unfolding read_each
    multi_batch d cursors o s = elim d.stream_id_map [
      | [] ↦ (err "blockingStreamBatchMap: No streams to read from list of stream IDs", s)
      | _ ↦ read_each d (Dict.keys d.stream_id_map) cursors o s
    ]

    choose_batch :
        StreamingDataSource → Bool → Option Position → BatchOptions → S → Result Batch × S
    unfolding single_batch multi_batch
    choose_batch d true (some (one last)) o s = single_batch d (or_else o.stream "") last o s
    choose_batch d false (some (each cursors)) o s = multi_batch d cursors o s
    choose_batch d named last o s = (err "Unrecognized control flow for blockingStreamBatchMap", s)

    -- `blockingStreamBatchMap`
    unfoldable pub blocking_stream_batch_map :
        StreamingDataSource → BatchOptions → S → Result Batch × S
    unfolding choose_batch
    blocking_stream_batch_map d o s = rethrow_with (choose_batch d (truthy? o.stream) o.last o s) (
        template (
          "Failed attempt to WOT call XREAD [key="
          ∷ shown o.stream
          ∷ ",shard="
          ∷ shown o.shard
          ∷ "]"
          ∷ []))
