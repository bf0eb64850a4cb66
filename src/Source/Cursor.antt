-- ===== src/Source/Cursor.antt =====
-- The iterator follows the log of a stream: the entries after its cursor, in order, each once.
use streamerson.Prelude.{
  ℕ, zero, suc, ◌*◌, String, ◌≡◌, true, false, none, some, List, [], ◌∷◌, map, map-append, arith,
  truthy, ltb, take, take-add, All, All-take, All-drop, or_else,
}
use streamerson.Prelude.Result.{ok}
use streamerson.Keys.{shard_decorator}
use streamerson.Message.{Json, MappedStreamEvent, StreamEventData}
use streamerson.Remote.{client_of}
use streamerson.Redis.{Redis}
use streamerson.Source.{StreamingDataSource}
use streamerson.Source.Read.{BatchOptions, one}
use streamerson.Source.Read.Log.{
  ServesLog, Readable, last_id, last_id-append, last_id-truthy, last_id-kept, batch-next,
}
use streamerson.Source.Iterate.{Iterator, Turn, reply, waiting, iterate, turn}

-- `k` turns in which the reply wins, with no change of keys in between.
abbrev pub quiet : ℕ → List Turn
quiet zero = []
quiet (suc k) = record { updated = false; wake = reply } ∷ quiet k

abbrev pub at : String → String → Iterator
at stream cursor = record {
  stream = some stream;
  last = one cursor;
  has_new_streams = false;
  active = true;
}

module _ (json : Json) {S : Type 0} (redis : Redis S) (d : StreamingDataSource) (o : BatchOptions)
    (stream : String) (connection : ℕ) (s : S) (event : StreamEventData → MappedStreamEvent)
    (connected : client_of d.remote ≡ ok connection) (alone : o.group ≡ none)
    (named : truthy stream ≡ true) (limited : ltb 0 (or_else o.requested_batch_size 10) ≡ true)
    (log : ServesLog redis (shard_decorator stream o.shard) s) where
  -- Over a connected client, one stream and no group, with a COUNT of at least 1, and from a cursor that
  -- Redis takes and after which every entry can be read,
  -- `k` undisturbed turns yield exactly the first k * COUNT entries after the cursor, in order, each
  -- once, and leave the iterator waiting at the last of them.
  pub iterate-quiet :
      (k : ℕ) (cursor : String)
      → truthy cursor ≡ true
      → log.is_id cursor ≡ true
      → All (Readable json (shard_decorator stream o.shard) event) (log.after cursor)
      → iterate json redis d o (at stream cursor) (quiet k) s ≡ (
        record {
          events = map event (take (k * or_else o.requested_batch_size 10) (log.after cursor));
          status = waiting (
              at stream
                (last_id cursor (take (k * or_else o.requested_batch_size 10) (log.after cursor))));
        },
        s,
      )
  unfolding iterate turn
  iterate-quiet zero cursor t i h =
      let nothing : 0 * or_else o.requested_batch_size 10 ≡ 0 = omega arith in rw nothing
  iterate-quiet (suc k) cursor t i h =
      rw
        (batch-next json redis d o stream connection s event connected alone named limited log
          cursor t i h)
        (rw (last_id-truthy json _ event _ cursor (All-take _ size (log.after cursor) h) t) (
          rw
            (iterate-quiet k next
              (last_id-truthy json _ event _ cursor (All-take _ size (log.after cursor) h) t)
              (last_id-kept (λ c. log.is_id c ≡ true) _ cursor
                (All-take _ size (log.after cursor) (log.is_id-after cursor i)) i)
              (rw (log.after-last_id size cursor i) (All-drop _ size (log.after cursor) h)))
            (rw (log.after-last_id size cursor i) (
              rw (take-add size (k * size) (suc k * size) (log.after cursor) (grind arith))
                (rw (map-append, last_id-append))))))
    where
      size : ℕ
      size = or_else o.requested_batch_size 10

      next : String
      next = last_id cursor (take size (log.after cursor))
