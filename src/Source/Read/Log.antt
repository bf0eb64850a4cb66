-- ===== src/Source/Read/Log.antt =====
-- A read of one stream, over a server that serves the stream's log as Redis documents it.
use streamerson.Prelude.{
  ℕ, String, ◌≡◌, refl, inl, inr, Bool, true, ltb, Option, none, some, List, [], ◌∷◌, ◌++◌, map,
  append-nil, append_assoc, truthy, take, drop, All, All-take, or_else,
}
use streamerson.Prelude.Result.{ok, err, Result-cases}
use streamerson.Keys.{shard_decorator}
use streamerson.Message.{Json, MappedStreamEvent, StreamEventData, deserialize_message_array}
use streamerson.Remote.{client_of}
use streamerson.Redis.{Redis, Pages}
use streamerson.Source.{StreamingDataSource, with_client}
use streamerson.Source.Read.{
  BatchOptions, one, collect_entries, collect_pages, read_stream, read_as_single, single_batch,
  blocking_stream_batch_map,
}

-- The reply of XREAD for one stream: `null` if it has nothing, else one page.
abbrev pub page : String → List StreamEventData → Option Pages
page key [] = none
page key (e ∷ es) = some ((key, e ∷ es) ∷ [])

-- The ID of the last entry, or the cursor if there is none.
abbrev pub last_id : String → List StreamEventData → String
last_id cursor [] = cursor
last_id cursor (e ∷ es) = last_id e.0 es

-- What Redis documents of XREAD on one stream at one state of the server. `is_id` are the cursors that it
-- takes; the IDs of entries are among them. From such a cursor and with a COUNT of at least 1, it replies
-- with the first entries after the cursor, at most COUNT of them; those after an entry's ID are those that
-- follow it. Nothing is said of other cursors, which it refuses, and of COUNT 0, which sets no limit.
pub record ServesLog {S : Type 0} (redis : Redis S) (key : String) (s : S) : Type 0 where
  pub is_id : String → Bool
  pub after : String → List StreamEventData
  pub xread_lem :
      (timeout n : ℕ) (cursor : String)
      → is_id cursor ≡ true
      → ltb 0 n ≡ true
      → redis.xread timeout (some n) (key ∷ cursor ∷ []) s
        ≡ (ok (page key (take n (after cursor))), s)
  pub after-last_id :
      (n : ℕ) (cursor : String)
      → is_id cursor ≡ true
      → after (last_id cursor (take n (after cursor))) ≡ drop n (after cursor)
  pub is_id-after :
      (cursor : String) → is_id cursor ≡ true → All (λ e. is_id e.0 ≡ true) (after cursor)

-- An entry that can be read, and under an ID that is not empty.
abbrev pub Readable :
    Json → String → (StreamEventData → MappedStreamEvent) → StreamEventData → Type 0
Readable json key event e =
    (deserialize_message_array json e key ≡ ok (event e)) × (truthy e.0 ≡ true)

module _ (json : Json) (key : String) (event : StreamEventData → MappedStreamEvent) where
  collect_entries-Readable :
      (es : List StreamEventData) (cursor : String) (events : List MappedStreamEvent)
      → All (Readable json key event) es
      → collect_entries json key es (cursor, events)
        ≡ ok (last_id cursor es, events ++ map event es)
  unfolding collect_entries
  collect_entries-Readable [] cursor events h = rw append-nil
  collect_entries-Readable (e ∷ es) cursor events h =
      rw h.0.0 (rw (collect_entries-Readable es e.0 (events ++ event e ∷ []) h.1) (rw append_assoc))

  pub last_id-truthy :
      (es : List StreamEventData) (cursor : String)
      → All (Readable json key event) es
      → truthy cursor ≡ true
      → truthy (last_id cursor es) ≡ true
  last_id-truthy [] cursor h t = t
  last_id-truthy (e ∷ es) cursor h t = last_id-truthy es e.0 h.1 h.0.1

pub last_id-kept :
    (P : String → Type 0) (es : List StreamEventData) (cursor : String)
    → All (λ e. P e.0) es
    → P cursor
    → P (last_id cursor es)
last_id-kept P [] cursor h p = p
last_id-kept P (e ∷ es) cursor h p = last_id-kept P es e.0 h.1 h.0

-- One entry that cannot be read makes the whole read throw, whatever stands before it.
pub collect_entries-unreadable :
    (json : Json) (title : String) (good : List StreamEventData) (bad : StreamEventData)
    (more : List StreamEventData) (acc : String × List MappedStreamEvent) (e : String)
    → deserialize_message_array json bad title ≡ err e
    → (m : String) × (collect_entries json title (good ++ bad ∷ more) acc ≡ err m)
unfolding collect_entries
collect_entries-unreadable json title [] bad more acc e h = (e, rw h)
collect_entries-unreadable json title (g ∷ good) bad more acc e h =
    elim (Result-cases (deserialize_message_array json g title)) [
      | inl (event, read) ↦
          rw read
            (collect_entries-unreadable json title good bad more (g.0, acc.1 ++ event ∷ []) e h)
      | inr (m, refused) ↦ (m, rw refused)
    ]

pub last_id-append :
    (cursor : String) (es fs : List StreamEventData)
    → last_id cursor (es ++ fs) ≡ last_id (last_id cursor es) fs
last_id-append cursor [] fs = refl
last_id-append cursor (e ∷ es) fs = last_id-append e.0 es fs

module _ (json : Json) {S : Type 0} (redis : Redis S) (d : StreamingDataSource) (o : BatchOptions)
    (stream : String) (connection : ℕ) (s : S) (event : StreamEventData → MappedStreamEvent)
    (connected : client_of d.remote ≡ ok connection) (alone : o.group ≡ none)
    (named : truthy stream ≡ true) (limited : ltb 0 (or_else o.requested_batch_size 10) ≡ true)
    (log : ServesLog redis (shard_decorator stream o.shard) s) where
  abbrev batch_size : ℕ
  batch_size = or_else o.requested_batch_size 10

  abbrev key : String
  key = shard_decorator stream o.shard

  abbrev next : String → List StreamEventData
  next cursor = take batch_size (log.after cursor)

  collect_pages-page :
      (es : List StreamEventData) (cursor : String)
      → All (Readable json key event) es
      → collect_pages json (or_else (page key es) []) (cursor, [])
        ≡ ok (last_id cursor es, map event es)
  unfolding collect_pages
  collect_pages-page [] cursor h = refl
  collect_pages-page (e ∷ es) cursor h =
      rw (collect_entries-Readable json key event (e ∷ es) cursor [] h)

  read_stream-page :
      (cursor : String) (p : BatchOptions)
      → p.group ≡ none
      → p.requested_batch_size ≡ o.requested_batch_size
      → log.is_id cursor ≡ true
      → read_stream json redis d key cursor p s ≡ (ok (page key (next cursor)), s)
  unfolding read_stream with_client read_as_single
  read_stream-page cursor p g b i =
      rw (g, read_stream)
        (rw (connected, with_client, read_as_single) (rw b (log.xread_lem _ _ _ i limited)))

  -- Over a connected client, one stream and no group, with a COUNT of at least 1, and from a cursor that
  -- Redis takes and after which every entry can be read, a batch gives the events of the next COUNT entries after the cursor, or of all if there are
  -- fewer, and the ID of the last of them as the new cursor.
  pub batch-next :
      (cursor : String)
      → truthy cursor ≡ true
      → log.is_id cursor ≡ true
      → All (Readable json key event) (log.after cursor)
      → blocking_stream_batch_map json redis d
          (record o { stream = some stream; last = some (one cursor) })
          s
        ≡ (
          ok (record {
            cursor = one (last_id cursor (next cursor));
            events = map event (next cursor);
          }),
          s,
        )
  unfolding blocking_stream_batch_map single_batch read_as_single with_client
  batch-next cursor t i h =
      rw
        (
          named,
          t,
          read_stream-page cursor (record o { stream = some stream; last = some (one cursor) })
              alone refl i,
        )
        (rw (
          collect_pages-page (next cursor) cursor
            (All-take (Readable json key event) batch_size (log.after cursor) h)))
