-- ===== src/Benchmarks/Readers.antt =====
-- The readers of the benchmarks: packages/benchmarking/src/utils/readers.ts. Their loops run on fuel. The
-- reader by a stream is left out: it is the race of a stream and a timer.
pub mod Ending
use streamerson.Prelude.{
  ℕ, zero, suc, ◌+◌, ◌≤◌, String, ◌≡◌, ◌∙◌, ap, refl, Bool, true, false, ◌&&◌, ◌||◌, Option, none,
  some, List, [], ◌∷◌, length, or_else, truthy, ltb, leb, nat_eq, arith, if◌then◌else◌, Bool-cases,
  Option-cases, inl, inr,
}
use streamerson.Prelude.Result.{Result, ok, err, Result-cases}
use streamerson.Prelude.Decimal.{show_nat}
use streamerson.Prelude.Text.{template}
use streamerson.Message.{Json, StreamEventData}
use streamerson.Redis.{Redis, Pages}
use streamerson.Source.{StreamingDataSource}
use streamerson.Source.Read.{Position, one, each, blocking_stream_batch_map}

pub record ReaderOptions : Type 0 where
  pub stop_at : ℕ
  pub start_at : ℕ
  pub fail_if_fewer : Bool
  pub fail_if_more : Bool
  pub batch_size : Option ℕ

-- The check at the end of a reader.
unfoldable pub unexpected : ReaderOptions → ℕ → Bool
unexpected o count =
    (o.fail_if_fewer && ltb count o.stop_at) || (o.fail_if_more && ltb o.stop_at count)

abbrev expected_message : ReaderOptions → ℕ → String
expected_message o count =
    template ("Expected " ∷ show_nat o.stop_at ∷ " messages, but only read " ∷ show_nat count ∷ [])

-- A thrown message takes the place of what the reader would have returned or thrown.
unfoldable pub finally {ℓ} : {A : Type ℓ} → ReaderOptions → ℕ → Result A → Result A
unfolding unexpected
finally o count r = if unexpected o count then err (expected_message o count) else r

last_entry : List StreamEventData → Option String
last_entry [] = none
last_entry ((id, fields) ∷ []) = some id
last_entry (e ∷ f ∷ es) = last_entry (f ∷ es)

-- The loop over the pages: what was counted, and the cursor, if no page is empty.
unfoldable pub walk_pages : Pages → ℕ → String → ℕ × Result String
unfolding last_entry
walk_pages [] count cursor = (count, ok cursor)
walk_pages ((name, entries) ∷ pages) count cursor = elim (last_entry entries) [
  | none ↦ (count, err "Cannot read properties of undefined (reading '0')")
  | some id ↦ walk_pages pages (count + length entries) id
]

pub record ReadMessages : Type 0 where
  pub iterations : ℕ
  pub message_count : ℕ

-- What a reply makes of the count and the cursor.
take_reply : Result (Option Pages) → ℕ → String → ℕ × Result String
unfolding walk_pages
take_reply (ok pages) count cursor = walk_pages (or_else pages []) count cursor
take_reply (err e) count cursor = (count, err e)

-- Whether a turn was the last: nothing came, or enough has.
abbrev pub is_last : ReaderOptions → ℕ → ℕ → Bool
is_last o count count' = nat_eq count' count || leb o.stop_at count'

module _ {S : Type 0} (redis : Redis S) where
  -- One turn of the client reader: what it has counted, and where it goes on, if it does.
  client_turn : ReaderOptions → String → ℕ → String → S → (ℕ × Result String) × S
  unfolding take_reply
  client_turn o stream count cursor s =
      let (reply, s') = redis.xread 1000 (some (or_else o.batch_size 1)) (stream ∷ cursor ∷ []) s in
      (take_reply reply count cursor, s')

  -- The loop of `createClientReader`, from its n-th turn.
  unfoldable pub client_loop :
      ℕ → ReaderOptions → String → ℕ → ℕ → String → S → Option (Result ReadMessages) × S
  unfolding client_turn finally
  client_loop zero o stream n count cursor s = (none, s)
  client_loop (suc fuel) o stream n count cursor s =
      let ((count', r), s') = client_turn o stream count cursor s in
      elim r [
        | err e ↦ (some (finally o count' (err e)), s')
        | ok cursor' ↦ elim (is_last o count count') [
          | true ↦ (
            some (finally o count' (ok (record { iterations = suc n; message_count = count' }))),
            s',
          )
          | false ↦ client_loop fuel o stream (suc n) count' cursor' s'
        ]
      ]

  -- The function that `createClientReader` makes, at its first call.
  unfoldable pub client_reader : ℕ → ReaderOptions → String → S → Option (Result ReadMessages) × S
  unfolding client_loop
  client_reader fuel o stream s = client_loop fuel o stream 0 0 (show_nat o.start_at) s

truthy_cursor : Position → Bool
truthy_cursor (one cursor) = truthy cursor
truthy_cursor (each cursors) = true

module _ (json : Json) {S : Type 0} (redis : Redis S) (d : StreamingDataSource) where
  -- The loop of `createFrameworkReader`: it reads at least once.
  unfoldable pub framework_loop :
      ℕ → ReaderOptions → String → ℕ → Position → S → Option (Result (Unit {0})) × S
  unfolding truthy_cursor finally
  framework_loop zero o stream count last s = (none, s)
  framework_loop (suc fuel) o stream count last s =
      let (r, s') =
        blocking_stream_batch_map json redis d
          (record {
            stream = some stream;
            shard = none;
            last = some last;
            requested_batch_size = some (or_else o.batch_size 1);
            blocking_timeout = none;
            group = none;
          })
          s in
      elim r [
        | err e ↦ (some (err e), s')
        | ok b ↦
            let count' = count + length b.events in
            elim (truthy_cursor b.cursor && ltb count' o.stop_at) [
              | true ↦ framework_loop fuel o stream count' b.cursor s'
              | false ↦ (some (finally o count' (ok tt)), s')
            ]
      ]
