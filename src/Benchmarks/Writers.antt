-- ===== src/Benchmarks/Writers.antt =====
-- The writers of the benchmarks: packages/benchmarking/src/utils/writers.ts. A batch is issued in order;
-- if writes of it fail, the first of them is taken for the first failure, and the others are issued all the
-- same. The loop of the bulk writers runs on fuel.
use native.Mathlib.Nat.{suc-mul}
use streamerson.Prelude.{
  ℕ, zero, suc, ◌+◌, ◌*◌, ◌≤◌, ◌<◌, String, ◌≡◌, ◌∙◌, refl, true, false, Option, none, some, [],
  ◌∷◌, or_else, ltb, arith, if◌then◌else◌, Bool-cases, inl, inr,
}
use Prim.Native.String.{◌++◌}
use streamerson.Prelude.Result.{Result, ok, err, is_ok, ◌>>◌, map_ok}
use streamerson.Prelude.Decimal.{show_nat}
use streamerson.Prelude.Value.{Value, obj, end}
use streamerson.Message.{Json}
use streamerson.Redis.{Redis}
use streamerson.Source.{StreamingDataSource, write_to_stream}

abbrev message_name : ℕ → String
message_name i = "message" ++ show_nat i

-- `payload ?? bigObject`
abbrev payload_or_empty : Option Value → Value
payload_or_empty payload = or_else payload (obj none end)

-- One write of a framework writer, and of a client writer.
unfoldable pub framework_write :
    {S : Type 0}
    → Redis S
    → Json
    → StreamingDataSource
    → String
    → Option Value
    → ℕ
    → S
    → Result String × S
framework_write redis json d stream payload i s =
    write_to_stream redis d stream none "test" (message_name i)
      (json.stringify (payload_or_empty payload)) (some "test") none s

unfoldable pub client_write :
    {S : Type 0} → Redis S → Json → String → Option Value → ℕ → S → Result String × S
client_write redis json stream payload i s =
    redis.xadd stream
      (message_name i
        ∷ "test"
        ∷ ""
        ∷ "nil"
        ∷ "json"
        ∷ "test-source"
        ∷ "UnoccupiedField"
        ∷ json.stringify (payload_or_empty payload)
        ∷ [])
      s

-- `Math.min(MSG_COUNT, _batchSize)`
abbrev pub batch_size : ℕ → ℕ → ℕ
batch_size count size = if ltb count size then count else size

module _ {S : Type 0} (write : ℕ → S → Result String × S) where
  -- The loop of the plain writers: one write after the other, until one fails.
  unfoldable pub write_from : ℕ → ℕ → S → Result (Unit {0}) × S
  write_from i zero s = (ok tt, s)
  write_from i (suc n) s =
      let (r, s') = write i s in elim r [ ok id ↦ write_from (suc i) n s' | err e ↦ (err e, s') ]

  -- `Promise.all` of a batch, whose writes are numbered from 0.
  unfoldable pub write_batch : ℕ → ℕ → S → Result (Unit {0}) × S
  write_batch i zero s = (ok tt, s)
  write_batch i (suc n) s =
      let (r, s') = write i s in
      let (rest, s'') = write_batch (suc i) n s' in (map_ok (λ _. tt) r >> rest, s'')

  -- The loop of a bulk writer, with what it has processed.
  unfoldable pub bulk_write : ℕ → ℕ → ℕ → ℕ → S → Option (Result ℕ) × S
  unfolding write_batch
  bulk_write zero count size processed s = (none, s)
  bulk_write (suc fuel) count size processed s = elim (ltb processed count) [
    | false ↦ (some (ok processed), s)
    | true ↦
        let (r, s') = write_batch 0 size s in
        elim r [
          | ok _ ↦ bulk_write fuel count size (processed + size) s'
          | err e ↦ (some (err e), s')
        ]
  ]

  -- The server after some batches.
  abbrev pub after_batches : ℕ → ℕ → S → S
  after_batches zero size s = s
  after_batches (suc k) size s = after_batches k size (write_batch 0 size s).1

  module _ (accepted : (i : ℕ) (s : S) → is_ok (write i s).0 ≡ true) where
    write_batch-ok : (i n : ℕ) (s : S) → (write_batch i n s).0 ≡ ok tt
    unfolding write_batch
    write_batch-ok i zero s = refl
    write_batch-ok i (suc n) s =
        ground (arith, accepted i s, write_batch-ok (suc i) n (write i s).1)

    bulk_write-more :
        (fuel count size processed : ℕ) (s : S)
        → ltb processed count ≡ true
        → bulk_write (suc fuel) count size processed s
          ≡ bulk_write fuel count size (processed + size) (write_batch 0 size s).1
    unfolding bulk_write
    bulk_write-more fuel count size processed s h =
        rw (h, bulk_write) (rw (write_batch-ok 0 size s) refl)

    bulk_write-enough :
        (fuel count size processed : ℕ) (s : S)
        → ltb processed count ≡ false
        → bulk_write (suc fuel) count size processed s ≡ (some (ok processed), s)
    unfolding bulk_write
    bulk_write-enough fuel count size processed s h = rw (h, bulk_write) refl

    -- What k batches from here on leave, when the loop ends after them.
    record Ends (fuel count size processed : ℕ) (s : S) : Type 0 where
      batches : ℕ
      result :
          bulk_write fuel count size processed s
          ≡ (some (ok (processed + batches * size)), after_batches batches size s)
      all : count ≤ processed + batches * size
      near : processed + batches * size < count + size

    done-Ends :
        (fuel count size processed : ℕ) (s : S)
        → ltb processed count ≡ false
        → processed < count + size
        → Ends (suc fuel) count size processed s
    done-Ends fuel count size processed s h near =
        let here : processed + 0 * size ≡ processed = omega arith in
        record {
          batches = 0;
          result = rw here (bulk_write-enough fuel count size processed s h);
          all = ground (arith, h, here);
          near = omega (arith, near, here);
        }

    next-Ends :
        (fuel count size processed : ℕ) (s : S)
        → ltb processed count ≡ true
        → Ends fuel count size (processed + size) (write_batch 0 size s).1
        → Ends (suc fuel) count size processed s
    next-Ends fuel count size processed s h e =
        let sum : processed + suc e.batches * size ≡ processed + size + e.batches * size =
          omega (arith, suc-mul e.batches size) in
        record {
          batches = suc e.batches;
          result = bulk_write-more fuel count size processed s h ∙ (rw sum e.result);
          all = rw sum e.all;
          near = rw sum e.near;
        }

    bulk_write-Ends :
        (fuel count size processed : ℕ) (s : S)
        → 0 < size
        → count ≤ processed + fuel
        → processed < count + size
        → Ends (suc fuel) count size processed s
    bulk_write-Ends zero count size processed s full enough near =
        done-Ends zero count size processed s (ground (arith, enough)) near
    bulk_write-Ends (suc fuel) count size processed s full enough near =
        elim (Bool-cases (ltb processed count)) [
          | inl more ↦ next-Ends (suc fuel) count size processed s more (
              bulk_write-Ends fuel count size (processed + size) (write_batch 0 size s).1 full
                (omega arith) (ground (arith, more, near)))
          | inr enough' ↦ done-Ends (suc fuel) count size processed s enough' near
        ]

    -- A bulk writer of some messages, with batches of at most a limit that is not 0, whose writes are all
    -- accepted, ends, with one turn more of its loop than there are messages: it has written some number k
    -- of whole batches, each numbered from 0 again, and says so, which is at least as many messages as were
    -- asked for, and fewer than a batch too many.
    pub bulk_write-whole_batches :
        (count limit : ℕ) (s : S)
        → 0 < count
        → 0 < limit
        → (let size = batch_size count limit in
            (k : ℕ) × (bulk_write (suc count) count size 0 s
              ≡ (some (ok (k * size)), after_batches k size s))
            × (count ≤ k * size)
            × (k * size < count + size))
    bulk_write-whole_batches count limit s some_asked full =
        let size = batch_size count limit in
        let sized : 0 < size = ground (arith, some_asked, full) in
        let e = bulk_write-Ends count count size 0 s sized (omega arith) (omega (arith, sized)) in
        let sum : 0 + e.batches * size ≡ e.batches * size = omega arith in
        (e.batches, rw sum at e.result, rw sum at e.all, rw sum at e.near)

-- The four writers, of some messages with one payload. The bulk writers have fuel for one turn more of
-- their loop than there are messages.
module _ {S : Type 0} (redis : Redis S) (json : Json) (stream : String) (count : ℕ)
    (payload : Option Value) where
  unfoldable pub framework_writer : StreamingDataSource → S → Result (Unit {0}) × S
  unfolding write_from framework_write
  framework_writer d s = write_from (framework_write redis json d stream payload) 0 count s

  unfoldable pub bulk_framework_writer : StreamingDataSource → ℕ → S → Option (Result ℕ) × S
  unfolding bulk_write framework_write
  bulk_framework_writer d limit s =
      bulk_write (framework_write redis json d stream payload) (suc count) count
        (batch_size count limit) 0 s

  unfoldable pub client_writer : S → Result (Unit {0}) × S
  unfolding write_from client_write
  client_writer s = write_from (client_write redis json stream payload) 0 count s

  unfoldable pub bulk_client_writer : ℕ → S → Option (Result ℕ) × S
  unfolding bulk_write client_write
  bulk_client_writer limit s =
      bulk_write (client_write redis json stream payload) (suc count) count (batch_size count limit)
        0 s
