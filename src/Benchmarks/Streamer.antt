-- ===== src/Benchmarks/Streamer.antt =====
-- The benchmark reader by a stream: createFrameworkStreamer of packages/benchmarking/src/utils/readers.ts,
-- the race of the events of a stream and a timer of ten seconds, as a machine. The stream is the
-- environment: it is the source of the events, and is not stopped by the reader.
use streamerson.Prelude.{
  ℕ, suc, ◌+◌, ◌≤◌, ◌<◌, String, ◌≡◌, refl, sym, ap, ◌∙◌, Bool, true, false, ◌&&◌, Option, none,
  some, List, [], ◌∷◌, or_else, ltb, leb, arith, if◌then◌else◌, Bool-cases, inl, inr,
}
use streamerson.Prelude.Result.{Result, ok, err}
use streamerson.Prelude.Decimal.{show_nat}
use streamerson.Prelude.Text.{template}
use streamerson.Benchmarks.Readers.{ReaderOptions}

-- The stream that is asked for.
pub record StreamRequest : Type 0 where
  pub stream : String
  pub last : String
  pub requested_batch_size : ℕ
  pub blocking_timeout : ℕ

unfoldable pub stream_request : ReaderOptions → String → StreamRequest
stream_request o stream = record {
  stream = stream;
  last = show_nat o.start_at;
  requested_batch_size = or_else o.batch_size 1;
  blocking_timeout = 1000;
}

-- `outcome` is what the race has come to, `timer` whether the timer is still to run.
pub record Streamer : Type 0 where
  pub event_count : ℕ
  pub outcome : Option (Result (Unit {0}))
  pub timer : Bool

pub data Happening : Type 0 where
  event_read timer_ran : Happening

abbrev pub new_streamer : Streamer
new_streamer = record { event_count = 0; outcome = none; timer = true }

-- A promise that has settled stays as it is. Once the race is won by the events, the timer is cleared; if
-- it is lost, the reader throws before that, but the timer has run.
settle_race : Streamer → Result (Unit {0}) → Streamer
settle_race r result = elim r.outcome [
  | none ↦ record r { outcome = some result; timer = false }
  | some _ ↦ r
]

abbrev shortfall : ReaderOptions → ℕ → String
shortfall o count =
    template ("Expected " ∷ show_nat o.stop_at ∷ " messages, but only read " ∷ show_nat count ∷ [])

-- The listener of the stream, which stays subscribed, and the callback of the timer.
unfoldable pub happen : ReaderOptions → Streamer → Happening → Streamer
unfolding settle_race
happen o r event_read =
    let r' = record r { event_count = r.event_count + 1 } in
    if leb o.stop_at r'.event_count then settle_race r' (ok tt) else r'
happen o r timer_ran = if r.timer then settle_race r (err (shortfall o r.event_count)) else r

unfoldable pub stream_for : ReaderOptions → Streamer → List Happening → Streamer
unfolding happen
stream_for o r [] = r
stream_for o r (h ∷ hs) = stream_for o (happen o r h) hs

-- The events that are read before the timer runs, and whether it does.
abbrev pub in_time : List Happening → ℕ
in_time [] = 0
in_time (event_read ∷ hs) = suc (in_time hs)
in_time (timer_ran ∷ hs) = 0

abbrev pub times_out : List Happening → Bool
times_out [] = false
times_out (event_read ∷ hs) = times_out hs
times_out (timer_ran ∷ hs) = true

-- What the race comes to, by what is read in time. No event, no end: even none that are asked for.
abbrev pub race : ReaderOptions → ℕ → Bool → Option (Result (Unit {0}))
race o count timed =
    if ltb 0 count && leb o.stop_at count
    then some (ok tt)
    else if timed
    then some (err (shortfall o count))
    else none

happen-settled :
    (o : ReaderOptions) (h : Happening) (r : Streamer) {x : Result (Unit {0})}
    → r.outcome ≡ some x
    → r.timer ≡ false
    → ((happen o r h).outcome ≡ some x) × ((happen o r h).timer ≡ false)
unfolding happen
happen-settled o event_read r h k = ground arith
happen-settled o timer_ran r h k = ground arith

settled-stays :
    (o : ReaderOptions) (hs : List Happening) (r : Streamer) {x : Result (Unit {0})}
    → r.outcome ≡ some x
    → r.timer ≡ false
    → (stream_for o r hs).outcome ≡ some x
unfolding stream_for
settled-stays o [] r h k = h
settled-stays o (e ∷ hs) r h k =
    let (h', k') = happen-settled o e r h k in settled-stays o hs (happen o r e) h' k'

-- A reader that still reads, after some events.
abbrev reading : ℕ → Streamer
reading n = record { event_count = n; outcome = none; timer = true }

race-won :
    (o : ReaderOptions) (n : ℕ) (timed : Bool)
    → 0 < n
    → o.stop_at ≤ n
    → race o n timed ≡ some (ok tt)
race-won o n timed some_read enough = ground arith

race-open :
    (o : ReaderOptions) (n : ℕ) (timed : Bool)
    → (ltb 0 n && leb o.stop_at n) ≡ false
    → race o n timed ≡ (if timed then some (err (shortfall o n)) else none)
race-open o n timed h = rw h refl

abbrev won : ℕ → Streamer
won n = record { event_count = n; outcome = some (ok tt); timer = false }

happen-enough :
    (o : ReaderOptions) (n : ℕ)
    → leb o.stop_at (n + 1) ≡ true
    → happen o (reading n) event_read ≡ won (n + 1)
unfolding happen
happen-enough o n h = rw h refl

happen-more :
    (o : ReaderOptions) (n : ℕ)
    → leb o.stop_at (n + 1) ≡ false
    → happen o (reading n) event_read ≡ reading (n + 1)
unfolding happen
happen-more o n h = rw h refl

stream_for-race :
    (o : ReaderOptions) (hs : List Happening) (n : ℕ)
    → (ltb 0 n && leb o.stop_at n) ≡ false
    → (stream_for o (reading n) hs).outcome ≡ race o (n + in_time hs) (times_out hs)
unfolding stream_for
stream_for-race o [] n h =
    let same : n + 0 ≡ n = omega arith in rw same (sym (race-open o n false h))
stream_for-race o (timer_ran ∷ hs) n h =
    let same : n + 0 ≡ n = omega arith in
    rw same (
      unfold happen in
      settled-stays o hs (happen o (reading n) timer_ran) refl refl ∙ sym (race-open o n true h))
stream_for-race o (event_read ∷ hs) n h =
    let same : n + suc (in_time hs) ≡ n + 1 + in_time hs = omega arith in
    let next : Streamer → Option (Result (Unit {0})) = λ r. (stream_for o r hs).outcome in
    elim (Bool-cases (leb o.stop_at (n + 1))) [
      | inl enough ↦
          ap next (happen-enough o n enough)
          ∙ settled-stays o hs (won (n + 1)) refl refl
          ∙ sym (
              race-won o (n + suc (in_time hs)) (times_out hs) (omega arith)
                (ground (arith, enough)))
      | inr more ↦
          ap next (happen-more o n more)
          ∙ stream_for-race o hs (n + 1) (ground (arith, more))
          ∙ ap (λ (m : ℕ). race o m (times_out hs)) (sym same)
    ]

-- Whatever events are read and when the timer runs: the reader returns if, before the timer runs, at least
-- one event is read and as many as it is to stop at; else it throws once the timer runs, and says how many
-- were read until then. What comes later changes nothing, and there is no end before either.
pub stream_for-outcome :
    (o : ReaderOptions) (hs : List Happening)
    → (stream_for o new_streamer hs).outcome ≡ race o (in_time hs) (times_out hs)
stream_for-outcome o hs =
    stream_for-race o hs 0 (ground arith) ∙ ap (λ (n : ℕ). race o n (times_out hs)) (omega arith)
