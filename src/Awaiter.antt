-- ===== src/Awaiter.antt =====
-- Requests over streams: packages/core/src/deferral/stream-awaiter.ts, the class and the function of
-- the same behaviour. A dispatch has two parts: up to the wait for the promise, and from its
-- settlement. The identifier is one that the environment draws.
pub mod Dispatching
use streamerson.Prelude.{ℕ, String, Option, none, some, List, or_else, truthy?, if◌then◌else◌}
use streamerson.Prelude.Result.{Result, ok, err}
use streamerson.Prelude.Value.{Value}
use streamerson.Keys.{shard_decorator}
use streamerson.Message.{MappedStreamEvent}
use streamerson.Redis.{Redis}
use streamerson.Source.{StreamingDataSource, write_to_stream}
use streamerson.Deferral.{
  DeferralTracker, Settled, pending, fulfilled, rejected, Reason, new_tracker, promise, delete,
  response_event,
}

pub record StreamAwaiter : Type 0 where
  pub tracker : DeferralTracker
  pub outgoing_stream : Option String
  pub incoming_stream : String
  pub write_channel : StreamingDataSource

unfoldable pub new_awaiter : Option String → String → StreamingDataSource → Option ℕ → StreamAwaiter
new_awaiter outgoing incoming channel timeout = record {
  tracker = new_tracker timeout;
  outgoing_stream = outgoing;
  incoming_stream = incoming;
  write_channel = channel;
}

-- `this.outgoingStream ?? outgoingStreamOverride`
unfoldable pub dispatch_target : StreamAwaiter → Option String → Option String
dispatch_target a override = elim a.outgoing_stream [ none ↦ override | some s ↦ some s ]

-- What became of the first part of a dispatch: the promise that it awaits, or what it threw.
pub record Dispatched (S : Type 0) : Type 0 where
  pub awaits : Result ℕ
  pub awaiter : StreamAwaiter
  pub server : S

module _ {S : Type 0} (redis : Redis S) where
  written : ℕ → StreamAwaiter → Result String × S → Dispatched S
  written p a (ok id, s) = record { awaits = ok p; awaiter = a; server = s }
  written p a (err e, s) = record { awaits = err e; awaiter = a; server = s }

  send :
      StreamAwaiter
      → String
      → String
      → String
      → String
      → Option String
      → Option String
      → S
      → Dispatched S
  unfolding written
  send a target id message type source shard s =
      let (p, t) = promise a.tracker id in
      written p (record a { tracker = t })
        (write_to_stream redis a.write_channel target (some a.incoming_stream) type id message
          (some (or_else source "")) shard s)

  -- `dispatch(…)` up to `await $expectedResponse`
  unfoldable pub dispatch :
      StreamAwaiter
      → String
      → String
      → String
      → Option String
      → Option String
      → Option String
      → S
      → Dispatched S
  unfolding send dispatch_target
  dispatch a id message type source shard override s =
      if truthy? (dispatch_target a override)
      then send a (or_else (dispatch_target a override) "") id message type source shard s
      else record {
        awaits = err "Either a configured or override stream target must be provided";
        awaiter = a;
        server = s;
      }

-- The rest of `dispatch(…)`, when the promise has settled: what it returns or throws.
pub data Answer : Type 0 where
  waiting : Answer
  returned : Value → Answer
  thrown : Reason → Answer

unfoldable pub resume : StreamAwaiter → String → Settled → Answer × StreamAwaiter
resume a id pending = (waiting, a)
resume a id (fulfilled event) = (returned event.payload, record a { tracker = delete a.tracker id })
resume a id (rejected r) = (thrown r, a)

-- The stream that `readResponseStream` reads, and what it does with each event.
unfoldable pub response_stream : StreamAwaiter → Option String → String
response_stream a shard = shard_decorator a.incoming_stream shard

unfoldable pub on_response : StreamAwaiter → MappedStreamEvent → StreamAwaiter
on_response a event = record a { tracker = response_event a.tracker event }
