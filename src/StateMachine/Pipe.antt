-- ===== src/StateMachine/Pipe.antt =====
-- The pipe of a listening state machine: `connectAndListen` of
-- packages/state-machine/src/stream-state-machine.ts. What is pushed has the ID of the event that it
-- answers and no source; an `Error` has no fields of its own that JSON shows.
use streamerson.Prelude.{Bool, false, none, some, List, [], ◌∷◌, if◌then◌else◌}
use streamerson.Prelude.Result.{Result, ok, err}
use streamerson.Prelude.Value.{Value, obj, end}
use streamerson.Message.{Json, MappedStreamEvent}
use streamerson.Redis.{Redis}
use streamerson.Source.{
  Chunk, WriteOutcome, called_back, dropped, rejected, WriteTarget, write_chunk,
}
use streamerson.StateMachine.{StreamStateMachine, Processed, answered, unhandled, Step, process}

-- The error object, as a payload.
abbrev pub error_object : Value
error_object = obj none end

abbrev payload_of : Processed → Value
payload_of (answered v) = v
payload_of (unhandled e) = error_object

unfoldable pub chunk_of : MappedStreamEvent → Processed → Chunk
chunk_of event p = record {
  message_id = event.message_id;
  payload = payload_of p;
  message_source_id = none;
}

-- The machine, whether the transform takes the next event, and whether the outgoing stream writes.
pub record Listening (C S : Type 0) : Type 0 where
  pub machine : StreamStateMachine C S
  pub reading : Bool
  pub writing : Bool
  pub server : S

after_write : {C S : Type 0} → Listening C S → WriteOutcome × S → Listening C S
after_write l (called_back, s) = record l { server = s }
after_write l (dropped, s) = record l { writing = false; server = s }
after_write l (rejected e, s) = record l { writing = false; server = s }

module _ {C S : Type 0} (redis : Redis S) (json : Json) where
  push : Listening C S → Chunk → Listening C S
  unfolding after_write
  push l chunk = elim l.machine.outgoing_channel [
    | none ↦ l
    | some _ ↦
        if l.writing
        then after_write l (
            write_chunk redis json l.machine.outgoing_stream
              (WriteTarget.to_stream l.machine.outgoing_stream_name none) l.machine.shard chunk
              l.server)
        else l
  ]

  transformed : Listening C S → MappedStreamEvent → Result Processed → Listening C S
  unfolding push chunk_of
  transformed l event (ok p) = push l (chunk_of event p)
  transformed l event (err e) = record l { reading = false }

  stepped : Listening C S → MappedStreamEvent → Step C S → Listening C S
  unfolding transformed
  stepped l event step =
      transformed
        (record l { machine = record l.machine { state_cache = step.cache }; server = step.server })
        event step.processed

  unfoldable pub transform : Listening C S → MappedStreamEvent → Listening C S
  unfolding stepped
  transform l event =
      if l.reading then stepped l event (process json l.machine event l.server) else l

  unfoldable pub pump : Listening C S → List MappedStreamEvent → Listening C S
  pump l [] = l
  pump l (event ∷ events) = pump (transform l event) events
