-- ===== src/Deferral.antt =====
-- The tracker of deferred promises: packages/core/src/deferral/deferred-promise-tracker.ts.
-- Promises are numbered in the order in which they are made, timers by their handles. The clock moves,
-- and a timer that is due fires, by calls of the environment. What the code logs is left out, and so
-- is the handler of `responseEvent` that would catch an error, since nothing there can throw.
pub mod Settling
pub mod Orders
pub mod Cancelling
pub mod Waiting
pub mod Timers
pub mod Tracking
pub mod Soundness
pub mod Liveness
pub mod Requests
use streamerson.Prelude.{
  ℕ, zero, suc, ◌+◌, ◌*◌, String, Bool, true, false, Option, none, some, List, [], ◌∷◌, ◌++◌,
  length, get_elem?, set, leb, nat_eq, if◌then◌else◌, or_else,
}
use streamerson.Prelude.Text.{shown}
use streamerson.Prelude.Dict
use streamerson.Prelude.Dict.{Dict}
use streamerson.Message.{MappedStreamEvent}

abbrev pub default_timeout : ℕ
default_timeout = 3000

-- What a promise is rejected with: a cancellation with its message, the static timeout error, or an
-- event.
pub data Reason : Type 0 where
  cancelled : Option String → Reason
  timed_out : Reason
  failed : MappedStreamEvent → Reason

pub data Settled : Type 0 where
  pending : Settled
  fulfilled : MappedStreamEvent → Settled
  rejected : Reason → Settled

-- `ResponseTracker`. It is live if its functions settle its promise; else they are no-ops.
pub record ResponseTracker : Type 0 where
  pub self : ℕ
  pub live : Bool
  pub timer : ℕ

pub data Task : Type 0 where
  time_out : ℕ → Task
  forget : String → Task

pub record Timer : Type 0 where
  pub handle : ℕ
  pub due : ℕ
  pub task : Task

pub record DeferralTracker : Type 0 where
  pub timeout : ℕ
  pub promises : Dict ResponseTracker
  pub settled : List Settled
  pub timers : List Timer
  pub next_timer : ℕ
  pub now : ℕ

unfoldable pub new_tracker : Option ℕ → DeferralTracker
new_tracker timeout = record {
  timeout = or_else timeout default_timeout;
  promises = [];
  settled = [];
  timers = [];
  next_timer = 1;
  now = 0;
}

-- A promise settles once.
unfoldable pub settle : List Settled → ℕ → Settled → List Settled
settle [] p v = []
settle (pending ∷ l) zero v = v ∷ l
settle (fulfilled e ∷ l) zero v = fulfilled e ∷ l
settle (rejected r ∷ l) zero v = rejected r ∷ l
settle (w ∷ l) (suc p) v = w ∷ settle l p v

-- `clearTimeout(handle)`
unfoldable pub clear_timeout : List Timer → ℕ → List Timer
clear_timeout [] h = []
clear_timeout (t ∷ ts) h =
    let rest = clear_timeout ts h in if nat_eq t.handle h then rest else t ∷ rest

-- A call of a tracker's `resolve` or `reject`.
unfoldable pub settle_by : DeferralTracker → ResponseTracker → Settled → DeferralTracker
settle_by t e v = if e.live then record t { settled = settle t.settled e.self v } else t

set_timeout : DeferralTracker → ℕ → Task → DeferralTracker
set_timeout t delay task = record t {
  timers = t.timers ++ record { handle = t.next_timer; due = t.now + delay; task = task } ∷ [];
  next_timer = suc t.next_timer;
}

-- `this.promises[id] = { … }` with a promise in state `v`, and a timer.
pub track : DeferralTracker → String → Settled → Bool → ℕ → Task → DeferralTracker
unfolding set_timeout
track t id v live delay task =
    set_timeout
      (record t {
        promises =
            Dict.put t.promises id
              (record { self = length t.settled; live = live; timer = t.next_timer });
        settled = t.settled ++ v ∷ [];
      })
      delay task

unfoldable pub settle_tracked : DeferralTracker → ResponseTracker → Settled → DeferralTracker
unfolding settle_by
settle_tracked t e v =
    let t' = settle_by t e v in record t' { timers = clear_timeout t'.timers e.timer }

-- `responseEvent` and `errorEvent` differ in how they settle.
pub settled_event : DeferralTracker → String → Settled → DeferralTracker
unfolding settle_tracked track
settled_event t id v = elim (Dict.get t.promises id) [
  | some e ↦ settle_tracked t e v
  | none ↦ track t id v false (t.timeout * 2) (forget id)
]

unfoldable pub response_event : DeferralTracker → MappedStreamEvent → DeferralTracker
unfolding settled_event
response_event t event = settled_event t (shown event.message_id) (fulfilled event)

unfoldable pub error_event : DeferralTracker → MappedStreamEvent → DeferralTracker
unfolding settled_event
error_event t event = settled_event t (shown event.message_id) (rejected (failed event))

unfoldable pub delete : DeferralTracker → String → DeferralTracker
delete t id = record t { promises = Dict.remove t.promises id }

unfoldable pub cancel : DeferralTracker → String → Option String → DeferralTracker
unfolding delete settle_tracked
cancel t id message = elim (Dict.get t.promises id) [
  | some e ↦ delete (settle_tracked t e (rejected (cancelled message))) id
  | none ↦ t
]

-- The loop of `cancelAll` over the keys that there were when it began.
unfoldable pub cancel_each : DeferralTracker → List String → Option String → DeferralTracker
cancel_each t [] message = t
cancel_each t (id ∷ ids) message = cancel_each (cancel t id message) ids message

unfoldable pub cancel_all : DeferralTracker → Option String → DeferralTracker
unfolding cancel_each
cancel_all t message = cancel_each t (Dict.keys t.promises) message

-- `promise(id)`: the promise that it returns, and the new state.
unfoldable pub promise : DeferralTracker → String → ℕ × DeferralTracker
unfolding track
promise t id = elim (Dict.get t.promises id) [
  | some e ↦ (e.self, t)
  | none ↦ (length t.settled, track t id pending true t.timeout (time_out (length t.settled)))
]

run_task : DeferralTracker → Task → DeferralTracker
unfolding delete
run_task t (time_out p) = record t { settled = settle t.settled p (rejected timed_out) }
run_task t (forget id) = delete t id

unfoldable pub find_timer : List Timer → ℕ → Option Timer
find_timer [] h = none
find_timer (x ∷ xs) h = if nat_eq x.handle h then some x else find_timer xs h

-- The event loop runs a timer that is due.
unfoldable pub fire : DeferralTracker → ℕ → DeferralTracker
unfolding run_task find_timer
fire t h = elim (find_timer t.timers h) [
  | none ↦ t
  | some x ↦
      if leb x.due t.now
      then run_task (record t { timers = clear_timeout t.timers h }) x.task
      else t
]

unfoldable pub advance : DeferralTracker → ℕ → DeferralTracker
advance t n = record t { now = t.now + n }

-- The calls of the program and of the environment.
pub data Call : Type 0 where
  responds errors : MappedStreamEvent → Call
  promises : String → Call
  cancels : String → Option String → Call
  cancels_all : Option String → Call
  deletes : String → Call
  advances fires : ℕ → Call

unfoldable pub step : DeferralTracker → Call → DeferralTracker
step t (responds event) = response_event t event
step t (errors event) = error_event t event
step t (promises id) = (promise t id).1
step t (cancels id message) = cancel t id message
step t (cancels_all message) = cancel_all t message
step t (deletes id) = delete t id
step t (advances n) = advance t n
step t (fires h) = fire t h

unfoldable pub run : DeferralTracker → List Call → DeferralTracker
run t [] = t
run t (c ∷ cs) = run (step t c) cs
