-- ===== src/Deferral/Waiting.antt =====
-- A request that waits for its answer is not disturbed by what happens to other IDs.
use streamerson.Prelude.{
  ℕ, ◌*◌, String, ◌≡◌, ◌≢◌, ap, ◌∙◌, ◌⊎◌, inl, inr, Bool, true, false, Option, some, List, [], ◌∷◌,
  arith, get_elem?, get_elem?-bound, get_elem?-append_left, ◌==◌, eq_iff, Option-cases, Bool-cases,
  if◌then◌else◌, length, All, All-append, nat_eq, leb,
}
use streamerson.Prelude.Text.{shown}
use streamerson.Prelude.Dict
use streamerson.Prelude.Dict.{get-put, get-remove}
use streamerson.Message.{MappedStreamEvent}
use streamerson.Deferral.Settling.{settle-ne, settle-pending}
use streamerson.Deferral.Soundness.{All-clear}
use streamerson.Deferral.Tracking.{settle_tracked-promises}
use streamerson.Deferral.{
  DeferralTracker, Settled, pending, fulfilled, rejected, failed, ResponseTracker, settle_by,
  settle_tracked, settled_event, Timer, Task, time_out, forget, run_task, response_event,
  error_event, cancel, promise, delete, fire, advance, clear_timeout, find_timer, track, Call,
  responds, errors, promises, cancels, cancels_all, deletes, advances, fires, step, run,
}

-- A timer that is not the request's own does nothing to the request.
abbrev pub Harmless : String → ResponseTracker → Timer → Type 0
Harmless id e x = (x.handle ≡ e.timer) ⊎ ((x.task ≢ time_out e.self) × (x.task ≢ forget id))

-- A request waits under an ID: it is tracked with a pending promise, no other ID shares the promise,
-- and the other timers leave it alone.
pub record Waits (t : DeferralTracker) (id : String) (e : ResponseTracker) : Type 0 where
  pub found : Dict.get t.promises id ≡ some e
  pub waits : get_elem? t.settled e.self ≡ some pending
  pub alone :
      (j : String) (f : ResponseTracker) → Dict.get t.promises j ≡ some f → j ≢ id → f.self ≢ e.self
  pub tasks : All (Harmless id e) t.timers

-- A call that is about other IDs and does not run the request's own timer.
abbrev pub Foreign : String → ResponseTracker → Call → Type 0
Foreign id e (responds event) = shown event.message_id ≢ id
Foreign id e (errors event) = shown event.message_id ≢ id
Foreign id e (promises j) = Unit {0}
Foreign id e (cancels j message) = j ≢ id
Foreign id e (cancels_all message) = ⊥
Foreign id e (deletes j) = j ≢ id
Foreign id e (advances n) = Unit {0}
Foreign id e (fires h) = h ≢ e.timer

find_timer-Harmless :
    (id : String) (e : ResponseTracker) (h : ℕ) (ts : List Timer) (x : Timer)
    → All (Harmless id e) ts
    → h ≢ e.timer
    → find_timer ts h ≡ some x
    → (x.task ≢ time_out e.self) × (x.task ≢ forget id)
unfolding find_timer
find_timer-Harmless id e h [] x a n f = cc
find_timer-Harmless id e h (y ∷ ts) x (ay, a) n f = elim (Bool-cases (nat_eq y.handle h)) [
  | inl hit ↦
      let same : y ≡ x = ground arith in
      elim ay [ inl own ↦ absurd (n (ground arith)) | inr harmless ↦ rw (← same) harmless ]
  | inr miss ↦ find_timer-Harmless id e h ts x a n (rw miss at f)
]

module _ (id : String) (e : ResponseTracker) where
  track-Waits :
      (t : DeferralTracker) (j : String) (v : Settled) (live : Bool) (delay : ℕ) (task : Task)
      → j ≢ id
      → (task ≢ time_out e.self) × (task ≢ forget id)
      → Waits t id e
      → Waits (track t j v live delay task) id e
  unfolding track
  track-Waits t j v live delay task n harmless w = record {
    found = rw get-put (ground (arith, eq_iff j id, w.found));
    waits = get_elem?-append_left t.settled (v ∷ []) e.self w.waits;
    alone = λ k f g m. elim (Bool-cases (j == k)) [
      | inl hit ↦
          let known = rw get-put at g in
          let made : f.self ≡ length t.settled = ground (arith, known) in
          omega (arith, get_elem?-bound t.settled e.self w.waits)
      | inr miss ↦ let known = rw get-put at g in w.alone k f (rw miss at known) m
    ];
    tasks = All-append (Harmless id e) t.timers _ w.tasks (inr harmless, tt);
  }

  settle_tracked-Waits :
      (t : DeferralTracker) (f : ResponseTracker) (v : Settled)
      → f.self ≢ e.self
      → Waits t id e
      → Waits (settle_tracked t f v) id e
  unfolding settle_tracked
  settle_tracked-Waits t f v n w = record {
    found = rw settle_tracked-promises w.found;
    waits = ground (arith, settle-ne t.settled e.self f.self v n, w.waits);
    alone = λ k g h m. w.alone k g (rw settle_tracked-promises at h) m;
    tasks = All-clear (Harmless id e) f.timer _ (kept (Bool-cases f.live));
  }
    where
      kept : (f.live ≡ true) ⊎ (f.live ≡ false) → All (Harmless id e) (settle_by t f v).timers
      kept (inl live) = rw (live, settle_by) w.tasks
      kept (inr dead) = rw (dead, settle_by) w.tasks

  settled_event-Waits :
      (t : DeferralTracker) (j : String) (v : Settled)
      → j ≢ id
      → Waits t id e
      → Waits (settled_event t j v) id e
  unfolding settled_event
  settled_event-Waits t j v n w = elim (Option-cases (Dict.get t.promises j)) [
    | inl missing ↦
        rw (missing, settled_event)
          (track-Waits t j v false (t.timeout * 2) (forget j) n
            ((λ c. cc), λ c. n (ground (arith, c))) w)
    | inr (f, found) ↦
        rw (found, settled_event) (settle_tracked-Waits t f v (w.alone j f found n) w)
  ]

  delete-Waits :
      (t : DeferralTracker) (j : String) → j ≢ id → Waits t id e → Waits (delete t j) id e
  unfolding delete
  delete-Waits t j n w = record {
    found = rw get-remove (ground (arith, eq_iff j id, w.found));
    waits = w.waits;
    alone = λ k f g m. elim (Bool-cases (j == k)) [
      | inl hit ↦ let known = rw get-remove at g in absurd (ground (arith, known))
      | inr miss ↦ let known = rw get-remove at g in w.alone k f (rw miss at known) m
    ];
    tasks = w.tasks;
  }

  cancel-Waits :
      (t : DeferralTracker) (j : String) (message : Option String)
      → j ≢ id
      → Waits t id e
      → Waits (cancel t j message) id e
  unfolding cancel
  cancel-Waits t j message n w = elim (Option-cases (Dict.get t.promises j)) [
    | inl missing ↦ rw (missing, cancel) w
    | inr (f, found) ↦
        rw (found, cancel) (delete-Waits _ j n (settle_tracked-Waits t f _ (w.alone j f found n) w))
  ]

  -- Asking for the same ID again changes nothing.
  promise-Waits : (t : DeferralTracker) (j : String) → Waits t id e → Waits (promise t j).1 id e
  unfolding promise
  promise-Waits t j w = elim (Option-cases (Dict.get t.promises j)) [
    | inr (f, found) ↦ rw (found, promise) w
    | inl missing ↦
        rw (missing, promise)
          (track-Waits t j pending true t.timeout (time_out (length t.settled))
            (λ same. let other = w.found in absurd (ground (arith, rw same at missing, other)))
            ((λ c. omega (arith, self_eq c, get_elem?-bound t.settled e.self w.waits)), λ c. cc) w)
  ]
    where
      self_eq : time_out (length t.settled) ≡ time_out e.self → length t.settled ≡ e.self
      self_eq c = cc

  run_task-Waits :
      (t : DeferralTracker) (task : Task)
      → (task ≢ time_out e.self) × (task ≢ forget id)
      → Waits t id e
      → Waits (run_task t task) id e
  unfolding run_task
  run_task-Waits t (time_out q) h w = record {
    found = w.found;
    waits = settle-ne t.settled e.self q _ (λ c. h.0 (ap time_out c)) ∙ w.waits;
    alone = w.alone;
    tasks = w.tasks;
  }
  run_task-Waits t (forget j) h w = delete-Waits t j (λ c. h.1 (ap forget c)) w

  fire-Waits : (t : DeferralTracker) (h : ℕ) → h ≢ e.timer → Waits t id e → Waits (fire t h) id e
  unfolding fire
  fire-Waits t h n w = elim (Option-cases (find_timer t.timers h)) [
    | inl missing ↦ rw (missing, fire) w
    | inr (x, found) ↦
        rw (found, fire)
          (ran x (find_timer-Harmless id e h t.timers x w.tasks n found)
            (Bool-cases (leb x.due t.now)))
  ]
    where
      ran :
          (x : Timer)
          → (x.task ≢ time_out e.self) × (x.task ≢ forget id)
          → (leb x.due t.now ≡ true) ⊎ (leb x.due t.now ≡ false)
          → Waits
              (if leb x.due t.now
                then run_task (record t { timers = clear_timeout t.timers h }) x.task
                else t)
              id
              e
      ran x harmless (inl late) = rw late (
          run_task-Waits _ x.task harmless (record {
            found = w.found;
            waits = w.waits;
            alone = w.alone;
            tasks = All-clear (Harmless id e) h t.timers w.tasks;
          }))
      ran x harmless (inr early) = rw early w

  step-Waits :
      (t : DeferralTracker) (c : Call) → Foreign id e c → Waits t id e → Waits (step t c) id e
  unfolding step response_event error_event advance
  step-Waits t (responds event) n w = settled_event-Waits t _ _ n w
  step-Waits t (errors event) n w = settled_event-Waits t _ _ n w
  step-Waits t (promises j) n w = promise-Waits t j w
  step-Waits t (cancels j message) n w = cancel-Waits t j message n w
  step-Waits t (cancels_all message) n w = absurd n
  step-Waits t (deletes j) n w = delete-Waits t j n w
  step-Waits t (advances k) n w = record {
    found = w.found;
    waits = w.waits;
    alone = w.alone;
    tasks = w.tasks;
  }
  step-Waits t (fires h) n w = fire-Waits t h n w

  pub run-Waits :
      (t : DeferralTracker) (calls : List Call)
      → All (Foreign id e) calls
      → Waits t id e
      → Waits (run t calls) id e
  unfolding run
  run-Waits t [] n w = w
  run-Waits t (c ∷ calls) n w = run-Waits (step t c) calls n.1 (step-Waits t c n.0 w)

-- A live request that is tracked under an ID with a pending promise, that no other tracked ID settles and
-- no timer but its own times out or forgets: whatever calls about other IDs come in between, other than
-- cancelling all, and while its own timer does not fire, it is fulfilled by the response with its ID,
-- and rejected by the error event with its ID.
pub run-Waits-response :
    (t : DeferralTracker) (e : ResponseTracker) (calls : List Call) (event : MappedStreamEvent)
    → e.live ≡ true
    → Waits t (shown event.message_id) e
    → All (Foreign (shown event.message_id) e) calls
    → (get_elem? (response_event (run t calls) event).settled e.self ≡ some (fulfilled event))
      × (get_elem? (error_event (run t calls) event).settled e.self
          ≡ some (rejected (failed event)))
unfolding response_event error_event settled_event settle_tracked
run-Waits-response t e calls event live w foreign =
    let after = run-Waits (shown event.message_id) e t calls foreign w in
    let u = run t calls in
    rw (after.found, settled_event)
      (rw (live, settle_tracked, settle_by)
        (
          settle-pending u.settled e.self (fulfilled event) after.waits,
          settle-pending u.settled e.self (rejected (failed event)) after.waits,
        ))
