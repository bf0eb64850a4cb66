-- ===== src/Deferral/Requests.antt =====
-- A request whose answer has not come before it is asked for is answered by the first event with its ID.
use streamerson.Prelude.{
  ℕ, ◌*◌, String, ◌≡◌, ◌≢◌, refl, sym, Bool, true, false, Option, none, some, List, [], ◌∷◌, arith,
  ◌==◌, eq_iff, eq_refl, inl, inr, get_elem?, get_elem?-append_last, Option-cases, Bool-cases,
  length, All, All-append, leb,
}
use streamerson.Prelude.Text.{shown}
use streamerson.Prelude.Dict
use streamerson.Prelude.Dict.{get-put}
use streamerson.Message.{MappedStreamEvent}
use streamerson.Deferral.Soundness.{IsSound, run-IsSound, IsSound-new, All-clear, Below}
use streamerson.Deferral.Liveness.{promise_new}
use streamerson.Deferral.Waiting.{Waits, Foreign, Harmless, run-Waits-response}
use streamerson.Deferral.{
  DeferralTracker, Settled, pending, fulfilled, rejected, failed, ResponseTracker, settle_by,
  settle_tracked, settled_event, Timer, Task, time_out, forget, run_task, response_event,
  error_event, cancel, cancel_each, cancel_all, promise, delete, fire, advance, clear_timeout,
  find_timer, track, Call, responds, errors, promises, cancels, cancels_all, deletes, advances,
  fires, step, run, new_tracker,
}

-- A call that brings no event with the ID.
abbrev pub Silent : String → Call → Type 0
Silent id (responds event) = shown event.message_id ≢ id
Silent id (errors event) = shown event.message_id ≢ id
Silent id (promises j) = Unit {0}
Silent id (cancels j message) = Unit {0}
Silent id (cancels_all message) = Unit {0}
Silent id (deletes j) = Unit {0}
Silent id (advances n) = Unit {0}
Silent id (fires h) = Unit {0}

module _ (id : String) where
  -- No timer forgets the ID.
  abbrev Keeps : DeferralTracker → Type 0
  Keeps t = All (λ x. x.task ≢ forget id) t.timers

  settle_tracked-Keeps :
      (t : DeferralTracker) (f : ResponseTracker) (v : Settled)
      → Keeps t
      → Keeps (settle_tracked t f v)
  unfolding settle_tracked settle_by
  settle_tracked-Keeps t f v k = elim (Bool-cases f.live) [
    | inl live ↦ rw live (All-clear (λ x. x.task ≢ forget id) f.timer t.timers k)
    | inr dead ↦ rw dead (All-clear (λ x. x.task ≢ forget id) f.timer t.timers k)
  ]

  track-Keeps :
      (t : DeferralTracker) (j : String) (v : Settled) (live : Bool) (delay : ℕ) (task : Task)
      → task ≢ forget id
      → Keeps t
      → Keeps (track t j v live delay task)
  unfolding track
  track-Keeps t j v live delay task n k = All-append (λ x. x.task ≢ forget id) t.timers _ k (n, tt)

  settled_event-Keeps :
      (t : DeferralTracker) (j : String) (v : Settled)
      → j ≢ id
      → Keeps t
      → Keeps (settled_event t j v)
  unfolding settled_event
  settled_event-Keeps t j v n k = elim (Option-cases (Dict.get t.promises j)) [
    | inl missing ↦
        rw (missing, settled_event)
          (track-Keeps t j v false (t.timeout * 2) (forget j) (λ c. n (ground (arith, c))) k)
    | inr (f, found) ↦ rw (found, settled_event) (settle_tracked-Keeps t f v k)
  ]

  cancel-Keeps :
      (t : DeferralTracker) (j : String) (message : Option String)
      → Keeps t
      → Keeps (cancel t j message)
  unfolding cancel delete
  cancel-Keeps t j message k = elim (Option-cases (Dict.get t.promises j)) [
    | inl missing ↦ rw (missing, cancel) k
    | inr (f, found) ↦ rw (found, cancel) (settle_tracked-Keeps t f _ k)
  ]

  cancel_each-Keeps :
      (ids : List String) (t : DeferralTracker) (message : Option String)
      → Keeps t
      → Keeps (cancel_each t ids message)
  unfolding cancel_each
  cancel_each-Keeps [] t message k = k
  cancel_each-Keeps (j ∷ ids) t message k =
      cancel_each-Keeps ids (cancel t j message) message (cancel-Keeps t j message k)

  promise-Keeps : (t : DeferralTracker) (j : String) → Keeps t → Keeps (promise t j).1
  unfolding promise
  promise-Keeps t j k = elim (Option-cases (Dict.get t.promises j)) [
    | inl missing ↦
        rw (missing, promise)
          (track-Keeps t j pending true t.timeout (time_out (length t.settled)) (λ c. cc) k)
    | inr (f, found) ↦ rw (found, promise) k
  ]

  run_task-Keeps : (t : DeferralTracker) (task : Task) → Keeps t → Keeps (run_task t task)
  unfolding run_task delete
  run_task-Keeps t (time_out q) k = k
  run_task-Keeps t (forget j) k = k

  fire-Keeps : (t : DeferralTracker) (h : ℕ) → Keeps t → Keeps (fire t h)
  unfolding fire
  fire-Keeps t h k = elim (Option-cases (find_timer t.timers h)) [
    | inl missing ↦ rw (missing, fire) k
    | inr (x, found) ↦
        rw (found, fire)
          (elim (Bool-cases (leb x.due t.now)) [
            | inr early ↦ rw early k
            | inl late ↦ rw late (
                run_task-Keeps (record t { timers = clear_timeout t.timers h }) x.task
                  (All-clear (λ x. x.task ≢ forget id) h t.timers k))
          ])
  ]

  step-Keeps : (t : DeferralTracker) (c : Call) → Silent id c → Keeps t → Keeps (step t c)
  unfolding step response_event error_event cancel_all delete advance
  step-Keeps t (responds event) n k = settled_event-Keeps t _ _ n k
  step-Keeps t (errors event) n k = settled_event-Keeps t _ _ n k
  step-Keeps t (promises j) n k = promise-Keeps t j k
  step-Keeps t (cancels j message) n k = cancel-Keeps t j message k
  step-Keeps t (cancels_all message) n k = cancel_each-Keeps (Dict.keys t.promises) t message k
  step-Keeps t (deletes j) n k = k
  step-Keeps t (advances m) n k = k
  step-Keeps t (fires h) n k = fire-Keeps t h k

  run-Keeps :
      (t : DeferralTracker) (calls : List Call)
      → All (Silent id) calls
      → Keeps t
      → Keeps (run t calls)
  unfolding run
  run-Keeps t [] s k = k
  run-Keeps t (c ∷ calls) s k = run-Keeps (step t c) calls s.1 (step-Keeps t c s.0 k)

no_timers :
    (timeout : Option ℕ) (id : String) → All (λ x. x.task ≢ forget id) (new_tracker timeout).timers
unfolding new_tracker
no_timers timeout id = tt

-- The entry of a request that is asked for now.
abbrev pub next_request : DeferralTracker → ResponseTracker
next_request t = record { self = length t.settled; live = true; timer = t.next_timer }

All-Harmless :
    (id : String) (e : ResponseTracker) (n : ℕ) (ts : List Timer)
    → n ≡ e.self
    → All (λ x. Below n x.task) ts
    → All (λ x. x.task ≢ forget id) ts
    → All (Harmless id e) ts
All-Harmless id e n [] h b k = tt
All-Harmless id e n (x ∷ ts) h b k = (inr (other x.task b.0, k.0), All-Harmless id e n ts h b.1 k.1)
  where
    other : (task : Task) → Below n task → task ≢ time_out e.self
    other (time_out q) below c = let same : q ≡ e.self = cc in omega arith
    other (forget j) below c = cc

promise-Waits_new :
    (t : DeferralTracker) (id : String)
    → IsSound t
    → All (λ x. x.task ≢ forget id) t.timers
    → Dict.get t.promises id ≡ none
    → Waits (promise t id).1 id (next_request t)
unfolding promise track
promise-Waits_new t id s k fresh =
    rw (fresh, promise)
      (record {
        found = rw get-put (rw (eq_refl id));
        waits = get_elem?-append_last t.settled pending;
        alone = λ j f g n. elim (Bool-cases (id == j)) [
          | inl hit ↦ absurd (n (sym ((eq_iff id j).0 hit)))
          | inr miss ↦
              let known = rw get-put at g in
              let old = s.entries j f (rw miss at known) in (λ same. omega (arith, old, same))
        ];
        tasks =
            All-append (Harmless id (next_request t)) t.timers _
              (All-Harmless id (next_request t) (length t.settled) t.timers refl s.tasks k)
              (inl refl, tt);
      })

-- After any history without an event for an ID that is not tracked, a request asked for under it is
-- fulfilled by the response with its ID, and rejected by the error event with its ID, whatever calls
-- about other IDs come in between, as long as not all are cancelled and its own timer is not run.
pub run-promise-answered :
    (timeout : Option ℕ) (calls later : List Call) (event : MappedStreamEvent)
    → All (Silent (shown event.message_id)) calls
    → Dict.get (run (new_tracker timeout) calls).promises (shown event.message_id) ≡ none
    → All (Foreign (shown event.message_id) (next_request (run (new_tracker timeout) calls))) later
    → (let t = run (new_tracker timeout) calls in
        let (p, asked) = promise t (shown event.message_id) in
        (get_elem? (response_event (run asked later) event).settled p ≡ some (fulfilled event))
        × (get_elem? (error_event (run asked later) event).settled p
            ≡ some (rejected (failed event))))
run-promise-answered timeout calls later event silent fresh foreign =
    let t = run (new_tracker timeout) calls in
    rw (promise_new t (shown event.message_id) fresh) (
      run-Waits-response (promise t (shown event.message_id)).1 (next_request t) later event refl
        (promise-Waits_new t (shown event.message_id)
          (run-IsSound (new_tracker timeout) calls (IsSound-new timeout))
          (run-Keeps (shown event.message_id) (new_tracker timeout) calls silent
            (no_timers timeout (shown event.message_id)))
          fresh)
        foreign)
