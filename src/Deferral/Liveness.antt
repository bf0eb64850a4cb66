-- ===== src/Deferral/Liveness.antt =====
-- Every request settles: at the latest when its timer runs after the timeout.
mod Arming
use streamerson.Prelude.{
  ℕ, ◌+◌, ◌*◌, ◌≤◌, ◌<◌, String, ◌≡◌, ◌≢◌, refl, ◌∙◌, ◌⊎◌, inl, inr, Bool, true, false, Option,
  none, some, List, [], ◌∷◌, ◌++◌, arith, get_elem?, get_elem?-append_left, get_elem?-append_last,
  ◌==◌, Option-cases, Bool-cases, length, nat_eq, leb,
}
use streamerson.Prelude.Dict
use streamerson.Prelude.Dict.{get-put, get-remove}
use streamerson.Deferral.Settling.{Has, run-Has, settle-ne, settle-pending}
use streamerson.Deferral.Soundness.{IsSound, run-IsSound, IsSound-new}
use streamerson.Deferral.Timers.{find_timer-last, Fresh, run-Fresh, Fresh-new}
use streamerson.Deferral.{
  DeferralTracker, Settled, pending, fulfilled, rejected, failed, timed_out, cancelled,
  ResponseTracker, settle_by, settle_tracked, settled_event, Timer, Task, time_out, forget,
  run_task, response_event, error_event, cancel, cancel_each, cancel_all, promise, delete, fire,
  advance, clear_timeout, find_timer, track, Call, responds, errors, promises, cancels, cancels_all,
  deletes, advances, fires, step, run, new_tracker,
}
use streamerson.Deferral.Liveness.Arming.{
  own_timer, IsArmed, IsDone, Guarded, settle_by-Guarded, settle_tracked-Guarded, delete-Guarded,
  track-Guarded, settled_event-Guarded, cancel-Guarded, step-IsDone, cancel_each-Guarded,
  cancel_each-Guarded, nat_eq-eq, find_timer-clear_ne, find_timer-append,
}

module _ (p h due : ℕ) where
  promise-Guarded :
      (t : DeferralTracker) (j : String) → IsArmed p h due t → Guarded p h due (promise t j).1
  unfolding promise
  promise-Guarded t j a = elim (Option-cases (Dict.get t.promises j)) [
    | inl missing ↦
        rw (missing, promise)
          (track-Guarded p h due t j pending true t.timeout (time_out (length t.settled)) a)
    | inr (f, found) ↦ rw (found, promise) (inl a)
  ]

  run_task-Guarded :
      (t : DeferralTracker) (task : Task) → IsArmed p h due t → Guarded p h due (run_task t task)
  unfolding run_task
  run_task-Guarded t (forget j) a = delete-Guarded p h due t j (inl a)
  run_task-Guarded t (time_out q) a = elim (Bool-cases (nat_eq q p)) [
    | inl same ↦ inr (
      rejected timed_out,
      (λ c. cc),
      rw (nat_eq-eq q p same) (settle-pending t.settled p (rejected timed_out) a.waits),
    )
    | inr other ↦ inl (record {
      waits = settle-ne t.settled p q _ (ground arith) ∙ a.waits;
      timer = a.timer;
      past = a.past;
      owner = a.owner;
    })
  ]

  -- Its own timer, run when it is due, settles the promise.
  fire-IsDone : (t : DeferralTracker) → due ≤ t.now → IsArmed p h due t → IsDone p h due (fire t h)
  unfolding fire run_task
  fire-IsDone t late a =
      let ran : leb due t.now ≡ true = ground arith in
      rw (a.timer, fire)
        (rw ran
          (rejected timed_out, (λ c. cc), settle-pending t.settled p (rejected timed_out) a.waits))

  fire_other-Guarded :
      (t : DeferralTracker) (g : ℕ) → g ≢ h → IsArmed p h due t → Guarded p h due (fire t g)
  unfolding fire
  fire_other-Guarded t g n a = elim (Option-cases (find_timer t.timers g)) [
    | inl missing ↦ rw (missing, fire) (inl a)
    | inr (x, found) ↦
        rw (found, fire)
          (elim (Bool-cases (leb x.due t.now)) [
            | inr early ↦ rw early (inl a)
            | inl late ↦ rw late (
                run_task-Guarded (record t { timers = clear_timeout t.timers g }) x.task
                  (record {
                    waits = a.waits;
                    timer = find_timer-clear_ne t.timers g h n ∙ a.timer;
                    past = a.past;
                    owner = a.owner;
                  }))
          ])
  ]

  fire-Guarded : (t : DeferralTracker) (g : ℕ) → IsArmed p h due t → Guarded p h due (fire t g)
  unfolding fire
  fire-Guarded t g a = elim (Bool-cases (nat_eq g h)) [
    | inr other ↦ fire_other-Guarded t g (ground arith) a
    | inl same ↦ rw (nat_eq-eq g h same) (elim (Bool-cases (leb due t.now)) [
      | inl late ↦ inr (fire-IsDone t (ground arith) a)
      | inr early ↦ rw (a.timer, fire) (rw early (inl a))
    ])
  ]

  step-IsArmed : (t : DeferralTracker) (c : Call) → IsArmed p h due t → Guarded p h due (step t c)
  unfolding step response_event error_event cancel_all advance
  step-IsArmed t (responds event) a =
      settled_event-Guarded p h due t _ (fulfilled event) (λ c. cc) a
  step-IsArmed t (errors event) a =
      settled_event-Guarded p h due t _ (rejected (failed event)) (λ c. cc) a
  step-IsArmed t (promises j) a = promise-Guarded t j a
  step-IsArmed t (cancels j message) a = cancel-Guarded p h due t j message a
  step-IsArmed t (cancels_all message) a =
      cancel_each-Guarded p h due (Dict.keys t.promises) t message (inl a)
  step-IsArmed t (deletes j) a = delete-Guarded p h due t j (inl a)
  step-IsArmed t (advances n) a =
      inl (record { waits = a.waits; timer = a.timer; past = a.past; owner = a.owner })
  step-IsArmed t (fires g) a = fire-Guarded t g a

  run-Guarded :
      (t : DeferralTracker) (calls : List Call) → Guarded p h due t → Guarded p h due (run t calls)
  unfolding run
  run-Guarded t [] g = g
  run-Guarded t (c ∷ calls) (inl a) = run-Guarded (step t c) calls (step-IsArmed t c a)
  run-Guarded t (c ∷ calls) (inr done) =
      run-Guarded (step t c) calls (inr (step-IsDone p h due t c done))

  fires-IsDone : (t : DeferralTracker) → due ≤ t.now → Guarded p h due t → IsDone p h due (fire t h)
  unfolding step
  fires-IsDone t late (inl a) = fire-IsDone t late a
  fires-IsDone t late (inr done) = step-IsDone p h due t (fires h) done

promise-IsArmed :
    (t : DeferralTracker) (id : String)
    → Fresh t
    → IsSound t
    → Dict.get t.promises id ≡ none
    → IsArmed (length t.settled) t.next_timer (t.now + t.timeout) (promise t id).1
unfolding promise track
promise-IsArmed t id b sound fresh =
    rw (fresh, promise)
      (record {
        waits = get_elem?-append_last t.settled pending;
        timer = find_timer-last t.next_timer t.timers _ b refl;
        past = omega arith;
        owner = λ k f g m. elim (Bool-cases (id == k)) [
          | inl hit ↦ let known = rw get-put at g in (ground (arith, known), ground (arith, known))
          | inr miss ↦
              let known = rw get-put at g in
              absurd (omega (arith, sound.entries k f (rw miss at known)))
        ];
      })

pub promise_new :
    (t : DeferralTracker) (id : String)
    → Dict.get t.promises id ≡ none
    → (promise t id).0 ≡ length t.settled
unfolding promise
promise_new t id fresh = rw (fresh, promise)

-- Every request settles. After any history, for a promise asked for under an ID that is not tracked:
-- whatever calls follow, once the clock has passed the timeout and the request's timer is run, the
-- promise is fulfilled or rejected.
pub run-promise-settles :
    (timeout : Option ℕ) (calls : List Call) (id : String) (later : List Call)
    → (let t = run (new_tracker timeout) calls in Dict.get t.promises id ≡ none)
    → (let t = run (new_tracker timeout) calls in
        t.now + t.timeout ≤ (run (promise t id).1 later).now)
    → (let t = run (new_tracker timeout) calls in
        let p = (promise t id).0 in
        (v : Settled) × (v ≢ pending)
        × (get_elem? (fire (run (promise t id).1 later) t.next_timer).settled p ≡ some v))
run-promise-settles timeout calls id later fresh late =
    let t = run (new_tracker timeout) calls in
    let armed =
      promise-IsArmed t id (run-Fresh (new_tracker timeout) calls (Fresh-new timeout))
        (run-IsSound (new_tracker timeout) calls (IsSound-new timeout)) fresh in
    rw (promise_new t id fresh) (
      fires-IsDone (length t.settled) t.next_timer (t.now + t.timeout) (run (promise t id).1 later)
        late
        (run-Guarded (length t.settled) t.next_timer (t.now + t.timeout) (promise t id).1 later
          (inl armed)))
