-- ===== src/Deferral/Timers.antt =====
-- Timers: their handles are below the next one in every reachable state, and a request without an
-- answer is rejected when its timer fires.
use streamerson.Prelude.{
  ℕ, suc, ◌+◌, ◌*◌, ◌≤◌, ◌<◌, String, ◌≡◌, refl, Option, none, some, List, [], ◌∷◌, ◌++◌, arith,
  get_elem?, Option-cases, inl, inr, true, false, Bool, leb, if◌then◌else◌, length, eq_refl,
  Bool-cases, get_elem?-append_last, All, All-append,
}
use streamerson.Prelude.Dict
use streamerson.Prelude.Dict.{get-put}
use streamerson.Deferral.{
  DeferralTracker, Settled, pending, rejected, timed_out, ResponseTracker, settle_tracked,
  settled_event, Timer, Task, time_out, forget, run_task, response_event, error_event, cancel,
  cancel_each, cancel_all, promise, delete, fire, advance, clear_timeout, find_timer, Call,
  responds, errors, promises, cancels, cancels_all, deletes, advances, fires, step, run,
  new_tracker, track,
}
use streamerson.Deferral.Orders.{get_elem?-settle}

abbrev pub Below : ℕ → List Timer → Type 0
Below n ts = All (λ x. x.handle < n) ts

Below-mono : (n m : ℕ) (ts : List Timer) → n ≤ m → Below n ts → Below m ts
Below-mono n m [] h b = tt
Below-mono n m (x ∷ ts) h b = (omega arith, Below-mono n m ts h b.1)

Below-clear : (n h : ℕ) (ts : List Timer) → Below n ts → Below n (clear_timeout ts h)
unfolding clear_timeout
Below-clear n h [] b = tt
Below-clear n h (x ∷ ts) b = ground (arith, Below-clear n h ts b.1)

abbrev pub Fresh : DeferralTracker → Type 0
Fresh t = Below t.next_timer t.timers

Fresh-if : (b : Bool) (t u : DeferralTracker) → Fresh t → Fresh u → Fresh (if b then t else u)
Fresh-if true t u h k = h
Fresh-if false t u h k = k

settle_tracked-Fresh :
    (t : DeferralTracker) (e : ResponseTracker) (v : Settled)
    → Fresh t
    → Fresh (settle_tracked t e v)
unfolding settle_tracked
settle_tracked-Fresh t e v h = ground (arith, Below-clear t.next_timer e.timer t.timers h)

track-Fresh :
    (t : DeferralTracker) (id : String) (v : Settled) (live : Bool) (delay : ℕ) (task : Task)
    → Fresh t
    → Fresh (track t id v live delay task)
unfolding track
track-Fresh t id v live delay task h =
    All-append _ t.timers _ (Below-mono t.next_timer (suc t.next_timer) t.timers (omega arith) h)
      (omega arith)

settled_event-Fresh :
    (t : DeferralTracker) (id : String) (v : Settled) → Fresh t → Fresh (settled_event t id v)
unfolding settled_event
settled_event-Fresh t id v h = elim (Option-cases (Dict.get t.promises id)) [
  | inl missing ↦
      rw (missing, settled_event) (track-Fresh t id v false (t.timeout * 2) (forget id) h)
  | inr (e, found) ↦ rw (found, settled_event) (settle_tracked-Fresh t e v h)
]

cancel-Fresh :
    (t : DeferralTracker) (id : String) (message : Option String)
    → Fresh t
    → Fresh (cancel t id message)
unfolding cancel
cancel-Fresh t id message h = elim (Option-cases (Dict.get t.promises id)) [
  | inl missing ↦ rw (missing, cancel) h
  | inr (e, found) ↦ rw (found, cancel) (settle_tracked-Fresh t e _ h)
]

cancel_each-Fresh :
    (ids : List String) (t : DeferralTracker) (message : Option String)
    → Fresh t
    → Fresh (cancel_each t ids message)
unfolding cancel_each
cancel_each-Fresh [] t message h = h
cancel_each-Fresh (id ∷ ids) t message h =
    cancel_each-Fresh ids (cancel t id message) message (cancel-Fresh t id message h)

promise-Fresh : (t : DeferralTracker) (id : String) → Fresh t → Fresh (promise t id).1
unfolding promise
promise-Fresh t id h = elim (Option-cases (Dict.get t.promises id)) [
  | inl missing ↦
      rw (missing, promise)
        (track-Fresh t id pending true t.timeout (time_out (length t.settled)) h)
  | inr (e, found) ↦ rw (found, promise) h
]

run_task-Fresh : (t : DeferralTracker) (task : Task) → Fresh t → Fresh (run_task t task)
unfolding run_task
run_task-Fresh t (time_out q) h = h
run_task-Fresh t (forget id) h = h

fire-Fresh : (t : DeferralTracker) (handle : ℕ) → Fresh t → Fresh (fire t handle)
unfolding fire
fire-Fresh t handle h = elim (Option-cases (find_timer t.timers handle)) [
  | inl missing ↦ rw (missing, fire) h
  | inr (x, found) ↦
      rw (found, fire)
        (Fresh-if (leb x.due t.now) _ t
          (run_task-Fresh _ x.task (Below-clear t.next_timer handle t.timers h)) h)
]

step-Fresh : (t : DeferralTracker) (c : Call) → Fresh t → Fresh (step t c)
unfolding step response_event error_event cancel_all delete advance
step-Fresh t (responds event) h = settled_event-Fresh t _ _ h
step-Fresh t (errors event) h = settled_event-Fresh t _ _ h
step-Fresh t (promises id) h = promise-Fresh t id h
step-Fresh t (cancels id message) h = cancel-Fresh t id message h
step-Fresh t (cancels_all message) h = cancel_each-Fresh (Dict.keys t.promises) t message h
step-Fresh t (deletes id) h = h
step-Fresh t (advances n) h = h
step-Fresh t (fires handle) h = fire-Fresh t handle h

pub run-Fresh : (t : DeferralTracker) (calls : List Call) → Fresh t → Fresh (run t calls)
unfolding run
run-Fresh t [] h = h
run-Fresh t (c ∷ calls) h = run-Fresh (step t c) calls (step-Fresh t c h)

pub Fresh-new : (timeout : Option ℕ) → Fresh (new_tracker timeout)
unfolding new_tracker
Fresh-new timeout = tt

pub find_timer-last :
    (n : ℕ) (ts : List Timer) (x : Timer)
    → Below n ts
    → x.handle ≡ n
    → find_timer (ts ++ x ∷ []) n ≡ some x
unfolding find_timer
find_timer-last n [] x b e = ground arith
find_timer-last n (y ∷ ts) x b e = ground (arith, find_timer-last n ts x b.1)

leb-add : (a b c : ℕ) → leb (c + a) (c + b) ≡ leb a b
leb-add a b c = ground arith

fire-promise :
    (t : DeferralTracker) (id : String) (n : ℕ)
    → Fresh t
    → Dict.get t.promises id ≡ none
    → (get_elem? (fire (advance (promise t id).1 n) t.next_timer).settled (promise t id).0
        ≡ some (if leb t.timeout n then rejected timed_out else pending))
      × (Dict.get (fire (advance (promise t id).1 n) t.next_timer).promises id
          ≡ some (record { self = length t.settled; live = true; timer = t.next_timer }))
unfolding promise fire advance
fire-promise t id n b fresh =
    rw (fresh, promise)
      (rw
        (
          find_timer-last t.next_timer t.timers
              (record {
                handle = t.next_timer;
                due = t.now + t.timeout;
                task = time_out (length t.settled);
              })
              b refl,
          fire,
        )
        (rw (leb-add t.timeout n t.now) (elim (Bool-cases (leb t.timeout n)) [
          | inl late ↦
              rw late
                (get_elem?-settle t.settled (rejected timed_out), rw get-put (rw (eq_refl id)))
          | inr early ↦
              rw early (get_elem?-append_last t.settled pending, rw get-put (rw (eq_refl id)))
        ])))

-- After any history, a promise asked for under an ID that is not tracked is still pending if its
-- timer is run before `timeout` has passed. If it is run later, and nothing else happened, the promise
-- is rejected with the timeout error, and its ID is still tracked.
pub promise-times_out :
    (timeout : Option ℕ) (calls : List Call) (id : String) (n : ℕ)
    → (let t = run (new_tracker timeout) calls in Dict.get t.promises id ≡ none)
    → (let t = run (new_tracker timeout) calls in
        let after = fire (advance (promise t id).1 n) t.next_timer in
        (get_elem? after.settled (promise t id).0
          ≡ some (if leb t.timeout n then rejected timed_out else pending))
        × (Dict.get after.promises id
            ≡ some (record { self = length t.settled; live = true; timer = t.next_timer })))
promise-times_out timeout calls id n fresh =
    fire-promise (run (new_tracker timeout) calls) id n
      (run-Fresh (new_tracker timeout) calls (Fresh-new timeout)) fresh
