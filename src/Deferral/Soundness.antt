-- ===== src/Deferral/Soundness.antt =====
-- In every reachable state, what is tracked and what is scheduled refers to promises and timers that
-- were made.
use streamerson.Prelude.{
  ℕ, zero, suc, ◌*◌, ◌≤◌, ◌<◌, String, ◌≡◌, refl, Bool, true, false, Option, some, List, [], ◌∷◌,
  ◌++◌, arith, ◌==◌, inl, inr, length-append, Option-cases, Bool-cases, length, All, All-append,
  nat_eq, leb,
}
use streamerson.Prelude.Dict
use streamerson.Prelude.Dict.{get-put, get-remove}
use streamerson.Deferral.Tracking.{settle_tracked-promises}
use streamerson.Deferral.{
  DeferralTracker, Settled, pending, fulfilled, rejected, timed_out, settle, ResponseTracker,
  settle_by, settle_tracked, settled_event, Timer, Task, time_out, forget, run_task, response_event,
  error_event, cancel, cancel_each, cancel_all, promise, delete, fire, advance, clear_timeout,
  find_timer, track, Call, responds, errors, promises, cancels, cancels_all, deletes, advances,
  fires, step, run, new_tracker,
}

pub length-settle : (l : List Settled) (p : ℕ) (v : Settled) → length (settle l p v) ≡ length l
unfolding settle
length-settle [] p v = refl
length-settle (pending ∷ l) zero v = refl
length-settle (fulfilled e ∷ l) zero v = refl
length-settle (rejected r ∷ l) zero v = refl
length-settle (x ∷ l) (suc p) v = omega (arith, length-settle l p v)

pub All-clear {κ} :
    (P : Timer → Type κ) (h : ℕ) (ts : List Timer) → All P ts → All P (clear_timeout ts h)
unfolding clear_timeout
All-clear P h [] a = tt
All-clear P h (x ∷ ts) a = elim (Bool-cases (nat_eq x.handle h)) [
  | inl hit ↦ rw hit (All-clear P h ts a.1)
  | inr miss ↦ rw miss (a.0, All-clear P h ts a.1)
]

abbrev pub Below : ℕ → Task → Type 0
Below n (time_out q) = q < n
Below n (forget id) = Unit {0}

Below-mono : (n m : ℕ) (task : Task) → n ≤ m → Below n task → Below m task
Below-mono n m (time_out q) h b = omega arith
Below-mono n m (forget id) h b = tt

All-Below :
    (n m : ℕ) (ts : List Timer)
    → n ≤ m
    → All (λ x. Below n x.task) ts
    → All (λ x. Below m x.task) ts
All-Below n m [] h a = tt
All-Below n m (x ∷ ts) h a = (Below-mono n m x.task h a.0, All-Below n m ts h a.1)

-- Each tracked ID has a promise and a timer that were made, and each timer times out such a promise.
pub record IsSound (t : DeferralTracker) : Type 0 where
  pub entries :
      (j : String) (f : ResponseTracker)
      → Dict.get t.promises j ≡ some f
      → (f.timer < t.next_timer) × (f.self < length t.settled)
  pub tasks : All (λ x. Below (length t.settled) x.task) t.timers

-- A state that tracks less and schedules less, with as many promises, is sound too.
narrower-IsSound :
    (t u : DeferralTracker)
    → IsSound t
    → u.next_timer ≡ t.next_timer
    → length u.settled ≡ length t.settled
    → ((j : String) (f : ResponseTracker)
        → Dict.get u.promises j ≡ some f
        → Dict.get t.promises j ≡ some f)
    → All (λ x. Below (length t.settled) x.task) u.timers
    → IsSound u
narrower-IsSound t u s n l kept ts = record {
  entries = λ j f g. rw n (rw l (s.entries j f (kept j f g)));
  tasks = rw l ts;
}

settle_by_lem :
    (t : DeferralTracker) (f : ResponseTracker) (v : Settled)
    → ((settle_by t f v).timers ≡ t.timers)
      × ((settle_by t f v).next_timer ≡ t.next_timer)
      × (length (settle_by t f v).settled ≡ length t.settled)
unfolding settle_by
settle_by_lem t f v = ground (arith, length-settle t.settled f.self v)

settle_tracked-IsSound :
    (t : DeferralTracker) (f : ResponseTracker) (v : Settled)
    → IsSound t
    → IsSound (settle_tracked t f v)
unfolding settle_tracked
settle_tracked-IsSound t f v s =
    let (kept, next, long) = settle_by_lem t f v in
    narrower-IsSound t (settle_tracked t f v) s next long (λ j g e. rw settle_tracked-promises at e)
      (All-clear (λ x. Below (length t.settled) x.task) f.timer _ (rw kept s.tasks))

delete-IsSound : (t : DeferralTracker) (j : String) → IsSound t → IsSound (delete t j)
unfolding delete
delete-IsSound t j s =
    narrower-IsSound t (delete t j) s refl refl
      (λ k f g. elim (Bool-cases (j == k)) [
        | inl hit ↦ let known = rw get-remove at g in absurd (ground (arith, known))
        | inr miss ↦ let known = rw get-remove at g in rw miss at known
      ])
      s.tasks

track-IsSound :
    (t : DeferralTracker) (j : String) (v : Settled) (live : Bool) (delay : ℕ) (task : Task)
    → Below (suc (length t.settled)) task
    → IsSound t
    → IsSound (track t j v live delay task)
unfolding track
track-IsSound t j v live delay task b s = record {
  entries = λ k f g. elim (Bool-cases (j == k)) [
    | inl hit ↦
        let known = rw get-put at g in
        (ground (arith, known), ground (arith, known, length-append t.settled (v ∷ [])))
    | inr miss ↦
        let known = rw get-put at g in
        let old = s.entries k f (rw miss at known) in
        (omega (arith, old), omega (arith, old, length-append t.settled (v ∷ [])))
  ];
  tasks =
      let long : length (t.settled ++ v ∷ []) ≡ suc (length t.settled) =
        omega (arith, length-append t.settled (v ∷ [])) in
      rw long (
        All-append _ t.timers _ (All-Below (length t.settled) _ t.timers (omega arith) s.tasks)
          (b, tt));
}

settled_event-IsSound :
    (t : DeferralTracker) (j : String) (v : Settled) → IsSound t → IsSound (settled_event t j v)
unfolding settled_event
settled_event-IsSound t j v s = elim (Option-cases (Dict.get t.promises j)) [
  | inl missing ↦
      rw (missing, settled_event) (track-IsSound t j v false (t.timeout * 2) (forget j) tt s)
  | inr (f, found) ↦ rw (found, settled_event) (settle_tracked-IsSound t f v s)
]

cancel-IsSound :
    (t : DeferralTracker) (j : String) (message : Option String)
    → IsSound t
    → IsSound (cancel t j message)
unfolding cancel
cancel-IsSound t j message s = elim (Option-cases (Dict.get t.promises j)) [
  | inl missing ↦ rw (missing, cancel) s
  | inr (f, found) ↦ rw (found, cancel) (delete-IsSound _ j (settle_tracked-IsSound t f _ s))
]

cancel_each-IsSound :
    (ids : List String) (t : DeferralTracker) (message : Option String)
    → IsSound t
    → IsSound (cancel_each t ids message)
unfolding cancel_each
cancel_each-IsSound [] t message s = s
cancel_each-IsSound (j ∷ ids) t message s =
    cancel_each-IsSound ids (cancel t j message) message (cancel-IsSound t j message s)

promise-IsSound : (t : DeferralTracker) (j : String) → IsSound t → IsSound (promise t j).1
unfolding promise
promise-IsSound t j s = elim (Option-cases (Dict.get t.promises j)) [
  | inl missing ↦
      rw (missing, promise)
        (track-IsSound t j pending true t.timeout (time_out (length t.settled)) (omega arith) s)
  | inr (f, found) ↦ rw (found, promise) s
]

run_task-IsSound : (t : DeferralTracker) (task : Task) → IsSound t → IsSound (run_task t task)
unfolding run_task
run_task-IsSound t (time_out q) s =
    narrower-IsSound t (run_task t (time_out q)) s refl
      (length-settle t.settled q (rejected timed_out)) (λ j f g. g) s.tasks
run_task-IsSound t (forget j) s = delete-IsSound t j s

fire-IsSound : (t : DeferralTracker) (h : ℕ) → IsSound t → IsSound (fire t h)
unfolding fire
fire-IsSound t h s = elim (Option-cases (find_timer t.timers h)) [
  | inl missing ↦ rw (missing, fire) s
  | inr (x, found) ↦
      rw (found, fire)
        (elim (Bool-cases (leb x.due t.now)) [
          | inr early ↦ rw early s
          | inl late ↦ rw late (
              run_task-IsSound (record t { timers = clear_timeout t.timers h }) x.task
                (narrower-IsSound t (record t { timers = clear_timeout t.timers h }) s refl refl
                  (λ j f g. g)
                  (All-clear (λ x. Below (length t.settled) x.task) h t.timers s.tasks)))
        ])
]

step-IsSound : (t : DeferralTracker) (c : Call) → IsSound t → IsSound (step t c)
unfolding step response_event error_event cancel_all advance
step-IsSound t (responds event) s = settled_event-IsSound t _ _ s
step-IsSound t (errors event) s = settled_event-IsSound t _ _ s
step-IsSound t (promises j) s = promise-IsSound t j s
step-IsSound t (cancels j message) s = cancel-IsSound t j message s
step-IsSound t (cancels_all message) s = cancel_each-IsSound (Dict.keys t.promises) t message s
step-IsSound t (deletes j) s = delete-IsSound t j s
step-IsSound t (advances n) s = record { entries = s.entries; tasks = s.tasks }
step-IsSound t (fires h) s = fire-IsSound t h s

pub run-IsSound : (t : DeferralTracker) (calls : List Call) → IsSound t → IsSound (run t calls)
unfolding run
run-IsSound t [] s = s
run-IsSound t (c ∷ calls) s = run-IsSound (step t c) calls (step-IsSound t c s)

pub IsSound-new : (timeout : Option ℕ) → IsSound (new_tracker timeout)
unfolding new_tracker Dict.get
IsSound-new timeout = record { entries = λ j f g. cc; tasks = tt }
