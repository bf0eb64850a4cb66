-- ===== src/Deferral/Settling.antt =====
-- A promise that has settled stays as it is, whatever happens later.
use streamerson.Prelude.{
  ℕ, zero, suc, String, ◌≡◌, ◌≢◌, refl, ap, Bool, Option, some, List, [], ◌∷◌, arith, get_elem?,
  get_elem?-append_left, Option-cases, inl, inr, true, false, leb, if◌then◌else◌,
}
use streamerson.Prelude.Dict
use streamerson.Deferral.{
  DeferralTracker, Settled, pending, fulfilled, rejected, timed_out, settle, ResponseTracker,
  settle_tracked, settled_event, Task, time_out, forget, run_task, response_event, error_event,
  cancel, cancel_each, cancel_all, promise, delete, fire, advance, Call, responds, errors, promises,
  cancels, cancels_all, deletes, advances, fires, step, run, find_timer,
}

pub settle-done :
    (l : List Settled) (p q : ℕ) (v w : Settled)
    → v ≢ pending
    → get_elem? l p ≡ some v
    → get_elem? (settle l q w) p ≡ some v
unfolding settle
settle-done [] p q v w n h = h
settle-done (pending ∷ l) zero zero v w n h = absurd (n (cc))
settle-done (pending ∷ l) (suc p) zero v w n h = h
settle-done (fulfilled e ∷ l) p zero v w n h = h
settle-done (rejected r ∷ l) p zero v w n h = h
settle-done (x ∷ l) zero (suc q) v w n h = h
settle-done (x ∷ l) (suc p) (suc q) v w n h = settle-done l p q v w n h

pub settle-ne :
    (l : List Settled) (p q : ℕ) (v : Settled) → q ≢ p → get_elem? (settle l q v) p ≡ get_elem? l p
unfolding settle
settle-ne [] p q v n = refl
settle-ne (pending ∷ l) zero zero v n = absurd (n refl)
settle-ne (pending ∷ l) (suc p) zero v n = refl
settle-ne (fulfilled e ∷ l) p zero v n = refl
settle-ne (rejected r ∷ l) p zero v n = refl
settle-ne (x ∷ l) zero (suc q) v n = refl
settle-ne (x ∷ l) (suc p) (suc q) v n = settle-ne l p q v (λ e. n (ap suc e))

pub settle-pending :
    (l : List Settled) (p : ℕ) (v : Settled)
    → get_elem? l p ≡ some pending
    → get_elem? (settle l p v) p ≡ some v
unfolding settle
settle-pending [] p v h = cc
settle-pending (pending ∷ l) zero v h = refl
settle-pending (fulfilled e ∷ l) zero v h = cc
settle-pending (rejected e ∷ l) zero v h = cc
settle-pending (x ∷ l) (suc p) v h = settle-pending l p v h

-- The promise `p` has the value `v` in the tracker.
abbrev pub Has : DeferralTracker → ℕ → Settled → Type 0
Has t p v = get_elem? t.settled p ≡ some v

module _ (p : ℕ) (v : Settled) (done : v ≢ pending) where
  settle_tracked-Has :
      (t : DeferralTracker) (e : ResponseTracker) (w : Settled)
      → Has t p v
      → Has (settle_tracked t e w) p v
  unfolding settle_tracked
  settle_tracked-Has t e w h = ground (arith, settle-done t.settled p e.self v w done h)

  settled_event-Has :
      (t : DeferralTracker) (id : String) (w : Settled) → Has t p v → Has (settled_event t id w) p v
  unfolding settled_event
  settled_event-Has t id w h = elim (Option-cases (Dict.get t.promises id)) [
    | inl missing ↦ rw (missing, settled_event) (get_elem?-append_left t.settled (w ∷ []) p h)
    | inr (e, found) ↦ rw (found, settled_event) (settle_tracked-Has t e w h)
  ]

  cancel-Has :
      (t : DeferralTracker) (id : String) (message : Option String)
      → Has t p v
      → Has (cancel t id message) p v
  unfolding cancel
  cancel-Has t id message h = elim (Option-cases (Dict.get t.promises id)) [
    | inl missing ↦ rw (missing, cancel) h
    | inr (e, found) ↦ rw (found, cancel) (settle_tracked-Has t e _ h)
  ]

  pub cancel_each-Has :
      (ids : List String) (t : DeferralTracker) (message : Option String)
      → Has t p v
      → Has (cancel_each t ids message) p v
  unfolding cancel_each
  cancel_each-Has [] t message h = h
  cancel_each-Has (id ∷ ids) t message h =
      cancel_each-Has ids (cancel t id message) message (cancel-Has t id message h)

  Has-if : (b : Bool) (t u : DeferralTracker) → Has t p v → Has u p v → Has (if b then t else u) p v
  Has-if true t u h k = h
  Has-if false t u h k = k

  run_task-Has : (t : DeferralTracker) (task : Task) → Has t p v → Has (run_task t task) p v
  unfolding run_task
  run_task-Has t (time_out q) h = settle-done t.settled p q v (rejected timed_out) done h
  run_task-Has t (forget id) h = h

  fire-Has : (t : DeferralTracker) (handle : ℕ) → Has t p v → Has (fire t handle) p v
  unfolding fire
  fire-Has t handle h = elim (Option-cases (find_timer t.timers handle)) [
    | inl missing ↦ rw (missing, fire) h
    | inr (x, found) ↦ rw (found, fire) (Has-if (leb x.due t.now) _ t (run_task-Has _ x.task h) h)
  ]

  promise-Has : (t : DeferralTracker) (id : String) → Has t p v → Has (promise t id).1 p v
  unfolding promise
  promise-Has t id h = elim (Option-cases (Dict.get t.promises id)) [
    | inl missing ↦ rw (missing, promise) (get_elem?-append_left t.settled (pending ∷ []) p h)
    | inr (e, found) ↦ rw (found, promise) h
  ]

  step-Has : (t : DeferralTracker) (c : Call) → Has t p v → Has (step t c) p v
  unfolding step response_event error_event promise cancel_all delete advance
  step-Has t (responds event) h = settled_event-Has t _ _ h
  step-Has t (errors event) h = settled_event-Has t _ _ h
  step-Has t (promises id) h = promise-Has t id h
  step-Has t (cancels id message) h = cancel-Has t id message h
  step-Has t (cancels_all message) h = cancel_each-Has (Dict.keys t.promises) t message h
  step-Has t (deletes id) h = h
  step-Has t (advances n) h = h
  step-Has t (fires handle) h = fire-Has t handle h

-- Whatever calls follow, a promise that was fulfilled or rejected keeps its value.
pub run-Has :
    (t : DeferralTracker) (calls : List Call) (p : ℕ) (v : Settled)
    → v ≢ pending
    → get_elem? t.settled p ≡ some v
    → get_elem? (run t calls).settled p ≡ some v
unfolding run
run-Has t [] p v done h = h
run-Has t (c ∷ calls) p v done h = run-Has (step t c) calls p v done (step-Has p v done t c h)
