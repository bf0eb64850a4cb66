-- ===== src/Deferral/Liveness/Arming.antt =====
-- A request whose timer is set stays so, or its promise is settled, whatever call but its timer comes.
use streamerson.Prelude.{
  ℕ, ◌*◌, ◌<◌, String, ◌≡◌, ◌≢◌, refl, ◌∙◌, ◌⊎◌, inl, inr, Bool, true, false, Option, some, List,
  [], ◌∷◌, ◌++◌, arith, get_elem?, get_elem?-append_left, ◌==◌, Option-cases, Bool-cases, nat_eq,
}
use streamerson.Prelude.Dict
use streamerson.Prelude.Dict.{get-put, get-remove}
use streamerson.Deferral.Settling.{Has, run-Has, settle-ne, settle-pending}
use streamerson.Deferral.{
  DeferralTracker, Settled, pending, rejected, cancelled, ResponseTracker, settle_by,
  settle_tracked, settled_event, Timer, Task, time_out, forget, cancel, cancel_each, delete,
  clear_timeout, find_timer, track, Call, cancels, step, run,
}

pub nat_eq-eq : (a b : ℕ) → nat_eq a b ≡ true → a ≡ b
nat_eq-eq a b h = ground arith

pub find_timer-clear_ne :
    (ts : List Timer) (g h : ℕ) → g ≢ h → find_timer (clear_timeout ts g) h ≡ find_timer ts h
unfolding find_timer clear_timeout
find_timer-clear_ne [] g h n = refl
find_timer-clear_ne (x ∷ ts) g h n = ground (arith, find_timer-clear_ne ts g h n)

pub find_timer-append :
    (ts us : List Timer) (h : ℕ) (x : Timer)
    → find_timer ts h ≡ some x
    → find_timer (ts ++ us) h ≡ some x
unfolding find_timer
find_timer-append [] us h x f = cc
find_timer-append (y ∷ ts) us h x f = ground (arith, find_timer-append ts us h x)

-- The request whose promise is `p`, with the timer `h` that is due at `due`.
module _ (p h due : ℕ) where
  abbrev pub own_timer : Timer
  own_timer = record { handle = h; due = due; task = time_out p }

  -- The promise is pending and its timer is set, and that timer is cleared only by settling it.
  pub record IsArmed (t : DeferralTracker) : Type 0 where
    pub waits : get_elem? t.settled p ≡ some pending
    pub timer : find_timer t.timers h ≡ some own_timer
    pub past : h < t.next_timer
    pub owner :
        (j : String) (f : ResponseTracker)
        → Dict.get t.promises j ≡ some f
        → f.timer ≡ h
        → (f.live ≡ true) × (f.self ≡ p)

  abbrev pub IsDone : DeferralTracker → Type 0
  IsDone t = (v : Settled) × (v ≢ pending) × Has t p v

  abbrev pub Guarded : DeferralTracker → Type 0
  Guarded t = IsArmed t ⊎ IsDone t

  pub settle_by-Guarded :
      (t : DeferralTracker) (f : ResponseTracker) (v : Settled)
      → v ≢ pending
      → IsArmed t
      → ((settle_by t f v).timers ≡ t.timers)
        × ((settle_by t f v).promises ≡ t.promises)
        × ((settle_by t f v).next_timer ≡ t.next_timer)
        × ((get_elem? (settle_by t f v).settled p ≡ some pending) ⊎ IsDone (settle_by t f v))
  unfolding settle_by
  settle_by-Guarded t f v n a = elim (Bool-cases f.live) [
    | inr dead ↦ rw dead (refl, refl, refl, inl a.waits)
    | inl live ↦ rw live (elim (Bool-cases (nat_eq f.self p)) [
      | inl same ↦
          let e = nat_eq-eq f.self p same in
          (refl, refl, refl, inr (v, n, rw e (settle-pending t.settled p v a.waits)))
      | inr other ↦
          (refl, refl, refl, inl (settle-ne t.settled p f.self v (ground arith) ∙ a.waits))
    ])
  ]

  pub settle_tracked-Guarded :
      (t : DeferralTracker) (j : String) (f : ResponseTracker) (v : Settled)
      → v ≢ pending
      → Dict.get t.promises j ≡ some f
      → IsArmed t
      → Guarded (settle_tracked t f v)
  unfolding settle_tracked
  settle_tracked-Guarded t j f v n found a =
      let (kept, tracked, next, settled) = settle_by-Guarded t f v n a in
      elim settled [
        | inr done ↦ inr done
        | inl waits ↦ elim (Bool-cases (nat_eq f.timer h)) [
          | inl mine ↦ inr (v, n, settle_own t j f v found a (nat_eq-eq f.timer h mine))
          | inr other ↦ inl (record {
            waits = waits;
            timer = find_timer-clear_ne _ f.timer h (ground arith) ∙ rw kept a.timer;
            past = rw next a.past;
            owner = rw tracked a.owner;
          })
        ]
      ]
    where
      settle_own :
          (t : DeferralTracker) (j : String) (f : ResponseTracker) (v : Settled)
          → Dict.get t.promises j ≡ some f
          → IsArmed t
          → f.timer ≡ h
          → get_elem? (settle_by t f v).settled p ≡ some v
      settle_own t j f v found a mine =
          let (live, self) = a.owner j f found mine in
          rw (live, settle_by) (rw self (settle-pending t.settled p v a.waits))

  pub delete-Guarded : (t : DeferralTracker) (j : String) → Guarded t → Guarded (delete t j)
  unfolding delete
  delete-Guarded t j (inr done) = inr done
  delete-Guarded t j (inl a) = inl (record {
    waits = a.waits;
    timer = a.timer;
    past = a.past;
    owner = λ k f g. a.owner k f (elim (Bool-cases (j == k)) [
      | inl hit ↦ let known = rw get-remove at g in absurd (ground (arith, known))
      | inr miss ↦ let known = rw get-remove at g in rw miss at known
    ]);
  })

  pub track-Guarded :
      (t : DeferralTracker) (j : String) (v : Settled) (live : Bool) (delay : ℕ) (task : Task)
      → IsArmed t
      → Guarded (track t j v live delay task)
  unfolding track
  track-Guarded t j v live delay task a = inl (record {
    waits = get_elem?-append_left t.settled (v ∷ []) p a.waits;
    timer = find_timer-append t.timers _ h own_timer a.timer;
    past = omega (arith, a.past);
    owner = λ k f g m. elim (Bool-cases (j == k)) [
      | inl hit ↦
          let known = rw get-put at g in
          let made : f.timer ≡ t.next_timer = ground (arith, known) in
          absurd (omega (arith, a.past))
      | inr miss ↦ let known = rw get-put at g in a.owner k f (rw miss at known) m
    ];
  })

  pub settled_event-Guarded :
      (t : DeferralTracker) (j : String) (v : Settled)
      → v ≢ pending
      → IsArmed t
      → Guarded (settled_event t j v)
  unfolding settled_event
  settled_event-Guarded t j v n a = elim (Option-cases (Dict.get t.promises j)) [
    | inl missing ↦
        rw (missing, settled_event) (track-Guarded t j v false (t.timeout * 2) (forget j) a)
    | inr (f, found) ↦ rw (found, settled_event) (settle_tracked-Guarded t j f v n found a)
  ]

  pub cancel-Guarded :
      (t : DeferralTracker) (j : String) (message : Option String)
      → IsArmed t
      → Guarded (cancel t j message)
  unfolding cancel
  cancel-Guarded t j message a = elim (Option-cases (Dict.get t.promises j)) [
    | inl missing ↦ rw (missing, cancel) (inl a)
    | inr (f, found) ↦
        rw (found, cancel)
          (delete-Guarded _ j
            (settle_tracked-Guarded t j f (rejected (cancelled message)) (λ c. cc) found a))
  ]

  pub step-IsDone : (t : DeferralTracker) (c : Call) → IsDone t → IsDone (step t c)
  unfolding run
  step-IsDone t c (v, n, done) = (v, n, run-Has t (c ∷ []) p v n done)

  pub cancel_each-Guarded :
      (ids : List String) (t : DeferralTracker) (message : Option String)
      → Guarded t
      → Guarded (cancel_each t ids message)
  unfolding cancel_each step
  cancel_each-Guarded [] t message g = g
  cancel_each-Guarded (j ∷ ids) t message (inl a) =
      cancel_each-Guarded ids (cancel t j message) message (cancel-Guarded t j message a)
  cancel_each-Guarded (j ∷ ids) t message (inr done) =
      cancel_each-Guarded ids (cancel t j message) message
        (inr (step-IsDone t (cancels j message) done))
