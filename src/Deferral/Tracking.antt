-- ===== src/Deferral/Tracking.antt =====
-- What the calls do to the IDs that are tracked.
use streamerson.Prelude.{
  String, ◌≡◌, ◌==◌, Option, none, arith, eq_iff, Option-cases, inl, inr, if◌then◌else◌,
}
use streamerson.Prelude.Dict
use streamerson.Prelude.Dict.{get-remove}
use streamerson.Deferral.{
  DeferralTracker, ResponseTracker, Settled, rejected, cancelled, settle_tracked, cancel, delete,
}

pub settle_tracked-promises :
    (t : DeferralTracker) (e : ResponseTracker) (v : Settled)
    → (settle_tracked t e v).promises ≡ t.promises
unfolding settle_tracked
settle_tracked-promises t e v = ground arith

pub get-cancel :
    (t : DeferralTracker) (id k : String) (message : Option String)
    → Dict.get (cancel t id message).promises k ≡ (if id == k then none else Dict.get t.promises k)
unfolding cancel delete
get-cancel t id k message = elim (Option-cases (Dict.get t.promises id)) [
  | inl missing ↦ rw (missing, cancel) (ground (arith, eq_iff id k))
  | inr (e, found) ↦
      rw (found, cancel)
        (rw (get-remove, settle_tracked-promises t e (rejected (cancelled message))))
]
