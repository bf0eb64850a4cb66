-- ===== src/Deferral/Orders.antt =====
-- A request and its answer meet in either order, or the request times out.
use streamerson.Prelude.{
  String, ◌≡◌, refl, none, some, List, [], ◌∷◌, ◌++◌, get_elem?, get_elem?-append_last, length,
  eq_refl,
}
use streamerson.Prelude.Text.{shown}
use streamerson.Prelude.Dict
use streamerson.Prelude.Dict.{get-put}
use streamerson.Message.{MappedStreamEvent}
use streamerson.Deferral.{
  DeferralTracker, Settled, pending, fulfilled, rejected, failed, settle, settled_event,
  response_event, error_event, promise,
}

pub get_elem?-settle :
    (l : List Settled) (v : Settled)
    → get_elem? (settle (l ++ pending ∷ []) (length l) v) (length l) ≡ some v
unfolding settle
get_elem?-settle [] v = refl
get_elem?-settle (pending ∷ l) v = get_elem?-settle l v
get_elem?-settle (fulfilled e ∷ l) v = get_elem?-settle l v
get_elem?-settle (rejected r ∷ l) v = get_elem?-settle l v

module _ (t : DeferralTracker) (id : String) (v : Settled)
    (fresh : Dict.get t.promises id ≡ none) where
  -- First the request, then the answer.
  promise-settled :
      get_elem? (settled_event (promise t id).1 id v).settled (promise t id).0 ≡ some v
  unfolding promise settled_event
  promise-settled =
      rw (fresh, promise)
        (rw (get-put, settled_event) (rw (eq_refl id) (get_elem?-settle t.settled v)))

  -- First the answer, then the request.
  settled-promise :
      get_elem? (promise (settled_event t id v) id).1.settled (promise (settled_event t id v) id).0
      ≡ some v
  unfolding promise settled_event
  settled-promise =
      rw (fresh, settled_event)
        (rw (get-put, promise) (rw (eq_refl id) (get_elem?-append_last t.settled v)))

-- For an ID that is not tracked, a response fulfils the promise for its ID with the event, and an
-- error event rejects it, whether the promise is asked for before the event arrives or after.
pub promise-either_order :
    (t : DeferralTracker) (event : MappedStreamEvent)
    → Dict.get t.promises (shown event.message_id) ≡ none
    → (let id = shown event.message_id in
        (get_elem? (response_event (promise t id).1 event).settled (promise t id).0
          ≡ some (fulfilled event))
        × (get_elem?
              (promise (response_event t event) id).1.settled
              (promise (response_event t event) id).0
            ≡ some (fulfilled event))
        × (get_elem? (error_event (promise t id).1 event).settled (promise t id).0
            ≡ some (rejected (failed event)))
        × (get_elem?
              (promise (error_event t event) id).1.settled
              (promise (error_event t event) id).0
            ≡ some (rejected (failed event))))
unfolding response_event error_event
promise-either_order t event fresh = (
  promise-settled t (shown event.message_id) (fulfilled event) fresh,
  settled-promise t (shown event.message_id) (fulfilled event) fresh,
  promise-settled t (shown event.message_id) (rejected (failed event)) fresh,
  settled-promise t (shown event.message_id) (rejected (failed event)) fresh,
)
