-- ===== src/Tests/Deferrals.antt =====
-- The tracker of deferred promises and the awaiter at concrete inputs.
use streamerson.Prelude.{
  ◌≡◌, refl, ◌≢◌, eq_iff, arith, true, none, some, [], ◌∷◌, get_elem?, leb, length, if◌then◌else◌,
}
use streamerson.Prelude.Dict
use streamerson.Message.{MappedStreamEvent}
use streamerson.Deferral.{
  DeferralTracker, ResponseTracker, Settled, pending, fulfilled, rejected, failed, timed_out,
  new_tracker, promise, response_event, error_event, fire, advance, run, responds, promises,
  deletes, advances,
}
use streamerson.Deferral.Orders.{promise-either_order}
use streamerson.Deferral.Timers.{promise-times_out}
use streamerson.Deferral.Requests.{run-promise-answered}
use streamerson.Deferral.Liveness.{run-promise-settles}
use streamerson.Awaiter.{StreamAwaiter, dispatch, resume, returned, on_response}
use streamerson.Awaiter.Dispatching.{dispatch-response}
use streamerson.Tests.Fixtures.{server, channel, greeting}

-- A tracker with one request, under the ID "m".
abbrev asked : DeferralTracker
asked = record {
  timeout = 3000;
  promises = ("m", record { self = 0; live = true; timer = 1 }) ∷ [];
  settled = pending ∷ [];
  timers = record { handle = 1; due = 3000; task = streamerson.Deferral.time_out 0 } ∷ [];
  next_timer = 2;
  now = 0;
}

abbrev request : ResponseTracker
request = record { self = 0; live = true; timer = 1 }

abbrev farewell : MappedStreamEvent
farewell = record greeting { message_id = some "n" }

run-promise-answered_example :
    (let t = run (new_tracker none) (promises "k" ∷ []) in
      (get_elem?
          (response_event
            (run (promise t "m").1 (responds farewell ∷ advances 10 ∷ []))
            greeting).settled
          1
        ≡ some (fulfilled greeting))
      × (get_elem?
            (error_event
              (run (promise t "m").1 (responds farewell ∷ advances 10 ∷ []))
              greeting).settled
            1
          ≡ some (rejected (failed greeting))))
unfolding promise new_tracker run Dict.get streamerson.Deferral.step Dict.put
run-promise-answered_example =
    run-promise-answered none (promises "k" ∷ []) (responds farewell ∷ advances 10 ∷ []) greeting
      (tt, tt) refl ((λ e. ground (arith, eq_iff "n" "m", e)), (tt, tt))

run-promise-settles_example :
    (let t = run (new_tracker none) (promises "k" ∷ []) in
      (v : Settled) × (v ≢ pending)
      × (get_elem?
            (fire
              (run (promise t "m").1 (responds farewell ∷ advances 9000 ∷ []))
              t.next_timer).settled
            1
          ≡ some v))
unfolding promise new_tracker run Dict.get streamerson.Deferral.step Dict.put advance
run-promise-settles_example =
    run-promise-settles none (promises "k" ∷ []) "m" (responds farewell ∷ advances 9000 ∷ []) refl
      (omega arith)

promise-either_order_example :
    (let t = new_tracker none in
      (get_elem? (response_event (promise t "m").1 greeting).settled (promise t "m").0
        ≡ some (fulfilled greeting))
      × (get_elem?
            (promise (response_event t greeting) "m").1.settled
            (promise (response_event t greeting) "m").0
          ≡ some (fulfilled greeting))
      × (get_elem? (error_event (promise t "m").1 greeting).settled (promise t "m").0
          ≡ some (rejected (failed greeting)))
      × (get_elem?
            (promise (error_event t greeting) "m").1.settled
            (promise (error_event t greeting) "m").0
          ≡ some (rejected (failed greeting))))
unfolding new_tracker Dict.get
promise-either_order_example = promise-either_order (new_tracker none) greeting refl

promise-times_out_example :
    (let t = run (new_tracker none) [] in
      let after = fire (advance (promise t "m").1 3000) t.next_timer in
      (get_elem? after.settled (promise t "m").0
        ≡ some (if leb t.timeout 3000 then rejected timed_out else pending))
      × (Dict.get after.promises "m"
          ≡ some (record { self = length t.settled; live = true; timer = t.next_timer })))
unfolding new_tracker run Dict.get
promise-times_out_example = promise-times_out none [] "m" 3000 refl

abbrev awaiter : StreamAwaiter
awaiter = record {
  tracker = record asked { promises = []; settled = []; timers = []; next_timer = 1 };
  outgoing_stream = some "out";
  incoming_stream = "in";
  write_channel = channel;
}

dispatch-response_example :
    (let d = dispatch server awaiter "m" "hello" "greet" none none none 0 in
      let b = on_response d.awaiter greeting in
      (get_elem? b.tracker.settled 0 ≡ some (fulfilled greeting))
      × ((resume b "m" (fulfilled greeting)).0 ≡ returned greeting.payload)
      × (Dict.get (resume b "m" (fulfilled greeting)).1.tracker.promises "m" ≡ none))
unfolding Dict.get dispatch promise streamerson.Source.write_to_stream
    streamerson.Source.with_client
dispatch-response_example =
    dispatch-response server awaiter "hello" "greet" none none none 0 greeting 0 refl refl
