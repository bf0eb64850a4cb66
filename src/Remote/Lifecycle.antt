-- ===== src/Remote/Lifecycle.antt =====
-- Connecting and disconnecting, over every history of calls.
use streamerson.Prelude.{ℕ, String, ◌≡◌, refl, Bool, false, none, List, [], ◌∷◌, arith, or_else}
use streamerson.Prelude.Result.{ok, err}
use streamerson.Remote.{
  DataSourceOptions, RedisDataSource, quit, new_source, abort, disconnect, connect,
}

-- The calls that change a source.
pub data Call : Type 0 where
  connects : ℕ → ℕ → (ℕ → String) → Call
  disconnects : Call

unfoldable pub step : RedisDataSource → Call → RedisDataSource
step s (connects c k pong) = (connect s c k pong).0
step s disconnects = (disconnect s).1

unfoldable pub run : RedisDataSource → List Call → RedisDataSource
run s [] = s
run s (c ∷ cs) = run (step s c) cs

record IsUncontrolled (s : RedisDataSource) : Type 0 where
  off : s.options.controllable ≡ false
  no_control : s.control ≡ none
  no_id : s.client_id ≡ none

step-IsUncontrolled :
    (s : RedisDataSource) (c : Call) → IsUncontrolled s → IsUncontrolled (step s c)
unfolding step connect disconnect
step-IsUncontrolled s (connects c k pong) u = ground arith
step-IsUncontrolled s disconnects u = ground arith

run-IsUncontrolled :
    (s : RedisDataSource) (cs : List Call) → IsUncontrolled s → IsUncontrolled (run s cs)
unfolding run
run-IsUncontrolled s [] u = u
run-IsUncontrolled s (c ∷ cs) u = run-IsUncontrolled (step s c) cs (step-IsUncontrolled s c u)

IsUncontrolled-new : (o : DataSourceOptions) → IsUncontrolled (new_source o)
unfolding new_source
IsUncontrolled-new o = record { off = refl; no_control = refl; no_id = refl }

abort-nothing : (s : RedisDataSource) (error : Bool) → IsUncontrolled s → abort s error ≡ []
unfolding abort
abort-nothing s error u = ground arith

-- Whatever its options ask for, and after any history of calls, a source never opens a control
-- connection, and `abort` sends nothing.
pub run-new_source-uncontrolled :
    (o : DataSourceOptions) (cs : List Call) (error : Bool)
    → ((run (new_source o) cs).control ≡ none) × (abort (run (new_source o) cs) error ≡ [])
run-new_source-uncontrolled o cs error =
    let u = run-IsUncontrolled (new_source o) cs (IsUncontrolled-new o) in
    (u.no_control, abort-nothing (run (new_source o) cs) error u)

-- After any history of calls, connecting and then disconnecting closes the one connection that was
-- opened, returns normally, and leaves no client; a second disconnect throws and closes nothing.
pub disconnect-connect :
    (o : DataSourceOptions) (cs : List Call) (fresh fresh_control : ℕ) (pong : ℕ → String)
    → (let s = (connect (run (new_source o) cs) fresh fresh_control pong).0 in
        ((disconnect s).0 ≡ quit (or_else s.options.get_connection fresh) ∷ [])
        × ((disconnect s).2 ≡ ok tt)
        × ((disconnect s).1.client ≡ none)
        × ((disconnect (disconnect s).1).0 ≡ [])
        × ((disconnect (disconnect s).1).2
            ≡ err "StreamingDataSource client called before initialization"))
unfolding connect disconnect
disconnect-connect o cs fresh fresh_control pong =
    let u = run-IsUncontrolled (new_source o) cs (IsUncontrolled-new o) in
    let off = u.off in ground (arith, off)
