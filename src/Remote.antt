-- ===== src/Remote.antt =====
-- The connection to Redis: packages/core/src/datasource/base/remote.ts.
-- A connection is a number that the environment chooses; the answer to PING and what the object
-- tells its connections and its logger are part of the model.
pub mod Lifecycle
use streamerson.Prelude.{
  ℕ, String, Bool, true, false, ◌&&◌, Option, none, some, List, [], ◌∷◌, ◌++◌, is_some, ltb,
  if◌then◌else◌, ◌==◌, truthy, or_else,
}
use streamerson.Prelude.Result.{Result, ok, err, ◌>>=◌, ◌>>◌, guard}

-- `DataSourceOptions`. `get_connection` is the connection that a shared factory hands out.
pub record DataSourceOptions : Type 0 where
  pub get_connection : Option ℕ
  pub port : Option ℕ
  pub host : Option String
  pub controllable : Bool

-- What is said to a connection.
pub data Command : Type 0 where
  dial : ℕ → String → Bool → Command
  client_unblock : ℕ → Bool → Command
  quit : ℕ → Command

pub record RedisDataSource : Type 0 where
  pub options : DataSourceOptions
  pub client : Option ℕ
  pub control : Option ℕ
  pub client_id : Option ℕ

abbrev pub default_port : ℕ
default_port = 6379

abbrev pub default_host : String
default_host = "localhost"

-- The constructor switches the control connection off, whatever the options say.
unfoldable pub new_source : DataSourceOptions → RedisDataSource
new_source o = record {
  options = record o { controllable = false };
  client = none;
  control = none;
  client_id = none;
}

-- The getters `client` and `control`.
unfoldable pub client_of : RedisDataSource → Result ℕ
client_of s = elim s.client [
  | none ↦ err "StreamingDataSource client called before initialization"
  | some c ↦ ok c
]

unfoldable pub control_of : RedisDataSource → Result ℕ
control_of s = elim s.control [
  | none ↦ err "Error getting control connection"
  | some c ↦ if s.options.controllable then ok c else err "Error getting control connection"
]

-- `abort(error)`: a client ID of 0 is falsy.
unblock : Option ℕ → Option ℕ → Bool → List Command
unblock none id error = []
unblock (some control) none error = []
unblock (some control) (some id) error = if ltb 0 id then client_unblock id error ∷ [] else []

unfoldable pub abort : RedisDataSource → Bool → List Command
unfolding unblock
abort s error = unblock s.control s.client_id error

-- `disconnect()`: what was sent, the new state, and whether it threw.
close_client : RedisDataSource → List Command → List Command × RedisDataSource × Result (Unit {0})
unfolding client_of
close_client s sent = elim (client_of s) [
  | ok c ↦ (sent ++ quit c ∷ [], record s { client = none }, ok tt)
  | err e ↦ (sent, s, err e)
]

close_control : RedisDataSource → List Command → List Command × RedisDataSource × Result (Unit {0})
unfolding control_of close_client
close_control s sent = elim (control_of s) [
  | ok c ↦ close_client (record s { control = none }) (sent ++ quit c ∷ [])
  | err e ↦ (sent, s, err e)
]

unfoldable pub disconnect : RedisDataSource → List Command × RedisDataSource × Result (Unit {0})
unfolding close_control close_client abort
disconnect s = if s.options.controllable then close_control s (abort s false) else close_client s []

-- `retry(times)`: the wait in milliseconds, or `null` to give up.
unfoldable pub retry : ℕ → Option ℕ
retry times = if ltb times 3 then some 5000 else none

-- The argument of the error listeners, and what they log under their message.
pub data Failure : Type 0 where
  error : String → Failure
  text : String → Failure
  null : Failure

pub data LogEntry : Type 0 where
  raw : String → String → LogEntry
  labelled : String → String → LogEntry

log_failure : String → String → Failure → LogEntry
log_failure message unknown (error e) = raw e message
log_failure message unknown (text s) =
    if truthy s then labelled s message else labelled unknown message
log_failure message unknown null = labelled unknown message

unfoldable pub data_error : Failure → LogEntry
unfolding log_failure
data_error f =
    log_failure "Redis data connection emitted unhandled error" "Unknown error from data connection"
      f

unfoldable pub control_error : Failure → LogEntry
unfolding log_failure
control_error f =
    log_failure "Redis control connection emitted unhandled error"
      "Unknown error from control connection" f

-- `new Redis(port, host, …)` gives the connection that the environment names.
dialled : DataSourceOptions → ℕ → Bool → List Command
dialled o fresh pipelined = elim o.get_connection [
  | none ↦ dial (or_else o.port default_port) (or_else o.host default_host) pipelined ∷ []
  | some c ↦ []
]

handle : DataSourceOptions → ℕ → ℕ
handle o fresh = or_else o.get_connection fresh

-- The connections that `connect()` opens.
unfoldable pub open_connections : RedisDataSource → ℕ → ℕ → List Command × RedisDataSource
unfolding dialled handle
open_connections s fresh fresh_control =
    if s.options.controllable
    then (
      dialled s.options fresh true ++ dialled s.options fresh_control false,
      record s {
        client = some (handle s.options fresh);
        control = some (handle s.options fresh_control);
      },
    )
    else (dialled s.options fresh true, record s { client = some (handle s.options fresh) })

answered : String → String → Result (Unit {0})
answered pong message = guard (pong == "PONG") message

-- `connect()`: both connections must answer PING with PONG.
unfoldable pub connect :
    RedisDataSource → ℕ → ℕ → (ℕ → String) → RedisDataSource × Result (Unit {0})
unfolding open_connections answered
connect s fresh fresh_control pong =
    let opened = (open_connections s fresh fresh_control).1 in (opened, checked opened)
  where
    control_answered : RedisDataSource → Result (Unit {0})
    control_answered r =
        if r.options.controllable
        then answered (pong (or_else r.control 0))
            "Control connection established but unable to complete PINGPONG"
        else ok tt

    checked : RedisDataSource → Result (Unit {0})
    checked r =
        answered (pong (or_else r.client 0))
          "Connection established but unable to complete PINGPONG"
        >> control_answered r

-- What the environment makes of a `connect()`: the connections that it names, and what they answer.
pub record Dialling : Type 0 where
  pub fresh : ℕ
  pub fresh_control : ℕ
  pub pong : ℕ → String

abbrev pub dial_up : RedisDataSource → Dialling → RedisDataSource × Result (Unit {0})
dial_up r d = connect r d.fresh d.fresh_control d.pong
