-- ===== src/Gateway/Fastify.antt =====
-- The Fastify gateway: packages/gateway-fastify/src/stream-plugin.ts. Each route has an awaiter of its own
-- on the topic's streams. Fastify is the environment: it registers the plugin and calls the handlers; what
-- the options of a route say to it is left out.
use streamerson.Prelude.{
  ℕ, zero, suc, ◌+◌, ◌-◌, String, ◌≡◌, Option, none, some, List, [], ◌∷◌, ◌++◌, length,
  length-append, nat_eq, ltb, arith, if◌then◌else◌,
}
use streamerson.Prelude.Value.{Value, undefined, null, obj, end}
use streamerson.Keys.{Topic, consumer_key, producer_key}
use streamerson.Message.{Json}
use streamerson.Redis.{Redis}
use streamerson.Source.{StreamingDataSource}
use streamerson.Awaiter.{StreamAwaiter, Dispatched, new_awaiter, dispatch}

pub record Route : Type 0 where
  pub method : String
  pub url : String
  pub message_type : String

-- The options of the plugin, with the channel that its routes write to.
pub record GatewayOptions : Type 0 where
  pub topic : Topic
  pub timeout : Option ℕ
  pub write_channel : StreamingDataSource

-- `readers` names the awaiter of each reading of a response stream that was begun.
pub record Plugin : Type 0 where
  pub trackers : List StreamAwaiter
  pub routes : List (Route × ℕ)
  pub readers : List ℕ

abbrev pub new_plugin : Plugin
new_plugin = record { trackers = []; routes = []; readers = [] }

-- Requests go to the stream that a consumer of the topic reads, and answers come from the one it writes.
unfoldable pub route_awaiter : GatewayOptions → StreamAwaiter
unfolding new_awaiter
route_awaiter o =
    new_awaiter (some (consumer_key o.topic none)) (producer_key o.topic none) o.write_channel
      o.timeout

indices : ℕ → List ℕ
indices zero = []
indices (suc n) = indices n ++ n ∷ []

-- One turn of the loop over the routes, the loop over all trackers that there are so far included.
unfoldable pub register_route : GatewayOptions → Plugin → Option Route → Plugin
unfolding indices
register_route o p none = p
register_route o p (some r) = record {
  trackers = p.trackers ++ route_awaiter o ∷ [];
  routes = p.routes ++ (r, length p.trackers) ∷ [];
  readers = p.readers ++ indices (suc (length p.trackers));
}

unfoldable pub register_routes : GatewayOptions → Plugin → List (Option Route) → Plugin
unfolding register_route
register_routes o p [] = p
register_routes o p (r ∷ rs) = register_routes o (register_route o p r) rs

-- `request.body ?? {}`: no body, and `null`, is an empty object.
unfoldable pub request_body : Option Value → Value
request_body none = obj none end
request_body (some undefined) = obj none end
request_body (some null) = obj none end
request_body (some v) = v

-- The handler of a route, up to the answer.
unfoldable pub handle_request :
    {S : Type 0}
    → Redis S
    → Json
    → StreamAwaiter
    → Route
    → String
    → Option Value
    → Option String
    → S
    → Dispatched S
unfolding request_body
handle_request redis json a r id body source s =
    dispatch redis a id (json.stringify (request_body body)) r.message_type source none none s

-- How often a number is in a list.
abbrev pub count : ℕ → List ℕ → ℕ
count i [] = 0
count i (j ∷ js) = if nat_eq i j then suc (count i js) else count i js

count-append : (i : ℕ) (js ks : List ℕ) → count i (js ++ ks) ≡ count i js + count i ks
count-append i [] ks = omega arith
count-append i (j ∷ js) ks = ground (arith, count-append i js ks)

count-indices : (i n : ℕ) → count i (indices n) ≡ (if ltb i n then 1 else 0)
unfolding indices
count-indices i zero = ground arith
count-indices i (suc n) = ground (arith, count-append i (indices n) (n ∷ []), count-indices i n)

IsRegistered : Plugin → Type 0
IsRegistered p = (i : ℕ) → count i p.readers ≡ length p.trackers - i

register_route-IsRegistered :
    (o : GatewayOptions) (p : Plugin) (r : Option Route)
    → IsRegistered p
    → IsRegistered (register_route o p r)
unfolding register_route IsRegistered
register_route-IsRegistered o p none h i = h i
register_route-IsRegistered o p (some r) h i = ground (
  arith,
  h i,
  count-append i p.readers (indices (suc (length p.trackers))),
  count-indices i (suc (length p.trackers)),
  length-append p.trackers (route_awaiter o ∷ []),
)

register_routes-IsRegistered :
    (o : GatewayOptions) (p : Plugin) (rs : List (Option Route))
    → IsRegistered p
    → IsRegistered (register_routes o p rs)
unfolding register_routes
register_routes-IsRegistered o p [] h = h
register_routes-IsRegistered o p (r ∷ rs) h =
    register_routes-IsRegistered o (register_route o p r) rs (register_route-IsRegistered o p r h)

-- How many routes there are, without those that are skipped.
abbrev pub present : List (Option Route) → ℕ
present [] = 0
present (none ∷ rs) = present rs
present (some r ∷ rs) = suc (present rs)

length-register_routes :
    (o : GatewayOptions) (p : Plugin) (rs : List (Option Route))
    → length (register_routes o p rs).trackers ≡ length p.trackers + present rs
unfolding register_routes
length-register_routes o p [] = omega arith
length-register_routes o p (none ∷ rs) = length-register_routes o p rs
length-register_routes o p (some r ∷ rs) = omega (
  arith,
  length-register_routes o (register_route o p (some r)) rs,
  length-append p.trackers (route_awaiter o ∷ []),
)

-- After the routes of a gateway were registered, each route that is not skipped has an awaiter, and the
-- response stream of the awaiter at position i is read as many times as there are awaiters from it on:
-- once only for the last.
pub register_routes-readers :
    (o : GatewayOptions) (rs : List (Option Route)) (i : ℕ)
    → (length (register_routes o new_plugin rs).trackers ≡ present rs)
      × (count i (register_routes o new_plugin rs).readers ≡ present rs - i)
unfolding IsRegistered
register_routes-readers o rs i =
    let all : length (register_routes o new_plugin rs).trackers ≡ present rs =
      omega (arith, length-register_routes o new_plugin rs) in
    let read = register_routes-IsRegistered o new_plugin rs (λ j. omega arith) i in
    (all, omega (arith, read))
