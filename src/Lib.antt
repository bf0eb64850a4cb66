-- ===== src/Lib.antt =====
-- Streamerson: streams of messages over Redis, and what is built on them.
--
-- The program's packages exchange messages through Redis streams. A topic names two streams, one that a
-- consumer reads and one that it writes. A streaming data source, on top of a connection to Redis, writes
-- messages as stream entries and reads them back in batches, which an endless iterator yields one by one.
-- A consumer pipes what the iterator yields through its handlers, and writes their answers; a member of a
-- consumer group acknowledges what it has processed. A stream awaiter turns a pair of streams into requests
-- with answers: it writes a request, and waits for a promise of a tracker that the answer with the same ID
-- settles. A cached data source keeps the state of a state machine in a cache beside Redis. A state
-- emitter merges updates into a state in memory, and tells its listeners which paths have changed. Gateways
-- let requests from outside in: a Fastify route dispatches each request through an awaiter of its own, and a
-- WebSocket route writes the messages of its sockets to a topic and publishes what it reads to their tokens.
--
-- Which file models which part:
--   Prelude/       truthiness, results of code that throws, dictionaries, JavaScript values, decimal texts
--   Keys           packages/core/src/utils/keys.ts and topic.ts (Topic, consumerKey, producerKey, ...)
--   Message        packages/core/src/types.ts, and the serialisation in datasource/streamable.ts
--   Remote         packages/core/src/datasource/base/remote.ts (RedisDataSource)
--   Redis          the interface of the Redis client
--   Source         packages/core/src/datasource/streamable.ts (StreamingDataSource): writes, keys, groups
--   Source/Read    its blockingStreamBatchMap, readAsSingle and readAsGroup
--   Source/Iterate its iterateStream and getReadStream
--   Deferral       packages/core/src/deferral/deferred-promise-tracker.ts (DeferralTracker)
--   Awaiter        packages/core/src/deferral/stream-awaiter.ts (StreamAwaiter, streamAwaiter)
--   Consumer       packages/consumer/src/stream-consumer.ts (StreamConsumer); Consumer/Pipe is the pipe that
--                  connectAndListen builds
--   Group          packages/consumer-group/src (config.ts, group.ts, member.ts, utils.ts), and
--                  packages/core/src/utils/connectedTopic.ts
--   Cache          packages/state-machine/src/datasources/cacheable.ts (CacheableDataSource)
--   StateCache     packages/state-machine/src/state-cache.ts (StateCache)
--   StateMachine   packages/state-machine/src/stream-state-machine.ts (StreamStateMachine)
--   Emitter        packages/emitter/emitter.ts (StateEmitter, deepMerge)
--   Gateway        Gateway/Fastify is packages/gateway-fastify/src/stream-plugin.ts (CreateGatewayPlugin), and
--                  Gateway/Sockets packages/gateway-wss/src/wssapi.ts (WebSocketServer); Gateway/Service puts a
--                  Fastify route and a consumer of its topic together
--   Support        packages/core/src/errors (ExtendedError, withExtendedErrors), and utils/environment.ts,
--                  logger.ts and streamConfiguration.ts of packages/core/src
--   Benchmarks     packages/benchmarking: Writers and Readers are src/utils/writers.ts and readers.ts, Definitions
--                  src/core_modules/definitions.ts, Stages iterateTimedEvents.ts, report.ts and contexts.ts of
--                  src/utils, Programs three programs of src/core_modules, and Summary
--                  tools/summarizeResults.ts; Runner and LoadTest are tools/run-benchmark.ts and
--                  run-load-test.ts at the root; Streamer is createFrameworkStreamer of readers.ts, and Process
--                  request.ts, shutdown.ts and config.ts; Pipeline puts reports and their summary together
--   Crud           datastore.ts and crud.ts of packages/examples/app-basic-crud
--   Tests          the theorems at concrete inputs
-- The other files below a part hold its theorems. Names are those of the source in lower case with
-- underscores: `write_to_stream` is `writeToStream`.
--
-- State is passed explicitly: an operation takes its object and the state of the Redis server, and
-- gives its result, the new object and the new server. What throws gives a `Result` with the message of
-- the error. The commands of the client (ioredis), JSON and the cache (lru-cache) are interfaces with
-- the few laws that their records name; what Redis documents of XREAD, and uWebSockets of its
-- subscriptions, is a hypothesis where a theorem needs it. The entries of the cache live for 600
-- seconds, and time passes for it in steps; a count is a whole number of at most 2^53 in size, which is
-- exact as a double. An asynchronous operation that waits is two functions, before and after the wait,
-- so that other calls may come in between; timers and the clock of the tracker are part of its state,
-- and its histories are lists of calls. A run of the iterator is a list of turns, in each of which the
-- environment says what wins the race. A run of a WebSocket route is a list of steps: a message that
-- comes, an onMessage callback that returns or throws, a chunk that is done, an event that is read. On
-- fuel run the printing of a number, whose fuel is above the number, and the loops of the benchmarks,
-- for which one turn more than there are messages is enough (but the framework's reader goes on for as
-- long as Redis has nothing), and a request that is tried again, for which five units are enough. A run
-- of all benchmarks is the list of the commands that it issues.
--
-- The constructor of the state machine throws as it stands; its other operations are modelled on a machine
-- as that means to make it, and no result below is about one.
--
-- Not modelled: logging, but for that of withExtendedErrors; the machinery of node's streams beyond the
-- order in which it calls back; what uWebSockets and Fastify do; the drawing of identifiers; what the
-- constructor of the state machine does beside making its transfer channel; the table of the summary,
-- which has floating point numbers; the framework's reading benchmarks, tools/embed.ts, the other
-- examples and the scripts of the deployment.
pub mod Prelude
pub mod Keys
pub mod Message
pub mod Remote
pub mod Redis
pub mod Source
pub mod Deferral
pub mod Awaiter
pub mod Consumer
pub mod Group
pub mod Cache
pub mod StateCache
pub mod StateMachine
pub mod Emitter
pub mod Gateway
pub mod Support
pub mod Benchmarks
pub mod Crud
pub mod Tests
