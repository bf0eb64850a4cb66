-- ===== src/StateMachine/Connection.antt =====
-- Connecting and disconnecting a state machine: packages/state-machine/src/stream-state-machine.ts. The
-- three connections are made at the same time; if several fail, the failure of the state cache is taken for
-- the first and that of the incoming channel for the second. Disconnecting waits for none of them: what they
-- throw is lost.
use streamerson.Prelude.{ℕ, ◌≡◌, Option, none, some, List, [], ◌++◌, arith}
use streamerson.Prelude.Result.{Result, ok, ◌>>◌}
use streamerson.Remote.{Command, disconnect, Dialling, dial_up}
use streamerson.Source.{StreamingDataSource}
use streamerson.Cache.{Lru}
use streamerson.Cache.Listener.{CacheListener, end_cache_listener-throws}
use streamerson.StateCache.Connection.{connect_cache, disconnect_cache}

-- The connections of a state machine: those of its state cache and its two channels.
pub record MachineChannels (C : Type 0) : Type 0 where
  pub state_cache : CacheListener C
  pub incoming_channel : StreamingDataSource
  pub outgoing_channel : Option StreamingDataSource

abbrev connect_optional :
    Option StreamingDataSource → Dialling → Option StreamingDataSource × Result (Unit {0})
connect_optional none x = (none, ok tt)
connect_optional (some d) x =
    let (r, answer) = dial_up d.remote x in (some (record d { remote = r }), answer)

-- `connectAndListen()`, up to the pipe.
unfoldable pub connect_machine :
    {C : Type 0}
    → Lru C
    → MachineChannels C
    → Dialling
    → Dialling
    → Dialling
    → (ℕ → Result ℕ)
    → Dialling
    → Dialling
    → MachineChannels C × Result (Unit {0})
connect_machine lru m a b c subscribes x y =
    let (l, answer) = connect_cache lru m.state_cache a b c subscribes in
    let (r, answer') = dial_up m.incoming_channel.remote x in
    let (outgoing, answer'') = connect_optional m.outgoing_channel y in
    (
      record {
        state_cache = l;
        incoming_channel = record m.incoming_channel { remote = r };
        outgoing_channel = outgoing;
      },
      answer >> (answer' >> answer''),
    )

abbrev disconnect_optional : Option StreamingDataSource → List Command × Option StreamingDataSource
disconnect_optional none = ([], none)
disconnect_optional (some d) =
    let (sent, r, _) = disconnect d.remote in (sent, some (record d { remote = r }))

-- `disconnect()`
unfoldable pub disconnect_machine :
    {C : Type 0} → MachineChannels C → (ℕ → Result (Unit {0})) → List Command × MachineChannels C
disconnect_machine m unsubscribes =
    let ended = disconnect_cache m.state_cache unsubscribes in
    let (sent, r, _) = disconnect m.incoming_channel.remote in
    let (more, outgoing) = disconnect_optional m.outgoing_channel in
    (
      ended.sent ++ (sent ++ more),
      record {
        state_cache = ended.state;
        incoming_channel = record m.incoming_channel { remote = r };
        outgoing_channel = outgoing;
      },
    )

-- Disconnecting a state machine never closes the connection of its state cache, whatever state it is in.
pub disconnect_machine-client :
    {C : Type 0} (m : MachineChannels C) (unsubscribes : ℕ → Result (Unit {0}))
    → (disconnect_machine m unsubscribes).1.state_cache.source.client ≡ m.state_cache.source.client
unfolding disconnect_machine disconnect_cache
disconnect_machine-client m unsubscribes =
    let (throws, same) = end_cache_listener-throws m.state_cache unsubscribes in
    ground (arith, throws, same)
