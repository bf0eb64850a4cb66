-- ===== src/Consumer/Connection.antt =====
-- Connecting and disconnecting a consumer: `connectAndListen`, up to its pipe, and `disconnect` of
-- packages/consumer/src/stream-consumer.ts. The outgoing channel is given with the consumer. Both
-- channels are connected at the same time; if both fail, the failure of the incoming one is taken for the
-- first. Disconnecting waits for neither channel, so what they throw is lost.
use streamerson.Prelude.{ℕ, ◌≡◌, false, Option, none, some, List, [], ◌∷◌, ◌++◌, or_else, arith}
use streamerson.Prelude.Result.{Result, ok, ◌>>◌}
use streamerson.Remote.{Command, quit, client_of, connect, disconnect, Dialling, dial_up}
use streamerson.Source.{StreamingDataSource}
use streamerson.Consumer.{StreamConsumer}

-- A consumer with the channel that it writes to, if any.
pub record Wired : Type 0 where
  pub consumer : StreamConsumer
  pub outgoing : Option StreamingDataSource

abbrev connect_channel : StreamingDataSource → Dialling → StreamingDataSource × Result (Unit {0})
connect_channel d x = let (r, answer) = dial_up d.remote x in (record d { remote = r }, answer)

abbrev connect_outgoing :
    Option StreamingDataSource → Dialling → Option StreamingDataSource × Result (Unit {0})
connect_outgoing none x = (none, ok tt)
connect_outgoing (some d) x = let (d', answer) = connect_channel d x in (some d', answer)

unfoldable pub connect_consumer : Wired → Dialling → Dialling → Wired × Result (Unit {0})
connect_consumer w x y =
    let (incoming, answer) = connect_channel w.consumer.incoming_channel x in
    let (outgoing, answer') = connect_outgoing w.outgoing y in
    (
      record { consumer = record w.consumer { incoming_channel = incoming }; outgoing = outgoing },
      answer >> answer',
    )

abbrev disconnect_channel : StreamingDataSource → List Command × StreamingDataSource
disconnect_channel d =
    let (sent, r, answer) = disconnect d.remote in (sent, record d { remote = r })

abbrev disconnect_outgoing : Option StreamingDataSource → List Command × Option StreamingDataSource
disconnect_outgoing none = ([], none)
disconnect_outgoing (some d) = let (sent, d') = disconnect_channel d in (sent, some d')

unfoldable pub disconnect_consumer : Wired → List Command × Wired
disconnect_consumer w =
    let (sent, incoming) = disconnect_channel w.consumer.incoming_channel in
    let (more, outgoing) = disconnect_outgoing w.outgoing in
    (
      sent ++ more,
      record { consumer = record w.consumer { incoming_channel = incoming }; outgoing = outgoing },
    )

abbrev opened : StreamingDataSource → Dialling → ℕ
opened d x = or_else d.remote.options.get_connection x.fresh

-- Connecting and then disconnecting a consumer with an outgoing channel, whose channels are not
-- controllable (no new one is), closes both connections that were opened, the incoming one first, whether
-- or not they answered, and leaves neither channel a client; disconnecting again sends nothing.
pub disconnect_consumer-connect_consumer :
    (w : Wired) (out : StreamingDataSource) (x y : Dialling)
    → w.consumer.incoming_channel.remote.options.controllable ≡ false
    → out.remote.options.controllable ≡ false
    → w.outgoing ≡ some out
    → (let (sent, closed) = disconnect_consumer (connect_consumer w x y).0 in
        (sent ≡ quit (opened w.consumer.incoming_channel x) ∷ quit (opened out y) ∷ [])
        × (closed.consumer.incoming_channel.remote.client ≡ none)
        × ((disconnect_consumer closed).0 ≡ []))
unfolding disconnect_consumer connect_consumer connect disconnect client_of
disconnect_consumer-connect_consumer w out x y i o h = ground (arith, i, o, h)
