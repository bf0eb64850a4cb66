-- ===== src/Group/Connection.antt =====
-- The connection of a consumer group's topic: packages/core/src/utils/connectedTopic.ts, with clone and
-- connectAndListen of packages/consumer-group/src/member.ts and createConsumerGroup of utils.ts. The
-- constructor begins to connect, and `connect` waits for what became of that.
use streamerson.Prelude.{
  ℕ, String, ◌≡◌, Bool, true, false, Option, none, List, or_else, arith, if◌then◌else◌,
}
use streamerson.Prelude.Result.{Result, ok, err, is_ok, map_ok}
use streamerson.Prelude.Dict.{Dict}
use streamerson.Keys.{Topic, TopicOptions, new_topic, consumer_key}
use streamerson.Remote.{Command, client_of, disconnect, DataSourceOptions, Dialling, dial_up}
use streamerson.Redis.{Redis}
use streamerson.Source.{StreamingDataSource, new_streaming_source, create_consumer_group}
use streamerson.Consumer.{Handler}
use streamerson.Consumer.Connection.{connect_consumer}
use streamerson.Group.{ConsumerGroupTopic, ConsumerGroupMember, new_member}
use streamerson.Group.Config.{
  ConsumerGroupConfig, ConsumerGroupOptions, create_consumer_group_config,
}

-- `ConnectedTopic`: its connection was begun, with what became of it. A channel that is given is taken as it
-- was then: that clones share it is left out.
pub record ConnectedTopic : Type 0 where
  pub given : TopicOptions
  pub channel_option : Option StreamingDataSource
  pub topic : Topic
  pub channel : StreamingDataSource
  pub connected : Bool
  pub begun : Result (Unit {0})

-- The constructor, on the given channel or on a new one.
unfoldable pub new_connected_topic :
    TopicOptions → Option StreamingDataSource → DataSourceOptions → Dialling → ConnectedTopic
new_connected_topic o channel fresh x =
    let d = or_else channel (new_streaming_source fresh) in
    let (r, answer) = dial_up d.remote x in
    record {
      given = o;
      channel_option = channel;
      topic = new_topic o;
      channel = record d { remote = r };
      connected = false;
      begun = answer;
    }

-- The constructor of `ConsumerGroupTopic`: what it throws, it throws when the connection was begun.
unfoldable pub new_group_topic :
    TopicOptions
    → ConsumerGroupOptions
    → DataSourceOptions
    → Dialling
    → Result (ConnectedTopic × ConsumerGroupConfig)
unfolding new_connected_topic
new_group_topic o options fresh x =
    map_ok (λ config. (new_connected_topic o none fresh x, config))
      (create_consumer_group_config options)

-- `connect()`
unfoldable pub await_connection : ConnectedTopic → ConnectedTopic × Result (Unit {0})
await_connection t = elim t.begun [
  | ok _ ↦ (record t { connected = true }, ok tt)
  | err e ↦ (t, err e)
]

-- `disconnect()`: what was sent, the new state, and whether it threw.
unfoldable pub disconnect_topic : ConnectedTopic → List Command × ConnectedTopic × Result (Unit {0})
disconnect_topic t =
    let (sent, r, answer) = disconnect t.channel.remote in
    (sent, record t { channel = record t.channel { remote = r } }, answer)

-- `get channel()`
unfoldable pub connected_channel : ConnectedTopic → Result StreamingDataSource
connected_channel t =
    if t.connected
    then ok t.channel
    else err "Channel not connected; call ConnectableTopic.connect() first"

-- `clone()`: of a group's topic too it makes a plain connected topic.
unfoldable pub clone_topic :
    ConnectedTopic → DataSourceOptions → Dialling → ConnectedTopic × Result (Unit {0})
unfolding new_connected_topic await_connection
clone_topic t fresh x = await_connection (new_connected_topic t.given t.channel_option fresh x)

-- `createConsumerGroup(channel, topic, groupConfig, cursor, shard)`
unfoldable pub create_group_on :
    {S : Type 0}
    → Redis S
    → StreamingDataSource
    → Topic
    → ConsumerGroupConfig
    → Option String
    → Option String
    → S
    → Result (Option String) × S
create_group_on redis channel t g cursor shard s =
    create_consumer_group redis channel (consumer_key t shard) g.name cursor s

-- The member's `connectAndListen`: the options that it passes on are not looked at.
unfoldable pub connect_member :
    ConsumerGroupMember
    → Option StreamingDataSource
    → Dialling
    → Dialling
    → ConsumerGroupMember × Result (Unit {0})
unfolding connect_consumer
connect_member m out x y =
    let (w, answer) = connect_consumer (record { consumer = m.consumer; outgoing = out }) x y in
    (record m { consumer = w.consumer }, answer)

-- The options that are given to the member's `clone`.
pub record MemberOverrides : Type 0 where
  pub topic : Option ConsumerGroupTopic
  pub member : Option String
  pub shard : Option (Option String)
  pub bidirectional : Option (Option Bool)
  pub event_map : Option (Dict Handler)

-- `clone(options)`: a member with its own options where none are given.
unfoldable pub clone_member :
    ConsumerGroupTopic
    → ConsumerGroupMember
    → MemberOverrides
    → StreamingDataSource
    → ℕ
    → ℕ
    → ConsumerGroupMember
clone_member own m given incoming now fresh =
    let o = m.consumer.options in
    new_member
      (record o {
        shard = or_else given.shard o.shard;
        bidirectional = or_else given.bidirectional o.bidirectional;
        event_map = or_else given.event_map o.event_map;
      })
      (or_else given.topic own) (or_else given.member m.instance_config.group_member_id) incoming
      now fresh

-- A connection that was begun is waited for: the channel can be had from then on, and a failure is
-- thrown and leaves it out of reach. A disconnect takes the channel's client away, and leaves the channel
-- within reach if it was.
pub connected_channel-disconnect_topic :
    (t : ConnectedTopic)
    → t.connected ≡ false
    → t.channel.remote.options.controllable ≡ false
    → (let waited = (await_connection t).0 in
        let (_, ended, _) = disconnect_topic waited in
        ((await_connection t).1 ≡ t.begun)
        × (is_ok (connected_channel waited) ≡ is_ok t.begun)
        × (is_ok (connected_channel ended) ≡ is_ok t.begun)
        × (ended.channel.remote.client ≡ none))
unfolding connected_channel await_connection disconnect_topic disconnect client_of
connected_channel-disconnect_topic t c u = ground (arith, c, u)
