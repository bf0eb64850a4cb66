-- ===== src/Group.antt =====
-- Consumer groups: packages/consumer-group/src (config.ts, group.ts, member.ts, utils.ts).
pub mod Config
pub mod Members
pub mod Connection
use streamerson.Prelude.{
  ℕ, String, Bool, true, false, Option, none, some, List, [], ◌∷◌, or_else, truthy, truthy?, ltb,
  nat_eq, if◌then◌else◌,
}
use streamerson.Prelude.Result.{Result, ok, err, ◌>>=◌}
use streamerson.Prelude.Text.{template, shown}
use streamerson.Prelude.Integer.{ℤ, pos, negsuc}
use streamerson.Prelude.Decimal.{show_int}
use streamerson.Keys.{Topic, consumer_key}
use streamerson.Message.{Json, MappedStreamEvent}
use streamerson.Redis.{Redis}
use streamerson.Source.{StreamingDataSource, incr, create_consumer_group, mark_processed_by_group}
use streamerson.Source.Read.{ConsumerGroupInstanceConfig}
use streamerson.Consumer.{StreamConsumer, StreamConsumerOptions, Processed, process, new_consumer}
use Config.{ConsumerGroupConfig}

-- `ConsumerGroupTopic`: a topic with its channel and the configuration of the group.
pub record ConsumerGroupTopic : Type 0 where
  pub topic : Topic
  pub config : ConsumerGroupConfig
  pub channel : StreamingDataSource
  pub connected : Bool

-- `get channel()`
unfoldable pub channel_of : ConsumerGroupTopic → Result StreamingDataSource
channel_of t =
    if t.connected
    then ok t.channel
    else err "Channel not connected; call ConnectableTopic.connect() first"

unfoldable pub connect_topic : ConsumerGroupTopic → ConsumerGroupTopic
connect_topic t = record t { connected = true }

unfoldable pub instance_config : ConsumerGroupTopic → String → ConsumerGroupInstanceConfig
instance_config t member = record { group_id = t.config.name; group_member_id = member }

-- `ConsumerGroupMember`. The constructor of the class below is called with the group's configuration
-- in the options, and the parameter property then sets `options` to those that were given.
pub record ConsumerGroupMember : Type 0 where
  pub consumer : StreamConsumer
  pub instance_config : ConsumerGroupInstanceConfig
  pub channel : StreamingDataSource

unfoldable pub new_member :
    StreamConsumerOptions
    → ConsumerGroupTopic
    → String
    → StreamingDataSource
    → ℕ
    → ℕ
    → ConsumerGroupMember
unfolding instance_config
new_member o t member incoming now fresh = record {
  consumer =
      record (new_consumer (record o { topic = t.topic; group = some (instance_config t member) })
        incoming now fresh) { options = record o { topic = t.topic } };
  instance_config = instance_config t member;
  channel = t.channel;
}

pub group_key : Topic → ConsumerGroupConfig → Option String → String
group_key t g shard = template (consumer_key t shard ∷ "__GROUP(" ∷ g.name ∷ ")" ∷ [])

pub member_id : Topic → ConsumerGroupConfig → Option String → ℤ → String
member_id t g shard n =
    template (consumer_key t shard ∷ "__GROUP(" ∷ g.name ∷ "$" ∷ show_int n ∷ ")" ∷ [])

admitted : Topic → ConsumerGroupConfig → Option String → ℤ → Result String
unfolding member_id
admitted t g shard (pos n) =
    if nat_eq n 0
    then err "Unable to INCR group member ID; cancelling startup"
    else if ltb g.max n
    then err "Group member ID is greater than max; cancelling startup"
    else ok (member_id t g shard (pos n))
admitted t g shard (negsuc n) = ok (member_id t g shard (negsuc n))

answered :
    {S : Type 0} → Topic → ConsumerGroupConfig → Option String → Result ℤ × S → Result String × S
unfolding admitted
answered t g shard (reply, s) = (reply >>= admitted t g shard, s)

created : {S : Type 0} → Result (Option String) × S → Result (Unit {0}) × S
created (ok e, s) = (ok tt, s)
created (err e, s) = (err e, s)

group_id : Option ConsumerGroupInstanceConfig → String
group_id none = ""
group_id (some g) = g.group_id

after_acknowledgement : {S : Type 0} → Processed → Result (Unit {0}) × S → Result Processed × S
after_acknowledgement p (ok _, s) = (ok p, s)
after_acknowledgement p (err e, s) = (err e, s)

module _ {S : Type 0} (redis : Redis S) where
  -- `create(cursor, shard)`
  unfoldable pub create_group :
      ConsumerGroupTopic → Option String → Option String → S → Result (Unit {0}) × S
  unfolding channel_of created
  create_group t cursor shard s = elim (channel_of t) [
    | err e ↦ (err e, s)
    | ok channel ↦
        created
          (create_consumer_group redis channel (consumer_key t.topic shard) t.config.name cursor s)
  ]

  acknowledged :
      ConsumerGroupMember → String → MappedStreamEvent → Processed → S → Result Processed × S
  unfolding after_acknowledgement
  acknowledged m group event p s = after_acknowledgement p (
      mark_processed_by_group redis m.consumer.incoming_channel m.consumer.options.topic group
        (shown event.stream_message_id) m.consumer.options.shard s)

  -- The member's `process`: what the consumer's `process` returns is an object, hence truthy.
  process_in_group :
      Json → ConsumerGroupMember → String → MappedStreamEvent → S → Result Processed × S
  unfolding acknowledged
  process_in_group json m group event s = elim (process json m.consumer event) [
    | ok p ↦ acknowledged m group event p s
    | err e ↦ (err e, s)
  ]

  unfoldable pub process_member :
      Json → ConsumerGroupMember → MappedStreamEvent → S → Result Processed × S
  unfolding process_in_group group_id
  process_member json m event s =
      if truthy (group_id m.consumer.options.group)
      then process_in_group json m (group_id m.consumer.options.group) event s
      else (err "Cannot process consumer group message without group member ID", s)

  -- `acquireGroupMemberId`
  unfoldable pub acquire_group_member_id :
      StreamingDataSource → Topic → ConsumerGroupConfig → Option String → S → Result String × S
  unfolding answered group_key
  acquire_group_member_id channel t g shard s =
      answered t g shard (incr redis channel (group_key t g shard) none s)
