-- ===== src/Group/Members.antt =====
-- Members of a group: what they process and acknowledge, and the numbers they acquire.
use streamerson.Prelude.{
  ℕ, ◌≤◌, String, ◌≡◌, ap, true, Option, none, some, arith, inl, inr, truthy, ◌↔◌, if◌then◌else◌,
}
use streamerson.Prelude.Result.{ok, err, is_ok, Result-cases}
use streamerson.Prelude.Text.{shown}
use streamerson.Prelude.Integer.{pos}
use streamerson.Keys.{Topic, shard_decorator, consumer_key}
use streamerson.Message.{Json, MappedStreamEvent}
use streamerson.Remote.{client_of}
use streamerson.Redis.{Redis}
use streamerson.Source.{StreamingDataSource, incr}
use streamerson.Source.Writing.{mark_processed_by_group-ok}
use streamerson.Source.Read.{ConsumerGroupInstanceConfig}
use streamerson.Consumer.{StreamConsumerOptions, process}
use streamerson.Group.{
  ConsumerGroupTopic, ConsumerGroupMember, new_member, process_member, process_in_group, group_id,
  acknowledged, acquire_group_member_id, group_key,
}
use streamerson.Group.Config.{ConsumerGroupConfig}

module _ {S : Type 0} (redis : Redis S) (json : Json) where
  -- A member that was made from options without a group configuration of their own throws at every event,
  -- although its member ID and its group are known; nothing is acknowledged.
  pub process_member-new :
      (o : StreamConsumerOptions) (t : ConsumerGroupTopic) (member : String)
      (incoming : StreamingDataSource) (now fresh : ℕ) (event : MappedStreamEvent) (s : S)
      → o.group ≡ none
      → process_member redis json (new_member o t member incoming now fresh) event s
        ≡ (err "Cannot process consumer group message without group member ID", s)
  unfolding process_member new_member
  process_member-new o t member incoming now fresh event s h = rw h

  process_in_group-acknowledges :
      (m : ConsumerGroupMember) (group : String) (connection : ℕ) (event : MappedStreamEvent)
      (s : S)
      → client_of m.consumer.incoming_channel.remote ≡ ok connection
      → process_in_group redis json m group event s ≡ (
        process json m.consumer event,
        (if is_ok (process json m.consumer event)
            then (redis.xack
                (consumer_key m.consumer.options.topic m.consumer.options.shard)
                group
                (shown event.stream_message_id)
                s).1
            else s),
      )
  unfolding process_in_group
  process_in_group-acknowledges m group connection event s k =
      elim (Result-cases (process json m.consumer event)) [
        | inl (p, e) ↦
            rw (e, process_in_group)
              (rw (
                mark_processed_by_group-ok redis m.consumer.incoming_channel
                    m.consumer.options.topic group (shown event.stream_message_id)
                    m.consumer.options.shard connection s k,
                acknowledged,
              ))
        | inr (x, e) ↦ rw (e, process_in_group)
      ]

  -- A member whose options name a group, over a connected channel, returns what its handlers make of an event, and
  -- acknowledges the event exactly if they do not throw; also if its type has no handler.
  pub process_member-acknowledges :
      (m : ConsumerGroupMember) (g : ConsumerGroupInstanceConfig) (connection : ℕ)
      (event : MappedStreamEvent) (s : S)
      → m.consumer.options.group ≡ some g
      → truthy g.group_id ≡ true
      → client_of m.consumer.incoming_channel.remote ≡ ok connection
      → process_member redis json m event s ≡ (
        process json m.consumer event,
        (if is_ok (process json m.consumer event)
            then (redis.xack
                (consumer_key m.consumer.options.topic m.consumer.options.shard)
                g.group_id
                (shown event.stream_message_id)
                s).1
            else s),
      )
  unfolding process_member
  process_member-acknowledges m g connection event s h t k =
      let same : group_id m.consumer.options.group ≡ g.group_id = ap group_id h in
      rw (same, process_member)
        (rw t (process_in_group-acknowledges m g.group_id connection event s k))

-- Over a connected channel whose counter of the group goes up to n, a member number is acquired exactly
-- if n is at least 1 and at most the group's maximum. The counter has gone up either way.
pub acquire-in_range :
    {S : Type 0} (redis : Redis S) (channel : StreamingDataSource) (t : Topic)
    (g : ConsumerGroupConfig) (shard : Option String) (connection n : ℕ) (s s' : S)
    → client_of channel.remote ≡ ok connection
    → redis.incr (shard_decorator (group_key t g shard) none) s ≡ (ok (pos n), s')
    → ((is_ok (acquire_group_member_id redis channel t g shard s).0 ≡ true)
        ↔ ((1 ≤ n) × (n ≤ g.max)))
      × ((acquire_group_member_id redis channel t g shard s).1 ≡ s')
unfolding acquire_group_member_id incr
acquire-in_range redis channel t g shard connection n s s' c h = ground (arith, h)
