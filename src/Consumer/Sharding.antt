-- ===== src/Consumer/Sharding.antt =====
-- The key that a consumer with a shard listens on, against the keys that others use for that shard.
use Prim.Native.String.{◌++◌}
use text.Mathlib.TextLemmas.{append_cancel_right}
use streamerson.Prelude.{
  String, ◌≡◌, refl, sym, ◌∙◌, ◌≢◌, ◌↔◌, Option, none, some, false, arith, eq_iff, truthy?,
}
use streamerson.Keys.{shard_decorator, consumer_key}
use streamerson.Keys.Separation.{consumer_key-eq_iff, sharded-ne, shard_some}
use streamerson.Consumer.{StreamConsumer, listening_key}

unsharded :
    (key : String) (shard : Option String) → truthy? shard ≡ false → shard_decorator key shard ≡ key
unfolding shard_decorator
unsharded key none h = refl
unsharded key (some s) h = rw h

sharded_of_ne :
    (key : String) (shard : Option String) → shard_decorator key shard ≡ key → truthy? shard ≡ false
unfolding shard_decorator
sharded_of_ne key none h = refl
sharded_of_ne key (some s) h = ground (arith, sharded-ne key s)

-- A consumer listens on the key for which its topic's entries are acknowledged and its consumer group
-- is created exactly if it has no shard, or an empty one.
pub listening_key-eq_iff :
    (c : StreamConsumer)
    → (listening_key c ≡ consumer_key c.options.topic c.options.shard)
      ↔ (truthy? c.options.shard ≡ false)
unfolding listening_key
listening_key-eq_iff c = (
  sharded_of_ne (consumer_key c.options.topic c.options.shard) c.options.shard,
  unsharded (consumer_key c.options.topic c.options.shard) c.options.shard,
)

-- What is dispatched to the topic's unsharded key with a shard that is not empty goes to another key than
-- the one on which a consumer with that shard listens.
pub listening_key-ne-dispatched :
    (c : StreamConsumer) (s : String)
    → c.options.shard ≡ some s
    → s ≢ ""
    → listening_key c ≢ shard_decorator (consumer_key c.options.topic none) (some s)
unfolding listening_key
listening_key-ne-dispatched c s e n same =
    let outer = append_cancel_right _ _ ("#" ++ s) (
      sym (shard_some (consumer_key c.options.topic (some s)) s n)
      ∙ (rw e at same)
      ∙ shard_some (consumer_key c.options.topic none) s n) in
    let shards = (consumer_key-eq_iff c.options.topic (some s) none).0 outer in
    ground (arith, eq_iff s "", shards)
