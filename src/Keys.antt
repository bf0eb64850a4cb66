-- ===== src/Keys.antt =====
-- Stream keys and topics: packages/core/src/utils/keys.ts and packages/core/src/utils/topic.ts.
pub mod Separation
use streamerson.Prelude.{String, Option, none, some, Bool, truthy, truthy?, or_else, if◌then◌else◌}
use Prim.Native.String.{◌++◌}

pub data Direction : Type 0 where
  incoming outgoing : Direction

pub data Role : Type 0 where
  consumer producer : Role

pub data FlowMode : Type 0 where
  realtime ordered : FlowMode

abbrev direction_text : Direction → String
direction_text incoming = "INCOMING"
direction_text outgoing = "OUTGOING"

abbrev role_text : Role → String
role_text consumer = "CONSUMER"
role_text producer = "PRODUCER"

unfoldable pub key_generator : String → String → String
key_generator namespace key = namespace ++ ("::" ++ key)

-- An empty shard is falsy, and counts as no shard.
unfoldable pub shard_decorator : String → Option String → String
shard_decorator key none = key
shard_decorator key (some shard) = if truthy shard then key ++ ("#" ++ shard) else key

unfoldable pub consumer_producer_decorator : String → Direction → Role → String
consumer_producer_decorator key direction role =
    key ++ ("::" ++ (role_text role ++ ("_" ++ direction_text direction)))

-- `constructor(options: TopicOptions | string)`
pub data TopicOptions : Type 0 where
  name : String → TopicOptions
  options : String → Option String → Option FlowMode → TopicOptions

pub record Topic : Type 0 where
  pub given : TopicOptions
  pub topic : String
  pub mode : FlowMode
  pub namespace : String

unfoldable pub new_topic : TopicOptions → Topic
new_topic (name n) = record { given = name n; topic = "DEFAULT"; mode = ordered; namespace = n }
new_topic (options n t m) = record {
  given = options n t m;
  topic = or_else t "DEFAULT";
  mode = or_else m ordered;
  namespace = n;
}

pub record StreamMeta : Type 0 where
  pub namespace : String
  pub sharded : Bool
  pub mode : FlowMode

unfoldable pub meta : Topic → Option String → StreamMeta
meta t shard = record { namespace = t.namespace; sharded = truthy? shard; mode = t.mode }

unfoldable pub consumer_key : Topic → Option String → String
unfolding key_generator shard_decorator consumer_producer_decorator
consumer_key t shard =
    consumer_producer_decorator (key_generator t.namespace (shard_decorator t.topic shard)) incoming
      consumer

unfoldable pub producer_key : Topic → Option String → String
unfolding key_generator shard_decorator consumer_producer_decorator
producer_key t shard =
    consumer_producer_decorator (key_generator t.namespace (shard_decorator t.topic shard)) outgoing
      producer

-- A topic made from a text is made again from the nested text alone.
unfoldable pub subtopic : Topic → String → Topic
unfolding new_topic
subtopic t sub = new_topic (nested t.given)
  where
    nested : TopicOptions → TopicOptions
    nested (name n) = name (t.topic ++ ("(" ++ (sub ++ ")")))
    nested (options n _ m) = options n (some (t.topic ++ ("(" ++ (sub ++ ")")))) m
