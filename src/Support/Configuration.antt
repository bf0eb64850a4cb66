-- ===== src/Support/Configuration.antt =====
-- The configuration of a pair of streams: packages/core/src/utils/streamConfiguration.ts.
use streamerson.Prelude.{String, Option, none, or_else, true, false}
use streamerson.Keys.{Topic, consumer_key, producer_key}
use streamerson.Remote.{DataSourceOptions}
use streamerson.Source.{StreamingDataSource, new_streaming_source}

pub record StreamConfiguration : Type 0 where
  pub incoming_stream : String
  pub outgoing_stream : String
  pub read_channel : StreamingDataSource
  pub write_channel : StreamingDataSource

-- The channels that are given, and what new ones are told of the connection.
pub record ChannelOptions : Type 0 where
  pub read_channel : Option StreamingDataSource
  pub write_channel : Option StreamingDataSource
  pub redis_configuration : DataSourceOptions

unfoldable pub build_stream_configuration : Topic → ChannelOptions → StreamConfiguration
build_stream_configuration t o = record {
  incoming_stream = consumer_key t none;
  outgoing_stream = producer_key t none;
  read_channel =
      or_else o.read_channel
        (new_streaming_source (record o.redis_configuration { controllable = true }));
  write_channel =
      or_else o.write_channel
        (new_streaming_source (record o.redis_configuration { controllable = false }));
}
