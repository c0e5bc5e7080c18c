-- ===== src/Fixtures/Start.antt =====
-- What a start of the plugin meets.
use mapex_mqttbroker.Common.{◌*◌, true, false, none, some, [], ◌∷◌, Bytes, codes, List, Option}
use mapex_mqttbroker.Common.Int.{pos}
use mapex_mqttbroker.Connect.{Dialer, dialed}
use mapex_mqttbroker.Fixtures.{config, empty_database}
use mapex_mqttbroker.HttpAuth.{new_auth_client, AuthClient}
use mapex_mqttbroker.Init.{
  with_publisher, with_client, with_store, add_minio, build_fanout, Answers, build_runtime,
  new_tiered_auth_store, client_config,
}
use mapex_mqttbroker.Init.Plugin.{Process}
use mapex_mqttbroker.Config.{second}
use mapex_mqttbroker.Publisher.{new_async_publisher}
use mapex_mqttbroker.Fanout.{new_fanout_consumer, start, FanoutConsumer}
use mapex_mqttbroker.TieredStore.Interface.{Read}

abbrev pub answers : Answers (Bytes → Read)
answers = record {
  open_pebble = λ _. some empty_database;
  new_minio = λ _. true;
  subscribe = λ _. true;
}

abbrev pub first_process : Process (Bytes → Read)
first_process = record { runtime = none; nats_conn = none; has_plugin_id = false; registered = [] }

-- NATS answers; a time is one byte, and a format is its own text.
abbrev pub dialer : Dialer
dialer = record {
  fmt = record { sprintf = λ format _. format; timestamp = λ t. t ∷ [] };
  now = 1000;
  connect = λ url _. dialed url;
}

abbrev pub raw_opts : List (Option Bytes × Option Bytes)
raw_opts =
    (some (codes "nats_url"), some (codes "nats://n"))
    ∷ (some (codes "auth_url"), some (codes "http://a"))
    ∷ (some (codes "auth_api_key"), some (codes "k"))
    ∷ (some (codes "cache_l2_endpoint"), some (codes "m"))
    ∷ []

abbrev pub client : AuthClient
client = record {
  cfg = client_config answers config;
  lookups = 0;
  lookup_hits = 0;
  lookup_miss = 0;
  lookup_error = 0;
}

-- What a start computes through.
unfoldable pub init_run : Unit {0}
unfolding build_runtime with_publisher with_client with_store add_minio build_fanout
    new_tiered_auth_store new_async_publisher new_auth_client new_fanout_consumer start
init_run = tt

abbrev pub consumer : FanoutConsumer
consumer = record {
  subject = codes "mapexos.fanout.asset.invalidate";
  subscribed = true;
  closed = false;
  processed = 0;
  dropped = 0;
}

abbrev pub assets_client : AuthClient
assets_client = record client {
  cfg = record (client_config answers config) {
    max_idle_conns = pos 32;
    idle_conn_timeout = pos (90 * second);
  };
}
