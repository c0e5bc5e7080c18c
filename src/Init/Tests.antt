-- ===== src/Init/Tests.antt =====
-- A start of the plugin, and one at which MinIO cannot be reached.
use mapex_mqttbroker.Common.{◌↔◌, ◌≢◌, ◌≡◌, refl, true, false, none, some, [], Bytes, codes}
use mapex_mqttbroker.Callbacks.{mosq_err_success}
use mapex_mqttbroker.Fixtures.Start.{answers, first_process, client, consumer, assets_client}
use mapex_mqttbroker.Fixtures.{database, platform, config, empty_database}
use mapex_mqttbroker.Init.{store_with, Answers, store_refused, new_tiered_auth_store, store_config}
use mapex_mqttbroker.Init.Plugin.{shut_down, mosquitto_plugin_cleanup, Process}
use mapex_mqttbroker.Init.Shutdown.{mosquitto_plugin_cleanup_lem}
use mapex_mqttbroker.Json.{Json}
use mapex_mqttbroker.Init.Ready.{new_tiered_auth_store_leaks_iff}
use mapex_mqttbroker.Publisher.{PublishJob, enqueue, fresh}
use mapex_mqttbroker.Runtime.{PluginRuntime}
use mapex_mqttbroker.TieredStore.{TieredAuthStore, init_minio_failed}
use mapex_mqttbroker.TieredStore.Interface.{Read}

abbrev minio_down : Answers (Bytes → Read)
minio_down = record answers { new_minio = λ _. false }

new_tiered_auth_store_leaks_iff_example :
    (new_tiered_auth_store minio_down (store_config minio_down config client)
      ≡ store_refused init_minio_failed (some empty_database))
    ↔ ((init_minio_failed ≡ init_minio_failed)
        × (some client ≢ none)
        × (config.cache_l1_path ≢ [])
        × (some empty_database ≡ some empty_database)
        × (config.cache_l2_endpoint ≢ [])
        × (false ≡ false))
new_tiered_auth_store_leaks_iff_example =
    new_tiered_auth_store_leaks_iff minio_down (store_config minio_down config client)
      init_minio_failed empty_database

abbrev started : PluginRuntime (TieredAuthStore (Bytes → Read))
started = record {
  config = config;
  async = record (fresh 10 4) { started = true };
  has_auth = true;
  store = some (
      store_with answers (store_config answers config assets_client) assets_client
        (some empty_database) true);
  fanout = some consumer;
  sessions = [];
}

abbrev running : Process (Bytes → Read)
running = record first_process {
  runtime = some started;
  nats_conn = some true;
  has_plugin_id = true;
}

abbrev late : PublishJob
late = record { subject = codes "dev.data"; message = Json.null }

mosquitto_plugin_cleanup_lem_example :
    let out = mosquitto_plugin_cleanup database platform running in
    (out.1.runtime ≡ none)
    × (mosquitto_plugin_cleanup database platform out.1 ≡ (mosq_err_success, out.1, none))
    × (left : PluginRuntime (TieredAuthStore (Bytes → Read))) × (out.2 ≡ some left)
    × ((enqueue left.async late).0 ≡ false)
    × ((enqueue left.async late).1.queue ≡ [])
    × (shut_down database platform left ≡ left)
mosquitto_plugin_cleanup_lem_example =
    mosquitto_plugin_cleanup_lem database platform running started late refl
