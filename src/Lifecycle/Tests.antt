-- ===== src/Lifecycle/Tests.antt =====
-- The plugin is loaded, and the sensor connects.
use mapex_mqttbroker.Common.{◌+◌, ◌%◌, ◌^◌, ◌≡◌, refl, ◌↔◌, ◌≢◌, none, some, Bytes, same, codes}
use mapex_mqttbroker.Callbacks.{
  announce, on_message, on_disconnect, on_basic_auth, answer, identity, get_client_cert_serial,
  get_client_cert_cn, mosq_err_success, mosq_err_acl_denied, mosq_err_plugin_defer,
  mosq_err_unknown, go_on_basic_auth,
}
use mapex_mqttbroker.Config.{
  load_config, get, int_or_default, duration_or_default, string_or_default,
}
use mapex_mqttbroker.Fixtures.{platform, database, world, sensor, auth_run}
use mapex_mqttbroker.Fixtures.Events.{connecting, reading, leaving}
use mapex_mqttbroker.Fixtures.Start.{answers, first_process, dialer, raw_opts, init_run}
use mapex_mqttbroker.GoText.Trim.{trim_space}
use mapex_mqttbroker.HttpAuth.{
  AuthClient, lookup_count, lookup_hit_count, lookup_miss_count, lookup_error_count,
}
use mapex_mqttbroker.Init.Plugin.{
  Process, read_opts, mosquitto_plugin_init, after_load, after_build, finish_init,
  register_callbacks, register_from,
}
use mapex_mqttbroker.Connect.{connect_nats, end_connect}
use mapex_mqttbroker.Log.{new_logger, or_nop}
use mapex_mqttbroker.Lifecycle.{Steps, loads, connects, done, more}
use mapex_mqttbroker.Lifecycle.Accounted.{CountsOne, events_counted}
use mapex_mqttbroker.Certificate.{get_cert_serial_hex}
use mapex_mqttbroker.Session.{lookup_session}
use mapex_mqttbroker.Lifecycle.Books.{counters_balanced}
use mapex_mqttbroker.Lifecycle.Live.{IsLive, always-IsLive}
use mapex_mqttbroker.Lifecycle.Decision.{Fits, Fails, connect_decided}
use mapex_mqttbroker.Payloads.{marshal_presence}
use mapex_mqttbroker.Runtime.{PluginRuntime, publish_connect, publish}
use mapex_mqttbroker.TieredStore.{
  TieredAuthStore, tiered, l1_miss_count, l2_hit_count, l3_hit_count, l3_miss_count,
}
use mapex_mqttbroker.TieredStore.Interface.{Read}

abbrev loaded_process : Process (Bytes → Read)
loaded_process =
    (mosquitto_plugin_init platform answers dialer (λ _. mosq_err_success) first_process raw_opts).1

loading : Steps database platform first_process loaded_process
loading = more done (loads answers dialer (λ _. mosq_err_success) raw_opts refl)

-- What the load computes through.
load_run : Unit {0}
unfolding init_run mosquitto_plugin_init after_load after_build finish_init register_callbacks
    register_from load_config get trim_space same read_opts string_or_default int_or_default
    duration_or_default connect_nats end_connect or_nop new_logger
load_run = tt

abbrev connected_process : Process (Bytes → Read)
connected_process = record loaded_process {
  runtime =
      (go_on_basic_auth (tiered database platform) platform world loaded_process.runtime
        (some connecting) 1000).1;
}

connecting_after : Steps database platform first_process connected_process
connecting_after = more loading (connects world (some connecting) 1000)

connected_set :
    (rt : PluginRuntime (TieredAuthStore (Bytes → Read))) × (connected_process.runtime ≡ some rt)
unfolding load_run go_on_basic_auth
connected_set = (_, refl)

always-IsLive_example : IsLive connected_process connected_set.0
always-IsLive_example =
    always-IsLive database platform connecting_after connected_set.0 refl connected_set.1

connect_decided_example :
    let status =
      (go_on_basic_auth
        (tiered database platform)
        platform
        world
        connected_process.runtime
        (some connecting)
        1001).0 in
    ((status ≡ mosq_err_plugin_defer) ↔ (connected_process.runtime ≡ none))
    × ((status ≡ mosq_err_success)
        ↔ Fits database platform world connecting connected_process.runtime)
    × ((status ≡ mosq_err_unknown)
        ↔ Fails database platform world connecting connected_process.runtime)
    × (status ≢ mosq_err_acl_denied)
connect_decided_example =
    connect_decided database platform world connecting 1001 connecting_after refl

connected_store : (s : TieredAuthStore (Bytes → Read)) × (connected_set.0.store ≡ some s)
connected_store = always-IsLive_example.up.stored

counters_balanced_example :
    (l1_miss_count connected_store.0 % 2 ^ 64
      ≡ (l2_hit_count connected_store.0
          + l3_hit_count connected_store.0
          + l3_miss_count connected_store.0)
        % 2 ^ 64)
    × ((c : AuthClient) × (connected_store.0.l3_client ≡ some c)
        × (lookup_count c % 2 ^ 64
            ≡ (l3_hit_count connected_store.0 + l3_miss_count connected_store.0) % 2 ^ 64)
        × (lookup_count c % 2 ^ 64
            ≡ (lookup_hit_count c + lookup_miss_count c + lookup_error_count c) % 2 ^ 64))
counters_balanced_example =
    counters_balanced database platform connecting_after connected_set.0 connected_store.0 refl
      connected_set.1 connected_store.1

-- The sensor's session in that process.
connected_session :
    lookup_session connected_set.0.sessions (codes "c1")
    ≡ some (record { org_id = codes "org1"; asset_uuid = sensor })
unfolding load_run go_on_basic_auth on_basic_auth auth_run answer identity get_client_cert_serial
    get_client_cert_cn get_cert_serial_hex connected_set lookup_session announce publish_connect
    publish marshal_presence
connected_session = refl

events_counted_example :
    CountsOne connected_set.0.async (on_message platform connected_set.0 reading 2000).async
    × CountsOne connected_set.0.async (on_disconnect platform connected_set.0 leaving 2000).async
events_counted_example =
    events_counted database platform connecting_after connected_set.0 reading leaving 2000 _ _ refl
      connected_set.1 connected_session connected_session
