-- ===== src/Init.antt =====
-- src/runtime_init.go, the constructor of src/auth_store.go and the URL test of src/connect.go: how
-- a runtime is built.
pub mod Plugin
pub mod Unused
pub mod Ready
pub mod Shutdown
mod Tests
use mapex_mqttbroker.Common.{
  ◌*◌, Bool, true, false, not, Option, none, some, [], if◌then◌else◌, is_empty, Bytes,
}
use mapex_mqttbroker.Common.Int.{pos, is_positive}
use mapex_mqttbroker.Config.{Config, minute}
use mapex_mqttbroker.Fanout
use mapex_mqttbroker.Fanout.{FanoutConsumer, FanoutError, new_fanout_consumer}
use mapex_mqttbroker.HttpAuth.{AuthClient, AuthClientConfig, ClientError, new_auth_client}
use mapex_mqttbroker.Publisher.{
  AsyncPublisher, PublisherError, Built, built, refused, new_async_publisher, close_queue,
}
use mapex_mqttbroker.Publisher
use mapex_mqttbroker.Runtime.{PluginRuntime}
use mapex_mqttbroker.TieredStore.{
  TieredAuthStore, TieredAuthStoreConfig, StoreInitError, l3_client_required, open_pebble_failed,
  init_minio_failed,
}

-- What the libraries answer while the plugin starts: `pebble.Open`, `minio.New` and `Subscribe`.
pub record Answers (Db : Type 0) : Type 0 where
  pub open_pebble : Bytes → Option Db
  pub new_minio : Bytes → Bool
  pub subscribe : Bytes → Bool

module _ {Db : Type 0} (answers : Answers Db) where
  -- A refusal carries the database that was opened and is not closed.
  pub data StoreBuilt : Type 0 where
    store_built : TieredAuthStore Db → StoreBuilt
    store_refused : StoreInitError → Option Db → StoreBuilt

  abbrev pub store_with : TieredAuthStoreConfig → AuthClient → Option Db → Bool → TieredAuthStore Db
  store_with cfg client db has_minio = record {
    l2_bucket = cfg.l2_bucket;
    l1_ttl = if is_positive cfg.l1_ttl then cfg.l1_ttl else pos (30 * minute);
    l3_client = some client;
    pebble_db = db;
    has_minio = has_minio;
    l1_hits = 0;
    l1_misses = 0;
    l2_hits = 0;
    l2_misses = 0;
    l3_hits = 0;
    l3_misses = 0;
    store_errors = 0;
    invalidations = 0;
  }

  -- The L2 part, behind the database that the L1 part opened.
  unfoldable pub add_minio : TieredAuthStoreConfig → AuthClient → Option Db → StoreBuilt
  add_minio cfg client db =
      if is_empty cfg.l2_endpoint
      then store_built (store_with cfg client db false)
      else if not (answers.new_minio cfg.l2_endpoint)
      then store_refused init_minio_failed db
      else store_built (store_with cfg client db true)

  unfoldable pub new_tiered_auth_store : TieredAuthStoreConfig → StoreBuilt
  new_tiered_auth_store cfg = elim cfg.l3_client [
    | none ↦ store_refused l3_client_required none
    | some client ↦
        if is_empty cfg.l1_path
        then add_minio cfg client none
        else elim (answers.open_pebble cfg.l1_path) [
          | none ↦ store_refused open_pebble_failed none
          | some db ↦ add_minio cfg client (some db)
        ]
  ]

  pub data BuildError : Type 0 where
    publisher_required : BuildError
    publisher_refused : PublisherError → BuildError
    client_refused : ClientError → BuildError
    store_not_built : StoreInitError → BuildError

  -- A failed build leaves the publisher that it started, which it drained.
  pub data Build : Type 0 where
    ready : PluginRuntime (TieredAuthStore Db) → Build
    stopped : BuildError → Option AsyncPublisher → Build

  -- The consumer, if there is a connection and both steps succeed.
  abbrev pub started_only : Built FanoutConsumer FanoutError → Option FanoutConsumer
  started_only (built c) = some c
  started_only (refused _) = none

  abbrev pub start_built : Built FanoutConsumer FanoutError → Option FanoutConsumer
  start_built (built c) = started_only (Fanout.start answers.subscribe c)
  start_built (refused _) = none

  unfoldable pub build_fanout : Config → Bool → Option FanoutConsumer
  build_fanout cfg has_conn =
      if has_conn
      then start_built (new_fanout_consumer has_conn true cfg.fanout_invalidate_subject)
      else none

  unfoldable pub with_store : Config → Bool → AsyncPublisher → StoreBuilt → Build
  with_store cfg has_conn async (store_refused e _) =
      stopped (store_not_built e) (some (close_queue async))
  with_store cfg has_conn async (store_built s) = ready (record {
    config = cfg;
    async = async;
    has_auth = true;
    store = some s;
    fanout = build_fanout cfg has_conn;
    sessions = [];
  })

  abbrev pub client_config : Config → AuthClientConfig
  client_config cfg = record {
    url = cfg.auth_url;
    api_key = cfg.auth_api_key;
    timeout = cfg.auth_timeout;
    max_idle_conns = pos 0;
    idle_conn_timeout = pos 0;
  }

  abbrev pub store_config : Config → AuthClient → TieredAuthStoreConfig
  store_config cfg client = record {
    l1_path = cfg.cache_l1_path;
    l2_endpoint = cfg.cache_l2_endpoint;
    l2_bucket = cfg.cache_l2_bucket;
    l3_client = some client;
    l1_ttl = cfg.cache_l1_ttl;
  }

  unfoldable pub with_client : Config → Bool → AsyncPublisher → Built AuthClient ClientError → Build
  with_client cfg has_conn async (refused e) = stopped (client_refused e) (some (close_queue async))
  with_client cfg has_conn async (built client) =
      with_store cfg has_conn async (new_tiered_auth_store (store_config cfg client))

  -- `async.Start()`, which cannot panic on a new publisher.
  unfoldable pub with_publisher : Config → Bool → Built AsyncPublisher PublisherError → Build
  with_publisher cfg has_conn (refused e) = stopped (publisher_refused e) none
  with_publisher cfg has_conn (built p) =
      with_client cfg has_conn (record p { started = true }) (new_auth_client (client_config cfg))

  -- The flags say whether the publisher and the connection are set.
  unfoldable pub build_runtime : Config → Bool → Bool → Build
  build_runtime cfg has_publisher has_conn =
      if not has_publisher
      then stopped publisher_required none
      else with_publisher cfg has_conn
          (new_async_publisher has_publisher cfg.buffer_size cfg.worker_pool_size)
