-- ===== src/Init/Ready.antt =====
-- The state in which the plugin starts, and what a failure leaves behind.
use mapex_mqttbroker.Common.{
  ◌↔◌, ℕ, zero, suc, ◌<◌, ◌≡◌, refl, subst, ◌≢◌, inl, inr, Bool, true, false, Option, none, some,
  List, [], ◌∷◌, arith, Bool-cases, is_empty_iff, Bytes,
}
use mapex_mqttbroker.Common.Int.{ℤ, pos, negsuc}
use mapex_mqttbroker.Callbacks.{
  Status, mosq_err_success, mosq_err_auth, mosq_err_acl_denied, mosq_err_plugin_defer,
  mosq_err_unknown,
}
use mapex_mqttbroker.Config.{Config, Loaded, loaded, invalid, load_config}
use mapex_mqttbroker.Connect.{Dialer, connect_nats}
use mapex_mqttbroker.HttpAuth.{AuthClient, ClientError}
use mapex_mqttbroker.Init.{
  Answers, StoreBuilt, store_built, store_refused, add_minio, new_tiered_auth_store, Build, ready,
  stopped, with_store, with_client, with_publisher, build_runtime,
}
use mapex_mqttbroker.Init.Plugin.{
  Event, mosq_evt_basic_auth, mosq_evt_acl_check, mosq_evt_disconnect, mosq_evt_message, events,
  register_from, register_callbacks, Process, finish_init, after_build, after_load,
  mosquitto_plugin_init, read_opts, is_connected,
}
use mapex_mqttbroker.Init.Unused.{IsUnusedIn, OnUnused, build_runtime-OnUnused}
use mapex_mqttbroker.Log.{log_info, Logger, new_logger}
use mapex_mqttbroker.Platform.{Platform}
use mapex_mqttbroker.Publisher.{Built, built, refused, new_async_publisher, fresh}
use mapex_mqttbroker.Runtime.{PluginRuntime}
use mapex_mqttbroker.TieredStore.{
  TieredAuthStore, TieredAuthStoreConfig, StoreInitError, init_minio_failed,
}

-- A runtime that can take callbacks.
pub record IsReady {State : Type 0} (rt : PluginRuntime State) : Type 0 where
  pub started : rt.async.started ≡ true
  pub opened : (rt.async.closed ≡ false) × (rt.async.queue_closed ≡ false)
  pub empty : rt.async.queue ≡ []
  pub manned : (0 < rt.async.workers) × (0 < rt.async.buffer_size)
  pub compares : rt.has_auth ≡ true
  pub stored : rt.store ≢ none
  pub sessionless : rt.sessions ≡ []

-- All four callbacks are on record.
abbrev pub IsRegistered : List Event → Type 0
IsRegistered registered =
    (earlier : List Event) × (registered
      ≡ mosq_evt_message ∷ mosq_evt_disconnect ∷ mosq_evt_acl_check ∷ mosq_evt_basic_auth ∷ earlier)

abbrev onto : List Event → List Event → List Event
onto [] registered = registered
onto (e ∷ es) registered = onto es (e ∷ registered)

register_from-onto :
    (answer : Event → Status) (es registered : List Event)
    → (register_from answer es registered).0 ≡ mosq_err_success
    → (register_from answer es registered).1 ≡ onto es registered
unfolding register_from
register_from-onto answer [] registered h = refl
register_from-onto answer (e ∷ es) registered h =
    ground (arith, register_from-onto answer es (e ∷ registered))

register_callbacks-IsRegistered :
    (answer : Event → Status) (registered : List Event)
    → (register_callbacks answer registered).0 ≡ mosq_err_success
    → IsRegistered (register_callbacks answer registered).1
unfolding register_callbacks
register_callbacks-IsRegistered answer registered h =
    (registered, register_from-onto answer events registered h)

module _ {Db : Type 0} (answers : Answers Db) where
  abbrev OnReady : Build answers → Type 0
  OnReady (ready rt) = IsReady rt
  OnReady (stopped _ _) = Unit

  with_store-OnReady :
      (cfg : Config) (has_conn : Bool) (b w : ℕ) (s : StoreBuilt answers)
      → OnReady
          (with_store answers cfg has_conn (record (fresh (suc b) (suc w)) { started = true }) s)
  unfolding with_store
  with_store-OnReady cfg has_conn b w (store_refused _ _) = tt
  with_store-OnReady cfg has_conn b w (store_built s) = record {
    started = refl;
    opened = (refl, refl);
    empty = refl;
    manned = (omega arith, omega arith);
    compares = refl;
    stored = λ k. cc;
    sessionless = refl;
  }

  with_client-OnReady :
      (cfg : Config) (has_conn : Bool) (b w : ℕ) (c : Built AuthClient ClientError)
      → OnReady
          (with_client answers cfg has_conn (record (fresh (suc b) (suc w)) { started = true }) c)
  unfolding with_client
  with_client-OnReady cfg has_conn b w (refused _) = tt
  with_client-OnReady cfg has_conn b w (built c) = with_store-OnReady cfg has_conn b w _

  build_runtime-OnReady :
      (cfg : Config) (has_publisher has_conn : Bool) (b w : ℤ)
      → OnReady (with_publisher answers cfg has_conn (new_async_publisher has_publisher b w))
  unfolding with_publisher new_async_publisher
  build_runtime-OnReady cfg false has_conn b w = tt
  build_runtime-OnReady cfg true has_conn (negsuc _) w = tt
  build_runtime-OnReady cfg true has_conn (pos zero) w = tt
  build_runtime-OnReady cfg true has_conn (pos (suc b)) (negsuc _) = tt
  build_runtime-OnReady cfg true has_conn (pos (suc b)) (pos zero) = tt
  build_runtime-OnReady cfg true has_conn (pos (suc b)) (pos (suc w)) =
      with_client-OnReady cfg has_conn b w _

  -- Every runtime that `BuildRuntime` returns is ready: its publisher runs and is open and empty,
  -- with at least one worker and one place, it has a store and an `AuthClient`, and no session.
  build_runtime-IsReady :
      (cfg : Config) (has_publisher has_conn : Bool) (rt : PluginRuntime (TieredAuthStore Db))
      → build_runtime answers cfg has_publisher has_conn ≡ ready rt
      → IsReady rt
  unfolding build_runtime
  build_runtime-IsReady cfg false has_conn rt h = absurd (ground arith)
  build_runtime-IsReady cfg true has_conn rt h =
      subst OnReady h (build_runtime-OnReady cfg true has_conn cfg.buffer_size cfg.worker_pool_size)

  -- `NewTieredAuthStore` fails and leaves the L1 database open exactly where there is an HTTP client,
  -- the L1 path is set and its database opens, and the L2 endpoint is set and its client cannot be
  -- made.
  pub new_tiered_auth_store_leaks_iff :
      (cfg : TieredAuthStoreConfig) (e : StoreInitError) (db : Db)
      → (new_tiered_auth_store answers cfg ≡ store_refused e (some db)) ↔ (
          (e ≡ init_minio_failed)
          × (cfg.l3_client ≢ none)
          × (cfg.l1_path ≢ [])
          × (answers.open_pebble cfg.l1_path ≡ some db)
          × (cfg.l2_endpoint ≢ [])
          × (answers.new_minio cfg.l2_endpoint ≡ false))
  unfolding new_tiered_auth_store add_minio
  new_tiered_auth_store_leaks_iff cfg e db =
      ground (arith, is_empty_iff cfg.l1_path, is_empty_iff cfg.l2_endpoint)

  -- How the variables stand after `mosquitto_plugin_init`.
  abbrev pub Settled : Status × Process Db → Type 0
  Settled (mosq_err_success, p) =
      (rt : PluginRuntime (TieredAuthStore Db)) × (p.runtime ≡ some rt)
      × IsReady rt
      × IsUnusedIn rt
      × (p.nats_conn ≡ some true)
      × (p.has_plugin_id ≡ true)
      × IsRegistered p.registered
  Settled (_, p) = p.runtime ≡ none

  finish_init-Settled :
      (proc : Process Db) (rt : PluginRuntime (TieredAuthStore Db)) (r : Status × List Event)
      → IsReady rt
      → IsUnusedIn rt
      → (r.0 ≡ mosq_err_success → IsRegistered r.1)
      → Settled (finish_init proc rt r)
  unfolding finish_init
  finish_init-Settled proc rt (mosq_err_success, l) v u h = (rt, refl, v, u, refl, refl, h refl)
  finish_init-Settled proc rt (mosq_err_auth, l) v u h = refl
  finish_init-Settled proc rt (mosq_err_acl_denied, l) v u h = refl
  finish_init-Settled proc rt (mosq_err_plugin_defer, l) v u h = refl
  finish_init-Settled proc rt (mosq_err_unknown, l) v u h = refl

  after_build-Settled :
      (answer : Event → Status) (proc : Process Db) (b : Build answers)
      → proc.runtime ≡ none
      → OnReady b
      → OnUnused answers b
      → Settled (after_build answer proc b)
  unfolding after_build
  after_build-Settled answer proc (stopped e p) h v u = h
  after_build-Settled answer proc (ready rt) h v u =
      finish_init-Settled proc rt _ v u (register_callbacks-IsRegistered answer proc.registered)

  build_runtime_ready :
      (cfg : Config) (b : Build answers) → build_runtime answers cfg true true ≡ b → OnReady b
  build_runtime_ready cfg (ready rt) h = build_runtime-IsReady cfg true true rt h
  build_runtime_ready cfg (stopped _ _) h = tt

  after_load-Settled :
      (dialer : Dialer) (log : Logger) (answer : Event → Status) (proc : Process Db) (l : Loaded)
      → proc.runtime ≡ none
      → Settled (after_load answers dialer log answer proc l)
  unfolding after_load
  after_load-Settled dialer log answer proc (invalid e) h = h
  after_load-Settled dialer log answer proc (loaded cfg) h =
      elim (Bool-cases (is_connected (connect_nats dialer cfg.nats_url (some log)).0)) [
        | inl e ↦ rw e (
            after_build-Settled answer proc (build_runtime answers cfg true true) h
              (build_runtime_ready cfg _ refl) (build_runtime-OnUnused answers cfg _ refl))
        | inr e ↦ rw e h
      ]

  -- `mosquitto_plugin_init` on a process without a runtime: if it succeeds, the runtime is set and
  -- ready, its store is unused, the connection is open and all four callbacks are registered; if it fails, in whatever way, no runtime is set.
  pub mosquitto_plugin_init-Settled :
      (env : Platform) (dialer : Dialer) (answer : Event → Status) (proc : Process Db)
      (raw_opts : List (Option Bytes × Option Bytes))
      → proc.runtime ≡ none
      → Settled (mosquitto_plugin_init env answers dialer answer proc raw_opts)
  unfolding mosquitto_plugin_init
  mosquitto_plugin_init-Settled env dialer answer proc raw_opts h =
      after_load-Settled dialer (new_logger [] log_info) answer proc
        (load_config env (read_opts raw_opts)) h
