-- ===== src/Init/Plugin.antt =====
-- src/plugin/main.go: `mosquitto_plugin_init`, `mosquitto_plugin_cleanup`, `registerCallbacks` and
-- `readOpts`, over the process-wide variables.
use mathlib.Core.Option
use mapex_mqttbroker.Common.{
  Bool, true, false, not, Option, none, some, List, [], ◌∷◌, if◌then◌else◌, Bytes,
}
use mapex_mqttbroker.Callbacks.{Status, mosq_err_success, mosq_err_unknown, go_string}
use mapex_mqttbroker.Config.{Options, Loaded, loaded, invalid, load_config}
use mapex_mqttbroker.Connect.{ConnectError, Dialer, connect_nats}
use mapex_mqttbroker.Fanout
use mapex_mqttbroker.Init.{Answers, Build, ready, stopped, build_runtime}
use mapex_mqttbroker.Log.{log_info, Logger, new_logger}
use mapex_mqttbroker.Platform.{Platform}
use mapex_mqttbroker.Publisher.{Built, built, refused, close_queue}
use mapex_mqttbroker.Runtime.{PluginRuntime}
use mapex_mqttbroker.TieredStore.Interface.{Pebble}
use mapex_mqttbroker.TieredStore.{TieredAuthStore}
use mapex_mqttbroker.TieredStore

-- The events of the four callbacks.
pub data Event : Type 0 where
  mosq_evt_basic_auth mosq_evt_acl_check mosq_evt_disconnect mosq_evt_message : Event

-- The variables `runtime`, `natsConn` (with whether the connection is open) and `pluginID`, and the
-- callbacks that the broker has on record.
pub record Process (Db : Type 0) : Type 0 where
  pub runtime : Option (PluginRuntime (TieredAuthStore Db))
  pub nats_conn : Option Bool
  pub has_plugin_id : Bool
  pub registered : List Event

-- The C array, in order: a later option overrides an earlier one of the same key.
unfoldable pub read_opts_from : Options → List (Option Bytes × Option Bytes) → Options
read_opts_from opts [] = opts
read_opts_from opts ((key, val) ∷ rest) =
    read_opts_from ((go_string key, go_string val) ∷ opts) rest

unfoldable pub read_opts : List (Option Bytes × Option Bytes) → Options
unfolding read_opts_from
read_opts raw = read_opts_from [] raw

-- The loop over the pairs stops at the first failure; the function is the broker's answer.
unfoldable pub register_from : (Event → Status) → List Event → List Event → Status × List Event
register_from answer [] registered = (mosq_err_success, registered)
register_from answer (e ∷ rest) registered = elim (answer e) [
  | mosq_err_success ↦ register_from answer rest (e ∷ registered)
  | refusal ↦ (refusal, registered)
]

abbrev pub events : List Event
events = mosq_evt_basic_auth ∷ mosq_evt_acl_check ∷ mosq_evt_disconnect ∷ mosq_evt_message ∷ []

unfoldable pub register_callbacks : (Event → Status) → List Event → Status × List Event
unfolding register_from
register_callbacks answer registered = register_from answer events registered

-- Whether `ConnectNATS` returned a connection.
abbrev pub is_connected : Built Bytes ConnectError → Bool
is_connected (built _) = true
is_connected (refused _) = false

module _ {Db : Type 0} where
  -- After the registration.
  unfoldable pub finish_init :
      Process Db → PluginRuntime (TieredAuthStore Db) → Status × List Event → Status × Process Db
  finish_init proc rt (mosq_err_success, registered) = (
    mosq_err_success,
    record {
      runtime = some rt;
      nats_conn = some true;
      has_plugin_id = true;
      registered = registered;
    },
  )
  finish_init proc rt (rc, registered) = (
    rc,
    record { runtime = none; nats_conn = none; has_plugin_id = true; registered = registered },
  )

  -- A failed build closes the connection, which stays stored.
  unfoldable pub after_build :
      {answers : Answers Db} → (Event → Status) → Process Db → Build answers → Status × Process Db
  after_build answer proc (stopped e p) = (mosq_err_unknown, record proc { nats_conn = some false })
  after_build answer proc (ready rt) =
      finish_init proc rt (register_callbacks answer proc.registered)

  unfoldable pub after_load :
      Answers Db → Dialer → Logger → (Event → Status) → Process Db → Loaded → Status × Process Db
  after_load answers dialer log answer proc (invalid e) = (mosq_err_unknown, proc)
  after_load answers dialer log answer proc (loaded cfg) =
      if not (is_connected (connect_nats dialer cfg.nats_url (some log)).0)
      then (mosq_err_unknown, proc)
      else after_build answer proc (build_runtime answers cfg true true)

  unfoldable pub mosquitto_plugin_init :
      Platform
      → Answers Db
      → Dialer
      → (Event → Status)
      → Process Db
      → List (Option Bytes × Option Bytes)
      → Status × Process Db
  mosquitto_plugin_init env answers dialer answer proc raw_opts =
      after_load answers dialer (new_logger [] log_info) answer proc
        (load_config env (read_opts raw_opts))

module _ (P : Pebble) (env : Platform) where
  -- `Fanout.Stop`, `Store.Close` and `Async.Drain`; their results are discarded.
  unfoldable pub shut_down :
      PluginRuntime (TieredAuthStore P.Db) → PluginRuntime (TieredAuthStore P.Db)
  shut_down rt = record rt {
    fanout = Option.map Fanout.stop rt.fanout;
    store = Option.map (λ s. (TieredStore.close P env s).1) rt.store;
    async = close_queue rt.async;
  }

  -- With the runtime as it was left, if there was one.
  unfoldable pub mosquitto_plugin_cleanup :
      Process P.Db → Status × Process P.Db × Option (PluginRuntime (TieredAuthStore P.Db))
  mosquitto_plugin_cleanup proc = elim proc.runtime [
    | none ↦ (mosq_err_success, proc, none)
    | some rt ↦ (
      mosq_err_success,
      record proc {
        runtime = none;
        nats_conn = none;
        registered = if proc.has_plugin_id then [] else proc.registered;
      },
      some (shut_down rt),
    )
  ]
