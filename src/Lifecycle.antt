-- ===== src/Lifecycle.antt =====
-- The plugin from its load to its unload: src/plugin/main.go as the broker and the plugin's own
-- goroutines drive it.
pub mod Up
pub mod Live
pub mod Held
pub mod Stored
pub mod Books
pub mod Accounted
pub mod Traced
pub mod Decision
mod Tests
use mapex_mqttbroker.Common.{ℕ, ◌≡◌, Option, none, some, List, ◌∷◌, Bytes}
use mapex_mqttbroker.Callbacks.{
  Status, BasicAuthEvent, DisconnectEvent, MessageEvent, go_on_basic_auth, go_on_disconnect,
  go_on_message,
}
use mapex_mqttbroker.Connect.{Dialer}
use mapex_mqttbroker.Fanout.{FanoutConsumer, handle}
use mapex_mqttbroker.Init.{Answers}
use mapex_mqttbroker.Init.Plugin.{Event, Process, mosquitto_plugin_init, mosquitto_plugin_cleanup}
use mapex_mqttbroker.Json.{Json}
use mapex_mqttbroker.Platform.{Platform}
use mapex_mqttbroker.Publisher.{PublishJob, AsyncPublisher, Outcome, publish_one}
use mapex_mqttbroker.Runtime.{PluginRuntime}
use mapex_mqttbroker.TieredStore.{TieredAuthStore, tiered}
use mapex_mqttbroker.TieredStore.Interface.{Pebble, World}

module _ (P : Pebble) (env : Platform) where
  -- What can happen to the process-wide variables. The broker loads a plugin that is not loaded, and
  -- its thread makes one call at a time; between the calls a worker takes a job or publishes one, and
  -- NATS delivers a message to the fanout consumer.
  pub data Step (p : Process P.Db) : Process P.Db → Type 0 where
    loads :
        (answers : Answers P.Db) (dialer : Dialer) (answer : Event → Status)
        (raw_opts : List (Option Bytes × Option Bytes))
        → p.runtime ≡ none
        → Step p (mosquitto_plugin_init env answers dialer answer p raw_opts).1
    connects :
        (world : World) (ed : Option BasicAuthEvent) (now : ℕ)
        → Step p
            (record p { runtime = (go_on_basic_auth (tiered P env) env world p.runtime ed now).1 })
    disconnects :
        (ed : Option DisconnectEvent) (now : ℕ)
        → Step p (record p { runtime = (go_on_disconnect env p.runtime ed now).1 })
    messages :
        (ed : Option MessageEvent) (now : ℕ)
        → Step p (record p { runtime = (go_on_message env p.runtime ed now).1 })
    takes :
        (rt : PluginRuntime (TieredAuthStore P.Db)) (job : PublishJob) (rest : List PublishJob)
        → p.runtime ≡ some rt
        → rt.async.queue ≡ job ∷ rest
        → Step p
            (record p { runtime = some (record rt { async = record (rt.async) { queue = rest } }) })
    publishes :
        (rt : PluginRuntime (TieredAuthStore P.Db)) (outcome : Outcome)
        → p.runtime ≡ some rt
        → Step p (record p { runtime = some (record rt { async = publish_one rt.async outcome }) })
    invalidates :
        (rt : PluginRuntime (TieredAuthStore P.Db)) (fc : FanoutConsumer) (s : TieredAuthStore P.Db)
        (body : Option Json)
        → p.runtime ≡ some rt
        → rt.fanout ≡ some fc
        → rt.store ≡ some s
        → Step p (record p {
          runtime = some (record rt {
            fanout = some (handle env (tiered P env) fc s body).0;
            store = some (handle env (tiered P env) fc s body).1;
          });
        })
    unloads : Step p (mosquitto_plugin_cleanup P env p).1

  pub data Steps (p : Process P.Db) : Process P.Db → Type 0 where
    done : Steps p p
    more : {q r : Process P.Db} → Steps p q → Step q r → Steps p r
