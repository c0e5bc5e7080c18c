-- ===== src/Lifecycle/Traced.antt =====
-- The life of one runtime, between a load and the next unload, is a run of Callbacks/Traces.
use mapex_mqttbroker.Common.{◌≡◌, Option, some, []}
use mapex_mqttbroker.Callbacks.Traces.{Trace, Events}
use mapex_mqttbroker.Callbacks.Traces.Owned.{IsFresh}
use mapex_mqttbroker.Lifecycle
use mapex_mqttbroker.Platform.{Platform}
use mapex_mqttbroker.Runtime.{PluginRuntime}
use mapex_mqttbroker.TieredStore.{TieredAuthStore, tiered}
use mapex_mqttbroker.TieredStore.Interface.{Pebble}

module _ (P : Pebble) (env : Platform) where
  abbrev pub start_trace : PluginRuntime (TieredAuthStore P.Db) → Trace (TieredAuthStore P.Db)
  start_trace r = record { runtime = r; granted = []; taken = [] }

  -- The runtime is the end of a run from a runtime with no session and no job.
  pub record IsTraced (rt : PluginRuntime (TieredAuthStore P.Db)) : Type 0 where
    pub first : PluginRuntime (TieredAuthStore P.Db)
    pub begun : IsFresh (tiered P env) env first.config first
    pub now : Trace (TieredAuthStore P.Db)
    pub run : Events (tiered P env) env (start_trace first) now
    pub ends : now.runtime ≡ rt

  abbrev AllTraced : Option (PluginRuntime (TieredAuthStore P.Db)) → Type 0
  AllTraced o = (rt : PluginRuntime (TieredAuthStore P.Db)) → o ≡ some rt → IsTraced rt
