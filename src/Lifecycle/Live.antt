-- ===== src/Lifecycle/Live.antt =====
-- Whenever the plugin has a runtime, the runtime can serve.
use mathlib.Core.Option.{some-injective, some-ne-none}
use mapex_mqttbroker.Common.{
  ℕ, ◌≡◌, refl, sym, ◌∙◌, subst, inl, inr, true, Option, none, some, arith, Option-cases,
}
use mapex_mqttbroker.Callbacks.{
  Status, mosq_err_success, mosq_err_auth, mosq_err_acl_denied, mosq_err_plugin_defer,
  mosq_err_unknown, BasicAuthEvent, DisconnectEvent, MessageEvent, go_on_basic_auth,
  go_on_disconnect, go_on_message,
}
use mapex_mqttbroker.Init.{Answers}
use mapex_mqttbroker.Init.Plugin.{Process, mosquitto_plugin_cleanup}
use mapex_mqttbroker.Init.Ready.{IsReady, IsRegistered, Settled, mosquitto_plugin_init-Settled}
use mapex_mqttbroker.Init.Shutdown.{cleanup_running, cleanup_stopped}
use mapex_mqttbroker.Lifecycle.{
  Step, Steps, loads, connects, disconnects, messages, takes, publishes, invalidates, unloads, done,
  more,
}
use mapex_mqttbroker.Lifecycle.Up.{
  IsUp, take-IsRunning, publish_one-IsRunning, on_disconnect-IsUp, on_message-IsUp,
  on_basic_auth-IsUp,
}
use mapex_mqttbroker.Platform.{Platform}
use mapex_mqttbroker.Runtime.{PluginRuntime}
use mapex_mqttbroker.TieredStore.{TieredAuthStore, tiered}
use mapex_mqttbroker.TieredStore.Interface.{Pebble, World}

-- The variables are set together, and the broker knows the four callbacks.
pub record IsLive {Db : Type 0} (p : Process Db) (rt : PluginRuntime (TieredAuthStore Db))
    : Type 0 where
  pub up : IsUp rt
  pub connected : p.nats_conn ≡ some true
  pub identified : p.has_plugin_id ≡ true
  pub registered : IsRegistered p.registered

abbrev pub IsSound : {Db : Type 0} → Process Db → Type 0
IsSound {Db} p = (rt : PluginRuntime (TieredAuthStore Db)) → p.runtime ≡ some rt → IsLive p rt

-- A step that replaces the runtime by one that is up if the old one was.
abbrev Keeps :
    {Db : Type 0}
    → Option (PluginRuntime (TieredAuthStore Db))
    → Option (PluginRuntime (TieredAuthStore Db))
    → Type 0
Keeps {Db} before after =
    (rt' : PluginRuntime (TieredAuthStore Db))
    → after ≡ some rt'
    → (rt : PluginRuntime (TieredAuthStore Db)) × (before ≡ some rt) × (IsUp rt → IsUp rt')

module _ {Db : Type 0} where
  Keeps-IsSound :
      (p : Process Db) (after : Option (PluginRuntime (TieredAuthStore Db)))
      → Keeps p.runtime after
      → IsSound p
      → IsSound (record p { runtime = after })
  Keeps-IsSound p after keeps h rt' e =
      let (rt, old, up) = keeps rt' e in
      let live = h rt old in
      record {
        up = up live.up;
        connected = live.connected;
        identified = live.identified;
        registered = live.registered;
      }

  Keeps-some :
      (before : Option (PluginRuntime (TieredAuthStore Db)))
      (rt rt' : PluginRuntime (TieredAuthStore Db))
      → before ≡ some rt
      → (IsUp rt → IsUp rt')
      → Keeps before (some rt')
  Keeps-some before rt rt' old up new e = (rt, old, λ h. subst IsUp (some-injective _ _ e) (up h))

  ready-IsUp : (rt : PluginRuntime (TieredAuthStore Db)) → IsReady rt → IsUp rt
  ready-IsUp rt v = record {
    running = record {
      started = v.started;
      opened = v.opened.0;
      unclosed = v.opened.1;
      manned = v.manned.0;
      roomy = v.manned.1;
      bounded = rw v.empty (omega arith);
    };
    compares = v.compares;
    stored = elim (Option-cases rt.store) [ inl k ↦ absurd (v.stored k) | inr s ↦ s ];
  }

module _ (P : Pebble) (env : Platform) where
  basic_auth-Keeps :
      (world : World) (o : Option (PluginRuntime (TieredAuthStore P.Db)))
      (ed : Option BasicAuthEvent) (now : ℕ)
      → Keeps o (go_on_basic_auth (tiered P env) env world o ed now).1
  unfolding go_on_basic_auth
  basic_auth-Keeps world none ed now rt' e = absurd (some-ne-none _ (sym e))
  basic_auth-Keeps world (some rt) none now rt' e = Keeps-some _ rt rt refl (λ h. h) rt' e
  basic_auth-Keeps world (some rt) (some ed) now rt' e =
      Keeps-some _ rt _ refl (on_basic_auth-IsUp (tiered P env) env world rt ed now) rt' e

  disconnect-Keeps :
      (o : Option (PluginRuntime (TieredAuthStore P.Db))) (ed : Option DisconnectEvent) (now : ℕ)
      → Keeps o (go_on_disconnect env o ed now).1
  unfolding go_on_disconnect
  disconnect-Keeps none ed now rt' e = absurd (some-ne-none _ (sym e))
  disconnect-Keeps (some rt) none now rt' e = Keeps-some _ rt rt refl (λ h. h) rt' e
  disconnect-Keeps (some rt) (some ed) now rt' e =
      Keeps-some _ rt _ refl (on_disconnect-IsUp env rt ed now) rt' e

  message-Keeps :
      (o : Option (PluginRuntime (TieredAuthStore P.Db))) (ed : Option MessageEvent) (now : ℕ)
      → Keeps o (go_on_message env o ed now).1
  unfolding go_on_message
  message-Keeps none ed now rt' e = absurd (some-ne-none _ (sym e))
  message-Keeps (some rt) none now rt' e = Keeps-some _ rt rt refl (λ h. h) rt' e
  message-Keeps (some rt) (some ed) now rt' e =
      Keeps-some _ rt _ refl (on_message-IsUp env rt ed now) rt' e

  -- A loaded process is sound, however the load ended.
  Settled-IsSound :
      (answers : Answers P.Db) (out : Status × Process P.Db) → Settled answers out → IsSound out.1
  Settled-IsSound answers (mosq_err_success, p)
        (rt, set, ready, _, connected, identified, registered) rt' e =
      record {
        up = subst IsUp (some-injective _ _ (sym set ∙ e)) (ready-IsUp rt ready);
        connected = connected;
        identified = identified;
        registered = registered;
      }
  Settled-IsSound answers (mosq_err_auth, p) unset rt e = absurd (some-ne-none rt (sym e ∙ unset))
  Settled-IsSound answers (mosq_err_acl_denied, p) unset rt e =
      absurd (some-ne-none rt (sym e ∙ unset))
  Settled-IsSound answers (mosq_err_plugin_defer, p) unset rt e =
      absurd (some-ne-none rt (sym e ∙ unset))
  Settled-IsSound answers (mosq_err_unknown, p) unset rt e =
      absurd (some-ne-none rt (sym e ∙ unset))

  pub cleanup-unset : (p : Process P.Db) → (mosquitto_plugin_cleanup P env p).1.runtime ≡ none
  cleanup-unset p = elim (Option-cases p.runtime) [
    | inl e ↦ rw (cleanup_stopped P env p e) e
    | inr (rt, e) ↦ (cleanup_running P env p rt e).0
  ]

  Step-IsSound : {p q : Process P.Db} → IsSound p → Step P env p q → IsSound q
  Step-IsSound {p} h (loads answers dialer answer raw_opts unset) =
      Settled-IsSound answers _
        (mosquitto_plugin_init-Settled answers env dialer answer p raw_opts unset)
  Step-IsSound {p} h (connects world ed now) =
      Keeps-IsSound p _ (basic_auth-Keeps world p.runtime ed now) h
  Step-IsSound {p} h (disconnects ed now) = Keeps-IsSound p _ (disconnect-Keeps p.runtime ed now) h
  Step-IsSound {p} h (messages ed now) = Keeps-IsSound p _ (message-Keeps p.runtime ed now) h
  Step-IsSound {p} h (takes rt job rest set e) =
      Keeps-IsSound p _
        (Keeps-some p.runtime rt _ set (λ up. record {
          running = take-IsRunning rt.async job rest e up.running;
          compares = up.compares;
          stored = up.stored;
        }))
        h
  Step-IsSound {p} h (publishes rt outcome set) =
      Keeps-IsSound p _
        (Keeps-some p.runtime rt _ set (λ up. record {
          running = publish_one-IsRunning rt.async outcome up.running;
          compares = up.compares;
          stored = up.stored;
        }))
        h
  Step-IsSound {p} h (invalidates rt fc s body set served stored) =
      Keeps-IsSound p _
        (Keeps-some p.runtime rt _ set
          (λ up. record { running = up.running; compares = up.compares; stored = (_, refl) }))
        h
  Step-IsSound {p} h unloads = λ rt e. absurd (some-ne-none rt (sym e ∙ cleanup-unset p))

  -- Whatever the broker calls the plugin with and in whatever order, loads and unloads included, and
  -- whatever its goroutines do between: whenever a runtime is set, its publisher runs and is open, has
  -- a worker and a place, and its queue keeps to its size; it has an `AuthClient` and a store; the
  -- connection to NATS is open, and the broker knows the four callbacks. (No runtime is set at the
  -- start.)
  pub always-IsLive :
      {p q : Process P.Db} (run : Steps P env p q) (rt : PluginRuntime (TieredAuthStore P.Db))
      → p.runtime ≡ none
      → q.runtime ≡ some rt
      → IsLive q rt
  always-IsLive done rt unset set = absurd (some-ne-none rt (sym set ∙ unset))
  always-IsLive (more run step) rt unset set =
      Step-IsSound (λ r e. always-IsLive run r unset e) step rt set
