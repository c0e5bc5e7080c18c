-- ===== src/Lifecycle/Stored.antt =====
-- What `Get` and `Invalidate` keep up holds of the store as long as the plugin lives.
use mathlib.Core.Option.{some-injective, some-ne-none}
use mapex_mqttbroker.Common.{
  ℕ, ◌≡◌, refl, sym, ◌∙◌, subst, inl, inr, Option, none, some, Bytes, Option-cases, Bool-cases,
  is_empty,
}
use mapex_mqttbroker.Callbacks.{
  Status, mosq_err_success, mosq_err_auth, mosq_err_acl_denied, mosq_err_plugin_defer,
  mosq_err_unknown, BasicAuthEvent, DisconnectEvent, MessageEvent, go_on_basic_auth,
  go_on_disconnect, go_on_message,
}
use mapex_mqttbroker.Fanout.{FanoutConsumer, decode_payload, handle}
use mapex_mqttbroker.Init.{Answers}
use mapex_mqttbroker.Init.Plugin.{Process}
use mapex_mqttbroker.Init.Ready.{Settled, mosquitto_plugin_init-Settled}
use mapex_mqttbroker.Init.Unused.{IsUnused}
use mapex_mqttbroker.Json.{Json}
use mapex_mqttbroker.Lifecycle.{
  Step, Steps, loads, connects, disconnects, messages, takes, publishes, invalidates, unloads, done,
  more,
}
use mapex_mqttbroker.Lifecycle.Held.{on_basic_auth_store, on_disconnect_store, on_message_store}
use mapex_mqttbroker.Lifecycle.Live.{cleanup-unset}
use mapex_mqttbroker.Platform.{Platform}
use mapex_mqttbroker.Runtime.{PluginRuntime}
use mapex_mqttbroker.TieredStore.{TieredAuthStore, get, invalidate, tiered}
use mapex_mqttbroker.TieredStore.Interface.{Pebble, World}

module _ (P : Pebble) (env : Platform) where
  -- What a new store has, and the two methods that the plugin calls keep.
  pub record IsKeptUp (V : TieredAuthStore P.Db → Type 0) : Type 0 where
    pub begins : (s : TieredAuthStore P.Db) → IsUnused s → V s
    pub gets :
        (world : World) (s : TieredAuthStore P.Db) (key : Bytes) → V s → V (get P env world s key).1
    pub invalidates : (s : TieredAuthStore P.Db) (key : Bytes) → V s → V (invalidate P env s key).1

module _ (P : Pebble) (env : Platform) (V : TieredAuthStore P.Db → Type 0)
    (kept : IsKeptUp P env V) where
  abbrev Holds : Option (PluginRuntime (TieredAuthStore P.Db)) → Type 0
  Holds o =
      (rt : PluginRuntime (TieredAuthStore P.Db)) (s : TieredAuthStore P.Db)
      → o ≡ some rt
      → rt.store ≡ some s
      → V s

  none-Holds : Holds none
  none-Holds rt s e k = absurd (some-ne-none rt (sym e))

  -- A runtime with a store that holds.
  some-Holds :
      (rt : PluginRuntime (TieredAuthStore P.Db))
      → ((s : TieredAuthStore P.Db) → rt.store ≡ some s → V s)
      → Holds (some rt)
  some-Holds rt h rt' s e k =
      subst (λ r. (s : TieredAuthStore P.Db) → r.store ≡ some s → V s) (some-injective rt rt' e) h s
        k

  same-Holds :
      (rt rt' : PluginRuntime (TieredAuthStore P.Db))
      → rt'.store ≡ rt.store
      → Holds (some rt)
      → Holds (some rt')
  same-Holds rt rt' e h = some-Holds rt' (λ s k. h rt s refl (sym e ∙ k))

  basic_auth-Holds :
      (world : World) (o : Option (PluginRuntime (TieredAuthStore P.Db)))
      (ed : Option BasicAuthEvent) (now : ℕ)
      → Holds o
      → Holds (go_on_basic_auth (tiered P env) env world o ed now).1
  unfolding go_on_basic_auth
  basic_auth-Holds world none ed now h = none-Holds
  basic_auth-Holds world (some rt) none now h = h
  basic_auth-Holds world (some rt) (some ed) now h =
      elim (on_basic_auth_store (tiered P env) env world rt ed now) [
        | inl e ↦ same-Holds rt _ e h
        | inr (s, asset, e, k) ↦ some-Holds _ (λ t m.
            subst V (some-injective _ t (sym k ∙ m)) (kept.gets world s asset (h rt s refl e)))
      ]

  disconnect-Holds :
      (o : Option (PluginRuntime (TieredAuthStore P.Db))) (ed : Option DisconnectEvent) (now : ℕ)
      → Holds o
      → Holds (go_on_disconnect env o ed now).1
  unfolding go_on_disconnect
  disconnect-Holds none ed now h = none-Holds
  disconnect-Holds (some rt) none now h = h
  disconnect-Holds (some rt) (some ed) now h = same-Holds rt _ (on_disconnect_store env rt ed now) h

  message-Holds :
      (o : Option (PluginRuntime (TieredAuthStore P.Db))) (ed : Option MessageEvent) (now : ℕ)
      → Holds o
      → Holds (go_on_message env o ed now).1
  unfolding go_on_message
  message-Holds none ed now h = none-Holds
  message-Holds (some rt) none now h = h
  message-Holds (some rt) (some ed) now h = same-Holds rt _ (on_message_store env rt ed now) h

  Settled-Holds :
      (answers : Answers P.Db) (out : Status × Process P.Db)
      → Settled answers out
      → Holds (out.1.runtime)
  Settled-Holds answers (mosq_err_success, p) (rt, set, _, unused, _, _, _) =
      rw set (some-Holds rt (λ s k. kept.begins s (unused s k)))
  Settled-Holds answers (mosq_err_auth, p) unset = rw unset none-Holds
  Settled-Holds answers (mosq_err_acl_denied, p) unset = rw unset none-Holds
  Settled-Holds answers (mosq_err_plugin_defer, p) unset = rw unset none-Holds
  Settled-Holds answers (mosq_err_unknown, p) unset = rw unset none-Holds

  handle-Holds :
      (fc : FanoutConsumer) (s : TieredAuthStore P.Db) (body : Option Json)
      → V s
      → V (handle env (tiered P env) fc s body).1
  unfolding handle
  handle-Holds fc s body h = elim (Option-cases (decode_payload env body)) [
    | inl e ↦ rw (e, handle) h
    | inr (uuid, e) ↦ elim (Bool-cases (is_empty uuid)) [
      | inl k ↦ rw (e, k, handle) h
      | inr k ↦ rw (e, k, handle) (kept.invalidates s uuid h)
    ]
  ]

  Step-Holds : {p q : Process P.Db} → Holds p.runtime → Step P env p q → Holds q.runtime
  Step-Holds {p} h (loads answers dialer answer raw_opts unset) =
      Settled-Holds answers _
        (mosquitto_plugin_init-Settled answers env dialer answer p raw_opts unset)
  Step-Holds {p} h (connects world ed now) = basic_auth-Holds world p.runtime ed now h
  Step-Holds {p} h (disconnects ed now) = disconnect-Holds p.runtime ed now h
  Step-Holds {p} h (messages ed now) = message-Holds p.runtime ed now h
  Step-Holds {p} h (takes rt job rest set e) = some-Holds _ (λ s k. h rt s set k)
  Step-Holds {p} h (publishes rt outcome set) = some-Holds _ (λ s k. h rt s set k)
  Step-Holds {p} h (invalidates rt fc s body set served stored) =
      some-Holds _
        (λ t k. subst V (some-injective _ t k) (handle-Holds fc s body (h rt s set stored)))
  Step-Holds {p} h unloads = rw (cleanup-unset P env p) none-Holds

  -- Whatever the broker calls the plugin with and in whatever order: the store of the runtime has
  -- what a new store has and `Get` and `Invalidate` keep. (No runtime is set at the start.)
  pub always_holds :
      {p q : Process P.Db} (run : Steps P env p q) (rt : PluginRuntime (TieredAuthStore P.Db))
      (s : TieredAuthStore P.Db)
      → p.runtime ≡ none
      → q.runtime ≡ some rt
      → rt.store ≡ some s
      → V s
  always_holds done rt s unset set = absurd (some-ne-none rt (sym set ∙ unset))
  always_holds (more run step) rt s unset set =
      Step-Holds (λ r t e k. always_holds run r t unset e k) step rt s set
