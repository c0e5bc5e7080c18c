-- ===== src/Lifecycle/Decision.antt =====
-- What the broker is told at a CONNECT, at any time in the life of the plugin.
use mathlib.Core.Option.{some-injective, some-ne-none}
use mapex_mqttbroker.Common.{ℕ, ◌≡◌, refl, sym, ◌∙◌, ◌≢◌, ◌↔◌, inl, inr, Option, none, some, Bytes}
use mapex_mqttbroker.Acl.Topic.{IsUsername}
use mapex_mqttbroker.Auth.{AuthResult, auth_allow, auth_deny, auth_error, authenticate}
use mapex_mqttbroker.Auth.Checks.{Admits}
use mapex_mqttbroker.Auth.Decision.{authenticate_allow_iff, authenticate_error_iff}
use mapex_mqttbroker.AuthStore.{StoreError, not_found, ok, err}
use mapex_mqttbroker.Callbacks.{
  mosq_err_success, mosq_err_acl_denied, mosq_err_plugin_defer, mosq_err_unknown, BasicAuthEvent,
  go_string, identity, get_client_cert_serial, answer, on_basic_auth, go_on_basic_auth,
}
use mapex_mqttbroker.Entry.{AuthEntry}
use mapex_mqttbroker.Init.Plugin.{Process}
use mapex_mqttbroker.Lifecycle.{Steps}
use mapex_mqttbroker.Lifecycle.Live.{always-IsLive}
use mapex_mqttbroker.Lifecycle.Up.{IsUp}
use mapex_mqttbroker.Platform.{Platform}
use mapex_mqttbroker.Runtime.{PluginRuntime}
use mapex_mqttbroker.TieredStore.{TieredAuthStore, tiered, get}
use mapex_mqttbroker.TieredStore.Interface.{Pebble, World}

answer_status :
    {State : Type 0} (env : Platform) (res : AuthResult) (r : PluginRuntime State)
    (client_id source_ip : Bytes) (now : ℕ)
    → let status = (answer env res r client_id source_ip now).0 in
      ((status ≡ mosq_err_success) ↔ (res ≡ auth_allow))
      × ((status ≡ mosq_err_unknown) ↔ (res ≡ auth_error))
      × (status ≢ mosq_err_plugin_defer)
      × (status ≢ mosq_err_acl_denied)
unfolding answer
answer_status env auth_allow r client_id source_ip now =
    ((λ _. refl, λ _. refl), (λ k. absurd (cc), λ k. absurd (cc)), λ k. cc, λ k. cc)
answer_status env auth_deny r client_id source_ip now =
    ((λ k. absurd (cc), λ k. absurd (cc)), (λ k. absurd (cc), λ k. absurd (cc)), λ k. cc, λ k. cc)
answer_status env auth_error r client_id source_ip now =
    ((λ k. absurd (cc), λ k. absurd (cc)), (λ _. refl, λ _. refl), λ k. cc, λ k. cc)

module _ (P : Pebble) (env : Platform) (world : World) (ed : BasicAuthEvent) where
  -- The store has an entry that the credentials fit.
  abbrev pub Fits : Option (PluginRuntime (TieredAuthStore P.Db)) → Type 0
  Fits o =
      (rt : PluginRuntime (TieredAuthStore P.Db)) × (s : TieredAuthStore P.Db) × (e : AuthEntry)
      × (o ≡ some rt)
      × (rt.store ≡ some s)
      × IsUsername (identity ed)
      × ((get P env world s (identity ed)).0 ≡ ok e)
      × Admits env e (go_string ed.password) (get_client_cert_serial ed.client)

  -- The store cannot say.
  abbrev pub Fails : Option (PluginRuntime (TieredAuthStore P.Db)) → Type 0
  Fails o =
      (rt : PluginRuntime (TieredAuthStore P.Db)) × (s : TieredAuthStore P.Db) × (k : StoreError)
      × (o ≡ some rt)
      × (rt.store ≡ some s)
      × IsUsername (identity ed)
      × ((get P env world s (identity ed)).0 ≡ err k)
      × (k ≢ not_found)

  up_decided :
      (now : ℕ) (rt : PluginRuntime (TieredAuthStore P.Db))
      → IsUp rt
      → let status = (on_basic_auth (tiered P env) env world rt ed now).0 in
        ((status ≡ mosq_err_success) ↔ Fits (some rt))
        × ((status ≡ mosq_err_unknown) ↔ Fails (some rt))
        × (status ≢ mosq_err_plugin_defer)
        × (status ≢ mosq_err_acl_denied)
  unfolding on_basic_auth
  up_decided now rt up =
      let out =
        authenticate (tiered P env) env world rt (identity ed) (go_string ed.password)
          (go_string ed.client.id) (get_client_cert_serial ed.client) in
      let ((status_allow, allow_status), (status_error, error_status), decided, unlisted) =
        answer_status env out.0 out.1 (go_string ed.client.id) (go_string ed.client.address) now in
      let (allow_to, allow_from) =
        authenticate_allow_iff (tiered P env) env world rt (identity ed) (go_string ed.password)
          (go_string ed.client.id) (get_client_cert_serial ed.client) up.compares in
      let (error_to, error_from) =
        authenticate_error_iff (tiered P env) env world rt (identity ed) (go_string ed.password)
          (go_string ed.client.id) (get_client_cert_serial ed.client) up.compares in
      (
        (
          λ h.
              let (valid, (s, e, stored, found, admits)) = allow_to (status_allow h) in
              (rt, s, e, refl, stored, valid, found, admits),
          λ (r, s, e, set, stored, valid, found, admits).
              allow_status
                (allow_from (valid, (s, e, rw (some-injective _ _ set) stored, found, admits))),
        ),
        (
          λ h.
              let (valid, why) = error_to (status_error h) in
              elim why [
                | inl unset ↦ absurd (some-ne-none _ (sym up.stored.1 ∙ unset))
                | inr (s, k, stored, found, other) ↦ (rt, s, k, refl, stored, valid, found, other)
              ],
          λ (r, s, k, set, stored, valid, found, other).
              error_status
                (error_from (valid, inr (s, k, rw (some-injective _ _ set) stored, found, other))),
        ),
        decided,
        unlisted,
      )

  decided :
      (now : ℕ) (o : Option (PluginRuntime (TieredAuthStore P.Db)))
      → ((rt : PluginRuntime (TieredAuthStore P.Db)) → o ≡ some rt → IsUp rt)
      → let status = (go_on_basic_auth (tiered P env) env world o (some ed) now).0 in
        ((status ≡ mosq_err_plugin_defer) ↔ (o ≡ none))
        × ((status ≡ mosq_err_success) ↔ Fits o)
        × ((status ≡ mosq_err_unknown) ↔ Fails o)
        × (status ≢ mosq_err_acl_denied)
  unfolding go_on_basic_auth
  decided now none up = (
    (λ _. refl, λ _. refl),
    (λ h. absurd (cc), λ (rt, s, e, unset, _, _, _, _). absurd (some-ne-none rt (sym unset))),
    (λ h. absurd (cc), λ (rt, s, k, unset, _, _, _, _). absurd (some-ne-none rt (sym unset))),
    λ k. cc,
  )
  decided now (some rt) up =
      let (fits, fails, undeferred, unlisted) = up_decided now rt (up rt refl) in
      ((λ h. absurd (undeferred h), λ unset. absurd (some-ne-none rt unset)), fits, fails, unlisted)

  -- The answer to a CONNECT, whatever came before. The broker is told to ask elsewhere exactly while
  -- the plugin has no runtime. It is told to accept exactly when there is one, the identity is well
  -- formed, and the store answers with an entry for it that is enabled and that the credentials fit
  -- in the one mode which the entry declares: in cert mode the password does not count, and an asset
  -- with a fitting serial is accepted with any or none. It is told of an error, and refuses, exactly when the
  -- store fails otherwise than by not knowing a well-formed identity. In all other cases the answer
  -- is a refusal. (No runtime is set at the start.)
  pub connect_decided :
      (now : ℕ) {p q : Process P.Db}
      → Steps P env p q
      → p.runtime ≡ none
      → let status = (go_on_basic_auth (tiered P env) env world q.runtime (some ed) now).0 in
        ((status ≡ mosq_err_plugin_defer) ↔ (q.runtime ≡ none))
        × ((status ≡ mosq_err_success) ↔ Fits q.runtime)
        × ((status ≡ mosq_err_unknown) ↔ Fails q.runtime)
        × (status ≢ mosq_err_acl_denied)
  connect_decided now {p} {q} run unset =
      decided now q.runtime (λ rt set. (always-IsLive P env run rt unset set).up)
