-- ===== src/Lifecycle/Held.antt =====
-- What the callbacks of src/plugin/main.go do to the store that the runtime holds.
use mapex_mqttbroker.Common.{
  ℕ, ◌≡◌, refl, ◌∙◌, inl, inr, Bool, not, ◌||◌, ◌⊎◌, Option, none, some, Option-cases, Bool-cases,
  ltb, length, Bytes,
}
use mapex_mqttbroker.Common.Int.{ℤ}
use mapex_mqttbroker.Auth.{
  AuthResult, auth_allow, auth_deny, auth_error, resolve_username, authenticate,
}
use mapex_mqttbroker.AuthStore.{AuthStore}
use mapex_mqttbroker.Callbacks.{
  BasicAuthEvent, DisconnectEvent, MessageEvent, go_string, identity, get_client_cert_serial,
  announce, answer, on_disconnect, on_message, on_basic_auth,
}
use mapex_mqttbroker.Json.{Json}
use mapex_mqttbroker.Lifecycle.Up.{check_lookup_rest}
use mapex_mqttbroker.Platform.{Platform}
use mapex_mqttbroker.Runtime.{
  PluginRuntime, publish, publish_connect, publish_disconnect, publish_ingress, valid_subject_token,
  max_ingress_payload_bytes,
}
use mapex_mqttbroker.Session.{SessionInfo, lookup_session}

module _ {State : Type 0} (env : Platform) where
  publish_store :
      (r : PluginRuntime State) (subject : Bytes) (doc : Option Json)
      → (publish r subject doc).1.store ≡ r.store
  unfolding publish
  publish_store r subject none = refl
  publish_store r subject (some m) = refl

  announce_store :
      (r : PluginRuntime State) (client_id source_ip : Bytes) (now : ℕ) (info : Option SessionInfo)
      → (announce env r client_id source_ip now info).store ≡ r.store
  unfolding announce publish_connect
  announce_store r client_id source_ip now none = refl
  announce_store r client_id source_ip now (some info) = publish_store r _ _

  answer_store :
      (res : AuthResult) (r : PluginRuntime State) (client_id source_ip : Bytes) (now : ℕ)
      → (answer env res r client_id source_ip now).1.store ≡ r.store
  unfolding answer
  answer_store auth_allow r client_id source_ip now = announce_store r client_id source_ip now _
  answer_store auth_deny r client_id source_ip now = refl
  answer_store auth_error r client_id source_ip now = refl

  pub on_disconnect_store :
      (r : PluginRuntime State) (ed : DisconnectEvent) (now : ℕ)
      → (on_disconnect env r ed now).store ≡ r.store
  unfolding on_disconnect publish_disconnect
  on_disconnect_store r ed now =
      elim (Option-cases (lookup_session r.sessions (go_string ed.client.id))) [
        | inl e ↦ rw (e, on_disconnect) refl
        | inr (who, e) ↦ rw (e, on_disconnect) (publish_store r _ _)
      ]

  publish_ingress_store :
      (r : PluginRuntime State) (org_id asset_uuid client_id topic payload : Bytes) (qos : ℤ)
      (retain : Bool) (ts : ℕ)
      → (publish_ingress env r org_id asset_uuid client_id topic payload qos retain ts).1.store
        ≡ r.store
  unfolding publish_ingress
  publish_ingress_store r org_id asset_uuid client_id topic payload qos retain ts =
      elim (Bool-cases (not (valid_subject_token org_id) || not (valid_subject_token asset_uuid))) [
        | inl e ↦ rw (e, publish_ingress) refl
        | inr e ↦ elim (Bool-cases (ltb max_ingress_payload_bytes (length payload))) [
          | inl k ↦ rw (e, k, publish_ingress) refl
          | inr k ↦ rw (e, k, publish_ingress) (publish_store r _ _)
        ]
      ]

  pub on_message_store :
      (r : PluginRuntime State) (ed : MessageEvent) (now : ℕ)
      → (on_message env r ed now).store ≡ r.store
  unfolding on_message
  on_message_store r ed now =
      elim (Option-cases (lookup_session r.sessions (go_string ed.client.id))) [
        | inl e ↦ rw (e, on_message) refl
        | inr (who, e) ↦ rw (e, on_message) (publish_ingress_store r _ _ _ _ _ _ _ _)
      ]

module _ {World : Type 0} (backend : AuthStore World) (env : Platform) where
  -- The store stays, or one `Get` was called.
  abbrev pub Looks : World → Option (backend.State) → Option (backend.State) → Type 0
  Looks world before after =
      (after ≡ before)
      ⊎ ((s : backend.State) × (asset : Bytes) × (before ≡ some s)
          × (after ≡ some (backend.get world s asset).1))

  authenticate_store :
      (world : World) (r : PluginRuntime (backend.State))
      (username password client_id serial : Bytes)
      → Looks world r.store
          (authenticate backend env world r username password client_id serial).1.store
  unfolding authenticate
  authenticate_store world r username password client_id serial =
      elim (Option-cases (resolve_username username)) [
        | inl e ↦ rw (e, authenticate) (inl refl)
        | inr (asset, e) ↦ elim (Option-cases r.store) [
          | inl k ↦ rw (e, k, authenticate) (inl k)
          | inr (s, k) ↦
              let (has_auth, store, async) =
                check_lookup_rest backend env
                  (record r { store = some (backend.get world s asset).1 })
                  (backend.get world s asset).0 asset password client_id serial in
              rw (e, k, authenticate) (inr (s, asset, refl, store))
        ]
      ]

  pub on_basic_auth_store :
      (world : World) (r : PluginRuntime (backend.State)) (ed : BasicAuthEvent) (now : ℕ)
      → Looks world r.store (on_basic_auth backend env world r ed now).1.store
  unfolding on_basic_auth
  on_basic_auth_store world r ed now =
      let same =
        answer_store env
          (authenticate backend env world r (identity ed) (go_string ed.password)
            (go_string ed.client.id) (get_client_cert_serial ed.client)).0
          (authenticate backend env world r (identity ed) (go_string ed.password)
            (go_string ed.client.id) (get_client_cert_serial ed.client)).1
          (go_string ed.client.id) (go_string ed.client.address) now in
      elim (authenticate_store world r (identity ed) (go_string ed.password)
        (go_string ed.client.id) (get_client_cert_serial ed.client)) [
          | inl k ↦ inl (same ∙ k)
          | inr (s, asset, k, m) ↦ inr (s, asset, k, same ∙ m)
        ]
