-- ===== src/Callbacks/Sequences.antt =====
-- What the callbacks of src/plugin/main.go do one after the other.
use mapex_mqttbroker.Common.{
  ℕ, ◌≡◌, refl, ap, ◌∙◌, ◌≢◌, ◌↔◌, ◌⊎◌, inl, inr, Option, none, some, [], ◌∷◌, ◌++◌, arith,
  Option-cases, is_empty_iff, Bytes, same_iff, same_refl,
}
use mapex_mqttbroker.Auth.{AuthResult, auth_allow, auth_deny, auth_error, authenticate}
use mapex_mqttbroker.Auth.Decision.{authenticate_sessions}
use mapex_mqttbroker.AuthStore.{AuthStore, ok}
use mapex_mqttbroker.Callbacks.{
  mosq_err_success, BasicAuthEvent, DisconnectEvent, MessageEvent, go_string,
  get_client_cert_serial, identity, announce, answer, on_disconnect, on_message, on_basic_auth,
}
use mapex_mqttbroker.Entry.{AuthEntry}
use mapex_mqttbroker.Json.{Json}
use mapex_mqttbroker.Platform.{Platform}
use mapex_mqttbroker.Runtime.{PluginRuntime, publish, publish_connect, publish_disconnect}
use mapex_mqttbroker.Runtime.Ingress.{ingress_subject, publish_ingress_lem}
use mapex_mqttbroker.Session.{
  SessionInfo, remember_session, lookup_session, lookup_session-remember_session,
  lookup_session-forget_session,
}

module _ {State : Type 0} (env : Platform) where
  -- Publishing leaves the session map and the configuration alone.
  pub publish_keeps :
      (r : PluginRuntime State) (subject : Bytes) (doc : Option Json)
      → ((publish r subject doc).1.sessions ≡ r.sessions)
        × ((publish r subject doc).1.config ≡ r.config)
  unfolding publish
  publish_keeps r subject none = (refl, refl)
  publish_keeps r subject (some m) = (refl, refl)

  announce_keeps :
      (r : PluginRuntime State) (client_id source_ip : Bytes) (now : ℕ) (info : Option SessionInfo)
      → ((announce env r client_id source_ip now info).sessions ≡ r.sessions)
        × ((announce env r client_id source_ip now info).config ≡ r.config)
  unfolding announce publish_connect
  announce_keeps r client_id source_ip now none = (refl, refl)
  announce_keeps r client_id source_ip now (some info) = publish_keeps r _ _

  on_disconnect_sessions :
      (r : PluginRuntime State) (ed : DisconnectEvent) (now : ℕ)
      → lookup_session (on_disconnect env r ed now).sessions (go_string ed.client.id) ≡ none
  unfolding on_disconnect publish_disconnect
  on_disconnect_sessions r ed now =
      elim (Option-cases (lookup_session r.sessions (go_string ed.client.id))) [
        | inl e ↦ rw (e, on_disconnect) e
        | inr (info, e) ↦ rw (e, on_disconnect) (lookup_session-forget_session _ _ _ ∙ rw same_refl)
      ]

  on_message_of_none :
      (r : PluginRuntime State) (ed : MessageEvent) (now : ℕ)
      → lookup_session r.sessions (go_string ed.client.id) ≡ none
      → on_message env r ed now ≡ r
  unfolding on_message
  on_message_of_none r ed now e = rw (e, on_message)

  -- After a disconnect event for a client id a message under that client id is discarded: it
  -- leaves the runtime as it was, whatever the session map held, and so also where the client id
  -- has connected anew before the event.
  on_message-on_disconnect :
      (r : PluginRuntime State) (gone : DisconnectEvent) (ed : MessageEvent) (now later : ℕ)
      → go_string ed.client.id ≡ go_string gone.client.id
      → on_message env (on_disconnect env r gone now) ed later ≡ on_disconnect env r gone now
  on_message-on_disconnect r gone ed now later e =
      on_message_of_none (on_disconnect env r gone now) ed later (
        ap (lookup_session (on_disconnect env r gone now).sessions) e
        ∙ on_disconnect_sessions r gone now)

  on_message_of_some :
      (r : PluginRuntime State) (ed : MessageEvent) (now : ℕ) (info : SessionInfo)
      → lookup_session r.sessions (go_string ed.client.id) ≡ some info
      → ((m : Json) × ((on_message env r ed now).async.queue
            ≡ r.async.queue
              ++ record {
                subject =
                    ingress_subject r.config.subject_ingress_prefix info.org_id info.asset_uuid;
                message = m;
              }
                ∷ []))
        ⊎ ((on_message env r ed now).async.queue ≡ r.async.queue)
  unfolding on_message
  on_message_of_some r ed now info e =
      rw (e, on_message)
        (elim (publish_ingress_lem env r info.org_id info.asset_uuid (go_string ed.client.id)
          (go_string ed.topic) ed.payload ed.qos ed.retain now) [
            | inl (m, _, _, _, _, _, queued) ↦ inl (m, queued)
            | inr (_, kept) ↦ inr kept
          ])

  pub answer_keeps :
      (res : AuthResult) (r : PluginRuntime State) (client_id source_ip : Bytes) (now : ℕ)
      → ((answer env res r client_id source_ip now).1.sessions ≡ r.sessions)
        × ((answer env res r client_id source_ip now).1.config ≡ r.config)
        × (((answer env res r client_id source_ip now).0 ≡ mosq_err_success) ↔ (res ≡ auth_allow))
  unfolding answer
  answer_keeps auth_allow r client_id source_ip now =
      let (s, c) = announce_keeps r client_id source_ip now (lookup_session r.sessions client_id) in
      (s, c, (λ _. refl, λ _. refl))
  answer_keeps auth_deny r client_id source_ip now =
      (refl, refl, (λ k. absurd (cc), λ k. absurd (cc)))
  answer_keeps auth_error r client_id source_ip now =
      (refl, refl, (λ k. absurd (cc), λ k. absurd (cc)))

module _ {World : Type 0} (backend : AuthStore World) (env : Platform) (world : World)
    (r : PluginRuntime (backend.State)) (ed : BasicAuthEvent) (now : ℕ) where
  -- The session map after the callback: unchanged unless it succeeds, and then the client has the
  -- organization of the entry that the store returned, and its own identity.
  pub on_basic_auth_sessions :
      let out = on_basic_auth backend env world r ed now in
      ((s : backend.State) × (e : AuthEntry) × (r.store ≡ some s)
        × ((backend.get world s (identity ed)).0 ≡ ok e)
        × (out.0 ≡ mosq_err_success)
        × (out.1.sessions
            ≡ remember_session r.sessions (go_string ed.client.id) e.org_id (identity ed)))
      ⊎ ((out.0 ≢ mosq_err_success) × (out.1.sessions ≡ r.sessions))
  unfolding on_basic_auth
  on_basic_auth_sessions =
      let out =
        authenticate backend env world r (identity ed) (go_string ed.password)
          (go_string ed.client.id) (get_client_cert_serial ed.client) in
      let (kept, _, status) =
        answer_keeps env out.0 out.1 (go_string ed.client.id) (go_string ed.client.address) now in
      elim (authenticate_sessions backend env world r (identity ed) (go_string ed.password)
        (go_string ed.client.id) (get_client_cert_serial ed.client)) [
          | inl (s, e, stored, found, allowed, sessions) ↦
              inl (s, e, stored, found, status.1 allowed, kept ∙ sessions)
          | inr (refused, sessions) ↦ inr (λ k. refused (status.0 k), kept ∙ sessions)
        ]

  -- The callback for one client leaves the session of every other client alone.
  on_basic_auth-others :
      (other : Bytes)
      → other ≢ go_string ed.client.id
      → lookup_session (on_basic_auth backend env world r ed now).1.sessions other
        ≡ lookup_session r.sessions other
  on_basic_auth-others other h = elim on_basic_auth_sessions [
    | inl (s, e, _, _, _, sessions) ↦
        rw (sessions, lookup_session-remember_session)
          (ground (arith, same_iff (go_string ed.client.id) other))
    | inr (_, sessions) ↦ rw sessions
  ]

  -- A client that the callback admitted under a client id that is not empty publishes only as the
  -- device that it authenticated as: a message under that client id, with no event between,
  -- changes the queue at most by one job, under the subject of the organization in the entry that
  -- the store returned for the device, and of the device.
  connect_then_message :
      (msg : MessageEvent) (later : ℕ)
      → (on_basic_auth backend env world r ed now).0 ≡ mosq_err_success
      → go_string ed.client.id ≢ []
      → go_string msg.client.id ≡ go_string ed.client.id
      → let admitted = (on_basic_auth backend env world r ed now).1 in
        let after = on_message env admitted msg later in
        (s : backend.State) × (e : AuthEntry) × (r.store ≡ some s)
        × ((backend.get world s (identity ed)).0 ≡ ok e)
        × (((m : Json) × (after.async.queue
                ≡ admitted.async.queue
                  ++ record {
                    subject =
                        ingress_subject admitted.config.subject_ingress_prefix e.org_id
                          (identity ed);
                    message = m;
                  }
                    ∷ []))
            ⊎ (after.async.queue ≡ admitted.async.queue))
  connect_then_message msg later success named mine = elim on_basic_auth_sessions [
    | inl (s, e, stored, found, _, sessions) ↦
        let admitted = (on_basic_auth backend env world r ed now).1 in
        let info : SessionInfo = record { org_id = e.org_id; asset_uuid = identity ed } in
        let looked : lookup_session admitted.sessions (go_string msg.client.id) ≡ some info =
          rw (mine, sessions, lookup_session-remember_session)
            (ground
              (arith, same_refl (go_string ed.client.id), is_empty_iff (go_string ed.client.id))) in
        (s, e, stored, found, on_message_of_some env admitted msg later info looked)
    | inr (refused, _) ↦ absurd (refused success)
  ]
