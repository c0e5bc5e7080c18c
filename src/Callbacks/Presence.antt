-- ===== src/Callbacks/Presence.antt =====
-- When src/plugin/main.go announces that a device is there, or gone.
use mapex_mqttbroker.Common.{
  ℕ, ◌<◌, ◌≡◌, sym, ◌∙◌, subst, ◌≢◌, inl, inr, true, false, Option, some, [], ◌∷◌, ◌++◌, arith,
  length, Bytes, same_refl, is_empty_iff,
}
use mapex_mqttbroker.Common.Int.{ℤ, pos}
use mapex_mqttbroker.Auth.{AuthResult, auth_allow}
use mapex_mqttbroker.AuthStore.{AuthStore, ok}
use mapex_mqttbroker.Callbacks.{
  mosq_err_success, BasicAuthEvent, DisconnectEvent, go_string, identity, get_client_cert_serial,
  announce, answer, on_disconnect, on_basic_auth,
}
use mapex_mqttbroker.Callbacks.Sequences.{on_basic_auth_sessions, answer_keeps}
use mapex_mqttbroker.Auth.Keeps.{authenticate_keeps}
use mapex_mqttbroker.Entry.{AuthEntry}
use mapex_mqttbroker.Json.{Json}
use mapex_mqttbroker.Payloads.{
  PresenceAdvisory, event_connect, event_disconnect, map_disconnect_reason, marshal_presence,
}
use mapex_mqttbroker.Platform.{Platform}
use mapex_mqttbroker.Publisher.{PublishJob, AsyncPublisher, enqueue, try_send}
use mapex_mqttbroker.Runtime.{PluginRuntime, publish, publish_connect, publish_disconnect}
use mapex_mqttbroker.Session.{SessionInfo, lookup_session, lookup_session-remember_session}

-- The publisher runs, is open, and has room for one more job.
pub record HasRoom (p : AsyncPublisher) : Type 0 where
  pub started : p.started ≡ true
  pub opened : p.closed ≡ false
  pub room : length p.queue < p.buffer_size

abbrev connect_advisory : SessionInfo → Bytes → Bytes → ℕ → PresenceAdvisory
connect_advisory who client_id source_ip now = record {
  event = event_connect;
  org_id = who.org_id;
  asset_uuid = who.asset_uuid;
  client_id = client_id;
  source_ip = source_ip;
  timestamp = now;
  reason_code = pos 0;
  reason_text = [];
}

abbrev disconnect_advisory : SessionInfo → Bytes → Bytes → ℤ → ℕ → PresenceAdvisory
disconnect_advisory who client_id source_ip reason now = record {
  event = event_disconnect;
  org_id = who.org_id;
  asset_uuid = who.asset_uuid;
  client_id = client_id;
  source_ip = source_ip;
  timestamp = now;
  reason_code = reason;
  reason_text = map_disconnect_reason reason;
}

enqueue_room :
    (p : AsyncPublisher) (job : PublishJob)
    → HasRoom p
    → (enqueue p job).1.queue ≡ p.queue ++ job ∷ []
unfolding enqueue try_send
enqueue_room p job h = ground arith

module _ {State : Type 0} (env : Platform) where
  pub publish_room :
      (r : PluginRuntime State) (subject : Bytes) (doc : Option Json) (m : Json)
      → doc ≡ some m
      → HasRoom r.async
      → (publish r subject doc).1.async.queue
        ≡ r.async.queue ++ record { subject = subject; message = m } ∷ []
  unfolding publish
  publish_room r subject doc m e h = rw (e, publish) (enqueue_room r.async _ h)

  answer_room :
      (r : PluginRuntime State) (who : SessionInfo) (client_id source_ip : Bytes) (now : ℕ)
      (m : Json)
      → lookup_session r.sessions client_id ≡ some who
      → marshal_presence env (connect_advisory who client_id source_ip now) ≡ some m
      → HasRoom r.async
      → (answer env auth_allow r client_id source_ip now).1.async.queue
        ≡ r.async.queue ++ record { subject = r.config.subject_presence; message = m } ∷ []
  unfolding answer announce publish_connect
  answer_room r who client_id source_ip now m e doc h =
      rw (e, announce) (publish_room r r.config.subject_presence _ m doc h)

  -- The same where the runtime differs from the earlier one in the session map only.
  answer_sent :
      (res : AuthResult) (out r : PluginRuntime State) (who : SessionInfo)
      (client_id source_ip : Bytes) (now : ℕ) (m : Json)
      → (answer env res out client_id source_ip now).0 ≡ mosq_err_success
      → lookup_session (answer env res out client_id source_ip now).1.sessions client_id ≡ some who
      → marshal_presence env (connect_advisory who client_id source_ip now) ≡ some m
      → out.async ≡ r.async
      → out.config ≡ r.config
      → HasRoom r.async
      → (answer env res out client_id source_ip now).1.async.queue
        ≡ r.async.queue ++ record { subject = r.config.subject_presence; message = m } ∷ []
  answer_sent res out r who client_id source_ip now m success looked doc async config h =
      let (kept, _, status) = answer_keeps env res out client_id source_ip now in
      rw (status.0 success) (
        answer_room out who client_id source_ip now m (rw kept at looked) doc
          (subst HasRoom (sym async) h)
        ∙ rw (async, config))

  -- A disconnect of a client with a session is announced, if the publisher runs, is open and has
  -- room and the advisory can be marshalled: the queue has one more job, which is the advisory
  -- that names the organization and the asset of the session with the broker's reason and its
  -- label, under the presence subject.
  pub disconnect_announced :
      (r : PluginRuntime State) (ed : DisconnectEvent) (now : ℕ) (who : SessionInfo) (m : Json)
      → lookup_session r.sessions (go_string ed.client.id) ≡ some who
      → marshal_presence env (
          disconnect_advisory who
            (go_string ed.client.id)
            (go_string ed.client.address)
            ed.reason
            now)
        ≡ some m
      → HasRoom r.async
      → (on_disconnect env r ed now).async.queue
        ≡ r.async.queue ++ record { subject = r.config.subject_presence; message = m } ∷ []
  unfolding on_disconnect publish_disconnect
  disconnect_announced r ed now who m e doc h =
      rw (e, on_disconnect) (publish_room r r.config.subject_presence _ m doc h)

module _ {World : Type 0} (backend : AuthStore World) (env : Platform) where
  -- Who is admitted has the session of the entry that the store returned.
  admitted_session :
      (world : World) (r : PluginRuntime (backend.State)) (ed : BasicAuthEvent) (now : ℕ)
      (s : backend.State) (e : AuthEntry)
      → (on_basic_auth backend env world r ed now).0 ≡ mosq_err_success
      → go_string ed.client.id ≢ []
      → r.store ≡ some s
      → (backend.get world s (identity ed)).0 ≡ ok e
      → lookup_session
          (on_basic_auth backend env world r ed now).1.sessions
          (go_string ed.client.id)
        ≡ some (record { org_id = e.org_id; asset_uuid = identity ed })
  admitted_session world r ed now s e success named stored found =
      elim (on_basic_auth_sessions backend env world r ed now) [
        | inl (s', e', stored', found', _, sessions) ↦
            let same_entry : e' ≡ e = cc in
            rw (sessions, same_entry, lookup_session-remember_session)
              (ground
                (arith, same_refl (go_string ed.client.id), is_empty_iff (go_string ed.client.id)))
        | inr (refused, _) ↦ absurd (refused success)
      ]

  -- Every admission is announced, if the publisher runs, is open and has room and the advisory can
  -- be marshalled: where the callback admits a client under a client id that is not empty, the
  -- queue has one more job, which is the advisory that names the organization in the entry that
  -- the store returned, and the device, under the presence subject.
  pub admission_announced :
      (world : World) (r : PluginRuntime (backend.State)) (ed : BasicAuthEvent) (now : ℕ)
      (s : backend.State) (e : AuthEntry) (m : Json)
      → (on_basic_auth backend env world r ed now).0 ≡ mosq_err_success
      → go_string ed.client.id ≢ []
      → r.store ≡ some s
      → (backend.get world s (identity ed)).0 ≡ ok e
      → marshal_presence env (
          connect_advisory
            (record { org_id = e.org_id; asset_uuid = identity ed })
            (go_string ed.client.id)
            (go_string ed.client.address)
            now)
        ≡ some m
      → HasRoom r.async
      → (on_basic_auth backend env world r ed now).1.async.queue
        ≡ r.async.queue ++ record { subject = r.config.subject_presence; message = m } ∷ []
  unfolding on_basic_auth
  admission_announced world r ed now s e m success named stored found doc h =
      let (async, config) =
        authenticate_keeps backend env world r (identity ed) (go_string ed.password)
          (go_string ed.client.id) (get_client_cert_serial ed.client) in
      answer_sent env _ _ r _ (go_string ed.client.id) (go_string ed.client.address) now m success
        (admitted_session world r ed now s e success named stored found) doc async config h
