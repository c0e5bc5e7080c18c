-- ===== src/Callbacks/Traces/Sends.antt =====
-- What one callback of src/plugin/main.go puts on the queue: at most one job, of the device and the
-- organization in the session of the client.
use mapex_mqttbroker.Common.{
  ℕ, ◌≡◌, refl, ap, ◌∙◌, subst, ◌⊎◌, inl, inr, Bool, Option, some, [], ◌∷◌, ◌++◌, Option-cases,
  Bytes,
}
use mapex_mqttbroker.Common.Int.{ℤ}
use mapex_mqttbroker.Auth.{AuthResult, auth_allow, auth_deny, auth_error, authenticate}
use mapex_mqttbroker.AuthStore.{AuthStore}
use mapex_mqttbroker.Callbacks.{
  mosq_err_success, BasicAuthEvent, DisconnectEvent, MessageEvent, go_string, identity,
  get_client_cert_serial, announce, answer, on_disconnect, on_message, on_basic_auth,
}
use mapex_mqttbroker.Callbacks.Sequences.{publish_keeps, answer_keeps}
use mapex_mqttbroker.Config.{Config}
use mapex_mqttbroker.Json.{Json}
use mapex_mqttbroker.Payloads.{PresenceAdvisory, IngressMessage, marshal_presence, marshal_ingress}
use mapex_mqttbroker.Platform.{Platform}
use mapex_mqttbroker.Publisher.{PublishJob}
use mapex_mqttbroker.Runtime.{
  PluginRuntime, publish, publish_connect, publish_disconnect, publish_ingress,
}
use mapex_mqttbroker.Runtime.Ingress.{ingress_subject, publish_lem, publish_ingress_lem}
use mapex_mqttbroker.Session.{SessionInfo, lookup_session}
use mapex_mqttbroker.Auth.Keeps.{authenticate_keeps}
use mapex_mqttbroker.Callbacks.Kept.{publish_ingress_keeps}

-- A job of one device: its presence, or one of its messages under its ingress subject.
pub data JobOf (env : Platform) (c : Config) (who : SessionInfo) (job : PublishJob) : Type 0 where
  presence :
      (a : PresenceAdvisory)
      → a.org_id ≡ who.org_id
      → a.asset_uuid ≡ who.asset_uuid
      → job.subject ≡ c.subject_presence
      → marshal_presence env a ≡ some (job.message)
      → JobOf env c who job
  ingress :
      (m : IngressMessage)
      → m.org_id ≡ who.org_id
      → m.asset_uuid ≡ who.asset_uuid
      → job.subject ≡ ingress_subject c.subject_ingress_prefix who.org_id who.asset_uuid
      → marshal_ingress env m ≡ some (job.message)
      → JobOf env c who job

-- How a callback moves the runtime for the client of `who`: at most one job, which is of `who`.
pub record Sends {State : Type 0} (env : Platform) (who : SessionInfo) (r r' : PluginRuntime State)
    : Type 0 where
  pub config : r'.config ≡ r.config
  pub queue :
      ((job : PublishJob) × JobOf env r.config who job
        × (r'.async.queue ≡ r.async.queue ++ job ∷ []))
      ⊎ (r'.async.queue ≡ r.async.queue)

module _ {State : Type 0} (env : Platform) where
  publish-Sends :
      (r : PluginRuntime State) (who : SessionInfo) (subject : Bytes) (doc : Option Json)
      → ((m : Json)
          → doc ≡ some m
          → JobOf env r.config who (record { subject = subject; message = m }))
      → Sends env who r (publish r subject doc).1
  publish-Sends r who subject doc mine = record {
    config = (publish_keeps env r subject doc).1;
    queue = elim (publish_lem r subject doc) [
      | inl (m, _, e, queued) ↦ inl (_, mine m e, queued)
      | inr (_, kept) ↦ inr kept
    ];
  }

  publish_connect-Sends :
      (r : PluginRuntime State) (who : SessionInfo) (client_id source_ip : Bytes) (ts : ℕ)
      → Sends env who r (publish_connect env r who.org_id who.asset_uuid client_id source_ip ts).1
  unfolding publish_connect
  publish_connect-Sends r who client_id source_ip ts =
      publish-Sends r who _ _ (λ m e. presence _ refl refl refl e)

  publish_disconnect-Sends :
      (r : PluginRuntime State) (who : SessionInfo) (client_id source_ip : Bytes) (code : ℤ)
      (ts : ℕ)
      → Sends env who r
          (publish_disconnect env r who.org_id who.asset_uuid client_id source_ip code ts).1
  unfolding publish_disconnect
  publish_disconnect-Sends r who client_id source_ip code ts =
      publish-Sends r who _ _ (λ m e. presence _ refl refl refl e)

  publish_ingress-Sends :
      (r : PluginRuntime State) (who : SessionInfo) (client_id topic payload : Bytes) (qos : ℤ)
      (retain : Bool) (ts : ℕ)
      → Sends env who r
          (publish_ingress env r who.org_id who.asset_uuid client_id topic payload qos retain ts).1
  publish_ingress-Sends r who client_id topic payload qos retain ts = record {
    config =
        (publish_ingress_keeps env r who.org_id who.asset_uuid client_id topic payload qos retain
          ts).1;
    queue =
        elim (publish_ingress_lem env r who.org_id who.asset_uuid client_id topic payload qos retain
          ts) [
            | inl (m, _, _, _, _, doc, queued) ↦ inl (_, ingress _ refl refl refl doc, queued)
            | inr (_, kept) ↦ inr kept
          ];
  }

  -- A callback for the client `client_id`: what it sends is of the session that the client has.
  abbrev pub SendsFor : PluginRuntime State → PluginRuntime State → Option SessionInfo → Type 0
  SendsFor r r' session =
      ((who : SessionInfo) × (session ≡ some who) × Sends env who r r')
      ⊎ ((r'.config ≡ r.config) × (r'.async.queue ≡ r.async.queue))

  Sends-from :
      (who : SessionInfo) (r s t : PluginRuntime State)
      → (s.async ≡ r.async) × (s.config ≡ r.config)
      → Sends env who s t
      → Sends env who r t
  Sends-from who r s t (a, c) h = record {
    config = h.config ∙ c;
    queue = elim h.queue [
      | inl (job, mine, queued) ↦
          inl
            (job, subst (λ x. JobOf env x who job) c mine, queued ∙ ap (λ x. x.queue ++ job ∷ []) a)
      | inr kept ↦ inr (kept ∙ ap (λ x. x.queue) a)
    ];
  }

  pub on_disconnect-Sends :
      (r : PluginRuntime State) (ed : DisconnectEvent) (now : ℕ)
      → SendsFor r (on_disconnect env r ed now) (lookup_session r.sessions (go_string ed.client.id))
  unfolding on_disconnect
  on_disconnect-Sends r ed now =
      elim (Option-cases (lookup_session r.sessions (go_string ed.client.id))) [
        | inl e ↦ rw (e, on_disconnect) (inr (refl, refl))
        | inr (who, e) ↦
            let sent =
              publish_disconnect-Sends r who (go_string ed.client.id) (go_string ed.client.address)
                ed.reason now in
            rw (e, on_disconnect)
              (inl (who, refl, record { config = sent.config; queue = sent.queue }))
      ]

  pub on_message-Sends :
      (r : PluginRuntime State) (ed : MessageEvent) (now : ℕ)
      → SendsFor r (on_message env r ed now) (lookup_session r.sessions (go_string ed.client.id))
  unfolding on_message
  on_message-Sends r ed now =
      elim (Option-cases (lookup_session r.sessions (go_string ed.client.id))) [
        | inl e ↦ rw (e, on_message) (inr (refl, refl))
        | inr (who, e) ↦
            rw (e, on_message)
              (inl (
                who,
                refl,
                publish_ingress-Sends r who (go_string ed.client.id) (go_string ed.topic) ed.payload
                    ed.qos ed.retain now,
              ))
      ]

  answer-Sends :
      (res : AuthResult) (r : PluginRuntime State) (client_id source_ip : Bytes) (now : ℕ)
      → let out = answer env res r client_id source_ip now in
        ((out.0 ≡ mosq_err_success) × SendsFor r out.1 (lookup_session r.sessions client_id))
        ⊎ (out.1 ≡ r)
  unfolding answer announce
  answer-Sends auth_deny r client_id source_ip now = inr refl
  answer-Sends auth_error r client_id source_ip now = inr refl
  answer-Sends auth_allow r client_id source_ip now =
      elim (Option-cases (lookup_session r.sessions client_id)) [
        | inl e ↦ rw (e, announce) (inl (refl, inr (refl, refl)))
        | inr (who, e) ↦
            rw (e, announce)
              (inl (refl, inl (who, refl, publish_connect-Sends r who client_id source_ip now)))
      ]

module _ {World : Type 0} (backend : AuthStore World) (env : Platform) where
  -- What the callback for a connection sends is of the client's session after it, and it sends only
  -- if it succeeds.
  pub on_basic_auth-Sends :
      (world : World) (r : PluginRuntime (backend.State)) (ed : BasicAuthEvent) (now : ℕ)
      → let out = on_basic_auth backend env world r ed now in
        ((out.0 ≡ mosq_err_success)
          × SendsFor env r out.1 (lookup_session out.1.sessions (go_string ed.client.id)))
        ⊎ ((out.1.config ≡ r.config) × (out.1.async.queue ≡ r.async.queue))
  unfolding on_basic_auth
  on_basic_auth-Sends world r ed now =
      let m =
        authenticate backend env world r (identity ed) (go_string ed.password)
          (go_string ed.client.id) (get_client_cert_serial ed.client) in
      let (a, c) =
        authenticate_keeps backend env world r (identity ed) (go_string ed.password)
          (go_string ed.client.id) (get_client_cert_serial ed.client) in
      let (same_sessions, _, _) =
        answer_keeps env m.0 m.1 (go_string ed.client.id) (go_string ed.client.address) now in
      elim (answer-Sends env m.0 m.1 (go_string ed.client.id) (go_string ed.client.address) now) [
        | inl (success, inl (who, mine, sent)) ↦ inl (
          success,
          inl (
            who,
            ap (λ x. lookup_session x (go_string ed.client.id)) same_sessions ∙ mine,
            Sends-from env who r m.1 _ (a, c) sent,
          ),
        )
        | inl (success, inr (config, queue)) ↦
            inl (success, inr (config ∙ c, queue ∙ ap (λ x. x.queue) a))
        | inr e ↦ inr (ap (λ x. x.config) e ∙ c, ap (λ x. x.async.queue) e ∙ ap (λ x. x.queue) a)
      ]
