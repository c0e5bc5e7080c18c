-- ===== src/Lifecycle/Up.antt =====
-- What the callbacks of src/plugin/main.go keep up: a runtime that can serve the next one.
use mapex_mqttbroker.Common.{
  ℕ, ◌≤◌, ◌<◌, ◌≡◌, inl, inr, true, false, Option, none, some, List, [], ◌∷◌, arith, Option-cases,
  length, length-append, Bytes, Bool, Bool-cases, not, ◌||◌, ltb,
}
use mapex_mqttbroker.Common.Int.{ℤ}
use mapex_mqttbroker.Auth.{
  AuthResult, auth_allow, auth_deny, auth_error, allow, check_cert, check_password, check_entry,
  check_lookup, resolve_username, authenticate,
}
use mapex_mqttbroker.AuthStore.{AuthStore, Result, ok, err}
use mapex_mqttbroker.Callbacks.{
  BasicAuthEvent, DisconnectEvent, MessageEvent, go_string, identity, get_client_cert_serial,
  announce, answer, on_disconnect, on_message, on_basic_auth,
}
use mapex_mqttbroker.Entry.{AuthEntry}
use mapex_mqttbroker.Json.{Json}
use mapex_mqttbroker.Platform.{Platform}
use mapex_mqttbroker.Publisher.{
  PublishJob, AsyncPublisher, Outcome, delivered, rejected, panicked, publish_one, enqueue,
  drop_one, drop_no_start, try_send,
}
use mapex_mqttbroker.Runtime.{
  PluginRuntime, publish, publish_connect, publish_disconnect, publish_ingress, valid_subject_token,
  max_ingress_payload_bytes,
}
use mapex_mqttbroker.Session.{SessionInfo, lookup_session}

-- The publisher runs and is open, has a worker and a place, and its queue keeps to its size.
pub record IsRunning (p : AsyncPublisher) : Type 0 where
  pub started : p.started ≡ true
  pub opened : p.closed ≡ false
  pub unclosed : p.queue_closed ≡ false
  pub manned : 0 < p.workers
  pub roomy : 0 < p.buffer_size
  pub bounded : length p.queue ≤ p.buffer_size

enqueue-IsRunning :
    (p : AsyncPublisher) (job : PublishJob) → IsRunning p → IsRunning (enqueue p job).1
unfolding enqueue try_send drop_one drop_no_start
enqueue-IsRunning p job h = ground (arith, length-append p.queue (job ∷ []))

drop_one-IsRunning : (p : AsyncPublisher) → IsRunning p → IsRunning (drop_one p)
unfolding drop_one
drop_one-IsRunning p h = ground arith

pub publish_one-IsRunning :
    (p : AsyncPublisher) (outcome : Outcome) → IsRunning p → IsRunning (publish_one p outcome)
unfolding publish_one
publish_one-IsRunning p delivered h = ground arith
publish_one-IsRunning p rejected h = ground arith
publish_one-IsRunning p panicked h = ground arith

pub take-IsRunning :
    (p : AsyncPublisher) (job : PublishJob) (rest : List PublishJob)
    → p.queue ≡ job ∷ rest
    → IsRunning p
    → IsRunning (record p { queue = rest })
take-IsRunning p job rest e h =
    let bound : length (job ∷ rest) ≤ p.buffer_size = rw e at h.bounded in ground arith

-- The runtime can authenticate and publish.
pub record IsUp {State : Type 0} (rt : PluginRuntime State) : Type 0 where
  pub running : IsRunning rt.async
  pub compares : rt.has_auth ≡ true
  pub stored : (s : State) × (rt.store ≡ some s)

module _ {State : Type 0} (env : Platform) where
  publish-IsUp :
      (r : PluginRuntime State) (subject : Bytes) (doc : Option Json)
      → IsUp r
      → IsUp (publish r subject doc).1
  unfolding publish
  publish-IsUp r subject none h = record {
    running = drop_one-IsRunning r.async h.running;
    compares = h.compares;
    stored = h.stored;
  }
  publish-IsUp r subject (some m) h = record {
    running = enqueue-IsRunning r.async _ h.running;
    compares = h.compares;
    stored = h.stored;
  }

  publish_ingress-IsUp :
      (r : PluginRuntime State) (org_id asset_uuid client_id topic payload : Bytes) (qos : ℤ)
      (retain : Bool) (ts : ℕ)
      → IsUp r
      → IsUp (publish_ingress env r org_id asset_uuid client_id topic payload qos retain ts).1
  unfolding publish_ingress
  publish_ingress-IsUp r org_id asset_uuid client_id topic payload qos retain ts h =
      let dropped : IsUp (record r { async = drop_one r.async }) = record {
        running = drop_one-IsRunning r.async h.running;
        compares = h.compares;
        stored = h.stored;
      } in
      elim (Bool-cases (not (valid_subject_token org_id) || not (valid_subject_token asset_uuid))) [
        | inl e ↦ rw (e, publish_ingress) dropped
        | inr e ↦ elim (Bool-cases (ltb max_ingress_payload_bytes (length payload))) [
          | inl k ↦ rw (e, k, publish_ingress) dropped
          | inr k ↦ rw (e, k, publish_ingress) (publish-IsUp r _ _ h)
        ]
      ]

  announce-IsUp :
      (r : PluginRuntime State) (client_id source_ip : Bytes) (now : ℕ) (info : Option SessionInfo)
      → IsUp r
      → IsUp (announce env r client_id source_ip now info)
  unfolding announce publish_connect
  announce-IsUp r client_id source_ip now none h = h
  announce-IsUp r client_id source_ip now (some info) h = publish-IsUp r _ _ h

  answer-IsUp :
      (res : AuthResult) (r : PluginRuntime State) (client_id source_ip : Bytes) (now : ℕ)
      → IsUp r
      → IsUp (answer env res r client_id source_ip now).1
  unfolding answer
  answer-IsUp auth_allow r client_id source_ip now h = announce-IsUp r client_id source_ip now _ h
  answer-IsUp auth_deny r client_id source_ip now h = h
  answer-IsUp auth_error r client_id source_ip now h = h

  pub on_disconnect-IsUp :
      (r : PluginRuntime State) (ed : DisconnectEvent) (now : ℕ)
      → IsUp r
      → IsUp (on_disconnect env r ed now)
  unfolding on_disconnect publish_disconnect
  on_disconnect-IsUp r ed now h =
      elim (Option-cases (lookup_session r.sessions (go_string ed.client.id))) [
        | inl e ↦ rw (e, on_disconnect) h
        | inr (who, e) ↦
            let sent = publish-IsUp r _ _ h in
            rw (e, on_disconnect)
              (record { running = sent.running; compares = sent.compares; stored = sent.stored })
      ]

  pub on_message-IsUp :
      (r : PluginRuntime State) (ed : MessageEvent) (now : ℕ)
      → IsUp r
      → IsUp (on_message env r ed now)
  unfolding on_message
  on_message-IsUp r ed now h =
      elim (Option-cases (lookup_session r.sessions (go_string ed.client.id))) [
        | inl e ↦ rw (e, on_message) h
        | inr (who, e) ↦ rw (e, on_message) (publish_ingress-IsUp r _ _ _ _ _ _ _ _ h)
      ]

  check_entry_rest :
      (r : PluginRuntime State) (e : AuthEntry) (asset password client_id serial : Bytes)
      → let r' = (check_entry env r e asset password client_id serial).1 in
        (r'.has_auth ≡ r.has_auth) × (r'.store ≡ r.store) × (r'.async ≡ r.async)
  unfolding check_entry check_cert check_password allow
  check_entry_rest r e asset password client_id serial = ground arith

module _ {World : Type 0} (backend : AuthStore World) (env : Platform) where
  pub check_lookup_rest :
      (r : PluginRuntime (backend.State)) (found : Result AuthEntry)
      (asset password client_id serial : Bytes)
      → let r' = (check_lookup backend env r found asset password client_id serial).1 in
        (r'.has_auth ≡ r.has_auth) × (r'.store ≡ r.store) × (r'.async ≡ r.async)
  unfolding check_lookup
  check_lookup_rest r (err e) asset password client_id serial = ground arith
  check_lookup_rest r (ok e) asset password client_id serial =
      check_entry_rest env r e asset password client_id serial

  authenticate-IsUp :
      (world : World) (r : PluginRuntime (backend.State))
      (username password client_id serial : Bytes)
      → IsUp r
      → IsUp (authenticate backend env world r username password client_id serial).1
  unfolding authenticate
  authenticate-IsUp world r username password client_id serial h =
      elim (Option-cases (resolve_username username)) [
        | inl e ↦ rw (e, authenticate) h
        | inr (asset, e) ↦ elim (Option-cases r.store) [
          | inl k ↦ rw (e, k, authenticate) h
          | inr (s, k) ↦
              let (has_auth, store, async) =
                check_lookup_rest (record r { store = some (backend.get world s asset).1 })
                  (backend.get world s asset).0 asset password client_id serial in
              rw (e, k, authenticate)
                (record {
                  running = rw async h.running;
                  compares = rw has_auth h.compares;
                  stored = (_, store);
                })
        ]
      ]

  pub on_basic_auth-IsUp :
      (world : World) (r : PluginRuntime (backend.State)) (ed : BasicAuthEvent) (now : ℕ)
      → IsUp r
      → IsUp (on_basic_auth backend env world r ed now).1
  unfolding on_basic_auth
  on_basic_auth-IsUp world r ed now h =
      answer-IsUp env _ _ (go_string ed.client.id) (go_string ed.client.address) now (
        authenticate-IsUp world r (identity ed) (go_string ed.password) (go_string ed.client.id)
          (get_client_cert_serial ed.client) h)
