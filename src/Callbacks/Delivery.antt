-- ===== src/Callbacks/Delivery.antt =====
-- A message of a device, from the callback for it to a subscriber of its ingress subject.
use mapex_mqttbroker.Common.{
  ℕ, ◌≤◌, ◌≡◌, refl, ◌∙◌, ◌≢◌, true, false, some, [], ◌∷◌, ◌++◌, arith, ltb, length, Bytes,
}
use mapex_mqttbroker.AuthStore.{AuthStore}
use mapex_mqttbroker.Callbacks.{MessageEvent, go_string, on_message}
use mapex_mqttbroker.Callbacks.Presence.{HasRoom, publish_room}
use mapex_mqttbroker.Callbacks.Traces.{Trace, Events}
use mapex_mqttbroker.Callbacks.Traces.Sessions.{standing, notes, sessions_stand}
use mapex_mqttbroker.Json.{Json}
use mapex_mqttbroker.Payloads.{IngressMessage, marshal_ingress}
use mapex_mqttbroker.Payloads.ReadBack.{IsIngressText, read_ingress, read_ingress-marshal_ingress}
use mapex_mqttbroker.Platform.{Platform, ReadsTime}
use mapex_mqttbroker.Runtime.{
  PluginRuntime, max_ingress_payload_bytes, valid_subject_token, publish_ingress,
}
use mapex_mqttbroker.Runtime.Ingress.{ingress_subject}
use mapex_mqttbroker.Runtime.Token.{IsLiteral, valid_subject_token_iff}
use mapex_mqttbroker.Session.{SessionInfo, lookup_session}

-- What a subscriber should get of the event.
abbrev pub message_from : SessionInfo → MessageEvent → ℕ → IngressMessage
message_from who ed now = record {
  org_id = who.org_id;
  asset_uuid = who.asset_uuid;
  client_id = go_string ed.client.id;
  topic = go_string ed.topic;
  payload = ed.payload;
  qos = ed.qos;
  retain = ed.retain;
  timestamp = now;
}

-- The organization and the device can stand in a subject, and the payload is within the limit.
pub record IsDeliverable (who : SessionInfo) (payload : Bytes) : Type 0 where
  pub org_named : who.org_id ≢ []
  pub org_literal : IsLiteral who.org_id
  pub asset_named : who.asset_uuid ≢ []
  pub asset_literal : IsLiteral who.asset_uuid
  pub bounded : length payload ≤ max_ingress_payload_bytes

module _ {State : Type 0} (env : Platform) where
  on_message_room :
      (r : PluginRuntime State) (ed : MessageEvent) (now : ℕ) (who : SessionInfo) (doc : Json)
      → lookup_session r.sessions (go_string ed.client.id) ≡ some who
      → IsDeliverable who ed.payload
      → HasRoom r.async
      → marshal_ingress env (message_from who ed now) ≡ some doc
      → (on_message env r ed now).async.queue
        ≡ r.async.queue
          ++ record {
            subject = ingress_subject r.config.subject_ingress_prefix who.org_id who.asset_uuid;
            message = doc;
          }
            ∷ []
  unfolding on_message publish_ingress
  on_message_room r ed now who doc e d h m =
      let org : valid_subject_token who.org_id ≡ true =
        (valid_subject_token_iff who.org_id).1 (d.org_named, d.org_literal) in
      let asset : valid_subject_token who.asset_uuid ≡ true =
        (valid_subject_token_iff who.asset_uuid).1 (d.asset_named, d.asset_literal) in
      let fits : ltb max_ingress_payload_bytes (length ed.payload) ≡ false = ground arith in
      rw (e, on_message, org, asset, fits) (publish_room env r _ _ doc m h)

marshal_ingress_of :
    (env : Platform) (m : IngressMessage) (time : Bytes)
    → env.render_time m.timestamp ≡ some time
    → (doc : Json) × (marshal_ingress env m ≡ some doc)
unfolding marshal_ingress
marshal_ingress_of env m time e = rw (e, marshal_ingress) (_, refl)

module _ {World : Type 0} (backend : AuthStore World) (env : Platform) where
  -- End to end: after any sequence of events by which a session stands behind a client id, a
  -- message under that client id adds one job to the queue of a publisher that runs, is open and
  -- has room, under the subject of the session's organization and device, and a subscriber that
  -- reads the job's document gets the organization and the device of the session, and the client
  -- id, topic, payload, QoS, flag and time of the message. (The organization and the device are
  -- valid tokens, the payload is within the limit, the strings are UTF-8, the time has a text,
  -- times that are rendered are read back, and the session map starts empty.)
  pub message_delivered :
      {t n : Trace (backend.State)} (run : Events backend env t n) (ed : MessageEvent) (now : ℕ)
      (who : SessionInfo) (time : Bytes)
      → t.runtime.sessions ≡ []
      → standing (notes backend env run) (go_string ed.client.id) ≡ some who
      → IsDeliverable who ed.payload
      → HasRoom n.runtime.async
      → IsIngressText (message_from who ed now)
      → ReadsTime env
      → env.render_time now ≡ some time
      → (doc : Json) × ((on_message env n.runtime ed now).async.queue
          ≡ n.runtime.async.queue
            ++ record {
              subject =
                  ingress_subject n.runtime.config.subject_ingress_prefix who.org_id who.asset_uuid;
              message = doc;
            }
              ∷ [])
        × (read_ingress env doc ≡ message_from who ed now)
  message_delivered {t} {n} run ed now who time start stands d h s reads e =
      let (doc, m) = marshal_ingress_of env (message_from who ed now) time e in
      let looked = sessions_stand backend env run (go_string ed.client.id) start ∙ stands in
      (
        doc,
        on_message_room env n.runtime ed now who doc looked d h m,
        read_ingress-marshal_ingress env (message_from who ed now) doc reads s m,
      )
