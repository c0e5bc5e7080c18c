-- ===== src/Lifecycle/Accounted.antt =====
-- No event is lost without a count: what a callback of a live plugin does to the counters of
-- src/nats_publisher.go.
use mapex_mqttbroker.Common.{
  ℕ, ◌+◌, ◌%◌, ◌^◌, ◌≡◌, inl, inr, Bool, not, ◌||◌, none, some, Option, arith, Bool-cases, ltb,
  length, Bytes,
}
use mapex_mqttbroker.Common.Int.{ℤ}
use mapex_mqttbroker.Callbacks.{DisconnectEvent, MessageEvent, go_string, on_disconnect, on_message}
use mapex_mqttbroker.Init.Plugin.{Process}
use mapex_mqttbroker.Json.{Json}
use mapex_mqttbroker.Lifecycle.{Steps}
use mapex_mqttbroker.Lifecycle.Live.{always-IsLive}
use mapex_mqttbroker.Lifecycle.Up.{IsRunning}
use mapex_mqttbroker.Platform.{Platform}
use mapex_mqttbroker.Publisher.{
  PublishJob, AsyncPublisher, enqueue, drop_one, drop_no_start, try_send,
}
use mapex_mqttbroker.Runtime.{
  PluginRuntime, publish, publish_disconnect, publish_ingress, valid_subject_token,
  max_ingress_payload_bytes,
}
use mapex_mqttbroker.Session.{SessionInfo, lookup_session}
use mapex_mqttbroker.TieredStore.{TieredAuthStore}
use mapex_mqttbroker.TieredStore.Interface.{Pebble}

-- The second publisher has counted one job more, as enqueued or as dropped, modulo 2^64.
abbrev pub CountsOne : AsyncPublisher → AsyncPublisher → Type 0
CountsOne p q = (q.enqueued + q.dropped) % 2 ^ 64 ≡ (p.enqueued + p.dropped + 1) % 2 ^ 64

drop_one-CountsOne : (p : AsyncPublisher) → CountsOne p (drop_one p)
unfolding drop_one
drop_one-CountsOne p = omega arith

enqueue-CountsOne :
    (p : AsyncPublisher) (job : PublishJob) → IsRunning p → CountsOne p (enqueue p job).1
unfolding enqueue try_send drop_one drop_no_start
enqueue-CountsOne p job h = ground arith

module _ {State : Type 0} (env : Platform) where
  publish-CountsOne :
      (r : PluginRuntime State) (subject : Bytes) (doc : Option Json)
      → IsRunning r.async
      → CountsOne r.async (publish r subject doc).1.async
  unfolding publish
  publish-CountsOne r subject none h = drop_one-CountsOne r.async
  publish-CountsOne r subject (some m) h = enqueue-CountsOne r.async _ h

  publish_ingress-CountsOne :
      (r : PluginRuntime State) (org_id asset_uuid client_id topic payload : Bytes) (qos : ℤ)
      (retain : Bool) (ts : ℕ)
      → IsRunning r.async
      → CountsOne r.async
          (publish_ingress env r org_id asset_uuid client_id topic payload qos retain ts).1.async
  unfolding publish_ingress
  publish_ingress-CountsOne r org_id asset_uuid client_id topic payload qos retain ts h =
      elim (Bool-cases (not (valid_subject_token org_id) || not (valid_subject_token asset_uuid))) [
        | inl e ↦ rw (e, publish_ingress) (drop_one-CountsOne r.async)
        | inr e ↦ elim (Bool-cases (ltb max_ingress_payload_bytes (length payload))) [
          | inl k ↦ rw (e, k, publish_ingress) (drop_one-CountsOne r.async)
          | inr k ↦ rw (e, k, publish_ingress) (publish-CountsOne r _ _ h)
        ]
      ]

  on_message-CountsOne :
      (r : PluginRuntime State) (ed : MessageEvent) (now : ℕ) (who : SessionInfo)
      → lookup_session r.sessions (go_string ed.client.id) ≡ some who
      → IsRunning r.async
      → CountsOne r.async (on_message env r ed now).async
  unfolding on_message
  on_message-CountsOne r ed now who e h =
      rw (e, on_message) (publish_ingress-CountsOne r _ _ _ _ _ _ _ _ h)

  on_disconnect-CountsOne :
      (r : PluginRuntime State) (ed : DisconnectEvent) (now : ℕ) (who : SessionInfo)
      → lookup_session r.sessions (go_string ed.client.id) ≡ some who
      → IsRunning r.async
      → CountsOne r.async (on_disconnect env r ed now).async
  unfolding on_disconnect publish_disconnect
  on_disconnect-CountsOne r ed now who e h = rw (e, on_disconnect) (publish-CountsOne r _ _ h)

module _ (P : Pebble) (env : Platform) where
  -- No event is lost without a count: whatever happened to the plugin before, loads and unloads
  -- included, a message of a client with a session is counted once, as enqueued or as dropped,
  -- whatever its topic and its payload are and however full the queue is; and so is its disconnect.
  -- (No runtime is set at the start. The counters wrap at 2^64.)
  pub events_counted :
      {p q : Process P.Db} (run : Steps P env p q) (rt : PluginRuntime (TieredAuthStore P.Db))
      (message : MessageEvent) (leaving : DisconnectEvent) (now : ℕ) (who whom : SessionInfo)
      → p.runtime ≡ none
      → q.runtime ≡ some rt
      → lookup_session rt.sessions (go_string message.client.id) ≡ some who
      → lookup_session rt.sessions (go_string leaving.client.id) ≡ some whom
      → CountsOne rt.async (on_message env rt message now).async
        × CountsOne rt.async (on_disconnect env rt leaving now).async
  events_counted run rt message leaving now who whom unset set sends leaves =
      let running = (always-IsLive P env run rt unset set).up.running in
      (
        on_message-CountsOne env rt message now who sends running,
        on_disconnect-CountsOne env rt leaving now whom leaves running,
      )
