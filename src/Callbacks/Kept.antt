-- ===== src/Callbacks/Kept.antt =====
-- What the callbacks of src/plugin/main.go for a disconnect and a message do to the session map.
use mapex_mqttbroker.Common.{
  ℕ, ◌≡◌, refl, inl, inr, Bool, none, some, arith, if◌then◌else◌, Option-cases, Bytes, same,
  same_iff,
}
use mapex_mqttbroker.Common.Int.{ℤ}
use mapex_mqttbroker.Callbacks.{DisconnectEvent, MessageEvent, go_string, on_disconnect, on_message}
use mapex_mqttbroker.Callbacks.Sequences.{publish_keeps}
use mapex_mqttbroker.Platform.{Platform}
use mapex_mqttbroker.Runtime.{PluginRuntime, publish, publish_disconnect, publish_ingress}
use mapex_mqttbroker.Session.{SessionInfo, lookup_session, lookup_session-forget_session}

module _ {State : Type 0} (env : Platform) where
  pub lookup_session-on_disconnect :
      (r : PluginRuntime State) (ed : DisconnectEvent) (now : ℕ) (other : Bytes)
      → lookup_session (on_disconnect env r ed now).sessions other
        ≡ (if same (go_string ed.client.id) other then none else lookup_session r.sessions other)
  unfolding on_disconnect publish_disconnect
  lookup_session-on_disconnect r ed now other =
      elim (Option-cases (lookup_session r.sessions (go_string ed.client.id))) [
        | inl e ↦ rw (e, on_disconnect) (ground (arith, same_iff (go_string ed.client.id) other))
        | inr (info, e) ↦
            rw (e, on_disconnect, (publish_keeps env r _ _).0, lookup_session-forget_session) refl
      ]

  -- A disconnect takes sessions away and gives none; a message leaves the sessions alone.
  pub on_disconnect_sessions :
      (r : PluginRuntime State) (ed : DisconnectEvent) (now : ℕ) (other : Bytes) (who : SessionInfo)
      → lookup_session (on_disconnect env r ed now).sessions other ≡ some who
      → lookup_session r.sessions other ≡ some who
  on_disconnect_sessions r ed now other who h =
      ground (arith, lookup_session-on_disconnect r ed now other)

  pub publish_ingress_keeps :
      (r : PluginRuntime State) (org_id asset_uuid client_id topic payload : Bytes) (qos : ℤ)
      (retain : Bool) (ts : ℕ)
      → let r' =
          (publish_ingress env r org_id asset_uuid client_id topic payload qos retain ts).1 in
        (r'.sessions ≡ r.sessions) × (r'.config ≡ r.config)
  unfolding publish_ingress publish
  publish_ingress_keeps r org_id asset_uuid client_id topic payload qos retain ts = ground arith

  pub on_message_sessions :
      (r : PluginRuntime State) (ed : MessageEvent) (now : ℕ)
      → (on_message env r ed now).sessions ≡ r.sessions
  unfolding on_message
  on_message_sessions r ed now =
      elim (Option-cases (lookup_session r.sessions (go_string ed.client.id))) [
        | inl e ↦ rw (e, on_message)
        | inr (who, e) ↦ rw (e, on_message) (publish_ingress_keeps r _ _ _ _ _ _ _ _).0
      ]
