-- ===== src/Runtime.antt =====
-- src/plugin.go: the process-wide runtime of the plugin and its publishing methods.
pub mod Token
pub mod Ingress
mod Tests
use mapex_mqttbroker.Common.{
  ℕ, ◌*◌, Bool, true, false, not, ◌&&◌, ◌||◌, Option, none, some, [], ◌∷◌, ◌++◌, ltb, ◌==◌,
  if◌then◌else◌, length, is_empty, Bytes,
}
use mapex_mqttbroker.Common.Int.{ℤ, pos}
use mapex_mqttbroker.Config.{Config}
use mapex_mqttbroker.Fanout.{FanoutConsumer}
use mapex_mqttbroker.GoText.Runes.{runes, all_pass}
use mapex_mqttbroker.Json.{Json}
use mapex_mqttbroker.Payloads.{
  event_connect, event_disconnect, map_disconnect_reason, marshal_presence, marshal_ingress,
}
use mapex_mqttbroker.Platform.{Platform}
use mapex_mqttbroker.Publisher.{AsyncPublisher, enqueue, drop_one}
use mapex_mqttbroker.Session.{Sessions}

abbrev pub max_ingress_payload_bytes : ℕ
max_ingress_payload_bytes = 900 * 1024

-- `State` is the state of the auth store. Of the `AuthClient` the runtime itself uses only
-- `CompareLocal`, which has no state: the field says whether the pointer is set.
pub record PluginRuntime (State : Type 0) : Type 0 where
  pub config : Config
  pub async : AsyncPublisher
  pub has_auth : Bool
  pub store : Option State
  pub fanout : Option FanoutConsumer
  pub sessions : Sessions

-- `false` for a character that NATS gives a meaning.
is_plain : ℕ → Bool
is_plain c = not (c == b'.' || c == b'*' || c == b'>' || c == b' ' || c == 9 || c == 10 || c == 13)

unfoldable pub valid_subject_token : Bytes → Bool
unfolding is_plain all_pass runes
valid_subject_token s = if is_empty s then false else all_pass is_plain (runes s)

module _ {State : Type 0} where
  -- `none` is a failure of `json.Marshal`.
  unfoldable pub publish : PluginRuntime State → Bytes → Option Json → Bool × PluginRuntime State
  publish r subject none = (false, record r { async = drop_one r.async })
  publish r subject (some message) =
      let sent = enqueue r.async (record { subject = subject; message = message }) in
      (sent.0, record r { async = sent.1 })

  module _ (env : Platform) where
    unfoldable pub publish_connect :
        PluginRuntime State → Bytes → Bytes → Bytes → Bytes → ℕ → Bool × PluginRuntime State
    publish_connect r org_id asset_uuid client_id source_ip ts =
        publish r r.config.subject_presence (
          marshal_presence env (record {
            event = event_connect;
            org_id = org_id;
            asset_uuid = asset_uuid;
            client_id = client_id;
            source_ip = source_ip;
            timestamp = ts;
            reason_code = pos 0;
            reason_text = [];
          }))

    unfoldable pub publish_disconnect :
        PluginRuntime State → Bytes → Bytes → Bytes → Bytes → ℤ → ℕ → Bool × PluginRuntime State
    publish_disconnect r org_id asset_uuid client_id source_ip reason_code ts =
        publish r r.config.subject_presence (
          marshal_presence env (record {
            event = event_disconnect;
            org_id = org_id;
            asset_uuid = asset_uuid;
            client_id = client_id;
            source_ip = source_ip;
            timestamp = ts;
            reason_code = reason_code;
            reason_text = map_disconnect_reason reason_code;
          }))

    unfoldable pub publish_ingress :
        PluginRuntime State
        → Bytes
        → Bytes
        → Bytes
        → Bytes
        → Bytes
        → ℤ
        → Bool
        → ℕ
        → Bool × PluginRuntime State
    publish_ingress r org_id asset_uuid client_id topic payload qos retain ts =
        if not (valid_subject_token org_id) || not (valid_subject_token asset_uuid)
        then (false, record r { async = drop_one r.async })
        else if ltb max_ingress_payload_bytes (length payload)
        then (false, record r { async = drop_one r.async })
        else publish r (r.config.subject_ingress_prefix ++ b'.' ∷ (org_id ++ b'.' ∷ asset_uuid)) (
            marshal_ingress env (record {
              org_id = org_id;
              asset_uuid = asset_uuid;
              client_id = client_id;
              topic = topic;
              payload = payload;
              qos = qos;
              retain = retain;
              timestamp = ts;
            }))
