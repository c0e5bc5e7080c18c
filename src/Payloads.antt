-- ===== src/Payloads.antt =====
-- src/payloads.go and src/format.go: the NATS payloads, and the labels of disconnect reasons.
pub mod Reasons
pub mod ReadBack
mod Tests
use mapex_mqttbroker.Common.{
  ℕ, Bool, not, Option, none, some, ◌++◌, if◌then◌else◌, is_empty, Bytes, codes,
}
use mapex_mqttbroker.Common.Int.{ℤ, is_int}
use mapex_mqttbroker.GoText.Decimal.{itoa}
use mapex_mqttbroker.Json.{Json, field, end, bool, num, str, obj, text, field_if, base64}
use mapex_mqttbroker.Platform.{Platform}

-- Times are nanoseconds since the zero time of Go's time package.
pub record PresenceAdvisory : Type 0 where
  pub event : Bytes
  pub org_id : Bytes
  pub asset_uuid : Bytes
  pub client_id : Bytes
  pub source_ip : Bytes
  pub timestamp : ℕ
  pub reason_code : ℤ
  pub reason_text : Bytes

pub record IngressMessage : Type 0 where
  pub org_id : Bytes
  pub asset_uuid : Bytes
  pub client_id : Bytes
  pub topic : Bytes
  pub payload : Bytes
  pub qos : ℤ
  pub retain : Bool
  pub timestamp : ℕ

abbrev pub event_connect : Bytes
event_connect = codes "connect"

abbrev pub event_disconnect : Bytes
event_disconnect = codes "disconnect"

unfoldable pub format_unknown : ℤ → Bytes
format_unknown code = codes "unknown_" ++ itoa code

unfoldable pub map_disconnect_reason : ℤ → Bytes
map_disconnect_reason code =
    if is_int code 0
    then codes "clean_disconnect"
    else if is_int code 4
    then codes "keepalive_timeout"
    else if is_int code 142
    then codes "session_taken_over"
    else if is_int code 152
    then codes "admin_action"
    else format_unknown code

-- `json.Marshal` of the two payloads, by their field tags. It fails where the time has no text.
-- A nil payload, which `C.GoBytes` never returns, is not told from an empty one.
unfoldable pub marshal_presence : Platform → PresenceAdvisory → Option Json
marshal_presence env a = elim (env.render_time a.timestamp) [
  | none ↦ none
  | some time ↦
      let reason_text =
        field_if (not (is_empty a.reason_text)) (codes "reasonText") (text a.reason_text) end in
      let reason_code =
        field_if (not (is_int a.reason_code 0)) (codes "reasonCode") (num a.reason_code)
          reason_text in
      let timestamp = field (codes "timestamp") (str time) reason_code in
      let source_ip =
        field_if (not (is_empty a.source_ip)) (codes "sourceIp") (text a.source_ip) timestamp in
      let client_id =
        field_if (not (is_empty a.client_id)) (codes "clientId") (text a.client_id) source_ip in
      some (
        obj (
          field (codes "event") (text a.event) (
            field (codes "orgId") (text a.org_id)
              (field (codes "assetUUID") (text a.asset_uuid) client_id))))
]

unfoldable pub marshal_ingress : Platform → IngressMessage → Option Json
marshal_ingress env m = elim (env.render_time m.timestamp) [
  | none ↦ none
  | some time ↦
      let later = field (codes "topic") (text m.topic) (
        field (codes "payload") (str (base64 m.payload)) (
          field (codes "qos") (num m.qos)
            (field (codes "retain") (bool m.retain) (field (codes "timestamp") (str time) end)))) in
      let client_id =
        field_if (not (is_empty m.client_id)) (codes "clientId") (text m.client_id) later in
      some (
        obj (
          field (codes "orgId") (text m.org_id)
            (field (codes "assetUUID") (text m.asset_uuid) client_id)))
]
