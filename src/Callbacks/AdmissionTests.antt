-- ===== src/Callbacks/AdmissionTests.antt =====
-- The sensor's connections are announced; a badge with a certificate connects without a username.
use mapex_mqttbroker.Common.{
  ◌≡◌, refl, ◌≢◌, ◌↔◌, arith, none, some, true, [], ◌∷◌, Bytes, codes, Lacks,
}
use mapex_mqttbroker.Common.Int.{pos}
use mapex_mqttbroker.Acl.Allowed.{MayAccess}
use mapex_mqttbroker.Certificate.{
  Certificate, get_cert_serial_hex, upper_hex, get_cert_cn, c_string,
}
use mapex_mqttbroker.Callbacks.{
  mosq_err_success, mosq_err_auth, go_on_basic_auth, Client, BasicAuthEvent, AclCheckEvent,
  get_client_cert_serial, get_client_cert_cn, go_string, identity, answer, go_on_acl_check,
  on_disconnect, on_basic_auth,
}
use mapex_mqttbroker.Callbacks.Access.{admitted_access}
use mapex_mqttbroker.Callbacks.DocumentedName.{documented_name_refused}
use mapex_mqttbroker.Callbacks.Presence.{disconnect_announced, admission_announced}
use mapex_mqttbroker.Fixtures.Events.{connecting, connecting_succeeds, leaving, sensor_session}
use mapex_mqttbroker.Fixtures.{
  sensor_entry, cold_store, platform, database, sensor, world, runtime, auth_run,
}
use mapex_mqttbroker.Json.{Json, bool, str, obj, field, end, num, text}
use mapex_mqttbroker.Payloads.{map_disconnect_reason, marshal_presence}
use mapex_mqttbroker.TieredStore.{tiered}
use mapex_mqttbroker.TieredStore.Interface.{World, found_object}
use mapex_mqttbroker.Runtime.{PluginRuntime}
use mapex_mqttbroker.TieredStore.{TieredAuthStore}
use mapex_mqttbroker.TieredStore.Interface.{Read}
use mapex_mqttbroker.GoText.Utf8.{coerce_utf8}

abbrev online : Json
online = obj (
    field (codes "event") (str (codes "connect")) (
      field (codes "orgId") (str (codes "org1")) (
        field (codes "assetUUID") (str sensor) (
          field (codes "clientId") (str (codes "c1")) (
            field (codes "sourceIp") (str (codes "10.0.0.7"))
              (field (codes "timestamp") (str (1000 ∷ [])) end))))))

online_advisory :
    marshal_presence platform (record {
      event = codes "connect";
      org_id = codes "org1";
      asset_uuid = sensor;
      client_id = codes "c1";
      source_ip = codes "10.0.0.7";
      timestamp = 1000;
      reason_code = pos 0;
      reason_text = [];
    })
    ≡ some online
unfolding marshal_presence text coerce_utf8
online_advisory = refl

admission_announced_example :
    (on_basic_auth (tiered database platform) platform world runtime connecting 1000).1.async.queue
    ≡ record { subject = codes "dev.presence"; message = online } ∷ []
unfolding auth_run identity get_client_cert_serial get_client_cert_cn get_cert_serial_hex upper_hex
    get_cert_cn c_string
admission_announced_example =
    admission_announced (tiered database platform) platform world runtime connecting 1000 cold_store
      sensor_entry online connecting_succeeds (λ k. cc) refl refl online_advisory
      (record { started = refl; opened = refl; room = omega arith })

abbrev here : PluginRuntime (TieredAuthStore (Bytes → Read))
here = record runtime { sessions = (codes "c1", sensor_session) ∷ [] }

abbrev offline : Json
offline = obj (
    field (codes "event") (str (codes "disconnect")) (
      field (codes "orgId") (str (codes "org1")) (
        field (codes "assetUUID") (str sensor) (
          field (codes "clientId") (str (codes "c1")) (
            field (codes "sourceIp") (str (codes "10.0.0.7")) (
              field (codes "timestamp") (str (1000 ∷ [])) (
                field (codes "reasonCode") (num (pos 142))
                  (field (codes "reasonText") (str (codes "session_taken_over")) end))))))))

offline_advisory :
    marshal_presence platform (record {
      event = codes "disconnect";
      org_id = codes "org1";
      asset_uuid = sensor;
      client_id = codes "c1";
      source_ip = codes "10.0.0.7";
      timestamp = 1000;
      reason_code = pos 142;
      reason_text = map_disconnect_reason (pos 142);
    })
    ≡ some offline
unfolding marshal_presence text coerce_utf8 map_disconnect_reason
offline_advisory = refl

disconnect_announced_example :
    (on_disconnect platform here leaving 1000).async.queue
    ≡ record { subject = codes "dev.presence"; message = offline } ∷ []
unfolding auth_run
disconnect_announced_example =
    disconnect_announced platform here leaving 1000 sensor_session offline refl offline_advisory
      (record { started = refl; opened = refl; room = omega arith })

-- A badge that connects with its certificate only.
abbrev badge_document : Json
badge_document = obj (
    field (codes "assetUUID") (str (codes "badge1")) (
      field (codes "orgId") (str (codes "org1")) (
        field (codes "enabled") (bool true) (
          field (codes "authType") (str (codes "cert"))
            (field (codes "currentCertSerial") (str (codes "A1")) end)))))

abbrev badges : World
badges = record world { object = λ _ _. found_object 100 (some badge_document) }

abbrev badge : Client
badge = record {
  id = some (codes "b1");
  address = none;
  username = none;
  certificate =
      some (record { serial_hex = some (codes "a1"); common_name = some (codes "badge1") });
}

abbrev presenting : BasicAuthEvent
presenting = record { client = badge; username = none; password = none }

abbrev door : AclCheckEvent
door = record { client = badge; topic = some (codes "events/badge1/door"); access = pos 2 }

presenting_succeeds :
    (on_basic_auth (tiered database platform) platform badges runtime presenting 1000).0
    ≡ mosq_err_success
unfolding auth_run on_basic_auth answer identity get_client_cert_serial get_client_cert_cn
    get_cert_serial_hex upper_hex get_cert_cn c_string
presenting_succeeds = refl

admitted_access_example : (go_on_acl_check (some runtime) (some door) ≡ mosq_err_success) ↔ (
    (go_string presenting.username ≢ [])
    × Lacks b'/' (identity presenting)
    × MayAccess (identity presenting) (codes "events/badge1/door") (pos 2))
admitted_access_example =
    admitted_access (tiered database platform) platform badges runtime presenting 1000 runtime door
      refl presenting_succeeds refl

-- The certificate names the organization and the asset.
abbrev documented : Certificate
documented = record { serial_hex = some (codes "A1"); common_name = some (codes "org1:badge1") }

abbrev presenting_documented : BasicAuthEvent
presenting_documented = record {
  client = record badge { certificate = some documented };
  username = none;
  password = none;
}

documented_name_refused_example :
    go_on_basic_auth
      (tiered database platform)
      platform
      badges
      (some runtime)
      (some presenting_documented)
      1000
    ≡ (mosq_err_auth, some runtime)
documented_name_refused_example =
    documented_name_refused (tiered database platform) platform badges runtime presenting_documented
      1000 documented (codes "org1") (codes "badge1") refl refl
      ((λ k. cc), ((λ k. cc), ((λ k. cc), ((λ k. cc), tt)))) refl
