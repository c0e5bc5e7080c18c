-- ===== src/Payloads/Tests.antt =====
-- The two documents for the sensor, read back.
use mapex_mqttbroker.Common.{◌≡◌, refl, false, some, [], ◌∷◌, arith, codes}
use mapex_mqttbroker.Common.Int.{pos}
use mapex_mqttbroker.Fixtures.{platform, sensor, platform-ReadsTime}
use mapex_mqttbroker.GoText.Utf8.{coerce_utf8}
use mapex_mqttbroker.Json.{Json, obj, field, end, str, num, bool, text, base64, base64_char}
use mapex_mqttbroker.Payloads.{
  IngressMessage, PresenceAdvisory, event_connect, marshal_ingress, marshal_presence,
}
use mapex_mqttbroker.Payloads.ReadBack.{
  read_ingress, read_presence, read_ingress-marshal_ingress, read_presence-marshal_presence,
}

abbrev reading : IngressMessage
reading = record {
  org_id = codes "org1";
  asset_uuid = sensor;
  client_id = codes "c1";
  topic = codes "events/sensor7/temperature";
  payload = 255 ∷ 0 ∷ codes "21.5";
  qos = pos 1;
  retain = false;
  timestamp = 1000;
}

abbrev reading_document : Json
reading_document = obj (
    field (codes "orgId") (str (codes "org1")) (
      field (codes "assetUUID") (str sensor) (
        field (codes "clientId") (str (codes "c1")) (
          field (codes "topic") (str (codes "events/sensor7/temperature")) (
            field (codes "payload") (str (codes "/wAyMS41")) (
              field (codes "qos") (num (pos 1)) (
                field (codes "retain") (bool false)
                  (field (codes "timestamp") (str (1000 ∷ [])) end))))))))

reading_marshals : marshal_ingress platform reading ≡ some reading_document
unfolding marshal_ingress text coerce_utf8 base64 base64_char
reading_marshals = refl

read_ingress-marshal_ingress_example : read_ingress platform reading_document ≡ reading
unfolding coerce_utf8
read_ingress-marshal_ingress_example =
    read_ingress-marshal_ingress platform reading reading_document platform-ReadsTime
      (record {
        org_id = refl;
        asset_uuid = refl;
        client_id = refl;
        topic = refl;
        payload = ground arith;
      })
      reading_marshals

abbrev online : PresenceAdvisory
online = record {
  event = event_connect;
  org_id = codes "org1";
  asset_uuid = sensor;
  client_id = codes "c1";
  source_ip = [];
  timestamp = 1000;
  reason_code = pos 0;
  reason_text = [];
}

abbrev online_document : Json
online_document = obj (
    field (codes "event") (str (codes "connect")) (
      field (codes "orgId") (str (codes "org1")) (
        field (codes "assetUUID") (str sensor) (
          field (codes "clientId") (str (codes "c1"))
            (field (codes "timestamp") (str (1000 ∷ [])) end)))))

online_marshals : marshal_presence platform online ≡ some online_document
unfolding marshal_presence text coerce_utf8
online_marshals = refl

read_presence-marshal_presence_example : read_presence platform online_document ≡ online
unfolding coerce_utf8
read_presence-marshal_presence_example =
    read_presence-marshal_presence platform online online_document platform-ReadsTime
      (record {
        event = refl;
        org_id = refl;
        asset_uuid = refl;
        client_id = refl;
        source_ip = refl;
        reason_text = refl;
      })
      online_marshals
