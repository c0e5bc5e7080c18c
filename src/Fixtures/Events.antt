-- ===== src/Fixtures/Events.antt =====
-- The sensor's events at the callbacks, and the session that its connection gives it.
use mapex_mqttbroker.Common.{◌≡◌, refl, false, none, some, codes}
use mapex_mqttbroker.Common.Int.{pos}
use mapex_mqttbroker.Callbacks.{
  mosq_err_success, Client, BasicAuthEvent, DisconnectEvent, MessageEvent, get_client_cert_serial,
  get_client_cert_cn, identity, answer, on_basic_auth,
}
use mapex_mqttbroker.Certificate.{get_cert_serial_hex}
use mapex_mqttbroker.Fixtures.{platform, database, sensor, world, runtime, auth_run}
use mapex_mqttbroker.Session.{SessionInfo}
use mapex_mqttbroker.TieredStore.{tiered}

abbrev pub client : Client
client = record {
  id = some (codes "c1");
  address = some (codes "10.0.0.7");
  username = some sensor;
  certificate = none;
}

abbrev pub connecting : BasicAuthEvent
connecting = record { client = client; username = some sensor; password = some (codes "secret") }

abbrev pub leaving : DisconnectEvent
leaving = record { client = client; reason = pos 142 }

abbrev pub reading : MessageEvent
reading = record {
  client = client;
  topic = some (codes "events/sensor7/temperature");
  payload = codes "21.5";
  qos = pos 1;
  retain = false;
}

pub connecting_succeeds :
    (on_basic_auth (tiered database platform) platform world runtime connecting 1000).0
    ≡ mosq_err_success
unfolding auth_run on_basic_auth answer identity get_client_cert_serial get_client_cert_cn
    get_cert_serial_hex
connecting_succeeds = refl

abbrev pub sensor_session : SessionInfo
sensor_session = record { org_id = codes "org1"; asset_uuid = sensor }
