-- ===== src/Callbacks/Tests.antt =====
-- The callbacks for the sensor: it connects, publishes, and a stale connection of it goes away.
use mapex_mqttbroker.Common.{same, arith, All, ◌≡◌, refl, none, [], ◌∷◌, ◌++◌, Bytes, codes}
use mapex_mqttbroker.Common.Int.{pos}
use mapex_mqttbroker.Certificate.{get_cert_serial_hex, upper_hex, get_cert_cn, c_string}
use mapex_mqttbroker.Callbacks.{
  context_with_timeout, announce, get_client_cert_serial, get_client_cert_cn, identity, answer,
  on_disconnect, on_message, on_basic_auth,
}
use mapex_mqttbroker.Callbacks.Delivery.{message_from, message_delivered}
use mapex_mqttbroker.GoText.Utf8.{coerce_utf8}
use mapex_mqttbroker.Payloads.{marshal_presence}
use mapex_mqttbroker.Payloads.ReadBack.{read_ingress}
use mapex_mqttbroker.Publisher.{enqueue, try_send}
use mapex_mqttbroker.Callbacks.Deadline.{timeout_deadline}
use mapex_mqttbroker.Callbacks.Traces.{Trace, Event, admits, disconnects, messages, done, more}
use mapex_mqttbroker.Callbacks.Traces.Sessions.{
  arrived, gone, standing, note, notes, sessions_stand,
}
use mapex_mqttbroker.Callbacks.Traces.Granted.{IsOwned}
use mapex_mqttbroker.Callbacks.Traces.Owned.{jobs_owned}
use mapex_mqttbroker.Config.{Options, Config, loaded, get, int_or_default, config_of, load_config}
use mapex_mqttbroker.GoText.Decimal.{atoi}
use mapex_mqttbroker.GoText.Trim.{trim_space}
use mapex_mqttbroker.Fixtures.Events.{
  connecting, connecting_succeeds, leaving, reading, sensor_session,
}
use mapex_mqttbroker.Fixtures.{
  sensor_entry, cold_store, config, platform, database, sensor, world, runtime, auth_run,
  platform-ReadsTime,
}
use mapex_mqttbroker.Json.{Json, text}
use mapex_mqttbroker.Runtime.{publish, publish_connect}
use mapex_mqttbroker.Runtime.Ingress.{ingress_subject}
use mapex_mqttbroker.Session.{lookup_session}
use mapex_mqttbroker.TieredStore.{TieredAuthStore, tiered}
use mapex_mqttbroker.TieredStore.Interface.{Read}

-- The sensor connects, and then publishes a message.
abbrev connected : Trace (TieredAuthStore (Bytes → Read))
connected = record {
  runtime = (on_basic_auth (tiered database platform) platform world runtime connecting 1000).1;
  granted = record { org_id = codes "org1"; asset_uuid = sensor } ∷ [];
  taken = [];
}

abbrev published : Trace (TieredAuthStore (Bytes → Read))
published = record connected { runtime = on_message platform connected.runtime reading 1001 }

connects :
    Event
      (tiered database platform)
      platform
      (record { runtime = runtime; granted = []; taken = [] })
      connected
unfolding auth_run identity get_client_cert_serial get_client_cert_cn get_cert_serial_hex upper_hex
    get_cert_cn c_string
connects = admits world connecting 1000 cold_store sensor_entry refl refl connecting_succeeds

jobs_owned_example :
    All (IsOwned platform config connected.granted) published.runtime.async.queue
    × All (IsOwned platform config connected.granted) []
jobs_owned_example =
    jobs_owned (tiered database platform) platform config runtime
      (record { config = refl; sessions = refl; queue = refl })
      (more (more done connects) (messages reading 1001))

sessions_stand_example :
    lookup_session (on_disconnect platform connected.runtime leaving 1002).sessions (codes "c1")
    ≡ standing (gone (codes "c1") ∷ arrived (codes "c1") sensor_session ∷ []) (codes "c1")
unfolding notes note connects
sessions_stand_example =
    sessions_stand (tiered database platform) platform
      (more (more done connects) (disconnects leaving 1002)) (codes "c1") refl

message_delivered_example :
    (doc : Json) × ((on_message platform connected.runtime reading 1001).async.queue
      ≡ connected.runtime.async.queue
        ++ record {
          subject =
              ingress_subject connected.runtime.config.subject_ingress_prefix (codes "org1") sensor;
          message = doc;
        }
          ∷ [])
    × (read_ingress platform doc ≡ message_from sensor_session reading 1001)
unfolding auth_run on_basic_auth answer identity get_client_cert_serial get_client_cert_cn
    get_cert_serial_hex upper_hex get_cert_cn c_string notes note connects announce publish_connect
    publish enqueue try_send marshal_presence text coerce_utf8 standing
message_delivered_example =
    message_delivered (tiered database platform) platform (more done connects) reading 1001
      sensor_session (1001 ∷ []) refl refl
      (record {
        org_named = λ k. cc;
        org_literal = ground arith;
        asset_named = λ k. cc;
        asset_literal = ground arith;
        bounded = omega arith;
      })
      (record { started = refl; opened = refl; room = omega arith })
      (record {
        org_id = refl;
        asset_uuid = refl;
        client_id = refl;
        topic = refl;
        payload = ground arith;
      })
      platform-ReadsTime refl

abbrev patient : Options
patient =
    (codes "nats_url", codes "nats://n")
    ∷ (codes "auth_url", codes "http://a")
    ∷ (codes "auth_api_key", codes "k")
    ∷ (codes "auth_timeout_seconds", codes "10000000000")
    ∷ []

abbrev patient_config : Config
patient_config = config_of platform patient (codes "nats://n") (codes "http://a") (codes "k")

patient_loaded : load_config platform patient ≡ loaded patient_config
unfolding load_config get trim_space same
patient_loaded = refl

patient_seconds : int_or_default patient (codes "auth_timeout_seconds") (pos 0) ≡ pos 10_000_000_000
unfolding int_or_default get trim_space atoi same
patient_seconds = refl

timeout_deadline_example : context_with_timeout patient_config.auth_timeout ≡ none
timeout_deadline_example =
    timeout_deadline platform patient patient_config 9_999_999_999 patient_loaded patient_seconds
      (omega arith)
