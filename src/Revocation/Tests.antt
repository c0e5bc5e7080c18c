-- ===== src/Revocation/Tests.antt =====
-- The sensor over a warm store: it is admitted, is disabled and refused, and is admitted still under
-- an alias that was cached.
use mapex_mqttbroker.Common.{
  arith, ◌≡◌, refl, sym, subst, ◌≢◌, inr, true, false, Option, some, [], Bytes, codes,
}
use mapex_mqttbroker.Auth.{auth_allow, authenticate}
use mapex_mqttbroker.Auth.Checks.{ByPassword, Admits}
use mapex_mqttbroker.AuthStore.{Result, ok}
use mapex_mqttbroker.Entry.{AuthEntry}
use mapex_mqttbroker.Fanout.{FanoutConsumer, assign_payload, decode_payload, handle}
use mapex_mqttbroker.Fixtures.{
  platform, platform-ReadsTime, database, database-laws, database-frame, sensor, sensor_entry,
  sensor_entry-IsText, world, runtime, store_run, auth_run,
}
use mapex_mqttbroker.Fixtures.SharedRun.{warm, err-ne-ok}
use mapex_mqttbroker.HttpAuth.{transport_error}
use mapex_mqttbroker.Json.{Json, str, obj, field, end}
use mapex_mqttbroker.Revocation.{after_message, revocation_holds}
use mapex_mqttbroker.Revocation.Aliases.{alias_outlives_revocation}
use mapex_mqttbroker.Runtime.{PluginRuntime}
use mapex_mqttbroker.TieredStore.{TieredAuthStore, write_l1, tiered}
use mapex_mqttbroker.TieredStore.Interface.{Read, World, found_object}
use mapex_mqttbroker.TieredStore.PebbleJson.{IsText}
use mapex_mqttbroker.TieredStore.Shared.{Shared, done}
use mapex_mqttbroker.TieredStore.Shared.Calls.{Permitted}
use mapex_mqttbroker.TieredStore.Shared.Coherence.{Renewed}

abbrev warm_runtime : PluginRuntime (TieredAuthStore (Bytes → Read))
warm_runtime = record runtime { store = some warm.store }

warm_admits :
    (authenticate
      (tiered database platform)
      platform
      world
      warm_runtime
      sensor
      (codes "secret")
      (codes "c1")
      []).0
    ≡ auth_allow
unfolding auth_run
warm_admits = refl

-- The sensor is disabled in the bucket, and a message says so.
abbrev disabled_entry : AuthEntry
disabled_entry = record sensor_entry { enabled = false }

abbrev disabled_document : Json
disabled_document = obj (
    field (codes "assetUUID") (str sensor) (
      field (codes "orgId") (str (codes "org1")) (
        field (codes "authType") (str (codes "password"))
          (field (codes "passwordHash") (str (codes "secret")) end))))

abbrev disabled : World
disabled = record {
  now = 2000;
  object = λ _ _. found_object 100 (some disabled_document);
  http = λ _. transport_error;
}

abbrev consumer : FanoutConsumer
consumer = record {
  subject = codes "mapexos.fanout.asset.invalidate";
  subscribed = true;
  closed = false;
  processed = 0;
  dropped = 0;
}

abbrev message : Option Json
message = some (obj (field (codes "assetUUID") (str sensor) end))

message_run : decode_payload platform message ≡ some sensor
unfolding store_run decode_payload assign_payload
message_run = refl

abbrev revoked : Shared database platform
revoked = after_message database database-laws database-frame platform warm consumer message

abbrev revoked_runtime : PluginRuntime (TieredAuthStore (Bytes → Read))
revoked_runtime = record runtime { store = some revoked.store }

abbrev Unfit : Bytes → AuthEntry → Type 0
Unfit =
    Renewed database database-laws database-frame platform sensor
      (λ e. ¬ (Admits platform e (codes "secret") []))

disabled_answered :
    (e : AuthEntry)
    → ◌≡◌ {A = Result (Option AuthEntry)} (ok (some disabled_entry)) (ok (some e))
    → e ≡ disabled_entry
disabled_answered e q = cc

disabled-IsText : IsText disabled_entry
disabled-IsText = record {
  asset_uuid = sensor_entry-IsText.asset_uuid;
  org_id = sensor_entry-IsText.org_id;
  auth_type = sensor_entry-IsText.auth_type;
  password_hash = sensor_entry-IsText.password_hash;
  current_cert_serial = sensor_entry-IsText.current_cert_serial;
}

disabled_Unfit : Unfit sensor disabled_entry
disabled_Unfit = inr (λ (enabled, _). cc)

revoked_Permitted : Permitted database platform Unfit disabled revoked.store sensor
unfolding store_run handle decode_payload assign_payload
revoked_Permitted = (
  λ e q.
      let same_entry = disabled_answered e q in
      (
        subst IsText (sym same_entry) disabled-IsText,
        subst (Unfit sensor) (sym same_entry) disabled_Unfit,
      ),
  λ e q. absurd (err-ne-ok e q),
)

revocation_holds_example :
    (authenticate
      (tiered database platform)
      platform
      disabled
      revoked_runtime
      sensor
      (codes "secret")
      (codes "c1")
      []).0
    ≢ auth_allow
unfolding store_run
revocation_holds_example =
    revocation_holds database database-laws database-frame platform warm consumer message sensor _
      disabled revoked_runtime (codes "secret") (codes "c1") [] platform-ReadsTime message_run
      (λ k. cc) refl refl tt done refl refl revoked_Permitted

-- Another name of the sensor, by which the assets service answers with the sensor's entry.
abbrev other_name : Bytes
other_name = codes "sensor7?x"

abbrev aliased : TieredAuthStore (Bytes → Read)
aliased = write_l1 database platform 1000 warm.store other_name sensor_entry

sensor_fits : ByPassword platform sensor_entry (codes "secret") []
unfolding store_run
sensor_fits = (refl, refl, λ k. cc, λ k. cc, refl)

alias_outlives_revocation_example :
    (authenticate
      (tiered database platform)
      platform
      disabled
      (record runtime {
        store = some (handle platform (tiered database platform) consumer aliased message).1;
      })
      other_name
      (codes "secret")
      (codes "c1")
      []).0
    ≡ auth_allow
unfolding store_run
alias_outlives_revocation_example =
    alias_outlives_revocation database database-frame platform consumer aliased message sensor
      other_name sensor_entry disabled
      (record runtime {
        store = some (handle platform (tiered database platform) consumer aliased message).1;
      })
      (codes "secret") (codes "c1") [] message_run (λ k. cc) (λ k. cc) (λ k. cc, omega arith) refl
      (refl, inr sensor_fits) refl refl
