-- ===== src/Revocation/FailClosed/Tests.antt =====
-- The sensor over a cold store, which finds its entry in the bucket.
use mapex_mqttbroker.Common.{◌≡◌, refl, ◌⊎◌, some, [], Bytes, codes, true}
use mapex_mqttbroker.Auth.{auth_allow, authenticate}
use mapex_mqttbroker.Entry.{AuthEntry}
use mapex_mqttbroker.Fixtures.{platform, database, sensor, world, runtime, auth_run}
use mapex_mqttbroker.Revocation.FailClosed.{ObjectEnables, ServiceEnables, admitted_enabled}
use mapex_mqttbroker.TieredStore.{TieredAuthStore, read_l1, tiered}
use mapex_mqttbroker.TieredStore.Interface.{Read}

cold_admits :
    (authenticate
      (tiered database platform)
      platform
      world
      runtime
      sensor
      (codes "secret")
      (codes "c1")
      []).0
    ≡ auth_allow
unfolding auth_run
cold_admits = refl

admitted_enabled_example :
    (s : TieredAuthStore (Bytes → Read)) × (runtime.store ≡ some s)
    × (((e : AuthEntry) × (read_l1 database platform 1000 s sensor ≡ some e) × (e.enabled ≡ true))
        ⊎ ObjectEnables database platform world s sensor
        ⊎ ServiceEnables database platform world s sensor)
admitted_enabled_example =
    admitted_enabled database platform world runtime sensor (codes "secret") (codes "c1") [] refl
      cold_admits
