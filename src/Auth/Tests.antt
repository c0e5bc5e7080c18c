-- ===== src/Auth/Tests.antt =====
-- `Authenticate` for the sensor, by password, and what it logs.
use mapex_mqttbroker.Common.{◌≡◌, ◌≢◌, refl, ◌↔◌, ◌⊎◌, none, some, [], ◌∷◌, Bytes, codes}
use mapex_mqttbroker.Acl.Topic.{IsUsername}
use mapex_mqttbroker.Auth.{auth_allow, auth_deny, auth_error, authenticate}
use mapex_mqttbroker.Auth.Discreet.{authenticate_discreet}
use mapex_mqttbroker.Auth.Report.{authenticate_call}
use mapex_mqttbroker.Auth.Reported.{FindsMisconfigured, authenticate_reported}
use mapex_mqttbroker.Log.{log_info, Formatter, stderr_logger}
use mapex_mqttbroker.Log.Lines.{perform}
use mapex_mqttbroker.Auth.Checks.{Admits}
use mapex_mqttbroker.Auth.Decision.{authenticate_allow_iff}
use mapex_mqttbroker.AuthStore.{ok}
use mapex_mqttbroker.Entry.{AuthEntry}
use mapex_mqttbroker.Fixtures.{platform, database, sensor, world, runtime, auth_run}
use mapex_mqttbroker.TieredStore.{TieredAuthStore, tiered}
use mapex_mqttbroker.TieredStore.Interface.{Read}

admitted :
    (authenticate
      (tiered database platform)
      platform
      world
      runtime
      sensor
      (codes "secret")
      (codes "c1")
      []).0
    ≡ auth_allow
unfolding auth_run
admitted = refl

wrong_password :
    (authenticate
      (tiered database platform)
      platform
      world
      runtime
      sensor
      (codes "guess")
      (codes "c1")
      []).0
    ≡ auth_deny
unfolding auth_run
wrong_password = refl

authenticate_allow_iff_example :
    ((authenticate
        (tiered database platform)
        platform
        world
        runtime
        sensor
        (codes "secret")
        (codes "c1")
        []).0
      ≡ auth_allow)
    ↔ (IsUsername sensor
        × ((s : TieredAuthStore (Bytes → Read)) × (e : AuthEntry) × (runtime.store ≡ some s)
            × (((tiered database platform).get world s sensor).0 ≡ ok e)
            × Admits platform e (codes "secret") []))
authenticate_allow_iff_example =
    authenticate_allow_iff (tiered database platform) platform world runtime sensor (codes "secret")
      (codes "c1") [] refl

abbrev formatter : Formatter
formatter = record { sprintf = λ format _. format; timestamp = λ t. t ∷ [] }

-- A runtime with no store reports it.
authenticate_reported_example :
    let log = stderr_logger (record { w = codes "old"; min_level = log_info }) in
    (perform formatter log (
        authenticate_call 65
          (tiered database platform)
          platform
          (codes "io")
          world
          (record runtime { store = none })
          sensor
          (codes "secret")
          []
        ∷ [])
      ≢ log)
    ↔ (((authenticate
            (tiered database platform)
            platform
            world
            (record runtime { store = none })
            sensor
            (codes "secret")
            (codes "c1")
            []).0
          ≡ auth_error)
        ⊎ FindsMisconfigured
            (tiered database platform)
            65
            platform
            (codes "io")
            world
            (record runtime { store = none })
            sensor)
authenticate_reported_example =
    authenticate_reported (tiered database platform) 65 platform (codes "io") formatter
      (codes "old") world (record runtime { store = none }) sensor (codes "secret") (codes "c1") []

both_wrong :
    (authenticate
      (tiered database platform)
      platform
      world
      runtime
      sensor
      (codes "guess")
      (codes "c1")
      []).0
    ≡ (authenticate
        (tiered database platform)
        platform
        world
        runtime
        sensor
        (codes "try")
        (codes "c1")
        []).0
unfolding auth_run
both_wrong = refl

authenticate_discreet_example :
    authenticate_call 65
      (tiered database platform)
      platform
      (codes "io")
      world
      runtime
      sensor
      (codes "guess")
      []
    ≡ authenticate_call 65
        (tiered database platform)
        platform
        (codes "io")
        world
        runtime
        sensor
        (codes "try")
        []
authenticate_discreet_example =
    authenticate_discreet (tiered database platform) 65 platform (codes "io") world runtime sensor
      (codes "c1") [] (codes "guess") (codes "try") both_wrong
