-- ===== src/Fixtures/SharedRun.antt =====
-- A shared store that knows the sensor, and the entries that its layers answer.
use mapex_mqttbroker.Common.{◌≡◌, refl, sym, subst, ◌≢◌, Option, some, [], Bytes}
use mathlib.Core.Option.{none-ne-some}
use mapex_mqttbroker.AuthStore.{Result, ok, err, unavailable}
use mapex_mqttbroker.Entry.{AuthEntry}
use mapex_mqttbroker.Fixtures.{
  platform, database, database-frame, sensor, sensor_entry, sensor_entry-IsText, world, cold_store,
  store_run,
}
use mapex_mqttbroker.Publisher.Machine.{here}
use mapex_mqttbroker.TieredStore.{write_l1}
use mapex_mqttbroker.TieredStore.PebbleJson.{IsText}
use mapex_mqttbroker.TieredStore.Shared.{Fetch, Shared, Steps, fetches, writes, done, more}
use mapex_mqttbroker.TieredStore.Shared.Kept.{stored, IsSound}
use mapex_mqttbroker.TieredStore.Shared.Calls.{Permitted}

abbrev pub IsSensor : Bytes → AuthEntry → Type 0
IsSensor _ e = e ≡ sensor_entry

abbrev pub cold : Shared database platform
cold = record { store = cold_store; now = 1000; in_flight = [] }

pub cold-IsSound : IsSound database database-frame platform IsSensor cold
unfolding stored
cold-IsSound = record { kept = λ key pe e. absurd (none-ne-some pe e); answered = tt }

abbrev pub fetch : Fetch
fetch = record { key = sensor; entry = sensor_entry }

abbrev pub warm : Shared database platform
warm = record cold { store = write_l1 database platform 1000 cold_store sensor sensor_entry }

pub to_warm : Steps database platform IsSensor cold warm
to_warm =
    more (more done (fetches sensor sensor_entry sensor_entry-IsText refl)) (writes fetch [] here)

pub sensor_answered :
    (e : AuthEntry)
    → ◌≡◌ {A = Result (Option AuthEntry)} (ok (some sensor_entry)) (ok (some e))
    → e ≡ sensor_entry
sensor_answered e q = cc

pub err-ne-ok : (e : AuthEntry) → ◌≢◌ {A = Result AuthEntry} (err unavailable) (ok e)
err-ne-ok e q = cc

pub cold_Permitted : Permitted database platform IsSensor world cold_store sensor
unfolding store_run
cold_Permitted = (
  λ e q.
      let same_entry = sensor_answered e q in
      (subst IsText (sym same_entry) sensor_entry-IsText, same_entry),
  λ e q. absurd (err-ne-ok e q),
)

-- The same once L1 is warm.
pub warm_Permitted : Permitted database platform IsSensor world warm.store sensor
unfolding store_run
warm_Permitted = cold_Permitted
