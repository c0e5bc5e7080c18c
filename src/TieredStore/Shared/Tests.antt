-- ===== src/TieredStore/Shared/Tests.antt =====
-- Short runs of the shared store, on the sensor of the fixtures.
use mapex_mqttbroker.Common.{◌≡◌, refl, inr, some, [], ◌∷◌}
use mapex_mqttbroker.Fixtures.{
  platform, platform-ReadsTime, database, database-laws, database-frame, sensor, sensor_entry,
  sensor_entry-IsText, world, cold_store, store_run,
}
use mapex_mqttbroker.Fixtures.SharedRun.{
  IsSensor, cold, cold-IsSound, fetch, to_warm, cold_Permitted,
}
use mapex_mqttbroker.Publisher.Machine.{here}
use mapex_mqttbroker.TieredStore.{read_l1, write_l1, get}
use mapex_mqttbroker.TieredStore.Cache.{Writes}
use mapex_mqttbroker.TieredStore.Shared.{Shared, Steps, fetches, writes, done, more}
use mapex_mqttbroker.TieredStore.Shared.Kept.{serves_answered}
use mapex_mqttbroker.TieredStore.Shared.Coherence.{Renewed, after_invalidate, invalidate_overtaken}
use mapex_mqttbroker.TieredStore.Shared.Calls.{get_runs}

serves_answered_example : IsSensor sensor sensor_entry
unfolding store_run
serves_answered_example =
    serves_answered database database-frame platform IsSensor 2000 sensor sensor_entry
      platform-ReadsTime cold-IsSound to_warm refl

abbrev dropped : Shared database platform
dropped = after_invalidate database database-laws database-frame platform cold sensor

abbrev renewed : Shared database platform
renewed = record dropped {
  store = write_l1 database platform 1000 dropped.store sensor sensor_entry;
}

to_renewed :
    Steps database platform
      (Renewed database database-laws database-frame platform sensor (IsSensor sensor))
      dropped
      renewed
to_renewed =
    more (more done (fetches sensor sensor_entry sensor_entry-IsText (inr refl)))
      (writes fetch [] here)

dropped_Writes : Writes database database-laws platform 1000 dropped.store sensor sensor_entry
unfolding store_run
dropped_Writes = (_, _, refl, refl, refl)

invalidate_overtaken_example :
    let fetched = record cold { in_flight = fetch ∷ [] } in
    (n : Shared database platform) × Steps database platform IsSensor cold fetched
    × Steps database platform IsSensor
        (after_invalidate database database-laws database-frame platform fetched sensor)
        n
    × (read_l1 database platform 2000 n.store sensor ≡ some sensor_entry)
invalidate_overtaken_example =
    invalidate_overtaken database database-laws database-frame platform IsSensor cold sensor
      sensor_entry 2000 platform-ReadsTime sensor_entry-IsText refl dropped_Writes

get_runs_example :
    Steps database platform IsSensor cold
      (record cold { store = (get database platform world cold_store sensor).1 })
get_runs_example = get_runs database platform IsSensor world cold sensor refl cold_Permitted
