-- ===== src/TieredStore/Tests.antt =====
-- The tiers at a cold store and an asset that only the bucket knows, and again after the bucket is
-- gone.
use mapex_mqttbroker.Common.{◌≡◌, refl, none, some, [], ◌∷◌, codes}
use mapex_mqttbroker.Fixtures.{
  platform, platform-ReadsTime, database, sensor, sensor_entry, sensor_entry-IsText, world,
  cold_store, store_run,
}
use mapex_mqttbroker.Json.{Json, str, obj, field, end}
use mapex_mqttbroker.TieredStore.{read_l1, read_l2, get}
use mapex_mqttbroker.TieredStore.PebbleJson.{
  marshal_auth_entry, unmarshal_pebble_entry, unmarshal-marshal_pebble_entry,
}
use mapex_mqttbroker.TieredStore.Layers.{third, layered, get-layered}

get-layered_example :
    (get database platform world cold_store sensor).0
    ≡ layered database platform
        (read_l1 database platform 1000 cold_store sensor)
        (read_l2 database platform world cold_store sensor)
        (third database platform world none sensor)
get-layered_example = get-layered database platform world cold_store sensor (λ k. cc)

abbrev sensor_value : Json
sensor_value = obj (
    field (codes "entry") (marshal_auth_entry sensor_entry)
      (field (codes "cachedAt") (str (7 ∷ [])) end))

unmarshal-marshal_pebble_entry_example :
    unmarshal_pebble_entry platform (some sensor_value)
    ≡ some (record { entry = sensor_entry; cached_at = 7 })
unfolding store_run
unmarshal-marshal_pebble_entry_example =
    unmarshal-marshal_pebble_entry platform sensor_entry 7 sensor_value platform-ReadsTime
      sensor_entry-IsText refl
