-- ===== src/Projection/Tests.antt =====
-- The decoder at a document with a key of another service.
use mapex_mqttbroker.Common.{refl, ◌≡◌, true, false, some, codes}
use mapex_mqttbroker.Fixtures.{platform, store_run}
use mapex_mqttbroker.Json.{bool, str, obj, Fields, field, end}
use mapex_mqttbroker.Projection.{decode_read_model_to_auth_entry}

abbrev tail : Fields
tail = field (codes "enabled") (bool true) end

unknown_key_skipped :
    decode_read_model_to_auth_entry platform (
      some
        (obj (field (codes "orgId") (str (codes "o1")) (field (codes "site") (bool false) tail))))
    ≡ decode_read_model_to_auth_entry platform
        (some (obj (field (codes "orgId") (str (codes "o1")) tail)))
unfolding store_run
unknown_key_skipped = refl
