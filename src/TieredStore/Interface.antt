-- ===== src/TieredStore/Interface.antt =====
-- What src/auth_store.go takes from outside src/: the Pebble database, the MinIO client, the
-- network and the clock.
use mapex_mqttbroker.Common.{◌⊎◌, ℕ, ◌≡◌, Bool, true, Option, some, Bytes}
use mapex_mqttbroker.HttpAuth.{Request, Reply}
use mapex_mqttbroker.Json.{Json}

-- An answer of Pebble; a value is what the JSON parser makes of its bytes.
pub data Read : Type 0 where
  missing read_error : Read
  value : Option Json → Read

-- A `pebble.DB`; the flags say whether the operation succeeded.
pub record Pebble : Type 1 where
  pub Db : Type 0
  pub get : Db → Bytes → Read
  pub set : Db → Bytes → Json → Bool × Db
  pub delete : Db → Bytes → Bool × Db
  pub close : Db → Bool

-- The documented behaviour: a successful write is read back, a successful delete leaves no value.
pub record PebbleLaws (P : Pebble) : Type 0 where
  pub get-set :
      (db : P.Db) (key : Bytes) (doc : Json)
      → (P.set db key doc).0 ≡ true
      → P.get (P.set db key doc).1 key ≡ value (some doc)
  pub get-delete :
      (db : P.Db) (key : Bytes)
      → (P.delete db key).0 ≡ true
      → P.get (P.delete db key).1 key ≡ missing

-- Neither touches another key, and one that fails leaves its key as it was or does its work.
pub record PebbleFrame (P : Pebble) : Type 0 where
  pub get-set_cases :
      (db : P.Db) (key : Bytes) (doc : Json) (other : Bytes)
      → (P.get (P.set db key doc).1 other ≡ P.get db other)
        ⊎ ((other ≡ key) × (P.get (P.set db key doc).1 other ≡ value (some doc)))
  pub get-delete_cases :
      (db : P.Db) (key other : Bytes)
      → (P.get (P.delete db key).1 other ≡ P.get db other)
        ⊎ ((other ≡ key) × (P.get (P.delete db key).1 other ≡ missing))

-- `GetObject`, `Stat` with its error code, and the object's size and body.
pub data ObjectReply : Type 0 where
  get_error : ObjectReply
  stat_error : Bytes → ObjectReply
  found_object : ℕ → Option Json → ObjectReply

-- What the clock, the bucket and the assets service answer while one call runs.
pub record World : Type 0 where
  pub now : ℕ
  pub object : Bytes → Bytes → ObjectReply
  pub http : Request → Reply
