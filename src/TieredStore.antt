-- ===== src/TieredStore.antt =====
-- src/auth_store.go: the store with its three layers, Pebble, MinIO and the HTTP fallback.
pub mod Interface
pub mod PebbleJson
pub mod Cache
pub mod Layers
pub mod Books
pub mod Shared
mod Tests
use mapex_mqttbroker.Common.{
  ℕ, ◌-◌, ◌*◌, min, Bool, not, Option, none, some, ◌++◌, ltb, leb, if◌then◌else◌, is_empty, Bytes,
  codes, same,
}
use mapex_mqttbroker.Common.Int.{ℤ, pos, negsuc, max_int64, ltz, increment}
use mapex_mqttbroker.AuthStore.{
  AuthStore, StoreError, not_found, unavailable, failed, Result, ok, err,
}
use mapex_mqttbroker.Entry.{AuthEntry}
use mapex_mqttbroker.HttpAuth.{AuthClient, lookup_entry}
use mapex_mqttbroker.Platform.{Platform}
use mapex_mqttbroker.Projection.{decode_read_model_to_auth_entry}
use mapex_mqttbroker.TieredStore.Interface.{
  Pebble, Read, missing, read_error, value, ObjectReply, get_error, stat_error, found_object, World,
}
use mapex_mqttbroker.TieredStore.PebbleJson.{
  PebbleEntry, marshal_pebble_entry, unmarshal_pebble_entry,
}

pub record TieredAuthStoreConfig : Type 0 where
  pub l1_path : Bytes
  pub l2_endpoint : Bytes
  pub l2_bucket : Bytes
  pub l3_client : Option AuthClient
  pub l1_ttl : ℤ

-- `Db` is an open Pebble database; of the MinIO client only whether there is one.
pub record TieredAuthStore (Db : Type 0) : Type 0 where
  pub l2_bucket : Bytes
  pub l1_ttl : ℤ
  pub l3_client : Option AuthClient
  pub pebble_db : Option Db
  pub has_minio : Bool
  pub l1_hits : ℕ
  pub l1_misses : ℕ
  pub l2_hits : ℕ
  pub l2_misses : ℕ
  pub l3_hits : ℕ
  pub l3_misses : ℕ
  pub store_errors : ℕ
  pub invalidations : ℕ

-- What the getters of the counters load.
abbrev pub l1_hit_count : {Db : Type 0} → TieredAuthStore Db → ℕ
l1_hit_count s = s.l1_hits

abbrev pub l1_miss_count : {Db : Type 0} → TieredAuthStore Db → ℕ
l1_miss_count s = s.l1_misses

abbrev pub l2_hit_count : {Db : Type 0} → TieredAuthStore Db → ℕ
l2_hit_count s = s.l2_hits

abbrev pub l2_miss_count : {Db : Type 0} → TieredAuthStore Db → ℕ
l2_miss_count s = s.l2_misses

abbrev pub l3_hit_count : {Db : Type 0} → TieredAuthStore Db → ℕ
l3_hit_count s = s.l3_hits

abbrev pub l3_miss_count : {Db : Type 0} → TieredAuthStore Db → ℕ
l3_miss_count s = s.l3_misses

abbrev pub store_error_count : {Db : Type 0} → TieredAuthStore Db → ℕ
store_error_count s = s.store_errors

abbrev pub invalidation_count : {Db : Type 0} → TieredAuthStore Db → ℕ
invalidation_count s = s.invalidations

-- `time.Since(t)`, which saturates.
abbrev pub since : ℕ → ℕ → ℤ
since now t =
    if leb t now then pos (min (now - t) max_int64) else negsuc (min (t - now - 1) max_int64)

module _ (P : Pebble) (env : Platform) where
  -- What `readL1` makes of the value that Pebble holds.
  unfoldable pub fresh_entry : ℕ → ℤ → Option PebbleEntry → Option AuthEntry
  fresh_entry now ttl none = none
  fresh_entry now ttl (some pe) = if ltz ttl (since now pe.cached_at) then none else some pe.entry

  unfoldable pub read_value : ℕ → ℤ → Read → Option AuthEntry
  read_value now ttl missing = none
  read_value now ttl read_error = none
  read_value now ttl (value doc) = fresh_entry now ttl (unmarshal_pebble_entry env doc)

  unfoldable pub read_l1 : ℕ → TieredAuthStore P.Db → Bytes → Option AuthEntry
  read_l1 now s asset_uuid = elim s.pebble_db [
    | none ↦ none
    | some db ↦ read_value now s.l1_ttl (P.get db asset_uuid)
  ]

  -- Best effort: a failure to marshal or to set is only logged.
  unfoldable pub write_l1 : ℕ → TieredAuthStore P.Db → Bytes → AuthEntry → TieredAuthStore P.Db
  write_l1 now s asset_uuid entry = elim s.pebble_db [
    | none ↦ s
    | some db ↦ elim (marshal_pebble_entry env (record { entry = entry; cached_at = now })) [
      | none ↦ s
      | some doc ↦ record s { pebble_db = some (P.set db asset_uuid doc).1 }
    ]
  ]

  abbrev pub l2_of : Option AuthEntry → Result (Option AuthEntry)
  l2_of none = err failed
  l2_of (some e) = ok (some e)

  -- `ok none` is a miss.
  unfoldable pub read_object : ObjectReply → Result (Option AuthEntry)
  read_object get_error = err failed
  read_object (stat_error code) = if same code (codes "NoSuchKey") then ok none else err failed
  read_object (found_object size body) =
      if ltb (1024 * 1024) size
      then err failed
      else l2_of (decode_read_model_to_auth_entry env body)

  unfoldable pub read_l2 : World → TieredAuthStore P.Db → Bytes → Result (Option AuthEntry)
  read_l2 world s asset_uuid =
      if not s.has_minio
      then ok none
      else read_object (world.object s.l2_bucket (asset_uuid ++ codes ".json"))

  unfoldable pub read_l3 :
      World → TieredAuthStore P.Db → Bytes → Result AuthEntry × TieredAuthStore P.Db
  read_l3 world s asset_uuid = elim s.l3_client [
    | none ↦ (err unavailable, s)
    | some client ↦
        let out = lookup_entry env world.http client asset_uuid in
        (out.0, record s { l3_client = some out.1 })
  ]

  -- The end of `Get`: what L3 said.
  unfoldable pub end_l3 :
      ℕ → TieredAuthStore P.Db → Bytes → Result AuthEntry → Result AuthEntry × TieredAuthStore P.Db
  end_l3 now s asset_uuid (err not_found) =
      (err not_found, record s { l3_misses = increment s.l3_misses })
  end_l3 now s asset_uuid (err unavailable) = (
    err unavailable,
    record s { l3_misses = increment s.l3_misses; store_errors = increment s.store_errors },
  )
  end_l3 now s asset_uuid (err failed) = (
    err unavailable,
    record s { l3_misses = increment s.l3_misses; store_errors = increment s.store_errors },
  )
  end_l3 now s asset_uuid (ok entry) =
      (ok entry, write_l1 now (record s { l3_hits = increment s.l3_hits }) asset_uuid entry)

  unfoldable pub fall_back :
      World → TieredAuthStore P.Db → Bytes → Result AuthEntry × TieredAuthStore P.Db
  fall_back world s asset_uuid =
      let out = read_l3 world s asset_uuid in end_l3 world.now out.1 asset_uuid out.0

  -- The middle of `Get`: what L2 said.
  unfoldable pub after_l2 :
      World
      → TieredAuthStore P.Db
      → Bytes
      → Result (Option AuthEntry)
      → Result AuthEntry × TieredAuthStore P.Db
  after_l2 world s asset_uuid (ok (some entry)) =
      (ok entry, write_l1 world.now (record s { l2_hits = increment s.l2_hits }) asset_uuid entry)
  after_l2 world s asset_uuid (ok none) =
      fall_back world (record s { l2_misses = increment s.l2_misses }) asset_uuid
  after_l2 world s asset_uuid (err e) =
      fall_back world (record s { store_errors = increment s.store_errors }) asset_uuid

  unfoldable pub get :
      World → TieredAuthStore P.Db → Bytes → Result AuthEntry × TieredAuthStore P.Db
  get world s asset_uuid =
      if is_empty asset_uuid then (err not_found, s) else elim (read_l1 world.now s asset_uuid) [
        | some entry ↦ (ok entry, record s { l1_hits = increment s.l1_hits })
        | none ↦
            let s' = record s { l1_misses = increment s.l1_misses } in
            after_l2 world s' asset_uuid (read_l2 world s' asset_uuid)
      ]

  -- The flag of `P.delete` says whether it succeeded.
  unfoldable pub invalidate :
      TieredAuthStore P.Db → Bytes → Option StoreError × TieredAuthStore P.Db
  invalidate s asset_uuid =
      let s' = record s { invalidations = increment s.invalidations } in
      elim s.pebble_db [
        | none ↦ (none, s')
        | some db ↦
            if is_empty asset_uuid
            then (none, s')
            else let out = P.delete db asset_uuid in
              (if out.0 then none else some failed, record s' { pebble_db = some out.1 })
      ]

  unfoldable pub close : TieredAuthStore P.Db → Option StoreError × TieredAuthStore P.Db
  close s = elim s.pebble_db [
    | none ↦ (none, s)
    | some db ↦ (if P.close db then none else some failed, record s { pebble_db = none })
  ]

  -- The store behind the interface that the runtime uses.
  abbrev pub tiered : AuthStore World
  tiered = record {
    State = TieredAuthStore P.Db;
    get = get;
    invalidate = invalidate;
    close = close;
  }

pub data StoreInitError : Type 0 where
  l3_client_required open_pebble_failed init_minio_failed : StoreInitError
