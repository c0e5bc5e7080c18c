-- ===== src/Init/Unused.antt =====
-- The counters of the store that src/runtime_init.go builds.
use mathlib.Core.Option.{some-injective}
use mapex_mqttbroker.Common.{
  ◌≡◌, refl, subst, inl, inr, Bool, true, false, Option, none, some, Bool-cases, Option-cases,
  is_empty,
}
use mapex_mqttbroker.Config.{Config}
use mapex_mqttbroker.HttpAuth.{AuthClient, AuthClientConfig, ClientError, new_auth_client}
use mapex_mqttbroker.Init.{
  Answers, StoreBuilt, store_built, store_refused, store_with, add_minio, new_tiered_auth_store,
  Build, ready, stopped, client_config, store_config, with_store, with_client, with_publisher,
  build_runtime,
}
use mapex_mqttbroker.Publisher.{AsyncPublisher, PublisherError, Built, built, refused}
use mapex_mqttbroker.Runtime.{PluginRuntime}
use mapex_mqttbroker.TieredStore.{TieredAuthStore, TieredAuthStoreConfig}

abbrev pub IsIdle : AuthClient → Type 0
IsIdle c = (c.lookups ≡ 0) × (c.lookup_hits ≡ 0) × (c.lookup_miss ≡ 0) × (c.lookup_error ≡ 0)

-- There is an HTTP client, and no counter of it or of the store has moved.
pub record IsUnused {Db : Type 0} (s : TieredAuthStore Db) : Type 0 where
  pub read : (s.l1_misses ≡ 0) × (s.l2_hits ≡ 0) × (s.l2_misses ≡ 0)
  pub served : (s.l3_hits ≡ 0) × (s.l3_misses ≡ 0) × (s.store_errors ≡ 0)
  pub client : AuthClient
  pub reached : s.l3_client ≡ some client
  pub idle : IsIdle client

abbrev pub IsUnusedIn : {Db : Type 0} → PluginRuntime (TieredAuthStore Db) → Type 0
IsUnusedIn {Db} rt = (s : TieredAuthStore Db) → rt.store ≡ some s → IsUnused s

module _ {Db : Type 0} (answers : Answers Db) where
  abbrev pub OnUnused : Build answers → Type 0
  OnUnused (ready rt) = IsUnusedIn rt
  OnUnused (stopped _ _) = Unit

  abbrev OnBuilt : StoreBuilt answers → Type 0
  OnBuilt (store_built s) = IsUnused s
  OnBuilt (store_refused _ _) = Unit

  store_with-IsUnused :
      (cfg : TieredAuthStoreConfig) (c : AuthClient) (db : Option Db) (has_minio : Bool)
      → IsIdle c
      → IsUnused (store_with answers cfg c db has_minio)
  store_with-IsUnused cfg c db has_minio h = record {
    read = (refl, refl, refl);
    served = (refl, refl, refl);
    client = c;
    reached = refl;
    idle = h;
  }

  add_minio-OnBuilt :
      (cfg : TieredAuthStoreConfig) (c : AuthClient) (db : Option Db)
      → IsIdle c
      → OnBuilt (add_minio answers cfg c db)
  unfolding add_minio
  add_minio-OnBuilt cfg c db h = elim (Bool-cases (is_empty cfg.l2_endpoint)) [
    | inl e ↦ rw (e, add_minio) (store_with-IsUnused cfg c db false h)
    | inr e ↦ elim (Bool-cases (answers.new_minio cfg.l2_endpoint)) [
      | inl k ↦ rw (e, k, add_minio) (store_with-IsUnused cfg c db true h)
      | inr k ↦ rw (e, k, add_minio) tt
    ]
  ]

  new_tiered_auth_store-OnBuilt :
      (cfg : Config) (c : AuthClient)
      → IsIdle c
      → OnBuilt (new_tiered_auth_store answers (store_config answers cfg c))
  unfolding new_tiered_auth_store
  new_tiered_auth_store-OnBuilt cfg c h = elim (Bool-cases (is_empty cfg.cache_l1_path)) [
    | inl e ↦ rw (e, new_tiered_auth_store) (add_minio-OnBuilt _ c none h)
    | inr e ↦ elim (Option-cases (answers.open_pebble cfg.cache_l1_path)) [
      | inl k ↦ rw (e, k, new_tiered_auth_store) tt
      | inr (db, k) ↦ rw (e, k, new_tiered_auth_store) (add_minio-OnBuilt _ c (some db) h)
    ]
  ]

  with_store-OnUnused :
      (cfg : Config) (has_conn : Bool) (p : AsyncPublisher) (s : StoreBuilt answers)
      → OnBuilt s
      → OnUnused (with_store answers cfg has_conn p s)
  unfolding with_store
  with_store-OnUnused cfg has_conn p (store_refused _ _) h = tt
  with_store-OnUnused cfg has_conn p (store_built s) h =
      λ t e. subst IsUnused (some-injective s t e) h

  OnClient : Built AuthClient ClientError → Type 0
  OnClient (built c) = IsIdle c
  OnClient (refused _) = Unit

  new_auth_client-OnClient : (cfg : AuthClientConfig) → OnClient (new_auth_client cfg)
  unfolding OnClient new_auth_client
  new_auth_client-OnClient cfg = elim (Bool-cases (is_empty cfg.url)) [
    | inl e ↦ rw (e, new_auth_client) tt
    | inr e ↦ elim (Bool-cases (is_empty cfg.api_key)) [
      | inl k ↦ rw (e, k, new_auth_client) tt
      | inr k ↦ rw (e, k, new_auth_client) (refl, refl, refl, refl)
    ]
  ]

  with_client-OnUnused :
      (cfg : Config) (has_conn : Bool) (p : AsyncPublisher) (c : Built AuthClient ClientError)
      → OnClient c
      → OnUnused (with_client answers cfg has_conn p c)
  unfolding with_client OnClient
  with_client-OnUnused cfg has_conn p (refused _) h = tt
  with_client-OnUnused cfg has_conn p (built c) h =
      with_store-OnUnused cfg has_conn p _ (new_tiered_auth_store-OnBuilt cfg c h)

  with_publisher-OnUnused :
      (cfg : Config) (has_conn : Bool) (p : Built AsyncPublisher PublisherError)
      → OnUnused (with_publisher answers cfg has_conn p)
  unfolding with_publisher
  with_publisher-OnUnused cfg has_conn (refused _) = tt
  with_publisher-OnUnused cfg has_conn (built p) =
      with_client-OnUnused cfg has_conn _ _ (new_auth_client-OnClient (client_config answers cfg))

  -- The store of every runtime that `BuildRuntime` returns is unused.
  pub build_runtime-OnUnused :
      (cfg : Config) (b : Build answers) → build_runtime answers cfg true true ≡ b → OnUnused b
  unfolding build_runtime
  build_runtime-OnUnused cfg b h = subst OnUnused h (with_publisher-OnUnused cfg true _)
