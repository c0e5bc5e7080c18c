-- ===== src/Revocation/Aliases.antt =====
-- L1 of src/auth_store.go goes by the username, and `Authenticate` of src/plugin.go does not compare
-- it with the asset that the entry names.
use mapex_mqttbroker.Common.{
  ℕ, ◌≡◌, refl, ap, ◌∙◌, ◌≢◌, inl, inr, Option, none, some, [], Bool-cases, Option-cases, is_empty,
  Bytes, true, if◌then◌else◌,
}
use mapex_mqttbroker.Common.Int.{increment}
use mapex_mqttbroker.Acl.Topic.{IsUsername}
use mapex_mqttbroker.Auth.{auth_allow, authenticate}
use mapex_mqttbroker.Auth.Checks.{Admits}
use mapex_mqttbroker.Auth.Decision.{authenticate_allow_iff}
use mapex_mqttbroker.AuthStore.{ok}
use mapex_mqttbroker.Entry.{AuthEntry}
use mapex_mqttbroker.Fanout.{FanoutConsumer, decode_payload, handle}
use mapex_mqttbroker.Json.{Json}
use mapex_mqttbroker.Platform.{Platform}
use mapex_mqttbroker.Revocation.{handle-invalidate}
use mapex_mqttbroker.Runtime.{PluginRuntime}
use mapex_mqttbroker.TieredStore.{
  TieredAuthStore, read_value, read_l1, read_l2, get, invalidate, tiered,
}
use mapex_mqttbroker.TieredStore.Interface.{Pebble, PebbleFrame, World}
use mapex_mqttbroker.TieredStore.Layers.{third, layered, get-layered}

module _ (P : Pebble) (frame : PebbleFrame P) (env : Platform) where
  get-delete_other :
      (db : P.Db) (key other : Bytes)
      → other ≢ key
      → P.get (P.delete db key).1 other ≡ P.get db other
  get-delete_other db key other h = elim (frame.get-delete_cases db key other) [
    | inl e ↦ e
    | inr (e, _) ↦ absurd (h e)
  ]

  -- The database behind an invalidation.
  abbrev dropped : Option P.Db → Bytes → Option P.Db
  dropped none key = none
  dropped (some db) key = if is_empty key then some db else some (P.delete db key).1

  invalidate-dropped :
      (s : TieredAuthStore P.Db) (key : Bytes)
      → (invalidate P env s key).1 ≡ record s {
        pebble_db = dropped s.pebble_db key;
        invalidations = increment s.invalidations;
      }
  unfolding invalidate
  invalidate-dropped s key = elim (Option-cases s.pebble_db) [
    | inl k ↦ rw (k, invalidate) (rw k refl)
    | inr (db, k) ↦ elim (Bool-cases (is_empty key)) [
      | inl m ↦ rw (k, m, invalidate) (rw k refl)
      | inr m ↦ rw (k, m, invalidate) refl
    ]
  ]

  read_l1-dropped :
      (now n : ℕ) (s : TieredAuthStore P.Db) (db : Option P.Db) (key other : Bytes)
      → other ≢ key
      → read_l1 P env now (record s { pebble_db = dropped db key; invalidations = n }) other
        ≡ read_l1 P env now (record s { pebble_db = db }) other
  unfolding read_l1
  read_l1-dropped now n s none key other h = refl
  read_l1-dropped now n s (some db) key other h = elim (Bool-cases (is_empty key)) [
    | inl m ↦ rw m refl
    | inr m ↦ rw m (ap (read_value P env now s.l1_ttl) (get-delete_other db key other h))
  ]

  -- An invalidation leaves what L1 serves under every other id as it was.
  invalidate_others :
      (now : ℕ) (s : TieredAuthStore P.Db) (key other : Bytes)
      → other ≢ key
      → read_l1 P env now (invalidate P env s key).1 other ≡ read_l1 P env now s other
  invalidate_others now s key other h =
      ap (λ x. read_l1 P env now x other) (invalidate-dropped s key)
      ∙ read_l1-dropped now (increment s.invalidations) s s.pebble_db key other h

  -- An alias outlives a revocation: whatever asset a message of the fanout consumer names, a
  -- username other than that id under which L1 still serves an entry, be it the entry of the named
  -- asset, is admitted by it, with the credentials that the entry fits.
  pub alias_outlives_revocation :
      (fc : FanoutConsumer) (s : TieredAuthStore P.Db) (body : Option Json) (uuid alias : Bytes)
      (e : AuthEntry) (world : World) (r : PluginRuntime (TieredAuthStore P.Db))
      (password client_id serial : Bytes)
      → decode_payload env body ≡ some uuid
      → uuid ≢ []
      → alias ≢ uuid
      → IsUsername alias
      → read_l1 P env world.now s alias ≡ some e
      → Admits env e password serial
      → r.has_auth ≡ true
      → r.store ≡ some (handle env (tiered P env) fc s body).1
      → (authenticate (tiered P env) env world r alias password client_id serial).0 ≡ auth_allow
  alias_outlives_revocation fc s body uuid alias e world r password client_id serial named full
        other wellformed cached admits has_auth shared =
      let after = (handle env (tiered P env) fc s body).1 in
      let served : read_l1 P env world.now after alias ≡ some e =
        ap (λ x. read_l1 P env world.now x alias)
          (handle-invalidate P env fc s body uuid named full)
        ∙ invalidate_others world.now s uuid alias other
        ∙ cached in
      let found : (get P env world after alias).0 ≡ ok e =
        get-layered P env world after alias wellformed.0
        ∙ ap
            (λ x.
              layered P env x (read_l2 P env world after alias)
                (third P env world after.l3_client alias))
            served in
      (authenticate_allow_iff (tiered P env) env world r alias password client_id serial has_auth).1
        (wellformed, (after, e, shared, found, admits))
