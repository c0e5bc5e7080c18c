-- ===== src/Revocation/FailClosed.antt =====
-- An admission rests on a document that enables the asset in so many words.
mod Tests
use mathlib.Core.Option.{some-injective}
use mapex_mqttbroker.Common.{
  ℕ, ◌*◌, ◌≤◌, ◌≡◌, refl, sym, ap, ◌∙◌, ◌≢◌, ◌⊎◌, inl, inr, Option, none, some, [], ◌++◌, true,
  false, arith, Bool-cases, Option-cases, is_empty, is_empty_iff, Bytes, codes, ltb, if◌then◌else◌,
  not, same,
}
use mapex_mqttbroker.Auth.{auth_allow, authenticate}
use mapex_mqttbroker.Auth.Decision.{authenticate_allow_iff}
use mapex_mqttbroker.AuthStore.{Result, ok, err}
use mapex_mqttbroker.Entry.{AuthEntry}
use mapex_mqttbroker.HttpAuth.{AuthClient, lookup_request, lookup_entry, response}
use mapex_mqttbroker.HttpAuth.Enabled.{
  SaysEnabled, DataSaysEnabled, object_enabled, lookup_entry_enabled,
}
use mapex_mqttbroker.Json.{obj, Fields}
use mapex_mqttbroker.Platform.{Platform}
use mapex_mqttbroker.Projection.{decode_read_model_to_auth_entry}
use mapex_mqttbroker.Revocation.{layered_ok}
use mapex_mqttbroker.Runtime.{PluginRuntime}
use mapex_mqttbroker.TieredStore.{
  TieredAuthStore, l2_of, read_object, read_l1, read_l2, get, tiered,
}
use mapex_mqttbroker.TieredStore.Interface.{
  Pebble, World, ObjectReply, get_error, stat_error, found_object,
}
use mapex_mqttbroker.TieredStore.Layers.{third, layered, get-layered}

module _ (P : Pebble) (env : Platform) where
  -- The object of the asset in the bucket says that the asset is enabled.
  abbrev pub ObjectEnables : World → TieredAuthStore P.Db → Bytes → Type 0
  ObjectEnables world s key =
      (size : ℕ) × (fields : Fields) × (world.object s.l2_bucket (key ++ codes ".json")
        ≡ found_object size (some (obj fields)))
      × (size ≤ 1024 * 1024)
      × SaysEnabled env fields

  -- The answer of the assets service for the asset says so.
  abbrev pub ServiceEnables : World → TieredAuthStore P.Db → Bytes → Type 0
  ServiceEnables world s key =
      (client : AuthClient) × (fields : Fields) × (s.l3_client ≡ some client)
      × (world.http (lookup_request client key) ≡ response 200 (some (obj fields)))
      × DataSaysEnabled env fields

  l2_of_ok : (o : Option AuthEntry) (e : AuthEntry) → l2_of P env o ≡ ok (some e) → o ≡ some e
  l2_of_ok none e h = absurd (cc)
  l2_of_ok (some x) e h = cc

  read_object_enabled :
      (reply : ObjectReply) (e : AuthEntry)
      → read_object P env reply ≡ ok (some e)
      → e.enabled ≡ true
      → (size : ℕ) × (fields : Fields) × (reply ≡ found_object size (some (obj fields)))
        × (size ≤ 1024 * 1024)
        × SaysEnabled env fields
  unfolding read_object
  read_object_enabled get_error e h on = absurd (cc)
  read_object_enabled (stat_error code) e h on = absurd (ground arith)
  read_object_enabled (found_object size body) e h on = elim (Bool-cases (ltb (1024 * 1024) size)) [
    | inl k ↦ absurd (cc (rw (k, read_object) at h))
    | inr k ↦
        let (fields, said, says) =
          object_enabled env body e (l2_of_ok _ e (rw (k, read_object) at h)) on in
        (size, fields, ap (found_object size) said, ground arith, says)
  ]

  read_l2_enabled :
      (world : World) (s : TieredAuthStore P.Db) (key : Bytes) (e : AuthEntry)
      → read_l2 P env world s key ≡ ok (some e)
      → e.enabled ≡ true
      → ObjectEnables world s key
  unfolding read_l2
  read_l2_enabled world s key e h on = elim (Bool-cases s.has_minio) [
    | inl k ↦ read_object_enabled _ e (rw (k, read_l2) at h) on
    | inr k ↦ absurd (ground arith)
  ]

  third_enabled :
      (world : World) (s : TieredAuthStore P.Db) (key : Bytes) (e : AuthEntry)
      → third P env world s.l3_client key ≡ ok e
      → e.enabled ≡ true
      → ServiceEnables world s key
  third_enabled world s key e h on = elim (Option-cases s.l3_client) [
    | inl k ↦ absurd (cc (rw k at h))
    | inr (client, k) ↦
        let (_, fields, answered, says) =
          lookup_entry_enabled env world.http client key e (rw k at h) on in
        (client, fields, k, answered, says)
  ]

  -- `Authenticate` fails closed: where it admits a device, L1 serves an enabled entry for it, or
  -- the object in the bucket or the answer of the assets service has a field `enabled` that is
  -- true. An object in the bucket is at most 1 MiB long, and the service answered with 200 and put
  -- the field into the object `data`; names of fields count up to case. (With an `AuthClient`
  -- set.)
  pub admitted_enabled :
      (world : World) (r : PluginRuntime (TieredAuthStore P.Db))
      (username password client_id serial : Bytes)
      → r.has_auth ≡ true
      → (authenticate (tiered P env) env world r username password client_id serial).0 ≡ auth_allow
      → (s : TieredAuthStore P.Db) × (r.store ≡ some s)
        × (((e : AuthEntry) × (read_l1 P env world.now s username ≡ some e) × (e.enabled ≡ true))
            ⊎ ObjectEnables world s username
            ⊎ ServiceEnables world s username)
  admitted_enabled world r username password client_id serial h allowed =
      let (named, (s, e, stored, found, admits)) =
        (authenticate_allow_iff (tiered P env) env world r username password client_id serial h).0
          allowed in
      let answered = sym (get-layered P env world s username named.0) ∙ found in
      (
        s,
        stored,
        elim (layered_ok P env _ _ _ e answered) [
          | inl l1 ↦ inl (e, l1, admits.0)
          | inr (inl l2) ↦ inr (inl (read_l2_enabled world s username e l2 admits.0))
          | inr (inr l3) ↦ inr (inr (third_enabled world s username e l3 admits.0))
        ],
      )
