-- ===== src/TieredStore/PebbleJson.antt =====
-- `pebbleEntry` of src/auth_store.go and its JSON form, by the field tags.
use mapex_mqttbroker.Common.{
  ℕ, ◌≡◌, inl, inr, Bool, true, false, not, ◌&&◌, Option, none, some, [], arith, if◌then◌else◌,
  Option-cases, is_empty, is_empty_iff, Bytes, codes,
}
use mapex_mqttbroker.Entry.{AuthEntry}
use mapex_mqttbroker.GoText.Fold.{equal_fold}
use mapex_mqttbroker.GoText.Utf8.{IsUtf8}
use mapex_mqttbroker.Json.{Json, null, bool, num, str, arr, obj, Fields, end, field, text, field_if}
use mapex_mqttbroker.Platform.{Platform, ReadsTime}
use mapex_mqttbroker.Projection.{key_is, read_string, read_bool}

pub record PebbleEntry : Type 0 where
  pub entry : AuthEntry
  pub cached_at : ℕ

unfoldable pub marshal_auth_entry : AuthEntry → Json
marshal_auth_entry e = obj (
    field (codes "enabled") (bool e.enabled) (
      field (codes "assetUUID") (text e.asset_uuid) (
        field (codes "orgId") (text e.org_id) (
          field (codes "authType") (text e.auth_type) (
            field (codes "passwordHash") (text e.password_hash) (
              field_if (not (is_empty e.current_cert_serial)) (codes "currentCertSerial")
                (text e.current_cert_serial) end))))))

unfoldable pub marshal_pebble_entry : Platform → PebbleEntry → Option Json
marshal_pebble_entry env pe = elim (env.render_time pe.cached_at) [
  | none ↦ none
  | some time ↦ some (
      obj (
        field (codes "entry") (marshal_auth_entry pe.entry)
          (field (codes "cachedAt") (str time) end)))
]

abbrev pub zero_entry : AuthEntry
zero_entry = record {
  enabled = false;
  asset_uuid = [];
  org_id = [];
  auth_type = [];
  password_hash = [];
  current_cert_serial = [];
}

-- The time of a value, which is none if it is not a string or not a time.
unfoldable pub read_time : Platform → Json → ℕ → ℕ × Bool
read_time env null old = (old, true)
read_time env (str s) old = elim (env.parse_time s) [ none ↦ (old, false) | some t ↦ (t, true) ]
read_time env (bool _) old = (old, false)
read_time env (num _) old = (old, false)
read_time env (arr _) old = (old, false)
read_time env (obj _) old = (old, false)

module _ (env : Platform) where
  unfoldable pub assign_entry : Bytes → Json → AuthEntry → AuthEntry × Bool
  assign_entry key v e =
      if key_is env key (codes "enabled")
      then (record e { enabled = (read_bool v e.enabled).0 }, (read_bool v false).1)
      else if key_is env key (codes "assetUUID")
      then (record e { asset_uuid = (read_string v e.asset_uuid).0 }, (read_string v []).1)
      else if key_is env key (codes "orgId")
      then (record e { org_id = (read_string v e.org_id).0 }, (read_string v []).1)
      else if key_is env key (codes "authType")
      then (record e { auth_type = (read_string v e.auth_type).0 }, (read_string v []).1)
      else if key_is env key (codes "passwordHash")
      then (record e { password_hash = (read_string v e.password_hash).0 }, (read_string v []).1)
      else if key_is env key (codes "currentCertSerial")
      then (
        record e { current_cert_serial = (read_string v e.current_cert_serial).0 },
        (read_string v []).1,
      )
      else (e, true)

  unfoldable pub assign_entries : Fields → AuthEntry × Bool → AuthEntry × Bool
  assign_entries end (e, fits) = (e, fits)
  assign_entries (field key v rest) (e, fits) =
      let (e', fits') = assign_entry key v e in assign_entries rest (e', fits && fits')

  unfoldable pub read_entry : Json → AuthEntry → AuthEntry × Bool
  read_entry null e = (e, true)
  read_entry (obj fields) e = assign_entries fields (e, true)
  read_entry (bool _) e = (e, false)
  read_entry (num _) e = (e, false)
  read_entry (str _) e = (e, false)
  read_entry (arr _) e = (e, false)

  unfoldable pub assign_pebble : Bytes → Json → PebbleEntry → PebbleEntry × Bool
  assign_pebble key v pe =
      if key_is env key (codes "entry")
      then (record pe { entry = (read_entry v pe.entry).0 }, (read_entry v pe.entry).1)
      else if key_is env key (codes "cachedAt")
      then (
        record pe { cached_at = (read_time env v pe.cached_at).0 },
        (read_time env v pe.cached_at).1,
      )
      else (pe, true)

  unfoldable pub assign_pebbles : Fields → PebbleEntry × Bool → PebbleEntry × Bool
  assign_pebbles end (pe, fits) = (pe, fits)
  assign_pebbles (field key v rest) (pe, fits) =
      let (pe', fits') = assign_pebble key v pe in assign_pebbles rest (pe', fits && fits')

  unfoldable pub read_pebble : Json → PebbleEntry → PebbleEntry × Bool
  read_pebble null pe = (pe, true)
  read_pebble (obj fields) pe = assign_pebbles fields (pe, true)
  read_pebble (bool _) pe = (pe, false)
  read_pebble (num _) pe = (pe, false)
  read_pebble (str _) pe = (pe, false)
  read_pebble (arr _) pe = (pe, false)

  abbrev finish_pebble : PebbleEntry × Bool → Option PebbleEntry
  finish_pebble (pe, true) = some pe
  finish_pebble (pe, false) = none

  -- `json.Unmarshal`; the zero time is 0.
  unfoldable pub unmarshal_pebble_entry : Option Json → Option PebbleEntry
  unmarshal_pebble_entry none = none
  unmarshal_pebble_entry (some doc) =
      finish_pebble (read_pebble doc (record { entry = zero_entry; cached_at = 0 }))

-- The strings of an entry are UTF-8, as they are in every entry that was decoded from JSON.
pub record IsText (e : AuthEntry) : Type 0 where
  pub asset_uuid : IsUtf8 e.asset_uuid
  pub org_id : IsUtf8 e.org_id
  pub auth_type : IsUtf8 e.auth_type
  pub password_hash : IsUtf8 e.password_hash
  pub current_cert_serial : IsUtf8 e.current_cert_serial

module _ (env : Platform) where
  read_entry-marshal_auth_entry :
      (e : AuthEntry) → IsText e → read_entry env (marshal_auth_entry e) zero_entry ≡ (e, true)
  unfolding read_entry marshal_auth_entry assign_entries assign_entry read_string read_bool key_is
      equal_fold text
  read_entry-marshal_auth_entry e h = ground (arith, is_empty_iff e.current_cert_serial)

  unmarshal_of :
      (e : AuthEntry) (time : Bytes) (t : ℕ)
      → IsText e
      → env.parse_time time ≡ some t
      → unmarshal_pebble_entry env (
          some (
            obj (
              field
                (codes "entry")
                (marshal_auth_entry e)
                (field (codes "cachedAt") (str time) end))))
        ≡ some (record { entry = e; cached_at = t })
  unfolding unmarshal_pebble_entry read_pebble assign_pebbles assign_pebble read_time key_is
      equal_fold
  unmarshal_of e time t h p = rw (read_entry-marshal_auth_entry e h, p, read_time)

  -- What `writeL1` marshals, `readL1` unmarshals to the same entry and time. (The entry's strings
  -- are UTF-8, and times that are rendered are read back.)
  pub unmarshal-marshal_pebble_entry :
      (e : AuthEntry) (t : ℕ) (doc : Json)
      → ReadsTime env
      → IsText e
      → marshal_pebble_entry env (record { entry = e; cached_at = t }) ≡ some doc
      → unmarshal_pebble_entry env (some doc) ≡ some (record { entry = e; cached_at = t })
  unfolding marshal_pebble_entry
  unmarshal-marshal_pebble_entry e t doc reads h m = elim (Option-cases (env.render_time t)) [
    | inl k ↦ absurd (ground arith)
    | inr (time, k) ↦
        let same_doc : doc
            ≡ obj (
                field (codes "entry") (marshal_auth_entry e)
                  (field (codes "cachedAt") (str time) end)) =
          ground arith in
        rw same_doc (unmarshal_of e time t h (reads t time k))
  ]
