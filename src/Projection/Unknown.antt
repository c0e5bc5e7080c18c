-- ===== src/Projection/Unknown.antt =====
-- The decoder of src/http_auth.go and keys that it does not know.
use mathlib.Core.Bool.{and-true}
use mapex_mqttbroker.Common.{◌≡◌, ap, Bool, true, false, some, arith, Bytes, codes}
use mapex_mqttbroker.Json.{Json, obj, Fields, field}
use mapex_mqttbroker.Platform.{Platform}
use mapex_mqttbroker.Projection.{
  AuthProjection, key_is, assign_projection, assign_all, read_projection, zero_projection, finish,
  decode_read_model_to_auth_entry,
}

module _ (env : Platform) where
  -- The names of the fields of `AuthProjection`.
  abbrev pub IsUnknown : Bytes → Type 0
  IsUnknown key =
      (key_is env key (codes "assetUUID") ≡ false)
      × (key_is env key (codes "orgId") ≡ false)
      × (key_is env key (codes "enabled") ≡ false)
      × (key_is env key (codes "type") ≡ false)
      × (key_is env key (codes "authType") ≡ false)
      × (key_is env key (codes "passwordHash") ≡ false)
      × (key_is env key (codes "currentCertSerial") ≡ false)

  -- `fields'` is `fields` with one more field somewhere.
  pub data Extends (key : Bytes) (v : Json) : Fields → Fields → Type 0 where
    added : {fields : Fields} → Extends key v fields (field key v fields)
    later :
        {k : Bytes} {w : Json} {fields fields' : Fields}
        → Extends key v fields fields'
        → Extends key v (field k w fields) (field k w fields')

  assign_unknown :
      (key : Bytes) (v : Json) (p : AuthProjection)
      → IsUnknown key
      → assign_projection env key v p ≡ (p, true)
  unfolding assign_projection
  assign_unknown key v p h = ground arith

  assign_all-Extends :
      (key : Bytes) (v : Json) {fields fields' : Fields} (p : AuthProjection) (fits : Bool)
      → IsUnknown key
      → Extends key v fields fields'
      → assign_all env fields' (p, fits) ≡ assign_all env fields (p, fits)
  unfolding assign_all
  assign_all-Extends key v {fields} p fits h added = rw (assign_unknown key v p h, and-true)
  assign_all-Extends key v p fits h (later {k} {w} e) = assign_all-Extends key v _ _ h e

  -- A projection with one more field, under a key that the plugin does not know, decodes to the same
  -- entry, or fails alike, whatever the field holds.
  pub decode_read_model_to_auth_entry-Extends :
      (key : Bytes) (v : Json) {fields fields' : Fields}
      → IsUnknown key
      → Extends key v fields fields'
      → decode_read_model_to_auth_entry env (some (obj fields'))
        ≡ decode_read_model_to_auth_entry env (some (obj fields))
  unfolding decode_read_model_to_auth_entry read_projection
  decode_read_model_to_auth_entry-Extends key v h e =
      ap (finish env) (assign_all-Extends key v zero_projection true h e)
