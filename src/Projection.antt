-- ===== src/Projection.antt =====
-- src/http_auth.go: the decoding of the auth projection, by the rules of encoding/json: keys match
-- field names up to case, unknown keys are skipped, `null` changes nothing, a later key overrides an
-- earlier one, and a value of the wrong type is an error.
pub mod Unknown
mod Tests
use mapex_mqttbroker.Common.{
  Bool, true, false, ◌&&◌, Option, none, some, [], if◌then◌else◌, Bytes, codes,
}
use mathlib.Core.Option
use mapex_mqttbroker.Entry.{AuthEntry}
use mapex_mqttbroker.GoText.Fold.{equal_fold}
use mapex_mqttbroker.Json.{Json, null, bool, num, str, arr, obj, Fields, end, field}
use mapex_mqttbroker.Platform.{Platform}

pub record AuthProjection : Type 0 where
  pub asset_uuid : Bytes
  pub org_id : Bytes
  pub enabled : Bool
  pub type : Bytes
  pub auth_type : Bytes
  pub password_hash : Bytes
  pub current_cert_serial : Bytes

unfoldable pub to_auth_entry : AuthProjection → AuthEntry
to_auth_entry p = record {
  enabled = p.enabled;
  asset_uuid = p.asset_uuid;
  org_id = p.org_id;
  auth_type = p.auth_type;
  password_hash = p.password_hash;
  current_cert_serial = p.current_cert_serial;
}

-- Whether the decoder takes the key for the field of this name.
unfoldable pub key_is : Platform → Bytes → Bytes → Bool
key_is env key name = equal_fold env.unicode_fold key name

-- A value for a field of type `string`, and of type `bool`: the new value, and whether it fitted.
unfoldable pub read_string : Json → Bytes → Bytes × Bool
read_string null old = (old, true)
read_string (str s) old = (s, true)
read_string (bool _) old = (old, false)
read_string (num _) old = (old, false)
read_string (arr _) old = (old, false)
read_string (obj _) old = (old, false)

unfoldable pub read_bool : Json → Bool → Bool × Bool
read_bool null old = (old, true)
read_bool (bool b) old = (b, true)
read_bool (str _) old = (old, false)
read_bool (num _) old = (old, false)
read_bool (arr _) old = (old, false)
read_bool (obj _) old = (old, false)

abbrev pub zero_projection : AuthProjection
zero_projection = record {
  asset_uuid = [];
  org_id = [];
  enabled = false;
  type = [];
  auth_type = [];
  password_hash = [];
  current_cert_serial = [];
}

module _ (env : Platform) where
  -- One key of the object.
  unfoldable pub assign_projection : Bytes → Json → AuthProjection → AuthProjection × Bool
  assign_projection key v p =
      if key_is env key (codes "assetUUID")
      then (record p { asset_uuid = (read_string v p.asset_uuid).0 }, (read_string v []).1)
      else if key_is env key (codes "orgId")
      then (record p { org_id = (read_string v p.org_id).0 }, (read_string v []).1)
      else if key_is env key (codes "enabled")
      then (record p { enabled = (read_bool v p.enabled).0 }, (read_bool v false).1)
      else if key_is env key (codes "type")
      then (record p { type = (read_string v p.type).0 }, (read_string v []).1)
      else if key_is env key (codes "authType")
      then (record p { auth_type = (read_string v p.auth_type).0 }, (read_string v []).1)
      else if key_is env key (codes "passwordHash")
      then (record p { password_hash = (read_string v p.password_hash).0 }, (read_string v []).1)
      else if key_is env key (codes "currentCertSerial")
      then (
        record p { current_cert_serial = (read_string v p.current_cert_serial).0 },
        (read_string v []).1,
      )
      else (p, true)

  -- The decoder goes on after a value of the wrong type, and reports it at the end.
  unfoldable pub assign_all : Fields → AuthProjection × Bool → AuthProjection × Bool
  assign_all end (p, fits) = (p, fits)
  assign_all (field key v rest) (p, fits) =
      let (p', fits') = assign_projection key v p in assign_all rest (p', fits && fits')

  unfoldable pub read_projection : Json → AuthProjection → AuthProjection × Bool
  read_projection null p = (p, true)
  read_projection (obj fields) p = assign_all fields (p, true)
  read_projection (bool _) p = (p, false)
  read_projection (num _) p = (p, false)
  read_projection (str _) p = (p, false)
  read_projection (arr _) p = (p, false)

  -- The field `data` of the envelope.
  unfoldable pub assign_envelope : Fields → AuthProjection × Bool → AuthProjection × Bool
  assign_envelope end (p, fits) = (p, fits)
  assign_envelope (field key v rest) (p, fits) =
      let (p', fits') = if key_is env key (codes "data") then read_projection v p else (p, true) in
      assign_envelope rest (p', fits && fits')

  unfoldable pub read_envelope : Json → AuthProjection × Bool
  read_envelope null = (zero_projection, true)
  read_envelope (obj fields) = assign_envelope fields (zero_projection, true)
  read_envelope (bool _) = (zero_projection, false)
  read_envelope (num _) = (zero_projection, false)
  read_envelope (str _) = (zero_projection, false)
  read_envelope (arr _) = (zero_projection, false)

  -- The error of a decoder call, if a value did not fit.
  abbrev pub finish : AuthProjection × Bool → Option AuthEntry
  finish (p, true) = some (to_auth_entry p)
  finish (p, false) = none

  -- The body is the document that it begins with; `none` where there is none.
  unfoldable pub decode_read_model_to_auth_entry : Option Json → Option AuthEntry
  decode_read_model_to_auth_entry none = none
  decode_read_model_to_auth_entry (some doc) = finish (read_projection doc zero_projection)

  unfoldable pub decode_read_model_envelope_to_auth_entry : Option Json → Option AuthEntry
  decode_read_model_envelope_to_auth_entry none = none
  decode_read_model_envelope_to_auth_entry (some doc) = finish (read_envelope doc)
