-- ===== src/Entry.antt =====
-- src/auth_entry.go: the auth projection of one asset, and what it authorizes.
use mapex_mqttbroker.Common.{
  Bool, false, not, ◌&&◌, ◌||◌, Option, none, some, if◌then◌else◌, is_empty, Bytes, codes, same,
}
use mapex_mqttbroker.Platform.{Platform}
use mapex_mqttbroker.GoText.Fold.{equal_fold}

abbrev pub auth_type_password : Bytes
auth_type_password = codes "password"

abbrev pub auth_type_cert : Bytes
auth_type_cert = codes "cert"

pub record AuthEntry : Type 0 where
  pub enabled : Bool
  pub asset_uuid : Bytes
  pub org_id : Bytes
  pub auth_type : Bytes
  pub password_hash : Bytes
  pub current_cert_serial : Bytes

-- The receiver may be `nil`.
unfoldable pub authorizes_password : Option AuthEntry → Bool
authorizes_password none = false
authorizes_password (some e) =
    e.enabled && same e.auth_type auth_type_password && not (is_empty e.password_hash)

unfoldable pub authorizes_cert_serial : Platform → Option AuthEntry → Bytes → Bool
authorizes_cert_serial env none serial = false
authorizes_cert_serial env (some e) serial =
    if not e.enabled || is_empty serial
    then false
    else if not (same e.auth_type auth_type_cert)
    then false
    else not (is_empty e.current_cert_serial)
      && equal_fold env.unicode_fold e.current_cert_serial serial
