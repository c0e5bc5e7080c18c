-- ===== src/Auth.antt =====
-- src/plugin.go: `Authenticate`, with `AuthResult` and `CompareLocal` of src/http_auth.go.
pub mod Keeps
pub mod Checks
pub mod Decision
pub mod Report
pub mod Reported
pub mod Discreet
pub mod Bounded
mod Tests
use mapex_mqttbroker.Common.{
  Bool, true, false, not, ◌||◌, Option, none, some, if◌then◌else◌, is_empty, Bytes, same,
}
use mapex_mqttbroker.Acl.{parse_username}
use mapex_mqttbroker.AuthStore.{
  AuthStore, StoreError, not_found, unavailable, failed, Result, ok, err,
}
use mapex_mqttbroker.Entry.{
  AuthEntry, auth_type_password, auth_type_cert, authorizes_password, authorizes_cert_serial,
}
use mapex_mqttbroker.Platform.{Platform}
use mapex_mqttbroker.Runtime.{PluginRuntime}
use mapex_mqttbroker.Session.{remember_session}

pub data AuthResult : Type 0 where
  auth_allow auth_deny auth_error : AuthResult

unfoldable pub compare_local : Platform → Bytes → Bytes → Bool
compare_local env hash plaintext =
    if is_empty hash || is_empty plaintext then false else env.bcrypt hash plaintext

unfoldable pub resolve_username : Bytes → Option Bytes
resolve_username username = parse_username username

-- `errIs(err, ErrAuthEntryNotFound)`.
unfoldable pub is_not_found : StoreError → Bool
is_not_found not_found = true
is_not_found unavailable = false
is_not_found failed = false

module _ {State : Type 0} (env : Platform) where
  -- `r.rememberSession(clientID, entry.OrgId, assetUUID); return AuthAllow`.
  unfoldable pub allow :
      PluginRuntime State → AuthEntry → Bytes → Bytes → AuthResult × PluginRuntime State
  allow r entry asset_uuid client_id = (
    auth_allow,
    record r { sessions = remember_session r.sessions client_id entry.org_id asset_uuid },
  )

  -- The two modes of the switch on `entry.AuthType`.
  unfoldable pub check_cert :
      PluginRuntime State → AuthEntry → Bytes → Bytes → Bytes → AuthResult × PluginRuntime State
  check_cert r entry asset_uuid client_id cert_serial =
      if is_empty cert_serial
      then (auth_deny, r)
      else if authorizes_cert_serial env (some entry) cert_serial
      then allow r entry asset_uuid client_id
      else (auth_deny, r)

  unfoldable pub check_password :
      PluginRuntime State
      → AuthEntry
      → Bytes
      → Bytes
      → Bytes
      → Bytes
      → AuthResult × PluginRuntime State
  check_password r entry asset_uuid password client_id cert_serial =
      if not (is_empty cert_serial)
      then (auth_deny, r)
      else if not (authorizes_password (some entry))
      then (auth_deny, r)
      else if not r.has_auth
      then (auth_error, r)
      else if compare_local env entry.password_hash password
      then allow r entry asset_uuid client_id
      else (auth_deny, r)

  unfoldable pub check_entry :
      PluginRuntime State
      → AuthEntry
      → Bytes
      → Bytes
      → Bytes
      → Bytes
      → AuthResult × PluginRuntime State
  check_entry r entry asset_uuid password client_id cert_serial =
      if not entry.enabled
      then (auth_deny, r)
      else if same entry.auth_type auth_type_cert
      then check_cert r entry asset_uuid client_id cert_serial
      else if same entry.auth_type auth_type_password
      then check_password r entry asset_uuid password client_id cert_serial
      else (auth_deny, r)

module _ {World : Type 0} (backend : AuthStore World) (env : Platform) where
  -- What `r.Store.Get` returned.
  unfoldable pub check_lookup :
      PluginRuntime (backend.State)
      → Result AuthEntry
      → Bytes
      → Bytes
      → Bytes
      → Bytes
      → AuthResult × PluginRuntime (backend.State)
  check_lookup r (err e) asset_uuid password client_id cert_serial =
      if is_not_found e then (auth_deny, r) else (auth_error, r)
  check_lookup r (ok entry) asset_uuid password client_id cert_serial =
      check_entry env r entry asset_uuid password client_id cert_serial

  unfoldable pub authenticate :
      World
      → PluginRuntime (backend.State)
      → Bytes
      → Bytes
      → Bytes
      → Bytes
      → AuthResult × PluginRuntime (backend.State)
  authenticate world r username password client_id cert_serial = elim (resolve_username username) [
    | none ↦ (auth_deny, r)
    | some asset_uuid ↦ elim r.store [
      | none ↦ (auth_error, r)
      | some s ↦
          let found = backend.get world s asset_uuid in
          check_lookup (record r { store = some found.1 }) found.0 asset_uuid password client_id
            cert_serial
    ]
  ]
