-- ===== src/Auth/Report.antt =====
-- The call on the logger that each branch of `Authenticate` of src/plugin.go makes: one, with the
-- username cut to 64 bytes. What the store logs on the way is not in it.
use mapex_mqttbroker.Common.{
  ℕ, not, none, some, List, [], ◌∷◌, if◌then◌else◌, is_empty, Bytes, codes, same,
}
use mapex_mqttbroker.Common.Int.{pos}
use mapex_mqttbroker.Auth.{compare_local, is_not_found, resolve_username}
use mapex_mqttbroker.AuthStore.{
  AuthStore, StoreError, not_found, unavailable, failed, Result, ok, err,
}
use mapex_mqttbroker.Entry.{
  AuthEntry, auth_type_password, auth_type_cert, authorizes_password, authorizes_cert_serial,
}
use mapex_mqttbroker.Log.{LogLevel, log_debug, log_warn, log_error, Arg, text, truncate}
use mapex_mqttbroker.Log.Lines.{Call}
use mapex_mqttbroker.Platform.{Platform}
use mapex_mqttbroker.Runtime.{PluginRuntime}

-- The text of an error of the store; `other` is that of an error that is no sentinel.
unfoldable pub error_text : Bytes → StoreError → Bytes
error_text other not_found = codes "auth entry not found"
error_text other unavailable = codes "auth store unavailable"
error_text other failed = other

-- `now` is the clock at the call.
module _ (now : ℕ) where
  abbrev pub call : LogLevel → Bytes → List Arg → Call
  call level format args = record { now = now; level = level; format = format; args = args }

  abbrev user_arg : Bytes → Arg
  user_arg username = text (truncate username (pos 64))

  -- A line at DEBUG that names the user alone.
  abbrev pub debug_user : Bytes → Bytes → Call
  debug_user format username = call log_debug format (user_arg username ∷ [])

  -- The two modes of the switch on `entry.AuthType`.
  unfoldable pub cert_call : Platform → AuthEntry → Bytes → Bytes → Call
  cert_call env entry username cert_serial =
      if is_empty cert_serial
      then debug_user (codes "auth deny: cert-mode asset reached on plaintext listener user=%s")
          username
      else call log_debug
          (if authorizes_cert_serial env (some entry) cert_serial
            then codes "auth allow: cert user=%s serial=%s"
            else codes "auth deny: cert serial not in active list user=%s serial=%s")
          (user_arg username ∷ text (truncate cert_serial (pos 32)) ∷ [])

  module _ {State : Type 0} (env : Platform) where
    unfoldable pub password_call : PluginRuntime State → AuthEntry → Bytes → Bytes → Bytes → Call
    password_call r entry username password cert_serial =
        if not (is_empty cert_serial)
        then debug_user (codes "auth deny: password-mode asset presented a cert user=%s") username
        else if not (authorizes_password (some entry))
        then debug_user (codes "auth deny: no password configured user=%s") username
        else if not r.has_auth
        then call log_error (codes "authenticate cannot bcrypt: no AuthClient (legacy path)") []
        else if compare_local env entry.password_hash password
        then debug_user (codes "auth allow: password user=%s") username
        else debug_user (codes "auth deny: password mismatch user=%s") username

    unfoldable pub entry_call : PluginRuntime State → AuthEntry → Bytes → Bytes → Bytes → Call
    entry_call r entry username password cert_serial =
        if not entry.enabled
        then debug_user (codes "auth deny: asset disabled user=%s") username
        else if same entry.auth_type auth_type_cert
        then cert_call env entry username cert_serial
        else if same entry.auth_type auth_type_password
        then password_call r entry username password cert_serial
        else call log_warn (codes "auth deny: asset has unknown authType=%q user=%s")
            (text entry.auth_type ∷ user_arg username ∷ [])

    -- What `r.Store.Get` returned.
    unfoldable pub lookup_call :
        Bytes → PluginRuntime State → Result AuthEntry → Bytes → Bytes → Bytes → Call
    lookup_call other r (err e) username password cert_serial =
        if is_not_found e
        then debug_user (codes "auth deny: entry not found user=%s") username
        else call log_warn (codes "auth error: store unavailable user=%s err=%v")
            (user_arg username ∷ text (error_text other e) ∷ [])
    lookup_call other r (ok entry) username password cert_serial =
        entry_call r entry username password cert_serial

  module _ {World : Type 0} (backend : AuthStore World) (env : Platform) (other : Bytes) where
    unfoldable pub authenticate_call :
        World → PluginRuntime (backend.State) → Bytes → Bytes → Bytes → Call
    authenticate_call world r username password cert_serial = elim (resolve_username username) [
      | none ↦ debug_user (codes "auth deny: malformed username user=%s") username
      | some asset_uuid ↦ elim r.store [
        | none ↦ call log_error (codes "authenticate called without an auth store configured") []
        | some s ↦
            let found = backend.get world s asset_uuid in
            lookup_call env other (record r { store = some found.1 }) found.0 username password
              cert_serial
      ]
    ]
