-- ===== src/Callbacks.antt =====
-- src/plugin/main.go: the four callbacks that the broker calls, with the process-wide runtime as
-- state passed in and out. `none` for the runtime or the event is a nil pointer.
pub mod Sequences
pub mod Kept
pub mod DocumentedName
pub mod Traces
pub mod Deadline
pub mod Access
pub mod Delivery
pub mod Presence
mod Tests
mod AdmissionTests
use mapex_mqttbroker.Common.{
  ℕ, Bool, not, ◌&&◌, Option, none, some, [], if◌then◌else◌, is_empty, Bytes,
}
use mapex_mqttbroker.Common.Int.{ℤ, is_positive}
use mapex_mqttbroker.Acl.{check_acl}
use mapex_mqttbroker.Auth.{AuthResult, auth_allow, auth_deny, auth_error, authenticate}
use mapex_mqttbroker.AuthStore.{AuthStore}
use mapex_mqttbroker.Certificate.{Certificate, get_cert_serial_hex, get_cert_cn}
use mapex_mqttbroker.Platform.{Platform}
use mapex_mqttbroker.Runtime.{PluginRuntime, publish_connect, publish_disconnect, publish_ingress}
use mapex_mqttbroker.Session.{SessionInfo, lookup_session, forget_session}

-- The `MOSQ_ERR_*` codes that the callbacks return.
pub data Status : Type 0 where
  mosq_err_success mosq_err_auth mosq_err_acl_denied mosq_err_plugin_defer : Status
  mosq_err_unknown : Status

-- What the broker tells of a client; a C string may be null, and there may be no certificate.
pub record Client : Type 0 where
  pub id : Option Bytes
  pub address : Option Bytes
  pub username : Option Bytes
  pub certificate : Option Certificate

pub record BasicAuthEvent : Type 0 where
  pub client : Client
  pub username : Option Bytes
  pub password : Option Bytes

pub record AclCheckEvent : Type 0 where
  pub client : Client
  pub topic : Option Bytes
  pub access : ℤ

pub record DisconnectEvent : Type 0 where
  pub client : Client
  pub reason : ℤ

pub record MessageEvent : Type 0 where
  pub client : Client
  pub topic : Option Bytes
  pub payload : Bytes
  pub qos : ℤ
  pub retain : Bool

-- The deadline of the context, from now: none unless the timeout is positive.
unfoldable pub context_with_timeout : ℤ → Option ℤ
context_with_timeout timeout = if not (is_positive timeout) then none else some timeout

-- `C.GoString`: a null pointer is the empty string.
abbrev pub go_string : Option Bytes → Bytes
go_string none = []
go_string (some s) = s

unfoldable pub get_client_cert_serial : Client → Bytes
get_client_cert_serial c = go_string (get_cert_serial_hex c.certificate)

unfoldable pub get_client_cert_cn : Client → Bytes
get_client_cert_cn c = go_string (get_cert_cn c.certificate)

-- The username, or the certificate's common name in place of an empty one.
unfoldable pub identity : BasicAuthEvent → Bytes
unfolding get_client_cert_serial get_client_cert_cn
identity ed =
    if is_empty (go_string ed.username) && not (is_empty (get_client_cert_serial ed.client))
    then get_client_cert_cn ed.client
    else go_string ed.username

unfoldable pub go_on_acl_check : {R : Type 0} → Option R → Option AclCheckEvent → Status
go_on_acl_check none ed = mosq_err_plugin_defer
go_on_acl_check (some rt) none = mosq_err_plugin_defer
go_on_acl_check (some rt) (some ed) =
    if check_acl (go_string ed.client.username) (go_string ed.topic) ed.access
    then mosq_err_success
    else mosq_err_acl_denied

module _ {State : Type 0} (env : Platform) where
  -- The presence advisory of an admitted client, if it has a session.
  unfoldable pub announce :
      PluginRuntime State → Bytes → Bytes → ℕ → Option SessionInfo → PluginRuntime State
  announce rt client_id source_ip now none = rt
  announce rt client_id source_ip now (some info) =
      (publish_connect env rt info.org_id info.asset_uuid client_id source_ip now).1

  -- The switch on the result of `Authenticate`.
  unfoldable pub answer :
      AuthResult → PluginRuntime State → Bytes → Bytes → ℕ → Status × PluginRuntime State
  answer auth_allow rt client_id source_ip now =
      (mosq_err_success, announce rt client_id source_ip now (lookup_session rt.sessions client_id))
  answer auth_deny rt client_id source_ip now = (mosq_err_auth, rt)
  answer auth_error rt client_id source_ip now = (mosq_err_unknown, rt)

  unfoldable pub on_disconnect : PluginRuntime State → DisconnectEvent → ℕ → PluginRuntime State
  on_disconnect rt ed now =
      let client_id = go_string ed.client.id in
      elim (lookup_session rt.sessions client_id) [
        | none ↦ rt
        | some info ↦
            let sent =
              (publish_disconnect env rt info.org_id info.asset_uuid client_id
                (go_string ed.client.address) ed.reason now).1 in
            record sent { sessions = forget_session sent.sessions client_id }
      ]

  unfoldable pub on_message : PluginRuntime State → MessageEvent → ℕ → PluginRuntime State
  on_message rt ed now =
      let client_id = go_string ed.client.id in
      elim (lookup_session rt.sessions client_id) [
        | none ↦ rt
        | some info ↦
            (publish_ingress env rt info.org_id info.asset_uuid client_id (go_string ed.topic)
              ed.payload ed.qos ed.retain now).1
      ]

  unfoldable pub go_on_disconnect :
      Option (PluginRuntime State)
      → Option DisconnectEvent
      → ℕ
      → Status × Option (PluginRuntime State)
  unfolding on_disconnect
  go_on_disconnect none ed now = (mosq_err_success, none)
  go_on_disconnect (some rt) none now = (mosq_err_success, some rt)
  go_on_disconnect (some rt) (some ed) now = (mosq_err_success, some (on_disconnect rt ed now))

  unfoldable pub go_on_message :
      Option (PluginRuntime State) → Option MessageEvent → ℕ → Status × Option (PluginRuntime State)
  unfolding on_message
  go_on_message none ed now = (mosq_err_success, none)
  go_on_message (some rt) none now = (mosq_err_success, some rt)
  go_on_message (some rt) (some ed) now = (mosq_err_success, some (on_message rt ed now))

module _ {World : Type 0} (backend : AuthStore World) (env : Platform) where
  unfoldable pub on_basic_auth :
      World
      → PluginRuntime (backend.State)
      → BasicAuthEvent
      → ℕ
      → Status × PluginRuntime (backend.State)
  on_basic_auth world rt ed now =
      let client_id = go_string ed.client.id in
      let out =
        authenticate backend env world rt (identity ed) (go_string ed.password) client_id
          (get_client_cert_serial ed.client) in
      answer env out.0 out.1 client_id (go_string ed.client.address) now

  unfoldable pub go_on_basic_auth :
      World
      → Option (PluginRuntime (backend.State))
      → Option BasicAuthEvent
      → ℕ
      → Status × Option (PluginRuntime (backend.State))
  unfolding on_basic_auth
  go_on_basic_auth world none ed now = (mosq_err_plugin_defer, none)
  go_on_basic_auth world (some rt) none now = (mosq_err_plugin_defer, some rt)
  go_on_basic_auth world (some rt) (some ed) now =
      let out = on_basic_auth world rt ed now in (out.0, some out.1)
