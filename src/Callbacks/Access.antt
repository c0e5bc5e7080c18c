-- ===== src/Callbacks/Access.antt =====
-- What a client that goOnBasicAuth of src/plugin/main.go admitted is granted by goOnAclCheck.
use mapex_mqttbroker.Common.{◌≡◌, sym, ◌≢◌, ◌↔◌, true, some, [], arith, Lacks, is_empty_iff, ℕ}
use mapex_mqttbroker.Acl.{check_acl}
use mapex_mqttbroker.Acl.Allowed.{MayAccess, check_acl_iff}
use mapex_mqttbroker.Acl.Topic.{IsUsername}
use mapex_mqttbroker.Auth.{authenticate}
use mapex_mqttbroker.Auth.Decision.{authenticate_allow_iff}
use mapex_mqttbroker.AuthStore.{AuthStore}
use mapex_mqttbroker.Callbacks.{
  mosq_err_success, BasicAuthEvent, AclCheckEvent, go_string, identity, get_client_cert_serial,
  go_on_acl_check, on_basic_auth,
}
use mapex_mqttbroker.Callbacks.Sequences.{answer_keeps}
use mapex_mqttbroker.Platform.{Platform}
use mapex_mqttbroker.Runtime.{PluginRuntime}

identity_of_username :
    (ed : BasicAuthEvent) → go_string ed.username ≢ [] → identity ed ≡ go_string ed.username
unfolding identity
identity_of_username ed h = ground (arith, is_empty_iff (go_string ed.username))

go_on_acl_check_iff :
    {R : Type 0} (rt : R) (acl : AclCheckEvent)
    → (go_on_acl_check (some rt) (some acl) ≡ mosq_err_success)
      ↔ (check_acl (go_string acl.client.username) (go_string acl.topic) acl.access ≡ true)
unfolding go_on_acl_check
go_on_acl_check_iff rt acl = ground arith

module _ {World : Type 0} (backend : AuthStore World) (env : Platform) where
  admitted-IsUsername :
      (world : World) (r : PluginRuntime (backend.State)) (ed : BasicAuthEvent) (now : ℕ)
      → r.has_auth ≡ true
      → (on_basic_auth backend env world r ed now).0 ≡ mosq_err_success
      → IsUsername (identity ed)
  unfolding on_basic_auth
  admitted-IsUsername world r ed now h success =
      let out =
        authenticate backend env world r (identity ed) (go_string ed.password)
          (go_string ed.client.id) (get_client_cert_serial ed.client) in
      let (_, _, status) =
        answer_keeps env out.0 out.1 (go_string ed.client.id) (go_string ed.client.address) now in
      ((authenticate_allow_iff backend env world r (identity ed) (go_string ed.password)
          (go_string ed.client.id) (get_client_cert_serial ed.client) h).0
        (status.0 success)).0

  -- A client that the callback admitted is granted exactly the topics of the identity that it was
  -- admitted under, if it gave a username; if it gave none, and so was admitted under the common
  -- name of its certificate, it is granted nothing at all. (With an `AuthClient` set, and where the
  -- broker's username for the client is that of the CONNECT.)
  pub admitted_access :
      {R : Type 0} (world : World) (r : PluginRuntime (backend.State)) (ed : BasicAuthEvent)
      (now : ℕ) (later : R) (acl : AclCheckEvent)
      → r.has_auth ≡ true
      → (on_basic_auth backend env world r ed now).0 ≡ mosq_err_success
      → go_string acl.client.username ≡ go_string ed.username
      → (go_on_acl_check (some later) (some acl) ≡ mosq_err_success) ↔ (
          (go_string ed.username ≢ [])
          × Lacks b'/' (identity ed)
          × MayAccess (identity ed) (go_string acl.topic) acl.access)
  admitted_access world r ed now later acl h success mine =
      let valid = admitted-IsUsername world r ed now h success in
      let (to, from) = go_on_acl_check_iff later acl in
      let (means, grants) =
        check_acl_iff (go_string acl.client.username) (go_string acl.topic) acl.access in
      (
        λ granted.
            let (named, flat, may) = rw mine at (means (to granted)) in
            (
              named.0,
              rw (identity_of_username ed named.0) flat,
              rw (identity_of_username ed named.0) may,
            ),
        λ (named, flat, may).
            from (grants (rw mine (rw (sym (identity_of_username ed named)) (valid, flat, may)))),
      )
