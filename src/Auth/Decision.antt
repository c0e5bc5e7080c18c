-- ===== src/Auth/Decision.antt =====
-- When `Authenticate` admits a device, and what it leaves behind.
use mathlib.Core.Option.{some-injective, some-ne-none}
use mapex_mqttbroker.Common.{
  ◌≡◌, refl, sym, ◌∙◌, ◌≢◌, ◌↔◌, ◌⊎◌, inl, inr, true, none, some, arith, Option-cases, Bytes,
}
use mapex_mqttbroker.Acl.{parse_username}
use mapex_mqttbroker.Acl.Topic.{IsUsername, parse_username_iff}
use mapex_mqttbroker.Auth.{
  auth_allow, auth_deny, auth_error, resolve_username, check_lookup, authenticate,
}
use mapex_mqttbroker.AuthStore.{AuthStore, StoreError, not_found, ok, err}
use mapex_mqttbroker.Entry.{AuthEntry}
use mapex_mqttbroker.Platform.{Platform}
use mapex_mqttbroker.Runtime.{PluginRuntime}
use mapex_mqttbroker.Session.{remember_session}
use mapex_mqttbroker.Auth.Checks.{
  Admits, check_lookup_allow_iff, check_lookup_error_iff, check_lookup_sessions,
}

module _ {World : Type 0} (backend : AuthStore World) (env : Platform) where
  -- The three ways through the first two tests.
  data Way (r : PluginRuntime (backend.State)) (username : Bytes) : Type 0 where
    malformed : ¬ IsUsername username → Way r username
    storeless : IsUsername username → r.store ≡ none → Way r username
    looked_up : (s : backend.State) → IsUsername username → r.store ≡ some s → Way r username

  way : (r : PluginRuntime (backend.State)) (username : Bytes) → Way r username
  way r username = elim (Option-cases (parse_username username)) [
    | inl e ↦ malformed (λ v. cc (e, (parse_username_iff username username).1 (refl, v)))
    | inr (u, e) ↦
        let v = ((parse_username_iff username u).0 e).1 in
        elim (Option-cases r.store) [ inl e' ↦ storeless v e' | inr (s, e') ↦ looked_up s v e' ]
  ]

  module _ (world : World) (r : PluginRuntime (backend.State))
      (username password client_id serial : Bytes) where
    pub authenticate_malformed :
        ¬ IsUsername username
        → authenticate backend env world r username password client_id serial ≡ (auth_deny, r)
    unfolding authenticate resolve_username
    authenticate_malformed v = elim (Option-cases (parse_username username)) [
      | inl e ↦ rw (e, authenticate)
      | inr (u, e) ↦ absurd (v ((parse_username_iff username u).0 e).1)
    ]

    authenticate_storeless :
        IsUsername username
        → r.store ≡ none
        → authenticate backend env world r username password client_id serial ≡ (auth_error, r)
    unfolding authenticate resolve_username
    authenticate_storeless v e = ground (arith, (parse_username_iff username username).1 (refl, v))

    authenticate_looked_up :
        (s : backend.State)
        → IsUsername username
        → r.store ≡ some s
        → authenticate backend env world r username password client_id serial
          ≡ check_lookup backend env
              (record r { store = some (backend.get world s username).1 })
              (backend.get world s username).0
              username
              password
              client_id
              serial
    unfolding authenticate resolve_username
    authenticate_looked_up s v e =
        ground (arith, (parse_username_iff username username).1 (refl, v))

  module _ (world : World) (r : PluginRuntime (backend.State))
      (username password client_id serial : Bytes) where
    -- `Authenticate` admits a device exactly when its username is well formed, the store knows it,
    -- its entry is enabled, and the credentials fit the one mode that the entry declares: in cert
    -- mode a serial that equals the current one up to case, whatever password comes with it, or none;
    -- in password mode no serial and a
    -- password that bcrypt matches with the stored hash. (With an `AuthClient` set.)
    pub authenticate_allow_iff :
        r.has_auth ≡ true
        → ((authenticate backend env world r username password client_id serial).0 ≡ auth_allow) ↔ (
            IsUsername username
            × ((s : backend.State) × (e : AuthEntry) × (r.store ≡ some s)
                × ((backend.get world s username).0 ≡ ok e)
                × Admits env e password serial))
    authenticate_allow_iff h = elim (way r username) [
      | malformed v ↦
          rw (authenticate_malformed world r username password client_id serial v)
            (λ k. absurd (cc), λ (v', _). absurd (v v'))
      | storeless v e ↦
          rw (authenticate_storeless world r username password client_id serial v e)
            (λ k. absurd (cc), λ (_, (s, _, k, _, _)). absurd (cc))
      | looked_up s v e ↦
          rw (authenticate_looked_up world r username password client_id serial s v e) (
            let (to, from) =
              check_lookup_allow_iff backend env
                (record r { store = some (backend.get world s username).1 }) username password
                client_id serial (backend.get world s username).0 h in
            (
              λ k. let (x, f, a) = to k in (v, (s, x, e, f, a)),
              λ (_, (s', x, e', f, a)). from (x, rw (some-injective s s' (sym e ∙ e')) f, a),
            ))
    ]

    -- `Authenticate` reports an error, which the broker turns into a refusal as well, exactly when the username
    -- is well formed and there is no store, or the store failed otherwise than by not knowing the
    -- user. (With an `AuthClient` set.)
    pub authenticate_error_iff :
        r.has_auth ≡ true
        → ((authenticate backend env world r username password client_id serial).0 ≡ auth_error) ↔ (
            IsUsername username
            × ((r.store ≡ none)
                ⊎ ((s : backend.State) × (e : StoreError) × (r.store ≡ some s)
                    × ((backend.get world s username).0 ≡ err e)
                    × (e ≢ not_found))))
    authenticate_error_iff h = elim (way r username) [
      | malformed v ↦
          rw (authenticate_malformed world r username password client_id serial v)
            (λ k. absurd (cc), λ (v', _). absurd (v v'))
      | storeless v e ↦
          rw (authenticate_storeless world r username password client_id serial v e)
            (λ k. (v, inl e), λ _. refl)
      | looked_up s v e ↦
          rw (authenticate_looked_up world r username password client_id serial s v e) (
            let (to, from) =
              check_lookup_error_iff backend env
                (record r { store = some (backend.get world s username).1 }) username password
                client_id serial (backend.get world s username).0 h in
            (
              λ k. let (x, f, a) = to k in (v, inr (s, x, e, f, a)),
              λ (_, w). elim w [
                | inl e' ↦ absurd (some-ne-none s (sym e ∙ e'))
                | inr (s', x, e', f, a) ↦ from (x, rw (some-injective s s' (sym e ∙ e')) f, a)
              ],
            ))
    ]

    -- `Authenticate` changes the session map only when it admits: then the client's session holds
    -- the organization of the entry that the store returned, and the username.
    pub authenticate_sessions :
        let out = authenticate backend env world r username password client_id serial in
        ((s : backend.State) × (e : AuthEntry) × (r.store ≡ some s)
          × ((backend.get world s username).0 ≡ ok e)
          × (out.0 ≡ auth_allow)
          × (out.1.sessions ≡ remember_session r.sessions client_id e.org_id username))
        ⊎ ((out.0 ≢ auth_allow) × (out.1.sessions ≡ r.sessions))
    authenticate_sessions = elim (way r username) [
      | malformed v ↦
          rw (authenticate_malformed world r username password client_id serial v)
            (inr (λ k. cc, refl))
      | storeless v e ↦
          rw (authenticate_storeless world r username password client_id serial v e)
            (inr (λ k. cc, refl))
      | looked_up s v e ↦
          rw (authenticate_looked_up world r username password client_id serial s v e)
            (elim (check_lookup_sessions backend env
              (record r { store = some (backend.get world s username).1 }) username password
              client_id serial (backend.get world s username).0) [
                | inl (x, f, a, k) ↦ inl (s, x, e, f, a, k)
                | inr rest ↦ inr rest
              ])
    ]
