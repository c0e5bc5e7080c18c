-- ===== src/Auth/Checks.antt =====
-- The tests of `Authenticate` on the entry that the store returned.
use mapex_mqttbroker.Common.{
  ◌≡◌, refl, sym, subst, ◌≢◌, ◌↔◌, ◌⊎◌, inl, inr, true, [], arith, is_empty_iff, Bytes, same_iff,
}
use mapex_mqttbroker.Auth.{
  AuthResult, auth_allow, auth_error, compare_local, is_not_found, allow, check_cert,
  check_password, check_entry, check_lookup,
}
use mapex_mqttbroker.AuthStore.{
  AuthStore, StoreError, not_found, unavailable, failed, Result, ok, err,
}
use mapex_mqttbroker.Entry.{
  AuthEntry, auth_type_password, auth_type_cert, authorizes_password, authorizes_cert_serial,
}
use mapex_mqttbroker.GoText.Fold.{equal_fold}
use mapex_mqttbroker.Platform.{Platform}
use mapex_mqttbroker.Runtime.{PluginRuntime}
use mapex_mqttbroker.Session.{remember_session}

-- The credentials fit the one mode that the asset declares.
abbrev pub ByCert : Platform → AuthEntry → Bytes → Type 0
ByCert env e serial =
    (e.auth_type ≡ auth_type_cert)
    × (serial ≢ [])
    × (e.current_cert_serial ≢ [])
    × (equal_fold env.unicode_fold e.current_cert_serial serial ≡ true)

abbrev pub ByPassword : Platform → AuthEntry → Bytes → Bytes → Type 0
ByPassword env e password serial =
    (e.auth_type ≡ auth_type_password)
    × (serial ≡ [])
    × (e.password_hash ≢ [])
    × (password ≢ [])
    × (env.bcrypt e.password_hash password ≡ true)

abbrev pub Admits : Platform → AuthEntry → Bytes → Bytes → Type 0
Admits env e password serial =
    (e.enabled ≡ true) × (ByCert env e serial ⊎ ByPassword env e password serial)

module _ {State : Type 0} (env : Platform) where
  check_entry_allow_iff :
      (r : PluginRuntime State) (e : AuthEntry) (asset password client_id serial : Bytes)
      → r.has_auth ≡ true
      → ((check_entry env r e asset password client_id serial).0 ≡ auth_allow)
        ↔ Admits env e password serial
  unfolding check_entry check_cert check_password allow authorizes_password authorizes_cert_serial
      compare_local
  check_entry_allow_iff r e asset password client_id serial h = ground (
    arith,
    same_iff e.auth_type auth_type_cert,
    same_iff e.auth_type auth_type_password,
    is_empty_iff serial,
    is_empty_iff password,
    is_empty_iff e.password_hash,
    is_empty_iff e.current_cert_serial,
  )

  check_entry_error :
      (r : PluginRuntime State) (e : AuthEntry) (asset password client_id serial : Bytes)
      → r.has_auth ≡ true
      → (check_entry env r e asset password client_id serial).0 ≢ auth_error
  unfolding check_entry check_cert check_password allow
  check_entry_error r e asset password client_id serial h k = ground arith

  check_entry_sessions :
      (r : PluginRuntime State) (e : AuthEntry) (asset password client_id serial : Bytes)
      → ((check_entry env r e asset password client_id serial).0 ≡ auth_allow)
          × ((check_entry env r e asset password client_id serial).1.sessions
              ≡ remember_session r.sessions client_id e.org_id asset)
        ⊎ ((check_entry env r e asset password client_id serial).0 ≢ auth_allow)
          × ((check_entry env r e asset password client_id serial).1.sessions ≡ r.sessions)
  unfolding check_entry check_cert check_password allow
  check_entry_sessions r e asset password client_id serial = ground arith

ok-injective : (a b : AuthEntry) → ◌≡◌ {A = Result AuthEntry} (ok a) (ok b) → a ≡ b
ok-injective a b h = cc

module _ {World : Type 0} (backend : AuthStore World) (env : Platform) where
  module _ (r : PluginRuntime (backend.State)) (username password client_id serial : Bytes) where
    pub check_lookup_allow_iff :
        (found : Result AuthEntry)
        → r.has_auth ≡ true
        → ((check_lookup backend env r found username password client_id serial).0 ≡ auth_allow)
          ↔ ((e : AuthEntry) × (found ≡ ok e) × Admits env e password serial)
    unfolding check_lookup
    check_lookup_allow_iff (err e) h = (λ k. absurd (ground arith), λ (e, k, _). absurd (cc))
    check_lookup_allow_iff (ok e) h =
        let (to, from) = check_entry_allow_iff env r e username password client_id serial h in
        (
          λ k. (e, refl, to k),
          λ (e', k, a).
              from (subst (λ x. Admits env x password serial) (ok-injective e' e (sym k)) a),
        )

    pub check_lookup_error_iff :
        (found : Result AuthEntry)
        → r.has_auth ≡ true
        → ((check_lookup backend env r found username password client_id serial).0 ≡ auth_error)
          ↔ ((e : StoreError) × (found ≡ err e) × (e ≢ not_found))
    unfolding check_lookup is_not_found
    check_lookup_error_iff (err not_found) h = (λ k. absurd (cc), λ (e, k, n). absurd (n (cc)))
    check_lookup_error_iff (err unavailable) h = (λ _. (unavailable, refl, λ k. cc), λ _. refl)
    check_lookup_error_iff (err failed) h = (λ _. (failed, refl, λ k. cc), λ _. refl)
    check_lookup_error_iff (ok e) h = (
      λ k. absurd (check_entry_error env r e username password client_id serial h k),
      λ (e', k, _). absurd (cc),
    )

    -- What happens to the session map.
    abbrev pub Remembers : AuthResult × PluginRuntime (backend.State) → Result AuthEntry → Type 0
    Remembers out found =
        ((e : AuthEntry) × (found ≡ ok e)
          × (out.0 ≡ auth_allow)
          × (out.1.sessions ≡ remember_session r.sessions client_id e.org_id username))
        ⊎ ((out.0 ≢ auth_allow) × (out.1.sessions ≡ r.sessions))

    pub check_lookup_sessions :
        (found : Result AuthEntry)
        → Remembers (check_lookup backend env r found username password client_id serial) found
    unfolding check_lookup
    check_lookup_sessions (err e) = ground arith
    check_lookup_sessions (ok e) =
        elim (check_entry_sessions env r e username password client_id serial) [
          | inl (allowed, kept) ↦ inl (e, refl, allowed, kept)
          | inr rest ↦ inr rest
        ]
