-- ===== src/Auth/Reported.antt =====
-- Which calls of `Authenticate` an operator sees in the log.
use mapex_mqttbroker.Common.{
  ℕ, ◌≡◌, refl, sym, subst, ◌≢◌, ◌↔◌, ◌⊎◌, inl, inr, true, some, [], ◌∷◌, arith, Option-cases,
  Bytes, same_iff,
}
use mathlib.Core.Option.{some-injective, some-ne-none}
use mapex_mqttbroker.Auth.{
  auth_error, is_not_found, resolve_username, allow, check_cert, check_password, check_entry,
  check_lookup, authenticate,
}
use mapex_mqttbroker.Auth.Report.{
  cert_call, password_call, entry_call, lookup_call, authenticate_call,
}
use mapex_mqttbroker.AuthStore.{AuthStore, not_found, unavailable, failed, Result, ok, err}
use mapex_mqttbroker.Entry.{AuthEntry, auth_type_password, auth_type_cert}
use mapex_mqttbroker.Log.{log_info, Formatter, stderr_logger, is_written}
use mapex_mqttbroker.Log.Lines.{perform, one_call_iff}
use mapex_mqttbroker.Platform.{Platform}
use mapex_mqttbroker.Runtime.{PluginRuntime}

-- An enabled asset that declares neither of the two modes.
abbrev pub IsMisconfigured : AuthEntry → Type 0
IsMisconfigured e =
    (e.enabled ≡ true) × (e.auth_type ≢ auth_type_cert) × (e.auth_type ≢ auth_type_password)

module _ {State : Type 0} (now : ℕ) (env : Platform) (r : PluginRuntime State)
    (username asset password client_id serial : Bytes) where
  entry_reported_iff :
      (e : AuthEntry)
      → (is_written log_info (entry_call now env r e username password serial).level ≡ true) ↔ (
          ((check_entry env r e asset password client_id serial).0 ≡ auth_error)
          ⊎ IsMisconfigured e)
  unfolding check_entry check_cert check_password allow entry_call cert_call password_call
      is_written
  entry_reported_iff e =
      ground (arith, same_iff e.auth_type auth_type_cert, same_iff e.auth_type auth_type_password)

ok-injective : (a b : AuthEntry) → ◌≡◌ {A = Result AuthEntry} (ok a) (ok b) → a ≡ b
ok-injective a b h = cc

module _ {World : Type 0} (backend : AuthStore World) (now : ℕ) (env : Platform)
    (other : Bytes) where
  lookup_reported_iff :
      (r : PluginRuntime (backend.State)) (found : Result AuthEntry)
      (username asset password client_id serial : Bytes)
      → (is_written log_info (lookup_call now env other r found username password serial).level
          ≡ true)
        ↔ (((check_lookup backend env r found asset password client_id serial).0 ≡ auth_error)
            ⊎ ((e : AuthEntry) × (found ≡ ok e) × IsMisconfigured e))
  unfolding check_lookup lookup_call is_not_found is_written
  lookup_reported_iff r (err not_found) username asset password client_id serial =
      (λ k. absurd (cc), λ v. elim v [ inl k ↦ absurd (cc) | inr (e, k, _) ↦ absurd (cc) ])
  lookup_reported_iff r (err unavailable) username asset password client_id serial =
      (λ _. inl refl, λ _. refl)
  lookup_reported_iff r (err failed) username asset password client_id serial =
      (λ _. inl refl, λ _. refl)
  lookup_reported_iff r (ok e) username asset password client_id serial =
      let (to, from) = entry_reported_iff now env r username asset password client_id serial e in
      (
        λ k. elim (to k) [ inl v ↦ inl v | inr v ↦ inr (e, refl, v) ],
        λ v. elim v [
          | inl k ↦ from (inl k)
          | inr (x, k, m) ↦ from (inr (subst IsMisconfigured (ok-injective x e (sym k)) m))
        ],
      )

  -- The store answers with an asset that declares neither mode.
  abbrev pub FindsMisconfigured : World → PluginRuntime (backend.State) → Bytes → Type 0
  FindsMisconfigured world r username =
      (asset : Bytes) × (s : backend.State) × (e : AuthEntry) × (resolve_username username
        ≡ some asset)
      × (r.store ≡ some s)
      × ((backend.get world s asset).0 ≡ ok e)
      × IsMisconfigured e

  authenticate_reported_iff :
      (world : World) (r : PluginRuntime (backend.State))
      (username password client_id serial : Bytes)
      → (is_written log_info
            (authenticate_call now backend env other world r username password serial).level
          ≡ true)
        ↔ (((authenticate backend env world r username password client_id serial).0 ≡ auth_error)
            ⊎ FindsMisconfigured world r username)
  unfolding authenticate authenticate_call is_written
  authenticate_reported_iff world r username password client_id serial =
      elim (Option-cases (resolve_username username)) [
        | inl e ↦
            rw (e, authenticate, authenticate_call)
              (
                λ k. absurd (cc),
                λ v. elim v [
                  | inl k ↦ absurd (cc)
                  | inr (x, _, _, k, _, _, _) ↦ absurd (some-ne-none x (sym k))
                ],
              )
        | inr (asset, e) ↦ elim (Option-cases r.store) [
          | inl k ↦ rw (e, k, authenticate, authenticate_call) (λ _. inl refl, λ _. refl)
          | inr (s, k) ↦
              rw (e, k, authenticate, authenticate_call)
                (let (to, from) =
                    lookup_reported_iff (record r { store = some (backend.get world s asset).1 })
                      (backend.get world s asset).0 username asset password client_id serial in
                  (
                    λ k. elim (to k) [
                      | inl v ↦ inl v
                      | inr (x, f, m) ↦ inr (asset, s, x, refl, refl, f, m)
                    ],
                    λ v. elim v [
                      | inl k ↦ from (inl k)
                      | inr (a, t, x, same_asset, same_store, f, m) ↦ from (
                          inr (
                            x,
                            rw (some-injective asset a same_asset, some-injective s t same_store) f,
                            m,
                          ))
                    ],
                  ))
        ]
      ]

  -- An operator sees the cause: at INFO, the level that `mosquitto_plugin_init` gives the logger,
  -- what `Authenticate` itself logs reaches the writer exactly where it answers with an error, or
  -- where the store answers with an enabled asset that declares neither mode. Every other answer,
  -- an admission and the denial of a wrong password included, leaves the writer as it was.
  pub authenticate_reported :
      (fmt : Formatter) (w : Bytes) (world : World) (r : PluginRuntime (backend.State))
      (username password client_id serial : Bytes)
      → let log = stderr_logger (record { w = w; min_level = log_info }) in
        (perform fmt log
            (authenticate_call now backend env other world r username password serial ∷ [])
          ≢ log)
        ↔ (((authenticate backend env world r username password client_id serial).0 ≡ auth_error)
            ⊎ FindsMisconfigured world r username)
  authenticate_reported fmt w world r username password client_id serial =
      let (shown, shows) =
        one_call_iff fmt w log_info
          (authenticate_call now backend env other world r username password serial) in
      let (to, from) = authenticate_reported_iff world r username password client_id serial in
      (λ k. to (shown k), λ v. shows (from v))
