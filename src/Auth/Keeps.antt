-- ===== src/Auth/Keeps.antt =====
-- What `Authenticate` of src/plugin.go leaves alone: the queue and the configuration.
use mapex_mqttbroker.Common.{◌≡◌, refl, inl, inr, arith, Option-cases, Bytes}
use mapex_mqttbroker.Auth.{
  allow, check_cert, check_password, check_entry, check_lookup, resolve_username, authenticate,
}
use mapex_mqttbroker.AuthStore.{AuthStore, Result, ok, err}
use mapex_mqttbroker.Entry.{AuthEntry}
use mapex_mqttbroker.Platform.{Platform}
use mapex_mqttbroker.Runtime.{PluginRuntime}

module _ {State : Type 0} (env : Platform) where
  check_entry_keeps :
      (r : PluginRuntime State) (e : AuthEntry) (asset password client_id serial : Bytes)
      → let r' = (check_entry env r e asset password client_id serial).1 in
        (r'.async ≡ r.async) × (r'.config ≡ r.config)
  unfolding check_entry check_cert check_password allow
  check_entry_keeps r e asset password client_id serial = ground arith

module _ {World : Type 0} (backend : AuthStore World) (env : Platform) where
  check_lookup_keeps :
      (r : PluginRuntime (backend.State)) (found : Result AuthEntry)
      (asset password client_id serial : Bytes)
      → let r' = (check_lookup backend env r found asset password client_id serial).1 in
        (r'.async ≡ r.async) × (r'.config ≡ r.config)
  unfolding check_lookup
  check_lookup_keeps r (err e) asset password client_id serial = ground arith
  check_lookup_keeps r (ok e) asset password client_id serial =
      check_entry_keeps env r e asset password client_id serial

  pub authenticate_keeps :
      (world : World) (r : PluginRuntime (backend.State))
      (username password client_id serial : Bytes)
      → let r' = (authenticate backend env world r username password client_id serial).1 in
        (r'.async ≡ r.async) × (r'.config ≡ r.config)
  unfolding authenticate
  authenticate_keeps world r username password client_id serial =
      elim (Option-cases (resolve_username username)) [
        | inl e ↦ rw (e, authenticate) (refl, refl)
        | inr (asset, e) ↦ elim (Option-cases r.store) [
          | inl k ↦ rw (e, k, authenticate) (refl, refl)
          | inr (s, k) ↦ rw (e, k, authenticate) (check_lookup_keeps _ _ _ _ _ _)
        ]
      ]
