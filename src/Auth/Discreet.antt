-- ===== src/Auth/Discreet.antt =====
-- What the log of `Authenticate` says about a password.
use mapex_mqttbroker.Common.{ℕ, ◌≡◌, refl, inl, inr, some, Option-cases, arith, Bytes}
use mapex_mqttbroker.Auth.{
  resolve_username, allow, check_cert, check_password, check_entry, check_lookup, authenticate,
}
use mapex_mqttbroker.Auth.Report.{
  cert_call, password_call, entry_call, lookup_call, authenticate_call,
}
use mapex_mqttbroker.AuthStore.{AuthStore, Result, ok, err}
use mapex_mqttbroker.Entry.{AuthEntry}
use mapex_mqttbroker.Platform.{Platform}
use mapex_mqttbroker.Runtime.{PluginRuntime}

module _ {State : Type 0} (now : ℕ) (env : Platform) (r : PluginRuntime State)
    (username asset client_id serial p q : Bytes) where
  entry_discreet :
      (e : AuthEntry)
      → (check_entry env r e asset p client_id serial).0
        ≡ (check_entry env r e asset q client_id serial).0
      → entry_call now env r e username p serial ≡ entry_call now env r e username q serial
  unfolding check_entry check_cert check_password allow entry_call cert_call password_call
  entry_discreet e h = ground arith

module _ {World : Type 0} (backend : AuthStore World) (now : ℕ) (env : Platform)
    (other : Bytes) where
  lookup_discreet :
      (r : PluginRuntime (backend.State)) (found : Result AuthEntry)
      (username asset client_id serial p q : Bytes)
      → (check_lookup backend env r found asset p client_id serial).0
        ≡ (check_lookup backend env r found asset q client_id serial).0
      → lookup_call now env other r found username p serial
        ≡ lookup_call now env other r found username q serial
  unfolding check_lookup lookup_call
  lookup_discreet r (err e) username asset client_id serial p q h = refl
  lookup_discreet r (ok e) username asset client_id serial p q h =
      entry_discreet now env r username asset client_id serial p q e h

  -- The log tells no more about a password than the answer does: two attempts that differ in the
  -- password alone, and that `Authenticate` answers alike, make the same call on the logger.
  pub authenticate_discreet :
      (world : World) (r : PluginRuntime (backend.State)) (username client_id serial p q : Bytes)
      → (authenticate backend env world r username p client_id serial).0
        ≡ (authenticate backend env world r username q client_id serial).0
      → authenticate_call now backend env other world r username p serial
        ≡ authenticate_call now backend env other world r username q serial
  unfolding authenticate authenticate_call
  authenticate_discreet world r username client_id serial p q h =
      elim (Option-cases (resolve_username username)) [
        | inl e ↦ rw (e, authenticate_call)
        | inr (asset, e) ↦ elim (Option-cases r.store) [
          | inl k ↦ rw (e, k, authenticate_call)
          | inr (s, k) ↦
              let same_answer = rw (e, k, authenticate) at h in
              rw (e, k, authenticate_call)
                (lookup_discreet (record r { store = some (backend.get world s asset).1 })
                  (backend.get world s asset).0 username asset client_id serial p q same_answer)
        ]
      ]
