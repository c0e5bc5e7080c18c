-- ===== src/Callbacks/DocumentedName.antt =====
-- The identity that src/plugin/main.go takes from a certificate whose common name is of the form
-- that its comments document.
use mapex_mqttbroker.Common.{
  ℕ, ◌≡◌, refl, inl, inr, some, [], ◌∷◌, ◌++◌, Bool-cases, is_empty, Bytes, Lacks,
}
use mapex_mqttbroker.Acl.Topic.{IsUsername}
use mapex_mqttbroker.Auth.Decision.{authenticate_malformed}
use mapex_mqttbroker.AuthStore.{AuthStore}
use mapex_mqttbroker.Callbacks.{
  mosq_err_auth, BasicAuthEvent, go_string, get_client_cert_serial, get_client_cert_cn, identity,
  answer, on_basic_auth, go_on_basic_auth,
}
use mapex_mqttbroker.Certificate.{Certificate, get_cert_cn}
use mapex_mqttbroker.Certificate.Spelling.{c_string-append}
use mapex_mqttbroker.Platform.{Platform}
use mapex_mqttbroker.Runtime.{PluginRuntime}

colon_shows : (s t : Bytes) → ¬ Lacks b':' (s ++ b':' ∷ t)
colon_shows [] t h = h.0 refl
colon_shows (c ∷ s) t h = colon_shows s t h.1

-- With no username the identity is empty, or the common name of the certificate.
documented_identity :
    (ed : BasicAuthEvent) (cert : Certificate) (org asset : Bytes)
    → ed.client.certificate ≡ some cert
    → cert.common_name ≡ some (org ++ b':' ∷ asset)
    → Lacks 0 org
    → go_string ed.username ≡ []
    → ¬ IsUsername (identity ed)
unfolding identity get_client_cert_cn get_cert_cn
documented_identity ed cert org asset presented named no_zero unnamed =
    elim (Bool-cases (is_empty (get_client_cert_serial ed.client))) [
      | inl e ↦ rw (unnamed, e) (λ v. v.0 refl)
      | inr e ↦
          rw (unnamed, e, presented, named, c_string-append org b':' asset no_zero (λ k. cc))
            (λ v. colon_shows org _ v.1)
    ]

module _ {World : Type 0} (backend : AuthStore World) (env : Platform) where
  refused :
      (world : World) (rt : PluginRuntime (backend.State)) (ed : BasicAuthEvent) (now : ℕ)
      → ¬ IsUsername (identity ed)
      → go_on_basic_auth backend env world (some rt) (some ed) now ≡ (mosq_err_auth, some rt)
  unfolding go_on_basic_auth on_basic_auth answer
  refused world rt ed now h = rw (
      authenticate_malformed backend env world rt (identity ed) (go_string ed.password)
        (go_string ed.client.id) (get_client_cert_serial ed.client) h)

  -- A device that presents a certificate with the documented common name, the organization and the
  -- asset with a colon between them, and no username, is refused, whatever the store holds and
  -- whatever else the certificate says; and the runtime stays. (The organization holds no zero byte,
  -- at which the C string would end before the colon.)
  pub documented_name_refused :
      (world : World) (rt : PluginRuntime (backend.State)) (ed : BasicAuthEvent) (now : ℕ)
      (cert : Certificate) (org asset : Bytes)
      → ed.client.certificate ≡ some cert
      → cert.common_name ≡ some (org ++ b':' ∷ asset)
      → Lacks 0 org
      → go_string ed.username ≡ []
      → go_on_basic_auth backend env world (some rt) (some ed) now ≡ (mosq_err_auth, some rt)
  documented_name_refused world rt ed now cert org asset presented named no_zero unnamed =
      refused world rt ed now
        (documented_identity ed cert org asset presented named no_zero unnamed)
