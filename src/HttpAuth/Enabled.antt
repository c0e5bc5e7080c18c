-- ===== src/HttpAuth/Enabled.antt =====
-- LookupEntry of src/http_auth.go fails closed: only a document that says so enables an asset.
use mathlib.Core.Option.{some-injective}
use mapex_mqttbroker.Common.{
  ◌≡◌, refl, ap, ◌∙◌, ◌≢◌, ◌⊎◌, inl, inr, Bool, true, false, Option, none, some, [], arith, ◌==◌,
  Bool-cases, is_empty, is_empty_iff, ==_iff, Bytes, codes,
}
use mapex_mqttbroker.AuthStore.{ok}
use mapex_mqttbroker.Entry.{AuthEntry}
use mapex_mqttbroker.HttpAuth.{
  AuthClient, Request, Reply, bad_request, transport_error, response, lookup_request, or_failed,
  handle_reply, lookup_entry,
}
use mapex_mqttbroker.Json.{Json, null, bool, num, str, arr, obj, Fields, end, field}
use mapex_mqttbroker.Platform.{Platform}
use mapex_mqttbroker.Projection.{
  AuthProjection, key_is, read_bool, assign_projection, assign_all, read_projection,
  assign_envelope, read_envelope, finish, to_auth_entry, zero_projection,
  decode_read_model_to_auth_entry, decode_read_model_envelope_to_auth_entry,
}

module _ (env : Platform) where
  -- Some field of the name `enabled` is true.
  pub data SaysEnabled : Fields → Type 0 where
    here :
        {key : Bytes} {rest : Fields}
        → key_is env key (codes "enabled") ≡ true
        → SaysEnabled (field key (bool true) rest)
    there :
        {key : Bytes} {v : Json} {rest : Fields} → SaysEnabled rest → SaysEnabled (field key v rest)

  -- Some field of the name `data` is an object that says so.
  pub data DataSaysEnabled : Fields → Type 0 where
    inside :
        {key : Bytes} {fields rest : Fields}
        → key_is env key (codes "data") ≡ true
        → SaysEnabled fields
        → DataSaysEnabled (field key (obj fields) rest)
    beyond :
        {key : Bytes} {v : Json} {rest : Fields}
        → DataSaysEnabled rest
        → DataSaysEnabled (field key v rest)

  assign_projection_enabled :
      (key : Bytes) (v : Json) (p : AuthProjection)
      → (assign_projection env key v p).0.enabled ≡ true
      → (p.enabled ≡ true) ⊎ ((key_is env key (codes "enabled") ≡ true) × (v ≡ bool true))
  unfolding assign_projection read_bool
  assign_projection_enabled key null p h = ground arith
  assign_projection_enabled key (bool b) p h = ground arith
  assign_projection_enabled key (num i) p h = ground arith
  assign_projection_enabled key (str s) p h = ground arith
  assign_projection_enabled key (arr items) p h = ground arith
  assign_projection_enabled key (obj fields) p h = ground arith

  SaysEnabled-of :
      (key : Bytes) (v : Json) (rest : Fields)
      → key_is env key (codes "enabled") ≡ true
      → v ≡ bool true
      → SaysEnabled (field key v rest)
  SaysEnabled-of key v rest h e = rw e (here h)

  assign_all_enabled :
      (fields : Fields) (p : AuthProjection) (fits : Bool)
      → (assign_all env fields (p, fits)).0.enabled ≡ true
      → (p.enabled ≡ true) ⊎ SaysEnabled fields
  unfolding assign_all
  assign_all_enabled end p fits h = inl h
  assign_all_enabled (field key v rest) p fits h =
      elim (assign_all_enabled rest (assign_projection env key v p).0 _ h) [
        | inr says ↦ inr (there says)
        | inl on ↦ elim (assign_projection_enabled key v p on) [
          | inl on' ↦ inl on'
          | inr (named, e) ↦ inr (SaysEnabled-of key v rest named e)
        ]
      ]

  read_projection_enabled :
      (v : Json) (p : AuthProjection)
      → (read_projection env v p).0.enabled ≡ true
      → (p.enabled ≡ true) ⊎ ((fields : Fields) × (v ≡ obj fields) × SaysEnabled fields)
  unfolding read_projection
  read_projection_enabled null p h = inl h
  read_projection_enabled (bool b) p h = inl h
  read_projection_enabled (num i) p h = inl h
  read_projection_enabled (str s) p h = inl h
  read_projection_enabled (arr items) p h = inl h
  read_projection_enabled (obj fields) p h = elim (assign_all_enabled fields p true h) [
    | inl on ↦ inl on
    | inr says ↦ inr (fields, refl, says)
  ]

  DataSaysEnabled-of :
      (key : Bytes) (v : Json) (fields rest : Fields)
      → key_is env key (codes "data") ≡ true
      → v ≡ obj fields
      → SaysEnabled fields
      → DataSaysEnabled (field key v rest)
  DataSaysEnabled-of key v fields rest h e says = rw e (inside h says)

  assign_envelope_enabled :
      (fields : Fields) (p : AuthProjection) (fits : Bool)
      → (assign_envelope env fields (p, fits)).0.enabled ≡ true
      → (p.enabled ≡ true) ⊎ DataSaysEnabled fields
  unfolding assign_envelope
  assign_envelope_enabled end p fits h = inl h
  assign_envelope_enabled (field key v rest) p fits h =
      elim (Bool-cases (key_is env key (codes "data"))) [
        | inl e ↦
            elim (assign_envelope_enabled rest (read_projection env v p).0 _
              (rw (e, assign_envelope) at h)) [
                | inr says ↦ inr (beyond says)
                | inl on ↦ elim (read_projection_enabled v p on) [
                  | inl on' ↦ inl on'
                  | inr (fields, k, says) ↦ inr (DataSaysEnabled-of key v fields rest e k says)
                ]
              ]
        | inr e ↦ elim (assign_envelope_enabled rest p _ (rw (e, assign_envelope) at h)) [
          | inr says ↦ inr (beyond says)
          | inl on ↦ inl on
        ]
      ]

  finish_enabled :
      (out : AuthProjection × Bool) (e : AuthEntry)
      → finish env out ≡ some e
      → e.enabled ≡ true
      → out.0.enabled ≡ true
  unfolding to_auth_entry
  finish_enabled (p, true) e h on = ap (λ x. x.enabled) (some-injective _ _ h) ∙ on
  finish_enabled (p, false) e h on = absurd (cc)

  decoded_enabled :
      (body : Option Json) (e : AuthEntry)
      → decode_read_model_envelope_to_auth_entry env body ≡ some e
      → e.enabled ≡ true
      → (fields : Fields) × (body ≡ some (obj fields)) × DataSaysEnabled fields
  unfolding decode_read_model_envelope_to_auth_entry read_envelope
  decoded_enabled none e h on = absurd (cc)
  decoded_enabled (some (obj fields)) e h on =
      elim (assign_envelope_enabled fields zero_projection true (finish_enabled _ e h on)) [
        | inl off ↦ absurd (cc)
        | inr says ↦ (fields, refl, says)
      ]
  decoded_enabled (some null) e h on = absurd (cc (finish_enabled (zero_projection, true) e h on))
  decoded_enabled (some (bool _)) e h on = absurd (cc)
  decoded_enabled (some (num _)) e h on = absurd (cc)
  decoded_enabled (some (str _)) e h on = absurd (cc)
  decoded_enabled (some (arr _)) e h on = absurd (cc)

  -- An object without an envelope, as it stands in MinIO.
  pub object_enabled :
      (body : Option Json) (e : AuthEntry)
      → decode_read_model_to_auth_entry env body ≡ some e
      → e.enabled ≡ true
      → (fields : Fields) × (body ≡ some (obj fields)) × SaysEnabled fields
  unfolding decode_read_model_to_auth_entry
  object_enabled none e h on = absurd (cc)
  object_enabled (some doc) e h on =
      elim (read_projection_enabled doc zero_projection (finish_enabled _ e h on)) [
        | inl off ↦ absurd (cc)
        | inr (fields, k, says) ↦ (fields, ap some k, says)
      ]

  or_failed_ok : (o : Option AuthEntry) (e : AuthEntry) → or_failed o ≡ ok e → o ≡ some e
  or_failed_ok none e h = absurd (cc)
  or_failed_ok (some x) e h = cc

  handle_reply_enabled :
      (a : AuthClient) (reply : Reply) (e : AuthEntry)
      → (handle_reply env a reply).0 ≡ ok e
      → e.enabled ≡ true
      → (fields : Fields) × (reply ≡ response 200 (some (obj fields))) × DataSaysEnabled fields
  unfolding handle_reply
  handle_reply_enabled a bad_request e h on = absurd (cc)
  handle_reply_enabled a transport_error e h on = absurd (cc)
  handle_reply_enabled a (response status body) e h on = elim (Bool-cases (status == 200)) [
    | inl good ↦
        let (fields, said, says) =
          decoded_enabled body e (or_failed_ok _ e (rw (good, handle_reply) at h)) on in
        (fields, cc ((==_iff status 200).0 good), says)
    | inr bad ↦ absurd (ground arith)
  ]

  -- The HTTP layer fails closed: a lookup yields an enabled entry only where the id is not empty and
  -- the assets service answered the request for that id with 200 and an object in which a field
  -- `data`, up to case, is an object that has a true field `enabled`, up to case.
  pub lookup_entry_enabled :
      (http : Request → Reply) (a : AuthClient) (asset_uuid : Bytes) (e : AuthEntry)
      → (lookup_entry env http a asset_uuid).0 ≡ ok e
      → e.enabled ≡ true
      → (asset_uuid ≢ [])
        × (fields : Fields) × (http (lookup_request a asset_uuid)
            ≡ response 200 (some (obj fields)))
        × DataSaysEnabled fields
  unfolding lookup_entry
  lookup_entry_enabled http a asset_uuid e h on = elim (Bool-cases (is_empty asset_uuid)) [
    | inl k ↦ absurd (cc (rw (k, lookup_entry) at h))
    | inr k ↦
        let found = handle_reply_enabled _ _ e (rw (k, lookup_entry) at h) on in
        (ground (arith, is_empty_iff asset_uuid), found.0, found.1, found.2)
  ]
