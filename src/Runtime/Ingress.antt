-- ===== src/Runtime/Ingress.antt =====
-- What the publishing methods of src/plugin.go put on the queue.
use mapex_mqttbroker.Common.{
  ℕ, ◌≤◌, ◌<◌, ◌≡◌, refl, ◌⊎◌, inl, inr, Bool, true, false, not, ◌||◌, Option, none, some, [], ◌∷◌,
  ◌++◌, arith, ltb, Bool-cases, length, Bytes, Lacks,
}
use mapex_mqttbroker.Common.Int.{ℤ}
use mapex_mqttbroker.GoText.Split.{cut-append}
use mapex_mqttbroker.Json.{Json}
use mapex_mqttbroker.Payloads.{IngressMessage, marshal_ingress}
use mapex_mqttbroker.Platform.{Platform}
use mapex_mqttbroker.Publisher.{
  PublishJob, AsyncPublisher, enqueue, drop_one, drop_no_start, try_send,
}
use mapex_mqttbroker.Runtime.Token.{IsLiteral, valid_subject_token_iff}
use mapex_mqttbroker.Runtime.{
  PluginRuntime, max_ingress_payload_bytes, valid_subject_token, publish, publish_ingress,
}

IsLiteral-Lacks_dot : (s : Bytes) → IsLiteral s → Lacks b'.' s
IsLiteral-Lacks_dot [] h = tt
IsLiteral-Lacks_dot (c ∷ s) h = (h.0.0, IsLiteral-Lacks_dot s h.1)

abbrev pub ingress_subject : Bytes → Bytes → Bytes → Bytes
ingress_subject prefix org_id asset_uuid = prefix ++ b'.' ∷ (org_id ++ b'.' ∷ asset_uuid)

append-injective : (s t u : Bytes) → s ++ t ≡ s ++ u → t ≡ u
append-injective [] t u e = e
append-injective (c ∷ s) t u e = append-injective s t u (cc)

-- Under one prefix, two devices whose organizations are valid tokens have the same ingress subject
-- only if they are the same device of the same organization.
pub ingress_subject-injective :
    (prefix org org' asset asset' : Bytes)
    → valid_subject_token org ≡ true
    → valid_subject_token org' ≡ true
    → ingress_subject prefix org asset ≡ ingress_subject prefix org' asset'
    → (org ≡ org') × (asset ≡ asset')
ingress_subject-injective prefix org org' asset asset' h k e =
    let tail = append-injective prefix _ _ e in
    let cut_left =
      cut-append b'.' org asset (IsLiteral-Lacks_dot org ((valid_subject_token_iff org).0 h).1) in
    let cut_right =
      cut-append b'.' org' asset'
        (IsLiteral-Lacks_dot org' ((valid_subject_token_iff org').0 k).1) in
    (cc (cut_left, cut_right, tail), cc (cut_left, cut_right, tail))

-- An accepted job stands at the end of a queue that had room.
pub enqueue_lem :
    (p : AsyncPublisher) (job : PublishJob)
    → ((enqueue p job).0 ≡ true)
        × (p.started ≡ true)
        × (p.closed ≡ false)
        × (length p.queue < p.buffer_size)
        × ((enqueue p job).1.queue ≡ p.queue ++ job ∷ [])
      ⊎ ((enqueue p job).0 ≡ false) × ((enqueue p job).1.queue ≡ p.queue)
unfolding enqueue try_send drop_one drop_no_start
enqueue_lem p job = ground arith

-- The message of one device event.
abbrev pub message_of : Bytes → Bytes → Bytes → Bytes → Bytes → ℤ → Bool → ℕ → IngressMessage
message_of org_id asset_uuid client_id topic payload qos retain ts = record {
  org_id = org_id;
  asset_uuid = asset_uuid;
  client_id = client_id;
  topic = topic;
  payload = payload;
  qos = qos;
  retain = retain;
  timestamp = ts;
}

module _ {State : Type 0} where
  pub publish_lem :
      (r : PluginRuntime State) (subject : Bytes) (doc : Option Json)
      → ((m : Json) × ((publish r subject doc).0 ≡ true)
          × (doc ≡ some m)
          × ((publish r subject doc).1.async.queue
              ≡ r.async.queue ++ record { subject = subject; message = m } ∷ []))
        ⊎ (((publish r subject doc).0 ≡ false)
            × ((publish r subject doc).1.async.queue ≡ r.async.queue))
  unfolding publish drop_one
  publish_lem r subject none = inr (refl, refl)
  publish_lem r subject (some m) =
      elim (enqueue_lem r.async (record { subject = subject; message = m })) [
        | inl (sent, _, _, _, queued) ↦ inl (m, sent, refl, queued)
        | inr (refused, kept) ↦ inr (refused, kept)
      ]

module _ {State : Type 0} (env : Platform) where
  -- `PublishIngress` either accepts the event, and then both tokens are valid, the payload is within
  -- the limit and the marshalled message stands last on the queue under the subject of the device,
  -- or refuses it and leaves the queue as it was.
  pub publish_ingress_lem :
      (r : PluginRuntime State) (org_id asset_uuid client_id topic payload : Bytes) (qos : ℤ)
      (retain : Bool) (ts : ℕ)
      → let p = publish_ingress env r org_id asset_uuid client_id topic payload qos retain ts in
        ((m : Json) × (p.0 ≡ true)
          × (valid_subject_token org_id ≡ true)
          × (valid_subject_token asset_uuid ≡ true)
          × (length payload ≤ max_ingress_payload_bytes)
          × (marshal_ingress env
                (message_of org_id asset_uuid client_id topic payload qos retain ts)
              ≡ some m)
          × (p.1.async.queue
              ≡ r.async.queue
                ++ record {
                  subject = ingress_subject r.config.subject_ingress_prefix org_id asset_uuid;
                  message = m;
                }
                  ∷ []))
        ⊎ ((p.0 ≡ false) × (p.1.async.queue ≡ r.async.queue))
  unfolding publish_ingress drop_one
  publish_ingress_lem r org_id asset_uuid client_id topic payload qos retain ts =
      elim (Bool-cases (not (valid_subject_token org_id) || not (valid_subject_token asset_uuid))) [
        | inl e ↦ inr (rw e, rw e)
        | inr e ↦ elim (Bool-cases (ltb max_ingress_payload_bytes (length payload))) [
          | inl e' ↦ inr (rw (e, e'), rw (e, e'))
          | inr e' ↦
              rw (e, e')
                (elim (publish_lem r
                  (ingress_subject r.config.subject_ingress_prefix org_id asset_uuid)
                  (marshal_ingress env
                    (message_of org_id asset_uuid client_id topic payload qos retain ts))) [
                      | inl (m, sent, marshalled, queued) ↦
                          inl
                            (m, sent, ground arith, ground arith, ground arith, marshalled, queued)
                      | inr kept ↦ inr kept
                    ])
        ]
      ]
