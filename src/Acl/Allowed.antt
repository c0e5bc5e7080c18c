-- ===== src/Acl/Allowed.antt =====
-- The platform contract of src/acl.go as a predicate, and the proof that `check_acl` decides it.
use mapex_mqttbroker.Common.{
  ◌≡◌, refl, subst, ◌↔◌, ◌⊎◌, inl, inr, true, some, arith, Option-cases, Bytes, Lacks, same_iff,
  same_refl,
}
use mapex_mqttbroker.Common.Int.{ℤ, pos, negsuc}
use mapex_mqttbroker.Acl.{
  access_read, access_write, access_subscribe, topic_prefix_events, topic_prefix_commands,
  parse_username, parse_topic, may_access, check_acl,
}
use mapex_mqttbroker.Acl.Topic.{
  IsTopicOf, IsUsername, parse_username_iff, IsTopic, parse_topic_sound, parse_topic_complete,
}

-- What a device of this name may do on the topic.
abbrev pub MayAccess : Bytes → Bytes → ℤ → Type 0
MayAccess asset topic acc =
    (IsTopicOf topic_prefix_events asset topic × (acc ≡ pos access_write))
    ⊎ (IsTopicOf topic_prefix_commands asset topic
        × ((acc ≡ pos access_read) ⊎ (acc ≡ pos access_subscribe)))

may_access_iff :
    (prefix : Bytes) (acc : ℤ)
    → (may_access prefix acc ≡ true) ↔ (
        ((prefix ≡ topic_prefix_events) × (acc ≡ pos access_write))
        ⊎ ((prefix ≡ topic_prefix_commands)
            × ((acc ≡ pos access_read) ⊎ (acc ≡ pos access_subscribe))))
unfolding may_access
may_access_iff prefix (pos n) =
    ground (arith, same_iff prefix topic_prefix_events, same_iff prefix topic_prefix_commands)
may_access_iff prefix (negsuc n) =
    ground (arith, same_iff prefix topic_prefix_events, same_iff prefix topic_prefix_commands)

flat_events : Lacks b'/' topic_prefix_events
flat_events = omega arith

flat_commands : Lacks b'/' topic_prefix_commands
flat_commands = omega arith

check_acl_inv :
    (username topic : Bytes) (acc : ℤ)
    → check_acl username topic acc ≡ true
    → (prefix : Bytes) × IsUsername username
      × (parse_topic topic ≡ some (prefix, username))
      × (may_access prefix acc ≡ true)
unfolding check_acl
check_acl_inv username topic acc h = elim (Option-cases (parse_username username)) [
  | inl e ↦ absurd (ground arith)
  | inr (u, e) ↦ elim (Option-cases (parse_topic topic)) [
    | inl e' ↦ absurd (ground arith)
    | inr ((prefix, asset), e') ↦
        let (same_name, valid) = (parse_username_iff username u).0 e in
        let grants : (asset ≡ u) × (may_access prefix acc ≡ true) =
          ground (arith, same_iff asset u) in
        (prefix, valid, rw e' (cc (grants.0, same_name)), grants.1)
  ]
]

MayAccess-of :
    (prefix asset topic : Bytes) (acc : ℤ)
    → IsTopicOf prefix asset topic
    → may_access prefix acc ≡ true
    → MayAccess asset topic acc
MayAccess-of prefix asset topic acc s h = elim ((may_access_iff prefix acc).0 h) [
  | inl (e, a) ↦ inl (subst (λ x. IsTopicOf x asset topic) e s, a)
  | inr (e, a) ↦ inr (subst (λ x. IsTopicOf x asset topic) e s, a)
]

check_acl_of :
    (prefix username topic : Bytes) (acc : ℤ)
    → IsUsername username
    → IsTopic topic prefix username
    → may_access prefix acc ≡ true
    → check_acl username topic acc ≡ true
unfolding check_acl
check_acl_of prefix username topic acc valid t h = ground (
  arith,
  (parse_username_iff username username).1 (refl, valid),
  parse_topic_complete topic prefix username t,
  same_refl username,
)

check_acl_complete :
    (username topic : Bytes) (acc : ℤ)
    → IsUsername username × Lacks b'/' username × MayAccess username topic acc
    → check_acl username topic acc ≡ true
check_acl_complete username topic acc (valid, flat, inl (s, a)) =
    check_acl_of topic_prefix_events username topic acc valid
      (record {
        prefixed = cc;
        named = valid.0;
        prefix_flat = flat_events;
        asset_flat = flat;
        spelled = s;
      })
      ((may_access_iff topic_prefix_events acc).1 (inl (refl, a)))
check_acl_complete username topic acc (valid, flat, inr (s, a)) =
    check_acl_of topic_prefix_commands username topic acc valid
      (record {
        prefixed = cc;
        named = valid.0;
        prefix_flat = flat_commands;
        asset_flat = flat;
        spelled = s;
      })
      ((may_access_iff topic_prefix_commands acc).1 (inr (refl, a)))

-- `check_acl` grants exactly what the topic contract grants: the username is not empty and holds no
-- colon and no slash, and the device publishes to `events/{username}[/...]`, or reads from or
-- subscribes to `commands/{username}[/...]`.
pub check_acl_iff :
    (username topic : Bytes) (acc : ℤ)
    → (check_acl username topic acc ≡ true)
      ↔ (IsUsername username × Lacks b'/' username × MayAccess username topic acc)
check_acl_iff username topic acc = (
  λ h.
      let (prefix, valid, parsed, granted) = check_acl_inv username topic acc h in
      let t = parse_topic_sound topic prefix username parsed in
      (valid, t.asset_flat, MayAccess-of prefix username topic acc t.spelled granted),
  check_acl_complete username topic acc,
)

-- Two devices are never both granted an access, of whatever kind, to one topic.
check_acl_exclusive :
    (first second topic : Bytes) (acc acc' : ℤ)
    → check_acl first topic acc ≡ true
    → check_acl second topic acc' ≡ true
    → first ≡ second
check_acl_exclusive first second topic acc acc' h k =
    let (_, _, parsed, _) = check_acl_inv first topic acc h in
    let (_, _, parsed', _) = check_acl_inv second topic acc' k in cc
