-- ===== src/Acl/Topic.antt =====
-- What the two parsers of src/acl.go accept, and what they return.
use mapex_mqttbroker.Common.{
  ℕ, ◌≡◌, refl, sym, ap, ◌∙◌, subst, ◌≢◌, ◌↔◌, ◌⊎◌, inl, inr, false, some, List, [], ◌∷◌, ◌++◌,
  arith, Bool-cases, is_empty, is_empty_iff, Bytes, Lacks,
}
use mapex_mqttbroker.GoText.{split_n}
use mapex_mqttbroker.GoText.Split.{contains_rune-eq-false_iff, cut-append, cut_of_Lacks, cut_cases}
use mapex_mqttbroker.Acl.{parse_username, first_two, parse_topic}

-- `{prefix}/{assetUUID}` or `{prefix}/{assetUUID}/{anything}`.
abbrev pub IsTopicOf : Bytes → Bytes → Bytes → Type 0
IsTopicOf prefix asset_uuid topic =
    (topic ≡ prefix ++ b'/' ∷ asset_uuid)
    ⊎ ((rest : Bytes) × (topic ≡ prefix ++ b'/' ∷ (asset_uuid ++ b'/' ∷ rest)))

abbrev pub IsUsername : Bytes → Type 0
IsUsername u = (u ≢ []) × Lacks b':' u

pub parse_username_iff :
    (username asset : Bytes)
    → (parse_username username ≡ some asset) ↔ ((asset ≡ username) × IsUsername username)
unfolding parse_username
parse_username_iff username asset =
    ground (arith, is_empty_iff username, contains_rune-eq-false_iff username b':')

-- The two first tokens of a topic.
pub record IsTopic (topic prefix asset : Bytes) : Type 0 where
  pub prefixed : prefix ≢ []
  pub named : asset ≢ []
  pub prefix_flat : Lacks b'/' prefix
  pub asset_flat : Lacks b'/' asset
  pub spelled : IsTopicOf prefix asset topic

first_two_sound :
    (p a prefix asset : Bytes) (more : List Bytes)
    → first_two (p ∷ a ∷ more) ≡ some (prefix, asset)
    → (prefix ≡ p) × (asset ≡ a) × (p ≢ []) × (a ≢ [])
unfolding first_two
first_two_sound p a prefix asset more h = ground (arith, is_empty_iff p, is_empty_iff a)

IsTopic-of :
    {topic prefix asset p a : Bytes}
    → (prefix ≡ p) × (asset ≡ a) × (p ≢ []) × (a ≢ [])
    → Lacks b'/' p
    → Lacks b'/' a
    → IsTopicOf p a topic
    → IsTopic topic prefix asset
IsTopic-of {topic} {asset} {p} (ep, ea, np, na) fp fa s =
    subst (λ x. IsTopic topic x asset) (sym ep)
      (subst (IsTopic topic p) (sym ea)
        (record { prefixed = np; named = na; prefix_flat = fp; asset_flat = fa; spelled = s }))

pub parse_topic_sound :
    (topic prefix asset : Bytes)
    → parse_topic topic ≡ some (prefix, asset)
    → IsTopic topic prefix asset
unfolding parse_topic split_n
parse_topic_sound topic prefix asset h = elim (Bool-cases (is_empty topic)) [
  | inl e ↦ absurd (ground arith)
  | inr e ↦ elim (cut_cases b'/' topic) [
    | inl (missed, lacks) ↦ absurd (ground arith)
    | inr (p, r, found, flat, spelled) ↦ elim (cut_cases b'/' r) [
      | inl (last, r_flat) ↦
          IsTopic-of (first_two_sound p r prefix asset [] (ground arith)) flat r_flat (inl spelled)
      | inr (a, rest, found', a_flat, spelled') ↦
          IsTopic-of (first_two_sound p a prefix asset (rest ∷ []) (ground arith)) flat a_flat
            (inr (rest, spelled ∙ ap (λ x. p ++ b'/' ∷ x) spelled'))
    ]
  ]
]

not-is_empty-append : (p : Bytes) (c : ℕ) (s : Bytes) → is_empty (p ++ c ∷ s) ≡ false
not-is_empty-append [] c s = refl
not-is_empty-append (_ ∷ p) c s = refl

pub parse_topic_complete :
    (topic prefix asset : Bytes)
    → IsTopic topic prefix asset
    → parse_topic topic ≡ some (prefix, asset)
unfolding parse_topic split_n first_two
parse_topic_complete topic prefix asset h = elim h.spelled [
  | inl e ↦ ground (
    arith,
    not-is_empty-append prefix b'/' asset,
    cut-append b'/' prefix asset h.prefix_flat,
    cut_of_Lacks b'/' asset h.asset_flat,
    is_empty_iff prefix,
    is_empty_iff asset,
  )
  | inr (rest, e) ↦ ground (
    arith,
    not-is_empty-append prefix b'/' (asset ++ b'/' ∷ rest),
    cut-append b'/' prefix (asset ++ b'/' ∷ rest) h.prefix_flat,
    cut-append b'/' asset rest h.asset_flat,
    is_empty_iff prefix,
    is_empty_iff asset,
  )
]
