-- ===== src/Payloads/ReadBack.antt =====
-- A reference reader of the documents of src/payloads.go: what a subscriber gets from them.
use mathlib.Core.Option.{some-injective}
use mapex_mqttbroker.Common.{
  ℕ, ◌+◌, ◌-◌, ◌*◌, ◌/◌, ◌%◌, ◌<◌, ◌≡◌, refl, subst, inl, inr, Bool, false, none, some, [], ◌∷◌,
  arith, leb, ◌==◌, if◌then◌else◌, Option-cases, is_empty_iff, All, Bytes, codes, same,
}
use mapex_mqttbroker.Common.Int.{ℤ, pos}
use mapex_mqttbroker.GoText.Utf8.{IsUtf8}
use mapex_mqttbroker.Json.{
  Json, null, bool, num, str, obj, Fields, end, field, text, base64, base64_char,
}
use mapex_mqttbroker.Payloads.{IngressMessage, PresenceAdvisory, marshal_ingress, marshal_presence}
use mapex_mqttbroker.Platform.{Platform, ReadsTime}

-- The six bits of a character of base64.
sextet : ℕ → ℕ
sextet c =
    if leb b'a' c
    then c - b'a' + 26
    else if leb b'A' c
    then c - b'A'
    else if leb b'0' c
    then c - b'0' + 52
    else if c == b'+'
    then 62
    else 63

unbase64 : Bytes → Bytes
unfolding sextet
unbase64 (p ∷ q ∷ r ∷ s ∷ rest) =
    let more = unbase64 rest in
    if r == b'='
    then (sextet p * 4 + sextet q / 16) ∷ []
    else if s == b'='
    then (sextet p * 4 + sextet q / 16) ∷ (sextet q % 16 * 16 + sextet r / 4) ∷ []
    else (sextet p * 4 + sextet q / 16)
      ∷ (sextet q % 16 * 16 + sextet r / 4)
      ∷ (sextet r % 4 * 64 + sextet s)
      ∷ more
unbase64 _ = []

sextet-base64_char : (n : ℕ) → n < 64 → sextet (base64_char n) ≡ n
unfolding sextet base64_char
sextet-base64_char n h = ground arith

base64_char_pad : (n : ℕ) → n < 64 → (base64_char n == b'=') ≡ false
unfolding base64_char
base64_char_pad n h = ground arith

-- `unbase64` reads back what the encoder wrote of bytes.
unbase64-base64 : (s : Bytes) → All (λ b. b < 256) s → unbase64 (base64 s) ≡ s
unfolding unbase64 base64
unbase64-base64 [] h = refl
unbase64-base64 (a ∷ []) (ha, h) =
    rw (sextet-base64_char (a / 4) (omega arith), sextet-base64_char (a % 4 * 16) (omega arith))
      (ground arith)
unbase64-base64 (a ∷ b ∷ []) (ha, (hb, h)) =
    rw
      (
        base64_char_pad (b % 16 * 4) (omega arith),
        sextet-base64_char (a / 4) (omega arith),
        sextet-base64_char (a % 4 * 16 + b / 16) (omega arith),
        sextet-base64_char (b % 16 * 4) (omega arith),
      )
      (ground arith)
unbase64-base64 (a ∷ b ∷ c ∷ s) (ha, (hb, (hc, h))) =
    rw
      (
        base64_char_pad (b % 16 * 4 + c / 64) (omega arith),
        base64_char_pad (c % 64) (omega arith),
        sextet-base64_char (a / 4) (omega arith),
        sextet-base64_char (a % 4 * 16 + b / 16) (omega arith),
        sextet-base64_char (b % 16 * 4 + c / 64) (omega arith),
        sextet-base64_char (c % 64) (omega arith),
        unbase64-base64 s h,
      )
      (ground arith)

-- The value of a field, which is null where the field is missing.
member : Bytes → Fields → Json
member key end = null
member key (field k v rest) = if same k key then v else member key rest

fields_of : Json → Fields
fields_of (obj fields) = fields
fields_of _ = end

string_of : Json → Bytes
string_of (str s) = s
string_of _ = []

int_of : Json → ℤ
int_of (num i) = i
int_of _ = pos 0

bool_of : Json → Bool
bool_of (bool b) = b
bool_of _ = false

time_of : Platform → Json → ℕ
unfolding string_of
time_of env v = elim (env.parse_time (string_of v)) [ none ↦ 0 | some t ↦ t ]

pub read_ingress : Platform → Json → IngressMessage
unfolding member fields_of string_of int_of bool_of time_of unbase64
read_ingress env doc = record {
  org_id = string_of (member (codes "orgId") (fields_of doc));
  asset_uuid = string_of (member (codes "assetUUID") (fields_of doc));
  client_id = string_of (member (codes "clientId") (fields_of doc));
  topic = string_of (member (codes "topic") (fields_of doc));
  payload = unbase64 (string_of (member (codes "payload") (fields_of doc)));
  qos = int_of (member (codes "qos") (fields_of doc));
  retain = bool_of (member (codes "retain") (fields_of doc));
  timestamp = time_of env (member (codes "timestamp") (fields_of doc));
}

-- The strings of a message are UTF-8, and its payload is bytes.
pub record IsIngressText (m : IngressMessage) : Type 0 where
  pub org_id : IsUtf8 m.org_id
  pub asset_uuid : IsUtf8 m.asset_uuid
  pub client_id : IsUtf8 m.client_id
  pub topic : IsUtf8 m.topic
  pub payload : All (λ b. b < 256) m.payload

time_of_rendered :
    (env : Platform) (t : ℕ) (time : Bytes)
    → ReadsTime env
    → env.render_time t ≡ some time
    → time_of env (str time) ≡ t
unfolding time_of string_of
time_of_rendered env t time reads e = rw (reads t time e, time_of) refl

module _ (env : Platform) where
  -- A subscriber that reads a message from the document of the ingress subject gets the message that
  -- was sent, payload byte for byte. (Its strings are UTF-8, and times that are rendered are read
  -- back.)
  pub read_ingress-marshal_ingress :
      (m : IngressMessage) (doc : Json)
      → ReadsTime env
      → IsIngressText m
      → marshal_ingress env m ≡ some doc
      → read_ingress env doc ≡ m
  unfolding marshal_ingress read_ingress text same member fields_of string_of int_of bool_of
  read_ingress-marshal_ingress m doc reads h e = elim (Option-cases (env.render_time m.timestamp)) [
    | inl k ↦ absurd (ground arith)
    | inr (time, k) ↦
        subst (λ d. read_ingress env d ≡ m) (some-injective _ _ (rw (k, marshal_ingress) at e))
          (ground (
            arith,
            is_empty_iff m.client_id,
            unbase64-base64 m.payload h.payload,
            time_of_rendered env m.timestamp time reads k,
          ))
  ]

pub read_presence : Platform → Json → PresenceAdvisory
unfolding member fields_of string_of int_of time_of
read_presence env doc = record {
  event = string_of (member (codes "event") (fields_of doc));
  org_id = string_of (member (codes "orgId") (fields_of doc));
  asset_uuid = string_of (member (codes "assetUUID") (fields_of doc));
  client_id = string_of (member (codes "clientId") (fields_of doc));
  source_ip = string_of (member (codes "sourceIp") (fields_of doc));
  timestamp = time_of env (member (codes "timestamp") (fields_of doc));
  reason_code = int_of (member (codes "reasonCode") (fields_of doc));
  reason_text = string_of (member (codes "reasonText") (fields_of doc));
}

-- The strings of an advisory are UTF-8.
pub record IsPresenceText (a : PresenceAdvisory) : Type 0 where
  pub event : IsUtf8 a.event
  pub org_id : IsUtf8 a.org_id
  pub asset_uuid : IsUtf8 a.asset_uuid
  pub client_id : IsUtf8 a.client_id
  pub source_ip : IsUtf8 a.source_ip
  pub reason_text : IsUtf8 a.reason_text

module _ (env : Platform) where
  -- A subscriber that reads an advisory from the document of the presence subject gets the advisory
  -- that was sent, a field that is left out included. (Its strings are UTF-8, and times that are
  -- rendered are read back.)
  pub read_presence-marshal_presence :
      (a : PresenceAdvisory) (doc : Json)
      → ReadsTime env
      → IsPresenceText a
      → marshal_presence env a ≡ some doc
      → read_presence env doc ≡ a
  unfolding marshal_presence read_presence text same member fields_of string_of int_of
  read_presence-marshal_presence a doc reads h e =
      elim (Option-cases (env.render_time a.timestamp)) [
        | inl k ↦ absurd (ground arith)
        | inr (time, k) ↦
            subst (λ d. read_presence env d ≡ a)
              (some-injective _ _ (rw (k, marshal_presence) at e))
              (ground (
                arith,
                is_empty_iff a.client_id,
                is_empty_iff a.source_ip,
                is_empty_iff a.reason_text,
                time_of_rendered env a.timestamp time reads k,
              ))
      ]
