-- ===== src/HttpAuth.antt =====
-- src/http_auth.go: the HTTP client of the L3 layer.
pub mod Enabled
use mapex_mqttbroker.Common.{
  ℕ, ◌+◌, ◌*◌, ◌%◌, ◌^◌, ◌≡◌, refl, inl, inr, false, Option, none, some, ◌∷◌, ◌++◌, arith, ◌==◌,
  if◌then◌else◌, Bool-cases, is_empty, Bytes, codes,
}
use mapex_mqttbroker.Common.Int.{ℤ, pos, is_positive, increment}
use mapex_mqttbroker.AuthStore.{not_found, failed, Result, ok, err}
use mapex_mqttbroker.Config.{second}
use mapex_mqttbroker.Entry.{AuthEntry}
use mapex_mqttbroker.Json.{Json}
use mapex_mqttbroker.Platform.{Platform}
use mapex_mqttbroker.Projection.{decode_read_model_envelope_to_auth_entry}
use mapex_mqttbroker.Publisher.{Built, built, refused}

pub record AuthClientConfig : Type 0 where
  pub url : Bytes
  pub api_key : Bytes
  pub timeout : ℤ
  pub max_idle_conns : ℤ
  pub idle_conn_timeout : ℤ

pub record AuthClient : Type 0 where
  pub cfg : AuthClientConfig
  pub lookups : ℕ
  pub lookup_hits : ℕ
  pub lookup_miss : ℕ
  pub lookup_error : ℕ

-- What the getters of the counters load.
abbrev pub lookup_count : AuthClient → ℕ
lookup_count a = a.lookups

abbrev pub lookup_hit_count : AuthClient → ℕ
lookup_hit_count a = a.lookup_hits

abbrev pub lookup_miss_count : AuthClient → ℕ
lookup_miss_count a = a.lookup_miss

abbrev pub lookup_error_count : AuthClient → ℕ
lookup_error_count a = a.lookup_error

pub data ClientError : Type 0 where
  auth_url_required auth_api_key_required : ClientError

-- A default in place of a value that is not positive.
abbrev pub positive_or_default : ℤ → ℤ → ℤ
positive_or_default i default = if is_positive i then i else default

unfoldable pub new_auth_client : AuthClientConfig → Built AuthClient ClientError
new_auth_client cfg =
    if is_empty cfg.url
    then refused auth_url_required
    else if is_empty cfg.api_key
    then refused auth_api_key_required
    else built (record {
      cfg = record cfg {
        timeout = positive_or_default cfg.timeout (pos (5 * second));
        max_idle_conns = positive_or_default cfg.max_idle_conns (pos 32);
        idle_conn_timeout = positive_or_default cfg.idle_conn_timeout (pos (90 * second));
      };
      lookups = 0;
      lookup_hits = 0;
      lookup_miss = 0;
      lookup_error = 0;
    })

-- A GET with the two headers that the client sets.
pub record Request : Type 0 where
  pub url : Bytes
  pub api_key : Bytes
  pub user_agent : Bytes

-- What becomes of a request: net/http takes no such URL, the round trip fails, or a response comes.
pub data Reply : Type 0 where
  bad_request transport_error : Reply
  response : ℕ → Option Json → Reply

abbrev pub lookup_request : AuthClient → Bytes → Request
lookup_request a asset_uuid = record {
  url = a.cfg.url ++ b'/' ∷ asset_uuid;
  api_key = a.cfg.api_key;
  user_agent = codes "mapex-broker-plugin/1.0";
}

-- A decoding error is any other error to the caller.
abbrev pub or_failed : Option AuthEntry → Result AuthEntry
or_failed none = err failed
or_failed (some e) = ok e

abbrev pub count_error : AuthClient → AuthClient
count_error a = record a { lookup_error = increment a.lookup_error }

-- The switch on the status.
unfoldable pub handle_reply : Platform → AuthClient → Reply → Result AuthEntry × AuthClient
handle_reply env a bad_request = (err failed, count_error a)
handle_reply env a transport_error = (err failed, count_error a)
handle_reply env a (response status body) =
    if status == 200
    then (
      or_failed (decode_read_model_envelope_to_auth_entry env body),
      record a { lookup_hits = increment a.lookup_hits },
    )
    else if status == 404
    then (err not_found, record a { lookup_miss = increment a.lookup_miss })
    else (err failed, count_error a)

unfoldable pub lookup_entry :
    Platform → (Request → Reply) → AuthClient → Bytes → Result AuthEntry × AuthClient
lookup_entry env http a asset_uuid =
    if is_empty asset_uuid
    then (err not_found, a)
    else handle_reply env (record a { lookups = increment a.lookups })
        (http (lookup_request a asset_uuid))

-- Every lookup that was sent is counted once as a hit, a miss or an error.
abbrev pub IsAccounted : AuthClient → Type 0
IsAccounted a =
    lookup_count a % 2 ^ 64
    ≡ (lookup_hit_count a + lookup_miss_count a + lookup_error_count a) % 2 ^ 64

handle_reply-IsAccounted :
    (env : Platform) (a : AuthClient) (reply : Reply)
    → a.lookups % 2 ^ 64 ≡ (a.lookup_hits + a.lookup_miss + a.lookup_error + 1) % 2 ^ 64
    → IsAccounted (handle_reply env a reply).1
unfolding handle_reply
handle_reply-IsAccounted env a bad_request h = omega arith
handle_reply-IsAccounted env a transport_error h = omega arith
handle_reply-IsAccounted env a (response status body) h = ground arith

-- A lookup keeps the account: each that reaches the network is counted once, as a hit, a miss or an
-- error, modulo 2^64.
pub lookup_entry-IsAccounted :
    (env : Platform) (http : Request → Reply) (a : AuthClient) (asset_uuid : Bytes)
    → IsAccounted a
    → IsAccounted (lookup_entry env http a asset_uuid).1
unfolding lookup_entry
lookup_entry-IsAccounted env http a asset_uuid h = elim (Bool-cases (is_empty asset_uuid)) [
  | inl e ↦ rw e h
  | inr e ↦ rw e (handle_reply-IsAccounted env _ (http (lookup_request a asset_uuid)) (omega arith))
]

handle_reply_sent :
    (env : Platform) (a : AuthClient) (reply : Reply)
    → (handle_reply env a reply).1.lookups ≡ a.lookups
unfolding handle_reply
handle_reply_sent env a bad_request = refl
handle_reply_sent env a transport_error = refl
handle_reply_sent env a (response status body) = ground arith

-- A lookup of an id that is not empty is sent.
pub lookup_entry_sent :
    (env : Platform) (http : Request → Reply) (a : AuthClient) (asset_uuid : Bytes)
    → is_empty asset_uuid ≡ false
    → lookup_count (lookup_entry env http a asset_uuid).1 ≡ increment (lookup_count a)
unfolding lookup_entry
lookup_entry_sent env http a asset_uuid h =
    rw (h, lookup_entry) (handle_reply_sent env _ (http (lookup_request a asset_uuid)))
