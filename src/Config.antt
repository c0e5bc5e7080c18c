-- ===== src/Config.antt =====
-- src/config.go: the options of the plugin.
pub mod Required
pub mod Durations
mod Tests
use mapex_mqttbroker.Common.{
  ℕ, ◌-◌, ◌*◌, ◌%◌, ◌^◌, Bool, not, Option, none, some, List, [], ◌∷◌, if◌then◌else◌, is_empty,
  Bytes, codes, same,
}
use mapex_mqttbroker.Common.Int.{ℤ, pos, negsuc, is_positive, wrap_int64}
use mapex_mqttbroker.GoText.Decimal.{atoi}
use mapex_mqttbroker.GoText.Fold.{equal_fold}
use mapex_mqttbroker.GoText.Trim.{trim_space}
use mapex_mqttbroker.Platform.{Platform}

-- `map[string]string`.
abbrev pub Options : Type 0
Options = List (Bytes × Bytes)

-- `opts[key]`, which is empty for a missing key.
unfoldable pub get : Options → Bytes → Bytes
get [] key = []
get ((k, v) ∷ opts) key = if same k key then v else get opts key

-- Durations are nanoseconds in an `int64`.
abbrev pub second : ℕ
second = 1_000_000_000

abbrev pub minute : ℕ
minute = 60 * second

-- `time.Duration(n) * unit`, which wraps.
unfoldable pub times : ℤ → ℕ → ℤ
times (pos n) unit = wrap_int64 (n * unit)
times (negsuc n) unit = wrap_int64 ((2 ^ 64 - n % 2 ^ 64 - 1) * unit)

pub record Config : Type 0 where
  pub nats_url : Bytes
  pub subject_presence : Bytes
  pub subject_ingress_prefix : Bytes
  pub auth_url : Bytes
  pub auth_api_key : Bytes
  pub auth_timeout : ℤ
  pub worker_pool_size : ℤ
  pub buffer_size : ℤ
  pub cache_l1_path : Bytes
  pub cache_l1_ttl : ℤ
  pub cache_l2_endpoint : Bytes
  pub cache_l2_access_key : Bytes
  pub cache_l2_secret_key : Bytes
  pub cache_l2_bucket : Bytes
  pub cache_l2_use_ssl : Bool
  pub fanout_invalidate_subject : Bytes

abbrev pub default_subject_presence : Bytes
default_subject_presence = codes "dev.mapexos.mqtt.presence.advisory"

abbrev pub default_subject_ingress_prefix : Bytes
default_subject_ingress_prefix = codes "dev.mapexos.mqtt.data"

abbrev pub default_worker_pool_size : ℤ
default_worker_pool_size = pos 4

abbrev pub default_buffer_size : ℤ
default_buffer_size = pos 10_000

abbrev pub default_auth_timeout : ℤ
default_auth_timeout = pos (5 * second)

abbrev pub default_cache_l1_path : Bytes
default_cache_l1_path = codes "/var/cache/mqtt"

abbrev pub default_cache_l1_ttl : ℤ
default_cache_l1_ttl = pos (30 * minute)

abbrev pub default_cache_l2_bucket : Bytes
default_cache_l2_bucket = codes "mapex-asset-auth"

abbrev pub default_fanout_invalidate_subject : Bytes
default_fanout_invalidate_subject = codes "mapexos.fanout.asset.invalidate"

pub data ConfigError : Type 0 where
  nats_url_required auth_url_required auth_api_key_required : ConfigError

pub data Loaded : Type 0 where
  loaded : Config → Loaded
  invalid : ConfigError → Loaded

unfoldable pub string_or_default : Options → Bytes → Bytes → Bytes
string_or_default opts key fallback =
    let v = trim_space (get opts key) in if not (is_empty v) then v else fallback

-- `n, err := strconv.Atoi(v); if err != nil || n <= 0 { return fallback }`.
pub positive_or : Option ℤ → ℤ → ℤ
positive_or none fallback = fallback
positive_or (some n) fallback = if not (is_positive n) then fallback else n

unfoldable pub int_or_default : Options → Bytes → ℤ → ℤ
unfolding positive_or
int_or_default opts key fallback =
    let v = trim_space (get opts key) in
    if is_empty v then fallback else positive_or (atoi v) fallback

-- `if n := intOrDefault(opts, key, 0); n > 0 { … = time.Duration(n) * unit }`.
unfoldable pub duration_or_default : Options → Bytes → ℕ → ℤ → ℤ
duration_or_default opts key unit fallback =
    let n = int_or_default opts key (pos 0) in if is_positive n then times n unit else fallback

-- The composite literal at the end of `LoadConfig`.
pub config_of : Platform → Options → Bytes → Bytes → Bytes → Config
config_of env opts nats_url auth_url auth_key = record {
  nats_url = nats_url;
  subject_presence =
      string_or_default opts (codes "nats_subject_presence") default_subject_presence;
  subject_ingress_prefix =
      string_or_default opts (codes "nats_subject_ingress_prefix") default_subject_ingress_prefix;
  auth_url = auth_url;
  auth_api_key = auth_key;
  auth_timeout =
      duration_or_default opts (codes "auth_timeout_seconds") second default_auth_timeout;
  worker_pool_size = int_or_default opts (codes "worker_pool_size") default_worker_pool_size;
  buffer_size = int_or_default opts (codes "buffer_size") default_buffer_size;
  cache_l1_path = string_or_default opts (codes "cache_l1_path") default_cache_l1_path;
  cache_l1_ttl =
      duration_or_default opts (codes "cache_l1_ttl_minutes") minute default_cache_l1_ttl;
  cache_l2_endpoint = trim_space (get opts (codes "cache_l2_endpoint"));
  cache_l2_access_key = trim_space (get opts (codes "cache_l2_access_key"));
  cache_l2_secret_key = trim_space (get opts (codes "cache_l2_secret_key"));
  cache_l2_bucket = default_cache_l2_bucket;
  cache_l2_use_ssl =
      equal_fold env.unicode_fold (trim_space (get opts (codes "cache_l2_use_ssl"))) (codes "true");
  fanout_invalidate_subject =
      string_or_default opts (codes "fanout_invalidate_subject") default_fanout_invalidate_subject;
}

unfoldable pub load_config : Platform → Options → Loaded
unfolding config_of
load_config env opts =
    let nats_url = trim_space (get opts (codes "nats_url")) in
    let auth_url = trim_space (get opts (codes "auth_url")) in
    let auth_key = trim_space (get opts (codes "auth_api_key")) in
    if is_empty nats_url
    then invalid nats_url_required
    else if is_empty auth_url
    then invalid auth_url_required
    else if is_empty auth_key
    then invalid auth_api_key_required
    else loaded (config_of env opts nats_url auth_url auth_key)
