-- ===== src/Config/Required.antt =====
-- What `LoadConfig` refuses, and what every loaded configuration has.
use mapex_mqttbroker.GoText.Decimal.{atoi}
use mathlib.Core.List.{cons-ne-nil}
use mapex_mqttbroker.Common.{
  ℕ, zero, suc, ◌≡◌, refl, subst, ◌≢◌, ◌↔◌, inl, inr, true, Option, none, some, [], arith,
  Bool-cases, is_empty, is_empty_iff, Bytes, codes,
}
use mapex_mqttbroker.Common.Int.{ℤ, pos, negsuc, is_positive}
use mapex_mqttbroker.GoText.Trim.{trim_space}
use mapex_mqttbroker.Platform.{Platform}
use mapex_mqttbroker.Publisher.{fresh, new_async_publisher, built}
use mapex_mqttbroker.Config.{
  Options, Config, loaded, invalid, ConfigError, nats_url_required, auth_url_required,
  auth_api_key_required, get, string_or_default, int_or_default, positive_or, config_of,
  load_config,
}

abbrev pub option : Options → Bytes → Bytes
option opts key = trim_space (get opts key)

-- Which required options are missing decides the error.
abbrev pub Refusal : Options → ConfigError → Type 0
Refusal opts nats_url_required = option opts (codes "nats_url") ≡ []
Refusal opts auth_url_required =
    (option opts (codes "nats_url") ≢ []) × (option opts (codes "auth_url") ≡ [])
Refusal opts auth_api_key_required =
    (option opts (codes "nats_url") ≢ [])
    × (option opts (codes "auth_url") ≢ [])
    × (option opts (codes "auth_api_key") ≡ [])

-- `LoadConfig` fails exactly when a required option is missing or blank, and names the first such
-- option in the order `nats_url`, `auth_url`, `auth_api_key`.
pub load_config-eq-invalid_iff :
    (env : Platform) (opts : Options) (e : ConfigError)
    → (load_config env opts ≡ invalid e) ↔ Refusal opts e
unfolding load_config
load_config-eq-invalid_iff env opts nats_url_required =
    ground (arith, is_empty_iff (option opts (codes "nats_url")))
load_config-eq-invalid_iff env opts auth_url_required = ground (
  arith,
  is_empty_iff (option opts (codes "nats_url")),
  is_empty_iff (option opts (codes "auth_url")),
)
load_config-eq-invalid_iff env opts auth_api_key_required = ground (
  arith,
  is_empty_iff (option opts (codes "nats_url")),
  is_empty_iff (option opts (codes "auth_url")),
  is_empty_iff (option opts (codes "auth_api_key")),
)

string_or_default-ne-nil :
    (opts : Options) (key fallback : Bytes)
    → fallback ≢ []
    → string_or_default opts key fallback ≢ []
unfolding string_or_default
string_or_default-ne-nil opts key fallback h = ground (arith, is_empty_iff (option opts key))

positive_or_positive :
    (o : Option ℤ) (fallback : ℤ)
    → is_positive fallback ≡ true
    → is_positive (positive_or o fallback) ≡ true
unfolding positive_or
positive_or_positive none fallback h = h
positive_or_positive (some n) fallback h = ground arith

int_or_default_positive :
    (opts : Options) (key : Bytes) (fallback : ℤ)
    → is_positive fallback ≡ true
    → is_positive (int_or_default opts key fallback) ≡ true
unfolding int_or_default
int_or_default_positive opts key fallback h = elim (Bool-cases (is_empty (option opts key))) [
  | inl e ↦ rw e h
  | inr e ↦ rw e (positive_or_positive (atoi (option opts key)) fallback h)
]

-- A configuration that the rest of the plugin can start from.
pub record IsRunnable (opts : Options) (c : Config) : Type 0 where
  pub connects : (c.nats_url ≡ option opts (codes "nats_url")) × (c.nats_url ≢ [])
  pub calls : (c.auth_url ≡ option opts (codes "auth_url")) × (c.auth_url ≢ [])
  pub signs : (c.auth_api_key ≡ option opts (codes "auth_api_key")) × (c.auth_api_key ≢ [])
  pub addressed : (c.subject_presence ≢ []) × (c.subject_ingress_prefix ≢ [])
  pub invalidated : c.fanout_invalidate_subject ≢ []
  pub cached : c.cache_l1_path ≢ []
  pub sized : (is_positive c.worker_pool_size ≡ true) × (is_positive c.buffer_size ≡ true)

config_of-IsRunnable :
    (env : Platform) (opts : Options)
    → option opts (codes "nats_url") ≢ []
    → option opts (codes "auth_url") ≢ []
    → option opts (codes "auth_api_key") ≢ []
    → IsRunnable opts (
        config_of env opts
          (option opts (codes "nats_url"))
          (option opts (codes "auth_url"))
          (option opts (codes "auth_api_key")))
unfolding config_of
config_of-IsRunnable env opts n u k = record {
  connects = (refl, n);
  calls = (refl, u);
  signs = (refl, k);
  addressed = (
    string_or_default-ne-nil opts _ _ (cons-ne-nil _ _),
    string_or_default-ne-nil opts _ _ (cons-ne-nil _ _),
  );
  invalidated = string_or_default-ne-nil opts _ _ (cons-ne-nil _ _);
  cached = string_or_default-ne-nil opts _ _ (cons-ne-nil _ _);
  sized = (int_or_default_positive opts _ _ refl, int_or_default_positive opts _ _ refl);
}

-- Every configuration that `LoadConfig` returns carries the three required options, trimmed and not
-- empty, subjects and an L1 path that are not empty, and positive pool and buffer sizes.
pub load_config-IsRunnable :
    (env : Platform) (opts : Options) (c : Config)
    → load_config env opts ≡ loaded c
    → IsRunnable opts c
unfolding load_config
load_config-IsRunnable env opts c h = subst (IsRunnable opts) (ground arith) (
    config_of-IsRunnable env opts (ground (arith, is_empty_iff (option opts (codes "nats_url"))))
      (ground (arith, is_empty_iff (option opts (codes "auth_url"))))
      (ground (arith, is_empty_iff (option opts (codes "auth_api_key")))))

new_async_publisher_positive :
    (b w : ℤ)
    → is_positive w ≡ true
    → is_positive b ≡ true
    → (m : ℕ) × (n : ℕ) × (new_async_publisher true b w ≡ built (fresh (suc m) (suc n)))
unfolding new_async_publisher
new_async_publisher_positive (pos (suc m)) (pos (suc n)) h k = (m, n, refl)
new_async_publisher_positive (negsuc _) w h k = absurd (ground arith)
new_async_publisher_positive (pos zero) w h k = absurd (ground arith)
new_async_publisher_positive (pos (suc m)) (pos zero) h k = absurd (ground arith)
new_async_publisher_positive (pos (suc m)) (negsuc _) h k = absurd (ground arith)

-- `NewAsyncPublisher` never refuses the sizes of a loaded configuration.
load_config-new_async_publisher :
    (env : Platform) (opts : Options) (c : Config)
    → load_config env opts ≡ loaded c
    → (b : ℕ) × (w : ℕ) × (new_async_publisher true c.buffer_size c.worker_pool_size
        ≡ built (fresh (suc b) (suc w)))
load_config-new_async_publisher env opts c h =
    let v = load_config-IsRunnable env opts c h in
    new_async_publisher_positive c.buffer_size c.worker_pool_size v.sized.0 v.sized.1
