-- ===== src/Callbacks/Deadline.antt =====
-- The deadline that src/plugin/main.go gives `Authenticate`, from the option that src/config.go reads.
use mapex_mqttbroker.Common.{
  ℕ, suc, ◌*◌, ◌^◌, ◌<◌, ◌≡◌, refl, ap, ◌∙◌, inl, inr, none, some, arith, ltb, ltb→lt,
  if◌then◌else◌, Bool-cases, codes,
}
use mapex_mqttbroker.Common.Int.{pos}
use mapex_mqttbroker.Callbacks.{context_with_timeout}
use mapex_mqttbroker.Config.{
  Options, Config, loaded, second, int_or_default, duration_or_default, default_auth_timeout,
  load_config,
}
use mapex_mqttbroker.Config.Durations.{duration_or_default_exact, duration_or_default_wraps}
use mapex_mqttbroker.Platform.{Platform}

load_config_timeout :
    (env : Platform) (opts : Options) (cfg : Config)
    → load_config env opts ≡ loaded cfg
    → cfg.auth_timeout
      ≡ duration_or_default opts (codes "auth_timeout_seconds") second default_auth_timeout
unfolding load_config
load_config_timeout env opts cfg h = ground arith

-- Where `auth_timeout_seconds` gives a positive number of seconds, below 2^64 nanoseconds, a
-- CONNECT has that deadline if it is below 2^63 nanoseconds, and none at all if it is not.
pub timeout_deadline :
    (env : Platform) (opts : Options) (cfg : Config) (n : ℕ)
    → load_config env opts ≡ loaded cfg
    → int_or_default opts (codes "auth_timeout_seconds") (pos 0) ≡ pos (suc n)
    → suc n * second < 2 ^ 64
    → context_with_timeout cfg.auth_timeout
      ≡ (if ltb (suc n * second) (2 ^ 63) then some (pos (suc n * second)) else none)
unfolding context_with_timeout
timeout_deadline env opts cfg n read given fits =
    ap context_with_timeout (load_config_timeout env opts cfg read)
    ∙ (elim (Bool-cases (ltb (suc n * second) (2 ^ 63))) [
      | inl e ↦
          rw
            (
              e,
              duration_or_default_exact opts (codes "auth_timeout_seconds") second
                  default_auth_timeout n given (ltb→lt _ _ e),
            )
            (ground arith)
      | inr e ↦
          rw
            (
              e,
              duration_or_default_wraps opts (codes "auth_timeout_seconds") second
                  default_auth_timeout n given (ground arith) fits,
            )
            refl
    ])
